-- ===== src/Evals/Reporting/Counts.antt =====
-- The counts and rates of `buildRunSummary` of
-- services/api/src/evals/eval-reporting.utils.ts beside the run's items.
use rag_stack_monorepo.Prelude.{
  ℕ, ◌+◌, ◌*◌, ◌≤◌, ◌<◌, String, ◌≡◌, inl, inr, Bool, List, [], ◌∷◌, arith, ◌==◌, eq_iff, eqb,
  if◌then◌else◌, Bool-cases, string_eq, pair_eq, length, ◌&&◌, ◌∙◌, ap, sym,
}
use mathlib.Core.Bool.{true, false}
use mathlib.Core.Path.{subst, ap, sym}
use native.Mathlib.Nat.{div-lt_iff_lt-mul}
use rag_stack_monorepo.Evals.Reporting.{
  EvalRunItemSnapshot, CategoryEntry, category_name, rate, count_of, bump, tally, no_cases,
  add_case, with_case, by_category,
}

pub rate-le : (passed total : ℕ) → passed ≤ total → rate passed total ≤ 10000
unfolding rate
rate-le passed total h = elim (Bool-cases (eqb total 0)) [
  | inl z ↦ ground arith
  | inr n ↦
      let pos : 0 < 2 * total = ground arith in
      let small =
        (div-lt_iff_lt-mul {k = 2 * total} {x = 20000 * passed + total} {y = 10001} pos).1
          (omega arith) in
      ground (arith, small)
]

pub count-le : {A : Type 0} (p : A → Bool) (xs : List A) → count_of p xs ≤ length xs
count-le p [] = omega arith
count-le p (x ∷ xs) = ground (arith, count-le p xs)

-- The number that stands under a key, 0 where there is none.
abbrev pub number_at : List (String × ℕ) → String → ℕ
number_at [] key = 0
number_at ((k, n) ∷ acc) key = if k == key then n else number_at acc key

number_at-bump :
    (key other : String) (acc : List (String × ℕ))
    → number_at (bump key acc) other
      ≡ (if key == other then 1 + number_at acc other else number_at acc other)
unfolding bump
number_at-bump key other [] = ground arith
number_at-bump key other ((k, n) ∷ acc) =
    ground (arith, number_at-bump key other acc, eq_iff k key, eq_iff key other, eq_iff k other)

pub number_at-tally :
    (keys : List String) (acc : List (String × ℕ)) (key : String)
    → number_at (tally acc keys) key ≡ number_at acc key + count_of (λ k. k == key) keys
unfolding tally
number_at-tally [] acc key = omega arith
number_at-tally (k ∷ keys) acc key =
    ground (arith, number_at-tally keys (bump k acc) key, number_at-bump k key acc)

-- The numbers of a tally together.
abbrev pub total_of : List (String × ℕ) → ℕ
total_of [] = 0
total_of ((k, n) ∷ acc) = n + total_of acc

total_of-bump :
    (key : String) (acc : List (String × ℕ)) → total_of (bump key acc) ≡ 1 + total_of acc
unfolding bump
total_of-bump key [] = omega arith
total_of-bump key ((k, n) ∷ acc) = ground (arith, total_of-bump key acc)

pub total_of-tally :
    (keys : List String) (acc : List (String × ℕ))
    → total_of (tally acc keys) ≡ total_of acc + length keys
unfolding tally
total_of-tally [] acc = omega arith
total_of-tally (k ∷ keys) acc =
    ground (arith, total_of-tally keys (bump k acc), total_of-bump k acc)

-- The entry under a key; the one without cases where there is none.
abbrev pub entry_at : List (String × CategoryEntry) → String → CategoryEntry
entry_at [] key = no_cases
entry_at ((k, e) ∷ acc) key = if k == key then e else entry_at acc key

abbrev pub in_category : String → EvalRunItemSnapshot → Bool
in_category key i = category_name i.breakdown.case_category == key

abbrev pub passes : EvalRunItemSnapshot → Bool
passes i = i.passed

-- The entry has these numbers, and their quotient as its rate.
abbrev pub Tallied : CategoryEntry → ℕ → ℕ → Type 0
Tallied e total passed =
    (e.total_cases ≡ total) × ((e.passed_cases ≡ passed) × (e.pass_rate ≡ rate passed total))

abbrev pub passes_in : String → EvalRunItemSnapshot → Bool
passes_in key i = in_category key i && passes i

entry_at-add_case :
    (key other : String) (b : Bool) (acc : List (String × CategoryEntry))
    → entry_at (add_case key b acc) other
      ≡ (if key == other then with_case (entry_at acc key) b else entry_at acc other)
unfolding add_case
entry_at-add_case key other b [] = ground arith
entry_at-add_case key other b ((k, e) ∷ acc) =
    ground
      (arith, entry_at-add_case key other b acc, eq_iff k key, eq_iff key other, eq_iff k other)

with_case-Tallied :
    (e : CategoryEntry) (b : Bool) (total passed : ℕ)
    → Tallied e total passed
    → Tallied (with_case e b) (1 + total) ((if b then 1 else 0) + passed)
unfolding with_case
with_case-Tallied e true total passed h = ground arith
with_case-Tallied e false total passed h = ground arith

pub entry_at-by_category :
    (items : List EvalRunItemSnapshot) (acc : List (String × CategoryEntry)) (key : String)
    (total passed : ℕ)
    → Tallied (entry_at acc key) total passed
    → Tallied
        (entry_at (by_category acc items) key)
        (count_of (in_category key) items + total)
        (count_of (passes_in key) items + passed)
unfolding by_category
entry_at-by_category [] acc key total passed h = ground arith
entry_at-by_category (i ∷ is) acc key total passed h =
    let name = category_name i.breakdown.case_category in
    let here = entry_at-add_case name key i.passed acc in
    elim (Bool-cases (name == key)) [
      | inl t ↦
          let same : entry_at (add_case name i.passed acc) key
              ≡ with_case (entry_at acc key) i.passed =
            (rw t at here)
            ∙ ap (λ (n : String). with_case (entry_at acc n) i.passed) ((eq_iff name key).0 t) in
          let more = with_case-Tallied (entry_at acc key) i.passed total passed h in
          ground (
            arith,
            entry_at-by_category is (add_case name i.passed acc) key (1 + total)
                ((if i.passed then 1 else 0) + passed)
                (subst
                  (λ (e : CategoryEntry).
                    Tallied e (1 + total) ((if i.passed then 1 else 0) + passed))
                  (sym same) more),
          )
      | inr f ↦ ground (
        arith,
        entry_at-by_category is (add_case name i.passed acc) key total passed
            (subst (λ (e : CategoryEntry). Tallied e total passed) (sym (rw f at here)) h),
      )
    ]
