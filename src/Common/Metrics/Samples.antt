-- ===== src/Common/Metrics/Samples.antt =====
-- The samples and the statistics of
-- services/api/src/common/observability/metrics.service.ts.
use rag_stack_monorepo.Prelude.{
  ℕ, zero, suc, ◌-◌, ◌≤◌, String, ◌≡◌, inl, inr, List, [], ◌∷◌, ◌++◌, arith, ◌==◌, Bool-cases,
  string_eq, pair_eq, length, All, ◌<◌, In, Bool, leb, ◌↔◌, ◌∙◌, Option, All-map, In-All, Pairwise,
}
use mathlib.Core.Logic.{inl, inr}
use mathlib.Core.Path.{refl, ◌∙◌}
use mathlib.Core.Option.{none, some, Option}
use rag_stack_monorepo.Common.Metrics.{
  Metrics, drop, assign, push_sample, record_duration, insert_number, sort_numbers, HistogramStats,
  stats_of_sorted, to_histogram_stats, at, percentile, index_of, build_key, or_default, lookup,
}

length-drop : (n : ℕ) (xs : List ℕ) → length (drop n xs) ≡ length xs - n
length-drop zero xs = omega arith
length-drop (suc n) [] = omega arith
length-drop (suc n) (x ∷ xs) = omega (arith, length-drop n xs)

length-snoc : (xs : List ℕ) (n : ℕ) → length (xs ++ (n ∷ [])) ≡ suc (length xs)
length-snoc [] n = omega arith
length-snoc (x ∷ xs) n = omega (arith, length-snoc xs n)

push_sample-le : (xs : List ℕ) (n : ℕ) → length (push_sample xs n) ≤ 500
unfolding push_sample
push_sample-le xs n = ground (arith, length-drop (length (xs ++ (n ∷ [])) - 500) (xs ++ (n ∷ [])))

-- Every histogram holds at most 500 samples.
abbrev pub Few : Metrics → Type 0
Few m = All (λ (h : String × List ℕ). length h.1 ≤ 500) m.histograms

assign-All :
    (key : String) (value : List ℕ) (acc : List (String × List ℕ))
    → length value ≤ 500
    → All (λ (h : String × List ℕ). length h.1 ≤ 500) acc
    → All (λ (h : String × List ℕ). length h.1 ≤ 500) (assign key value acc)
unfolding assign
assign-All key value [] h g = (h, tt)
assign-All key value ((k, v) ∷ acc) h g = elim (Bool-cases (k == key)) [
  | inl t ↦ rw t (h, g.1)
  | inr f ↦ rw f (g.0, assign-All key value acc h g.1)
]

-- Recording a duration keeps every histogram at 500 samples at most.
pub record_duration-Few :
    (locale_after : String → String → Bool) (name : String) (duration : Option ℕ)
    (tags : List (String × Option String)) (m : Metrics)
    → Few m
    → Few (record_duration locale_after name duration tags m)
unfolding record_duration
record_duration-Few locale_after name none tags m h = h
record_duration-Few locale_after name (some n) tags m h =
    assign-All (build_key locale_after name tags) _ m.histograms
      (push_sample-le (or_default (lookup (build_key locale_after name tags) m.histograms) []) n) h

abbrev Ascending : List ℕ → Type 0
Ascending = Pairwise (λ a b. a ≤ b)

insert-All :
    (a n : ℕ) (xs : List ℕ) → a ≤ n → All (λ b. a ≤ b) xs → All (λ b. a ≤ b) (insert_number n xs)
unfolding insert_number
insert-All a n [] h g = (h, tt)
insert-All a n (x ∷ xs) h g = elim (Bool-cases (leb n x)) [
  | inl t ↦ rw t (h, g)
  | inr f ↦ rw f (g.0, insert-All a n xs h g.1)
]

insert-Ascending : (n : ℕ) (xs : List ℕ) → Ascending xs → Ascending (insert_number n xs)
unfolding insert_number
insert-Ascending n [] h = (tt, tt)
insert-Ascending n (x ∷ xs) h = elim (Bool-cases (leb n x)) [
  | inl t ↦
      let below : n ≤ x = ground (arith, t) in
      rw t ((below, All-map (λ b (g : x ≤ b). omega (arith, g)) xs h.0), h)
  | inr f ↦ rw f (insert-All x n xs (ground (arith, f)) h.0, insert-Ascending n xs h.1)
]

sort-Ascending : (xs : List ℕ) → Ascending (sort_numbers xs)
unfolding sort_numbers
sort-Ascending [] = tt
sort-Ascending (x ∷ xs) = insert-Ascending x (sort_numbers xs) (sort-Ascending xs)

length-insert : (n : ℕ) (xs : List ℕ) → length (insert_number n xs) ≡ suc (length xs)
unfolding insert_number
length-insert n [] = omega arith
length-insert n (x ∷ xs) = ground (arith, length-insert n xs)

length-sort : (xs : List ℕ) → length (sort_numbers xs) ≡ length xs
unfolding sort_numbers
length-sort [] = refl
length-sort (x ∷ xs) = omega (arith, length-insert x (sort_numbers xs), length-sort xs)

In-insert_iff : (a n : ℕ) (xs : List ℕ) → In a (insert_number n xs) ↔ In a (n ∷ xs)
unfolding insert_number
In-insert_iff a n [] = (λ h. h, λ h. h)
In-insert_iff a n (x ∷ xs) = ground (arith, In-insert_iff a n xs)

In-sort_iff : (a : ℕ) (xs : List ℕ) → In a (sort_numbers xs) ↔ In a xs
unfolding sort_numbers
In-sort_iff a [] = (λ h. h, λ h. h)
In-sort_iff a (x ∷ xs) = ground (arith, In-insert_iff a x (sort_numbers xs), In-sort_iff a xs)

In-at : (xs : List ℕ) (i : ℕ) → i < length xs → In (at xs i) xs
In-at [] i h = absurd (omega arith)
In-at (x ∷ xs) zero h = inl refl
In-at (x ∷ xs) (suc i) h = inr (In-at xs i (omega arith))

at-le : (xs : List ℕ) (i j : ℕ) → Ascending xs → i ≤ j → j < length xs → at xs i ≤ at xs j
at-le [] i j h g k = absurd (omega arith)
at-le (x ∷ xs) zero zero h g k = omega arith
at-le (x ∷ xs) zero (suc j) h g k = In-All (λ b. x ≤ b) xs (at xs j) h.0 (In-at xs j (omega arith))
at-le (x ∷ xs) (suc i) zero h g k = absurd (omega arith)
at-le (x ∷ xs) (suc i) (suc j) h g k = at-le xs i j h.1 (omega arith) (omega arith)

le-end :
    (x : ℕ) (xs : List ℕ) (a : ℕ) → Ascending (x ∷ xs) → In a (x ∷ xs) → a ≤ at (x ∷ xs) (length xs)
le-end x [] a h (inl e) = ground (arith, e)
le-end x [] a h (inr m) = absurd m
le-end x (y ∷ ys) a h (inl e) = omega (arith, e, h.0.0, le-end y ys y h.1 (inl refl))
le-end x (y ∷ ys) a h (inr m) = le-end y ys a h.1 m

le-last : (xs : List ℕ) (a : ℕ) → Ascending xs → In a xs → a ≤ at xs (length xs - 1)
le-last [] a h m = absurd m
le-last (x ∷ xs) a h m =
    let same : length (x ∷ xs) - 1 ≡ length xs = omega arith in rw same (le-end x xs a h m)

-- The statistics of samples, which there are.
pub record Describes (xs : List ℕ) (s : HistogramStats) : Type 0 where
  pub count : s.count ≡ length xs
  pub p50 : In s.p50 xs
  pub p95 : In s.p95 xs
  pub max_ : In s.max xs
  pub p50_le : s.p50 ≤ s.p95
  pub p95_le : s.p95 ≤ s.max
  pub all_le : (a : ℕ) → In a xs → a ≤ s.max

sorted_described : (xs : List ℕ) → 0 < length xs → Ascending xs → Describes xs (stats_of_sorted xs)
unfolding stats_of_sorted percentile
sorted_described xs pos h = record {
  count = refl;
  p50 = In-at xs (index_of (length xs) 1 2) (omega arith);
  p95 = In-at xs (index_of (length xs) 19 20) (omega arith);
  max_ = In-at xs (length xs - 1) (omega arith);
  p50_le =
      at-le xs (index_of (length xs) 1 2) (index_of (length xs) 19 20) h (omega arith)
        (omega arith);
  p95_le = at-le xs (index_of (length xs) 19 20) (length xs - 1) h (omega arith) (omega arith);
  all_le = λ a m. le-last xs a h m;
}

-- Of samples, of which there is one at least, the statistics give the number; the median, the 95th
-- percentile and the maximum are samples, in ascending order; and no sample is above the maximum.
pub to_histogram_stats-Describes :
    (xs : List ℕ) → 0 < length xs → Describes xs (to_histogram_stats xs)
unfolding to_histogram_stats
to_histogram_stats-Describes [] h = absurd (omega arith)
to_histogram_stats-Describes (x ∷ xs) h =
    let d =
      sorted_described (sort_numbers (x ∷ xs)) (omega (arith, length-sort (x ∷ xs)))
        (sort-Ascending (x ∷ xs)) in
    record {
      count = d.count ∙ length-sort (x ∷ xs);
      p50 = (In-sort_iff _ (x ∷ xs)).0 d.p50;
      p95 = (In-sort_iff _ (x ∷ xs)).0 d.p95;
      max_ = (In-sort_iff _ (x ∷ xs)).0 d.max_;
      p50_le = d.p50_le;
      p95_le = d.p95_le;
      all_le = λ a m. d.all_le a ((In-sort_iff a (x ∷ xs)).1 m);
    }
