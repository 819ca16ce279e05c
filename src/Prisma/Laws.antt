-- ===== src/Prisma/Laws.antt =====
-- What follows from the laws of the client for the queries that the services make.
use rag_stack_monorepo.Prelude.{
  ℕ, ◌<◌, ◌≡◌, ◌≢◌, inl, inr, refl, sym, ◌∙◌, Bool, true, false, Option, none, some, List, [], ◌∷◌,
  In, Eq, if◌then◌else◌, head, length, arith, Bool-cases, Option-cases, ap, ◌≤◌, In-All,
}
use rag_stack_monorepo.Prisma.{Prisma, find_first, count}

module _ (p : Prisma) {K R : Type 0} ⦃e : Eq K⦄ where
  abbrev pub keep : (K → R → Bool) → K → Option R → Option (K × R)
  keep where_ k none = none
  keep where_ k (some r) = if where_ k r then some (k, r) else none

  pub find_first_sound :
      (order : R → ℕ) (where_ : K → R → Bool) (t : p.Table K R) (k : K) (r : R)
      → find_first p order where_ t ≡ some (k, r)
      → (p.find_unique k t ≡ some r) × (where_ k r ≡ true)
  find_first_sound order where_ t k r h = go (p.find_many order where_ t) refl h
    where
      go :
          (rows : List (K × R))
          → p.find_many order where_ t ≡ rows
          → head rows ≡ some (k, r)
          → (p.find_unique k t ≡ some r) × (where_ k r ≡ true)
      go [] q g = cc
      go (x ∷ rows) q g = (p.find_many_iff order where_ t k r).0 (rw q (inl (cc g)))

  pub find_first-none :
      (order : R → ℕ) (where_ : K → R → Bool) (t : p.Table K R) (k : K) (r : R)
      → find_first p order where_ t ≡ none
      → p.find_unique k t ≡ some r
      → where_ k r ≡ false
  find_first-none order where_ t k r h f = go (p.find_many order where_ t) refl h
    where
      go :
          (rows : List (K × R))
          → p.find_many order where_ t ≡ rows
          → head rows ≡ none
          → where_ k r ≡ false
      go [] q g = elim (Bool-cases (where_ k r)) [
        | inl w ↦ absurd (rw q at ((p.find_many_iff order where_ t k r).1 (f, w)))
        | inr w ↦ w
      ]
      go (x ∷ rows) q g = cc

  -- `findFirst` under a condition that fixes the key is a look-up and a test.
  pub find_first_by_key :
      (order : R → ℕ) (where_ : K → R → Bool) (t : p.Table K R) (k : K)
      → ((j : K) (r : R) → where_ j r ≡ true → j ≡ k)
      → find_first p order where_ t ≡ keep where_ k (p.find_unique k t)
  find_first_by_key order where_ t k fixed = elim (Option-cases (find_first p order where_ t)) [
    | inl missed ↦ elim (Option-cases (p.find_unique k t)) [
      | inl n ↦ rw (missed, n)
      | inr (r, f) ↦ rw (missed, f, find_first-none order where_ t k r missed f)
    ]
    | inr ((j, r), found) ↦
        let (f, w) = find_first_sound order where_ t j r found in
        let q : j ≡ k = fixed j r w in rw (found, ← q, f, w)
  ]

  -- If at least two rows are counted, one of them is under another key than the given one.
  pub count_two :
      (where_ : K → R → Bool) (t : p.Table K R) (k : K)
      → 1 < count p where_ t
      → (j : K) × (r : R) × (j ≢ k) × (p.find_unique j t ≡ some r) × (where_ j r ≡ true)
  count_two where_ t k two = go (p.find_many (λ _. 0) where_ t) refl two
    where
      in_rows :
          (rows : List (K × R))
          → p.find_many (λ _. 0) where_ t ≡ rows
          → (j : K) (r : R) → In (j, r) rows
          → (p.find_unique j t ≡ some r) × (where_ j r ≡ true)
      in_rows rows q j r i = (p.find_many_iff (λ _. 0) where_ t j r).0 (rw q i)

      go :
          (rows : List (K × R))
          → p.find_many (λ _. 0) where_ t ≡ rows
          → 1 < length rows
          → (j : K) × (r : R) × (j ≢ k) × (p.find_unique j t ≡ some r) × (where_ j r ≡ true)
      go [] q less = absurd (omega arith)
      go (x ∷ []) q less = absurd (omega arith)
      go ((a, r) ∷ (b, s) ∷ rows) q less = elim (Bool-cases (e.beq a k)) [
        | inl same ↦
            let apart = (rw q at (p.find_many-Distinct (λ _. 0) where_ t)).0 in
            let (f, w) = in_rows _ q b s (inr (inl refl)) in
            (b, s, λ h. apart (inl ((e.beq_iff a k).0 same ∙ sym h)), f, w)
        | inr other ↦
            let (f, w) = in_rows _ q a r (inl refl) in
            (a, r, λ h. cc (other, (e.beq_iff a k).1 h), f, w)
      ]

  -- The row that comes after all others in the order is the first in descending order.
  pub find_first_max :
      (order : R → ℕ) (where_ : K → R → Bool) (t : p.Table K R) (k : K) (r : R)
      → p.find_unique k t ≡ some r
      → where_ k r ≡ true
      → ((j : K) (s : R)
          → e.beq k j ≡ false
          → p.find_unique j t ≡ some s
          → where_ j s ≡ true
          → order s < order r)
      → find_first p order where_ t ≡ some (k, r)
  find_first_max order where_ t k r f w older = go (p.find_many order where_ t) refl
    where
      best :
          (j : K) (s : R) (rows : List (K × R))
          → p.find_many order where_ t ≡ (j, s) ∷ rows
          → In (k, r) ((j, s) ∷ rows)
          → p.find_unique j t ≡ some s
          → where_ j s ≡ true
          → ◌≡◌ {A = Option (K × R)} (some (j, s)) (some (k, r))
      best j s rows q (inl i) fj wj = ap some (sym i)
      best j s rows q (inr i) fj wj = elim (Bool-cases (e.beq k j)) [
        | inl same ↦
            let kj = (e.beq_iff k j).0 same in cc (kj, f, fj, ap (λ x. p.find_unique x t) kj)
        | inr other ↦
            let top = (rw q at (p.find_many-IsDescending order where_ t)).0 in
            let le : order r ≤ order s = In-All (λ y. order y.1 ≤ order s) rows (k, r) top i in
            absurd (omega (arith, le, older j s other fj wj))
      ]

      go : (rows : List (K × R)) → p.find_many order where_ t ≡ rows → head rows ≡ some (k, r)
      go [] q = absurd (rw q at ((p.find_many_iff order where_ t k r).1 (f, w)))
      go ((j, s) ∷ rows) q =
          let (fj, wj) = (p.find_many_iff order where_ t j s).0 (rw q (inl refl)) in
          best j s rows q (rw q at ((p.find_many_iff order where_ t k r).1 (f, w))) fj wj

  pub find_first-eq-none :
      (order : R → ℕ) (where_ : K → R → Bool) (t : p.Table K R)
      → ((k : K) (r : R) → p.find_unique k t ≡ some r → where_ k r ≡ false)
      → find_first p order where_ t ≡ none
  find_first-eq-none order where_ t unmatched = elim (Option-cases (find_first p order where_ t)) [
    | inl n ↦ n
    | inr ((k, r), found) ↦
        let (f, w) = find_first_sound order where_ t k r found in cc (w, unmatched k r f)
  ]
