-- ===== src/Prisma/Lists.antt =====
-- The client's parameter filled: a table is a list of rows, the newest write first. It shows that
-- the laws of `Prisma` can hold together, and the examples run on it.
use mathlib.Core.Option
use rag_stack_monorepo.Prelude.{
  ℕ, ◌≤◌, ◌≡◌, ◌↔◌, ◌⊎◌, inl, inr, refl, ap, Bool, true, false, Option, none, some, List, [], ◌∷◌,
  In, All, Distinct, Eq, map, if◌then◌else◌, filter, leb, leb→le, arith, Bool-cases, In-filter,
  In-of_filter,
}
use rag_stack_monorepo.Prisma.{Prisma, IsDescending}

module _ {K R : Type 0} ⦃e : Eq K⦄ where
  unfoldable pub find : K → List (K × R) → Option R
  find k [] = none
  find k ((j, r) ∷ t) = if e.beq j k then some r else find k t

  unfoldable pub remove : K → List (K × R) → List (K × R)
  remove k [] = []
  remove k ((j, r) ∷ t) = let rest = remove k t in if e.beq j k then rest else (j, r) ∷ rest

  unfoldable pub write : K → R → List (K × R) → List (K × R)
  write k r t = (k, r) ∷ remove k t

  unfoldable pub rewrite : (K → R → Bool) → (R → R) → List (K × R) → List (K × R)
  rewrite where_ f [] = []
  rewrite where_ f ((k, r) ∷ t) = (k, if where_ k r then f r else r) ∷ rewrite where_ f t

  -- The rows that `find` sees: the first of each key.
  unfoldable pub live : List (K × R) → List (K × R)
  live [] = []
  live ((k, r) ∷ t) = (k, r) ∷ remove k (live t)

  unfoldable pub insert : (R → ℕ) → K × R → List (K × R) → List (K × R)
  insert order x [] = x ∷ []
  insert order x (y ∷ ys) =
      let rest = insert order x ys in if leb (order y.1) (order x.1) then x ∷ y ∷ ys else y ∷ rest

  unfoldable pub sort : (R → ℕ) → List (K × R) → List (K × R)
  sort order [] = []
  sort order (x ∷ xs) = insert order x (sort order xs)

  unfoldable pub query : (R → ℕ) → (K → R → Bool) → List (K × R) → List (K × R)
  query order where_ t = sort order (filter (λ x. where_ x.0 x.1) (live t))

  pub find-remove :
      (k j : K) (t : List (K × R)) → find j (remove k t) ≡ (if e.beq k j then none else find j t)
  unfolding find remove
  find-remove k j [] = ground arith
  find-remove k j ((i, r) ∷ t) =
      ground (arith, find-remove k j t, e.beq_iff i k, e.beq_iff i j, e.beq_iff k j)

  pub find-write :
      (k j : K) (r : R) (t : List (K × R))
      → find j (write k r t) ≡ (if e.beq k j then some r else find j t)
  unfolding write find
  find-write k j r t = ground (arith, find-remove k j t)

  pub find-rewrite :
      (where_ : K → R → Bool) (f : R → R) (k : K) (t : List (K × R))
      → find k (rewrite where_ f t) ≡ Option.map (λ r. if where_ k r then f r else r) (find k t)
  unfolding find rewrite
  find-rewrite where_ f k [] = refl
  find-rewrite where_ f k ((i, r) ∷ t) = elim (Bool-cases (e.beq i k)) [
    | inl same ↦ rw same (rw ((e.beq_iff i k).0 same))
    | inr other ↦ rw other (find-rewrite where_ f k t)
  ]

  In-remove_iff :
      (k j : K) (r : R) (t : List (K × R))
      → In (j, r) (remove k t) ↔ (In (j, r) t × (e.beq k j ≡ false))
  unfolding remove
  In-remove_iff k j r [] = (λ h. absurd h, λ h. absurd h.0)
  In-remove_iff k j r ((i, s) ∷ t) =
      ground (arith, In-remove_iff k j r t, e.beq_iff i k, e.beq_iff k j)

  In-live_iff : (k : K) (r : R) (t : List (K × R)) → In (k, r) (live t) ↔ (find k t ≡ some r)
  unfolding live find
  In-live_iff k r [] = ground arith
  In-live_iff k r ((i, s) ∷ t) =
      ground (arith, In-live_iff k r t, In-remove_iff i k r (live t), e.beq_iff i k)

  In-insert_iff :
      (order : R → ℕ) (a x : K × R) (xs : List (K × R))
      → In a (insert order x xs) ↔ ((a ≡ x) ⊎ In a xs)
  unfolding insert
  In-insert_iff order a x [] = ground arith
  In-insert_iff order a x (y ∷ ys) = ground (arith, In-insert_iff order a x ys)

  In-sort_iff : (order : R → ℕ) (a : K × R) (xs : List (K × R)) → In a (sort order xs) ↔ In a xs
  unfolding sort
  In-sort_iff order a [] = ground arith
  In-sort_iff order a (x ∷ xs) =
      ground (arith, In-insert_iff order a x (sort order xs), In-sort_iff order a xs)

  NotKey : K → List (K × R) → Type 0
  NotKey k t = (r : R) → ¬ (In (k, r) t)

  keys_of_NotKey : (k : K) (t : List (K × R)) → NotKey k t → ¬ (In k (map (λ x. x.0) t))
  unfolding NotKey
  keys_of_NotKey k [] n m = m
  keys_of_NotKey k ((j, r) ∷ t) n (inl h) = n r (inl (ap (λ i. (i, r)) h))
  keys_of_NotKey k ((j, r) ∷ t) n (inr m) = keys_of_NotKey k t (λ s i. n s (inr i)) m

  -- Distinct keys, stated so that filtering and sorting are seen to keep it.
  Keyed : List (K × R) → Type 0
  Keyed [] = Unit
  Keyed ((k, r) ∷ t) = NotKey k t × Keyed t

  Keyed-Distinct : (t : List (K × R)) → Keyed t → Distinct (map (λ x. x.0) t)
  unfolding Keyed
  Keyed-Distinct [] h = tt
  Keyed-Distinct ((k, r) ∷ t) (n, h) = (keys_of_NotKey k t n, Keyed-Distinct t h)

  Keyed-remove : (k : K) (t : List (K × R)) → Keyed t → Keyed (remove k t)
  unfolding Keyed NotKey remove
  Keyed-remove k [] h = tt
  Keyed-remove k ((j, r) ∷ t) (n, h) = elim (Bool-cases (e.beq j k)) [
    | inl same ↦ rw same (Keyed-remove k t h)
    | inr other ↦ rw other (λ s i. n s ((In-remove_iff k j s t).0 i).0, Keyed-remove k t h)
  ]

  live-Keyed : (t : List (K × R)) → Keyed (live t)
  unfolding live Keyed NotKey
  live-Keyed [] = tt
  live-Keyed ((k, r) ∷ t) = (
    λ s i. cc (((In-remove_iff k k s (live t)).0 i).1, (e.beq_iff k k).1 refl),
    Keyed-remove k (live t) (live-Keyed t),
  )

  Keyed-filter : (p : K × R → Bool) (t : List (K × R)) → Keyed t → Keyed (filter p t)
  unfolding Keyed NotKey
  Keyed-filter p [] h = tt
  Keyed-filter p ((k, r) ∷ t) (n, h) = elim (Bool-cases (p (k, r))) [
    | inl keep ↦ rw keep (λ s i. n s (In-of_filter p (k, s) t i).0, Keyed-filter p t h)
    | inr drop ↦ rw drop (Keyed-filter p t h)
  ]

  Keyed-insert :
      (order : R → ℕ) (k : K) (r : R) (t : List (K × R))
      → NotKey k t
      → Keyed t
      → Keyed (insert order (k, r) t)
  unfolding insert Keyed NotKey
  Keyed-insert order k r [] n h = (n, h)
  Keyed-insert order k r ((j, s) ∷ t) n (m, h) = elim (Bool-cases (leb (order s) (order r))) [
    | inl here ↦ rw here (n, (m, h))
    | inr later ↦ rw later (
      λ q i. elim ((In-insert_iff order (j, q) (k, r) t).0 i) [
        | inl same ↦ n s (inl (cc same))
        | inr there ↦ m q there
      ],
      Keyed-insert order k r t (λ q i. n q (inr i)) h,
    )
  ]

  Keyed-sort : (order : R → ℕ) (t : List (K × R)) → Keyed t → Keyed (sort order t)
  unfolding sort Keyed NotKey
  Keyed-sort order [] h = tt
  Keyed-sort order ((k, r) ∷ t) (n, h) =
      Keyed-insert order k r (sort order t) (λ s i. n s ((In-sort_iff order (k, s) t).0 i))
        (Keyed-sort order t h)

  IsBelow : (R → ℕ) → ℕ → List (K × R) → Type 0
  IsBelow order n t = All (λ y. order y.1 ≤ n) t

  IsBelow-mono :
      (order : R → ℕ) (m n : ℕ) (t : List (K × R)) → m ≤ n → IsBelow order m t → IsBelow order n t
  unfolding IsBelow
  IsBelow-mono order m n [] le h = tt
  IsBelow-mono order m n (x ∷ t) le h = (omega arith, IsBelow-mono order m n t le h.1)

  IsBelow-insert :
      (order : R → ℕ) (x : K × R) (n : ℕ) (t : List (K × R))
      → order x.1 ≤ n
      → IsBelow order n t
      → IsBelow order n (insert order x t)
  unfolding insert IsBelow
  IsBelow-insert order x n [] le h = (le, h)
  IsBelow-insert order x n (y ∷ t) le h = ground (arith, IsBelow-insert order x n t le h.1)

  IsDescending-insert :
      (order : R → ℕ) (x : K × R) (t : List (K × R))
      → IsDescending order t
      → IsDescending order (insert order x t)
  unfolding insert IsBelow
  IsDescending-insert order x [] h = (tt, tt)
  IsDescending-insert order x (y ∷ t) (b, h) = elim (Bool-cases (leb (order y.1) (order x.1))) [
    | inl here ↦ rw here ((leb→le _ _ here, IsBelow-mono order _ _ t (leb→le _ _ here) b), (b, h))
    | inr later ↦
        rw later
          (IsBelow-insert order x (order y.1) t (ground arith) b, IsDescending-insert order x t h)
  ]

  sort-IsDescending : (order : R → ℕ) (t : List (K × R)) → IsDescending order (sort order t)
  unfolding sort
  sort-IsDescending order [] = tt
  sort-IsDescending order (x ∷ t) =
      IsDescending-insert order x (sort order t) (sort-IsDescending order t)

  pub query_iff :
      (order : R → ℕ) (where_ : K → R → Bool) (t : List (K × R)) (k : K) (r : R)
      → In (k, r) (query order where_ t) ↔ ((find k t ≡ some r) × (where_ k r ≡ true))
  unfolding query
  query_iff order where_ t k r = (
    λ h.
        let (i, w) = In-of_filter _ _ (live t) ((In-sort_iff order (k, r) _).0 h) in
        ((In-live_iff k r t).0 i, w),
    λ h.
        (In-sort_iff order (k, r) _).1
          (In-filter (λ x. where_ x.0 x.1) (k, r) (live t) ((In-live_iff k r t).1 h.0) h.1),
  )

  pub query-Distinct :
      (order : R → ℕ) (where_ : K → R → Bool) (t : List (K × R))
      → Distinct (map (λ x. x.0) (query order where_ t))
  unfolding query
  query-Distinct order where_ t =
      Keyed-Distinct _ (Keyed-sort order _ (Keyed-filter (λ x. where_ x.0 x.1) _ (live-Keyed t)))

  pub query-IsDescending :
      (order : R → ℕ) (where_ : K → R → Bool) (t : List (K × R))
      → IsDescending order (query order where_ t)
  unfolding query
  query-IsDescending order where_ t = sort-IsDescending order _

abbrev pub list_prisma : Prisma
list_prisma = record {
  Table = λ K R. List (K × R);
  find_unique = λ k t. find k t;
  put = λ k r t. write k r t;
  delete = λ k t. remove k t;
  find_many = λ order where_ t. query order where_ t;
  update_many = λ where_ f t. rewrite where_ f t;
  find_unique-update_many = λ where_ f k t. find-rewrite where_ f k t;
  find_unique-put = λ k j r t. find-write k j r t;
  find_unique-delete = λ k j t. find-remove k j t;
  find_many_iff = λ order where_ t k r. query_iff order where_ t k r;
  find_many-Distinct = λ order where_ t. query-Distinct order where_ t;
  find_many-IsDescending = λ order where_ t. query-IsDescending order where_ t;
}
