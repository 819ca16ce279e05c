-- ===== src/Chat/Merge/Laws.antt =====
-- The list that `mergeAndScore` of services/api/src/chat/hybrid-scorer.service.ts makes: its chunks,
-- its order and its ranks.
use rag_stack_monorepo.Prelude.{
  ℕ, suc, ◌≤◌, max, String, ◌≡◌, refl, sym, ap, ◌≢◌, inl, inr, true, false, some, List, [], ◌∷◌,
  map, arith, ◌==◌, eq_iff, Bool-cases, string_eq, pair_eq, length, All, Pairwise, Ranked, All-map,
  All-take, Pairwise-take, length-take-le,
}
use rag_stack_monorepo.Chat.{RetrievalCandidate}
use rag_stack_monorepo.Chat.Merge.{
  Scorer, merge_candidate, upsert, upsert_all, compare_candidates, score_candidate, insert, sort,
  rank_from, merge_and_score, goes_after,
}
use mathlib.Core.Path.{subst}

-- Two entries for different chunks.
abbrev pub OtherChunk : RetrievalCandidate → RetrievalCandidate → Type 0
OtherChunk a b = a.chunk_id ≢ b.chunk_id

abbrev pub HasRankBefore : ℕ → RetrievalCandidate → Type 0
HasRankBefore n c = c.debug.rank_before_dedup ≡ some n

abbrev pub NotBelow : RetrievalCandidate → RetrievalCandidate → Type 0
NotBelow a b = b.hybrid_score ≤ a.hybrid_score

-- What a candidate says of the row it was read from.
abbrev pub row_of : RetrievalCandidate → String × String
row_of c = (c.chunk_id, c.kb_id)

module _ (P : String × String → Type 0) where
  -- A property of the rows of all candidates.
  abbrev pub Rows : List RetrievalCandidate → Type 0
  Rows cs = All (λ c. P (row_of c)) cs

  upsert-Rows :
      (c : RetrievalCandidate) (xs : List RetrievalCandidate)
      → P (row_of c)
      → Rows xs
      → Rows (upsert c xs)
  unfolding upsert merge_candidate
  upsert-Rows c [] h g = (h, tt)
  upsert-Rows c (x ∷ xs) h g = elim (Bool-cases (x.chunk_id == c.chunk_id)) [
    | inl e ↦ rw (upsert, e) (g.0, g.1)
    | inr n ↦ rw (upsert, n) (g.0, upsert-Rows c xs h g.1)
  ]

  upsert_all-Rows :
      (merged cs : List RetrievalCandidate) → Rows merged → Rows cs → Rows (upsert_all merged cs)
  unfolding upsert_all
  upsert_all-Rows merged [] h g = h
  upsert_all-Rows merged (c ∷ cs) h g =
      upsert_all-Rows (upsert c merged) cs (upsert-Rows c merged g.0 h) g.1

  map-Rows :
      (k : Scorer) (cs : List RetrievalCandidate) → Rows cs → Rows (map (score_candidate k) cs)
  unfolding score_candidate
  map-Rows k [] h = tt
  map-Rows k (c ∷ cs) h = (h.0, map-Rows k cs h.1)

  rank_from-Rows :
      (k : Scorer) (n : ℕ) (cs : List RetrievalCandidate) → Rows cs → Rows (rank_from k n cs)
  unfolding rank_from
  rank_from-Rows k n [] h = tt
  rank_from-Rows k n (c ∷ cs) h = (h.0, rank_from-Rows k (suc n) cs h.1)

module _ (k : Scorer) where
  insert-All :
      (P : RetrievalCandidate → Type 0) (c : RetrievalCandidate) (xs : List RetrievalCandidate)
      → P c
      → All P xs
      → All P (insert k c xs)
  unfolding insert
  insert-All P c [] h g = (h, tt)
  insert-All P c (x ∷ xs) h g = elim (Bool-cases (goes_after k (compare_candidates k c x))) [
    | inl e ↦ rw (insert, e) (g.0, insert-All P c xs h g.1)
    | inr n ↦ rw (insert, n) (h, g)
  ]

  sort-All :
      (P : RetrievalCandidate → Type 0) (xs : List RetrievalCandidate)
      → All P xs
      → All P (sort k xs)
  unfolding sort
  sort-All P [] h = tt
  sort-All P (x ∷ xs) h = insert-All P x (sort k xs) h.0 (sort-All P xs h.1)

  -- Inserting keeps a symmetric relation between all entries.
  insert-Others :
      (c : RetrievalCandidate) (xs : List RetrievalCandidate)
      → All (OtherChunk c) xs
      → Pairwise OtherChunk xs
      → Pairwise OtherChunk (insert k c xs)
  unfolding insert
  insert-Others c [] h g = (tt, tt)
  insert-Others c (x ∷ xs) h g = elim (Bool-cases (goes_after k (compare_candidates k c x))) [
    | inl e ↦
        rw (insert, e)
          (insert-All (OtherChunk x) c xs (λ q. h.0 (sym q)) g.0, insert-Others c xs h.1 g.1)
    | inr n ↦ rw (insert, n) (h, g)
  ]

  sort-Others :
      (xs : List RetrievalCandidate) → Pairwise OtherChunk xs → Pairwise OtherChunk (sort k xs)
  unfolding sort
  sort-Others [] h = tt
  sort-Others (x ∷ xs) h =
      insert-Others x (sort k xs) (sort-All (OtherChunk x) xs h.0) (sort-Others xs h.1)

  compare_after :
      (a b : RetrievalCandidate) → goes_after k (compare_candidates k a b) ≡ true → NotBelow b a
  unfolding compare_candidates
  compare_after a b h = ground arith

  compare_not_after :
      (a b : RetrievalCandidate) → goes_after k (compare_candidates k a b) ≡ false → NotBelow a b
  unfolding compare_candidates
  compare_not_after a b h = ground arith

  insert-Descending :
      (c : RetrievalCandidate) (xs : List RetrievalCandidate)
      → Pairwise NotBelow xs
      → Pairwise NotBelow (insert k c xs)
  unfolding insert
  insert-Descending c [] g = (tt, tt)
  insert-Descending c (x ∷ xs) g = elim (Bool-cases (goes_after k (compare_candidates k c x))) [
    | inl e ↦
        rw (insert, e)
          (insert-All (NotBelow x) c xs (compare_after c x e) g.0, insert-Descending c xs g.1)
    | inr n ↦
        rw (insert, n)
          (
            (
              compare_not_after c x n,
              All-map (λ y q. omega (arith, q, compare_not_after c x n)) xs g.0,
            ),
            g,
          )
  ]

  sort-Descending : (xs : List RetrievalCandidate) → Pairwise NotBelow (sort k xs)
  unfolding sort
  sort-Descending [] = tt
  sort-Descending (x ∷ xs) = insert-Descending x (sort k xs) (sort-Descending xs)

  rank_from-Ranked :
      (n : ℕ) (cs : List RetrievalCandidate) → Ranked HasRankBefore n (rank_from k n cs)
  unfolding rank_from
  rank_from-Ranked n [] = tt
  rank_from-Ranked n (c ∷ cs) = (refl, rank_from-Ranked (suc n) cs)

  length-rank_from : (n : ℕ) (cs : List RetrievalCandidate) → length (rank_from k n cs) ≡ length cs
  unfolding rank_from
  length-rank_from n [] = refl
  length-rank_from n (c ∷ cs) = ap suc (length-rank_from (suc n) cs)

  -- A relation that reads neither ranks nor scores is kept by ranking.
  rank_from-All :
      (P : RetrievalCandidate → Type 0)
      → ((m : ℕ) (c : RetrievalCandidate)
          → P c
          → P (record c { debug = record c.debug { rank_before_dedup = some m } }))
      → (n : ℕ) (cs : List RetrievalCandidate) → All P cs
      → All P (rank_from k n cs)
  unfolding rank_from
  rank_from-All P f n [] h = tt
  rank_from-All P f n (c ∷ cs) h = (f n c h.0, rank_from-All P f (suc n) cs h.1)

  rank_from-Others :
      (n : ℕ) (cs : List RetrievalCandidate)
      → Pairwise OtherChunk cs
      → Pairwise OtherChunk (rank_from k n cs)
  unfolding rank_from
  rank_from-Others n [] h = tt
  rank_from-Others n (c ∷ cs) h =
      (rank_from-All (OtherChunk c) (λ m x q. q) (suc n) cs h.0, rank_from-Others (suc n) cs h.1)

  rank_from-Descending :
      (n : ℕ) (cs : List RetrievalCandidate)
      → Pairwise NotBelow cs
      → Pairwise NotBelow (rank_from k n cs)
  unfolding rank_from
  rank_from-Descending n [] h = tt
  rank_from-Descending n (c ∷ cs) h =
      (rank_from-All (NotBelow c) (λ m x q. q) (suc n) cs h.0, rank_from-Descending (suc n) cs h.1)

  map-All-Other :
      (a : RetrievalCandidate) (cs : List RetrievalCandidate)
      → All (OtherChunk a) cs
      → All (OtherChunk (score_candidate k a)) (map (score_candidate k) cs)
  unfolding score_candidate
  map-All-Other a [] h = tt
  map-All-Other a (c ∷ cs) h = (h.0, map-All-Other a cs h.1)

  map-Others :
      (cs : List RetrievalCandidate)
      → Pairwise OtherChunk cs
      → Pairwise OtherChunk (map (score_candidate k) cs)
  map-Others [] h = tt
  map-Others (c ∷ cs) h = (map-All-Other c cs h.0, map-Others cs h.1)

upsert-Other :
    (a c : RetrievalCandidate) (xs : List RetrievalCandidate)
    → OtherChunk a c
    → All (OtherChunk a) xs
    → All (OtherChunk a) (upsert c xs)
unfolding upsert merge_candidate
upsert-Other a c [] h g = (h, tt)
upsert-Other a c (x ∷ xs) h g = elim (Bool-cases (x.chunk_id == c.chunk_id)) [
  | inl e ↦ rw (upsert, e) g
  | inr n ↦ rw (upsert, n) (g.0, upsert-Other a c xs h g.1)
]

upsert-Others :
    (c : RetrievalCandidate) (xs : List RetrievalCandidate)
    → Pairwise OtherChunk xs
    → Pairwise OtherChunk (upsert c xs)
unfolding upsert merge_candidate
upsert-Others c [] g = (tt, tt)
upsert-Others c (x ∷ xs) g = elim (Bool-cases (x.chunk_id == c.chunk_id)) [
  | inl e ↦ rw (upsert, e) g
  | inr n ↦
      rw (upsert, n)
        (
          upsert-Other x c xs (λ q. ground (arith, eq_iff x.chunk_id c.chunk_id, q)) g.0,
          upsert-Others c xs g.1,
        )
]

upsert_all-Others :
    (merged cs : List RetrievalCandidate)
    → Pairwise OtherChunk merged
    → Pairwise OtherChunk (upsert_all merged cs)
unfolding upsert_all
upsert_all-Others merged [] h = h
upsert_all-Others merged (c ∷ cs) h =
    upsert_all-Others (upsert c merged) cs (upsert-Others c merged h)

module _ (k : Scorer) (found matched : List RetrievalCandidate) (limit : ℕ) where
  abbrev merged : List RetrievalCandidate
  merged = upsert_all (upsert_all [] found) matched

  -- The ranked list of what two searches found has no chunk twice and at most `limit` entries, or
  -- one where the limit is zero; it is in the order of falling scores, and its entries carry the
  -- ranks 1, 2, 3 and so on.
  pub merge_and_score_lem :
      ((Pairwise OtherChunk (merge_and_score k found matched limit)
          × Pairwise NotBelow (merge_and_score k found matched limit))
        × Ranked HasRankBefore 1 (merge_and_score k found matched limit))
      × (length (merge_and_score k found matched limit) ≤ max 1 limit)
  unfolding merge_and_score
  merge_and_score_lem = (
    (
      (
        rank_from-Others k 1 _ (
            Pairwise-take OtherChunk (max 1 limit) _ (
              sort-Others k _ (
                map-Others k merged
                  (upsert_all-Others _ matched (upsert_all-Others [] found tt))))),
        rank_from-Descending k 1 _ (
            Pairwise-take NotBelow (max 1 limit) _
              (sort-Descending k (map (score_candidate k) merged))),
      ),
      rank_from-Ranked k 1 _,
    ),
    subst (λ n. n ≤ max 1 limit) (sym (length-rank_from k 1 _)) (length-take-le (max 1 limit) _),
  )

  -- Whatever holds of the chunk and the knowledge base of every candidate that the searches found
  -- holds of every entry of the ranked list.
  pub merge_and_score-Rows :
      (P : String × String → Type 0)
      → Rows P found
      → Rows P matched
      → Rows P (merge_and_score k found matched limit)
  unfolding merge_and_score
  merge_and_score-Rows P h g = rank_from-Rows P k 1 _ (
      All-take (λ c. P (row_of c)) (max 1 limit) _
        (sort-All k (λ c. P (row_of c)) _
          (map-Rows P k merged (upsert_all-Rows P _ matched (upsert_all-Rows P [] found tt h) g))))
