-- ===== src/Chat/Citations/Laws.antt =====
-- The citations that `assemble` of services/api/src/chat/citation-assembler.service.ts makes.
use rag_stack_monorepo.Prelude.{
  ℕ, suc, ◌≤◌, ◌<◌, String, ◌≡◌, refl, sym, ap, ◌≢◌, ◌⊎◌, inl, inr, none, some, List, [], ◌∷◌, ◌++◌,
  arith, eq_iff, Bool-cases, Option-cases, string_eq, pair_eq, length, In, All, length-append,
  Pairwise, Ranked, All-append, All-map, Pairwise-snoc,
}
use rag_stack_monorepo.Chat.{RetrievalCandidate}
use rag_stack_monorepo.Chat.Citations.{
  CitationTools, PreparedCitationCandidate, CitationView, CitationAssemblyRejection, grounded_from,
  consider, prepare_all, insert_prepared, sort_prepared, compare_prepared_candidates, goes_behind,
  redundant_reason, find_redundant_reason, refusal, select, chosen, requested_ids, assemble,
  to_citation_view, to_citation_views, min_citation_support_score,
}
use mathlib.Core.Path.{subst}

-- The citation is of a requested chunk of the grounding set, and scores at least the minimum.
abbrev pub Backed : List String → List RetrievalCandidate → CitationView → Type 0
Backed ids chunks v =
    (In v.chunk_id ids × (min_citation_support_score ≤ v.score))
    × ((c : RetrievalCandidate) × (In c chunks × (c.chunk_id ≡ v.chunk_id)))

abbrev pub OtherCited : CitationView → CitationView → Type 0
OtherCited a b = a.chunk_id ≢ b.chunk_id

abbrev pub HasCitationRank : ℕ → CitationView → Type 0
HasCitationRank n v = v.rank ≡ n

grounded_from-In :
    (n : ℕ) (cs : List RetrievalCandidate) (id : String) (c : RetrievalCandidate) (m : ℕ)
    → grounded_from n cs id ≡ some (c, m)
    → In c cs × (c.chunk_id ≡ id)
unfolding grounded_from
grounded_from-In n [] id c m h = absurd (ground arith)
grounded_from-In n (x ∷ xs) id c m h = elim (Option-cases (grounded_from (suc n) xs id)) [
  | inl e ↦ ground (arith, eq_iff x.chunk_id id)
  | inr (g, e) ↦
      let rest = grounded_from-In (suc n) xs id c m (ground arith) in (inr rest.0, rest.1)
]

module _ (k : CitationTools) where
  -- What is asked of a candidate before it is selected.
  abbrev Prepared : List String → List RetrievalCandidate → PreparedCitationCandidate → Type 0
  Prepared ids chunks c =
      (In c.chunk.chunk_id ids × (min_citation_support_score ≤ c.support.support_score))
      × In c.chunk chunks

  abbrev Differ : PreparedCitationCandidate → PreparedCitationCandidate → Type 0
  Differ a b = a.chunk.chunk_id ≢ b.chunk.chunk_id

  consider-Prepared :
      (chunks : List RetrievalCandidate) (id : String) (c : PreparedCitationCandidate)
      → consider k chunks id ≡ inr c
      → ((c.chunk.chunk_id ≡ id) × (min_citation_support_score ≤ c.support.support_score))
        × In c.chunk chunks
  unfolding consider
  consider-Prepared chunks id c h = elim (Option-cases (grounded_from 1 chunks id)) [
    | inl e ↦ absurd (ground arith)
    | inr ((chunk, m), e) ↦
        let found = grounded_from-In 1 chunks id chunk m e in
        elim (Option-cases (k.prepare chunk)) [
          | inl none_given ↦ absurd (ground arith)
          | inr (support, given) ↦ ground arith
        ]
  ]

  prepare_all-Prepared :
      (chunks : List RetrievalCandidate) (ids : List String)
      → All (Prepared ids chunks) (prepare_all k chunks ids).0
  unfolding prepare_all
  prepare_all-Prepared chunks [] = tt
  prepare_all-Prepared chunks (id ∷ ids) =
      go (consider k chunks id) refl
        (All-map (λ c h. ((inr h.0.0, h.0.1), h.1)) _ (prepare_all-Prepared chunks ids))
    where
      go :
          (o : CitationAssemblyRejection ⊎ PreparedCitationCandidate)
          → consider k chunks id ≡ o
          → All (Prepared (id ∷ ids) chunks) (prepare_all k chunks ids).0
          → All (Prepared (id ∷ ids) chunks) (prepare_all k chunks (id ∷ ids)).0
      go (inl r) e rest = rw (prepare_all, e) rest
      go (inr c) e rest =
          let h = consider-Prepared chunks id c e in
          rw (prepare_all, e) (((inl h.0.0, h.0.1), h.1), rest)

  insert_prepared-All :
      (P : PreparedCitationCandidate → Type 0) (c : PreparedCitationCandidate)
      (xs : List PreparedCitationCandidate)
      → P c
      → All P xs
      → All P (insert_prepared k c xs)
  unfolding insert_prepared
  insert_prepared-All P c [] h g = (h, tt)
  insert_prepared-All P c (x ∷ xs) h g =
      elim (Bool-cases (goes_behind k (compare_prepared_candidates k c x))) [
        | inl e ↦ rw (insert_prepared, e) (g.0, insert_prepared-All P c xs h g.1)
        | inr n ↦ rw (insert_prepared, n) (h, g)
      ]

  sort_prepared-All :
      (P : PreparedCitationCandidate → Type 0) (xs : List PreparedCitationCandidate)
      → All P xs
      → All P (sort_prepared k xs)
  unfolding sort_prepared
  sort_prepared-All P [] h = tt
  sort_prepared-All P (x ∷ xs) h =
      insert_prepared-All P x (sort_prepared k xs) h.0 (sort_prepared-All P xs h.1)

  redundant_reason-Differ :
      (selected : List PreparedCitationCandidate) (c : PreparedCitationCandidate)
      → redundant_reason k selected c ≡ none
      → All (λ s. Differ s c) selected
  unfolding redundant_reason find_redundant_reason
  redundant_reason-Differ [] c h = tt
  redundant_reason-Differ (s ∷ ss) c h =
      elim (Option-cases (find_redundant_reason k s.chunk c.chunk)) [
        | inl n ↦ (other n, redundant_reason-Differ ss c (ground arith))
        | inr (r, e) ↦ absurd (ground arith)
      ]
    where
      other : find_redundant_reason k s.chunk c.chunk ≡ none → Differ s c
      other n q = ground (arith, eq_iff s.chunk.chunk_id c.chunk.chunk_id)

  refusal-eq-none :
      (limit : ℕ) (selected : List PreparedCitationCandidate) (c : PreparedCitationCandidate)
      → refusal k limit selected c ≡ none
      → All (λ s. Differ s c) selected × (length selected < limit)
  unfolding refusal
  refusal-eq-none limit selected c h = elim (Option-cases (redundant_reason k selected c)) [
    | inl n ↦ (redundant_reason-Differ selected c n, ground arith)
    | inr (r, e) ↦ absurd (ground arith)
  ]

  abbrev Chosen : (PreparedCitationCandidate → Type 0) → ℕ → List PreparedCitationCandidate → Type 0
  Chosen P limit xs = (All P xs × Pairwise Differ xs) × (length xs ≤ limit)

  select-Chosen :
      (P : PreparedCitationCandidate → Type 0) (limit : ℕ)
      (selected cs : List PreparedCitationCandidate)
      → Chosen P limit selected
      → All P cs
      → Chosen P limit (select k limit selected cs).0
  unfolding select
  select-Chosen P limit selected [] h g = h
  select-Chosen P limit selected (c ∷ cs) h g = elim (Option-cases (refusal k limit selected c)) [
    | inl n ↦
        let fits = refusal-eq-none limit selected c n in
        rw (select, n)
          (select-Chosen P limit (selected ++ (c ∷ [])) cs
            (
              (
                All-append P selected (c ∷ []) h.0.0 (g.0, tt),
                Pairwise-snoc Differ selected c h.0.1 fits.0,
              ),
              omega (arith, fits.1, length-append selected (c ∷ [])),
            )
            g.1)
    | inr (r, e) ↦ rw (select, e) (select-Chosen P limit selected cs h g.1)
  ]

views-All :
    (P : CitationView → Type 0) (n : ℕ) (cs : List PreparedCitationCandidate)
    → All (λ c. (m : ℕ) → P (to_citation_view c m)) cs
    → All P (to_citation_views n cs)
unfolding to_citation_views
views-All P n [] h = tt
views-All P n (c ∷ cs) h = (h.0 n, views-All P (suc n) cs h.1)

views-Others :
    (n : ℕ) (cs : List PreparedCitationCandidate)
    → Pairwise (λ a b. a.chunk.chunk_id ≢ b.chunk.chunk_id) cs
    → Pairwise OtherCited (to_citation_views n cs)
unfolding to_citation_views to_citation_view
views-Others n [] h = tt
views-Others n (c ∷ cs) h = (
  views-All (OtherCited (to_citation_view c n)) (suc n) cs (All-map (λ a q m. q) cs h.0),
  views-Others (suc n) cs h.1,
)

views-Ranked :
    (n : ℕ) (cs : List PreparedCitationCandidate)
    → Ranked HasCitationRank n (to_citation_views n cs)
unfolding to_citation_views to_citation_view
views-Ranked n [] = tt
views-Ranked n (c ∷ cs) = (refl, views-Ranked (suc n) cs)

length-views :
    (n : ℕ) (cs : List PreparedCitationCandidate) → length (to_citation_views n cs) ≡ length cs
unfolding to_citation_views
length-views n [] = refl
length-views n (c ∷ cs) = ap suc (length-views (suc n) cs)

module _ (k : CitationTools) (limit : ℕ) (used : List String)
    (chunks : List RetrievalCandidate) where
  chosen-Chosen :
      Chosen k
        (Prepared k (requested_ids k used) chunks)
        limit
        (chosen k limit chunks (requested_ids k used)).0
  unfolding chosen
  chosen-Chosen =
      select-Chosen k (Prepared k (requested_ids k used) chunks) limit []
        (sort_prepared k (prepare_all k chunks (requested_ids k used)).0) ((tt, tt), omega arith)
        (sort_prepared-All k _ _ (prepare_all-Prepared k chunks (requested_ids k used)))

  -- Each citation of an answer is of a chunk that the model named and that is in the grounding
  -- set, and its score is at least the minimum; no chunk is cited twice; there are no more than
  -- the citation limit, and they carry the ranks 1, 2, 3 and so on.
  pub assemble_lem :
      ((All (Backed (requested_ids k used) chunks) (assemble k limit used chunks).citations
          × Pairwise OtherCited (assemble k limit used chunks).citations)
        × Ranked HasCitationRank 1 (assemble k limit used chunks).citations)
      × (length (assemble k limit used chunks).citations ≤ limit)
  unfolding assemble
  assemble_lem =
      let h = chosen-Chosen in
      (
        (
          (
            views-All (Backed (requested_ids k used) chunks) 1 _ (
                All-map (λ c p m. unfold to_citation_view in (p.0, (c.chunk, (p.1, refl)))) _
                  h.0.0),
            views-Others 1 _ h.0.1,
          ),
          views-Ranked 1 _,
        ),
        subst (λ n. n ≤ limit) (sym (length-views 1 _)) h.1,
      )
