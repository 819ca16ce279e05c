-- ===== src/Chat/Retrieval/Scope.antt =====
-- The chunks that `retrieve` of services/api/src/chat/retrieval.service.ts selects.
use rag_stack_monorepo.Prelude.{
  ℕ, ◌≤◌, String, ◌≡◌, inl, inr, Option, none, some, List, arith, ◌==◌, Bool-cases, string_eq,
  pair_eq, length, All, Pairwise, All-take, Pairwise-take, length-take-le,
}
use rag_stack_monorepo.Chat.{RetrievalCandidate, Texts}
use rag_stack_monorepo.Chat.Dedup.{mark}
use rag_stack_monorepo.Chat.Dedup.Laws.{Apart, suppress_duplicates_lem, suppress_duplicates-All}
use rag_stack_monorepo.Chat.Merge.{merge_and_score}
use rag_stack_monorepo.Chat.Merge.Laws.{merge_and_score-Rows}
use rag_stack_monorepo.Chat.Retrieval.{
  Searches, Limits, RetrievalRequest, NormalizedRetrievalQuery, limits_for, semantic_candidates,
  lexical_candidates, result_of, retrieve, normalize_filters,
}

abbrev pub InKb : String → RetrievalCandidate → Type 0
InKb kb_id c = c.kb_id ≡ kb_id

-- No chunk of another knowledge base, no duplicate, no more than the limit.
abbrev pub Selection : Texts → String → ℕ → List RetrievalCandidate → Type 0
Selection t kb_id limit chunks =
    (All (InKb kb_id) chunks × Pairwise (Apart t) chunks) × (length chunks ≤ limit)

module _ (s : Searches) (defaults : Limits) (r : RetrievalRequest) where
  semantic-InKb : (n : ℕ) (e : Option (List ℕ)) → All (InKb r.kb_id) (semantic_candidates s r n e)
  unfolding semantic_candidates
  semantic-InKb n none = tt
  semantic-InKb n (some e) = s.fetch_semantic-kb e r.kb_id r.user_id r.is_admin _ n

  lexical-InKb :
      (n : ℕ) (q : NormalizedRetrievalQuery) → All (InKb r.kb_id) (lexical_candidates s r n q)
  unfolding lexical_candidates
  lexical-InKb n q = elim (Bool-cases (q.lexical_text == "")) [
    | inl e ↦ rw (lexical_candidates, e) tt
    | inr f ↦ rw (lexical_candidates, f) (s.fetch_lexical-kb q r.kb_id r.user_id r.is_admin _ n)
  ]

  result-Selection :
      (q : NormalizedRetrievalQuery) (limits : Limits) (found matched : List RetrievalCandidate)
      → All (InKb r.kb_id) found
      → All (InKb r.kb_id) matched
      → Selection s.texts r.kb_id limits.grounding_limit
          (result_of s q r limits found matched).selected_chunks
  unfolding result_of
  result-Selection q limits found matched h g = (
    (
      All-take (InKb r.kb_id) limits.grounding_limit _ (
          suppress_duplicates-All s.texts (InKb r.kb_id) (λ c rank e. unfold mark in e) _
            (merge_and_score-Rows (s.scorer q (normalize_filters s r.filters)) found matched
              limits.rerank_pool_limit (λ row. row.1 ≡ r.kb_id) h g)),
      Pairwise-take (Apart s.texts) limits.grounding_limit _
          (suppress_duplicates_lem s.texts (
            merge_and_score (s.scorer q (normalize_filters s r.filters)) found matched
              limits.rerank_pool_limit)).0.0,
    ),
    length-take-le limits.grounding_limit _,
  )

  searched-Selection :
      (q : NormalizedRetrievalQuery) (limits : Limits) (e : Option (List ℕ))
      → Selection s.texts r.kb_id limits.grounding_limit
          (result_of s q r limits
            (semantic_candidates s r limits.semantic_candidate_limit e)
            (lexical_candidates s r limits.lexical_candidate_limit q)).selected_chunks
  searched-Selection q limits e =
      result-Selection q limits (semantic_candidates s r limits.semantic_candidate_limit e)
        (lexical_candidates s r limits.lexical_candidate_limit q)
        (semantic-InKb limits.semantic_candidate_limit e)
        (lexical-InKb limits.lexical_candidate_limit q)

  -- If both searches keep to the knowledge base that they are given, the chunks that a retrieval
  -- selects are chunks of the knowledge base of the request, none of them is a duplicate of an
  -- earlier one, and they are no more than the grounding limit of the request or, where it gives
  -- none, of the configuration.
  pub retrieve-Selection :
      Selection s.texts r.kb_id
        (limits_for defaults r).grounding_limit
        (retrieve s defaults r).selected_chunks
  unfolding retrieve
  retrieve-Selection = elim (Bool-cases ((s.preprocess r.query).normalized_text == "")) [
    | inl e ↦ rw (retrieve, e) ((tt, tt), omega arith)
    | inr f ↦
        rw (retrieve, f)
          (searched-Selection (s.preprocess r.query) (limits_for defaults r)
            (s.create_query_embedding (s.preprocess r.query).normalized_text))
  ]
