-- ===== src/Chat/Retrieval.antt =====
-- services/api/src/chat/retrieval.service.ts: `retrieve` from the query to the selected chunks,
-- without the timings, the metrics and the log lines. The searches of retrieval-query.repository.ts
-- are SQL with vector and full-text operators, and the embedding is a model's answer: they are the
-- fields of `Searches`, with the law that the rows are those of the knowledge base asked for.
pub mod Scope
use rag_stack_monorepo.Prelude.{
  ℕ, String, ◌≡◌, Bool, true, false, Option, none, some, List, [], ◌∷◌, map, ◌==◌, if◌then◌else◌,
  string_eq, pair_eq, length, take, All,
}
use rag_stack_monorepo.Chat.{RetrievalCandidate, Texts}
use rag_stack_monorepo.Chat.Dedup.{suppress_duplicates}
use rag_stack_monorepo.Chat.Merge.{Scorer, merge_and_score}

pub record ChatFilters : Type 0 where
  pub document_ids : Option (List String)
  pub languages : Option (List String)

pub record NormalizedChatFilters : Type 0 where
  pub document_ids : List String
  pub languages : List String

pub record NormalizedRetrievalQuery : Type 0 where
  pub raw_query : String
  pub normalized_text : String
  pub lexical_text : String
  pub tokens : List String
  pub phrases : List String
  pub freshness_intent : Bool
  pub question_like : Bool

-- A search of one stage: the knowledge base, the user, whether an administrator, the filters and
-- the limit.
abbrev pub Search : Type 0
Search = String → String → Bool → NormalizedChatFilters → ℕ → List RetrievalCandidate

pub record Searches : Type 0 where
  pub texts : Texts
  pub to_lower_case : String → String
  pub preprocess : String → NormalizedRetrievalQuery
  pub scorer : NormalizedRetrievalQuery → NormalizedChatFilters → Scorer
  -- the embedding of the text, if the service gives one
  pub create_query_embedding : String → Option (List ℕ)
  pub fetch_semantic : List ℕ → Search
  pub fetch_lexical : NormalizedRetrievalQuery → Search
  -- `WHERE dc."kbId" = ...`
  pub fetch_semantic-kb :
      (e : List ℕ) (kb_id user_id : String) (admin : Bool) (f : NormalizedChatFilters) (n : ℕ)
      → All (λ c. c.kb_id ≡ kb_id) (fetch_semantic e kb_id user_id admin f n)
  pub fetch_lexical-kb :
      (q : NormalizedRetrievalQuery) (kb_id user_id : String) (admin : Bool)
      (f : NormalizedChatFilters) (n : ℕ)
      → All (λ c. c.kb_id ≡ kb_id) (fetch_lexical q kb_id user_id admin f n)

-- The limits, after the defaults of chat.constants.ts.
pub record Limits : Type 0 where
  pub semantic_candidate_limit : ℕ
  pub lexical_candidate_limit : ℕ
  pub rerank_pool_limit : ℕ
  pub grounding_limit : ℕ

pub record RetrievalRequest : Type 0 where
  pub kb_id : String
  pub user_id : String
  pub is_admin : Bool
  pub query : String
  pub filters : Option ChatFilters
  pub candidate_limit : Option ℕ
  pub grounding_limit : Option ℕ

pub record RetrievalResult : Type 0 where
  pub normalized_query : String
  pub semantic_used : Bool
  pub lexical_used : Bool
  pub total_candidates : ℕ
  pub selected_chunks : List RetrievalCandidate
  -- the candidates of the debug view, with what the suppression wrote into them
  pub ranked_candidates : List RetrievalCandidate

abbrev default_to {ℓ} : {A : Type ℓ} → A → Option A → A
default_to a none = a
default_to a (some b) = b

unfoldable pub limits_for : Limits → RetrievalRequest → Limits
limits_for defaults r = record {
  semantic_candidate_limit = default_to defaults.semantic_candidate_limit r.candidate_limit;
  lexical_candidate_limit = default_to defaults.lexical_candidate_limit r.candidate_limit;
  rerank_pool_limit = default_to defaults.rerank_pool_limit r.candidate_limit;
  grounding_limit = default_to defaults.grounding_limit r.grounding_limit;
}

abbrev pub document_ids_of : Option ChatFilters → List String
document_ids_of none = []
document_ids_of (some f) = default_to [] f.document_ids

abbrev pub languages_of : Option ChatFilters → List String
languages_of none = []
languages_of (some f) = default_to [] f.languages

unfoldable pub empty_result : RetrievalResult
empty_result = record {
  normalized_query = "";
  semantic_used = false;
  lexical_used = false;
  total_candidates = 0;
  selected_chunks = [];
  ranked_candidates = [];
}

abbrev some_found : List RetrievalCandidate → Bool
some_found [] = false
some_found (_ ∷ _) = true

module _ (s : Searches) where
  unfoldable pub normalize_filters : Option ChatFilters → NormalizedChatFilters
  normalize_filters filters = record {
    document_ids = document_ids_of filters;
    languages = map s.to_lower_case (languages_of filters);
  }

  unfoldable pub semantic_candidates :
      RetrievalRequest → ℕ → Option (List ℕ) → List RetrievalCandidate
  unfolding normalize_filters
  semantic_candidates r limit none = []
  semantic_candidates r limit (some e) =
      s.fetch_semantic e r.kb_id r.user_id r.is_admin (normalize_filters r.filters) limit

  unfoldable pub lexical_candidates :
      RetrievalRequest → ℕ → NormalizedRetrievalQuery → List RetrievalCandidate
  unfolding normalize_filters
  lexical_candidates r limit q =
      if q.lexical_text == ""
      then []
      else s.fetch_lexical q r.kb_id r.user_id r.is_admin (normalize_filters r.filters) limit

  -- From the two searches on.
  unfoldable pub result_of :
      NormalizedRetrievalQuery
      → RetrievalRequest
      → Limits
      → List RetrievalCandidate
      → List RetrievalCandidate
      → RetrievalResult
  unfolding merge_and_score suppress_duplicates normalize_filters
  result_of q r limits found matched =
      let ranked =
        merge_and_score (s.scorer q (normalize_filters r.filters)) found matched
          limits.rerank_pool_limit in
      let deduped = suppress_duplicates s.texts ranked in
      record {
        normalized_query = q.normalized_text;
        semantic_used = some_found found;
        lexical_used = some_found matched;
        total_candidates = length ranked;
        selected_chunks = take limits.grounding_limit deduped.0;
        ranked_candidates = deduped.1;
      }

  unfoldable pub retrieve : Limits → RetrievalRequest → RetrievalResult
  unfolding limits_for empty_result semantic_candidates lexical_candidates result_of
  retrieve defaults r =
      let q = s.preprocess r.query in
      let limits = limits_for defaults r in
      if q.normalized_text == ""
      then empty_result
      else result_of q r limits
          (semantic_candidates r limits.semantic_candidate_limit
            (s.create_query_embedding q.normalized_text))
          (lexical_candidates r limits.lexical_candidate_limit q)
