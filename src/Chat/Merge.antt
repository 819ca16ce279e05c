-- ===== src/Chat/Merge.antt =====
-- services/api/src/chat/hybrid-scorer.service.ts: `mergeAndScore` with the merging of two
-- candidates and their order. The formulas of `scoreCandidate` compute with floating-point numbers
-- on texts; they are the parameter `scored`, and what is done with their results is modelled.
pub mod Laws
use rag_stack_monorepo.Prelude.{
  ℕ, suc, ◌+◌, min, max, String, refl, Bool, true, false, Option, none, some, List, [], ◌∷◌, ◌++◌,
  map, arith, ◌==◌, eq_iff, eq_refl, ltb, leb, if◌then◌else◌, string_eq, pair_eq, filter, any, take,
}
use rag_stack_monorepo.Chat.{
  RetrievalCandidate, RetrievalCandidateDebug, RetrievalSource, semantic, lexical, dedupe_ordered,
}

-- What `scoreCandidate` writes into a candidate.
pub record Scores : Type 0 where
  pub lexical_score : ℕ
  pub metadata_score : ℕ
  pub recency_score : ℕ
  pub structural_score : ℕ
  pub hybrid_score : ℕ
  pub lexical_token_coverage : ℕ
  pub lexical_phrase_coverage : ℕ
  pub metadata_signals : List String
  pub structural_signals : List String
  pub selection_reason : String

-- The language's and the formulas' part: the scores of a candidate, and `localeCompare(a, b) > 0`.
pub record Scorer : Type 0 where
  pub scored : RetrievalCandidate → Scores
  pub locale_after : String → String → Bool

-- The result of a comparison of two entries for `sort`.
pub data Place : Type 0 where
  before same after : Place

unfoldable pub pick_best_rank : Option ℕ → Option ℕ → Option ℕ
pick_best_rank none right = right
pick_best_rank (some a) none = some a
pick_best_rank (some a) (some b) = some (min a b)

unfoldable pub pick_higher_number : Option ℕ → Option ℕ → Option ℕ
pick_higher_number none right = right
pick_higher_number (some a) none = some a
pick_higher_number (some a) (some b) = some (max a b)

unfoldable pub pick_lower_number : Option ℕ → Option ℕ → Option ℕ
pick_lower_number none right = right
pick_lower_number (some a) none = some a
pick_lower_number (some a) (some b) = some (min a b)

unfoldable pub pick_newer_date : Option ℕ → Option ℕ → Option ℕ
pick_newer_date none right = right
pick_newer_date (some a) none = some a
pick_newer_date (some a) (some b) = if leb b a then some a else some b

abbrev is_source : RetrievalSource → RetrievalSource → Bool
is_source semantic semantic = true
is_source lexical lexical = true
is_source _ _ = false

unfoldable pub merge_retrieved_by :
    List RetrievalSource → List RetrievalSource → List RetrievalSource
merge_retrieved_by left right =
    filter (λ source. any (is_source source) (left ++ right)) (semantic ∷ lexical ∷ [])

-- `left || right` on strings
abbrev or_string : String → String → String
or_string left right = if left == "" then right else left

unfoldable pub merge_debug :
    RetrievalCandidateDebug → RetrievalCandidateDebug → RetrievalCandidateDebug
unfolding merge_retrieved_by pick_lower_number pick_higher_number dedupe_ordered
merge_debug left right = record left {
  retrieved_by = merge_retrieved_by left.retrieved_by right.retrieved_by;
  raw_semantic_distance = pick_lower_number left.raw_semantic_distance right.raw_semantic_distance;
  raw_semantic_similarity =
      pick_higher_number left.raw_semantic_similarity right.raw_semantic_similarity;
  raw_lexical_score = pick_higher_number left.raw_lexical_score right.raw_lexical_score;
  metadata_signals = dedupe_ordered (left.metadata_signals ++ right.metadata_signals);
  structural_signals = dedupe_ordered (left.structural_signals ++ right.structural_signals);
}

unfoldable pub merge_candidate : RetrievalCandidate → RetrievalCandidate → RetrievalCandidate
unfolding merge_debug pick_newer_date pick_best_rank
merge_candidate left right = record left {
  content = or_string left.content right.content;
  indexed_at = pick_newer_date left.indexed_at right.indexed_at;
  lexical_rank = pick_best_rank left.lexical_rank right.lexical_rank;
  semantic_rank = pick_best_rank left.semantic_rank right.semantic_rank;
  lexical_score = max left.lexical_score right.lexical_score;
  semantic_score = max left.semantic_score right.semantic_score;
  metadata_score = max left.metadata_score right.metadata_score;
  recency_score = max left.recency_score right.recency_score;
  structural_score = max left.structural_score right.structural_score;
  hybrid_score = max left.hybrid_score right.hybrid_score;
  debug = merge_debug left.debug right.debug;
}

-- The map of candidates in the order in which their chunks were first inserted.
unfoldable pub upsert : RetrievalCandidate → List RetrievalCandidate → List RetrievalCandidate
unfolding merge_candidate
upsert c [] = c ∷ []
upsert c (x ∷ xs) =
    let rest = upsert c xs in
    if x.chunk_id == c.chunk_id then merge_candidate x c ∷ xs else x ∷ rest

unfoldable pub upsert_all :
    List RetrievalCandidate → List RetrievalCandidate → List RetrievalCandidate
unfolding upsert
upsert_all merged [] = merged
upsert_all merged (c ∷ cs) = upsert_all (upsert c merged) cs

-- The larger number goes first; between equal numbers `next` decides.
abbrev pub higher_first : ℕ → ℕ → Place → Place
higher_first left right next =
    if ltb right left then before else if ltb left right then after else next

-- `indexedAt ? indexedAt.getTime() : 0`
abbrev time_of : Option ℕ → ℕ
time_of none = 0
time_of (some t) = t

module _ (k : Scorer) where
  unfoldable pub compare_candidates : RetrievalCandidate → RetrievalCandidate → Place
  compare_candidates left right = higher_first left.hybrid_score right.hybrid_score (
      higher_first left.semantic_score right.semantic_score (
        higher_first left.lexical_score right.lexical_score (
          higher_first left.metadata_score right.metadata_score (
            higher_first left.structural_score right.structural_score (
              higher_first (time_of left.indexed_at) (time_of right.indexed_at) (
                if k.locale_after left.chunk_id right.chunk_id
                then after
                else if k.locale_after right.chunk_id left.chunk_id
                then before
                else same))))))

  unfoldable pub score_candidate : RetrievalCandidate → RetrievalCandidate
  score_candidate c =
      let s = k.scored c in
      record c {
        lexical_score = s.lexical_score;
        metadata_score = s.metadata_score;
        recency_score = s.recency_score;
        structural_score = s.structural_score;
        hybrid_score = s.hybrid_score;
        debug = record c.debug {
          lexical_token_coverage = s.lexical_token_coverage;
          lexical_phrase_coverage = s.lexical_phrase_coverage;
          metadata_signals = s.metadata_signals;
          structural_signals = s.structural_signals;
          selection_reason = s.selection_reason;
        };
      }

  abbrev goes_after : Place → Bool
  goes_after after = true
  goes_after before = false
  goes_after same = false

  -- The language's `sort`, which keeps the order of entries that compare as equal.
  unfoldable pub insert : RetrievalCandidate → List RetrievalCandidate → List RetrievalCandidate
  unfolding compare_candidates
  insert c [] = c ∷ []
  insert c (x ∷ xs) =
      let rest = insert c xs in if goes_after (compare_candidates c x) then x ∷ rest else c ∷ x ∷ xs

  unfoldable pub sort : List RetrievalCandidate → List RetrievalCandidate
  unfolding insert
  sort [] = []
  sort (c ∷ cs) = insert c (sort cs)

  -- `rankBeforeDedup: index + 1`
  unfoldable pub rank_from : ℕ → List RetrievalCandidate → List RetrievalCandidate
  rank_from n [] = []
  rank_from n (c ∷ cs) =
      record c { debug = record c.debug { rank_before_dedup = some n } } ∷ rank_from (suc n) cs

  unfoldable pub merge_and_score :
      List RetrievalCandidate → List RetrievalCandidate → ℕ → List RetrievalCandidate
  unfolding upsert_all score_candidate sort rank_from
  merge_and_score semantic_candidates lexical_candidates rerank_pool_limit = rank_from 1 (
      take (max 1 rerank_pool_limit) (
        sort (
          map score_candidate (upsert_all (upsert_all [] semantic_candidates) lexical_candidates))))
