-- ===== src/Chat.antt =====
-- services/api/src/chat: the candidates that the retrieval stages pass on (chat.types.ts) and the
-- token overlap of two texts (retrieval-scoring.utils.ts). A score is a number of millionths, which
-- is what `toFixed(6)` leaves of it, and a date is its time in milliseconds.
pub mod Dedupe
pub mod Dedup
pub mod Merge
pub mod Retrieval
pub mod Citations
pub mod Conversations
pub mod Ask
pub mod LocalAnswer
use rag_stack_monorepo.Prelude.{
  ℕ, suc, ◌+◌, ◌-◌, ◌*◌, String, refl, Bool, true, false, not, ◌&&◌, Option, List, [], ◌∷◌, arith,
  ◌==◌, eq_iff, eq_refl, ltb, leb, string_eq, pair_eq, length, filter, any,
}

pub data RetrievalSource : Type 0 where
  semantic lexical : RetrievalSource

pub record RetrievalCandidateDebug : Type 0 where
  pub retrieved_by : List RetrievalSource
  pub raw_semantic_distance : Option ℕ
  pub raw_semantic_similarity : Option ℕ
  pub raw_lexical_score : Option ℕ
  pub lexical_token_coverage : ℕ
  pub lexical_phrase_coverage : ℕ
  pub metadata_signals : List String
  pub structural_signals : List String
  pub selection_reason : String
  pub rank_before_dedup : Option ℕ
  pub rank_after_dedup : Option ℕ
  pub dedup_reason : Option String

pub record RetrievalCandidate : Type 0 where
  pub chunk_id : String
  pub document_id : String
  pub document_title : String
  pub document_version_id : String
  pub kb_id : String
  pub chunk_no : ℕ
  pub content : String
  pub search_text : String
  pub checksum : String
  pub section_title : Option String
  pub page_number : Option ℕ
  pub source_title : Option String
  pub language : Option String
  pub semantic_score : ℕ
  pub lexical_score : ℕ
  pub recency_score : ℕ
  pub metadata_score : ℕ
  pub structural_score : ℕ
  pub hybrid_score : ℕ
  pub semantic_rank : Option ℕ
  pub lexical_rank : Option ℕ
  pub indexed_at : Option ℕ
  pub debug : RetrievalCandidateDebug

-- The functions of retrieval-scoring.utils.ts that cut a text up by Unicode classes, with the
-- regular expressions and `normalize` of the language.
pub record Texts : Type 0 where
  pub extract_matching_terms : String → List String
  -- `null` is read as the empty text
  pub normalize_text_for_match : Option String → String
  -- left + 0.1 < right for two scores, in the arithmetic of the language
  pub exceeds : ℕ → ℕ → Bool

-- `Array.from(new Set(items))`: the first of equal strings is kept.
unfoldable pub dedupe_ordered : List String → List String
dedupe_ordered [] = []
dedupe_ordered (x ∷ xs) = x ∷ filter (λ y. not (x == y)) (dedupe_ordered xs)

abbrev pub contains_string : List String → String → Bool
contains_string xs s = any (λ x. x == s) xs

-- A quotient of two whole numbers, such as a share of tokens.
pub record Ratio : Type 0 where
  pub part : ℕ
  pub whole : ℕ

-- r < percent / 100
abbrev pub below : Ratio → ℕ → Bool
below r percent = ltb (r.part * 100) (percent * r.whole)

-- The tokens on both sides over the tokens on either side; 0 where one side has none.
abbrev pub ratio_of : List String → List String → ℕ → Ratio
ratio_of [] _ _ = record { part = 0; whole = 1 }
ratio_of _ [] _ = record { part = 0; whole = 1 }
ratio_of left right shared = record { part = shared; whole = (length left + length right) - shared }

abbrev overlap : List String → List String → Ratio
overlap left right = ratio_of left right (length (filter (contains_string right) left))

unfoldable pub compute_jaccard : Texts → String → String → Ratio
unfolding dedupe_ordered
compute_jaccard t left right =
    overlap (dedupe_ordered (t.extract_matching_terms left))
      (dedupe_ordered (t.extract_matching_terms right))

-- Math.abs(a - b) <= 1
abbrev pub near : ℕ → ℕ → Bool
near a b = leb a (suc b) && leb b (suc a)
