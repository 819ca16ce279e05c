-- ===== src/Evals/Types.antt =====
-- services/api/src/evals/eval.types.ts: the values that a scored case and a run are made of. The
-- retrieval and citation traces of a result, which are only stored, are left out. A score between 0
-- and 1 is in ten-thousandths, as `toFixed(4)` leaves it.
use rag_stack_monorepo.Prelude.{
  ℕ, ◌*◌, ◌/◌, ◌+◌, String, Bool, Option, List, [], ◌∷◌, ◌==◌, filter, not,
}
use rag_stack_monorepo.Chat.Ask.{ChatStatus}
use rag_stack_monorepo.Chat.{Ratio}
use rag_stack_monorepo.Chat.Citations.{CitationView}

pub record UsageView : Type 0 where
  pub input_tokens : ℕ
  pub output_tokens : ℕ
  pub total_tokens : ℕ

pub data EvalRubricDimensionName : Type 0 where
  retrieval_source_hit evidence_relevance answer_groundedness : EvalRubricDimensionName
  answer_usefulness refusal_quality citation_integrity : EvalRubricDimensionName

pub data EvalRubricDimensionKind : Type 0 where
  automated heuristic manual_review : EvalRubricDimensionKind

pub data EvalFailureReason : Type 0 where
  expected_source_missing expected_source_not_cited weak_evidence_relevance : EvalFailureReason
  answer_not_grounded answer_not_useful incorrect_refusal wrong_refusal_mode : EvalFailureReason
  citation_integrity_failed missing_multi_source_support : EvalFailureReason
  case_requires_human_review execution_failed : EvalFailureReason

pub data EvalCaseCategory : Type 0 where
  general single_source_factual multi_source_synthesis version_recency_sensitive : EvalCaseCategory
  ambiguous_keyword_overlap out_of_scope insufficient_data refusal : EvalCaseCategory
  access_sensitive : EvalCaseCategory

pub data EvalExpectedOutcome : Type 0 where
  grounded_answer refusal : EvalExpectedOutcome

pub record EvalSelectedSource : Type 0 where
  pub chunk_id : String
  pub document_id : String
  pub document_title : String
  pub score : ℕ
  pub page : Option ℕ
  pub section : Option String
  pub snippet : String

pub record EvalExecutionResult : Type 0 where
  pub status : ChatStatus
  pub answer : String
  pub citations : List CitationView
  pub usage : UsageView
  pub latency_ms : ℕ
  pub selected_sources : List EvalSelectedSource
  pub top_score : ℕ

pub record EvalDimensionResult : Type 0 where
  pub name : EvalRubricDimensionName
  pub kind : EvalRubricDimensionKind
  pub applicable : Bool
  pub score : Option ℕ
  pub max_score : ℕ
  pub passed : Option Bool
  pub notes : String

pub record Dimensions : Type 0 where
  pub retrieval_source_hit : EvalDimensionResult
  pub evidence_relevance : EvalDimensionResult
  pub answer_groundedness : EvalDimensionResult
  pub answer_usefulness : EvalDimensionResult
  pub refusal_quality : EvalDimensionResult
  pub citation_integrity : EvalDimensionResult

pub record EvalSecondaryMetrics : Type 0 where
  pub latency_ms : ℕ
  pub usage : UsageView
  pub top_score : ℕ
  pub citation_count : ℕ
  pub retrieved_source_count : ℕ
  pub distinct_retrieved_documents : ℕ
  pub distinct_cited_documents : ℕ

pub record EvalScoreResult : Type 0 where
  pub rubric_version : String
  pub case_category : EvalCaseCategory
  pub expected_outcome : EvalExpectedOutcome
  pub passed : Bool
  pub score : ℕ
  pub notes : String
  pub failure_reasons : List EvalFailureReason
  pub dimensions : Dimensions
  pub source_hit : Bool
  pub evidence_relevant : Bool
  pub grounded : Bool
  pub useful : Bool
  pub citation_integrity : Bool
  pub correct_refusal : Bool
  pub expected_source_cited : Bool
  pub answer_match_score : ℕ
  pub requires_human_review : Bool
  pub secondary_metrics : EvalSecondaryMetrics

-- `dimensions[name]`
abbrev pub dimension : Dimensions → EvalRubricDimensionName → EvalDimensionResult
dimension d retrieval_source_hit = d.retrieval_source_hit
dimension d evidence_relevance = d.evidence_relevance
dimension d answer_groundedness = d.answer_groundedness
dimension d answer_usefulness = d.answer_usefulness
dimension d refusal_quality = d.refusal_quality
dimension d citation_integrity = d.citation_integrity

-- The string that stands for a status, by which statuses are compared.
abbrev pub status_name : ChatStatus → String
status_name ChatStatus.grounded = "grounded"
status_name ChatStatus.insufficient_data = "insufficient_data"
status_name ChatStatus.out_of_scope = "out_of_scope"

abbrev pub reason_name : EvalFailureReason → String
reason_name expected_source_missing = "expected_source_missing"
reason_name expected_source_not_cited = "expected_source_not_cited"
reason_name weak_evidence_relevance = "weak_evidence_relevance"
reason_name answer_not_grounded = "answer_not_grounded"
reason_name answer_not_useful = "answer_not_useful"
reason_name incorrect_refusal = "incorrect_refusal"
reason_name wrong_refusal_mode = "wrong_refusal_mode"
reason_name citation_integrity_failed = "citation_integrity_failed"
reason_name missing_multi_source_support = "missing_multi_source_support"
reason_name case_requires_human_review = "case_requires_human_review"
reason_name execution_failed = "execution_failed"

-- `[...new Set(reasons)]`
unfoldable pub dedupe_reasons : List EvalFailureReason → List EvalFailureReason
dedupe_reasons [] = []
dedupe_reasons (r ∷ rs) = r ∷ filter (λ s. not (reason_name r == reason_name s)) (dedupe_reasons rs)

-- `toFixed(4)` of a quotient: the nearest number of ten-thousandths, the larger of two.
abbrev pub ten_thousandths : Ratio → ℕ
ten_thousandths r = (r.part * 20000 + r.whole) / (2 * r.whole)
