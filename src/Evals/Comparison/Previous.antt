-- ===== src/Evals/Comparison/Previous.antt =====
-- services/api/src/evals/eval-reporting.utils.ts: the summary of a previous run, which is made up
-- again from its items where none is stored, and the list of the worst regressions. A text that names
-- no category or reason is read as "general" or left out; the run stores none such.
use rag_stack_monorepo.Prelude.{
  ℕ, String, Bool, true, false, not, Option, none, some, List, [], ◌∷◌, ◌==◌, eqb, if◌then◌else◌,
  string_eq, pair_eq,
}
use rag_stack_monorepo.Json.{Json, Items, get, as_object, as_text, as_array, texts_in}
use rag_stack_monorepo.Chat.Ask.{ChatStatus}
use rag_stack_monorepo.Evals.Types.{
  EvalRubricDimensionName, EvalRubricDimensionKind, EvalFailureReason, EvalCaseCategory,
  EvalDimensionResult, EvalScoreResult,
}
use rag_stack_monorepo.Evals.Rubric.{eval_rubric_version}
use rag_stack_monorepo.Evals.Reporting.{EvalRunItemSnapshot, category_name}
use rag_stack_monorepo.Evals.Stored.{
  StoredEvalItem, extract_stored_breakdown, extract_stored_status, extract_stored_usage,
  extract_stored_citation_count, extract_stored_source_count,
  extract_stored_distinct_document_count, outcome_in, number_value, stored_dimension_passed,
  stored_dimension_applicable,
}
use rag_stack_monorepo.Evals.Comparison.{ℤ}

pub record PreviousRunSnapshot : Type 0 where
  pub id : String
  pub summary_json : Option Json
  pub items : List StoredEvalItem

pub record EvalCaseRegression : Type 0 where
  pub eval_case_id : String
  pub question : String
  pub category : Option String
  pub previous_passed : Bool
  pub current_passed : Bool
  pub previous_score : ℕ
  pub current_score : ℕ
  pub score_delta : ℤ
  pub previous_status : Option ChatStatus
  pub current_status : ChatStatus
  pub changed_dimensions : List EvalRubricDimensionName
  pub failure_reasons : List EvalFailureReason

abbrev pub dimension_names : List EvalRubricDimensionName
dimension_names =
    EvalRubricDimensionName.retrieval_source_hit ∷ EvalRubricDimensionName.evidence_relevance
    ∷ EvalRubricDimensionName.answer_groundedness ∷ EvalRubricDimensionName.answer_usefulness
    ∷ EvalRubricDimensionName.refusal_quality ∷ EvalRubricDimensionName.citation_integrity ∷ []

abbrev pub max_score_for_dimension : EvalRubricDimensionName → ℕ
max_score_for_dimension EvalRubricDimensionName.retrieval_source_hit = 1
max_score_for_dimension EvalRubricDimensionName.evidence_relevance = 2
max_score_for_dimension EvalRubricDimensionName.answer_groundedness = 2
max_score_for_dimension EvalRubricDimensionName.answer_usefulness = 2
max_score_for_dimension EvalRubricDimensionName.refusal_quality = 2
max_score_for_dimension EvalRubricDimensionName.citation_integrity = 2

abbrev kind_of : EvalRubricDimensionName → EvalRubricDimensionKind
kind_of EvalRubricDimensionName.retrieval_source_hit = EvalRubricDimensionKind.automated
kind_of EvalRubricDimensionName.evidence_relevance = EvalRubricDimensionKind.heuristic
kind_of EvalRubricDimensionName.answer_groundedness = EvalRubricDimensionKind.heuristic
kind_of EvalRubricDimensionName.answer_usefulness = EvalRubricDimensionKind.heuristic
kind_of EvalRubricDimensionName.refusal_quality = EvalRubricDimensionKind.heuristic
kind_of EvalRubricDimensionName.citation_integrity = EvalRubricDimensionKind.automated

abbrev categories : List (String × EvalCaseCategory)
categories =
    ("single_source_factual", EvalCaseCategory.single_source_factual)
    ∷ ("multi_source_synthesis", EvalCaseCategory.multi_source_synthesis)
    ∷ ("version_recency_sensitive", EvalCaseCategory.version_recency_sensitive)
    ∷ ("ambiguous_keyword_overlap", EvalCaseCategory.ambiguous_keyword_overlap)
    ∷ ("out_of_scope", EvalCaseCategory.out_of_scope)
    ∷ ("insufficient_data", EvalCaseCategory.insufficient_data)
    ∷ ("refusal", EvalCaseCategory.refusal)
    ∷ ("access_sensitive", EvalCaseCategory.access_sensitive)
    ∷ []

abbrev reasons : List (String × EvalFailureReason)
reasons =
    ("expected_source_missing", EvalFailureReason.expected_source_missing)
    ∷ ("expected_source_not_cited", EvalFailureReason.expected_source_not_cited)
    ∷ ("weak_evidence_relevance", EvalFailureReason.weak_evidence_relevance)
    ∷ ("answer_not_grounded", EvalFailureReason.answer_not_grounded)
    ∷ ("answer_not_useful", EvalFailureReason.answer_not_useful)
    ∷ ("incorrect_refusal", EvalFailureReason.incorrect_refusal)
    ∷ ("wrong_refusal_mode", EvalFailureReason.wrong_refusal_mode)
    ∷ ("citation_integrity_failed", EvalFailureReason.citation_integrity_failed)
    ∷ ("missing_multi_source_support", EvalFailureReason.missing_multi_source_support)
    ∷ ("case_requires_human_review", EvalFailureReason.case_requires_human_review)
    ∷ ("execution_failed", EvalFailureReason.execution_failed)
    ∷ []

abbrev named : {A : Type 0} → List (String × A) → String → Option A
named [] s = none
named ((name, a) ∷ rest) s = if name == s then some a else named rest s

abbrev category_of : Option String → EvalCaseCategory
category_of none = EvalCaseCategory.general
category_of (some s) = elim (named categories s) [ none ↦ EvalCaseCategory.general | some c ↦ c ]

abbrev reasons_of : List String → List EvalFailureReason
reasons_of [] = []
reasons_of (s ∷ rest) =
    let more = reasons_of rest in elim (named reasons s) [ none ↦ more | some r ↦ r ∷ more ]

abbrev stored_reasons : Option Items → List EvalFailureReason
stored_reasons none = []
stored_reasons (some xs) = reasons_of (texts_in xs)

abbrev or_else : {A : Type 0} → Option A → A → A
or_else none a = a
or_else (some b) a = b

-- The value is there, and is not null, false, 0 or the empty text.
abbrev truthy_json : Option Json → Bool
truthy_json none = false
truthy_json (some Json.null) = false
truthy_json (some (Json.boolean b)) = b
truthy_json (some (Json.number n)) = not (eqb n 0)
truthy_json (some (Json.text s)) = not (s == "")
truthy_json (some (Json.array xs)) = true
truthy_json (some (Json.object fs)) = true

module _ (to_number : Json → Option ℕ) where
  unfoldable pub reconstructed_dimension :
      StoredEvalItem → EvalRubricDimensionName → EvalDimensionResult
  unfolding stored_dimension_passed stored_dimension_applicable
  reconstructed_dimension item name =
      let passed = stored_dimension_passed to_number item name in
      let applicable = stored_dimension_applicable item name in
      record {
        name = name;
        kind = kind_of name;
        applicable = applicable;
        score =
            if applicable then some (if passed then max_score_for_dimension name else 0) else none;
        max_score = max_score_for_dimension name;
        passed = if applicable then some passed else none;
        notes = "";
      }

  abbrev was_passed : StoredEvalItem → EvalRubricDimensionName → Bool
  was_passed item name = stored_dimension_passed to_number item name

  unfoldable pub reconstruct_score_result : StoredEvalItem → EvalScoreResult
  unfolding extract_stored_breakdown reconstructed_dimension stored_dimension_passed number_value
      extract_stored_usage extract_stored_citation_count extract_stored_source_count
      extract_stored_distinct_document_count
  reconstruct_score_result item =
      let column = item.retrieved_sources_json in
      let breakdown = extract_stored_breakdown column in
      let dim = reconstructed_dimension item in
      record {
        rubric_version = or_else (as_text (get breakdown "rubricVersion")) eval_rubric_version;
        case_category = category_of (as_text (get breakdown "caseCategory"));
        expected_outcome = outcome_in breakdown;
        passed = item.passed;
        score = item.score;
        notes = or_else item.notes "";
        failure_reasons = stored_reasons (as_array (get breakdown "failureReasons"));
        dimensions = record {
          retrieval_source_hit = dim EvalRubricDimensionName.retrieval_source_hit;
          evidence_relevance = dim EvalRubricDimensionName.evidence_relevance;
          answer_groundedness = dim EvalRubricDimensionName.answer_groundedness;
          answer_usefulness = dim EvalRubricDimensionName.answer_usefulness;
          refusal_quality = dim EvalRubricDimensionName.refusal_quality;
          citation_integrity = dim EvalRubricDimensionName.citation_integrity;
        };
        source_hit = was_passed item EvalRubricDimensionName.retrieval_source_hit;
        evidence_relevant = was_passed item EvalRubricDimensionName.evidence_relevance;
        grounded = was_passed item EvalRubricDimensionName.answer_groundedness;
        useful = was_passed item EvalRubricDimensionName.answer_usefulness;
        citation_integrity = was_passed item EvalRubricDimensionName.citation_integrity;
        correct_refusal = was_passed item EvalRubricDimensionName.refusal_quality;
        expected_source_cited = truthy_json (get breakdown "expectedSourceCited");
        answer_match_score = number_value to_number (get breakdown "answerMatchScore");
        requires_human_review = truthy_json (get breakdown "requiresHumanReview");
        secondary_metrics = record {
          latency_ms = or_else item.latency_ms 0;
          usage = extract_stored_usage to_number column;
          top_score = number_value to_number (get (as_object column) "topScore");
          citation_count = extract_stored_citation_count column;
          retrieved_source_count = extract_stored_source_count column;
          distinct_retrieved_documents = extract_stored_distinct_document_count column "sources";
          distinct_cited_documents = extract_stored_distinct_document_count column "citations";
        };
      }

  unfoldable pub reconstruct_item_snapshot : StoredEvalItem → EvalRunItemSnapshot
  unfolding reconstruct_score_result extract_stored_status
  reconstruct_item_snapshot item =
      let breakdown = reconstruct_score_result item in
      record {
        eval_case_id = item.eval_case_id;
        question = "";
        category = some (category_name breakdown.case_category);
        passed = item.passed;
        score = item.score;
        regression_flag = false;
        latency_ms = item.latency_ms;
        usage = breakdown.secondary_metrics.usage;
        execution_status =
            or_else (extract_stored_status item.retrieved_sources_json)
              ChatStatus.insufficient_data;
        breakdown = breakdown;
      }
