-- ===== src/Evals/Stored.antt =====
-- services/api/src/evals/eval-reporting.utils.ts: what is read back of a stored item, whose JSON
-- column may be of an older form. `Number` of a value that is no number is the parameter
-- `to_number`, which gives nothing where the result is not finite. Token counts are whole.
pub mod Column
pub mod Reread
use rag_stack_monorepo.Prelude.{
  ℕ, ◌/◌, String, refl, Bool, true, false, not, Option, none, some, List, [], ◌∷◌, arith, ◌==◌,
  eq_iff, eq_refl, leb, eqb, if◌then◌else◌, string_eq, pair_eq, length,
}
use rag_stack_monorepo.Json.{
  Json, null, boolean, number, text, array, object, Items, nil, cons, get, as_object, as_boolean,
  as_text, as_array, is_true, size_of,
}
use rag_stack_monorepo.Chat.{dedupe_ordered}
use rag_stack_monorepo.Chat.Ask.{ChatStatus}
use rag_stack_monorepo.Evals.Types.{UsageView, EvalRubricDimensionName, EvalExpectedOutcome}

pub record StoredEvalItem : Type 0 where
  pub eval_case_id : String
  pub passed : Bool
  pub score : ℕ
  pub latency_ms : Option ℕ
  pub notes : Option String
  pub retrieved_sources_json : Option Json

abbrev pub dimension_name : EvalRubricDimensionName → String
dimension_name EvalRubricDimensionName.retrieval_source_hit = "retrieval_source_hit"
dimension_name EvalRubricDimensionName.evidence_relevance = "evidence_relevance"
dimension_name EvalRubricDimensionName.answer_groundedness = "answer_groundedness"
dimension_name EvalRubricDimensionName.answer_usefulness = "answer_usefulness"
dimension_name EvalRubricDimensionName.refusal_quality = "refusal_quality"
dimension_name EvalRubricDimensionName.citation_integrity = "citation_integrity"

abbrev pub critical_dimensions : List EvalRubricDimensionName
critical_dimensions =
    EvalRubricDimensionName.retrieval_source_hit ∷ EvalRubricDimensionName.answer_groundedness
    ∷ EvalRubricDimensionName.refusal_quality ∷ EvalRubricDimensionName.citation_integrity ∷ []

unfoldable pub extract_stored_breakdown : Option Json → Option Json
extract_stored_breakdown input = as_object (get (as_object input) "breakdown")

unfoldable pub extract_stored_dimensions : Option Json → Option Json
extract_stored_dimensions input = as_object (get input "dimensions")

abbrev pub status_of : String → Option ChatStatus
status_of s =
    if s == "grounded"
    then some ChatStatus.grounded
    else if s == "insufficient_data"
    then some ChatStatus.insufficient_data
    else if s == "out_of_scope"
    then some ChatStatus.out_of_scope
    else none

abbrev pub named_status : Option String → Option ChatStatus
named_status none = none
named_status (some s) = status_of s

unfoldable pub extract_stored_status : Option Json → Option ChatStatus
extract_stored_status input = named_status (as_text (get (as_object input) "status"))

abbrev counted : Option Items → Option Items → ℕ
counted (some xs) other = size_of xs
counted none (some ys) = size_of ys
counted none none = 0

unfoldable pub extract_stored_citation_count : Option Json → ℕ
extract_stored_citation_count input =
    let root = as_object input in
    counted (as_array (get root "citations")) (as_array (get root "citationChunkIds"))

unfoldable pub extract_stored_source_count : Option Json → ℕ
extract_stored_source_count input = counted (as_array (get (as_object input) "sources")) none

-- The `documentId` of each entry that has one.
unfoldable pub document_ids_in : Items → List String
document_ids_in nil = []
document_ids_in (cons x xs) = elim (as_text (get (as_object (some x)) "documentId")) [
  | none ↦ document_ids_in xs
  | some id ↦ id ∷ document_ids_in xs
]

abbrev distinct_in : Option Items → ℕ
distinct_in none = 0
distinct_in (some xs) = length (dedupe_ordered (document_ids_in xs))

unfoldable pub extract_stored_distinct_document_count : Option Json → String → ℕ
unfolding document_ids_in dedupe_ordered
extract_stored_distinct_document_count input name =
    distinct_in (as_array (get (as_object input) name))

abbrev says_refusal : Option String → Bool
says_refusal none = false
says_refusal (some s) = s == "refusal"

-- `breakdown?.expectedOutcome === "refusal" ? "refusal" : "grounded_answer"`
abbrev pub outcome_in : Option Json → EvalExpectedOutcome
outcome_in breakdown =
    if says_refusal (as_text (get breakdown "expectedOutcome"))
    then EvalExpectedOutcome.refusal
    else EvalExpectedOutcome.grounded_answer

abbrev is_refusal : EvalExpectedOutcome → Bool
is_refusal EvalExpectedOutcome.refusal = true
is_refusal EvalExpectedOutcome.grounded_answer = false

abbrev applies_by_outcome : EvalRubricDimensionName → EvalExpectedOutcome → Bool
applies_by_outcome EvalRubricDimensionName.refusal_quality o = is_refusal o
applies_by_outcome EvalRubricDimensionName.retrieval_source_hit o = not (is_refusal o)
applies_by_outcome EvalRubricDimensionName.evidence_relevance o = not (is_refusal o)
applies_by_outcome EvalRubricDimensionName.answer_groundedness o = not (is_refusal o)
applies_by_outcome EvalRubricDimensionName.answer_usefulness o = not (is_refusal o)
applies_by_outcome EvalRubricDimensionName.citation_integrity o = not (is_refusal o)

unfoldable pub stored_dimension : StoredEvalItem → EvalRubricDimensionName → Option Json
unfolding extract_stored_breakdown extract_stored_dimensions
stored_dimension item name =
    get (extract_stored_dimensions (extract_stored_breakdown item.retrieved_sources_json))
      (dimension_name name)

unfoldable pub stored_dimension_applicable : StoredEvalItem → EvalRubricDimensionName → Bool
unfolding stored_dimension extract_stored_breakdown
stored_dimension_applicable item name =
    elim (as_boolean (get (stored_dimension item name) "applicable")) [
      | some b ↦ b
      | none ↦
          applies_by_outcome name
            (outcome_in (extract_stored_breakdown item.retrieved_sources_json))
    ]

abbrev says_grounded : Option ChatStatus → Bool
says_grounded none = false
says_grounded (some ChatStatus.grounded) = true
says_grounded (some ChatStatus.insufficient_data) = false
says_grounded (some ChatStatus.out_of_scope) = false

module _ (to_number : Json → Option ℕ) where
  -- `Number(input ?? 0)`, 0 where that is not finite
  unfoldable pub number_value : Option Json → ℕ
  number_value none = 0
  number_value (some null) = 0
  number_value (some (number n)) = n
  number_value (some (boolean b)) = elim (to_number (boolean b)) [ none ↦ 0 | some n ↦ n ]
  number_value (some (text s)) = elim (to_number (text s)) [ none ↦ 0 | some n ↦ n ]
  number_value (some (array xs)) = elim (to_number (array xs)) [ none ↦ 0 | some n ↦ n ]
  number_value (some (object fs)) = elim (to_number (object fs)) [ none ↦ 0 | some n ↦ n ]

  abbrev tokens_in : Option Json → String → ℕ
  tokens_in usage name = number_value (get usage name) / 10000

  unfoldable pub extract_stored_usage : Option Json → UsageView
  unfolding number_value
  extract_stored_usage input =
      let usage = as_object (get (as_object input) "usage") in
      record {
        input_tokens = tokens_in usage "inputTokens";
        output_tokens = tokens_in usage "outputTokens";
        total_tokens = tokens_in usage "totalTokens";
      }

  -- The form of a breakdown before it had dimensions.
  unfoldable pub legacy_passed : StoredEvalItem → EvalRubricDimensionName → Bool
  unfolding extract_stored_breakdown extract_stored_status extract_stored_citation_count
      number_value
  legacy_passed item EvalRubricDimensionName.retrieval_source_hit =
      is_true (get (extract_stored_breakdown item.retrieved_sources_json) "sourceHit")
  legacy_passed item EvalRubricDimensionName.answer_groundedness =
      is_true (get (extract_stored_breakdown item.retrieved_sources_json) "grounded")
  legacy_passed item EvalRubricDimensionName.refusal_quality =
      is_true (get (extract_stored_breakdown item.retrieved_sources_json) "correctRefusal")
  legacy_passed item EvalRubricDimensionName.citation_integrity =
      let none_cited = eqb (extract_stored_citation_count item.retrieved_sources_json) 0 in
      if says_grounded (extract_stored_status item.retrieved_sources_json)
      then not none_cited
      else none_cited
  legacy_passed item EvalRubricDimensionName.answer_usefulness =
      leb 4500 (
        number_value
          (get (extract_stored_breakdown item.retrieved_sources_json) "answerMatchScore"))
  legacy_passed item EvalRubricDimensionName.evidence_relevance =
      is_true (get (extract_stored_breakdown item.retrieved_sources_json) "sourceHit")

  unfoldable pub stored_dimension_passed : StoredEvalItem → EvalRubricDimensionName → Bool
  unfolding stored_dimension legacy_passed
  stored_dimension_passed item name =
      elim (as_boolean (get (stored_dimension item name) "passed")) [
        | some b ↦ b
        | none ↦ legacy_passed item name
      ]
