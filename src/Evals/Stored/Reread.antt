-- ===== src/Evals/Stored/Reread.antt =====
-- The items that `runEvalSet` of services/api/src/evals/evals.service.ts stores, as
-- eval-reporting.utils.ts reads them.
use rag_stack_monorepo.Prelude.{
  [], ◌∷◌, ℕ, String, ◌≡◌, refl, Bool, Option, some, string_eq, pair_eq, List, ◌*◌, length, ◌/◌,
  arith, ap, suc,
}
use rag_stack_monorepo.Json.{Json, size_of, items_of}
use rag_stack_monorepo.Chat.Ask.{ChatStatus}
use rag_stack_monorepo.Evals.Types.{
  EvalRubricDimensionName, EvalExecutionResult, EvalScoreResult, dimension, status_name,
}
use rag_stack_monorepo.Evals.Stored.{
  stored_dimension, stored_dimension_passed, extract_stored_breakdown, extract_stored_dimensions,
  StoredEvalItem, stored_dimension_applicable, extract_stored_status, extract_stored_usage,
  extract_stored_citation_count, named_status, extract_stored_source_count, number_value,
}
use rag_stack_monorepo.Evals.Stored.Column.{
  citation_json, source_json, stored_item, retrieved_sources_json, breakdown_json, dimensions_json,
  dimension_json, usage_json,
}

-- What is read back of a stored item is what was stored.
pub record Recovered (to_number : Json → Option ℕ) (item : StoredEvalItem) (e : EvalExecutionResult)
    (r : EvalScoreResult) : Type 0 where
  pub verdicts :
      (name : EvalRubricDimensionName) (b : Bool)
      → (dimension r.dimensions name).passed ≡ some b
      → stored_dimension_passed to_number item name ≡ b
  pub applicable :
      (name : EvalRubricDimensionName)
      → stored_dimension_applicable item name ≡ (dimension r.dimensions name).applicable
  pub status : extract_stored_status item.retrieved_sources_json ≡ some e.status
  pub usage : extract_stored_usage to_number item.retrieved_sources_json ≡ e.usage
  pub citations : extract_stored_citation_count item.retrieved_sources_json ≡ length e.citations
  pub sources : extract_stored_source_count item.retrieved_sources_json ≡ length e.selected_sources

size_of-items_of : {A : Type 0} (f : A → Json) (xs : List A) → size_of (items_of f xs) ≡ length xs
size_of-items_of f [] = refl
size_of-items_of f (x ∷ xs) = ap suc (size_of-items_of f xs)

whole_part : (n : ℕ) → n * 10000 / 10000 ≡ n
whole_part n = omega arith

module _ (to_number : Json → Option ℕ) (case_id : String) (e : EvalExecutionResult)
    (r : EvalScoreResult) where
  -- A verdict on a dimension that was given is read back as it was.
  pub stored_dimension_passed-stored_item :
      (name : EvalRubricDimensionName) (b : Bool)
      → (dimension r.dimensions name).passed ≡ some b
      → stored_dimension_passed to_number (stored_item case_id e r) name ≡ b
  unfolding stored_dimension_passed stored_dimension_applicable stored_dimension stored_item
      retrieved_sources_json breakdown_json dimensions_json dimension_json extract_stored_breakdown
      extract_stored_dimensions
  stored_dimension_passed-stored_item EvalRubricDimensionName.retrieval_source_hit b h = rw h refl
  stored_dimension_passed-stored_item EvalRubricDimensionName.evidence_relevance b h = rw h refl
  stored_dimension_passed-stored_item EvalRubricDimensionName.answer_groundedness b h = rw h refl
  stored_dimension_passed-stored_item EvalRubricDimensionName.answer_usefulness b h = rw h refl
  stored_dimension_passed-stored_item EvalRubricDimensionName.refusal_quality b h = rw h refl
  stored_dimension_passed-stored_item EvalRubricDimensionName.citation_integrity b h = rw h refl

  stored_dimension_applicable-stored_item :
      (name : EvalRubricDimensionName)
      → stored_dimension_applicable (stored_item case_id e r) name
        ≡ (dimension r.dimensions name).applicable
  unfolding stored_dimension_passed stored_dimension_applicable stored_dimension stored_item
      retrieved_sources_json breakdown_json dimensions_json dimension_json extract_stored_breakdown
      extract_stored_dimensions
  stored_dimension_applicable-stored_item EvalRubricDimensionName.retrieval_source_hit = refl
  stored_dimension_applicable-stored_item EvalRubricDimensionName.evidence_relevance = refl
  stored_dimension_applicable-stored_item EvalRubricDimensionName.answer_groundedness = refl
  stored_dimension_applicable-stored_item EvalRubricDimensionName.answer_usefulness = refl
  stored_dimension_applicable-stored_item EvalRubricDimensionName.refusal_quality = refl
  stored_dimension_applicable-stored_item EvalRubricDimensionName.citation_integrity = refl

  stored_status :
      extract_stored_status (stored_item case_id e r).retrieved_sources_json ≡ some e.status
  unfolding extract_stored_status stored_item retrieved_sources_json
  stored_status =
      elim e.status as (λ (st : ChatStatus). named_status (some (status_name st)) ≡ some st) [
        | ChatStatus.grounded ↦ refl
        | ChatStatus.insufficient_data ↦ refl
        | ChatStatus.out_of_scope ↦ refl
      ]

  -- Of an item that a run stores, a later run reads back the verdict on every dimension that had
  -- one, which dimensions applied, the status, the token counts, and the numbers of citations and
  -- sources.
  pub stored_item-Recovered : Recovered to_number (stored_item case_id e r) e r
  unfolding stored_item retrieved_sources_json extract_stored_usage usage_json number_value
      extract_stored_citation_count extract_stored_source_count
  stored_item-Recovered = record {
    verdicts = stored_dimension_passed-stored_item;
    applicable = stored_dimension_applicable-stored_item;
    status = stored_status;
    usage = cc (
      whole_part e.usage.input_tokens,
      whole_part e.usage.output_tokens,
      whole_part e.usage.total_tokens,
    );
    citations = size_of-items_of citation_json e.citations;
    sources = size_of-items_of source_json e.selected_sources;
  }
