-- ===== src/Evals/Stored/Column.antt =====
-- services/api/src/evals/evals.service.ts: the JSON column of an item, as `runEvalSet` writes it,
-- without the retrieval and citation traces.
use rag_stack_monorepo.Prelude.{ℕ, ◌+◌, ◌/◌, String, none, some, ◌==◌, if◌then◌else◌}
use rag_stack_monorepo.Json.{
  Json, boolean, number, text, array, object, field, end, items_of, whole, optional,
}
use rag_stack_monorepo.Chat.Citations.{CitationView}
use rag_stack_monorepo.Evals.Types.{
  UsageView, EvalRubricDimensionKind, EvalDimensionResult, Dimensions, EvalExecutionResult,
  EvalExpectedOutcome, EvalScoreResult, EvalSecondaryMetrics, EvalSelectedSource, reason_name,
  status_name,
}
use rag_stack_monorepo.Evals.Reporting.{category_name}
use rag_stack_monorepo.Evals.Stored.{StoredEvalItem, dimension_name}

abbrev kind_name : EvalRubricDimensionKind → String
kind_name EvalRubricDimensionKind.automated = "automated"
kind_name EvalRubricDimensionKind.heuristic = "heuristic"
kind_name EvalRubricDimensionKind.manual_review = "manual_review"

abbrev outcome_name : EvalExpectedOutcome → String
outcome_name EvalExpectedOutcome.grounded_answer = "grounded_answer"
outcome_name EvalExpectedOutcome.refusal = "refusal"

unfoldable pub dimension_json : EvalDimensionResult → Json
dimension_json d = object (
    field "name" (text (dimension_name d.name)) (
      field "kind" (text (kind_name d.kind)) (
        field "applicable" (boolean d.applicable) (
          field "score" (optional whole d.score) (
            field "maxScore" (whole d.max_score)
              (field "passed" (optional boolean d.passed) (field "notes" (text d.notes) end)))))))

unfoldable pub dimensions_json : Dimensions → Json
unfolding dimension_json
dimensions_json d = object (
    field "retrieval_source_hit" (dimension_json d.retrieval_source_hit) (
      field "evidence_relevance" (dimension_json d.evidence_relevance) (
        field "answer_groundedness" (dimension_json d.answer_groundedness) (
          field "answer_usefulness" (dimension_json d.answer_usefulness) (
            field "refusal_quality" (dimension_json d.refusal_quality)
              (field "citation_integrity" (dimension_json d.citation_integrity) end))))))

unfoldable pub usage_json : UsageView → Json
usage_json u = object (
    field "inputTokens" (whole u.input_tokens) (
      field "outputTokens" (whole u.output_tokens)
        (field "totalTokens" (whole u.total_tokens) end)))

-- A score in millionths is written with the four places that a number keeps here.
abbrev millionths : ℕ → Json
millionths n = number (n / 100)

unfoldable pub source_json : EvalSelectedSource → Json
source_json s = object (
    field "chunkId" (text s.chunk_id) (
      field "documentId" (text s.document_id) (
        field "documentTitle" (text s.document_title) (
          field "score" (millionths s.score) (
            field "page" (optional whole s.page) (
              field "section" (optional text s.section) (field "snippet" (text s.snippet) end)))))))

unfoldable pub citation_json : CitationView → Json
citation_json c = object (
    field "rank" (whole c.rank) (
      field "score" (millionths c.score) (
        field "chunkId" (text c.chunk_id) (
          field "documentId" (text c.document_id) (
            field "documentTitle" (text c.document_title) (
              field "snippet" (text c.snippet) (
                field "page" (optional whole c.page)
                  (field "section" (optional text c.section) end))))))))

unfoldable pub secondary_metrics_json : EvalSecondaryMetrics → Json
unfolding usage_json
secondary_metrics_json m = object (
    field "latencyMs" (whole m.latency_ms) (
      field "usage" (usage_json m.usage) (
        field "topScore" (number m.top_score) (
          field "citationCount" (whole m.citation_count) (
            field "retrievedSourceCount" (whole m.retrieved_source_count) (
              field "distinctRetrievedDocuments" (whole m.distinct_retrieved_documents)
                (field "distinctCitedDocuments" (whole m.distinct_cited_documents) end)))))))

unfoldable pub breakdown_json : EvalScoreResult → Json
unfolding dimensions_json secondary_metrics_json
breakdown_json r = object (
    field "rubricVersion" (text r.rubric_version) (
      field "caseCategory" (text (category_name r.case_category)) (
        field "expectedOutcome" (text (outcome_name r.expected_outcome)) (
          field "sourceHit" (boolean r.source_hit) (
            field "evidenceRelevant" (boolean r.evidence_relevant) (
              field "grounded" (boolean r.grounded) (
                field "useful" (boolean r.useful) (
                  field "citationIntegrity" (boolean r.citation_integrity) (
                    field "answerMatchScore" (number r.answer_match_score) (
                      field "correctRefusal" (boolean r.correct_refusal) (
                        field "expectedSourceCited" (boolean r.expected_source_cited) (
                          field "requiresHumanReview" (boolean r.requires_human_review) (
                            field "failureReasons"
                              (array (items_of (λ x. text (reason_name x)) r.failure_reasons))
                              (field "notes" (text r.notes) (
                                field "dimensions" (dimensions_json r.dimensions) (
                                  field "secondaryMetrics"
                                    (secondary_metrics_json r.secondary_metrics) end))))))))))))))))

unfoldable pub retrieved_sources_json : EvalExecutionResult → EvalScoreResult → Json
unfolding source_json citation_json usage_json breakdown_json
retrieved_sources_json e r = object (
    field "rubricVersion" (text r.rubric_version) (
      field "status" (text (status_name e.status)) (
        field "topScore" (number ((e.top_score + 50) / 100)) (
          field "sources" (array (items_of source_json e.selected_sources)) (
            field "citations" (array (items_of citation_json e.citations)) (
              field "citationChunkIds"
                (array (items_of (λ (c : CitationView). text c.chunk_id) e.citations))
                (field "usage" (usage_json e.usage)
                  (field "breakdown" (breakdown_json r) end))))))))

-- The columns of the stored item that a later run reads.
unfoldable pub stored_item : String → EvalExecutionResult → EvalScoreResult → StoredEvalItem
unfolding retrieved_sources_json
stored_item case_id e r = record {
  eval_case_id = case_id;
  passed = r.passed;
  score = r.score;
  latency_ms = some e.latency_ms;
  notes = if r.notes == "" then none else some r.notes;
  retrieved_sources_json = some (retrieved_sources_json e r);
}
