-- ===== src/Evals/Runs.antt =====
-- services/api/src/evals/evals.service.ts: `runEvalSet`, without the span, the metrics, the log lines
-- and the comparison that is stored with the summary. Each write of the run can fail: the creation
-- of its row and the audit entry of its start before the try block, the items, the summary's row and
-- its audit entry inside it, and the mark of the failure in the catch block. A summary that cannot
-- be compared throws inside the try block.
pub mod Ends
pub mod Closed
use rag_stack_monorepo.Prelude.{
  ℕ, ◌+◌, ◌*◌, min, String, refl, Bool, true, false, not, Option, none, some, List, [], ◌∷◌, ◌++◌,
  map, arith, ◌==◌, eq_iff, eq_refl, if◌then◌else◌, is_some, string_eq, pair_eq, filter,
}
use rag_stack_monorepo.Exec.{
  HttpError, bad_request, not_found, unavailable, fault, Result, ok, err, Exec, pure, gets, require,
  lift, modify, guard, ◌>>=◌, ◌>>◌,
}
use rag_stack_monorepo.Prisma.{Prisma}
use rag_stack_monorepo.Json.{Json, number, text, object, field, end, Fields, whole}
use rag_stack_monorepo.Schema.{Db, EvalSet, EvalCase, EvalRun, EvalRunStatus, EvalItem}
use rag_stack_monorepo.Authorization.Roles.{AuthenticatedUser, assert_ops_access}
use rag_stack_monorepo.KnowledgeBases.{log_action}
use rag_stack_monorepo.Evals.Types.{EvalExecutionResult, EvalScoreResult, EvalRubricDimensionName}
use rag_stack_monorepo.Evals.Reporting.{
  EvalRunItemSnapshot, EvalRunSummary, EvalMetricSummary, CategoryEntry, build_run_summary,
}
use rag_stack_monorepo.Evals.Stored.{StoredEvalItem, dimension_name}
use rag_stack_monorepo.Evals.Stored.Column.{retrieved_sources_json, usage_json}
use rag_stack_monorepo.Evals.Comparison.{should_flag_regression}
use rag_stack_monorepo.Evals.Comparison.Previous.{PreviousRunSnapshot, dimension_names}
use rag_stack_monorepo.Evals.Comparison.Notable.{previous_item, build_run_comparison}
use rag_stack_monorepo.Evals.Execution.{
  EvalServices, EvalRetrievalConfig, execute_case, case_result, message_of,
}
use rag_stack_monorepo.Evals.Sets.{EvalRunView, active_cases, previous_run, get_eval_run, of_run}

pub record CreateEvalRunDto : Type 0 where
  pub eval_set_id : String
  pub candidate_limit : Option ℕ
  pub grounding_limit : Option ℕ

-- The writes of a run's row and of its audit entries.
pub data RunWrite : Type 0 where
  creation start_audit completion completion_audit failure : RunWrite

-- What the handler gets from outside: the new run's identifier, the clock at the start and the end,
-- which of the run's writes and which cases' items the database takes, `Number`, and the test for a fall of the score by 0.2.
pub record EvalOutside : Type 0 where
  pub new_run_id : String
  pub started_at : ℕ
  pub finished_at : ℕ
  pub taken : RunWrite → Bool
  pub item_stored : String → Bool
  pub to_number : Json → Option ℕ
  pub drops : ℕ → ℕ → Bool

abbrev or_else : {A : Type 0} → Option A → A → A
or_else none a = a
or_else (some b) a = b

abbrev stored_note : String → Option String
stored_note notes = if notes == "" then none else some notes

abbrev numbers_json : List (String × ℕ) → Fields
numbers_json [] = end
numbers_json ((key, n) ∷ rest) = field key (whole n) (numbers_json rest)

abbrev categories_json : List (String × CategoryEntry) → Fields
categories_json [] = end
categories_json ((key, e) ∷ rest) =
    field key
      (object (
        field "totalCases" (whole e.total_cases)
          (field "passedCases" (whole e.passed_cases) (field "passRate" (number e.pass_rate) end))))
      (categories_json rest)

abbrev metric_json : EvalMetricSummary → Json
metric_json m = object (
    field "applicableCases" (whole m.applicable_cases)
      (field "passedCases" (whole m.passed_cases) (field "rate" (number m.rate) end)))

abbrev metrics_json :
    (EvalRubricDimensionName → EvalMetricSummary) → List EvalRubricDimensionName → Fields
metrics_json f [] = end
metrics_json f (name ∷ names) =
    field (dimension_name name) (metric_json (f name)) (metrics_json f names)

abbrev averages_json : EvalRunSummary → Json
averages_json s = object (
    field "inputTokens" (number (s.usage_averages.input_tokens * 100)) (
      field "outputTokens" (number (s.usage_averages.output_tokens * 100))
        (field "totalTokens" (number (s.usage_averages.total_tokens * 100)) end)))

unfoldable pub summary_json : EvalRunSummary → Json
unfolding usage_json
summary_json s = object (
    field "rubricVersion" (text s.rubric_version) (
      field "runId" (text s.run_id) (
        field "totalCases" (whole s.total_cases) (
          field "passedCases" (whole s.passed_cases) (
            field "passRate" (number s.pass_rate) (
              field "retrievalHitRate" (number s.retrieval_hit_rate) (
                field "evidenceRelevanceRate" (number s.evidence_relevance_rate) (
                  field "groundednessRate" (number s.groundedness_rate) (
                    field "usefulnessRate" (number s.usefulness_rate) (
                      field "refusalCorrectnessRate" (number s.refusal_correctness_rate) (
                        field "citationIntegrityRate" (number s.citation_integrity_rate) (
                          field "averageLatencyMs" (number (s.average_latency_ms * 100)) (
                            field "averageScore" (number s.average_score) (
                              field "regressionCount" (whole s.regression_count) (
                                field "statusBreakdown" (object (numbers_json s.status_breakdown)) (
                                  field "failureReasonCounts"
                                    (object (numbers_json s.failure_reason_counts))
                                    (field "categoryBreakdown"
                                      (object (categories_json s.category_breakdown))
                                      (field "usageTotals" (usage_json s.usage_totals) (
                                        field "usageAverages" (averages_json s) (
                                          field "metrics"
                                            (object (metrics_json s.metrics dimension_names))
                                            end))))))))))))))))))))

module _ (p : Prisma) (s : EvalServices) (o : EvalOutside) where
  unfoldable pub retrieval_config : CreateEvalRunDto → EvalRetrievalConfig
  retrieval_config dto = record {
    candidate_limit = or_else dto.candidate_limit s.candidate_limit;
    grounding_limit =
        min (or_else dto.grounding_limit s.grounding_limit) s.chat.max_grounding_chunks;
  }

  abbrev pub new_run : String × EvalSet → EvalRun
  new_run (set_id, set) = record {
    eval_set_id = set_id;
    kb_id = set.kb_id;
    model_name = s.chat.model_name;
    started_at = o.started_at;
    finished_at = none;
    status = EvalRunStatus.running;
    summary_json = none;
  }

  unfoldable pub put_run : EvalRun → Exec (Db p) Unit
  put_run run =
      modify (λ (db : Db p). record db { eval_runs = p.put o.new_run_id run db.eval_runs })

  abbrev read_item : EvalItem → StoredEvalItem
  read_item i = record {
    eval_case_id = i.eval_case_id;
    passed = i.passed;
    score = i.score;
    latency_ms = i.latency_ms;
    notes = i.notes;
    retrieved_sources_json = some i.retrieved_sources_json;
  }

  unfoldable pub previous_snapshot : String → Db p → Option PreviousRunSnapshot
  unfolding previous_run
  previous_snapshot set_id db = elim (previous_run p set_id o.started_at db) [
    | none ↦ none
    | some (id, run) ↦ some (record {
      id = id;
      summary_json = run.summary_json;
      items = map read_item (filter (of_run id) db.eval_items);
    })
  ]

  abbrev previous_items : Option PreviousRunSnapshot → List StoredEvalItem
  previous_items none = []
  previous_items (some run) = run.items

  -- The result of a case before it is known whether it is a regression.
  unfoldable pub item_base :
      String × EvalCase → EvalExecutionResult × EvalScoreResult → EvalRunItemSnapshot
  item_base (case_id, c) (e, r) = record {
    eval_case_id = case_id;
    question = c.question;
    category = some c.category;
    passed = r.passed;
    score = r.score;
    regression_flag = false;
    latency_ms = some e.latency_ms;
    usage = e.usage;
    execution_status = e.status;
    breakdown = r;
  }

  unfoldable pub current_item :
      Option PreviousRunSnapshot
      → String × EvalCase
      → EvalExecutionResult × EvalScoreResult
      → EvalRunItemSnapshot
  unfolding item_base previous_item should_flag_regression
  current_item previous c result =
      let base = item_base c result in
      record base {
        regression_flag =
            should_flag_regression o.to_number o.drops base
              (previous_item (previous_items previous) c.0);
      }

  unfoldable pub eval_item :
      String → EvalExecutionResult × EvalScoreResult → EvalRunItemSnapshot → EvalItem
  unfolding retrieved_sources_json
  eval_item case_id (e, r) item = record {
    eval_run_id = o.new_run_id;
    eval_case_id = case_id;
    actual_answer = e.answer;
    retrieved_sources_json = retrieved_sources_json e r;
    passed = r.passed;
    score = r.score;
    notes = stored_note r.notes;
    regression_flag = item.regression_flag;
    latency_ms = some e.latency_ms;
  }

  module _ (u : AuthenticatedUser) (kb_id : String) (config : EvalRetrievalConfig) where
    -- A case's result, whose failures are recorded and not thrown.
    unfoldable pub result_of : String × EvalCase → Db p → EvalExecutionResult × EvalScoreResult
    unfolding case_result execute_case
    result_of (case_id, c) db = case_result s c (execute_case p s u.id kb_id c config db)

    -- One round of the loop over the cases.
    unfoldable pub record_case :
        Option PreviousRunSnapshot → String × EvalCase → Exec (Db p) EvalRunItemSnapshot
    unfolding result_of current_item eval_item
    record_case previous c = do
      result ← gets (result_of c)
      guard (o.item_stored c.0) fault
      let item = current_item previous c result
      modify (λ (db : Db p). record db {
        eval_items = db.eval_items ++ (eval_item c.0 result item ∷ []);
      })
      pure item

    unfoldable pub record_cases :
        Option PreviousRunSnapshot
        → List (String × EvalCase)
        → Exec (Db p) (List EvalRunItemSnapshot)
    unfolding record_case
    record_cases previous [] = pure []
    record_cases previous (c ∷ cs) = do
      item ← record_case previous c
      items ← record_cases previous cs
      pure (item ∷ items)

  -- The comparison with the run before, where there is one, can be made.
  unfoldable pub comparable :
      EvalRunSummary → List EvalRunItemSnapshot → Option PreviousRunSnapshot → Bool
  unfolding build_run_comparison
  comparable summary items none = true
  comparable summary items (some run) =
      is_some (build_run_comparison o.to_number o.drops summary items run)

  abbrev pub completed_run : String × EvalSet → EvalRunSummary → EvalRun
  completed_run set summary = record (new_run set) {
    finished_at = some o.finished_at;
    status = EvalRunStatus.completed;
    summary_json = some (summary_json summary);
  }

  abbrev pub failed_run : String × EvalSet → HttpError → EvalRun
  failed_run set e = record (new_run set) {
    finished_at = some o.finished_at;
    status = EvalRunStatus.failed;
    summary_json = some (object (field "error" (text (message_of e)) end));
  }

  abbrev run_audit : AuthenticatedUser → String × EvalSet → String → Exec (Db p) Unit
  run_audit u set action = log_action p (record {
    actor_id = some u.id;
    action = action;
    entity_type = "EvalRun";
    entity_id = o.new_run_id;
    kb_id = some set.1.kb_id;
  })

  -- The try block: the cases, the summary and the run's row.
  unfoldable pub complete_run :
      AuthenticatedUser
      → String × EvalSet
      → EvalRetrievalConfig
      → Option PreviousRunSnapshot
      → List (String × EvalCase)
      → Exec (Db p) Unit
  unfolding record_cases build_run_summary comparable put_run
  complete_run u set config previous cases = do
    items ← record_cases u set.1.kb_id config previous cases
    let summary = build_run_summary o.new_run_id items
    guard (comparable summary items previous) fault
    guard (o.taken completion) fault
    put_run (completed_run set summary)
    guard (o.taken completion_audit) fault
    run_audit u set "EVAL_RUN_COMPLETE"

  -- The catch block: the run is marked as failed and the error is thrown again, unless the mark
  -- itself fails.
  abbrev pub caught : String × EvalSet → Result Unit × Db p → Result Unit × Db p
  caught set (ok done, db) = (ok done, db)
  caught set (err e, db) =
      if o.taken failure
      then (err e, record db { eval_runs = p.put o.new_run_id (failed_run set e) db.eval_runs })
      else (err fault, db)

  unfoldable pub try_run :
      AuthenticatedUser
      → String × EvalSet
      → EvalRetrievalConfig
      → Option PreviousRunSnapshot
      → List (String × EvalCase)
      → Exec (Db p) Unit
  unfolding complete_run
  try_run u set config previous cases db = caught set (complete_run u set config previous cases db)

  -- The view is returned from the try block but not awaited there: its error is not caught.
  unfoldable pub start_run :
      AuthenticatedUser
      → CreateEvalRunDto
      → String × EvalSet
      → List (String × EvalCase)
      → Exec (Db p) EvalRunView
  unfolding put_run previous_snapshot try_run retrieval_config get_eval_run
  start_run u dto set cases = do
    guard (o.taken creation) fault
    put_run (new_run set)
    guard (o.taken start_audit) fault
    run_audit u set "EVAL_RUN_START"
    previous ← gets (previous_snapshot set.0)
    try_run u set (retrieval_config dto) previous cases
    get_eval_run p u o.new_run_id

  abbrev no_cases : List (String × EvalCase) → Bool
  no_cases [] = true
  no_cases (c ∷ cs) = false

  unfoldable pub run_eval_set : AuthenticatedUser → CreateEvalRunDto → Exec (Db p) EvalRunView
  unfolding active_cases start_run
  run_eval_set u dto = do
    lift (assert_ops_access (some u))
    guard s.is_configured (unavailable "Eval runs require grounded chat to be configured")
    row ← gets (λ (db : Db p). p.find_unique dto.eval_set_id db.eval_sets)
    set ← require (not_found "Eval set not found") row
    cases ← gets (active_cases p dto.eval_set_id)
    guard (not (no_cases cases)) (bad_request "Eval set has no active cases")
    start_run u dto (dto.eval_set_id, set) cases
