-- ===== src/Examples/Evals.antt =====
-- Evaluation cases that pass, their items, and a run of a set with one case.
use rag_stack_monorepo.Prelude.{
  ◌≡◌, refl, true, none, some, [], ◌∷◌, string_eq, pair_eq, ◌↔◌, false, Option, ℕ, All, arith, Bool,
  leb, ◌+◌, not,
}
use rag_stack_monorepo.Chat.Ask.{ChatStatus}
use rag_stack_monorepo.Chat.Citations.{CitationView}
use rag_stack_monorepo.Evals.Types.{
  EvalExecutionResult, EvalScoreResult, EvalSelectedSource, EvalCaseCategory,
}
use rag_stack_monorepo.Evals.Rubric.{category_rule, EvalCategoryRule}
use rag_stack_monorepo.Evals.Scoring.{ScoringTools, ScoreableEvalCase}
use rag_stack_monorepo.Evals.Scoring.Case.{score_by_rule, score_case}
use rag_stack_monorepo.Evals.Scoring.Verdicts.{
  score_case-Supported, Supported, Refused, score_case-Refused,
}
use rag_stack_monorepo.Json.{Json}
use rag_stack_monorepo.Exec.{Result, ok, err}
use rag_stack_monorepo.Prisma.Lists.{list_prisma}
use rag_stack_monorepo.Schema.{Db, EvalCaseStatus, EvalRunStatus}
use rag_stack_monorepo.Evals.Reporting.{EvalRunItemSnapshot, build_run_summary}
use rag_stack_monorepo.Evals.Reporting.Summary.{SumsUp, build_run_summary-SumsUp}
use rag_stack_monorepo.Evals.Stored.Column.{stored_item}
use rag_stack_monorepo.Evals.Stored.Reread.{Recovered, stored_item-Recovered}
use rag_stack_monorepo.Evals.Comparison.{SummaryNumbers, compare_numbers, should_flag_regression}
use rag_stack_monorepo.Evals.Comparison.Laws.{
  Justified, compare_numbers-Justified, should_flag_regression_same,
}
use rag_stack_monorepo.Evals.Execution.{EvalServices, no_usage}
use rag_stack_monorepo.Evals.Runs.{EvalOutside, CreateEvalRunDto, run_eval_set}
use rag_stack_monorepo.Evals.Runs.Closed.{NoneRunning, run_eval_set-NoneRunning}
use rag_stack_monorepo.Examples.{operator_user, running}
use rag_stack_monorepo.Examples.Ask.{services, indexed_world}
use rag_stack_monorepo.Evals.Scoring.Bounds.{InRange, score_case-InRange}
use rag_stack_monorepo.Evals.Scoring.Passing.{score_case-passed_iff}
use rag_stack_monorepo.Evals.Sets.{EvalRunView}
use rag_stack_monorepo.Chat.{below}

abbrev scoring : ScoringTools
scoring = record {
  trim = λ s. s;
  size = λ _. 20;
  words = λ s. s ∷ [];
  reaches = λ r percent. not (below r percent);
  looks_like_refusal = λ _. true;
  show = λ _. "2";
  to_fixed = λ _. "1.00";
  category_key = λ s. s;
  citation_limit = 3;
}

abbrev how_long : ScoreableEvalCase
how_long = record {
  question = "How long?";
  expected_answer = some "Within a month.";
  expected_source_document_id = some "doc";
  expected_source_hint = none;
  category = some "single_source";
}

abbrev cited : CitationView
cited = record {
  rank = 1;
  score = 900000;
  chunk_id = "c2";
  document_id = "doc";
  document_title = "Manual";
  snippet = "Refunds within a month.";
  page = none;
  section = none;
}

abbrev source : EvalSelectedSource
source = record {
  chunk_id = "c2";
  document_id = "doc";
  document_title = "Manual";
  score = 900000;
  page = none;
  section = none;
  snippet = "Refunds within a month.";
}

abbrev grounded_run : EvalExecutionResult
grounded_run = record {
  status = ChatStatus.grounded;
  answer = "Within a month.";
  citations = cited ∷ [];
  usage = record { input_tokens = 100; output_tokens = 20; total_tokens = 120 };
  latency_ms = 5;
  selected_sources = source ∷ [];
  top_score = 900000;
}

abbrev single_source : EvalCategoryRule
single_source = category_rule EvalCaseCategory.single_source_factual

abbrev scored_run : EvalScoreResult
scored_run = score_by_rule scoring single_source how_long grounded_run

has_score : score_case scoring how_long grounded_run ≡ some scored_run
unfolding score_case
has_score = refl

score_case-Supported_example : Supported scoring single_source how_long grounded_run
unfolding score_case
score_case-Supported_example =
    score_case-Supported scoring how_long grounded_run scored_run single_source has_score refl refl
      refl

-- A question that no document answers.
abbrev off_topic : ScoreableEvalCase
off_topic = record {
  question = "Who won?";
  expected_answer = none;
  expected_source_document_id = none;
  expected_source_hint = none;
  category = some "out_of_scope";
}

abbrev refused_run : EvalExecutionResult
refused_run = record {
  status = ChatStatus.out_of_scope;
  answer = "I could not find relevant support material.";
  citations = [];
  usage = no_usage;
  latency_ms = 5;
  selected_sources = [];
  top_score = 0;
}

abbrev out_of_scope_rule : EvalCategoryRule
out_of_scope_rule = category_rule EvalCaseCategory.out_of_scope

abbrev scored_refusal : EvalScoreResult
scored_refusal = score_by_rule scoring out_of_scope_rule off_topic refused_run

score_case-Refused_example : Refused scoring (ChatStatus.out_of_scope ∷ []) refused_run
unfolding score_case
score_case-Refused_example =
    score_case-Refused scoring off_topic refused_run scored_refusal out_of_scope_rule refl refl refl
      refl

score_case-passed_iff_example : (scored_run.passed ≡ true) ↔ (scored_run.failure_reasons ≡ [])
score_case-passed_iff_example =
    score_case-passed_iff scoring how_long grounded_run scored_run has_score

score_case-InRange_example : InRange scored_run
score_case-InRange_example = score_case-InRange scoring how_long grounded_run scored_run has_score

abbrev snapshot : EvalRunItemSnapshot
snapshot = record {
  eval_case_id = "case";
  question = "How long?";
  category = some "single_source";
  passed = true;
  score = scored_run.score;
  regression_flag = false;
  latency_ms = some 5;
  usage = grounded_run.usage;
  execution_status = ChatStatus.grounded;
  breakdown = scored_run;
}

build_run_summary-SumsUp_example : SumsUp (snapshot ∷ []) (build_run_summary "run" (snapshot ∷ []))
build_run_summary-SumsUp_example = build_run_summary-SumsUp "run" (snapshot ∷ [])

abbrev no_number : Json → Option ℕ
no_number _ = none

stored_item-Recovered_example :
    Recovered no_number (stored_item "case" grounded_run scored_run) grounded_run scored_run
stored_item-Recovered_example = stored_item-Recovered no_number "case" grounded_run scored_run

-- a - b >= 0.2
abbrev drops : ℕ → ℕ → Bool
drops a b = leb (b + 2000) a

should_flag_regression_same_example :
    should_flag_regression no_number drops snapshot
      (some (stored_item "case" grounded_run scored_run))
    ≡ false
unfolding score_by_rule category_rule
should_flag_regression_same_example =
    should_flag_regression_same no_number drops "case" grounded_run snapshot refl refl refl

abbrev numbers : ℕ → SummaryNumbers
numbers rate = record {
  total_cases = 200000;
  pass_rate = rate;
  retrieval_hit_rate = rate;
  groundedness_rate = 9000;
  refusal_correctness_rate = 10000;
  citation_integrity_rate = 10000;
  average_latency_ms = 5000000;
  average_score = 8000;
  regression_count = 0;
}

compare_numbers-Justified_example :
    All
      (Justified (numbers 9000) (numbers 7000))
      (compare_numbers "run" (numbers 9000) (numbers 7000)).meaningful_changes
compare_numbers-Justified_example = compare_numbers-Justified "run" (numbers 9000) (numbers 7000)

abbrev eval_services : EvalServices
eval_services = record {
  chat = services;
  scoring = scoring;
  is_configured = true;
  candidate_limit = 24;
  grounding_limit = 6;
  create_grounded_answer = λ _ _ _. some (
    record { status = ChatStatus.grounded; answer = "Within a month."; used_chunk_ids = "c2" ∷ [] },
    grounded_run.usage,
  );
  to_evidence_snippet = λ s. s;
  latency_of = λ _. 5;
}

abbrev eval_outside : EvalOutside
eval_outside = record {
  new_run_id = "run";
  started_at = 100;
  finished_at = 200;
  taken = λ _. true;
  item_stored = λ _. true;
  to_number = no_number;
  drops = drops;
}

-- The indexed world, with a set of one case.
abbrev set_world : Db list_prisma
set_world = record indexed_world {
  eval_sets =
      ("set", record { kb_id = "kb"; name = "Smoke"; description = none; created_at = 1 }) ∷ [];
  eval_cases =
      (
        "case",
        record {
          eval_set_id = "set";
          question = "How long?";
          expected_answer = some "Within a month.";
          expected_source_document_id = some "doc";
          expected_source_hint = none;
          category = "single_source";
          difficulty = "medium";
          status = EvalCaseStatus.active;
          created_at = 1;
        },
      )
      ∷ [];
}

abbrev run_set : CreateEvalRunDto
run_set = record { eval_set_id = "set"; candidate_limit = none; grounding_limit = none }

abbrev run_world : Db list_prisma
run_world = (run_eval_set list_prisma eval_services eval_outside operator_user run_set set_world).1

run_eval_set-NoneRunning_example : NoneRunning list_prisma eval_services eval_outside run_world
unfolding running
run_eval_set-NoneRunning_example =
    run_eval_set-NoneRunning list_prisma eval_services eval_outside operator_user run_set set_world
      refl refl λ run h _. absurd (ground arith)

abbrev no_view : EvalRunView
no_view = record {
  id = "";
  run = record {
    eval_set_id = "";
    kb_id = "";
    model_name = "";
    started_at = 0;
    finished_at = none;
    status = EvalRunStatus.failed;
    summary_json = none;
  };
  items = [];
}

abbrev view_in : Result EvalRunView → EvalRunView
view_in (ok view) = view
view_in (err e) = no_view

abbrev run_view : EvalRunView
run_view =
    view_in (run_eval_set list_prisma eval_services eval_outside operator_user run_set set_world).0
