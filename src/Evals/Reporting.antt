-- ===== src/Evals/Reporting.antt =====
-- services/api/src/evals/eval-reporting.utils.ts: `buildRunSummary` without the comparison, which is
-- in Reporting/Comparison. Rates and scores are in ten-thousandths, averages of milliseconds and of
-- tokens in hundredths, as `round` leaves them; a quotient is rounded exactly, half up.
pub mod Counts
pub mod Summary
use rag_stack_monorepo.Prelude.{
  ℕ, ◌+◌, ◌*◌, ◌/◌, String, Bool, false, Option, none, some, List, [], ◌∷◌, ◌++◌, map, ◌==◌, eqb,
  if◌then◌else◌, string_eq, pair_eq, length, filter,
}
use rag_stack_monorepo.Chat.Ask.{ChatStatus}
use rag_stack_monorepo.Evals.Types.{
  UsageView, EvalRubricDimensionName, EvalCaseCategory, EvalScoreResult, dimension, status_name,
  reason_name,
}
use rag_stack_monorepo.Evals.Rubric.{eval_rubric_version}

pub record EvalRunItemSnapshot : Type 0 where
  pub eval_case_id : String
  pub question : String
  pub category : Option String
  pub passed : Bool
  pub score : ℕ
  pub regression_flag : Bool
  pub latency_ms : Option ℕ
  pub usage : UsageView
  pub execution_status : ChatStatus
  pub breakdown : EvalScoreResult

pub record EvalMetricSummary : Type 0 where
  pub applicable_cases : ℕ
  pub passed_cases : ℕ
  pub rate : ℕ

pub record CategoryEntry : Type 0 where
  pub total_cases : ℕ
  pub passed_cases : ℕ
  pub pass_rate : ℕ

pub record UsageAverages : Type 0 where
  pub input_tokens : ℕ
  pub output_tokens : ℕ
  pub total_tokens : ℕ

-- EvalRunSummary without `comparisonToPrevious`
pub record EvalRunSummary : Type 0 where
  pub rubric_version : String
  pub run_id : String
  pub total_cases : ℕ
  pub passed_cases : ℕ
  pub pass_rate : ℕ
  pub retrieval_hit_rate : ℕ
  pub evidence_relevance_rate : ℕ
  pub groundedness_rate : ℕ
  pub usefulness_rate : ℕ
  pub refusal_correctness_rate : ℕ
  pub citation_integrity_rate : ℕ
  pub average_latency_ms : ℕ
  pub average_score : ℕ
  pub regression_count : ℕ
  pub status_breakdown : List (String × ℕ)
  pub failure_reason_counts : List (String × ℕ)
  pub category_breakdown : List (String × CategoryEntry)
  pub usage_totals : UsageView
  pub usage_averages : UsageAverages
  pub metrics : EvalRubricDimensionName → EvalMetricSummary

abbrev pub category_name : EvalCaseCategory → String
category_name EvalCaseCategory.general = "general"
category_name EvalCaseCategory.single_source_factual = "single_source_factual"
category_name EvalCaseCategory.multi_source_synthesis = "multi_source_synthesis"
category_name EvalCaseCategory.version_recency_sensitive = "version_recency_sensitive"
category_name EvalCaseCategory.ambiguous_keyword_overlap = "ambiguous_keyword_overlap"
category_name EvalCaseCategory.out_of_scope = "out_of_scope"
category_name EvalCaseCategory.insufficient_data = "insufficient_data"
category_name EvalCaseCategory.refusal = "refusal"
category_name EvalCaseCategory.access_sensitive = "access_sensitive"

-- part / whole, rounded to one of `unit` parts
abbrev pub rounded : ℕ → ℕ → ℕ → ℕ
rounded unit part whole = (2 * unit * part + whole) / (2 * whole)

unfoldable pub rate : ℕ → ℕ → ℕ
rate passed total = if eqb total 0 then 0 else rounded 10000 passed total

unfoldable pub sum : List ℕ → ℕ
sum [] = 0
sum (n ∷ ns) = n + sum ns

-- The average of the values, in `unit` parts of what they are in.
unfoldable pub average : ℕ → List ℕ → ℕ
unfolding sum
average unit [] = 0
average unit (n ∷ ns) = rounded unit (sum (n ∷ ns)) (length (n ∷ ns))

unfoldable pub latencies : List EvalRunItemSnapshot → List ℕ
latencies [] = []
latencies (i ∷ is) = elim i.latency_ms [ none ↦ latencies is | some n ↦ n ∷ latencies is ]

abbrev pub count_of : {A : Type 0} → (A → Bool) → List A → ℕ
count_of p xs = length (filter p xs)

-- `passed === true`
abbrev pub passed_in : EvalRubricDimensionName → EvalRunItemSnapshot → Bool
passed_in name i = elim (dimension i.breakdown.dimensions name).passed [ none ↦ false | some b ↦ b ]

abbrev pub applies_to : EvalRubricDimensionName → EvalRunItemSnapshot → Bool
applies_to name i = (dimension i.breakdown.dimensions name).applicable

unfoldable pub metric_of : List EvalRunItemSnapshot → EvalRubricDimensionName → EvalMetricSummary
unfolding rate
metric_of items name =
    let applicable = filter (applies_to name) items in
    let passed = count_of (passed_in name) applicable in
    record {
      applicable_cases = length applicable;
      passed_cases = passed;
      rate = rate passed (length applicable);
    }

-- `acc[key] = (acc[key] ?? 0) + 1`, where a new key is the last one
unfoldable pub bump : String → List (String × ℕ) → List (String × ℕ)
bump key [] = (key, 1) ∷ []
bump key ((k, n) ∷ acc) =
    let rest = bump key acc in if k == key then (k, n + 1) ∷ acc else (k, n) ∷ rest

unfoldable pub tally : List (String × ℕ) → List String → List (String × ℕ)
unfolding bump
tally acc [] = acc
tally acc (key ∷ keys) = tally (bump key acc) keys

unfoldable pub reasons_in : List EvalRunItemSnapshot → List String
reasons_in [] = []
reasons_in (i ∷ is) = map reason_name i.breakdown.failure_reasons ++ reasons_in is

unfoldable pub with_case : CategoryEntry → Bool → CategoryEntry
unfolding rate
with_case entry passed =
    let total = entry.total_cases + 1 in
    let passes = if passed then entry.passed_cases + 1 else entry.passed_cases in
    record { total_cases = total; passed_cases = passes; pass_rate = rate passes total }

abbrev pub no_cases : CategoryEntry
no_cases = record { total_cases = 0; passed_cases = 0; pass_rate = 0 }

unfoldable pub add_case :
    String → Bool → List (String × CategoryEntry) → List (String × CategoryEntry)
unfolding with_case
add_case key passed [] = (key, with_case no_cases passed) ∷ []
add_case key passed ((k, entry) ∷ acc) =
    let rest = add_case key passed acc in
    if k == key then (k, with_case entry passed) ∷ acc else (k, entry) ∷ rest

unfoldable pub by_category :
    List (String × CategoryEntry) → List EvalRunItemSnapshot → List (String × CategoryEntry)
unfolding add_case
by_category acc [] = acc
by_category acc (i ∷ is) =
    by_category (add_case (category_name i.breakdown.case_category) i.passed acc) is

unfoldable pub usage_totals : List EvalRunItemSnapshot → UsageView
usage_totals [] = record { input_tokens = 0; output_tokens = 0; total_tokens = 0 }
usage_totals (i ∷ is) =
    let rest = usage_totals is in
    record {
      input_tokens = i.usage.input_tokens + rest.input_tokens;
      output_tokens = i.usage.output_tokens + rest.output_tokens;
      total_tokens = i.usage.total_tokens + rest.total_tokens;
    }

unfoldable pub usage_averages : List EvalRunItemSnapshot → UsageAverages
unfolding average
usage_averages items = record {
  input_tokens = average 100 (map (λ (i : EvalRunItemSnapshot). i.usage.input_tokens) items);
  output_tokens = average 100 (map (λ (i : EvalRunItemSnapshot). i.usage.output_tokens) items);
  total_tokens = average 100 (map (λ (i : EvalRunItemSnapshot). i.usage.total_tokens) items);
}

unfoldable pub build_run_summary : String → List EvalRunItemSnapshot → EvalRunSummary
unfolding rate average latencies metric_of tally reasons_in by_category usage_totals usage_averages
build_run_summary run_id items =
    let passed = count_of (λ (i : EvalRunItemSnapshot). i.passed) items in
    record {
      rubric_version = eval_rubric_version;
      run_id = run_id;
      total_cases = length items;
      passed_cases = passed;
      pass_rate = rate passed (length items);
      retrieval_hit_rate = (metric_of items EvalRubricDimensionName.retrieval_source_hit).rate;
      evidence_relevance_rate = (metric_of items EvalRubricDimensionName.evidence_relevance).rate;
      groundedness_rate = (metric_of items EvalRubricDimensionName.answer_groundedness).rate;
      usefulness_rate = (metric_of items EvalRubricDimensionName.answer_usefulness).rate;
      refusal_correctness_rate = (metric_of items EvalRubricDimensionName.refusal_quality).rate;
      citation_integrity_rate = (metric_of items EvalRubricDimensionName.citation_integrity).rate;
      average_latency_ms = average 100 (latencies items);
      average_score = average 1 (map (λ (i : EvalRunItemSnapshot). i.score) items);
      regression_count = count_of (λ (i : EvalRunItemSnapshot). i.regression_flag) items;
      status_breakdown =
          tally [] (map (λ (i : EvalRunItemSnapshot). status_name i.execution_status) items);
      failure_reason_counts = tally [] (reasons_in items);
      category_breakdown = by_category [] items;
      usage_totals = usage_totals items;
      usage_averages = usage_averages items;
      metrics = metric_of items;
    }
