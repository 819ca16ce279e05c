-- ===== src/Evals/Comparison.antt =====
-- services/api/src/evals/eval-reporting.utils.ts: when a case is flagged as a regression, and what a
-- run's summary says against the one of the run before it. All numbers of a comparison are in
-- ten-thousandths; a difference is an integer.
pub mod Previous
pub mod Notable
pub mod Laws
use rag_stack_monorepo.Prelude.{
  ℕ, suc, ◌+◌, ◌-◌, ◌*◌, ◌/◌, max, String, refl, Bool, true, false, not, ◌&&◌, Option, none, some,
  List, [], ◌∷◌, ◌++◌, arith, eq_iff, eq_refl, ltb, leb, if◌then◌else◌, truthy, string_eq, pair_eq,
  any, append,
}
use rag_stack_monorepo.Json.{Json}
use rag_stack_monorepo.Evals.Types.{EvalRubricDimensionName, dimension}
use rag_stack_monorepo.Evals.Reporting.{EvalRunItemSnapshot, EvalRunSummary}
use rag_stack_monorepo.Evals.Stored.{StoredEvalItem, critical_dimensions, stored_dimension_passed}

-- An integer: `pos n` is n, and `negsuc n` is -(n + 1).
pub data ℤ : Type 0 where
  pos negsuc : ℕ → ℤ

-- m - n
unfoldable pub difference : ℕ → ℕ → ℤ
difference m n = if leb n m then pos (m - n) else negsuc (n - m - 1)

-- Math.abs
abbrev pub abs : ℤ → ℕ
abs (pos n) = n
abs (negsuc n) = suc n

-- value > 0
abbrev pub positive : ℤ → Bool
positive (pos n) = ltb 0 n
positive (negsuc n) = false

-- value < 0
abbrev pub negative : ℤ → Bool
negative (pos n) = false
negative (negsuc n) = true

pub data ComparedMetric : Type 0 where
  pass_rate retrieval_hit_rate groundedness_rate refusal_correctness_rate : ComparedMetric
  citation_integrity_rate average_latency_ms average_score : ComparedMetric

pub data Direction : Type 0 where
  improved regressed : Direction

pub record EvalMeaningfulChange : Type 0 where
  pub metric : ComparedMetric
  pub direction : Direction
  pub delta : ℤ
  pub threshold : ℕ
  pub note : String

-- The numbers that a comparison reads of a summary, in memory or stored.
pub record SummaryNumbers : Type 0 where
  pub total_cases : ℕ
  pub pass_rate : ℕ
  pub retrieval_hit_rate : ℕ
  pub groundedness_rate : ℕ
  pub refusal_correctness_rate : ℕ
  pub citation_integrity_rate : ℕ
  pub average_latency_ms : ℕ
  pub average_score : ℕ
  pub regression_count : ℕ

-- EvalRunComparison without `notableRegressions`
pub record EvalRunComparison : Type 0 where
  pub previous_run_id : String
  pub pass_rate_delta : ℤ
  pub retrieval_hit_rate_delta : ℤ
  pub groundedness_rate_delta : ℤ
  pub refusal_correctness_rate_delta : ℤ
  pub citation_integrity_rate_delta : ℤ
  pub average_latency_delta_ms : ℤ
  pub average_score_delta : ℤ
  pub regression_count_delta : ℤ
  pub meaningful_changes : List EvalMeaningfulChange

abbrev pub metric_name : ComparedMetric → String
metric_name pass_rate = "pass_rate"
metric_name retrieval_hit_rate = "retrieval_hit_rate"
metric_name groundedness_rate = "groundedness_rate"
metric_name refusal_correctness_rate = "refusal_correctness_rate"
metric_name citation_integrity_rate = "citation_integrity_rate"
metric_name average_latency_ms = "average_latency_ms"
metric_name average_score = "average_score"

-- The change is pushed unless it is below the threshold.
unfoldable pub push_rate_change : ComparedMetric → ℤ → ℕ → List EvalMeaningfulChange
push_rate_change metric value threshold =
    if ltb (abs value) threshold
    then []
    else record {
      metric = metric;
      direction = if positive value then improved else regressed;
      delta = value;
      threshold = threshold;
      note =
          append (metric_name metric)
            (if positive value then " improved materially." else " regressed materially.");
    }
      ∷ []

unfoldable pub push_latency_change : ℤ → ℕ → List EvalMeaningfulChange
push_latency_change value threshold =
    if leb threshold (abs value)
    then record {
      metric = average_latency_ms;
      direction = if negative value then improved else regressed;
      delta = value;
      threshold = threshold;
      note =
          if negative value
          then "Average latency dropped materially."
          else "Average latency increased materially.";
    }
      ∷ []
    else []

unfoldable pub build_meaningful_changes : EvalRunComparison → ℕ → ℕ → List EvalMeaningfulChange
unfolding push_rate_change push_latency_change
build_meaningful_changes c rate_threshold latency_threshold =
    push_rate_change pass_rate c.pass_rate_delta rate_threshold
    ++ (push_rate_change retrieval_hit_rate c.retrieval_hit_rate_delta rate_threshold
        ++ (push_rate_change groundedness_rate c.groundedness_rate_delta rate_threshold
            ++ (push_rate_change refusal_correctness_rate c.refusal_correctness_rate_delta
                  rate_threshold
                ++ (push_rate_change citation_integrity_rate c.citation_integrity_rate_delta
                      rate_threshold
                    ++ (push_rate_change average_score c.average_score_delta rate_threshold
                        ++ push_latency_change c.average_latency_delta_ms latency_threshold)))))

-- max(0.05, 1 / cases), where the numbers of cases are whole and at least one is counted
unfoldable pub meaningful_rate_threshold : ℕ → ℕ → ℕ
meaningful_rate_threshold current previous =
    let cases = max (max current previous) 10000 in max 500 ((200000000 + cases) / (2 * cases))

-- max(250, previous / 5)
unfoldable pub meaningful_latency_threshold : ℕ → ℕ
meaningful_latency_threshold previous = max 2500000 ((2 * previous + 5) / 10)

-- The differences, before the meaningful ones are picked out.
unfoldable pub deltas_of : String → SummaryNumbers → SummaryNumbers → EvalRunComparison
unfolding difference
deltas_of previous_id c p = record {
  previous_run_id = previous_id;
  pass_rate_delta = difference c.pass_rate p.pass_rate;
  retrieval_hit_rate_delta = difference c.retrieval_hit_rate p.retrieval_hit_rate;
  groundedness_rate_delta = difference c.groundedness_rate p.groundedness_rate;
  refusal_correctness_rate_delta = difference c.refusal_correctness_rate p.refusal_correctness_rate;
  citation_integrity_rate_delta = difference c.citation_integrity_rate p.citation_integrity_rate;
  average_latency_delta_ms = difference c.average_latency_ms p.average_latency_ms;
  average_score_delta = difference c.average_score p.average_score;
  regression_count_delta = difference c.regression_count p.regression_count;
  meaningful_changes = [];
}

unfoldable pub compare_numbers : String → SummaryNumbers → SummaryNumbers → EvalRunComparison
unfolding deltas_of build_meaningful_changes meaningful_rate_threshold meaningful_latency_threshold
compare_numbers previous_id c p =
    let deltas = deltas_of previous_id c p in
    record deltas {
      meaningful_changes =
          build_meaningful_changes deltas (meaningful_rate_threshold c.total_cases p.total_cases)
            (meaningful_latency_threshold p.average_latency_ms);
    }

-- There is none without a summary and an identifier of a previous run.
unfoldable pub build_summary_only_comparison :
    SummaryNumbers → Option SummaryNumbers → Option String → Option EvalRunComparison
unfolding compare_numbers
build_summary_only_comparison current none previous_id = none
build_summary_only_comparison current (some previous) previous_id = elim (truthy previous_id) [
  | none ↦ none
  | some id ↦ some (compare_numbers id current previous)
]

-- The numbers of a summary, which keeps its average latency in hundredths.
unfoldable pub numbers_of : EvalRunSummary → SummaryNumbers
numbers_of s = record {
  total_cases = s.total_cases * 10000;
  pass_rate = s.pass_rate;
  retrieval_hit_rate = s.retrieval_hit_rate;
  groundedness_rate = s.groundedness_rate;
  refusal_correctness_rate = s.refusal_correctness_rate;
  citation_integrity_rate = s.citation_integrity_rate;
  average_latency_ms = s.average_latency_ms * 100;
  average_score = s.average_score;
  regression_count = s.regression_count * 10000;
}

-- `passed === false`
abbrev failed_in : EvalRubricDimensionName → EvalRunItemSnapshot → Bool
failed_in name i = elim (dimension i.breakdown.dimensions name).passed [
  | none ↦ false
  | some b ↦ not b
]

-- `drops a b` is `a - b >= 0.2`: where the difference is 0.2 it depends on how the numbers are rounded
-- in binary.
module _ (to_number : Json → Option ℕ) (drops : ℕ → ℕ → Bool) where
  -- The dimension was passed before, and is failed now.
  abbrev pub lost : StoredEvalItem → EvalRunItemSnapshot → EvalRubricDimensionName → Bool
  lost previous current name =
      stored_dimension_passed to_number previous name && failed_in name current

  unfoldable pub should_flag_regression : EvalRunItemSnapshot → Option StoredEvalItem → Bool
  unfolding stored_dimension_passed
  should_flag_regression current none = false
  should_flag_regression current (some previous) =
      if previous.passed && not current.passed
      then true
      else if drops previous.score current.score
      then true
      else any (lost previous current) critical_dimensions
