-- ===== src/Evals/Reporting/Summary.antt =====
-- What `buildRunSummary` of services/api/src/evals/eval-reporting.utils.ts says of a run's items.
use rag_stack_monorepo.Prelude.{
  suc, ◌≤◌, String, ◌≡◌, refl, ap, ◌&&◌, List, [], ◌∷◌, map, arith, ◌==◌, string_eq, pair_eq,
  length, filter,
}
use rag_stack_monorepo.Evals.Types.{EvalRubricDimensionName, status_name}
use rag_stack_monorepo.Evals.Reporting.{
  EvalRunItemSnapshot, EvalMetricSummary, EvalRunSummary, rate, count_of, passed_in, applies_to,
  metric_of, build_run_summary,
}
use rag_stack_monorepo.Evals.Reporting.Counts.{
  rate-le, count-le, number_at, number_at-tally, total_of, total_of-tally, entry_at, in_category,
  passes, Tallied, entry_at-by_category,
}

abbrev status_of : EvalRunItemSnapshot → String
status_of i = status_name i.execution_status

count-map :
    (key : String) (items : List EvalRunItemSnapshot)
    → count_of (λ k. k == key) (map status_of items) ≡ count_of (λ i. status_of i == key) items
count-map key [] = refl
count-map key (i ∷ is) = ground (arith, count-map key is)

length-map : (items : List EvalRunItemSnapshot) → length (map status_of items) ≡ length items
length-map [] = refl
length-map (i ∷ is) = ap suc (length-map is)

-- The numbers of a metric are counts of the items, in order, and its rate is at most 1.
pub record Measured (items : List EvalRunItemSnapshot) (m : EvalMetricSummary) : Type 0 where
  pub passed_le : m.passed_cases ≤ m.applicable_cases
  pub applicable_le : m.applicable_cases ≤ length items
  pub rate_le : m.rate ≤ 10000

-- The summary is one of these items.
pub record SumsUp (items : List EvalRunItemSnapshot) (s : EvalRunSummary) : Type 0 where
  pub total : s.total_cases ≡ length items
  pub passed : s.passed_cases ≤ s.total_cases
  pub pass_rate : s.pass_rate ≤ 10000
  pub statuses :
      (key : String) → number_at s.status_breakdown key ≡ count_of (λ i. status_of i == key) items
  pub all_statuses : total_of s.status_breakdown ≡ s.total_cases
  pub categories :
      (key : String)
      → Tallied
          (entry_at s.category_breakdown key)
          (count_of (in_category key) items)
          (count_of (λ i. in_category key i && passes i) items)
  pub metrics : (name : EvalRubricDimensionName) → Measured items (s.metrics name)

metric-Measured :
    (items : List EvalRunItemSnapshot) (name : EvalRubricDimensionName)
    → Measured items (metric_of items name)
unfolding metric_of
metric-Measured items name =
    let applicable = filter (applies_to name) items in
    let fewer = count-le (passed_in name) applicable in
    record {
      passed_le = fewer;
      applicable_le = count-le (applies_to name) items;
      rate_le = rate-le _ _ fewer;
    }

rate_nought : 0 ≡ rate 0 0
unfolding rate
rate_nought = refl

-- The summary of a run counts each status, and for each category its cases, the passed ones and
-- their rate, as they are among the items; the statuses add up to all cases; and no metric has more
-- passed than applicable cases, more applicable cases than items, or a rate above 1.
pub build_run_summary-SumsUp :
    (run_id : String) (items : List EvalRunItemSnapshot)
    → SumsUp items (build_run_summary run_id items)
unfolding build_run_summary
build_run_summary-SumsUp run_id items = record {
  total = refl;
  passed = count-le passes items;
  pass_rate = rate-le _ _ (count-le passes items);
  statuses =
      λ key. ground (arith, number_at-tally (map status_of items) [] key, count-map key items);
  all_statuses = ground (arith, total_of-tally (map status_of items) [], length-map items);
  categories =
      λ key. ground (arith, entry_at-by_category items [] key 0 0 (refl, (refl, rate_nought)));
  metrics = metric-Measured items;
}
