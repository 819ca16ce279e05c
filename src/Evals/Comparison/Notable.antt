-- ===== src/Evals/Comparison/Notable.antt =====
-- services/api/src/evals/eval-reporting.utils.ts: `resolvePreviousSummary`, `buildNotableRegressions`
-- and `buildRunComparison`, which puts them together.
use rag_stack_monorepo.Prelude.{
  ℕ, String, Bool, true, false, ◌&&◌, ◌||◌, Option, none, some, List, [], ◌∷◌, map, ◌==◌, ltb,
  if◌then◌else◌, is_some, string_eq, pair_eq, filter, take,
}
use rag_stack_monorepo.Json.{Json, get, as_number}
use rag_stack_monorepo.Evals.Reporting.{EvalRunItemSnapshot, EvalRunSummary, build_run_summary}
use rag_stack_monorepo.Evals.Stored.{
  StoredEvalItem, extract_stored_status, number_value, stored_dimension_passed,
}
use rag_stack_monorepo.Evals.Comparison.{
  ℤ, pos, negsuc, difference, EvalRunComparison, SummaryNumbers, numbers_of,
  build_summary_only_comparison, should_flag_regression, lost,
}
use rag_stack_monorepo.Evals.Comparison.Previous.{
  PreviousRunSnapshot, EvalCaseRegression, dimension_names, reconstruct_item_snapshot,
}

-- The item of that case: a later one takes the place of an earlier one.
unfoldable pub previous_item : List StoredEvalItem → String → Option StoredEvalItem
previous_item [] id = none
previous_item (i ∷ is) id = elim (previous_item is id) [
  | some found ↦ some found
  | none ↦ if i.eval_case_id == id then some i else none
]

-- `typeof x === "number"`
abbrev has_number : Json → String → Bool
has_number summary name = is_some (as_number (get (some summary) name))

abbrev has_rates : Json → Bool
has_rates s =
    has_number s "passRate"
    && (has_number s "retrievalHitRate"
        && (has_number s "groundednessRate"
            && (has_number s "refusalCorrectnessRate" && has_number s "citationIntegrityRate")))

-- left > right
abbrev above : ℤ → ℤ → Bool
above (pos m) (pos n) = ltb n m
above (pos m) (negsuc n) = true
above (negsuc m) (pos n) = false
above (negsuc m) (negsuc n) = ltb m n

-- The order of the list: cases that were passed first, then by the change of the score.
unfoldable pub goes_after : EvalCaseRegression → EvalCaseRegression → Bool
goes_after left right =
    if left.previous_passed
    then right.previous_passed && above left.score_delta right.score_delta
    else right.previous_passed || above left.score_delta right.score_delta

unfoldable pub insert_regression :
    EvalCaseRegression → List EvalCaseRegression → List EvalCaseRegression
unfolding goes_after
insert_regression r [] = r ∷ []
insert_regression r (x ∷ xs) =
    let rest = insert_regression r xs in if goes_after r x then x ∷ rest else r ∷ x ∷ xs

unfoldable pub sort_regressions : List EvalCaseRegression → List EvalCaseRegression
unfolding insert_regression
sort_regressions [] = []
sort_regressions (r ∷ rs) = insert_regression r (sort_regressions rs)

module _ (to_number : Json → Option ℕ) (drops : ℕ → ℕ → Bool) where
  unfoldable pub regression_of : StoredEvalItem → EvalRunItemSnapshot → EvalCaseRegression
  unfolding difference extract_stored_status stored_dimension_passed
  regression_of previous item = record {
    eval_case_id = item.eval_case_id;
    question = item.question;
    category = item.category;
    previous_passed = previous.passed;
    current_passed = item.passed;
    previous_score = previous.score;
    current_score = item.score;
    score_delta = difference item.score previous.score;
    previous_status = extract_stored_status previous.retrieved_sources_json;
    current_status = item.execution_status;
    changed_dimensions = filter (lost to_number drops previous item) dimension_names;
    failure_reasons = item.breakdown.failure_reasons;
  }

  -- The flagged items, with what they were before.
  unfoldable pub flagged_items :
      List StoredEvalItem → List EvalRunItemSnapshot → List EvalCaseRegression
  unfolding previous_item should_flag_regression regression_of
  flagged_items previous [] = []
  flagged_items previous (i ∷ is) =
      let rest = flagged_items previous is in
      elim (previous_item previous i.eval_case_id) [
        | none ↦ rest
        | some p ↦
            if should_flag_regression to_number drops i (some p)
            then regression_of p i ∷ rest
            else rest
      ]

  unfoldable pub build_notable_regressions :
      List EvalRunItemSnapshot → List StoredEvalItem → List EvalCaseRegression
  unfolding flagged_items sort_regressions
  build_notable_regressions current previous =
      take 10 (sort_regressions (flagged_items previous current))

  abbrev number_in : Json → String → ℕ
  number_in summary name = number_value to_number (get (some summary) name)

  -- The numbers of a stored summary.
  unfoldable pub numbers_in : Json → SummaryNumbers
  unfolding number_value
  numbers_in s = record {
    total_cases = number_in s "totalCases";
    pass_rate = number_in s "passRate";
    retrieval_hit_rate = number_in s "retrievalHitRate";
    groundedness_rate = number_in s "groundednessRate";
    refusal_correctness_rate = number_in s "refusalCorrectnessRate";
    citation_integrity_rate = number_in s "citationIntegrityRate";
    average_latency_ms = number_in s "averageLatencyMs";
    average_score = number_in s "averageScore";
    regression_count = number_in s "regressionCount";
  }

  abbrev summary_again : PreviousRunSnapshot → SummaryNumbers
  summary_again run =
      numbers_of (build_run_summary run.id (map (reconstruct_item_snapshot to_number) run.items))

  unfoldable pub resolve_previous_summary : PreviousRunSnapshot → SummaryNumbers
  unfolding numbers_in numbers_of build_run_summary reconstruct_item_snapshot
  resolve_previous_summary run = elim run.summary_json [
    | none ↦ summary_again run
    | some s ↦ if has_rates s then numbers_in s else summary_again run
  ]

  -- There is none without an identifier: the code throws.
  unfoldable pub build_run_comparison :
      EvalRunSummary
      → List EvalRunItemSnapshot
      → PreviousRunSnapshot
      → Option (EvalRunComparison × List EvalCaseRegression)
  unfolding numbers_of resolve_previous_summary build_summary_only_comparison
      build_notable_regressions
  build_run_comparison summary items previous =
      elim (build_summary_only_comparison (numbers_of summary)
        (some (resolve_previous_summary previous)) (some previous.id)) [
          | none ↦ none
          | some comparison ↦ some (comparison, build_notable_regressions items previous.items)
        ]
