-- ===== src/Evals/Comparison/Laws.antt =====
-- What the comparison of two runs in services/api/src/evals/eval-reporting.utils.ts reports, and
-- what it does not.
use rag_stack_monorepo.Prelude.{
  ◌<◌, ◌+◌, ◌-◌, ℕ, ◌≤◌, String, ◌≡◌, refl, ◌↔◌, inl, inr, Bool, true, false, arith, ltb, leb,
  if◌then◌else◌, Bool-cases, string_eq, pair_eq, All, List, [], ◌++◌, Option, some, Option-cases,
  All-append,
}
use rag_stack_monorepo.Evals.Comparison.{
  ℤ, abs, positive, negative, ComparedMetric, Direction, EvalMeaningfulChange, SummaryNumbers,
  push_rate_change, push_latency_change, build_meaningful_changes, meaningful_rate_threshold,
  meaningful_latency_threshold, compare_numbers, difference, Json, pos, should_flag_regression,
  EvalRunItemSnapshot, EvalRubricDimensionName, lost, dimension, deltas_of,
}
use rag_stack_monorepo.Evals.Types.{EvalExecutionResult, EvalRubricDimensionName, dimension}
use rag_stack_monorepo.Evals.Reporting.{EvalRunItemSnapshot}
use rag_stack_monorepo.Evals.Stored.Column.{stored_item}
use rag_stack_monorepo.Evals.Stored.Reread.{stored_dimension_passed-stored_item}

abbrev pub is_latency : ComparedMetric → Bool
is_latency ComparedMetric.average_latency_ms = true
is_latency ComparedMetric.pass_rate = false
is_latency ComparedMetric.retrieval_hit_rate = false
is_latency ComparedMetric.groundedness_rate = false
is_latency ComparedMetric.refusal_correctness_rate = false
is_latency ComparedMetric.citation_integrity_rate = false
is_latency ComparedMetric.average_score = false

improved_iff :
    (b : Bool)
    → ((if b then Direction.improved else Direction.regressed) ≡ Direction.improved) ↔ (b ≡ true)
improved_iff b = ground arith

-- The number that a metric stands for.
abbrev pub number_of : ComparedMetric → SummaryNumbers → ℕ
number_of ComparedMetric.pass_rate s = s.pass_rate
number_of ComparedMetric.retrieval_hit_rate s = s.retrieval_hit_rate
number_of ComparedMetric.groundedness_rate s = s.groundedness_rate
number_of ComparedMetric.refusal_correctness_rate s = s.refusal_correctness_rate
number_of ComparedMetric.citation_integrity_rate s = s.citation_integrity_rate
number_of ComparedMetric.average_latency_ms s = s.average_latency_ms
number_of ComparedMetric.average_score s = s.average_score

-- How far two numbers are apart.
abbrev pub apart : ℕ → ℕ → ℕ
apart m n = (m - n) + (n - m)

-- From the number before to the number now, the change is at least 5 hundredths and no smaller than
-- its threshold, and it is called an improvement exactly if the number rose, or fell if it is the
-- latency.
pub record Moved (is_latency_ : Bool) (now before : ℕ) (c : EvalMeaningfulChange) : Type 0 where
  pub large : c.threshold ≤ apart now before
  pub threshold : 500 ≤ c.threshold
  pub size : abs c.delta ≡ apart now before
  pub direction :
      (c.direction ≡ Direction.improved) ↔ (if is_latency_ then now < before else before < now)

abbrev pub Justified : SummaryNumbers → SummaryNumbers → EvalMeaningfulChange → Type 0
Justified current previous c =
    Moved (is_latency c.metric) (number_of c.metric current) (number_of c.metric previous) c

abs-difference : (m n : ℕ) → abs (difference m n) ≡ apart m n
unfolding difference
abs-difference m n = ground arith

positive-difference : (m n : ℕ) → (positive (difference m n) ≡ true) ↔ (n < m)
unfolding difference
positive-difference m n = ground arith

negative-difference : (m n : ℕ) → (negative (difference m n) ≡ true) ↔ (m < n)
unfolding difference
negative-difference m n = ground arith

through : {A B C : Type 0} → A ↔ B → B ↔ C → A ↔ C
through f g = (λ a. g.0 (f.0 a), λ c. f.1 (g.1 c))

module _ (current previous : SummaryNumbers) where
  abbrev delta_of : ComparedMetric → ℤ
  delta_of metric = difference (number_of metric current) (number_of metric previous)

  rate-Justified :
      (metric : ComparedMetric) (threshold : ℕ)
      → is_latency metric ≡ false
      → 500 ≤ threshold
      → All (Justified current previous) (push_rate_change metric (delta_of metric) threshold)
  unfolding push_rate_change
  rate-Justified metric threshold m h =
      let m1 = number_of metric current in
      let m2 = number_of metric previous in
      elim (Bool-cases (ltb (abs (difference m1 m2)) threshold)) [
        | inl t ↦ rw (push_rate_change, t) tt
        | inr f ↦
            rw (push_rate_change, f)
              (
                record {
                  large = ground (arith, f, abs-difference m1 m2);
                  threshold = h;
                  size = abs-difference m1 m2;
                  direction = rw m (
                      through (improved_iff (positive (difference m1 m2)))
                        (positive-difference m1 m2));
                },
                tt,
              )
      ]

  latency-Justified :
      (threshold : ℕ)
      → 500 ≤ threshold
      → All
          (Justified current previous)
          (push_latency_change (delta_of ComparedMetric.average_latency_ms) threshold)
  unfolding push_latency_change
  latency-Justified threshold h =
      let m1 = current.average_latency_ms in
      let m2 = previous.average_latency_ms in
      elim (Bool-cases (leb threshold (abs (difference m1 m2)))) [
        | inl t ↦
            rw (push_latency_change, t)
              (
                record {
                  large = ground (arith, t, abs-difference m1 m2);
                  threshold = h;
                  size = abs-difference m1 m2;
                  direction =
                      through (improved_iff (negative (difference m1 m2)))
                        (negative-difference m1 m2);
                },
                tt,
              )
        | inr f ↦ rw (push_latency_change, f) tt
      ]

  ahead :
      (rest : List EvalMeaningfulChange) (threshold : ℕ) (metric : ComparedMetric)
      → is_latency metric ≡ false
      → 500 ≤ threshold
      → All (Justified current previous) rest
      → All
          (Justified current previous)
          (push_rate_change metric (delta_of metric) threshold ++ rest)
  ahead rest threshold metric m h g =
      All-append (Justified current previous) (push_rate_change metric (delta_of metric) threshold)
        rest (rate-Justified metric threshold m h) g

rate_threshold_lem : (m n : ℕ) → 500 ≤ meaningful_rate_threshold m n
unfolding meaningful_rate_threshold
rate_threshold_lem m n = omega arith

latency_threshold_lem : (n : ℕ) → 500 ≤ meaningful_latency_threshold n
unfolding meaningful_latency_threshold
latency_threshold_lem n = omega arith

changes-Justified :
    (id : String) (current previous : SummaryNumbers) (rate latency : ℕ)
    → 500 ≤ rate
    → 500 ≤ latency
    → All
        (Justified current previous)
        (build_meaningful_changes (deltas_of id current previous) rate latency)
unfolding build_meaningful_changes deltas_of
changes-Justified id current previous rate latency h g =
    let push = ahead current previous in
    push _ rate ComparedMetric.pass_rate refl h (
      push _ rate ComparedMetric.retrieval_hit_rate refl h (
        push _ rate ComparedMetric.groundedness_rate refl h (
          push _ rate ComparedMetric.refusal_correctness_rate refl h (
            push _ rate ComparedMetric.citation_integrity_rate refl h (
              push _ rate ComparedMetric.average_score refl h
                (latency-Justified current previous latency g))))))

-- Each change that a comparison calls meaningful is as large as the difference between the number now
-- and before, which is no smaller than the change's threshold, which is at least 0.05; and it is called
-- an improvement exactly if the number now is above the one before, or below it if it is the latency.
pub compare_numbers-Justified :
    (id : String) (current previous : SummaryNumbers)
    → All (Justified current previous) (compare_numbers id current previous).meaningful_changes
unfolding compare_numbers
compare_numbers-Justified id current previous =
    changes-Justified id current previous
      (meaningful_rate_threshold current.total_cases previous.total_cases)
      (meaningful_latency_threshold previous.average_latency_ms) (rate_threshold_lem _ _)
      (latency_threshold_lem _)

difference_self : (n : ℕ) → difference n n ≡ pos 0
unfolding difference
difference_self n = ground arith

quiet_rate :
    (metric : ComparedMetric) (n t : ℕ) → 500 ≤ t → push_rate_change metric (difference n n) t ≡ []
unfolding push_rate_change
quiet_rate metric n t h = rw (difference_self n) (ground arith)

quiet_latency : (n t : ℕ) → 500 ≤ t → push_latency_change (difference n n) t ≡ []
unfolding push_latency_change
quiet_latency n t h = rw (difference_self n) (ground arith)

-- Between summaries with the same numbers no change is called meaningful.
pub compare_numbers_self :
    (id : String) (s : SummaryNumbers) → (compare_numbers id s s).meaningful_changes ≡ []
unfolding compare_numbers deltas_of build_meaningful_changes
compare_numbers_self id s =
    let rate = rate_threshold_lem s.total_cases s.total_cases in
    rw
      (
        quiet_rate ComparedMetric.pass_rate s.pass_rate _ rate,
        quiet_rate ComparedMetric.retrieval_hit_rate s.retrieval_hit_rate _ rate,
        quiet_rate ComparedMetric.groundedness_rate s.groundedness_rate _ rate,
        quiet_rate ComparedMetric.refusal_correctness_rate s.refusal_correctness_rate _ rate,
        quiet_rate ComparedMetric.citation_integrity_rate s.citation_integrity_rate _ rate,
        quiet_rate ComparedMetric.average_score s.average_score _ rate,
        quiet_latency s.average_latency_ms _ (latency_threshold_lem s.average_latency_ms),
      )
      refl

module _ (to_number : Json → Option ℕ) (drops : ℕ → ℕ → Bool) where
  kept :
      (id : String) (e : EvalExecutionResult) (i : EvalRunItemSnapshot)
      (name : EvalRubricDimensionName)
      → lost to_number drops (stored_item id e i.breakdown) i name ≡ false
  kept id e i name = elim (Option-cases (dimension i.breakdown.dimensions name).passed) [
    | inl n ↦ ground arith
    | inr (b, s) ↦
        ground (arith, stored_dimension_passed-stored_item to_number id e i.breakdown name b s)
  ]

  -- If the test for a fall of the score by 0.2 is false of equal scores, a case with the same
  -- result as in the run before, as that run stored it, is not flagged as a regression.
  pub should_flag_regression_same :
      (id : String) (e : EvalExecutionResult) (i : EvalRunItemSnapshot)
      → drops i.score i.score ≡ false
      → i.passed ≡ i.breakdown.passed
      → i.score ≡ i.breakdown.score
      → should_flag_regression to_number drops i (some (stored_item id e i.breakdown)) ≡ false
  unfolding should_flag_regression stored_item
  should_flag_regression_same id e i d p s = ground (
    arith,
    kept id e i EvalRubricDimensionName.retrieval_source_hit,
    kept id e i EvalRubricDimensionName.answer_groundedness,
    kept id e i EvalRubricDimensionName.refusal_quality,
    kept id e i EvalRubricDimensionName.citation_integrity,
  )
