-- ===== src/Evals/Scoring/Passing.antt =====
-- The verdict of `scoreCase` of services/api/src/evals/eval-scoring.service.ts beside its failure
-- reasons, and the range of its score.
use rag_stack_monorepo.Prelude.{
  ◌≤◌, ◌≡◌, refl, Bool, true, false, not, List, [], arith, string_eq, pair_eq, All, eqb, ◌∷◌,
  length, ◌↔◌, ap, ◌∙◌, sym, some, inl, inr,
}
use rag_stack_monorepo.Evals.Types.{
  EvalExecutionResult, EvalFailureReason, dedupe_reasons, EvalExpectedOutcome, EvalScoreResult,
}
use rag_stack_monorepo.Evals.Scoring.Bounds.{outcome_cases, ruled}
use mathlib.Core.Path.{subst}
use rag_stack_monorepo.Evals.Rubric.{EvalCategoryRule}
use rag_stack_monorepo.Evals.Scoring.{
  ScoreableEvalCase, ScoringTools, dimension_result, weighted_grounded_score, EvalExpectedOutcome,
}
use rag_stack_monorepo.Evals.Scoring.Grades.{too_few_documents, compute_source_hit, SourceHit}
use rag_stack_monorepo.Evals.Scoring.Case.{
  Grades, pushed, score_or_nought, answer_checks, score_of, verdict, reasons_of, grade,
  score_by_rule, score_case,
}

none_pushed : (l : List (Bool × EvalFailureReason)) → pushed l ≡ [] → All (λ p. p.0 ≡ false) l
unfolding pushed
none_pushed [] h = tt
none_pushed ((true, r) ∷ l) h = absurd (ground arith)
none_pushed ((false, r) ∷ l) h = (refl, none_pushed l h)

quiet_none : (l : List (Bool × EvalFailureReason)) → All (λ p. p.0 ≡ false) l → pushed l ≡ []
unfolding pushed
quiet_none [] h = refl
quiet_none ((true, r) ∷ l) h = absurd (ground arith)
quiet_none ((false, r) ∷ l) h = quiet_none l h.1

positive_of : (b : Bool) → not b ≡ false → b ≡ true
positive_of true h = refl
positive_of false h = absurd (ground arith)

-- What the grades of an answer without failure reasons are.
pub record Sound (rule : EvalCategoryRule) (e : EvalExecutionResult) (g : Grades) : Type 0 where
  pub hit : g.source_hit.source_hit ≡ true
  pub relevant : 1 ≤ score_or_nought g.evidence_relevance.score
  pub well_grounded : 2 ≤ score_or_nought g.groundedness.score
  pub useful : 1 ≤ score_or_nought g.answer_usefulness.dimension.score
  pub intact : 2 ≤ score_or_nought g.citation_integrity.score
  pub several : too_few_documents rule.min_distinct_cited_documents e ≡ false

pub Sound-of_no_reasons :
    (rule : EvalCategoryRule) (c : ScoreableEvalCase) (e : EvalExecutionResult) (g : Grades)
    → pushed (answer_checks rule c e g) ≡ []
    → Sound rule e g
Sound-of_no_reasons rule c e g h =
    let q = none_pushed (answer_checks rule c e g) h in
    record {
      hit = positive_of g.source_hit.source_hit q.0;
      relevant = ground (arith, q.1.1.0);
      well_grounded = ground (arith, q.1.1.1.0);
      useful = ground (arith, q.1.1.1.1.0);
      intact = ground (arith, q.1.1.1.1.1.0);
      several = q.1.1.1.1.1.1.0;
    }

dedupe-eq-nil : (l : List EvalFailureReason) → dedupe_reasons l ≡ [] → l ≡ []
unfolding dedupe_reasons
dedupe-eq-nil [] h = refl
dedupe-eq-nil (r ∷ l) h = absurd (ground arith)

length-eq-nil : (l : List EvalFailureReason) → eqb (length l) 0 ≡ true → l ≡ []
length-eq-nil [] h = refl
length-eq-nil (r ∷ l) h = absurd (ground arith)

module _ (k : ScoringTools) where
  graded_hit :
      (rule : EvalCategoryRule) (c : ScoreableEvalCase) (e : EvalExecutionResult)
      → (grade k rule c e).source_hit ≡ compute_source_hit k c e
  unfolding grade
  graded_hit rule c e = elim (outcome_cases rule.expected_outcome) [
    | inl o ↦ rw (grade, o) refl
    | inr o ↦ rw (grade, o) refl
  ]

  hit_score :
      (c : ScoreableEvalCase) (e : EvalExecutionResult)
      → (compute_source_hit k c e).source_hit ≡ true
      → score_or_nought (compute_source_hit k c e).dimension.score ≡ 1
  unfolding compute_source_hit dimension_result
  hit_score c e h = rw h refl

  graded_hit_score :
      (rule : EvalCategoryRule) (c : ScoreableEvalCase) (e : EvalExecutionResult)
      → (grade k rule c e).source_hit.source_hit ≡ true
      → score_or_nought (grade k rule c e).source_hit.dimension.score ≡ 1
  graded_hit_score rule c e h =
      let q = graded_hit rule c e in
      ap (λ (s : SourceHit). score_or_nought s.dimension.score) q
      ∙ hit_score c e (sym (ap (λ (s : SourceHit). s.source_hit) q) ∙ h)

  -- An answer without failure reasons is above the threshold.
  Sound-score :
      (rule : EvalCategoryRule) (c : ScoreableEvalCase) (e : EvalExecutionResult)
      → rule.expected_outcome ≡ EvalExpectedOutcome.grounded_answer
      → Sound rule e (grade k rule c e)
      → 7000 ≤ score_of rule (grade k rule c e)
  unfolding score_of weighted_grounded_score
  Sound-score rule c e o s =
      rw (score_of, o)
        (omega
          (arith, graded_hit_score rule c e s.hit, s.relevant, s.well_grounded, s.useful, s.intact))

  pub answer-Sound :
      (rule : EvalCategoryRule) (c : ScoreableEvalCase) (e : EvalExecutionResult) (g : Grades)
      → rule.expected_outcome ≡ EvalExpectedOutcome.grounded_answer
      → reasons_of rule c e g ≡ []
      → Sound rule e g
  unfolding reasons_of
  answer-Sound rule c e g o h = Sound-of_no_reasons rule c e g (rw (reasons_of, o) at h)

  answer_verdict :
      (rule : EvalCategoryRule) (c : ScoreableEvalCase) (e : EvalExecutionResult)
      → rule.expected_outcome ≡ EvalExpectedOutcome.grounded_answer
      → (verdict rule
            (grade k rule c e)
            (reasons_of rule c e (grade k rule c e))
            (score_of rule (grade k rule c e))
          ≡ true)
        ↔ (reasons_of rule c e (grade k rule c e) ≡ [])
  unfolding verdict
  answer_verdict rule c e o = (
    λ h. length-eq-nil _ (ground arith),
    λ h.
        let score = Sound-score rule c e o (answer-Sound rule c e (grade k rule c e) o h) in
        ground (arith, ap length h),
  )

  refusal-verdict :
      (rule : EvalCategoryRule) (c : ScoreableEvalCase) (e : EvalExecutionResult) (g : Grades)
      → rule.expected_outcome ≡ EvalExpectedOutcome.refusal
      → (verdict rule g (reasons_of rule c e g) (score_of rule g) ≡ true)
        ↔ (reasons_of rule c e g ≡ [])
  unfolding verdict reasons_of pushed
  refusal-verdict rule c e g o = ground arith

  pub by_rule_verdict :
      (rule : EvalCategoryRule) (c : ScoreableEvalCase) (e : EvalExecutionResult)
      → ((score_by_rule k rule c e).passed ≡ true) ↔ (reasons_of rule c e (grade k rule c e) ≡ [])
  unfolding score_by_rule
  by_rule_verdict rule c e = elim (outcome_cases rule.expected_outcome) [
    | inl o ↦ refusal-verdict rule c e (grade k rule c e) o
    | inr o ↦ answer_verdict rule c e o
  ]

  by_rule_reasons :
      (rule : EvalCategoryRule) (c : ScoreableEvalCase) (e : EvalExecutionResult)
      → (reasons_of rule c e (grade k rule c e) ≡ [])
        ↔ ((score_by_rule k rule c e).failure_reasons ≡ [])
  unfolding score_by_rule dedupe_reasons
  by_rule_reasons rule c e =
      (λ h. ap dedupe_reasons h, λ h. dedupe-eq-nil (reasons_of rule c e (grade k rule c e)) h)

  -- A case that is scored passes exactly if no failure reason is given: an answer without one is
  -- above the threshold.
  pub score_case-passed_iff :
      (c : ScoreableEvalCase) (e : EvalExecutionResult) (r : EvalScoreResult)
      → score_case k c e ≡ some r
      → (r.passed ≡ true) ↔ (r.failure_reasons ≡ [])
  score_case-passed_iff c e r h =
      let q = ruled k c e r h in
      subst (λ (s : EvalScoreResult). (s.passed ≡ true) ↔ (s.failure_reasons ≡ [])) q.1.1
        (
          λ p. (by_rule_reasons q.0 c e).0 ((by_rule_verdict q.0 c e).0 p),
          λ p. (by_rule_verdict q.0 c e).1 ((by_rule_reasons q.0 c e).1 p),
        )
