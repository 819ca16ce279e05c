-- ===== src/Evals/Scoring/Bounds.antt =====
-- The ranges of the grades and of the score that `scoreCase` of
-- services/api/src/evals/eval-scoring.service.ts gives.
use rag_stack_monorepo.Prelude.{
  ℕ, ◌≤◌, ◌≡◌, refl, Bool, true, false, Option, List, arith, if◌then◌else◌, string_eq, pair_eq, ◌⊎◌,
  inl, inr, some, Option-cases,
}
use rag_stack_monorepo.Chat.Ask.{ChatStatus}
use rag_stack_monorepo.Evals.Types.{
  EvalExecutionResult, EvalDimensionResult, EvalExpectedOutcome, EvalScoreResult,
  EvalRubricDimensionName, dimension,
}
use rag_stack_monorepo.Evals.Scoring.{
  ScoringTools, ScoreableEvalCase, dimension_result, compute_citation_integrity,
  compute_groundedness, compute_refusal_quality, EvalRubricDimensionName, not_applicable_dimension,
  weighted_grounded_score, weighted_refusal_score,
}
use rag_stack_monorepo.Evals.Scoring.Grades.{
  judge_evidence, compute_source_hit, compute_evidence_relevance, compute_answer_usefulness,
}
use rag_stack_monorepo.Evals.Scoring.Case.{
  score_or_nought, Grades, grade, score_of, score_by_rule, score_case, expected_statuses,
  needs_review,
}
use mathlib.Core.Path.{subst}
use rag_stack_monorepo.Evals.Rubric.{get_eval_category_rule, EvalCategoryRule}

-- The grade is no higher than the highest, which is the given one.
abbrev pub Within : ℕ → EvalDimensionResult → Type 0
Within most d = (d.max_score ≡ most) × (score_or_nought d.score ≤ most)

if_le : (b : Bool) (m n most : ℕ) → m ≤ most → n ≤ most → (if b then m else n) ≤ most
if_le true m n most h g = h
if_le false m n most h g = g

-- Every grade of a scored case is within its range, and so is the score.
pub record InRange (r : EvalScoreResult) : Type 0 where
  pub grades :
      (name : EvalRubricDimensionName)
      → score_or_nought (dimension r.dimensions name).score
        ≤ (dimension r.dimensions name).max_score
  pub whole : r.score ≤ 10000

pub outcome_cases :
    (o : EvalExpectedOutcome)
    → (o ≡ EvalExpectedOutcome.refusal) ⊎ (o ≡ EvalExpectedOutcome.grounded_answer)
outcome_cases EvalExpectedOutcome.refusal = inl refl
outcome_cases EvalExpectedOutcome.grounded_answer = inr refl

pub record GradesWithin (g : Grades) : Type 0 where
  pub hit : Within 1 g.source_hit.dimension
  pub relevance : Within 2 g.evidence_relevance
  pub groundedness : Within 2 g.groundedness
  pub usefulness : Within 2 g.answer_usefulness.dimension
  pub quality : Within 2 g.refusal_quality
  pub integrity : Within 2 g.citation_integrity

module _ (k : ScoringTools) where
  integrity_within :
      (o : EvalExpectedOutcome) (e : EvalExecutionResult)
      → Within 2 (compute_citation_integrity k o e)
  unfolding compute_citation_integrity dimension_result
  integrity_within EvalExpectedOutcome.refusal e = ground arith
  integrity_within EvalExpectedOutcome.grounded_answer e = ground arith

  refusal_within :
      (l : List ChatStatus) (e : EvalExecutionResult) → Within 2 (compute_refusal_quality k l e)
  unfolding compute_refusal_quality dimension_result
  refusal_within l e = ground arith

  groundedness_within :
      (e : EvalExecutionResult) (hit : Bool) (s : Option ℕ)
      → Within 2 (compute_groundedness e hit s)
  unfolding compute_groundedness dimension_result
  groundedness_within e hit s = ground arith

  usefulness_within :
      (c : ScoreableEvalCase) (e : EvalExecutionResult)
      → Within 2 (compute_answer_usefulness k c e).dimension
  unfolding compute_answer_usefulness dimension_result
  usefulness_within c e = ground arith

  hit_within :
      (c : ScoreableEvalCase) (e : EvalExecutionResult)
      → Within 1 (compute_source_hit k c e).dimension
  unfolding compute_source_hit dimension_result
  hit_within c e = (refl, if_le _ 1 0 1 (omega arith) (omega arith))

  judged_within :
      (c : ScoreableEvalCase) (e : EvalExecutionResult) (hit review : Bool)
      → (judge_evidence k c e hit review).score ≤ 2
  unfolding judge_evidence
  judged_within c e hit review = ground arith

  relevance_within :
      (c : ScoreableEvalCase) (e : EvalExecutionResult) (hit cited review : Bool) (n : Option ℕ)
      (b : Bool)
      → Within 2 (compute_evidence_relevance k c e hit cited review n b)
  unfolding compute_evidence_relevance dimension_result
  relevance_within c e hit cited review n b = ground (arith, judged_within c e hit review)

  grade_within :
      (rule : EvalCategoryRule) (c : ScoreableEvalCase) (e : EvalExecutionResult)
      → GradesWithin (grade k rule c e)
  unfolding grade not_applicable_dimension
  grade_within rule c e = elim (outcome_cases rule.expected_outcome) [
    | inl o ↦
        rw (grade, o)
          (record {
            hit = hit_within c e;
            relevance = (refl, omega arith);
            groundedness = (refl, omega arith);
            usefulness = (refl, omega arith);
            quality = refusal_within (expected_statuses k rule) e;
            integrity = integrity_within rule.expected_outcome e;
          })
    | inr o ↦
        rw (grade, o)
          (record {
            hit = hit_within c e;
            relevance =
                relevance_within c e (compute_source_hit k c e).source_hit
                  (compute_source_hit k c e).expected_source_cited (needs_review k rule c)
                  rule.min_distinct_cited_documents rule.require_expected_source_citation;
            groundedness =
                groundedness_within e (compute_source_hit k c e).source_hit
                  (compute_citation_integrity k rule.expected_outcome e).score;
            usefulness = usefulness_within c e;
            quality = (refl, omega arith);
            integrity = integrity_within rule.expected_outcome e;
          })
  ]

  score_within : (rule : EvalCategoryRule) (g : Grades) → GradesWithin g → score_of rule g ≤ 10000
  unfolding score_of weighted_grounded_score weighted_refusal_score
  score_within rule g w =
      ground (arith, w.hit, w.relevance, w.groundedness, w.usefulness, w.quality, w.integrity)

  by_rule-InRange :
      (rule : EvalCategoryRule) (c : ScoreableEvalCase) (e : EvalExecutionResult)
      → InRange (score_by_rule k rule c e)
  unfolding score_by_rule
  by_rule-InRange rule c e =
      let w = grade_within rule c e in
      record {
        grades = elim [
          | EvalRubricDimensionName.retrieval_source_hit ↦ omega (arith, w.hit.0, w.hit.1)
          | EvalRubricDimensionName.evidence_relevance ↦ omega (arith, w.relevance.0, w.relevance.1)
          | EvalRubricDimensionName.answer_groundedness ↦
              omega (arith, w.groundedness.0, w.groundedness.1)
          | EvalRubricDimensionName.answer_usefulness ↦
              omega (arith, w.usefulness.0, w.usefulness.1)
          | EvalRubricDimensionName.refusal_quality ↦ omega (arith, w.quality.0, w.quality.1)
          | EvalRubricDimensionName.citation_integrity ↦ omega (arith, w.integrity.0, w.integrity.1)
        ];
        whole = score_within rule (grade k rule c e) w;
      }

  -- A result is the result under the rule of the case's category.
  pub ruled :
      (c : ScoreableEvalCase) (e : EvalExecutionResult) (r : EvalScoreResult)
      → score_case k c e ≡ some r
      → (rule : EvalCategoryRule) × ((get_eval_category_rule k.category_key c.category ≡ some rule)
          × (score_by_rule k rule c e ≡ r))
  unfolding score_case
  ruled c e r h = elim (Option-cases (get_eval_category_rule k.category_key c.category)) [
    | inl n ↦ absurd (ground arith)
    | inr (rule, s) ↦ (rule, (s, ground arith))
  ]

  -- If a case is scored, each grade is at most the highest of its dimension, and the score at most
  -- 1, which is 10000 ten-thousandths.
  pub score_case-InRange :
      (c : ScoreableEvalCase) (e : EvalExecutionResult) (r : EvalScoreResult)
      → score_case k c e ≡ some r
      → InRange r
  score_case-InRange c e r h =
      let q = ruled c e r h in subst InRange q.1.1 (by_rule-InRange q.0 c e)
