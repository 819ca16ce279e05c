-- ===== src/Evals/Scoring/Case.antt =====
-- services/api/src/evals/eval-scoring.service.ts: `scoreCase`, from the grades of the dimensions to
-- the failure reasons, the score and the verdict. `reasons_of`, `notes_of`, `score_of` and
-- `verdict` are its tail, which reads the grades only.
use rag_stack_monorepo.Prelude.{
  ℕ, ◌+◌, ◌/◌, String, Bool, true, false, not, ◌&&◌, ◌||◌, Option, none, some, List, [], ◌∷◌, ◌++◌,
  map, ◌==◌, ltb, leb, eqb, if◌then◌else◌, is_some, truthy, string_eq, pair_eq, length, filter,
}
use rag_stack_monorepo.Chat.Ask.{ChatStatus}
use rag_stack_monorepo.Evals.Types.{
  EvalRubricDimensionName, EvalDimensionResult, EvalExecutionResult, EvalFailureReason,
  EvalScoreResult, EvalSecondaryMetrics, EvalExpectedOutcome, heuristic, dedupe_reasons,
  ten_thousandths, EvalSelectedSource,
}
use rag_stack_monorepo.Evals.Rubric.{
  EvalCategoryRule, eval_rubric_version, eval_grounded_pass_threshold, get_eval_category_rule,
}
use rag_stack_monorepo.Evals.Scoring.{
  ScoringTools, ScoreableEvalCase, not_applicable_dimension, weighted_grounded_score,
  weighted_refusal_score, distinct_document_count, cited_documents, scored, larger, trimmed, nought,
  join_all, compute_citation_integrity, compute_groundedness, compute_refusal_quality,
}
use rag_stack_monorepo.Evals.Scoring.Grades.{
  SourceHit, Usefulness, compute_source_hit, compute_evidence_relevance, compute_answer_usefulness,
  too_few_documents,
}
use text.Mathlib.Text.{find?}

-- The grades of a case, before the verdict on it.
pub record Grades : Type 0 where
  pub source_hit : SourceHit
  pub evidence_relevance : EvalDimensionResult
  pub groundedness : EvalDimensionResult
  pub answer_usefulness : Usefulness
  pub refusal_quality : EvalDimensionResult
  pub citation_integrity : EvalDimensionResult

-- `String.prototype.includes`
abbrev includes : String → String → Bool
includes s part = is_some (find? s part)

-- `score ?? 0`
abbrev pub score_or_nought : Option ℕ → ℕ
score_or_nought none = 0
score_or_nought (some n) = n

abbrev not_graded : EvalRubricDimensionName → String → EvalDimensionResult
not_graded name notes = not_applicable_dimension name heuristic 2 notes

unfoldable pub metrics_of : EvalExecutionResult → EvalSecondaryMetrics
unfolding distinct_document_count
metrics_of e = record {
  latency_ms = e.latency_ms;
  usage = e.usage;
  top_score = (e.top_score + 50) / 100;
  citation_count = length e.citations;
  retrieved_source_count = length e.selected_sources;
  distinct_retrieved_documents =
      distinct_document_count (map (λ (s : EvalSelectedSource). s.document_id) e.selected_sources);
  distinct_cited_documents = distinct_document_count (cited_documents e.citations);
}

-- The reasons whose tests hold, in the order in which they are pushed.
unfoldable pub pushed : List (Bool × EvalFailureReason) → List EvalFailureReason
pushed [] = []
pushed ((test, reason) ∷ checks) = elim test [
  | true ↦ reason ∷ pushed checks
  | false ↦ pushed checks
]

abbrev pub refusal_checks : Grades → List (Bool × EvalFailureReason)
refusal_checks g =
    (
      not (scored g.refusal_quality.score 2),
      if includes g.refusal_quality.notes "wrong refusal mode"
          then EvalFailureReason.wrong_refusal_mode
          else EvalFailureReason.incorrect_refusal,
    )
    ∷ (not (scored g.citation_integrity.score 2), EvalFailureReason.citation_integrity_failed)
    ∷ []

abbrev pub answer_checks :
    EvalCategoryRule
    → ScoreableEvalCase
    → EvalExecutionResult
    → Grades
    → List (Bool × EvalFailureReason)
answer_checks rule c e g =
    (not g.source_hit.source_hit, EvalFailureReason.expected_source_missing)
    ∷ (
      rule.require_expected_source_citation
          && (is_some (truthy c.expected_source_document_id)
              && not g.source_hit.expected_source_cited),
      EvalFailureReason.expected_source_not_cited,
    )
    ∷ (
      ltb (score_or_nought g.evidence_relevance.score) 1,
      EvalFailureReason.weak_evidence_relevance,
    )
    ∷ (ltb (score_or_nought g.groundedness.score) 2, EvalFailureReason.answer_not_grounded)
    ∷ (
      ltb (score_or_nought g.answer_usefulness.dimension.score) 1,
      EvalFailureReason.answer_not_useful,
    )
    ∷ (
      ltb (score_or_nought g.citation_integrity.score) 2,
      EvalFailureReason.citation_integrity_failed,
    )
    ∷ (
      too_few_documents rule.min_distinct_cited_documents e,
      EvalFailureReason.missing_multi_source_support,
    )
    ∷ []

unfoldable pub reasons_of :
    EvalCategoryRule → ScoreableEvalCase → EvalExecutionResult → Grades → List EvalFailureReason
unfolding pushed too_few_documents
reasons_of rule c e g = elim rule.expected_outcome [
  | EvalExpectedOutcome.refusal ↦ pushed (refusal_checks g)
  | EvalExpectedOutcome.grounded_answer ↦ pushed (answer_checks rule c e g)
]

abbrev review_note : EvalCategoryRule → Bool → List String
review_note rule true =
    (if rule.manual_review_only
      then "This category still needs human review because the current eval runner cannot verify access-sensitive behavior end to end."
      else "No expected answer or source hint was configured, so usefulness and evidence relevance remain heuristic-only.")
    ∷ []
review_note rule false = []

unfoldable pub notes_of : EvalCategoryRule → Grades → Bool → List String
notes_of rule g review =
    (elim rule.expected_outcome [
      | EvalExpectedOutcome.refusal ↦ g.refusal_quality.notes ∷ g.citation_integrity.notes ∷ []
      | EvalExpectedOutcome.grounded_answer ↦
          g.source_hit.dimension.notes ∷ g.evidence_relevance.notes ∷ g.groundedness.notes
          ∷ g.answer_usefulness.dimension.notes ∷ g.citation_integrity.notes ∷ []
    ])
    ++ review_note rule review

unfoldable pub score_of : EvalCategoryRule → Grades → ℕ
unfolding weighted_refusal_score weighted_grounded_score
score_of rule g = elim rule.expected_outcome [
  | EvalExpectedOutcome.refusal ↦
      weighted_refusal_score (score_or_nought g.refusal_quality.score)
        (score_or_nought g.citation_integrity.score)
  | EvalExpectedOutcome.grounded_answer ↦
      weighted_grounded_score (score_or_nought g.source_hit.dimension.score)
        (score_or_nought g.evidence_relevance.score) (score_or_nought g.groundedness.score)
        (score_or_nought g.answer_usefulness.dimension.score)
        (score_or_nought g.citation_integrity.score)
]

unfoldable pub verdict : EvalCategoryRule → Grades → List EvalFailureReason → ℕ → Bool
verdict rule g reasons score = elim rule.expected_outcome [
  | EvalExpectedOutcome.refusal ↦
      scored g.refusal_quality.score 2 && scored g.citation_integrity.score 2
  | EvalExpectedOutcome.grounded_answer ↦
      eqb (length reasons) 0 && leb eval_grounded_pass_threshold score
]

-- `passed === true`
abbrev was_passed : Option Bool → Bool
was_passed none = false
was_passed (some b) = b

module _ (k : ScoringTools) where
  unfoldable pub needs_review : EvalCategoryRule → ScoreableEvalCase → Bool
  unfolding trimmed
  needs_review rule c =
      rule.manual_review_only
      || not (is_some (trimmed k c.expected_answer) || is_some (trimmed k c.expected_source_hint))

  abbrev pub expected_statuses : EvalCategoryRule → List ChatStatus
  expected_statuses rule = elim rule.expected_refusal_statuses [ none ↦ [] | some l ↦ l ]

  -- The grades that the rule's expected outcome asks for.
  unfoldable pub grade : EvalCategoryRule → ScoreableEvalCase → EvalExecutionResult → Grades
  unfolding needs_review compute_source_hit compute_citation_integrity compute_groundedness
      compute_evidence_relevance compute_answer_usefulness compute_refusal_quality
      not_applicable_dimension
  grade rule c e =
      let hit = compute_source_hit k c e in
      let integrity = compute_citation_integrity k rule.expected_outcome e in
      elim rule.expected_outcome [
        | EvalExpectedOutcome.grounded_answer ↦ record {
          source_hit = hit;
          evidence_relevance =
              compute_evidence_relevance k c e hit.source_hit hit.expected_source_cited
                (needs_review rule c) rule.min_distinct_cited_documents
                rule.require_expected_source_citation;
          groundedness = compute_groundedness e hit.source_hit integrity.score;
          answer_usefulness = compute_answer_usefulness k c e;
          refusal_quality =
              not_graded EvalRubricDimensionName.refusal_quality
                "Grounded-answer cases are not graded on refusal quality.";
          citation_integrity = integrity;
        }
        | EvalExpectedOutcome.refusal ↦ record {
          source_hit = hit;
          evidence_relevance =
              not_graded EvalRubricDimensionName.evidence_relevance
                "Refusal cases are not graded on evidence relevance.";
          groundedness =
              not_graded EvalRubricDimensionName.answer_groundedness
                "Refusal cases are not graded on grounded answer quality.";
          answer_usefulness = record {
            dimension =
                not_graded EvalRubricDimensionName.answer_usefulness
                  "Refusal cases are not graded on answer usefulness.";
            score_signal = nought;
          };
          refusal_quality = compute_refusal_quality k (expected_statuses rule) e;
          citation_integrity = integrity;
        }
      ]

  -- compactNotes: the notes that are not blank, trimmed
  unfoldable pub compact_notes : List String → String
  unfolding join_all
  compact_notes notes = join_all (filter (λ s. not (s == "")) (map k.trim notes))

  -- `scoreCase` under the rule of the case's category
  unfoldable pub score_by_rule :
      EvalCategoryRule → ScoreableEvalCase → EvalExecutionResult → EvalScoreResult
  unfolding needs_review grade reasons_of notes_of score_of verdict metrics_of compact_notes
      dedupe_reasons
  score_by_rule rule c e =
      let g = grade rule c e in
      let reasons = reasons_of rule c e g in
      let score = score_of rule g in
      record {
        rubric_version = eval_rubric_version;
        case_category = rule.category;
        expected_outcome = rule.expected_outcome;
        passed = verdict rule g reasons score;
        score = score;
        notes = compact_notes (notes_of rule g (needs_review rule c));
        failure_reasons = dedupe_reasons reasons;
        dimensions = record {
          retrieval_source_hit = g.source_hit.dimension;
          evidence_relevance = g.evidence_relevance;
          answer_groundedness = g.groundedness;
          answer_usefulness = g.answer_usefulness.dimension;
          refusal_quality = g.refusal_quality;
          citation_integrity = g.citation_integrity;
        };
        source_hit = g.source_hit.source_hit;
        evidence_relevant = was_passed g.evidence_relevance.passed;
        grounded = was_passed g.groundedness.passed;
        useful = was_passed g.answer_usefulness.dimension.passed;
        citation_integrity = was_passed g.citation_integrity.passed;
        correct_refusal = was_passed g.refusal_quality.passed;
        expected_source_cited = g.source_hit.expected_source_cited;
        answer_match_score =
            ten_thousandths
              (larger g.source_hit.answer_target_coverage g.answer_usefulness.score_signal);
        requires_human_review = needs_review rule c;
        secondary_metrics = metrics_of e;
      }

  -- There is no result where the category has no rule: reading the rule throws.
  unfoldable pub score_case : ScoreableEvalCase → EvalExecutionResult → Option EvalScoreResult
  unfolding get_eval_category_rule score_by_rule
  score_case c e = elim (get_eval_category_rule k.category_key c.category) [
    | none ↦ none
    | some rule ↦ some (score_by_rule rule c e)
  ]
