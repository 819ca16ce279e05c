-- ===== src/Evals/Scoring/Verdicts.antt =====
-- What the cases are that `scoreCase` of services/api/src/evals/eval-scoring.service.ts lets pass.
use rag_stack_monorepo.Chat.Dedupe.{dedupe_ordered-Distinct, In-of_dedupe_ordered}
use rag_stack_monorepo.Chat.Citations.{CitationView}
use rag_stack_monorepo.Chat.{dedupe_ordered}
use rag_stack_monorepo.Prelude.{
  Distinct, All, In, length, All-In, ◌≤◌, ◌≡◌, refl, Bool, true, false, List, [], arith, string_eq,
  pair_eq, ap, ◌∙◌, some, ◌==◌, String, Option, truthy, ℕ, any, map, ◌≢◌,
}
use rag_stack_monorepo.Evals.Types.{
  status_name, EvalExecutionResult, EvalExpectedOutcome, EvalScoreResult,
}
use rag_stack_monorepo.Evals.Scoring.Traces.{Intact, integrity-Intact}
use rag_stack_monorepo.Chat.{contains_string}
use rag_stack_monorepo.Chat.Ask.{ChatStatus}
use mathlib.Core.Path.{subst}
use rag_stack_monorepo.Evals.Rubric.{EvalCategoryRule, get_eval_category_rule}
use rag_stack_monorepo.Evals.Scoring.{
  compute_groundedness, compute_citation_integrity, from_document, ScoreableEvalCase, ScoringTools,
  dimension_result, EvalExpectedOutcome, compute_refusal_quality, scored, distinct_document_count,
  cited_documents,
}
use rag_stack_monorepo.Evals.Scoring.Grades.{too_few_documents, compute_source_hit}
use rag_stack_monorepo.Evals.Scoring.Case.{
  expected_statuses, score_or_nought, verdict, grade, score_by_rule, score_case,
}
use rag_stack_monorepo.Evals.Scoring.Passing.{Sound, answer-Sound, by_rule_verdict}

named_grounded :
    (st : ChatStatus) → (status_name st == "grounded") ≡ true → st ≡ ChatStatus.grounded
named_grounded ChatStatus.grounded h = refl
named_grounded ChatStatus.insufficient_data h = absurd (ground arith)
named_grounded ChatStatus.out_of_scope h = absurd (ground arith)

-- There are as many different documents, each of which is cited.
abbrev pub CitesDocuments : ℕ → List CitationView → Type 0
CitesDocuments n citations =
    (ids : List String) × (Distinct ids
      × (All (λ id. In id (map (λ (c : CitationView). c.document_id) citations)) ids
          × (n ≤ length ids)))

cited_several :
    (n : ℕ) (e : EvalExecutionResult)
    → too_few_documents (some n) e ≡ false
    → CitesDocuments n e.citations
unfolding too_few_documents distinct_document_count
cited_several n e h = (
  dedupe_ordered (cited_documents e.citations),
  (
    dedupe_ordered-Distinct (cited_documents e.citations),
    (
      All-In _ (dedupe_ordered (cited_documents e.citations))
          (In-of_dedupe_ordered (cited_documents e.citations)),
      ground arith,
    ),
  ),
)

module _ (k : ScoringTools) where
  -- What an answer that passes is: it is grounded, its citations are sound, the expected document is
  -- among the sources, and as many documents are cited as the category asks for.
  pub record Supported (rule : EvalCategoryRule) (c : ScoreableEvalCase) (e : EvalExecutionResult)
      : Type 0 where
    pub status : e.status ≡ ChatStatus.grounded
    pub citations : Intact k.citation_limit e
    pub expected_found :
        (id : String)
        → truthy c.expected_source_document_id ≡ some id
        → any (from_document id) e.selected_sources ≡ true
    pub several :
        (n : ℕ) → rule.min_distinct_cited_documents ≡ some n → CitesDocuments n e.citations

  grounded_status :
      (e : EvalExecutionResult) (hit : Bool) (s : Option ℕ)
      → 2 ≤ score_or_nought (compute_groundedness e hit s).score
      → e.status ≡ ChatStatus.grounded
  unfolding compute_groundedness dimension_result
  grounded_status e hit s h = ground (arith, named_grounded e.status)

  expected_hit :
      (c : ScoreableEvalCase) (e : EvalExecutionResult) (id : String)
      → (compute_source_hit k c e).source_hit ≡ true
      → truthy c.expected_source_document_id ≡ some id
      → any (from_document id) e.selected_sources ≡ true
  unfolding compute_source_hit
  expected_hit c e id h t = (rw (compute_source_hit, t) at h)

  answer-Supported :
      (rule : EvalCategoryRule) (c : ScoreableEvalCase) (e : EvalExecutionResult)
      → rule.expected_outcome ≡ EvalExpectedOutcome.grounded_answer
      → Sound rule e (grade k rule c e)
      → Supported rule c e
  unfolding grade
  answer-Supported rule c e o s = record {
    status =
        grounded_status e (compute_source_hit k c e).source_hit
          (compute_citation_integrity k rule.expected_outcome e).score
          (rw (grade, o) at s.well_grounded);
    citations = integrity-Intact k e (
        subst
          (λ (x : EvalExpectedOutcome).
            2 ≤ score_or_nought (compute_citation_integrity k x e).score)
          o (rw (grade, o) at s.intact));
    expected_found = λ id t. expected_hit c e id (rw (grade, o) at s.hit) t;
    several = λ n q. cited_several n e (subst (λ m. too_few_documents m e ≡ false) q s.several);
  }

  -- The record of what a clean refusal is.
  pub record Refused (statuses : List ChatStatus) (e : EvalExecutionResult) : Type 0 where
    pub status : contains_string (map status_name statuses) (status_name e.status) ≡ true
    pub not_grounded : e.status ≢ ChatStatus.grounded
    pub uncited : e.citations ≡ []
    pub concise : k.size (k.trim e.answer) ≤ 320
    pub worded : k.looks_like_refusal e.answer ≡ true

  clean_refusal :
      (statuses : List ChatStatus) (e : EvalExecutionResult)
      → scored (compute_refusal_quality k statuses e).score 2 ≡ true
      → e.citations ≡ []
      → Refused statuses e
  unfolding compute_refusal_quality dimension_result
  clean_refusal statuses e h n = record {
    status = ground arith;
    not_grounded = λ q. ground (arith, ap (λ (x : ChatStatus). status_name x == "grounded") q);
    uncited = n;
    concise = ground arith;
    worded = ground arith;
  }

  refusal_passed :
      (rule : EvalCategoryRule) (c : ScoreableEvalCase) (e : EvalExecutionResult)
      → rule.expected_outcome ≡ EvalExpectedOutcome.refusal
      → (score_by_rule k rule c e).passed ≡ true
      → Refused (expected_statuses k rule) e
  unfolding score_by_rule grade verdict compute_citation_integrity dimension_result
  refusal_passed rule c e o p =
      let q = rw (grade, verdict, o) at p in
      clean_refusal (expected_statuses k rule) e (ground arith) (ground arith)

  -- If an answer that is to be grounded passes, it is grounded, with citations of different chunks, no
  -- more than the limit, each traced to a retrieved source of the same chunk and document; the
  -- expected document, if one is named, was retrieved; and as many different documents as the
  -- category asks for are each cited.
  pub score_case-Supported :
      (c : ScoreableEvalCase) (e : EvalExecutionResult) (r : EvalScoreResult)
      (rule : EvalCategoryRule)
      → score_case k c e ≡ some r
      → get_eval_category_rule k.category_key c.category ≡ some rule
      → rule.expected_outcome ≡ EvalExpectedOutcome.grounded_answer
      → r.passed ≡ true
      → Supported rule c e
  unfolding score_case
  score_case-Supported c e r rule h s o p =
      let same : score_by_rule k rule c e ≡ r = ground arith in
      let reasons =
        (by_rule_verdict k rule c e).0 (ap (λ (x : EvalScoreResult). x.passed) same ∙ p) in
      answer-Supported rule c e o (answer-Sound k rule c e (grade k rule c e) o reasons)

  -- If a refusal passes, its status is one that the category expects and not "grounded", it has no
  -- citations, it is short, and it is worded as a refusal.
  pub score_case-Refused :
      (c : ScoreableEvalCase) (e : EvalExecutionResult) (r : EvalScoreResult)
      (rule : EvalCategoryRule)
      → score_case k c e ≡ some r
      → get_eval_category_rule k.category_key c.category ≡ some rule
      → rule.expected_outcome ≡ EvalExpectedOutcome.refusal
      → r.passed ≡ true
      → Refused (expected_statuses k rule) e
  unfolding score_case
  score_case-Refused c e r rule h s o p =
      let same : score_by_rule k rule c e ≡ r = ground arith in
      refusal_passed rule c e o (ap (λ (x : EvalScoreResult). x.passed) same ∙ p)
