-- ===== src/Evals/Rubric.antt =====
-- services/api/src/evals/eval-rubric.ts: the weights of the scores, in hundredths, and the rule for
-- each category of case. The regular expressions that bring a category's spelling into one form are
-- the parameter `to_key`.
use rag_stack_monorepo.Prelude.{
  ℕ, String, Bool, true, false, Option, none, some, List, [], ◌∷◌, ◌==◌, if◌then◌else◌,
}
use rag_stack_monorepo.Chat.Ask.{ChatStatus}
use rag_stack_monorepo.Evals.Types.{EvalCaseCategory, EvalExpectedOutcome, grounded_answer}

abbrev pub eval_rubric_version : String
eval_rubric_version = "practical_v1"

-- EVAL_GROUNDED_PASS_THRESHOLD, in ten-thousandths
abbrev pub eval_grounded_pass_threshold : ℕ
eval_grounded_pass_threshold = 7000

pub record GroundedWeights : Type 0 where
  pub retrieval_source_hit : ℕ
  pub evidence_relevance : ℕ
  pub answer_groundedness : ℕ
  pub answer_usefulness : ℕ
  pub citation_integrity : ℕ

abbrev pub eval_grounded_score_weights : GroundedWeights
eval_grounded_score_weights = record {
  retrieval_source_hit = 25;
  evidence_relevance = 15;
  answer_groundedness = 25;
  answer_usefulness = 25;
  citation_integrity = 10;
}

pub record RefusalWeights : Type 0 where
  pub refusal_quality : ℕ
  pub citation_integrity : ℕ

abbrev pub eval_refusal_score_weights : RefusalWeights
eval_refusal_score_weights = record { refusal_quality = 70; citation_integrity = 30 }

pub record EvalCategoryRule : Type 0 where
  pub category : EvalCaseCategory
  pub expected_outcome : EvalExpectedOutcome
  pub expected_refusal_statuses : Option (List ChatStatus)
  pub min_distinct_cited_documents : Option ℕ
  pub require_expected_source_citation : Bool
  pub manual_review_only : Bool

abbrev category_aliases : List (String × EvalCaseCategory)
category_aliases =
    ("ambiguous", EvalCaseCategory.ambiguous_keyword_overlap)
    ∷ ("ambiguous_keyword", EvalCaseCategory.ambiguous_keyword_overlap)
    ∷ ("ambiguous_keyword_overlap", EvalCaseCategory.ambiguous_keyword_overlap)
    ∷ ("general", EvalCaseCategory.general)
    ∷ ("insufficient", EvalCaseCategory.insufficient_data)
    ∷ ("insufficient_data", EvalCaseCategory.insufficient_data)
    ∷ ("multi_source", EvalCaseCategory.multi_source_synthesis)
    ∷ ("multi_source_synthesis", EvalCaseCategory.multi_source_synthesis)
    ∷ ("out_of_scope", EvalCaseCategory.out_of_scope)
    ∷ ("recency_sensitive", EvalCaseCategory.version_recency_sensitive)
    ∷ ("refusal", EvalCaseCategory.refusal)
    ∷ ("single_source", EvalCaseCategory.single_source_factual)
    ∷ ("single_source_factual", EvalCaseCategory.single_source_factual)
    ∷ ("version_recency_sensitive", EvalCaseCategory.version_recency_sensitive)
    ∷ ("version_sensitive", EvalCaseCategory.version_recency_sensitive)
    ∷ ("access_sensitive", EvalCaseCategory.access_sensitive)
    ∷ []

abbrev default_category : EvalCaseCategory
default_category = EvalCaseCategory.general

abbrev graded : EvalCaseCategory → EvalCategoryRule
graded c = record {
  category = c;
  expected_outcome = grounded_answer;
  expected_refusal_statuses = none;
  min_distinct_cited_documents = none;
  require_expected_source_citation = false;
  manual_review_only = false;
}

abbrev refused : EvalCaseCategory → List ChatStatus → EvalCategoryRule
refused c statuses = record (graded c) {
  expected_outcome = EvalExpectedOutcome.refusal;
  expected_refusal_statuses = some statuses;
}

-- CATEGORY_RULES[category]
unfoldable pub category_rule : EvalCaseCategory → EvalCategoryRule
category_rule EvalCaseCategory.general = graded EvalCaseCategory.general
category_rule EvalCaseCategory.single_source_factual = graded EvalCaseCategory.single_source_factual
category_rule EvalCaseCategory.multi_source_synthesis =
    record (graded EvalCaseCategory.multi_source_synthesis) {
      min_distinct_cited_documents = some 2;
    }
category_rule EvalCaseCategory.version_recency_sensitive =
    record (graded EvalCaseCategory.version_recency_sensitive) {
      require_expected_source_citation = true;
    }
category_rule EvalCaseCategory.ambiguous_keyword_overlap =
    record (graded EvalCaseCategory.ambiguous_keyword_overlap) {
      require_expected_source_citation = true;
    }
category_rule EvalCaseCategory.out_of_scope =
    refused EvalCaseCategory.out_of_scope (ChatStatus.out_of_scope ∷ [])
category_rule EvalCaseCategory.insufficient_data =
    refused EvalCaseCategory.insufficient_data (ChatStatus.insufficient_data ∷ [])
category_rule EvalCaseCategory.refusal =
    refused EvalCaseCategory.refusal (ChatStatus.insufficient_data ∷ ChatStatus.out_of_scope ∷ [])
category_rule EvalCaseCategory.access_sensitive =
    record (graded EvalCaseCategory.access_sensitive) { manual_review_only = true }

-- The entry with that key, or the default.
unfoldable pub alias_of : List (String × EvalCaseCategory) → String → EvalCaseCategory
alias_of [] key = default_category
alias_of ((alias, category) ∷ rest) key = if alias == key then category else alias_of rest key

module _ (to_key : String → String) where
  abbrev key_of : Option String → String
  key_of none = to_key ""
  key_of (some category) = to_key category

  -- There is none for the key "constructor": the table inherits a member of that name, which is no
  -- category.
  unfoldable pub normalize_eval_category : Option String → Option EvalCaseCategory
  unfolding alias_of
  normalize_eval_category category =
      let key = key_of category in
      if key == "constructor" then none else some (alias_of category_aliases key)

  -- None is the undefined rule of a name that is no category.
  unfoldable pub get_eval_category_rule : Option String → Option EvalCategoryRule
  unfolding normalize_eval_category category_rule
  get_eval_category_rule category = elim (normalize_eval_category category) [
    | none ↦ none
    | some c ↦ some (category_rule c)
  ]
