-- ===== src/Evals/Scoring.antt =====
-- services/api/src/evals/eval-scoring.service.ts: the grade of each dimension of a case. The
-- functions of the language on texts are the fields of `ScoringTools`. A coverage is a quotient of
-- whole numbers, exactly, and the weighted scores are whole numbers of ten-thousandths.
pub mod Grades
pub mod Case
pub mod Bounds
pub mod Traces
pub mod Passing
pub mod Verdicts
use rag_stack_monorepo.Prelude.{
  ℕ, ◌+◌, ◌*◌, String, Bool, true, false, not, ◌&&◌, ◌||◌, Option, none, some, List, [], ◌∷◌, map,
  ◌==◌, ltb, leb, eqb, if◌then◌else◌, string_eq, pair_eq, length, filter, any, append,
}
use rag_stack_monorepo.Chat.{Ratio, contains_string, dedupe_ordered}
use rag_stack_monorepo.Chat.Ask.{ChatStatus}
use rag_stack_monorepo.Chat.Citations.{CitationView}
use rag_stack_monorepo.Evals.Types.{
  EvalRubricDimensionName, EvalRubricDimensionKind, EvalDimensionResult, EvalExecutionResult,
  EvalSelectedSource, EvalExpectedOutcome, status_name, automated, heuristic,
}
use rag_stack_monorepo.Evals.Rubric.{eval_grounded_score_weights, eval_refusal_score_weights}

pub record ScoreableEvalCase : Type 0 where
  pub question : String
  pub expected_answer : Option String
  pub expected_source_document_id : Option String
  pub expected_source_hint : Option String
  pub category : Option String

pub record ScoringTools : Type 0 where
  pub trim : String → String
  -- `length`
  pub size : String → ℕ
  -- the words of a text: `normalize`, `toLowerCase`, `replace`, `split` and `trim`
  pub words : String → List String
  -- the test by the regular expression of `looksLikeRefusal`
  pub looks_like_refusal : String → Bool
  -- `String`
  pub show : ℕ → String
  -- `toFixed(2)`
  pub to_fixed : Ratio → String
  -- the normal form of a category's name
  -- percent / 100 <= r, for the quotient as the language computes it
  pub reaches : Ratio → ℕ → Bool
  pub category_key : String → String
  -- getCitationLimit()
  pub citation_limit : ℕ

-- GROUNDABLE_EVIDENCE_SCORE_THRESHOLD, in millionths
abbrev pub groundable_evidence_score_threshold : ℕ
groundable_evidence_score_threshold = 200000

abbrev stop_words : List String
stop_words =
    "about" ∷ "after" ∷ "before" ∷ "from" ∷ "have" ∷ "into" ∷ "that" ∷ "their" ∷ "them" ∷ "they"
    ∷ "this" ∷ "what" ∷ "when" ∷ "where" ∷ "which" ∷ "while" ∷ "with" ∷ []

abbrev nought : Ratio
nought = record { part = 0; whole = 1 }

-- `score === n`
abbrev pub scored : Option ℕ → ℕ → Bool
scored none n = false
scored (some m) n = eqb m n

-- Math.max
abbrev pub larger : Ratio → Ratio → Ratio
larger a b = if ltb (a.part * b.whole) (b.part * a.whole) then b else a

abbrev lower : ℕ → ℕ → ℕ
lower a b = if ltb b a then b else a

abbrev or_empty : Option String → String
or_empty none = ""
or_empty (some s) = s

abbrev pub size_is_nought : {A : Type 0} → List A → Bool
size_is_nought [] = true
size_is_nought (x ∷ xs) = false

-- `[a, b, c].join(" ")`
abbrev join_three : String → String → String → String
join_three a b c = append a (append " " (append b (append " " c)))

-- `join(" ")`
unfoldable pub join_all : List String → String
join_all [] = ""
join_all (s ∷ []) = s
join_all (s ∷ t ∷ rest) = append s (append " " (join_all (t ∷ rest)))

unfoldable pub dimension_result :
    EvalRubricDimensionName → EvalRubricDimensionKind → ℕ → ℕ → ℕ → String → EvalDimensionResult
dimension_result name kind score max_score pass_score notes = record {
  name = name;
  kind = kind;
  applicable = true;
  score = some score;
  max_score = max_score;
  passed = some (leb pass_score score);
  notes = notes;
}

unfoldable pub not_applicable_dimension :
    EvalRubricDimensionName → EvalRubricDimensionKind → ℕ → String → EvalDimensionResult
not_applicable_dimension name kind max_score notes = record {
  name = name;
  kind = kind;
  applicable = false;
  score = none;
  max_score = max_score;
  passed = none;
  notes = notes;
}

-- The weights are hundredths, and all scores but the first count by halves.
unfoldable pub weighted_grounded_score : ℕ → ℕ → ℕ → ℕ → ℕ → ℕ
weighted_grounded_score hit relevance groundedness usefulness integrity =
    eval_grounded_score_weights.retrieval_source_hit * 100 * hit
    + eval_grounded_score_weights.evidence_relevance * 50 * relevance
    + eval_grounded_score_weights.answer_groundedness * 50 * groundedness
    + eval_grounded_score_weights.answer_usefulness * 50 * usefulness
    + eval_grounded_score_weights.citation_integrity * 50 * integrity

unfoldable pub weighted_refusal_score : ℕ → ℕ → ℕ
weighted_refusal_score quality integrity =
    eval_refusal_score_weights.refusal_quality * 50 * quality
    + eval_refusal_score_weights.citation_integrity * 50 * integrity

unfoldable pub build_evidence_text : List EvalSelectedSource → String
unfolding join_all
build_evidence_text sources = join_all (
    map (λ (s : EvalSelectedSource). join_three s.document_title (or_empty s.section) s.snippet)
      sources)

unfoldable pub build_citation_text : List CitationView → String
unfolding join_all
build_citation_text citations = join_all (
    map (λ (c : CitationView). join_three c.document_title (or_empty c.section) c.snippet)
      citations)

-- The number of different strings.
unfoldable pub distinct_document_count : List String → ℕ
unfolding dedupe_ordered
distinct_document_count values = length (dedupe_ordered values)

abbrev pub cited_documents : List CitationView → List String
cited_documents = map (λ (c : CitationView). c.document_id)

abbrev pub from_document : String → EvalSelectedSource → Bool
from_document id s = s.document_id == id

abbrev pub cites_document : String → CitationView → Bool
cites_document id c = c.document_id == id

-- The source under a chunk's id: a later source takes the place of an earlier one.
unfoldable pub source_by_chunk : List EvalSelectedSource → String → Option EvalSelectedSource
source_by_chunk [] id = none
source_by_chunk (s ∷ ss) id = elim (source_by_chunk ss id) [
  | some found ↦ some found
  | none ↦ if s.chunk_id == id then some s else none
]

-- Whether a citation has the chunk of one before it, or one that was seen.
unfoldable pub repeats_chunk : List String → List CitationView → Bool
repeats_chunk seen [] = false
repeats_chunk seen (c ∷ cs) = elim (contains_string seen c.chunk_id) [
  | true ↦ true
  | false ↦ repeats_chunk (c.chunk_id ∷ seen) cs
]

-- No source has the citation's chunk, or the one that has it is of another document.
unfoldable pub untraceable : List EvalSelectedSource → CitationView → Bool
unfolding source_by_chunk
untraceable sources c = elim (source_by_chunk sources c.chunk_id) [
  | none ↦ true
  | some s ↦ not (s.document_id == c.document_id)
]

abbrev integrity : ℕ → String → EvalDimensionResult
integrity score notes =
    dimension_result EvalRubricDimensionName.citation_integrity automated score 2 2 notes

abbrev groundedness : ℕ → String → EvalDimensionResult
groundedness score notes =
    dimension_result EvalRubricDimensionName.answer_groundedness heuristic score 2 2 notes

abbrev quality : ℕ → String → EvalDimensionResult
quality score notes =
    dimension_result EvalRubricDimensionName.refusal_quality heuristic score 2 2 notes

unfoldable pub compute_groundedness : EvalExecutionResult → Bool → Option ℕ → EvalDimensionResult
unfolding dimension_result
compute_groundedness e source_hit citation_integrity_score =
    if not (status_name e.status == "grounded")
    then groundedness 0 (
        append "The model returned "
          (append (status_name e.status) " instead of a grounded answer."))
    else if size_is_nought e.citations
    then groundedness 0 "The answer was marked grounded but carried no citations."
    else if scored citation_integrity_score 2
        && (source_hit || leb groundable_evidence_score_threshold e.top_score)
    then groundedness 2 "The answer was grounded, cited, and backed by usable evidence strength."
    else groundedness 1
        "The answer was grounded with citations, but either evidence strength or citation integrity remained weak."

-- The share of the expected terms that are among the actual ones.
unfoldable pub coverage_of : List String → List String → Ratio
coverage_of [] _ = nought
coverage_of _ [] = nought
coverage_of actual expected = record {
  part = length (filter (contains_string actual) expected);
  whole = length expected;
}

-- Twice the shared terms over all terms is the harmonic mean of precision and recall; it is 0 where
-- nothing is shared.
unfoldable pub f1_of : List String → List String → Ratio
f1_of [] _ = nought
f1_of _ [] = nought
f1_of actual expected = record {
  part = 2 * length (filter (contains_string expected) actual);
  whole = length actual + length expected;
}

module _ (k : ScoringTools) where
  -- The words that count.
  abbrev pub significant_terms : String → List String
  significant_terms input =
      filter (λ token. not (contains_string stop_words token))
        (filter (λ token. leb 3 (k.size token)) (k.words input))

  unfoldable pub term_coverage : String → String → Ratio
  unfolding coverage_of
  term_coverage actual expected =
      coverage_of (significant_terms actual) (significant_terms expected)

  unfoldable pub lexical_f1 : String → String → Ratio
  unfolding f1_of dedupe_ordered
  lexical_f1 actual expected =
      f1_of (dedupe_ordered (significant_terms actual))
        (dedupe_ordered (significant_terms expected))

  -- `?.trim() ?? ""`, where the empty text counts as absent
  unfoldable pub trimmed : Option String → Option String
  trimmed none = none
  trimmed (some s) = let t = k.trim s in if t == "" then none else some t

  unfoldable pub compute_citation_integrity :
      EvalExpectedOutcome → EvalExecutionResult → EvalDimensionResult
  unfolding repeats_chunk untraceable dimension_result
  compute_citation_integrity EvalExpectedOutcome.refusal e =
      if size_is_nought e.citations
      then integrity 2 "Refusal carried no citations as expected."
      else integrity 0 "Refusal response should not include citations."
  compute_citation_integrity EvalExpectedOutcome.grounded_answer e =
      if size_is_nought e.citations
      then integrity 0 "Grounded answers must include citations."
      else if any (untraceable e.selected_sources) e.citations
      then integrity 0 "At least one citation did not map cleanly back to a retrieved source chunk."
      else if repeats_chunk [] e.citations || ltb k.citation_limit (length e.citations)
      then integrity 1
          "Citations were structurally valid, but they contained duplicates or exceeded the configured limit."
      else integrity 2 "Citations were present, unique, and traceable to retrieved evidence."

  unfoldable pub compute_refusal_quality :
      List ChatStatus → EvalExecutionResult → EvalDimensionResult
  unfolding dimension_result
  compute_refusal_quality expected e =
      if (status_name e.status == "grounded") || not (size_is_nought e.citations)
      then quality 0
          "The system returned a substantive answer or citations instead of refusing cleanly."
      else let matches = contains_string (map status_name expected) (status_name e.status) in
        if matches && (leb (k.size (k.trim e.answer)) 320 && k.looks_like_refusal e.answer)
        then quality 2 "The refusal mode, brevity, and wording were appropriate."
        else if matches
        then quality 1
            "The system refused, but the wording was verbose or not clearly refusal-shaped."
        else quality 1
            "The system refused without citations, but it used the wrong refusal mode for this case."
