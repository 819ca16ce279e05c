-- ===== src/Evals/Scoring/Grades.antt =====
-- services/api/src/evals/eval-scoring.service.ts: `computeSourceHit`, `computeEvidenceRelevance` and
-- `computeAnswerUsefulness`, which read the expectations of a case.
use rag_stack_monorepo.Prelude.{
  ℕ, min, String, Bool, true, false, not, ◌&&◌, ◌||◌, Option, none, some, ◌==◌, ltb, eqb,
  if◌then◌else◌, is_some, truthy, string_eq, pair_eq, any, append,
}
use rag_stack_monorepo.Chat.{Ratio}
use rag_stack_monorepo.Evals.Types.{
  EvalRubricDimensionName, EvalDimensionResult, EvalExecutionResult, automated, heuristic,
  status_name,
}
use rag_stack_monorepo.Evals.Scoring.{
  ScoringTools, ScoreableEvalCase, dimension_result, build_evidence_text, build_citation_text,
  distinct_document_count, cited_documents, from_document, cites_document, larger, size_is_nought,
  term_coverage, lexical_f1, trimmed, nought,
}

pub record SourceHit : Type 0 where
  pub source_hit : Bool
  pub expected_source_cited : Bool
  pub answer_target_coverage : Ratio
  pub dimension : EvalDimensionResult

pub record Usefulness : Type 0 where
  pub dimension : EvalDimensionResult
  pub score_signal : Ratio

-- A relevance before its grade is written down.
pub record Judgement : Type 0 where
  pub score : ℕ
  pub notes : String

abbrev relevance : ℕ → String → EvalDimensionResult
relevance score notes =
    dimension_result EvalRubricDimensionName.evidence_relevance heuristic score 2 1 notes

abbrev usefulness : ℕ → String → EvalDimensionResult
usefulness score notes =
    dimension_result EvalRubricDimensionName.answer_usefulness heuristic score 2 1 notes

abbrev judgement : ℕ → String → Judgement
judgement score notes = record { score = score; notes = notes }

-- Math.min(score, 1), and a sentence more
abbrev capped : Judgement → String → Judgement
capped j more = record { score = min j.score 1; notes = append j.notes more }

-- Too few documents are cited for a case that wants several.
unfoldable pub too_few_documents : Option ℕ → EvalExecutionResult → Bool
unfolding distinct_document_count
too_few_documents none e = false
too_few_documents (some n) e =
    not (eqb n 0) && ltb (distinct_document_count (cited_documents e.citations)) n

module _ (k : ScoringTools) where
  abbrev quoted : String → Ratio → String → String
  quoted before r after = append before (append (k.to_fixed r) after)

  abbrev coverage_in : String → Option String → Ratio
  coverage_in text none = nought
  coverage_in text (some target) = term_coverage k text target

  abbrev hint_met : EvalExecutionResult → Option String → Ratio → Bool
  hint_met e none coverage = not (size_is_nought e.selected_sources)
  hint_met e (some hint) coverage = k.reaches coverage 60

  abbrev hit_notes : Option String → Option String → Bool → Bool → Ratio → String
  hit_notes (some id) hint true true coverage = "Expected source was retrieved and cited."
  hit_notes (some id) hint true false coverage = "Expected source was retrieved but not cited."
  hit_notes (some id) hint false cited coverage =
      "Expected source document was not present in retrieved evidence."
  hit_notes none (some hint) true cited coverage =
      quoted "Retrieved evidence covered the source hint (coverage " coverage ")."
  hit_notes none (some hint) false cited coverage =
      quoted "Retrieved evidence did not cover the source hint strongly enough (coverage " coverage
        ")."
  hit_notes none none true cited coverage =
      "At least one source was retrieved, but no explicit source expectation was configured."
  hit_notes none none false cited coverage = "No evidence was retrieved."

  abbrev source_found : EvalExecutionResult → Option String → Option String → Ratio → Bool
  source_found e none hint coverage = hint_met e hint coverage
  source_found e (some id) hint coverage = any (from_document id) e.selected_sources

  abbrev source_cited : EvalExecutionResult → Option String → Bool
  source_cited e none = false
  source_cited e (some id) = any (cites_document id) e.citations

  unfoldable pub compute_source_hit : ScoreableEvalCase → EvalExecutionResult → SourceHit
  unfolding trimmed build_evidence_text term_coverage dimension_result
  compute_source_hit c e =
      let id = truthy c.expected_source_document_id in
      let hint = trimmed k c.expected_source_hint in
      let coverage = coverage_in (build_evidence_text e.selected_sources) hint in
      let hit = source_found e id hint coverage in
      let cited = source_cited e id in
      record {
        source_hit = hit;
        expected_source_cited = cited;
        answer_target_coverage = coverage;
        dimension =
            dimension_result EvalRubricDimensionName.retrieval_source_hit automated
              (if hit then 1 else 0) 1 1 (hit_notes id hint hit cited coverage);
      }

  abbrev target_of : Option String → Option String → Option String
  target_of (some answer) hint = some answer
  target_of none hint = hint

  abbrev judged : Option String → Bool → Bool → Ratio → Ratio → Judgement
  judged none hit review retrieved cited = judgement (if hit then 1 else 0) (
      if review
      then "No expected answer or hint was configured, so evidence relevance is capped at a partial heuristic score."
      else "Evidence relevance relied on source-hit only because no explicit answer target was configured.")
  judged (some target) hit review retrieved cited =
      let coverage = larger retrieved cited in
      if k.reaches coverage 55 && (hit || k.reaches cited 55)
      then judgement 2 (
          quoted "Retrieved or cited evidence aligned well with the expected target (coverage "
            coverage ").")
      else if k.reaches coverage 25 || hit
      then judgement 1 (
          quoted "Retrieved or cited evidence partially aligned with the expected target (coverage "
            coverage ").")
      else judgement 0 (
          quoted "Retrieved evidence looked weak against the expected target (coverage " coverage
            ").")

  abbrev limited_by_documents : Option ℕ → EvalExecutionResult → Judgement → Judgement
  limited_by_documents wanted e j =
      if not (size_is_nought e.citations) && too_few_documents wanted e
      then capped j " Multi-source synthesis expected at least 2 cited documents."
      else j

  abbrev limited_by_source : Bool → Option String → Bool → Judgement → Judgement
  limited_by_source wanted id cited j =
      if wanted && (is_some id && not cited)
      then capped j " The expected source was not cited in the final answer."
      else j

  unfoldable pub judge_evidence : ScoreableEvalCase → EvalExecutionResult → Bool → Bool → Judgement
  unfolding trimmed build_evidence_text build_citation_text term_coverage
  judge_evidence c e hit review =
      let target = target_of (trimmed k c.expected_answer) (trimmed k c.expected_source_hint) in
      judged target hit review (coverage_in (build_evidence_text e.selected_sources) target)
        (coverage_in (build_citation_text e.citations) target)

  unfoldable pub compute_evidence_relevance :
      ScoreableEvalCase
      → EvalExecutionResult
      → Bool
      → Bool
      → Bool
      → Option ℕ
      → Bool
      → EvalDimensionResult
  unfolding judge_evidence too_few_documents dimension_result
  compute_evidence_relevance c e hit cited review min_documents require_citation =
      if size_is_nought e.selected_sources
      then relevance 0 "No retrieved evidence was available to judge relevance."
      else let j =
          limited_by_source require_citation (truthy c.expected_source_document_id) cited
            (limited_by_documents min_documents e (judge_evidence c e hit review)) in
        relevance j.score j.notes

  abbrev matched : Ratio → EvalDimensionResult
  matched signal =
      if k.reaches signal 65
      then usefulness 2
          (quoted "The answer overlapped well with the expected target (score " signal ").")
      else if k.reaches signal 35
      then usefulness 1
          (quoted "The answer partially matched the expected target (score " signal ").")
      else usefulness 0
          (quoted "The answer overlapped weakly with the expected target (score " signal ").")

  abbrev f1_with : String → Option String → Ratio
  f1_with answer none = nought
  f1_with answer (some expected) = lexical_f1 k answer expected

  unfoldable pub compute_answer_usefulness : ScoreableEvalCase → EvalExecutionResult → Usefulness
  unfolding trimmed term_coverage lexical_f1 dimension_result
  compute_answer_usefulness c e =
      let answer = k.trim e.answer in
      if answer == ""
      then record { dimension = usefulness 0 "The answer body was empty."; score_signal = nought }
      else let expected = trimmed k c.expected_answer in
        let hint = trimmed k c.expected_source_hint in
        let signal = larger (f1_with answer expected) (coverage_in answer hint) in
        record {
          dimension =
              if is_some expected || is_some hint
              then matched signal
              else usefulness (if status_name e.status == "grounded" then 1 else 0)
                  "The answer may be useful, but no expected answer or hint was configured for automated correctness checking.";
          score_signal = signal;
        }
