-- ===== src/Evals/Execution.antt =====
-- services/api/src/evals/evals.service.ts: `executeCase`, which puts a case's question through
-- retrieval, the model and the citations, and `failed_execution`, what is recorded where that or the
-- scoring throws.
use rag_stack_monorepo.Prelude.{
  ℕ, String, Bool, true, false, not, ◌&&◌, ◌||◌, Option, none, some, List, [], ◌∷◌, map, ltb, eqb,
  if◌then◌else◌, string_eq, pair_eq, length, append,
}
use rag_stack_monorepo.Exec.{
  HttpError, bad_request, unauthorized, forbidden, not_found, conflict, internal, unavailable,
  fault, Result, ok, err,
}
use rag_stack_monorepo.Prisma.{Prisma}
use rag_stack_monorepo.Schema.{Db, EvalCase}
use rag_stack_monorepo.Chat.{RetrievalCandidate}
use rag_stack_monorepo.Chat.Retrieval.{RetrievalResult, retrieve}
use rag_stack_monorepo.Chat.Citations.{CitationView, assemble}
use rag_stack_monorepo.Chat.Ask.{
  ChatStatus, EvidenceStrength, ModelAnswer, Services, top_score, resolve_evidence_strength,
  stays_in_kb, is_grounded, count_indexed_chunks,
}
use rag_stack_monorepo.Evals.Types.{
  UsageView, EvalExecutionResult, EvalSelectedSource, EvalDimensionResult, EvalFailureReason,
  EvalRubricDimensionName, EvalRubricDimensionKind, EvalScoreResult, EvalCaseCategory,
  EvalExpectedOutcome,
}
use rag_stack_monorepo.Evals.Scoring.{ScoringTools, ScoreableEvalCase}
use rag_stack_monorepo.Evals.Scoring.Case.{score_case}

pub record EvalRetrievalConfig : Type 0 where
  pub candidate_limit : ℕ
  pub grounding_limit : ℕ

pub record EvalServices : Type 0 where
  pub chat : Services
  pub scoring : ScoringTools
  -- isConfigured
  pub is_configured : Bool
  -- getRetrievalCandidateLimit() and getRetrievalGroundingLimit()
  pub candidate_limit : ℕ
  pub grounding_limit : ℕ
  -- the model's answer to a question without history, with the tokens it took; there is none if the
  -- service fails
  pub create_grounded_answer :
      String → EvidenceStrength → RetrievalResult → Option (ModelAnswer × UsageView)
  -- toEvidenceSnippet
  pub to_evidence_snippet : String → String
  -- the milliseconds that a question takes
  pub latency_of : String → ℕ

-- LOW_EVIDENCE_SCORE_THRESHOLD, in millionths
abbrev low_evidence_score_threshold : ℕ
low_evidence_score_threshold = 100000

abbrev pub no_usage : UsageView
no_usage = record { input_tokens = 0; output_tokens = 0; total_tokens = 0 }

abbrev pub none_selected : List RetrievalCandidate → Bool
none_selected [] = true
none_selected (c ∷ cs) = false

abbrev pub message_of : HttpError → String
message_of (bad_request m) = m
message_of (unauthorized m) = m
message_of (forbidden m) = m
message_of (not_found m) = m
message_of (conflict m) = m
message_of (internal m) = m
message_of (unavailable m) = m
message_of fault = "unknown error"

module _ (s : EvalServices) where
  unfoldable pub selected_source : RetrievalCandidate → EvalSelectedSource
  selected_source c = record {
    chunk_id = c.chunk_id;
    document_id = c.document_id;
    document_title = c.document_title;
    score = c.hybrid_score;
    page = c.page_number;
    section = c.section_title;
    snippet = s.to_evidence_snippet c.content;
  }

  abbrev skipped : String → ChatStatus → String → ℕ → EvalExecutionResult
  skipped question status answer top = record {
    status = status;
    answer = answer;
    citations = [];
    usage = no_usage;
    latency_ms = s.latency_of question;
    selected_sources = [];
    top_score = top;
  }

  unfoldable pub eval_citations : RetrievalResult → ModelAnswer → List CitationView
  unfolding assemble
  eval_citations r a =
      if is_grounded a.status
      then (assemble (s.chat.citation_tools r.normalized_query a.answer) s.scoring.citation_limit
          a.used_chunk_ids r.selected_chunks).citations
      else []

  -- What is returned of the model's answer: without citations it is not a grounded one.
  unfoldable pub answered : String → RetrievalResult → ModelAnswer × UsageView → EvalExecutionResult
  unfolding eval_citations selected_source top_score
  answered question r (a, usage) =
      let citations = eval_citations r a in
      let uncited = is_grounded a.status && eqb (length citations) 0 in
      record {
        status = if uncited then ChatStatus.insufficient_data else a.status;
        answer =
            if uncited
            then "I could not assemble a citation-backed answer from the available sources."
            else a.answer;
        citations = citations;
        usage = usage;
        latency_ms = s.latency_of question;
        selected_sources = map selected_source r.selected_chunks;
        top_score = top_score r.selected_chunks;
      }

  unfoldable pub execute_on : String → String → ℕ → RetrievalResult → Result EvalExecutionResult
  unfolding top_score resolve_evidence_strength stays_in_kb answered
  execute_on question kb_id indexed r =
      let top = top_score r.selected_chunks in
      if not (stays_in_kb kb_id r)
      then err (unavailable "Retrieval integrity check failed")
      else if eqb indexed 0
      then ok (
          skipped question ChatStatus.insufficient_data
            "I do not have enough indexed information in this knowledge base to answer that yet."
            top)
      else if none_selected r.selected_chunks || ltb top low_evidence_score_threshold
      then ok (
          skipped question ChatStatus.out_of_scope
            "I could not find relevant support material in the selected knowledge base for that question."
            top)
      else elim (s.create_grounded_answer question (resolve_evidence_strength top) r) [
        | none ↦ err (unavailable "Eval answer generation failed")
        | some a ↦ ok (answered question r a)
      ]

  unfoldable pub eval_retrieval : String → String → EvalRetrievalConfig → String → RetrievalResult
  unfolding retrieve
  eval_retrieval actor_id kb_id config question = retrieve s.chat.searches s.chat.limits (record {
    kb_id = kb_id;
    user_id = actor_id;
    is_admin = true;
    query = question;
    filters = none;
    candidate_limit = some config.candidate_limit;
    grounding_limit = some config.grounding_limit;
  })

  abbrev failed_dimension :
      EvalRubricDimensionName → EvalRubricDimensionKind → ℕ → String → EvalDimensionResult
  failed_dimension name kind most notes = record {
    name = name;
    kind = kind;
    applicable = true;
    score = some 0;
    max_score = most;
    passed = some false;
    notes = notes;
  }

  abbrev failed_result : String → EvalExecutionResult
  failed_result question = skipped question ChatStatus.insufficient_data "" 0

  unfoldable pub failed_score : ℕ → String → EvalScoreResult
  failed_score latency message = record {
    rubric_version = "practical_v1";
    case_category = EvalCaseCategory.general;
    expected_outcome = EvalExpectedOutcome.grounded_answer;
    passed = false;
    score = 0;
    notes = append "Execution failed: " message;
    failure_reasons = EvalFailureReason.execution_failed ∷ [];
    dimensions = record {
      retrieval_source_hit =
          failed_dimension EvalRubricDimensionName.retrieval_source_hit
            EvalRubricDimensionKind.automated 1
            "Execution failed before retrieval scoring completed.";
      evidence_relevance =
          failed_dimension EvalRubricDimensionName.evidence_relevance
            EvalRubricDimensionKind.heuristic 2
            "Execution failed before evidence relevance could be judged.";
      answer_groundedness =
          failed_dimension EvalRubricDimensionName.answer_groundedness
            EvalRubricDimensionKind.heuristic 2
            "Execution failed before answer grounding could be judged.";
      answer_usefulness =
          failed_dimension EvalRubricDimensionName.answer_usefulness
            EvalRubricDimensionKind.heuristic 2
            "Execution failed before answer usefulness could be judged.";
      refusal_quality = record {
        name = EvalRubricDimensionName.refusal_quality;
        kind = EvalRubricDimensionKind.heuristic;
        applicable = false;
        score = none;
        max_score = 2;
        passed = none;
        notes = "Execution failed before refusal quality could be judged.";
      };
      citation_integrity =
          failed_dimension EvalRubricDimensionName.citation_integrity
            EvalRubricDimensionKind.automated 2
            "Execution failed before citation integrity could be judged.";
    };
    source_hit = false;
    evidence_relevant = false;
    grounded = false;
    useful = false;
    citation_integrity = false;
    correct_refusal = false;
    expected_source_cited = false;
    answer_match_score = 0;
    requires_human_review = true;
    secondary_metrics = record {
      latency_ms = latency;
      usage = no_usage;
      top_score = 0;
      citation_count = 0;
      retrieved_source_count = 0;
      distinct_retrieved_documents = 0;
      distinct_cited_documents = 0;
    };
  }

  abbrev scoreable : EvalCase → ScoreableEvalCase
  scoreable c = record {
    question = c.question;
    expected_answer = c.expected_answer;
    expected_source_document_id = c.expected_source_document_id;
    expected_source_hint = c.expected_source_hint;
    category = some c.category;
  }

  abbrev recorded_failure : EvalCase → String → EvalExecutionResult × EvalScoreResult
  recorded_failure c message =
      (failed_result c.question, failed_score (s.latency_of c.question) message)

  -- The try block of one case.
  unfoldable pub case_result :
      EvalCase → Result EvalExecutionResult → EvalExecutionResult × EvalScoreResult
  unfolding score_case failed_score
  case_result c (err e) = recorded_failure c (message_of e)
  case_result c (ok e) = elim (score_case s.scoring (scoreable c) e) [
    | some r ↦ (e, r)
    | none ↦ recorded_failure c "Cannot read properties of undefined (reading 'manualReviewOnly')"
  ]

module _ (p : Prisma) (s : EvalServices) where
  unfoldable pub execute_case :
      String → String → EvalCase → EvalRetrievalConfig → Db p → Result EvalExecutionResult
  unfolding eval_retrieval execute_on count_indexed_chunks
  execute_case actor_id kb_id c config db =
      execute_on s c.question kb_id (count_indexed_chunks p s.chat kb_id none db)
        (eval_retrieval s actor_id kb_id config c.question)
