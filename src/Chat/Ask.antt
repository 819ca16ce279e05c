-- ===== src/Chat/Ask.antt =====
-- services/api/src/chat/chat.service.ts: `ask`, from the question to the stored answer, without the
-- timings, the trace span, the metrics and the log lines. The model's answer, or the local one where
-- no model is configured, is the parameter `create_grounded_answer`.
pub mod Scope
pub mod Grounded
use rag_stack_monorepo.Prelude.{
  ℕ, ◌-◌, String, refl, Bool, true, false, not, ◌&&◌, ◌||◌, Option, none, some, List, [], ◌∷◌, map,
  arith, ◌==◌, eq_iff, eq_refl, ltb, leb, eqb, if◌then◌else◌, is_some, truthy, string_eq, pair_eq,
  length, filter, find,
}
use rag_stack_monorepo.Exec.{
  bad_request, unavailable, Result, ok, err, Exec, pure, throw, gets, lift, guard, ◌>>=◌, ◌>>◌,
}
use rag_stack_monorepo.Prisma.{Prisma, count}
use rag_stack_monorepo.Schema.{
  Db, KnowledgeBase, Conversation, MessageRole, Document, DocumentStatus, DocumentVersion,
  DocumentVersionStatus,
}
use rag_stack_monorepo.Authorization.Roles.{AuthenticatedUser, is_admin}
use rag_stack_monorepo.Authorization.Access.{assert_knowledge_base_read}
use rag_stack_monorepo.KnowledgeBases.{log_action}
use rag_stack_monorepo.Chat.{RetrievalCandidate, contains_string}
use rag_stack_monorepo.Chat.Retrieval.{
  ChatFilters, Searches, Limits, RetrievalResult, retrieve, document_ids_of, languages_of,
}
use rag_stack_monorepo.Chat.Citations.{CitationTools, CitationView, assemble}
use rag_stack_monorepo.Chat.Conversations.{
  Outside, get_accessible_conversation, get_prompt_history, ensure_conversation_for_ask,
  create_user_message, create_assistant_message,
}

pub data ChatStatus : Type 0 where
  grounded insufficient_data out_of_scope : ChatStatus

pub data EvidenceStrength : Type 0 where
  low medium high : EvidenceStrength

pub record AskQuestionDto : Type 0 where
  pub kb_id : Option String
  pub conversation_id : Option String
  pub question : String
  pub filters : Option ChatFilters

pub record ModelAnswer : Type 0 where
  pub status : ChatStatus
  pub answer : String
  pub used_chunk_ids : List String

-- An answer before it is stored.
pub record Outcome : Type 0 where
  pub status : ChatStatus
  pub answer : String
  pub citations : List CitationView

pub record ChatResponseView : Type 0 where
  pub conversation_id : String
  pub message_id : String
  pub outcome : Outcome

-- The services that `ask` calls, and the configuration.
pub record Services : Type 0 where
  pub searches : Searches
  pub limits : Limits
  pub max_grounding_chunks : ℕ
  pub citation_limit : ℕ
  pub prompt_history_limit : ℕ
  -- the tools for a normalized query and an answer
  pub citation_tools : String → String → CitationTools
  -- the question, the evidence, the history without system messages, and the chunks; there is none
  -- if the service fails
  pub create_grounded_answer :
      String → EvidenceStrength → List (MessageRole × String) → RetrievalResult → Option ModelAnswer
  pub model_name : String
  pub latency_ms : ℕ

-- topScore: the score of the first selected chunk, in millionths
unfoldable pub top_score : List RetrievalCandidate → ℕ
top_score [] = 0
top_score (c ∷ _) = c.hybrid_score

unfoldable pub resolve_evidence_strength : ℕ → EvidenceStrength
resolve_evidence_strength top =
    if leb 600000 top then high else if leb 200000 top then medium else low

unfoldable pub resolve_low_evidence_threshold : RetrievalResult → ℕ
resolve_low_evidence_threshold r = if not r.semantic_used && r.lexical_used then 20000 else 100000

abbrev none_selected : List RetrievalCandidate → Bool
none_selected [] = true
none_selected (_ ∷ _) = false

abbrev pub is_grounded : ChatStatus → Bool
is_grounded grounded = true
is_grounded insufficient_data = false
is_grounded out_of_scope = false

unfoldable pub finalize_answer : ChatStatus → String → List CitationView → Outcome
finalize_answer status answer citations =
    if is_grounded status && eqb (length citations) 0
    then record {
      status = insufficient_data;
      answer = "I could not assemble a citation-backed answer from the available sources.";
      citations = citations;
    }
    else record { status = status; answer = answer; citations = citations }

abbrev skipped : ChatStatus → String → Outcome
skipped status answer = record { status = status; answer = answer; citations = [] }

unfoldable pub assembled_citations : Services → RetrievalResult → ModelAnswer → List CitationView
unfolding assemble
assembled_citations s r a =
    if is_grounded a.status
    then (assemble (s.citation_tools r.normalized_query a.answer) s.citation_limit a.used_chunk_ids
        r.selected_chunks).citations
    else []

abbrev pub is_system : MessageRole → Bool
is_system MessageRole.system = true
is_system MessageRole.user = false
is_system MessageRole.assistant = false

-- The model's part, once there is enough evidence.
unfoldable pub generated :
    Services → String → List (MessageRole × String) → RetrievalResult → Result Outcome
unfolding top_score resolve_evidence_strength finalize_answer assembled_citations
generated s question history r =
    elim (s.create_grounded_answer question
      (resolve_evidence_strength (top_score r.selected_chunks))
      (filter (λ m. not (is_system m.0)) history) r) [
        | none ↦ err (unavailable "Answer generation failed")
        | some a ↦ ok (finalize_answer a.status a.answer (assembled_citations s r a))
      ]

abbrev pub nothing_indexed : String
nothing_indexed =
    "Tôi chưa có đủ thông tin được lập chỉ mục trong cơ sở kiến thức này để trả lời câu hỏi đó."

abbrev pub nothing_found : String
nothing_found =
    "Tôi không tìm thấy tài liệu hỗ trợ phù hợp nào trong cơ sở kiến thức đã chọn cho câu hỏi đó."

-- `!selectedChunks.length || topScore < lowEvidenceThreshold`
unfoldable pub too_little_evidence : RetrievalResult → Bool
unfolding top_score resolve_low_evidence_threshold
too_little_evidence r =
    none_selected r.selected_chunks
    || ltb (top_score r.selected_chunks) (resolve_low_evidence_threshold r)

-- The answer to a question, or that there is none to give.
unfoldable pub outcome_of :
    Services → String → ℕ → List (MessageRole × String) → RetrievalResult → Result Outcome
unfolding generated too_little_evidence
outcome_of s question indexed_chunk_count history r =
    if eqb indexed_chunk_count 0
    then ok (skipped insufficient_data nothing_indexed)
    else if too_little_evidence r
    then ok (skipped out_of_scope nothing_found)
    else generated s question history r

-- No selected chunk is of another knowledge base.
unfoldable pub stays_in_kb : String → RetrievalResult → Bool
stays_in_kb kb_id r =
    not (is_some (find (λ (c : RetrievalCandidate). not (c.kb_id == kb_id)) r.selected_chunks))

module _ (p : Prisma) where
  unfoldable pub resolve_kb_scope :
      AuthenticatedUser → AskQuestionDto → Exec (Db p) (String × KnowledgeBase)
  unfolding assert_knowledge_base_read get_accessible_conversation
  resolve_kb_scope u dto = elim (truthy dto.kb_id) [
    | some kb_id ↦ assert_knowledge_base_read p u kb_id
    | none ↦ elim (truthy dto.conversation_id) [
      | none ↦ throw (bad_request "kbId or conversationId is required")
      | some id ↦ do
        conversation ← get_accessible_conversation p u id
        assert_knowledge_base_read p u conversation.1.kb_id
    ]
  ]

  abbrev indexed_document : Option Document → Bool
  indexed_document none = false
  indexed_document (some d) = elim d.status [ DocumentStatus.indexed ↦ true | _ ↦ false ]

  abbrev indexed_version : Option DocumentVersion → Bool
  indexed_version none = false
  indexed_version (some v) = elim v.status [ DocumentVersionStatus.indexed ↦ true | _ ↦ false ]

  -- an `in` condition, which an empty list does not make
  abbrev allowed_by : List String → Option String → Bool
  allowed_by [] s = true
  allowed_by (x ∷ xs) none = false
  allowed_by (x ∷ xs) (some s) = contains_string (x ∷ xs) s

  unfoldable pub count_indexed_chunks : Services → String → Option ChatFilters → Db p → ℕ
  count_indexed_chunks s kb_id filters db =
      count p
        (λ _ c.
          (c.kb_id == kb_id)
          && (not (is_some c.superseded_at)
              && (indexed_document (p.find_unique c.document_id db.documents)
                  && (indexed_version (p.find_unique c.document_version_id db.versions)
                      && (allowed_by (document_ids_of filters) (some c.document_id)
                          && allowed_by (map s.searches.to_lower_case (languages_of filters))
                              c.language)))))
        db.chunks

  -- The outside at the user's message and at the answer: each has its own new identifier.
  module _ (o answering : Outside) (s : Services) where
    unfoldable pub persist_answer_outcome :
        AuthenticatedUser → String → String → Outcome → Exec (Db p) ChatResponseView
    persist_answer_outcome u kb_id conversation_id outcome = do
      message ← create_assistant_message p answering (record {
        conversation_id = conversation_id;
        answer = outcome.answer;
        citations = outcome.citations;
        latency_ms = s.latency_ms;
        model_name = s.model_name;
      })
      log_action p (record {
        actor_id = some u.id;
        action = "CHAT_ASK";
        entity_type = "Conversation";
        entity_id = conversation_id;
        kb_id = some kb_id;
      })
      pure (record { conversation_id = conversation_id; message_id = message.0; outcome = outcome })

    unfoldable pub retrieval_for : AuthenticatedUser → String → AskQuestionDto → RetrievalResult
    unfolding retrieve
    retrieval_for u kb_id dto = retrieve s.searches s.limits (record {
      kb_id = kb_id;
      user_id = u.id;
      is_admin = is_admin (some u);
      query = dto.question;
      filters = dto.filters;
      candidate_limit = none;
      grounding_limit = some s.max_grounding_chunks;
    })

    unfoldable pub ask : AuthenticatedUser → AskQuestionDto → Exec (Db p) ChatResponseView
    unfolding retrieval_for stays_in_kb outcome_of
    ask u dto = do
      kb ← resolve_kb_scope u dto
      conversation ← ensure_conversation_for_ask p o u kb.0 dto.conversation_id dto.question
      message ← create_user_message p o conversation.0 dto.question
      indexed ← gets (count_indexed_chunks s kb.0 dto.filters)
      guard (stays_in_kb kb.0 (retrieval_for u kb.0 dto))
          (unavailable "Retrieval integrity check failed")
      history ← get_prompt_history p conversation.0 s.prompt_history_limit
      outcome ← lift (outcome_of s dto.question indexed history (retrieval_for u kb.0 dto))
      persist_answer_outcome u kb.0 conversation.0 outcome
