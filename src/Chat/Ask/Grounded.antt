-- ===== src/Chat/Ask/Grounded.antt =====
-- The answers that `ask` of services/api/src/chat/chat.service.ts gives, and stores.
use rag_stack_monorepo.Prelude.{
  ℕ, suc, ◌<◌, String, ◌≡◌, refl, ap, ◌≢◌, ◌↔◌, ◌⊎◌, inl, inr, false, not, List, [], ◌∷◌, arith,
  eqb, Bool-cases, Option-cases, string_eq, pair_eq, length, filter, In, All, some, sym, ◌∙◌,
  All-map,
}
use rag_stack_monorepo.Exec.{HttpError, Result, ok, err, after_bind, after_gets, after_guard, lift}
use rag_stack_monorepo.Schema.{MessageRole, Db, Message, AuditLog}
use rag_stack_monorepo.Chat.{RetrievalCandidate}
use rag_stack_monorepo.Prisma.{Prisma}
use rag_stack_monorepo.Chat.Retrieval.{RetrievalResult}
use rag_stack_monorepo.Chat.Citations.{CitationView}
use rag_stack_monorepo.Chat.Citations.Laws.{assemble_lem}
use rag_stack_monorepo.Chat.Conversations.{AssistantMessage}
use rag_stack_monorepo.Chat.Ask.{
  ChatStatus, grounded, insufficient_data, out_of_scope, ModelAnswer, Outcome, Services,
  finalize_answer, assembled_citations, generated, outcome_of, top_score, resolve_evidence_strength,
  is_grounded, is_system, too_little_evidence, nothing_indexed, nothing_found, Outside,
  AuthenticatedUser, persist_answer_outcome, AskQuestionDto, ChatResponseView, retrieval_for,
  create_assistant_message, log_action, ask, resolve_kb_scope, ensure_conversation_for_ask,
  create_user_message, get_prompt_history,
}
use rag_stack_monorepo.Chat.Ask.Scope.{AllOf, Scoped, resolve_kb_scope-Scoped, stays_in_kb-AllOf}
use mathlib.Core.Path.{subst, sym}
use rag_stack_monorepo.Chat.Conversations.{
  Outside, assistant_message, AssistantMessage, create_assistant_message,
  ensure_conversation_for_ask, create_user_message, get_prompt_history,
}
use rag_stack_monorepo.Authorization.Roles.{AuthenticatedUser}
use rag_stack_monorepo.KnowledgeBases.{log_action}
use rag_stack_monorepo.Chat.Conversations.Laws.{create_assistant_message-Written}

-- The citation is of one of the chunks.
abbrev pub OfChunks : List RetrievalCandidate → CitationView → Type 0
OfChunks chunks v = (c : RetrievalCandidate) × (In c chunks × (c.chunk_id ≡ v.chunk_id))

-- An answer is called grounded exactly if it has citations, and they are of the chunks.
abbrev pub Honest : List RetrievalCandidate → Outcome → Type 0
Honest chunks out =
    ((out.status ≡ grounded) ↔ (0 < length out.citations)) × All (OfChunks chunks) out.citations

status_cases : (st : ChatStatus) → (st ≡ grounded) ⊎ (is_grounded st ≡ false)
status_cases grounded = inl refl
status_cases insufficient_data = inr refl
status_cases out_of_scope = inr refl

not_grounded : (st : ChatStatus) → is_grounded st ≡ false → st ≢ grounded
not_grounded st h e = ground (arith, ap is_grounded e)

ok_inj : {A : Type 0} {a b : A} → ◌≡◌ {A = Result A} (ok a) (ok b) → a ≡ b
ok_inj q = ground arith

err_not_ok : {A : Type 0} {a : A} {e : HttpError} → ◌≢◌ {A = Result A} (err e) (ok a)
err_not_ok q = ground arith

eqb-suc : (n : ℕ) → eqb (suc n) 0 ≡ false
eqb-suc n = ground arith

module _ (s : Services) where
  cited :
      (r : RetrievalResult) (a : ModelAnswer)
      → All (OfChunks r.selected_chunks) (assembled_citations s r a)
  unfolding assembled_citations
  cited r a = elim (status_cases a.status) [
    | inl e ↦
        rw (assembled_citations, e)
          (All-map (λ v h. h.1) _
            (assemble_lem (s.citation_tools r.normalized_query a.answer) s.citation_limit
              a.used_chunk_ids r.selected_chunks).0.0.0)
    | inr n ↦ rw (assembled_citations, n) tt
  ]

  none_cited :
      (r : RetrievalResult) (a : ModelAnswer)
      → is_grounded a.status ≡ false
      → assembled_citations s r a ≡ []
  unfolding assembled_citations
  none_cited r a n = rw (assembled_citations, n) refl

  finalized :
      (chunks : List RetrievalCandidate) (status : ChatStatus) (text : String)
      (views : List CitationView)
      → (is_grounded status ≡ false → views ≡ [])
      → All (OfChunks chunks) views
      → Honest chunks (finalize_answer status text views)
  unfolding finalize_answer
  finalized chunks grounded text [] h g = (ground arith, tt)
  finalized chunks grounded text (v ∷ vs) h g =
      rw (finalize_answer, eqb-suc (length vs)) (((λ e. omega arith), (λ e. refl)), g)
  finalized chunks insufficient_data text views h g =
      rw (h refl) ((λ e. absurd (ground arith), λ q. absurd (omega (arith, q))), tt)
  finalized chunks out_of_scope text views h g =
      rw (h refl) ((λ e. absurd (ground arith), λ q. absurd (omega (arith, q))), tt)

  generated-Honest :
      (question : String) (history : List (MessageRole × String)) (r : RetrievalResult)
      (out : Outcome)
      → generated s question history r ≡ ok out
      → Honest r.selected_chunks out
  unfolding generated
  generated-Honest question history r out h =
      elim (Option-cases (
        s.create_grounded_answer question (resolve_evidence_strength (top_score r.selected_chunks))
          (filter (λ m. not (is_system m.0)) history) r)) [
            | inl n ↦ absurd (err_not_ok (rw (generated, n) at h))
            | inr (a, f) ↦ subst (Honest r.selected_chunks) (ok_inj (rw (generated, f) at h)) (
                finalized r.selected_chunks a.status a.answer (assembled_citations s r a)
                  (none_cited r a) (cited r a))
          ]

  skipped-Honest :
      (chunks : List RetrievalCandidate) (status : ChatStatus) (text : String)
      → is_grounded status ≡ false
      → Honest chunks (record { status = status; answer = text; citations = [] })
  skipped-Honest chunks status text n =
      (((λ e. absurd (not_grounded status n e)), (λ q. absurd (omega (arith, q)))), tt)

  -- Whatever the model answers, an answer to a question is called grounded exactly if it has at
  -- least one citation, and its citations are of the retrieved chunks.
  pub outcome_of_lem :
      (question : String) (indexed : ℕ) (history : List (MessageRole × String))
      (r : RetrievalResult) (out : Outcome)
      → outcome_of s question indexed history r ≡ ok out
      → Honest r.selected_chunks out
  unfolding outcome_of generated
  outcome_of_lem question indexed history r out h = elim (Bool-cases (eqb indexed 0)) [
    | inl e ↦
        subst (Honest r.selected_chunks) (ok_inj (rw (outcome_of, e) at h))
          (skipped-Honest r.selected_chunks insufficient_data nothing_indexed refl)
    | inr n ↦ elim (Bool-cases (too_little_evidence r)) [
      | inl e ↦
          subst (Honest r.selected_chunks) (ok_inj (rw (outcome_of, n, e) at h))
            (skipped-Honest r.selected_chunks out_of_scope nothing_found refl)
      | inr m ↦ generated-Honest question history r out (rw (outcome_of, n, m) at h)
    ]
  ]

module _ (p : Prisma) (o answering : Outside) (s : Services) where
  -- What a question is answered with, from the knowledge base, and stored.
  abbrev pub Answered :
      AuthenticatedUser → AskQuestionDto → String → Db p → Db p → ChatResponseView → Type 0
  Answered u dto kb_id db db' view =
      (Scoped p u dto db kb_id
        × (Honest (retrieval_for p o answering s u kb_id dto).selected_chunks view.outcome
            × AllOf kb_id (retrieval_for p o answering s u kb_id dto).selected_chunks))
      × ((m : Message) × ((p.find_unique answering.new_message_id db'.messages ≡ some m)
            × ((m.conversation_id ≡ view.conversation_id) × (m.content ≡ view.outcome.answer))))

  abbrev stored_answer : String → Outcome → AssistantMessage
  stored_answer id out = record {
    conversation_id = id;
    answer = out.answer;
    citations = out.citations;
    latency_ms = s.latency_ms;
    model_name = s.model_name;
  }

  abbrev ask_entry : AuthenticatedUser → String → String → AuditLog
  ask_entry u kb_id conversation_id = record {
    actor_id = some u.id;
    action = "CHAT_ASK";
    entity_type = "Conversation";
    entity_id = conversation_id;
    kb_id = some kb_id;
  }

  persisted :
      (u : AuthenticatedUser) (kb_id conversation_id : String) (out : Outcome) (db db' : Db p)
      (view : ChatResponseView)
      → persist_answer_outcome p o answering s u kb_id conversation_id out db ≡ (ok view, db')
      → (out ≡ view.outcome)
        × ((m : Message) × ((p.find_unique answering.new_message_id db'.messages ≡ some m)
              × ((m.conversation_id ≡ view.conversation_id) × (m.content ≡ view.outcome.answer))))
  unfolding persist_answer_outcome assistant_message
  persisted u kb_id conversation_id out db db' view h =
      after_bind (create_assistant_message p answering (stored_answer conversation_id out)) _ db h
        λ r t e k.
          after_bind (log_action p (ask_entry u kb_id conversation_id)) _ t k λ _ v logged k2.
            let w =
              create_assistant_message-Written p answering (stored_answer conversation_id out) db t
                r e in
            let same = ok_inj (ap (λ x. x.0) k2) in
            let rows =
              ap (λ (d : Db p). p.find_unique answering.new_message_id d.messages)
                (sym (ap (λ x. x.1) k2) ∙ sym (ap (λ x. x.1) logged)) in
            (
              ap (λ (x : ChatResponseView). x.outcome) same,
              (
                assistant_message answering (stored_answer conversation_id out),
                (
                  rows ∙ w.1.1.1.1,
                  (
                    ap (λ (x : ChatResponseView). x.conversation_id) same,
                    ap (λ (x : ChatResponseView). x.outcome.answer) same,
                  ),
                ),
              ),
            )

  -- A question that is answered is answered from one knowledge base: it is the one that the request
  -- names, if it names one, and the one of the stored conversation that it names, if it names one;
  -- it is stored and active, and the user is an administrator or a member of it. Every chunk that was
  -- retrieved is of this knowledge base, the answer is called grounded exactly if it has citations,
  -- these are of the retrieved chunks, and the answer is stored as a message of the conversation.
  pub ask_lem :
      (u : AuthenticatedUser) (dto : AskQuestionDto) (db db' : Db p) (view : ChatResponseView)
      → ask p o answering s u dto db ≡ (ok view, db')
      → (kb_id : String) × Answered u dto kb_id db db' view
  unfolding ask
  ask_lem u dto db db' view h = after_bind (resolve_kb_scope p u dto) _ db h λ kb s1 e1 k1.
      after_bind (ensure_conversation_for_ask p o u kb.0 dto.conversation_id dto.question) _ s1 k1
        λ conversation s2 e2 k2.
          after_bind (create_user_message p o conversation.0 dto.question) _ s2 k2 λ m s3 e3 k3.
            after_gets _ _ s3 k3 λ indexed g k4. after_guard _ _ _ s3 k4 λ stays k5.
              after_bind (get_prompt_history p conversation.0 s.prompt_history_limit) _ s3 k5
                λ history s4 e4 k6.
                  after_bind
                    (lift (
                      outcome_of s dto.question indexed history
                        (retrieval_for p o answering s u kb.0 dto)))
                    _ s4 k6
                    λ out s5 e5 k7.
                      let (same, stored) = persisted u kb.0 conversation.0 out s5 db' view k7 in
                      (
                        kb.0,
                        (
                          (
                            resolve_kb_scope-Scoped p u dto o db s1 s2 kb conversation e1 e2,
                            (
                              subst
                                  (Honest
                                    (retrieval_for p o answering s u kb.0 dto).selected_chunks)
                                  same
                                  (outcome_of_lem s dto.question indexed history
                                    (retrieval_for p o answering s u kb.0 dto) out
                                    (ap (λ x. x.0) e5)),
                              stays_in_kb-AllOf kb.0 (retrieval_for p o answering s u kb.0 dto)
                                  stays,
                            ),
                          ),
                          stored,
                        ),
                      )
