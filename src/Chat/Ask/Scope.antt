-- ===== src/Chat/Ask/Scope.antt =====
-- The knowledge base that `ask` of services/api/src/chat/chat.service.ts answers from.
use rag_stack_monorepo.Prelude.{
  String, ◌≡◌, refl, sym, ap, ◌∙◌, ◌⊎◌, inl, inr, true, false, not, Option, some, none, List, arith,
  eq_iff, ◌==◌, Option-cases, is_some, truthy, string_eq, pair_eq, All, All-map, find-eq-none,
}
use rag_stack_monorepo.Exec.{ok, err, after_bind, after_gets, HttpError, Result}
use rag_stack_monorepo.Prisma.{Prisma}
use rag_stack_monorepo.Schema.{Db, Conversation, KnowledgeBase}
use rag_stack_monorepo.Authorization.Roles.{AuthenticatedUser, is_admin}
use rag_stack_monorepo.Authorization.Where.{is_active}
use rag_stack_monorepo.Authorization.Access.{assert_knowledge_base_read}
use rag_stack_monorepo.Authorization.Access.Laws.{assert_knowledge_base_read_lem}
use rag_stack_monorepo.Chat.{RetrievalCandidate}
use rag_stack_monorepo.Chat.Retrieval.{RetrievalResult}
use rag_stack_monorepo.Chat.Conversations.{
  Outside, get_accessible_conversation, ensure_conversation_for_ask,
}
use rag_stack_monorepo.Chat.Conversations.Reading.{
  accessible, require-eq-ok, truthy-eq-some, named_conversation,
}
use rag_stack_monorepo.Chat.Ask.{AskQuestionDto, resolve_kb_scope, stays_in_kb}
use mathlib.Core.Path.{subst}

-- Each of the chunks is of the knowledge base.
abbrev pub AllOf : String → List RetrievalCandidate → Type 0
AllOf kb_id = All (λ (c : RetrievalCandidate). c.kb_id ≡ kb_id)

none_found : {A : Type 0} (o : Option A) → not (is_some o) ≡ true → o ≡ none
none_found none h = refl
none_found (some a) h = absurd (ground arith)

pub stays_in_kb-AllOf :
    (kb_id : String) (r : RetrievalResult)
    → stays_in_kb kb_id r ≡ true
    → AllOf kb_id r.selected_chunks
unfolding stays_in_kb
stays_in_kb-AllOf kb_id r h =
    All-map
      (λ (c : RetrievalCandidate) (e : not (c.kb_id == kb_id) ≡ false).
        ground (arith, eq_iff c.kb_id kb_id))
      r.selected_chunks
      (find-eq-none (λ (c : RetrievalCandidate). not (c.kb_id == kb_id)) r.selected_chunks
        (none_found _ h))

module _ (p : Prisma) (u : AuthenticatedUser) (dto : AskQuestionDto) where
  -- The knowledge base is the one that the request names, if it names one, and the one of the stored
  -- conversation that it names, if it names one; it is stored and active, and the user is an
  -- administrator or a member of it.
  pub record Scoped (db : Db p) (kb_id : String) : Type 0 where
    pub asked : (id : String) → truthy dto.kb_id ≡ some id → kb_id ≡ id
    pub continued :
        (id : String)
        → truthy dto.conversation_id ≡ some id
        → (c : Conversation) × ((p.find_unique id db.conversations ≡ some c) × (c.kb_id ≡ kb_id))
    pub stored :
        (kb : KnowledgeBase) × ((p.find_unique kb_id db.kbs ≡ some kb)
          × (is_active kb.status ≡ true))
    pub allowed :
        (is_admin (some u) ≡ true) ⊎ (is_some (p.find_unique (kb_id, u.id) db.members) ≡ true)

  some_inj : {A : Type 0} {a b : A} → some a ≡ some b → a ≡ b
  some_inj q = ground arith

  read_state :
      (id : String) (db s : Db p) (kb : String × KnowledgeBase)
      → assert_knowledge_base_read p u id db ≡ (ok kb, s)
      → s ≡ db
  unfolding assert_knowledge_base_read
  read_state id db s kb h = after_gets _ _ db h λ row g k. (require-eq-ok p u _ row db s kb k).1

  resolved_state :
      (db s : Db p) (kb : String × KnowledgeBase)
      → resolve_kb_scope p u dto db ≡ (ok kb, s)
      → s ≡ db
  unfolding resolve_kb_scope
  resolved_state db s kb h = elim (Option-cases (truthy dto.kb_id)) [
    | inr (id, f) ↦ read_state id db s kb (rw (resolve_kb_scope, f) at h)
    | inl n ↦ elim (Option-cases (truthy dto.conversation_id)) [
      | inl m ↦ absurd (failed (ap (λ x. x.0) (rw (resolve_kb_scope, n, m) at h)))
      | inr (id, f) ↦
          after_bind (get_accessible_conversation p u id) _ db (rw (resolve_kb_scope, n, f) at h)
            λ c t e k.
              read_state c.1.kb_id t s kb k
              ∙ (accessible p u id db t c (truthy-eq-some p u dto.conversation_id id f) e).1.1
    ]
  ]
    where
      failed : {A : Type 0} {a : A} {e : HttpError} → ◌≡◌ {A = Result A} (err e) (ok a) → ⊥
      failed q = ground arith

  -- A scope that was resolved, and let in the question.
  pub resolve_kb_scope-Scoped :
      (o : Outside) (db s t : Db p) (kb : String × KnowledgeBase)
      (conversation : String × Conversation)
      → resolve_kb_scope p u dto db ≡ (ok kb, s)
      → ensure_conversation_for_ask p o u kb.0 dto.conversation_id dto.question s
        ≡ (ok conversation, t)
      → Scoped db kb.0
  unfolding resolve_kb_scope
  resolve_kb_scope-Scoped o db s t kb conversation h e =
      let same = resolved_state db s kb h in
      let continues : (id : String)
          → truthy dto.conversation_id ≡ some id
          → (c : Conversation) × ((p.find_unique id db.conversations ≡ some c) × (c.kb_id ≡ kb.0)) =
        λ id f.
          subst
            (λ (d : Db p).
              (c : Conversation) × ((p.find_unique id d.conversations ≡ some c) × (c.kb_id ≡ kb.0)))
            same
            (named_conversation p u o kb.0 dto.question dto.conversation_id id s t conversation f
              e) in
      elim (Option-cases (truthy dto.kb_id)) [
        | inr (id, f) ↦
            let (named, (row, access)) =
              assert_knowledge_base_read_lem p u id (truthy-eq-some p u dto.kb_id id f) db s kb
                (rw (resolve_kb_scope, f) at h) in
            record {
              asked = λ j g. named ∙ some_inj (sym f ∙ g);
              continued = continues;
              stored = (
                kb.1,
                (subst (λ j. p.find_unique j db.kbs ≡ some kb.1) (sym named) row.0, row.1),
              );
              allowed =
                  subst
                    (λ j.
                      (is_admin (some u) ≡ true)
                      ⊎ (is_some (p.find_unique (j, u.id) db.members) ≡ true))
                    (sym named) access;
            }
        | inl n ↦ elim (Option-cases (truthy dto.conversation_id)) [
          | inl m ↦ absurd (failed (ap (λ x. x.0) (rw (resolve_kb_scope, n, m) at h)))
          | inr (id, f) ↦
              after_bind (get_accessible_conversation p u id) _ db
                (rw (resolve_kb_scope, n, f) at h)
                λ c v ec k.
                  let ((named, found), (reads, kept)) =
                    accessible p u id db v c (truthy-eq-some p u dto.conversation_id id f) ec in
                  let (c', (found', own)) = continues id f in
                  let kb_same : c.1.kb_id ≡ kb.0 =
                    ap (λ (x : Conversation). x.kb_id) (some_inj (sym found ∙ found')) ∙ own in
                  let (open_, owns) =
                    subst
                      (λ j.
                        ((x : KnowledgeBase) × ((p.find_unique j db.kbs ≡ some x)
                            × (is_active x.status ≡ true)))
                        × ((is_admin (some u) ≡ true)
                            ⊎ ((c.1.user_id ≡ u.id)
                                × (is_some (p.find_unique (j, u.id) db.members) ≡ true))))
                      kb_same reads in
                  record {
                    asked = λ j g. absurd (neither (sym n ∙ g));
                    continued = continues;
                    stored = open_;
                    allowed = elim owns [ inl a ↦ inl a | inr b ↦ inr b.1 ];
                  }
        ]
      ]
    where
      failed : {A : Type 0} {a : A} {x : HttpError} → ◌≡◌ {A = Result A} (err x) (ok a) → ⊥
      failed q = ground arith

      neither : {A : Type 0} {a : A} → ◌≡◌ {A = Option A} none (some a) → ⊥
      neither q = ground arith
