-- ===== src/Chat/Conversations/Reading.antt =====
-- What conversation-persistence.service.ts lets a user read, and continue.
use rag_stack_monorepo.Prelude.{
  String, ◌≡◌, ◌≢◌, ◌⊎◌, inl, inr, true, false, some, arith, eq_iff, Bool-cases, Option-cases,
  is_some, string_eq, pair_eq, List, Option, ℕ, All, map, length, ◌∷◌, ◌≤◌, ap, ◌∙◌, suc, take, max,
  sym, min, All-reverse_onto, [], All-take, All-In, none, refl, length-reverse_onto, length-take-le,
  truthy, eq_refl, ◌==◌,
}
use rag_stack_monorepo.Prisma.{Prisma}
use rag_stack_monorepo.Schema.{Db, Conversation, KnowledgeBase, Message}
use rag_stack_monorepo.Authorization.Roles.{AuthenticatedUser, is_admin}
use rag_stack_monorepo.Authorization.Where.{
  build_conversation_read_where, conversation_matches, kb_matches, is_active,
}
use rag_stack_monorepo.Exec.{
  HttpError, ok, after_gets, require, Result, after_bind, ◌>>=◌, guard, bad_request, ◌>>◌, pure,
  after_guard,
}
use rag_stack_monorepo.Chat.Conversations.{
  get_accessible_conversation, MessageView, load_conversation_messages, get_conversation_messages,
  to_message_view, unordered_conversations, is_message_of, Outside, ensure_conversation_for_ask,
}
use rag_stack_monorepo.Prisma.Laws.{find_first_sound}
use mathlib.Core.Path.{subst, sym}

module _ (p : Prisma) (u : AuthenticatedUser) where
  -- The conversation is in an active knowledge base, and the user is an administrator, or owns the
  -- conversation and is a member of the knowledge base.
  abbrev pub Readable : Db p → Conversation → Type 0
  Readable db c =
      ((kb : KnowledgeBase) × ((p.find_unique c.kb_id db.kbs ≡ some kb)
          × (is_active kb.status ≡ true)))
      × ((is_admin (some u) ≡ true)
          ⊎ ((c.user_id ≡ u.id) × (is_some (p.find_unique (c.kb_id, u.id) db.members) ≡ true)))

  readable :
      (db : Db p) (id k : String) (c : Conversation)
      → id ≢ ""
      → conversation_matches p db (build_conversation_read_where u (some id)) k c ≡ true
      → (k ≡ id) × Readable db c
  unfolding conversation_matches build_conversation_read_where kb_matches
  readable db id k c given h = elim (Option-cases (p.find_unique c.kb_id db.kbs)) [
    | inl n ↦ absurd (ground (arith, n))
    | inr (kb, f) ↦ elim (Bool-cases (is_admin (some u))) [
      | inl a ↦ let facts = the_admin kb f a in (facts.0, ((kb, (f, facts.1)), inl a))
      | inr b ↦ let facts = the_user kb f b in (facts.0, ((kb, (f, facts.1.0)), inr facts.1.1))
    ]
  ]
    where
      the_admin :
          (kb : KnowledgeBase)
          → p.find_unique c.kb_id db.kbs ≡ some kb
          → is_admin (some u) ≡ true
          → (k ≡ id) × (is_active kb.status ≡ true)
      the_admin kb f a = ground (arith, eq_iff id "", eq_iff id k, h, f, a, given)

      the_user :
          (kb : KnowledgeBase)
          → p.find_unique c.kb_id db.kbs ≡ some kb
          → is_admin (some u) ≡ false
          → (k ≡ id)
            × ((is_active kb.status ≡ true)
                × ((c.user_id ≡ u.id)
                    × (is_some (p.find_unique (c.kb_id, u.id) db.members) ≡ true)))
      the_user kb f b =
          ground (arith, eq_iff id "", eq_iff id k, eq_iff u.id c.user_id, h, f, b, given)

  pub require-eq-ok :
      {S A : Type 0} (e : HttpError) (o : Option A) (s t : S) (a : A)
      → require e o s ≡ (ok a, t)
      → (o ≡ some a) × (t ≡ s)
  require-eq-ok e none s t a h = absurd (ground arith)
  require-eq-ok e (some b) s t a h = ground arith

  pub accessible :
      (id : String) (db s : Db p) (found : String × Conversation)
      → id ≢ ""
      → get_accessible_conversation p u id db ≡ (ok found, s)
      → ((found.0 ≡ id) × (p.find_unique id db.conversations ≡ some found.1))
        × (Readable db found.1 × (s ≡ db))
  unfolding get_accessible_conversation
  accessible id db s (k, c) given h = after_gets _ _ db h λ row g k1.
      let (f, same) = require-eq-ok _ row db s (k, c) k1 in
      let (stored, good) =
        find_first_sound p (unordered_conversations p)
          (conversation_matches p db (build_conversation_read_where u (some id))) db.conversations k
          c (g ∙ f) in
      let (named, reads) = readable db id k c given good in
      ((named, subst (λ j. p.find_unique j db.conversations ≡ some c) named stored), (reads, same))

  views-All :
      (P : MessageView → Type 0) (db : Db p) (rows : List (String × Message))
      → All (λ r. P (to_message_view p db r)) rows
      → All P (map (to_message_view p db) rows)
  views-All P db [] h = tt
  views-All P db (r ∷ rows) h = (h.0, views-All P db rows h.1)

  length-views :
      (db : Db p) (rows : List (String × Message))
      → length (map (to_message_view p db) rows) ≡ length rows
  length-views db [] = refl
  length-views db (r ∷ rows) = ap suc (length-views db rows)

  loaded :
      (id : String) (limit : ℕ) (db : Db p)
      → All (λ r. r.1.conversation_id ≡ id) (load_conversation_messages p id limit db)
        × (length (load_conversation_messages p id limit db) ≤ 100)
  unfolding load_conversation_messages
  loaded id limit db =
      let rows = p.find_many (λ m. m.created_at) (is_message_of p id) db.messages in
      let newest = take (max 1 (min limit 100)) rows in
      (
        All-reverse_onto (λ r. r.1.conversation_id ≡ id) [] newest tt
            (All-take (λ r. r.1.conversation_id ≡ id) (max 1 (min limit 100)) rows
              (All-In (λ r. r.1.conversation_id ≡ id) rows
                λ r m.
                  (eq_iff r.1.conversation_id id).0
                    ((p.find_many_iff (λ m. m.created_at) (is_message_of p id) db.messages r.0
                        r.1).0
                      m).1)),
        omega (arith, length-reverse_onto [] newest, length-take-le (max 1 (min limit 100)) rows),
      )

  -- What the request for a conversation's messages shows.
  abbrev pub Shown : String → Db p → List MessageView → Type 0
  Shown id db views =
      ((c : Conversation) × ((p.find_unique id db.conversations ≡ some c) × Readable db c))
      × (All (λ v. v.message.conversation_id ≡ id) views × (length views ≤ 100))

  -- If the request for the messages of a conversation, with an identifier that is not empty,
  -- succeeds, the conversation exists in an active knowledge base, and the user is an
  -- administrator or owns it as a member of that knowledge base; the answer holds messages of this
  -- conversation only, a hundred at most, whatever limit was asked for; and nothing has changed.
  pub get_conversation_messages_lem :
      (id : String) (limit : ℕ) (db db' : Db p) (views : List MessageView)
      → id ≢ ""
      → get_conversation_messages p u id limit db ≡ (ok views, db')
      → Shown id db views × (db' ≡ db)
  unfolding get_conversation_messages to_message_view
  get_conversation_messages_lem id limit db db' views given h =
      after_bind (get_accessible_conversation p u id) _ db h λ found s e1 k1.
        let ((named, stored), (reads, same)) = accessible id db s found given e1 in
        let (own, few) = loaded found.0 limit s in
        let rows = load_conversation_messages p found.0 limit s in
        let shown = ok_inj (ap (λ x. x.0) k1) in
        (
          (
            (found.1, (stored, reads)),
            (
              subst (All (λ v. v.message.conversation_id ≡ id)) shown (
                  views-All (λ v. v.message.conversation_id ≡ id) s rows
                    (subst (λ j. All (λ r. r.1.conversation_id ≡ j) rows) named own)),
              subst (λ vs. length vs ≤ 100) shown
                  (subst (λ n. n ≤ 100) (sym (length-views s rows)) few),
            ),
          ),
          sym (ap (λ x. x.1) k1) ∙ same,
        )
    where
      ok_inj : {A : Type 0} {a b : A} → ◌≡◌ {A = Result A} (ok a) (ok b) → a ≡ b
      ok_inj q = ground arith

  pub truthy-eq-some : (o : Option String) (s : String) → truthy o ≡ some s → s ≢ ""
  truthy-eq-some none s h = absurd (ground arith)
  truthy-eq-some (some r) s h = λ e. ground (arith, eq_iff r "", e, h)

  -- The conversation is of the knowledge base, stored, and the user's own or an administrator's to
  -- continue.
  abbrev pub Continues : String → Db p → String × Conversation → Type 0
  Continues kb_id db found =
      (found.1.kb_id ≡ kb_id)
      × ((p.find_unique found.0 db.conversations ≡ some found.1)
          × ((found.1.user_id ≡ u.id) ⊎ (is_admin (some u) ≡ true)))

  module _ (o : Outside) (kb_id question : String) where
    given_id :
        (id : String) (db db' : Db p) (found : String × Conversation)
        → id ≢ ""
        → (get_accessible_conversation p u id >>= λ conversation.
              guard
                (conversation.1.kb_id == kb_id)
                (bad_request "Conversation KB scope does not match request KB")
              >> pure conversation)
            db
          ≡ (ok found, db')
        → Continues kb_id db' found
    given_id id db db' found given h =
        after_bind (get_accessible_conversation p u id) _ db h λ c s e1 k1.
          after_guard _ _ _ s k1 λ same k2.
            let ((named, stored), ((kb, owns), kept)) = accessible id db s c given e1 in
            let last = ap (λ x. x.1) k2 in
            let shown = ok_pair (ap (λ x. x.0) k2) in
            subst (Continues kb_id db') shown (
              (eq_iff c.1.kb_id kb_id).0 same,
              (
                subst (λ d. p.find_unique c.0 d.conversations ≡ some c.1) (sym kept ∙ last)
                    (subst (λ j. p.find_unique j db.conversations ≡ some c.1) (sym named) stored),
                elim owns [ inl a ↦ inr a | inr b ↦ inl b.0 ],
              ),
            )
      where
        ok_pair : {A : Type 0} {a b : A} → ◌≡◌ {A = Result A} (ok a) (ok b) → a ≡ b
        ok_pair q = ground arith

    created :
        (db db' : Db p) (found : String × Conversation)
        → ensure_conversation_for_ask p o u kb_id none question db ≡ (ok found, db')
        → Continues kb_id db' found
    unfolding ensure_conversation_for_ask ◌>>=◌
    created db db' found h = elim (Bool-cases o.creates) [
      | inl c ↦ ground (
        arith,
        h,
        c,
        p.find_unique-put o.new_conversation_id o.new_conversation_id found.1 db.conversations,
        eq_refl o.new_conversation_id,
      )
      | inr n ↦ absurd (ground (arith, h, n))
    ]

    -- If a question is let into a conversation, be it the one that the request names or a new one,
    -- the conversation is stored and of the knowledge base that the request names, and it is the
    -- user's own, unless the user is an administrator.
    pub ensure_conversation_for_ask_lem :
        (conversation_id : Option String) (db db' : Db p) (found : String × Conversation)
        → ensure_conversation_for_ask p o u kb_id conversation_id question db ≡ (ok found, db')
        → Continues kb_id db' found
    unfolding ensure_conversation_for_ask
    ensure_conversation_for_ask_lem conversation_id db db' found h =
        elim (Option-cases (truthy conversation_id)) [
          | inl n ↦ created db db' found (rw (ensure_conversation_for_ask, n) at h)
          | inr (id, f) ↦
              given_id id db db' found (truthy-eq-some conversation_id id f)
                (rw (ensure_conversation_for_ask, f) at h)
        ]

    -- A question that names a conversation is let in only if that is stored, of the knowledge base.
    pub named_conversation :
        (conversation_id : Option String) (id : String) (db db' : Db p)
        (found : String × Conversation)
        → truthy conversation_id ≡ some id
        → ensure_conversation_for_ask p o u kb_id conversation_id question db ≡ (ok found, db')
        → (c : Conversation) × ((p.find_unique id db.conversations ≡ some c) × (c.kb_id ≡ kb_id))
    unfolding ensure_conversation_for_ask
    named_conversation conversation_id id db db' found f h =
        after_bind (get_accessible_conversation p u id) _ db
          (rw (ensure_conversation_for_ask, f) at h)
          λ c s e1 k1. after_guard _ _ _ s k1 λ same k2.
            let ((named, stored), rest) =
              accessible id db s c (truthy-eq-some conversation_id id f) e1 in
            (c.1, (stored, (eq_iff c.1.kb_id kb_id).0 same))
