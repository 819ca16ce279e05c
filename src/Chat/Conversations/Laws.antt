-- ===== src/Chat/Conversations/Laws.antt =====
-- The rows that services/api/src/chat/conversation-persistence.service.ts leaves in the database.
use rag_stack_monorepo.Prelude.{
  suc, String, ◌≡◌, refl, sym, ap, ◌∙◌, ◌↔◌, inl, inr, Bool, true, not, some, List, [], ◌∷◌, ◌++◌,
  map, arith, ◌==◌, eq_iff, eq_refl, eqb, if◌then◌else◌, Bool-cases, string_eq, pair_eq, length, In,
  All, In-filter, Distinct-all, All-In,
}
use rag_stack_monorepo.Exec.{
  HttpError, Result, ok, err, Exec, pure, transaction, or_throw, after_bind, after_gets,
  after_require, after_guard, transaction-eq-ok, replace_error, ◌>>=◌,
}
use rag_stack_monorepo.Prisma.{Prisma}
use rag_stack_monorepo.Schema.{Db, Conversation, Message, DocumentChunk}
use rag_stack_monorepo.Chat.{dedupe_ordered, contains_string}
use rag_stack_monorepo.Chat.Citations.{CitationView}
use rag_stack_monorepo.Chat.Conversations.{
  Outside, AssistantMessage, persistence_failed, to_citation, assistant_message, no_citations,
  touch_conversation, add_message, is_scoped, citation_chunk_ids, scoped_chunks, add_citations,
  write_assistant_message, create_assistant_message, ◌>>=◌,
}
use mathlib.Core.Path.{subst}

contains_string_iff : (xs : List String) (s : String) → (contains_string xs s ≡ true) ↔ In s xs
contains_string_iff [] s = (λ h. absurd (ground arith), λ m. absurd m)
contains_string_iff (x ∷ xs) s = ground (arith, contains_string_iff xs s, eq_iff x s)

In-dedupe_ordered : (xs : List String) (s : String) → In s xs → In s (dedupe_ordered xs)
unfolding dedupe_ordered
In-dedupe_ordered [] s m = m
In-dedupe_ordered (x ∷ xs) s m = elim (Bool-cases (x == s)) [
  | inl e ↦ inl (sym ((eq_iff x s).0 e))
  | inr n ↦ elim m [
    | inl e ↦ absurd (ground (arith, eq_iff x s))
    | inr q ↦
        inr (
          In-filter (λ y. not (x == y)) s (dedupe_ordered xs) (In-dedupe_ordered xs s q) (ap not n))
  ]
]

module _ {K R : Type 0} where
  length-keys : (xs : List (K × R)) → length (map (λ x. x.0) xs) ≡ length xs
  length-keys [] = refl
  length-keys (x ∷ xs) = ap suc (length-keys xs)

  In-keys : (xs : List (K × R)) (k : K) → In k (map (λ x. x.0) xs) → (r : R) × In (k, r) xs
  In-keys [] k m = absurd m
  In-keys ((j, r) ∷ xs) k (inl e) = (r, inl (ap (λ i. (i, r)) e))
  In-keys ((j, r) ∷ xs) k (inr m) = let rest = In-keys xs k m in (rest.0, inr rest.1)

In-map : {A : Type 0} (f : A → String) (xs : List A) (a : A) → In a xs → In (f a) (map f xs)
In-map f [] a m = m
In-map f (x ∷ xs) a (inl e) = inl (ap f e)
In-map f (x ∷ xs) a (inr m) = inr (In-map f xs a m)

module _ {S A : Type 0} (e : HttpError) (committed : Bool) (m : Exec S A) (s : S) where
  passed_through :
      {a : A} {t : S} → or_throw e (transaction committed m) s ≡ (ok a, t) → m s ≡ (ok a, t)
  passed_through h = transaction-eq-ok committed m s (go (transaction committed m s) h)
    where
      go : {a : A} {t : S} (r : Result A × S) → replace_error e r ≡ (ok a, t) → r ≡ (ok a, t)
      go (ok a, u) k = k
      go (err y, u) k = absurd (ground arith)

module _ (p : Prisma) (o : Outside) where
  -- The chunk is stored, in the knowledge base.
  abbrev pub InScope : String → Db p → CitationView → Type 0
  InScope kb_id db v =
      (c : DocumentChunk) × ((p.find_unique v.chunk_id db.chunks ≡ some c) × (c.kb_id ≡ kb_id))

  scoped_key :
      (kb_id : String) (ids : List String) (db : Db p) (k : String) (c : DocumentChunk)
      → In (k, c) (scoped_chunks p o kb_id ids db)
      → (p.find_unique k db.chunks ≡ some c) × (In k ids × (c.kb_id ≡ kb_id))
  unfolding scoped_chunks
  scoped_key kb_id ids db k c m =
      let (found, good) = (p.find_many_iff (λ _. 0) (is_scoped p o ids kb_id) db.chunks k c).0 m in
      ground (arith, found, good, contains_string_iff ids k, eq_iff c.kb_id kb_id)

  -- As many chunks in scope as there are ids: every id is in scope.
  counted :
      (kb_id : String) (ids : List String) (db : Db p) (k : String)
      → eqb (length (scoped_chunks p o kb_id ids db)) (length ids) ≡ true
      → In k ids
      → (c : DocumentChunk) × ((p.find_unique k db.chunks ≡ some c) × (c.kb_id ≡ kb_id))
  unfolding scoped_chunks
  counted kb_id ids db k same m =
      let keys = map (λ x. x.0) (scoped_chunks p o kb_id ids db) in
      elim (Bool-cases (contains_string keys k)) [
        | inl e ↦
            let (c, at) =
              In-keys (scoped_chunks p o kb_id ids db) k ((contains_string_iff keys k).0 e) in
            let row = scoped_key kb_id ids db k c at in (c, (row.0, row.1.1))
        | inr n ↦ absurd (
            Distinct-all keys ids k
              (p.find_many-Distinct (λ _. 0) (is_scoped p o ids kb_id) db.chunks)
              (λ b q.
                let (c, at) = In-keys (scoped_chunks p o kb_id ids db) b q in
                (scoped_key kb_id ids db b c at).1.0)
              (ground (arith, length-keys (scoped_chunks p o kb_id ids db))) m
              (λ q. ground (arith, n, (contains_string_iff keys k).1 q)))
      ]

  -- What a written answer leaves behind.
  abbrev pub Written : AssistantMessage → Db p → Db p → Type 0
  Written a db db' =
      (c : Conversation) × ((p.find_unique a.conversation_id db.conversations ≡ some c)
        × (All (InScope c.kb_id db) a.citations
            × ((db'.citations ≡ map (to_citation o.new_message_id) a.citations ++ db.citations)
                × (p.find_unique o.new_message_id db'.messages ≡ some (assistant_message o a)))))

  -- The citations after `add_citations`, if the state before it has the chunks of `db`.
  added :
      (kb_id : String) (views : List CitationView) (db s t : Db p)
      → s.chunks ≡ db.chunks
      → add_citations p o kb_id views s ≡ (ok tt, t)
      → All (InScope kb_id db) views
        × ((t.citations ≡ map (to_citation o.new_message_id) views ++ s.citations)
            × (t.messages ≡ s.messages))
  unfolding add_citations
  added kb_id views db s t chunks h = after_gets _ _ s h λ scoped g k1.
      after_guard _ _ _ s k1 λ same k2. (
        All-In (InScope kb_id db) views (λ v m.
            let (c, (f, q)) =
              counted kb_id (citation_chunk_ids p o views) s v.chunk_id (rw g same) (
                unfold citation_chunk_ids in
                In-dedupe_ordered _ v.chunk_id (In-map (λ w. w.chunk_id) views v m)) in
            (c, (subst (λ x. p.find_unique v.chunk_id x ≡ some c) chunks f, q))),
        (
          ap (λ x. x.citations) (sym (ap (λ x. x.1) k2)),
          ap (λ x. x.messages) (sym (ap (λ x. x.1) k2)),
        ),
      )

  -- The two branches of the `if` on the citations.
  cited :
      (kb_id : String) (views : List CitationView) (db s t : Db p)
      → s.chunks ≡ db.chunks
      → (if no_citations views then pure tt else add_citations p o kb_id views) s ≡ (ok tt, t)
      → All (InScope kb_id db) views
        × ((t.citations ≡ map (to_citation o.new_message_id) views ++ s.citations)
            × (t.messages ≡ s.messages))
  cited kb_id [] db s t chunks h = (
    tt,
    (ap (λ x. x.citations) (sym (ap (λ x. x.1) h)), ap (λ x. x.messages) (sym (ap (λ x. x.1) h))),
  )
  cited kb_id (v ∷ vs) db s t chunks h = added kb_id (v ∷ vs) db s t chunks h

  touched :
      (id : String) (s t : Db p)
      → touch_conversation p o id s ≡ (ok tt, t)
      → (t.citations ≡ s.citations) × (t.messages ≡ s.messages)
  unfolding touch_conversation
  touched id s t h = after_gets _ _ s h λ found g k1. after_require _ _ _ s k1 λ c f k2. (
    ap (λ x. x.citations) (sym (ap (λ x. x.1) k2)),
    ap (λ x. x.messages) (sym (ap (λ x. x.1) k2)),
  )

  message_added :
      (m : Message) (s t : Db p)
      → add_message p o m s ≡ (ok tt, t)
      → t ≡ record s { messages = p.put o.new_message_id m s.messages }
  unfolding add_message
  message_added m s t h = sym (ap (λ x. x.1) h)

  written :
      (a : AssistantMessage) (db db' : Db p) (r : String × Message)
      → write_assistant_message p o a db ≡ (ok r, db')
      → Written a db db'
  unfolding write_assistant_message
  written a db db' r h = after_gets _ _ db h λ found g k1. after_require _ _ _ db k1 λ c f k2.
      after_bind (add_message p o (assistant_message o a)) _ db k2 λ _ s e1 k3.
        after_bind
          (if no_citations a.citations then pure tt else add_citations p o c.kb_id a.citations) _ s
          k3
          λ _ t e2 k4. after_bind (touch_conversation p o a.conversation_id) _ t k4 λ _ u e3 k5.
            let put = message_added (assistant_message o a) db s e1 in
            let (scoped, (cites, messages)) =
              cited c.kb_id a.citations db s t (ap (λ x. x.chunks) put) e2 in
            let (cites', messages') = touched a.conversation_id t u e3 in
            let last = ap (λ x. x.1) k5 in
            (
              c,
              (
                g ∙ f,
                (
                  scoped,
                  (
                    ap (λ x. x.citations) (sym last)
                        ∙ cites'
                        ∙ cites
                        ∙ ap (λ x. map (to_citation o.new_message_id) a.citations ++ x)
                            (ap (λ x. x.citations) put),
                    ap (λ x. p.find_unique o.new_message_id x)
                          (ap (λ x. x.messages) (sym last)
                            ∙ messages'
                            ∙ messages
                            ∙ ap (λ x. x.messages) put)
                        ∙ ground (
                          arith,
                          p.find_unique-put o.new_message_id o.new_message_id
                              (assistant_message o a) db.messages,
                          eq_refl o.new_message_id,
                        ),
                  ),
                ),
              ),
            )

  -- If storing an answer succeeds, the conversation exists, every cited chunk is a stored chunk of
  -- the conversation's knowledge base, the message is stored under the new identifier, and a row
  -- is added for each citation.
  pub create_assistant_message-Written :
      (a : AssistantMessage) (db db' : Db p) (r : String × Message)
      → create_assistant_message p o a db ≡ (ok r, db')
      → Written a db db'
  unfolding create_assistant_message
  create_assistant_message-Written a db db' r h =
      written a db db' r
        (passed_through persistence_failed o.commits (write_assistant_message p o a) db h)

  -- The conversation is stored, and each citation is of a stored chunk of its knowledge base.
  abbrev pub Storable : AssistantMessage → Db p → Type 0
  Storable a db =
      (c : Conversation) × ((p.find_unique a.conversation_id db.conversations ≡ some c)
        × All (InScope c.kb_id db) a.citations)

  -- The transaction commits, and the answer can be stored.
  abbrev pub Stores : AssistantMessage → Db p → Type 0
  Stores a db = (o.commits ≡ true) × Storable a db
