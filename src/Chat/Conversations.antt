-- ===== src/Chat/Conversations.antt =====
-- services/api/src/chat/conversation-persistence.service.ts: reading conversations and writing
-- their messages. Log lines are left out, and so are `usageJson` and `retrievalMetaJson` of a
-- message. String functions of the language, the clock and fresh identifiers are parameters.
pub mod Laws
pub mod Reading
use rag_stack_monorepo.Prelude.{
  ℕ, ◌+◌, min, max, String, refl, Bool, true, false, not, ◌&&◌, Option, none, some, List, [], ◌∷◌,
  ◌++◌, map, arith, ◌==◌, eq_iff, eq_refl, ltb, eqb, if◌then◌else◌, truthy, string_eq, pair_eq,
  length, filter, take, append, reverse,
}
use rag_stack_monorepo.Exec.{
  HttpError, bad_request, not_found, unavailable, fault, Exec, pure, gets, require, transaction,
  modify, guard, ◌>>=◌, ◌>>◌, or_throw,
}
use rag_stack_monorepo.Prisma.{Prisma, find_first}
use rag_stack_monorepo.Schema.{Db, Conversation, Message, MessageRole, DocumentChunk, Citation}
use rag_stack_monorepo.Authorization.Roles.{AuthenticatedUser}
use rag_stack_monorepo.Authorization.Where.{build_conversation_read_where, conversation_matches}
use rag_stack_monorepo.Chat.{dedupe_ordered, contains_string}
use rag_stack_monorepo.Chat.Citations.{CitationView}

-- The functions on strings, and what a request finds outside: the clock, the identifiers that the
-- database makes, and whether a create succeeds and a transaction commits.
pub record Outside : Type 0 where
  -- `replace(/\s+/g, " ").trim()`
  pub collapse : String → String
  pub string_length : String → ℕ
  -- `slice(0, n)`
  pub slice : ℕ → String → String
  pub now : ℕ
  pub new_conversation_id : String
  pub new_message_id : String
  pub creates : Bool
  pub commits : Bool

pub record MessageView : Type 0 where
  pub id : String
  pub message : Message
  pub citations : List Citation

pub record AssistantMessage : Type 0 where
  pub conversation_id : String
  pub answer : String
  pub citations : List CitationView
  pub latency_ms : ℕ
  pub model_name : String

abbrev pub persistence_failed : HttpError
persistence_failed = unavailable "Conversation persistence failed"

unfoldable pub build_conversation_title : Outside → String → String
build_conversation_title o question =
    let trimmed = o.collapse question in
    if ltb 80 (o.string_length trimmed) then append (o.slice 77 trimmed) "..." else trimmed

unfoldable pub to_citation : String → CitationView → Citation
to_citation message_id v = record {
  message_id = message_id;
  chunk_id = v.chunk_id;
  document_id = v.document_id;
  document_title = v.document_title;
  rank = v.rank;
  score = v.score;
  snippet = v.snippet;
  page_number = v.page;
  section_title = v.section;
}

unfoldable pub user_message : Outside → String → String → Message
user_message o conversation_id question = record {
  conversation_id = conversation_id;
  role = MessageRole.user;
  content = question;
  model_name = none;
  latency_ms = none;
  created_at = o.now;
}

unfoldable pub assistant_message : Outside → AssistantMessage → Message
assistant_message o a = record {
  conversation_id = a.conversation_id;
  role = MessageRole.assistant;
  content = a.answer;
  model_name = some a.model_name;
  latency_ms = some a.latency_ms;
  created_at = o.now;
}

abbrev no_citations : List CitationView → Bool
no_citations [] = true
no_citations (_ ∷ _) = false

-- `orderBy: { rank: "asc" }`
abbrev insert_by_rank : Citation → List Citation → List Citation
insert_by_rank c [] = c ∷ []
insert_by_rank c (x ∷ xs) =
    let rest = insert_by_rank c xs in if ltb x.rank c.rank then x ∷ rest else c ∷ x ∷ xs

abbrev by_rank : List Citation → List Citation
by_rank [] = []
by_rank (c ∷ cs) = insert_by_rank c (by_rank cs)

module _ (p : Prisma) where
  abbrev pub unordered_conversations : Conversation → ℕ
  unordered_conversations _ = 0

  unfoldable pub get_accessible_conversation :
      AuthenticatedUser → String → Exec (Db p) (String × Conversation)
  unfolding build_conversation_read_where conversation_matches
  get_accessible_conversation u conversation_id = do
    found ← gets (λ db.
        find_first p unordered_conversations
          (conversation_matches p db (build_conversation_read_where u (some conversation_id)))
          db.conversations)
    require (not_found "Conversation not found") found

  abbrev in_kb : Option String → Conversation → Bool
  in_kb none c = true
  in_kb (some kb_id) c = c.kb_id == kb_id

  abbrev pub is_message_of : String → String → Message → Bool
  is_message_of conversation_id _ m = m.conversation_id == conversation_id

  -- `messages: { orderBy: { createdAt: "desc" }, take: 1 }`
  abbrev with_latest :
      Db p → String × Conversation → (String × Conversation) × Option (String × Message)
  with_latest db c = (c, find_first p (λ m. m.created_at) (is_message_of c.0) db.messages)

  unfoldable pub list_conversations :
      AuthenticatedUser
      → Option String
      → Exec (Db p) (List ((String × Conversation) × Option (String × Message)))
  unfolding build_conversation_read_where conversation_matches
  list_conversations u kb_id = gets (λ db. map (with_latest db) (
      p.find_many (λ c. c.last_activity_at)
        (λ id c.
          conversation_matches p db (build_conversation_read_where u none) id c
          && in_kb (truthy kb_id) c)
        db.conversations))

  -- the newest `Math.max(1, Math.min(limit, 100))` messages, the oldest of them first
  unfoldable pub load_conversation_messages : String → ℕ → Db p → List (String × Message)
  load_conversation_messages conversation_id limit db = reverse (
      take (max 1 (min limit 100))
        (p.find_many (λ m. m.created_at) (is_message_of conversation_id) db.messages))

  abbrev is_citation_of : String → Citation → Bool
  is_citation_of message_id c = c.message_id == message_id

  unfoldable pub to_message_view : Db p → String × Message → MessageView
  to_message_view db (id, m) = record {
    id = id;
    message = m;
    citations = by_rank (filter (is_citation_of id) db.citations);
  }

  unfoldable pub get_conversation_messages :
      AuthenticatedUser → String → ℕ → Exec (Db p) (List MessageView)
  unfolding load_conversation_messages to_message_view
  get_conversation_messages u conversation_id limit = do
    conversation ← get_accessible_conversation u conversation_id
    gets (λ db. map (to_message_view db) (load_conversation_messages conversation.0 limit db))

  unfoldable pub get_conversation_with_messages :
      AuthenticatedUser → String → ℕ → Exec (Db p) ((String × Conversation) × List MessageView)
  unfolding load_conversation_messages to_message_view
  get_conversation_with_messages u conversation_id limit = do
    conversation ← get_accessible_conversation u conversation_id
    gets (λ db. (
      conversation,
      map (to_message_view db) (load_conversation_messages conversation.0 limit db),
    ))

  unfoldable pub get_prompt_history : String → ℕ → Exec (Db p) (List (MessageRole × String))
  get_prompt_history conversation_id limit = gets (λ db.
      map (λ m. (m.1.role, m.1.content))
        (reverse (
          take limit
            (p.find_many (λ m. m.created_at) (is_message_of conversation_id) db.messages))))

  module _ (o : Outside) where
    abbrev create_conversation :
        AuthenticatedUser → String → String → Exec (Db p) (String × Conversation)
    create_conversation u kb_id question = do
      guard o.creates fault
      let c : Conversation = record {
        user_id = u.id;
        kb_id = kb_id;
        title = build_conversation_title o question;
        last_activity_at = o.now;
      }
      modify (λ db. record db { conversations = p.put o.new_conversation_id c db.conversations })
      pure (o.new_conversation_id, c)

    unfoldable pub ensure_conversation_for_ask :
        AuthenticatedUser → String → Option String → String → Exec (Db p) (String × Conversation)
    ensure_conversation_for_ask u kb_id conversation_id question = elim (truthy conversation_id) [
      | some id ↦ do
        conversation ← get_accessible_conversation u id
        guard (conversation.1.kb_id == kb_id)
            (bad_request "Conversation KB scope does not match request KB")
        pure conversation
      | none ↦ or_throw persistence_failed (create_conversation u kb_id question)
    ]

    -- `conversation.update`, which throws if the row is missing
    unfoldable pub touch_conversation : String → Exec (Db p) Unit
    touch_conversation id = do
      found ← gets (λ db. p.find_unique id db.conversations)
      conversation ← require fault found
      modify (λ db. record db {
        conversations =
            p.put id (record conversation { last_activity_at = o.now }) db.conversations;
      })

    unfoldable pub add_message : Message → Exec (Db p) Unit
    add_message m = modify (λ db. record db { messages = p.put o.new_message_id m db.messages })

    unfoldable pub create_user_message : String → String → Exec (Db p) (String × Message)
    create_user_message conversation_id question = or_throw persistence_failed (
        transaction o.commits (do
          add_message (user_message o conversation_id question)
          touch_conversation conversation_id
          pure (o.new_message_id, user_message o conversation_id question)))

    -- `where: { id: { in: ids }, kbId }`
    abbrev pub is_scoped : List String → String → String → DocumentChunk → Bool
    is_scoped ids kb_id id c = contains_string ids id && (c.kb_id == kb_id)

    unfoldable pub citation_chunk_ids : List CitationView → List String
    citation_chunk_ids views = dedupe_ordered (map (λ v. v.chunk_id) views)

    unfoldable pub scoped_chunks : String → List String → Db p → List (String × DocumentChunk)
    scoped_chunks kb_id ids db = p.find_many (λ _. 0) (is_scoped ids kb_id) db.chunks

    unfoldable pub add_citations : String → List CitationView → Exec (Db p) Unit
    unfolding scoped_chunks citation_chunk_ids
    add_citations kb_id views = do
      scoped ← gets (scoped_chunks kb_id (citation_chunk_ids views))
      guard (eqb (length scoped) (length (citation_chunk_ids views))) fault
      modify
          (λ db. record db { citations = map (to_citation o.new_message_id) views ++ db.citations })

    -- The transaction of `createAssistantMessage`.
    unfoldable pub write_assistant_message : AssistantMessage → Exec (Db p) (String × Message)
    write_assistant_message a = do
      found ← gets (λ db. p.find_unique a.conversation_id db.conversations)
      conversation ← require fault found
      add_message (assistant_message o a)
      if no_citations a.citations then pure tt else add_citations conversation.kb_id a.citations
      touch_conversation a.conversation_id
      pure (o.new_message_id, assistant_message o a)

    unfoldable pub create_assistant_message : AssistantMessage → Exec (Db p) (String × Message)
    unfolding write_assistant_message
    create_assistant_message a =
        or_throw persistence_failed (transaction o.commits (write_assistant_message a))
