-- ===== src/Examples/Ask.antt =====
-- A question that is answered with a citation.
use rag_stack_monorepo.Prelude.{String, refl, none, some, [], ◌∷◌, string_eq, pair_eq, pair_beq}
use rag_stack_monorepo.Prisma.Lists.{list_prisma}
use rag_stack_monorepo.Schema.{Db, DocumentStatus, DocumentVersionStatus}
use rag_stack_monorepo.Chat.Conversations.{
  Outside, ensure_conversation_for_ask, create_user_message, add_message, touch_conversation,
  get_prompt_history, create_assistant_message, add_citations,
}
use rag_stack_monorepo.Chat.Ask.{
  AskQuestionDto, ChatResponseView, grounded, Services, ask, resolve_kb_scope, count_indexed_chunks,
  persist_answer_outcome,
}
use rag_stack_monorepo.Chat.Ask.Grounded.{Answered, ask_lem}
use rag_stack_monorepo.Examples.{running, ann, manual, first_version}
use rag_stack_monorepo.Examples.Chat.{searches, defaults, tools, outside, talking}

abbrev pub services : Services
services = record {
  searches = searches;
  limits = defaults;
  max_grounding_chunks = 6;
  citation_limit = 3;
  prompt_history_limit = 6;
  citation_tools = λ _ _. tools;
  create_grounded_answer = λ _ _ _ _.
      some (record { status = grounded; answer = "Within a month."; used_chunk_ids = "c2" ∷ [] });
  model_name = "model";
  latency_ms = 5;
}

abbrev pub indexed_world : Db list_prisma
indexed_world = record talking {
  documents = ("doc", record manual { status = DocumentStatus.indexed }) ∷ [];
  versions = ("ver", record first_version { status = DocumentVersionStatus.indexed }) ∷ [];
}

abbrev answering : Outside
answering = record outside { new_message_id = "msg2" }

abbrev how_long : AskQuestionDto
how_long = record {
  kb_id = some "kb";
  conversation_id = some "conv";
  question = "How long?";
  filters = none;
}

abbrev answered_world : Db list_prisma
answered_world = (ask list_prisma outside answering services ann how_long indexed_world).1

abbrev response : ChatResponseView
response = record {
  conversation_id = "conv";
  message_id = "msg2";
  outcome = record {
    status = grounded;
    answer = "Within a month.";
    citations =
        record {
          rank = 1;
          score = 500000;
          chunk_id = "c2";
          document_id = "doc";
          document_title = "manual";
          snippet = "text";
          page = none;
          section = none;
        }
        ∷ [];
  };
}

ask_lem_example :
    (kb_id : String) × Answered list_prisma outside answering services ann how_long kb_id
      indexed_world answered_world response
unfolding running pair_beq ask resolve_kb_scope ensure_conversation_for_ask create_user_message
    add_message touch_conversation get_prompt_history count_indexed_chunks persist_answer_outcome
    create_assistant_message add_citations
ask_lem_example =
    ask_lem list_prisma outside answering services ann how_long indexed_world answered_world
      response refl
