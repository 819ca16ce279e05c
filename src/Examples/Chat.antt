-- ===== src/Examples/Chat.antt =====
-- The theorems on the chat at concrete inputs.
use rag_stack_monorepo.Prelude.{
  pair_beq, ℕ, ◌≤◌, max, String, ◌≡◌, refl, true, false, none, some, List, [], ◌∷◌, string_eq,
  pair_eq, length, All, map, ◌≢◌, eq_iff, Pairwise, Ranked, filter, ltb, ◌+◌,
}
use rag_stack_monorepo.Prisma.Lists.{list_prisma}
use rag_stack_monorepo.Schema.{Db}
use rag_stack_monorepo.Chat.{
  RetrievalCandidate, RetrievalSource, semantic, lexical, Texts, dedupe_ordered,
}
use rag_stack_monorepo.Chat.Dedup.{suppress_duplicates}
use rag_stack_monorepo.Chat.Dedup.Laws.{
  unmarked, has_rank, Apart, HasRank, Accounted, suppress_duplicates_lem,
}
use rag_stack_monorepo.Chat.Merge.{Scorer, merge_and_score}
use rag_stack_monorepo.Chat.Merge.Laws.{OtherChunk, NotBelow, HasRankBefore, merge_and_score_lem}
use rag_stack_monorepo.Chat.Retrieval.{Searches, Limits, RetrievalRequest, limits_for, retrieve}
use rag_stack_monorepo.Chat.Retrieval.Scope.{Selection, retrieve-Selection}
use rag_stack_monorepo.Chat.Citations.{CitationTools, requested_ids, assemble}
use rag_stack_monorepo.Chat.Citations.Laws.{Backed, OtherCited, HasCitationRank, assemble_lem}
use rag_stack_monorepo.Chat.Conversations.{
  Outside, AssistantMessage, assistant_message, create_assistant_message, write_assistant_message,
  add_message, touch_conversation, add_citations, scoped_chunks, citation_chunk_ids, MessageView,
  to_message_view, load_conversation_messages, get_conversation_messages,
  get_accessible_conversation, ensure_conversation_for_ask,
}
use rag_stack_monorepo.Chat.Conversations.Laws.{Written, create_assistant_message-Written}
use rag_stack_monorepo.Chat.Conversations.Reading.{
  Shown, Continues, get_conversation_messages_lem, ensure_conversation_for_ask_lem,
}
use rag_stack_monorepo.Authorization.Where.{conversation_matches, build_conversation_read_where}
use rag_stack_monorepo.Examples.{ann, running, world}

abbrev texts : Texts
texts = record {
  extract_matching_terms = λ s. s ∷ [];
  normalize_text_for_match = λ _. "";
  exceeds = λ a b. ltb (a + 100000) b;
}

abbrev chunk_in : String → String → ℕ → RetrievalSource → RetrievalCandidate
chunk_in kb_id id score source = record {
  chunk_id = id;
  document_id = "doc";
  document_title = "manual";
  document_version_id = "ver";
  kb_id = kb_id;
  chunk_no = 1;
  content = "text";
  search_text = "text";
  checksum = id;
  section_title = none;
  page_number = none;
  source_title = none;
  language = none;
  semantic_score = score;
  lexical_score = 0;
  recency_score = 0;
  metadata_score = 0;
  structural_score = 0;
  hybrid_score = score;
  semantic_rank = some 1;
  lexical_rank = none;
  indexed_at = none;
  debug = record {
    retrieved_by = source ∷ [];
    raw_semantic_distance = none;
    raw_semantic_similarity = none;
    raw_lexical_score = none;
    lexical_token_coverage = 0;
    lexical_phrase_coverage = 0;
    metadata_signals = [];
    structural_signals = [];
    selection_reason = "";
    rank_before_dedup = none;
    rank_after_dedup = none;
    dedup_reason = none;
  };
}

abbrev pub found : List RetrievalCandidate
found = chunk_in "kb" "c1" 300000 semantic ∷ chunk_in "kb" "c2" 500000 semantic ∷ []

abbrev matched : List RetrievalCandidate
matched = chunk_in "kb" "c1" 400000 lexical ∷ []

abbrev scorer : Scorer
scorer = record {
  scored = λ c. record {
    lexical_score = c.lexical_score;
    metadata_score = 0;
    recency_score = 0;
    structural_score = 0;
    hybrid_score = c.semantic_score;
    lexical_token_coverage = 0;
    lexical_phrase_coverage = 0;
    metadata_signals = [];
    structural_signals = [];
    selection_reason = "scored from available signals";
  };
  locale_after = λ _ _. false;
}

suppress_duplicates_lem_example :
    (Pairwise (Apart texts) (suppress_duplicates texts found).0
      × Ranked (HasRank texts) 1 (suppress_duplicates texts found).0)
    × ((map (unmarked texts) (suppress_duplicates texts found).1 ≡ map (unmarked texts) found)
        × (((suppress_duplicates texts found).0
              ≡ filter (has_rank texts) (suppress_duplicates texts found).1)
            × All
                (Accounted texts (suppress_duplicates texts found).0)
                (suppress_duplicates texts found).1))
suppress_duplicates_lem_example = suppress_duplicates_lem texts found

merge_and_score_lem_example :
    ((Pairwise OtherChunk (merge_and_score scorer found matched 24)
        × Pairwise NotBelow (merge_and_score scorer found matched 24))
      × Ranked HasRankBefore 1 (merge_and_score scorer found matched 24))
    × (length (merge_and_score scorer found matched 24) ≤ max 1 24)
merge_and_score_lem_example = merge_and_score_lem scorer found matched 24

abbrev pub searches : Searches
searches = record {
  texts = texts;
  to_lower_case = λ s. s;
  preprocess = λ q. record {
    raw_query = q;
    normalized_text = q;
    lexical_text = q;
    tokens = q ∷ [];
    phrases = [];
    freshness_intent = false;
    question_like = false;
  };
  scorer = λ _ _. scorer;
  create_query_embedding = λ _. some (1 ∷ []);
  fetch_semantic = λ _ kb_id _ _ _ _. chunk_in kb_id "c1" 300000 semantic ∷ [];
  fetch_lexical = λ _ kb_id _ _ _ _. chunk_in kb_id "c2" 400000 lexical ∷ [];
  fetch_semantic-kb = λ _ _ _ _ _ _. (refl, tt);
  fetch_lexical-kb = λ _ _ _ _ _ _. (refl, tt);
}

abbrev pub defaults : Limits
defaults = record {
  semantic_candidate_limit = 24;
  lexical_candidate_limit = 24;
  rerank_pool_limit = 24;
  grounding_limit = 6;
}

abbrev question : RetrievalRequest
question = record {
  kb_id = "kb";
  user_id = "ann";
  is_admin = false;
  query = "refunds";
  filters = none;
  candidate_limit = none;
  grounding_limit = some 3;
}

retrieve-Selection_example :
    Selection texts "kb"
      (limits_for defaults question).grounding_limit
      (retrieve searches defaults question).selected_chunks
retrieve-Selection_example = retrieve-Selection searches defaults question

abbrev pub tools : CitationTools
tools = record {
  texts = texts;
  trim = λ s. s;
  prepare = λ _. some (record {
    support_score = 500000;
    answer_coverage = 0;
    query_coverage = 0;
    snippet = "text";
  });
  locale_after = λ _ _. false;
}

abbrev used : List String
used = "c2" ∷ "c9" ∷ "c2" ∷ []

assemble_lem_example :
    ((All (Backed (requested_ids tools used) found) (assemble tools 3 used found).citations
        × Pairwise OtherCited (assemble tools 3 used found).citations)
      × Ranked HasCitationRank 1 (assemble tools 3 used found).citations)
    × (length (assemble tools 3 used found).citations ≤ 3)
assemble_lem_example = assemble_lem tools 3 used found

abbrev pub outside : Outside
outside = record {
  collapse = λ s. s;
  string_length = λ _. 1;
  slice = λ _ s. s;
  now = 40;
  new_conversation_id = "conv2";
  new_message_id = "msg";
  creates = true;
  commits = true;
}

-- The world with a conversation of ann and a chunk of the manual.
abbrev pub talking : Db list_prisma
talking = record world {
  conversations =
      ("conv", record { user_id = "ann"; kb_id = "kb"; title = "refunds"; last_activity_at = 30 })
      ∷ [];
  chunks =
      (
        "c2",
        record {
          kb_id = "kb";
          document_id = "doc";
          document_version_id = "ver";
          language = none;
          superseded_at = none;
        },
      )
      ∷ [];
}

abbrev answer_citing : String → AssistantMessage
answer_citing chunk_id = record {
  conversation_id = "conv";
  answer = "Within a month.";
  citations =
      record {
        rank = 1;
        score = 500000;
        chunk_id = chunk_id;
        document_id = "doc";
        document_title = "manual";
        snippet = "text";
        page = none;
        section = none;
      }
      ∷ [];
  latency_ms = 5;
  model_name = "model";
}

abbrev talked : Db list_prisma
talked = (create_assistant_message list_prisma outside (answer_citing "c2") talking).1

create_assistant_message-Written_example :
    Written list_prisma outside (answer_citing "c2") talking talked
unfolding running create_assistant_message write_assistant_message add_message touch_conversation
    add_citations scoped_chunks citation_chunk_ids dedupe_ordered assistant_message
create_assistant_message-Written_example =
    create_assistant_message-Written list_prisma outside (answer_citing "c2") talking talked
      ("msg", assistant_message outside (answer_citing "c2")) refl

-- What the request for the messages shows of a state.
abbrev messages_of : Db list_prisma → List MessageView
messages_of db =
    map (to_message_view list_prisma db) (load_conversation_messages list_prisma "conv" 20 db)

conv_given : ◌≢◌ {A = String} "conv" ""
conv_given e = cc ((eq_iff "conv" "").1 e)

get_conversation_messages_lem_example :
    Shown list_prisma ann "conv" talked (messages_of talked) × (talked ≡ talked)
unfolding running create_assistant_message write_assistant_message add_message touch_conversation
    add_citations scoped_chunks citation_chunk_ids dedupe_ordered assistant_message
    get_conversation_messages get_accessible_conversation load_conversation_messages to_message_view
    conversation_matches build_conversation_read_where pair_beq
get_conversation_messages_lem_example =
    get_conversation_messages_lem list_prisma ann "conv" 20 talked talked (messages_of talked)
      conv_given refl

ensure_conversation_for_ask_lem_example :
    Continues list_prisma ann "kb" talking
      ("conv", record { user_id = "ann"; kb_id = "kb"; title = "refunds"; last_activity_at = 30 })
unfolding running ensure_conversation_for_ask get_accessible_conversation conversation_matches
    build_conversation_read_where pair_beq
ensure_conversation_for_ask_lem_example =
    ensure_conversation_for_ask_lem list_prisma ann outside "kb" "How long?" (some "conv") talking
      talking _ refl
