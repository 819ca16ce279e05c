-- ===== src/Authorization/Where.antt =====
-- The `where` filters of AuthorizationService as data, and what they mean over the database: a
-- filter on a relation holds of a row if the related row is there.
use rag_stack_monorepo.Prelude.{
  Bool, true, false, Option, none, some, String, ◌==◌, if◌then◌else◌, ◌&&◌, string_eq, pair_eq,
  truthy, is_some,
}
use rag_stack_monorepo.Prisma.{Prisma}
use rag_stack_monorepo.Schema.{Db, KnowledgeBase, KbStatus, Document, Conversation}
use rag_stack_monorepo.Authorization.Roles.{AuthenticatedUser, is_admin}

-- `...(id ? { id } : {})` is `truthy id`: the empty string sets no condition.
-- Prisma.KnowledgeBaseWhereInput, with `status: "ACTIVE"` fixed and `members: { some: { userId } }`
pub record KbWhere : Type 0 where
  pub id : Option String
  pub member : Option String

-- Prisma.DocumentWhereInput
pub record DocumentWhere : Type 0 where
  pub id : Option String
  pub kb : KbWhere

-- Prisma.ConversationWhereInput
pub record ConversationWhere : Type 0 where
  pub id : Option String
  pub user_id : Option String
  pub kb : KbWhere

unfoldable pub build_knowledge_base_read_where : AuthenticatedUser → Option String → KbWhere
build_knowledge_base_read_where u kb_id =
    if is_admin (some u)
    then record { id = truthy kb_id; member = none }
    else record { id = truthy kb_id; member = some u.id }

unfoldable pub build_document_read_where : AuthenticatedUser → Option String → DocumentWhere
build_document_read_where u document_id =
    if is_admin (some u)
    then record { id = truthy document_id; kb = record { id = none; member = none } }
    else record { id = truthy document_id; kb = record { id = none; member = some u.id } }

unfoldable pub build_conversation_read_where : AuthenticatedUser → Option String → ConversationWhere
build_conversation_read_where u conversation_id =
    if is_admin (some u)
    then record {
      id = truthy conversation_id;
      user_id = none;
      kb = record { id = none; member = none };
    }
    else record {
      id = truthy conversation_id;
      user_id = some u.id;
      kb = record { id = none; member = some u.id };
    }

abbrev pub is_active : KbStatus → Bool
is_active KbStatus.active = true
is_active KbStatus.archived = false

-- an optional equality condition
abbrev pub agrees : Option String → String → Bool
agrees none s = true
agrees (some t) s = t == s

module _ (p : Prisma) (db : Db p) where
  abbrev pub is_member : Option String → String → Bool
  is_member none kb_id = true
  is_member (some user_id) kb_id = is_some (p.find_unique (kb_id, user_id) db.members)

  unfoldable pub kb_matches : KbWhere → String → KnowledgeBase → Bool
  kb_matches w id kb = agrees w.id id && (is_active kb.status && is_member w.member id)

  abbrev related : KbWhere → String → Option KnowledgeBase → Bool
  related w id none = false
  related w id (some kb) = kb_matches w id kb

  unfoldable pub document_matches : DocumentWhere → String → Document → Bool
  unfolding kb_matches
  document_matches w id d = agrees w.id id && related w.kb d.kb_id (p.find_unique d.kb_id db.kbs)

  unfoldable pub conversation_matches : ConversationWhere → String → Conversation → Bool
  unfolding kb_matches
  conversation_matches w id c =
      agrees w.id id
      && (agrees w.user_id c.user_id && related w.kb c.kb_id (p.find_unique c.kb_id db.kbs))
