-- ===== src/Examples.antt =====
-- A small world on lists, and in the modules below runs of the handlers on it, with each theorem at
-- an input where its conditions hold.
mod Access
mod Sessions
mod Jobs
mod Chat
mod Slugs
mod Ask
mod Evals
mod Common
mod Uploads
mod Settings
use rag_stack_monorepo.Prelude.{
  ◌/◌, String, refl, true, false, none, some, [], ◌∷◌, arith, eq_iff, eq_refl, string_eq, pair_eq,
}
use rag_stack_monorepo.Exec.{◌>>=◌, ◌>>◌}
use rag_stack_monorepo.Prisma.Lists.{
  find, list_prisma, remove, write, rewrite, live, insert, sort, query,
}
use rag_stack_monorepo.Schema.{
  Db, User, UserStatus, RefreshSession, KnowledgeBase, KbStatus, KbVisibility, KbRole, Document,
  DocumentStatus, DocumentVersion, DocumentVersionStatus, VectorizationStatus, IngestJob,
  IngestJobStatus,
}
use rag_stack_monorepo.Authorization.Roles.{
  AuthenticatedUser, has_any_system_role, is_admin, assert_ops_access,
}
use rag_stack_monorepo.Authorization.Where.{
  kb_matches, document_matches, build_knowledge_base_read_where, build_document_read_where,
}
use rag_stack_monorepo.Authorization.Access.{
  assert_knowledge_base_role, assert_knowledge_base_read, assert_document_read,
}

-- What runs of the handlers compute with.
pub running : Unit {0}
unfolding find remove write rewrite live insert sort query ◌>>=◌ has_any_system_role is_admin
    assert_ops_access kb_matches document_matches build_knowledge_base_read_where
    build_document_read_where assert_knowledge_base_role assert_knowledge_base_read
    assert_document_read
running = tt

abbrev pub person : String → String → AuthenticatedUser
person id role = record {
  id = id;
  email = none;
  user_role = some (record { role = some (record { name = some role }) } ∷ []);
}

abbrev pub ann : AuthenticatedUser
ann = person "ann" "USER"

abbrev pub operator_user : AuthenticatedUser
operator_user = person "op" "OPERATOR"

abbrev pub support : KnowledgeBase
support = record {
  slug = "support";
  name = "Support";
  description = none;
  status = KbStatus.active;
  visibility = KbVisibility.private_;
  archived_at = none;
}

abbrev pub account : String → User
account email = record { email = email; password_hash = "hash"; status = UserStatus.active }

abbrev pub manual : Document
manual = record {
  kb_id = "kb";
  name = "manual";
  type = "text/plain";
  status = DocumentStatus.failed;
  last_error_code = some "PARSE";
  last_error_message = none;
}

abbrev pub first_version : DocumentVersion
first_version = record {
  document_id = "doc";
  storage_bucket = none;
  s3_key = "kb/manual.txt";
  content_hash = "c0ffee";
  version_number = 1;
  status = DocumentVersionStatus.failed;
  ingest_version = 1;
  pipeline_version = "phase2.v1";
  vectorization_status = VectorizationStatus.pending;
  last_error_code = some "PARSE";
  last_error_message = none;
  started_at = none;
  finished_at = none;
}

abbrev pub broken_job : IngestJob
broken_job = record {
  document_version_id = "ver";
  status = IngestJobStatus.failed;
  error_code = some "PARSE";
  error_message = none;
  retryable = true;
  attempts = 3;
  max_attempts = 0;
  correlation_id = none;
  finished_at = some 7;
  created_at = 3;
}

abbrev pub session_of : String → RefreshSession
session_of user_id = record {
  user_id = user_id;
  token_hash = "token";
  expires_at = 50;
  revoked_at = none;
  last_used_at = none;
}

-- One knowledge base, owned by ann and edited by bob, with a document whose only job has failed.
abbrev pub world : Db list_prisma
world = record {
  users = ("ann", account "ann@x") ∷ ("bob", account "bob@x") ∷ [];
  sessions = ("s1", session_of "ann") ∷ [];
  kbs = ("kb", support) ∷ [];
  members =
      (("kb", "ann"), record { role = KbRole.owner })
      ∷ (("kb", "bob"), record { role = KbRole.editor })
      ∷ [];
  documents = ("doc", manual) ∷ [];
  versions = ("ver", first_version) ∷ [];
  jobs = ("job", broken_job) ∷ [];
  conversations = [];
  messages = [];
  chunks = [];
  citations = [];
  audit = [];
  queue = [];
  objects = [];
  eval_sets = [];
  eval_cases = [];
  eval_runs = [];
  eval_items = [];
}
