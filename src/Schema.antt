-- ===== src/Schema.antt =====
-- The rows of the API's database (services/api/prisma/schema.prisma) with the columns that the
-- modelled services read or write, and the state of the API: the tables, the audit log, the ingest
-- queue and the object store. Timestamps are numbers; `null` is `none`.
use rag_stack_monorepo.Prelude.{ℕ, Bool, String, List, Option, ◌≡◌, ◌↔◌, true, false, arith}
use rag_stack_monorepo.Json.{Json}
use rag_stack_monorepo.Prisma.{Prisma}

pub data UserStatus : Type 0 where
  active disabled : UserStatus

pub data SystemRole : Type 0 where
  super_admin operator system user : SystemRole

pub data KbStatus : Type 0 where
  active archived : KbStatus

pub data KbVisibility : Type 0 where
  private_ internal public_ : KbVisibility

pub data KbRole : Type 0 where
  owner editor viewer : KbRole

pub data DocumentStatus : Type 0 where
  uploaded queued processing indexed failed archived : DocumentStatus

pub data DocumentVersionStatus : Type 0 where
  queued processing indexed failed : DocumentVersionStatus

pub data VectorizationStatus : Type 0 where
  pending disabled completed failed : VectorizationStatus

pub data IngestJobStatus : Type 0 where
  waiting active completed failed dead_letter : IngestJobStatus

pub data MessageRole : Type 0 where
  user assistant system : MessageRole

pub data EvalCaseStatus : Type 0 where
  active disabled : EvalCaseStatus

pub data EvalRunStatus : Type 0 where
  running completed failed : EvalRunStatus

pub record User : Type 0 where
  pub email : String
  pub password_hash : String
  pub status : UserStatus

pub record RefreshSession : Type 0 where
  pub user_id : String
  pub token_hash : String
  pub expires_at : ℕ
  pub revoked_at : Option ℕ
  pub last_used_at : Option ℕ

pub record KnowledgeBase : Type 0 where
  pub slug : String
  pub name : String
  pub description : Option String
  pub status : KbStatus
  pub visibility : KbVisibility
  pub archived_at : Option ℕ

pub record KbMember : Type 0 where
  pub role : KbRole

pub record Document : Type 0 where
  pub kb_id : String
  pub name : String
  pub type : String
  pub status : DocumentStatus
  pub last_error_code : Option String
  pub last_error_message : Option String

pub record DocumentVersion : Type 0 where
  pub document_id : String
  pub storage_bucket : Option String
  pub s3_key : String
  pub content_hash : String
  pub version_number : ℕ
  pub status : DocumentVersionStatus
  pub ingest_version : ℕ
  pub pipeline_version : String
  pub vectorization_status : VectorizationStatus
  pub last_error_code : Option String
  pub last_error_message : Option String
  pub started_at : Option ℕ
  pub finished_at : Option ℕ

pub record IngestJob : Type 0 where
  pub document_version_id : String
  pub status : IngestJobStatus
  pub error_code : Option String
  pub error_message : Option String
  pub retryable : Bool
  pub attempts : ℕ
  pub max_attempts : ℕ
  pub correlation_id : Option String
  pub finished_at : Option ℕ
  pub created_at : ℕ

pub record Conversation : Type 0 where
  pub user_id : String
  pub kb_id : String
  pub title : String
  pub last_activity_at : ℕ

pub record Message : Type 0 where
  pub conversation_id : String
  pub role : MessageRole
  pub content : String
  pub model_name : Option String
  pub latency_ms : Option ℕ
  pub created_at : ℕ

pub record DocumentChunk : Type 0 where
  pub kb_id : String
  pub document_id : String
  pub document_version_id : String
  pub language : Option String
  pub superseded_at : Option ℕ

pub record Citation : Type 0 where
  pub message_id : String
  pub chunk_id : String
  pub document_id : String
  pub document_title : String
  pub rank : ℕ
  pub score : ℕ
  pub snippet : String
  pub page_number : Option ℕ
  pub section_title : Option String

-- common/audit: who did what to which entity. The payload is left out.
pub record AuditLog : Type 0 where
  pub actor_id : Option String
  pub action : String
  pub entity_type : String
  pub entity_id : String
  pub kb_id : Option String

-- The payload of a queued job, with the options that depend on the job.
pub record QueueJob : Type 0 where
  pub bucket : String
  pub correlation_id : Option String
  pub document_id : String
  pub document_version_id : String
  pub ingest_job_id : String
  pub ingest_version : ℕ
  pub kb_id : String
  pub mime_type : String
  pub pipeline_version : String
  pub s3_key : String
  pub source_title : String
  pub job_id : String
  pub attempts : ℕ

pub record EvalSet : Type 0 where
  pub kb_id : String
  pub name : String
  pub description : Option String
  pub created_at : ℕ

pub record EvalCase : Type 0 where
  pub eval_set_id : String
  pub question : String
  pub expected_answer : Option String
  pub expected_source_document_id : Option String
  pub expected_source_hint : Option String
  pub category : String
  pub difficulty : String
  pub status : EvalCaseStatus
  pub created_at : ℕ

pub record EvalRun : Type 0 where
  pub eval_set_id : String
  pub kb_id : String
  pub model_name : String
  pub started_at : ℕ
  pub finished_at : Option ℕ
  pub status : EvalRunStatus
  pub summary_json : Option Json

-- A score is in ten-thousandths.
pub record EvalItem : Type 0 where
  pub eval_run_id : String
  pub eval_case_id : String
  pub actual_answer : String
  pub retrieved_sources_json : Json
  pub passed : Bool
  pub score : ℕ
  pub notes : Option String
  pub regression_flag : Bool
  pub latency_ms : Option ℕ

pub record Db (p : Prisma) : Type 0 where
  pub users : p.Table String User
  pub sessions : p.Table String RefreshSession
  pub kbs : p.Table String KnowledgeBase
  pub members : p.Table (String × String) KbMember
  pub documents : p.Table String Document
  pub versions : p.Table String DocumentVersion
  pub jobs : p.Table String IngestJob
  pub conversations : p.Table String Conversation
  pub messages : p.Table String Message
  pub chunks : p.Table String DocumentChunk
  pub citations : List Citation
  pub audit : List AuditLog
  pub queue : List QueueJob
  pub objects : List (String × String)
  pub eval_sets : p.Table String EvalSet
  pub eval_cases : p.Table String EvalCase
  pub eval_runs : p.Table String EvalRun
  pub eval_items : List EvalItem

abbrev pub role_eq : KbRole → KbRole → Bool
role_eq owner owner = true
role_eq editor editor = true
role_eq viewer viewer = true
role_eq _ _ = false

pub role_eq_iff : (a b : KbRole) → (role_eq a b ≡ true) ↔ (a ≡ b)
role_eq_iff a b = ground arith
