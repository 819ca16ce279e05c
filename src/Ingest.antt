-- ===== src/Ingest.antt =====
-- services/api/src/documents/ingest-job.helpers.ts and documents.constants.ts, with the updates of
-- single rows that the documents and the ops service share.
pub mod Jobs
use rag_stack_monorepo.Prelude.{
  ℕ, ◌+◌, String, refl, Bool, true, false, ◌&&◌, Option, none, some, ◌∷◌, arith, ◌==◌, eq_iff,
  eq_refl, ltb, if◌then◌else◌, string_eq, pair_eq,
}
use rag_stack_monorepo.Exec.{
  internal, fault, Exec, pure, throw, gets, require, transaction, modify, ◌>>=◌, ◌>>◌,
}
use rag_stack_monorepo.Prisma.{Prisma}
use rag_stack_monorepo.Schema.{
  Db, Document, DocumentVersion, IngestJob, QueueJob, DocumentStatus, DocumentVersionStatus,
  IngestJobStatus, VectorizationStatus,
}

abbrev pub default_ingest_max_attempts : ℕ
default_ingest_max_attempts = 3

abbrev pub ingest_pipeline_version : String
ingest_pipeline_version = "phase2.v1"

unfoldable pub get_initial_vectorization_status : Bool → VectorizationStatus
get_initial_vectorization_status open_ai_configured =
    if open_ai_configured then VectorizationStatus.pending else VectorizationStatus.disabled

-- `raw` is what `Number.parseInt` reads: `none` if it is no number or a negative one.
unfoldable pub get_configured_ingest_max_attempts : Option ℕ → ℕ
get_configured_ingest_max_attempts none = default_ingest_max_attempts
get_configured_ingest_max_attempts (some raw) =
    if ltb 0 raw then raw else default_ingest_max_attempts

-- EnqueueableIngestJob: the rows with their identifiers, and the bucket that was settled on
pub record EnqueueableIngestJob : Type 0 where
  pub correlation_id : Option String
  pub document_id : String
  pub document : Document
  pub version_id : String
  pub version : DocumentVersion
  pub storage_bucket : String
  pub job_id : String
  pub max_attempts : ℕ

-- buildIngestQueuePayload, and of buildIngestQueueOptions what depends on the job
unfoldable pub build_ingest_queue_payload : EnqueueableIngestJob → QueueJob
build_ingest_queue_payload job = record {
  bucket = job.storage_bucket;
  correlation_id = job.correlation_id;
  document_id = job.document_id;
  document_version_id = job.version_id;
  ingest_job_id = job.job_id;
  ingest_version = job.version.ingest_version;
  kb_id = job.document.kb_id;
  mime_type = job.document.type;
  pipeline_version = job.version.pipeline_version;
  s3_key = job.version.s3_key;
  source_title = job.document.name;
  job_id = job.job_id;
  attempts = job.max_attempts;
}

abbrev pub enqueue_failed : String
enqueue_failed = "QUEUE_ENQUEUE_FAILED"

unfoldable pub failed_job : ℕ → String → IngestJob → IngestJob
failed_job now message job = record job {
  status = IngestJobStatus.failed;
  error_code = some enqueue_failed;
  error_message = some message;
  retryable = true;
  finished_at = some now;
}

unfoldable pub failed_version : ℕ → String → DocumentVersion → DocumentVersion
failed_version now message version = record version {
  status = DocumentVersionStatus.failed;
  last_error_code = some enqueue_failed;
  last_error_message = some message;
  finished_at = some now;
}

unfoldable pub failed_document : String → Document → Document
failed_document message document = record document {
  status = DocumentStatus.failed;
  last_error_code = some enqueue_failed;
  last_error_message = some message;
}

-- The columns that reindexing and retrying write: back in the queue, with the errors cleared.
unfoldable pub queued_document : Document → Document
queued_document document = record document {
  status = DocumentStatus.queued;
  last_error_code = none;
  last_error_message = none;
}

unfoldable pub queued_version : VectorizationStatus → DocumentVersion → DocumentVersion
queued_version vectorization version = record version {
  status = DocumentVersionStatus.queued;
  ingest_version = version.ingest_version + 1;
  pipeline_version = ingest_pipeline_version;
  vectorization_status = vectorization;
  last_error_code = none;
  last_error_message = none;
  started_at = none;
  finished_at = none;
}

-- A new row of the job table: the given columns and the defaults of the schema.
unfoldable pub waiting_job : ℕ → String → Option String → ℕ → IngestJob
waiting_job now version_id correlation_id max_attempts = record {
  document_version_id = version_id;
  status = IngestJobStatus.waiting;
  error_code = none;
  error_message = none;
  retryable = true;
  attempts = 0;
  max_attempts = max_attempts;
  correlation_id = correlation_id;
  finished_at = none;
  created_at = now;
}

-- `status: { in: [WAITING, ACTIVE] }`
abbrev pub is_open : IngestJobStatus → Bool
is_open IngestJobStatus.waiting = true
is_open IngestJobStatus.active = true
is_open _ = false

module _ (p : Prisma) where
  -- update({ where: { id }, data }): rejected if there is no such row, and returns the new row
  unfoldable pub update_document : String → (Document → Document) → Exec (Db p) Document
  update_document id f = do
    row ← gets (λ db. p.find_unique id db.documents)
    document ← require fault row
    modify (λ db. record db { documents = p.put id (f document) db.documents })
    pure (f document)

  unfoldable pub update_version :
      String → (DocumentVersion → DocumentVersion) → Exec (Db p) DocumentVersion
  update_version id f = do
    row ← gets (λ db. p.find_unique id db.versions)
    version ← require fault row
    modify (λ db. record db { versions = p.put id (f version) db.versions })
    pure (f version)

  unfoldable pub update_job : String → (IngestJob → IngestJob) → Exec (Db p) IngestJob
  update_job id f = do
    row ← gets (λ db. p.find_unique id db.jobs)
    job ← require fault row
    modify (λ db. record db { jobs = p.put id (f job) db.jobs })
    pure (f job)

  unfoldable pub create_job : String → IngestJob → Exec (Db p) IngestJob
  create_job id job = do modify (λ db. record db { jobs = p.put id job db.jobs }); pure job

  unfoldable pub mark_queue_enqueue_failure :
      ℕ → String → String → String → String → Exec (Db p) Document
  mark_queue_enqueue_failure now document_id version_id job_id message = do
    update_job job_id (failed_job now message)
    update_version version_id (failed_version now message)
    update_document document_id (failed_document message)

  abbrev pub push_job : QueueJob → Exec (Db p) Unit
  push_job job = modify (λ db. record db { queue = job ∷ db.queue })

  -- `await queue.add(...)` and its `catch`: whether the queue takes the job, and whether the
  -- transaction that marks the failure commits, is up to the environment.
  unfoldable pub enqueue_or_fail :
      Bool → Bool → ℕ → EnqueueableIngestJob → String → Exec (Db p) Unit
  enqueue_or_fail true committed now job message = push_job (build_ingest_queue_payload job)
  enqueue_or_fail false committed now job message = do
    transaction committed
        (mark_queue_enqueue_failure now job.document_id job.version_id job.job_id message)
    throw (internal message)

  abbrev pub is_open_job_of : String → String → IngestJob → Bool
  is_open_job_of version_id _ job = job.document_version_id == version_id && is_open job.status
