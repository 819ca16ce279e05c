-- ===== src/Ops.antt =====
-- services/api/src/ops/ops.service.ts: the operators' view of the ingest jobs, and the retry of a
-- failed one. The metrics and the trace span are left out.
pub mod Retry
pub mod Outcome
use rag_stack_monorepo.Prelude.{
  ℕ, ◌-◌, min, max, String, refl, Bool, true, false, not, Option, none, some, List, arith, ◌==◌,
  eq_iff, eq_refl, eqb, if◌then◌else◌, is_some, string_eq, pair_eq, take,
}
use rag_stack_monorepo.Exec.{
  bad_request, not_found, fault, Exec, pure, gets, require, lift, transaction, guard, ◌>>=◌, ◌>>◌,
}
use rag_stack_monorepo.Prisma.{Prisma, find_first, count}
use rag_stack_monorepo.Schema.{Db, Document, DocumentVersion, IngestJob, IngestJobStatus}
use rag_stack_monorepo.Authorization.Roles.{AuthenticatedUser, assert_ops_access}
use rag_stack_monorepo.KnowledgeBases.{log_action, or_else}
use rag_stack_monorepo.Documents.{Outside, find_open_job}
use rag_stack_monorepo.Ingest.{
  get_initial_vectorization_status, default_ingest_max_attempts, EnqueueableIngestJob,
  queued_document, queued_version, waiting_job, update_document, update_version, create_job,
  enqueue_or_fail,
}

-- `status: { in: [FAILED, DEAD_LETTER] }`
abbrev pub is_failed : IngestJobStatus → Bool
is_failed IngestJobStatus.failed = true
is_failed IngestJobStatus.dead_letter = true
is_failed _ = false

abbrev pub is_waiting : IngestJobStatus → Bool
is_waiting IngestJobStatus.waiting = true
is_waiting _ = false

abbrev pub is_active_job : IngestJobStatus → Bool
is_active_job IngestJobStatus.active = true
is_active_job _ = false

abbrev pub is_completed : IngestJobStatus → Bool
is_completed IngestJobStatus.completed = true
is_completed _ = false

-- What `retryIngestJob` answers.
pub record RetryView : Type 0 where
  pub retried_from_job_id : String
  pub ingest_job_id : String
  pub document_id : String
  pub document_version_id : String
  pub status : IngestJobStatus
  pub attempts : ℕ
  pub max_attempts : ℕ
  pub ingest_version : ℕ
  pub correlation_id : Option String

-- Counts of jobs, as in the `ingestion` part of the snapshot.
pub record JobCounts : Type 0 where
  pub failed_jobs : ℕ
  pub waiting_jobs : ℕ
  pub active_jobs : ℕ
  pub completed_jobs : ℕ

-- The failed job with the version and the document that the query includes.
pub record Existing : Type 0 where
  pub job : IngestJob
  pub version : DocumentVersion
  pub document : Document

-- `maxAttempts || DEFAULT_INGEST_MAX_ATTEMPTS`
abbrev pub attempts_or_default : ℕ → ℕ
attempts_or_default n = if eqb n 0 then default_ingest_max_attempts else n

module _ (p : Prisma) where
  -- In descending order a missing date comes first: it counts as one later than the latest date of
  -- the language. The second key, the time of the last update, is no column of the model.
  finished : IngestJob → ℕ
  finished j = elim j.finished_at [ none ↦ 8640000000000001 | some t ↦ t ]

  unfoldable pub list_failed_jobs : AuthenticatedUser → ℕ → Exec (Db p) (List (String × IngestJob))
  unfolding finished
  list_failed_jobs u limit = do
    lift (assert_ops_access (some u))
    gets (λ db.
        take (max 1 (min limit 200)) (p.find_many finished (λ _ j. is_failed j.status) db.jobs))

  unfoldable pub find_existing : String → Exec (Db p) Existing
  find_existing job_id = do
    row ← gets (λ db. p.find_unique job_id db.jobs)
    job ← require (not_found "Ingest job not found") row
    version_row ← gets (λ db. p.find_unique job.document_version_id db.versions)
    version ← require fault version_row
    document_row ← gets (λ db. p.find_unique version.document_id db.documents)
    document ← require fault document_row
    pure (record { job = job; version = version; document = document })

  -- the newest job of a version
  unfoldable pub latest_job : String → Db p → Option (String × IngestJob)
  latest_job version_id db =
      find_first p (λ j. j.created_at) (λ _ j. j.document_version_id == version_id) db.jobs

  abbrev pub is_job : String → Option (String × IngestJob) → Bool
  is_job job_id none = false
  is_job job_id (some (id, _)) = id == job_id

  -- the transaction of `retryIngestJob`
  unfoldable pub requeue : Outside → Option String → Existing → Exec (Db p) EnqueueableIngestJob
  requeue o correlation_id existing = do
    version ←
        update_version p existing.job.document_version_id
          (queued_version (get_initial_vectorization_status o.embeddings_available))
    document ← update_document p existing.version.document_id queued_document
    job ← create_job p o.new_job_id (
        waiting_job o.now existing.job.document_version_id correlation_id
          (attempts_or_default existing.job.max_attempts))
    pure (record {
      correlation_id = correlation_id;
      document_id = existing.version.document_id;
      document = document;
      version_id = existing.job.document_version_id;
      version = version;
      storage_bucket =
          or_else version.storage_bucket (or_else existing.version.storage_bucket o.s3_bucket);
      job_id = o.new_job_id;
      max_attempts = job.max_attempts;
    })

  unfoldable pub requeue_and_report :
      Outside → Option String → String → Existing → AuthenticatedUser → Exec (Db p) RetryView
  requeue_and_report o correlation_id job_id existing u = do
    job ← transaction o.commits (requeue o correlation_id existing)
    enqueue_or_fail p o.queue_up o.marks o.now job "Failed to enqueue retry job"
    log_action p (record {
      actor_id = some u.id;
      action = "OPS_RETRY_INGEST_JOB";
      entity_type = "IngestJob";
      entity_id = job.job_id;
      kb_id = some job.document.kb_id;
    })
    pure (record {
      retried_from_job_id = job_id;
      ingest_job_id = job.job_id;
      document_id = job.document_id;
      document_version_id = job.version_id;
      status = IngestJobStatus.waiting;
      attempts = 0;
      max_attempts = job.max_attempts;
      ingest_version = job.version.ingest_version;
      correlation_id = correlation_id;
    })

  unfoldable pub retry_ingest_job :
      Outside → Option String → String → AuthenticatedUser → Exec (Db p) RetryView
  retry_ingest_job o correlation_id job_id u = do
    lift (assert_ops_access (some u))
    existing ← find_existing job_id
    guard (is_failed existing.job.status)
        (bad_request "Only failed or dead-letter jobs can be retried")
    latest ← gets (latest_job existing.job.document_version_id)
    guard (is_job job_id latest)
        (bad_request "Only the latest ingest job for a version can be retried")
    sibling ← gets (find_open_job p existing.job.document_version_id)
    guard (not (is_some sibling))
        (bad_request "An ingest job is already queued or running for this version")
    requeue_and_report o correlation_id job_id existing u

  unfoldable pub get_job_counts : AuthenticatedUser → Exec (Db p) JobCounts
  get_job_counts u = do
    lift (assert_ops_access (some u))
    gets (λ db. record {
      failed_jobs = count p (λ _ j. is_failed j.status) db.jobs;
      waiting_jobs = count p (λ _ j. is_waiting j.status) db.jobs;
      active_jobs = count p (λ _ j. is_active_job j.status) db.jobs;
      completed_jobs = count p (λ _ j. is_completed j.status) db.jobs;
    })
