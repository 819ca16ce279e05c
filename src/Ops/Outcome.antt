-- ===== src/Ops/Outcome.antt =====
-- The outcomes of `retryIngestJob` of services/api/src/ops/ops.service.ts, one for each answer of the
-- queue.
use rag_stack_monorepo.Prelude.{
  ℕ, eqb, if◌then◌else◌, inl, inr, String, ◌≡◌, refl, true, Option, none, some, string_eq, pair_eq,
  arith, eq_iff, false, ◌+◌, ◌∷◌, eq_refl, ◌∙◌, ◌<◌, ◌==◌, Bool-cases, ap,
}
use rag_stack_monorepo.Exec.{ok, ◌>>=◌, err, internal}
use rag_stack_monorepo.Prisma.{Prisma}
use rag_stack_monorepo.Schema.{
  Document, QueueJob, DocumentStatus, DocumentVersionStatus, VectorizationStatus, Db,
  DocumentVersion, IngestJob, IngestJobStatus, AuditLog,
}
use rag_stack_monorepo.KnowledgeBases.{or_else}
use rag_stack_monorepo.Ingest.{
  waiting_job, failed_job, failed_version, failed_document, queued_version, queued_document,
  get_initial_vectorization_status, EnqueueableIngestJob, update_document, update_version,
  create_job, mark_queue_enqueue_failure, update_job, enqueue_or_fail, build_ingest_queue_payload,
  is_open_job_of,
}
use rag_stack_monorepo.Documents.{Outside, find_open_job}
use rag_stack_monorepo.Ops.{
  Existing, requeue, is_failed, latest_job, requeue_and_report, RetryView, AuthenticatedUser,
  retry_ingest_job, find_existing,
}
use rag_stack_monorepo.Authorization.Roles.{AuthenticatedUser, assert_ops_access}
use rag_stack_monorepo.Prisma.Laws.{find_first-none, find_first_max, find_first-eq-none}

module _ (p : Prisma) where
  -- A failed job that is the newest of its version, none of whose jobs waits or runs.
  pub record Retriable (db : Db p) (job_id : String) (existing : Existing) : Type 0 where
    pub job : p.find_unique job_id db.jobs ≡ some existing.job
    pub version : p.find_unique existing.job.document_version_id db.versions ≡ some existing.version
    pub document : p.find_unique existing.version.document_id db.documents ≡ some existing.document
    pub failed : is_failed existing.job.status ≡ true
    pub newest : latest_job p existing.job.document_version_id db ≡ some (job_id, existing.job)
    pub idle : find_open_job p existing.job.document_version_id db ≡ none

  module _ (o : Outside) (correlation_id : Option String) (existing : Existing) where
    abbrev version_id : String
    version_id = existing.job.document_version_id

    abbrev next_attempts : ℕ
    next_attempts = if eqb existing.job.max_attempts 0 then 3 else existing.job.max_attempts

    -- The version as it is queued again: its ingest version is one higher, and its errors and its
    -- times are cleared.
    abbrev pub next_version : DocumentVersion
    next_version = record existing.version {
      status = DocumentVersionStatus.queued;
      ingest_version = existing.version.ingest_version + 1;
      pipeline_version = "phase2.v1";
      vectorization_status =
          if o.embeddings_available
          then VectorizationStatus.pending
          else VectorizationStatus.disabled;
      last_error_code = none;
      last_error_message = none;
      started_at = none;
      finished_at = none;
    }

    abbrev pub next_document : Document
    next_document = record existing.document {
      status = DocumentStatus.queued;
      last_error_code = none;
      last_error_message = none;
    }

    abbrev pub next_job : IngestJob
    next_job = record {
      document_version_id = existing.job.document_version_id;
      status = IngestJobStatus.waiting;
      error_code = none;
      error_message = none;
      retryable = true;
      attempts = 0;
      max_attempts = next_attempts;
      correlation_id = correlation_id;
      finished_at = none;
      created_at = o.now;
    }

    -- What the worker gets: the old object under the new ingest version.
    abbrev pub retry_payload : QueueJob
    retry_payload = record {
      bucket = or_else existing.version.storage_bucket o.s3_bucket;
      correlation_id = correlation_id;
      document_id = existing.version.document_id;
      document_version_id = existing.job.document_version_id;
      ingest_job_id = o.new_job_id;
      ingest_version = existing.version.ingest_version + 1;
      kb_id = existing.document.kb_id;
      mime_type = existing.document.type;
      pipeline_version = "phase2.v1";
      s3_key = existing.version.s3_key;
      source_title = existing.document.name;
      job_id = o.new_job_id;
      attempts = next_attempts;
    }

    -- The job that goes to the queue.
    unfoldable pub queued_job : EnqueueableIngestJob
    queued_job = record {
      correlation_id = correlation_id;
      document_id = existing.version.document_id;
      document = next_document;
      version_id = existing.job.document_version_id;
      version = next_version;
      storage_bucket = or_else existing.version.storage_bucket o.s3_bucket;
      job_id = o.new_job_id;
      max_attempts = next_attempts;
    }

    -- The rows once the retry's transaction is through.
    unfoldable pub requeued : Db p → Db p
    requeued db = record db {
      versions = p.put existing.job.document_version_id next_version db.versions;
      documents = p.put existing.version.document_id next_document db.documents;
      jobs = p.put o.new_job_id next_job db.jobs;
    }

    -- The rows that a refused retry leaves behind, with the error code of the queue.
    abbrev pub refused_version : String → DocumentVersion
    refused_version message = record next_version {
      status = DocumentVersionStatus.failed;
      last_error_code = some "QUEUE_ENQUEUE_FAILED";
      last_error_message = some message;
      finished_at = some o.now;
    }

    abbrev pub refused_document : String → Document
    refused_document message = record next_document {
      status = DocumentStatus.failed;
      last_error_code = some "QUEUE_ENQUEUE_FAILED";
      last_error_message = some message;
    }

    abbrev pub refused_job : String → IngestJob
    refused_job message = record next_job {
      status = IngestJobStatus.failed;
      error_code = some "QUEUE_ENQUEUE_FAILED";
      error_message = some message;
      retryable = true;
      finished_at = some o.now;
    }

    -- The rows once the failure of the queue is marked.
    unfoldable pub marked : String → Db p → Db p
    unfolding requeued
    marked message db = record (requeued db) {
      versions =
          p.put existing.job.document_version_id (refused_version message) (requeued db).versions;
      documents =
          p.put existing.version.document_id (refused_document message) (requeued db).documents;
      jobs = p.put o.new_job_id (refused_job message) (requeued db).jobs;
    }

    or_else_twice : (a : Option String) (b : String) → or_else a (or_else a b) ≡ or_else a b
    or_else_twice none b = refl
    or_else_twice (some x) b = refl

    requeue_run :
        (db : Db p)
        → p.find_unique existing.job.document_version_id db.versions ≡ some existing.version
        → p.find_unique existing.version.document_id db.documents ≡ some existing.document
        → requeue p o correlation_id existing db ≡ (ok queued_job, requeued db)
    unfolding requeue update_version update_document create_job queued_job requeued waiting_job
        queued_version queued_document get_initial_vectorization_status ◌>>=◌
    requeue_run db v d = rw v (rw d (rw or_else_twice))

    found_again :
        {R : Type 0} (t : p.Table String R) (k : String) (r : R)
        → p.find_unique k (p.put k r t) ≡ some r
    found_again t k r = ground (arith, p.find_unique-put k k r t, eq_iff k k)

    mark_run :
        (db : Db p) (message : String)
        → mark_queue_enqueue_failure p o.now existing.version.document_id
            existing.job.document_version_id o.new_job_id message
            (requeued db)
          ≡ (ok (refused_document message), marked message db)
    unfolding mark_queue_enqueue_failure update_job update_version update_document requeued marked
        failed_job failed_version failed_document ◌>>=◌
    mark_run db message = rw (found_again db.jobs o.new_job_id next_job) (
        rw (found_again db.versions existing.job.document_version_id next_version)
          (rw (found_again db.documents existing.version.document_id next_document)))

    report_down :
        (job_id : String) (u : AuthenticatedUser) (db : Db p)
        → requeue p o correlation_id existing db ≡ (ok queued_job, requeued db)
        → o.commits ≡ true
        → o.marks ≡ true
        → o.queue_up ≡ false
        → requeue_and_report p o correlation_id job_id existing u db
          ≡ (err (internal "Failed to enqueue retry job"), marked "Failed to enqueue retry job" db)
    unfolding requeue_and_report enqueue_or_fail queued_job ◌>>=◌
    report_down job_id u db run c m q =
        simp (run, c, q, m) (simp (mark_run db "Failed to enqueue retry job"))

    unfoldable pub retry_view : String → RetryView
    retry_view job_id = record {
      retried_from_job_id = job_id;
      ingest_job_id = o.new_job_id;
      document_id = existing.version.document_id;
      document_version_id = existing.job.document_version_id;
      status = IngestJobStatus.waiting;
      attempts = 0;
      max_attempts = next_attempts;
      ingest_version = existing.version.ingest_version + 1;
      correlation_id = correlation_id;
    }

    unfoldable pub retry_audit : AuthenticatedUser → AuditLog
    retry_audit u = record {
      actor_id = some u.id;
      action = "OPS_RETRY_INGEST_JOB";
      entity_type = "IngestJob";
      entity_id = o.new_job_id;
      kb_id = some existing.document.kb_id;
    }

    report_up :
        (job_id : String) (u : AuthenticatedUser) (db : Db p)
        → requeue p o correlation_id existing db ≡ (ok queued_job, requeued db)
        → o.commits ≡ true
        → o.queue_up ≡ true
        → requeue_and_report p o correlation_id job_id existing u db ≡ (
          ok (retry_view job_id),
          record (requeued db) {
            queue = retry_payload ∷ db.queue;
            audit = retry_audit u ∷ db.audit;
          },
        )
    unfolding requeue_and_report enqueue_or_fail queued_job requeued retry_view retry_audit
        build_ingest_queue_payload ◌>>=◌
    report_up job_id u db run c q = simp (run, c, q)

    retry_run :
        (job_id : String) (u : AuthenticatedUser) (db : Db p)
        → assert_ops_access (some u) ≡ ok tt
        → Retriable db job_id existing
        → retry_ingest_job p o correlation_id job_id u db
          ≡ requeue_and_report p o correlation_id job_id existing u db
    unfolding retry_ingest_job find_existing ◌>>=◌
    retry_run job_id u db access r = rw access (
        rw r.job (
          rw r.version
            (rw r.document (rw r.failed (rw r.newest (rw (eq_refl job_id) (rw r.idle)))))))

    -- A retry of a failed job that is the newest of its version, asked for by an operator, when no
    -- job of the version waits or runs and the transaction commits and the queue takes the job:
    -- the version and the document are queued again with their errors cleared, the version with an
    -- ingest version one higher and without its times; a new job waits, with no attempt made; the
    -- worker's payload names the new job, the version with its object and new ingest version, and the
    -- document with its knowledge base; the retry is audited; and nothing else has changed.
    pub retry_queues :
        (job_id : String) (u : AuthenticatedUser) (db : Db p)
        → assert_ops_access (some u) ≡ ok tt
        → Retriable db job_id existing
        → o.commits ≡ true
        → o.queue_up ≡ true
        → retry_ingest_job p o correlation_id job_id u db ≡ (
          ok (retry_view job_id),
          record (requeued db) {
            queue = retry_payload ∷ db.queue;
            audit = retry_audit u ∷ db.audit;
          },
        )
    retry_queues job_id u db access r c q =
        retry_run job_id u db access r
        ∙ report_up job_id u db (requeue_run db r.version r.document) c q

    -- The same retry when the queue refuses the job and the marks of the failure commit: the request
    -- fails, and the new job, the version and the document are marked as failed with the queue's
    -- error code, the job as one that can be retried; nothing is queued or audited.
    pub retry_queue_down :
        (job_id : String) (u : AuthenticatedUser) (db : Db p)
        → assert_ops_access (some u) ≡ ok tt
        → Retriable db job_id existing
        → o.commits ≡ true
        → o.marks ≡ true
        → o.queue_up ≡ false
        → retry_ingest_job p o correlation_id job_id u db
          ≡ (err (internal "Failed to enqueue retry job"), marked "Failed to enqueue retry job" db)
    retry_queue_down job_id u db access r c m q =
        retry_run job_id u db access r
        ∙ report_down job_id u db (requeue_run db r.version r.document) c m q

    -- The rows of the job that a refused retry leaves behind.
    abbrev left_over : String → Existing
    left_over message = record {
      job = refused_job message;
      version = refused_version message;
      document = refused_document message;
    }

    untouched :
        (t : p.Table String IngestJob) (k id : String) (a b j : IngestJob)
        → (k == id) ≡ false
        → p.find_unique id (p.put k a (p.put k b t)) ≡ some j
        → p.find_unique id t ≡ some j
    untouched t k id a b j other f =
        ground (arith, p.find_unique-put k id a (p.put k b t), p.find_unique-put k id b t)

    closed :
        (t : p.Table String IngestJob) (message id : String) (j : IngestJob)
        → (o.new_job_id == id) ≡ true
        → p.find_unique id
            (p.put o.new_job_id (refused_job message) (p.put o.new_job_id next_job t))
          ≡ some j
        → is_open_job_of p existing.job.document_version_id id j ≡ false
    closed t message id j same f = ground (
      arith,
      p.find_unique-put o.new_job_id id (refused_job message) (p.put o.new_job_id next_job t),
    )

    left_over-Retriable :
        (message job_id : String) (db : Db p)
        → Retriable db job_id existing
        → ((id : String) (j : IngestJob)
            → p.find_unique id db.jobs ≡ some j
            → j.document_version_id ≡ existing.job.document_version_id
            → j.created_at < o.now)
        → Retriable (marked message db) o.new_job_id (left_over message)
    unfolding marked requeued latest_job find_open_job
    left_over-Retriable message job_id db r older = record {
      job = found_again _ _ _;
      version = found_again _ _ _;
      document = found_again _ _ _;
      failed = refl;
      newest =
          find_first_max p (λ j. j.created_at)
            (λ _ j. j.document_version_id == existing.job.document_version_id) _ o.new_job_id
            (refused_job message) (found_again _ _ _) (eq_refl _)
            (λ id j other f own.
              older id j (untouched db.jobs o.new_job_id id _ next_job j other f)
                ((eq_iff j.document_version_id existing.job.document_version_id).0 own));
      idle =
          find_first-eq-none p (λ _. 0) (is_open_job_of p existing.job.document_version_id) _
            (λ id j f. elim (Bool-cases (o.new_job_id == id)) [
              | inl same ↦ closed db.jobs message id j same f
              | inr other ↦
                  find_first-none p (λ _. 0) (is_open_job_of p existing.job.document_version_id)
                    db.jobs id j r.idle (untouched db.jobs o.new_job_id id _ next_job j other f)
            ]);
    }

-- A retry that the queue refuses can itself be retried. An operator retries the newest, failed job
-- of a version without open jobs, all jobs of the version are older than the clock, the
-- transactions commit, and the queue refuses: then a retry of the job left behind, asked for by the
-- same operator on the state left behind when the queue is up and the transaction commits, succeeds.
pub retry_again :
    (p : Prisma) (o later : Outside) (correlation_id again : Option String) (existing : Existing)
    (job_id : String) (u : AuthenticatedUser) (db : Db p)
    → assert_ops_access (some u) ≡ ok tt
    → Retriable p db job_id existing
    → ((id : String) (j : IngestJob)
        → p.find_unique id db.jobs ≡ some j
        → j.document_version_id ≡ existing.job.document_version_id
        → j.created_at < o.now)
    → o.commits ≡ true
    → o.marks ≡ true
    → o.queue_up ≡ false
    → later.commits ≡ true
    → later.queue_up ≡ true
    → (v : RetryView) × ((retry_ingest_job p later again o.new_job_id u
          (retry_ingest_job p o correlation_id job_id u db).1).0
        ≡ ok v)
retry_again p o later correlation_id again existing job_id u db access r older c m q c' q' =
    let down = retry_queue_down p o correlation_id existing job_id u db access r c m q in
    let message : String = "Failed to enqueue retry job" in
    let rest = left_over-Retriable p o correlation_id existing message job_id db r older in
    let left = left_over p o correlation_id existing message in
    (
      retry_view p later again left o.new_job_id,
      rw down (ap (λ x. x.0) (retry_queues p later again left o.new_job_id u _ access rest c' q')),
    )
