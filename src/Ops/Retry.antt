-- ===== src/Ops/Retry.antt =====
-- The jobs of a version, before and after `retryIngestJob` of services/api/src/ops/ops.service.ts.
use rag_stack_monorepo.Prelude.{
  String, ◌≡◌, refl, true, not, Option, none, some, arith, is_some, string_eq, pair_eq,
}
use rag_stack_monorepo.Exec.{ok, gets, lift, transaction, ◌>>=◌}
use rag_stack_monorepo.Prisma.{Prisma, find_first}
use rag_stack_monorepo.Exec.Keeps.{
  Leads, Keeps-bind, Keeps-read, Leads-bind, Leads-transaction, after_guard_keeps,
}
use rag_stack_monorepo.Schema.{Db, IngestJob}
use rag_stack_monorepo.Authorization.Roles.{AuthenticatedUser, assert_ops_access}
use rag_stack_monorepo.Ingest.{waiting_job, enqueue_or_fail, is_open_job_of}
use rag_stack_monorepo.Ingest.Jobs.{
  One, Idle, Idle-One, OneOpen, update_document-Idle, update_version-Idle, create_job-One,
  enqueue_or_fail-One, Idle-of_no_open_job, audit-One,
}
use rag_stack_monorepo.Documents.{Outside, find_open_job}
use rag_stack_monorepo.Ops.{
  Existing, find_existing, requeue, requeue_and_report, retry_ingest_job, log_action,
}
use rag_stack_monorepo.KnowledgeBases.{log_action}

module _ (p : Prisma) where
  requeue-One :
      (o : Outside) (correlation_id : Option String) (existing : Existing)
      → Leads
          (Idle p existing.job.document_version_id)
          (One p)
          (requeue p o correlation_id existing)
  unfolding requeue waiting_job
  requeue-One o correlation_id existing =
      let v = existing.job.document_version_id in
      Leads-bind (Idle p v) (Idle p v) (One p) _ _ (Idle-One p v) (update_version-Idle p v v _)
        λ _ _ t _.
          Leads-bind (Idle p v) (Idle p v) (One p) _ _ (Idle-One p v) (update_document-Idle p v _ _)
            (λ _ _ u _.
              Leads-bind (Idle p v) (One p) (One p) _ _ (λ _ h. h)
                (create_job-One p v o.new_job_id _ refl) (λ _ _ _ _ h. h) u)
            t

  report-One :
      (o : Outside) (correlation_id : Option String) (job_id : String) (existing : Existing)
      (u : AuthenticatedUser)
      → Leads
          (Idle p existing.job.document_version_id)
          (One p)
          (requeue_and_report p o correlation_id job_id existing u)
  unfolding requeue_and_report
  report-One o correlation_id job_id existing u =
      let v = existing.job.document_version_id in
      Leads-bind (Idle p v) (One p) (One p)
        (transaction o.commits (requeue p o correlation_id existing)) _ (λ _ h. h)
        (Leads-transaction (Idle p v) (One p) o.commits (requeue p o correlation_id existing)
          (Idle-One p v) (requeue-One o correlation_id existing))
        λ job _ t _.
          Keeps-bind (One p) (enqueue_or_fail p o.queue_up o.marks o.now job _) _
            (enqueue_or_fail-One p o.queue_up o.marks o.now job _)
            (λ _ _ s _.
              Keeps-bind (One p) (log_action p _) _ (λ w. audit-One p w _) (λ _ _ _ _ h. h) s)
            t

  existing_reads : (job_id : String) (db : Db p) → (find_existing p job_id db).1 ≡ db
  unfolding find_existing ◌>>=◌
  existing_reads job_id db = ground arith

  no_sibling :
      (version_id : String) (db : Db p) (sibling : Option (String × IngestJob))
      → not (is_some sibling) ≡ true
      → gets (find_open_job p version_id) db ≡ (ok sibling, db)
      → find_first p (λ _. 0) (is_open_job_of p version_id) db.jobs ≡ none
  unfolding find_open_job
  no_sibling version_id db sibling idle asked = ground (arith, idle, asked)

  -- Retrying a job keeps it true that of each version at most one ingest job waits or runs: on
  -- every path of the request, also where the queue or the database fails.
  pub retry_ingest_job-OneOpen :
      (o : Outside) (correlation_id : Option String) (job_id : String) (u : AuthenticatedUser)
      (db : Db p)
      → OneOpen p db.jobs
      → OneOpen p (retry_ingest_job p o correlation_id job_id u db).1.jobs
  unfolding retry_ingest_job One
  retry_ingest_job-OneOpen o correlation_id job_id u =
      Keeps-read (One p) (lift (assert_ops_access (some u))) _ (λ _. refl)
        λ _ s1 _.
          Keeps-read (One p) _ _ (existing_reads job_id)
            (λ existing s2 _ one2. after_guard_keeps (One p) _ _ _ s2 one2 λ _.
              Keeps-read (One p) _ _ (λ _. refl)
                (λ latest s3 _ one3. after_guard_keeps (One p) _ _ _ s3 one3 λ _.
                  Keeps-read (One p) (gets (find_open_job p existing.job.document_version_id)) _
                    (λ _. refl)
                    (λ sibling s4 asked one4.
                      after_guard_keeps (One p) (not (is_some sibling)) _
                        (requeue_and_report p o correlation_id job_id existing u) s4 one4
                        λ idle. report-One o correlation_id job_id existing u s4 (
                          Idle-of_no_open_job p existing.job.document_version_id s4 one4
                            (no_sibling existing.job.document_version_id s4 sibling idle asked)))
                    s3 one3)
                s2 one2)
            s1
