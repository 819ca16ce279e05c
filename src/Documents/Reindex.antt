-- ===== src/Documents/Reindex.antt =====
-- The jobs of a version, before and after `reindexDocument` of
-- services/api/src/documents/documents.service.ts.
use rag_stack_monorepo.Prelude.{
  String, ◌≡◌, refl, sym, not, Option, none, arith, is_some, string_eq, pair_eq, true,
}
use rag_stack_monorepo.Exec.{gets, require, transaction, ◌>>=◌, ok}
use rag_stack_monorepo.Prisma.{Prisma, find_first}
use rag_stack_monorepo.Exec.Keeps.{
  Keeps, Leads, Keeps-bind, Keeps-read, Leads-bind, Leads-transaction, after_guard_keeps,
}
use rag_stack_monorepo.Schema.{Db, Document, IngestJob}
use rag_stack_monorepo.Authorization.Roles.{AuthenticatedUser}
use rag_stack_monorepo.Authorization.Access.{assert_document_read}
use rag_stack_monorepo.KnowledgeBases.Owners.{access_reads}
use rag_stack_monorepo.Ingest.{is_open_job_of, waiting_job}
use rag_stack_monorepo.Ingest.Jobs.{
  OneOpen, enqueue_or_fail-One, Idle, One, Idle-One, Idle-of_no_open_job, update_document-Idle,
  update_version-Idle, create_job-One, audit-One,
}
use rag_stack_monorepo.Documents.{
  Outside, requeue, reindex_version, reindex_document, find_one, find_open_job, enqueue_ingest_job,
  new_job, editors, reindex_latest, waiting_job,
}
use mathlib.Core.Path.{subst}

module _ (p : Prisma) where
  requeue-One :
      (o : Outside) (correlation_id : Option String) (document_id version_id : String)
      → Leads (Idle p version_id) (One p) (requeue p o correlation_id document_id version_id)
  unfolding requeue new_job waiting_job
  requeue-One o correlation_id document_id version_id =
      Leads-bind (Idle p version_id) (Idle p version_id) (One p) _ _ (Idle-One p version_id)
        (update_document-Idle p version_id document_id _)
        λ _ _ t _.
          Leads-bind (Idle p version_id) (Idle p version_id) (One p) _ _ (Idle-One p version_id)
            (update_version-Idle p version_id version_id _)
            (λ _ _ u _.
              Leads-bind (Idle p version_id) (One p) (One p) _ _ (λ _ h. h)
                (create_job-One p version_id o.new_job_id _ refl) (λ _ _ _ _ h. h) u)
            t

  reindex_latest-One :
      (o : Outside) (correlation_id : Option String) (existing : String × Document)
      (u : AuthenticatedUser) (version_id : String)
      → Leads (Idle p version_id) (One p) (reindex_latest p o correlation_id existing u version_id)
  unfolding reindex_latest
  reindex_latest-One o correlation_id existing u version_id =
      Leads-bind (Idle p version_id) (One p) (One p)
        (transaction o.commits (requeue p o correlation_id existing.0 version_id)) _ (λ _ h. h)
        (Leads-transaction (Idle p version_id) (One p) o.commits
          (requeue p o correlation_id existing.0 version_id) (Idle-One p version_id)
          (requeue-One o correlation_id existing.0 version_id))
        λ job _ v _.
          Keeps-bind (One p) (enqueue_ingest_job p o job) _
            (enqueue_or_fail-One p o.queue_up o.marks o.now job _) (λ _ _ t _. audit-One p t _) v

  no_open_job :
      (version_id : String) (db : Db p) (open_job : Option (String × IngestJob))
      → not (is_some open_job) ≡ true
      → gets (find_open_job p version_id) db ≡ (ok open_job, db)
      → find_first p (λ _. 0) (is_open_job_of p version_id) db.jobs ≡ none
  unfolding find_open_job
  no_open_job version_id db open_job idle asked = ground (arith, idle, asked)

  reindex_version-One :
      (o : Outside) (correlation_id : Option String) (existing : String × Document)
      (u : AuthenticatedUser)
      → Keeps (One p) (reindex_version p o correlation_id existing u)
  unfolding reindex_version
  reindex_version-One o correlation_id existing u =
      Keeps-read (One p) _ _ (λ _. refl)
        λ found s _.
          Keeps-read (One p) (require _ found) _ (λ t. ground arith)
            (λ latest t _.
              Keeps-read (One p) (gets (find_open_job p latest.0)) _ (λ _. refl)
                (λ open_job v asked one.
                  after_guard_keeps (One p) (not (is_some open_job)) _
                    (reindex_latest p o correlation_id existing u latest.0) v one
                    (λ idle. reindex_latest-One o correlation_id existing u latest.0 v (
                      Idle-of_no_open_job p latest.0 v one
                        (no_open_job latest.0 v open_job idle asked))))
                t)
            s

  document_reads :
      (u : AuthenticatedUser) (document_id : String) (db : Db p)
      → (assert_document_read p u document_id db).1 ≡ db
  unfolding assert_document_read ◌>>=◌
  document_reads u document_id db = ground arith

  pub find_one_reads :
      (document_id : String) (u : AuthenticatedUser) (db : Db p)
      → (find_one p document_id u db).1 ≡ db
  unfolding find_one assert_document_read ◌>>=◌
  find_one_reads document_id u db = ground arith

  -- Reindexing keeps it true that of each version at most one ingest job waits or runs: on every
  -- path of the request, also where the queue or the database fails.
  pub reindex_document-OneOpen :
      (o : Outside) (correlation_id : Option String) (document_id : String) (u : AuthenticatedUser)
      (db : Db p)
      → OneOpen p db.jobs
      → OneOpen p (reindex_document p o correlation_id document_id u db).1.jobs
  unfolding reindex_document One
  reindex_document-OneOpen o correlation_id document_id u =
      Keeps-read (One p) _ _ (document_reads u document_id) λ existing s _.
        Keeps-read (One p) _ _ (access_reads p existing.1.kb_id u editors)
          (λ _ t _.
            Keeps-bind (One p) _ _ (reindex_version-One o correlation_id existing u)
              (λ _ _ v _ h. subst (One p) (sym (find_one_reads document_id u v)) h) t)
          s
