-- ===== src/Ingest/Jobs.antt =====
-- The waiting and running jobs of a version under the steps that the services share
-- (services/api/src/documents).
use rag_stack_monorepo.Prelude.{
  refl, String, ◌≡◌, inl, inr, true, false, some, arith, eq_iff, Option-cases, string_eq, pair_eq,
  ℕ, Bool, ◌∙◌, none, List,
}
use rag_stack_monorepo.Exec.{◌>>=◌, transaction}
use rag_stack_monorepo.Prisma.{Prisma, find_first}
use rag_stack_monorepo.Prisma.Laws.{find_first-none}
use rag_stack_monorepo.Exec.Keeps.{Keeps, Leads, Keeps-bind, Leads-transaction}
use rag_stack_monorepo.Schema.{Document, DocumentVersion, IngestJob, Db, AuditLog}
use rag_stack_monorepo.Ingest.{
  update_document, update_version, is_open, update_job, mark_queue_enqueue_failure, enqueue_or_fail,
  create_job, failed_job, EnqueueableIngestJob, failed_version, failed_document, is_open_job_of,
}

module _ (p : Prisma) where
  -- Two jobs of one version that wait or run are one job.
  abbrev pub OneOpen : p.Table String IngestJob → Type 0
  OneOpen jobs =
      (i j : String) (a b : IngestJob)
      → p.find_unique i jobs ≡ some a
      → p.find_unique j jobs ≡ some b
      → is_open a.status ≡ true
      → is_open b.status ≡ true
      → a.document_version_id ≡ b.document_version_id
      → i ≡ j

  -- No job of the version waits or runs.
  abbrev pub NoneOpen : String → p.Table String IngestJob → Type 0
  NoneOpen version_id jobs =
      (i : String) (a : IngestJob)
      → p.find_unique i jobs ≡ some a
      → a.document_version_id ≡ version_id
      → is_open a.status ≡ false

  OneOpen-put_new :
      (id : String) (job : IngestJob) (jobs : p.Table String IngestJob)
      → OneOpen jobs
      → NoneOpen job.document_version_id jobs
      → OneOpen (p.put id job jobs)
  OneOpen-put_new id job jobs one none_ i j a b f g oa ob same = ground (
    arith,
    p.find_unique-put id i job jobs,
    p.find_unique-put id j job jobs,
    eq_iff id i,
    eq_iff id j,
    one i j a b,
    none_ i a,
    none_ j b,
  )

  OneOpen-put_closed :
      (id : String) (job : IngestJob) (jobs : p.Table String IngestJob)
      → OneOpen jobs
      → is_open job.status ≡ false
      → OneOpen (p.put id job jobs)
  OneOpen-put_closed id job jobs one closed i j a b f g oa ob same = ground (
    arith,
    p.find_unique-put id i job jobs,
    p.find_unique-put id j job jobs,
    eq_iff id i,
    eq_iff id j,
    one i j a b,
  )

  -- Any property of the job table.
  module _ (P : p.Table String IngestJob → Type 0) where
    update_document-jobs :
        (id : String) (f : Document → Document) → Keeps (λ db. P db.jobs) (update_document p id f)
    unfolding update_document ◌>>=◌
    update_document-jobs id f db h = elim (Option-cases (p.find_unique id db.documents)) [
      | inl n ↦ rw n h
      | inr (d, e) ↦ rw e h
    ]

    update_version-jobs :
        (id : String) (f : DocumentVersion → DocumentVersion)
        → Keeps (λ db. P db.jobs) (update_version p id f)
    unfolding update_version ◌>>=◌
    update_version-jobs id f db h = elim (Option-cases (p.find_unique id db.versions)) [
      | inl n ↦ rw n h
      | inr (d, e) ↦ rw e h
    ]

  fail_job-OneOpen :
      (now : ℕ) (message id : String)
      → Keeps (λ db. OneOpen db.jobs) (update_job p id (failed_job now message))
  unfolding update_job failed_job ◌>>=◌
  fail_job-OneOpen now message id db h = elim (Option-cases (p.find_unique id db.jobs)) [
    | inl n ↦ rw n h
    | inr (job, e) ↦ rw e (OneOpen-put_closed id (failed_job now message job) db.jobs h refl)
  ]

  mark_queue_enqueue_failure-OneOpen :
      (now : ℕ) (document_id version_id job_id message : String)
      → Keeps
          (λ db. OneOpen db.jobs)
          (mark_queue_enqueue_failure p now document_id version_id job_id message)
  unfolding mark_queue_enqueue_failure
  mark_queue_enqueue_failure-OneOpen now document_id version_id job_id message =
      Keeps-bind (λ db. OneOpen db.jobs) _ _ (fail_job-OneOpen now message job_id)
        λ _ _ t _.
          Keeps-bind (λ db. OneOpen db.jobs) _ _
            (update_version-jobs OneOpen version_id (failed_version now message))
            (λ _ _ u _. update_document-jobs OneOpen document_id (failed_document message) u) t

  enqueue_or_fail-OneOpen :
      (up committed : Bool) (now : ℕ) (job : EnqueueableIngestJob) (message : String)
      → Keeps (λ db. OneOpen db.jobs) (enqueue_or_fail p up committed now job message)
  unfolding enqueue_or_fail
  enqueue_or_fail-OneOpen true committed now job message db h = h
  enqueue_or_fail-OneOpen false committed now job message db h =
      Keeps-bind (λ db. OneOpen db.jobs) (transaction committed _) _
        (Leads-transaction (λ db. OneOpen db.jobs) (λ db. OneOpen db.jobs) committed
          (mark_queue_enqueue_failure p now job.document_id job.version_id job.job_id message)
          (λ _ h. h)
          (mark_queue_enqueue_failure-OneOpen now job.document_id job.version_id job.job_id
            message))
        (λ _ _ _ _ h. h) db h

  -- A job is added for a version of which no job waits or runs.
  create_job-OneOpen :
      (id : String) (job : IngestJob)
      → Leads
          (λ db. OneOpen db.jobs × NoneOpen job.document_version_id db.jobs)
          (λ db. OneOpen db.jobs)
          (create_job p id job)
  unfolding create_job ◌>>=◌
  create_job-OneOpen id job db h = OneOpen-put_new id job db.jobs h.0 h.1

  -- The invariant and the situation before a job is added, kept shut so that the proofs about
  -- handlers can follow a block action by action.
  unfoldable pub One : Db p → Type 0
  One db = OneOpen db.jobs

  unfoldable pub Idle : String → Db p → Type 0
  Idle version_id db = OneOpen db.jobs × NoneOpen version_id db.jobs

  pub Idle-One : (version_id : String) (db : Db p) → Idle version_id db → One db
  unfolding One Idle
  Idle-One version_id db h = h.0

  pub update_document-Idle :
      (version_id id : String) (f : Document → Document)
      → Leads (Idle version_id) (Idle version_id) (update_document p id f)
  unfolding Idle
  update_document-Idle version_id id f =
      update_document-jobs (λ jobs. OneOpen jobs × NoneOpen version_id jobs) id f

  pub update_version-Idle :
      (version_id id : String) (f : DocumentVersion → DocumentVersion)
      → Leads (Idle version_id) (Idle version_id) (update_version p id f)
  unfolding Idle
  update_version-Idle version_id id f =
      update_version-jobs (λ jobs. OneOpen jobs × NoneOpen version_id jobs) id f

  pub create_job-One :
      (version_id id : String) (job : IngestJob)
      → job.document_version_id ≡ version_id
      → Leads (Idle version_id) One (create_job p id job)
  unfolding One Idle
  create_job-One version_id id job own db h =
      create_job-OneOpen id job db (h.0, λ i a f o. h.1 i a f (o ∙ own))

  pub enqueue_or_fail-One :
      (up committed : Bool) (now : ℕ) (job : EnqueueableIngestJob) (message : String)
      → Keeps One (enqueue_or_fail p up committed now job message)
  unfolding One
  enqueue_or_fail-One = enqueue_or_fail-OneOpen

  -- What the handlers check before they add a job.
  pub Idle-of_no_open_job :
      (version_id : String) (db : Db p)
      → One db
      → find_first p (λ _. 0) (is_open_job_of p version_id) db.jobs ≡ none
      → Idle version_id db
  unfolding One Idle
  Idle-of_no_open_job version_id db one missed = (
    one,
    λ i a f own. ground (
      arith,
      find_first-none p (λ _. 0) (is_open_job_of p version_id) db.jobs i a missed f,
      eq_iff a.document_version_id version_id,
      own,
    ),
  )

  pub audit-One : (db : Db p) (audit : List AuditLog) → One db → One (record db { audit = audit })
  unfolding One
  audit-One db audit h = h
