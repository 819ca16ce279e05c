-- ===== src/Documents.antt =====
-- services/api/src/documents/documents.service.ts: reindexing and reading documents, and the rows
-- that an upload creates.
-- What the environment decides is in `Outside`: the clock, the identifiers of new rows, the
-- configuration, and which of the outside services answer.
pub mod Reindex
pub mod Inspection
pub mod Upload
use rag_stack_monorepo.Prelude.{
  ℕ, String, refl, Bool, true, false, not, ◌&&◌, Option, none, some, List, [], ◌∷◌, map, arith,
  ◌==◌, eq_iff, eq_refl, is_some, string_eq, pair_eq, take,
}
use rag_stack_monorepo.Exec.{
  bad_request, internal, Exec, pure, gets, require, transaction, modify, guard, ◌>>=◌, ◌>>◌,
  or_throw,
}
use rag_stack_monorepo.Prisma.{Prisma, find_first}
use rag_stack_monorepo.Schema.{
  Db, Document, DocumentVersion, IngestJob, KbRole, DocumentStatus, DocumentVersionStatus,
}
use rag_stack_monorepo.Authorization.Roles.{AuthenticatedUser}
use rag_stack_monorepo.Authorization.Where.{document_matches, build_document_read_where}
use rag_stack_monorepo.Authorization.Access.{assert_document_read}
use rag_stack_monorepo.KnowledgeBases.{assert_kb_access, log_action, or_else}
use rag_stack_monorepo.Ingest.{
  get_initial_vectorization_status, get_configured_ingest_max_attempts, EnqueueableIngestJob,
  ingest_pipeline_version, queued_document, queued_version, waiting_job, update_document,
  update_version, create_job, enqueue_or_fail, is_open_job_of,
}

pub record Outside : Type 0 where
  pub now : ℕ
  pub new_document_id : String
  pub new_version_id : String
  pub new_job_id : String
  pub embeddings_available : Bool
  pub ingest_max_attempts : Option ℕ
  pub s3_bucket : String
  -- whether a transaction commits, and whether the queue takes a job
  pub commits : Bool
  pub marks : Bool
  pub queue_up : Bool

-- What `findOne` shows: the document, its latest version and the latest of that version's jobs.
pub record DocumentView : Type 0 where
  pub id : String
  pub document : Document
  pub latest_version : Option (String × DocumentVersion)
  pub latest_jobs : List (String × IngestJob)

-- The parameters of `createDocumentRecords`.
pub record NewDocument : Type 0 where
  pub kb_id : String
  pub name : String
  pub mimetype : String
  pub storage_bucket : String
  pub s3_key : String
  pub content_hash : String
  pub correlation_id : Option String

-- the rows that a new document starts with
unfoldable pub new_document : NewDocument → Document
new_document n = record {
  kb_id = n.kb_id;
  name = n.name;
  type = n.mimetype;
  status = DocumentStatus.queued;
  last_error_code = none;
  last_error_message = none;
}

unfoldable pub new_version : Outside → NewDocument → DocumentVersion
new_version o n = record {
  document_id = o.new_document_id;
  storage_bucket = some n.storage_bucket;
  s3_key = n.s3_key;
  content_hash = n.content_hash;
  version_number = 1;
  status = DocumentVersionStatus.queued;
  ingest_version = 1;
  pipeline_version = ingest_pipeline_version;
  vectorization_status = get_initial_vectorization_status o.embeddings_available;
  last_error_code = none;
  last_error_message = none;
  started_at = none;
  finished_at = none;
}

unfoldable pub new_job : Outside → String → Option String → IngestJob
unfolding waiting_job
new_job o version_id correlation_id =
    waiting_job o.now version_id correlation_id
      (get_configured_ingest_max_attempts o.ingest_max_attempts)

abbrev pub editors : List KbRole
editors = KbRole.owner ∷ KbRole.editor ∷ []

module _ (p : Prisma) where
  abbrev pub is_version_of : String → String → DocumentVersion → Bool
  is_version_of document_id _ v = v.document_id == document_id

  -- versions: { orderBy: [{ versionNumber: "desc" }, …], take: 1 }; version numbers of a document
  -- are unique, so the second order is never asked
  abbrev pub latest_version : String → Db p → Option (String × DocumentVersion)
  latest_version document_id db =
      find_first p (λ v. v.version_number) (is_version_of document_id) db.versions

  abbrev pub jobs_of : ℕ → Option (String × DocumentVersion) → Db p → List (String × IngestJob)
  jobs_of n none db = []
  jobs_of n (some v) db =
      take n (p.find_many (λ j. j.created_at) (λ _ j. j.document_version_id == v.0) db.jobs)

  unfoldable pub view_of : ℕ → Db p → String × Document → DocumentView
  view_of jobs db (id, document) = record {
    id = id;
    document = document;
    latest_version = latest_version id db;
    latest_jobs = jobs_of jobs (latest_version id db) db;
  }

  unfoldable pub find_one : String → AuthenticatedUser → Exec (Db p) DocumentView
  unfolding view_of
  find_one id u = do doc ← assert_document_read p u id; gets (λ db. view_of 5 db doc)

  unfoldable pub find_all :
      (Document → ℕ) → String → AuthenticatedUser → Exec (Db p) (List DocumentView)
  unfolding view_of
  find_all created_at kb_id u = do
    assert_kb_access p kb_id u (KbRole.owner ∷ KbRole.editor ∷ KbRole.viewer ∷ [])
    gets (λ db. map (view_of 1 db) (
        p.find_many created_at
          (λ id d.
            document_matches p db (build_document_read_where u none) id d && d.kb_id == kb_id)
          db.documents))

  -- the callback of the transaction of `createDocumentRecords`
  unfoldable pub write_document_records : Outside → NewDocument → Exec (Db p) EnqueueableIngestJob
  unfolding new_document new_version new_job
  write_document_records o n = do
    modify (λ db. record db { documents = p.put o.new_document_id (new_document n) db.documents })
    modify (λ db. record db { versions = p.put o.new_version_id (new_version o n) db.versions })
    job ← create_job p o.new_job_id (new_job o o.new_version_id n.correlation_id)
    pure (record {
      correlation_id = n.correlation_id;
      document_id = o.new_document_id;
      document = new_document n;
      version_id = o.new_version_id;
      version = new_version o n;
      storage_bucket = n.storage_bucket;
      job_id = o.new_job_id;
      max_attempts = job.max_attempts;
    })

  unfoldable pub create_document_records : Outside → NewDocument → Exec (Db p) EnqueueableIngestJob
  unfolding write_document_records
  create_document_records o n =
      or_throw (internal "Failed to prepare document ingestion")
        (transaction o.commits (write_document_records o n))

  abbrev pub enqueue_ingest_job : Outside → EnqueueableIngestJob → Exec (Db p) Unit
  enqueue_ingest_job o job =
      enqueue_or_fail p o.queue_up o.marks o.now job "Failed to enqueue ingest job"

  -- the transaction of `reindexDocument`
  unfoldable pub requeue :
      Outside → Option String → String → String → Exec (Db p) EnqueueableIngestJob
  unfolding new_job
  requeue o correlation_id document_id version_id = do
    document ← update_document p document_id queued_document
    version ←
        update_version p version_id
          (queued_version (get_initial_vectorization_status o.embeddings_available))
    job ← create_job p o.new_job_id (new_job o version_id correlation_id)
    pure (record {
      correlation_id = correlation_id;
      document_id = document_id;
      document = document;
      version_id = version_id;
      version = version;
      storage_bucket = or_else version.storage_bucket o.s3_bucket;
      job_id = o.new_job_id;
      max_attempts = job.max_attempts;
    })

  unfoldable pub find_open_job : String → Db p → Option (String × IngestJob)
  find_open_job version_id db = find_first p (λ _. 0) (is_open_job_of p version_id) db.jobs

  unfoldable pub reindex_latest :
      Outside → Option String → String × Document → AuthenticatedUser → String → Exec (Db p) Unit
  reindex_latest o correlation_id existing u version_id = do
    job ← transaction o.commits (requeue o correlation_id existing.0 version_id)
    enqueue_ingest_job o job
    log_action p (record {
      actor_id = some u.id;
      action = "DOCUMENT_REINDEX";
      entity_type = "Document";
      entity_id = existing.0;
      kb_id = some existing.1.kb_id;
    })

  -- the part of `reindexDocument` behind the checks on the user
  unfoldable pub reindex_version :
      Outside → Option String → String × Document → AuthenticatedUser → Exec (Db p) Unit
  reindex_version o correlation_id existing u = do
    found ← gets (latest_version existing.0)
    latest ← require (bad_request "Document has no version to reindex") found
    open_job ← gets (find_open_job latest.0)
    guard (not (is_some open_job)) (bad_request "Document version already has an active ingest job")
    reindex_latest o correlation_id existing u latest.0

  unfoldable pub reindex_document :
      Outside → Option String → String → AuthenticatedUser → Exec (Db p) DocumentView
  reindex_document o correlation_id document_id u = do
    existing ← assert_document_read p u document_id
    assert_kb_access p existing.1.kb_id u editors
    reindex_version o correlation_id existing u
    find_one document_id u
