-- ===== src/Documents/Upload.antt =====
-- services/api/src/documents/documents.service.ts: `uploadDocument`, from the checks on the file to
-- the view of the new document.
pub mod Jobs
use rag_stack_monorepo.Prelude.{
  ℕ, ◌-◌, ◌/◌, String, refl, Bool, true, false, not, Option, some, List, [], ◌∷◌, arith, eq_iff,
  eq_refl, leb, string_eq, pair_eq, append,
}
use rag_stack_monorepo.Exec.{bad_request, fault, Exec, lift, modify, guard, ◌>>=◌, ◌>>◌}
use rag_stack_monorepo.Prisma.{Prisma}
use rag_stack_monorepo.Schema.{Db}
use rag_stack_monorepo.Authorization.Roles.{AuthenticatedUser}
use rag_stack_monorepo.KnowledgeBases.{assert_kb_access, log_action}
use rag_stack_monorepo.Documents.{
  Outside, DocumentView, NewDocument, editors, create_document_records, enqueue_ingest_job,
  find_one,
}
use rag_stack_monorepo.Documents.Inspection.{
  FileTools, UploadedFile, InspectedUpload, inspect_uploaded_document, sanitize_display_name,
}

-- What the upload gets from outside: the limit on the size, the hash of a file, whether the object
-- store takes it, and what the writing of the rows gets.
pub record UploadOutside : Type 0 where
  pub rows : Outside
  pub tools : FileTools
  pub upload_max_bytes : ℕ
  pub content_hash : List ℕ → String
  pub storage_up : Bool

abbrev pub is_empty : List ℕ → Bool
is_empty [] = true
is_empty (b ∷ bs) = false

-- The key under which a file is stored.
unfoldable pub s3_key : String → String → String → String
s3_key kb_id hash filename = append kb_id (append "/" (append hash (append "-" filename)))

unfoldable pub uploaded_rows :
    UploadOutside → String → String → UploadedFile → InspectedUpload → Option String → NewDocument
unfolding s3_key
uploaded_rows o kb_id name file inspected correlation_id = record {
  kb_id = kb_id;
  name = name;
  mimetype = inspected.mime_type;
  storage_bucket = o.rows.s3_bucket;
  s3_key = s3_key kb_id (o.content_hash file.buffer) inspected.storage_filename;
  content_hash = o.content_hash file.buffer;
  correlation_id = correlation_id;
}

module _ (p : Prisma) where
  -- `uploadFile`: the object is there under its key, or the error of the store is thrown.
  unfoldable pub upload_file : Bool → String → String → Exec (Db p) Unit
  upload_file up bucket key = do
    guard up fault
    modify (λ (db : Db p). record db { objects = (bucket, key) ∷ db.objects })

  -- The rows of an upload, the job in the queue, the audit log and the view.
  unfoldable pub finish_upload :
      UploadOutside → AuthenticatedUser → NewDocument → Exec (Db p) DocumentView
  unfolding create_document_records find_one
  finish_upload o u n = do
    job ← create_document_records p o.rows n
    enqueue_ingest_job p o.rows job
    log_action p (record {
      actor_id = some u.id;
      action = "DOCUMENT_UPLOAD";
      entity_type = "Document";
      entity_id = o.rows.new_document_id;
      kb_id = some n.kb_id;
    })
    find_one p o.rows.new_document_id u

  unfoldable pub upload_document :
      UploadOutside
      → Option String
      → String
      → String
      → UploadedFile
      → AuthenticatedUser
      → Exec (Db p) DocumentView
  unfolding inspect_uploaded_document sanitize_display_name upload_file uploaded_rows finish_upload
  upload_document o correlation_id kb_id name file u = do
    guard (not (is_empty file.buffer)) (bad_request "Document file is required")
    guard (leb file.size o.upload_max_bytes)
        (bad_request "Uploaded file exceeds the configured size limit")
    inspected ← lift (inspect_uploaded_document o.tools file)
    assert_kb_access p kb_id u editors
    safe_name ← lift (sanitize_display_name o.tools name)
    let n = uploaded_rows o kb_id safe_name file inspected correlation_id
    upload_file o.storage_up n.storage_bucket n.s3_key
    finish_upload o u n
