-- ===== src/Documents/Upload/Jobs.antt =====
-- The jobs of the new version, and the stored file, after `uploadDocument` of
-- services/api/src/documents/documents.service.ts.
use rag_stack_monorepo.Prelude.{
  String, ◌≡◌, refl, sym, Bool, string_eq, pair_eq, ◌∷◌, Option, not, leb,
}
use rag_stack_monorepo.Exec.{
  HttpError, internal, Result, ok, err, modify, replace_error, transaction, ◌>>◌, lift,
}
use rag_stack_monorepo.Prisma.{Prisma}
use mathlib.Core.Path.{subst}
use rag_stack_monorepo.Exec.Keeps.{
  Leads, Keeps-bind, Leads-bind, Leads-transaction, after_guard_keeps,
}
use rag_stack_monorepo.Schema.{Db}
use rag_stack_monorepo.Authorization.Roles.{AuthenticatedUser}
use rag_stack_monorepo.Ingest.{waiting_job}
use rag_stack_monorepo.Ingest.Jobs.{
  OneOpen, NoneOpen, enqueue_or_fail-One, Idle, One, Idle-One, create_job-One, audit-One,
}
use rag_stack_monorepo.Documents.{
  write_document_records, Outside, NewDocument, new_job, create_document_records,
  enqueue_ingest_job, assert_kb_access, editors,
}
use rag_stack_monorepo.Documents.Reindex.{find_one_reads}
use rag_stack_monorepo.Documents.Upload.{
  UploadOutside, upload_file, finish_upload, upload_document, UploadedFile, is_empty, uploaded_rows,
}
use rag_stack_monorepo.Documents.Inspection.{
  UploadedFile, inspect_uploaded_document, sanitize_display_name,
}
use rag_stack_monorepo.KnowledgeBases.{assert_kb_access}
use rag_stack_monorepo.KnowledgeBases.Owners.{access_reads}

-- Another error in its place leaves the state as it is.
replaced :
    {S A : Type 0} (Q : S → Type 0) (e : HttpError) (r : Result A × S)
    → Q r.1
    → Q (replace_error e r).1
replaced Q e (ok a, s) h = h
replaced Q e (err x, s) h = h

module _ (p : Prisma) where
  documents-Idle :
      (version_id : String) (f : Db p → Db p)
      → ((db : Db p) → (f db).jobs ≡ db.jobs)
      → Leads (Idle p version_id) (Idle p version_id) (modify f)
  unfolding Idle
  documents-Idle version_id f same db h =
      subst (λ jobs. OneOpen p jobs × NoneOpen p version_id jobs) (sym (same db)) h

  -- The rows of a new document, whose version had no job, leave at most one job of it.
  write-One :
      (o : Outside) (n : NewDocument)
      → Leads (Idle p o.new_version_id) (One p) (write_document_records p o n)
  unfolding write_document_records new_job waiting_job
  write-One o n =
      Leads-bind (Idle p o.new_version_id) (Idle p o.new_version_id) (One p) _ _
        (Idle-One p o.new_version_id) (documents-Idle o.new_version_id _ (λ _. refl))
        λ _ _ t _.
          Leads-bind (Idle p o.new_version_id) (Idle p o.new_version_id) (One p) _ _
            (Idle-One p o.new_version_id) (documents-Idle o.new_version_id _ (λ _. refl))
            (λ _ _ v _.
              Leads-bind (Idle p o.new_version_id) (One p) (One p) _ _ (λ _ g. g)
                (create_job-One p o.new_version_id o.new_job_id _ refl) (λ _ _ _ _ g. g) v)
            t

  create-One :
      (o : Outside) (n : NewDocument)
      → Leads (Idle p o.new_version_id) (One p) (create_document_records p o n)
  unfolding create_document_records
  create-One o n db h =
      replaced (One p) (internal "Failed to prepare document ingestion")
        (transaction o.commits (write_document_records p o n) db)
        (Leads-transaction (Idle p o.new_version_id) (One p) o.commits
          (write_document_records p o n) (Idle-One p o.new_version_id) (write-One o n) db h)

  finish-One :
      (o : UploadOutside) (u : AuthenticatedUser) (n : NewDocument)
      → Leads (Idle p o.rows.new_version_id) (One p) (finish_upload p o u n)
  unfolding finish_upload
  finish-One o u n =
      Leads-bind (Idle p o.rows.new_version_id) (One p) (One p) _ _ (λ _ h. h) (create-One o.rows n)
        λ job _ v _.
          Keeps-bind (One p) (enqueue_ingest_job p o.rows job) _
            (enqueue_or_fail-One p o.rows.queue_up o.rows.marks o.rows.now job _)
            (λ _ _ t _.
              Keeps-bind (One p) _ _ (λ w g. audit-One p w _ g)
                (λ _ _ w _ g. subst (One p) (sym (find_one_reads p o.rows.new_document_id u w)) g)
                t)
            v

  upload_file-Idle :
      (version_id : String) (up : Bool) (bucket key : String)
      → Leads (Idle p version_id) (Idle p version_id) (upload_file p up bucket key)
  unfolding upload_file
  upload_file-Idle version_id up bucket key db h =
      after_guard_keeps (Idle p version_id) up _ _ db h λ _.
        documents-Idle version_id (λ (d : Db p). record d { objects = (bucket, key) ∷ d.objects })
          (λ _. refl) db h

  stored-One :
      (o : UploadOutside) (u : AuthenticatedUser) (n : NewDocument) (bucket key : String)
      → Leads
          (Idle p o.rows.new_version_id)
          (One p)
          (upload_file p o.storage_up bucket key >> finish_upload p o u n)
  stored-One o u n bucket key =
      Leads-bind (Idle p o.rows.new_version_id) (Idle p o.rows.new_version_id) (One p) _ _
        (Idle-One p o.rows.new_version_id)
        (upload_file-Idle o.rows.new_version_id o.storage_up bucket key)
        λ _ _ t _. finish-One o u n t

  upload-One :
      (o : UploadOutside) (correlation_id : Option String) (kb_id name : String)
      (file : UploadedFile) (u : AuthenticatedUser)
      → Leads
          (Idle p o.rows.new_version_id)
          (One p)
          (upload_document p o correlation_id kb_id name file u)
  unfolding upload_document
  upload-One o correlation_id kb_id name file u db h =
      let V = Idle p o.rows.new_version_id in
      let out = Idle-One p o.rows.new_version_id in
      after_guard_keeps (One p) (not (is_empty file.buffer)) _ _ db (out db h) λ _.
        after_guard_keeps (One p) (leb file.size o.upload_max_bytes) _ _ db (out db h) λ _.
          Leads-bind V V (One p) (lift (inspect_uploaded_document o.tools file)) _ out (λ _ g. g)
            (λ inspected _ t _.
              Leads-bind V V (One p) (assert_kb_access p kb_id u editors) _ out
                (λ v g. subst V (sym (access_reads p kb_id u editors v)) g)
                (λ _ _ w _.
                  Leads-bind V V (One p) (lift (sanitize_display_name o.tools name)) _ out
                    (λ _ g. g)
                    (λ safe_name _ x _.
                      stored-One o u (uploaded_rows o kb_id safe_name file inspected correlation_id)
                        _ _ x)
                    w)
                t)
            db h

  -- If no job of the version that an upload would create waits or runs before, an upload keeps it true
  -- that of each version at most one ingest job waits or runs: whatever the file, and on every path,
  -- also where the object store, the database or the queue fails.
  pub upload_document-OneOpen :
      (o : UploadOutside) (correlation_id : Option String) (kb_id name : String)
      (file : UploadedFile) (u : AuthenticatedUser) (db : Db p)
      → OneOpen p db.jobs
      → NoneOpen p o.rows.new_version_id db.jobs
      → OneOpen p (upload_document p o correlation_id kb_id name file u db).1.jobs
  unfolding One Idle
  upload_document-OneOpen o correlation_id kb_id name file u db one none_open =
      upload-One o correlation_id kb_id name file u db (one, none_open)
