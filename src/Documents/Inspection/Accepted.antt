-- ===== src/Documents/Inspection/Accepted.antt =====
-- The files that `inspectUploadedDocument` of
-- services/api/src/documents/document-upload.helpers.ts lets pass.
use rag_stack_monorepo.Prelude.{
  ℕ, String, ◌≡◌, refl, sym, ap, ◌∙◌, ◌≢◌, ◌⊎◌, inl, inr, false, Option, none, some, List, [], ◌∷◌,
  arith, ◌==◌, eq_iff, eqb, Bool-cases, Option-cases, truthy, string_eq, pair_eq, take, All,
}
use rag_stack_monorepo.Exec.{Result, ok, err}
use rag_stack_monorepo.Documents.Inspection.{
  FileTools, UploadedFile, InspectedUpload, text_mime_type, pdf_mime_type, docx_mime_type,
  suspicious_byte_count, is_likely_text_buffer, extension_to_mime_type, detect_mime_type,
  normalize_declared_mime_type, sanitize_storage_filename, agree, differs, named, declared_step,
  name_step, inspect_uploaded_document,
}

ok_inj : {A : Type 0} {a b : A} → ◌≡◌ {A = Result A} (ok a) (ok b) → a ≡ b
ok_inj q = ground arith

-- The type is that of the content and of the stored name's extension, and of the declaration unless
-- none was made.
pub record Agreed (k : FileTools) (file : UploadedFile) (r : InspectedUpload) : Type 0 where
  pub content : detect_mime_type k file.buffer ≡ some r.mime_type
  pub extension :
      extension_to_mime_type (k.to_lower_case (k.extname r.storage_filename)) ≡ some r.mime_type
  pub declaration :
      (m : String)
      → truthy file.mimetype ≡ some m
      → (m ≡ "application/octet-stream") ⊎ (k.to_lower_case m ≡ r.mime_type)
  pub no_zeros : r.mime_type ≡ text_mime_type → All (λ b. b ≢ 0) (take 4096 file.buffer)

-- The names of the types are different.
text_not_pdf : text_mime_type ≢ pdf_mime_type
text_not_pdf e = cc ((eq_iff text_mime_type pdf_mime_type).1 e)

text_not_docx : text_mime_type ≢ docx_mime_type
text_not_docx e = cc ((eq_iff text_mime_type docx_mime_type).1 e)

nonzero : (bs : List ℕ) (n : ℕ) → suspicious_byte_count bs ≡ some n → All (λ b. b ≢ 0) bs
unfolding suspicious_byte_count
nonzero [] n h = tt
nonzero (b ∷ bs) n h = elim (Bool-cases (eqb b 0)) [
  | inl z ↦ absurd (ground arith)
  | inr z ↦ elim (Option-cases (suspicious_byte_count bs)) [
    | inl q ↦ absurd (ground arith)
    | inr (m, q) ↦ (λ e. ground arith, nonzero bs m q)
  ]
]

module _ (k : FileTools) where
  agree_lem :
      (extension detected declared : Option String) (mime : String)
      → agree k extension detected declared ≡ ok mime
      → (extension ≡ some mime) × ((detected ≡ some mime) × (differs k declared mime ≡ false))
  unfolding agree
  agree_lem none detected declared mime h = absurd (ground arith)
  agree_lem (some e) none declared mime h = absurd (ground arith)
  agree_lem (some e) (some d) declared mime h = ground (arith, eq_iff e d)

  text_lem :
      (buffer : List ℕ)
      → detect_mime_type k buffer ≡ some text_mime_type
      → All (λ b. b ≢ 0) (take 4096 buffer)
  unfolding detect_mime_type is_likely_text_buffer
  text_lem buffer h = elim (Option-cases (suspicious_byte_count (take 4096 buffer))) [
    | inl q ↦ absurd (ground (arith, text_not_pdf, text_not_docx))
    | inr (n, q) ↦ nonzero (take 4096 buffer) n q
  ]

  named_lem :
      (filename : String) (mime : Result String) (r : InspectedUpload)
      → named k filename mime ≡ ok r
      → (mime ≡ ok r.mime_type) × (r.storage_filename ≡ filename)
  named_lem filename (err e) r h = absurd (ground arith)
  named_lem filename (ok m) r h =
      let same = ok_inj h in
      (
        ap (λ (x : InspectedUpload). ok x.mime_type) same,
        sym (ap (λ (x : InspectedUpload). x.storage_filename) same),
      )

  declared_lem :
      (given declared : Option String) (mime m : String)
      → normalize_declared_mime_type k given ≡ ok declared
      → differs k declared mime ≡ false
      → truthy given ≡ some m
      → (m ≡ "application/octet-stream") ⊎ (k.to_lower_case m ≡ mime)
  unfolding normalize_declared_mime_type
  declared_lem given declared mime m h d t =
      let g = rw (normalize_declared_mime_type, t) at h in
      elim (Bool-cases (m == "application/octet-stream")) [
        | inl e ↦ inl ((eq_iff m "application/octet-stream").0 e)
        | inr e ↦ ground (arith, eq_iff (k.to_lower_case m) mime)
      ]

  declared_step_lem :
      (file : UploadedFile) (filename : String) (declared : Result (Option String))
      (r : InspectedUpload)
      → normalize_declared_mime_type k file.mimetype ≡ declared
      → declared_step k file filename declared ≡ ok r
      → Agreed k file r
  declared_step_lem file filename (err e) r n h = absurd (ground arith)
  declared_step_lem file filename (ok declared) r n h =
      let q = named_lem filename _ r h in
      let a = agree_lem _ _ declared r.mime_type q.0 in
      record {
        content = a.1.0;
        extension =
            ap (λ (s : String). extension_to_mime_type (k.to_lower_case (k.extname s))) q.1 ∙ a.0;
        declaration = λ m t. declared_lem file.mimetype declared r.mime_type m n a.1.1 t;
        no_zeros = λ e. text_lem file.buffer (a.1.0 ∙ ap some e);
      }

  -- A file that passes has one type: by its content, by the extension of the name it is stored under,
  -- and by its declaration, unless none or "application/octet-stream" was declared;
  -- and the first 4096 bytes of a text have no zero among them.
  pub inspect_uploaded_document-Agreed :
      (file : UploadedFile) (r : InspectedUpload)
      → inspect_uploaded_document k file ≡ ok r
      → Agreed k file r
  unfolding inspect_uploaded_document
  inspect_uploaded_document-Agreed file r h = go (sanitize_storage_filename k file.original_name) h
    where
      go : (name : Result String) → name_step k file name ≡ ok r → Agreed k file r
      go (err e) g = absurd (ground arith)
      go (ok filename) g =
          declared_step_lem file filename (normalize_declared_mime_type k file.mimetype) r refl g
