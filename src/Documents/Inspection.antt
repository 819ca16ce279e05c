-- ===== src/Documents/Inspection.antt =====
-- services/api/src/documents/document-upload.helpers.ts: what type a file has by its content, its
-- name and its declaration, and whether they agree. A byte is a number below 256. The functions of
-- the language and of `path` on texts are the fields of `FileTools`.
pub mod Accepted
use rag_stack_monorepo.Prelude.{
  ℕ, ◌+◌, ◌-◌, ◌*◌, ◌/◌, ◌%◌, max, String, refl, Bool, true, false, not, ◌&&◌, ◌||◌, Option, none,
  some, List, [], ◌∷◌, arith, ◌==◌, eq_iff, eq_refl, ltb, leb, eqb, if◌then◌else◌, truthy,
  string_eq, pair_eq, length, take, append,
}
use rag_stack_monorepo.Exec.{bad_request, Result, ok, err}
use rag_stack_monorepo.Chat.{contains_string}

pub record FileTools : Type 0 where
  pub to_lower_case : String → String
  -- path.basename(name), path.extname(name)
  pub basename : String → String
  pub extname : String → String
  -- the stem of a name, given the extension: cleaned, at most 80 characters
  pub clean_stem : String → String → String
  -- extension.replace(/[^.a-z0-9]/g, '')
  pub clean_extension : String → String
  -- the display name in normal form, without control characters and runs of blanks, trimmed
  pub clean_name : String → String
  -- slice(0, n)
  pub first : ℕ → String → String
  -- buffer.includes(text)
  pub holds : List ℕ → String → Bool

pub record UploadedFile : Type 0 where
  pub original_name : Option String
  pub mimetype : Option String
  pub size : ℕ
  pub buffer : List ℕ

pub record InspectedUpload : Type 0 where
  pub mime_type : String
  pub storage_filename : String

abbrev pub docx_mime_type : String
docx_mime_type = "application/vnd.openxmlformats-officedocument.wordprocessingml.document"

abbrev pub pdf_mime_type : String
pdf_mime_type = "application/pdf"

abbrev pub text_mime_type : String
text_mime_type = "text/plain"

-- `%PDF-`, where a byte loses its highest bit in the encoding `ascii`
abbrev pub starts_as_pdf : List ℕ → Bool
starts_as_pdf (a ∷ b ∷ c ∷ d ∷ e ∷ rest) =
    eqb (a % 128) 37
    && (eqb (b % 128) 80 && (eqb (c % 128) 68 && (eqb (d % 128) 70 && eqb (e % 128) 45)))
starts_as_pdf _ = false

abbrev one_of : ℕ → ℕ → ℕ → ℕ → Bool
one_of a b c n = eqb n a || (eqb n b || eqb n c)

abbrev pub has_zip_header : List ℕ → Bool
has_zip_header (a ∷ b ∷ c ∷ d ∷ rest) = eqb a 80 && (eqb b 75 && (one_of 3 5 7 c && one_of 4 6 8 d))
has_zip_header _ = false

-- neither blank, printable, nor of a longer encoding
abbrev pub is_suspicious : ℕ → Bool
is_suspicious byte =
    not (eqb byte 9 || (eqb byte 10 || eqb byte 13))
    && (not (leb 32 byte && leb byte 126) && not (leb 128 byte))

-- The number of suspicious bytes; there is none if a byte is 0.
unfoldable pub suspicious_byte_count : List ℕ → Option ℕ
suspicious_byte_count [] = some 0
suspicious_byte_count (b ∷ bs) =
    let rest = suspicious_byte_count bs in
    if eqb b 0
    then none
    else elim rest [ none ↦ none | some n ↦ some (if is_suspicious b then n + 1 else n) ]

unfoldable pub is_likely_text_buffer : List ℕ → Bool
unfolding suspicious_byte_count
is_likely_text_buffer buffer =
    let sample = take 4096 buffer in
    elim (suspicious_byte_count sample) [
      | none ↦ false
      | some n ↦ ltb (n * 100) (2 * max (length sample) 1)
    ]

unfoldable pub extension_to_mime_type : String → Option String
extension_to_mime_type extension =
    if extension == ".pdf"
    then some pdf_mime_type
    else if extension == ".txt"
    then some text_mime_type
    else if extension == ".docx"
    then some docx_mime_type
    else none

module _ (k : FileTools) where
  unfoldable pub detect_mime_type : List ℕ → Option String
  unfolding is_likely_text_buffer
  detect_mime_type buffer =
      if starts_as_pdf buffer
      then some pdf_mime_type
      else if has_zip_header buffer
          && (k.holds buffer "[Content_Types].xml" && k.holds buffer "word/document.xml")
      then some docx_mime_type
      else if is_likely_text_buffer buffer
      then some text_mime_type
      else none

  abbrev supported : String → Bool
  supported = contains_string (pdf_mime_type ∷ text_mime_type ∷ docx_mime_type ∷ [])

  unfoldable pub normalize_declared_mime_type : Option String → Result (Option String)
  normalize_declared_mime_type declared = elim (truthy declared) [
    | none ↦ ok none
    | some m ↦
        if m == "application/octet-stream"
        then ok none
        else if supported (k.to_lower_case m)
        then ok (some (k.to_lower_case m))
        else err (bad_request "Unsupported declared MIME type")
  ]

  abbrev original_or_document : Option String → String
  original_or_document name = elim (truthy name) [ none ↦ "document" | some n ↦ n ]

  unfoldable pub sanitize_storage_filename : Option String → Result String
  sanitize_storage_filename name =
      let base = k.basename (original_or_document name) in
      let extension = k.to_lower_case (k.extname base) in
      let stem = k.clean_stem base extension in
      let safe = k.clean_extension extension in
      if (stem == "") || (safe == "")
      then err (bad_request "Invalid file name")
      else ok (append stem safe)

  unfoldable pub sanitize_display_name : String → Result String
  sanitize_display_name name =
      let normalized = k.clean_name name in
      if normalized == ""
      then err (bad_request "Document name is required")
      else ok (k.first 200 normalized)

  abbrev pub differs : Option String → String → Bool
  differs none detected = false
  differs (some declared) detected = not (declared == detected)

  -- The three types beside each other.
  unfoldable pub agree : Option String → Option String → Option String → Result String
  agree none detected declared = err (bad_request "Unsupported file type")
  agree (some extension) none declared = err (bad_request "Unsupported file type")
  agree (some extension) (some detected) declared =
      if not (extension == detected)
      then err (bad_request "File extension does not match file content")
      else if differs declared detected
      then err (bad_request "Declared MIME type does not match file content")
      else ok detected

  abbrev pub named : String → Result String → Result InspectedUpload
  named filename (err e) = err e
  named filename (ok mime) = ok (record { mime_type = mime; storage_filename = filename })

  -- The steps in their order: the name, the declaration, the comparison.
  abbrev pub declared_step : UploadedFile → String → Result (Option String) → Result InspectedUpload
  declared_step file filename (err e) = err e
  declared_step file filename (ok declared) = named filename (
      agree (extension_to_mime_type (k.to_lower_case (k.extname filename)))
        (detect_mime_type file.buffer) declared)

  abbrev pub name_step : UploadedFile → Result String → Result InspectedUpload
  name_step file (err e) = err e
  name_step file (ok filename) =
      declared_step file filename (normalize_declared_mime_type file.mimetype)

  unfoldable pub inspect_uploaded_document : UploadedFile → Result InspectedUpload
  unfolding sanitize_storage_filename normalize_declared_mime_type agree extension_to_mime_type
      detect_mime_type
  inspect_uploaded_document file = name_step file (sanitize_storage_filename file.original_name)
