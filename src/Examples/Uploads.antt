-- ===== src/Examples/Uploads.antt =====
-- The upload of a small text, and a local answer.
use rag_stack_monorepo.Prelude.{
  ◌≡◌, refl, true, false, none, some, [], ◌∷◌, arith, string_eq, pair_eq, ltb, ◌*◌, max,
}
use rag_stack_monorepo.Exec.{ok}
use rag_stack_monorepo.Examples.{running, world, ann}
use rag_stack_monorepo.Examples.Jobs.{outside, world-OneOpen}
use rag_stack_monorepo.Examples.Chat.{found}
use rag_stack_monorepo.Prisma.Lists.{list_prisma}
use rag_stack_monorepo.Ingest.Jobs.{OneOpen, NoneOpen}
use rag_stack_monorepo.Documents.Inspection.{
  FileTools, UploadedFile, InspectedUpload, inspect_uploaded_document,
}
use rag_stack_monorepo.Documents.Inspection.Accepted.{Agreed, inspect_uploaded_document-Agreed}
use rag_stack_monorepo.Documents.Upload.{UploadOutside, upload_document}
use rag_stack_monorepo.Documents.Upload.Jobs.{upload_document-OneOpen}
use rag_stack_monorepo.Chat.LocalAnswer.{LocalTools, create_grounded_answer}
use rag_stack_monorepo.Chat.LocalAnswer.Chosen.{Extracted, create_grounded_answer-Extracted}

abbrev tools : FileTools
tools = record {
  to_lower_case = λ s. s;
  basename = λ s. s;
  extname = λ _. ".txt";
  clean_stem = λ _ _. "notes";
  clean_extension = λ s. s;
  clean_name = λ s. s;
  first = λ _ s. s;
  holds = λ _ _. false;
}

abbrev notes : UploadedFile
notes = record {
  original_name = some "notes.txt";
  mimetype = some "text/plain";
  size = 3;
  buffer = 72 ∷ 105 ∷ 10 ∷ [];
}

abbrev accepted_notes : InspectedUpload
accepted_notes = record { mime_type = "text/plain"; storage_filename = "notes.txt" }

notes_accepted : inspect_uploaded_document tools notes ≡ ok accepted_notes
unfolding inspect_uploaded_document
notes_accepted = refl

inspect_uploaded_document-Agreed_example : Agreed tools notes accepted_notes
inspect_uploaded_document-Agreed_example =
    inspect_uploaded_document-Agreed tools notes accepted_notes notes_accepted

abbrev upload_outside : UploadOutside
upload_outside = record {
  rows = outside 10 "job2" true;
  tools = tools;
  upload_max_bytes = 1000;
  content_hash = λ _. "hash";
  storage_up = true;
}

version_idle : NoneOpen list_prisma "ver2" world.jobs
unfolding running
version_idle i j f same = ground arith

upload_document-OneOpen_example :
    OneOpen list_prisma
      (upload_document list_prisma upload_outside none "kb" "Notes" notes ann world).1.jobs
upload_document-OneOpen_example =
    upload_document-OneOpen list_prisma upload_outside none "kb" "Notes" notes ann world
      world-OneOpen version_idle

abbrev local_tools : LocalTools
local_tools = record {
  size = λ _. 5;
  first = λ _ s. s;
  words = λ s. s ∷ [];
  build_snippet = λ _. none;
  clean_snippet = λ s. s;
  weak_beside = λ top score. ltb (4 * score) (max 320000 (3 * top));
  ends_sentence = λ _. true;
}

create_grounded_answer-Extracted_example :
    Extracted found (create_grounded_answer local_tools "refund" found)
create_grounded_answer-Extracted_example =
    create_grounded_answer-Extracted local_tools "refund" found
