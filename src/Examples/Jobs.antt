-- ===== src/Examples/Jobs.antt =====
-- Reindexing and retrying.
use rag_stack_monorepo.Prelude.{
  ℕ, ◌<◌, String, ◌≡◌, refl, Bool, true, false, none, some, [], ◌∷◌, arith, string_eq, pair_eq,
}
use rag_stack_monorepo.Exec.{internal, ok, err}
use rag_stack_monorepo.Examples.{
  running, world, ann, operator_user, broken_job, first_version, manual,
}
use rag_stack_monorepo.Prisma.Lists.{list_prisma}
use rag_stack_monorepo.Schema.{IngestJob}
use rag_stack_monorepo.Ingest.Jobs.{OneOpen}
use rag_stack_monorepo.Documents.{Outside, reindex_document, find_open_job}
use rag_stack_monorepo.Documents.Reindex.{reindex_document-OneOpen}
use rag_stack_monorepo.Ops.{Existing, RetryView, retry_ingest_job, latest_job}
use rag_stack_monorepo.Ops.Retry.{retry_ingest_job-OneOpen}
use rag_stack_monorepo.Ops.Outcome.{
  Retriable, retry_queues, retry_queue_down, retry_again, retry_payload, retry_view, requeued,
  marked, retry_audit,
}

abbrev pub outside : ℕ → String → Bool → Outside
outside now new_job_id queue_up = record {
  now = now;
  new_document_id = "doc2";
  new_version_id = "ver2";
  new_job_id = new_job_id;
  embeddings_available = true;
  ingest_max_attempts = none;
  s3_bucket = "bucket";
  commits = true;
  marks = true;
  queue_up = queue_up;
}

abbrev broken : Existing
broken = record { job = broken_job; version = first_version; document = manual }

pub world-OneOpen : OneOpen list_prisma world.jobs
unfolding running
world-OneOpen i j a b f g oa ob same = ground arith

reindex_document-OneOpen_example :
    OneOpen list_prisma
      (reindex_document list_prisma (outside 10 "job2" true) none "doc" ann world).1.jobs
reindex_document-OneOpen_example =
    reindex_document-OneOpen list_prisma (outside 10 "job2" true) none "doc" ann world world-OneOpen

retry_ingest_job-OneOpen_example :
    OneOpen list_prisma
      (retry_ingest_job list_prisma (outside 10 "job2" true) none "job" operator_user world).1.jobs
retry_ingest_job-OneOpen_example =
    retry_ingest_job-OneOpen list_prisma (outside 10 "job2" true) none "job" operator_user world
      world-OneOpen

world-Retriable : Retriable list_prisma world "job" broken
unfolding running latest_job find_open_job
world-Retriable = record {
  job = refl;
  version = refl;
  document = refl;
  failed = refl;
  newest = refl;
  idle = refl;
}

retry_queues_example :
    retry_ingest_job list_prisma (outside 10 "job2" true) none "job" operator_user world ≡ (
      ok (retry_view list_prisma (outside 10 "job2" true) none broken "job"),
      record (requeued list_prisma (outside 10 "job2" true) none broken world) {
        queue = retry_payload list_prisma (outside 10 "job2" true) none broken ∷ [];
        audit = retry_audit list_prisma (outside 10 "job2" true) none broken operator_user ∷ [];
      },
    )
unfolding running
retry_queues_example =
    retry_queues list_prisma (outside 10 "job2" true) none broken "job" operator_user world refl
      world-Retriable refl refl

retry_queue_down_example :
    retry_ingest_job list_prisma (outside 10 "job2" false) none "job" operator_user world ≡ (
      err (internal "Failed to enqueue retry job"),
      marked list_prisma (outside 10 "job2" false) none broken "Failed to enqueue retry job" world,
    )
unfolding running
retry_queue_down_example =
    retry_queue_down list_prisma (outside 10 "job2" false) none broken "job" operator_user world
      refl world-Retriable refl refl refl

world_older :
    (id : String) (j : IngestJob)
    → list_prisma.find_unique id world.jobs ≡ some j
    → j.document_version_id ≡ "ver"
    → j.created_at < 10
unfolding running
world_older id j f own = ground arith

retry_again_example :
    (v : RetryView) × ((retry_ingest_job list_prisma
        (outside 20 "job3" true)
        none
        "job2"
        operator_user
        (retry_ingest_job list_prisma (outside 10 "job2" false) none "job" operator_user world).1).0
      ≡ ok v)
unfolding running
retry_again_example =
    retry_again list_prisma (outside 10 "job2" false) (outside 20 "job3" true) none none broken
      "job" operator_user world refl world-Retriable world_older refl refl refl refl refl
