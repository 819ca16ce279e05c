-- ===== src/Lib.antt =====
-- The API of rag-stack-monorepo: a service in which knowledge bases hold documents, a queue of
-- ingest jobs has them cut into chunks, and questions are answered from the chunks with citations.
--
-- The parts, and the files that model them (paths from the repository's root):
--   Schema: the rows of services/api/prisma/schema.prisma and the state of the API, which all
--     handlers share. A handler is an action `Exec (Db p) A` (Exec): it takes the state, and gives a
--     result or an HTTP exception together with the state it leaves.
--   Prisma: the database client as a parameter, with the documented laws of findUnique, put (create,
--     update, upsert), delete, updateMany and findMany; Prisma/Lists fills it with lists of rows.
--   Authorization (Roles, Where, Access): common/authorization/authorization.service.ts and
--     common/guards/roles.guard.ts of services/api/src. The `where` filters are data, and
--     `kb_matches`, `document_matches` and `conversation_matches` say which rows they select.
--   KnowledgeBases: knowledge-bases/knowledge-bases.service.ts, one action for each method, and the
--     search for a slug in KnowledgeBases/Slug.
--   Auth: auth/auth.service.ts and auth/jwt.strategy.ts; hashing and tokens are fields of
--     `Credentials`.
--   Common: Common/Audit is what common/audit/audit.service.ts lets into the payload of the audit
--     log, and Common/Metrics is common/observability/metrics.service.ts.
--   Config: config/runtime-config.ts; the handlers take the settings as arguments.
--   Ingest: documents/ingest-job.helpers.ts, which Documents (documents/documents.service.ts and
--     document-view.mapper.ts) and Ops (ops/ops.service.ts) use to queue the work on a version.
--     Documents/Inspection is documents/document-upload.helpers.ts and Documents/Upload is
--     `uploadDocument`, with `uploadFile` of common/storage/storage.service.ts.
--   Chat: the types of chat/chat.types.ts; Chat/Merge is chat/hybrid-scorer.service.ts, Chat/Dedup
--     and Chat/Retrieval are chat/retrieval.service.ts, Chat/Citations is
--     chat/citation-assembler.service.ts, Chat/Conversations is
--     chat/conversation-persistence.service.ts, Chat/LocalAnswer is
--     chat/local-grounded-answer.service.ts, and Chat/Ask, which composes them but takes the answer
--     of the model or of LocalAnswer as a parameter, is chat/chat.service.ts.
--   Evals: Evals/Types and Evals/Rubric are evals/eval.types.ts and evals/eval-rubric.ts,
--     Evals/Scoring is evals/eval-scoring.service.ts, Evals/Reporting, Evals/Stored and
--     Evals/Comparison are evals/eval-reporting.utils.ts, and Evals/Execution, Evals/Sets and
--     Evals/Runs are evals/evals.service.ts, which uses the retrieval and the citations of Chat.
--   Json: the values of the columns of type Json.
--   Prelude: names and lemmas that all of these use. Examples: runs on a small world.
--
-- Methods keep their names in this spelling: `retryIngestJob` is `retry_ingest_job`. The tail of a
-- long method is a definition of its own, named for what it does. Identifiers that the database
-- makes, the clock, the configuration, and whether a transaction commits or the queue answers are
-- arguments, in a record `Outside` where there are many. A transaction that throws or does not
-- commit leaves the state as it was.
--
-- Numbers are natural numbers. Scores are in millionths, as `toFixed(6)` leaves them, those of Evals
-- in ten-thousandths, durations of Common/Metrics in hundredths of a millisecond, and dates in
-- milliseconds. The order of a `findMany` is a number of the row. Loops are recursion on lists, and
-- the search for a slug runs on fuel, one more than there are knowledge bases. The bounds of the code
-- are kept: 200 failed jobs and 100 messages at most in one answer, and the limits of
-- chat.constants.ts as arguments. Where the code compares or rounds
-- fractions in floating point, it is either a parameter or, as the rates of Evals/Reporting and the
-- overlap of texts in Chat, computed with exact fractions, which can differ from the code at a tie.
-- The texts of slugs are compared as they are;
-- the column ignores case, and slugify leaves none.
--
-- The writes of one handler go through, with these exceptions: a transaction that does not commit, a
-- queue or an object store that is down, and in Evals/Runs every write, each of which can fail.
--
-- Not modelled: the floating-point formulas of the scores and the text functions on Unicode
-- classes (parameters of Chat), the SQL of retrieval-query.repository.ts (the interface `Searches`,
-- which assumes that its rows are of the knowledge base asked for), the prompts of chat, openai,
-- health, logging and the HTTP layer of services/api/src, the payloads of the audit rows that the
-- handlers write, and everything outside services/api: the web front end, the
-- worker in Python, the infrastructure. Requests run one after the other; two requests at once are
-- not modelled.
pub mod Prelude
pub mod Json
pub mod Exec
pub mod Prisma
pub mod Schema
pub mod Authorization
pub mod KnowledgeBases
pub mod Auth
pub mod Ingest
pub mod Documents
pub mod Ops
pub mod Chat
pub mod Evals
pub mod Common
pub mod Config
pub mod Examples
