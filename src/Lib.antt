-- ===== src/Lib.antt =====
-- A verification library for LA_muni_RAG, a multi-tenant server that answers municipal questions
-- from an indexed corpus. A request carries a bearer token (src/security), which gives a principal
-- with a tenant, roles and permissions; what it does to the database happens in a transaction of
-- that tenant; a municipal workflow goes through the states of src/workflowLifecycle; documents
-- are cut into chunks and embedded (src/embeddings); a question is answered from three searches,
-- which src/retrieval joins, and src/evidence.ts and src/answer.ts turn the result into evidence
-- and a draft answer.
--
-- Base: texts are lists of UTF-16 code units, a call that may throw is a `Result`, and a value
-- from JSON is a `Json`. `Base.Text` writes out trim, toLowerCase on ASCII, join and the fixed
-- patterns.
--
-- Security: `Roles` and `Rbac` are src/security/rbac.ts and src/security/errors.ts, `Tenant` is
-- src/security/tenant.ts with the calls of withTenantTransaction as a trace, and `Auth` is
-- src/security/auth.ts with authenticateByCredentialHash of src/security/repository.ts. The
-- digest, the store of credentials and the database's answers are parameters.
--
-- Workflow: `Types`, `Checks` and `Machine` are types.ts and stateMachine.ts of
-- src/workflowLifecycle: one function for each command. Time stamps and new identifiers are
-- arguments. `History` applies commands one after the other; the other modules hold the
-- invariants.
--
-- Retrieval: `Types`, `Dedupe`, `Score` and `Hybrid` are types.ts, dedupe.ts, hybridScore.ts and
-- hybridRetriever.ts of src/retrieval. Floating-point numbers are an abstract `Floats`, SHA-256
-- and localeCompare are arguments, and Array.prototype.sort is a stable sort. A theorem that needs
-- it says that the digest has 64 digits, or that the comparisons are consistent.
--
-- Embeddings: `Split` is splitLongText and `Planner` the rest of src/embeddings/chunkPlanner.ts
-- with src/embeddings/chunkIdentity.ts; `Normalize` is src/ingestion/normalize.ts; `Validation`
-- and `Indexer` are validation.ts and indexer.ts of src/embeddings. The provider and the
-- repository are given by their answers to each call, which may be errors. The loop over windows
-- and the loop over batches run on fuel: the size of the paragraph and the number of chunks, which
-- are enough since their steps are at least one.
--
-- Evidence: `Types`, `Convert` and `Find` are src/evidence.ts, src/embeddings/queryEmbedding.ts
-- and src/retrieval/vectorRetriever.ts, and `Answer` is src/answer.ts. The two text searches are
-- parameters. Of two searches that fail at once the model reports the phrase search's error.
--
-- Ingestion: `Types` and `Identity` are src/ingestion/jobTypes.ts and jobIdentity.ts. `Store`
-- writes each SQL statement of src/ingestion/ingestionJobService.ts as a function on the tables,
-- with the unique indexes and the acceptance check of src/db/migrations, those of the queue in
-- `Queue`; `Rows` and `Service` are its checks and helpers, `Enqueue`, `Lease` and `Settle` its
-- operations, one function each. The digest, the text of JSON.stringify, the vector repository's
-- replacement, the time of each statement, the rows that other transactions have locked and the
-- generated identifiers are arguments. A transaction takes effect as a whole or not at all, and
-- transactions follow one another. `Step` and `Table` say how a row and the table may change and
-- what the CHECK constraints and indexes demand, the `Changes` modules are about what each
-- operation does to the table, `View` is the abstract job, `Moves` follows one row, and `History` runs
-- any list of calls, whose moves of a job `Count` counts. `Turn` and `Held` spell out, by the columns of
-- the rows, when a job may be leased and when a lease is held. Messages, metrics and the details of audit events are left out. `Artifact` is
-- src/ingestion/acceptedArtifact.ts over the inspection of src/sources/artifactSafety.ts as a
-- parameter, and `Failure` and `Worker` one run of src/ingestion/ingestionWorker.ts over the
-- modelled service and the modelled preparation of embeddings; the beats of its timer are lists,
-- one before each checkpoint.
--
-- Not modelled: HTTP, rendering, the extractors, the acceptance service, procedures and sessions,
-- and the SQL of the other parts. A number that a policy or a page holds is a natural number, so
-- negative and fractional ones, which the code refuses, do not occur.
pub mod Base
pub mod Security
pub mod Workflow
pub mod Retrieval
pub mod Embeddings
pub mod Evidence
pub mod Ingestion
