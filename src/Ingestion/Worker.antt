-- ===== src/Ingestion/Worker.antt =====
-- src/ingestion/ingestionWorker.ts over the job service that is modelled. `Surroundings` is what one
-- run meets: the clocks of its calls, the answers of the resolver and of the extractor, which also
-- tells the bytes of the file once it is done, and when the timer beats. Timer beats are put before
-- the checkpoint, or the stop, that they precede; a checkpoint that waits for a beat under way has
-- that beat as its own. The failure observer is left out.
pub mod Laws
pub mod Outcome
use la_muni_rag.Base.{
  ℕ, ◌*◌, ◌/◌, Bool, true, false, ◌&&◌, ◌||◌, not, Option, none, some, List, [], ◌∷◌, ◌++◌, length,
  ltb, leb, ◌==◌, min, max, Result, ok, err, guard, ◌>>=◌, ◌>>◌, get_or, or_else, if◌then◌else◌,
}
use la_muni_rag.Base.Text.{Text, codes, text_eq}
use la_muni_rag.Embeddings.Split.{ChunkPlannerOptions}
use la_muni_rag.Embeddings.Types.{
  NormalizedDocument, EmbeddingVectorRecord, EmbeddingProvider, PreparedEmbeddingRecords,
}
use la_muni_rag.Embeddings.Indexer.{
  max_chunks_per_document, max_embedding_batch_size, prepare_document_embeddings,
}
use la_muni_rag.Ingestion.Types.{
  queued, status_eq, Checked, JobError, job_error, tenant_context, other_failure, JobErrorCode,
  lease_rejected, code_text, pipeline_profile_mismatch, DurableIngestionJob, LeasedIngestionJob,
  VectorReplaceResult, CompleteIngestionJobInput, CompleteIngestionJobResult, FailIngestionJobInput,
  HeartbeatIngestionJobInput,
}
use la_muni_rag.Ingestion.Store.{DocumentVersion}
use la_muni_rag.Ingestion.Rows.{Db, is_safe_error_code}
use la_muni_rag.Ingestion.Lease.{lease_next, heartbeat}
use la_muni_rag.Ingestion.Settle.{complete, fail}
use la_muni_rag.Ingestion.Artifact.{
  WorkerFailure, artifact_failure, ingestion_failure, job_failure, unknown_failure,
  AcceptedArtifact, AcceptedArtifactRequest, ArtifactSafetyPolicy, Inspected,
  verify_accepted_artifact,
}
use la_muni_rag.Ingestion.Failure.{
  ClassifiedWorkerFailure, IngestionWorkerResult, Surroundings, WorkerOptions, after,
  artifact_request, assert_pipeline_matches_provider, bounded_heartbeat_interval, classify_failure,
  failed_job, failure_result, idle, lease_lost, prepared_records, processed_job, retry_scheduled,
  safe_failure, service_call,
}

module _ {Vector Vectors : Type 0} (quote sha256 : Text → Text)
    (replace : DurableIngestionJob
      → DocumentVersion
      → List (EmbeddingVectorRecord Vector)
      → Vectors
      → Checked (VectorReplaceResult × Vectors))
    (provider : EmbeddingProvider Vector) (indexed_at : Text) (options : WorkerOptions)
    (world : Surroundings) where
  unfoldable pub heartbeat_input : LeasedIngestionJob → HeartbeatIngestionJobInput
  heartbeat_input lease = record {
    tenant_id = lease.job.tenant_id;
    job_id = lease.job.job_id;
    lease_token = lease.lease_token;
    lease_duration_seconds = some options.lease_duration_seconds;
  }

  -- Beats one after the other: none follows one that failed.
  unfoldable pub beat_all : LeasedIngestionJob → List (ℕ → ℕ) → Db Vectors → Bool × Db Vectors
  beat_all lease [] db = (true, db)
  beat_all lease (clock ∷ clocks) db =
      let (answer, db') = heartbeat quote sha256 clock (heartbeat_input lease) db in
      elim answer [ ok _ ↦ beat_all lease clocks db' | err _ ↦ (false, db') ]

  -- The n-th checkpoint: the timer's beats before it, and its own.
  unfoldable pub checkpoint :
      ℕ → LeasedIngestionJob → Db Vectors → Result WorkerFailure (Unit {0}) × Db Vectors
  checkpoint n lease db =
      let (alive, db') = beat_all lease (world.timer_beats n ++ world.checkpoint_clock n ∷ []) db in
      (guard alive (job_failure (job_error lease_rejected false)), db')

  -- `heartbeat.stop` waits for beats under way, whatever comes of them.
  unfoldable pub stop : ℕ → LeasedIngestionJob → Db Vectors → Db Vectors
  stop n lease db = (beat_all lease (world.timer_beats n) db).1

  -- A part of the `try` block outside the job service: when it throws, the timer is stopped.
  unfoldable pub step :
      {A : Type 0}
      → LeasedIngestionJob
      → Result WorkerFailure A
      → Db Vectors
      → Result WorkerFailure A × Db Vectors
  step lease (ok a) db = (ok a, db)
  step lease (err e) db = (err e, stop 4 lease db)

  unfoldable pub resolved_artifact : DurableIngestionJob → Result WorkerFailure AcceptedArtifact
  resolved_artifact job = do
    request ← artifact_request job
    artifact ← world.resolve request
    verify_accepted_artifact world.digest world.basename world.parse_time world.inspect world.now
        world.policy request artifact

  unfoldable pub extracted :
      LeasedIngestionJob → AcceptedArtifact → Result WorkerFailure NormalizedDocument
  extracted lease artifact =
      world.extract artifact.original_filename lease.document_identity.document_title
        artifact.content
      >>= λ (document, content).
          guard (text_eq (world.digest content) lease.job.artifact_sha256)
            (artifact_failure (codes "artifact_changed_during_extraction") false)
          >> ok document

  unfoldable pub embedded_records :
      LeasedIngestionJob
      → NormalizedDocument
      → Result WorkerFailure (List (EmbeddingVectorRecord Vector))
  embedded_records lease document = prepared_records (
      prepare_document_embeddings provider sha256 indexed_at document
        (record {
          document_key = lease.document_identity.document_key;
          document_version = lease.document_identity.document_version;
        })
        (record {
          chunk_planner_options = some (record {
            max_chars = lease.job.pipeline_config.max_chars;
            overlap_chars = lease.job.pipeline_config.overlap_chars;
          });
          max_chunks = some max_chunks_per_document;
          embedding_batch_size = some max_embedding_batch_size;
        }))

  unfoldable pub completion :
      LeasedIngestionJob
      → AcceptedArtifact
      → List (EmbeddingVectorRecord Vector)
      → CompleteIngestionJobInput (List (EmbeddingVectorRecord Vector))
  completion lease artifact records = record {
    tenant_id = lease.job.tenant_id;
    job_id = lease.job.job_id;
    lease_token = lease.lease_token;
    artifact_sha256 = lease.job.artifact_sha256;
    artifact_object_id = artifact.artifact_object_id;
    artifact_scan_id = artifact.artifact_scan_id;
    records = records;
  }

  -- The `try` block.
  unfoldable pub work_on :
      LeasedIngestionJob → Db Vectors → Result WorkerFailure IngestionWorkerResult × Db Vectors
  work_on lease db =
      after (step lease (assert_pipeline_matches_provider lease.job provider) db) (λ _ db1.
        after (step lease (resolved_artifact lease.job) db1) (λ artifact db2.
          after (checkpoint 0 lease db2) (λ _ db3.
            after (step lease (extracted lease artifact) db3) (λ document db4.
              after (checkpoint 1 lease db4) (λ _ db5.
                after (step lease (embedded_records lease document) db5) (λ records db6.
                  after (checkpoint 2 lease db6) (λ _ db7.
                    after
                      (service_call (
                        complete quote sha256 world.complete_clock replace
                          (completion lease artifact records) (stop 3 lease db7)))
                      (λ completed db8. (
                        ok (processed_job completed.job.job_id (length records) completed.vectors),
                        db8,
                      )))))))))

  -- `service.fail` with the failure's code.
  unfoldable pub report_failure :
      LeasedIngestionJob
      → ClassifiedWorkerFailure
      → Db Vectors
      → Checked IngestionWorkerResult × Db Vectors
  report_failure lease failure db =
      let (answer, db') =
        fail quote sha256 world.fail_clock
          (record {
            tenant_id = lease.job.tenant_id;
            job_id = lease.job.job_id;
            lease_token = lease.lease_token;
            error_code = failure.code;
            retryable = failure.retryable;
            retry_delay_seconds = none;
          })
          db in
      (failure_result lease failure answer, db')

  -- The `catch` clause.
  unfoldable pub recover :
      LeasedIngestionJob → WorkerFailure → Db Vectors → Checked IngestionWorkerResult × Db Vectors
  recover lease thrown db =
      let failure = safe_failure (classify_failure thrown) in
      if text_eq failure.code (codes "ingestion_lease_lost")
      then (ok (lease_lost lease.job.job_id), db)
      else report_failure lease failure db

  unfoldable pub run_lease :
      LeasedIngestionJob → Db Vectors → Checked IngestionWorkerResult × Db Vectors
  run_lease lease db =
      let (outcome, db') = work_on lease db in
      elim outcome [ ok result ↦ (ok result, db') | err thrown ↦ recover lease thrown db' ]

  unfoldable pub run_once : Db Vectors → Checked IngestionWorkerResult × Db Vectors
  run_once db =
      let (leased, db') =
        lease_next quote sha256 world.lease_clock options.tenant_id options.worker_id
          (some options.lease_duration_seconds) world.token world.locked db in
      elim leased [
        | err e ↦ (err e, db')
        | ok none ↦ (ok idle, db')
        | ok (some lease) ↦ run_lease lease db'
      ]
