-- ===== src/Ingestion/Failure.antt =====
-- The parts of src/ingestion/ingestionWorker.ts that no call of the service is in: its results, the
-- classes of failures, the checks of a job, and what one run meets.
use la_muni_rag.Base.{
  ℕ, ◌*◌, ◌/◌, Bool, true, false, ◌&&◌, ◌||◌, Option, none, some, List, [], ◌∷◌, ltb, ◌==◌, min,
  max, Result, ok, err, guard, get_or, if◌then◌else◌,
}
use la_muni_rag.Base.Text.{Text, codes, text_eq}
use la_muni_rag.Embeddings.Types.{
  NormalizedDocument, EmbeddingVectorRecord, EmbeddingProvider, PreparedEmbeddingRecords,
}
use la_muni_rag.Ingestion.Types.{
  queued, status_eq, Checked, job_error, lease_rejected, code_text, pipeline_profile_mismatch,
  DurableIngestionJob, LeasedIngestionJob, VectorReplaceResult,
}
use la_muni_rag.Ingestion.Rows.{is_safe_error_code}
use la_muni_rag.Ingestion.Artifact.{
  WorkerFailure, artifact_failure, ingestion_failure, job_failure, AcceptedArtifact,
  AcceptedArtifactRequest, ArtifactSafetyPolicy, Inspected,
}

abbrev supported_extractor_name : Text
supported_extractor_name = codes "bounded_document_registry"

abbrev supported_extractor_version : Text
supported_extractor_version = codes "1.0.0"

pub data IngestionWorkerResult : Type 0 where
  idle : IngestionWorkerResult
  processed_job : (job_id : Text) (chunk_count : ℕ) → VectorReplaceResult → IngestionWorkerResult
  retry_scheduled failed_job : (job_id error_code : Text) → IngestionWorkerResult
  lease_lost : (job_id : Text) → IngestionWorkerResult

pub record ClassifiedWorkerFailure : Type 0 where
  pub code : Text
  pub retryable : Bool

-- The interval between heartbeats, in milliseconds; `none` where the code throws.
unfoldable pub bounded_heartbeat_interval : ℕ → Option ℕ → Option ℕ
bounded_heartbeat_interval lease_duration_seconds configured =
    let maximum = max 1000 (lease_duration_seconds * 1000 / 3) in
    let value = get_or configured (min 30000 maximum) in
    if ltb value 1000 || ltb maximum value then none else some value

unfoldable pub classify_failure : WorkerFailure → ClassifiedWorkerFailure
classify_failure (artifact_failure code retryable) = record { code = code; retryable = retryable }
classify_failure (ingestion_failure code retryable) = record { code = code; retryable = retryable }
classify_failure (job_failure (job_error lease_rejected retryable)) = record {
  code = codes "ingestion_lease_lost";
  retryable = retryable;
}
classify_failure (job_failure (job_error code retryable)) = record {
  code = code_text code;
  retryable = retryable;
}
classify_failure _ = record { code = codes "ingestion_worker_failed"; retryable = true }

unfoldable pub safe_failure : ClassifiedWorkerFailure → ClassifiedWorkerFailure
safe_failure failure = record failure {
  code = if is_safe_error_code failure.code then failure.code else codes "ingestion_worker_failed";
}

-- A call with what it leaves, and what follows if it succeeds.
unfoldable pub after :
    {S A B : Type 0}
    → Result WorkerFailure A × S
    → (A → S → Result WorkerFailure B × S)
    → Result WorkerFailure B × S
after (err e, s) next = (err e, s)
after (ok a, s) next = next a s

-- A call of the job service, whose errors are the worker's.
unfoldable pub service_call : {S A : Type 0} → Checked A × S → Result WorkerFailure A × S
service_call (err e, s) = (err (job_failure e), s)
service_call (ok a, s) = (ok a, s)

-- What one run meets.
pub record Surroundings : Type 0 where
  pub lease_clock : ℕ → ℕ
  pub locked : Text → Bool
  pub token : Text
  pub resolve : AcceptedArtifactRequest → Result WorkerFailure AcceptedArtifact
  pub extract : Text → Text → List ℕ → Result WorkerFailure (NormalizedDocument × List ℕ)
  pub digest : List ℕ → Text
  pub basename : Text → Text
  pub parse_time : Text → Option ℕ
  pub inspect : List ℕ → Text → Text → ℕ → Option Inspected
  pub now : ℕ
  pub policy : Option ArtifactSafetyPolicy
  pub timer_beats : ℕ → List (ℕ → ℕ)
  pub checkpoint_clock : ℕ → ℕ → ℕ
  pub complete_clock : ℕ → ℕ
  pub fail_clock : ℕ → ℕ

pub record WorkerOptions : Type 0 where
  pub tenant_id : Text
  pub worker_id : Text
  pub lease_duration_seconds : ℕ

unfoldable pub assert_pipeline_matches_provider :
    {Vector : Type 0}
    → DurableIngestionJob
    → EmbeddingProvider Vector
    → Result WorkerFailure (Unit {0})
assert_pipeline_matches_provider job provider =
    let config = job.pipeline_config in
    guard
      (text_eq config.extractor_name supported_extractor_name
        && text_eq config.extractor_version supported_extractor_version
        && text_eq config.embedding_provider provider.provider_name
        && text_eq config.embedding_model provider.model
        && config.embedding_dimension == provider.dimensions)
      (job_failure (job_error pipeline_profile_mismatch false))

-- The object and the scan that a job is bound to.
unfoldable pub artifact_request : DurableIngestionJob → Result WorkerFailure AcceptedArtifactRequest
artifact_request job = elim job.artifact_object_id [
  | none ↦ err (artifact_failure (codes "artifact_acceptance_unavailable") true)
  | some object_id ↦ elim job.artifact_scan_id [
    | none ↦ err (artifact_failure (codes "artifact_acceptance_unavailable") true)
    | some scan_id ↦ ok (record {
      tenant_id = job.tenant_id;
      document_version_id = job.document_version_id;
      artifact_sha256 = job.artifact_sha256;
      artifact_object_id = object_id;
      artifact_scan_id = scan_id;
    })
  ]
]

-- The records prepared, or the first failure.
unfoldable pub prepared_records :
    {Vector : Type 0}
    → PreparedEmbeddingRecords Vector
    → Result WorkerFailure (List (EmbeddingVectorRecord Vector))
prepared_records prepared = elim prepared.failures [
  | [] ↦ ok prepared.records
  | (first ∷ _) ↦ err (
      ingestion_failure
        (if is_safe_error_code first.code then first.code else codes "embedding_failed")
        first.retryable)
]

-- What the worker makes of the answer of `service.fail`.
unfoldable pub failure_result :
    LeasedIngestionJob
    → ClassifiedWorkerFailure
    → Checked DurableIngestionJob
    → Checked IngestionWorkerResult
failure_result lease failure (ok updated) = ok (
    if status_eq updated.status queued
    then retry_scheduled updated.job_id failure.code
    else failed_job updated.job_id failure.code)
failure_result lease failure (err (job_error lease_rejected _)) = ok (lease_lost lease.job.job_id)
failure_result lease failure (err e) = err e
