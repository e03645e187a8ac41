-- ===== src/Ingestion/Types.antt =====
-- src/ingestion/jobTypes.ts, and the rows that src/ingestion/ingestionJobService.ts reads and
-- writes. A time is a number of microseconds, a digest is its hexadecimal text, and a policy number
-- is a natural number. The messages of errors are left out.
use la_muni_rag.Base.{ℕ, Bool, true, false, Option, Result}
use la_muni_rag.Base.Text.{Text, codes}

pub data DurableIngestionJobStatus : Type 0 where
  queued processing processed failed superseded : DurableIngestionJobStatus

unfoldable pub status_eq : DurableIngestionJobStatus → DurableIngestionJobStatus → Bool
status_eq queued queued = true
status_eq processing processing = true
status_eq processed processed = true
status_eq failed failed = true
status_eq superseded superseded = true
status_eq _ _ = false

-- The codes of `IngestionJobError`, without their prefix `ingestion_`.
pub data JobErrorCode : Type 0 where
  scope_invalid artifact_digest_invalid idempotency_key_invalid : JobErrorCode
  attempt_policy_invalid pipeline_config_invalid artifact_identity_mismatch : JobErrorCode
  persistence_invalid claim_disappeared worker_invalid lease_policy_invalid : JobErrorCode
  lease_token_invalid document_version_missing lease_rejected : JobErrorCode
  artifact_acceptance_mismatch artifact_acceptance_rejected error_code_invalid : JobErrorCode
  retry_policy_invalid audit_invalid pipeline_profile_mismatch : JobErrorCode

unfoldable pub code_text : JobErrorCode → Text
code_text scope_invalid = codes "ingestion_scope_invalid"
code_text artifact_digest_invalid = codes "ingestion_artifact_digest_invalid"
code_text idempotency_key_invalid = codes "ingestion_idempotency_key_invalid"
code_text attempt_policy_invalid = codes "ingestion_attempt_policy_invalid"
code_text pipeline_config_invalid = codes "ingestion_pipeline_config_invalid"
code_text artifact_identity_mismatch = codes "ingestion_artifact_identity_mismatch"
code_text persistence_invalid = codes "ingestion_persistence_invalid"
code_text claim_disappeared = codes "ingestion_claim_disappeared"
code_text worker_invalid = codes "ingestion_worker_invalid"
code_text lease_policy_invalid = codes "ingestion_lease_policy_invalid"
code_text lease_token_invalid = codes "ingestion_lease_token_invalid"
code_text document_version_missing = codes "ingestion_document_version_missing"
code_text lease_rejected = codes "ingestion_lease_rejected"
code_text artifact_acceptance_mismatch = codes "ingestion_artifact_acceptance_mismatch"
code_text artifact_acceptance_rejected = codes "ingestion_artifact_acceptance_rejected"
code_text error_code_invalid = codes "ingestion_error_code_invalid"
code_text retry_policy_invalid = codes "ingestion_retry_policy_invalid"
code_text audit_invalid = codes "ingestion_audit_invalid"
code_text pipeline_profile_mismatch = codes "ingestion_pipeline_profile_mismatch"

-- An `IngestionJobError` with its code and `retryable`; the error of `withTenantTransaction`; or what
-- another part throws, such as the vector repository.
pub data JobError : Type 0 where
  job_error : JobErrorCode → Bool → JobError
  tenant_context : JobError
  other_failure : Text → JobError

abbrev pub Checked : Type 0 → Type 0
Checked A = Result JobError A

pub record IngestionPipelineConfigV1 : Type 0 where
  pub contract_version : Text
  pub extractor_name : Text
  pub extractor_version : Text
  pub planner_name : Text
  pub max_chars : ℕ
  pub overlap_chars : ℕ
  pub embedding_provider : Text
  pub embedding_model : Text
  pub embedding_dimension : ℕ

pub record EnqueueIngestionJobInput : Type 0 where
  pub tenant_id : Text
  pub principal_id : Text
  pub document_version_id : Text
  pub artifact_sha256 : Text
  pub idempotency_key : Text
  pub pipeline_config : IngestionPipelineConfigV1
  pub max_attempts : Option ℕ

pub record IngestionJobIdentity : Type 0 where
  pub idempotency_key_sha256 : Text
  pub request_sha256 : Text
  pub artifact_sha256 : Text
  pub pipeline_config_sha256 : Text
  pub work_sha256 : Text
  pub canonical_pipeline_config : Text
  pub max_attempts : ℕ

-- A row of rag.ingestion_jobs whose job_type is that of the service. The JSON column of the pipeline
-- holds the object whose text was inserted.
pub record JobRow : Type 0 where
  pub id : Text
  pub tenant_id : Text
  pub requested_by_principal_id : Text
  pub document_version_id : Text
  pub idempotency_key_sha256 : Text
  pub request_sha256 : Text
  pub artifact_sha256 : Text
  pub work_sha256 : Text
  pub artifact_object_id : Option Text
  pub artifact_scan_id : Option Text
  pub status : DurableIngestionJobStatus
  pub attempt_count : ℕ
  pub max_attempts : ℕ
  pub available_at : ℕ
  pub started_at : Option ℕ
  pub finished_at : Option ℕ
  pub lease_owner_sha256 : Option Text
  pub lease_token_sha256 : Option Text
  pub lease_expires_at : Option ℕ
  pub heartbeat_at : Option ℕ
  pub last_error_code : Option Text
  pub last_error_retryable : Option Bool
  pub pipeline_config : IngestionPipelineConfigV1
  pub created_at : ℕ
  pub updated_at : ℕ

pub record DurableIngestionJob : Type 0 where
  pub job_id : Text
  pub tenant_id : Text
  pub principal_id : Text
  pub document_version_id : Text
  pub artifact_sha256 : Text
  pub artifact_object_id : Option Text
  pub artifact_scan_id : Option Text
  pub status : DurableIngestionJobStatus
  pub attempt_count : ℕ
  pub max_attempts : ℕ
  pub available_at : ℕ
  pub started_at : Option ℕ
  pub finished_at : Option ℕ
  pub lease_expires_at : Option ℕ
  pub heartbeat_at : Option ℕ
  pub last_error_code : Option Text
  pub last_error_retryable : Option Bool
  pub pipeline_config : IngestionPipelineConfigV1
  pub created_at : ℕ
  pub updated_at : ℕ

pub data EnqueueIngestionJobResult : Type 0 where
  new replay duplicate_work : DurableIngestionJob → EnqueueIngestionJobResult
  conflict : EnqueueIngestionJobResult

pub record LeasedDocumentIdentity : Type 0 where
  pub document_key : Text
  pub document_title : Text
  pub document_version : Text

pub record LeasedIngestionJob : Type 0 where
  pub job : DurableIngestionJob
  pub lease_token : Text
  pub document_identity : LeasedDocumentIdentity

-- What the vector repository reports of a replacement.
pub record VectorReplaceResult : Type 0 where
  pub inserted_count : ℕ
  pub updated_count : ℕ
  pub unchanged_count : ℕ
  pub deleted_count : ℕ

pub record CompleteIngestionJobInput (Records : Type 0) : Type 0 where
  pub tenant_id : Text
  pub job_id : Text
  pub lease_token : Text
  pub artifact_sha256 : Text
  pub artifact_object_id : Text
  pub artifact_scan_id : Text
  pub records : Records

pub record CompleteIngestionJobResult : Type 0 where
  pub job : DurableIngestionJob
  pub vectors : VectorReplaceResult

pub record FailIngestionJobInput : Type 0 where
  pub tenant_id : Text
  pub job_id : Text
  pub lease_token : Text
  pub error_code : Text
  pub retryable : Bool
  pub retry_delay_seconds : Option ℕ

pub record HeartbeatIngestionJobInput : Type 0 where
  pub tenant_id : Text
  pub job_id : Text
  pub lease_token : Text
  pub lease_duration_seconds : Option ℕ
