-- ===== src/Ingestion/Enqueue.antt =====
-- src/ingestion/ingestionJobService.ts: `enqueue`. The identifier that is generated is an
-- argument.
pub mod Changes
pub mod Replay
use la_muni_rag.Base.{
  ℕ, ◌+◌, Bool, true, false, ◌&&◌, ◌||◌, not, Option, none, some, List, [], ◌∷◌, ◌++◌, map, keep,
  length, ltb, leb, ◌==◌, Result, ok, err, guard, ◌>>=◌, ◌>>◌, get_or, if◌then◌else◌,
}
use la_muni_rag.Base.Text.{Text, codes, text_eq, lower}
use la_muni_rag.Security.Tenant.{is_canonical_uuid}
use la_muni_rag.Ingestion.Types.{
  DurableIngestionJobStatus, queued, processing, processed, failed, Checked, JobError, job_error,
  scope_invalid, artifact_digest_invalid, artifact_identity_mismatch, persistence_invalid,
  claim_disappeared, worker_invalid, lease_token_invalid, document_version_missing, lease_rejected,
  artifact_acceptance_mismatch, artifact_acceptance_rejected, error_code_invalid,
  retry_policy_invalid, IngestionPipelineConfigV1, EnqueueIngestionJobInput, IngestionJobIdentity,
  JobRow, DurableIngestionJob, EnqueueIngestionJobResult, new, replay, duplicate_work, conflict,
  LeasedIngestionJob, VectorReplaceResult, CompleteIngestionJobInput, CompleteIngestionJobResult,
  FailIngestionJobInput, HeartbeatIngestionJobInput, LeasedDocumentIdentity,
}
use la_muni_rag.Ingestion.Identity.{build_ingestion_job_identity, is_sha256_hex}
use la_muni_rag.Ingestion.Store.{
  DocumentVersion, accepts_artifact, same_key, same_work, insert_job, update_where, holds_lease,
  text_in, set_exhausted, set_leased, set_heartbeat, set_processed, set_retry, set_failed,
  active_versions, is_version, update_versions,
}
use la_muni_rag.Ingestion.Queue.{exhausted_rows, lease_candidate, Candidate}
use la_muni_rag.Ingestion.Rows.{
  AuditOutcome, success, error, blocked, Db, is_safe_worker, is_safe_error_code,
  is_safe_lease_token, bounded_lease_seconds, default_delay, max_retry_delay_seconds, row_to_job,
  row_to_leased_document_identity, audit_event, in_transaction,
}
use la_muni_rag.Ingestion.Service.{single_row, update_document_version}

-- The row that INSERT_JOB_SQL writes.
unfoldable pub new_row : ℕ → Text → EnqueueIngestionJobInput → IngestionJobIdentity → JobRow
new_row now id input identity = record {
  id = id;
  tenant_id = map lower input.tenant_id;
  requested_by_principal_id = map lower input.principal_id;
  document_version_id = map lower input.document_version_id;
  idempotency_key_sha256 = identity.idempotency_key_sha256;
  request_sha256 = identity.request_sha256;
  artifact_sha256 = identity.artifact_sha256;
  work_sha256 = identity.work_sha256;
  artifact_object_id = none;
  artifact_scan_id = none;
  status = queued;
  attempt_count = 0;
  max_attempts = identity.max_attempts;
  available_at = now;
  started_at = none;
  finished_at = none;
  lease_owner_sha256 = none;
  lease_token_sha256 = none;
  lease_expires_at = none;
  heartbeat_at = none;
  last_error_code = none;
  last_error_retryable = none;
  pipeline_config = input.pipeline_config;
  created_at = now;
  updated_at = now;
}

-- The document versions found hold exactly the artifact.
unfoldable pub is_artifact_of : Text → List DocumentVersion → Bool
is_artifact_of sha256 [] = false
is_artifact_of sha256 (v ∷ []) = text_eq v.content_sha256 sha256
is_artifact_of sha256 (v ∷ w ∷ vs) = false

module _ {Vectors : Type 0} (quote : Text → Text) (sha256 : Text → Text) (now : ℕ) where
  -- A job with the same key: the same request, or a conflict.
  unfoldable pub answer_key :
      IngestionJobIdentity → JobRow → Db Vectors → Checked (EnqueueIngestionJobResult × Db Vectors)
  answer_key identity row db = row_to_job quote row >>= λ job.
      if not (text_eq row.request_sha256 identity.request_sha256)
      then (audit_event db job (codes "rag.ingestion_job.conflict") blocked
            (codes "idempotency_conflict") job.principal_id
          >>= λ db'. ok (conflict, db'))
      else (audit_event db job (codes "rag.ingestion_job.replayed") success
            (codes "idempotent_replay") job.principal_id
          >>= λ db'. ok (replay job, db'))

  -- A job that does the same work.
  unfoldable pub answer_work :
      EnqueueIngestionJobInput
      → JobRow
      → Db Vectors
      → Checked (EnqueueIngestionJobResult × Db Vectors)
  answer_work input row db = row_to_job quote row >>= λ job.
      audit_event db job (codes "rag.ingestion_job.deduplicated") success (codes "duplicate_work")
        (map lower input.principal_id)
      >>= λ db'. ok (duplicate_work job, db')

  -- The insert met a conflict: the same key, or else the same work.
  unfoldable pub resolve_conflict :
      EnqueueIngestionJobInput
      → IngestionJobIdentity
      → Db Vectors
      → Checked (EnqueueIngestionJobResult × Db Vectors)
  resolve_conflict input identity db =
      elim (keep
        (same_key (map lower input.tenant_id) (map lower input.principal_id)
          identity.idempotency_key_sha256)
        db.jobs) [
          | row ∷ [] ↦ answer_key identity row db
          | (_ ∷ _) ↦ err (job_error persistence_invalid false)
          | [] ↦ elim (keep (same_work (map lower input.tenant_id) identity.work_sha256) db.jobs) [
            | [] ↦ err (job_error claim_disappeared true)
            | (row ∷ _) ↦ answer_work input row db
          ]
        ]

  unfoldable pub enqueue_work :
      Text
      → EnqueueIngestionJobInput
      → IngestionJobIdentity
      → Db Vectors
      → Checked (EnqueueIngestionJobResult × Db Vectors)
  enqueue_work new_id input identity db =
      guard
        (is_artifact_of identity.artifact_sha256 (
          active_versions (map lower input.document_version_id) (map lower input.tenant_id)
            db.versions))
        (job_error artifact_identity_mismatch false)
      >> (let row = new_row now new_id input identity in
          elim (insert_job row db.jobs) [
            | none ↦ resolve_conflict input identity db
            | some jobs ↦ row_to_job quote row >>= λ job.
                audit_event (record db { jobs = jobs }) job (codes "rag.ingestion_job.enqueued")
                  success (codes "job_enqueued") job.principal_id
                >>= λ db'. ok (new job, db')
          ])

  unfoldable pub enqueue :
      Text → EnqueueIngestionJobInput → Db Vectors → Checked EnqueueIngestionJobResult × Db Vectors
  enqueue new_id input db = elim (build_ingestion_job_identity quote sha256 input) [
    | err e ↦ (err e, db)
    | ok identity ↦ in_transaction input.tenant_id db (enqueue_work new_id input identity)
  ]
