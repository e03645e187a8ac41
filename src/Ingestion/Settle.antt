-- ===== src/Ingestion/Settle.antt =====
-- src/ingestion/ingestionJobService.ts: `complete`, `fail` and `get`. `clock n` is the time of the
-- n-th statement that reads it.
pub mod Changes
pub mod Completion
pub mod Fencing
pub mod Held
use la_muni_rag.Base.{
  ℕ, ◌+◌, Bool, true, false, ◌&&◌, ◌||◌, not, Option, none, some, List, [], ◌∷◌, ◌++◌, map, keep,
  length, ltb, leb, ◌==◌, Result, ok, err, guard, ◌>>=◌, ◌>>◌, get_or, if◌then◌else◌,
}
use la_muni_rag.Base.Text.{Text, codes, text_eq, lower}
use la_muni_rag.Security.Tenant.{is_canonical_uuid}
use la_muni_rag.Ingestion.Types.{
  DurableIngestionJobStatus, queued, processing, processed, failed, Checked, JobError, job_error,
  scope_invalid, artifact_digest_invalid, artifact_identity_mismatch, persistence_invalid,
  claim_disappeared, worker_invalid, lease_token_invalid, document_version_missing, lease_rejected,
  artifact_acceptance_mismatch, artifact_acceptance_rejected, error_code_invalid,
  retry_policy_invalid, IngestionPipelineConfigV1, EnqueueIngestionJobInput, IngestionJobIdentity,
  JobRow, DurableIngestionJob, EnqueueIngestionJobResult, new, replay, duplicate_work, conflict,
  LeasedIngestionJob, VectorReplaceResult, CompleteIngestionJobInput, CompleteIngestionJobResult,
  FailIngestionJobInput, HeartbeatIngestionJobInput, LeasedDocumentIdentity,
}
use la_muni_rag.Ingestion.Identity.{build_ingestion_job_identity, is_sha256_hex}
use la_muni_rag.Ingestion.Store.{
  DocumentVersion, accepts_artifact, same_key, same_work, insert_job, update_where, holds_lease,
  text_in, set_exhausted, set_leased, set_heartbeat, set_processed, set_retry, set_failed,
  active_versions, is_version, update_versions,
}
use la_muni_rag.Ingestion.Queue.{exhausted_rows, lease_candidate, Candidate}
use la_muni_rag.Ingestion.Rows.{
  AuditOutcome, success, error, blocked, Db, is_safe_worker, is_safe_error_code,
  is_safe_lease_token, bounded_lease_seconds, default_delay, max_retry_delay_seconds, row_to_job,
  row_to_leased_document_identity, audit_event, in_transaction,
}
use la_muni_rag.Ingestion.Service.{single_row, update_document_version}

-- Whether a failed job is queued again.
unfoldable pub retries : FailIngestionJobInput → DurableIngestionJob → Bool
retries input job = input.retryable && ltb job.attempt_count job.max_attempts

module _ {Vectors : Type 0} (quote : Text → Text) (sha256 : Text → Text) (clock : ℕ → ℕ) where
  unfoldable pub lock_lease : Text → Text → Text → Db Vectors → Checked DurableIngestionJob
  lock_lease tenant_id job_id lease_token db = do
    guard (is_canonical_uuid tenant_id && is_canonical_uuid job_id) (job_error scope_invalid false)
    guard (is_safe_lease_token lease_token) (job_error lease_rejected false)
    row ← single_row (job_error lease_rejected false) (
        keep (holds_lease (clock 0) (map lower job_id) (map lower tenant_id) (sha256 lease_token))
          db.jobs)
    row_to_job quote row

  -- The update that settles a lease: one row, still held at the time `clock n`.
  unfoldable pub settle_lease :
      ℕ
      → DurableIngestionJob
      → Text
      → (JobRow → JobRow)
      → Db Vectors
      → Checked (JobRow × Db Vectors)
  settle_lease n job lease_token set db =
      let held = holds_lease (clock n) job.job_id job.tenant_id (sha256 lease_token) in
      single_row (job_error lease_rejected false) (map set (keep held db.jobs)) >>= λ row.
      ok (row, record db { jobs = update_where held set db.jobs })

  -- What fails once the rows are locked, before anything is written.
  unfoldable pub check_completion :
      {Records : Type 0}
      → CompleteIngestionJobInput Records
      → DurableIngestionJob
      → Db Vectors
      → Checked DocumentVersion
  check_completion input job db = do
    let versions = active_versions job.document_version_id job.tenant_id db.versions
    guard (text_eq input.artifact_sha256 job.artifact_sha256)
        (job_error artifact_identity_mismatch false)
    guard
        (text_in job.artifact_object_id (map lower input.artifact_object_id)
          && text_in job.artifact_scan_id (map lower input.artifact_scan_id))
        (job_error artifact_acceptance_mismatch false)
    version ← single_row (job_error document_version_missing false) versions
    guard (text_eq version.content_sha256 job.artifact_sha256)
        (job_error artifact_identity_mismatch false)
    guard
        (accepts_artifact (clock 1) db.objects db.scans (map lower input.artifact_object_id)
          job.tenant_id job.document_version_id job.artifact_sha256
          (map lower input.artifact_scan_id))
        (job_error artifact_acceptance_rejected true)
    ok version

  -- `replace` is `replaceDocumentVersion` of the vector repository.
  unfoldable pub complete_work :
      {Records : Type 0}
      → (DurableIngestionJob
          → DocumentVersion
          → Records
          → Vectors
          → Checked (VectorReplaceResult × Vectors))
      → CompleteIngestionJobInput Records
      → Db Vectors
      → Checked (CompleteIngestionJobResult × Db Vectors)
  complete_work replace input db =
      lock_lease input.tenant_id input.job_id input.lease_token db >>= λ job.
      check_completion input job db >>= λ version.
      replace job version input.records db.vectors >>= λ (counts, vectors).
      settle_lease 2 job input.lease_token (set_processed (clock 2))
        (record db { vectors = vectors })
      >>= λ (row, db'). update_document_version (clock 3) job processed db' >>= λ db''.
          row_to_job quote row >>= λ settled.
          audit_event db'' settled (codes "rag.ingestion_job.processed") success
            (codes "job_processed") settled.principal_id
          >>= λ db'''. ok (record { job = settled; vectors = counts }, db''')

  unfoldable pub complete :
      {Records : Type 0}
      → (DurableIngestionJob
          → DocumentVersion
          → Records
          → Vectors
          → Checked (VectorReplaceResult × Vectors))
      → CompleteIngestionJobInput Records
      → Db Vectors
      → Checked CompleteIngestionJobResult × Db Vectors
  complete replace input db =
      if not (
        is_sha256_hex input.artifact_sha256
        && is_canonical_uuid input.artifact_object_id
        && is_canonical_uuid input.artifact_scan_id)
      then (err (job_error artifact_digest_invalid false), db)
      else in_transaction input.tenant_id db (complete_work replace input)

  unfoldable pub fail_work :
      FailIngestionJobInput → Db Vectors → Checked (DurableIngestionJob × Db Vectors)
  fail_work input db = lock_lease input.tenant_id input.job_id input.lease_token db >>= λ job.
      let delay = get_or input.retry_delay_seconds (default_delay job.attempt_count) in
      guard (leb delay max_retry_delay_seconds) (job_error retry_policy_invalid false)
      >> (settle_lease 1 job input.lease_token
            (if retries input job
              then set_retry (clock 1) delay input.error_code
              else set_failed (clock 1) input.error_code input.retryable)
            db
          >>= λ (row, db'). row_to_job quote row >>= λ settled.
              update_document_version (clock 1) job (if retries input job then queued else failed)
                db'
              >>= λ db''.
                  audit_event db'' settled
                    (if retries input job
                      then codes "rag.ingestion_job.retry_scheduled"
                      else codes "rag.ingestion_job.failed")
                    error (if retries input job then codes "retry_scheduled" else input.error_code)
                    settled.principal_id
                  >>= λ db'''. ok (settled, db'''))

  unfoldable pub fail :
      FailIngestionJobInput → Db Vectors → Checked DurableIngestionJob × Db Vectors
  fail input db =
      if not (is_safe_error_code input.error_code)
      then (err (job_error error_code_invalid false), db)
      else in_transaction input.tenant_id db (fail_work input)

  unfoldable pub get_job : Text → Text → Db Vectors → Checked (Option DurableIngestionJob)
  get_job tenant_id job_id db =
      guard (is_canonical_uuid tenant_id && is_canonical_uuid job_id)
        (job_error scope_invalid false)
      >> elim (keep
          (λ (j : JobRow).
            text_eq j.id (map lower job_id) && text_eq j.tenant_id (map lower tenant_id))
          db.jobs) [
            | [] ↦ ok none
            | (row ∷ []) ↦ (row_to_job quote row >>= λ job. ok (some job))
            | (_ ∷ _) ↦ err (job_error persistence_invalid false)
          ]
