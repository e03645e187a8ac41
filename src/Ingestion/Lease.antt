-- ===== src/Ingestion/Lease.antt =====
-- src/ingestion/ingestionJobService.ts: `leaseNext` and `heartbeat`. `clock n` is the time of
-- the n-th statement that reads it, the generated token is an argument, and `locked` tells which jobs
-- another transaction holds.
pub mod Changes
pub mod Order
pub mod Expiry
pub mod First
pub mod Turn
use la_muni_rag.Base.{
  ℕ, ◌+◌, Bool, true, false, ◌&&◌, ◌||◌, not, Option, none, some, List, [], ◌∷◌, ◌++◌, map, keep,
  length, ltb, leb, ◌==◌, Result, ok, err, guard, ◌>>=◌, ◌>>◌, get_or, if◌then◌else◌,
}
use la_muni_rag.Base.Text.{Text, codes, text_eq, lower}
use la_muni_rag.Security.Tenant.{is_canonical_uuid}
use la_muni_rag.Ingestion.Types.{
  DurableIngestionJobStatus, queued, processing, processed, failed, Checked, JobError, job_error,
  scope_invalid, artifact_digest_invalid, artifact_identity_mismatch, persistence_invalid,
  claim_disappeared, worker_invalid, lease_token_invalid, document_version_missing, lease_rejected,
  artifact_acceptance_mismatch, artifact_acceptance_rejected, error_code_invalid,
  retry_policy_invalid, IngestionPipelineConfigV1, EnqueueIngestionJobInput, IngestionJobIdentity,
  JobRow, DurableIngestionJob, EnqueueIngestionJobResult, new, replay, duplicate_work, conflict,
  LeasedIngestionJob, VectorReplaceResult, CompleteIngestionJobInput, CompleteIngestionJobResult,
  FailIngestionJobInput, HeartbeatIngestionJobInput, LeasedDocumentIdentity,
}
use la_muni_rag.Ingestion.Identity.{build_ingestion_job_identity, is_sha256_hex}
use la_muni_rag.Ingestion.Store.{
  DocumentVersion, accepts_artifact, same_key, same_work, insert_job, update_where, holds_lease,
  text_in, set_exhausted, set_leased, set_heartbeat, set_processed, set_retry, set_failed,
  active_versions, is_version, update_versions,
}
use la_muni_rag.Ingestion.Queue.{exhausted_rows, lease_candidate, Candidate}
use la_muni_rag.Ingestion.Rows.{
  AuditOutcome, success, error, blocked, Db, is_safe_worker, is_safe_error_code,
  is_safe_lease_token, bounded_lease_seconds, default_delay, max_retry_delay_seconds, row_to_job,
  row_to_leased_document_identity, audit_event, in_transaction,
}
use la_muni_rag.Ingestion.Service.{single_row, update_document_version}

abbrev pub has_id : List JobRow → JobRow → Bool
has_id [] j = false
has_id (r ∷ rs) j = text_eq r.id j.id || has_id rs j

-- The checks before the transaction.
unfoldable pub lease_request : Text → Text → Text → Option ℕ → Checked ℕ
lease_request tenant_id worker_id token duration = do
  guard (is_canonical_uuid tenant_id) (job_error scope_invalid false)
  guard (is_safe_worker worker_id) (job_error worker_invalid false)
  bounded ← bounded_lease_seconds duration
  guard (is_safe_lease_token token) (job_error lease_token_invalid false)
  ok bounded

unfoldable pub heartbeat_request : HeartbeatIngestionJobInput → Checked ℕ
heartbeat_request input = do
  guard (is_canonical_uuid input.tenant_id && is_canonical_uuid input.job_id)
      (job_error scope_invalid false)
  guard (is_safe_lease_token input.lease_token) (job_error lease_rejected false)
  bounded_lease_seconds input.lease_duration_seconds

module _ {Vectors : Type 0} (quote : Text → Text) (sha256 : Text → Text) (clock : ℕ → ℕ) where
  -- The loop over the rows of EXHAUST_EXPIRED_SQL.
  unfoldable pub settle_exhausted : List JobRow → Db Vectors → Checked (Db Vectors)
  settle_exhausted [] db = ok db
  settle_exhausted (row ∷ rows) db = row_to_job quote row >>= λ job.
      update_document_version (clock 0) job failed db >>= λ db'.
      audit_event db' job (codes "rag.ingestion_job.failed") error (codes "lease_expired")
        job.principal_id
      >>= λ db''. settle_exhausted rows db''

  unfoldable pub exhaust_expired : Text → (Text → Bool) → Db Vectors → Checked (Db Vectors)
  exhaust_expired tenant_id locked db =
      let rows = exhausted_rows (clock 0) tenant_id locked db.jobs in
      let chosen = λ (j : JobRow). has_id rows j && text_eq j.tenant_id tenant_id in
      settle_exhausted (map (set_exhausted (clock 0)) (keep chosen db.jobs))
        (record db { jobs = update_where chosen (set_exhausted (clock 0)) db.jobs })

  -- LEASE_NEXT_SQL, and what follows it.
  unfoldable pub lease_candidate_row :
      Text
      → Text
      → Text
      → ℕ
      → Candidate
      → Db Vectors
      → Checked (Option LeasedIngestionJob × Db Vectors)
  lease_candidate_row tenant_id worker_id token duration c db =
      let chosen = λ (j : JobRow). text_eq j.id c.row.id && text_eq j.tenant_id tenant_id in
      let set =
        set_leased (clock 1) (sha256 worker_id) (sha256 token) duration c.object_id c.scan_id in
      single_row (job_error persistence_invalid false) (map set (keep chosen db.jobs)) >>= λ row.
      row_to_job quote row >>= λ job.
      single_row (job_error document_version_missing false)
        (active_versions job.document_version_id job.tenant_id db.versions)
      >>= λ version. row_to_leased_document_identity version >>= λ identity.
          audit_event (record db { jobs = update_where chosen set db.jobs }) job
            (codes "rag.ingestion_job.leased") success (codes "job_leased") job.principal_id
          >>= λ db'.
              ok (
                some (record { job = job; lease_token = token; document_identity = identity }),
                db',
              )

  unfoldable pub lease_work :
      Text
      → (Text → Bool)
      → Text
      → Text
      → ℕ
      → Db Vectors
      → Checked (Option LeasedIngestionJob × Db Vectors)
  lease_work tenant_id locked worker_id token duration db =
      exhaust_expired tenant_id locked db >>= λ db'.
      elim (lease_candidate (clock 1) tenant_id locked db'.objects db'.scans db'.jobs) [
        | none ↦ ok (none, db')
        | some c ↦ lease_candidate_row tenant_id worker_id token duration c db'
      ]

  unfoldable pub lease_next :
      Text
      → Text
      → Option ℕ
      → Text
      → (Text → Bool)
      → Db Vectors
      → Checked (Option LeasedIngestionJob) × Db Vectors
  lease_next tenant_id worker_id duration token locked db =
      elim (lease_request tenant_id worker_id token duration) [
        | err e ↦ (err e, db)
        | ok bounded ↦
            in_transaction tenant_id db
              (lease_work (map lower tenant_id) locked worker_id token bounded)
      ]

  unfoldable pub heartbeat_work :
      Text → Text → Text → ℕ → Db Vectors → Checked (DurableIngestionJob × Db Vectors)
  heartbeat_work tenant_id job_id token_sha256 duration db =
      let held = holds_lease (clock 0) job_id tenant_id token_sha256 in
      let set = set_heartbeat (clock 0) duration in
      single_row (job_error lease_rejected false) (map set (keep held db.jobs)) >>= λ row.
      row_to_job quote row >>= λ job. ok (job, record db { jobs = update_where held set db.jobs })

  unfoldable pub heartbeat :
      HeartbeatIngestionJobInput → Db Vectors → Checked DurableIngestionJob × Db Vectors
  heartbeat input db = elim (heartbeat_request input) [
    | err e ↦ (err e, db)
    | ok duration ↦ in_transaction input.tenant_id db (
        heartbeat_work (map lower input.tenant_id) (map lower input.job_id)
          (sha256 input.lease_token) duration)
  ]
