-- ===== src/Ingestion/Settle/Fencing.antt =====
-- Calls with a lease that is no longer held, in src/ingestion/ingestionJobService.ts.
use la_muni_rag.Base.{
  ℕ, ◌≡◌, refl, inl, inr, Bool, true, false, ◌&&◌, List, [], ◌∷◌, map, keep, and→both, ok, err,
  Bool-cases,
}
use la_muni_rag.Base.Text.{Text, lower}
use la_muni_rag.Security.Tenant.{is_canonical_uuid}
use la_muni_rag.Ingestion.Types.{
  Checked, job_error, lease_rejected, JobRow, DurableIngestionJob, CompleteIngestionJobInput,
  FailIngestionJobInput, HeartbeatIngestionJobInput, VectorReplaceResult,
}
use la_muni_rag.Ingestion.Identity.{is_sha256_hex}
use la_muni_rag.Ingestion.Store.{DocumentVersion, holds_lease}
use la_muni_rag.Ingestion.Rows.{
  Db, is_safe_error_code, is_safe_lease_token, bounded_lease_seconds, in_transaction,
}
use la_muni_rag.Ingestion.Service.{single_row}
use la_muni_rag.Ingestion.Lease.{heartbeat_request, heartbeat_work, heartbeat}
use la_muni_rag.Ingestion.Settle.{lock_lease, complete_work, complete, fail_work, fail}
use la_muni_rag.Ingestion.Table.{Member}
use la_muni_rag.Ingestion.Settle.Held.{HasLapsed, holds_lease-HasLapsed}

keep-none :
    (t : JobRow → Bool) (js : List JobRow)
    → ((j : JobRow) → Member j js → t j ≡ false)
    → keep t js ≡ []
keep-none t [] f = refl
keep-none t (j ∷ js) f = rw (f j (inl refl)) (keep-none t js (λ k m. f k (inr m)))

module _ {Vectors : Type 0} (quote : Text → Text) (sha256 : Text → Text) (clock : ℕ → ℕ) where
  -- Any row of the job is not being processed, or is under another token, or its lease is over.
  abbrev pub IsStale : Text → Text → Text → Db Vectors → Type 0
  IsStale tenant_id job_id token db =
      (j : JobRow)
      → Member j db.jobs
      → j.id ≡ map lower job_id
      → j.tenant_id ≡ map lower tenant_id
      → HasLapsed (clock 0) (sha256 token) j

  keep-IsStale :
      (tenant_id job_id token : Text) (db : Db Vectors)
      → IsStale tenant_id job_id token db
      → keep (holds_lease (clock 0) (map lower job_id) (map lower tenant_id) (sha256 token)) db.jobs
        ≡ []
  keep-IsStale tenant_id job_id token db stale =
      keep-none _ db.jobs (λ j m. holds_lease-HasLapsed _ _ _ _ j (stale j m))

  lock_lease-IsStale :
      (tenant_id job_id token : Text) (db : Db Vectors)
      → (is_canonical_uuid tenant_id && is_canonical_uuid job_id) ≡ true
      → IsStale tenant_id job_id token db
      → lock_lease quote sha256 clock tenant_id job_id token db
        ≡ err (job_error lease_rejected false)
  unfolding lock_lease single_row
  lock_lease-IsStale tenant_id job_id token db known stale =
      let nothing = keep-IsStale tenant_id job_id token db stale in
      elim (Bool-cases (is_safe_lease_token token)) [
        | inl safe ↦ rw (lock_lease, known, safe, nothing) refl
        | inr bad ↦ rw (lock_lease, known, bad) refl
      ]

  heartbeat_work-IsStale :
      (tenant_id job_id token : Text) (duration : ℕ) (db : Db Vectors)
      → IsStale tenant_id job_id token db
      → heartbeat_work quote sha256 clock
          (map lower tenant_id)
          (map lower job_id)
          (sha256 token)
          duration
          db
        ≡ err (job_error lease_rejected false)
  unfolding heartbeat_work single_row
  heartbeat_work-IsStale tenant_id job_id token duration db stale =
      let nothing = keep-IsStale tenant_id job_id token db stale in
      rw (heartbeat_work, nothing) refl

  -- A well-formed call of `heartbeat` is rejected, and all tables stay, when each row of the job in the
  -- caller's tenant is not being processed, or is under another token, or has a lease that is over.
  pub heartbeat-IsStale :
      (input : HeartbeatIngestionJobInput) (db : Db Vectors) (duration : ℕ)
      → (is_canonical_uuid input.tenant_id && is_canonical_uuid input.job_id) ≡ true
      → bounded_lease_seconds input.lease_duration_seconds ≡ ok duration
      → IsStale input.tenant_id input.job_id input.lease_token db
      → heartbeat quote sha256 clock input db ≡ (err (job_error lease_rejected false), db)
  unfolding heartbeat heartbeat_request in_transaction
  heartbeat-IsStale input db duration known bounded stale =
      let lost =
        heartbeat_work-IsStale input.tenant_id input.job_id input.lease_token duration db stale in
      let tenant =
        (and→both (is_canonical_uuid input.tenant_id) (is_canonical_uuid input.job_id) known).0 in
      elim (Bool-cases (is_safe_lease_token input.lease_token)) [
        | inl safe ↦
            rw (heartbeat, heartbeat_request, known, safe, bounded, in_transaction, tenant, lost)
              refl
        | inr bad ↦ rw (heartbeat, heartbeat_request, known, bad) refl
      ]

  -- A well-formed call of `fail` is rejected, and all tables stay, when each row of the job in the
  -- caller's tenant is not being processed, or is under another token, or has a lease that is over.
  pub fail-IsStale :
      (input : FailIngestionJobInput) (db : Db Vectors)
      → (is_canonical_uuid input.tenant_id && is_canonical_uuid input.job_id) ≡ true
      → is_safe_error_code input.error_code ≡ true
      → IsStale input.tenant_id input.job_id input.lease_token db
      → fail quote sha256 clock input db ≡ (err (job_error lease_rejected false), db)
  unfolding fail fail_work in_transaction
  fail-IsStale input db known safe stale =
      let lost = lock_lease-IsStale input.tenant_id input.job_id input.lease_token db known stale in
      let tenant =
        (and→both (is_canonical_uuid input.tenant_id) (is_canonical_uuid input.job_id) known).0 in
      rw (fail, safe, in_transaction, tenant, fail_work, lost) refl

module _ {Records Vectors : Type 0} (quote : Text → Text) (sha256 : Text → Text) (clock : ℕ → ℕ)
    (replace : DurableIngestionJob
      → DocumentVersion
      → Records
      → Vectors
      → Checked (VectorReplaceResult × Vectors)) where
  -- A well-formed call of `complete` is rejected, and all tables stay, when each row of the job in the
  -- caller's tenant is not being processed, or is under another token, or has a lease that is over.
  pub complete-IsStale :
      (input : CompleteIngestionJobInput Records) (db : Db Vectors)
      → (is_canonical_uuid input.tenant_id && is_canonical_uuid input.job_id) ≡ true
      → (is_sha256_hex input.artifact_sha256
          && is_canonical_uuid input.artifact_object_id
          && is_canonical_uuid input.artifact_scan_id)
        ≡ true
      → IsStale quote sha256 clock input.tenant_id input.job_id input.lease_token db
      → complete quote sha256 clock replace input db ≡ (err (job_error lease_rejected false), db)
  unfolding complete complete_work in_transaction
  complete-IsStale input db known named stale =
      let lost =
        lock_lease-IsStale quote sha256 clock input.tenant_id input.job_id input.lease_token db
          known stale in
      let tenant =
        (and→both (is_canonical_uuid input.tenant_id) (is_canonical_uuid input.job_id) known).0 in
      rw (complete, named, in_transaction, tenant, complete_work, lost) refl
