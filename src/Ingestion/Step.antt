-- ===== src/Ingestion/Step.antt =====
-- How one row of rag.ingestion_jobs changes, the shape that the table's CHECK constraints demand
-- (src/db/migrations/005_tenant_ingestion_runtime.sql and 007_persisted_artifact_acceptance.sql),
-- and the abstract job.
use la_muni_rag.Base.{
  ℕ, ◌≤◌, ◌<◌, ◌≡◌, refl, Bool, true, false, ◌&&◌, Option, none, some, is_some, arith,
}
use la_muni_rag.Base.Text.{Text, codes}
use la_muni_rag.Ingestion.Types.{
  DurableIngestionJobStatus, queued, processing, processed, failed, superseded, status_eq, JobRow,
}
use la_muni_rag.Ingestion.Store.{
  is_exhausted, is_active, set_leased, set_heartbeat, set_exhausted, set_processed, set_retry,
  set_failed,
}
use la_muni_rag.Ingestion.Queue.{is_leasable}
use la_muni_rag.Ingestion.Rows.{is_safe_error_code}

-- A job makes its way by these moves.
pub data Move (j k : JobRow) : Type 0 where
  leased :
      (now : ℕ) (owner token : Text) (duration : ℕ) (object_id scan_id : Text)
      → is_leasable now j.tenant_id j ≡ true
      → k ≡ set_leased now owner token duration object_id scan_id j
      → Move j k
  exhausted : (now : ℕ) → is_exhausted now j.tenant_id j ≡ true → k ≡ set_exhausted now j → Move j k
  completed : (now : ℕ) → j.status ≡ processing → k ≡ set_processed now j → Move j k
  retried :
      (now delay : ℕ) (code : Text)
      → j.status ≡ processing
      → j.attempt_count < j.max_attempts
      → is_safe_error_code code ≡ true
      → k ≡ set_retry now delay code j
      → Move j k
  gave_up :
      (now : ℕ) (code : Text) (retryable : Bool)
      → j.status ≡ processing
      → is_safe_error_code code ≡ true
      → k ≡ set_failed now code retryable j
      → Move j k

-- A row stays, its lease is prolonged, or the job moves.
pub data RowChange (j k : JobRow) : Type 0 where
  same : k ≡ j → RowChange j k
  beaten :
      (now duration : ℕ) → j.status ≡ processing → k ≡ set_heartbeat now duration j → RowChange j k
  moved : Move j k → RowChange j k

abbrev HasNoLease : JobRow → Type 0
HasNoLease j =
    (j.lease_owner_sha256 ≡ none)
    × (j.lease_token_sha256 ≡ none)
    × (j.lease_expires_at ≡ none)
    × (j.heartbeat_at ≡ none)

abbrev is_safe_code_in : Option Text → Bool
is_safe_code_in none = false
is_safe_code_in (some c) = is_safe_error_code c

abbrev is_bound : JobRow → Bool
is_bound j = is_some j.artifact_object_id && is_some j.artifact_scan_id

abbrev HasEnded : JobRow → Type 0
HasEnded j =
    (is_some j.finished_at ≡ true)
    × (is_safe_code_in j.last_error_code ≡ true)
    × (is_some j.last_error_retryable ≡ true)
    × HasNoLease j
    × (is_bound j ≡ true)

-- The cases of `ingestion_jobs_vector_runtime_chk`, with `ingestion_jobs_artifact_binding_chk`.
abbrev pub HasShape : DurableIngestionJobStatus → JobRow → Type 0
HasShape queued j = (j.finished_at ≡ none) × HasNoLease j
HasShape processing j =
    (is_some j.started_at ≡ true)
    × (j.finished_at ≡ none)
    × (is_some j.lease_owner_sha256 ≡ true)
    × (is_some j.lease_token_sha256 ≡ true)
    × (is_some j.lease_expires_at ≡ true)
    × (is_some j.heartbeat_at ≡ true)
    × (is_bound j ≡ true)
HasShape processed j =
    (is_some j.started_at ≡ true)
    × (is_some j.finished_at ≡ true)
    × (j.last_error_code ≡ none)
    × (j.last_error_retryable ≡ none)
    × HasNoLease j
    × (is_bound j ≡ true)
HasShape failed j = HasEnded j
HasShape superseded j = HasEnded j

pub record IsWellFormed (j : JobRow) : Type 0 where
  pub attempted : j.attempt_count ≤ j.max_attempts
  pub at_least_once : 1 ≤ j.max_attempts
  pub at_most_ten : j.max_attempts ≤ 10
  pub shaped : HasShape j.status j

shape_of :
    (s : DurableIngestionJobStatus) (j : JobRow) → j.status ≡ s → HasShape j.status j → HasShape s j
shape_of s j e h = rw (← e) h

pub status_eq→≡ : (s t : DurableIngestionJobStatus) → status_eq s t ≡ true → s ≡ t
unfolding status_eq
status_eq→≡ queued queued h = refl
status_eq→≡ processing processing h = refl
status_eq→≡ processed processed h = refl
status_eq→≡ failed failed h = refl
status_eq→≡ superseded superseded h = refl
status_eq→≡ s t h = ground arith

pub status-is_exhausted :
    (now : ℕ) (j : JobRow) → is_exhausted now j.tenant_id j ≡ true → j.status ≡ processing
unfolding is_exhausted
status-is_exhausted now j h = ground (arith, status_eq→≡ j.status processing)

expired_code : is_safe_error_code (codes "lease_expired") ≡ true
unfolding is_safe_error_code
expired_code = refl

pub Move-IsWellFormed : (j k : JobRow) → Move j k → IsWellFormed j → IsWellFormed k
unfolding set_leased set_exhausted set_processed set_retry set_failed is_leasable is_exhausted
Move-IsWellFormed j k (leased now owner token duration o s p e) h = rw e record {
  attempted = ground arith;
  at_least_once = h.at_least_once;
  at_most_ten = h.at_most_ten;
  shaped = (refl, refl, refl, refl, refl, refl, refl);
}
Move-IsWellFormed j k (exhausted now p e) h =
    let old = shape_of processing j (status-is_exhausted now j p) h.shaped in
    rw e record {
      attempted = h.attempted;
      at_least_once = h.at_least_once;
      at_most_ten = h.at_most_ten;
      shaped = (refl, expired_code, refl, (refl, refl, refl, refl), old.6);
    }
Move-IsWellFormed j k (completed now p e) h =
    let old = shape_of processing j p h.shaped in
    rw e record {
      attempted = h.attempted;
      at_least_once = h.at_least_once;
      at_most_ten = h.at_most_ten;
      shaped = (old.0, refl, refl, refl, (refl, refl, refl, refl), old.6);
    }
Move-IsWellFormed j k (retried now delay code p q c e) h = rw e record {
  attempted = h.attempted;
  at_least_once = h.at_least_once;
  at_most_ten = h.at_most_ten;
  shaped = (refl, (refl, refl, refl, refl));
}
Move-IsWellFormed j k (gave_up now code retryable p c e) h =
    let old = shape_of processing j p h.shaped in
    rw e record {
      attempted = h.attempted;
      at_least_once = h.at_least_once;
      at_most_ten = h.at_most_ten;
      shaped = (refl, c, refl, (refl, refl, refl, refl), old.6);
    }

pub RowChange-IsWellFormed : (j k : JobRow) → RowChange j k → IsWellFormed j → IsWellFormed k
unfolding set_heartbeat
RowChange-IsWellFormed j k (same e) h = rw e h
RowChange-IsWellFormed j k (beaten now duration p e) h =
    let old = shape_of processing j p h.shaped in
    rw (e, p)
      record {
        attempted = h.attempted;
        at_least_once = h.at_least_once;
        at_most_ten = h.at_most_ten;
        shaped = (old.0, old.1, old.2, old.3, refl, refl, old.6);
      }
RowChange-IsWellFormed j k (moved m) h = Move-IsWellFormed j k m h

-- What no change of a row touches.
pub record IsSameWork (j k : JobRow) : Type 0 where
  pub same_id : k.id ≡ j.id
  pub same_tenant : k.tenant_id ≡ j.tenant_id
  pub same_principal : k.requested_by_principal_id ≡ j.requested_by_principal_id
  pub same_version : k.document_version_id ≡ j.document_version_id
  pub same_key : k.idempotency_key_sha256 ≡ j.idempotency_key_sha256
  pub same_request : k.request_sha256 ≡ j.request_sha256
  pub same_artifact : k.artifact_sha256 ≡ j.artifact_sha256
  pub same_work : k.work_sha256 ≡ j.work_sha256
  pub same_policy : k.max_attempts ≡ j.max_attempts
  pub same_pipeline : k.pipeline_config ≡ j.pipeline_config
  pub same_birth : k.created_at ≡ j.created_at

pub RowChange-IsSameWork : (j k : JobRow) → RowChange j k → IsSameWork j k
unfolding set_leased set_exhausted set_processed set_retry set_failed set_heartbeat
RowChange-IsSameWork j k (same e) = ground arith
RowChange-IsSameWork j k (beaten now duration p e) = ground arith
RowChange-IsSameWork j k (moved (leased now owner token duration o s p e)) = ground arith
RowChange-IsSameWork j k (moved (exhausted now p e)) = ground arith
RowChange-IsSameWork j k (moved (completed now p e)) = ground arith
RowChange-IsSameWork j k (moved (retried now delay code p q c e)) = ground arith
RowChange-IsSameWork j k (moved (gave_up now code retryable p c e)) = ground arith

active_processing : is_active processing ≡ true
unfolding is_active
active_processing = refl

leasable_active :
    (now : ℕ) (j : JobRow) → is_leasable now j.tenant_id j ≡ true → is_active j.status ≡ true
unfolding is_leasable is_active status_eq
leasable_active now j h = ground arith

-- No change makes an inactive job active.
pub RowChange-is_active :
    (j k : JobRow) → RowChange j k → is_active k.status ≡ true → is_active j.status ≡ true
unfolding set_leased set_exhausted set_processed set_retry set_failed set_heartbeat is_leasable
    is_exhausted
RowChange-is_active j k (same e) h = ground arith
RowChange-is_active j k (beaten now duration p e) h = ground arith
RowChange-is_active j k (moved (leased now owner token duration o s p e)) h =
    ground (arith, leasable_active now j)
RowChange-is_active j k (moved (exhausted now p e)) h =
    ground (arith, status-is_exhausted now j p, active_processing)
RowChange-is_active j k (moved (completed now p e)) h = ground (arith, active_processing)
RowChange-is_active j k (moved (retried now delay code p q c e)) h =
    ground (arith, active_processing)
RowChange-is_active j k (moved (gave_up now code retryable p c e)) h =
    ground (arith, active_processing)
