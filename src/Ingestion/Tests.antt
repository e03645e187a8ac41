-- ===== src/Ingestion/Tests.antt =====
-- The theorems of src/ingestion at concrete inputs.
use la_muni_rag.Base.{
  get_or, arith, ℕ, ap, sym, ◌∙◌, ◌+◌, ◌*◌, ◌≤◌, ◌≡◌, refl, inl, inr, true, false, ◌&&◌, some, [],
  ◌∷◌, ok, err,
}
use la_muni_rag.Base.Text.{Text, codes, lower, text_eq, join, decimal, decimal_from}
use la_muni_rag.Base.Uuid.{is_place}
use la_muni_rag.Security.Tenant.{is_canonical_uuid}
use la_muni_rag.Ingestion.Types.{
  processed, status_eq, job_error, lease_rejected, IngestionJobIdentity, JobRow, new, replay,
  CompleteIngestionJobResult,
}
use la_muni_rag.Ingestion.Identity.{
  is_sha256_hex, is_safe_component, is_idempotency_key, canonical_pipeline_config, work_digest,
  request_digest, build_ingestion_job_identity,
}
use la_muni_rag.Ingestion.Store.{
  is_valid_acceptance, accepts_artifact, is_active, insert_job, update_where, holds_lease,
  set_processed, active_versions, set_extraction, update_versions,
}
use la_muni_rag.Ingestion.Rows.{
  Db, AuditEvent, success, is_safe_error_code, is_safe_lease_token, is_valid_row, job_of,
  row_to_job, audit_event, in_transaction,
}
use la_muni_rag.Ingestion.Service.{single_row, update_document_version}
use la_muni_rag.Ingestion.Enqueue.{new_row, is_artifact_of, enqueue_work, enqueue}
use la_muni_rag.Ingestion.Enqueue.Replay.{enqueue-replay}
use la_muni_rag.Ingestion.Store.{text_in}
use la_muni_rag.Ingestion.Settle.{
  lock_lease, settle_lease, check_completion, complete_work, complete, fail,
}
use la_muni_rag.Ingestion.Settle.Completion.{IsCompletion, complete-ok}
use la_muni_rag.Ingestion.Settle.Fencing.{IsStale, fail-IsStale, complete-IsStale}
use la_muni_rag.Ingestion.Step.{IsSameWork}
use la_muni_rag.Ingestion.Table.{IsSound, Member}
use la_muni_rag.Ingestion.View.{view, ViewSteps}
use la_muni_rag.Ingestion.History.Count.{moves_of, moves_of-IsNew}
use la_muni_rag.Ingestion.History.{run, run-IsSound, run-refines, run-HasStopped}
use la_muni_rag.Ingestion.Samples.{
  same_text, clock, tenant, job_id, object_id, scan_id, artifact, token, version, waiting_job,
  running_job, stopped_job, db_of, counts, replace, enqueued, completed, given_up, calls,
  waiting-IsSound, running-IsSound, stopped-IsSound,
}

run-IsSound_example :
    IsSound (run same_text same_text replace calls (db_of (waiting_job ∷ []))).jobs
run-IsSound_example =
    run-IsSound same_text same_text replace calls (db_of (waiting_job ∷ [])) waiting-IsSound

run-refines_example :
    (k : JobRow) × Member k (run same_text same_text replace calls (db_of (waiting_job ∷ []))).jobs
    × IsSameWork waiting_job k
    × ViewSteps 3 (view waiting_job) (view k)
run-refines_example =
    run-refines same_text same_text replace calls (db_of (waiting_job ∷ [])) waiting_job
      waiting-IsSound (inl refl)

moves_of-IsNew_example :
    (moves_of same_text same_text replace job_id calls (db_of (waiting_job ∷ [])) ≤ 2 * 3 + 1)
    × (moves_of same_text same_text replace job_id calls (db_of (waiting_job ∷ [])) ≤ 21)
moves_of-IsNew_example =
    moves_of-IsNew same_text same_text replace calls (db_of (waiting_job ∷ [])) waiting_job
      waiting-IsSound (inl refl) (refl, refl, waiting-IsSound.formed.0)

run-HasStopped_example :
    Member stopped_job (run same_text same_text replace calls (db_of (stopped_job ∷ []))).jobs
run-HasStopped_example =
    run-HasStopped same_text same_text replace calls (db_of (stopped_job ∷ [])) stopped_job
      stopped-IsSound (inl refl) ((λ e. cc e), (λ e. cc e))

abbrev answer : CompleteIngestionJobResult
answer = record { job = job_of (set_processed 5002 running_job); vectors = counts }

abbrev published : Db ℕ
published = record (db_of (set_processed 5002 running_job ∷ [])) {
  versions = set_extraction 5003 processed version ∷ [];
  vectors = 7;
  audit =
      (record {
        tenant_id = tenant;
        actor = tenant;
        event_type = codes "rag.ingestion_job.processed";
        entity_id = job_id;
        outcome = success;
        reason_code = codes "job_processed";
      })
      ∷ [];
}

completes :
    complete same_text same_text clock replace completed (db_of (running_job ∷ []))
    ≡ (ok answer, published)
unfolding complete complete_work in_transaction lock_lease settle_lease check_completion single_row
    row_to_job is_valid_row job_of update_document_version audit_event holds_lease update_where
    set_processed active_versions set_extraction update_versions accepts_artifact
    is_valid_acceptance is_sha256_hex is_canonical_uuid is_place is_safe_lease_token
    is_safe_error_code is_safe_component canonical_pipeline_config status_eq text_eq lower
completes = refl

complete-ok_example :
    (j : JobRow) × IsCompletion same_text same_text clock replace completed
      (db_of (running_job ∷ []))
      answer
      published
      j
complete-ok_example =
    complete-ok same_text same_text clock replace completed (db_of (running_job ∷ [])) answer
      published running-IsSound completes

-- The lease was taken over under another token.
abbrev taken_over : JobRow
taken_over = record running_job { lease_token_sha256 = some (codes "another") }

stale : IsStale same_text same_text clock tenant job_id token (db_of (taken_over ∷ []))
unfolding text_eq
stale j (inl e) p q = inr (
    inl (λ given.
      let other : j.lease_token_sha256 ≡ some (codes "another") =
        ap (λ (r : JobRow). r.lease_token_sha256) e in
      let clash : false ≡ true = ap (λ o. text_in o token) (sym other ∙ given) in cc clash))
stale j (inr m) p q = absurd m

known : (is_canonical_uuid tenant && is_canonical_uuid job_id) ≡ true
unfolding is_canonical_uuid is_place
known = refl

complete-IsStale_example :
    complete same_text same_text clock replace completed (db_of (taken_over ∷ []))
    ≡ (err (job_error lease_rejected false), db_of (taken_over ∷ []))
unfolding is_canonical_uuid is_place is_sha256_hex
complete-IsStale_example =
    complete-IsStale same_text same_text clock replace completed (db_of (taken_over ∷ [])) known
      refl stale

-- The lease is over.
abbrev run_out : JobRow
run_out = record running_job { lease_expires_at = some 4000 }

over : IsStale same_text same_text clock tenant job_id token (db_of (run_out ∷ []))
over j (inl e) p q = inr (
    inr (λ at until.
      let given : some at ≡ some 4000 = sym until ∙ ap (λ (r : JobRow). r.lease_expires_at) e in
      let same : at ≡ 4000 = ap (λ o. get_or o 0) given in omega (arith, same)))
over j (inr m) p q = absurd m

fail-IsStale_example :
    fail same_text same_text clock given_up (db_of (run_out ∷ []))
    ≡ (err (job_error lease_rejected false), db_of (run_out ∷ []))
unfolding is_safe_error_code
fail-IsStale_example =
    fail-IsStale same_text same_text clock given_up (db_of (run_out ∷ [])) known refl over

abbrev config_text : Text
config_text =
    codes
      "{contract_version:v1,extractor:{name:bounded_document_registry,version:1.0.0},chunk_planner:{name:section_text_v1,max_chars:1200,overlap_chars:100},embedding:{provider:local,model:m,dimension:1536}}"

abbrev identity : IngestionJobIdentity
identity = record {
  idempotency_key_sha256 = codes "a new key";
  request_sha256 =
      request_digest same_text same_text tenant
        (work_digest same_text same_text enqueued config_text) 3;
  artifact_sha256 = artifact;
  pipeline_config_sha256 = config_text;
  work_sha256 = work_digest same_text same_text enqueued config_text;
  canonical_pipeline_config = config_text;
  max_attempts = 3;
}

identified : build_ingestion_job_identity same_text same_text enqueued ≡ ok identity
unfolding build_ingestion_job_identity canonical_pipeline_config is_canonical_uuid is_place
    is_sha256_hex is_idempotency_key is_safe_component text_eq join decimal decimal_from
identified = refl

abbrev written_job : JobRow
written_job = new_row 1500 object_id enqueued identity

abbrev audited : AuditEvent
audited = record {
  tenant_id = tenant;
  actor = tenant;
  event_type = codes "rag.ingestion_job.enqueued";
  entity_id = object_id;
  outcome = success;
  reason_code = codes "job_enqueued";
}

abbrev written : Db ℕ
written = record (db_of (waiting_job ∷ written_job ∷ [])) { audit = audited ∷ [] }

enqueues :
    enqueue same_text same_text 1500 object_id enqueued (db_of (waiting_job ∷ []))
    ≡ (ok (new (job_of written_job)), written)
unfolding enqueue enqueue_work in_transaction is_artifact_of active_versions insert_job new_row
    row_to_job is_valid_row job_of audit_event is_canonical_uuid is_place is_sha256_hex
    is_safe_component is_safe_error_code canonical_pipeline_config status_eq text_eq lower join
    decimal decimal_from work_digest request_digest is_active
enqueues = rw (enqueue, identified) refl

enqueue-replay_example :
    (db : Db ℕ) × (enqueue same_text same_text 1600 scan_id enqueued written
      ≡ (ok (replay (job_of written_job)), db))
    × (db.jobs ≡ written.jobs)
enqueue-replay_example =
    enqueue-replay same_text same_text 1500 1600 object_id scan_id enqueued (job_of written_job)
      (db_of (waiting_job ∷ [])) written enqueues
