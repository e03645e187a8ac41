-- ===== src/Ingestion/Enqueue/Changes.antt =====
-- How `enqueue` of src/ingestion/ingestionJobService.ts changes the table of jobs.
use mathlib.Core.Path.{subst}
use la_muni_rag.Base.{
  ℕ, ◌≡◌, ◌≤◌, refl, ◌∙◌, inl, inr, true, false, ◌&&◌, List, map, keep, arith, leb, get_or, ok, err,
  ◌>>=◌, bind-ok, guard-ok, Result-cases, Option-cases, Bool-cases,
}
use la_muni_rag.Base.Text.{Text, codes, lower, text_eq}
use la_muni_rag.Security.Tenant.{is_canonical_uuid}
use la_muni_rag.Ingestion.Types.{
  Checked, job_error, JobRow, DurableIngestionJob, EnqueueIngestionJobInput,
  EnqueueIngestionJobResult, IngestionJobIdentity, new, replay, duplicate_work, conflict,
  scope_invalid, artifact_digest_invalid, idempotency_key_invalid, attempt_policy_invalid,
  artifact_identity_mismatch, claim_disappeared, persistence_invalid,
}
use la_muni_rag.Ingestion.Identity.{
  is_sha256_hex, is_idempotency_key, canonical_pipeline_config, build_ingestion_job_identity,
  default_ingestion_max_attempts, max_ingestion_attempts,
}
use la_muni_rag.Ingestion.Store.{same_key, same_work, insert_job, active_versions}
use la_muni_rag.Ingestion.Rows.{Db, AuditOutcome, row_to_job, audit_event, success, blocked}
use la_muni_rag.Ingestion.Enqueue.{
  new_row, is_artifact_of, answer_key, answer_work, resolve_conflict, enqueue_work, enqueue,
}
use la_muni_rag.Ingestion.Table.{Changes, here, next, inserted, IsNew}
use la_muni_rag.Ingestion.Kept.{row-cases, jobs-audit_event, in_transaction-Changes}

module _ (quote sha256 : Text → Text) where
  -- The identity that is built allows one to ten attempts.
  pub build_ingestion_job_identity-max_attempts :
      (input : EnqueueIngestionJobInput) {identity : IngestionJobIdentity}
      → build_ingestion_job_identity quote sha256 input ≡ ok identity
      → (1 ≤ identity.max_attempts) × (identity.max_attempts ≤ 10)
  unfolding build_ingestion_job_identity
  build_ingestion_job_identity-max_attempts input h =
      let attempts = get_or input.max_attempts default_ingestion_max_attempts in
      let (_, h1) =
        guard-ok
          (is_canonical_uuid input.tenant_id
            && is_canonical_uuid input.principal_id
            && is_canonical_uuid input.document_version_id)
          (job_error scope_invalid false) _ h in
      let (_, h2) =
        guard-ok (is_sha256_hex input.artifact_sha256) (job_error artifact_digest_invalid false) _
          h1 in
      let (_, h3) =
        guard-ok (is_idempotency_key input.idempotency_key)
          (job_error idempotency_key_invalid false) _ h2 in
      let (bounds, h4) =
        guard-ok (leb 1 attempts && leb attempts max_ingestion_attempts)
          (job_error attempt_policy_invalid false) _ h3 in
      let (config, canonical, h5) =
        bind-ok (canonical_pipeline_config quote input.pipeline_config) _ h4 in
      ground (arith, bounds, h5)

-- The row that is inserted is a new job.
new_row-IsNew :
    (now : ℕ) (id : Text) (input : EnqueueIngestionJobInput) (identity : IngestionJobIdentity)
    → 1 ≤ identity.max_attempts
    → identity.max_attempts ≤ 10
    → IsNew (new_row now id input identity)
unfolding new_row
new_row-IsNew now id input identity low high = (
  refl,
  refl,
  record {
    attempted = ground arith;
    at_least_once = low;
    at_most_ten = high;
    shaped = (refl, (refl, refl, refl, refl));
  },
)

-- The answers of a call that made no job.
abbrev pub IsOld : EnqueueIngestionJobResult → Type 0
IsOld (new job) = ⊥
IsOld (replay job) = Unit
IsOld (duplicate_work job) = Unit
IsOld conflict = Unit

old :
    {answer r : EnqueueIngestionJobResult} {js ks : List JobRow}
    → IsOld answer
    → (answer ≡ r) × (js ≡ ks)
    → IsOld r × (js ≡ ks)
old is_old (e, same) = (subst IsOld e is_old, same)

module _ {Vectors : Type 0} (quote sha256 : Text → Text) (now : ℕ) where
  -- An audited answer leaves the jobs alone.
  answered :
      {A : Type 0} (db : Db Vectors) (job : DurableIngestionJob) (event : Text)
      (outcome : AuditOutcome) (reason actor : Text) (answer a : A) (db' : Db Vectors)
      → (let given : Checked (A × Db Vectors) =
            audit_event db job event outcome reason actor >>= λ db''. ok (answer, db'') in
          given ≡ ok (a, db'))
      → (answer ≡ a) × (db.jobs ≡ db'.jobs)
  answered db job event outcome reason actor answer a db' h =
      let (db1, audited, h1) = bind-ok (audit_event db job event outcome reason actor) _ h in
      let same : (answer ≡ a) × (db1.jobs ≡ db'.jobs) = ground (arith, h1) in
      (same.0, jobs-audit_event db job event outcome reason actor audited ∙ same.1)

  answer_key-IsOld :
      (identity : IngestionJobIdentity) (row : JobRow) (db : Db Vectors)
      (r : EnqueueIngestionJobResult) (db' : Db Vectors)
      → answer_key quote sha256 now identity row db ≡ ok (r, db')
      → IsOld r × (db.jobs ≡ db'.jobs)
  unfolding answer_key
  answer_key-IsOld identity row db r db' h =
      let (job, read, h1) = bind-ok (row_to_job quote row) _ h in
      elim (Bool-cases (text_eq row.request_sha256 identity.request_sha256)) [
        | inl same ↦ old tt (
            answered db job (codes "rag.ingestion_job.replayed") success (codes "idempotent_replay")
              job.principal_id (replay job) r db' (ground (arith, h1, same)))
        | inr other ↦ old tt (
            answered db job (codes "rag.ingestion_job.conflict") blocked
              (codes "idempotency_conflict") job.principal_id conflict r db'
              (ground (arith, h1, other)))
      ]

  answer_work-IsOld :
      (input : EnqueueIngestionJobInput) (row : JobRow) (db : Db Vectors)
      (r : EnqueueIngestionJobResult) (db' : Db Vectors)
      → answer_work quote sha256 now input row db ≡ ok (r, db')
      → IsOld r × (db.jobs ≡ db'.jobs)
  unfolding answer_work
  answer_work-IsOld input row db r db' h =
      let (job, read, h1) = bind-ok (row_to_job quote row) _ h in
      old tt (
        answered db job (codes "rag.ingestion_job.deduplicated") success (codes "duplicate_work")
          (map lower input.principal_id) (duplicate_work job) r db' h1)

  -- A conflict writes no job.
  pub resolve_conflict-IsOld :
      (input : EnqueueIngestionJobInput) (identity : IngestionJobIdentity) (db : Db Vectors)
      (r : EnqueueIngestionJobResult) (db' : Db Vectors)
      → resolve_conflict quote sha256 now input identity db ≡ ok (r, db')
      → IsOld r × (db.jobs ≡ db'.jobs)
  unfolding resolve_conflict
  resolve_conflict-IsOld input identity db r db' h =
      let keyed =
        keep
          (same_key (map lower input.tenant_id) (map lower input.principal_id)
            identity.idempotency_key_sha256)
          db.jobs in
      let worked = keep (same_work (map lower input.tenant_id) identity.work_sha256) db.jobs in
      let asked = resolve_conflict quote sha256 now input identity db in
      elim (row-cases keyed) [
        | inl no_key ↦ elim (row-cases worked) [
          | inl no_work ↦
              let fails : asked ≡ err (job_error claim_disappeared true) =
                rw (resolve_conflict, no_key, no_work) refl in
              cc (fails, h)
          | inr (inl (row, one)) ↦
              let found : answer_work quote sha256 now input row db ≡ asked =
                rw (resolve_conflict, no_key, one) refl in
              answer_work-IsOld input row db r db' (found ∙ h)
          | inr (inr (row, other, rest, many)) ↦
              let found : answer_work quote sha256 now input row db ≡ asked =
                rw (resolve_conflict, no_key, many) refl in
              answer_work-IsOld input row db r db' (found ∙ h)
        ]
        | inr (inl (row, one)) ↦
            let found : answer_key quote sha256 now identity row db ≡ asked =
              rw (resolve_conflict, one) refl in
            answer_key-IsOld identity row db r db' (found ∙ h)
        | inr (inr (row, other, rest, many)) ↦
            let fails : asked ≡ err (job_error persistence_invalid false) =
              rw (resolve_conflict, many) refl in
            cc (fails, h)
      ]

  -- What `insertJob` and the audit leave once the row stands in the table.
  pub enqueue_work-Changes :
      (id : Text) (input : EnqueueIngestionJobInput) (identity : IngestionJobIdentity)
      (db : Db Vectors)
      → 1 ≤ identity.max_attempts
      → identity.max_attempts ≤ 10
      → (r : EnqueueIngestionJobResult) (db' : Db Vectors)
      → enqueue_work quote sha256 now id input identity db ≡ ok (r, db')
      → Changes db.jobs db'.jobs
  unfolding enqueue_work
  enqueue_work-Changes id input identity db low high r db' h =
      let row = new_row now id input identity in
      let (_, h1) =
        guard-ok
          (is_artifact_of identity.artifact_sha256 (
            active_versions (map lower input.document_version_id) (map lower input.tenant_id)
              db.versions))
          (job_error artifact_identity_mismatch false) _ h in
      elim (Option-cases (insert_job row db.jobs)) [
        | inl clash ↦
            let resolved : resolve_conflict quote sha256 now input identity db ≡ ok (r, db') =
              ground (arith, h1, clash) in
            subst (Changes db.jobs) (resolve_conflict-IsOld input identity db r db' resolved).1 here
        | inr (jobs, made) ↦
            let db1 = record db { jobs = jobs } in
            let written : (row_to_job quote row >>= λ job.
            audit_event db1 job (codes "rag.ingestion_job.enqueued") success (codes "job_enqueued")
              job.principal_id
            >>= λ db''. ok (new job, db''))
                ≡ ok (r, db') =
              ground (arith, h1, made) in
            let (job, read, h2) = bind-ok (row_to_job quote row) _ written in
            subst (Changes db.jobs)
              (answered db1 job (codes "rag.ingestion_job.enqueued") success (codes "job_enqueued")
                job.principal_id (new job) r db' h2).1
              (next here (inserted row (new_row-IsNew now id input identity low high) made))
      ]

  -- `enqueue` inserts a job, or leaves the table.
  pub enqueue-Changes :
      (id : Text) (input : EnqueueIngestionJobInput) (db : Db Vectors)
      → Changes db.jobs (enqueue quote sha256 now id input db).1.jobs
  unfolding enqueue
  enqueue-Changes id input db =
      elim (Result-cases (build_ingestion_job_identity quote sha256 input)) [
        | inr (e, bad) ↦ rw (enqueue, bad) here
        | inl (identity, good) ↦
            let (low, high) = build_ingestion_job_identity-max_attempts quote sha256 input good in
            rw (enqueue, good)
              (in_transaction-Changes input.tenant_id db _
                (enqueue_work-Changes id input identity db low high))
      ]
