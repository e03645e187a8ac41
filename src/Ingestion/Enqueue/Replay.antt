-- ===== src/Ingestion/Enqueue/Replay.antt =====
-- `enqueue` of src/ingestion/ingestionJobService.ts called again with the same input.
use mathlib.Core.Path.{subst}
use la_muni_rag.Base.{
  ℕ, ◌≡◌, refl, sym, ap, ◌∙◌, inl, inr, Bool, true, false, none, List, [], ◌∷◌, ◌++◌, map, keep,
  any, arith, ok, err, ◌>>=◌, bind-ok, guard-ok, Result-cases, Option-cases,
}
use la_muni_rag.Base.Text.{Text, codes, lower, text_eq, text_eq_iff}
use la_muni_rag.Security.Tenant.{is_canonical_uuid}
use la_muni_rag.Ingestion.Types.{
  Checked, job_error, JobRow, DurableIngestionJob, EnqueueIngestionJobInput,
  EnqueueIngestionJobResult, IngestionJobIdentity, new, replay, artifact_identity_mismatch,
}
use la_muni_rag.Ingestion.Identity.{build_ingestion_job_identity}
use la_muni_rag.Ingestion.Store.{same_key, insert_job, active_versions}
use la_muni_rag.Ingestion.Rows.{
  Db, AuditOutcome, row_to_job, job_of, audit_event, success, in_transaction, is_safe_error_code,
  is_valid_row,
}
use la_muni_rag.Ingestion.Enqueue.{
  new_row, is_artifact_of, answer_key, resolve_conflict, enqueue_work, enqueue,
}
use la_muni_rag.Ingestion.Kept.{jobs-audit_event, in_transaction-ok}
use la_muni_rag.Ingestion.Table.{insert_job-apart}
use la_muni_rag.Ingestion.Enqueue.Changes.{resolve_conflict-IsOld}

text_eq_refl : (s : Text) → text_eq s s ≡ true
text_eq_refl s = (text_eq_iff s s).1 refl

keep-snoc :
    (t : JobRow → Bool) (js : List JobRow) (row : JobRow)
    → any t js ≡ false
    → t row ≡ true
    → keep t (js ++ row ∷ []) ≡ row ∷ []
keep-snoc t [] row h hit = rw hit refl
keep-snoc t (j ∷ js) row h hit = ground (arith, keep-snoc t js row)

any-snoc_true :
    (t : JobRow → Bool) (js : List JobRow) (row : JobRow)
    → t row ≡ true
    → any t (js ++ row ∷ []) ≡ true
any-snoc_true t [] row hit = rw hit refl
any-snoc_true t (j ∷ js) row hit = ground (arith, any-snoc_true t js row hit)

replay_safe : is_safe_error_code (codes "idempotent_replay") ≡ true
unfolding is_safe_error_code
replay_safe = refl

same_key-new_row :
    (now : ℕ) (id : Text) (input : EnqueueIngestionJobInput) (identity : IngestionJobIdentity)
    → same_key
        (map lower input.tenant_id)
        (map lower input.principal_id)
        identity.idempotency_key_sha256
        (new_row now id input identity)
      ≡ true
unfolding new_row
same_key-new_row now id input identity = ground (
  arith,
  text_eq_refl (map lower input.tenant_id),
  text_eq_refl (map lower input.principal_id),
  text_eq_refl identity.idempotency_key_sha256,
)

insert_job-none :
    (row : JobRow) (js : List JobRow)
    → any (same_key row.tenant_id row.requested_by_principal_id row.idempotency_key_sha256) js
      ≡ true
    → insert_job row js ≡ none
unfolding insert_job
insert_job-none row js h = ground arith

valid_principal :
    (quote : Text → Text) (row : JobRow) (job : DurableIngestionJob)
    → row_to_job quote row ≡ ok job
    → is_canonical_uuid job.principal_id ≡ true
unfolding row_to_job is_valid_row job_of
valid_principal quote row job h = ground arith

kept-audit_event :
    {Vectors : Type 0} (db : Db Vectors) (job : DurableIngestionJob) (event : Text)
    (outcome : AuditOutcome) (reason actor : Text) {db' : Db Vectors}
    → audit_event db job event outcome reason actor ≡ ok db'
    → (db.jobs ≡ db'.jobs) × (db.versions ≡ db'.versions)
unfolding audit_event
kept-audit_event db job event outcome reason actor h = ground arith

module _ {Vectors : Type 0} (quote sha256 : Text → Text) where
  -- A readable row of the same request is replayed.
  answer_key-replay :
      (now : ℕ) (identity : IngestionJobIdentity) (row : JobRow) (job : DurableIngestionJob)
      (db : Db Vectors)
      → row_to_job quote row ≡ ok job
      → row.request_sha256 ≡ identity.request_sha256
      → (db' : Db Vectors) × (answer_key quote sha256 now identity row db ≡ ok (replay job, db'))
        × (db'.jobs ≡ db.jobs)
  unfolding answer_key audit_event
  answer_key-replay now identity row job db read same =
      let equal = (text_eq_iff row.request_sha256 identity.request_sha256).1 same in
      let actor = valid_principal quote row job read in
      elim (Result-cases (
        audit_event db job (codes "rag.ingestion_job.replayed") success (codes "idempotent_replay")
          job.principal_id)) [
            | inl (db', e) ↦
                (db', rw (answer_key, read, equal, e) refl, sym (jobs-audit_event db job _ _ _ _ e))
            | inr (thrown, e) ↦
                let fine : audit_event db job (codes "rag.ingestion_job.replayed") success
                        (codes "idempotent_replay") job.principal_id
                      ≡ err thrown
                    → ⊥ =
                  rw (audit_event, replay_safe, actor) (λ x. cc x) in
                absurd (fine e)
          ]

  -- A table that ends in a job's first row resolves the same request to it.
  resolve_conflict-replay :
      (now now' : ℕ) (id : Text) (input : EnqueueIngestionJobInput)
      (identity : IngestionJobIdentity) (js : List JobRow) (job : DurableIngestionJob)
      (db : Db Vectors)
      → any
          (same_key
            (map lower input.tenant_id)
            (map lower input.principal_id)
            identity.idempotency_key_sha256)
          js
        ≡ false
      → db.jobs ≡ js ++ new_row now id input identity ∷ []
      → row_to_job quote (new_row now id input identity) ≡ ok job
      → (db' : Db Vectors) × (resolve_conflict quote sha256 now' input identity db
          ≡ ok (replay job, db'))
        × (db'.jobs ≡ db.jobs)
  unfolding resolve_conflict new_row
  resolve_conflict-replay now now' id input identity js job db fresh ends read =
      let row = new_row now id input identity in
      let (db', e, same) = answer_key-replay now' identity row job db read refl in
      let keyed =
        same_key (map lower input.tenant_id) (map lower input.principal_id)
          identity.idempotency_key_sha256 in
      let one : keep keyed db.jobs ≡ row ∷ [] =
        ap (keep keyed) ends
        ∙ keep-snoc
            (same_key (map lower input.tenant_id) (map lower input.principal_id)
              identity.idempotency_key_sha256)
            js row fresh (same_key-new_row now id input identity) in
      (db', rw (resolve_conflict, one, e) refl, same)

  -- What the first call leaves for the second.
  enqueue_work-new :
      (now : ℕ) (id : Text) (input : EnqueueIngestionJobInput) (identity : IngestionJobIdentity)
      (job : DurableIngestionJob) (db db' : Db Vectors)
      → enqueue_work quote sha256 now id input identity db ≡ ok (new job, db')
      → (is_artifact_of identity.artifact_sha256 (
            active_versions
              (map lower input.document_version_id)
              (map lower input.tenant_id)
              db'.versions)
          ≡ true)
        × (any
              (same_key
                (map lower input.tenant_id)
                (map lower input.principal_id)
                identity.idempotency_key_sha256)
              db.jobs
            ≡ false)
        × (db'.jobs ≡ db.jobs ++ new_row now id input identity ∷ [])
        × (row_to_job quote (new_row now id input identity) ≡ ok job)
  unfolding enqueue_work new_row
  enqueue_work-new now id input identity job db db' h =
      let row = new_row now id input identity in
      let (artifact, h1) =
        guard-ok
          (is_artifact_of identity.artifact_sha256 (
            active_versions (map lower input.document_version_id) (map lower input.tenant_id)
              db.versions))
          (job_error artifact_identity_mismatch false) _ h in
      elim (Option-cases (insert_job row db.jobs)) [
        | inl clash ↦
            let resolved : resolve_conflict quote sha256 now input identity db ≡ ok (new job, db') =
              ground (arith, h1, clash) in
            absurd
              (resolve_conflict-IsOld quote sha256 now input identity db (new job) db' resolved).0
        | inr (jobs, made) ↦
            let db1 = record db { jobs = jobs } in
            let given : Checked (EnqueueIngestionJobResult × Db Vectors) =
              row_to_job quote row >>= λ job'.
              audit_event db1 job' (codes "rag.ingestion_job.enqueued") success
                (codes "job_enqueued") job'.principal_id
              >>= λ db''. ok (new job', db'') in
            let written : given ≡ ok (new job, db') = ground (arith, h1, made) in
            let (job1, read, h2) = bind-ok (row_to_job quote row) _ written in
            let (db2, audited, h3) =
              bind-ok
                (audit_event db1 job1 (codes "rag.ingestion_job.enqueued") success
                  (codes "job_enqueued") job1.principal_id)
                _ h2 in
            let out : (job1 ≡ job) × (db2 ≡ db') = ground (arith, h3) in
            let (jobs_kept, versions_kept) = kept-audit_event db1 job1 _ _ _ _ audited in
            let (ends, _, fresh, _) = insert_job-apart row db.jobs jobs made in
            (
              subst
                  (λ vs.
                    is_artifact_of identity.artifact_sha256 (
                      active_versions (map lower input.document_version_id)
                        (map lower input.tenant_id) vs)
                    ≡ true)
                  (versions_kept ∙ ap (λ (d : Db Vectors). d.versions) out.1) artifact,
              fresh,
              sym (jobs_kept ∙ ap (λ (d : Db Vectors). d.jobs) out.1) ∙ ends,
              read ∙ ap ok out.0,
            )
      ]

  -- The second call finds the row.
  enqueue_work-replay :
      (now now' : ℕ) (id id' : Text) (input : EnqueueIngestionJobInput)
      (identity : IngestionJobIdentity) (job : DurableIngestionJob) (db db' : Db Vectors)
      → enqueue_work quote sha256 now id input identity db ≡ ok (new job, db')
      → (db'' : Db Vectors) × (enqueue_work quote sha256 now' id' input identity db'
          ≡ ok (replay job, db''))
        × (db''.jobs ≡ db'.jobs)
  unfolding enqueue_work new_row
  enqueue_work-replay now now' id id' input identity job db db' h =
      let (artifact, fresh, ends, read) = enqueue_work-new now id input identity job db db' h in
      let keyed =
        same_key (map lower input.tenant_id) (map lower input.principal_id)
          identity.idempotency_key_sha256 in
      let (db'', e, same) =
        resolve_conflict-replay now now' id input identity db.jobs job db' fresh ends read in
      let clash : any keyed db'.jobs ≡ true =
        ap (any keyed) ends
        ∙ any-snoc_true keyed db.jobs (new_row now id input identity)
            (same_key-new_row now id input identity) in
      let refused = insert_job-none (new_row now' id' input identity) db'.jobs clash in
      (db'', rw (enqueue_work, artifact, refused, e) refl, same)

  -- When `enqueue` has made a job, the same input, whenever it is sent next and with whatever
  -- identifier is generated for it, is answered with the same job as a replay, and the table of jobs
  -- stays as it is.
  pub enqueue-replay :
      (now now' : ℕ) (id id' : Text) (input : EnqueueIngestionJobInput) (job : DurableIngestionJob)
      (db db' : Db Vectors)
      → enqueue quote sha256 now id input db ≡ (ok (new job), db')
      → (db'' : Db Vectors) × (enqueue quote sha256 now' id' input db' ≡ (ok (replay job), db''))
        × (db''.jobs ≡ db'.jobs)
  unfolding enqueue in_transaction
  enqueue-replay now now' id id' input job db db' h =
      elim (Result-cases (build_ingestion_job_identity quote sha256 input)) [
        | inr (thrown, bad) ↦ absurd (ground (arith, bad, h))
        | inl (identity, good) ↦
            let started : in_transaction input.tenant_id db
                  (enqueue_work quote sha256 now id input identity)
                ≡ (ok (new job), db') =
              ground (arith, good, h) in
            let (tenant, worked) =
              in_transaction-ok input.tenant_id db (enqueue_work quote sha256 now id input identity)
                (new job) db' started in
            let (db'', e, same) =
              enqueue_work-replay now now' id id' input identity job db db' worked in
            (db'', rw (enqueue, good, in_transaction, tenant, e) refl, same)
      ]
