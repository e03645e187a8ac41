-- ===== src/Ingestion/Settle/Changes.antt =====
-- How `complete` and `fail` of src/ingestion/ingestionJobService.ts change the table of jobs.
use mathlib.Core.Path.{subst}
use la_muni_rag.Base.{
  ℕ, ◌<◌, ◌≡◌, refl, ap, ◌∙◌, true, false, ◌&&◌, map, keep, arith, leb, ok, bind-ok, guard-ok,
  Bool-cases, if◌then◌else◌, inl, inr, get_or,
}
use la_muni_rag.Base.Text.{Text, codes, lower}
use la_muni_rag.Security.Tenant.{is_canonical_uuid}
use la_muni_rag.Ingestion.Types.{
  Checked, job_error, lease_rejected, retry_policy_invalid, JobRow, DurableIngestionJob, queued,
  failed, processing, processed, CompleteIngestionJobInput, CompleteIngestionJobResult,
  FailIngestionJobInput, VectorReplaceResult, scope_invalid,
}
use la_muni_rag.Ingestion.Identity.{is_sha256_hex}
use la_muni_rag.Ingestion.Store.{
  DocumentVersion, holds_lease, update_where, set_processed, set_retry, set_failed,
}
use la_muni_rag.Ingestion.Rows.{
  Db, row_to_job, job_of, audit_event, default_delay, max_retry_delay_seconds, is_safe_error_code,
  is_safe_lease_token, error, success,
}
use la_muni_rag.Ingestion.Service.{single_row, update_document_version}
use la_muni_rag.Ingestion.Settle.{
  lock_lease, settle_lease, check_completion, complete_work, complete, retries, fail_work, fail,
}
use la_muni_rag.Ingestion.Step.{RowChange, moved, completed, retried, gave_up}
use la_muni_rag.Ingestion.Table.{
  Pointwise, Changes, here, next, updated, Member, IsSound, only_row, update_where-Pointwise,
}
use la_muni_rag.Ingestion.Kept.{
  single_row-ok, keep-single, row_to_job-ok, status-holds_lease, jobs-audit_event,
  jobs-update_document_version, in_transaction-Changes,
}

room :
    (input : FailIngestionJobInput) (job : DurableIngestionJob) (j : JobRow)
    → retries input job ≡ true
    → job_of j ≡ job
    → j.attempt_count < j.max_attempts
unfolding retries job_of
room input job j again read = ground arith

fail_row :
    (now : ℕ) (input : FailIngestionJobInput) (job : DurableIngestionJob) (j : JobRow) (delay : ℕ)
    → is_safe_error_code input.error_code ≡ true
    → job_of j ≡ job
    → j.status ≡ processing
    → RowChange j (
        (if retries input job
            then set_retry now delay input.error_code
            else set_failed now input.error_code input.retryable)
          j)
fail_row now input job j delay safe read running = elim (Bool-cases (retries input job)) [
  | inl again ↦
      rw again
        (moved (retried now delay input.error_code running (room input job j again read) safe refl))
  | inr never ↦ rw never (moved (gave_up now input.error_code input.retryable running safe refl))
]

module _ {Vectors : Type 0} (quote : Text → Text) (sha256 : Text → Text) (clock : ℕ → ℕ) where
  -- The row that a worker has locked: it is the job's, under the worker's lease.
  abbrev pub IsLocked : Text → Text → Text → DurableIngestionJob → Db Vectors → JobRow → Type 0
  IsLocked tenant_id job_id lease_token job db j =
      Member j db.jobs
      × (holds_lease (clock 0) (map lower job_id) (map lower tenant_id) (sha256 lease_token) j
          ≡ true)
      × (job_of j ≡ job)

  pub lock_lease-IsLocked :
      (tenant_id job_id lease_token : Text) (db : Db Vectors) (job : DurableIngestionJob)
      → lock_lease quote sha256 clock tenant_id job_id lease_token db ≡ ok job
      → (j : JobRow) × IsLocked tenant_id job_id lease_token job db j
  unfolding lock_lease
  lock_lease-IsLocked tenant_id job_id lease_token db job h =
      let (_, h1) =
        guard-ok (is_canonical_uuid tenant_id && is_canonical_uuid job_id)
          (job_error scope_invalid false) _ h in
      let (_, h2) =
        guard-ok (is_safe_lease_token lease_token) (job_error lease_rejected false) _ h1 in
      let (row, single, read) = bind-ok _ (row_to_job quote) h2 in
      let (member, held) = keep-single _ db.jobs row (single_row-ok _ _ single) in
      (row, (member, held, row_to_job-ok quote row read))

  pub settle_lease-jobs :
      (n : ℕ) (job : DurableIngestionJob) (lease_token : Text) (set : JobRow → JobRow)
      (db : Db Vectors) (settled : JobRow) (db' : Db Vectors)
      → settle_lease quote sha256 clock n job lease_token set db ≡ ok (settled, db')
      → update_where
          (holds_lease (clock n) job.job_id job.tenant_id (sha256 lease_token))
          set
          db.jobs
        ≡ db'.jobs
  unfolding settle_lease
  settle_lease-jobs n job lease_token set db settled db' h =
      let held = holds_lease (clock n) job.job_id job.tenant_id (sha256 lease_token) in
      let (row, single, h1) =
        bind-ok (single_row (job_error lease_rejected false) (map set (keep held db.jobs))) _ h in
      ground (arith, h1)

  -- A lease is settled by one update, if it makes a change of every row under the lease.
  settle_lease-Changes :
      (n : ℕ) (job : DurableIngestionJob) (lease_token : Text) (set : JobRow → JobRow)
      (db db' : Db Vectors) (settled : JobRow)
      → settle_lease quote sha256 clock n job lease_token set db ≡ ok (settled, db')
      → ((j : JobRow)
          → Member j db.jobs
          → holds_lease (clock n) job.job_id job.tenant_id (sha256 lease_token) j ≡ true
          → RowChange j (set j))
      → Changes db.jobs db'.jobs
  settle_lease-Changes n job lease_token set db db' settled h f = next here (
      updated (
        subst (Pointwise db.jobs) (settle_lease-jobs n job lease_token set db settled db' h)
          (update_where-Pointwise _ set db.jobs f)))

  complete_work-Changes :
      {Records : Type 0}
      (replace : DurableIngestionJob
        → DocumentVersion
        → Records
        → Vectors
        → Checked (VectorReplaceResult × Vectors))
      (input : CompleteIngestionJobInput Records) (db : Db Vectors) (r : CompleteIngestionJobResult)
      (db' : Db Vectors)
      → complete_work quote sha256 clock replace input db ≡ ok (r, db')
      → Changes db.jobs db'.jobs
  unfolding complete_work
  complete_work-Changes replace input db r db' h =
      let (job, locked, h1) =
        bind-ok (lock_lease quote sha256 clock input.tenant_id input.job_id input.lease_token db) _
          h in
      let (version, checked, h2) =
        bind-ok (check_completion quote sha256 clock input job db) _ h1 in
      let ((counts, vectors), replaced, h3) =
        bind-ok (replace job version input.records db.vectors) _ h2 in
      let ((row, db1), done, h4) =
        bind-ok
          (settle_lease quote sha256 clock 2 job input.lease_token (set_processed (clock 2))
            (record db { vectors = vectors }))
          _ h3 in
      let (db2, published, h5) =
        bind-ok (update_document_version (clock 3) job processed db1) _ h4 in
      let (settled, read, h5') = bind-ok (row_to_job quote row) _ h5 in
      let (db3, audited, h6) =
        bind-ok
          (audit_event db2 settled (codes "rag.ingestion_job.processed") success
            (codes "job_processed") settled.principal_id)
          _ h5' in
      let last : db3.jobs ≡ db'.jobs = ground (arith, h6) in
      let change =
        settle_lease-Changes 2 job input.lease_token (set_processed (clock 2))
          (record db { vectors = vectors }) db1 row done
          (λ j m held. moved (completed (clock 2) (status-holds_lease _ _ _ _ j held) refl)) in
      subst (Changes db.jobs)
        (jobs-update_document_version _ job processed db1 published
          ∙ jobs-audit_event db2 settled _ _ _ _ audited
          ∙ last)
        change

  -- `complete` changes the table by one update, or not at all.
  pub complete-Changes :
      {Records : Type 0}
      (replace : DurableIngestionJob
        → DocumentVersion
        → Records
        → Vectors
        → Checked (VectorReplaceResult × Vectors))
      (input : CompleteIngestionJobInput Records) (db : Db Vectors)
      → Changes db.jobs (complete quote sha256 clock replace input db).1.jobs
  unfolding complete
  complete-Changes replace input db =
      elim (Bool-cases (
        is_sha256_hex input.artifact_sha256
        && is_canonical_uuid input.artifact_object_id
        && is_canonical_uuid input.artifact_scan_id)) [
          | inr bad ↦ rw (complete, bad) here
          | inl good ↦
              rw (complete, good)
                (in_transaction-Changes input.tenant_id db
                  (complete_work quote sha256 clock replace input)
                  (complete_work-Changes replace input db))
        ]

  -- A row under the same lease later is the row that was locked.
  relocked :
      (input : FailIngestionJobInput) (db : Db Vectors) (job : DurableIngestionJob) (i j : JobRow)
      → IsSound db.jobs
      → IsLocked input.tenant_id input.job_id input.lease_token job db i
      → Member j db.jobs
      → holds_lease (clock 1) job.job_id job.tenant_id (sha256 input.lease_token) j ≡ true
      → job_of j ≡ job
  unfolding job_of holds_lease
  relocked input db job i j sound (member, held, read) m later =
      let one = only_row db.jobs j i sound.ids m member (ground arith) in ap job_of one ∙ read

  fail_work-Changes :
      (input : FailIngestionJobInput) (db : Db Vectors)
      → is_safe_error_code input.error_code ≡ true
      → IsSound db.jobs
      → (r : DurableIngestionJob) (db' : Db Vectors)
      → fail_work quote sha256 clock input db ≡ ok (r, db')
      → Changes db.jobs db'.jobs
  unfolding fail_work
  fail_work-Changes input db safe sound r db' h =
      let (job, locked, h1) =
        bind-ok (lock_lease quote sha256 clock input.tenant_id input.job_id input.lease_token db) _
          h in
      let delay = get_or input.retry_delay_seconds (default_delay job.attempt_count) in
      let (_, h2) =
        guard-ok (leb delay max_retry_delay_seconds) (job_error retry_policy_invalid false) _ h1 in
      let set =
        if retries input job
        then set_retry (clock 1) delay input.error_code
        else set_failed (clock 1) input.error_code input.retryable in
      let ((row, db1), done, h3) =
        bind-ok (settle_lease quote sha256 clock 1 job input.lease_token set db) _ h2 in
      let (settled, read, h3') = bind-ok (row_to_job quote row) _ h3 in
      let (db2, published, h4) =
        bind-ok
          (update_document_version (clock 1) job (if retries input job then queued else failed) db1)
          _ h3' in
      let (db3, audited, h5) =
        bind-ok
          (audit_event db2 settled
            (if retries input job
              then codes "rag.ingestion_job.retry_scheduled"
              else codes "rag.ingestion_job.failed")
            error (if retries input job then codes "retry_scheduled" else input.error_code)
            settled.principal_id)
          _ h4 in
      let last : db3.jobs ≡ db'.jobs = ground (arith, h5) in
      let (i, held) =
        lock_lease-IsLocked input.tenant_id input.job_id input.lease_token db job locked in
      let change = settle_lease-Changes 1 job input.lease_token set db db1 row done (λ j m later.
        fail_row (clock 1) input job j delay safe (relocked input db job i j sound held m later)
          (status-holds_lease _ _ _ _ j later)) in
      subst (Changes db.jobs)
        (jobs-update_document_version _ job _ db1 published
          ∙ jobs-audit_event db2 settled _ _ _ _ audited
          ∙ last)
        change

  -- `fail` changes a sound table by one update, or not at all.
  pub fail-Changes :
      (input : FailIngestionJobInput) (db : Db Vectors)
      → IsSound db.jobs
      → Changes db.jobs (fail quote sha256 clock input db).1.jobs
  unfolding fail
  fail-Changes input db sound = elim (Bool-cases (is_safe_error_code input.error_code)) [
    | inr bad ↦ rw (fail, bad) here
    | inl good ↦
        rw (fail, good)
          (in_transaction-Changes input.tenant_id db (fail_work quote sha256 clock input)
            (fail_work-Changes input db good sound))
  ]
