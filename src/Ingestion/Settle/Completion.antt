-- ===== src/Ingestion/Settle/Completion.antt =====
-- What `complete` of src/ingestion/ingestionJobService.ts has checked when it succeeds.
use mathlib.Core.Path.{subst}
use la_muni_rag.Base.{
  ℕ, ◌≡◌, sym, ap, ◌∙◌, true, false, ◌&&◌, some, List, [], ◌∷◌, map, keep, arith, and→both, ok,
  bind-ok, guard-ok, Result-cases, inl, inr, Bool, Bool-cases, ◌⊎◌,
}
use la_muni_rag.Base.Text.{Text, codes, lower, text_eq, text_eq_iff}
use la_muni_rag.Ingestion.Types.{
  Checked, job_error, lease_rejected, JobRow, DurableIngestionJob, processed,
  CompleteIngestionJobInput, CompleteIngestionJobResult, VectorReplaceResult,
  artifact_identity_mismatch, artifact_acceptance_mismatch, artifact_acceptance_rejected,
  document_version_missing,
}
use la_muni_rag.Ingestion.Store.{
  DocumentVersion, accepts_artifact, holds_lease, update_where, set_processed, text_in,
  active_versions,
}
use la_muni_rag.Ingestion.Rows.{Db, row_to_job, job_of, audit_event, success, in_transaction}
use la_muni_rag.Ingestion.Service.{single_row, update_document_version}
use la_muni_rag.Ingestion.Settle.{
  lock_lease, settle_lease, check_completion, complete_work, complete,
}
use la_muni_rag.Ingestion.Settle.Changes.{IsLocked, lock_lease-IsLocked}
use la_muni_rag.Ingestion.Settle.Held.{text_in-≡, IsUnderLease, holds_lease-IsUnderLease}
use la_muni_rag.Ingestion.Table.{Member, IsSound, only_row, update_where-Member}
use la_muni_rag.Ingestion.Kept.{
  map-single, single_row-ok, keep-single, row_to_job-ok, jobs-audit_event,
  jobs-update_document_version, vectors-audit_event, vectors-update_document_version,
}

-- The version is one of the table.
abbrev pub IsListed : DocumentVersion → List DocumentVersion → Type 0
IsListed v [] = ⊥
IsListed v (w ∷ l) = (v ≡ w) ⊎ IsListed v l

-- The version in the table that a completion is for: the active one of the job, in its tenant.
abbrev pub IsJobVersion : JobRow → List DocumentVersion → DocumentVersion → Type 0
IsJobVersion j versions v =
    IsListed v versions
    × (v.id ≡ j.document_version_id)
    × (v.tenant_id ≡ j.tenant_id)
    × (v.document_is_active ≡ true)

keep-head :
    (t : DocumentVersion → Bool) (l : List DocumentVersion) (v : DocumentVersion)
    → keep t l ≡ v ∷ []
    → IsListed v l × (t v ≡ true)
keep-head t [] v h = cc h
keep-head t (w ∷ l) v h = elim (Bool-cases (t w)) [
  | inl yes' ↦
      let same : w ≡ v = ground (arith, h, yes') in
      (inl (sym same), subst (λ k. t k ≡ true) same yes')
  | inr no' ↦
      let rest : keep t l ≡ v ∷ [] = ground (arith, h, no') in
      let (m, p) = keep-head t l v rest in (inr m, p)
]

active_versions-single :
    (id tenant_id : Text) (versions : List DocumentVersion) (v : DocumentVersion)
    → active_versions id tenant_id versions ≡ v ∷ []
    → IsListed v versions × (v.id ≡ id) × (v.tenant_id ≡ tenant_id) × (v.document_is_active ≡ true)
unfolding active_versions
active_versions-single id tenant_id versions v h =
    let (m, p) = keep-head _ versions v h in
    let same : text_eq v.id id ≡ true = ground (arith, p) in
    let owned : text_eq v.tenant_id tenant_id ≡ true = ground (arith, p) in
    let active : v.document_is_active ≡ true = ground (arith, p) in
    (m, (text_eq_iff _ _).0 same, (text_eq_iff _ _).0 owned, active)

holds_lease-id :
    (now : ℕ) (id tenant_id token : Text) (j : JobRow)
    → holds_lease now id tenant_id token j ≡ true
    → text_eq j.id id ≡ true
unfolding holds_lease
holds_lease-id now id tenant_id token j h = ground arith

module _ {Vectors : Type 0} (quote : Text → Text) (sha256 : Text → Text) (clock : ℕ → ℕ) where
  -- A lease is settled for the row that was locked.
  settle_lease-ok :
      (n : ℕ) (job : DurableIngestionJob) (lease_token : Text) (set : JobRow → JobRow)
      (db db' : Db Vectors) (settled j : JobRow)
      → IsSound db.jobs
      → Member j db.jobs
      → job_of j ≡ job
      → settle_lease quote sha256 clock n job lease_token set db ≡ ok (settled, db')
      → (holds_lease (clock n) j.id j.tenant_id (sha256 lease_token) j ≡ true)
        × Member (set j) db'.jobs
        × (settled ≡ set j)
        × (db.vectors ≡ db'.vectors)
  unfolding settle_lease job_of
  settle_lease-ok n job lease_token set db db' settled j sound m read h =
      let held = holds_lease (clock n) job.job_id job.tenant_id (sha256 lease_token) in
      let (row, single, h1) =
        bind-ok (single_row (job_error lease_rejected false) (map set (keep held db.jobs))) _ h in
      let (i, one, made) = map-single set (keep held db.jobs) row (single_row-ok _ _ single) in
      let (member, live) = keep-single held db.jobs i one in
      let same : i ≡ j =
        only_row db.jobs i j sound.ids member m
          (rw (ap (λ (d : DurableIngestionJob). d.job_id) read) (holds_lease-id _ _ _ _ i live)) in
      let live' : held j ≡ true = subst (λ k. held k ≡ true) same live in
      let out : (row ≡ settled)
          × (update_where held set db.jobs ≡ db'.jobs)
          × (db.vectors ≡ db'.vectors) =
        ground (arith, h1) in
      (
        subst
            (λ (d : DurableIngestionJob).
              holds_lease (clock n) d.job_id d.tenant_id (sha256 lease_token) j ≡ true)
            (sym read) live',
        subst (Member (set j)) out.1 (update_where-Member held set db.jobs j m live'),
        sym out.0 ∙ sym made ∙ ap set same,
        out.2,
      )

  check_completion-ok :
      {Records : Type 0} (input : CompleteIngestionJobInput Records) (job : DurableIngestionJob)
      (db : Db Vectors) (version : DocumentVersion)
      → check_completion quote sha256 clock input job db ≡ ok version
      → (job.artifact_sha256 ≡ input.artifact_sha256)
        × (job.artifact_object_id ≡ some (map lower input.artifact_object_id))
        × (job.artifact_scan_id ≡ some (map lower input.artifact_scan_id))
        × (accepts_artifact
              (clock 1)
              db.objects
              db.scans
              (map lower input.artifact_object_id)
              job.tenant_id
              job.document_version_id
              job.artifact_sha256
              (map lower input.artifact_scan_id)
            ≡ true)
        × (version.content_sha256 ≡ job.artifact_sha256)
        × (IsListed version db.versions
            × (version.id ≡ job.document_version_id)
            × (version.tenant_id ≡ job.tenant_id)
            × (version.document_is_active ≡ true))
  unfolding check_completion
  check_completion-ok input job db version h =
      let versions = active_versions job.document_version_id job.tenant_id db.versions in
      let (p1, h1) =
        guard-ok (text_eq input.artifact_sha256 job.artifact_sha256)
          (job_error artifact_identity_mismatch false) _ h in
      let (p2, h2) =
        guard-ok
          (text_in job.artifact_object_id (map lower input.artifact_object_id)
            && text_in job.artifact_scan_id (map lower input.artifact_scan_id))
          (job_error artifact_acceptance_mismatch false) _ h1 in
      let (v, single, h3) =
        bind-ok (single_row (job_error document_version_missing false) versions) _ h2 in
      let (p4, h4) =
        guard-ok (text_eq v.content_sha256 job.artifact_sha256)
          (job_error artifact_identity_mismatch false) _ h3 in
      let (p5, h5) =
        guard-ok
          (accepts_artifact (clock 1) db.objects db.scans (map lower input.artifact_object_id)
            job.tenant_id job.document_version_id job.artifact_sha256
            (map lower input.artifact_scan_id))
          (job_error artifact_acceptance_rejected true) _ h4 in
      let same : v ≡ version = ground (arith, h5) in
      let (object, scan) = and→both _ _ p2 in
      (
        sym ((text_eq_iff _ _).0 p1),
        text_in-≡ _ _ object,
        text_in-≡ _ _ scan,
        p5,
        ap (λ (w : DocumentVersion). w.content_sha256) (sym same) ∙ (text_eq_iff _ _).0 p4,
        active_versions-single job.document_version_id job.tenant_id db.versions version
            (single_row-ok _ _ single ∙ ap (λ (w : DocumentVersion). w ∷ []) same),
      )

module _ {Records Vectors : Type 0} (quote : Text → Text) (sha256 : Text → Text) (clock : ℕ → ℕ)
    (replace : DurableIngestionJob
      → DocumentVersion
      → Records
      → Vectors
      → Checked (VectorReplaceResult × Vectors)) where
  -- What a completion has found: the row `j`, still leased to the caller when the vectors have been
  -- replaced, for the very artifact, which the database accepts, and its version.
  pub record IsCompletion (input : CompleteIngestionJobInput Records) (db : Db Vectors)
      (r : CompleteIngestionJobResult) (db' : Db Vectors) (j : JobRow) : Type 0 where
    pub member : Member j db.jobs
    pub held_first :
        IsUnderLease
          (clock 0)
          (map lower input.job_id)
          (map lower input.tenant_id)
          (sha256 input.lease_token)
          j
    pub held_last : IsUnderLease (clock 2) j.id j.tenant_id (sha256 input.lease_token) j
    pub same_artifact : j.artifact_sha256 ≡ input.artifact_sha256
    pub same_object : j.artifact_object_id ≡ some (map lower input.artifact_object_id)
    pub same_scan : j.artifact_scan_id ≡ some (map lower input.artifact_scan_id)
    pub accepted :
        accepts_artifact
          (clock 1)
          db.objects
          db.scans
          (map lower input.artifact_object_id)
          j.tenant_id
          j.document_version_id
          j.artifact_sha256
          (map lower input.artifact_scan_id)
        ≡ true
    pub version : DocumentVersion
    pub of_job : IsJobVersion j db.versions version
    pub same_content : version.content_sha256 ≡ j.artifact_sha256
    pub replaced : replace (job_of j) version input.records db.vectors ≡ ok (r.vectors, db'.vectors)
    pub written : Member (set_processed (clock 2) j) db'.jobs
    pub answered : r.job ≡ job_of (set_processed (clock 2) j)

  -- The steps of a completion, put together.
  completed_steps :
      (input : CompleteIngestionJobInput Records) (db db1 db2 db3 db' : Db Vectors)
      (job settled : DurableIngestionJob) (row : JobRow) (version : DocumentVersion)
      (r : CompleteIngestionJobResult) (vectors : Vectors) (j : JobRow)
      → IsSound db.jobs
      → IsLocked quote sha256 clock input.tenant_id input.job_id input.lease_token job db j
      → check_completion quote sha256 clock input job db ≡ ok version
      → replace job version input.records db.vectors ≡ ok (r.vectors, vectors)
      → settle_lease quote sha256 clock 2 job input.lease_token
          (set_processed (clock 2))
          (record db { vectors = vectors })
        ≡ ok (row, db1)
      → update_document_version (clock 3) job processed db1 ≡ ok db2
      → row_to_job quote row ≡ ok settled
      → audit_event db2 settled
          (codes "rag.ingestion_job.processed")
          success
          (codes "job_processed")
          settled.principal_id
        ≡ ok db3
      → settled ≡ r.job
      → db3 ≡ db'
      → IsCompletion input db r db' j
  unfolding job_of
  completed_steps input db db1 db2 db3 db' job settled row version r vectors j sound
        (member, held, read) checked replaced done published read' audited answer end =
      let db0 = record db { vectors = vectors } in
      let (artifact, object, scan, accepted, content, (listed, of_job, of_tenant, active)) =
        check_completion-ok quote sha256 clock input job db version checked in
      let (last, written, answer', vectors_kept) =
        settle_lease-ok quote sha256 clock 2 job input.lease_token (set_processed (clock 2)) db0 db1
          row j sound member read done in
      let jobs_end =
        jobs-update_document_version _ job processed db1 published
        ∙ jobs-audit_event db2 settled _ _ _ _ audited
        ∙ ap (λ (d : Db Vectors). d.jobs) end in
      let vectors_end =
        vectors_kept
        ∙ vectors-update_document_version _ job processed db1 published
        ∙ vectors-audit_event db2 settled _ _ _ _ audited
        ∙ ap (λ (d : Db Vectors). d.vectors) end in
      let artifact_read = ap (λ (d : DurableIngestionJob). d.artifact_sha256) read in
      record {
        member = member;
        held_first = holds_lease-IsUnderLease _ _ _ _ j held;
        held_last = holds_lease-IsUnderLease _ _ _ _ j last;
        same_artifact = artifact_read ∙ artifact;
        same_object = ap (λ (d : DurableIngestionJob). d.artifact_object_id) read ∙ object;
        same_scan = ap (λ (d : DurableIngestionJob). d.artifact_scan_id) read ∙ scan;
        accepted =
            subst
              (λ (d : DurableIngestionJob).
                accepts_artifact (clock 1) db.objects db.scans (map lower input.artifact_object_id)
                  d.tenant_id d.document_version_id d.artifact_sha256
                  (map lower input.artifact_scan_id)
                ≡ true)
              (sym read) accepted;
        version = version;
        of_job = (
          listed,
          of_job ∙ sym (ap (λ (d : DurableIngestionJob). d.document_version_id) read),
          of_tenant ∙ sym (ap (λ (d : DurableIngestionJob). d.tenant_id) read),
          active,
        );
        same_content = content ∙ sym artifact_read;
        replaced =
            subst (λ d. replace d version input.records db.vectors ≡ ok (r.vectors, db'.vectors))
              (sym read)
              (subst (λ v. replace job version input.records db.vectors ≡ ok (r.vectors, v))
                vectors_end replaced);
        written = subst (Member _) jobs_end written;
        answered = sym answer ∙ sym (row_to_job-ok quote row read') ∙ ap job_of answer';
      }

  complete_work-ok :
      (input : CompleteIngestionJobInput Records) (db : Db Vectors) (r : CompleteIngestionJobResult)
      (db' : Db Vectors)
      → IsSound db.jobs
      → complete_work quote sha256 clock replace input db ≡ ok (r, db')
      → (j : JobRow) × IsCompletion input db r db' j
  unfolding complete_work
  complete_work-ok input db r db' sound h =
      let (job, locked, h1) =
        bind-ok (lock_lease quote sha256 clock input.tenant_id input.job_id input.lease_token db) _
          h in
      let (version, checked, h2) =
        bind-ok (check_completion quote sha256 clock input job db) _ h1 in
      let ((counts, vectors), replaced, h3) =
        bind-ok (replace job version input.records db.vectors) _ h2 in
      let ((row, db1), done, h4) =
        bind-ok
          (settle_lease quote sha256 clock 2 job input.lease_token (set_processed (clock 2))
            (record db { vectors = vectors }))
          _ h3 in
      let (db2, published, h5) =
        bind-ok (update_document_version (clock 3) job processed db1) _ h4 in
      let (settled, read, h5') = bind-ok (row_to_job quote row) _ h5 in
      let (db3, audited, h6) =
        bind-ok
          (audit_event db2 settled (codes "rag.ingestion_job.processed") success
            (codes "job_processed") settled.principal_id)
          _ h5' in
      let out : (settled ≡ r.job) × (counts ≡ r.vectors) × (db3 ≡ db') = ground (arith, h6) in
      let (j, held) =
        lock_lease-IsLocked quote sha256 clock input.tenant_id input.job_id input.lease_token db job
          locked in
      (
        j,
        completed_steps input db db1 db2 db3 db' job settled row version r vectors j sound held
            checked (replaced ∙ ap (λ c. ok (c, vectors)) out.1) done published read audited out.0
            out.2,
      )

  -- When `complete` succeeds on a sound table, there is a row of the job with the caller's identifier
  -- and tenant that was being processed, under the digest of the caller's token and with a lease that
  -- ended later, both when it was locked and, after the vectors had been replaced, when it was
  -- settled; the artifact, object and scan that the caller names are the row's, the database accepts
  -- them, the version is the active one in the table that the row names and has that content, the
  -- vectors are what the repository made of the records for it, and the row that the answer shows
  -- stands in the table as processed.
  pub complete-ok :
      (input : CompleteIngestionJobInput Records) (db : Db Vectors) (r : CompleteIngestionJobResult)
      (db' : Db Vectors)
      → IsSound db.jobs
      → complete quote sha256 clock replace input db ≡ (ok r, db')
      → (j : JobRow) × IsCompletion input db r db' j
  unfolding complete in_transaction
  complete-ok input db r db' sound h =
      elim (Result-cases (complete_work quote sha256 clock replace input db)) [
        | inl ((r1, db1), e) ↦
            let same : (r1 ≡ r) × (db1 ≡ db') = ground (arith, h, e) in
            complete_work-ok input db r db' sound (
              subst (λ d. complete_work quote sha256 clock replace input db ≡ ok (r, d)) same.1
                (subst (λ c. complete_work quote sha256 clock replace input db ≡ ok (c, db1)) same.0
                  e))
        | inr (thrown, e) ↦ absurd (ground (arith, h, e))
      ]
