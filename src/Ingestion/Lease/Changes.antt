-- ===== src/Ingestion/Lease/Changes.antt =====
-- How `leaseNext` and `heartbeat` of src/ingestion/ingestionJobService.ts change the table of jobs.
use mathlib.Core.Path.{subst}
use la_muni_rag.Base.{
  ℕ, ◌≡◌, refl, sym, ap, ◌∙◌, inl, inr, Bool, true, false, ◌&&◌, not, Option, none, some, List, [],
  ◌∷◌, map, keep, All, All-weaken, All-take, arith, ok, bind-ok, Result-cases, Option-cases,
  and→both, ◌⊎◌, Bool-cases,
}
use la_muni_rag.Base.Sort.{sort, All-sort}
use la_muni_rag.Base.Text.{Text, codes, lower, text_eq, text_eq_iff}
use la_muni_rag.Ingestion.Types.{
  job_error, JobRow, LeasedIngestionJob, DurableIngestionJob, HeartbeatIngestionJobInput, failed,
  persistence_invalid, document_version_missing, lease_rejected,
}
use la_muni_rag.Ingestion.Store.{
  ArtifactObject, ArtifactScan, holds_lease, update_where, is_exhausted, joined_artifact,
  set_exhausted, set_leased, set_heartbeat, active_versions,
}
use la_muni_rag.Ingestion.Queue.{
  exhausted_rows, expiry_before, is_leasable, Candidate, earlier, lease_candidate, queue_before,
}
use la_muni_rag.Ingestion.Rows.{
  Db, row_to_job, row_to_leased_document_identity, audit_event, success, error,
}
use la_muni_rag.Ingestion.Service.{single_row, update_document_version}
use la_muni_rag.Ingestion.Lease.{
  has_id, lease_request, heartbeat_request, settle_exhausted, exhaust_expired, lease_candidate_row,
  lease_work, lease_next, heartbeat_work, heartbeat,
}
use la_muni_rag.Ingestion.Step.{beaten, moved, leased, exhausted}
use la_muni_rag.Ingestion.Table.{
  Changes, Changes-trans, Changes-IsSound, here, next, updated, Member, Apart, id_clash, IsSound,
  only_row, update_where-Pointwise,
}
use la_muni_rag.Ingestion.Kept.{
  keep-Members, status-holds_lease, jobs-audit_event, jobs-update_document_version,
  in_transaction-Changes,
}

-- The rows taken are rows of the table whose attempts are used up.
pub exhausted_rows-All :
    (now : ℕ) (tenant_id : Text) (locked : Text → Bool) (js : List JobRow)
    → All
        (λ j. Member j js × (is_exhausted now tenant_id j ≡ true))
        (exhausted_rows now tenant_id locked js)
unfolding exhausted_rows
exhausted_rows-All now tenant_id locked js =
    let test = λ (j : JobRow). is_exhausted now tenant_id j && not (locked j.id) in
    let taken = keep test js in
    let all = All-weaken taken (λ j (m, h). (m, (and→both _ _ h).0)) (keep-Members test js) in
    All-take _ 100 (sort expiry_before taken) (All-sort expiry_before _ taken all)

-- A row whose identifier is among the rows taken is taken itself.
pub has_id-All :
    (P : JobRow → Type 0) (js rows : List JobRow) (j : JobRow)
    → Apart id_clash js
    → Member j js
    → All (λ k. Member k js × P k) rows
    → has_id rows j ≡ true
    → P j
has_id-All P js [] j apart m all h = cc h
has_id-All P js (r ∷ rs) j apart m ((n, p), all) h = elim (Bool-cases (text_eq r.id j.id)) [
  | inl eq' ↦ subst P (only_row js r j apart n m eq') p
  | inr ne' ↦ has_id-All P js rs j apart m all (ground arith)
]

tenant-is_exhausted :
    (now : ℕ) (tenant_id : Text) (j : JobRow)
    → is_exhausted now tenant_id j ≡ true
    → is_exhausted now j.tenant_id j ≡ true
unfolding is_exhausted
tenant-is_exhausted now tenant_id j h =
    ground (arith, text_eq_iff j.tenant_id tenant_id, text_eq_iff j.tenant_id j.tenant_id)

tenant-is_leasable :
    (now : ℕ) (tenant_id : Text) (j : JobRow)
    → is_leasable now tenant_id j ≡ true
    → is_leasable now j.tenant_id j ≡ true
unfolding is_leasable
tenant-is_leasable now tenant_id j h =
    ground (arith, text_eq_iff j.tenant_id tenant_id, text_eq_iff j.tenant_id j.tenant_id)

earlier-cases :
    (c : Candidate) (o : Option Candidate) (d : Candidate)
    → earlier c o ≡ some d
    → (c ≡ d) ⊎ (o ≡ some d)
unfolding earlier
earlier-cases c none d h = inl (ground arith)
earlier-cases c (some e) d h = elim (Bool-cases (queue_before e.row c.row)) [
  | inl yes' ↦ inr (ground arith)
  | inr no' ↦ inl (ground arith)
]

-- The candidate is a leasable row of the table.
pub lease_candidate-Member :
    (now : ℕ) (tenant_id : Text) (locked : Text → Bool) (objects : List ArtifactObject)
    (scans : List ArtifactScan) (js : List JobRow) (c : Candidate)
    → lease_candidate now tenant_id locked objects scans js ≡ some c
    → Member c.row js × (is_leasable now tenant_id c.row ≡ true)
unfolding lease_candidate
lease_candidate-Member now tenant_id locked objects scans [] c h = cc h
lease_candidate-Member now tenant_id locked objects scans (j ∷ js) c h =
    let rest = lease_candidate now tenant_id locked objects scans js in
    let table = lease_candidate now tenant_id locked objects scans (j ∷ js) in
    let later : rest ≡ some c → Member c.row (j ∷ js) × (is_leasable now tenant_id c.row ≡ true) =
      λ e.
        let (m, l) = lease_candidate-Member now tenant_id locked objects scans js c e in
        (inr m, l) in
    elim (Bool-cases (is_leasable now tenant_id j && not (locked j.id))) [
      | inr bad ↦ let skipped : rest ≡ table = rw (lease_candidate, bad) refl in later (skipped ∙ h)
      | inl good ↦ elim (Option-cases (joined_artifact now scans j objects)) [
        | inl e ↦
            let skipped : rest ≡ table = rw (lease_candidate, good, e) refl in later (skipped ∙ h)
        | inr ((object_id, scan_id), e) ↦
            let found : Candidate = record { row = j; object_id = object_id; scan_id = scan_id } in
            let taken : earlier found rest ≡ table = rw (lease_candidate, good, e) refl in
            elim (earlier-cases found rest c (taken ∙ h)) [
              | inl first ↦
                  let same : j ≡ c.row = ap (λ (d : Candidate). d.row) first in
                  (
                    inl (sym same),
                    subst (λ r. is_leasable now tenant_id r ≡ true) same (and→both _ _ good).0,
                  )
              | inr other ↦ later other
            ]
      ]
    ]

module _ {Vectors : Type 0} (quote : Text → Text) (sha256 : Text → Text) (clock : ℕ → ℕ) where
  pub settle_exhausted-jobs :
      (rows : List JobRow) (db db' : Db Vectors)
      → settle_exhausted quote sha256 clock rows db ≡ ok db'
      → db.jobs ≡ db'.jobs
  unfolding settle_exhausted
  settle_exhausted-jobs [] db db' h = ground arith
  settle_exhausted-jobs (row ∷ rows) db db' h =
      let (job, read, h1) = bind-ok (row_to_job quote row) _ h in
      let (db1, published, h2) = bind-ok (update_document_version (clock 0) job failed db) _ h1 in
      let (db2, audited, h3) =
        bind-ok
          (audit_event db1 job (codes "rag.ingestion_job.failed") error (codes "lease_expired")
            job.principal_id)
          _ h2 in
      jobs-update_document_version _ job failed db published
      ∙ jobs-audit_event db1 job _ _ _ _ audited
      ∙ settle_exhausted-jobs rows db2 db' h3

  -- A job whose last attempt ran out fails.
  pub exhaust_expired-Changes :
      (tenant_id : Text) (locked : Text → Bool) (db db' : Db Vectors)
      → exhaust_expired quote sha256 clock tenant_id locked db ≡ ok db'
      → IsSound db.jobs
      → Changes db.jobs db'.jobs
  unfolding exhaust_expired
  exhaust_expired-Changes tenant_id locked db db' h sound =
      let rows = exhausted_rows (clock 0) tenant_id locked db.jobs in
      subst (Changes db.jobs) (settle_exhausted-jobs _ _ db' h) (
        next here (
          updated (
            update_where-Pointwise _ (set_exhausted (clock 0)) db.jobs (λ j m taken. moved (
              exhausted (clock 0)
                (tenant-is_exhausted (clock 0) tenant_id j (
                  has_id-All (λ k. is_exhausted (clock 0) tenant_id k ≡ true) db.jobs rows j
                    sound.ids m (exhausted_rows-All (clock 0) tenant_id locked db.jobs)
                    (and→both _ _ taken).0))
                refl)))))

  lease_candidate_row-Changes :
      (tenant_id worker_id token : Text) (duration : ℕ) (c : Candidate) (db : Db Vectors)
      → IsSound db.jobs
      → Member c.row db.jobs
      → is_leasable (clock 1) tenant_id c.row ≡ true
      → (r : Option LeasedIngestionJob) (db' : Db Vectors)
      → lease_candidate_row quote sha256 clock tenant_id worker_id token duration c db ≡ ok (r, db')
      → Changes db.jobs db'.jobs
  unfolding lease_candidate_row
  lease_candidate_row-Changes tenant_id worker_id token duration c db sound member leasable r db'
        h =
      let chosen = λ (j : JobRow). text_eq j.id c.row.id && text_eq j.tenant_id tenant_id in
      let set =
        set_leased (clock 1) (sha256 worker_id) (sha256 token) duration c.object_id c.scan_id in
      let db1 = record db { jobs = update_where chosen set db.jobs } in
      let (row, single, h1) =
        bind-ok (single_row (job_error persistence_invalid false) (map set (keep chosen db.jobs))) _
          h in
      let (job, read, h2) = bind-ok (row_to_job quote row) _ h1 in
      let (version, found, h3) =
        bind-ok
          (single_row (job_error document_version_missing false)
            (active_versions job.document_version_id job.tenant_id db.versions))
          _ h2 in
      let (identity, named, h4) = bind-ok (row_to_leased_document_identity version) _ h3 in
      let (db2, audited, h5) =
        bind-ok
          (audit_event db1 job (codes "rag.ingestion_job.leased") success (codes "job_leased")
            job.principal_id)
          _ h4 in
      let last : db2.jobs ≡ db'.jobs = ground (arith, h5) in
      subst (Changes db.jobs) (jobs-audit_event db1 job _ _ _ _ audited ∙ last) (
        next here (
          updated (
            update_where-Pointwise chosen set db.jobs (λ j m taken.
              let one = only_row db.jobs j c.row sound.ids m member (and→both _ _ taken).0 in
              moved (
                leased (clock 1) (sha256 worker_id) (sha256 token) duration c.object_id c.scan_id
                  (tenant-is_leasable (clock 1) tenant_id j
                    (subst (λ k. is_leasable (clock 1) tenant_id k ≡ true) (sym one) leasable))
                  refl)))))

  lease_work-Changes :
      (tenant_id : Text) (locked : Text → Bool) (worker_id token : Text) (duration : ℕ)
      (db : Db Vectors)
      → IsSound db.jobs
      → (r : Option LeasedIngestionJob) (db' : Db Vectors)
      → lease_work quote sha256 clock tenant_id locked worker_id token duration db ≡ ok (r, db')
      → Changes db.jobs db'.jobs
  unfolding lease_work
  lease_work-Changes tenant_id locked worker_id token duration db sound r db' h =
      let (db1, expired, h1) =
        bind-ok (exhaust_expired quote sha256 clock tenant_id locked db) _ h in
      let first = exhaust_expired-Changes tenant_id locked db db1 expired sound in
      elim (Option-cases
        (lease_candidate (clock 1) tenant_id locked db1.objects db1.scans db1.jobs)) [
          | inl e ↦
              let last : db1.jobs ≡ db'.jobs = ground (arith, h1, e) in
              subst (Changes db.jobs) last first
          | inr (c, e) ↦
              let (member, leasable) =
                lease_candidate-Member (clock 1) tenant_id locked db1.objects db1.scans db1.jobs c
                  e in
              let taken : lease_candidate_row quote sha256 clock tenant_id worker_id token duration
                    c db1
                  ≡ ok (r, db') =
                ground (arith, h1, e) in
              Changes-trans first (
                lease_candidate_row-Changes tenant_id worker_id token duration c db1
                  (Changes-IsSound first sound) member leasable r db' taken)
        ]

  -- `leaseNext` changes a sound table by at most two updates.
  pub lease_next-Changes :
      (tenant_id worker_id : Text) (duration : Option ℕ) (token : Text) (locked : Text → Bool)
      (db : Db Vectors)
      → IsSound db.jobs
      → Changes db.jobs
          (lease_next quote sha256 clock tenant_id worker_id duration token locked db).1.jobs
  unfolding lease_next
  lease_next-Changes tenant_id worker_id duration token locked db sound =
      elim (Result-cases (lease_request tenant_id worker_id token duration)) [
        | inr (e, bad) ↦ rw (lease_next, bad) here
        | inl (bounded, good) ↦
            rw (lease_next, good)
              (in_transaction-Changes tenant_id db
                (lease_work quote sha256 clock (map lower tenant_id) locked worker_id token bounded)
                (lease_work-Changes (map lower tenant_id) locked worker_id token bounded db sound))
      ]

  heartbeat_work-Changes :
      (tenant_id job_id token_sha256 : Text) (duration : ℕ) (db : Db Vectors)
      (r : DurableIngestionJob) (db' : Db Vectors)
      → heartbeat_work quote sha256 clock tenant_id job_id token_sha256 duration db ≡ ok (r, db')
      → Changes db.jobs db'.jobs
  unfolding heartbeat_work
  heartbeat_work-Changes tenant_id job_id token_sha256 duration db r db' h =
      let held = holds_lease (clock 0) job_id tenant_id token_sha256 in
      let set = set_heartbeat (clock 0) duration in
      let (row, single, h1) =
        bind-ok (single_row (job_error lease_rejected false) (map set (keep held db.jobs))) _ h in
      let (job, read, h2) = bind-ok (row_to_job quote row) _ h1 in
      let last : update_where held set db.jobs ≡ db'.jobs = ground (arith, h2) in
      subst (Changes db.jobs) last (
        next here (
          updated (
            update_where-Pointwise held set db.jobs
              (λ j m taken. beaten (clock 0) duration (status-holds_lease _ _ _ _ j taken) refl))))

  -- `heartbeat` changes the table by one update, or not at all.
  pub heartbeat-Changes :
      (input : HeartbeatIngestionJobInput) (db : Db Vectors)
      → Changes db.jobs (heartbeat quote sha256 clock input db).1.jobs
  unfolding heartbeat
  heartbeat-Changes input db = elim (Result-cases (heartbeat_request input)) [
    | inr (e, bad) ↦ rw (heartbeat, bad) here
    | inl (duration, good) ↦
        rw (heartbeat, good)
          (in_transaction-Changes input.tenant_id db _ (
            heartbeat_work-Changes (map lower input.tenant_id) (map lower input.job_id)
              (sha256 input.lease_token) duration db))
  ]
