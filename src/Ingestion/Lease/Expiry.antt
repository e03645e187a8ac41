-- ===== src/Ingestion/Lease/Expiry.antt =====
-- What EXHAUST_EXPIRED_SQL of src/ingestion/ingestionJobService.ts leaves alone.
use mathlib.Core.Path.{subst}
use la_muni_rag.Base.{
  ℕ, ◌<◌, ◌≤◌, ◌≡◌, refl, sym, ap, ◌∙◌, ◌⊎◌, inl, inr, Bool, true, false, ◌&&◌, List, [], ◌∷◌,
  arith, ok, bind-ok, Bool-cases, and→both, All, All-weaken,
}
use la_muni_rag.Base.Text.{Text, codes, text_eq}
use la_muni_rag.Ingestion.Types.{JobRow, failed}
use la_muni_rag.Ingestion.Store.{is_exhausted, update_where, set_exhausted}
use la_muni_rag.Ingestion.Queue.{exhausted_rows}
use la_muni_rag.Ingestion.Rows.{Db, row_to_job, audit_event, error}
use la_muni_rag.Ingestion.Service.{update_document_version}
use la_muni_rag.Ingestion.Lease.{has_id, settle_exhausted, exhaust_expired}
use la_muni_rag.Ingestion.Lease.Changes.{has_id-All, exhausted_rows-All, settle_exhausted-jobs}
use la_muni_rag.Ingestion.Table.{IsSound, Member}

-- A row that an UPDATE does not take stays.
update_where-skips :
    (test : JobRow → Bool) (set : JobRow → JobRow) (js : List JobRow) (j : JobRow)
    → Member j js
    → test j ≡ false
    → Member j (update_where test set js)
unfolding update_where
update_where-skips test set [] j m h = absurd m
update_where-skips test set (i ∷ js) j (inl e) h =
    let miss : test i ≡ false = ap test (sym e) ∙ h in rw (miss, update_where) (inl e)
update_where-skips test set (i ∷ js) j (inr m) h =
    let rest = update_where-skips test set js j m h in
    elim (Bool-cases (test i)) [
      | inl yes' ↦ rw (yes', update_where) (inr rest)
      | inr no' ↦ rw (no', update_where) (inr rest)
    ]

-- Every row after an UPDATE was there before, or is what it makes of one.
update_where-cases :
    (test : JobRow → Bool) (set : JobRow → JobRow) (js : List JobRow) (j : JobRow)
    → Member j (update_where test set js)
    → Member j js ⊎ ((i : JobRow) × (j ≡ set i))
unfolding update_where
update_where-cases test set [] j m = absurd m
update_where-cases test set (i ∷ js) j m = elim (Bool-cases (test i)) [
  | inl yes' ↦
      let hit : update_where test set (i ∷ js) ≡ set i ∷ update_where test set js =
        rw (update_where, yes') refl in
      elim (subst (Member j) hit m) [
        | inl e ↦ inr (i, e)
        | inr n ↦ elim (update_where-cases test set js j n) [
          | inl old ↦ inl (inr old)
          | inr made ↦ inr made
        ]
      ]
  | inr no' ↦
      let miss : update_where test set (i ∷ js) ≡ i ∷ update_where test set js =
        rw (update_where, no') refl in
      elim (subst (Member j) miss m) [
        | inl e ↦ inl (inl e)
        | inr n ↦ elim (update_where-cases test set js j n) [
          | inl old ↦ inl (inr old)
          | inr made ↦ inr made
        ]
      ]
]

set_exhausted-status : (now : ℕ) (i : JobRow) → (set_exhausted now i).status ≡ failed
unfolding set_exhausted
set_exhausted-status now i = refl

is_exhausted-attempts :
    (now : ℕ) (tenant_id : Text) (j : JobRow)
    → is_exhausted now tenant_id j ≡ true
    → j.max_attempts ≤ j.attempt_count
unfolding is_exhausted
is_exhausted-attempts now tenant_id j h = ground (arith, h)

module _ {Vectors : Type 0} (quote : Text → Text) (sha256 : Text → Text) (clock : ℕ → ℕ) where
  settle_exhausted-artifacts :
      (rows : List JobRow) (db db' : Db Vectors)
      → settle_exhausted quote sha256 clock rows db ≡ ok db'
      → (db.objects ≡ db'.objects) × (db.scans ≡ db'.scans)
  unfolding settle_exhausted update_document_version audit_event
  settle_exhausted-artifacts [] db db' h = ground (arith, h)
  settle_exhausted-artifacts (row ∷ rows) db db' h =
      let (job, read, h1) = bind-ok (row_to_job quote row) _ h in
      let (db1, published, h2) = bind-ok (update_document_version (clock 0) job failed db) _ h1 in
      let (db2, audited, h3) =
        bind-ok
          (audit_event db1 job (codes "rag.ingestion_job.failed") error (codes "lease_expired")
            job.principal_id)
          _ h2 in
      let first : (db.objects ≡ db1.objects) × (db.scans ≡ db1.scans) = ground (arith, published) in
      let second : (db1.objects ≡ db2.objects) × (db1.scans ≡ db2.scans) =
        ground (arith, audited) in
      let (objects, scans) = settle_exhausted-artifacts rows db2 db' h3 in
      (first.0 ∙ second.0 ∙ objects, first.1 ∙ second.1 ∙ scans)

  exhausted_rows-attempts :
      (tenant_id : Text) (locked : Text → Bool) (db : Db Vectors)
      → All
          (λ k. Member k db.jobs × (k.max_attempts ≤ k.attempt_count))
          (exhausted_rows (clock 0) tenant_id locked db.jobs)
  exhausted_rows-attempts tenant_id locked db =
      All-weaken (exhausted_rows (clock 0) tenant_id locked db.jobs)
        (λ k (m, e). (m, is_exhausted-attempts (clock 0) tenant_id k e))
        (exhausted_rows-All (clock 0) tenant_id locked db.jobs)

  -- The clean-up of exhausted jobs leaves the jobs that have attempts left alone, and all other rows it
  -- leaves are failed.
  pub exhaust_expired-keeps :
      (tenant_id : Text) (locked : Text → Bool) (db db' : Db Vectors)
      → exhaust_expired quote sha256 clock tenant_id locked db ≡ ok db'
      → IsSound db.jobs
      → ((j : JobRow) → Member j db.jobs → j.attempt_count < j.max_attempts → Member j db'.jobs)
        × ((j : JobRow) → Member j db'.jobs → Member j db.jobs ⊎ (j.status ≡ failed))
        × (db.objects ≡ db'.objects)
        × (db.scans ≡ db'.scans)
  unfolding exhaust_expired
  exhaust_expired-keeps tenant_id locked db db' h sound =
      let rows = exhausted_rows (clock 0) tenant_id locked db.jobs in
      let chosen = λ (j : JobRow). has_id rows j && text_eq j.tenant_id tenant_id in
      let jobs = settle_exhausted-jobs quote sha256 clock _ _ db' h in
      let (objects, scans) = settle_exhausted-artifacts _ _ db' h in
      (
        λ j m room. subst (Member j) jobs (elim (Bool-cases (chosen j)) [
          | inl taken ↦ absurd (
              omega (
                arith,
                room,
                has_id-All (λ k. k.max_attempts ≤ k.attempt_count) db.jobs rows j sound.ids m
                    (exhausted_rows-attempts tenant_id locked db) (and→both _ _ taken).0,
              ))
          | inr other ↦ update_where-skips chosen (set_exhausted (clock 0)) db.jobs j m other
        ]),
        λ j m.
            elim (update_where-cases chosen (set_exhausted (clock 0)) db.jobs j
              (subst (Member j) (sym jobs) m)) [
                | inl old ↦ inl old
                | inr (i, made) ↦
                    inr (ap (λ (r : JobRow). r.status) made ∙ set_exhausted-status (clock 0) i)
              ],
        objects,
        scans,
      )
