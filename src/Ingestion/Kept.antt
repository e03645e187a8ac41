-- ===== src/Ingestion/Kept.antt =====
-- What the parts of the operations of src/ingestion/ingestionJobService.ts leave alone, and what it
-- takes for them to succeed.
use mathlib.Core.Path.{subst}
use la_muni_rag.Base.{
  map, ℕ, ◌≡◌, refl, ◌⊎◌, inl, inr, Bool, true, List, [], ◌∷◌, keep, All, All-weaken, arith, ok,
  Result-cases, Bool-cases,
}
use la_muni_rag.Base.Text.{Text}
use la_muni_rag.Security.Tenant.{is_canonical_uuid}
use la_muni_rag.Ingestion.Types.{
  DurableIngestionJobStatus, Checked, JobError, JobRow, DurableIngestionJob, processing,
}
use la_muni_rag.Ingestion.Store.{holds_lease}
use la_muni_rag.Ingestion.Rows.{AuditOutcome, Db, row_to_job, job_of, audit_event, in_transaction}
use la_muni_rag.Ingestion.Service.{single_row, update_document_version}
use la_muni_rag.Ingestion.Step.{status_eq→≡}
use la_muni_rag.Ingestion.Table.{Changes, here, Member}

pub single_row-ok :
    {A : Type 0} (e : JobError) (l : List A) {a : A} → single_row e l ≡ ok a → l ≡ a ∷ []
unfolding single_row
single_row-ok e [] h = cc
single_row-ok e (x ∷ []) h = ground arith
single_row-ok e (x ∷ y ∷ l) h = cc

pub keep-Members :
    (t : JobRow → Bool) (js : List JobRow) → All (λ j. Member j js × (t j ≡ true)) (keep t js)
keep-Members t [] = tt
keep-Members t (j ∷ js) =
    let rest = All-weaken (keep t js) (λ k (m, h). (inr m, h)) (keep-Members t js) in
    elim (Bool-cases (t j)) [ inl yes' ↦ rw yes' ((inl refl, yes'), rest) | inr no' ↦ rw no' rest ]

pub keep-single :
    (t : JobRow → Bool) (js : List JobRow) (j : JobRow)
    → keep t js ≡ j ∷ []
    → Member j js × (t j ≡ true)
keep-single t js j e =
    let all = keep-Members t js in
    let one = subst (All (λ k. Member k js × (t k ≡ true))) e all in one.0

-- No row, one row or more.
pub row-cases :
    (l : List JobRow)
    → (l ≡ [])
      ⊎ ((a : JobRow) × (l ≡ a ∷ []))
      ⊎ ((a : JobRow) × (b : JobRow) × (m : List JobRow) × (l ≡ a ∷ b ∷ m))
row-cases [] = inl refl
row-cases (a ∷ []) = inr (inl (a, refl))
row-cases (a ∷ b ∷ m) = inr (inr (a, b, m, refl))

pub map-single :
    {A B : Type 0} (set : A → B) (l : List A) (b : B)
    → map set l ≡ b ∷ []
    → (a : A) × (l ≡ a ∷ []) × (set a ≡ b)
map-single set [] b h = cc h
map-single set (a ∷ []) b h = (a, refl, cc h)
map-single set (a ∷ a' ∷ l) b h = cc h

pub row_to_job-ok :
    (quote : Text → Text) (row : JobRow) {job : DurableIngestionJob}
    → row_to_job quote row ≡ ok job
    → job_of row ≡ job
unfolding row_to_job
row_to_job-ok quote row h = ground arith

pub status-holds_lease :
    (now : ℕ) (id tenant token : Text) (j : JobRow)
    → holds_lease now id tenant token j ≡ true
    → j.status ≡ processing
unfolding holds_lease
status-holds_lease now id tenant token j h = ground (arith, status_eq→≡ j.status processing)

module _ {Vectors : Type 0} where
  pub jobs-audit_event :
      (db : Db Vectors) (job : DurableIngestionJob) (event : Text) (outcome : AuditOutcome)
      (reason actor : Text) {db' : Db Vectors}
      → audit_event db job event outcome reason actor ≡ ok db'
      → db.jobs ≡ db'.jobs
  unfolding audit_event
  jobs-audit_event db job event outcome reason actor h = ground arith

  pub jobs-update_document_version :
      (now : ℕ) (job : DurableIngestionJob) (status : DurableIngestionJobStatus) (db : Db Vectors)
      {db' : Db Vectors}
      → update_document_version now job status db ≡ ok db'
      → db.jobs ≡ db'.jobs
  unfolding update_document_version
  jobs-update_document_version now job status db h = ground arith

  pub vectors-audit_event :
      (db : Db Vectors) (job : DurableIngestionJob) (event : Text) (outcome : AuditOutcome)
      (reason actor : Text) {db' : Db Vectors}
      → audit_event db job event outcome reason actor ≡ ok db'
      → db.vectors ≡ db'.vectors
  unfolding audit_event
  vectors-audit_event db job event outcome reason actor h = ground arith

  pub vectors-update_document_version :
      (now : ℕ) (job : DurableIngestionJob) (status : DurableIngestionJobStatus) (db : Db Vectors)
      {db' : Db Vectors}
      → update_document_version now job status db ≡ ok db'
      → db.vectors ≡ db'.vectors
  unfolding update_document_version
  vectors-update_document_version now job status db h = ground arith

  pub in_transaction-ok :
      {A : Type 0} (tenant_id : Text) (db : Db Vectors)
      (operation : Db Vectors → Checked (A × Db Vectors)) (a : A) (db' : Db Vectors)
      → in_transaction tenant_id db operation ≡ (ok a, db')
      → (is_canonical_uuid tenant_id ≡ true) × (operation db ≡ ok (a, db'))
  unfolding in_transaction
  in_transaction-ok tenant_id db operation a db' h =
      elim (Bool-cases (is_canonical_uuid tenant_id)) [
        | inr bad ↦ absurd (ground (arith, bad, h))
        | inl good ↦ elim (Result-cases (operation db)) [
          | inl ((b, db1), e) ↦
              let same : (b ≡ a) × (db1 ≡ db') = ground (arith, good, h, e) in
              (
                good,
                subst (λ d. operation db ≡ ok (a, d)) same.1
                    (subst (λ c. operation db ≡ ok (c, db1)) same.0 e),
              )
          | inr (e', e) ↦ absurd (ground (arith, good, h, e))
        ]
      ]

  -- A transaction changes the jobs as its operation does, or not at all.
  pub in_transaction-Changes :
      {A : Type 0} (tenant_id : Text) (db : Db Vectors)
      (operation : Db Vectors → Checked (A × Db Vectors))
      → ((a : A) (db' : Db Vectors) → operation db ≡ ok (a, db') → Changes db.jobs db'.jobs)
      → Changes db.jobs (in_transaction tenant_id db operation).1.jobs
  unfolding in_transaction
  in_transaction-Changes tenant_id db operation f =
      elim (Bool-cases (is_canonical_uuid tenant_id)) [
        | inr bad ↦ rw (bad, in_transaction) here
        | inl good ↦ elim (Result-cases (operation db)) [
          | inl ((a, db'), e) ↦ rw (good, e, in_transaction) (f a db' e)
          | inr (e', e) ↦ rw (good, e, in_transaction) here
        ]
      ]
