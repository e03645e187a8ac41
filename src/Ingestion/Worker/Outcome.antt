-- ===== src/Ingestion/Worker/Outcome.antt =====
-- What a run of the worker of src/ingestion/ingestionWorker.ts reports.
use mathlib.Core.Path.{subst}
use la_muni_rag.Base.{
  ℕ, ◌≡◌, refl, sym, ap, inl, inr, none, some, List, length, Result, ok, err, Result-cases,
  Bool-cases,
}
use la_muni_rag.Base.Text.{Text, codes, text_eq}
use la_muni_rag.Embeddings.Types.{EmbeddingVectorRecord, EmbeddingProvider}
use la_muni_rag.Ingestion.Types.{
  queued, processed, status_eq, Checked, JobError, job_error, lease_rejected, JobRow,
  DurableIngestionJob, LeasedIngestionJob, VectorReplaceResult, CompleteIngestionJobResult,
}
use la_muni_rag.Ingestion.Store.{DocumentVersion, set_processed}
use la_muni_rag.Ingestion.Rows.{Db, job_of}
use la_muni_rag.Ingestion.Lease.{lease_next}
use la_muni_rag.Ingestion.Settle.{complete}
use la_muni_rag.Ingestion.Settle.Completion.{complete-ok}
use la_muni_rag.Ingestion.Table.{IsSound, Member, Changes-IsSound}
use la_muni_rag.Ingestion.Artifact.{WorkerFailure, AcceptedArtifact}
use la_muni_rag.Ingestion.History.{run-IsSound}
use la_muni_rag.Ingestion.Worker.{
  checkpoint, stop, step, completion, work_on, report_failure, recover, run_lease, run_once,
}
use la_muni_rag.Ingestion.Failure.{
  IngestionWorkerResult, processed_job, ClassifiedWorkerFailure, classify_failure, safe_failure,
  after, service_call, Surroundings, WorkerOptions, failure_result,
}
use la_muni_rag.Ingestion.Worker.Laws.{
  IsServed, step-IsServed, checkpoint-IsServed, beat_all-IsServed,
}
use la_muni_rag.Ingestion.Lease.Changes.{lease_next-Changes}

-- A row of this identifier stands in the table as processed.
abbrev pub IsProcessed : Text → List JobRow → Type 0
IsProcessed id js = (k : JobRow) × Member k js × (k.id ≡ id) × (k.status ≡ processed)

-- A report of a processed job is true of the table.
abbrev pub IsTrue : {E : Type 0} → Result E IngestionWorkerResult → List JobRow → Type 0
IsTrue (err e) js = Unit
IsTrue (ok (processed_job id n counts)) js = IsProcessed id js
IsTrue (ok _) js = Unit

failure_result-IsTrue :
    (lease : LeasedIngestionJob) (failure : ClassifiedWorkerFailure)
    (answer : Checked DurableIngestionJob) (js : List JobRow)
    → IsTrue (failure_result lease failure answer) js
unfolding failure_result
failure_result-IsTrue lease failure (ok updated) js =
    elim (Bool-cases (status_eq updated.status queued)) [
      | inl waits ↦ rw (failure_result, waits) tt
      | inr over ↦ rw (failure_result, over) tt
    ]
failure_result-IsTrue lease failure (err (job_error lease_rejected b)) js = tt
failure_result-IsTrue lease failure (err e) js = tt

retyped :
    (result : IngestionWorkerResult) (js : List JobRow)
    → IsTrue {E = WorkerFailure} (ok result) js
    → IsTrue {E = JobError} (ok result) js
retyped (processed_job id n counts) js h = h
retyped result js h = tt

-- The truth of a report does not depend on the type of errors.
ok-IsTrue :
    (outcome : Result WorkerFailure IngestionWorkerResult) (result : IngestionWorkerResult)
    (js : List JobRow)
    → outcome ≡ ok result
    → IsTrue outcome js
    → IsTrue {E = JobError} (ok result) js
ok-IsTrue outcome result js e h = retyped result js (subst (λ o. IsTrue o js) e h)

module _ {Vectors : Type 0} where
  after-IsTrue :
      {A : Type 0} (first : Result WorkerFailure A × Db Vectors)
      (next : A → Db Vectors → Result WorkerFailure IngestionWorkerResult × Db Vectors)
      → IsSound first.1.jobs
      → ((a : A) (db : Db Vectors) → IsSound db.jobs → IsTrue (next a db).0 (next a db).1.jobs)
      → IsTrue (after first next).0 (after first next).1.jobs
  unfolding after
  after-IsTrue (err e, db) next sound f = tt
  after-IsTrue (ok a, db) next sound f = f a db sound

  -- What is reported of an answer of `complete`.
  answered-IsTrue :
      (answer : Checked CompleteIngestionJobResult × Db Vectors) (n : ℕ)
      → ((r : CompleteIngestionJobResult) (db : Db Vectors)
          → answer ≡ (ok r, db)
          → IsProcessed r.job.job_id db.jobs)
      → (let report : Result WorkerFailure IngestionWorkerResult × Db Vectors =
            after
              (service_call answer)
              (λ completed db. (ok (processed_job completed.job.job_id n completed.vectors), db)) in
          IsTrue report.0 report.1.jobs)
  unfolding after service_call
  answered-IsTrue (err e, db) n f = tt
  answered-IsTrue (ok r, db) n f = f r db refl

module _ {Vector Vectors : Type 0} (quote sha256 : Text → Text)
    (replace : DurableIngestionJob
      → DocumentVersion
      → List (EmbeddingVectorRecord Vector)
      → Vectors
      → Checked (VectorReplaceResult × Vectors)) where
  IsServed-IsSound :
      (db db' : Db Vectors)
      → IsServed quote sha256 replace db db'
      → IsSound db.jobs
      → IsSound db'.jobs
  IsServed-IsSound db db' (cs, e) h =
      subst (λ (d : Db Vectors). IsSound d.jobs) e (run-IsSound quote sha256 replace cs db h)

module _ {Vector Vectors : Type 0} (quote sha256 : Text → Text)
    (replace : DurableIngestionJob
      → DocumentVersion
      → List (EmbeddingVectorRecord Vector)
      → Vectors
      → Checked (VectorReplaceResult × Vectors))
    (provider : EmbeddingProvider Vector) (indexed_at : Text) (options : WorkerOptions)
    (world : Surroundings) where
  publish-IsProcessed :
      (lease : LeasedIngestionJob) (artifact : AcceptedArtifact)
      (records : List (EmbeddingVectorRecord Vector)) (db db' : Db Vectors)
      (r : CompleteIngestionJobResult)
      → IsSound db.jobs
      → complete quote sha256 world.complete_clock replace
          (completion quote sha256 replace provider indexed_at options world lease artifact records)
          db
        ≡ (ok r, db')
      → IsProcessed r.job.job_id db'.jobs
  unfolding job_of set_processed
  publish-IsProcessed lease artifact records db db' r sound h =
      let (j, done) = complete-ok quote sha256 world.complete_clock replace _ db r db' sound h in
      (
        set_processed (world.complete_clock 2) j,
        done.written,
        sym (ap (λ (d : DurableIngestionJob). d.job_id) done.answered),
        refl,
      )

  step-IsSound :
      {A : Type 0} (lease : LeasedIngestionJob) (r : Result WorkerFailure A) (db : Db Vectors)
      → IsSound db.jobs
      → IsSound (step quote sha256 replace provider indexed_at options world lease r db).1.jobs
  step-IsSound lease r db =
      IsServed-IsSound quote sha256 replace db _
        (step-IsServed quote sha256 replace provider indexed_at options world lease r db)

  checkpoint-IsSound :
      (n : ℕ) (lease : LeasedIngestionJob) (db : Db Vectors)
      → IsSound db.jobs
      → IsSound
          (checkpoint quote sha256 replace provider indexed_at options world n lease db).1.jobs
  checkpoint-IsSound n lease db =
      IsServed-IsSound quote sha256 replace db _
        (checkpoint-IsServed quote sha256 replace provider indexed_at options world n lease db)

  stop-IsSound :
      (lease : LeasedIngestionJob) (db : Db Vectors)
      → IsSound db.jobs
      → IsSound (stop quote sha256 replace provider indexed_at options world 3 lease db).jobs
  unfolding stop
  stop-IsSound lease db = IsServed-IsSound quote sha256 replace db _ (
      beat_all-IsServed quote sha256 replace provider indexed_at options world lease
        (world.timer_beats 3) db)

  work_on-IsTrue :
      (lease : LeasedIngestionJob) (db : Db Vectors)
      → IsSound db.jobs
      → (let report = work_on quote sha256 replace provider indexed_at options world lease db in
          IsTrue report.0 report.1.jobs)
  unfolding work_on
  work_on-IsTrue lease db h = after-IsTrue _ _ (step-IsSound lease _ db h) (λ _ db1 h1.
      after-IsTrue _ _ (step-IsSound lease _ db1 h1) (λ artifact db2 h2.
        after-IsTrue _ _ (checkpoint-IsSound 0 lease db2 h2) (λ _ db3 h3.
          after-IsTrue _ _ (step-IsSound lease _ db3 h3) (λ document db4 h4.
            after-IsTrue _ _ (checkpoint-IsSound 1 lease db4 h4) (λ _ db5 h5.
              after-IsTrue _ _ (step-IsSound lease _ db5 h5) (λ records db6 h6.
                after-IsTrue _ _ (checkpoint-IsSound 2 lease db6 h6) (λ _ db7 h7.
                  answered-IsTrue _ (length records) (λ r db' e.
                    publish-IsProcessed lease artifact records _ db' r (stop-IsSound lease db7 h7)
                      e))))))))

  recover-IsTrue :
      (lease : LeasedIngestionJob) (thrown : WorkerFailure) (db : Db Vectors)
      → (let report =
            recover quote sha256 replace provider indexed_at options world lease thrown db in
          IsTrue report.0 report.1.jobs)
  unfolding recover report_failure
  recover-IsTrue lease thrown db =
      let failure = safe_failure (classify_failure thrown) in
      elim (Bool-cases (text_eq failure.code (codes "ingestion_lease_lost"))) [
        | inl lost ↦ rw (recover, lost) tt
        | inr kept ↦ rw (recover, kept) (failure_result-IsTrue lease failure _ _)
      ]

  run_lease-IsTrue :
      (lease : LeasedIngestionJob) (db : Db Vectors)
      → IsSound db.jobs
      → (let report = run_lease quote sha256 replace provider indexed_at options world lease db in
          IsTrue report.0 report.1.jobs)
  unfolding run_lease
  run_lease-IsTrue lease db h =
      let outcome = work_on quote sha256 replace provider indexed_at options world lease db in
      let worked = work_on-IsTrue lease db h in
      elim (Result-cases outcome.0) [
        | inl (result, e) ↦ rw (run_lease, e) (ok-IsTrue outcome.0 result outcome.1.jobs e worked)
        | inr (thrown, e) ↦ rw (run_lease, e) (recover-IsTrue lease thrown outcome.1)
      ]

  run_once-IsTrue :
      (db : Db Vectors)
      → IsSound db.jobs
      → (let report = run_once quote sha256 replace provider indexed_at options world db in
          IsTrue report.0 report.1.jobs)
  unfolding run_once
  run_once-IsTrue db h =
      let answer =
        lease_next quote sha256 world.lease_clock options.tenant_id options.worker_id
          (some options.lease_duration_seconds) world.token world.locked db in
      let sound : IsSound answer.1.jobs =
        Changes-IsSound
          (lease_next-Changes quote sha256 world.lease_clock options.tenant_id options.worker_id
            (some options.lease_duration_seconds) world.token world.locked db h)
          h in
      elim (Result-cases answer.0) [
        | inr (thrown, e) ↦ rw (run_once, e) tt
        | inl (none, e) ↦ rw (run_once, e) tt
        | inl (some lease, e) ↦ rw (run_once, e) (run_lease-IsTrue lease answer.1 sound)
      ]

  -- When a run of the worker on a sound table ends in the report that a job is processed, whatever it
  -- has met, the table that it leaves has a row of that job with the status `processed`.
  pub run_once-IsProcessed :
      (db db' : Db Vectors) (id : Text) (chunk_count : ℕ) (counts : VectorReplaceResult)
      → IsSound db.jobs
      → run_once quote sha256 replace provider indexed_at options world db
        ≡ (ok (processed_job id chunk_count counts), db')
      → IsProcessed id db'.jobs
  run_once-IsProcessed db db' id chunk_count counts sound h =
      subst (λ (report : Checked IngestionWorkerResult × Db Vectors). IsTrue report.0 report.1.jobs)
        h (run_once-IsTrue db sound)
