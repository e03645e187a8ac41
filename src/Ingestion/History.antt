-- ===== src/Ingestion/History.antt =====
-- Any sequence of calls of src/ingestion/ingestionJobService.ts, each in its transaction. Every call
-- has a clock of its own.
pub mod Count
use la_muni_rag.Base.{ℕ, ◌+◌, ◌*◌, ◌≤◌, Bool, Option, List, [], ◌∷◌}
use la_muni_rag.Base.Text.{Text}
use la_muni_rag.Ingestion.Types.{
  Checked, JobRow, DurableIngestionJob, EnqueueIngestionJobInput, CompleteIngestionJobInput,
  FailIngestionJobInput, HeartbeatIngestionJobInput, VectorReplaceResult,
}
use la_muni_rag.Ingestion.Store.{DocumentVersion}
use la_muni_rag.Ingestion.Rows.{Db}
use la_muni_rag.Ingestion.Enqueue.{enqueue}
use la_muni_rag.Ingestion.Enqueue.Changes.{enqueue-Changes}
use la_muni_rag.Ingestion.Lease.{lease_next, heartbeat}
use la_muni_rag.Ingestion.Lease.Changes.{lease_next-Changes, heartbeat-Changes}
use la_muni_rag.Ingestion.Settle.{complete, fail}
use la_muni_rag.Ingestion.Settle.Changes.{complete-Changes, fail-Changes}
use la_muni_rag.Ingestion.Step.{IsSameWork}
use la_muni_rag.Ingestion.Table.{
  Changes, here, Changes-trans, Changes-IsSound, IsSound, IsNew, Member,
}
use la_muni_rag.Ingestion.View.{view, ViewSteps}
use la_muni_rag.Ingestion.Moves.{
  Course, start, Course-IsSameWork, Course-ViewSteps, HasStopped, Course-HasStopped, Followed,
  Changes-Followed,
}

-- A call of the service, with what it finds around it.
pub data Call (Records : Type 0) : Type 0 where
  to_enqueue : (now : ℕ) (id : Text) (input : EnqueueIngestionJobInput) → Call Records
  to_lease :
      (clock : ℕ → ℕ) (tenant_id worker_id : Text) (duration : Option ℕ) (token : Text)
      (locked : Text → Bool)
      → Call Records
  to_heartbeat : (clock : ℕ → ℕ) (input : HeartbeatIngestionJobInput) → Call Records
  to_complete : (clock : ℕ → ℕ) (input : CompleteIngestionJobInput Records) → Call Records
  to_fail : (clock : ℕ → ℕ) (input : FailIngestionJobInput) → Call Records

module _ {Records Vectors : Type 0} (quote sha256 : Text → Text)
    (replace : DurableIngestionJob
      → DocumentVersion
      → Records
      → Vectors
      → Checked (VectorReplaceResult × Vectors)) where
  unfoldable pub apply : Call Records → Db Vectors → Db Vectors
  apply (to_enqueue now id input) db = (enqueue quote sha256 now id input db).1
  apply (to_lease clock tenant_id worker_id duration token locked) db =
      (lease_next quote sha256 clock tenant_id worker_id duration token locked db).1
  apply (to_heartbeat clock input) db = (heartbeat quote sha256 clock input db).1
  apply (to_complete clock input) db = (complete quote sha256 clock replace input db).1
  apply (to_fail clock input) db = (fail quote sha256 clock input db).1

  unfoldable pub run : List (Call Records) → Db Vectors → Db Vectors
  run [] db = db
  run (c ∷ cs) db = run cs (apply c db)

  apply-Changes :
      (c : Call Records) (db : Db Vectors) → IsSound db.jobs → Changes db.jobs (apply c db).jobs
  unfolding apply
  apply-Changes (to_enqueue now id input) db h = enqueue-Changes quote sha256 now id input db
  apply-Changes (to_lease clock tenant_id worker_id duration token locked) db h =
      lease_next-Changes quote sha256 clock tenant_id worker_id duration token locked db h
  apply-Changes (to_heartbeat clock input) db h = heartbeat-Changes quote sha256 clock input db
  apply-Changes (to_complete clock input) db h =
      complete-Changes quote sha256 clock replace input db
  apply-Changes (to_fail clock input) db h = fail-Changes quote sha256 clock input db h

  run-Changes :
      (cs : List (Call Records)) (db : Db Vectors)
      → IsSound db.jobs
      → Changes db.jobs (run cs db).jobs
  unfolding run
  run-Changes [] db h = here
  run-Changes (c ∷ cs) db h =
      let first = apply-Changes c db h in
      Changes-trans first (run-Changes cs (apply c db) (Changes-IsSound first h))

  -- Whatever calls are made, the table keeps what the database demands of it: the primary key, the
  -- unique index on the idempotency keys, the one on the work of active jobs, and the CHECK
  -- constraints that tie the columns of a row to its status.
  pub run-IsSound :
      (cs : List (Call Records)) (db : Db Vectors) → IsSound db.jobs → IsSound (run cs db).jobs
  run-IsSound cs db h = Changes-IsSound (run-Changes cs db h) h

  run-Followed :
      (cs : List (Call Records)) (db : Db Vectors) (j : JobRow)
      → IsSound db.jobs
      → Member j db.jobs
      → Followed (run cs db).jobs j
  run-Followed cs db j h m = Changes-Followed j (run-Changes cs db h) (0, j, m, start)

  -- Whatever calls are made on a sound table, no job is lost: a row goes on in the table with the
  -- same identity, owner, key, work, limit and configuration, and what is seen of it has changed by
  -- steps of the abstract job.
  pub run-refines :
      (cs : List (Call Records)) (db : Db Vectors) (j : JobRow)
      → IsSound db.jobs
      → Member j db.jobs
      → (k : JobRow) × Member k (run cs db).jobs
        × IsSameWork j k
        × ViewSteps j.max_attempts (view j) (view k)
  run-refines cs db j h m =
      let (n, k, m', c) = run-Followed cs db j h m in
      (k, m', Course-IsSameWork j k c, Course-ViewSteps j k c)

  -- Whatever calls are made on a sound table, the row of a job that is processed, failed or
  -- superseded stays as it is.
  pub run-HasStopped :
      (cs : List (Call Records)) (db : Db Vectors) (j : JobRow)
      → IsSound db.jobs
      → Member j db.jobs
      → HasStopped j
      → Member j (run cs db).jobs
  run-HasStopped cs db j h m stopped =
      let (n, k, m', c) = run-Followed cs db j h m in rw (Course-HasStopped j k stopped c) m'
