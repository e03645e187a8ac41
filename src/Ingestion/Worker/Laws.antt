-- ===== src/Ingestion/Worker/Laws.antt =====
-- What a run of the worker of src/ingestion/ingestionWorker.ts does to the tables.
use la_muni_rag.Base.{
  ℕ, ◌≡◌, refl, ap, ◌∙◌, inl, inr, true, none, some, List, [], ◌∷◌, ◌++◌, Result, ok, err,
  Result-cases, Bool-cases,
}
use la_muni_rag.Base.Text.{Text, codes, text_eq}
use la_muni_rag.Embeddings.Types.{EmbeddingVectorRecord, EmbeddingProvider}
use la_muni_rag.Ingestion.Types.{
  Checked, DurableIngestionJob, LeasedIngestionJob, VectorReplaceResult,
}
use la_muni_rag.Ingestion.Store.{DocumentVersion}
use la_muni_rag.Ingestion.Rows.{Db, is_safe_error_code}
use la_muni_rag.Ingestion.Lease.{lease_next, heartbeat}
use la_muni_rag.Ingestion.Settle.{complete}
use la_muni_rag.Ingestion.Artifact.{WorkerFailure, AcceptedArtifact}
use la_muni_rag.Ingestion.History.{Call, to_lease, to_heartbeat, to_complete, to_fail, apply, run}
use la_muni_rag.Ingestion.Worker.{
  heartbeat_input, beat_all, checkpoint, stop, step, completion, work_on, report_failure, recover,
  run_lease, run_once,
}
use la_muni_rag.Ingestion.Failure.{
  ClassifiedWorkerFailure, classify_failure, safe_failure, after, service_call, Surroundings,
  WorkerOptions,
}

-- The code that a failure is reported under is one that `fail` accepts.
pub safe_failure-is_safe_error_code :
    (failure : ClassifiedWorkerFailure) → is_safe_error_code (safe_failure failure).code ≡ true
unfolding safe_failure is_safe_error_code
safe_failure-is_safe_error_code failure = elim (Bool-cases (is_safe_error_code failure.code)) [
  | inl safe ↦ rw (safe_failure, safe) safe
  | inr bad ↦ rw (safe_failure, bad) refl
]

module _ {Vector Vectors : Type 0} (quote sha256 : Text → Text)
    (replace : DurableIngestionJob
      → DocumentVersion
      → List (EmbeddingVectorRecord Vector)
      → Vectors
      → Checked (VectorReplaceResult × Vectors)) where
  -- The tables come about by calls of the job service.
  abbrev pub IsServed : Db Vectors → Db Vectors → Type 0
  IsServed db db' =
      (cs : List (Call (List (EmbeddingVectorRecord Vector)))) × (run quote sha256 replace cs db
        ≡ db')

  run-append :
      (cs ds : List (Call (List (EmbeddingVectorRecord Vector)))) (db : Db Vectors)
      → run quote sha256 replace (cs ++ ds) db
        ≡ run quote sha256 replace ds (run quote sha256 replace cs db)
  unfolding run
  run-append [] ds db = refl
  run-append (c ∷ cs) ds db = run-append cs ds (apply quote sha256 replace c db)

  IsServed-stay : (db : Db Vectors) → IsServed db db
  unfolding run
  IsServed-stay db = ([], refl)

  pub IsServed-call :
      (c : Call (List (EmbeddingVectorRecord Vector))) (db : Db Vectors)
      → IsServed db (apply quote sha256 replace c db)
  unfolding run
  IsServed-call c db = (c ∷ [], refl)

  IsServed-trans : (db db1 db2 : Db Vectors) → IsServed db db1 → IsServed db1 db2 → IsServed db db2
  IsServed-trans db db1 db2 (cs, e) (ds, f) =
      (cs ++ ds, run-append cs ds db ∙ ap (run quote sha256 replace ds) e ∙ f)

  after-IsServed :
      {A B : Type 0} (db : Db Vectors) (first : Result WorkerFailure A × Db Vectors)
      (next : A → Db Vectors → Result WorkerFailure B × Db Vectors)
      → IsServed db first.1
      → ((a : A) (db' : Db Vectors) → IsServed db' (next a db').1)
      → IsServed db (after first next).1
  unfolding after
  after-IsServed db (err e, db1) next s f = s
  after-IsServed db (ok a, db1) next s f = IsServed-trans db db1 (next a db1).1 s (f a db1)

  service_call-IsServed :
      {A : Type 0} (db : Db Vectors) (answer : Checked A × Db Vectors)
      → IsServed db answer.1
      → IsServed db (service_call answer).1
  unfolding service_call
  service_call-IsServed db (err e, db1) s = s
  service_call-IsServed db (ok a, db1) s = s

module _ {Vector Vectors : Type 0} (quote sha256 : Text → Text)
    (replace : DurableIngestionJob
      → DocumentVersion
      → List (EmbeddingVectorRecord Vector)
      → Vectors
      → Checked (VectorReplaceResult × Vectors))
    (provider : EmbeddingProvider Vector) (indexed_at : Text) (options : WorkerOptions)
    (world : Surroundings) where
  pub beat_all-IsServed :
      (lease : LeasedIngestionJob) (clocks : List (ℕ → ℕ)) (db : Db Vectors)
      → IsServed quote sha256 replace db
          (beat_all quote sha256 replace provider indexed_at options world lease clocks db).1
  unfolding beat_all apply
  beat_all-IsServed lease [] db = IsServed-stay quote sha256 replace db
  beat_all-IsServed lease (clock ∷ clocks) db =
      let input = heartbeat_input quote sha256 replace provider indexed_at options world lease in
      let answer = heartbeat quote sha256 clock input db in
      let first = IsServed-call quote sha256 replace (to_heartbeat clock input) db in
      elim (Result-cases answer.0) [
        | inl (job, e) ↦
            rw (beat_all, e)
              (IsServed-trans quote sha256 replace db answer.1 _ first
                (beat_all-IsServed lease clocks answer.1))
        | inr (thrown, e) ↦ rw (beat_all, e) first
      ]

  pub step-IsServed :
      {A : Type 0} (lease : LeasedIngestionJob) (r : Result WorkerFailure A) (db : Db Vectors)
      → IsServed quote sha256 replace db
          (step quote sha256 replace provider indexed_at options world lease r db).1
  unfolding step stop
  step-IsServed lease (ok a) db = IsServed-stay quote sha256 replace db
  step-IsServed lease (err e) db = beat_all-IsServed lease (world.timer_beats 4) db

  pub checkpoint-IsServed :
      (n : ℕ) (lease : LeasedIngestionJob) (db : Db Vectors)
      → IsServed quote sha256 replace db
          (checkpoint quote sha256 replace provider indexed_at options world n lease db).1
  unfolding checkpoint
  checkpoint-IsServed n lease db =
      beat_all-IsServed lease (world.timer_beats n ++ world.checkpoint_clock n ∷ []) db

  publish-IsServed :
      (lease : LeasedIngestionJob) (artifact : AcceptedArtifact)
      (records : List (EmbeddingVectorRecord Vector)) (db : Db Vectors)
      → IsServed quote sha256 replace db
          (complete quote sha256 world.complete_clock replace
            (completion quote sha256 replace provider indexed_at options world lease artifact
              records)
            (stop quote sha256 replace provider indexed_at options world 3 lease db)).1
  unfolding stop apply
  publish-IsServed lease artifact records db =
      let stopped = stop quote sha256 replace provider indexed_at options world 3 lease db in
      IsServed-trans quote sha256 replace db stopped _
        (beat_all-IsServed lease (world.timer_beats 3) db)
        (IsServed-call quote sha256 replace
          (to_complete world.complete_clock (
            completion quote sha256 replace provider indexed_at options world lease artifact
              records))
          stopped)

  pub work_on-IsServed :
      (lease : LeasedIngestionJob) (db : Db Vectors)
      → IsServed quote sha256 replace db
          (work_on quote sha256 replace provider indexed_at options world lease db).1
  unfolding work_on
  work_on-IsServed lease db =
      after-IsServed quote sha256 replace db _ _ (step-IsServed lease _ db) (λ _ db1.
        after-IsServed quote sha256 replace db1 _ _ (step-IsServed lease _ db1) (λ artifact db2.
          after-IsServed quote sha256 replace db2 _ _ (checkpoint-IsServed 0 lease db2) (λ _ db3.
            after-IsServed quote sha256 replace db3 _ _ (step-IsServed lease _ db3) (λ document db4.
              after-IsServed quote sha256 replace db4 _ _ (checkpoint-IsServed 1 lease db4)
                (λ _ db5.
                  after-IsServed quote sha256 replace db5 _ _ (step-IsServed lease _ db5)
                    (λ records db6.
                      after-IsServed quote sha256 replace db6 _ _ (checkpoint-IsServed 2 lease db6)
                        (λ _ db7.
                          after-IsServed quote sha256 replace db7 _ _
                            (service_call-IsServed quote sha256 replace db7 _
                              (publish-IsServed lease artifact records db7))
                            (λ completed db8. IsServed-stay quote sha256 replace db8))))))))

  recover-IsServed :
      (lease : LeasedIngestionJob) (thrown : WorkerFailure) (db : Db Vectors)
      → IsServed quote sha256 replace db
          (recover quote sha256 replace provider indexed_at options world lease thrown db).1
  unfolding recover report_failure apply
  recover-IsServed lease thrown db =
      let failure = safe_failure (classify_failure thrown) in
      elim (Bool-cases (text_eq failure.code (codes "ingestion_lease_lost"))) [
        | inl lost ↦ rw (recover, lost) (IsServed-stay quote sha256 replace db)
        | inr kept ↦
            rw (recover, kept)
              (IsServed-call quote sha256 replace
                (to_fail world.fail_clock (record {
                  tenant_id = lease.job.tenant_id;
                  job_id = lease.job.job_id;
                  lease_token = lease.lease_token;
                  error_code = failure.code;
                  retryable = failure.retryable;
                  retry_delay_seconds = none;
                }))
                db)
      ]

  run_lease-IsServed :
      (lease : LeasedIngestionJob) (db : Db Vectors)
      → IsServed quote sha256 replace db
          (run_lease quote sha256 replace provider indexed_at options world lease db).1
  unfolding run_lease
  run_lease-IsServed lease db =
      let outcome = work_on quote sha256 replace provider indexed_at options world lease db in
      let worked = work_on-IsServed lease db in
      elim (Result-cases outcome.0) [
        | inl (result, e) ↦ rw (run_lease, e) worked
        | inr (thrown, e) ↦
            rw (run_lease, e)
              (IsServed-trans quote sha256 replace db outcome.1 _ worked
                (recover-IsServed lease thrown outcome.1))
      ]

  -- Whatever the worker meets, one run leaves the tables as some sequence of calls of the job
  -- service leaves them, so that what holds of every such sequence holds of every run.
  pub run_once-IsServed :
      (db : Db Vectors)
      → IsServed quote sha256 replace db
          (run_once quote sha256 replace provider indexed_at options world db).1
  unfolding run_once apply
  run_once-IsServed db =
      let call =
        to_lease world.lease_clock options.tenant_id options.worker_id
          (some options.lease_duration_seconds) world.token world.locked in
      let answer =
        lease_next quote sha256 world.lease_clock options.tenant_id options.worker_id
          (some options.lease_duration_seconds) world.token world.locked db in
      let first = IsServed-call quote sha256 replace call db in
      elim (Result-cases answer.0) [
        | inr (thrown, e) ↦ rw (run_once, e) first
        | inl (none, e) ↦ rw (run_once, e) first
        | inl (some lease, e) ↦
            rw (run_once, e)
              (IsServed-trans quote sha256 replace db answer.1 _ first
                (run_lease-IsServed lease answer.1))
      ]
