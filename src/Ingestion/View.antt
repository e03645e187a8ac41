-- ===== src/Ingestion/View.antt =====
-- A job as its callers see it: it waits, a worker holds it, it is done or it is dead. The moves are
-- what src/ingestion/ingestionJobService.ts promises of it.
use la_muni_rag.Base.{ℕ, ◌+◌, ◌-◌, ◌*◌, ◌<◌, ◌≡◌, ◌⊎◌, inl, inr, true, arith, Bool-cases}
use la_muni_rag.Ingestion.Types.{
  DurableIngestionJobStatus, queued, processing, processed, failed, superseded, status_eq, JobRow,
}
use la_muni_rag.Ingestion.Store.{
  set_leased, set_heartbeat, set_exhausted, set_processed, set_retry, set_failed,
}
use la_muni_rag.Ingestion.Queue.{is_leasable}
use la_muni_rag.Ingestion.Step.{
  Move, leased, exhausted, completed, retried, gave_up, RowChange, same, beaten, moved, status_eq→≡,
  status-is_exhausted,
}

-- `waiting n` and `held n` have `n` attempts behind them, the one under way included.
pub data View : Type 0 where
  waiting held : ℕ → View
  done dead : View

abbrev pub view_at : DurableIngestionJobStatus → ℕ → View
view_at queued n = waiting n
view_at processing n = held n
view_at processed n = done
view_at failed n = dead
view_at superseded n = dead

abbrev pub view : JobRow → View
view j = view_at j.status j.attempt_count

-- What may happen to a job that is allowed `limit` attempts.
pub data ViewStep (limit : ℕ) : View → View → Type 0 where
  take : {n : ℕ} → n < limit → ViewStep limit (waiting n) (held (n + 1))
  take_over : {n : ℕ} → n < limit → ViewStep limit (held n) (held (n + 1))
  put_back : {n : ℕ} → n < limit → ViewStep limit (held n) (waiting n)
  finish : {n : ℕ} → ViewStep limit (held n) done
  give_up : {n : ℕ} → ViewStep limit (held n) dead

pub data ViewSteps (limit : ℕ) (v : View) : View → Type 0 where
  none_yet : ViewSteps limit v v
  and_then : {w x : View} → ViewSteps limit v w → ViewStep limit w x → ViewSteps limit v x

leasable-cases :
    (now : ℕ) (j : JobRow)
    → is_leasable now j.tenant_id j ≡ true
    → (j.attempt_count < j.max_attempts)
      × ((status_eq j.status queued ≡ true) ⊎ (status_eq j.status processing ≡ true))
unfolding is_leasable
leasable-cases now j h = elim (Bool-cases (status_eq j.status queued)) [
  | inl q ↦ (ground arith, inl q)
  | inr q ↦ (ground arith, inr (ground arith))
]

-- Each move of a row is a step of what is seen.
pub Move-ViewStep : (j k : JobRow) → Move j k → ViewStep j.max_attempts (view j) (view k)
unfolding set_leased set_exhausted set_processed set_retry set_failed
Move-ViewStep j k (leased now owner token duration o s p e) =
    let (room, from) = leasable-cases now j p in
    elim from [
      | inl q ↦ rw (e, status_eq→≡ j.status queued q) (take room)
      | inr q ↦ rw (e, status_eq→≡ j.status processing q) (take_over room)
    ]
Move-ViewStep j k (exhausted now p e) = rw (e, status-is_exhausted now j p) give_up
Move-ViewStep j k (completed now p e) = rw (e, p) finish
Move-ViewStep j k (retried now delay code p room c e) = rw (e, p) (put_back room)
Move-ViewStep j k (gave_up now code retryable p c e) = rw (e, p) give_up

-- A change of a row is a step of what is seen, or none.
pub RowChange-ViewSteps :
    (limit : ℕ) (j k : JobRow)
    → j.max_attempts ≡ limit
    → RowChange j k
    → {v : View} → ViewSteps limit v (view j)
    → ViewSteps limit v (view k)
unfolding set_heartbeat
RowChange-ViewSteps limit j k e (same f) s = rw f s
RowChange-ViewSteps limit j k e (beaten now duration p f) s = rw f s
RowChange-ViewSteps limit j k e (moved m) s = and_then s (rw (← e) (Move-ViewStep j k m))

-- How many moves a job may still make.
abbrev pub rank : ℕ → View → ℕ
rank limit (waiting n) = 2 * (limit - n) + 1
rank limit (held n) = 2 * (limit - n) + 2
rank limit done = 0
rank limit dead = 0

pub rank-ViewStep : (limit : ℕ) {v w : View} → ViewStep limit v w → rank limit w < rank limit v
rank-ViewStep limit (take room) = ground arith
rank-ViewStep limit (take_over room) = ground arith
rank-ViewStep limit (put_back room) = ground arith
rank-ViewStep limit finish = ground arith
rank-ViewStep limit give_up = ground arith
