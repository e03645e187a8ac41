-- ===== src/Ingestion/Moves.antt =====
-- The course of one row of rag.ingestion_jobs through the calls of
-- src/ingestion/ingestionJobService.ts.
use mathlib.Core.Path.{subst}
use la_muni_rag.Base.{
  ℕ, suc, ◌+◌, ◌*◌, ◌≤◌, ◌<◌, ◌≡◌, ◌≢◌, refl, ap, ◌∙◌, inl, inr, List, [], ◌∷◌, ◌++◌, arith,
}
use la_muni_rag.Ingestion.Types.{
  DurableIngestionJobStatus, queued, processing, processed, failed, superseded, JobRow,
}
use la_muni_rag.Ingestion.Store.{set_heartbeat}
use la_muni_rag.Ingestion.Step.{
  Move, RowChange, same, beaten, moved, IsSameWork, RowChange-IsSameWork,
}
use la_muni_rag.Ingestion.Table.{
  Pointwise, Change, updated, inserted, Changes, here, next, Member, IsNew, insert_job-apart,
}
use la_muni_rag.Ingestion.View.{
  view, view_at, ViewSteps, none_yet, RowChange-ViewSteps, Move-ViewStep, rank, rank-ViewStep,
}

-- `Course j n k`: from `j` the row came to `k` by `n` moves, with heartbeats between them.
pub data Course (j : JobRow) : ℕ → JobRow → Type 0 where
  start : Course j 0 j
  prolonged :
      {n : ℕ} {k l : JobRow}
      → Course j n k
      → (now duration : ℕ) → k.status ≡ processing
      → l ≡ set_heartbeat now duration k
      → Course j n l
  moved_on : {n : ℕ} {k l : JobRow} → Course j n k → Move k l → Course j (suc n) l

IsSameWork-trans : (i j k : JobRow) → IsSameWork i j → IsSameWork j k → IsSameWork i k
IsSameWork-trans i j k p q = record {
  same_id = q.same_id ∙ p.same_id;
  same_tenant = q.same_tenant ∙ p.same_tenant;
  same_principal = q.same_principal ∙ p.same_principal;
  same_version = q.same_version ∙ p.same_version;
  same_key = q.same_key ∙ p.same_key;
  same_request = q.same_request ∙ p.same_request;
  same_artifact = q.same_artifact ∙ p.same_artifact;
  same_work = q.same_work ∙ p.same_work;
  same_policy = q.same_policy ∙ p.same_policy;
  same_pipeline = q.same_pipeline ∙ p.same_pipeline;
  same_birth = q.same_birth ∙ p.same_birth;
}

-- What a course leaves alone.
pub Course-IsSameWork : (j : JobRow) {n : ℕ} (k : JobRow) → Course j n k → IsSameWork j k
Course-IsSameWork j k start = RowChange-IsSameWork j j (same refl)
Course-IsSameWork j k (prolonged {k = i} c now duration p e) =
    IsSameWork-trans j i k (Course-IsSameWork j i c)
      (RowChange-IsSameWork i k (beaten now duration p e))
Course-IsSameWork j k (moved_on {k = i} c m) =
    IsSameWork-trans j i k (Course-IsSameWork j i c) (RowChange-IsSameWork i k (moved m))

-- A course is seen as steps of the job.
pub Course-ViewSteps :
    (j : JobRow) {n : ℕ} (k : JobRow) → Course j n k → ViewSteps j.max_attempts (view j) (view k)
Course-ViewSteps j k start = none_yet
Course-ViewSteps j k (prolonged {k = i} c now duration p e) =
    RowChange-ViewSteps j.max_attempts i k (Course-IsSameWork j i c).same_policy
      (beaten now duration p e) (Course-ViewSteps j i c)
Course-ViewSteps j k (moved_on {k = i} c m) =
    RowChange-ViewSteps j.max_attempts i k (Course-IsSameWork j i c).same_policy (moved m)
      (Course-ViewSteps j i c)

rank-prolonged :
    (limit now duration : ℕ) (i k : JobRow)
    → k ≡ set_heartbeat now duration i
    → rank limit (view k) ≡ rank limit (view i)
unfolding set_heartbeat
rank-prolonged limit now duration i k e = rw e refl

-- Every move of a course uses up rank.
pub Course-rank :
    (j : JobRow) {n : ℕ} (k : JobRow)
    → Course j n k
    → n + rank j.max_attempts (view k) ≤ rank j.max_attempts (view j)
Course-rank j k start = ground arith
Course-rank j k (prolonged {k = i} c now duration p e) =
    let before = Course-rank j i c in
    let kept = rank-prolonged j.max_attempts now duration i k e in omega arith
Course-rank j k (moved_on {k = i} c m) =
    let before = Course-rank j i c in
    let same = (Course-IsSameWork j i c).same_policy in
    let less = rank-ViewStep i.max_attempts (Move-ViewStep i k m) in
    let less' : rank j.max_attempts (view k) < rank j.max_attempts (view i) = rw (← same) less in
    omega arith

-- A new job makes two moves for each attempt, and one more.
pub rank-IsNew : (j : JobRow) → IsNew j → rank j.max_attempts (view j) ≡ 2 * j.max_attempts + 1
rank-IsNew j (waits, fresh, formed) = rw (waits, fresh) (omega arith)

-- The status of a job that no worker may take.
abbrev pub HasStopped : JobRow → Type 0
HasStopped j = (j.status ≢ queued) × (j.status ≢ processing)

stopped_rank :
    (s : DurableIngestionJobStatus) (n limit : ℕ)
    → s ≢ queued
    → s ≢ processing
    → rank limit (view_at s n) ≡ 0
stopped_rank queued n limit q p = absurd (q refl)
stopped_rank processing n limit q p = absurd (p refl)
stopped_rank processed n limit q p = refl
stopped_rank failed n limit q p = refl
stopped_rank superseded n limit q p = refl

rank-HasStopped : (j : JobRow) (limit : ℕ) → HasStopped j → rank limit (view j) ≡ 0
rank-HasStopped j limit (q, p) = stopped_rank j.status j.attempt_count limit q p

-- A job that has stopped makes no move.
pub Course-HasStopped : (j : JobRow) {n : ℕ} (k : JobRow) → HasStopped j → Course j n k → j ≡ k
Course-HasStopped j k h start = refl
Course-HasStopped j k h (prolonged {k = i} c now duration p e) =
    absurd (h.1 (ap (λ (r : JobRow). r.status) (Course-HasStopped j i h c) ∙ p))
Course-HasStopped j k h (moved_on {k = i} c m) =
    let same = Course-HasStopped j i h c in
    let less = rank-ViewStep i.max_attempts (Move-ViewStep i k m) in
    let zero_rank : rank i.max_attempts (view i) ≡ 0 =
      subst (λ (r : JobRow). rank r.max_attempts (view r) ≡ 0) same
        (rank-HasStopped j j.max_attempts h) in
    absurd (omega arith)

-- A row of the table goes on in the table after a change.
Pointwise-Member :
    (js ks : List JobRow) (j : JobRow)
    → Pointwise js ks
    → Member j js
    → (k : JobRow) × Member k ks × RowChange j k
Pointwise-Member [] ks j p m = absurd m
Pointwise-Member (i ∷ js) [] j p m = absurd p
Pointwise-Member (i ∷ js) (k ∷ ks) j (c, p) (inl e) = (k, inl refl, rw e c)
Pointwise-Member (i ∷ js) (k ∷ ks) j (c, p) (inr m) =
    let (l, n, d) = Pointwise-Member js ks j p m in (l, inr n, d)

Member-append : (js ks : List JobRow) (j : JobRow) → Member j js → Member j (js ++ ks)
Member-append [] ks j m = absurd m
Member-append (i ∷ js) ks j (inl e) = inl e
Member-append (i ∷ js) ks j (inr m) = inr (Member-append js ks j m)

Change-Member :
    (js ks : List JobRow) (j : JobRow)
    → Change js ks
    → Member j js
    → (k : JobRow) × Member k ks × RowChange j k
Change-Member js ks j (updated p) m = Pointwise-Member js ks j p m
Change-Member js ks j (inserted row new e) m =
    let (made, _, _, _) = insert_job-apart row js ks e in
    (j, rw made (Member-append js (row ∷ []) j m), same refl)

Course-RowChange :
    (j : JobRow) {n : ℕ} (k l : JobRow) → Course j n k → RowChange k l → (m : ℕ) × Course j m l
Course-RowChange j {n} k l c (same e) = (n, rw e c)
Course-RowChange j {n} k l c (beaten now duration p e) = (n, prolonged c now duration p e)
Course-RowChange j {n} k l c (moved m) = (suc n, moved_on c m)

-- Where a row has come to.
abbrev pub Followed : List JobRow → JobRow → Type 0
Followed ks j = (n : ℕ) × (k : JobRow) × Member k ks × Course j n k

pub Changes-Followed :
    {js ks : List JobRow} (j : JobRow) → Changes js ks → Followed js j → Followed ks j
Changes-Followed j here f = f
Changes-Followed j (next {ks = is} {ls = ls} c d) f =
    let (n, k, m, course) = Changes-Followed j c f in
    let (l, m', change) = Change-Member is ls k d m in
    let (n', course') = Course-RowChange j k l course change in (n', l, m', course')
