-- ===== src/Ingestion/History/Count.antt =====
-- How often the calls of src/ingestion/ingestionJobService.ts move a job from one status or attempt to
-- another.
use la_muni_rag.Base.{
  ℕ, zero, suc, ◌+◌, ◌*◌, ◌≤◌, ◌≡◌, refl, sym, ap, ◌∙◌, inl, inr, Bool, true, false, ◌&&◌, not,
  Option, none, some, List, [], ◌∷◌, ◌==◌, arith, Bool-cases, if◌then◌else◌,
}
use la_muni_rag.Base.Text.{Text, text_eq, text_eq_iff}
use la_muni_rag.Ingestion.Types.{
  Checked, JobRow, DurableIngestionJob, VectorReplaceResult, status_eq, DurableIngestionJobStatus,
  queued, processing, processed, failed, superseded,
}
use la_muni_rag.Ingestion.Store.{DocumentVersion, set_heartbeat}
use la_muni_rag.Ingestion.Rows.{Db}
use la_muni_rag.Ingestion.Table.{Apart, id_clash, only_row, IsSound, IsNew, Member, Changes-IsSound}
use la_muni_rag.Ingestion.View.{view, rank}
use la_muni_rag.Ingestion.Moves.{
  Course, start, prolonged, moved_on, Course-IsSameWork, Course-rank, Changes-Followed, rank-IsNew,
}
use la_muni_rag.Ingestion.History.{Call, apply, apply-Changes}

-- The row of a job in the table.
unfoldable pub row_of : Text → List JobRow → Option JobRow
row_of id [] = none
row_of id (j ∷ js) = if text_eq j.id id then some j else row_of id js

-- Whether the status or the number of attempts is another.
unfoldable pub has_moved : Option JobRow → Option JobRow → Bool
has_moved none none = false
has_moved (some j) (some k) =
    not (status_eq j.status k.status && j.attempt_count == k.attempt_count)
has_moved _ _ = true

row_of-Member :
    (js : List JobRow) (k : JobRow) → Apart id_clash js → Member k js → row_of k.id js ≡ some k
unfolding row_of
row_of-Member [] k h m = absurd m
row_of-Member (i ∷ js) k h m = elim (Bool-cases (text_eq i.id k.id)) [
  | inl same ↦ rw (row_of, same) (ap some (only_row (i ∷ js) i k h (inl refl) m same))
  | inr other ↦ elim m [
    | inl e ↦
        let hit = (text_eq_iff i.id k.id).1 (ap (λ (r : JobRow). r.id) (sym e)) in
        let clash : true ≡ false = sym hit ∙ other in cc clash
    | inr later ↦ rw (row_of, other) (row_of-Member js k h.1 later)
  ]
]

status_eq_refl : (s : DurableIngestionJobStatus) → status_eq s s ≡ true
unfolding status_eq
status_eq_refl queued = refl
status_eq_refl processing = refl
status_eq_refl processed = refl
status_eq_refl failed = refl
status_eq_refl superseded = refl

set_heartbeat-same :
    (now duration : ℕ) (j k : JobRow)
    → k ≡ set_heartbeat now duration j
    → (k.status ≡ j.status) × (k.attempt_count ≡ j.attempt_count)
unfolding set_heartbeat
set_heartbeat-same now duration j k e =
    (ap (λ (r : JobRow). r.status) e, ap (λ (r : JobRow). r.attempt_count) e)

-- Without a move a course keeps the status and the number of attempts.
Course-same :
    (j : JobRow) {n : ℕ} (k : JobRow)
    → Course j n k
    → n ≡ 0
    → (k.status ≡ j.status) × (k.attempt_count ≡ j.attempt_count)
Course-same j k start still = (refl, refl)
Course-same j k (prolonged {k = i} c now duration p e) still =
    let (status, attempts) = Course-same j i c still in
    let (status', attempts') = set_heartbeat-same now duration i k e in
    (status' ∙ status, attempts' ∙ attempts)
Course-same j k (moved_on {k = i} c m) still = absurd (omega (arith, still))

Course-has_moved :
    (j : JobRow) (n : ℕ) (k : JobRow) → Course j n k → has_moved (some j) (some k) ≡ true → 1 ≤ n
unfolding has_moved
Course-has_moved j zero k c h =
    let (status, attempts) = Course-same j k c refl in
    let same = status_eq_refl j.status in absurd (ground (arith, h, same, status, attempts))
Course-has_moved j (suc n) k c h = omega arith

module _ {Records Vectors : Type 0} (quote sha256 : Text → Text)
    (replace : DurableIngestionJob
      → DocumentVersion
      → Records
      → Vectors
      → Checked (VectorReplaceResult × Vectors)) where
  -- After how many of the calls the row of a job has another status or number of attempts than before
  -- the call.
  unfoldable pub moves_of : Text → List (Call Records) → Db Vectors → ℕ
  moves_of id [] db = 0
  moves_of id (c ∷ cs) db =
      let db' = apply quote sha256 replace c db in
      let rest = moves_of id cs db' in
      if has_moved (row_of id db.jobs) (row_of id db'.jobs) then suc rest else rest

  moves_of-rank :
      (cs : List (Call Records)) (db : Db Vectors) (j : JobRow)
      → IsSound db.jobs
      → Member j db.jobs
      → moves_of j.id cs db ≤ rank j.max_attempts (view j)
  unfolding moves_of
  moves_of-rank [] db j h m = omega arith
  moves_of-rank (c ∷ cs) db j h m =
      let db' = apply quote sha256 replace c db in
      let changes = apply-Changes quote sha256 replace c db h in
      let sound = Changes-IsSound changes h in
      let (n, k, m', course) = Changes-Followed j changes (0, j, m, start) in
      let same = Course-IsSameWork j k course in
      let before = row_of-Member db.jobs j h.ids m in
      let after : row_of j.id db'.jobs ≡ some k =
        rw (← same.same_id) (row_of-Member db'.jobs k sound.ids m') in
      let rest : moves_of j.id cs db' ≤ rank j.max_attempts (view k) =
        rw (← same.same_id, ← same.same_policy) (moves_of-rank cs db' k sound m') in
      let spent = Course-rank j k course in
      elim (Bool-cases (has_moved (some j) (some k))) [
        | inl moved ↦
            let step = Course-has_moved j n k course moved in
            rw (moves_of, before, after, moved) (omega (arith, rest, spent, step))
        | inr still ↦ rw (moves_of, before, after, still) (omega (arith, rest, spent))
      ]

  -- Whatever calls are made on a sound table, a job that has just been enqueued has another status or
  -- another number of attempts after at most 21 of them, two for each attempt that it is allowed and
  -- one more: it cannot be leased and put back for ever.
  pub moves_of-IsNew :
      (cs : List (Call Records)) (db : Db Vectors) (j : JobRow)
      → IsSound db.jobs
      → Member j db.jobs
      → IsNew j
      → (moves_of j.id cs db ≤ 2 * j.max_attempts + 1) × (moves_of j.id cs db ≤ 21)
  moves_of-IsNew cs db j h m new =
      let bound = moves_of-rank cs db j h m in
      let fresh = rank-IsNew j new in
      let ten = new.2.at_most_ten in (omega (arith, bound, fresh), omega (arith, bound, fresh, ten))
