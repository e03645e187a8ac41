-- ===== src/Ingestion/Table.antt =====
-- How the table rag.ingestion_jobs changes, and what holds of every table that is reached.
use la_muni_rag.Base.{
  ◌≡◌, refl, sym, ap, ◌∙◌, ◌⊎◌, inl, inr, Bool, true, false, ◌&&◌, some, List, [], ◌∷◌, ◌++◌, any,
  All, All-append, arith, Bool-cases,
}
use la_muni_rag.Base.Text.{text_eq, text_eq_iff}
use la_muni_rag.Ingestion.Types.{queued, JobRow}
use la_muni_rag.Ingestion.Store.{is_active, same_key, same_work, insert_job, update_where}
use la_muni_rag.Ingestion.Step.{
  RowChange, same, IsWellFormed, RowChange-IsWellFormed, RowChange-IsSameWork, RowChange-is_active,
}

abbrev pub Pointwise : List JobRow → List JobRow → Type 0
Pointwise [] [] = Unit
Pointwise [] (k ∷ ks) = ⊥
Pointwise (j ∷ js) [] = ⊥
Pointwise (j ∷ js) (k ∷ ks) = RowChange j k × Pointwise js ks

-- A job as it is inserted.
abbrev pub IsNew : JobRow → Type 0
IsNew j = (j.status ≡ queued) × (j.attempt_count ≡ 0) × IsWellFormed j

-- One statement changes rows in place, or inserts a new job.
pub data Change (js ks : List JobRow) : Type 0 where
  updated : Pointwise js ks → Change js ks
  inserted : (row : JobRow) → IsNew row → insert_job row js ≡ some ks → Change js ks

-- What the statements of some calls make of the table, one after the other.
pub data Changes (js : List JobRow) : List JobRow → Type 0 where
  here : Changes js js
  next : {ks ls : List JobRow} → Changes js ks → Change ks ls → Changes js ls

pub Changes-trans : {js ks ls : List JobRow} → Changes js ks → Changes ks ls → Changes js ls
Changes-trans c here = c
Changes-trans c (next d s) = next (Changes-trans c d) s

-- `k` stands after `j` in the table.
abbrev pub id_clash : JobRow → JobRow → Bool
id_clash k j = text_eq j.id k.id

abbrev key_clash : JobRow → JobRow → Bool
key_clash k j = same_key k.tenant_id k.requested_by_principal_id k.idempotency_key_sha256 j

abbrev work_clash : JobRow → JobRow → Bool
work_clash k j = is_active k.status && same_work k.tenant_id k.work_sha256 j

-- No two rows clash.
abbrev pub Apart : (JobRow → JobRow → Bool) → List JobRow → Type 0
Apart clash [] = Unit
Apart clash (j ∷ js) = (any (λ k. clash k j) js ≡ false) × Apart clash js

-- The primary key, the two unique indexes, and the CHECK constraints.
pub record IsSound (js : List JobRow) : Type 0 where
  pub formed : All IsWellFormed js
  pub ids : Apart id_clash js
  pub keys : Apart key_clash js
  pub works : Apart work_clash js

-- A clash after a change was there before.
abbrev Reflected : (JobRow → JobRow → Bool) → Type 0
Reflected clash =
    (j j' k k' : JobRow) → RowChange j j' → RowChange k k' → clash k' j' ≡ true → clash k j ≡ true

id_clash-Reflected : Reflected id_clash
id_clash-Reflected j j' k k' c d h =
    let p = RowChange-IsSameWork j j' c in
    let q = RowChange-IsSameWork k k' d in rw (← p.same_id, ← q.same_id) h

key_clash-Reflected : Reflected key_clash
key_clash-Reflected j j' k k' c d h =
    let p = RowChange-IsSameWork j j' c in
    let q = RowChange-IsSameWork k k' d in
    rw
      (
        ← p.same_tenant,
        ← p.same_principal,
        ← p.same_key,
        ← q.same_tenant,
        ← q.same_principal,
        ← q.same_key,
      )
      h

work_clash-Reflected : Reflected work_clash
work_clash-Reflected j j' k k' c d h =
    let p = RowChange-IsSameWork j j' c in
    let q = RowChange-IsSameWork k k' d in
    ground (
      arith,
      p.same_tenant,
      p.same_work,
      q.same_tenant,
      q.same_work,
      RowChange-is_active j j' c,
      RowChange-is_active k k' d,
    )

module _ (clash : JobRow → JobRow → Bool) (reflected : Reflected clash) where
  any-Pointwise :
      (j j' : JobRow) (js ks : List JobRow)
      → RowChange j j'
      → Pointwise js ks
      → any (λ k. clash k j) js ≡ false
      → any (λ k. clash k j') ks ≡ false
  any-Pointwise j j' [] [] c p h = refl
  any-Pointwise j j' [] (k ∷ ks) c p h = absurd p
  any-Pointwise j j' (i ∷ js) [] c p h = absurd p
  any-Pointwise j j' (i ∷ js) (k ∷ ks) c (d, p) h =
      ground (arith, reflected j j' i k c d, any-Pointwise j j' js ks c p)

  Apart-Pointwise : (js ks : List JobRow) → Pointwise js ks → Apart clash js → Apart clash ks
  Apart-Pointwise [] [] p h = tt
  Apart-Pointwise [] (k ∷ ks) p h = absurd p
  Apart-Pointwise (j ∷ js) [] p h = absurd p
  Apart-Pointwise (j ∷ js) (k ∷ ks) (c, p) (new, h) =
      (any-Pointwise j k js ks c p new, Apart-Pointwise js ks p h)

any-snoc :
    (t : JobRow → Bool) (js : List JobRow) (row : JobRow)
    → any t js ≡ false
    → t row ≡ false
    → any t (js ++ row ∷ []) ≡ false
any-snoc t [] row h k = ground arith
any-snoc t (j ∷ js) row h k = ground (arith, any-snoc t js row)

Apart-snoc :
    (clash : JobRow → JobRow → Bool) (js : List JobRow) (row : JobRow)
    → Apart clash js
    → any (clash row) js ≡ false
    → Apart clash (js ++ row ∷ [])
Apart-snoc clash [] row h new = (refl, tt)
Apart-snoc clash (j ∷ js) row (p, h) new =
    (any-snoc (λ k. clash k j) js row p (ground arith), Apart-snoc clash js row h (ground arith))

All-Pointwise : (js ks : List JobRow) → Pointwise js ks → All IsWellFormed js → All IsWellFormed ks
All-Pointwise [] [] p h = tt
All-Pointwise [] (k ∷ ks) p h = absurd p
All-Pointwise (j ∷ js) [] p h = absurd p
All-Pointwise (j ∷ js) (k ∷ ks) (c, p) (w, h) =
    (RowChange-IsWellFormed j k c w, All-Pointwise js ks p h)

pub insert_job-apart :
    (row : JobRow) (js ks : List JobRow)
    → insert_job row js ≡ some ks
    → (ks ≡ js ++ row ∷ [])
      × (any (id_clash row) js ≡ false)
      × (any (key_clash row) js ≡ false)
      × (any (same_work row.tenant_id row.work_sha256) js ≡ false)
unfolding insert_job
insert_job-apart row js ks h = ground arith

any_and :
    (b : Bool) (t : JobRow → Bool) (js : List JobRow)
    → any t js ≡ false
    → any (λ j. b && t j) js ≡ false
any_and b t [] h = refl
any_and b t (j ∷ js) h = ground (arith, any_and b t js)

pub Change-IsSound : (js ks : List JobRow) → Change js ks → IsSound js → IsSound ks
Change-IsSound js ks (updated p) h = record {
  formed = All-Pointwise js ks p h.formed;
  ids = Apart-Pointwise id_clash id_clash-Reflected js ks p h.ids;
  keys = Apart-Pointwise key_clash key_clash-Reflected js ks p h.keys;
  works = Apart-Pointwise work_clash work_clash-Reflected js ks p h.works;
}
Change-IsSound js ks (inserted row (_, _, w) e) h =
    let (made, id, key, work) = insert_job-apart row js ks e in
    rw made record {
      formed = All-append IsWellFormed js (row ∷ []) h.formed (w, tt);
      ids = Apart-snoc id_clash js row h.ids id;
      keys = Apart-snoc key_clash js row h.keys key;
      works = Apart-snoc work_clash js row h.works (any_and (is_active row.status) _ js work);
    }

pub Changes-IsSound : {js ks : List JobRow} → Changes js ks → IsSound js → IsSound ks
Changes-IsSound here h = h
Changes-IsSound (next c s) h = Change-IsSound _ _ s (Changes-IsSound c h)

-- `j` is one of the rows.
abbrev pub Member : JobRow → List JobRow → Type 0
Member j [] = ⊥
Member j (k ∷ ks) = (j ≡ k) ⊎ Member j ks

-- An UPDATE changes the rows in place, if it makes a change of each row that it takes.
pub update_where-Pointwise :
    (test : JobRow → Bool) (set : JobRow → JobRow) (js : List JobRow)
    → ((j : JobRow) → Member j js → test j ≡ true → RowChange j (set j))
    → Pointwise js (update_where test set js)
unfolding update_where
update_where-Pointwise test set [] f = tt
update_where-Pointwise test set (j ∷ js) f =
    let rest = update_where-Pointwise test set js (λ k m. f k (inr m)) in
    elim (Bool-cases (test j)) [
      | inl yes' ↦ rw (yes', update_where) (f j (inl refl) yes', rest)
      | inr no' ↦ rw (no', update_where) (same refl, rest)
    ]

pub update_where-Member :
    (test : JobRow → Bool) (set : JobRow → JobRow) (js : List JobRow) (j : JobRow)
    → Member j js
    → test j ≡ true
    → Member (set j) (update_where test set js)
unfolding update_where
update_where-Member test set [] j m h = absurd m
update_where-Member test set (i ∷ js) j (inl e) h =
    let hit : test i ≡ true = rw (← e) h in rw (hit, update_where) (inl (ap set e))
update_where-Member test set (i ∷ js) j (inr m) h =
    let rest = update_where-Member test set js j m h in
    elim (Bool-cases (test i)) [
      | inl yes' ↦ rw (yes', update_where) (inr rest)
      | inr no' ↦ rw (no', update_where) (inr rest)
    ]

pub any-Member :
    (t : JobRow → Bool) (js : List JobRow) (j : JobRow) → Member j js → t j ≡ true → any t js ≡ true
any-Member t [] j m h = absurd m
any-Member t (k ∷ js) j (inl e) h = ground (arith, ap t e)
any-Member t (k ∷ js) j (inr m) h = ground (arith, any-Member t js j m h)

clash_twice :
    (i k : JobRow) (js : List JobRow)
    → any (λ l. id_clash l i) js ≡ false
    → Member k js
    → i.id ≡ k.id
    → ⊥
clash_twice i k js new m e =
    let hit = any-Member (λ l. id_clash l i) js k m ((text_eq_iff i.id k.id).1 e) in
    let clash : false ≡ true = sym new ∙ hit in cc clash

-- A row is the only one with its identifier.
pub only_row :
    (js : List JobRow) (j k : JobRow)
    → Apart id_clash js
    → Member j js
    → Member k js
    → text_eq j.id k.id ≡ true
    → j ≡ k
only_row [] j k h m n e = absurd m
only_row (i ∷ js) j k h (inl p) (inl q) e = p ∙ sym q
only_row (i ∷ js) j k (new, h) (inl p) (inr n) e =
    absurd
      (clash_twice i k js new n (ap (λ (r : JobRow). r.id) (sym p) ∙ (text_eq_iff j.id k.id).0 e))
only_row (i ∷ js) j k (new, h) (inr m) (inl q) e = absurd (
    clash_twice i j js new m
      (ap (λ (r : JobRow). r.id) (sym q) ∙ sym ((text_eq_iff j.id k.id).0 e)))
only_row (i ∷ js) j k (new, h) (inr m) (inr n) e = only_row js j k h m n e
