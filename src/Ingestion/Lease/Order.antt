-- ===== src/Ingestion/Lease/Order.antt =====
-- Which job `leaseNext` of src/ingestion/ingestionJobService.ts takes.
use mathlib.Core.Path.{subst}
use la_muni_rag.Base.{
  ℕ, ◌≡◌, refl, sym, ◌∙◌, inl, inr, Bool, true, false, ◌&&◌, not, Option, none, some, List, [], ◌∷◌,
  arith, is_some, Option-cases, Bool-cases,
}
use la_muni_rag.Base.Text.{Text}
use la_muni_rag.Ingestion.Types.{JobRow}
use la_muni_rag.Ingestion.Store.{ArtifactObject, ArtifactScan, joined_artifact}
use la_muni_rag.Ingestion.Queue.{
  text_lt, queue_before, is_leasable, Candidate, earlier, lease_candidate,
}
use la_muni_rag.Ingestion.Table.{Member}

text_lt_asym : (s t : Text) → text_lt s t ≡ true → text_lt t s ≡ false
unfolding text_lt
text_lt_asym [] [] h = cc h
text_lt_asym [] (b ∷ t) h = refl
text_lt_asym (a ∷ s) [] h = cc h
text_lt_asym (a ∷ s) (b ∷ t) h = ground (arith, text_lt_asym s t)

text_lt_trans : (s t u : Text) → text_lt s t ≡ false → text_lt t u ≡ false → text_lt s u ≡ false
unfolding text_lt
text_lt_trans [] [] u h k = k
text_lt_trans [] (b ∷ t) u h k = cc h
text_lt_trans (a ∷ s) t [] h k = refl
text_lt_trans (a ∷ s) [] (c ∷ u) h k = cc k
text_lt_trans (a ∷ s) (b ∷ t) (c ∷ u) h k = ground (arith, text_lt_trans s t u)

queue_before_asym : (a b : JobRow) → queue_before a b ≡ true → queue_before b a ≡ false
unfolding queue_before
queue_before_asym a b h = ground (arith, text_lt_asym a.id b.id)

queue_before_trans :
    (a b c : JobRow)
    → queue_before a b ≡ false
    → queue_before b c ≡ false
    → queue_before a c ≡ false
unfolding queue_before
queue_before_trans a b c h k = ground (arith, text_lt_trans a.id b.id c.id)

true-false : true ≡ false → ⊥
true-false h = cc h

queue_before_irrefl : (a : JobRow) → queue_before a a ≡ false
queue_before_irrefl a = elim (Bool-cases (queue_before a a)) [
  | inl yes' ↦ queue_before_asym a a yes'
  | inr no' ↦ no'
]

module _ (now : ℕ) (tenant_id : Text) (locked : Text → Bool) (objects : List ArtifactObject)
    (scans : List ArtifactScan) where
  -- A row may be taken, no other transaction has it, and an accepted artifact is there for it.
  abbrev pub is_eligible : JobRow → Bool
  is_eligible j =
      is_leasable now tenant_id j
      && not (locked j.id)
      && is_some (joined_artifact now scans j objects)

  -- No eligible row stands before `r` in the queue.
  abbrev pub IsBehind : List JobRow → JobRow → Type 0
  IsBehind js r = (j : JobRow) → Member j js → is_eligible j ≡ true → queue_before j r ≡ false

  -- The candidate is eligible with its artifact, and no eligible row stands before it in the queue;
  -- without one, no row is eligible.
  abbrev pub IsFirst : List JobRow → Option Candidate → Type 0
  IsFirst js none = (j : JobRow) → Member j js → is_eligible j ≡ false
  IsFirst js (some c) =
      Member c.row js
      × (is_eligible c.row ≡ true)
      × (joined_artifact now scans c.row objects ≡ some (c.object_id, c.scan_id))
      × IsBehind js c.row

  IsBehind-cons :
      (j : JobRow) (js : List JobRow) (r : JobRow)
      → (is_eligible j ≡ true → queue_before j r ≡ false)
      → IsBehind js r
      → IsBehind (j ∷ js) r
  IsBehind-cons j js r first f i (inl e) h =
      subst (λ k. is_eligible k ≡ true → queue_before k r ≡ false) (sym e) first h
  IsBehind-cons j js r first f i (inr m) h = f i m h

  IsFirst-skip :
      (j : JobRow) (js : List JobRow) (o : Option Candidate)
      → is_eligible j ≡ false
      → IsFirst js o
      → IsFirst (j ∷ js) o
  IsFirst-skip j js none bad f =
      λ i m. elim m [ inl e ↦ subst (λ k. is_eligible k ≡ false) (sym e) bad | inr n ↦ f i n ]
  IsFirst-skip j js (some c) bad (m, e, a, f) =
      (inr m, e, a, IsBehind-cons j js c.row (λ good. absurd (true-false (sym good ∙ bad))) f)

  IsFirst-earlier :
      (found : Candidate) (js : List JobRow) (o : Option Candidate)
      → is_eligible found.row ≡ true
      → joined_artifact now scans found.row objects ≡ some (found.object_id, found.scan_id)
      → IsFirst js o
      → IsFirst (found.row ∷ js) (earlier found o)
  unfolding earlier
  IsFirst-earlier found js none e a f = (
    inl refl,
    e,
    a,
    IsBehind-cons found.row js found.row (λ _. queue_before_irrefl found.row)
        (λ i m good. absurd (true-false (sym good ∙ f i m))),
  )
  IsFirst-earlier found js (some d) e a (m, e', a', f) =
      elim (Bool-cases (queue_before d.row found.row)) [
        | inl sooner ↦
            rw (earlier, sooner)
              (
                inr m,
                e',
                a',
                IsBehind-cons found.row js d.row (λ _. queue_before_asym d.row found.row sooner) f,
              )
        | inr later ↦
            rw (earlier, later)
              (
                inl refl,
                e,
                a,
                IsBehind-cons found.row js found.row (λ _. queue_before_irrefl found.row)
                    (λ i n good. queue_before_trans i d.row found.row (f i n good) later),
              )
      ]

  -- The candidate is the first of the eligible rows.
  pub lease_candidate-IsFirst :
      (js : List JobRow) → IsFirst js (lease_candidate now tenant_id locked objects scans js)
  unfolding lease_candidate
  lease_candidate-IsFirst [] = λ j m. absurd m
  lease_candidate-IsFirst (j ∷ js) =
      let rest = lease_candidate now tenant_id locked objects scans js in
      let others = lease_candidate-IsFirst js in
      elim (Bool-cases (is_leasable now tenant_id j && not (locked j.id))) [
        | inr bad ↦ rw (lease_candidate, bad) (IsFirst-skip j js rest (rw bad refl) others)
        | inl good ↦ elim (Option-cases (joined_artifact now scans j objects)) [
          | inl e ↦
              rw (lease_candidate, good, e) (IsFirst-skip j js rest (rw (good, e) refl) others)
          | inr ((object_id, scan_id), e) ↦
              let found : Candidate = record {
                row = j;
                object_id = object_id;
                scan_id = scan_id;
              } in
              rw (lease_candidate, good, e)
                (IsFirst-earlier found js rest (rw (good, e) refl) e others)
        ]
      ]
