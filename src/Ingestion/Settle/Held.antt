-- ===== src/Ingestion/Settle/Held.antt =====
-- What the lock and the updates of src/ingestion/ingestionJobService.ts find of a lease that is
-- held: the row, spelled out.
use la_muni_rag.Base.{
  ℕ, ◌<◌, ◌≡◌, ◌≢◌, refl, ap, inl, inr, true, false, Option, none, some, arith, Bool-cases, ◌≤◌,
  ◌⊎◌,
}
use la_muni_rag.Base.Text.{Text, text_eq, text_eq_iff}
use la_muni_rag.Ingestion.Types.{JobRow, processing, status_eq}
use la_muni_rag.Ingestion.Store.{holds_lease, text_in, is_future}
use la_muni_rag.Ingestion.Step.{status_eq→≡}

pub text_in-≡ : (o : Option Text) (t : Text) → text_in o t ≡ true → o ≡ some t
text_in-≡ none t h = cc h
text_in-≡ (some s) t h = ap some ((text_eq_iff s t).0 h)

is_future-some :
    (o : Option ℕ) (now : ℕ) → is_future o now ≡ true → (at : ℕ) × (o ≡ some at) × (now < at)
is_future-some none now h = cc h
is_future-some (some at) now h = (at, refl, ground (arith, h))

-- The row has this identifier and this tenant, is being processed, and is leased under the token of
-- this digest until some time after `now`.
abbrev pub IsUnderLease : ℕ → Text → Text → Text → JobRow → Type 0
IsUnderLease now id tenant_id token_sha256 j =
    (j.id ≡ id)
    × (j.tenant_id ≡ tenant_id)
    × (j.status ≡ processing)
    × (j.lease_token_sha256 ≡ some token_sha256)
    × ((at : ℕ) × (j.lease_expires_at ≡ some at) × (now < at))

pub holds_lease-IsUnderLease :
    (now : ℕ) (id tenant_id token_sha256 : Text) (j : JobRow)
    → holds_lease now id tenant_id token_sha256 j ≡ true
    → IsUnderLease now id tenant_id token_sha256 j
unfolding holds_lease
holds_lease-IsUnderLease now id tenant_id token_sha256 j h =
    let same : text_eq j.id id ≡ true = ground (arith, h) in
    let owned : text_eq j.tenant_id tenant_id ≡ true = ground (arith, h) in
    let active : status_eq j.status processing ≡ true = ground (arith, h) in
    let given : text_in j.lease_token_sha256 token_sha256 ≡ true = ground (arith, h) in
    let future : is_future j.lease_expires_at now ≡ true = ground (arith, h) in
    (
      (text_eq_iff _ _).0 same,
      (text_eq_iff _ _).0 owned,
      status_eq→≡ _ _ active,
      text_in-≡ _ _ given,
      is_future-some _ _ future,
    )

-- The row is not being processed, or not under the token of this digest, or its lease is over.
abbrev pub HasLapsed : ℕ → Text → JobRow → Type 0
HasLapsed now token_sha256 j =
    (j.status ≢ processing)
    ⊎ (j.lease_token_sha256 ≢ some token_sha256)
    ⊎ ((at : ℕ) → j.lease_expires_at ≡ some at → at ≤ now)

lapsed_or_held :
    (now : ℕ) (id tenant_id token_sha256 : Text) (j : JobRow)
    → (j.id ≡ id → j.tenant_id ≡ tenant_id → HasLapsed now token_sha256 j)
    → IsUnderLease now id tenant_id token_sha256 j
    → ⊥
lapsed_or_held now id tenant_id token_sha256 j lapsed (p, q, active, given, (at, until, later)) =
    elim (lapsed p q) [
      | inl stopped ↦ stopped active
      | inr (inl other) ↦ other given
      | inr (inr over) ↦ absurd (omega (arith, over at until, later))
    ]

pub holds_lease-HasLapsed :
    (now : ℕ) (id tenant_id token_sha256 : Text) (j : JobRow)
    → (j.id ≡ id → j.tenant_id ≡ tenant_id → HasLapsed now token_sha256 j)
    → holds_lease now id tenant_id token_sha256 j ≡ false
holds_lease-HasLapsed now id tenant_id token_sha256 j lapsed =
    elim (Bool-cases (holds_lease now id tenant_id token_sha256 j)) [
      | inl held ↦ absurd (
          lapsed_or_held now id tenant_id token_sha256 j lapsed
            (holds_lease-IsUnderLease now id tenant_id token_sha256 j held))
      | inr free ↦ free
    ]
