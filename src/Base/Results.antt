-- ===== src/Base/Results.antt =====
-- A call that may throw, as a value: `E` is what is thrown.
use mathlib.Core.Path.{◌≡◌, refl}
use mathlib.Core.Logic.{◌⊎◌, inl, inr}
use mathlib.Core.Bool.{Bool, true, false}
use mathlib.Core.List.{List, [], ◌∷◌}

pub data Result {ℓ κ} (E : Type ℓ) (A : Type κ) : Type (ℓ ⊔ κ) where
  ok : A → Result E A
  err : E → Result E A

module _ {ℓ} {E : Type ℓ} where
  abbrev pub is_ok {κ} : {A : Type κ} → Result E A → Bool
  is_ok (ok value) = true
  is_ok (err thrown) = false

  pub Result-cases {κ} :
      {A : Type κ} (m : Result E A) → ((a : A) × (m ≡ ok a)) ⊎ ((e : E) × (m ≡ err e))
  Result-cases (ok value) = inl (value, refl)
  Result-cases (err thrown) = inr (thrown, refl)

  -- `if (!passes) throw thrown`.
  abbrev pub guard : Bool → E → Result E (Unit {0})
  guard passes thrown = elim passes [ true ↦ ok tt | false ↦ err thrown ]

  infixl 5 ◌>>=◌ ◌>>◌
  -- Sequencing: what is thrown skips the rest.
  abbrev pub ◌>>=◌ {κ ι} : {A : Type κ} {B : Type ι} → Result E A → (A → Result E B) → Result E B
  call >>= rest = elim call [ err thrown ↦ err thrown | ok value ↦ rest value ]

  abbrev pub ◌>>◌ {ι} : {B : Type ι} → Result E (Unit {0}) → Result E B → Result E B
  check >> rest = elim check [ err thrown ↦ err thrown | ok done ↦ rest ]

  -- A sequence that succeeds has succeeded at each step.
  pub bind-ok {κ ι} :
      {A : Type κ} {B : Type ι} (m : Result E A) (f : A → Result E B) {b : B}
      → (m >>= f) ≡ ok b
      → (a : A) × (m ≡ ok a) × (f a ≡ ok b)
  bind-ok (ok a) f h = (a, refl, h)
  bind-ok (err e) f h = cc

  pub guard-ok {ι} :
      {B : Type ι} (passes : Bool) (e : E) (k : Result E B) {b : B}
      → (guard passes e >> k) ≡ ok b
      → (passes ≡ true) × (k ≡ ok b)
  guard-ok true e k h = (refl, h)
  guard-ok false e k h = cc

  -- `xs.map(f)` where `f` may throw.
  pub traverse {κ ι} : {A : Type κ} {B : Type ι} → (A → Result E B) → List A → Result E (List B)
  traverse f [] = ok []
  traverse f (x ∷ xs) = f x >>= λ y. traverse f xs >>= λ ys. ok (y ∷ ys)
