-- ===== src/Base/Sort.antt =====
-- `Array.prototype.sort` with a comparator: the stable sort, here by insertion. `before a b` says that
-- the comparator is negative at (a, b).
use Prim.Native.Nat.{suc}
use mathlib.Core.Path.{◌≡◌, refl}
use mathlib.Core.Logic.{inl, inr}
use mathlib.Core.Bool.{Bool, true, false, ◌||◌}
use mathlib.Core.List.{List, [], ◌∷◌}
use native.Mathlib.Omega.{arith}
use la_muni_rag.Base.Tests.{if◌then◌else◌, Bool-cases}
use la_muni_rag.Base.Lists.{length, All, any, keep}

module _ {A : Type 0} (before : A → A → Bool) where
  unfoldable pub insert_sorted : A → List A → List A
  insert_sorted x [] = x ∷ []
  insert_sorted x (y ∷ ys) = if before y x then y ∷ insert_sorted x ys else x ∷ y ∷ ys

  unfoldable pub sort : List A → List A
  sort [] = []
  sort (x ∷ xs) = insert_sorted x (sort xs)

  -- No later element comes before an earlier one.
  abbrev pub IsSorted : List A → Type 0
  IsSorted [] = Unit
  IsSorted (x ∷ xs) = All (λ y. before y x ≡ false) xs × IsSorted xs

  length-insert_sorted : (x : A) (ys : List A) → length (insert_sorted x ys) ≡ suc (length ys)
  unfolding insert_sorted
  length-insert_sorted x [] = refl
  length-insert_sorted x (y ∷ ys) = ground (arith, length-insert_sorted x ys)

  any-insert_sorted :
      (t : A → Bool) (x : A) (ys : List A) → any t (insert_sorted x ys) ≡ (t x || any t ys)
  unfolding insert_sorted
  any-insert_sorted t x [] = refl
  any-insert_sorted t x (y ∷ ys) = ground (arith, any-insert_sorted t x ys)

  pub length-sort : (xs : List A) → length (sort xs) ≡ length xs
  unfolding sort
  length-sort [] = refl
  length-sort (x ∷ xs) = omega (arith, length-insert_sorted x (sort xs), length-sort xs)

  -- A test holds of some element of the sorted list exactly when it holds of some element given.
  pub any-sort : (t : A → Bool) (xs : List A) → any t (sort xs) ≡ any t xs
  unfolding sort
  any-sort t [] = refl
  any-sort t (x ∷ xs) = ground (arith, any-insert_sorted t x (sort xs), any-sort t xs)

  keep-insert_sorted :
      (t : A → Bool) (x : A) (ys : List A)
      → length (keep t (insert_sorted x ys)) ≡ length (keep t (x ∷ ys))
  unfolding insert_sorted
  keep-insert_sorted t x [] = refl
  keep-insert_sorted t x (y ∷ ys) = ground (arith, keep-insert_sorted t x ys)

  -- As many elements of the sorted list satisfy a test as of the list given.
  pub keep-sort : (t : A → Bool) (xs : List A) → length (keep t (sort xs)) ≡ length (keep t xs)
  unfolding sort
  keep-sort t [] = refl
  keep-sort t (x ∷ xs) = ground (arith, keep-insert_sorted t x (sort xs), keep-sort t xs)

  module _ (P : A → Type 0) where
    All-insert : (x : A) (ys : List A) → P x → All P ys → All P (insert_sorted x ys)
    unfolding insert_sorted
    All-insert x [] px ps = (px, tt)
    All-insert x (y ∷ ys) px (py, ps) = ground (arith, All-insert x ys px ps)

    pub All-sort : (xs : List A) → All P xs → All P (sort xs)
    unfolding sort
    All-sort [] ps = tt
    All-sort (x ∷ xs) (px, ps) = All-insert x (sort xs) px (All-sort xs ps)

  -- A comparison that never holds both ways and whose failure is transitive, among the elements
  -- that satisfy `P`.
  module _ (P : A → Type 0) (asym : (a b : A) → P a → P b → before a b ≡ true → before b a ≡ false)
      (trans : (a b c : A)
        → P a
        → P b
        → P c
        → before a b ≡ false
        → before b c ≡ false
        → before a c ≡ false) where
    All-insert_sorted :
        (y x : A) (ys : List A)
        → before x y ≡ false
        → All (λ z. before z y ≡ false) ys
        → All (λ z. before z y ≡ false) (insert_sorted x ys)
    unfolding insert_sorted
    All-insert_sorted y x [] p h = (p, tt)
    All-insert_sorted y x (z ∷ zs) p (q, h) = ground (arith, All-insert_sorted y x zs p h)

    All-below :
        (x y : A) (ys : List A)
        → P x
        → P y
        → All P ys
        → before y x ≡ false
        → All (λ z. before z y ≡ false) ys
        → All (λ z. before z x ≡ false) ys
    All-below x y [] px py ps q h = tt
    All-below x y (z ∷ zs) px py (pz, ps) q (r, h) =
        (trans z y x pz py px r q, All-below x y zs px py ps q h)

    insert_sorted-IsSorted :
        (x : A) (ys : List A) → P x → All P ys → IsSorted ys → IsSorted (insert_sorted x ys)
    unfolding insert_sorted
    insert_sorted-IsSorted x [] px ps h = (tt, tt)
    insert_sorted-IsSorted x (y ∷ ys) px (py, ps) (below, h) = elim (Bool-cases (before y x)) [
      | inl first ↦ rw first (
        All-insert_sorted y x ys (asym y x py px first) below,
        insert_sorted-IsSorted x ys px ps h,
      )
      | inr later ↦ rw later ((later, All-below x y ys px py ps later below), (below, h))
    ]

    pub sort-IsSorted : (xs : List A) → All P xs → IsSorted (sort xs)
    unfolding sort
    sort-IsSorted [] ps = tt
    sort-IsSorted (x ∷ xs) (px, ps) =
        insert_sorted-IsSorted x (sort xs) px (All-sort P xs ps) (sort-IsSorted xs ps)
