-- ===== src/Base/Uuid.antt =====
-- The two UUID patterns of the source, each a list of one class for each place, under the flag `i`.
use la_muni_rag.Base.Tests.{◌==◌, and→both}
use la_muni_rag.Base.Text.{Text, between, lower, matches}
use Prim.Native.Nat.{ℕ}
use mathlib.Core.Path.{◌≡◌, refl}
use mathlib.Core.Bool.{Bool, true, ◌||◌}
use mathlib.Core.List.{List, [], ◌∷◌, ◌++◌, map}
use native.Mathlib.Omega.{arith}

-- `[0-9a-f]`, `-`, `[1-5]` and `[89ab]`.
pub data Place : Type 0 where
  hex dash version variant : Place

unfoldable pub is_place : Place → ℕ → Bool
is_place hex c = between b'0' b'9' c || between b'a' b'f' c || between b'A' b'F' c
is_place dash c = c == b'-'
is_place version c = between b'1' b'5' c
is_place variant c = between b'8' b'9' c || between b'a' b'b' c || between b'A' b'B' c

-- `pattern.test(value)` for a pattern that starts with `^` and ends with `$`.
unfoldable pub fits : List Place → Text → Bool
unfolding matches
fits places value = matches (map is_place places) value

abbrev hex4 : List Place
hex4 = hex ∷ hex ∷ hex ∷ hex ∷ []

abbrev hex8 : List Place
hex8 = hex ∷ hex ∷ hex ∷ hex ∷ hex4

-- `/^[0-9a-f]{8}-[0-9a-f]{4}-[1-5][0-9a-f]{3}-[89ab][0-9a-f]{3}-[0-9a-f]{12}$/i`.
unfoldable pub versioned_uuid : List Place
versioned_uuid =
    hex8
    ++ dash ∷ hex4
    ++ dash ∷ version ∷ hex ∷ hex ∷ hex ∷ dash ∷ variant ∷ hex ∷ hex ∷ hex ∷ dash ∷ hex8
    ++ hex4

-- `/^[0-9a-f]{8}-[0-9a-f]{4}-[0-9a-f]{4}-[0-9a-f]{4}-[0-9a-f]{12}$/i`.
unfoldable pub plain_uuid : List Place
plain_uuid = hex8 ++ dash ∷ hex4 ++ dash ∷ hex4 ++ dash ∷ hex4 ++ dash ∷ hex8 ++ hex4

is_place-lower : (p : Place) (c : ℕ) → is_place p c ≡ true → is_place p (lower c) ≡ true
unfolding is_place lower
is_place-lower hex c h = ground arith
is_place-lower dash c h = ground arith
is_place-lower version c h = ground arith
is_place-lower variant c h = ground arith

-- Lower case keeps a text within its pattern.
pub fits-lower : (ps : List Place) (s : Text) → fits ps s ≡ true → fits ps (map lower s) ≡ true
unfolding fits
fits-lower [] [] h = refl
fits-lower [] (c ∷ s) h = cc
fits-lower (p ∷ ps) [] h = cc
fits-lower (p ∷ ps) (c ∷ s) h =
    let (here, rest) = and→both (is_place p c) (matches (map is_place ps) s) h in
    rw (is_place-lower p c here, fits-lower ps s rest)
