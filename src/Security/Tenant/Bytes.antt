-- ===== src/Security/Tenant/Bytes.antt =====
-- `tenantIdsEqual` of src/security/tenant.ts compares decoded bytes; here that comparison is
-- taken back to the texts.
use Prim.Native.Nat.{zero, suc}
use la_muni_rag.Base.{
  ℕ, ◌+◌, ◌*◌, ◌≡◌, refl, sym, ap, ◌∙◌, ◌↔◌, Bool, true, false, ◌||◌, ◌<◌, List, [], ◌∷◌, map,
  length, ◌==◌, ==_iff, arith, All,
}
use la_muni_rag.Base.Text.{Text, text_eq, text_eq_iff, between, lower}
use la_muni_rag.Base.Uuid.{Place, hex, dash, version, variant, is_place, fits, plain_uuid}
use la_muni_rag.Security.Tenant.{
  is_canonical_uuid, strip_dashes, nibble, hex_bytes, uuid_bytes, tenant_ids_equal,
}

-- A lower-case hexadecimal digit.
abbrev is_digit : ℕ → Bool
is_digit c = between b'0' b'9' c || between b'a' b'f' c

-- The number of digits that a pattern asks for.
abbrev digits : List Place → ℕ
digits [] = 0
digits (dash ∷ ps) = digits ps
digits (hex ∷ ps) = suc (digits ps)
digits (version ∷ ps) = suc (digits ps)
digits (variant ∷ ps) = suc (digits ps)

-- A place for a digit does not take a dash, and lower case makes a lower-case digit of what it takes.
abbrev is_dash_place : Place → Bool
is_dash_place dash = true
is_dash_place _ = false

digit_place :
    (p : Place) (c : ℕ)
    → is_dash_place p ≡ false
    → is_place p c ≡ true
    → ((c == b'-') ≡ false) × ((lower c == b'-') ≡ false) × (is_digit (lower c) ≡ true)
unfolding is_place lower
digit_place dash c k h = cc
digit_place hex c k h = ground arith
digit_place version c k h = ground arith
digit_place variant c k h = ground arith

nibble-injective : (c d : ℕ) → is_digit c ≡ true → is_digit d ≡ true → nibble c ≡ nibble d → c ≡ d
unfolding nibble
nibble-injective c d hc hd e = ground arith

nibble-lt : (c : ℕ) → is_digit c ≡ true → nibble c < 16
unfolding nibble
nibble-lt c h = ground arith

byte-injective :
    (a b c d : ℕ)
    → is_digit a ≡ true
    → is_digit b ≡ true
    → is_digit c ≡ true
    → is_digit d ≡ true
    → 16 * nibble a + nibble b ≡ 16 * nibble c + nibble d
    → (a ≡ c) × (b ≡ d)
byte-injective a b c d ha hb hc hd e =
    let x = nibble-lt b hb in
    let y = nibble-lt d hd in
    (nibble-injective a c ha hc (omega arith), nibble-injective b d hb hd (omega arith))

abbrev AllDigits : Text → Type 0
AllDigits = All (λ c. is_digit c ≡ true)

hex_bytes-injective :
    (n : ℕ) (s t : Text)
    → length s ≡ n + n
    → length t ≡ n + n
    → AllDigits s
    → AllDigits t
    → hex_bytes s ≡ hex_bytes t
    → s ≡ t
unfolding hex_bytes
hex_bytes-injective n [] [] p q u v e = refl
hex_bytes-injective n [] (b ∷ t) p q u v e = absurd (omega arith)
hex_bytes-injective n (a ∷ s) [] p q u v e = absurd (omega arith)
hex_bytes-injective n (a ∷ []) (c ∷ t) p q u v e = absurd (omega arith)
hex_bytes-injective n (a ∷ b ∷ s) (c ∷ []) p q u v e = absurd (omega arith)
hex_bytes-injective zero (a ∷ b ∷ s) (c ∷ d ∷ t) p q u v e = absurd (omega arith)
hex_bytes-injective (suc n) (a ∷ b ∷ s) (c ∷ d ∷ t) p q (ua, (ub, us)) (vc, (vd, vt)) e =
    let (x, y) = byte-injective a b c d ua ub vc vd (ground arith) in
    cc (x, y, hex_bytes-injective n s t (omega arith) (omega arith) us vt (ground arith))

-- What the dashless lower-case form of a matching text is like.
stripped :
    (ps : List Place) (s : Text)
    → fits ps s ≡ true
    → (length (map lower (strip_dashes s)) ≡ digits ps) × AllDigits (map lower (strip_dashes s))
unfolding fits strip_dashes is_place
stripped [] [] h = (refl, tt)
stripped [] (c ∷ s) h = cc
stripped (p ∷ ps) [] h = cc
stripped (dash ∷ ps) (c ∷ s) h = ground (arith, stripped ps s)
stripped (hex ∷ ps) (c ∷ s) h = ground (arith, stripped ps s, digit_place hex c)
stripped (version ∷ ps) (c ∷ s) h = ground (arith, stripped ps s, digit_place version c)
stripped (variant ∷ ps) (c ∷ s) h = ground (arith, stripped ps s, digit_place variant c)

-- Two matching texts are equal if their digits are.
strip-injective :
    (ps : List Place) (s t : Text)
    → fits ps s ≡ true
    → fits ps t ≡ true
    → map lower (strip_dashes s) ≡ map lower (strip_dashes t)
    → map lower s ≡ map lower t
unfolding fits strip_dashes is_place lower
strip-injective [] [] [] h k e = refl
strip-injective [] [] (d ∷ t) h k e = cc
strip-injective [] (c ∷ s) t h k e = cc
strip-injective (p ∷ ps) [] t h k e = cc
strip-injective (p ∷ ps) (c ∷ s) [] h k e = cc
strip-injective (dash ∷ ps) (c ∷ s) (d ∷ t) h k e = ground (arith, strip-injective ps s t)
strip-injective (hex ∷ ps) (c ∷ s) (d ∷ t) h k e = ground (arith, strip-injective ps s t)
strip-injective (version ∷ ps) (c ∷ s) (d ∷ t) h k e = ground (arith, strip-injective ps s t)
strip-injective (variant ∷ ps) (c ∷ s) (d ∷ t) h k e = ground (arith, strip-injective ps s t)

strip-fits : (s : Text) → fits plain_uuid s ≡ true → length (map lower (strip_dashes s)) ≡ 32
unfolding plain_uuid
strip-fits s h = (stripped _ s h).0

uuid_bytes-injective :
    (s t : Text)
    → fits plain_uuid s ≡ true
    → fits plain_uuid t ≡ true
    → uuid_bytes s ≡ uuid_bytes t
    → map lower s ≡ map lower t
unfolding uuid_bytes
uuid_bytes-injective s t h k e = strip-injective plain_uuid s t h k (
    hex_bytes-injective 16 (map lower (strip_dashes s)) (map lower (strip_dashes t))
      (strip-fits s h) (strip-fits t k) (stripped plain_uuid s h).1 (stripped plain_uuid t k).1 e)

strip-lower : (s : Text) → map lower (strip_dashes s) ≡ strip_dashes (map lower s)
unfolding strip_dashes lower
strip-lower [] = refl
strip-lower (c ∷ s) = ground (arith, strip-lower s)

uuid_bytes-lower : (s t : Text) → map lower s ≡ map lower t → uuid_bytes s ≡ uuid_bytes t
unfolding uuid_bytes
uuid_bytes-lower s t e = ap hex_bytes (strip-lower s ∙ ap strip_dashes e ∙ sym (strip-lower t))

canonical-fits : (s : Text) → is_canonical_uuid s ≡ true → fits plain_uuid s ≡ true
unfolding is_canonical_uuid
canonical-fits s h = h

tests_of :
    (a b : Text)
    → tenant_ids_equal a b ≡ true
    → (is_canonical_uuid a ≡ true)
      × (is_canonical_uuid b ≡ true)
      × (text_eq (uuid_bytes a) (uuid_bytes b) ≡ true)
unfolding tenant_ids_equal
tests_of a b h = ground arith

tenant_ids_equal→ :
    (a b : Text)
    → tenant_ids_equal a b ≡ true
    → (is_canonical_uuid a ≡ true) × (is_canonical_uuid b ≡ true) × (map lower a ≡ map lower b)
tenant_ids_equal→ a b h =
    let (p, q, e) = tests_of a b h in
    (
      p,
      q,
      uuid_bytes-injective a b (canonical-fits a p) (canonical-fits b q) ((text_eq_iff _ _).0 e),
    )

→tenant_ids_equal :
    (a b : Text)
    → (is_canonical_uuid a ≡ true) × (is_canonical_uuid b ≡ true) × (map lower a ≡ map lower b)
    → tenant_ids_equal a b ≡ true
unfolding tenant_ids_equal
→tenant_ids_equal a b (p, q, e) =
    let same = uuid_bytes-lower a b e in
    ground (
      arith,
      text_eq_iff (uuid_bytes a) (uuid_bytes b),
      ap length same,
      ==_iff (length (uuid_bytes a)) (length (uuid_bytes b)),
    )

-- Two tenant identifiers are equal exactly when both are UUIDs and they differ at most in letter
-- case.
pub tenant_ids_equal_iff :
    (a b : Text)
    → (tenant_ids_equal a b ≡ true)
      ↔ ((is_canonical_uuid a ≡ true) × (is_canonical_uuid b ≡ true) × (map lower a ≡ map lower b))
tenant_ids_equal_iff a b = (tenant_ids_equal→ a b, →tenant_ids_equal a b)
