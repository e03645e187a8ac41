-- ===== src/Security/Auth/Parse.antt =====
-- The Authorization header of src/security/auth.ts: what a credential looks like, and that every
-- well-formed credential is read back from its header.
use mathlib.Core.List.{reverse, reverse-append, reverse-reverse}
use la_muni_rag.Base.{
  ℕ, ◌≡◌, refl, sym, ap, ◌∙◌, ◌≤◌, ◌<◌, true, false, not, Option, none, some, [], ◌∷◌, ◌++◌, all,
  length, ltb, arith, and→both, ◌==◌,
}
use la_muni_rag.Base.Text.{Text, codes, is_space, trim_start, trim, text_eq, lower}
use la_muni_rag.Security.Auth.{
  Header, absent, single, several, is_token_char, skip_spaces, bearer_group, checked_token,
  parse_bearer_credential,
}

checked_token-bounds :
    (t u : Text)
    → checked_token t ≡ some u
    → (32 ≤ length u) × (length u ≤ 512) × (all is_token_char u ≡ true)
unfolding checked_token
checked_token-bounds t u h = ground arith

parse_single :
    (header u : Text) (g : Option Text)
    → bearer_group (trim header) ≡ g
    → parse_bearer_credential (single header) ≡ some u
    → (32 ≤ length u) × (length u ≤ 512) × (all is_token_char u ≡ true) × (length header ≤ 640)
unfolding parse_bearer_credential
parse_single header u none e h = ground arith
parse_single header u (some t) e h =
    let r : checked_token t ≡ some u = ground arith in ground (arith, checked_token-bounds t u r)

-- A parsed credential has from 32 to 512 characters, all of the token class.
pub parse_bearer_credential_bounds :
    (header : Header) (token : Text)
    → parse_bearer_credential header ≡ some token
    → (32 ≤ length token) × (length token ≤ 512) × (all is_token_char token ≡ true)
parse_bearer_credential_bounds absent token h = unfold parse_bearer_credential in cc
parse_bearer_credential_bounds (several hs) token h = unfold parse_bearer_credential in cc
parse_bearer_credential_bounds (single header) token h =
    let p = parse_single header token _ refl h in (p.0, p.1, p.2)

-- A text that is not empty, taken apart at its end.
last_of :
    (t : Text)
    → 0 < length t
    → all is_token_char t ≡ true
    → (u : Text) × (c : ℕ) × (t ≡ u ++ c ∷ []) × (is_token_char c ≡ true)
last_of [] n h = absurd (omega arith)
last_of (c ∷ []) n h = ([], c, refl, (and→both _ _ h).0)
last_of (c ∷ d ∷ t) n h =
    let (u, e, split, ok_e) = last_of (d ∷ t) (omega arith) (and→both _ _ h).1 in
    (c ∷ u, e, ap (λ s. c ∷ s) split, ok_e)

not_space : (c : ℕ) → is_token_char c ≡ true → (is_space c ≡ false) × ((c == 32) ≡ false)
unfolding is_token_char is_space
not_space c h = ground arith

trim_start_at : (c : ℕ) (s : Text) → is_space c ≡ false → trim_start (c ∷ s) ≡ c ∷ s
unfolding trim_start
trim_start_at c s h = rw h

reverse-snoc : (u : Text) (c : ℕ) → reverse (u ++ c ∷ []) ≡ c ∷ reverse u
reverse-snoc u c = reverse-append u (c ∷ [])

-- A text that starts and ends with something else than white space is not trimmed.
trim-fixed :
    (b : ℕ) (u : Text) (c : ℕ)
    → is_space b ≡ false
    → is_space c ≡ false
    → trim (b ∷ u ++ c ∷ []) ≡ b ∷ u ++ c ∷ []
unfolding trim
trim-fixed b u c hb hc =
    rw
      (
        trim_start_at b (u ++ c ∷ []) hb,
        reverse-snoc (b ∷ u) c,
        trim_start_at c (reverse (b ∷ u)) hc,
      )
      (ap reverse (sym (reverse-snoc (b ∷ u) c)) ∙ reverse-reverse (b ∷ u ++ c ∷ []))

-- `Bearer ` and the token.
abbrev pub bearer_header : Text → Text
bearer_header token = codes "Bearer " ++ token

trim-bearer_header :
    (t : Text)
    → 0 < length t
    → all is_token_char t ≡ true
    → trim (bearer_header t) ≡ bearer_header t
unfolding is_space
trim-bearer_header t n h =
    let (u, c, split, ok_c) = last_of t n h in
    rw split (trim-fixed b'B' (codes "earer " ++ u) c refl (not_space c ok_c).0)

no_space : (t : Text) → all is_token_char t ≡ true → all (λ c. not (c == 32)) t ≡ true
no_space [] h = refl
no_space (c ∷ t) h =
    let (here, rest) = and→both (is_token_char c) (all is_token_char t) h in
    rw ((not_space c here).1, no_space t rest)

bearer_group-header :
    (t : Text) → 0 < length t → all is_token_char t ≡ true → bearer_group (bearer_header t) ≡ some t
unfolding bearer_group skip_spaces text_eq lower
bearer_group-header [] n h = absurd (omega arith)
bearer_group-header (c ∷ t) n h =
    let first = not_space c (and→both (is_token_char c) (all is_token_char t) h).0 in
    let rest = no_space t (and→both (is_token_char c) (all is_token_char t) h).1 in
    ground (arith, first.1, rest)

checked_token-fixed :
    (t : Text)
    → 32 ≤ length t
    → length t ≤ 512
    → all is_token_char t ≡ true
    → checked_token t ≡ some t
unfolding checked_token
checked_token-fixed t lo hi h = ground arith

-- Every token of from 32 to 512 characters of the class is read back from the header `Bearer <token>`.
pub parse_bearer_credential-bearer_header :
    (t : Text)
    → 32 ≤ length t
    → length t ≤ 512
    → all is_token_char t ≡ true
    → parse_bearer_credential (single (bearer_header t)) ≡ some t
unfolding parse_bearer_credential
parse_bearer_credential-bearer_header t lo hi h =
    let n : 0 < length t = omega arith in
    let long : ltb 640 (length (bearer_header t)) ≡ false = ground arith in
    rw (long, trim-bearer_header t n h, bearer_group-header t n h, checked_token-fixed t lo hi h)
