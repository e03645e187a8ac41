-- ===== src/Security/Auth/Approving.antt =====
-- The roles of a principal of src/security/auth.ts that may approve a procedure.
use mathlib.Core.Path.{subst}
use mathlib.Core.Bool.{◌||◌}
use la_muni_rag.Base.{
  ◌≡◌, refl, sym, ap, ◌∙◌, inl, inr, Bool, true, false, some, List, [], ◌∷◌, ◌++◌, any, all, arith,
  Option-cases, Bool-cases, and→both, if◌then◌else◌,
}
use la_muni_rag.Base.Text.{Text, codes, text_eq, text_eq_iff}
use la_muni_rag.Security.Roles.{
  SecurityRole, platform_admin, procedure_approver, security_roles, role_eq, role_eq→≡,
}
use la_muni_rag.Security.Rbac.Laws.{any-append}
use la_muni_rag.Security.Auth.{role_name, find_role, is_security_role, valid_roles, distinct_roles}

-- The names of the roles that may approve a procedure.
abbrev pub is_approving : Text → Bool
is_approving name =
    text_eq name (codes "platform_admin") || text_eq name (codes "procedure_approver")

role_name-is_approving :
    (r : SecurityRole)
    → (role_eq r platform_admin || role_eq r procedure_approver) ≡ is_approving (role_name r)
unfolding role_eq role_name text_eq
role_name-is_approving platform_admin = refl
role_name-is_approving _ = refl

find_role-role_name :
    (name : Text) (rs : List SecurityRole) (r : SecurityRole)
    → find_role name rs ≡ some r
    → role_name r ≡ name
unfolding find_role
find_role-role_name name [] r h = cc h
find_role-role_name name (s ∷ rs) r h = elim (Bool-cases (text_eq (role_name s) name)) [
  | inl hit ↦
      let same : s ≡ r = ground (arith, h, hit) in
      ap role_name (sym same) ∙ (text_eq_iff (role_name s) name).0 hit
  | inr miss ↦ find_role-role_name name rs r (ground (arith, h, miss))
]

any-role_eq :
    (t : SecurityRole → Bool) (r : SecurityRole) (seen : List SecurityRole)
    → any (role_eq r) seen ≡ true
    → t r ≡ true
    → any t seen ≡ true
any-role_eq t r [] h k = cc h
any-role_eq t r (s ∷ seen) h k = elim (Bool-cases (role_eq r s)) [
  | inl eq' ↦ let same : t s ≡ true = subst (λ x. t x ≡ true) (role_eq→≡ r s eq') k in rw same refl
  | inr ne' ↦ let rest = any-role_eq t r seen (ground (arith, h, ne')) k in ground (arith, rest)
]

abbrev pub approving : SecurityRole → Bool
approving r = role_eq r platform_admin || role_eq r procedure_approver

or_false : (b : Bool) → (b || false) ≡ b
or_false true = refl
or_false false = refl

or_assoc : (a b c : Bool) → ((a || b) || c) ≡ (a || (b || c))
or_assoc true b c = refl
or_assoc false b c = refl

absorbed : (a b : Bool) → (b ≡ true → a ≡ true) → a ≡ (a || b)
absorbed true b h = refl
absorbed false true h = h refl
absorbed false false h = refl

approving_seen :
    (r : SecurityRole) (seen : List SecurityRole)
    → any approving (if any (role_eq r) seen then seen else seen ++ r ∷ [])
      ≡ (any approving seen || approving r)
approving_seen r seen = elim (Bool-cases (any (role_eq r) seen)) [
  | inr new ↦ rw new (
      any-append approving seen (r ∷ [])
      ∙ ap (λ b. any approving seen || b) (or_false (approving r)))
  | inl old ↦
      rw old (absorbed (any approving seen) (approving r) (any-role_eq approving r seen old))
]

-- What the distinct roles may do, by the names that are stored.
any-distinct_roles :
    (seen : List SecurityRole) (names : List Text)
    → all is_security_role names ≡ true
    → any approving (distinct_roles seen names) ≡ (any approving seen || any is_approving names)
unfolding distinct_roles is_security_role
any-distinct_roles seen [] h = sym (or_false (any approving seen))
any-distinct_roles seen (n ∷ ns) h = elim (Option-cases (find_role n security_roles)) [
  | inl unknown ↦ absurd (ground (arith, h, unknown))
  | inr (r, known) ↦
      let name = find_role-role_name n security_roles r known in
      let rest =
        any-distinct_roles (if any (role_eq r) seen then seen else seen ++ r ∷ []) ns
          (ground (arith, h)) in
      let last : approving r ≡ is_approving n = role_name-is_approving r ∙ ap is_approving name in
      let step = approving_seen r seen in
      rw (distinct_roles, known)
        (rest
          ∙ ap (λ b. b || any is_approving ns) (step ∙ ap (λ b. any approving seen || b) last)
          ∙ or_assoc (any approving seen) (is_approving n) (any is_approving ns))
]

pub distinct_roles-is_approving :
    (names : List Text)
    → valid_roles names ≡ true
    → any approving (distinct_roles [] names) ≡ any is_approving names
unfolding valid_roles
distinct_roles-is_approving names h = any-distinct_roles [] names (and→both _ _ h).1
