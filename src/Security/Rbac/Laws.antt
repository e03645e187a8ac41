-- ===== src/Security/Rbac/Laws.antt =====
-- What src/security/rbac.ts grants: `permissionsForRoles` against the table, for every list of
-- roles.
use mathlib.Core.Bool.{or_assoc, or-false, and-true, and-false, ◌&&◌}
use la_muni_rag.Base.{
  ◌≡◌, refl, sym, ap, ◌∙◌, inl, inr, Bool, true, ◌||◌, List, [], ◌∷◌, ◌++◌, keep, any, arith, ok,
  err, Bool-cases, if◌then◌else◌,
}
use la_muni_rag.Security.Roles.{
  SecurityRole, platform_admin, procedure_approver, role_eq, SecurityPermission, platform_admin_all,
  procedure_approve, permission_eq, permission_eq→≡, security_permissions,
}
use la_muni_rag.Security.Rbac.{
  AuthenticatedPrincipal, role_permissions, granted_has, granted_add, grant_all, grant_roles,
  permissions_for_roles, has_permission, require_permission, access_denied,
}

pub any-append {ℓ} :
    {A : Type ℓ} (t : A → Bool) (xs ys : List A) → any t (xs ++ ys) ≡ (any t xs || any t ys)
any-append t [] ys = refl
any-append t (x ∷ xs) ys = ground (arith, any-append t xs ys)

granted_has-granted_add :
    (g : List SecurityPermission) (p q : SecurityPermission)
    → granted_has (granted_add g p) q ≡ (granted_has g q || permission_eq q p)
unfolding granted_has granted_add
granted_has-granted_add g p q = elim (Bool-cases (any (permission_eq p) g)) [
  | inl old ↦ elim (Bool-cases (permission_eq q p)) [
    | inl same ↦ let e = permission_eq→≡ q p same in rw old (rw (same, e, old) refl)
    | inr other ↦ ground arith
  ]
  | inr new ↦ rw new (rw (any-append (permission_eq q) g (p ∷ [])) ground arith)
]

granted_has-grant_all :
    (g ps : List SecurityPermission) (q : SecurityPermission)
    → granted_has (grant_all g ps) q ≡ (granted_has g q || any (permission_eq q) ps)
unfolding grant_all
granted_has-grant_all g [] q = sym (or-false _)
granted_has-grant_all g (p ∷ ps) q =
    granted_has-grant_all (granted_add g p) ps q
    ∙ ap (λ b. b || any (permission_eq q) ps) (granted_has-granted_add g p q)
    ∙ or_assoc (granted_has g q) (permission_eq q p) (any (permission_eq q) ps)

-- Whether the table gives a role a permission.
abbrev pub role_grants : SecurityRole → SecurityPermission → Bool
role_grants r p = any (permission_eq p) (role_permissions r)

granted_has-grant_roles :
    (g : List SecurityPermission) (rs : List SecurityRole) (q : SecurityPermission)
    → granted_has (grant_roles g rs) q ≡ (granted_has g q || any (λ r. role_grants r q) rs)
unfolding grant_roles
granted_has-grant_roles g [] q = sym (or-false _)
granted_has-grant_roles g (r ∷ rs) q =
    granted_has-grant_roles (grant_all g (role_permissions r)) rs q
    ∙ ap (λ b. b || any (λ r. role_grants r q) rs) (granted_has-grant_all g (role_permissions r) q)
    ∙ or_assoc (granted_has g q) (role_grants r q) (any (λ r. role_grants r q) rs)

any-keep :
    (f : SecurityPermission → Bool) (ps : List SecurityPermission) (q : SecurityPermission)
    → any (permission_eq q) (keep f ps) ≡ (f q && any (permission_eq q) ps)
any-keep f [] q = sym (and-false _)
any-keep f (p ∷ ps) q = elim (Bool-cases (permission_eq q p)) [
  | inl same ↦
      let e = permission_eq→≡ q p same in
      let e' : f p ≡ f q = ap f (sym e) in ground (arith, any-keep f ps q)
  | inr other ↦ ground (arith, any-keep f ps q)
]

listed : (q : SecurityPermission) → any (permission_eq q) security_permissions ≡ true
unfolding permission_eq
listed platform_admin_all = refl
listed _ = refl

-- The permissions of a list of roles contain exactly what the table gives one of the roles.
pub permissions_for_roles-role_grants :
    (rs : List SecurityRole) (p : SecurityPermission)
    → any (permission_eq p) (permissions_for_roles rs) ≡ any (λ r. role_grants r p) rs
unfolding permissions_for_roles granted_has
permissions_for_roles-role_grants rs p =
    any-keep (granted_has (grant_roles [] rs)) security_permissions p
    ∙ ap (λ b. granted_has (grant_roles [] rs) p && b) (listed p)
    ∙ and-true _
    ∙ granted_has-grant_roles [] rs p

keep-ext :
    (f g : SecurityPermission → Bool) (ps : List SecurityPermission)
    → ((p : SecurityPermission) → f p ≡ g p)
    → keep f ps ≡ keep g ps
keep-ext f g [] h = refl
keep-ext f g (p ∷ ps) h = rw (h p, keep-ext f g ps h)

-- The list of permissions depends on the roles only through what they grant: neither their order
-- nor a repetition shows in it.
pub permissions_for_roles_ext :
    (rs ss : List SecurityRole)
    → ((p : SecurityPermission) → any (λ r. role_grants r p) rs ≡ any (λ r. role_grants r p) ss)
    → permissions_for_roles rs ≡ permissions_for_roles ss
unfolding permissions_for_roles granted_has
permissions_for_roles_ext rs ss h =
    keep-ext (granted_has (grant_roles [] rs)) (granted_has (grant_roles [] ss))
      security_permissions
      λ p. granted_has-grant_roles [] rs p ∙ h p ∙ sym (granted_has-grant_roles [] ss p)

approve_grants :
    (r : SecurityRole)
    → role_grants r procedure_approve ≡ (role_eq r platform_admin || role_eq r procedure_approver)
unfolding role_permissions role_eq permission_eq
approve_grants platform_admin = refl
approve_grants _ = refl

any-ext {ℓ} :
    {A : Type ℓ} (f g : A → Bool) (xs : List A) → ((x : A) → f x ≡ g x) → any f xs ≡ any g xs
any-ext f g [] h = refl
any-ext f g (x ∷ xs) h = rw (h x, any-ext f g xs h)

has_permission_roles :
    (principal : AuthenticatedPrincipal)
    → principal.permissions ≡ permissions_for_roles principal.roles
    → (p : SecurityPermission)
    → has_permission principal p ≡ any (λ r. role_grants r p) principal.roles
unfolding has_permission
has_permission_roles principal derived p =
    ap (any (permission_eq p)) derived ∙ permissions_for_roles-role_grants principal.roles p

-- A principal whose permissions were derived from its roles passes the guard for approving a
-- procedure exactly when one of its roles is platform administrator or procedure approver, and is
-- refused with 403 `forbidden` otherwise.
pub require_permission-approve :
    (principal : AuthenticatedPrincipal)
    → principal.permissions ≡ permissions_for_roles principal.roles
    → require_permission principal procedure_approve ≡ (
        if any (λ r. role_eq r platform_admin || role_eq r procedure_approver) principal.roles
        then ok tt
        else err access_denied)
unfolding require_permission
require_permission-approve principal derived =
    let e : has_permission principal procedure_approve
        ≡ any (λ r. role_eq r platform_admin || role_eq r procedure_approver) principal.roles =
      has_permission_roles principal derived procedure_approve
      ∙ any-ext _ _ principal.roles approve_grants in
    ground (arith, e)
