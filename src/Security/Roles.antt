-- ===== src/Security/Roles.antt =====
-- The roles and permissions of src/security/rbac.ts, in the order in which the source lists them.
use la_muni_rag.Base.{ℕ, ◌≡◌, refl, ap, Bool, true, some, List, [], ◌∷◌, ◌==◌, ==_iff, get_elem?}

pub data SecurityRole : Type 0 where
  platform_admin tenant_admin document_manager researcher procedure_author : SecurityRole
  procedure_reviewer procedure_approver case_operator viewer integration_client : SecurityRole

abbrev pub security_roles : List SecurityRole
security_roles =
    platform_admin ∷ tenant_admin ∷ document_manager ∷ researcher ∷ procedure_author
    ∷ procedure_reviewer ∷ procedure_approver ∷ case_operator ∷ viewer ∷ integration_client ∷ []

pub data SecurityPermission : Type 0 where
  platform_admin_all tenant_manage identity_manage source_read source_write : SecurityPermission
  document_read document_write document_ingest evidence_query procedure_read : SecurityPermission
  procedure_draft procedure_review procedure_approve case_read case_write : SecurityPermission
  audit_read integration_query : SecurityPermission

abbrev pub security_permissions : List SecurityPermission
security_permissions =
    platform_admin_all ∷ tenant_manage ∷ identity_manage ∷ source_read ∷ source_write
    ∷ document_read ∷ document_write ∷ document_ingest ∷ evidence_query ∷ procedure_read
    ∷ procedure_draft ∷ procedure_review ∷ procedure_approve ∷ case_read ∷ case_write ∷ audit_read
    ∷ integration_query ∷ []

-- The place in the list, by which two roles are compared.
role_index : SecurityRole → ℕ
role_index platform_admin = 0
role_index tenant_admin = 1
role_index document_manager = 2
role_index researcher = 3
role_index procedure_author = 4
role_index procedure_reviewer = 5
role_index procedure_approver = 6
role_index case_operator = 7
role_index viewer = 8
role_index integration_client = 9

unfoldable pub role_eq : SecurityRole → SecurityRole → Bool
unfolding role_index
role_eq a b = role_index a == role_index b

permission_index : SecurityPermission → ℕ
permission_index platform_admin_all = 0
permission_index tenant_manage = 1
permission_index identity_manage = 2
permission_index source_read = 3
permission_index source_write = 4
permission_index document_read = 5
permission_index document_write = 6
permission_index document_ingest = 7
permission_index evidence_query = 8
permission_index procedure_read = 9
permission_index procedure_draft = 10
permission_index procedure_review = 11
permission_index procedure_approve = 12
permission_index case_read = 13
permission_index case_write = 14
permission_index audit_read = 15
permission_index integration_query = 16

unfoldable pub permission_eq : SecurityPermission → SecurityPermission → Bool
unfolding permission_index
permission_eq a b = permission_index a == permission_index b

get_elem?-role_index : (r : SecurityRole) → get_elem? security_roles (role_index r) ≡ some r
unfolding role_index
get_elem?-role_index platform_admin = refl
get_elem?-role_index _ = refl

get_elem?-permission_index :
    (p : SecurityPermission) → get_elem? security_permissions (permission_index p) ≡ some p
unfolding permission_index
get_elem?-permission_index platform_admin_all = refl
get_elem?-permission_index _ = refl

pub role_eq→≡ : (a b : SecurityRole) → role_eq a b ≡ true → a ≡ b
unfolding role_eq
role_eq→≡ a b h =
    let e : role_index a ≡ role_index b = (==_iff _ _).0 h in
    cc (get_elem?-role_index a, get_elem?-role_index b, ap (get_elem? security_roles) e)

pub role_eq_refl : (r : SecurityRole) → role_eq r r ≡ true
unfolding role_eq
role_eq_refl r = (==_iff _ _).1 refl

pub permission_eq→≡ : (a b : SecurityPermission) → permission_eq a b ≡ true → a ≡ b
unfolding permission_eq
permission_eq→≡ a b h =
    let e : permission_index a ≡ permission_index b = (==_iff _ _).0 h in
    cc (
      get_elem?-permission_index a,
      get_elem?-permission_index b,
      ap (get_elem? security_permissions) e,
    )

pub permission_eq_refl : (p : SecurityPermission) → permission_eq p p ≡ true
unfolding permission_eq
permission_eq_refl p = (==_iff _ _).1 refl
