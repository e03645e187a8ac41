-- ===== src/Security/Tests.antt =====
-- The theorems of src/security at concrete inputs.
use la_muni_rag.Base.{
  ℕ, ◌≡◌, refl, ◌↔◌, true, Option, none, some, [], ◌∷◌, map, any, ◌==◌, Result, ok, err,
  if◌then◌else◌, arith,
}
use la_muni_rag.Base.Text.{Text, codes, lower, text_eq, trim, is_space}
use la_muni_rag.Base.Uuid.{is_place}
use la_muni_rag.Security.Roles.{
  viewer, procedure_approver, procedure_approve, case_read, permission_eq, role_eq,
}
use la_muni_rag.Security.Rbac.{
  AuthenticatedPrincipal, permissions_for_roles, require_permission, access_denied,
}
use la_muni_rag.Security.Rbac.Laws.{role_grants, permissions_for_roles-role_grants}
use la_muni_rag.Security.Tenant.{
  is_canonical_uuid, tenant_ids_equal, Call, begin, set_tenant, operation, commit, rollback,
  to_pool, transaction, in_tenant, run_operation, commit_work, roll_back,
}
use la_muni_rag.Security.Tenant.Bytes.{tenant_ids_equal_iff}
use la_muni_rag.Security.Tenant.Trace.{transaction-ok_iff, RolledBack, transaction-err}
use la_muni_rag.Security.Auth.{
  single, is_token_char, skip_spaces, bearer_group, checked_token, parse_bearer_credential,
  role_name, find_role, is_security_role, CredentialPrincipalRecord, valid_roles, distinct_roles,
  admit, authenticate_bearer,
}
use la_muni_rag.Security.Auth.Laws.{
  IsAuthentic, authenticate_bearer-IsAuthentic, authenticate_bearer-approve,
}
use la_muni_rag.Security.Auth.Approving.{is_approving}
use la_muni_rag.Security.Auth.Parse.{bearer_header, parse_bearer_credential-bearer_header}

permissions_for_roles-role_grants_example :
    any (permission_eq case_read) (permissions_for_roles (procedure_approver ∷ viewer ∷ []))
    ≡ any (λ r. role_grants r case_read) (procedure_approver ∷ viewer ∷ [])
permissions_for_roles-role_grants_example =
    permissions_for_roles-role_grants (procedure_approver ∷ viewer ∷ []) case_read

abbrev uuid : Text
uuid = codes "11111111-1111-4111-8111-11111111111a"

abbrev clerk : AuthenticatedPrincipal
clerk = record {
  credential_id = uuid;
  tenant_id = uuid;
  principal_id = uuid;
  roles = viewer ∷ procedure_approver ∷ [];
  permissions = permissions_for_roles (viewer ∷ procedure_approver ∷ []);
}

tenant_ids_equal_iff_example :
    (tenant_ids_equal uuid (codes "11111111-1111-4111-8111-11111111111A") ≡ true) ↔ (
      (is_canonical_uuid uuid ≡ true)
      × (is_canonical_uuid (codes "11111111-1111-4111-8111-11111111111A") ≡ true)
      × (map lower uuid ≡ map lower (codes "11111111-1111-4111-8111-11111111111A")))
tenant_ids_equal_iff_example =
    tenant_ids_equal_iff uuid (codes "11111111-1111-4111-8111-11111111111A")

-- A database on which the commit fails, and then the rollback.
abbrev failing : Call → Option ℕ
failing commit = some 1
failing rollback = some 2
failing _ = none

abbrev quiet : Call → Option ℕ
quiet c = none

transaction-ok_iff_example :
    (transaction {E = ℕ} {T = ℕ} quiet (ok 7) (λ e. true) uuid ≡ record {
      calls = begin ∷ set_tenant (map lower uuid) ∷ operation ∷ commit ∷ [];
      released = to_pool;
      outcome = ok 7;
    })
    ↔ ((transaction {E = ℕ} {T = ℕ} quiet (ok 7) (λ e. true) uuid).outcome ≡ ok 7)
transaction-ok_iff_example = transaction-ok_iff {E = ℕ} {T = ℕ} quiet (ok 7) (λ e. true) uuid 7

transaction-err_example : RolledBack {E = ℕ} {T = ℕ} failing (ok 7) (λ e. e == 1) uuid
unfolding transaction in_tenant run_operation commit_work roll_back
transaction-err_example = transaction-err {E = ℕ} {T = ℕ} failing (ok 7) (λ e. e == 1) uuid 1 refl

abbrev token : Text
token = codes "abcdefghijklmnopqrstuvwxyz0123456789"

parse_bearer_credential-bearer_header_example :
    parse_bearer_credential (single (bearer_header token)) ≡ some token
unfolding is_token_char
parse_bearer_credential-bearer_header_example =
    parse_bearer_credential-bearer_header token (omega arith) (omega arith) refl

abbrev stored : CredentialPrincipalRecord
stored = record {
  credential_id = uuid;
  tenant_id = uuid;
  principal_id = uuid;
  roles = codes "viewer" ∷ codes "procedure_approver" ∷ codes "viewer" ∷ [];
}

abbrev store : Text → Result ℕ (Option CredentialPrincipalRecord)
store digest = ok (some stored)

abbrev digest_of : Text → Text
digest_of t = t

authenticated :
    authenticate_bearer digest_of store
      (single (codes "bearer  abcdefghijklmnopqrstuvwxyz0123456789 "))
    ≡ ok clerk
unfolding authenticate_bearer parse_bearer_credential bearer_group checked_token skip_spaces
    is_token_char trim is_space text_eq lower admit is_canonical_uuid is_place valid_roles
    is_security_role find_role role_name distinct_roles role_eq
authenticated = refl

authenticate_bearer-IsAuthentic_example :
    IsAuthentic digest_of store
      (single (codes "bearer  abcdefghijklmnopqrstuvwxyz0123456789 "))
      clerk
authenticate_bearer-IsAuthentic_example =
    authenticate_bearer-IsAuthentic digest_of store
      (single (codes "bearer  abcdefghijklmnopqrstuvwxyz0123456789 ")) clerk authenticated

authenticate_bearer-approve_example :
    (t : Text) × (found : CredentialPrincipalRecord) × (parse_bearer_credential
        (single (codes "bearer  abcdefghijklmnopqrstuvwxyz0123456789 "))
      ≡ some t)
    × (store (digest_of t) ≡ ok (some found))
    × (require_permission clerk procedure_approve
        ≡ (if any is_approving found.roles then ok tt else err access_denied))
authenticate_bearer-approve_example =
    authenticate_bearer-approve digest_of store
      (single (codes "bearer  abcdefghijklmnopqrstuvwxyz0123456789 ")) clerk authenticated
