-- ===== src/Security/Auth.antt =====
-- src/security/auth.ts and src/security/repository.ts: from an Authorization header to a
-- principal. The SHA-256 digest and the identity store are parameters.
pub mod Laws
pub mod Approving
pub mod Parse
use la_muni_rag.Base.{
  ℕ, Bool, true, false, ◌&&◌, ◌||◌, not, Option, none, some, List, [], ◌∷◌, ◌++◌, map, take, drop,
  any, all, length, ltb, leb, ◌==◌, if◌then◌else◌, Result, ok, err, ◌>>=◌, is_some,
}
use la_muni_rag.Base.Text.{Text, codes, text_eq, is_empty, between, trim, lower, matches}
use la_muni_rag.Security.Roles.{
  SecurityRole, platform_admin, tenant_admin, document_manager, researcher, procedure_author,
  procedure_reviewer, procedure_approver, case_operator, viewer, integration_client, security_roles,
  role_eq,
}
use la_muni_rag.Security.Rbac.{
  SecurityError, authentication_required, AuthenticatedPrincipal, permissions_for_roles,
}
use la_muni_rag.Security.Tenant.{is_canonical_uuid}

abbrev pub min_bearer_token_length : ℕ
min_bearer_token_length = 32

abbrev pub max_bearer_token_length : ℕ
max_bearer_token_length = 512

abbrev pub max_authorization_header_length : ℕ
max_authorization_header_length = 640

-- The header: undefined, one string, or several.
pub data Header : Type 0 where
  absent : Header
  single : Text → Header
  several : List Text → Header

-- The class `[A-Za-z0-9._~+/=-]` of `TOKEN_PATTERN`.
unfoldable pub is_token_char : ℕ → Bool
is_token_char c =
    between b'A' b'Z' c
    || between b'a' b'z' c
    || between b'0' b'9' c
    || c == b'.'
    || c == b'_'
    || c == b'~'
    || c == b'+'
    || c == b'/'
    || c == b'='
    || c == b'-'

unfoldable pub skip_spaces : Text → Text
skip_spaces [] = []
skip_spaces (c ∷ s) = if c == 32 then skip_spaces s else c ∷ s

-- The group of `/^Bearer +([^ ]+)$/i`: one or more spaces, then a text without spaces.
unfoldable pub bearer_group : Text → Option Text
bearer_group header =
    if text_eq (map lower (take 6 header)) (codes "bearer")
      && text_eq (take 1 (drop 6 header)) (32 ∷ [])
      && not (is_empty (skip_spaces (drop 6 header)))
      && all (λ c. not (c == 32)) (skip_spaces (drop 6 header))
    then some (skip_spaces (drop 6 header))
    else none

unfoldable pub checked_token : Text → Option Text
checked_token token =
    if ltb (length token) min_bearer_token_length || ltb max_bearer_token_length (length token)
    then none
    else if all is_token_char token
    then some token
    else none

unfoldable pub parse_bearer_credential : Header → Option Text
parse_bearer_credential absent = none
parse_bearer_credential (several hs) = none
parse_bearer_credential (single header) =
    if ltb max_authorization_header_length (length header)
    then none
    else elim (bearer_group (trim header)) [ none ↦ none | some token ↦ checked_token token ]

unfoldable pub role_name : SecurityRole → Text
role_name platform_admin = codes "platform_admin"
role_name tenant_admin = codes "tenant_admin"
role_name document_manager = codes "document_manager"
role_name researcher = codes "researcher"
role_name procedure_author = codes "procedure_author"
role_name procedure_reviewer = codes "procedure_reviewer"
role_name procedure_approver = codes "procedure_approver"
role_name case_operator = codes "case_operator"
role_name viewer = codes "viewer"
role_name integration_client = codes "integration_client"

-- The role of that name, from the list.
unfoldable pub find_role : Text → List SecurityRole → Option SecurityRole
find_role name [] = none
find_role name (r ∷ rs) = if text_eq (role_name r) name then some r else find_role name rs

unfoldable pub is_security_role : Text → Bool
is_security_role name = is_some (find_role name security_roles)

-- What the identity store keeps: the names of the roles are not checked yet.
pub record CredentialPrincipalRecord : Type 0 where
  pub credential_id : Text
  pub tenant_id : Text
  pub principal_id : Text
  pub roles : List Text

unfoldable pub valid_roles : List Text → Bool
valid_roles names = ltb 0 (length names) && all is_security_role names

-- The stored names as roles, and `[...new Set(roles)]`: each role where it comes first.
unfoldable pub distinct_roles : List SecurityRole → List Text → List SecurityRole
distinct_roles seen [] = seen
distinct_roles seen (n ∷ ns) = elim (find_role n security_roles) [
  | none ↦ distinct_roles seen ns
  | some r ↦ distinct_roles (if any (role_eq r) seen then seen else seen ++ r ∷ []) ns
]

-- How authentication fails: refused, or the store itself failed.
pub data AuthError (E : Type 0) : Type 0 where
  refused : SecurityError → AuthError E
  store_failed : E → AuthError E

unfoldable pub admit :
    {E : Type 0} → Option CredentialPrincipalRecord → Result (AuthError E) AuthenticatedPrincipal
admit none = err (refused authentication_required)
admit (some r) =
    if not (is_canonical_uuid r.credential_id)
      || not (is_canonical_uuid r.tenant_id)
      || not (is_canonical_uuid r.principal_id)
      || not (valid_roles r.roles)
    then err (refused authentication_required)
    else ok (record {
      credential_id = map lower r.credential_id;
      tenant_id = map lower r.tenant_id;
      principal_id = map lower r.principal_id;
      roles = distinct_roles [] r.roles;
      permissions = permissions_for_roles (distinct_roles [] r.roles);
    })

-- `sha256` is `hashBearerCredential`; `store` is the repository's lookup by digest.
module _ {E : Type 0} (sha256 : Text → Text)
    (store : Text → Result E (Option CredentialPrincipalRecord)) where
  unfoldable pub authenticate_bearer : Header → Result (AuthError E) AuthenticatedPrincipal
  authenticate_bearer header = elim (parse_bearer_credential header) [
    | none ↦ err (refused authentication_required)
    | some credential ↦ elim (store (sha256 credential)) [
      | err e ↦ err (store_failed e)
      | ok found ↦ admit found
    ]
  ]

-- One lower-case hexadecimal digit, and `SHA256_HEX_PATTERN` of repository.ts.
unfoldable pub is_digest : Text → Bool
is_digest s = length s == 64 && all (λ c. between b'0' b'9' c || between b'a' b'f' c) s

-- `authenticateByCredentialHash`: `query` answers the rows for a digest.
unfoldable pub by_credential_hash :
    {E : Type 0}
    → (Text → Result E (List CredentialPrincipalRecord))
    → Text
    → Result E (Option CredentialPrincipalRecord)
by_credential_hash query digest =
    if not (is_digest digest)
    then ok none
    else (query digest >>= λ rows. elim rows [
      | [] ↦ ok none
      | row ∷ [] ↦ ok (if all is_security_role row.roles then some row else none)
      | _ ↦ ok none
    ])
