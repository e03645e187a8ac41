-- ===== src/Security/Auth/Laws.antt =====
-- What an authenticated principal of src/security/auth.ts is, and what it can do.
use la_muni_rag.Base.{
  ◌≡◌, ◌⊎◌, inl, inr, true, Option, none, some, [], map, any, ok, err, arith, ap, ◌∙◌, Result,
  Option-cases, Result-cases, if◌then◌else◌,
}
use la_muni_rag.Base.Text.{Text, lower}
use la_muni_rag.Security.Roles.{procedure_approve}
use la_muni_rag.Security.Rbac.{
  AuthenticatedPrincipal, authentication_required, access_denied, permissions_for_roles,
  require_permission,
}
use la_muni_rag.Security.Rbac.Laws.{require_permission-approve}
use la_muni_rag.Security.Tenant.{is_canonical_uuid}
use la_muni_rag.Security.Auth.{
  Header, parse_bearer_credential, CredentialPrincipalRecord, valid_roles, distinct_roles, refused,
  admit, authenticate_bearer,
}
use la_muni_rag.Security.Auth.Approving.{approving, is_approving, distinct_roles-is_approving}

-- The principal is the stored record: its identifiers in lower case, its roles without repetition,
-- and the permissions of those roles.
pub record Admits (found : CredentialPrincipalRecord) (p : AuthenticatedPrincipal) : Type 0 where
  pub credential_valid : is_canonical_uuid found.credential_id ≡ true
  pub tenant_valid : is_canonical_uuid found.tenant_id ≡ true
  pub principal_valid : is_canonical_uuid found.principal_id ≡ true
  pub roles_valid : valid_roles found.roles ≡ true
  pub tenant : p.tenant_id ≡ map lower found.tenant_id
  pub principal : p.principal_id ≡ map lower found.principal_id
  pub credential : p.credential_id ≡ map lower found.credential_id
  pub roles : p.roles ≡ distinct_roles [] found.roles
  pub permissions : p.permissions ≡ permissions_for_roles p.roles

admit-Admits :
    {E : Type 0} (found : CredentialPrincipalRecord) (p : AuthenticatedPrincipal)
    → admit {E = E} (some found) ≡ ok p
    → Admits found p
unfolding admit
admit-Admits found p h = ground arith

module _ {E : Type 0} (sha256 : Text → Text)
    (store : Text → Result E (Option CredentialPrincipalRecord)) (header : Header) where
  pub record IsAuthentic (p : AuthenticatedPrincipal) : Type 0 where
    pub token : Text
    pub found : CredentialPrincipalRecord
    pub parsed : parse_bearer_credential header ≡ some token
    pub stored : store (sha256 token) ≡ ok (some found)
    pub admits : Admits found p

  from_found :
      (token : Text) (found : Option CredentialPrincipalRecord) (p : AuthenticatedPrincipal)
      → parse_bearer_credential header ≡ some token
      → store (sha256 token) ≡ ok found
      → admit {E = E} found ≡ ok p
      → IsAuthentic p
  unfolding admit
  from_found token none p parsed stored h = cc
  from_found token (some found) p parsed stored h = record {
    token = token;
    found = found;
    parsed = parsed;
    stored = stored;
    admits = admit-Admits found p h;
  }

  -- An authenticated principal comes from a token in the header, whose digest the store knows under
  -- a record with valid identifiers and known roles; its identifiers are that record's in lower
  -- case, and its permissions are those of its roles.
  pub authenticate_bearer-IsAuthentic :
      (p : AuthenticatedPrincipal) → authenticate_bearer sha256 store header ≡ ok p → IsAuthentic p
  unfolding authenticate_bearer
  authenticate_bearer-IsAuthentic p h = elim (Option-cases (parse_bearer_credential header)) [
    | inl missing ↦ absurd (ground arith)
    | inr (token, parsed) ↦ elim (Result-cases (store (sha256 token))) [
      | inl (found, stored) ↦
          from_found token found p parsed stored (rw (parsed, stored, authenticate_bearer) at h)
      | inr (e, failed) ↦ absurd (ground arith)
    ]
  ]

  -- A header without a well-formed token is answered with 401 `unauthorized`, and so is a token
  -- whose digest the store does not know.
  pub authenticate_bearer-unknown :
      (parse_bearer_credential header ≡ none)
        ⊎ ((token : Text) × (parse_bearer_credential header ≡ some token)
            × (store (sha256 token) ≡ ok none))
      → authenticate_bearer sha256 store header ≡ err (refused authentication_required)
  unfolding authenticate_bearer admit
  authenticate_bearer-unknown (inl missing) = ground arith
  authenticate_bearer-unknown (inr (token, parsed, unknown)) = ground arith

  -- An authenticated principal may approve a procedure exactly when the stored record, which its
  -- token leads to, names one of the two approving roles.
  pub authenticate_bearer-approve :
      (p : AuthenticatedPrincipal)
      → authenticate_bearer sha256 store header ≡ ok p
      → (token : Text) × (found : CredentialPrincipalRecord) × (parse_bearer_credential header
          ≡ some token)
        × (store (sha256 token) ≡ ok (some found))
        × (require_permission p procedure_approve
            ≡ (if any is_approving found.roles then ok tt else err access_denied))
  authenticate_bearer-approve p h =
      let a = authenticate_bearer-IsAuthentic p h in
      let named = distinct_roles-is_approving a.found.roles a.admits.roles_valid in
      let same : any approving p.roles ≡ any is_approving a.found.roles = rw a.admits.roles named in
      (
        a.token,
        a.found,
        a.parsed,
        a.stored,
        require_permission-approve p a.admits.permissions
            ∙ ap (λ b. if b then ok tt else err access_denied) same,
      )
