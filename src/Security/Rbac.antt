-- ===== src/Security/Rbac.antt =====
-- src/security/rbac.ts and errors.ts: which permissions a list of roles grants, and the guard.
pub mod Laws
use la_muni_rag.Base.{
  ℕ, Bool, true, false, not, List, [], ◌∷◌, ◌++◌, keep, any, if◌then◌else◌, guard, Result,
}
use la_muni_rag.Security.Roles.{
  SecurityRole, platform_admin, tenant_admin, document_manager, researcher, procedure_author,
  procedure_reviewer, procedure_approver, case_operator, viewer, integration_client, role_eq,
  security_roles, SecurityPermission, tenant_manage, identity_manage, source_read, source_write,
  document_read, document_write, document_ingest, evidence_query, procedure_read, procedure_draft,
  procedure_review, procedure_approve, case_read, case_write, audit_read, integration_query,
  permission_eq, security_permissions,
}
use la_muni_rag.Base.Text.{Text}

pub data SecurityErrorCode : Type 0 where
  unauthorized forbidden : SecurityErrorCode

pub record SecurityError : Type 0 where
  pub status_code : ℕ
  pub code : SecurityErrorCode

abbrev pub authentication_required : SecurityError
authentication_required = record { status_code = 401; code = SecurityErrorCode.unauthorized }

abbrev pub access_denied : SecurityError
access_denied = record { status_code = 403; code = SecurityErrorCode.forbidden }

pub record AuthenticatedPrincipal : Type 0 where
  pub credential_id : Text
  pub tenant_id : Text
  pub principal_id : Text
  pub roles : List SecurityRole
  pub permissions : List SecurityPermission

-- `HUMAN_SECURITY_ROLES`.
unfoldable pub human_security_roles : List SecurityRole
unfolding role_eq
human_security_roles = keep (λ r. not (role_eq r integration_client)) security_roles

-- `ROLE_PERMISSIONS`.
unfoldable pub role_permissions : SecurityRole → List SecurityPermission
role_permissions platform_admin = security_permissions
role_permissions tenant_admin =
    tenant_manage ∷ identity_manage ∷ source_read ∷ source_write ∷ document_read ∷ document_write
    ∷ document_ingest ∷ evidence_query ∷ procedure_read ∷ procedure_draft ∷ procedure_review
    ∷ case_read ∷ case_write ∷ audit_read ∷ []
role_permissions document_manager =
    source_read ∷ source_write ∷ document_read ∷ document_write ∷ document_ingest ∷ evidence_query
    ∷ procedure_read ∷ []
role_permissions researcher =
    source_read ∷ document_read ∷ evidence_query ∷ procedure_read ∷ case_read ∷ []
role_permissions procedure_author =
    source_read ∷ document_read ∷ evidence_query ∷ procedure_read ∷ procedure_draft ∷ []
role_permissions procedure_reviewer =
    source_read ∷ document_read ∷ evidence_query ∷ procedure_read ∷ procedure_review ∷ []
role_permissions procedure_approver =
    source_read ∷ document_read ∷ evidence_query ∷ procedure_read ∷ procedure_approve ∷ []
role_permissions case_operator =
    document_read ∷ evidence_query ∷ procedure_read ∷ case_read ∷ case_write ∷ []
role_permissions viewer =
    source_read ∷ document_read ∷ evidence_query ∷ procedure_read ∷ case_read ∷ []
role_permissions integration_client =
    source_read ∷ document_read ∷ evidence_query ∷ procedure_read ∷ integration_query ∷ []

-- A `Set<SecurityPermission>` as the list of its elements in the order of insertion.
unfoldable pub granted_has : List SecurityPermission → SecurityPermission → Bool
granted_has granted p = any (permission_eq p) granted

unfoldable pub granted_add : List SecurityPermission → SecurityPermission → List SecurityPermission
granted_add granted p = if granted_has granted p then granted else granted ++ p ∷ []

-- The inner loop of `permissionsForRoles`.
unfoldable pub grant_all :
    List SecurityPermission → List SecurityPermission → List SecurityPermission
grant_all granted [] = granted
grant_all granted (p ∷ ps) = grant_all (granted_add granted p) ps

-- The outer loop.
unfoldable pub grant_roles : List SecurityPermission → List SecurityRole → List SecurityPermission
grant_roles granted [] = granted
grant_roles granted (r ∷ rs) = grant_roles (grant_all granted (role_permissions r)) rs

unfoldable pub permissions_for_roles : List SecurityRole → List SecurityPermission
unfolding grant_roles
permissions_for_roles roles = keep (granted_has (grant_roles [] roles)) security_permissions

unfoldable pub has_permission : AuthenticatedPrincipal → SecurityPermission → Bool
has_permission principal p = any (permission_eq p) principal.permissions

unfoldable pub require_permission :
    AuthenticatedPrincipal → SecurityPermission → Result SecurityError (Unit {0})
unfolding has_permission
require_permission principal p = guard (has_permission principal p) access_denied
