-- ===== src/Workflow/Access.antt =====
-- Who may do what in src/workflowLifecycle/stateMachine.ts: the tenant, the roles and the letter
-- case of identifiers.
use la_muni_rag.Base.{◌≡◌, refl, true, false, List, [], ◌∷◌, map, ok, err, arith}
use la_muni_rag.Base.Text.{Text, text_eq, text_eq_iff, lower, lower_idem}
use la_muni_rag.Base.Uuid.{fits, fits-lower, versioned_uuid}
use la_muni_rag.Security.Roles.{SecurityRole}
use la_muni_rag.Workflow.Types.{
  WorkflowLifecycleActor, WorkflowVersionRecord, workflow_tenant_denied, lifecycle_error,
}
use la_muni_rag.Workflow.Checks.{
  Runtime, author_roles, reviewer_roles, approver_roles, canonical_uuid, has_role, require_role,
  require_tenant,
}
use la_muni_rag.Workflow.Machine.{
  revise_workflow_draft, submit_workflow_for_review, record_workflow_review,
  approve_workflow_version, supersede_workflow_version, archive_workflow_version,
}
use la_muni_rag.Workflow.History.{
  Command, revise, submit, review, approve, supersede, archive, apply,
}

-- Who has the duty that a command belongs to.
abbrev pub allowed_roles : Command → List SecurityRole
allowed_roles (revise input) = author_roles
allowed_roles (submit now) = author_roles
allowed_roles (review input) = reviewer_roles
allowed_roles (approve input) = approver_roles
allowed_roles (supersede input) = approver_roles
allowed_roles (archive now) = approver_roles

map-lower_idem : (s : Text) → map lower (map lower s) ≡ map lower s
map-lower_idem [] = refl
map-lower_idem (c ∷ s) = cc (lower_idem c, map-lower_idem s)

-- An accepted identifier is accepted again as it stands, so a stored identifier is its own canonical
-- form.
pub canonical_uuid_idem : (v : Text) {u : Text} → canonical_uuid v ≡ ok u → canonical_uuid u ≡ ok u
unfolding canonical_uuid
canonical_uuid_idem v {u} h = ground (arith, fits-lower versioned_uuid v, map-lower_idem v)

-- Two spellings of an identifier that differ only in letter case have one canonical form.
canonical_uuid_case :
    (v w : Text)
    → fits versioned_uuid v ≡ true
    → fits versioned_uuid w ≡ true
    → map lower v ≡ map lower w
    → canonical_uuid v ≡ canonical_uuid w
unfolding canonical_uuid
canonical_uuid_case v w hv hw e = ground arith

-- The caller's tenant is the record's, and one of the caller's roles has the duty.
pub record IsAuthorized (r : WorkflowVersionRecord) (actor : WorkflowLifecycleActor) (c : Command)
    : Type 0 where
  pub tenant_valid : fits versioned_uuid actor.tenant_id ≡ true
  pub tenant_same : map lower actor.tenant_id ≡ r.tenant_id
  pub principal_valid : fits versioned_uuid actor.principal_id ≡ true
  pub role : has_role actor (allowed_roles c) ≡ true

-- No transition is accepted from a caller of another tenant, from one whose identifiers are
-- malformed, or from one that has none of the roles of the command's duty.
pub apply-IsAuthorized :
    (rt : Runtime) (r : WorkflowVersionRecord) (actor : WorkflowLifecycleActor) (c : Command)
    {s : WorkflowVersionRecord}
    → apply rt r actor c ≡ ok s
    → IsAuthorized r actor c
unfolding apply revise_workflow_draft submit_workflow_for_review record_workflow_review
    approve_workflow_version supersede_workflow_version archive_workflow_version require_tenant
    require_role canonical_uuid
apply-IsAuthorized rt r actor (revise input) h =
    ground (arith, text_eq_iff (map lower actor.tenant_id) r.tenant_id)
apply-IsAuthorized rt r actor _ h =
    ground (arith, text_eq_iff (map lower actor.tenant_id) r.tenant_id)

-- A caller of another tenant gets the tenant error, whatever the command, the roles and the status.
pub apply_other_tenant :
    (rt : Runtime) (r : WorkflowVersionRecord) (actor : WorkflowLifecycleActor) (c : Command)
    → fits versioned_uuid actor.tenant_id ≡ true
    → text_eq (map lower actor.tenant_id) r.tenant_id ≡ false
    → apply rt r actor c ≡ err (lifecycle_error workflow_tenant_denied)
unfolding apply revise_workflow_draft submit_workflow_for_review record_workflow_review
    approve_workflow_version supersede_workflow_version archive_workflow_version require_tenant
    canonical_uuid
apply_other_tenant rt r actor (revise input) valid other = ground arith
apply_other_tenant rt r actor _ valid other = ground arith
