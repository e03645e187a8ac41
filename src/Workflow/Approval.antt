-- ===== src/Workflow/Approval.antt =====
-- Approval and supersession in src/workflowLifecycle/stateMachine.ts: when an approval is
-- accepted, and what replacing an approved version does to the two versions.
use la_muni_rag.Base.{
  ◌≡◌, ◌↔◌, sym, ap, ◌∙◌, true, false, Option, some, none, map, ok, arith, is_ok,
}
use la_muni_rag.Base.Text.{Text, text_eq, text_eq_iff, lower}
use la_muni_rag.Base.Uuid.{fits, versioned_uuid}
use la_muni_rag.Workflow.Types.{
  in_review, approved, superseded, recommended_for_approval, WorkflowLifecycleActor,
  WorkflowReviewRecord, WorkflowVersionRecord, WorkflowApprovalInput, WorkflowSupersessionInput,
  WorkflowSupersessionApprovalInput, WorkflowSupersessionResult,
}
use la_muni_rag.Workflow.Checks.{
  Runtime, approver_roles, max_review_notes_length, normalized_text, canonical_time, canonical_uuid,
  has_role, require_role, require_tenant, require_status, status_eq,
}
use la_muni_rag.Workflow.Machine.{
  recommended_review, approve_workflow_version, supersede_workflow_version, require_replacement,
  approve_replacement_and_supersede,
}
use la_muni_rag.Workflow.Invariant.{IsWellFormed, apply-IsWellFormed}
use la_muni_rag.Workflow.History.{apply, approve, supersede}

-- The stored review recommends approval, and `principal` did not write it.
abbrev pub RecommendedByAnother : Option WorkflowReviewRecord → Text → Type 0
RecommendedByAnother none principal = ⊥
RecommendedByAnother (some v) principal =
    (v.decision ≡ recommended_for_approval) × (text_eq principal v.reviewer_principal_id ≡ false)

-- The conditions of an approval.
pub record CanApprove (rt : Runtime) (r : WorkflowVersionRecord) (actor : WorkflowLifecycleActor)
    (input : WorkflowApprovalInput) : Type 0 where
  pub tenant_valid : fits versioned_uuid actor.tenant_id ≡ true
  pub tenant_same : text_eq (map lower actor.tenant_id) r.tenant_id ≡ true
  pub principal_valid : fits versioned_uuid actor.principal_id ≡ true
  pub role : has_role actor approver_roles ≡ true
  pub status : r.lifecycle_status ≡ in_review
  pub reviewed : RecommendedByAnother r.latest_review (map lower actor.principal_id)
  pub not_creator : text_eq (map lower actor.principal_id) r.created_by_principal_id ≡ false
  pub time : is_ok (canonical_time rt input.now) ≡ true
  pub id : is_ok (canonical_uuid input.approval_id) ≡ true
  pub notes : is_ok (normalized_text rt input.notes max_review_notes_length) ≡ true

can_approve :
    (rt : Runtime) (r : WorkflowVersionRecord) (actor : WorkflowLifecycleActor)
    (input : WorkflowApprovalInput)
    → is_ok (approve_workflow_version rt r actor input) ≡ true
    → CanApprove rt r actor input
unfolding approve_workflow_version require_tenant require_role require_status status_eq
    recommended_review canonical_uuid
can_approve rt r actor input h = ground arith

approve_accepts :
    (rt : Runtime) (r : WorkflowVersionRecord) (actor : WorkflowLifecycleActor)
    (input : WorkflowApprovalInput)
    → CanApprove rt r actor input
    → is_ok (approve_workflow_version rt r actor input) ≡ true
unfolding approve_workflow_version require_tenant require_role require_status status_eq
    recommended_review canonical_uuid
approve_accepts rt r actor input h = ground arith

-- An approval is accepted exactly when the caller is of the record's tenant and has an approver's
-- role, the version is in review with a recommending review, the caller is neither the creator nor
-- the reviewer, and the time, the identifier and the notes of the input are valid.
pub approve_iff :
    (rt : Runtime) (r : WorkflowVersionRecord) (actor : WorkflowLifecycleActor)
    (input : WorkflowApprovalInput)
    → (is_ok (approve_workflow_version rt r actor input) ≡ true) ↔ CanApprove rt r actor input
approve_iff rt r actor input = (can_approve rt r actor input, approve_accepts rt r actor input)

-- The two versions after a replacement: of one tenant and one procedure, the old one superseded by
-- the identifier of the new one, the new one approved, and both well formed.
pub record IsReplaced (current replacement : WorkflowVersionRecord)
    (result : WorkflowSupersessionResult) : Type 0 where
  pub same_tenant : current.tenant_id ≡ replacement.tenant_id
  pub same_procedure : current.procedure_id ≡ replacement.procedure_id
  pub was_approved : current.lifecycle_status ≡ approved
  pub was_in_review : replacement.lifecycle_status ≡ in_review
  pub old_status : result.superseded_version.lifecycle_status ≡ superseded
  pub old_link :
      result.superseded_version.superseded_by_workflow_version_id
      ≡ some replacement.workflow_version_id
  pub new_id : result.replacement.workflow_version_id ≡ replacement.workflow_version_id
  pub new_status : result.replacement.lifecycle_status ≡ approved
  pub old_IsWellFormed : IsWellFormed result.superseded_version
  pub new_IsWellFormed : IsWellFormed result.replacement

-- The argument that `approveReplacementAndSupersede` passes to `approveWorkflowVersion`.
abbrev approval_part : WorkflowSupersessionApprovalInput → WorkflowApprovalInput
approval_part input = record {
  approval_id = input.approval_id;
  notes = input.notes;
  now = input.now;
}

replace_step :
    (rt : Runtime) (current replacement : WorkflowVersionRecord) (actor : WorkflowLifecycleActor)
    (input : WorkflowSupersessionApprovalInput) {result : WorkflowSupersessionResult}
    → approve_replacement_and_supersede rt current replacement actor input ≡ ok result
    → (require_tenant current actor ≡ ok tt)
      × (require_tenant replacement actor ≡ ok tt)
      × (require_replacement current replacement input.replacement_workflow_version_id ≡ ok tt)
      × (approve_workflow_version rt replacement actor (approval_part input)
          ≡ ok result.replacement)
      × (supersede_workflow_version rt current actor input.supersession
          ≡ ok result.superseded_version)
unfolding approve_replacement_and_supersede
replace_step rt current replacement actor input h = ground arith

tenant_of :
    (r : WorkflowVersionRecord) (actor : WorkflowLifecycleActor)
    → require_tenant r actor ≡ ok tt
    → map lower actor.tenant_id ≡ r.tenant_id
unfolding require_tenant canonical_uuid
tenant_of r actor h = ground (arith, text_eq_iff (map lower actor.tenant_id) r.tenant_id)

replacement_of :
    (current replacement : WorkflowVersionRecord) (requested : Text)
    → require_replacement current replacement requested ≡ ok tt
    → (current.procedure_id ≡ replacement.procedure_id)
      × (map lower requested ≡ replacement.workflow_version_id)
unfolding require_replacement canonical_uuid
replacement_of current replacement requested h = ground (
  arith,
  text_eq_iff current.procedure_id replacement.procedure_id,
  text_eq_iff replacement.workflow_version_id (map lower requested),
)

approve_effect :
    (rt : Runtime) (r : WorkflowVersionRecord) (actor : WorkflowLifecycleActor)
    (input : WorkflowApprovalInput) {s : WorkflowVersionRecord}
    → approve_workflow_version rt r actor input ≡ ok s
    → (r.lifecycle_status ≡ in_review)
      × (s.lifecycle_status ≡ approved)
      × (s.workflow_version_id ≡ r.workflow_version_id)
unfolding approve_workflow_version require_status status_eq
approve_effect rt r actor input h = ground arith

supersede_effect :
    (rt : Runtime) (r : WorkflowVersionRecord) (actor : WorkflowLifecycleActor)
    (input : WorkflowSupersessionInput) {s : WorkflowVersionRecord}
    → supersede_workflow_version rt r actor input ≡ ok s
    → (r.lifecycle_status ≡ approved)
      × (s.lifecycle_status ≡ superseded)
      × (s.superseded_by_workflow_version_id
          ≡ some (map lower input.replacement_workflow_version_id))
unfolding supersede_workflow_version require_status status_eq canonical_uuid
supersede_effect rt r actor input h = ground arith

-- When a replacement is accepted for two well-formed versions, they are of one tenant and one
-- procedure, the current one was approved and is now superseded by the identifier of the other, the
-- other was in review and is now approved, and both results are well formed.
pub approve_replacement_and_supersede-IsReplaced :
    (rt : Runtime) (current replacement : WorkflowVersionRecord) (actor : WorkflowLifecycleActor)
    (input : WorkflowSupersessionApprovalInput) {result : WorkflowSupersessionResult}
    → IsWellFormed current
    → IsWellFormed replacement
    → approve_replacement_and_supersede rt current replacement actor input ≡ ok result
    → IsReplaced current replacement result
approve_replacement_and_supersede-IsReplaced rt current replacement actor input {result} wc wr h =
    let (tc, tr, same, accepted, replaced) = replace_step rt current replacement actor input h in
    let (procedure, id) =
      replacement_of current replacement input.replacement_workflow_version_id same in
    let (was_in_review, new_status, new_id) =
      approve_effect rt replacement actor (approval_part input) accepted in
    let (was_approved, old_status, link) =
      supersede_effect rt current actor input.supersession replaced in
    record {
      same_tenant = sym (tenant_of current actor tc) ∙ tenant_of replacement actor tr;
      same_procedure = procedure;
      was_approved = was_approved;
      was_in_review = was_in_review;
      old_status = old_status;
      old_link = link ∙ ap some id;
      new_id = new_id;
      new_status = new_status;
      old_IsWellFormed =
          apply-IsWellFormed rt current actor (supersede input.supersession) wc
            (unfold apply in replaced);
      new_IsWellFormed =
          apply-IsWellFormed rt replacement actor (approve (approval_part input)) wr
            (unfold apply in accepted);
    }
