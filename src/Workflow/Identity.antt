-- ===== src/Workflow/Identity.antt =====
-- What the transitions of src/workflowLifecycle/stateMachine.ts leave alone.
use la_muni_rag.Base.{◌+◌, ◌≤◌, ◌≡◌, ◌⊎◌, inl, inr, none, ok, arith}
use la_muni_rag.Workflow.Types.{draft, WorkflowLifecycleActor, WorkflowVersionRecord}
use la_muni_rag.Workflow.Checks.{Runtime, require_status, status_eq}
use la_muni_rag.Workflow.Machine.{
  settle_review, revise_workflow_draft, submit_workflow_for_review, record_workflow_review,
  approve_workflow_version, supersede_workflow_version, archive_workflow_version,
}
use la_muni_rag.Workflow.History.{Command, revise, apply, Reach, here, next}

-- The same version of the same procedure of the same tenant, with its creator and its origin.
pub record SameIdentity (r s : WorkflowVersionRecord) : Type 0 where
  pub same_version : s.workflow_version_id ≡ r.workflow_version_id
  pub same_tenant : s.tenant_id ≡ r.tenant_id
  pub same_procedure : s.procedure_id ≡ r.procedure_id
  pub same_number : s.version_number ≡ r.version_number
  pub same_source : s.generation_source ≡ r.generation_source
  pub same_creator : s.created_by_principal_id ≡ r.created_by_principal_id
  pub same_created_at : s.created_at ≡ r.created_at
  pub revision_grows : r.revision ≤ s.revision

-- The content that a reviewer and an approver look at.
pub record SameContent (r s : WorkflowVersionRecord) : Type 0 where
  pub same_definition : s.workflow_definition ≡ r.workflow_definition
  pub same_title : s.title ≡ r.title
  pub same_jurisdiction : s.jurisdiction ≡ r.jurisdiction
  pub same_bundle : s.evidence_bundle_id ≡ r.evidence_bundle_id
  pub same_revision : s.revision ≡ r.revision

apply-SameIdentity :
    (rt : Runtime) (r : WorkflowVersionRecord) (actor : WorkflowLifecycleActor) (c : Command)
    {s : WorkflowVersionRecord}
    → apply rt r actor c ≡ ok s
    → SameIdentity r s
unfolding apply revise_workflow_draft submit_workflow_for_review record_workflow_review
    settle_review approve_workflow_version supersede_workflow_version archive_workflow_version
apply-SameIdentity rt r actor (revise input) h = ground arith
apply-SameIdentity rt r actor _ h = ground arith

-- Through every history a version keeps its identifier, tenant, procedure, number, origin, creator
-- and time of creation, and its revision never falls.
pub Reach-SameIdentity :
    (rt : Runtime) {r s : WorkflowVersionRecord} → Reach rt r s → SameIdentity r s
Reach-SameIdentity rt here = ground arith
Reach-SameIdentity rt (next {s} before actor c h) =
    ground (arith, Reach-SameIdentity rt before, apply-SameIdentity rt s actor c h)

-- An accepted command leaves the content and the revision alone, or it is a revision of a draft,
-- which counts one more and drops the review and the approval.
pub apply-content :
    (rt : Runtime) (r : WorkflowVersionRecord) (actor : WorkflowLifecycleActor) (c : Command)
    {s : WorkflowVersionRecord}
    → apply rt r actor c ≡ ok s
    → SameContent r s
      ⊎ ((r.lifecycle_status ≡ draft)
          × (s.lifecycle_status ≡ draft)
          × (s.revision ≡ r.revision + 1)
          × (s.latest_review ≡ none)
          × (s.approval ≡ none))
unfolding apply revise_workflow_draft submit_workflow_for_review record_workflow_review
    settle_review approve_workflow_version supersede_workflow_version archive_workflow_version
    require_status status_eq
apply-content rt r actor (revise input) h = inr (ground arith)
apply-content rt r actor _ h = inl (ground arith)
