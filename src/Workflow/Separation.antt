-- ===== src/Workflow/Separation.antt =====
-- Separation of duties in src/workflowLifecycle/stateMachine.ts, over whole histories.
use la_muni_rag.Base.{◌≡◌, refl, ◌⊎◌, ◌≢◌, false, Option, none, some, ok, is_some, true, arith}
use la_muni_rag.Base.Text.{Text, text_eq, text_eq_refl}
use la_muni_rag.Workflow.Types.{
  approved, superseded, recommended_for_approval, WorkflowReviewRecord, WorkflowApprovalRecord,
  WorkflowVersionRecord, InitializeWorkflowVersionInput,
}
use la_muni_rag.Workflow.Checks.{Runtime}
use la_muni_rag.Workflow.Machine.{initialize_workflow_version}
use la_muni_rag.Workflow.History.{Reach}
use la_muni_rag.Workflow.Invariant.{
  ReviewIsSeparate, ApprovalIsSeparate, IsWellFormed, Reach-IsWellFormed,
}

-- The version has been approved by a person who is neither its creator nor its reviewer, on the
-- recommendation of a reviewer who is not its creator.
pub record IsThreeHanded (r : WorkflowVersionRecord) : Type 0 where
  pub review : WorkflowReviewRecord
  pub approval : WorkflowApprovalRecord
  pub has_review : r.latest_review ≡ some review
  pub has_approval : r.approval ≡ some approval
  pub recommended : review.decision ≡ recommended_for_approval
  pub reviewer_ne_creator : review.reviewer_principal_id ≢ r.created_by_principal_id
  pub approver_ne_creator : approval.approver_principal_id ≢ r.created_by_principal_id
  pub approver_ne_reviewer : approval.approver_principal_id ≢ review.reviewer_principal_id

ne_of_text_eq : (s t : Text) → text_eq s t ≡ false → s ≢ t
ne_of_text_eq s t h e = ground (arith, text_eq_refl t)

three_hands :
    (r : WorkflowVersionRecord) (v : Option WorkflowReviewRecord)
    (a : Option WorkflowApprovalRecord)
    → r.latest_review ≡ v
    → r.approval ≡ a
    → ReviewIsSeparate r.created_by_principal_id v
    → ApprovalIsSeparate r.created_by_principal_id v a
    → is_some a ≡ true
    → IsThreeHanded r
three_hands r v none ev ea p q h = cc
three_hands r none (some a) ev ea p q h = absurd q
three_hands r (some v) (some a) ev ea p (recommended, q, q') h = record {
  review = v;
  approval = a;
  has_review = ev;
  has_approval = ea;
  recommended = recommended;
  reviewer_ne_creator = ne_of_text_eq _ _ p;
  approver_ne_creator = ne_of_text_eq _ _ q;
  approver_ne_reviewer = ne_of_text_eq _ _ q';
}

approval_of_status :
    (s : WorkflowVersionRecord)
    → IsWellFormed s
    → (s.lifecycle_status ≡ approved) ⊎ (s.lifecycle_status ≡ superseded)
    → is_some s.approval ≡ true
approval_of_status s w h = ground arith

-- In every history of a new version, by whatever actors: if the version stands approved or
-- superseded, it carries a recommending review and an approval, and its creator, its reviewer and
-- its approver are three different principals.
pub Reach-IsThreeHanded :
    (rt : Runtime) (input : InitializeWorkflowVersionInput) {r s : WorkflowVersionRecord}
    → initialize_workflow_version rt input ≡ ok r
    → Reach rt r s
    → (s.lifecycle_status ≡ approved) ⊎ (s.lifecycle_status ≡ superseded)
    → IsThreeHanded s
Reach-IsThreeHanded rt input {s} made reached status =
    let w = Reach-IsWellFormed rt input made reached in
    three_hands s s.latest_review s.approval refl refl w.reviewed w.approved_by
      (approval_of_status s w status)
