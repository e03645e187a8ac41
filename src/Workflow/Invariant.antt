-- ===== src/Workflow/Invariant.antt =====
-- What holds of every workflow version that the transitions of stateMachine.ts produce.
use la_muni_rag.Base.{◌≡◌, true, false, Option, none, some, ok, arith, is_some}
use la_muni_rag.Base.Text.{Text, text_eq}
use la_muni_rag.Workflow.Types.{
  WorkflowLifecycleStatus, draft, in_review, approved, superseded, archived,
  recommended_for_approval, WorkflowLifecycleActor, WorkflowReviewRecord, WorkflowApprovalRecord,
  WorkflowVersionRecord, InitializeWorkflowVersionInput, ReviseWorkflowDraftInput,
  WorkflowReviewInput, WorkflowApprovalInput, WorkflowSupersessionInput,
}
use la_muni_rag.Workflow.Checks.{Runtime, status_eq, require_status}
use la_muni_rag.Workflow.Machine.{
  recommended_review, settle_review, initialize_workflow_version, revise_workflow_draft,
  submit_workflow_for_review, record_workflow_review, approve_workflow_version,
  supersede_workflow_version, archive_workflow_version,
}
use la_muni_rag.Workflow.History.{
  Command, revise, submit, review, approve, supersede, archive, apply, Reach, here, next,
}

-- A stored review is not the creator's own.
abbrev pub ReviewIsSeparate : Text → Option WorkflowReviewRecord → Type 0
ReviewIsSeparate creator none = Unit
ReviewIsSeparate creator (some v) = text_eq v.reviewer_principal_id creator ≡ false

-- A stored approval rests on a stored review that recommends it, and approver, reviewer and creator
-- differ.
abbrev pub ApprovalIsSeparate :
    Text → Option WorkflowReviewRecord → Option WorkflowApprovalRecord → Type 0
ApprovalIsSeparate creator v none = Unit
ApprovalIsSeparate creator none (some a) = ⊥
ApprovalIsSeparate creator (some v) (some a) =
    (v.decision ≡ recommended_for_approval)
    × (text_eq a.approver_principal_id creator ≡ false)
    × (text_eq a.approver_principal_id v.reviewer_principal_id ≡ false)

-- Which of the optional fields a version has in each status.
abbrev pub StatusFields : WorkflowLifecycleStatus → WorkflowVersionRecord → Type 0
StatusFields draft r =
    (r.submitted_by_principal_id ≡ none)
    × (r.submitted_at ≡ none)
    × (r.approval ≡ none)
    × (r.superseded_by_workflow_version_id ≡ none)
    × (r.archived_by_principal_id ≡ none)
    × (r.archived_at ≡ none)
StatusFields in_review r =
    (is_some r.submitted_by_principal_id ≡ true)
    × (is_some r.submitted_at ≡ true)
    × (r.approval ≡ none)
    × (r.superseded_by_workflow_version_id ≡ none)
    × (r.archived_by_principal_id ≡ none)
    × (r.archived_at ≡ none)
StatusFields approved r =
    (is_some r.submitted_by_principal_id ≡ true)
    × (is_some r.submitted_at ≡ true)
    × (is_some r.approval ≡ true)
    × (r.superseded_by_workflow_version_id ≡ none)
    × (r.archived_by_principal_id ≡ none)
    × (r.archived_at ≡ none)
StatusFields superseded r =
    (is_some r.submitted_by_principal_id ≡ true)
    × (is_some r.submitted_at ≡ true)
    × (is_some r.approval ≡ true)
    × (is_some r.superseded_by_workflow_version_id ≡ true)
    × (r.archived_by_principal_id ≡ none)
    × (r.archived_at ≡ none)
StatusFields archived r =
    (is_some r.archived_by_principal_id ≡ true) × (is_some r.archived_at ≡ true)

-- A version does not supersede itself.
abbrev pub SupersededByAnother : Text → Option Text → Type 0
SupersededByAnother id none = Unit
SupersededByAnother id (some other) = text_eq other id ≡ false

pub record IsWellFormed (r : WorkflowVersionRecord) : Type 0 where
  pub fields : StatusFields r.lifecycle_status r
  pub reviewed : ReviewIsSeparate r.created_by_principal_id r.latest_review
  pub approved_by : ApprovalIsSeparate r.created_by_principal_id r.latest_review r.approval
  pub replaced : SupersededByAnother r.workflow_version_id r.superseded_by_workflow_version_id

module _ (rt : Runtime) where
  initialize-IsWellFormed :
      (input : InitializeWorkflowVersionInput) {r : WorkflowVersionRecord}
      → initialize_workflow_version rt input ≡ ok r
      → IsWellFormed r
  unfolding initialize_workflow_version
  initialize-IsWellFormed input h = ground arith

  module _ (r : WorkflowVersionRecord) (actor : WorkflowLifecycleActor) (w : IsWellFormed r)
      {s : WorkflowVersionRecord} where
    revise-IsWellFormed :
        (input : ReviseWorkflowDraftInput)
        → revise_workflow_draft rt r actor input ≡ ok s
        → IsWellFormed s
    unfolding revise_workflow_draft require_status status_eq
    revise-IsWellFormed input h = ground arith

    submit-IsWellFormed :
        (now : Text) → submit_workflow_for_review rt r actor now ≡ ok s → IsWellFormed s
    unfolding submit_workflow_for_review require_status status_eq
    submit-IsWellFormed now h = ground arith

    review-IsWellFormed :
        (input : WorkflowReviewInput)
        → record_workflow_review rt r actor input ≡ ok s
        → IsWellFormed s
    unfolding record_workflow_review settle_review require_status status_eq
    review-IsWellFormed input h = ground arith

    approve-IsWellFormed :
        (input : WorkflowApprovalInput)
        → approve_workflow_version rt r actor input ≡ ok s
        → IsWellFormed s
    unfolding approve_workflow_version recommended_review require_status status_eq
    approve-IsWellFormed input h = ground arith

    supersede-IsWellFormed :
        (input : WorkflowSupersessionInput)
        → supersede_workflow_version rt r actor input ≡ ok s
        → IsWellFormed s
    unfolding supersede_workflow_version require_status status_eq
    supersede-IsWellFormed input h = ground arith

    archive-IsWellFormed :
        (now : Text) → archive_workflow_version rt r actor now ≡ ok s → IsWellFormed s
    unfolding archive_workflow_version status_eq
    archive-IsWellFormed now h = ground arith

-- An accepted command, by any actor, leads from a well-formed version to a well-formed one.
pub apply-IsWellFormed :
    (rt : Runtime) (r : WorkflowVersionRecord) (actor : WorkflowLifecycleActor) (c : Command)
    {s : WorkflowVersionRecord}
    → IsWellFormed r
    → apply rt r actor c ≡ ok s
    → IsWellFormed s
unfolding apply
apply-IsWellFormed rt r actor (revise input) w h = revise-IsWellFormed rt r actor w input h
apply-IsWellFormed rt r actor (submit now) w h = submit-IsWellFormed rt r actor w now h
apply-IsWellFormed rt r actor (review input) w h = review-IsWellFormed rt r actor w input h
apply-IsWellFormed rt r actor (approve input) w h = approve-IsWellFormed rt r actor w input h
apply-IsWellFormed rt r actor (supersede input) w h = supersede-IsWellFormed rt r actor w input h
apply-IsWellFormed rt r actor (archive now) w h = archive-IsWellFormed rt r actor w now h

-- Every version that any chain of accepted commands makes of a new one is well formed.
pub Reach-IsWellFormed :
    (rt : Runtime) (input : InitializeWorkflowVersionInput) {r s : WorkflowVersionRecord}
    → initialize_workflow_version rt input ≡ ok r
    → Reach rt r s
    → IsWellFormed s
Reach-IsWellFormed rt input made here = initialize-IsWellFormed rt input made
Reach-IsWellFormed rt input made (next {s = t} before actor c h) =
    apply-IsWellFormed rt t actor c (Reach-IsWellFormed rt input made before) h
