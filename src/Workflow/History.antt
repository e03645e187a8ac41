-- ===== src/Workflow/History.antt =====
-- The histories of one workflow version: a command is a call of one transition of
-- src/workflowLifecycle/stateMachine.ts by some actor, and a history is a chain of accepted
-- commands.
use la_muni_rag.Base.{◌≡◌, ok}
use la_muni_rag.Base.Text.{Text}
use la_muni_rag.Workflow.Types.{
  WorkflowLifecycleActor, WorkflowVersionRecord, ReviseWorkflowDraftInput, WorkflowReviewInput,
  WorkflowApprovalInput, WorkflowSupersessionInput,
}
use la_muni_rag.Workflow.Checks.{Runtime, Checked}
use la_muni_rag.Workflow.Machine.{
  revise_workflow_draft, submit_workflow_for_review, record_workflow_review,
  approve_workflow_version, supersede_workflow_version, archive_workflow_version,
}

pub data Command : Type 0 where
  revise : ReviseWorkflowDraftInput → Command
  submit : Text → Command
  review : WorkflowReviewInput → Command
  approve : WorkflowApprovalInput → Command
  supersede : WorkflowSupersessionInput → Command
  archive : Text → Command

unfoldable pub apply :
    Runtime
    → WorkflowVersionRecord
    → WorkflowLifecycleActor
    → Command
    → Checked WorkflowVersionRecord
apply rt r actor (revise input) = revise_workflow_draft rt r actor input
apply rt r actor (submit now) = submit_workflow_for_review rt r actor now
apply rt r actor (review input) = record_workflow_review rt r actor input
apply rt r actor (approve input) = approve_workflow_version rt r actor input
apply rt r actor (supersede input) = supersede_workflow_version rt r actor input
apply rt r actor (archive now) = archive_workflow_version rt r actor now

-- `Reach rt r s`: a chain of accepted commands, by any actors, leads from `r` to `s`.
pub data Reach (rt : Runtime) (r : WorkflowVersionRecord) : WorkflowVersionRecord → Type 0 where
  here : Reach rt r r
  next :
      {s t : WorkflowVersionRecord}
      → Reach rt r s
      → (actor : WorkflowLifecycleActor) (c : Command) → apply rt s actor c ≡ ok t
      → Reach rt r t
