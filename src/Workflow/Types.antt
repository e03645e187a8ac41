-- ===== src/Workflow/Types.antt =====
-- src/workflowLifecycle/types.ts, and the error class of stateMachine.ts. A field `T | null` and
-- an optional field are options; an identifier, a time and any other string is a text.
use la_muni_rag.Base.{ℕ, Bool, false, Option, List}
use la_muni_rag.Base.Text.{Text}
use la_muni_rag.Base.Json.{Json}
use la_muni_rag.Security.Roles.{SecurityRole}

pub data WorkflowLifecycleStatus : Type 0 where
  draft in_review approved superseded archived : WorkflowLifecycleStatus

-- The last constructor stands for a value outside the type, which the source checks for.
pub data WorkflowGenerationSource : Type 0 where
  ai human import : WorkflowGenerationSource
  unknown_source : Text → WorkflowGenerationSource

pub data WorkflowReviewDecision : Type 0 where
  changes_requested recommended_for_approval : WorkflowReviewDecision
  unknown_decision : Text → WorkflowReviewDecision

pub record WorkflowLifecycleActor : Type 0 where
  pub principal_id : Text
  pub tenant_id : Text
  pub roles : List SecurityRole

pub record WorkflowReviewRecord : Type 0 where
  pub review_id : Text
  pub reviewer_principal_id : Text
  pub decision : WorkflowReviewDecision
  pub notes : Text
  pub created_at : Text

-- The field `decision` has one value, "approved", and is left out.
pub record WorkflowApprovalRecord : Type 0 where
  pub approval_id : Text
  pub approver_principal_id : Text
  pub notes : Text
  pub created_at : Text

pub record WorkflowVersionRecord : Type 0 where
  pub workflow_version_id : Text
  pub tenant_id : Text
  pub procedure_id : Text
  pub version_number : ℕ
  pub lifecycle_status : WorkflowLifecycleStatus
  pub generation_source : WorkflowGenerationSource
  pub created_by_principal_id : Text
  pub jurisdiction : Text
  pub title : Text
  pub workflow_definition : Json
  pub evidence_bundle_id : Option Text
  pub revision : ℕ
  pub submitted_by_principal_id : Option Text
  pub submitted_at : Option Text
  pub latest_review : Option WorkflowReviewRecord
  pub approval : Option WorkflowApprovalRecord
  pub superseded_by_workflow_version_id : Option Text
  pub archived_by_principal_id : Option Text
  pub archived_at : Option Text
  pub created_at : Text
  pub updated_at : Text

pub record InitializeWorkflowVersionInput : Type 0 where
  pub workflow_version_id : Text
  pub tenant_id : Text
  pub procedure_id : Text
  pub version_number : ℕ
  pub generation_source : WorkflowGenerationSource
  pub created_by_principal_id : Text
  pub jurisdiction : Text
  pub title : Text
  pub workflow_definition : Json
  pub evidence_bundle_id : Option Text
  pub now : Text

-- `evidence_bundle_id` is none when undefined, `some none` when null.
pub record ReviseWorkflowDraftInput : Type 0 where
  pub workflow_definition : Json
  pub title : Option Text
  pub jurisdiction : Option Text
  pub evidence_bundle_id : Option (Option Text)
  pub now : Text

pub record WorkflowReviewInput : Type 0 where
  pub review_id : Text
  pub decision : WorkflowReviewDecision
  pub notes : Text
  pub now : Text

pub record WorkflowApprovalInput : Type 0 where
  pub approval_id : Text
  pub notes : Text
  pub now : Text

pub record WorkflowSupersessionInput : Type 0 where
  pub replacement_workflow_version_id : Text
  pub now : Text

pub record WorkflowSupersessionApprovalInput : Type 0 where
  pub supersession : WorkflowSupersessionInput
  pub open supersession use *
  pub approval_id : Text
  pub notes : Text

pub record WorkflowSupersessionResult : Type 0 where
  pub superseded_version : WorkflowVersionRecord
  pub replacement : WorkflowVersionRecord

-- The codes that stateMachine.ts throws.
pub data WorkflowErrorCode : Type 0 where
  workflow_input_invalid workflow_identity_invalid workflow_time_invalid : WorkflowErrorCode
  workflow_definition_invalid workflow_authorization_denied : WorkflowErrorCode
  workflow_review_denied workflow_approval_denied workflow_archive_denied : WorkflowErrorCode
  workflow_tenant_denied workflow_transition_invalid workflow_version_invalid : WorkflowErrorCode
  workflow_generation_source_invalid workflow_separation_of_duties : WorkflowErrorCode
  workflow_review_invalid workflow_review_required : WorkflowErrorCode
  workflow_supersession_invalid : WorkflowErrorCode

-- The message is left out.
pub record WorkflowLifecycleError : Type 0 where
  pub code : WorkflowErrorCode
  pub retryable : Bool

-- `new WorkflowLifecycleError(code, message)`.
abbrev pub lifecycle_error : WorkflowErrorCode → WorkflowLifecycleError
lifecycle_error c = record { code = c; retryable = false }
