-- ===== src/Workflow/Machine.antt =====
-- The transitions of src/workflowLifecycle/stateMachine.ts. Each is a function from the record to
-- the new record or the error that the source throws, with the checks in the source's order.
use la_muni_rag.Base.{
  ℕ, ◌+◌, Bool, true, false, ◌||◌, ◌&&◌, not, Option, none, some, leb, if◌then◌else◌, ok, err,
  ◌>>=◌, ◌>>◌, guard,
}
use la_muni_rag.Base.Text.{Text, text_eq, is_empty}
use la_muni_rag.Workflow.Types.{
  draft, in_review, approved, superseded, archived, WorkflowGenerationSource, unknown_source,
  WorkflowReviewDecision, changes_requested, recommended_for_approval, unknown_decision,
  WorkflowLifecycleActor, WorkflowReviewRecord, WorkflowVersionRecord,
  InitializeWorkflowVersionInput, ReviseWorkflowDraftInput, WorkflowReviewInput,
  WorkflowApprovalInput, WorkflowSupersessionInput, WorkflowSupersessionApprovalInput,
  WorkflowSupersessionResult, workflow_authorization_denied, workflow_review_denied,
  workflow_approval_denied, workflow_archive_denied, workflow_transition_invalid,
  workflow_version_invalid, workflow_generation_source_invalid, workflow_separation_of_duties,
  workflow_review_invalid, workflow_review_required, workflow_supersession_invalid, lifecycle_error,
}
use la_muni_rag.Workflow.Checks.{
  Runtime, Checked, max_title_length, max_jurisdiction_length, max_review_notes_length,
  author_roles, reviewer_roles, approver_roles, normalized_text, canonical_time, cloned_definition,
  canonical_uuid, require_role, require_tenant, status_eq, require_status,
}

-- `["ai", "human", "import"].includes(source)`.
unfoldable pub is_supported_source : WorkflowGenerationSource → Bool
is_supported_source (unknown_source t) = false
is_supported_source _ = true

abbrev pub max_safe_integer : ℕ
max_safe_integer = 9_007_199_254_740_991

-- `id ? canonicalUuid(id) : null`; the empty text counts as absent.
unfoldable pub optional_uuid : Option Text → Checked (Option Text)
optional_uuid none = ok none
optional_uuid (some t) = if is_empty t then ok none else canonical_uuid t >>= λ u. ok (some u)

-- `if (value !== undefined) field = normalizedText(value, …)`.
unfoldable pub revised_text : Runtime → Option Text → Text → ℕ → Checked Text
revised_text rt none old max_length = ok old
revised_text rt (some t) old max_length = normalized_text rt t max_length

unfoldable pub revised_bundle : Option (Option Text) → Option Text → Checked (Option Text)
revised_bundle none old = ok old
revised_bundle (some b) old = optional_uuid b

-- `!record.latestReview || record.latestReview.decision !== "recommended_for_approval"`, negated:
-- the review on which an approval can rest.
unfoldable pub recommended_review : Option WorkflowReviewRecord → Checked WorkflowReviewRecord
recommended_review none = err (lifecycle_error workflow_review_required)
recommended_review (some review) = elim review.decision [
  | recommended_for_approval ↦ ok review
  | _ ↦ err (lifecycle_error workflow_review_required)
]

-- What the decision of a review does to the record.
unfoldable pub settle_review :
    WorkflowReviewDecision → WorkflowVersionRecord → Checked WorkflowVersionRecord
settle_review changes_requested r = ok (record r {
  lifecycle_status = draft;
  submitted_by_principal_id = none;
  submitted_at = none;
  approval = none;
})
settle_review recommended_for_approval r = ok r
settle_review (unknown_decision t) r = err (lifecycle_error workflow_review_invalid)

-- The replacement has to be the requested version; its identifier is read only if the two
-- procedures agree.
unfoldable pub require_replacement :
    WorkflowVersionRecord → WorkflowVersionRecord → Text → Checked (Unit {0})
require_replacement current replacement requested =
    if not (text_eq current.procedure_id replacement.procedure_id)
    then err (lifecycle_error workflow_supersession_invalid)
    else (canonical_uuid requested >>= λ id.
        guard (text_eq replacement.workflow_version_id id)
          (lifecycle_error workflow_supersession_invalid))

module _ (rt : Runtime) where
  unfoldable pub initialize_workflow_version :
      InitializeWorkflowVersionInput → Checked WorkflowVersionRecord
  initialize_workflow_version input = do
    created_at ← canonical_time rt input.now
    guard (leb 1 input.version_number && leb input.version_number max_safe_integer)
        (lifecycle_error workflow_version_invalid)
    guard (is_supported_source input.generation_source)
        (lifecycle_error workflow_generation_source_invalid)
    version_id ← canonical_uuid input.workflow_version_id
    tenant_id ← canonical_uuid input.tenant_id
    procedure_id ← canonical_uuid input.procedure_id
    creator ← canonical_uuid input.created_by_principal_id
    jurisdiction ← normalized_text rt input.jurisdiction max_jurisdiction_length
    title ← normalized_text rt input.title max_title_length
    definition ← cloned_definition rt input.workflow_definition
    bundle ← optional_uuid input.evidence_bundle_id
    ok (record {
      workflow_version_id = version_id;
      tenant_id = tenant_id;
      procedure_id = procedure_id;
      version_number = input.version_number;
      lifecycle_status = draft;
      generation_source = input.generation_source;
      created_by_principal_id = creator;
      jurisdiction = jurisdiction;
      title = title;
      workflow_definition = definition;
      evidence_bundle_id = bundle;
      revision = 1;
      submitted_by_principal_id = none;
      submitted_at = none;
      latest_review = none;
      approval = none;
      superseded_by_workflow_version_id = none;
      archived_by_principal_id = none;
      archived_at = none;
      created_at = created_at;
      updated_at = created_at;
    })

  unfoldable pub revise_workflow_draft :
      WorkflowVersionRecord
      → WorkflowLifecycleActor
      → ReviseWorkflowDraftInput
      → Checked WorkflowVersionRecord
  revise_workflow_draft r actor input = do
    require_tenant r actor
    require_role actor author_roles workflow_authorization_denied
    require_status r draft
    definition ← cloned_definition rt input.workflow_definition
    title ← revised_text rt input.title r.title max_title_length
    jurisdiction ← revised_text rt input.jurisdiction r.jurisdiction max_jurisdiction_length
    bundle ← revised_bundle input.evidence_bundle_id r.evidence_bundle_id
    now ← canonical_time rt input.now
    ok (record r {
      workflow_definition = definition;
      title = title;
      jurisdiction = jurisdiction;
      evidence_bundle_id = bundle;
      revision = r.revision + 1;
      updated_at = now;
      latest_review = none;
      approval = none;
    })

  unfoldable pub submit_workflow_for_review :
      WorkflowVersionRecord → WorkflowLifecycleActor → Text → Checked WorkflowVersionRecord
  submit_workflow_for_review r actor now = do
    require_tenant r actor
    require_role actor author_roles workflow_authorization_denied
    require_status r draft
    submitter ← canonical_uuid actor.principal_id
    submitted_at ← canonical_time rt now
    ok (record r {
      lifecycle_status = in_review;
      submitted_by_principal_id = some submitter;
      submitted_at = some submitted_at;
      updated_at = submitted_at;
      latest_review = none;
      approval = none;
    })

  unfoldable pub record_workflow_review :
      WorkflowVersionRecord
      → WorkflowLifecycleActor
      → WorkflowReviewInput
      → Checked WorkflowVersionRecord
  record_workflow_review r actor input = do
    require_tenant r actor
    require_role actor reviewer_roles workflow_review_denied
    require_status r in_review
    reviewer ← canonical_uuid actor.principal_id
    guard (not (text_eq reviewer r.created_by_principal_id))
        (lifecycle_error workflow_separation_of_duties)
    created_at ← canonical_time rt input.now
    review_id ← canonical_uuid input.review_id
    notes ← normalized_text rt input.notes max_review_notes_length
    settle_review input.decision (record r {
      latest_review = some (record {
        review_id = review_id;
        reviewer_principal_id = reviewer;
        decision = input.decision;
        notes = notes;
        created_at = created_at;
      });
      updated_at = created_at;
    })

  unfoldable pub approve_workflow_version :
      WorkflowVersionRecord
      → WorkflowLifecycleActor
      → WorkflowApprovalInput
      → Checked WorkflowVersionRecord
  approve_workflow_version r actor input = do
    require_tenant r actor
    require_role actor approver_roles workflow_approval_denied
    require_status r in_review
    approver ← canonical_uuid actor.principal_id
    review ← recommended_review r.latest_review
    guard
        (not (
          text_eq approver r.created_by_principal_id
          || text_eq approver review.reviewer_principal_id))
        (lifecycle_error workflow_separation_of_duties)
    created_at ← canonical_time rt input.now
    approval_id ← canonical_uuid input.approval_id
    notes ← normalized_text rt input.notes max_review_notes_length
    ok (record r {
      lifecycle_status = approved;
      approval = some (record {
        approval_id = approval_id;
        approver_principal_id = approver;
        notes = notes;
        created_at = created_at;
      });
      updated_at = created_at;
    })

  unfoldable pub supersede_workflow_version :
      WorkflowVersionRecord
      → WorkflowLifecycleActor
      → WorkflowSupersessionInput
      → Checked WorkflowVersionRecord
  supersede_workflow_version r actor input = do
    require_tenant r actor
    require_role actor approver_roles workflow_approval_denied
    require_status r approved
    replacement ← canonical_uuid input.replacement_workflow_version_id
    guard (not (text_eq replacement r.workflow_version_id))
        (lifecycle_error workflow_supersession_invalid)
    now ← canonical_time rt input.now
    ok (record r {
      lifecycle_status = superseded;
      superseded_by_workflow_version_id = some replacement;
      updated_at = now;
    })

  unfoldable pub approve_replacement_and_supersede :
      WorkflowVersionRecord
      → WorkflowVersionRecord
      → WorkflowLifecycleActor
      → WorkflowSupersessionApprovalInput
      → Checked WorkflowSupersessionResult
  approve_replacement_and_supersede current replacement actor input = do
    require_tenant current actor
    require_tenant replacement actor
    require_replacement current replacement input.replacement_workflow_version_id
    approved_replacement ←
        approve_workflow_version replacement actor
          (record { approval_id = input.approval_id; notes = input.notes; now = input.now })
    superseded_version ← supersede_workflow_version current actor input.supersession
    ok (record { superseded_version = superseded_version; replacement = approved_replacement })

  unfoldable pub archive_workflow_version :
      WorkflowVersionRecord → WorkflowLifecycleActor → Text → Checked WorkflowVersionRecord
  archive_workflow_version r actor now = do
    require_tenant r actor
    require_role actor approver_roles workflow_archive_denied
    guard (not (status_eq r.lifecycle_status archived))
        (lifecycle_error workflow_transition_invalid)
    archived_at ← canonical_time rt now
    archiver ← canonical_uuid actor.principal_id
    ok (record r {
      lifecycle_status = archived;
      archived_by_principal_id = some archiver;
      archived_at = some archived_at;
      updated_at = archived_at;
    })
