-- ===== src/Workflow/Tests.antt =====
-- One version through its life, and the theorems of workflowLifecycle at it.
use la_muni_rag.Base.{◌≡◌, refl, inl, ◌↔◌, true, none, some, [], ◌∷◌, ok, is_ok, length, arith}
use la_muni_rag.Base.Text.{Text, codes, text_eq, trim, lower}
use la_muni_rag.Base.Uuid.{fits, is_place, versioned_uuid}
use la_muni_rag.Base.Json.{object, end, is_object}
use la_muni_rag.Security.Roles.{procedure_author, procedure_reviewer, procedure_approver, role_eq}
use la_muni_rag.Workflow.Types.{
  draft, in_review, approved, superseded, archived, ai, recommended_for_approval,
  WorkflowLifecycleActor, WorkflowVersionRecord, InitializeWorkflowVersionInput,
  WorkflowReviewInput, WorkflowApprovalInput, WorkflowSupersessionApprovalInput,
  WorkflowSupersessionResult,
}
use la_muni_rag.Workflow.Checks.{
  Runtime, normalized_text, canonical_time, cloned_definition, canonical_uuid, has_role,
  require_role, require_tenant, require_status, status_eq, is_control,
}
use la_muni_rag.Workflow.Machine.{
  is_supported_source, optional_uuid, recommended_review, settle_review, require_replacement,
  initialize_workflow_version, submit_workflow_for_review, record_workflow_review,
  approve_workflow_version, supersede_workflow_version, approve_replacement_and_supersede,
  archive_workflow_version,
}
use la_muni_rag.Workflow.History.{submit, review, approve, archive, apply, Reach, here, next}
use la_muni_rag.Workflow.Invariant.{IsWellFormed, Reach-IsWellFormed}
use la_muni_rag.Workflow.Separation.{IsThreeHanded, Reach-IsThreeHanded}
use la_muni_rag.Workflow.Access.{IsAuthorized, apply-IsAuthorized}
use la_muni_rag.Workflow.Graph.{Edge, apply-Edge, SameDecision, Reach-SameDecision}
use la_muni_rag.Workflow.Approval.{
  CanApprove, approve_iff, IsReplaced, approve_replacement_and_supersede-IsReplaced,
}

-- A platform that reads every text but the empty one as a time.
abbrev simple : Runtime
simple = record {
  nfc = λ t. t;
  date_parse = λ t. elim t [ [] ↦ none | c ∷ s ↦ some c ];
  to_iso = λ n. n ∷ [];
  stringify = λ j. some (codes "{}");
  parse = λ t. object end;
  byte_length = length;
}

abbrev id1 : Text
id1 = codes "11111111-1111-4111-8111-11111111111A"

abbrev id2 : Text
id2 = codes "22222222-2222-4222-8222-222222222222"

abbrev id3 : Text
id3 = codes "33333333-3333-4333-8333-333333333333"

abbrev id4 : Text
id4 = codes "44444444-4444-4444-8444-444444444444"

abbrev id5 : Text
id5 = codes "55555555-5555-4555-8555-555555555555"

abbrev author : WorkflowLifecycleActor
author = record { principal_id = id3; tenant_id = id2; roles = procedure_author ∷ [] }

abbrev reviewer : WorkflowLifecycleActor
reviewer = record { principal_id = id4; tenant_id = id2; roles = procedure_reviewer ∷ [] }

abbrev approver : WorkflowLifecycleActor
approver = record { principal_id = id5; tenant_id = id2; roles = procedure_approver ∷ [] }

abbrev input : InitializeWorkflowVersionInput
input = record {
  workflow_version_id = id1;
  tenant_id = id2;
  procedure_id = id4;
  version_number = 1;
  generation_source = ai;
  created_by_principal_id = id3;
  jurisdiction = codes " Antigua ";
  title = codes "Permit";
  workflow_definition = object end;
  evidence_bundle_id = none;
  now = codes "2026";
}

abbrev review_input : WorkflowReviewInput
review_input = record {
  review_id = id1;
  decision = recommended_for_approval;
  notes = codes "ok";
  now = codes "3";
}

abbrev approval_input : WorkflowApprovalInput
approval_input = record { approval_id = id2; notes = codes "yes"; now = codes "4" }

abbrev fresh : WorkflowVersionRecord
fresh = record {
  workflow_version_id = codes "11111111-1111-4111-8111-11111111111a";
  tenant_id = id2;
  procedure_id = id4;
  version_number = 1;
  lifecycle_status = draft;
  generation_source = ai;
  created_by_principal_id = id3;
  jurisdiction = codes "Antigua";
  title = codes "Permit";
  workflow_definition = object end;
  evidence_bundle_id = none;
  revision = 1;
  submitted_by_principal_id = none;
  submitted_at = none;
  latest_review = none;
  approval = none;
  superseded_by_workflow_version_id = none;
  archived_by_principal_id = none;
  archived_at = none;
  created_at = codes "2";
  updated_at = codes "2";
}

abbrev in_hands : WorkflowVersionRecord
in_hands = record fresh {
  lifecycle_status = in_review;
  submitted_by_principal_id = some id3;
  submitted_at = some (codes "2");
}

abbrev reviewed : WorkflowVersionRecord
reviewed = record in_hands {
  latest_review = some (record {
    review_id = codes "11111111-1111-4111-8111-11111111111a";
    reviewer_principal_id = id4;
    decision = recommended_for_approval;
    notes = codes "ok";
    created_at = codes "3";
  });
  updated_at = codes "3";
}

abbrev signed : WorkflowVersionRecord
signed = record reviewed {
  lifecycle_status = approved;
  approval = some (record {
    approval_id = id2;
    approver_principal_id = id5;
    notes = codes "yes";
    created_at = codes "4";
  });
  updated_at = codes "4";
}

made : initialize_workflow_version simple input ≡ ok fresh
unfolding initialize_workflow_version canonical_time canonical_uuid normalized_text
    cloned_definition optional_uuid is_supported_source is_object is_control trim fits
    versioned_uuid is_place lower
made = refl

submitted_step : apply simple fresh author (submit (codes "2")) ≡ ok in_hands
unfolding apply submit_workflow_for_review require_tenant require_role require_status status_eq
    has_role role_eq canonical_uuid canonical_time fits versioned_uuid is_place lower text_eq
submitted_step = refl

reviewed_step : apply simple in_hands reviewer (review review_input) ≡ ok reviewed
unfolding apply record_workflow_review settle_review require_tenant require_role require_status
    status_eq has_role role_eq canonical_uuid canonical_time normalized_text is_control trim fits
    versioned_uuid is_place lower text_eq
reviewed_step = refl

signed_step : apply simple reviewed approver (approve approval_input) ≡ ok signed
unfolding apply approve_workflow_version recommended_review require_tenant require_role
    require_status status_eq has_role role_eq canonical_uuid canonical_time normalized_text
    is_control trim fits versioned_uuid is_place lower text_eq
signed_step = refl

to_reviewed : Reach simple fresh reviewed
to_reviewed =
    next (next here author (submit (codes "2")) submitted_step) reviewer (review review_input)
      reviewed_step

to_signed : Reach simple fresh signed
to_signed = next to_reviewed approver (approve approval_input) signed_step

Reach-IsWellFormed_example : IsWellFormed signed
Reach-IsWellFormed_example = Reach-IsWellFormed simple input made to_signed

Reach-IsThreeHanded_example : IsThreeHanded signed
Reach-IsThreeHanded_example = Reach-IsThreeHanded simple input made to_signed (inl refl)

approve_iff_example :
    (is_ok (approve_workflow_version simple reviewed approver approval_input) ≡ true)
    ↔ CanApprove simple reviewed approver approval_input
approve_iff_example = approve_iff simple reviewed approver approval_input

abbrev renewed : WorkflowVersionRecord
renewed = record reviewed { workflow_version_id = id3; version_number = 2 }

abbrev replacing : WorkflowSupersessionApprovalInput
replacing = record {
  supersession = record { replacement_workflow_version_id = id3; now = codes "5" };
  approval_id = id2;
  notes = codes "new";
}

abbrev exchanged : WorkflowSupersessionResult
exchanged = record {
  superseded_version = record signed {
    lifecycle_status = superseded;
    superseded_by_workflow_version_id = some id3;
    updated_at = codes "5";
  };
  replacement = record renewed {
    lifecycle_status = approved;
    approval = some (record {
      approval_id = id2;
      approver_principal_id = id5;
      notes = codes "new";
      created_at = codes "5";
    });
    updated_at = codes "5";
  };
}

exchanged_step :
    approve_replacement_and_supersede simple signed renewed approver replacing ≡ ok exchanged
unfolding approve_replacement_and_supersede require_replacement approve_workflow_version
    supersede_workflow_version recommended_review require_tenant require_role require_status
    status_eq has_role role_eq canonical_uuid canonical_time normalized_text is_control trim fits
    versioned_uuid is_place lower text_eq
exchanged_step = refl

signed-IsWellFormed : IsWellFormed signed
unfolding text_eq
signed-IsWellFormed = ground arith

renewed-IsWellFormed : IsWellFormed renewed
unfolding text_eq
renewed-IsWellFormed = ground arith

approve_replacement_and_supersede-IsReplaced_example : IsReplaced signed renewed exchanged
approve_replacement_and_supersede-IsReplaced_example =
    approve_replacement_and_supersede-IsReplaced simple signed renewed approver replacing
      signed-IsWellFormed renewed-IsWellFormed exchanged_step

apply-Edge_example : Edge in_review approved
apply-Edge_example = apply-Edge simple reviewed approver (approve approval_input) signed_step

abbrev retired : WorkflowVersionRecord
retired = record signed {
  lifecycle_status = archived;
  archived_by_principal_id = some id5;
  archived_at = some (codes "6");
  updated_at = codes "6";
}

retired_step : apply simple signed approver (archive (codes "6")) ≡ ok retired
unfolding apply archive_workflow_version require_tenant require_role status_eq has_role role_eq
    canonical_uuid canonical_time fits versioned_uuid is_place lower text_eq
retired_step = refl

Reach-SameDecision_example : SameDecision signed retired
Reach-SameDecision_example =
    Reach-SameDecision simple tt (next here approver (archive (codes "6")) retired_step)

apply-IsAuthorized_example : IsAuthorized reviewed approver (approve approval_input)
apply-IsAuthorized_example =
    apply-IsAuthorized simple reviewed approver (approve approval_input) signed_step
