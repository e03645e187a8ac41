-- ===== src/Workflow/Checks.antt =====
-- The checks of src/workflowLifecycle/stateMachine.ts: texts, identifiers, times, roles, tenant,
-- status. `Runtime` is what the file calls in its platform. `structuredClone` makes a value's
-- copy and does not show in a model without references.
use la_muni_rag.Base.{
  ℕ, ◌*◌, Bool, true, false, ◌||◌, not, Option, none, some, List, [], ◌∷◌, map, any, ltb, leb, ◌==◌,
  if◌then◌else◌, length, Result, ok, err, ◌>>=◌, ◌>>◌, guard,
}
use la_muni_rag.Base.Text.{Text, text_eq, is_empty, between, trim, lower}
use la_muni_rag.Base.Uuid.{fits, versioned_uuid}
use la_muni_rag.Base.Json.{Json, is_object}
use la_muni_rag.Security.Roles.{
  SecurityRole, platform_admin, tenant_admin, procedure_author, procedure_reviewer,
  procedure_approver, role_eq,
}
use la_muni_rag.Workflow.Types.{
  WorkflowLifecycleStatus, draft, in_review, approved, superseded, archived, WorkflowLifecycleActor,
  WorkflowVersionRecord, WorkflowErrorCode, workflow_input_invalid, workflow_identity_invalid,
  workflow_time_invalid, workflow_definition_invalid, workflow_tenant_denied,
  workflow_transition_invalid, WorkflowLifecycleError, lifecycle_error,
}

-- `nfc` is `normalize("NFC")`; `date_parse` is `Date.parse`, none for NaN, with a time value coded
-- by a natural number; `to_iso` is `toISOString` of such a time; `stringify` is `JSON.stringify`,
-- none where it throws; `parse` is `JSON.parse`; `byte_length` is `Buffer.byteLength` in UTF-8.
pub record Runtime : Type 0 where
  pub nfc : Text → Text
  pub date_parse : Text → Option ℕ
  pub to_iso : ℕ → Text
  pub stringify : Json → Option Text
  pub parse : Text → Json
  pub byte_length : Text → ℕ

abbrev pub Checked : Type 0 → Type 0
Checked A = Result WorkflowLifecycleError A

abbrev pub max_title_length : ℕ
max_title_length = 300

abbrev pub max_jurisdiction_length : ℕ
max_jurisdiction_length = 500

abbrev pub max_review_notes_length : ℕ
max_review_notes_length = 4000

abbrev pub max_definition_bytes : ℕ
max_definition_bytes = 2 * 1024 * 1024

abbrev pub author_roles : List SecurityRole
author_roles = platform_admin ∷ tenant_admin ∷ procedure_author ∷ []

abbrev pub reviewer_roles : List SecurityRole
reviewer_roles = platform_admin ∷ tenant_admin ∷ procedure_reviewer ∷ []

abbrev pub approver_roles : List SecurityRole
approver_roles = platform_admin ∷ tenant_admin ∷ procedure_approver ∷ []

-- `[\u0000-\u0008\u000b\u000c\u000e-\u001f\u007f]`.
unfoldable pub is_control : ℕ → Bool
is_control c = leb c 8 || c == 11 || c == 12 || between 14 31 c || c == 127

module _ (rt : Runtime) where
  unfoldable pub normalized_text : Text → ℕ → Checked Text
  normalized_text value max_length =
      let normalized = trim (rt.nfc value) in
      if is_empty normalized || ltb max_length (length normalized) || any is_control normalized
      then err (lifecycle_error workflow_input_invalid)
      else ok normalized

  unfoldable pub canonical_time : Text → Checked Text
  canonical_time value = elim (rt.date_parse value) [
    | none ↦ err (lifecycle_error workflow_time_invalid)
    | some milliseconds ↦ ok (rt.to_iso milliseconds)
  ]

  unfoldable pub cloned_definition : Json → Checked Json
  cloned_definition value =
      if not (is_object value)
      then err (lifecycle_error workflow_definition_invalid)
      else elim (rt.stringify value) [
        | none ↦ err (lifecycle_error workflow_definition_invalid)
        | some serialized ↦
            if ltb (rt.byte_length serialized) 2
              || ltb max_definition_bytes (rt.byte_length serialized)
            then err (lifecycle_error workflow_definition_invalid)
            else ok (rt.parse serialized)
      ]

unfoldable pub canonical_uuid : Text → Checked Text
canonical_uuid value =
    if not (fits versioned_uuid value)
    then err (lifecycle_error workflow_identity_invalid)
    else ok (map lower value)

unfoldable pub has_role : WorkflowLifecycleActor → List SecurityRole → Bool
has_role actor allowed = any (λ role. any (role_eq role) allowed) actor.roles

unfoldable pub require_role :
    WorkflowLifecycleActor → List SecurityRole → WorkflowErrorCode → Checked (Unit {0})
require_role actor allowed code = guard (has_role actor allowed) (lifecycle_error code)

unfoldable pub require_tenant : WorkflowVersionRecord → WorkflowLifecycleActor → Checked (Unit {0})
require_tenant r actor = do
  tenant ← canonical_uuid actor.tenant_id
  guard (text_eq tenant r.tenant_id) (lifecycle_error workflow_tenant_denied)
  _ ← canonical_uuid actor.principal_id
  ok tt

unfoldable pub status_eq : WorkflowLifecycleStatus → WorkflowLifecycleStatus → Bool
status_eq draft draft = true
status_eq in_review in_review = true
status_eq approved approved = true
status_eq superseded superseded = true
status_eq archived archived = true
status_eq _ _ = false

unfoldable pub require_status : WorkflowVersionRecord → WorkflowLifecycleStatus → Checked (Unit {0})
require_status r expected =
    guard (status_eq r.lifecycle_status expected) (lifecycle_error workflow_transition_invalid)
