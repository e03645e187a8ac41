-- ===== src/Workflow/Graph.antt =====
-- The transition diagram of src/workflowLifecycle/stateMachine.ts.
use la_muni_rag.Base.{◌≡◌, ◌≢◌, inl, inr, ok, err, arith, Result-cases}
use la_muni_rag.Workflow.Types.{
  WorkflowLifecycleStatus, draft, in_review, approved, superseded, archived, WorkflowLifecycleActor,
  WorkflowVersionRecord, WorkflowLifecycleError,
}
use la_muni_rag.Workflow.Checks.{Runtime, require_status, status_eq}
use la_muni_rag.Workflow.Machine.{
  settle_review, revise_workflow_draft, submit_workflow_for_review, record_workflow_review,
  approve_workflow_version, supersede_workflow_version, archive_workflow_version,
}
use la_muni_rag.Workflow.History.{Command, revise, apply, Reach, here, next}
use la_muni_rag.Workflow.Identity.{SameContent}

-- The diagram of docs/workflow-lifecycle.md, from `submitted` to `replaced` and with
-- `shelved_superseded`; the revisions and recommendations that leave the status as it is; and what the
-- diagram has no edge for, the archiving of a draft, of a version in review and of an approved one.
pub data Edge : WorkflowLifecycleStatus → WorkflowLifecycleStatus → Type 0 where
  revised : Edge draft draft
  submitted : Edge draft in_review
  returned : Edge in_review draft
  recommended : Edge in_review in_review
  accepted : Edge in_review approved
  replaced : Edge approved superseded
  shelved_draft : Edge draft archived
  shelved_review : Edge in_review archived
  shelved_approved : Edge approved archived
  shelved_superseded : Edge superseded archived

ruleset edges = (
  revised, submitted, returned, recommended, accepted, replaced, shelved_draft, shelved_review,
  shelved_approved, shelved_superseded,
)

-- An accepted command follows an edge of the documented diagram, leaves a draft or a version in review
-- in its status, or archives a version that is not yet superseded.
pub apply-Edge :
    (rt : Runtime) (r : WorkflowVersionRecord) (actor : WorkflowLifecycleActor) (c : Command)
    {s : WorkflowVersionRecord}
    → apply rt r actor c ≡ ok s
    → Edge r.lifecycle_status s.lifecycle_status
unfolding apply revise_workflow_draft submit_workflow_for_review record_workflow_review
    settle_review approve_workflow_version supersede_workflow_version archive_workflow_version
    require_status status_eq
apply-Edge rt r actor (revise input) h = grind (arith, edges)
apply-Edge rt r actor _ h = grind (arith, edges)

not-Edge-archived : {a b : WorkflowLifecycleStatus} → Edge a b → a ≢ archived
not-Edge-archived revised e = cc
not-Edge-archived _ e = cc

-- An archived version is final: every command of every actor is refused.
pub apply_archived :
    (rt : Runtime) (r : WorkflowVersionRecord) (actor : WorkflowLifecycleActor) (c : Command)
    → r.lifecycle_status ≡ archived
    → (e : WorkflowLifecycleError) × (apply rt r actor c ≡ err e)
apply_archived rt r actor c h = elim (Result-cases (apply rt r actor c)) [
  | inl (s, done) ↦ absurd (not-Edge-archived (apply-Edge rt r actor c done) h)
  | inr refused ↦ refused
]

-- Past approval: approved, superseded or archived.
abbrev pub IsSettled : WorkflowLifecycleStatus → Type 0
IsSettled draft = ⊥
IsSettled in_review = ⊥
IsSettled approved = Unit
IsSettled superseded = Unit
IsSettled archived = Unit

-- What an approval has fixed: the content, the review and the approval.
pub record SameDecision (r s : WorkflowVersionRecord) : Type 0 where
  pub settled : IsSettled s.lifecycle_status
  pub content : SameContent r s
  pub same_review : s.latest_review ≡ r.latest_review
  pub same_approval : s.approval ≡ r.approval

apply-SameDecision :
    (rt : Runtime) (r : WorkflowVersionRecord) (actor : WorkflowLifecycleActor) (c : Command)
    {s : WorkflowVersionRecord}
    → IsSettled r.lifecycle_status
    → apply rt r actor c ≡ ok s
    → SameDecision r s
unfolding apply revise_workflow_draft submit_workflow_for_review record_workflow_review
    settle_review approve_workflow_version supersede_workflow_version archive_workflow_version
    require_status status_eq
apply-SameDecision rt r actor (revise input) p h = ground arith
apply-SameDecision rt r actor _ p h = ground arith

-- After approval no history changes the content, the review or the approval, and none leads back to
-- a draft or to review.
pub Reach-SameDecision :
    (rt : Runtime) {r s : WorkflowVersionRecord}
    → IsSettled r.lifecycle_status
    → Reach rt r s
    → SameDecision r s
Reach-SameDecision rt p here = ground arith
Reach-SameDecision rt p (next {s} before actor c h) =
    let d = Reach-SameDecision rt p before in
    ground (arith, apply-SameDecision rt s actor c d.settled h)
