-- ===== src/Workflow.antt =====
-- src/workflowLifecycle: the life of a workflow version from draft to archive. `Machine` has the
-- transitions; the modules below it, what they keep.
pub mod Types
pub mod Checks
pub mod Machine
pub mod History
pub mod Invariant
pub mod Separation
pub mod Identity
pub mod Access
pub mod Graph
pub mod Approval
mod Tests
