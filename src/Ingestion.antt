-- ===== src/Ingestion.antt =====
-- The durable ingestion jobs of src/ingestion: their identity, the table, the service and the
-- worker.
pub mod Types
pub mod Identity
pub mod Store
pub mod Queue
pub mod Rows
pub mod Service
pub mod Enqueue
pub mod Lease
pub mod Settle
pub mod Step
pub mod Table
pub mod Kept
pub mod View
pub mod Moves
pub mod History
pub mod Artifact
pub mod Failure
pub mod Worker
mod Samples
mod LeaseTests
mod Tests
mod WorkerTests
