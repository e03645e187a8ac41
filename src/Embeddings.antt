-- ===== src/Embeddings.antt =====
-- The folder src/embeddings: documents are cut into chunks, which are embedded and stored.
pub mod Split
pub mod Normalize
pub mod Types
pub mod Planner
pub mod Plan
pub mod Validation
pub mod Indexer
mod Tests
