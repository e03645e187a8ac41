-- ===== src/Retrieval.antt =====
-- The folder src/retrieval: candidates from three searches are deduplicated, scored and ranked.
pub mod Types
pub mod Dedupe
pub mod Score
pub mod Hybrid
pub mod Order
pub mod Samples
mod Tests
