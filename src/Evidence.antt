-- ===== src/Evidence.antt =====
-- src/evidence.ts, src/answer.ts and src/retrieval/vectorRetriever.ts: searches become evidence,
-- and evidence becomes a draft answer.
pub mod Types
pub mod Convert
pub mod Find
pub mod Cited
pub mod Vector
pub mod Answer
pub mod Draft
pub mod Marks
mod Tests
