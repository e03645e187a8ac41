-- ===== src/Embeddings/Indexer.antt =====
-- src/embeddings/indexer.ts. The provider and the repository
-- answer their n-th call; `indexed_at` is the time that the clock gives.
pub mod Batches
pub mod Prepared
pub mod Counts
use la_muni_rag.Base.{
  ℕ, zero, suc, ◌+◌, Bool, true, false, not, ◌||◌, ◌&&◌, Option, none, some, List, [], ◌∷◌, ◌++◌,
  map, length, take, drop, get_elem?, ltb, leb, ◌==◌, Result, ok, err, guard, ◌>>=◌, ◌>>◌, get_or,
  if◌then◌else◌,
}
use la_muni_rag.Base.Text.{Text, codes, is_empty, trim, decimal}
use la_muni_rag.Embeddings.Split.{ChunkPlannerOptions}
use la_muni_rag.Embeddings.Types.{
  NormalizedDocument, EmbeddingChunk, PlanChunksInput, EmbeddingFailure, Thrown, pipeline_error,
  other_error, embedded, EmbeddingVectorRecord, EmbeddingProvider, WriteResult, inserted, updated,
  unchanged, PreparedEmbeddingRecords, IndexDocumentResult,
}
use la_muni_rag.Embeddings.Validation.{
  validate_chunks, validate_vector_dimensions, validate_vector_count, failure_from_error,
}
use la_muni_rag.Embeddings.Planner.{default_chunk_planner_options, plan_chunks}

abbrev pub max_chunks_per_document : ℕ
max_chunks_per_document = 5000

abbrev pub max_embedding_batch_size : ℕ
max_embedding_batch_size = 64

unfoldable pub bounded_option : Option ℕ → ℕ → ℕ → Text → Result Thrown ℕ
bounded_option value fallback maximum name =
    let resolved = get_or value fallback in
    guard (not (ltb resolved 1 || ltb maximum resolved)) (
      pipeline_error (codes "embedding_resource_policy_invalid")
        (name ++ codes " must be an integer between 1 and " ++ decimal maximum ++ codes ".") false)
    >> ok resolved

pub record IndexDocumentOptions : Type 0 where
  pub chunk_planner_options : Option ChunkPlannerOptions
  pub max_chunks : Option ℕ
  pub embedding_batch_size : Option ℕ

-- The policies and the chunks planned.
unfoldable pub plan_document :
    (Text → Text)
    → NormalizedDocument
    → PlanChunksInput
    → IndexDocumentOptions
    → Result Thrown (ℕ × ℕ × List EmbeddingChunk)
plan_document sha256 document input options = do
  max_chunks ←
      bounded_option options.max_chunks max_chunks_per_document max_chunks_per_document
        (codes "maxChunksPerDocument")
  size ←
      bounded_option options.embedding_batch_size max_embedding_batch_size max_embedding_batch_size
        (codes "embeddingBatchSize")
  chunks ←
      plan_chunks sha256 document input
        (get_or options.chunk_planner_options default_chunk_planner_options) max_chunks
  ok (max_chunks, size, chunks)

-- The counters after a write.
unfoldable pub count_write : WriteResult → IndexDocumentResult → IndexDocumentResult
count_write inserted result = record result {
  embedded_count = result.embedded_count + 1;
  inserted_count = result.inserted_count + 1;
}
count_write updated result = record result {
  embedded_count = result.embedded_count + 1;
  updated_count = result.updated_count + 1;
}
count_write unchanged result = record result {
  embedded_count = result.embedded_count + 1;
  unchanged_count = result.unchanged_count + 1;
}

module _ {Vector : Type 0} where
  -- The `catch` clause.
  unfoldable pub preparation_failed : ℕ → Thrown → PreparedEmbeddingRecords Vector
  preparation_failed planned_count thrown = record {
    planned_count = planned_count;
    records = [];
    failed_count = planned_count;
    failures = failure_from_error thrown ∷ [];
  }

  unfoldable pub initial_result : PreparedEmbeddingRecords Vector → IndexDocumentResult
  initial_result prepared = record {
    planned_count = prepared.planned_count;
    embedded_count = 0;
    inserted_count = 0;
    updated_count = 0;
    unchanged_count = 0;
    failed_count = prepared.failed_count;
    failures = prepared.failures;
  }

  module _ (provider : EmbeddingProvider Vector) where
    -- One batch: the provider's n-th call and the checks of what it gives.
    unfoldable pub embed_batch : ℕ → List EmbeddingChunk → Result Thrown (List (List Vector))
    embed_batch n batch = do
      vectors ← provider.embed n (map (λ (c : EmbeddingChunk). c.text) batch)
      validate_vector_count vectors (length batch)
      validate_vector_dimensions vectors provider.dimensions
      ok vectors

    -- The loop over the batches that is at `start`, after `n` calls. Its step is at least one, so the
    -- number of chunks is fuel enough.
    unfoldable pub embed_batches :
        List EmbeddingChunk
        → ℕ
        → ℕ
        → ℕ
        → ℕ
        → List (List Vector)
        → Result Thrown (List (List Vector))
    embed_batches chunks size zero n start vectors = ok vectors
    embed_batches chunks size (suc fuel) n start vectors = elim (ltb start (length chunks)) [
      | false ↦ ok vectors
      | true ↦ embed_batch n (take size (drop start chunks)) >>= λ batch_vectors.
          embed_batches chunks size fuel (suc n) (start + size) (vectors ++ batch_vectors)
    ]

    -- `chunks.map((chunk, index) => ...)` from an index on.
    unfoldable pub records_from :
        Text → List (List Vector) → ℕ → List EmbeddingChunk → List (EmbeddingVectorRecord Vector)
    records_from indexed_at vectors index [] = []
    records_from indexed_at vectors index (chunk ∷ chunks) =
        record {
          chunk = chunk;
          embedding = get_or (get_elem? vectors index) [];
          embedding_model = provider.model;
          embedding_provider = provider.provider_name;
          embedding_dimension = provider.dimensions;
          status = embedded;
          indexed_at = indexed_at;
          failure = none;
        }
        ∷ records_from indexed_at vectors (suc index) chunks

    -- From the check of the limit on, with the chunks planned.
    unfoldable pub embed_planned :
        Text → ℕ → ℕ → List EmbeddingChunk → Result Thrown (List (EmbeddingVectorRecord Vector))
    embed_planned indexed_at max_chunks size chunks = do
      guard (not (ltb max_chunks (length chunks))) (
          pipeline_error (codes "embedding_chunk_limit_exceeded")
            (codes "Document planned "
              ++ decimal (length chunks)
              ++ codes " chunks; the limit is "
              ++ decimal max_chunks
              ++ codes ".")
            false)
      validate_chunks chunks
      vectors ← embed_batches chunks size (length chunks) 0 0 []
      ok (records_from indexed_at vectors 0 chunks)

    -- What follows a plan, its errors caught.
    unfoldable pub prepare_planned :
        Text → ℕ → ℕ → List EmbeddingChunk → PreparedEmbeddingRecords Vector
    prepare_planned indexed_at max_chunks size chunks =
        elim (embed_planned indexed_at max_chunks size chunks) [
          | err thrown ↦ preparation_failed (length chunks) thrown
          | ok records ↦ record {
            planned_count = length chunks;
            records = records;
            failed_count = 0;
            failures = [];
          }
        ]

    module _ (sha256 : Text → Text) (indexed_at : Text) where
      unfoldable pub prepare_document_embeddings :
          NormalizedDocument
          → PlanChunksInput
          → IndexDocumentOptions
          → PreparedEmbeddingRecords Vector
      prepare_document_embeddings document input options =
          elim (plan_document sha256 document input options) [
            | err thrown ↦ preparation_failed 0 thrown
            | ok (max_chunks, size, chunks) ↦ prepare_planned indexed_at max_chunks size chunks
          ]

  -- The repository's answer to its n-th `upsert`; it may throw.
  module _ (upsert : ℕ → EmbeddingVectorRecord Vector → Result Thrown WriteResult) where
    -- The loop over the records and its `catch` clause.
    unfoldable pub write_records :
        ℕ → IndexDocumentResult → List (EmbeddingVectorRecord Vector) → IndexDocumentResult
    write_records n result [] = result
    write_records n result (r ∷ rs) = elim (upsert n r) [
      | ok written ↦ write_records (suc n) (count_write written result) rs
      | err thrown ↦ record result {
        failed_count = result.planned_count;
        failures = result.failures ++ failure_from_error thrown ∷ [];
      }
    ]

    unfoldable pub index_prepared : PreparedEmbeddingRecords Vector → IndexDocumentResult
    index_prepared prepared = elim prepared.failures [
      | [] ↦ write_records 0 (initial_result prepared) prepared.records
      | (_ ∷ _) ↦ initial_result prepared
    ]

    unfoldable pub index_document :
        EmbeddingProvider Vector
        → (Text → Text)
        → Text
        → NormalizedDocument
        → PlanChunksInput
        → IndexDocumentOptions
        → IndexDocumentResult
    index_document provider sha256 indexed_at document input options =
        index_prepared
          (prepare_document_embeddings provider sha256 indexed_at document input options)
