-- ===== src/Embeddings/Validation.antt =====
-- src/embeddings/validation.ts.
use la_muni_rag.Base.{
  ℕ, suc, true, false, not, List, [], ◌∷◌, ◌++◌, length, ◌==◌, Result, ok, guard, ◌>>◌, get_or,
}
use la_muni_rag.Base.Text.{codes, is_empty, trim, decimal}
use la_muni_rag.Embeddings.Types.{
  EmbeddingChunk, EmbeddingFailure, Thrown, pipeline_error, other_error,
}

unfoldable pub validate_chunks : List EmbeddingChunk → Result Thrown (Unit {0})
validate_chunks [] = ok tt
validate_chunks (chunk ∷ chunks) = do
  guard (not (is_empty (trim chunk.text))) (
      pipeline_error (codes "invalid_chunk_text")
        (codes "Chunk " ++ chunk.chunk_id ++ codes " has empty text.") false)
  guard (not (is_empty (get_or chunk.source.citation_label []))) (
      pipeline_error (codes "missing_citation_label")
        (codes "Chunk " ++ chunk.chunk_id ++ codes " is missing citation metadata.") false)
  validate_chunks chunks

unfoldable pub failure_from_error : Thrown → EmbeddingFailure
failure_from_error (pipeline_error code message retryable) = record {
  code = code;
  message = message;
  retryable = retryable;
}
failure_from_error (other_error message) = record {
  code = codes "embedding_pipeline_failed";
  message = message;
  retryable = true;
}

module _ {Vector : Type 0} where
  -- The loop of `validateVectorDimensions` from the vector of the given index.
  unfoldable pub validate_dimensions_from : ℕ → List (List Vector) → ℕ → Result Thrown (Unit {0})
  validate_dimensions_from index [] expected = ok tt
  validate_dimensions_from index (vector ∷ vectors) expected = do
    guard (length vector == expected) (
        pipeline_error (codes "embedding_dimension_mismatch")
          (codes "Embedding vector "
            ++ decimal index
            ++ codes " has "
            ++ decimal (length vector)
            ++ codes " dimensions; expected "
            ++ decimal expected
            ++ codes ".")
          false)
    validate_dimensions_from (suc index) vectors expected

  unfoldable pub validate_vector_dimensions : List (List Vector) → ℕ → Result Thrown (Unit {0})
  validate_vector_dimensions vectors expected = validate_dimensions_from 0 vectors expected

  unfoldable pub validate_vector_count : List (List Vector) → ℕ → Result Thrown (Unit {0})
  validate_vector_count vectors expected = guard (length vectors == expected) (
      pipeline_error (codes "embedding_vector_count_mismatch")
        (codes "Embedding provider returned "
          ++ decimal (length vectors)
          ++ codes " vectors; expected "
          ++ decimal expected
          ++ codes ".")
        false)
