-- ===== src/Embeddings/Indexer/Counts.antt =====
-- The counters that `indexDocument` of src/embeddings/indexer.ts returns.
use la_muni_rag.Base.{
  ℕ, suc, ◌+◌, ◌≤◌, ◌≡◌, refl, sym, ◌∙◌, ok, err, ap, ◌⊎◌, List, [], ◌∷◌, length, length-map,
  Result, Result-cases, inl, inr, arith,
}
use la_muni_rag.Base.Text.{Text}
use la_muni_rag.Embeddings.Types.{
  NormalizedDocument, EmbeddingChunk, PlanChunksInput, Thrown, EmbeddingVectorRecord,
  EmbeddingProvider, WriteResult, inserted, updated, unchanged, PreparedEmbeddingRecords,
  IndexDocumentResult,
}
use la_muni_rag.Embeddings.Validation.{}
use la_muni_rag.Embeddings.Indexer.{
  IndexDocumentOptions, count_write, write_records, initial_result, index_prepared, index_document,
  prepare_document_embeddings, plan_document,
}
use la_muni_rag.Embeddings.Indexer.Prepared.{IsPrepared, prepare_document_embeddings-IsPrepared}

-- Every record written is counted once, and without a failure every chunk planned was written; with
-- one, all of them count as failed.
abbrev pub IsCounted : IndexDocumentResult → Type 0
IsCounted r =
    (r.embedded_count ≡ r.inserted_count + r.updated_count + r.unchanged_count)
    × (r.embedded_count ≤ r.planned_count)
    × (((r.failures ≡ []) × (r.embedded_count ≡ r.planned_count) × (r.failed_count ≡ 0))
        ⊎ ((r.failed_count ≡ r.planned_count) × (length r.failures ≡ 1)))

-- The result in the loop, with `rest` records to write.
abbrev IsCounting : ℕ → IndexDocumentResult → Type 0
IsCounting rest r =
    (r.embedded_count ≡ r.inserted_count + r.updated_count + r.unchanged_count)
    × (r.embedded_count + rest ≡ r.planned_count)
    × (r.failures ≡ [])
    × (r.failed_count ≡ 0)

count_write-IsCounting :
    (w : WriteResult) (rest : ℕ) (r : IndexDocumentResult)
    → IsCounting (suc rest) r
    → IsCounting rest (count_write w r)
unfolding count_write
count_write-IsCounting inserted rest r (a, b, c, d) = (omega (arith, a), omega (arith, b), c, d)
count_write-IsCounting updated rest r (a, b, c, d) = (omega (arith, a), omega (arith, b), c, d)
count_write-IsCounting unchanged rest r (a, b, c, d) = (omega (arith, a), omega (arith, b), c, d)

module _ {Vector : Type 0} where
  module _ (upsert : ℕ → EmbeddingVectorRecord Vector → Result Thrown WriteResult) where
    write_records-IsCounted :
        (n : ℕ) (r : IndexDocumentResult) (rs : List (EmbeddingVectorRecord Vector))
        → IsCounting (length rs) r
        → IsCounted (write_records upsert n r rs)
    unfolding write_records
    write_records-IsCounted n r [] (a, b, c, d) =
        (a, omega (arith, b), inl (c, omega (arith, b), d))
    write_records-IsCounted n r (x ∷ rs) (a, b, c, d) = elim (Result-cases (upsert n x)) [
      | inl (w, written) ↦
          rw (written, write_records)
            (write_records-IsCounted (suc n) (count_write w r) rs
              (count_write-IsCounting w (length rs) r (a, b, c, d)))
      | inr (e, thrown) ↦ rw (thrown, write_records, c) (a, omega (arith, b), inr (refl, refl))
    ]

    index_prepared-IsCounted :
        (provider : EmbeddingProvider Vector) (p : PreparedEmbeddingRecords Vector)
        (plan : Result Thrown (ℕ × ℕ × List EmbeddingChunk))
        → IsPrepared provider plan p
        → IsCounted (index_prepared upsert p)
    unfolding index_prepared initial_result
    index_prepared-IsCounted provider p (err thrown) (nothing, empty, failed, one) =
        rw (one, index_prepared)
          (omega arith, omega arith, inr (failed ∙ sym nothing, ap length one))
    index_prepared-IsCounted provider p (ok plan)
          (planned, inl (none_failed, failed, chunks_same, _, _)) =
        rw (none_failed, index_prepared)
          (write_records-IsCounted 0 (initial_result p) p.records (
            omega arith,
            omega (
              arith,
              planned,
              ap length chunks_same,
              length-map p.records (λ (r : EmbeddingVectorRecord Vector). r.chunk),
            ),
            none_failed,
            failed,
          ))
    index_prepared-IsCounted provider p (ok plan) (planned, inr (empty, failed, (f, one))) =
        rw (one, index_prepared)
          (omega arith, omega arith, inr (failed ∙ sym planned, ap length one))

    -- Whatever the provider and the repository do, the counters of the result agree: the chunks
    -- embedded are those inserted, updated and unchanged together, and at most those planned. Without a
    -- failure they are all that were planned; with one it is the only one, and all that were planned
    -- count as failed.
    pub index_document-IsCounted :
        (provider : EmbeddingProvider Vector) (sha256 : Text → Text) (indexed_at : Text)
        (document : NormalizedDocument) (input : PlanChunksInput) (options : IndexDocumentOptions)
        → IsCounted (index_document upsert provider sha256 indexed_at document input options)
    unfolding index_document
    index_document-IsCounted provider sha256 indexed_at document input options =
        index_prepared-IsCounted provider
          (prepare_document_embeddings provider sha256 indexed_at document input options)
          (plan_document sha256 document input options)
          (prepare_document_embeddings-IsPrepared provider sha256 indexed_at document input options)
