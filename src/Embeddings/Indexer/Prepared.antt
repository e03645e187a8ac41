-- ===== src/Embeddings/Indexer/Prepared.antt =====
-- What `prepareDocumentEmbeddings` of src/embeddings/indexer.ts returns.
use mathlib.Core.Path.{subst}
use la_muni_rag.Base.{
  ℕ, zero, suc, ◌+◌, ◌≤◌, ◌<◌, ◌≡◌, refl, ap, ◌⊎◌, false, List, [], ◌∷◌, map, length, get_elem?,
  get_or, All, Result, ok, err, drop, Result-cases, inl, inr, arith,
}
use la_muni_rag.Base.Text.{Text, is_empty, trim}
use la_muni_rag.Embeddings.Types.{
  NormalizedDocument, EmbeddingChunk, PlanChunksInput, EmbeddingFailure, Thrown,
  EmbeddingVectorRecord, EmbeddingProvider, PreparedEmbeddingRecords,
}
use la_muni_rag.Embeddings.Validation.{validate_chunks, failure_from_error}
use la_muni_rag.Embeddings.Indexer.{
  bounded_option, IndexDocumentOptions, plan_document, embed_batches, records_from, embed_planned,
  preparation_failed, prepare_planned, prepare_document_embeddings,
}
use la_muni_rag.Embeddings.Indexer.Batches.{
  HaveSize, IsTextwise, embed_batches-ok, embed_batches-textwise,
}

-- A chunk that can be embedded: its text is not blank, and it can be cited.
abbrev pub IsCitable : EmbeddingChunk → Type 0
IsCitable c =
    (is_empty (trim c.text) ≡ false) × (is_empty (get_or c.source.citation_label []) ≡ false)

validate_chunks-ok :
    (chunks : List EmbeddingChunk) → validate_chunks chunks ≡ ok tt → All IsCitable chunks
unfolding validate_chunks
validate_chunks-ok [] h = tt
validate_chunks-ok (c ∷ cs) h = ground (arith, validate_chunks-ok cs)

validate_chunks-citable :
    (chunks : List EmbeddingChunk) → All IsCitable chunks → validate_chunks chunks ≡ ok tt
unfolding validate_chunks
validate_chunks-citable [] h = refl
validate_chunks-citable (c ∷ cs) ((p, q), h) = ground (arith, validate_chunks-citable cs h)

module _ {Vector : Type 0} (provider : EmbeddingProvider Vector) where
  -- A record of a chunk that can be embedded, with a vector of the provider's size.
  abbrev pub IsEmbedded : EmbeddingVectorRecord Vector → Type 0
  IsEmbedded r = (length r.embedding ≡ provider.dimensions) × IsCitable r.chunk

  get_elem?-HaveSize :
      (vectors : List (List Vector)) (size i : ℕ)
      → HaveSize size vectors
      → i < length vectors
      → length (get_or (get_elem? vectors i) []) ≡ size
  get_elem?-HaveSize [] size i h below = absurd (omega arith)
  get_elem?-HaveSize (v ∷ vs) size zero (p, h) below = p
  get_elem?-HaveSize (v ∷ vs) size (suc i) (p, h) below =
      get_elem?-HaveSize vs size i h (omega arith)

  records_from-IsEmbedded :
      (indexed_at : Text) (vectors : List (List Vector)) (index : ℕ) (chunks : List EmbeddingChunk)
      → index + length chunks ≤ length vectors
      → HaveSize provider.dimensions vectors
      → All IsCitable chunks
      → All IsEmbedded (records_from provider indexed_at vectors index chunks)
        × (map
              (λ (r : EmbeddingVectorRecord Vector). r.chunk)
              (records_from provider indexed_at vectors index chunks)
            ≡ chunks)
  unfolding records_from
  records_from-IsEmbedded indexed_at vectors index [] room sized cs = (tt, refl)
  records_from-IsEmbedded indexed_at vectors index (c ∷ chunks) room sized (p, ps) =
      let (all, same) =
        records_from-IsEmbedded indexed_at vectors (suc index) chunks (omega arith) sized ps in
      (
        ((get_elem?-HaveSize vectors provider.dimensions index sized (omega arith), p), all),
        ap (λ (cs : List EmbeddingChunk). c ∷ cs) same,
      )

  embed_planned-ok :
      (indexed_at : Text) (max_chunks size : ℕ) (chunks : List EmbeddingChunk)
      (records : List (EmbeddingVectorRecord Vector))
      → 1 ≤ size
      → embed_planned provider indexed_at max_chunks size chunks ≡ ok records
      → (length chunks ≤ max_chunks)
        × All IsEmbedded records
        × (map (λ (r : EmbeddingVectorRecord Vector). r.chunk) records ≡ chunks)
  unfolding embed_planned
  embed_planned-ok indexed_at max_chunks size chunks records positive h =
      elim (Result-cases (validate_chunks chunks)) [
        | inr (e, thrown) ↦ absurd (ground arith)
        | inl (tt, valid) ↦
            elim (Result-cases (embed_batches provider chunks size (length chunks) 0 0 [])) [
              | inr (e, thrown) ↦ absurd (ground arith)
              | inl (vectors, given) ↦
                  let within : length chunks ≤ max_chunks = ground arith in
                  let same : records_from provider indexed_at vectors 0 chunks ≡ records =
                    ground arith in
                  let (count, sized) =
                    embed_batches-ok provider chunks size (length chunks) 0 0 [] vectors positive
                      (omega arith) (ground arith, tt) given in
                  let (all, chunks_same) =
                    subst
                      (λ rs.
                        All IsEmbedded rs
                        × (map (λ (r : EmbeddingVectorRecord Vector). r.chunk) rs ≡ chunks))
                      same
                      (records_from-IsEmbedded indexed_at vectors 0 chunks (omega (arith, count))
                        sized (validate_chunks-ok chunks valid)) in
                  (within, all, chunks_same)
            ]
      ]

  -- What preparation makes of a plan, which is `plan_document`'s answer: either all of its chunks are
  -- embedded, in its order, or none is and all of them count as failed; an error counts no chunk.
  abbrev pub IsPrepared :
      Result Thrown (ℕ × ℕ × List EmbeddingChunk) → PreparedEmbeddingRecords Vector → Type 0
  IsPrepared (err thrown) p =
      (p.planned_count ≡ 0)
      × (p.records ≡ [])
      × (p.failed_count ≡ 0)
      × (p.failures ≡ failure_from_error thrown ∷ [])
  IsPrepared (ok (max_chunks, size, chunks)) p =
      (p.planned_count ≡ length chunks)
      × (((p.failures ≡ [])
            × (p.failed_count ≡ 0)
            × (map (λ (r : EmbeddingVectorRecord Vector). r.chunk) p.records ≡ chunks)
            × (length chunks ≤ 5000)
            × All IsEmbedded p.records)
          ⊎ ((p.records ≡ [])
              × (p.failed_count ≡ length chunks)
              × ((f : EmbeddingFailure) × (p.failures ≡ f ∷ []))))

  prepare_planned-IsPrepared :
      (indexed_at : Text) (max_chunks size : ℕ) (chunks : List EmbeddingChunk)
      → 1 ≤ size
      → max_chunks ≤ 5000
      → IsPrepared
          (ok (max_chunks, size, chunks))
          (prepare_planned provider indexed_at max_chunks size chunks)
  unfolding prepare_planned preparation_failed
  prepare_planned-IsPrepared indexed_at max_chunks size chunks positive bounded =
      elim (Result-cases (embed_planned provider indexed_at max_chunks size chunks)) [
        | inr (e, thrown) ↦
            rw (thrown, prepare_planned) (refl, inr (refl, refl, (failure_from_error e, refl)))
        | inl (records, given) ↦
            let (within, all, same) =
              embed_planned-ok indexed_at max_chunks size chunks records positive given in
            rw (given, prepare_planned)
              (refl, inl (refl, refl, same, omega (arith, within, bounded), all))
      ]

  -- All of the chunks are embedded, in their order, each with the vector of its text, and nothing
  -- failed.
  abbrev pub IsComplete :
      (Text → List Vector) → List EmbeddingChunk → PreparedEmbeddingRecords Vector → Type 0
  IsComplete f chunks p =
      (p.failures ≡ [])
      × (p.planned_count ≡ length chunks)
      × (p.failed_count ≡ 0)
      × (map (λ (r : EmbeddingVectorRecord Vector). r.chunk) p.records ≡ chunks)
      × (map (λ (r : EmbeddingVectorRecord Vector). r.embedding) p.records
          ≡ map (λ (c : EmbeddingChunk). f c.text) chunks)

  chunks-records_from :
      (indexed_at : Text) (vectors : List (List Vector)) (index : ℕ) (chunks : List EmbeddingChunk)
      → map
          (λ (r : EmbeddingVectorRecord Vector). r.chunk)
          (records_from provider indexed_at vectors index chunks)
        ≡ chunks
  unfolding records_from
  chunks-records_from indexed_at vectors index [] = refl
  chunks-records_from indexed_at vectors index (c ∷ chunks) =
      ap (λ (cs : List EmbeddingChunk). c ∷ cs)
        (chunks-records_from indexed_at vectors (suc index) chunks)

  drop-next :
      (vectors : List (List Vector)) (index : ℕ) (v : List Vector) (vs : List (List Vector))
      → drop index vectors ≡ v ∷ vs
      → (get_or (get_elem? vectors index) [] ≡ v) × (drop (suc index) vectors ≡ vs)
  drop-next [] zero v vs h = cc h
  drop-next [] (suc index) v vs h = cc h
  drop-next (w ∷ ws) zero v vs h = (cc h, cc h)
  drop-next (w ∷ ws) (suc index) v vs h = drop-next ws index v vs h

  module _ (f : Text → List Vector) where
    records_from-vectors :
        (indexed_at : Text) (vectors : List (List Vector)) (index : ℕ)
        (chunks : List EmbeddingChunk)
        → drop index vectors ≡ map (λ (c : EmbeddingChunk). f c.text) chunks
        → map
            (λ (r : EmbeddingVectorRecord Vector). r.embedding)
            (records_from provider indexed_at vectors index chunks)
          ≡ map (λ (c : EmbeddingChunk). f c.text) chunks
    unfolding records_from
    records_from-vectors indexed_at vectors index [] h = refl
    records_from-vectors indexed_at vectors index (c ∷ chunks) h =
        let (here', later) = drop-next vectors index _ _ h in
        let rest = records_from-vectors indexed_at vectors (suc index) chunks later in
        rw (here', rest) refl

    embed_planned-textwise :
        IsTextwise provider f
        → (indexed_at : Text) (max_chunks size : ℕ) (chunks : List EmbeddingChunk) → 1 ≤ size
        → length chunks ≤ max_chunks
        → All IsCitable chunks
        → embed_planned provider indexed_at max_chunks size chunks
          ≡ ok (
              records_from provider indexed_at
                (map (λ (c : EmbeddingChunk). f c.text) chunks)
                0
                chunks)
    unfolding embed_planned
    embed_planned-textwise textwise indexed_at max_chunks size chunks positive within citable =
        let given : embed_batches provider chunks size (length chunks) 0 0 []
            ≡ ok (map (λ (c : EmbeddingChunk). f c.text) chunks) =
          embed_batches-textwise provider f textwise chunks size (length chunks) 0 0 [] positive
            (omega arith) in
        ground (arith, given, validate_chunks-citable chunks citable)

  module _ (sha256 : Text → Text) (indexed_at : Text) (document : NormalizedDocument)
      (input : PlanChunksInput) (options : IndexDocumentOptions) where
    plan_document-bounds :
        (max_chunks size : ℕ) (chunks : List EmbeddingChunk)
        → plan_document sha256 document input options ≡ ok (max_chunks, size, chunks)
        → (1 ≤ size) × (max_chunks ≤ 5000)
    unfolding plan_document bounded_option
    plan_document-bounds max_chunks size chunks h = ground arith

    -- A document is prepared as a whole or not at all. When its chunks are planned, they are the
    -- planned count, and either the records hold those chunks in their order, at most 5000, each with
    -- a text, a citation and a vector of the provider's size, and nothing fails; or there is no record,
    -- one failure, and every chunk planned counts as failed. When the planning fails, that error is
    -- the one failure and no chunk is counted.
    pub prepare_document_embeddings-IsPrepared :
        IsPrepared
          (plan_document sha256 document input options)
          (prepare_document_embeddings provider sha256 indexed_at document input options)
    unfolding prepare_document_embeddings preparation_failed
    prepare_document_embeddings-IsPrepared =
        elim (Result-cases (plan_document sha256 document input options)) [
          | inr (e, thrown) ↦ rw (thrown, prepare_document_embeddings) (refl, refl, refl, refl)
          | inl ((max_chunks, size, chunks), planned) ↦
              let (positive, bounded) = plan_document-bounds max_chunks size chunks planned in
              rw (planned, prepare_document_embeddings)
                (prepare_planned-IsPrepared indexed_at max_chunks size chunks positive bounded)
        ]

    -- If the provider answers every call with a vector of its size for each text, which depends on
    -- that text alone, and the document is planned in chunks within the limit that have a text and a
    -- citation, then the records hold the chunks planned, in their order, each with the vector of its
    -- own text, and nothing fails.
    pub prepare_document_embeddings-textwise :
        (f : Text → List Vector)
        → IsTextwise provider f
        → (max_chunks size : ℕ) (chunks : List EmbeddingChunk)
        → plan_document sha256 document input options ≡ ok (max_chunks, size, chunks)
        → length chunks ≤ max_chunks
        → All IsCitable chunks
        → IsComplete f chunks
            (prepare_document_embeddings provider sha256 indexed_at document input options)
    unfolding prepare_document_embeddings prepare_planned
    prepare_document_embeddings-textwise f textwise max_chunks size chunks planned within citable =
        let (positive, bounded) = plan_document-bounds max_chunks size chunks planned in
        let given =
          embed_planned-textwise f textwise indexed_at max_chunks size chunks positive within
            citable in
        rw (planned, prepare_document_embeddings, prepare_planned, given)
          (
            refl,
            refl,
            refl,
            chunks-records_from indexed_at _ 0 chunks,
            records_from-vectors f indexed_at _ 0 chunks refl,
          )
