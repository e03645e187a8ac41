-- ===== src/Evidence/Vector.antt =====
-- The vector search of src/evidence.ts is optional: when it fails, the rest goes on.
use la_muni_rag.Base.{
  ℕ, ◌≡◌, refl, none, some, List, [], Result, err, ◌>>=◌, Result-cases, inl, inr, arith,
}
use la_muni_rag.Base.Text.{Text}
use la_muni_rag.Retrieval.Types.{Floats}
use la_muni_rag.Retrieval.Score.{Sign}
use la_muni_rag.Evidence.Types.{
  EvidenceMode, hybrid_mode, KeywordSearchResult, PhraseSearchResult, EvidenceResponse,
  QueryEmbeddingProvider, VectorRetrievalRepository, EvidenceDependencies,
}
use la_muni_rag.Evidence.Find.{
  embed_query, retrieve_vector_candidates, resolve_vector_candidates,
  find_evidence_with_dependencies,
}

-- The dependencies without a vector search.
abbrev pub without_vector :
    {N V E : Type 0} → EvidenceDependencies N V E → EvidenceDependencies N V E
without_vector d = record d { query_embedding_provider = none }

module _ (F : Floats) {V E : Type 0} (mismatch : ℕ → ℕ → E) (sha256 : Text → Text)
    (locale : Text → Text → Sign)
    (default_keyword_search : Text → ℕ → Result E (List (KeywordSearchResult F.Num)))
    (default_phrase_search : Text → ℕ → Result E (List PhraseSearchResult)) where
  abbrev find :
      Text → EvidenceMode → ℕ → EvidenceDependencies F.Num V E → Result E (EvidenceResponse F.Num)
  find =
      find_evidence_with_dependencies F mismatch sha256 locale default_keyword_search
        default_phrase_search

  -- The vector search cannot be done for a query: the provider fails, the vector it gives has the
  -- wrong size, or the repository fails.
  abbrev pub VectorFails :
      Text → ℕ → QueryEmbeddingProvider V E → VectorRetrievalRepository F.Num V E → Type 0
  VectorFails query limit provider repository =
      (thrown : E) × ((embed_query mismatch provider query >>= λ v. repository.search v limit)
        ≡ err thrown)

  resolve_vector_candidates-fails :
      (query : Text) (limit : ℕ) (provider : QueryEmbeddingProvider V E)
      (repository : VectorRetrievalRepository F.Num V E) (d : EvidenceDependencies F.Num V E)
      → VectorFails query limit provider repository
      → d.query_embedding_provider ≡ some provider
      → d.vector_repository ≡ some repository
      → resolve_vector_candidates F mismatch query limit d ≡ []
  unfolding resolve_vector_candidates retrieve_vector_candidates
  resolve_vector_candidates-fails query limit provider repository d (thrown, h) p r =
      elim (Result-cases (embed_query mismatch provider query)) [
        | inr (e, q) ↦ rw (p, r, resolve_vector_candidates, q) refl
        | inl (v, q) ↦
            let failed : repository.search v limit ≡ err thrown = ground arith in
            rw (p, r, resolve_vector_candidates, q, retrieve_vector_candidates, failed) refl
      ]

  -- A vector search that fails, by its provider, by a vector of the wrong size or by its repository,
  -- changes nothing of what a hybrid search gives without it, errors of the other searches included.
  pub find_evidence_with_dependencies-VectorFails :
      (query : Text) (limit : ℕ) (provider : QueryEmbeddingProvider V E)
      (repository : VectorRetrievalRepository F.Num V E) (d : EvidenceDependencies F.Num V E)
      → VectorFails query limit provider repository
      → d.query_embedding_provider ≡ some provider
      → d.vector_repository ≡ some repository
      → find query hybrid_mode limit d ≡ find query hybrid_mode limit (without_vector d)
  unfolding find_evidence_with_dependencies resolve_vector_candidates
  find_evidence_with_dependencies-VectorFails query limit provider repository d h p r =
      rw (resolve_vector_candidates-fails query limit provider repository d h p r) refl
