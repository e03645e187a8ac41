-- ===== src/Evidence/Find.antt =====
-- src/embeddings/queryEmbedding.ts, `retrieveVectorCandidates` of
-- src/retrieval/vectorRetriever.ts and the search of src/evidence.ts. `locale` is the sign of
-- `localeCompare`. `mismatch` is the error that `assertQueryEmbeddingDimension` throws for an
-- expected and a received size. Of two searches that fail at once, the phrase search is taken to
-- fail first.
use la_muni_rag.Base.{
  ℕ, not, none, some, List, [], ◌∷◌, map, keep, length, ◌==◌, get_or, Result, ok, err, guard, ◌>>=◌,
  ◌>>◌,
}
use la_muni_rag.Base.Text.{Text, is_empty, trim}
use la_muni_rag.Retrieval.Types.{Floats, HybridCandidate}
use la_muni_rag.Retrieval.Score.{Sign}
use la_muni_rag.Retrieval.Hybrid.{build_hybrid_retrieval_result}
use la_muni_rag.Evidence.Types.{
  EvidenceMode, keyword_mode, phrase_mode, hybrid_mode, EvidenceStatus, evidence_found, no_evidence,
  KeywordSearchResult, PhraseSearchResult, VectorCandidateInput, EvidenceItem, EvidenceResponse,
  QueryEmbeddingProvider, VectorRetrievalRepository, EvidenceDependencies,
}
use la_muni_rag.Evidence.Convert.{
  map_keyword_result_to_evidence, map_phrase_result_to_evidence, hybrid_candidate_to_evidence,
  keyword_result_to_hybrid_candidate, phrase_result_to_hybrid_candidate,
  vector_candidate_to_hybrid_candidate,
}

-- `evidence.length > 0 ? "evidence_found" : "not_found"`.
abbrev status_of : {N : Type 0} → List (EvidenceItem N) → EvidenceStatus
status_of [] = no_evidence
status_of (e ∷ es) = evidence_found

unfoldable pub response_for_evidence :
    {N : Type 0} → Text → EvidenceMode → List (EvidenceItem N) → EvidenceResponse N
response_for_evidence query mode evidence = record {
  query = query;
  mode = mode;
  answer_status = status_of evidence;
  evidence_count = length evidence;
  evidence = evidence;
}

-- The `catch` clause gives no candidates.
abbrev recovered {ℓ κ} : {E : Type ℓ} {A : Type κ} → Result E (List A) → List A
recovered (ok candidates) = candidates
recovered (err thrown) = []

module _ (F : Floats) (sha256 : Text → Text) (locale : Text → Text → Sign) where
  -- The hybrid branch, with what the three searches give.
  unfoldable pub hybrid_evidence :
      ℕ
      → List PhraseSearchResult
      → List (KeywordSearchResult F.Num)
      → List (HybridCandidate F.Num)
      → List (EvidenceItem F.Num)
  hybrid_evidence limit phrase_results keyword_results vector_candidates =
      map hybrid_candidate_to_evidence
        (build_hybrid_retrieval_result F sha256 locale record {
          phrase_candidates = some (map (phrase_result_to_hybrid_candidate F) phrase_results);
          keyword_candidates = some (map (keyword_result_to_hybrid_candidate F) keyword_results);
          vector_candidates = some vector_candidates;
          limit = some limit;
          weights = none;
        }).candidates

module _ {V E : Type 0} (mismatch : ℕ → ℕ → E) where
  unfoldable pub assert_query_embedding_dimension : List V → ℕ → Result E (Unit {0})
  assert_query_embedding_dimension v expected =
      guard (length v == expected) (mismatch expected (length v))

  unfoldable pub embed_query : QueryEmbeddingProvider V E → Text → Result E (List V)
  embed_query provider query = do
    v ← provider.embed_query query
    assert_query_embedding_dimension v provider.dimensions
    ok v

module _ (F : Floats) {V E : Type 0} where
  unfoldable pub retrieve_vector_candidates :
      VectorRetrievalRepository F.Num V E → List V → ℕ → Result E (List (HybridCandidate F.Num))
  retrieve_vector_candidates repository query_vector limit = do
    results ← repository.search query_vector limit
    ok (
        map (vector_candidate_to_hybrid_candidate F) (
          keep (λ (r : VectorCandidateInput F.Num). not (is_empty (trim r.citation_label)))
            results))

  module _ (mismatch : ℕ → ℕ → E) where
    unfoldable pub resolve_vector_candidates :
        Text → ℕ → EvidenceDependencies F.Num V E → List (HybridCandidate F.Num)
    resolve_vector_candidates query limit dependencies =
        elim dependencies.query_embedding_provider [
          | none ↦ []
          | some provider ↦ elim dependencies.vector_repository [
            | none ↦ []
            | some repository ↦ recovered (
                embed_query mismatch provider query >>= λ query_vector.
                retrieve_vector_candidates repository query_vector limit)
          ]
        ]

    module _ (sha256 : Text → Text) (locale : Text → Text → Sign)
        (default_keyword_search : Text → ℕ → Result E (List (KeywordSearchResult F.Num)))
        (default_phrase_search : Text → ℕ → Result E (List PhraseSearchResult)) where
      unfoldable pub find_evidence_with_dependencies :
          Text
          → EvidenceMode
          → ℕ
          → EvidenceDependencies F.Num V E
          → Result E (EvidenceResponse F.Num)
      find_evidence_with_dependencies query phrase_mode limit dependencies = do
        results ← get_or dependencies.phrase_search default_phrase_search query limit
        ok (
            response_for_evidence query phrase_mode
              (map (λ r. map_phrase_result_to_evidence r phrase_mode) results))
      find_evidence_with_dependencies query hybrid_mode limit dependencies = do
        phrase_results ← get_or dependencies.phrase_search default_phrase_search query limit
        keyword_results ← get_or dependencies.keyword_search default_keyword_search query limit
        ok (
            response_for_evidence query hybrid_mode (
              hybrid_evidence F sha256 locale limit phrase_results keyword_results
                (resolve_vector_candidates query limit dependencies)))
      find_evidence_with_dependencies query keyword_mode limit dependencies = do
        results ← get_or dependencies.keyword_search default_keyword_search query limit
        ok (
            response_for_evidence query keyword_mode
              (map (λ r. map_keyword_result_to_evidence r keyword_mode) results))
