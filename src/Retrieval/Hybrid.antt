-- ===== src/Retrieval/Hybrid.antt =====
-- src/retrieval/hybridRetriever.ts.
pub mod Citable
pub mod Result
use la_muni_rag.Base.{ℕ, Bool, not, Option, none, some, List, [], ◌++◌, keep, length, take, get_or}
use la_muni_rag.Base.Text.{Text, is_empty, trim}
use la_muni_rag.Retrieval.Types.{
  Floats, HybridCandidate, HybridRetrievalInput, HybridRetrievalResult, default_hybrid_weights,
}
use la_muni_rag.Retrieval.Dedupe.{dedupe_hybrid_candidates}
use la_muni_rag.Retrieval.Score.{Sign, rank_hybrid_candidates}

unfoldable pub has_citation : {N : Type 0} → HybridCandidate N → Bool
has_citation candidate = not (is_empty (trim candidate.citation_label))

-- The candidates of the three searches in turn, without those that cannot be cited.
unfoldable pub citable_candidates : {N : Type 0} → HybridRetrievalInput N → List (HybridCandidate N)
citable_candidates input = keep has_citation (
    get_or input.phrase_candidates []
    ++ get_or input.keyword_candidates []
    ++ get_or input.vector_candidates [])

module _ (F : Floats) (sha256 : Text → Text) (locale : Text → Text → Sign) where
  unfoldable pub build_hybrid_retrieval_result :
      HybridRetrievalInput F.Num → HybridRetrievalResult F.Num
  build_hybrid_retrieval_result input =
      let citable = citable_candidates input in
      let deduped = dedupe_hybrid_candidates F sha256 citable in
      let ranked =
        rank_hybrid_candidates F locale deduped (get_or input.weights (default_hybrid_weights F)) in
      record {
        candidates = take (get_or input.limit 10) ranked;
        total_before_dedupe = length citable;
        total_after_dedupe = length deduped;
      }
