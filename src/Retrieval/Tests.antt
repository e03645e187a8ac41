-- ===== src/Retrieval/Tests.antt =====
-- The theorems of src/retrieval at concrete inputs.
use la_muni_rag.Base.{
  ℕ, ◌≡◌, refl, Bool, Option, none, some, List, [], ◌∷◌, arith, map, keep, length,
}
use la_muni_rag.Base.Text.{Text, codes}
use la_muni_rag.Retrieval.Types.{
  RetrievalMode, phrase, keyword, vector, HybridCandidate, HybridRetrievalInput,
  default_hybrid_weights,
}
use la_muni_rag.Retrieval.Dedupe.{dedupe_key_for_candidate, dedupe_hybrid_candidates}
use la_muni_rag.Retrieval.Dedupe.Laws.{
  has_key, DistinctKeys, dedupe_hybrid_candidates-DistinctKeys, dedupe_hybrid_candidates-has_key,
}
use la_muni_rag.Retrieval.Dedupe.Fixed.{dedupe_hybrid_candidates_idem}
use la_muni_rag.Retrieval.Score.{rank_hybrid_candidates, score_hybrid_candidate}
use la_muni_rag.Retrieval.Order.{IsConsistent, IsBestFirst, rank_hybrid_candidates-IsBestFirst}
use la_muni_rag.Retrieval.Hybrid.{build_hybrid_retrieval_result}
use la_muni_rag.Retrieval.Hybrid.Result.{
  IsHybridResult, build_hybrid_retrieval_result-IsHybridResult,
}
use la_muni_rag.Retrieval.Samples.{hundredths, by_length, digest}

laws : IsConsistent hundredths by_length
laws = record {
  lt_asym = λ a b h. ground arith;
  lt_trans = λ a b c _ _ _ h k. ground arith;
  eq_tie = λ a b _ _. ground arith;
  locale_asym = λ s t h. ground arith;
  locale_trans = λ s t u h k. ground arith;
}

abbrev candidate : RetrievalMode → Option Text → Text → Option ℕ → HybridCandidate ℕ
candidate mode chunk label score = record {
  id = label;
  mode = mode;
  matched_modes = mode ∷ [];
  document_id = none;
  document_version_id = none;
  document_title = some (codes "Ley");
  section_id = none;
  chunk_id = chunk;
  citation_label = label;
  excerpt = label;
  source_type = none;
  page_start = some 3;
  page_end = none;
  article_number = none;
  source_url = none;
  scores = record {
    phrase_score = none;
    keyword_score = score;
    vector_score = none;
    provenance_score = none;
  };
  hybrid_score = 0;
  metadata = none;
}

abbrev first : HybridCandidate ℕ
first = candidate keyword (some (codes "7")) (codes "Art. 1") (some 40)

abbrev again : HybridCandidate ℕ
again = candidate phrase (some (codes "7")) (codes "Art. 10") (some 60)

abbrev found : List (HybridCandidate ℕ)
found = first ∷ candidate vector none (codes "Art. 2") none ∷ again ∷ []

abbrev input : HybridRetrievalInput ℕ
input = record {
  phrase_candidates = some (again ∷ []);
  keyword_candidates = some (first ∷ []);
  vector_candidates = none;
  limit = some 5;
  weights = none;
}

build_hybrid_retrieval_result-IsHybridResult_example :
    IsHybridResult hundredths digest by_length input
      (build_hybrid_retrieval_result hundredths digest by_length input)
build_hybrid_retrieval_result-IsHybridResult_example =
    build_hybrid_retrieval_result-IsHybridResult hundredths digest by_length (λ t. refl) input

dedupe_hybrid_candidates-DistinctKeys_example :
    DistinctKeys
      (dedupe_key_for_candidate digest)
      (dedupe_hybrid_candidates hundredths digest found)
dedupe_hybrid_candidates-DistinctKeys_example =
    dedupe_hybrid_candidates-DistinctKeys hundredths digest (λ t. refl) found

dedupe_hybrid_candidates-has_key_example :
    has_key
      (dedupe_key_for_candidate digest)
      (codes "chunk:7")
      (dedupe_hybrid_candidates hundredths digest found)
    ≡ has_key (dedupe_key_for_candidate digest) (codes "chunk:7") found
dedupe_hybrid_candidates-has_key_example =
    dedupe_hybrid_candidates-has_key hundredths digest (λ t. refl) found (codes "chunk:7")

dedupe_hybrid_candidates_idem_example :
    dedupe_hybrid_candidates hundredths digest (dedupe_hybrid_candidates hundredths digest found)
    ≡ dedupe_hybrid_candidates hundredths digest found
dedupe_hybrid_candidates_idem_example =
    dedupe_hybrid_candidates_idem hundredths digest (λ t. refl) found

rank_hybrid_candidates-IsBestFirst_example :
    IsBestFirst hundredths by_length laws
      (rank_hybrid_candidates hundredths by_length found (default_hybrid_weights hundredths))
    × ((t : HybridCandidate ℕ → Bool)
        → length (
            keep t (
              rank_hybrid_candidates hundredths by_length found
                (default_hybrid_weights hundredths)))
          ≡ length (
              keep t (
                map (score_hybrid_candidate hundredths (default_hybrid_weights hundredths)) found)))
rank_hybrid_candidates-IsBestFirst_example =
    rank_hybrid_candidates-IsBestFirst hundredths by_length laws found
      (default_hybrid_weights hundredths) ((refl, refl), ((refl, refl), ((refl, refl), tt)))
