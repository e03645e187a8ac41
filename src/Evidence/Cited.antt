-- ===== src/Evidence/Cited.antt =====
-- Which evidence can be cited, and how much of it a hybrid search gives.
use la_muni_rag.Base.{ℕ, ◌≤◌, ◌≡◌, true, false, List, [], ◌∷◌, map, length, All, length-map, arith}
use la_muni_rag.Base.Text.{Text, is_empty, trim}
use la_muni_rag.Retrieval.Types.{Floats, HybridCandidate}
use la_muni_rag.Retrieval.Score.{Sign}
use la_muni_rag.Retrieval.Hybrid.{has_citation}
use la_muni_rag.Retrieval.Hybrid.Result.{build_hybrid_retrieval_result-IsHybridResult}
use la_muni_rag.Evidence.Types.{KeywordSearchResult, PhraseSearchResult, EvidenceItem}
use la_muni_rag.Evidence.Convert.{hybrid_candidate_to_evidence}
use la_muni_rag.Evidence.Find.{hybrid_evidence}

-- Evidence that names its source.
abbrev pub IsCited : {N : Type 0} → EvidenceItem N → Type 0
IsCited e = is_empty (trim e.citation_label) ≡ false

All-evidence :
    {N : Type 0} (cs : List (HybridCandidate N))
    → All (λ c. has_citation c ≡ true) cs
    → All IsCited (map hybrid_candidate_to_evidence cs)
unfolding hybrid_candidate_to_evidence has_citation
All-evidence [] h = tt
All-evidence (c ∷ cs) (p, h) = (ground arith, All-evidence cs h)

-- At most the limit of items, and each of them names its source.
abbrev pub IsLimited : {N : Type 0} → ℕ → List (EvidenceItem N) → Type 0
IsLimited limit es = (length es ≤ limit) × All IsCited es

module _ (F : Floats) (sha256 : Text → Text) (locale : Text → Text → Sign) where
  pub hybrid_evidence-IsLimited :
      ((t : Text) → length (sha256 t) ≡ 64)
      → (limit : ℕ) (ps : List PhraseSearchResult) (ks : List (KeywordSearchResult F.Num))
        (vs : List (HybridCandidate F.Num))
      → IsLimited limit (hybrid_evidence F sha256 locale limit ps ks vs)
  unfolding hybrid_evidence
  hybrid_evidence-IsLimited digest limit ps ks vs =
      let h = build_hybrid_retrieval_result-IsHybridResult F sha256 locale digest _ in
      (
        omega (arith, length-map _ hybrid_candidate_to_evidence, h.limited),
        All-evidence _ h.citable,
      )
