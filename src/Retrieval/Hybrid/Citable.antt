-- ===== src/Retrieval/Hybrid/Citable.antt =====
-- A candidate that can be cited can still be cited after it is merged, scored and ranked
-- (src/retrieval/dedupe.ts, hybridScore.ts).
use la_muni_rag.Base.{◌≡◌, Bool, true, some, List, [], ◌∷◌, map, All, arith, Option-cases, inl, inr}
use la_muni_rag.Base.Text.{Text}
use la_muni_rag.Retrieval.Types.{Floats, HybridCandidate, HybridRankingWeights}
use la_muni_rag.Retrieval.Dedupe.{
  dedupe_key_for_candidate, merge_hybrid_candidates, Merged, merged_get, merged_set,
  merge_candidate, merge_all, dedupe_hybrid_candidates,
}
use la_muni_rag.Base.Sort.{insert_sorted, sort}
use la_muni_rag.Retrieval.Score.{score_hybrid_candidate}
use la_muni_rag.Retrieval.Hybrid.{has_citation}

abbrev pub IsCitable : {N : Type 0} → HybridCandidate N → Type 0
IsCitable c = has_citation c ≡ true

module _ (F : Floats) where
  abbrev CitableEntries : Merged F → Type 0
  CitableEntries = All (λ (e : Text × HybridCandidate F.Num). IsCitable e.1)

  CitableEntries-merged_set :
      (k : Text) (c : HybridCandidate F.Num) (m : Merged F)
      → IsCitable c
      → CitableEntries m
      → CitableEntries (merged_set F k c m)
  unfolding merged_set
  CitableEntries-merged_set k c [] p h = (p, tt)
  CitableEntries-merged_set k c ((j, d) ∷ m) p (q, h) =
      ground (arith, CitableEntries-merged_set k c m p h)

  merged_get-IsCitable :
      (k : Text) (c : HybridCandidate F.Num) (m : Merged F)
      → CitableEntries m
      → merged_get F k m ≡ some c
      → IsCitable c
  unfolding merged_get
  merged_get-IsCitable k c [] h e = cc
  merged_get-IsCitable k c ((j, d) ∷ m) (p, h) e = ground (arith, merged_get-IsCitable k c m h)

  merge-IsCitable :
      (c d : HybridCandidate F.Num) → IsCitable c → IsCitable (merge_hybrid_candidates F c d)
  unfolding merge_hybrid_candidates has_citation
  merge-IsCitable c d h = h

  CitableEntries-merge_candidate :
      (sha256 : Text → Text) (m : Merged F) (c : HybridCandidate F.Num)
      → IsCitable c
      → CitableEntries m
      → CitableEntries (merge_candidate F sha256 m c)
  unfolding merge_candidate
  CitableEntries-merge_candidate sha256 m c p h =
      let k = dedupe_key_for_candidate sha256 c in
      elim (Option-cases (merged_get F k m)) [
        | inl new ↦ rw (new, merge_candidate) (CitableEntries-merged_set k c m p h)
        | inr (d, old) ↦
            rw (old, merge_candidate)
              (CitableEntries-merged_set k (merge_hybrid_candidates F d c) m
                (merge-IsCitable d c (merged_get-IsCitable k d m h old)) h)
      ]

  CitableEntries-merge_all :
      (sha256 : Text → Text) (m : Merged F) (cs : List (HybridCandidate F.Num))
      → All IsCitable cs
      → CitableEntries m
      → CitableEntries (merge_all F sha256 m cs)
  unfolding merge_all
  CitableEntries-merge_all sha256 m [] ps h = h
  CitableEntries-merge_all sha256 m (c ∷ cs) (p, ps) h =
      CitableEntries-merge_all sha256 (merge_candidate F sha256 m c) cs ps
        (CitableEntries-merge_candidate sha256 m c p h)

  values-IsCitable :
      (m : Merged F)
      → CitableEntries m
      → All IsCitable (map (λ (e : Text × HybridCandidate F.Num). e.1) m)
  values-IsCitable [] h = tt
  values-IsCitable ((k, c) ∷ m) (p, h) = (p, values-IsCitable m h)

  pub dedupe-IsCitable :
      (sha256 : Text → Text) (cs : List (HybridCandidate F.Num))
      → All IsCitable cs
      → All IsCitable (dedupe_hybrid_candidates F sha256 cs)
  unfolding dedupe_hybrid_candidates
  dedupe-IsCitable sha256 cs ps =
      values-IsCitable (merge_all F sha256 [] cs) (CitableEntries-merge_all sha256 [] cs ps tt)

  pub score-IsCitable :
      (w : HybridRankingWeights F.Num) (cs : List (HybridCandidate F.Num))
      → All IsCitable cs
      → All IsCitable (map (score_hybrid_candidate F w) cs)
  unfolding score_hybrid_candidate has_citation
  score-IsCitable w [] ps = tt
  score-IsCitable w (c ∷ cs) (p, ps) = (p, score-IsCitable w cs ps)

  insert_sorted-IsCitable :
      (before : HybridCandidate F.Num → HybridCandidate F.Num → Bool) (x : HybridCandidate F.Num)
      (ys : List (HybridCandidate F.Num))
      → IsCitable x
      → All IsCitable ys
      → All IsCitable (insert_sorted before x ys)
  unfolding insert_sorted
  insert_sorted-IsCitable before x [] p ps = (p, tt)
  insert_sorted-IsCitable before x (y ∷ ys) p (q, ps) =
      ground (arith, insert_sorted-IsCitable before x ys p ps)

  pub sort-IsCitable :
      (before : HybridCandidate F.Num → HybridCandidate F.Num → Bool)
      (xs : List (HybridCandidate F.Num))
      → All IsCitable xs
      → All IsCitable (sort before xs)
  unfolding sort
  sort-IsCitable before [] ps = tt
  sort-IsCitable before (x ∷ xs) (p, ps) =
      insert_sorted-IsCitable before x (sort before xs) p (sort-IsCitable before xs ps)
