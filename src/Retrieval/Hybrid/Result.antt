-- ===== src/Retrieval/Hybrid/Result.antt =====
-- What `buildHybridRetrievalResult` of src/retrieval/hybridRetriever.ts gives.
use la_muni_rag.Base.{
  ℕ, zero, suc, ◌+◌, ◌≤◌, ◌≡◌, refl, ◌∙◌, Bool, true, false, ◌||◌, List, [], ◌∷◌, map, take, length,
  length-map, length-take-le, length-take-le_length, All, All-take, All-keep_test, get_or, arith,
  Option-cases, inl, inr,
}
use la_muni_rag.Base.Text.{Text, text_eq, text_eq_iff}
use la_muni_rag.Retrieval.Types.{
  Floats, HybridCandidate, HybridRankingWeights, HybridRetrievalInput, HybridRetrievalResult,
  default_hybrid_weights,
}
use la_muni_rag.Retrieval.Dedupe.{
  dedupe_key_for_candidate, merge_hybrid_candidates, Merged, merged_get, merge_candidate, merge_all,
  dedupe_hybrid_candidates,
}
use la_muni_rag.Retrieval.Dedupe.Laws.{
  has_key, DistinctKeys, key, length-merged_set, dedupe_hybrid_candidates-DistinctKeys,
}
use la_muni_rag.Base.Sort.{insert_sorted, sort, length-sort, any-sort}
use la_muni_rag.Retrieval.Score.{Sign, ranks_before, score_hybrid_candidate, rank_hybrid_candidates}
use la_muni_rag.Retrieval.Hybrid.Citable.{dedupe-IsCitable, score-IsCitable, sort-IsCitable}
use la_muni_rag.Retrieval.Hybrid.{has_citation, citable_candidates, build_hybrid_retrieval_result}

module _ (F : Floats) (sha256 : Text → Text) where
  -- Scoring changes no field that the key reads.
  key-score :
      (w : HybridRankingWeights F.Num) (c : HybridCandidate F.Num)
      → key F sha256 (score_hybrid_candidate F w c) ≡ key F sha256 c
  unfolding score_hybrid_candidate dedupe_key_for_candidate
  key-score w c = refl

  has_key-score :
      (w : HybridRankingWeights F.Num) (k : Text) (cs : List (HybridCandidate F.Num))
      → has_key (key F sha256) k (map (score_hybrid_candidate F w) cs) ≡ has_key (key F sha256) k cs
  has_key-score w k [] = refl
  has_key-score w k (c ∷ cs) = rw (key-score w c, has_key-score w k cs)

  DistinctKeys-score :
      (w : HybridRankingWeights F.Num) (cs : List (HybridCandidate F.Num))
      → DistinctKeys (key F sha256) cs
      → DistinctKeys (key F sha256) (map (score_hybrid_candidate F w) cs)
  DistinctKeys-score w [] d = tt
  DistinctKeys-score w (c ∷ cs) (new, d) =
      (rw (key-score w c) (has_key-score w (key F sha256 c) cs ∙ new), DistinctKeys-score w cs d)

  module _ (before : HybridCandidate F.Num → HybridCandidate F.Num → Bool) where
    has_key-insert_sorted :
        (k : Text) (x : HybridCandidate F.Num) (ys : List (HybridCandidate F.Num))
        → has_key (key F sha256) k (insert_sorted before x ys)
          ≡ (text_eq (key F sha256 x) k || has_key (key F sha256) k ys)
    unfolding insert_sorted
    has_key-insert_sorted k x [] = refl
    has_key-insert_sorted k x (y ∷ ys) = ground (arith, has_key-insert_sorted k x ys)

    DistinctKeys-insert_sorted :
        (x : HybridCandidate F.Num) (ys : List (HybridCandidate F.Num))
        → has_key (key F sha256) (key F sha256 x) ys ≡ false
        → DistinctKeys (key F sha256) ys
        → DistinctKeys (key F sha256) (insert_sorted before x ys)
    unfolding insert_sorted
    DistinctKeys-insert_sorted x [] h d = (refl, tt)
    DistinctKeys-insert_sorted x (y ∷ ys) h (new, d) = ground (
      arith,
      DistinctKeys-insert_sorted x ys,
      has_key-insert_sorted (key F sha256 y) x ys,
      text_eq_iff (key F sha256 x) (key F sha256 y),
      text_eq_iff (key F sha256 y) (key F sha256 x),
    )

    has_key-sort :
        (k : Text) (xs : List (HybridCandidate F.Num))
        → has_key (key F sha256) k (sort before xs) ≡ has_key (key F sha256) k xs
    has_key-sort k xs = any-sort before (λ c. text_eq (key F sha256 c) k) xs

    DistinctKeys-sort :
        (xs : List (HybridCandidate F.Num))
        → DistinctKeys (key F sha256) xs
        → DistinctKeys (key F sha256) (sort before xs)
    unfolding sort
    DistinctKeys-sort [] d = tt
    DistinctKeys-sort (x ∷ xs) (new, d) =
        DistinctKeys-insert_sorted x (sort before xs) (has_key-sort (key F sha256 x) xs ∙ new)
          (DistinctKeys-sort xs d)

  has_key-take :
      (k : Text) (n : ℕ) (xs : List (HybridCandidate F.Num))
      → has_key (key F sha256) k xs ≡ false
      → has_key (key F sha256) k (take n xs) ≡ false
  has_key-take k zero xs h = refl
  has_key-take k (suc n) [] h = refl
  has_key-take k (suc n) (x ∷ xs) h = ground (arith, has_key-take k n xs)

  DistinctKeys-take :
      (n : ℕ) (xs : List (HybridCandidate F.Num))
      → DistinctKeys (key F sha256) xs
      → DistinctKeys (key F sha256) (take n xs)
  DistinctKeys-take zero xs d = tt
  DistinctKeys-take (suc n) [] d = tt
  DistinctKeys-take (suc n) (x ∷ xs) (new, d) =
      (has_key-take (key F sha256 x) n xs new, DistinctKeys-take n xs d)

  length-merge_candidate :
      (m : Merged F) (c : HybridCandidate F.Num)
      → length (merge_candidate F sha256 m c) ≤ suc (length m)
  unfolding merge_candidate
  length-merge_candidate m c = elim (Option-cases (merged_get F (key F sha256 c) m)) [
    | inl new ↦ rw (new, merge_candidate) (length-merged_set F (key F sha256 c) c m)
    | inr (d, old) ↦
        rw (old, merge_candidate)
          (length-merged_set F (key F sha256 c) (merge_hybrid_candidates F d c) m)
  ]

  length-merge_all :
      (m : Merged F) (cs : List (HybridCandidate F.Num))
      → length (merge_all F sha256 m cs) ≤ length m + length cs
  unfolding merge_all
  length-merge_all m [] = omega arith
  length-merge_all m (c ∷ cs) =
      omega (arith, length-merge_all (merge_candidate F sha256 m c) cs, length-merge_candidate m c)

  length-dedupe :
      (cs : List (HybridCandidate F.Num))
      → length (dedupe_hybrid_candidates F sha256 cs) ≤ length cs
  unfolding dedupe_hybrid_candidates
  length-dedupe cs = omega (
    arith,
    length-map (merge_all F sha256 [] cs) (λ (e : Text × HybridCandidate F.Num). e.1),
    length-merge_all [] cs,
  )

  module _ (locale : Text → Text → Sign) where
    -- What a caller of the retriever may rely on.
    pub record IsHybridResult (input : HybridRetrievalInput F.Num)
        (result : HybridRetrievalResult F.Num) : Type 0 where
      pub limited : length result.candidates ≤ get_or input.limit 10
      pub counted : length result.candidates ≤ result.total_after_dedupe
      pub deduped : result.total_after_dedupe ≤ result.total_before_dedupe
      pub citable : All (λ c. has_citation c ≡ true) result.candidates
      pub distinct : DistinctKeys (key F sha256) result.candidates

    length-rank :
        (w : HybridRankingWeights F.Num) (cs : List (HybridCandidate F.Num))
        → length (rank_hybrid_candidates F locale cs w) ≡ length cs
    unfolding rank_hybrid_candidates
    length-rank w cs =
        length-sort (ranks_before F locale) (map (score_hybrid_candidate F w) cs)
        ∙ length-map cs (score_hybrid_candidate F w)

    rank-IsCitable :
        (w : HybridRankingWeights F.Num) (cs : List (HybridCandidate F.Num))
        → All (λ c. has_citation c ≡ true) cs
        → All (λ c. has_citation c ≡ true) (rank_hybrid_candidates F locale cs w)
    unfolding rank_hybrid_candidates
    rank-IsCitable w cs ps =
        sort-IsCitable F (ranks_before F locale) (map (score_hybrid_candidate F w) cs)
          (score-IsCitable F w cs ps)

    DistinctKeys-rank :
        (w : HybridRankingWeights F.Num) (cs : List (HybridCandidate F.Num))
        → DistinctKeys (key F sha256) cs
        → DistinctKeys (key F sha256) (rank_hybrid_candidates F locale cs w)
    unfolding rank_hybrid_candidates
    DistinctKeys-rank w cs d =
        DistinctKeys-sort (ranks_before F locale) (map (score_hybrid_candidate F w) cs)
          (DistinctKeys-score w cs d)

    citable_candidates-IsCitable :
        (input : HybridRetrievalInput F.Num)
        → All (λ c. has_citation c ≡ true) (citable_candidates input)
    unfolding citable_candidates
    citable_candidates-IsCitable input = All-keep_test has_citation _

    -- If the digest is 64 digits long, the result has at most the limit of candidates (ten by
    -- default) and no more than its second count, which is at most its first; every candidate can be
    -- cited, and no two have one key.
    pub build_hybrid_retrieval_result-IsHybridResult :
        ((t : Text) → length (sha256 t) ≡ 64)
        → (input : HybridRetrievalInput F.Num)
        → IsHybridResult input (build_hybrid_retrieval_result F sha256 locale input)
    unfolding build_hybrid_retrieval_result
    build_hybrid_retrieval_result-IsHybridResult digest input =
        let citable = citable_candidates input in
        let deduped = dedupe_hybrid_candidates F sha256 citable in
        let w = get_or input.weights (default_hybrid_weights F) in
        let ranked = rank_hybrid_candidates F locale deduped w in
        let n = get_or input.limit 10 in
        record {
          limited = length-take-le n ranked;
          counted = omega (arith, length-take-le_length n ranked, length-rank w deduped);
          deduped = length-dedupe citable;
          citable = All-take _ n ranked (
              rank-IsCitable w deduped
                (dedupe-IsCitable F sha256 citable (citable_candidates-IsCitable input)));
          distinct = DistinctKeys-take n ranked (
              DistinctKeys-rank w deduped
                (dedupe_hybrid_candidates-DistinctKeys F sha256 digest citable));
        }
