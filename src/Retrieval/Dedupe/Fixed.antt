-- ===== src/Retrieval/Dedupe/Fixed.antt =====
-- Deduplicating a list in which nothing is repeated changes nothing (src/retrieval/dedupe.ts).
use mathlib.Core.List.{append_assoc, append-nil, map-append}
use la_muni_rag.Base.{◌≡◌, refl, sym, ap, ◌∙◌, false, none, List, [], ◌∷◌, ◌++◌, length, All, arith}
use la_muni_rag.Base.Text.{Text, text_eq_iff}
use la_muni_rag.Retrieval.Types.{Floats, HybridCandidate}
use la_muni_rag.Retrieval.Dedupe.{
  Merged, merged_get, merged_set, merge_candidate, merge_all, dedupe_hybrid_candidates,
}
use la_muni_rag.Retrieval.Dedupe.Laws.{
  has_key, DistinctKeys, has_entry, key, values, has_entry-merge_candidate,
  dedupe_hybrid_candidates-DistinctKeys,
}

module _ (F : Floats) (sha256 : Text → Text) where
  merged_get_fresh : (k : Text) (m : Merged F) → has_entry F k m ≡ false → merged_get F k m ≡ none
  unfolding merged_get
  merged_get_fresh k [] h = refl
  merged_get_fresh k ((j, d) ∷ m) h = ground (arith, merged_get_fresh k m)

  merged_set_fresh :
      (k : Text) (c : HybridCandidate F.Num) (m : Merged F)
      → has_entry F k m ≡ false
      → merged_set F k c m ≡ m ++ (k, c) ∷ []
  unfolding merged_set
  merged_set_fresh k c [] h = refl
  merged_set_fresh k c ((j, d) ∷ m) h = ground (arith, merged_set_fresh k c m)

  merge_candidate_fresh :
      (m : Merged F) (c : HybridCandidate F.Num)
      → has_entry F (key F sha256 c) m ≡ false
      → merge_candidate F sha256 m c ≡ m ++ (key F sha256 c, c) ∷ []
  unfolding merge_candidate
  merge_candidate_fresh m c h = rw (
    merged_get_fresh (key F sha256 c) m h,
    merge_candidate,
    merged_set_fresh (key F sha256 c) c m h,
  )

  -- No candidate of the list has the key of an entry.
  abbrev AreFresh : Merged F → List (HybridCandidate F.Num) → Type 0
  AreFresh m = All (λ c. has_entry F (key F sha256 c) m ≡ false)

  AreFresh-merge_candidate :
      (m : Merged F) (c : HybridCandidate F.Num) (cs : List (HybridCandidate F.Num))
      → has_key (key F sha256) (key F sha256 c) cs ≡ false
      → AreFresh m cs
      → AreFresh (merge_candidate F sha256 m c) cs
  AreFresh-merge_candidate m c [] h f = tt
  AreFresh-merge_candidate m c (d ∷ cs) h (fresh, f) = ground (
    arith,
    has_entry-merge_candidate F sha256 (key F sha256 d) m c,
    text_eq_iff (key F sha256 c) (key F sha256 d),
    text_eq_iff (key F sha256 d) (key F sha256 c),
    AreFresh-merge_candidate m c cs,
  )

  merge_all_fresh :
      (m : Merged F) (cs : List (HybridCandidate F.Num))
      → DistinctKeys (key F sha256) cs
      → AreFresh m cs
      → values F sha256 (merge_all F sha256 m cs) ≡ values F sha256 m ++ cs
  unfolding merge_all
  merge_all_fresh m [] d f = sym (append-nil _)
  merge_all_fresh m (c ∷ cs) (new, d) (fresh, f) =
      merge_all_fresh (merge_candidate F sha256 m c) cs d (AreFresh-merge_candidate m c cs new f)
      ∙ ap (λ (n : Merged F). values F sha256 n ++ cs) (merge_candidate_fresh m c fresh)
      ∙ ap (λ (v : List (HybridCandidate F.Num)). v ++ cs)
          (map-append _ m ((key F sha256 c, c) ∷ []))
      ∙ append_assoc (values F sha256 m) (c ∷ []) cs

  all_fresh : (cs : List (HybridCandidate F.Num)) → AreFresh [] cs
  all_fresh [] = tt
  all_fresh (c ∷ cs) = (refl, all_fresh cs)

  dedupe_fresh :
      (cs : List (HybridCandidate F.Num))
      → DistinctKeys (key F sha256) cs
      → dedupe_hybrid_candidates F sha256 cs ≡ cs
  unfolding dedupe_hybrid_candidates
  dedupe_fresh cs d = merge_all_fresh [] cs d (all_fresh cs)

  -- If the digest is 64 digits long, deduplicating a second time changes nothing, neither the
  -- candidates nor their order.
  pub dedupe_hybrid_candidates_idem :
      ((t : Text) → length (sha256 t) ≡ 64)
      → (cs : List (HybridCandidate F.Num))
      → dedupe_hybrid_candidates F sha256 (dedupe_hybrid_candidates F sha256 cs)
        ≡ dedupe_hybrid_candidates F sha256 cs
  dedupe_hybrid_candidates_idem digest cs =
      dedupe_fresh (dedupe_hybrid_candidates F sha256 cs)
        (dedupe_hybrid_candidates-DistinctKeys F sha256 digest cs)
