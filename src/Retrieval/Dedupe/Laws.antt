-- ===== src/Retrieval/Dedupe/Laws.antt =====
-- The loop of src/retrieval/dedupe.ts: one candidate for each key, every key kept, and nothing
-- left to do a second time.
use la_muni_rag.Base.{
  suc, ◌≤◌, ◌≡◌, refl, ◌∙◌, inl, inr, Bool, false, ◌||◌, some, List, [], ◌∷◌, map, any, length, All,
  arith, Option-cases,
}
use la_muni_rag.Base.Text.{Text, text_eq, text_eq_iff}
use la_muni_rag.Retrieval.Types.{Floats, HybridCandidate}
use la_muni_rag.Retrieval.Dedupe.{
  dedupe_key_for_candidate, merge_hybrid_candidates, Merged, merged_get, merged_set,
  merge_candidate, merge_all, dedupe_hybrid_candidates,
}
use la_muni_rag.Retrieval.Dedupe.Keys.{merge_hybrid_candidates-key}

module _ {N : Type 0} (key : HybridCandidate N → Text) where
  -- Whether a candidate of the list has the key.
  abbrev pub has_key : Text → List (HybridCandidate N) → Bool
  has_key k cs = any (λ c. text_eq (key c) k) cs

  -- No two candidates of the list have one key.
  abbrev pub DistinctKeys : List (HybridCandidate N) → Type 0
  DistinctKeys [] = Unit
  DistinctKeys (c ∷ cs) = (has_key (key c) cs ≡ false) × DistinctKeys cs

module _ (F : Floats) where
  -- The same of the entries of the map.
  abbrev pub has_entry : Text → Merged F → Bool
  has_entry k m = any (λ (e : Text × HybridCandidate F.Num). text_eq e.0 k) m

  abbrev DistinctEntries : Merged F → Type 0
  DistinctEntries [] = Unit
  DistinctEntries ((k, c) ∷ m) = (has_entry k m ≡ false) × DistinctEntries m

  has_entry-merged_set :
      (k q : Text) (c : HybridCandidate F.Num) (m : Merged F)
      → has_entry q (merged_set F k c m) ≡ (has_entry q m || text_eq k q)
  unfolding merged_set
  has_entry-merged_set k q c [] = ground arith
  has_entry-merged_set k q c ((j, d) ∷ m) =
      ground (arith, has_entry-merged_set k q c m, text_eq_iff j k)

  DistinctEntries-merged_set :
      (k : Text) (c : HybridCandidate F.Num) (m : Merged F)
      → DistinctEntries m
      → DistinctEntries (merged_set F k c m)
  unfolding merged_set
  DistinctEntries-merged_set k c [] h = (refl, tt)
  DistinctEntries-merged_set k c ((j, d) ∷ m) (fresh, h) = ground (
    arith,
    DistinctEntries-merged_set k c m h,
    has_entry-merged_set k j c m,
    text_eq_iff j k,
    text_eq_iff k j,
  )

  pub length-merged_set :
      (k : Text) (c : HybridCandidate F.Num) (m : Merged F)
      → length (merged_set F k c m) ≤ suc (length m)
  unfolding merged_set
  length-merged_set k c [] = omega arith
  length-merged_set k c ((j, d) ∷ m) = ground (arith, length-merged_set k c m)

module _ (F : Floats) (sha256 : Text → Text) where
  abbrev pub key : HybridCandidate F.Num → Text
  key = dedupe_key_for_candidate sha256

  -- Each entry stands under the key of its candidate.
  abbrev IsKeyed : Merged F → Type 0
  IsKeyed = All (λ (e : Text × HybridCandidate F.Num). key e.1 ≡ e.0)

  abbrev pub values : Merged F → List (HybridCandidate F.Num)
  values m = map (λ (e : Text × HybridCandidate F.Num). e.1) m

  IsKeyed-merged_set :
      (k : Text) (c : HybridCandidate F.Num) (m : Merged F)
      → key c ≡ k
      → IsKeyed m
      → IsKeyed (merged_set F k c m)
  unfolding merged_set
  IsKeyed-merged_set k c [] e h = (e, tt)
  IsKeyed-merged_set k c ((j, d) ∷ m) e (p, h) =
      ground (arith, IsKeyed-merged_set k c m e h, text_eq_iff j k)

  merged_get-key :
      (k : Text) (c : HybridCandidate F.Num) (m : Merged F)
      → IsKeyed m
      → merged_get F k m ≡ some c
      → key c ≡ k
  unfolding merged_get
  merged_get-key k c [] h e = cc
  merged_get-key k c ((j, d) ∷ m) (p, h) e = ground (arith, merged_get-key k c m h, text_eq_iff j k)

  -- What the loop keeps.
  record IsMap (m : Merged F) : Type 0 where
    keyed : IsKeyed m
    distinct : DistinctEntries F m

  IsMap-merge_candidate :
      ((t : Text) → length (sha256 t) ≡ 64)
      → (m : Merged F) (c : HybridCandidate F.Num) → IsMap m
      → IsMap (merge_candidate F sha256 m c)
  unfolding merge_candidate
  IsMap-merge_candidate digest m c h = elim (Option-cases (merged_get F (key c) m)) [
    | inl new ↦
        rw (new, merge_candidate)
          (record {
            keyed = IsKeyed-merged_set (key c) c m refl h.keyed;
            distinct = DistinctEntries-merged_set F (key c) c m h.distinct;
          })
    | inr (d, old) ↦
        let same = merged_get-key (key c) d m h.keyed old in
        let merged = merge_hybrid_candidates F d c in
        rw (old, merge_candidate)
          (record {
            keyed =
                IsKeyed-merged_set (key c) merged m
                  (merge_hybrid_candidates-key F sha256 digest d c same ∙ same) h.keyed;
            distinct = DistinctEntries-merged_set F (key c) merged m h.distinct;
          })
  ]

  IsMap-merge_all :
      ((t : Text) → length (sha256 t) ≡ 64)
      → (m : Merged F) (cs : List (HybridCandidate F.Num)) → IsMap m
      → IsMap (merge_all F sha256 m cs)
  unfolding merge_all
  IsMap-merge_all digest m [] h = h
  IsMap-merge_all digest m (c ∷ cs) h =
      IsMap-merge_all digest (merge_candidate F sha256 m c) cs (IsMap-merge_candidate digest m c h)

  has_key-values :
      (q : Text) (m : Merged F) → IsKeyed m → has_key key q (values m) ≡ has_entry F q m
  has_key-values q [] h = refl
  has_key-values q ((k, c) ∷ m) (p, h) = rw (p, has_key-values q m h)

  DistinctKeys-values :
      (m : Merged F) → IsKeyed m → DistinctEntries F m → DistinctKeys key (values m)
  DistinctKeys-values [] h d = tt
  DistinctKeys-values ((k, c) ∷ m) (p, h) (fresh, d) =
      (rw p (has_key-values k m h ∙ fresh), DistinctKeys-values m h d)

  -- If the digest is 64 digits long, no two results have one key.
  pub dedupe_hybrid_candidates-DistinctKeys :
      ((t : Text) → length (sha256 t) ≡ 64)
      → (cs : List (HybridCandidate F.Num))
      → DistinctKeys key (dedupe_hybrid_candidates F sha256 cs)
  unfolding dedupe_hybrid_candidates
  dedupe_hybrid_candidates-DistinctKeys digest cs =
      let h = IsMap-merge_all digest [] cs (record { keyed = tt; distinct = tt }) in
      DistinctKeys-values (merge_all F sha256 [] cs) h.keyed h.distinct

  pub has_entry-merge_candidate :
      (q : Text) (m : Merged F) (c : HybridCandidate F.Num)
      → has_entry F q (merge_candidate F sha256 m c) ≡ (has_entry F q m || text_eq (key c) q)
  unfolding merge_candidate
  has_entry-merge_candidate q m c = elim (Option-cases (merged_get F (key c) m)) [
    | inl new ↦ rw (new, merge_candidate) (has_entry-merged_set F (key c) q c m)
    | inr (d, old) ↦
        rw (old, merge_candidate)
          (has_entry-merged_set F (key c) q (merge_hybrid_candidates F d c) m)
  ]

  has_entry-merge_all :
      (q : Text) (m : Merged F) (cs : List (HybridCandidate F.Num))
      → has_entry F q (merge_all F sha256 m cs) ≡ (has_entry F q m || has_key key q cs)
  unfolding merge_all
  has_entry-merge_all q m [] = ground arith
  has_entry-merge_all q m (c ∷ cs) = ground (
    arith,
    has_entry-merge_all q (merge_candidate F sha256 m c) cs,
    has_entry-merge_candidate q m c,
  )

  -- The results have exactly the keys of the candidates given.
  pub dedupe_hybrid_candidates-has_key :
      ((t : Text) → length (sha256 t) ≡ 64)
      → (cs : List (HybridCandidate F.Num)) (q : Text)
      → has_key key q (dedupe_hybrid_candidates F sha256 cs) ≡ has_key key q cs
  unfolding dedupe_hybrid_candidates
  dedupe_hybrid_candidates-has_key digest cs q =
      let h = IsMap-merge_all digest [] cs (record { keyed = tt; distinct = tt }) in
      has_key-values q (merge_all F sha256 [] cs) h.keyed ∙ has_entry-merge_all q [] cs
