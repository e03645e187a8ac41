-- ===== src/Retrieval/Order.antt =====
-- The order in which src/retrieval/hybridScore.ts ranks candidates.
use la_muni_rag.Base.{
  ◌≡◌, refl, sym, ◌∙◌, Bool, true, false, not, ◌||◌, List, [], ◌∷◌, map, All, keep, length, arith,
  if◌then◌else◌,
}
use la_muni_rag.Base.Text.{Text}
use la_muni_rag.Retrieval.Types.{Floats, HybridCandidate, HybridRankingWeights}
use la_muni_rag.Base.Sort.{IsSorted, sort-IsSorted, All-sort, keep-sort}
use la_muni_rag.Retrieval.Score.{
  Sign, is_negative, difference_sign, phrase_of, compare_candidates, ranks_before,
  score_hybrid_candidate, rank_hybrid_candidates,
}

-- What the ranking relies on in its platform: `<` is a weak order on the numbers other than NaN,
-- `===` is its tie there, and `localeCompare` orders texts consistently.
pub record IsConsistent (F : Floats) (locale : Text → Text → Sign) : Type 0 where
  pub lt_asym : (a b : F.Num) → F.num_lt a b ≡ true → F.num_lt b a ≡ false
  pub lt_trans :
      (a b c : F.Num)
      → F.is_nan a ≡ false
      → F.is_nan b ≡ false
      → F.is_nan c ≡ false
      → F.num_lt a b ≡ false
      → F.num_lt b c ≡ false
      → F.num_lt a c ≡ false
  pub eq_tie :
      (a b : F.Num)
      → F.is_nan a ≡ false
      → F.is_nan b ≡ false
      → F.num_eq a b ≡ not (F.num_lt a b || F.num_lt b a)
  pub locale_asym :
      (s t : Text) → is_negative (locale s t) ≡ true → is_negative (locale t s) ≡ false
  pub locale_trans :
      (s t u : Text)
      → is_negative (locale s t) ≡ false
      → is_negative (locale t u) ≡ false
      → is_negative (locale s u) ≡ false

-- Decided by `less`, or by `more` the other way, or else by `next`.
abbrev lex : Bool → Bool → Bool → Bool
lex less more next = if less then true else if more then false else next

lex_asym :
    (less more next next' : Bool)
    → (less ≡ true → more ≡ false)
    → (next ≡ true → next' ≡ false)
    → lex less more next ≡ true
    → lex more less next' ≡ false
lex_asym less more next next' p q h = ground arith

lex_trans :
    (ab ba bc cb ac ca nab nbc nac : Bool)
    → (ab ≡ false → bc ≡ false → ac ≡ false)
    → (ca ≡ false → ab ≡ false → cb ≡ false)
    → (bc ≡ false → ca ≡ false → ba ≡ false)
    → (nab ≡ false → nbc ≡ false → nac ≡ false)
    → lex ab ba nab ≡ false
    → lex bc cb nbc ≡ false
    → lex ac ca nac ≡ false
lex_trans true ba bc cb ac ca nab nbc nac p q r s h k = cc
lex_trans false ba true cb ac ca nab nbc nac p q r s h k = cc
lex_trans false ba false cb true ca nab nbc nac p q r s h k = absurd (ground arith)
lex_trans false ba false cb false true nab nbc nac p q r s h k = refl
lex_trans false ba false cb false false nab nbc nac p q r s h k = ground arith

module _ (F : Floats) (locale : Text → Text → Sign) (laws : IsConsistent F locale) where
  -- Neither of the two numbers by which a candidate is ranked is NaN.
  abbrev pub IsRankable : HybridCandidate F.Num → Type 0
  IsRankable c = (F.is_nan c.hybrid_score ≡ false) × (F.is_nan (phrase_of F c) ≡ false)

  ranks_before-lex :
      (a b : HybridCandidate F.Num)
      → IsRankable a
      → IsRankable b
      → ranks_before F locale a b
        ≡ lex (F.num_lt b.hybrid_score a.hybrid_score) (F.num_lt a.hybrid_score b.hybrid_score) (
            lex
              (F.num_lt (phrase_of F b) (phrase_of F a))
              (F.num_lt (phrase_of F a) (phrase_of F b))
              (is_negative (locale a.citation_label b.citation_label)))
  unfolding compare_candidates difference_sign
  ranks_before-lex a b (ha, pa) (hb, pb) = ground (
    arith,
    laws.eq_tie b.hybrid_score a.hybrid_score hb ha,
    laws.eq_tie (phrase_of F b) (phrase_of F a) pb pa,
  )

  asym :
      (a b : HybridCandidate F.Num)
      → IsRankable a
      → IsRankable b
      → ranks_before F locale a b ≡ true
      → ranks_before F locale b a ≡ false
  asym a b pa pb h =
      ranks_before-lex b a pb pa
      ∙ lex_asym _ _ _ _ (laws.lt_asym _ _)
          (lex_asym _ _ _ _ (laws.lt_asym _ _) (laws.locale_asym _ _))
          (sym (ranks_before-lex a b pa pb) ∙ h)

  -- One level of the comparison is transitive in its failure if the next level is.
  lex_num :
      (x y z : F.Num) (nxy nyz nxz : Bool)
      → F.is_nan x ≡ false
      → F.is_nan y ≡ false
      → F.is_nan z ≡ false
      → (nxy ≡ false → nyz ≡ false → nxz ≡ false)
      → lex (F.num_lt y x) (F.num_lt x y) nxy ≡ false
      → lex (F.num_lt z y) (F.num_lt y z) nyz ≡ false
      → lex (F.num_lt z x) (F.num_lt x z) nxz ≡ false
  lex_num x y z nxy nyz nxz hx hy hz next =
      lex_trans (F.num_lt y x) (F.num_lt x y) (F.num_lt z y) (F.num_lt y z) (F.num_lt z x)
        (F.num_lt x z) nxy nyz nxz (λ p q. laws.lt_trans z y x hz hy hx q p)
        (λ p q. laws.lt_trans y x z hy hx hz q p) (λ p q. laws.lt_trans x z y hx hz hy q p) next

  trans :
      (a b c : HybridCandidate F.Num)
      → IsRankable a
      → IsRankable b
      → IsRankable c
      → ranks_before F locale a b ≡ false
      → ranks_before F locale b c ≡ false
      → ranks_before F locale a c ≡ false
  trans a b c (ha, pa) (hb, pb) (hc, pc) h k =
      ranks_before-lex a c (ha, pa) (hc, pc)
      ∙ lex_num a.hybrid_score b.hybrid_score c.hybrid_score _ _ _ ha hb hc
          (lex_num (phrase_of F a) (phrase_of F b) (phrase_of F c) _ _ _ pa pb pc
            (laws.locale_trans a.citation_label b.citation_label c.citation_label))
          (sym (ranks_before-lex a b (ha, pa) (hb, pb)) ∙ h)
          (sym (ranks_before-lex b c (hb, pb) (hc, pc)) ∙ k)

  -- `y` may stand behind `x`: its hybrid score is not higher; where neither is the higher, its phrase
  -- score is not higher; and where neither phrase score is, its citation does not sort first.
  abbrev pub StandsAfter : HybridCandidate F.Num → HybridCandidate F.Num → Type 0
  StandsAfter x y =
      (F.num_lt x.hybrid_score y.hybrid_score ≡ false)
      × (F.num_lt y.hybrid_score x.hybrid_score ≡ false
          → (F.num_lt (phrase_of F x) (phrase_of F y) ≡ false)
            × (F.num_lt (phrase_of F y) (phrase_of F x) ≡ false
                → is_negative (locale y.citation_label x.citation_label) ≡ false))

  -- Every candidate may stand behind each one before it.
  abbrev pub IsBestFirst : List (HybridCandidate F.Num) → Type 0
  IsBestFirst [] = Unit
  IsBestFirst (x ∷ xs) = All (StandsAfter x) xs × IsBestFirst xs

  lex-StandsAfter :
      (hxy hyx pxy pyx neg : Bool)
      → lex hxy hyx (lex pxy pyx neg) ≡ false
      → (hxy ≡ false) × (hyx ≡ false → (pxy ≡ false) × (pyx ≡ false → neg ≡ false))
  lex-StandsAfter true hyx pxy pyx neg h = cc h
  lex-StandsAfter false true pxy pyx neg h = (refl, λ e. cc e)
  lex-StandsAfter false false true pyx neg h = cc h
  lex-StandsAfter false false false true neg h = (refl, λ e. (refl, λ k. cc k))
  lex-StandsAfter false false false false neg h = (refl, λ e. (refl, λ k. h))

  All-StandsAfter :
      (x : HybridCandidate F.Num) (ys : List (HybridCandidate F.Num))
      → IsRankable x
      → All IsRankable ys
      → All (λ y. ranks_before F locale y x ≡ false) ys
      → All (StandsAfter x) ys
  All-StandsAfter x [] p ps h = tt
  All-StandsAfter x (y ∷ ys) p (q, ps) (k, h) =
      (lex-StandsAfter _ _ _ _ _ (sym (ranks_before-lex y x q p) ∙ k), All-StandsAfter x ys p ps h)

  IsSorted-IsBestFirst :
      (cs : List (HybridCandidate F.Num))
      → All IsRankable cs
      → IsSorted (ranks_before F locale) cs
      → IsBestFirst cs
  IsSorted-IsBestFirst [] p h = tt
  IsSorted-IsBestFirst (x ∷ xs) (p, ps) (k, h) =
      (All-StandsAfter x xs p ps k, IsSorted-IsBestFirst xs ps h)

  -- If `<` is a weak order on the numbers other than NaN with `===` its tie, `localeCompare` orders
  -- texts consistently, and no hybrid or phrase score of a scored candidate is NaN, then the ranking
  -- has the scored candidates, each as often as it is given, and nothing stands behind a candidate
  -- with a lower hybrid score, with a lower phrase score where the hybrid scores tie, or with a
  -- citation that sorts later where both tie.
  pub rank_hybrid_candidates-IsBestFirst :
      (cs : List (HybridCandidate F.Num)) (w : HybridRankingWeights F.Num)
      → All IsRankable (map (score_hybrid_candidate F w) cs)
      → IsBestFirst (rank_hybrid_candidates F locale cs w)
        × ((t : HybridCandidate F.Num → Bool)
            → length (keep t (rank_hybrid_candidates F locale cs w))
              ≡ length (keep t (map (score_hybrid_candidate F w) cs)))
  unfolding rank_hybrid_candidates
  rank_hybrid_candidates-IsBestFirst cs w h =
      let scored = map (score_hybrid_candidate F w) cs in
      (
        IsSorted-IsBestFirst _ (All-sort (ranks_before F locale) IsRankable scored h)
            (sort-IsSorted (ranks_before F locale) IsRankable asym trans scored h),
        λ t. keep-sort (ranks_before F locale) t scored,
      )
