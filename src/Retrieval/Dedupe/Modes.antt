-- ===== src/Retrieval/Dedupe/Modes.antt =====
-- The modes of a merged candidate of src/retrieval/dedupe.ts.
use la_muni_rag.Base.{◌≡◌, true, ◌||◌, List, any, arith}
use la_muni_rag.Retrieval.Types.{
  Floats, RetrievalMode, phrase, keyword, vector, mode_eq, HybridCandidate,
}
use la_muni_rag.Retrieval.Dedupe.{merge_modes, choose_primary_mode, merge_hybrid_candidates}

any-merge_modes :
    (a b : List RetrievalMode) (m : RetrievalMode)
    → any (mode_eq m) (merge_modes a b) ≡ (any (mode_eq m) a || any (mode_eq m) b)
unfolding merge_modes mode_eq
any-merge_modes a b phrase = ground arith
any-merge_modes a b keyword = ground arith
any-merge_modes a b vector = ground arith

primary_mode :
    (a b : List RetrievalMode) (m : RetrievalMode)
    → any (mode_eq m) a ≡ true
    → any (mode_eq (choose_primary_mode (merge_modes a b))) (merge_modes a b) ≡ true
unfolding merge_modes mode_eq choose_primary_mode
primary_mode a b phrase h = ground arith
primary_mode a b keyword h = ground arith
primary_mode a b vector h = ground arith

-- A merged candidate was found by exactly the modes that found one of the two, and its primary mode
-- is one of them if the existing candidate had a mode at all.
pub merge_hybrid_candidates-modes :
    (F : Floats) (c d : HybridCandidate F.Num) (m : RetrievalMode)
    → (any (mode_eq m) (merge_hybrid_candidates F c d).matched_modes
        ≡ (any (mode_eq m) c.matched_modes || any (mode_eq m) d.matched_modes))
      × (any (mode_eq m) c.matched_modes ≡ true
          → any
              (mode_eq (merge_hybrid_candidates F c d).mode)
              (merge_hybrid_candidates F c d).matched_modes
            ≡ true)
unfolding merge_hybrid_candidates
merge_hybrid_candidates-modes F c d m = (
  any-merge_modes c.matched_modes d.matched_modes m,
  primary_mode c.matched_modes d.matched_modes m,
)
