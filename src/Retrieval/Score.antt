-- ===== src/Retrieval/Score.antt =====
-- src/retrieval/hybridScore.ts: the scores of a candidate and the order of the candidates.
-- `locale` is the sign of `localeCompare`.
use la_muni_rag.Base.{
  Bool, true, false, ◌||◌, not, Option, none, some, List, map, if◌then◌else◌, get_or, is_some,
}
use la_muni_rag.Base.Text.{Text, is_empty, trim}
use la_muni_rag.Retrieval.Types.{Floats, HybridCandidate, HybridRankingWeights}
use la_muni_rag.Retrieval.Dedupe.{truthy}
use la_muni_rag.Base.Sort.{sort}

-- The sign of a comparator's result.
pub data Sign : Type 0 where
  negative zero_sign positive : Sign

abbrev pub is_negative : Sign → Bool
is_negative negative = true
is_negative _ = false

-- `text && text.trim().length > 0`.
abbrev pub has_words : Option Text → Bool
has_words none = false
has_words (some t) = not (is_empty (trim t))

module _ (F : Floats) where
  open F use {Num, dec, add, mul, maximum, minimum, is_nan, num_eq, num_lt}

  unfoldable pub clamp01 : Num → Num
  clamp01 value = maximum (dec 0 1) (minimum (dec 1 1) value)

  unfoldable pub normalize_score : Option Num → Num
  normalize_score none = dec 0 1
  normalize_score (some value) = if is_nan value then dec 0 1 else clamp01 value

  -- `if (test) score += amount`.
  abbrev pub add_if : Bool → Num → Num → Num
  add_if test amount score = if test then add score amount else score

  unfoldable pub calculate_provenance_score : HybridCandidate Num → Num
  calculate_provenance_score candidate = clamp01 (
      add_if (truthy candidate.section_id || truthy candidate.chunk_id) (dec 15 100) (
        add_if (has_words candidate.article_number) (dec 15 100) (
          add_if (is_some candidate.page_start) (dec 15 100) (
            add_if (has_words candidate.document_title) (dec 20 100)
              (add_if (not (is_empty (trim candidate.citation_label))) (dec 35 100) (dec 0 1))))))

  unfoldable pub score_hybrid_candidate :
      HybridRankingWeights Num → HybridCandidate Num → HybridCandidate Num
  score_hybrid_candidate weights candidate =
      let phrase = normalize_score candidate.scores.phrase_score in
      let keyword = normalize_score candidate.scores.keyword_score in
      let vector = normalize_score candidate.scores.vector_score in
      let provenance =
        normalize_score (
          some (get_or candidate.scores.provenance_score (calculate_provenance_score candidate))) in
      record candidate {
        scores = record {
          phrase_score = some phrase;
          keyword_score = some keyword;
          vector_score = some vector;
          provenance_score = some provenance;
        };
        hybrid_score =
            add
              (add (add (mul phrase weights.phrase_weight) (mul keyword weights.keyword_weight))
                (mul vector weights.vector_weight))
              (mul provenance weights.provenance_weight);
      }

  -- The sign of `b - a`.
  unfoldable pub difference_sign : Num → Num → Sign
  difference_sign b a = if num_lt b a then negative else if num_lt a b then positive else zero_sign

  abbrev pub phrase_of : HybridCandidate Num → Num
  phrase_of c = get_or c.scores.phrase_score (dec 0 1)

  -- The comparator of `rankHybridCandidates`.
  unfoldable pub compare_candidates :
      (Text → Text → Sign) → HybridCandidate Num → HybridCandidate Num → Sign
  compare_candidates locale a b =
      if not (num_eq b.hybrid_score a.hybrid_score)
      then difference_sign b.hybrid_score a.hybrid_score
      else if not (num_eq (phrase_of b) (phrase_of a))
      then difference_sign (phrase_of b) (phrase_of a)
      else locale a.citation_label b.citation_label

  abbrev pub ranks_before : (Text → Text → Sign) → HybridCandidate Num → HybridCandidate Num → Bool
  ranks_before locale a b = is_negative (compare_candidates locale a b)

  unfoldable pub rank_hybrid_candidates :
      (Text → Text → Sign)
      → List (HybridCandidate Num)
      → HybridRankingWeights Num
      → List (HybridCandidate Num)
  rank_hybrid_candidates locale candidates weights =
      sort (ranks_before locale) (map (score_hybrid_candidate weights) candidates)
