-- ===== src/Retrieval/Types.antt =====
-- src/retrieval/types.ts. A JavaScript number that is a score is of the type `N` of a `Floats`; a
-- page is a natural number. A field that may be undefined or null is an option: the code never
-- tells the two apart.
use la_muni_rag.Base.{ℕ, Bool, true, false, Option, List, [], ◌∷◌, if◌then◌else◌}
use la_muni_rag.Base.Text.{Text, codes, text_eq}
use la_muni_rag.Base.Json.{Json, string, Items, nil, item}

-- What the code does with floating-point numbers. `dec a b` is the literal of value a / b.
pub record Floats : Type 1 where
  pub Num : Type 0
  pub dec : ℕ → ℕ → Num
  pub add : Num → Num → Num
  pub mul : Num → Num → Num
  pub div : Num → Num → Num
  pub maximum : Num → Num → Num
  pub minimum : Num → Num → Num
  pub is_nan : Num → Bool
  pub num_eq : Num → Num → Bool
  pub num_lt : Num → Num → Bool

pub data RetrievalMode : Type 0 where
  phrase keyword vector : RetrievalMode

unfoldable pub mode_eq : RetrievalMode → RetrievalMode → Bool
mode_eq phrase phrase = true
mode_eq keyword keyword = true
mode_eq vector vector = true
mode_eq _ _ = false

abbrev pub mode_name : RetrievalMode → Text
mode_name phrase = codes "phrase"
mode_name keyword = codes "keyword"
mode_name vector = codes "vector"

-- An object with text keys: its members in the order of insertion.
abbrev pub Dictionary : Type 0
Dictionary = List (Text × Json)

unfoldable pub put : Text → Json → Dictionary → Dictionary
put key value [] = (key, value) ∷ []
put key value ((k, v) ∷ rest) =
    if text_eq k key then (k, value) ∷ rest else (k, v) ∷ put key value rest

-- `{ ...base, ...extra }`.
unfoldable pub spread : Dictionary → Dictionary → Dictionary
spread base [] = base
spread base ((k, v) ∷ extra) = spread (put k v base) extra

unfoldable pub modes_json : List RetrievalMode → Items
modes_json [] = nil
modes_json (m ∷ ms) = item (string (mode_name m)) (modes_json ms)

pub record HybridScoreComponents (N : Type 0) : Type 0 where
  pub phrase_score : Option N
  pub keyword_score : Option N
  pub vector_score : Option N
  pub provenance_score : Option N

pub record HybridCandidate (N : Type 0) : Type 0 where
  pub id : Text
  pub mode : RetrievalMode
  pub matched_modes : List RetrievalMode
  pub document_id : Option Text
  pub document_version_id : Option Text
  pub document_title : Option Text
  pub section_id : Option Text
  pub chunk_id : Option Text
  pub citation_label : Text
  pub excerpt : Text
  pub source_type : Option Text
  pub page_start : Option ℕ
  pub page_end : Option ℕ
  pub article_number : Option Text
  pub source_url : Option Text
  pub scores : HybridScoreComponents N
  pub hybrid_score : N
  pub metadata : Option Dictionary

pub record HybridRankingWeights (N : Type 0) : Type 0 where
  pub phrase_weight : N
  pub keyword_weight : N
  pub vector_weight : N
  pub provenance_weight : N

pub record HybridRetrievalInput (N : Type 0) : Type 0 where
  pub phrase_candidates : Option (List (HybridCandidate N))
  pub keyword_candidates : Option (List (HybridCandidate N))
  pub vector_candidates : Option (List (HybridCandidate N))
  pub limit : Option ℕ
  pub weights : Option (HybridRankingWeights N)

pub record HybridRetrievalResult (N : Type 0) : Type 0 where
  pub candidates : List (HybridCandidate N)
  pub total_before_dedupe : ℕ
  pub total_after_dedupe : ℕ

unfoldable pub default_hybrid_weights : (F : Floats) → HybridRankingWeights F.Num
default_hybrid_weights F = record {
  phrase_weight = F.dec 4 1;
  keyword_weight = F.dec 2 1;
  vector_weight = F.dec 15 10;
  provenance_weight = F.dec 5 10;
}

abbrev pub retrieval_mode_priority : List RetrievalMode
retrieval_mode_priority = phrase ∷ keyword ∷ vector ∷ []
