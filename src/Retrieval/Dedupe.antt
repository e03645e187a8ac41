-- ===== src/Retrieval/Dedupe.antt =====
-- src/retrieval/dedupe.ts. `sha256` gives the hexadecimal digest of a text.
pub mod Keys
pub mod Laws
pub mod Fixed
pub mod Modes
use la_muni_rag.Base.{
  ℕ, Bool, true, false, ◌||◌, not, Option, none, some, List, [], ◌∷◌, ◌++◌, map, keep, any, length,
  take, leb, if◌then◌else◌, get_or, or_else,
}
use la_muni_rag.Base.Text.{Text, codes, text_eq, is_empty, is_space, trim}
use la_muni_rag.Base.Json.{array}
use la_muni_rag.Retrieval.Types.{
  Floats, RetrievalMode, vector, mode_eq, spread, put, modes_json, HybridScoreComponents,
  HybridCandidate, retrieval_mode_priority,
}

-- `text.replace(/\s+/g, " ")`; `after` says that the unit before was white space.
unfoldable pub collapse_from : Bool → Text → Text
collapse_from after [] = []
collapse_from after (c ∷ s) =
    let kept = c ∷ collapse_from false s in
    let first = 32 ∷ collapse_from true s in
    let more = collapse_from true s in if is_space c then if after then more else first else kept

-- A field that JavaScript counts as true: present, and not the empty text.
abbrev pub truthy : Option Text → Bool
truthy none = false
truthy (some t) = not (is_empty t)

unfoldable pub choose_primary_mode_from : List RetrievalMode → List RetrievalMode → RetrievalMode
choose_primary_mode_from [] modes = vector
choose_primary_mode_from (m ∷ ms) modes =
    if any (mode_eq m) modes then m else choose_primary_mode_from ms modes

unfoldable pub choose_primary_mode : List RetrievalMode → RetrievalMode
unfolding choose_primary_mode_from
choose_primary_mode modes = choose_primary_mode_from retrieval_mode_priority modes

unfoldable pub merge_modes : List RetrievalMode → List RetrievalMode → List RetrievalMode
merge_modes a b =
    keep (λ mode. any (mode_eq mode) a || any (mode_eq mode) b) retrieval_mode_priority

module _ (sha256 : Text → Text) where
  unfoldable pub hash_excerpt : Text → Text
  hash_excerpt excerpt = take 16 (sha256 (trim (collapse_from false excerpt)))

  unfoldable pub dedupe_key_for_candidate : {N : Type 0} → HybridCandidate N → Text
  dedupe_key_for_candidate candidate =
      if truthy candidate.chunk_id
      then codes "chunk:" ++ get_or candidate.chunk_id []
      else if truthy candidate.section_id
      then codes "section:" ++ get_or candidate.section_id []
      else codes "citation:"
        ++ candidate.citation_label
        ++ codes ":"
        ++ hash_excerpt candidate.excerpt

module _ (F : Floats) where
  open F use {Num, dec, maximum}

  -- `Math.max(a ?? 0, b ?? 0)`.
  unfoldable pub best_score : Option Num → Option Num → Option Num
  best_score a b = some (maximum (get_or a (dec 0 1)) (get_or b (dec 0 1)))

  unfoldable pub merge_hybrid_candidates :
      HybridCandidate Num → HybridCandidate Num → HybridCandidate Num
  merge_hybrid_candidates existing incoming =
      let matched = merge_modes existing.matched_modes incoming.matched_modes in
      record existing {
        mode = choose_primary_mode matched;
        matched_modes = matched;
        document_id = or_else existing.document_id incoming.document_id;
        document_version_id = or_else existing.document_version_id incoming.document_version_id;
        document_title = or_else existing.document_title incoming.document_title;
        section_id = or_else existing.section_id incoming.section_id;
        chunk_id = or_else existing.chunk_id incoming.chunk_id;
        source_type = or_else existing.source_type incoming.source_type;
        page_start = or_else existing.page_start incoming.page_start;
        page_end = or_else existing.page_end incoming.page_end;
        article_number = or_else existing.article_number incoming.article_number;
        excerpt =
            if leb (length incoming.excerpt) (length existing.excerpt)
            then existing.excerpt
            else incoming.excerpt;
        scores = record {
          phrase_score = best_score existing.scores.phrase_score incoming.scores.phrase_score;
          keyword_score = best_score existing.scores.keyword_score incoming.scores.keyword_score;
          vector_score = best_score existing.scores.vector_score incoming.scores.vector_score;
          provenance_score =
              best_score existing.scores.provenance_score incoming.scores.provenance_score;
        };
        hybrid_score = maximum existing.hybrid_score incoming.hybrid_score;
        metadata = some (
            put (codes "dedupedModes") (array (modes_json matched))
              (spread (get_or existing.metadata []) (get_or incoming.metadata [])));
      }

  -- `Map<string, HybridCandidate>`: its entries in the order in which the keys came.
  abbrev pub Merged : Type 0
  Merged = List (Text × HybridCandidate Num)

  unfoldable pub merged_get : Text → Merged → Option (HybridCandidate Num)
  merged_get key [] = none
  merged_get key ((k, c) ∷ m) = if text_eq k key then some c else merged_get key m

  unfoldable pub merged_set : Text → HybridCandidate Num → Merged → Merged
  merged_set key c [] = (key, c) ∷ []
  merged_set key c ((k, d) ∷ m) = if text_eq k key then (k, c) ∷ m else (k, d) ∷ merged_set key c m

  module _ (sha256 : Text → Text) where
    -- One round of the loop.
    unfoldable pub merge_candidate : Merged → HybridCandidate Num → Merged
    merge_candidate merged candidate =
        let key = dedupe_key_for_candidate sha256 candidate in
        elim (merged_get key merged) [
          | none ↦ merged_set key candidate merged
          | some existing ↦ merged_set key (merge_hybrid_candidates existing candidate) merged
        ]

    unfoldable pub merge_all : Merged → List (HybridCandidate Num) → Merged
    merge_all merged [] = merged
    merge_all merged (c ∷ cs) = merge_all (merge_candidate merged c) cs

    unfoldable pub dedupe_hybrid_candidates :
        List (HybridCandidate Num) → List (HybridCandidate Num)
    dedupe_hybrid_candidates candidates =
        map (λ (e : Text × HybridCandidate Num). e.1) (merge_all [] candidates)
