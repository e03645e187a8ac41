-- ===== src/Evidence/Convert.antt =====
-- How src/evidence.ts and src/retrieval/vectorRetriever.ts turn results into candidates and
-- evidence.
use la_muni_rag.Base.{
  ℕ, zero, suc, ◌-◌, Bool, true, false, ◌&&◌, ◌==◌, Option, none, some, [], ◌∷◌, ◌++◌, length,
  get_or, if◌then◌else◌,
}
use la_muni_rag.Base.Text.{Text, codes, is_empty, trim, decimal}
use la_muni_rag.Retrieval.Types.{
  Floats, RetrievalMode, mode_name, phrase, keyword, vector, HybridCandidate,
}
use la_muni_rag.Evidence.Types.{
  EvidenceMode, hybrid_mode, KeywordSearchResult, PhraseSearchResult, VectorCandidateInput,
  EvidenceItem,
}

unfoldable pub has_prefix : Text → Text → Bool
has_prefix [] s = true
has_prefix (p ∷ ps) [] = false
has_prefix (p ∷ ps) (c ∷ s) = p == c && has_prefix ps s

-- `value.replaceAll(pattern, "")`; `skip` units of a match are still to be left out.
unfoldable pub remove_all : Text → ℕ → Text → Text
remove_all pattern skip [] = []
remove_all pattern (suc skip) (c ∷ s) = remove_all pattern skip s
remove_all pattern zero (c ∷ s) = elim (has_prefix pattern (c ∷ s)) [
  | true ↦ remove_all pattern (length pattern - 1) s
  | false ↦ c ∷ remove_all pattern zero s
]

unfoldable pub strip_headline_tags : Text → Text
strip_headline_tags value = remove_all (codes "</mark>") 0 (remove_all (codes "<mark>") 0 value)

unfoldable pub optional_source_url : Option Text → Option Text
optional_source_url none = none
optional_source_url (some url) = if is_empty (trim url) then none else some url

-- `${page ?? "unknown"}`.
abbrev page_or_unknown : Option ℕ → Text
page_or_unknown none = codes "unknown"
page_or_unknown (some n) = decimal n

module _ {N : Type 0} where
  unfoldable pub map_keyword_result_to_evidence :
      KeywordSearchResult N → EvidenceMode → EvidenceItem N
  map_keyword_result_to_evidence result mode = record {
    document_title = result.document_title;
    source_type = result.document_type;
    citation_label = result.citation_label;
    page_start = result.page_start;
    excerpt = strip_headline_tags result.snippet;
    score = some result.keyword_score;
    retrieval_mode = mode;
    matched_modes = none;
    source_url = optional_source_url result.source_url;
  }

  unfoldable pub map_phrase_result_to_evidence : PhraseSearchResult → EvidenceMode → EvidenceItem N
  map_phrase_result_to_evidence result mode = record {
    document_title = result.document_title;
    source_type = result.document_type;
    citation_label = result.citation_label;
    page_start = result.page_start;
    excerpt = result.preview;
    score = none;
    retrieval_mode = mode;
    matched_modes = none;
    source_url = optional_source_url result.source_url;
  }

  unfoldable pub hybrid_candidate_to_evidence : HybridCandidate N → EvidenceItem N
  hybrid_candidate_to_evidence candidate = record {
    document_title = get_or candidate.document_title (codes "Unknown document");
    source_type = get_or candidate.source_type (codes "other");
    citation_label = candidate.citation_label;
    page_start = candidate.page_start;
    excerpt = candidate.excerpt;
    score = some candidate.hybrid_score;
    retrieval_mode = hybrid_mode;
    matched_modes = some candidate.matched_modes;
    source_url = optional_source_url candidate.source_url;
  }

module _ (F : Floats) where
  -- A candidate of a text search, with the score of its mode.
  abbrev found_by :
      RetrievalMode
      → Text
      → Text
      → Text
      → Text
      → Option ℕ
      → Option Text
      → Option F.Num
      → Option F.Num
      → HybridCandidate F.Num
  found_by mode title label excerpt source page url phrase_score keyword_score = record {
    id = mode_name mode ++ codes ":" ++ label ++ codes ":" ++ page_or_unknown page;
    mode = mode;
    matched_modes = mode ∷ [];
    document_id = none;
    document_version_id = none;
    document_title = some title;
    section_id = none;
    chunk_id = none;
    citation_label = label;
    excerpt = excerpt;
    source_type = some source;
    page_start = page;
    page_end = none;
    article_number = none;
    source_url = optional_source_url url;
    scores = record {
      phrase_score = phrase_score;
      keyword_score = keyword_score;
      vector_score = none;
      provenance_score = none;
    };
    hybrid_score = F.dec 0 1;
    metadata = none;
  }

  unfoldable pub keyword_result_to_hybrid_candidate :
      KeywordSearchResult F.Num → HybridCandidate F.Num
  keyword_result_to_hybrid_candidate result =
      found_by keyword result.document_title result.citation_label
        (strip_headline_tags result.snippet) result.document_type result.page_start
        result.source_url none (some result.keyword_score)

  unfoldable pub phrase_result_to_hybrid_candidate : PhraseSearchResult → HybridCandidate F.Num
  phrase_result_to_hybrid_candidate result =
      found_by phrase result.document_title result.citation_label result.preview
        result.document_type result.page_start result.source_url (some (F.dec 1 1)) none

  unfoldable pub vector_candidate_to_hybrid_candidate :
      VectorCandidateInput F.Num → HybridCandidate F.Num
  vector_candidate_to_hybrid_candidate candidate = record {
    id = codes "vector:" ++ candidate.chunk_id;
    mode = vector;
    matched_modes = vector ∷ [];
    document_id = candidate.document_id;
    document_version_id = candidate.document_version_id;
    document_title = candidate.document_title;
    section_id = candidate.section_id;
    chunk_id = some candidate.chunk_id;
    citation_label = candidate.citation_label;
    excerpt = candidate.excerpt;
    source_type = candidate.source_type;
    page_start = candidate.page_start;
    page_end = candidate.page_end;
    article_number = candidate.article_number;
    source_url = candidate.source_url;
    scores = record {
      phrase_score = none;
      keyword_score = none;
      vector_score = some candidate.similarity;
      provenance_score = none;
    };
    hybrid_score = F.dec 0 1;
    metadata = candidate.metadata;
  }
