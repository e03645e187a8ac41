-- ===== src/Evidence/Answer.antt =====
-- src/answer.ts.
use la_muni_rag.Base.{
  ℕ, suc, false, List, [], ◌∷◌, ◌++◌, map, length, take, ltb, Result, ok, ◌>>=◌, if◌then◌else◌,
}
use la_muni_rag.Base.Text.{Text, codes, is_empty, trim, join, decimal}
use la_muni_rag.Retrieval.Types.{Floats}
use la_muni_rag.Retrieval.Dedupe.{collapse_from}
use la_muni_rag.Retrieval.Score.{Sign}
use la_muni_rag.Evidence.Types.{
  EvidenceMode, evidence_found, no_evidence, KeywordSearchResult, PhraseSearchResult, EvidenceItem,
  EvidenceResponse, EvidenceDependencies, draft_grounded, not_found, draft_label, not_found_label,
  AnswerCitation, DeterministicAnswerResponse,
}
use la_muni_rag.Evidence.Find.{find_evidence_with_dependencies}

unfoldable pub normalize_spaces : Text → Text
normalize_spaces value = trim (collapse_from false value)

unfoldable pub excerpt_summary : Text → Text
excerpt_summary value =
    let normalized = normalize_spaces value in
    if is_empty normalized
    then []
    else if ltb 260 (length normalized)
    then take 260 normalized ++ codes "..."
    else normalized

module _ {N : Type 0} where
  -- The numbered summaries, from the item of the given index on.
  unfoldable pub summaries_from : ℕ → List (EvidenceItem N) → List Text
  summaries_from index [] = []
  summaries_from index (item ∷ items) =
      (decimal (suc index)
        ++ codes ". "
        ++ excerpt_summary item.excerpt
        ++ codes " ("
        ++ item.citation_label
        ++ codes ")")
      ∷ summaries_from (suc index) items

  unfoldable pub build_draft_answer : Text → List (EvidenceItem N) → Text
  build_draft_answer query evidence =
      let summaries = join (codes " ") (summaries_from 0 (take 3 evidence)) in
      join (codes " ") (
        (codes "Respuesta preliminar basada en evidencia para: \"" ++ query ++ codes "\".")
        ∷ (if is_empty summaries
            then codes "Se encontraron referencias, pero el contenido requiere revision humana."
            else summaries)
        ∷ codes
            "Esta salida es un borrador deterministico: resume fragmentos recuperados y no sustituye revision juridica, tecnica o municipal."
        ∷ [])

  unfoldable pub citation_of : EvidenceItem N → AnswerCitation
  citation_of item = record {
    citation_label = item.citation_label;
    document_title = item.document_title;
    source_type = item.source_type;
    page_start = item.page_start;
  }

  unfoldable pub build_answer_from_evidence : EvidenceResponse N → DeterministicAnswerResponse N
  build_answer_from_evidence response = elim response.answer_status [
    | no_evidence ↦ record {
      query = response.query;
      mode = response.mode;
      answer_status = not_found;
      answer_label = not_found_label;
      answer =
          codes "No consta evidencia suficiente en el corpus cargado para responder \""
          ++ response.query
          ++ codes "\". "
          ++ codes
              "Debe cargarse o verificarse documentacion adicional antes de formular una respuesta.";
      citations = [];
      evidence = [];
    }
    | evidence_found ↦ record {
      query = response.query;
      mode = response.mode;
      answer_status = draft_grounded;
      answer_label = draft_label;
      answer = build_draft_answer response.query response.evidence;
      citations = map citation_of response.evidence;
      evidence = response.evidence;
    }
  ]

module _ (F : Floats) {V E : Type 0} (mismatch : ℕ → ℕ → E) (sha256 : Text → Text)
    (locale : Text → Text → Sign)
    (default_keyword_search : Text → ℕ → Result E (List (KeywordSearchResult F.Num)))
    (default_phrase_search : Text → ℕ → Result E (List PhraseSearchResult)) where
  unfoldable pub build_deterministic_answer_with_dependencies :
      Text
      → EvidenceMode
      → ℕ
      → EvidenceDependencies F.Num V E
      → Result E (DeterministicAnswerResponse F.Num)
  build_deterministic_answer_with_dependencies query mode limit dependencies =
      find_evidence_with_dependencies F mismatch sha256 locale default_keyword_search
        default_phrase_search query mode limit dependencies
      >>= λ response. ok (build_answer_from_evidence response)
