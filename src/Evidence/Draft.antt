-- ===== src/Evidence/Draft.antt =====
-- What the answers of src/answer.ts rest on.
use mathlib.Core.Path.{subst}
use la_muni_rag.Base.{
  ℕ, ◌≤◌, ◌≡◌, refl, ap, ◌∙◌, ◌⊎◌, false, List, [], ◌∷◌, ◌++◌, map, length, take, ltb, All, Result,
  ok, Result-cases, Bool-cases, length-map, length-append, length-take-le, inl, inr, arith, get_or,
}
use la_muni_rag.Base.Text.{Text, codes, is_empty, trim}
use la_muni_rag.Retrieval.Types.{Floats}
use la_muni_rag.Retrieval.Score.{Sign}
use la_muni_rag.Evidence.Types.{
  EvidenceMode, keyword_mode, phrase_mode, hybrid_mode, KeywordSearchResult, PhraseSearchResult,
  EvidenceItem, EvidenceResponse, EvidenceDependencies, draft_grounded, not_found, AnswerCitation,
  DeterministicAnswerResponse,
}
use la_muni_rag.Evidence.Convert.{map_phrase_result_to_evidence, map_keyword_result_to_evidence}
use la_muni_rag.Evidence.Find.{
  response_for_evidence, resolve_vector_candidates, hybrid_evidence,
  find_evidence_with_dependencies,
}
use la_muni_rag.Evidence.Cited.{IsCited, IsLimited, hybrid_evidence-IsLimited}
use la_muni_rag.Evidence.Answer.{
  normalize_spaces, excerpt_summary, citation_of, build_answer_from_evidence,
  build_deterministic_answer_with_dependencies,
}

-- An answer either says that nothing was found, and cites nothing, or it is a draft that cites each
-- item of its evidence, of which there is at least one.
abbrev pub IsGrounded : {N : Type 0} → DeterministicAnswerResponse N → Type 0
IsGrounded a =
    ((a.answer_status ≡ not_found) × (a.citations ≡ []) × (a.evidence ≡ []))
    ⊎ ((a.answer_status ≡ draft_grounded)
        × (a.citations ≡ map citation_of a.evidence)
        × (1 ≤ length a.evidence))

abbrev pub HasSource : AnswerCitation → Type 0
HasSource c = is_empty (trim c.citation_label) ≡ false

module _ {N : Type 0} where
  answer-IsGrounded :
      (query : Text) (mode : EvidenceMode) (es : List (EvidenceItem N))
      → IsGrounded (build_answer_from_evidence (response_for_evidence query mode es))
  unfolding build_answer_from_evidence response_for_evidence
  answer-IsGrounded query mode [] = inl (refl, refl, refl)
  answer-IsGrounded query mode (e ∷ es) = inr (refl, refl, omega arith)

  All-citation_of :
      (es : List (EvidenceItem N)) → All IsCited es → All HasSource (map citation_of es)
  unfolding citation_of
  All-citation_of [] h = tt
  All-citation_of (e ∷ es) (p, h) = (p, All-citation_of es h)

  answer-HasSource :
      (limit : ℕ) (query : Text) (mode : EvidenceMode) (es : List (EvidenceItem N))
      → IsLimited limit es
      → (length (build_answer_from_evidence (response_for_evidence query mode es)).citations
          ≤ limit)
        × All HasSource (build_answer_from_evidence (response_for_evidence query mode es)).citations
  unfolding build_answer_from_evidence response_for_evidence
  answer-HasSource limit query mode [] (n, h) = (omega arith, tt)
  answer-HasSource limit query mode (e ∷ es) (n, h) =
      (omega (arith, length-map (e ∷ es) citation_of, n), All-citation_of (e ∷ es) h)

module _ (F : Floats) {V E : Type 0} (mismatch : ℕ → ℕ → E) (sha256 : Text → Text)
    (locale : Text → Text → Sign)
    (default_keyword_search : Text → ℕ → Result E (List (KeywordSearchResult F.Num)))
    (default_phrase_search : Text → ℕ → Result E (List PhraseSearchResult)) where
  abbrev find :
      Text → EvidenceMode → ℕ → EvidenceDependencies F.Num V E → Result E (EvidenceResponse F.Num)
  find =
      find_evidence_with_dependencies F mismatch sha256 locale default_keyword_search
        default_phrase_search

  abbrev answer :
      Text
      → EvidenceMode
      → ℕ
      → EvidenceDependencies F.Num V E
      → Result E (DeterministicAnswerResponse F.Num)
  answer =
      build_deterministic_answer_with_dependencies F mismatch sha256 locale default_keyword_search
        default_phrase_search

  find-hybrid :
      (query : Text) (limit : ℕ) (d : EvidenceDependencies F.Num V E) (r : EvidenceResponse F.Num)
      → find query hybrid_mode limit d ≡ ok r
      → (ps : List PhraseSearchResult) × (ks : List (KeywordSearchResult F.Num))
        × (response_for_evidence query hybrid_mode (
              hybrid_evidence F sha256 locale limit ps ks
                (resolve_vector_candidates F mismatch query limit d))
            ≡ r)
  unfolding find_evidence_with_dependencies
  find-hybrid query limit d r h =
      elim (Result-cases (get_or d.phrase_search default_phrase_search query limit)) [
        | inr (e, thrown) ↦ absurd (ground arith)
        | inl (ps, given) ↦
            elim (Result-cases (get_or d.keyword_search default_keyword_search query limit)) [
              | inr (e, thrown) ↦ absurd (ground arith)
              | inl (ks, found) ↦ (ps, ks, ground arith)
            ]
      ]

  -- What a search gives was made by `responseForEvidence`.
  find-response :
      (query : Text) (mode : EvidenceMode) (limit : ℕ) (d : EvidenceDependencies F.Num V E)
      (r : EvidenceResponse F.Num)
      → find query mode limit d ≡ ok r
      → (es : List (EvidenceItem F.Num)) × (response_for_evidence query mode es ≡ r)
  unfolding find_evidence_with_dependencies
  find-response query phrase_mode limit d r h =
      elim (Result-cases (get_or d.phrase_search default_phrase_search query limit)) [
        | inr (e, thrown) ↦ absurd (ground arith)
        | inl (ps, given) ↦
            (map (λ p. map_phrase_result_to_evidence p phrase_mode) ps, ground arith)
      ]
  find-response query keyword_mode limit d r h =
      elim (Result-cases (get_or d.keyword_search default_keyword_search query limit)) [
        | inr (e, thrown) ↦ absurd (ground arith)
        | inl (ks, given) ↦
            (map (λ k. map_keyword_result_to_evidence k keyword_mode) ks, ground arith)
      ]
  find-response query hybrid_mode limit d r h =
      let (ps, ks, same) = find-hybrid query limit d r h in (_, same)

  answer-response :
      (query : Text) (mode : EvidenceMode) (limit : ℕ) (d : EvidenceDependencies F.Num V E)
      (a : DeterministicAnswerResponse F.Num)
      → answer query mode limit d ≡ ok a
      → (r : EvidenceResponse F.Num) × (find query mode limit d ≡ ok r)
        × (build_answer_from_evidence r ≡ a)
  unfolding build_deterministic_answer_with_dependencies
  answer-response query mode limit d a h = elim (Result-cases (find query mode limit d)) [
    | inr (e, thrown) ↦ absurd (ground arith)
    | inl (r, given) ↦ (r, given, ground arith)
  ]

  -- Every answer, in any mode, either says that nothing was found and cites nothing, or it is a draft
  -- that cites each item of its evidence, of which there is at least one.
  pub build_deterministic_answer-IsGrounded :
      (query : Text) (mode : EvidenceMode) (limit : ℕ) (d : EvidenceDependencies F.Num V E)
      (a : DeterministicAnswerResponse F.Num)
      → build_deterministic_answer_with_dependencies F mismatch sha256 locale default_keyword_search
          default_phrase_search query mode limit d
        ≡ ok a
      → IsGrounded a
  build_deterministic_answer-IsGrounded query mode limit d a h =
      let (r, found, same) = answer-response query mode limit d a h in
      let (es, made) = find-response query mode limit d r found in
      subst IsGrounded (ap build_answer_from_evidence made ∙ same) (answer-IsGrounded query mode es)

  -- If the digest is 64 digits long, an answer of a hybrid search has at most the limit of citations,
  -- and each names its source.
  pub build_deterministic_answer-HasSource :
      ((t : Text) → length (sha256 t) ≡ 64)
      → (query : Text) (limit : ℕ) (d : EvidenceDependencies F.Num V E)
        (a : DeterministicAnswerResponse F.Num)
      → build_deterministic_answer_with_dependencies F mismatch sha256 locale default_keyword_search
          default_phrase_search query hybrid_mode limit d
        ≡ ok a
      → (length a.citations ≤ limit) × All HasSource a.citations
  build_deterministic_answer-HasSource digest query limit d a h =
      let (r, found, same) = answer-response query hybrid_mode limit d a h in
      let (ps, ks, made) = find-hybrid query limit d r found in
      let vs = resolve_vector_candidates F mismatch query limit d in
      subst
        (λ (b : DeterministicAnswerResponse F.Num).
          (length b.citations ≤ limit) × All HasSource b.citations)
        (ap build_answer_from_evidence made ∙ same)
        (answer-HasSource limit query hybrid_mode (hybrid_evidence F sha256 locale limit ps ks vs)
          (hybrid_evidence-IsLimited F sha256 locale digest limit ps ks vs))

cut_bound : (s dots : Text) → length dots ≤ 3 → length (take 260 s ++ dots) ≤ 263
cut_bound s dots h = omega (arith, length-append (take 260 s) dots, length-take-le 260 s, h)

-- A summary has at most 263 code units.
pub length-excerpt_summary : (value : Text) → length (excerpt_summary value) ≤ 263
unfolding excerpt_summary
length-excerpt_summary value =
    let s = normalize_spaces value in
    elim (Bool-cases (is_empty s)) [
      | inl blank ↦ rw (blank, excerpt_summary) (omega arith)
      | inr full ↦ elim (Bool-cases (ltb 260 (length s))) [
        | inl long ↦ rw (full, excerpt_summary, long) (cut_bound s (codes "...") (omega arith))
        | inr short ↦ rw (full, excerpt_summary, short) (ground arith)
      ]
    ]
