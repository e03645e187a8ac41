-- ===== src/Evidence/Tests.antt =====
-- The theorems of src/evidence.ts and src/answer.ts at concrete inputs.
use la_muni_rag.Base.{ℕ, ◌≤◌, ◌≡◌, refl, none, some, List, [], ◌∷◌, length, All, Result, ok}
use la_muni_rag.Base.Text.{Text, codes}
use la_muni_rag.Retrieval.Samples.{hundredths, by_length, digest}
use la_muni_rag.Evidence.Types.{
  EvidenceMode, hybrid_mode, KeywordSearchResult, PhraseSearchResult, EvidenceItem,
  EvidenceResponse, QueryEmbeddingProvider, VectorRetrievalRepository, EvidenceDependencies,
  DeterministicAnswerResponse,
}
use la_muni_rag.Evidence.Find.{
  assert_query_embedding_dimension, embed_query, find_evidence_with_dependencies,
  response_for_evidence, hybrid_evidence, resolve_vector_candidates,
}
use la_muni_rag.Evidence.Vector.{find_evidence_with_dependencies-VectorFails, without_vector}
use la_muni_rag.Evidence.Answer.{
  build_answer_from_evidence, build_deterministic_answer_with_dependencies,
}
use la_muni_rag.Evidence.Draft.{
  IsGrounded, HasSource, build_deterministic_answer-IsGrounded,
  build_deterministic_answer-HasSource,
}

abbrev query : Text
query = codes "uso"

abbrev article : KeywordSearchResult ℕ
article = record {
  document_title = codes "Ley";
  document_type = codes "law";
  citation_label = codes "Art. 1";
  page_start = some 3;
  keyword_score = 40;
  snippet = codes "el <mark>uso</mark>";
  source_url = none;
}

-- The searches of the database; a failure is its message.
abbrev keyword_search : Text → ℕ → Result Text (List (KeywordSearchResult ℕ))
keyword_search q n = ok (article ∷ [])

abbrev phrase_search : Text → ℕ → Result Text (List PhraseSearchResult)
phrase_search q n = ok []

abbrev mismatch : ℕ → ℕ → Text
mismatch expected received = codes "dimension"

-- A provider whose vectors have one number and not two.
abbrev provider : QueryEmbeddingProvider ℕ Text
provider = record { dimensions = 2; embed_query = λ q. ok (1 ∷ []) }

abbrev repository : VectorRetrievalRepository ℕ ℕ Text
repository = record { search = λ v n. ok [] }

abbrev dependencies : EvidenceDependencies ℕ ℕ Text
dependencies = record {
  query_embedding_provider = some provider;
  vector_repository = some repository;
  keyword_search = none;
  phrase_search = none;
}

abbrev find : EvidenceMode → EvidenceDependencies ℕ ℕ Text → Result Text (EvidenceResponse ℕ)
find mode d =
    find_evidence_with_dependencies hundredths mismatch digest by_length keyword_search
      phrase_search query mode 5 d

find_evidence_with_dependencies-VectorFails_example :
    find hybrid_mode dependencies ≡ find hybrid_mode (without_vector dependencies)
unfolding embed_query assert_query_embedding_dimension
find_evidence_with_dependencies-VectorFails_example =
    find_evidence_with_dependencies-VectorFails hundredths mismatch digest by_length keyword_search
      phrase_search query 5 provider repository dependencies (codes "dimension", refl) refl refl

abbrev found : List (EvidenceItem ℕ)
found =
    hybrid_evidence hundredths digest by_length 5 [] (article ∷ [])
      (resolve_vector_candidates hundredths mismatch query 5 dependencies)

abbrev answer : DeterministicAnswerResponse ℕ
answer = build_answer_from_evidence (response_for_evidence query hybrid_mode found)

build_deterministic_answer-IsGrounded_example : IsGrounded answer
unfolding build_deterministic_answer_with_dependencies find_evidence_with_dependencies
build_deterministic_answer-IsGrounded_example =
    build_deterministic_answer-IsGrounded hundredths mismatch digest by_length keyword_search
      phrase_search query hybrid_mode 5 dependencies answer refl

build_deterministic_answer-HasSource_example :
    (length answer.citations ≤ 5) × All HasSource answer.citations
unfolding build_deterministic_answer_with_dependencies find_evidence_with_dependencies
build_deterministic_answer-HasSource_example =
    build_deterministic_answer-HasSource hundredths mismatch digest by_length keyword_search
      phrase_search (λ t. refl) query 5 dependencies answer refl
