-- ===== src/Evidence/Types.antt =====
-- The records of src/evidence.ts, src/answer.ts and src/retrieval/vectorRetriever.ts, and of
-- src/search.ts what they read. `N` is the type of a score, `V` that of an embedding's number,
-- and `E` what may be thrown.
use la_muni_rag.Base.{ℕ, Option, List, Result}
use la_muni_rag.Base.Text.{Text}
use la_muni_rag.Retrieval.Types.{RetrievalMode, Dictionary}

pub data EvidenceMode : Type 0 where
  keyword_mode phrase_mode hybrid_mode : EvidenceMode

pub data EvidenceStatus : Type 0 where
  evidence_found no_evidence : EvidenceStatus

-- A keyword result: its `snippet` has the marks of the highlighted words.
pub record KeywordSearchResult (N : Type 0) : Type 0 where
  pub document_title : Text
  pub document_type : Text
  pub citation_label : Text
  pub page_start : Option ℕ
  pub keyword_score : N
  pub snippet : Text
  pub source_url : Option Text

pub record PhraseSearchResult : Type 0 where
  pub document_title : Text
  pub document_type : Text
  pub citation_label : Text
  pub page_start : Option ℕ
  pub preview : Text
  pub source_url : Option Text

pub record VectorCandidateInput (N : Type 0) : Type 0 where
  pub chunk_id : Text
  pub section_id : Option Text
  pub document_id : Option Text
  pub document_version_id : Option Text
  pub document_title : Option Text
  pub citation_label : Text
  pub excerpt : Text
  pub source_type : Option Text
  pub page_start : Option ℕ
  pub page_end : Option ℕ
  pub article_number : Option Text
  pub source_url : Option Text
  pub similarity : N
  pub metadata : Option Dictionary

pub record EvidenceItem (N : Type 0) : Type 0 where
  pub document_title : Text
  pub source_type : Text
  pub citation_label : Text
  pub page_start : Option ℕ
  pub excerpt : Text
  pub score : Option N
  pub retrieval_mode : EvidenceMode
  pub matched_modes : Option (List RetrievalMode)
  pub source_url : Option Text

pub record EvidenceResponse (N : Type 0) : Type 0 where
  pub query : Text
  pub mode : EvidenceMode
  pub answer_status : EvidenceStatus
  pub evidence_count : ℕ
  pub evidence : List (EvidenceItem N)

pub record QueryEmbeddingProvider (V E : Type 0) : Type 0 where
  pub dimensions : ℕ
  pub embed_query : Text → Result E (List V)

pub record VectorRetrievalRepository (N V E : Type 0) : Type 0 where
  pub search : List V → ℕ → Result E (List (VectorCandidateInput N))

pub record EvidenceDependencies (N V E : Type 0) : Type 0 where
  pub query_embedding_provider : Option (QueryEmbeddingProvider V E)
  pub vector_repository : Option (VectorRetrievalRepository N V E)
  pub keyword_search : Option (Text → ℕ → Result E (List (KeywordSearchResult N)))
  pub phrase_search : Option (Text → ℕ → Result E (List PhraseSearchResult))

pub data DeterministicAnswerStatus : Type 0 where
  draft_grounded not_found : DeterministicAnswerStatus

pub data AnswerLabel : Type 0 where
  draft_label not_found_label : AnswerLabel

pub record AnswerCitation : Type 0 where
  pub citation_label : Text
  pub document_title : Text
  pub source_type : Text
  pub page_start : Option ℕ

pub record DeterministicAnswerResponse (N : Type 0) : Type 0 where
  pub query : Text
  pub mode : EvidenceMode
  pub answer_status : DeterministicAnswerStatus
  pub answer_label : AnswerLabel
  pub answer : Text
  pub citations : List AnswerCitation
  pub evidence : List (EvidenceItem N)
