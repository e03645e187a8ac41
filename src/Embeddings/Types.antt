-- ===== src/Embeddings/Types.antt =====
-- src/embeddings/types.ts and the normalized documents of src/ingestion/types.ts. `Vector` is the
-- type of an embedding's number. A policy number is a natural number.
use la_muni_rag.Base.{ℕ, Bool, Option, List, Result}
use la_muni_rag.Base.Text.{Text, codes}
use la_muni_rag.Base.Json.{Members}

pub data SourceFormat : Type 0 where
  markdown txt html docx pdf : SourceFormat

pub data NormalizedSectionType : Type 0 where
  title heading article section paragraph page : NormalizedSectionType

abbrev pub section_type_name : NormalizedSectionType → Text
section_type_name title = codes "title"
section_type_name heading = codes "heading"
section_type_name article = codes "article"
section_type_name section = codes "section"
section_type_name paragraph = codes "paragraph"
section_type_name page = codes "page"

abbrev pub format_name : SourceFormat → Text
format_name markdown = codes "markdown"
format_name txt = codes "txt"
format_name html = codes "html"
format_name docx = codes "docx"
format_name pdf = codes "pdf"

pub record NormalizedSection : Type 0 where
  pub section_heading : Option Text
  pub section_type : NormalizedSectionType
  pub section_path : List Text
  pub text : Text
  pub page_start : Option ℕ
  pub page_end : Option ℕ
  pub article_number : Option Text
  pub citation_label : Option Text
  pub metadata : Members

pub record NormalizedDocument : Type 0 where
  pub document_title : Text
  pub source_format : SourceFormat
  pub text : Text
  pub sections : List NormalizedSection
  pub metadata : Members

pub record EmbeddingSource : Type 0 where
  pub document_key : Text
  pub document_title : Text
  pub document_version : Text
  pub source_format : SourceFormat
  pub section_path : List Text
  pub section_type : NormalizedSectionType
  pub page_start : Option ℕ
  pub page_end : Option ℕ
  pub article_number : Option Text
  pub citation_label : Option Text

pub record EmbeddingChunk : Type 0 where
  pub chunk_id : Text
  pub chunk_ordinal : ℕ
  pub text : Text
  pub content_sha256 : Text
  pub token_estimate : ℕ
  pub source : EmbeddingSource
  pub metadata : Members

pub record PlanChunksInput : Type 0 where
  pub document_key : Text
  pub document_version : Text

pub record EmbeddingFailure : Type 0 where
  pub code : Text
  pub message : Text
  pub retryable : Bool

-- What may be thrown: an `EmbeddingPipelineError`, or anything else with the message that
-- `failureFromError` reads off it.
pub data Thrown : Type 0 where
  pipeline_error : Text → Text → Bool → Thrown
  other_error : Text → Thrown

pub data EmbeddingJobStatus : Type 0 where
  planned embedded failed : EmbeddingJobStatus

pub record EmbeddingVectorRecord (Vector : Type 0) : Type 0 where
  pub chunk : EmbeddingChunk
  pub embedding : List Vector
  pub embedding_model : Text
  pub embedding_provider : Text
  pub embedding_dimension : ℕ
  pub status : EmbeddingJobStatus
  pub indexed_at : Text
  pub failure : Option EmbeddingFailure

-- A provider's answer to its n-th call; it may throw.
pub record EmbeddingProvider (Vector : Type 0) : Type 0 where
  pub provider_name : Text
  pub model : Text
  pub dimensions : ℕ
  pub embed : ℕ → List Text → Result Thrown (List (List Vector))

pub data WriteResult : Type 0 where
  inserted updated unchanged : WriteResult

pub record PreparedEmbeddingRecords (Vector : Type 0) : Type 0 where
  pub planned_count : ℕ
  pub records : List (EmbeddingVectorRecord Vector)
  pub failed_count : ℕ
  pub failures : List EmbeddingFailure

pub record IndexDocumentResult : Type 0 where
  pub planned_count : ℕ
  pub embedded_count : ℕ
  pub inserted_count : ℕ
  pub updated_count : ℕ
  pub unchanged_count : ℕ
  pub failed_count : ℕ
  pub failures : List EmbeddingFailure
