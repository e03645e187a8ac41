-- ===== src/Embeddings/Tests.antt =====
-- The theorems of src/embeddings at concrete inputs.
use la_muni_rag.Base.{
  ℕ, zero, suc, ◌≤◌, refl, none, some, List, [], ◌∷◌, length, map, All, Result, ok, err, arith,
}
use la_muni_rag.Base.Text.{Text, codes, trim, join}
use la_muni_rag.Base.Json.{end}
use la_muni_rag.Embeddings.Types.{
  txt, article, NormalizedSection, NormalizedDocument, PlanChunksInput, EmbeddingChunk,
  EmbeddingVectorRecord, EmbeddingProvider, Thrown, other_error, WriteResult, inserted,
}
use la_muni_rag.Embeddings.Normalize.{
  line_endings_from, normalize_line_endings, split_lines, drop_blanks, trim_line_end, compact_lines,
  normalize_whitespace,
}
use la_muni_rag.Embeddings.Split.{ChunkPlannerOptions, split_long_text}
use la_muni_rag.Embeddings.Split.Bounds.{IsPiece, split_long_text-IsPiece}
use la_muni_rag.Embeddings.Planner.{
  default_chunk_planner_options, assert_planner_options, source_from_section, plan_chunk,
  plan_texts, plan_sections, plan_chunks,
}
use la_muni_rag.Embeddings.Plan.{IsPlan, plan_chunks-IsPlan}
use la_muni_rag.Embeddings.Indexer.{
  IndexDocumentOptions, bounded_option, plan_document, prepare_document_embeddings, index_document,
}
use la_muni_rag.Embeddings.Indexer.Batches.{IsTextwise}
use la_muni_rag.Embeddings.Indexer.Prepared.{
  IsCitable, IsPrepared, IsComplete, prepare_document_embeddings-IsPrepared,
  prepare_document_embeddings-textwise,
}
use la_muni_rag.Embeddings.Indexer.Counts.{IsCounted, index_document-IsCounted}

abbrev small : ChunkPlannerOptions
small = record { max_chars = 8; overlap_chars = 2 }

abbrev long_text : Text
long_text = codes "licencia municipal"

split_long_text-IsPiece_example : All (IsPiece small) (split_long_text small long_text)
split_long_text-IsPiece_example = split_long_text-IsPiece small long_text refl

abbrev first_article : NormalizedSection
first_article = record {
  section_heading = none;
  section_type = article;
  section_path = codes "Titulo I" ∷ [];
  text = codes " Uno";
  page_start = some 3;
  page_end = none;
  article_number = some (codes "1");
  citation_label = some (codes "Art. 1");
  metadata = end;
}

abbrev law : NormalizedDocument
law = record {
  document_title = codes "Ley";
  source_format = txt;
  text = codes " Uno";
  sections = first_article ∷ [];
  metadata = end;
}

abbrev key : PlanChunksInput
key = record { document_key = codes "ley"; document_version = codes "1" }

-- A digest of one digit.
abbrev digest : Text → Text
digest t = codes "0"

abbrev law_chunks : List EmbeddingChunk
law_chunks = plan_sections digest law key default_chunk_planner_options 5000 [] 1 law.sections

plan_chunks-IsPlan_example : IsPlan digest default_chunk_planner_options 5000 law_chunks
unfolding plan_chunks assert_planner_options
plan_chunks-IsPlan_example =
    plan_chunks-IsPlan digest default_chunk_planner_options 5000 law key law_chunks refl

-- An embedding of two numbers.
abbrev vector_of : Text → List ℕ
vector_of t = length t ∷ 1 ∷ []

abbrev provider : EmbeddingProvider ℕ
provider = record {
  provider_name = codes "local";
  model = codes "m";
  dimensions = 2;
  embed = λ n ts. ok (map vector_of ts);
}

provider-IsTextwise : IsTextwise provider vector_of
provider-IsTextwise = (λ n ts. refl, λ t. refl)

abbrev defaults : IndexDocumentOptions
defaults = record { chunk_planner_options = none; max_chunks = none; embedding_batch_size = none }

abbrev noon : Text
noon = codes "2026-01-01T12:00:00.000Z"

prepare_document_embeddings-IsPrepared_example :
    IsPrepared provider
      (plan_document digest law key defaults)
      (prepare_document_embeddings provider digest noon law key defaults)
prepare_document_embeddings-IsPrepared_example =
    prepare_document_embeddings-IsPrepared provider digest noon law key defaults

law_chunks-IsCitable : (length law_chunks ≤ 5000) × All IsCitable law_chunks
unfolding plan_sections normalize_whitespace normalize_line_endings line_endings_from split_lines
    drop_blanks trim_line_end compact_lines join trim split_long_text plan_texts plan_chunk
    source_from_section
law_chunks-IsCitable = (omega arith, ((refl, refl), tt))

prepare_document_embeddings-textwise_example :
    IsComplete provider vector_of law_chunks
      (prepare_document_embeddings provider digest noon law key defaults)
unfolding plan_document bounded_option plan_chunks assert_planner_options
prepare_document_embeddings-textwise_example =
    prepare_document_embeddings-textwise provider digest noon law key defaults vector_of
      provider-IsTextwise 5000 64 law_chunks refl law_chunks-IsCitable.0 law_chunks-IsCitable.1

-- A repository whose second write fails.
abbrev upsert : ℕ → EmbeddingVectorRecord ℕ → Result Thrown WriteResult
upsert zero r = ok inserted
upsert (suc n) r = err (other_error (codes "connection lost"))

index_document-IsCounted_example :
    IsCounted (index_document upsert provider digest noon law key defaults)
index_document-IsCounted_example =
    index_document-IsCounted upsert provider digest noon law key defaults
