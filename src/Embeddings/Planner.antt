-- ===== src/Embeddings/Planner.antt =====
-- src/embeddings/chunkPlanner.ts and src/embeddings/chunkIdentity.ts. `sha256` gives the
-- hexadecimal digest of a text.
use la_muni_rag.Base.{
  ℕ, ◌+◌, ◌/◌, suc, true, false, not, ◌||◌, Option, none, some, List, [], ◌∷◌, ◌++◌, length, ltb,
  leb, Result, ok, guard, ◌>>◌, get_or, if◌then◌else◌,
}
use la_muni_rag.Base.Text.{Text, codes, is_empty, text_eq, join, decimal}
use la_muni_rag.Base.Json.{Json, null, string, object, Members, end, member}
use la_muni_rag.Embeddings.Normalize.{normalize_whitespace}
use la_muni_rag.Embeddings.Split.{ChunkPlannerOptions, split_long_text}
use la_muni_rag.Embeddings.Types.{
  section_type_name, format_name, NormalizedSection, NormalizedDocument, EmbeddingSource,
  EmbeddingChunk, PlanChunksInput, Thrown, pipeline_error,
}

abbrev pub default_chunk_planner_options : ChunkPlannerOptions
default_chunk_planner_options = record { max_chars = 1800; overlap_chars = 180 }

-- `Math.ceil(text.length / 4)`.
unfoldable pub estimate_tokens : Text → ℕ
estimate_tokens text = (length text + 3) / 4

unfoldable pub assert_planner_options : ChunkPlannerOptions → Result Thrown (Unit {0})
assert_planner_options options = do
  guard (not (ltb options.max_chars 32 || ltb 1000000 options.max_chars)) (
      pipeline_error (codes "chunk_planner_policy_invalid")
        (codes "maxChars must be an integer between 32 and 1000000.") false)
  guard
      (not (
        leb options.max_chars options.overlap_chars
        || ltb (options.max_chars / 2) options.overlap_chars))
      (pipeline_error (codes "chunk_planner_policy_invalid")
        (codes "overlapChars must be an integer between 0 and half of maxChars.") false)

unfoldable pub source_from_section :
    NormalizedDocument → NormalizedSection → PlanChunksInput → EmbeddingSource
source_from_section document section input = record {
  document_key = input.document_key;
  document_title = document.document_title;
  document_version = input.document_version;
  source_format = document.source_format;
  section_path = section.section_path;
  section_type = section.section_type;
  page_start = section.page_start;
  page_end = section.page_end;
  article_number = section.article_number;
  citation_label = section.citation_label;
}

-- `value ?? ""` for a number in a text.
abbrev decimal_or_empty : Option ℕ → Text
decimal_or_empty none = []
decimal_or_empty (some n) = decimal n

unfoldable pub build_chunk_identity_input : EmbeddingSource → Text → ℕ → Text
build_chunk_identity_input source content_sha256 chunk_ordinal = join (codes "|") (
    source.document_key
    ∷ source.document_version
    ∷ join (codes "/") source.section_path
    ∷ section_type_name source.section_type
    ∷ get_or source.citation_label []
    ∷ decimal_or_empty source.page_start
    ∷ decimal_or_empty source.page_end
    ∷ get_or source.article_number []
    ∷ content_sha256
    ∷ decimal chunk_ordinal
    ∷ [])

abbrev string_or_null : Json → Json
string_or_null (string value) = string value
string_or_null _ = null

-- `typeof metadata[name] === "string" ? metadata[name] : null`.
unfoldable pub member_text : Text → Members → Json
member_text name end = null
member_text name (member key value rest) =
    if text_eq key name then string_or_null value else member_text name rest

-- What became of the loops: `planChunks` returned, or it goes on with the next ordinal.
pub data Planned : Type 0 where
  returned : List EmbeddingChunk → Planned
  running : List EmbeddingChunk → ℕ → Planned

module _ (sha256 : Text → Text) where
  unfoldable pub build_chunk_id : EmbeddingSource → Text → ℕ → Text
  build_chunk_id source content_sha256 chunk_ordinal =
      sha256 (build_chunk_identity_input source content_sha256 chunk_ordinal)

  module _ (document : NormalizedDocument) (input : PlanChunksInput) where
    unfoldable pub plan_chunk : NormalizedSection → ℕ → Text → EmbeddingChunk
    plan_chunk section ordinal text =
        let source = source_from_section document section input in
        record {
          chunk_id = build_chunk_id source (sha256 text) ordinal;
          chunk_ordinal = ordinal;
          text = text;
          content_sha256 = sha256 text;
          token_estimate = estimate_tokens text;
          source = source;
          metadata = member (codes "documentMetadata") (object document.metadata) (
              member (codes "sourcePath") (member_text (codes "sourcePath") document.metadata) (
                member (codes "sourceFormat") (string (format_name document.source_format)) (
                  member (codes "sectionMetadata") (object section.metadata)
                    (member (codes "planner") (string (codes "section_text_v1")) end))));
        }

    -- The loop over the pieces of a section.
    unfoldable pub plan_texts :
        ℕ → NormalizedSection → List EmbeddingChunk → ℕ → List Text → Planned
    plan_texts max_chunks section chunks ordinal [] = running chunks ordinal
    plan_texts max_chunks section chunks ordinal (text ∷ texts) =
        let more = chunks ++ plan_chunk section ordinal text ∷ [] in
        elim (ltb max_chunks (length more)) [
          | true ↦ returned more
          | false ↦ plan_texts max_chunks section more (suc ordinal) texts
        ]

    -- The loop over the sections.
    unfoldable pub plan_sections :
        ChunkPlannerOptions
        → ℕ
        → List EmbeddingChunk
        → ℕ
        → List NormalizedSection
        → List EmbeddingChunk
    plan_sections options max_chunks chunks ordinal [] = chunks
    plan_sections options max_chunks chunks ordinal (section ∷ sections) =
        let section_text = normalize_whitespace section.text in
        elim (is_empty section_text) [
          | true ↦ plan_sections options max_chunks chunks ordinal sections
          | false ↦
              elim (plan_texts max_chunks section chunks ordinal
                (split_long_text options section_text)) [
                  | returned all ↦ all
                  | running more next ↦ plan_sections options max_chunks more next sections
                ]
        ]

    unfoldable pub plan_chunks : ChunkPlannerOptions → ℕ → Result Thrown (List EmbeddingChunk)
    plan_chunks options max_chunks = do
      assert_planner_options options
      guard (not (ltb max_chunks 1 || ltb 9007199254740991 max_chunks)) (
          pipeline_error (codes "embedding_resource_policy_invalid")
            (codes "maxChunks must be a positive safe integer.") false)
      ok (plan_sections options max_chunks [] 1 document.sections)
