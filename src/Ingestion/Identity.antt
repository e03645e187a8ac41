-- ===== src/Ingestion/Identity.antt =====
-- src/ingestion/jobIdentity.ts. `sha256` gives the hexadecimal digest of a text, and `quote` is
-- `JSON.stringify` of a text.
use la_muni_rag.Base.{
  ℕ, ◌/◌, Bool, false, ◌&&◌, ◌||◌, not, List, [], ◌∷◌, ◌++◌, map, all, length, ltb, leb, ◌==◌, ok,
  guard, ◌>>=◌, ◌>>◌, get_or,
}
use la_muni_rag.Base.Text.{Text, codes, between, lower, text_eq, join, decimal}
use la_muni_rag.Security.Tenant.{is_canonical_uuid}
use la_muni_rag.Ingestion.Types.{
  Checked, job_error, pipeline_config_invalid, scope_invalid, artifact_digest_invalid,
  idempotency_key_invalid, attempt_policy_invalid, IngestionPipelineConfigV1,
  EnqueueIngestionJobInput, IngestionJobIdentity,
}

abbrev pub ingestion_job_type : Text
ingestion_job_type = codes "document_vector_index_v1"

abbrev pub default_ingestion_max_attempts : ℕ
default_ingestion_max_attempts = 3

abbrev pub max_ingestion_attempts : ℕ
max_ingestion_attempts = 10

abbrev pub default_vector_dimension : ℕ
default_vector_dimension = 1536

-- `/^[0-9a-f]{64}$/`.
unfoldable pub is_sha256_hex : Text → Bool
is_sha256_hex s = length s == 64 && all (λ c. between b'0' b'9' c || between b'a' b'f' c) s

abbrev is_alphanumeric : ℕ → Bool
is_alphanumeric c = between b'A' b'Z' c || between b'a' b'z' c || between b'0' b'9' c

abbrev is_component_char : ℕ → Bool
is_component_char c =
    is_alphanumeric c || c == b'.' || c == b'_' || c == b':' || c == b'/' || c == b'-'

-- `/^[A-Za-z0-9][A-Za-z0-9._:/-]{0,127}$/`.
unfoldable pub is_safe_component : Text → Bool
is_safe_component [] = false
is_safe_component (c ∷ s) = is_alphanumeric c && leb (length s) 127 && all is_component_char s

-- `/^[\x20-\x7e]{8,256}$/`.
unfoldable pub is_idempotency_key : Text → Bool
is_idempotency_key s = leb 8 (length s) && leb (length s) 256 && all (between 32 126) s

module _ (quote : Text → Text) where
  abbrev json_member : Text → Text → Text
  json_member name value = quote name ++ (codes ":" ++ value)

  -- An object of members that are texts already.
  abbrev object_text : List Text → Text
  object_text members = codes "{" ++ (join (codes ",") members ++ codes "}")

  unfoldable pub canonical_pipeline_config : IngestionPipelineConfigV1 → Checked Text
  canonical_pipeline_config config = do
    guard
        (text_eq config.contract_version (codes "v1")
          && text_eq config.planner_name (codes "section_text_v1"))
        (job_error pipeline_config_invalid false)
    guard
        (all is_safe_component (
          config.extractor_name ∷ config.extractor_version ∷ config.embedding_provider
          ∷ config.embedding_model ∷ []))
        (job_error pipeline_config_invalid false)
    guard
        (not (
          ltb config.max_chars 32
          || ltb 1000000 config.max_chars
          || ltb (config.max_chars / 2) config.overlap_chars))
        (job_error pipeline_config_invalid false)
    guard (config.embedding_dimension == default_vector_dimension)
        (job_error pipeline_config_invalid false)
    ok (
        object_text (
          json_member (codes "contract_version") (quote (codes "v1"))
          ∷ json_member (codes "extractor") (
              object_text (
                json_member (codes "name") (quote config.extractor_name)
                ∷ json_member (codes "version") (quote config.extractor_version)
                ∷ []))
          ∷ json_member (codes "chunk_planner") (
              object_text (
                json_member (codes "name") (quote (codes "section_text_v1"))
                ∷ json_member (codes "max_chars") (decimal config.max_chars)
                ∷ json_member (codes "overlap_chars") (decimal config.overlap_chars)
                ∷ []))
          ∷ json_member (codes "embedding") (
              object_text (
                json_member (codes "provider") (quote config.embedding_provider)
                ∷ json_member (codes "model") (quote config.embedding_model)
                ∷ json_member (codes "dimension") (decimal config.embedding_dimension)
                ∷ []))
          ∷ []))

  module _ (sha256 : Text → Text) where
    -- The digest of the work that a job does.
    unfoldable pub work_digest : EnqueueIngestionJobInput → Text → Text
    work_digest input pipeline_config_sha256 = sha256 (
        object_text (
          json_member (codes "contract_version") (quote (codes "v1"))
          ∷ json_member (codes "job_type") (quote ingestion_job_type)
          ∷ json_member (codes "tenant_id") (quote (map lower input.tenant_id))
          ∷ json_member (codes "document_version_id") (quote (map lower input.document_version_id))
          ∷ json_member (codes "artifact_sha256") (quote input.artifact_sha256)
          ∷ json_member (codes "pipeline_config_sha256") (quote pipeline_config_sha256)
          ∷ []))

    unfoldable pub request_digest : Text → Text → ℕ → Text
    request_digest principal_id work_sha256 max_attempts = sha256 (
        object_text (
          json_member (codes "contract_version") (quote (codes "v1"))
          ∷ json_member (codes "principal_id") (quote (map lower principal_id))
          ∷ json_member (codes "work_sha256") (quote work_sha256)
          ∷ json_member (codes "max_attempts") (decimal max_attempts)
          ∷ []))

    unfoldable pub build_ingestion_job_identity :
        EnqueueIngestionJobInput → Checked IngestionJobIdentity
    build_ingestion_job_identity input = do
      guard
          (is_canonical_uuid input.tenant_id
            && is_canonical_uuid input.principal_id
            && is_canonical_uuid input.document_version_id)
          (job_error scope_invalid false)
      guard (is_sha256_hex input.artifact_sha256) (job_error artifact_digest_invalid false)
      guard (is_idempotency_key input.idempotency_key) (job_error idempotency_key_invalid false)
      let attempts = get_or input.max_attempts default_ingestion_max_attempts
      guard (leb 1 attempts && leb attempts max_ingestion_attempts)
          (job_error attempt_policy_invalid false)
      config ← canonical_pipeline_config input.pipeline_config
      let config_sha256 = sha256 config
      let work_sha256 = work_digest input config_sha256
      ok (record {
        idempotency_key_sha256 = sha256 input.idempotency_key;
        request_sha256 = request_digest input.principal_id work_sha256 attempts;
        artifact_sha256 = input.artifact_sha256;
        pipeline_config_sha256 = config_sha256;
        work_sha256 = work_sha256;
        canonical_pipeline_config = config;
        max_attempts = attempts;
      })
