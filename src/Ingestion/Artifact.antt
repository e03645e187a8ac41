-- ===== src/Ingestion/Artifact.antt =====
-- src/ingestion/acceptedArtifact.ts. The bytes of a file are a list of numbers, a time is a number of
-- milliseconds, and messages are left out. `inspect` is `inspectArtifactContent` of
-- src/sources/artifactSafety.ts, which may throw; `digest`, `basename` and `parse_time` are those of
-- the platform; `policy` is the policy given or loaded, if loading it does not throw.
pub mod Laws
use la_muni_rag.Base.{
  ℕ, ◌+◌, ◌-◌, Bool, true, false, ◌&&◌, ◌||◌, not, Option, none, some, List, [], ◌∷◌, map, all,
  length, ltb, leb, ◌==◌, Result, ok, err, guard, ◌>>=◌, ◌>>◌, if◌then◌else◌,
}
use la_muni_rag.Base.Text.{Text, codes, between, lower, text_eq}
use la_muni_rag.Security.Tenant.{is_canonical_uuid}
use la_muni_rag.Ingestion.Identity.{is_sha256_hex}
use la_muni_rag.Ingestion.Types.{JobError}

-- What the worker may meet: an `AcceptedArtifactError` or an `IngestionError` with its code and
-- `retryable`, an error of the job service, or anything else.
pub data WorkerFailure : Type 0 where
  artifact_failure ingestion_failure : Text → Bool → WorkerFailure
  job_failure : JobError → WorkerFailure
  unknown_failure : WorkerFailure

pub record AcceptedArtifactSafetyEvidence : Type 0 where
  pub is_clean : Bool
  pub content_sha256 : Text
  pub byte_length : ℕ
  pub detected_media_type : Text
  pub structural_signature : Text
  pub inspected_at : Text
  pub scanner_engine : Text
  pub scanner_engine_version : Text
  pub scanner_definitions_version : Text

pub record AcceptedArtifact : Type 0 where
  pub tenant_id : Text
  pub document_version_id : Text
  pub artifact_sha256 : Text
  pub artifact_object_id : Text
  pub artifact_scan_id : Text
  pub object_version : Text
  pub original_filename : Text
  pub media_type : Text
  pub content : List ℕ
  pub safety : AcceptedArtifactSafetyEvidence

pub record AcceptedArtifactRequest : Type 0 where
  pub tenant_id : Text
  pub document_version_id : Text
  pub artifact_sha256 : Text
  pub artifact_object_id : Text
  pub artifact_scan_id : Text

pub record ArtifactSafetyPolicy : Type 0 where
  pub max_artifact_bytes : ℕ
  pub malware_scan_max_age_ms : ℕ
  pub malware_scan_timeout_ms : ℕ

-- What the inspection of a file finds.
pub record Inspected : Type 0 where
  pub declared_media_type : Text
  pub detected_media_type : Text
  pub signature : Text

abbrev is_alphanumeric : ℕ → Bool
is_alphanumeric c = between b'A' b'Z' c || between b'a' b'z' c || between b'0' b'9' c

-- `/^[A-Za-z0-9][A-Za-z0-9._:+/-]{0,159}$/`.
unfoldable pub is_scanner_component : Text → Bool
is_scanner_component [] = false
is_scanner_component (c ∷ s) =
    is_alphanumeric c
    && leb (length s) 159
    && all
        (λ d.
          is_alphanumeric d
          || d == b'.'
          || d == b'_'
          || d == b':'
          || d == b'+'
          || d == b'/'
          || d == b'-')
        s

-- `/^[A-Za-z0-9][A-Za-z0-9._:-]{0,255}$/`.
unfoldable pub is_object_version : Text → Bool
is_object_version [] = false
is_object_version (c ∷ s) =
    is_alphanumeric c
    && leb (length s) 255
    && all (λ d. is_alphanumeric d || d == b'.' || d == b'_' || d == b':' || d == b'-') s

abbrev is_control : ℕ → Bool
is_control c = ltb c 32 || c == 127

-- `/^[^/\\\x00-\x1f\x7f]{1,255}$/`.
unfoldable pub is_safe_filename : Text → Bool
is_safe_filename s =
    leb 1 (length s) && leb (length s) 255 && all (λ c. not (c == 47 || c == 92 || is_control c)) s

-- `/^[^\x00-\x1f\x7f]{1,256}$/`.
unfoldable pub is_safe_metadata : Text → Bool
is_safe_metadata s = leb 1 (length s) && leb (length s) 256 && all (λ c. not (is_control c)) s

abbrev is_positive : ℕ → Bool
is_positive n = leb 1 n && leb n 9007199254740991

unfoldable pub is_scope_valid : AcceptedArtifactRequest → AcceptedArtifact → Bool
is_scope_valid expected artifact =
    is_canonical_uuid expected.tenant_id
    && is_canonical_uuid expected.document_version_id
    && is_sha256_hex expected.artifact_sha256
    && is_canonical_uuid expected.artifact_object_id
    && is_canonical_uuid expected.artifact_scan_id
    && is_canonical_uuid artifact.tenant_id
    && is_canonical_uuid artifact.document_version_id
    && is_canonical_uuid artifact.artifact_object_id
    && is_canonical_uuid artifact.artifact_scan_id
    && is_sha256_hex artifact.artifact_sha256

unfoldable pub is_identity_equal : AcceptedArtifactRequest → AcceptedArtifact → Bool
is_identity_equal expected artifact =
    text_eq (map lower artifact.tenant_id) (map lower expected.tenant_id)
    && text_eq (map lower artifact.document_version_id) (map lower expected.document_version_id)
    && text_eq (map lower artifact.artifact_object_id) (map lower expected.artifact_object_id)
    && text_eq (map lower artifact.artifact_scan_id) (map lower expected.artifact_scan_id)
    && text_eq artifact.artifact_sha256 expected.artifact_sha256

unfoldable pub is_policy_valid : ArtifactSafetyPolicy → Bool
is_policy_valid policy =
    is_positive policy.max_artifact_bytes
    && is_positive policy.malware_scan_max_age_ms
    && is_positive policy.malware_scan_timeout_ms

-- The scan is not of the future, and not too old.
abbrev pub is_fresh : ℕ → ℕ → Option ℕ → Bool
is_fresh now max_age none = false
is_fresh now max_age (some inspected_at) = leb inspected_at now && leb (now - inspected_at) max_age

abbrev pub failed_with : Text → WorkerFailure
failed_with code = artifact_failure code false

module _ (digest : List ℕ → Text) (basename : Text → Text) (parse_time : Text → Option ℕ)
    (inspect : List ℕ → Text → Text → ℕ → Option Inspected) where
  -- `Date.parse` of the scan's time, which has to be safe metadata.
  abbrev pub inspection_time : AcceptedArtifactSafetyEvidence → Option ℕ
  inspection_time safety =
      if is_safe_metadata safety.inspected_at then parse_time safety.inspected_at else parse_time []

  unfoldable pub is_evidence_valid :
      ℕ → ArtifactSafetyPolicy → List ℕ → Inspected → AcceptedArtifactSafetyEvidence → Bool
  is_evidence_valid now policy content structural safety =
      safety.is_clean
      && is_sha256_hex safety.content_sha256
      && text_eq safety.content_sha256 (digest content)
      && safety.byte_length == length content
      && is_safe_metadata safety.detected_media_type
      && text_eq safety.detected_media_type structural.detected_media_type
      && is_scanner_component safety.structural_signature
      && text_eq safety.structural_signature structural.signature
      && is_fresh now policy.malware_scan_max_age_ms (inspection_time safety)
      && is_scanner_component safety.scanner_engine
      && is_scanner_component safety.scanner_engine_version
      && is_scanner_component safety.scanner_definitions_version

  -- The checks of the bytes under the policy.
  unfoldable pub verify_content :
      ℕ
      → ArtifactSafetyPolicy
      → AcceptedArtifactRequest
      → AcceptedArtifact
      → Result WorkerFailure AcceptedArtifact
  verify_content now policy expected artifact = do
    guard (is_policy_valid policy) (failed_with (codes "artifact_safety_policy_invalid"))
    guard
        (leb 1 (length artifact.content) && leb (length artifact.content) policy.max_artifact_bytes)
        (failed_with (codes "artifact_structural_verification_failed"))
    structural ←
        elim (inspect artifact.content artifact.original_filename artifact.media_type
          policy.max_artifact_bytes) [
            | none ↦ err (failed_with (codes "artifact_structural_verification_failed"))
            | some found ↦ ok found
          ]
    guard (text_eq (digest artifact.content) expected.artifact_sha256)
        (failed_with (codes "artifact_content_hash_mismatch"))
    guard (is_evidence_valid now policy artifact.content structural artifact.safety)
        (failed_with (codes "artifact_safety_evidence_invalid"))
    ok (record artifact {
      tenant_id = map lower artifact.tenant_id;
      document_version_id = map lower artifact.document_version_id;
      artifact_object_id = map lower artifact.artifact_object_id;
      artifact_scan_id = map lower artifact.artifact_scan_id;
      media_type = structural.declared_media_type;
    })

  unfoldable pub verify_accepted_artifact :
      ℕ
      → Option ArtifactSafetyPolicy
      → AcceptedArtifactRequest
      → AcceptedArtifact
      → Result WorkerFailure AcceptedArtifact
  verify_accepted_artifact now policy expected artifact = do
    guard (is_scope_valid expected artifact) (failed_with (codes "artifact_scope_invalid"))
    guard (is_identity_equal expected artifact) (failed_with (codes "artifact_identity_mismatch"))
    guard (is_object_version artifact.object_version)
        (failed_with (codes "artifact_object_version_invalid"))
    guard
        (is_safe_filename artifact.original_filename
          && text_eq (basename artifact.original_filename) artifact.original_filename)
        (failed_with (codes "artifact_filename_invalid"))
    guard (is_safe_metadata artifact.media_type) (failed_with (codes "artifact_media_type_invalid"))
    elim policy [
      | none ↦ err (failed_with (codes "artifact_safety_policy_invalid"))
      | some p ↦ verify_content now p expected artifact
    ]
