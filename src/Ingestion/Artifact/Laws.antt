-- ===== src/Ingestion/Artifact/Laws.antt =====
-- What a file has passed that src/ingestion/acceptedArtifact.ts lets through.
use la_muni_rag.Base.{
  ℕ, ◌+◌, ◌≤◌, ◌≡◌, refl, sym, ap, ◌∙◌, true, ◌&&◌, Option, none, some, List, map, length, leb,
  arith, Result, ok, err, bind-ok, guard-ok,
}
use la_muni_rag.Base.Text.{Text, codes, lower, text_eq, text_eq_iff}
use la_muni_rag.Ingestion.Artifact.{
  WorkerFailure, AcceptedArtifactSafetyEvidence, AcceptedArtifact, AcceptedArtifactRequest,
  ArtifactSafetyPolicy, Inspected, is_object_version, is_safe_filename, is_safe_metadata,
  is_scope_valid, is_identity_equal, is_policy_valid, is_evidence_valid, is_fresh, inspection_time,
  failed_with, verify_content, verify_accepted_artifact,
}

module _ (digest : List ℕ → Text) (basename : Text → Text) (parse_time : Text → Option ℕ)
    (inspect : List ℕ → Text → Text → ℕ → Option Inspected) where
  -- The bytes are those of the request and of a clean scan that is not too old, within the policy's
  -- size; the identifiers are those of the request but for letter case, and are given in lower case.
  pub record IsVerified (now : ℕ) (policy : Option ArtifactSafetyPolicy)
      (expected : AcceptedArtifactRequest) (artifact out : AcceptedArtifact) : Type 0 where
    pub same_content : out.content ≡ artifact.content
    pub same_digest : digest out.content ≡ expected.artifact_sha256
    pub scanned : artifact.safety.content_sha256 ≡ digest out.content
    pub clean : artifact.safety.is_clean ≡ true
    pub limits : ArtifactSafetyPolicy
    pub given : policy ≡ some limits
    pub not_empty : 1 ≤ length out.content
    pub bounded : length out.content ≤ limits.max_artifact_bytes
    pub scanned_at : ℕ
    pub timed : inspection_time digest basename parse_time inspect artifact.safety ≡ some scanned_at
    pub scanned_before : scanned_at ≤ now
    pub scanned_lately : now ≤ scanned_at + limits.malware_scan_max_age_ms
    pub same_tenant : out.tenant_id ≡ map lower expected.tenant_id
    pub same_version : out.document_version_id ≡ map lower expected.document_version_id
    pub same_object : out.artifact_object_id ≡ map lower expected.artifact_object_id
    pub same_scan : out.artifact_scan_id ≡ map lower expected.artifact_scan_id

  fresh_time :
      (now age : ℕ) (time : Option ℕ)
      → is_fresh now age time ≡ true
      → (at : ℕ) × (time ≡ some at) × (at ≤ now) × (now ≤ at + age)
  fresh_time now age none h = cc h
  fresh_time now age (some at) h = (at, refl, ground arith, ground arith)

  -- The evidence of a scan that counts.
  evidence_parts :
      (now : ℕ) (policy : ArtifactSafetyPolicy) (content : List ℕ) (structural : Inspected)
      (safety : AcceptedArtifactSafetyEvidence)
      → is_evidence_valid digest basename parse_time inspect now policy content structural safety
        ≡ true
      → (safety.is_clean ≡ true)
        × (text_eq safety.content_sha256 (digest content) ≡ true)
        × (is_fresh now policy.malware_scan_max_age_ms
              (inspection_time digest basename parse_time inspect safety)
            ≡ true)
  unfolding is_evidence_valid
  evidence_parts now policy content structural safety h = ground arith

  identity_parts :
      (expected : AcceptedArtifactRequest) (artifact : AcceptedArtifact)
      → is_identity_equal expected artifact ≡ true
      → (map lower artifact.tenant_id ≡ map lower expected.tenant_id)
        × (map lower artifact.document_version_id ≡ map lower expected.document_version_id)
        × (map lower artifact.artifact_object_id ≡ map lower expected.artifact_object_id)
        × (map lower artifact.artifact_scan_id ≡ map lower expected.artifact_scan_id)
  unfolding is_identity_equal
  identity_parts expected artifact h = ground (
    arith,
    text_eq_iff (map lower artifact.tenant_id) (map lower expected.tenant_id),
    text_eq_iff (map lower artifact.document_version_id) (map lower expected.document_version_id),
    text_eq_iff (map lower artifact.artifact_object_id) (map lower expected.artifact_object_id),
    text_eq_iff (map lower artifact.artifact_scan_id) (map lower expected.artifact_scan_id),
  )

  verify_content-ok :
      (now : ℕ) (policy : ArtifactSafetyPolicy) (expected : AcceptedArtifactRequest)
      (artifact out : AcceptedArtifact)
      → is_identity_equal expected artifact ≡ true
      → verify_content digest basename parse_time inspect now policy expected artifact ≡ ok out
      → IsVerified now (some policy) expected artifact out
  unfolding verify_content
  verify_content-ok now policy expected artifact out same h =
      let content = artifact.content in
      let (_, h1) =
        guard-ok (is_policy_valid policy) (failed_with (codes "artifact_safety_policy_invalid")) _
          h in
      let (size, h2) =
        guard-ok (leb 1 (length content) && leb (length content) policy.max_artifact_bytes)
          (failed_with (codes "artifact_structural_verification_failed")) _ h1 in
      let found : Result WorkerFailure Inspected =
        elim (inspect content artifact.original_filename artifact.media_type
          policy.max_artifact_bytes) [
            | none ↦ err (failed_with (codes "artifact_structural_verification_failed"))
            | some x ↦ ok x
          ] in
      let (structural, inspected, h3) = bind-ok found _ h2 in
      let (hashed, h4) =
        guard-ok (text_eq (digest content) expected.artifact_sha256)
          (failed_with (codes "artifact_content_hash_mismatch")) _ h3 in
      let (evidence, h5) =
        guard-ok
          (is_evidence_valid digest basename parse_time inspect now policy content structural
            artifact.safety)
          (failed_with (codes "artifact_safety_evidence_invalid")) _ h4 in
      let (clean, scanned, fresh) =
        evidence_parts now policy content structural artifact.safety evidence in
      let (at, timed, before, lately) = fresh_time now _ _ fresh in
      let (tenant, version, object, scan) = identity_parts expected artifact same in
      let kept : (out.content ≡ content)
          × (out.tenant_id ≡ map lower artifact.tenant_id)
          × (out.document_version_id ≡ map lower artifact.document_version_id)
          × (out.artifact_object_id ≡ map lower artifact.artifact_object_id)
          × (out.artifact_scan_id ≡ map lower artifact.artifact_scan_id) =
        ground (arith, h5) in
      let same_bytes : digest content ≡ digest out.content = ap digest (sym kept.0) in
      let low : 1 ≤ length content = ground (arith, size) in
      let high : length content ≤ policy.max_artifact_bytes = ground (arith, size) in
      record {
        same_content = kept.0;
        same_digest = sym same_bytes ∙ (text_eq_iff _ _).0 hashed;
        scanned = (text_eq_iff _ _).0 scanned ∙ same_bytes;
        clean = clean;
        limits = policy;
        given = refl;
        not_empty = rw kept.0 low;
        bounded = rw kept.0 high;
        scanned_at = at;
        timed = timed;
        scanned_before = before;
        scanned_lately = lately;
        same_tenant = kept.1 ∙ tenant;
        same_version = kept.2 ∙ version;
        same_object = kept.3 ∙ object;
        same_scan = kept.4 ∙ scan;
      }

  verify_policy-IsVerified :
      (now : ℕ) (policy : Option ArtifactSafetyPolicy) (expected : AcceptedArtifactRequest)
      (artifact out : AcceptedArtifact)
      → is_identity_equal expected artifact ≡ true
      → (let checked : Result WorkerFailure AcceptedArtifact = elim policy [
        | none ↦ err (failed_with (codes "artifact_safety_policy_invalid"))
        | some p ↦ verify_content digest basename parse_time inspect now p expected artifact
      ] in
          checked ≡ ok out)
      → IsVerified now policy expected artifact out
  verify_policy-IsVerified now none expected artifact out same h = cc h
  verify_policy-IsVerified now (some p) expected artifact out same h =
      verify_content-ok now p expected artifact out same h

  -- A file that the worker accepts has the bytes that the job names by their digest, which are those
  -- of a clean scan, neither of the future nor older than the policy allows; they are not empty and
  -- within the policy's size; and its tenant, document version, object and scan are those of the job
  -- in lower case.
  pub verify_accepted_artifact-IsVerified :
      (now : ℕ) (policy : Option ArtifactSafetyPolicy) (expected : AcceptedArtifactRequest)
      (artifact out : AcceptedArtifact)
      → verify_accepted_artifact digest basename parse_time inspect now policy expected artifact
        ≡ ok out
      → IsVerified now policy expected artifact out
  unfolding verify_accepted_artifact
  verify_accepted_artifact-IsVerified now policy expected artifact out h =
      let (_, h1) =
        guard-ok (is_scope_valid expected artifact) (failed_with (codes "artifact_scope_invalid")) _
          h in
      let (same, h2) =
        guard-ok (is_identity_equal expected artifact)
          (failed_with (codes "artifact_identity_mismatch")) _ h1 in
      let (_, h3) =
        guard-ok (is_object_version artifact.object_version)
          (failed_with (codes "artifact_object_version_invalid")) _ h2 in
      let (_, h4) =
        guard-ok
          (is_safe_filename artifact.original_filename
            && text_eq (basename artifact.original_filename) artifact.original_filename)
          (failed_with (codes "artifact_filename_invalid")) _ h3 in
      let (_, h5) =
        guard-ok (is_safe_metadata artifact.media_type)
          (failed_with (codes "artifact_media_type_invalid")) _ h4 in
      verify_policy-IsVerified now policy expected artifact out same h5
