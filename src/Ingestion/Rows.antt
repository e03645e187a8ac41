-- ===== src/Ingestion/Rows.antt =====
-- Reading rows, auditing and the limits of src/ingestion/ingestionJobService.ts. `quote` is
-- `JSON.stringify` of a text. An audit event is kept without its identifier and its details.
use la_muni_rag.Base.{
  ℕ, ◌-◌, ◌*◌, zero, suc, Bool, true, false, ◌&&◌, ◌||◌, not, Option, none, some, List, [], ◌∷◌,
  ◌++◌, all, length, leb, ◌==◌, min, is_ok, ok, err, guard, ◌>>◌, get_or, if◌then◌else◌,
}
use la_muni_rag.Base.Text.{Text, between}
use la_muni_rag.Security.Tenant.{is_canonical_uuid}
use la_muni_rag.Ingestion.Types.{
  processing, processed, status_eq, Checked, job_error, tenant_context, persistence_invalid,
  audit_invalid, lease_policy_invalid, JobRow, DurableIngestionJob, LeasedDocumentIdentity,
}
use la_muni_rag.Ingestion.Identity.{canonical_pipeline_config, is_sha256_hex}
use la_muni_rag.Ingestion.Store.{DocumentVersion, ArtifactObject, ArtifactScan}

pub data AuditOutcome : Type 0 where
  success error blocked : AuditOutcome

pub record AuditEvent : Type 0 where
  pub tenant_id : Text
  pub actor : Text
  pub event_type : Text
  pub entity_id : Text
  pub outcome : AuditOutcome
  pub reason_code : Text

-- The tables that the service reads and writes. `Vectors` is the table of the vector repository.
pub record Db (Vectors : Type 0) : Type 0 where
  pub jobs : List JobRow
  pub versions : List DocumentVersion
  pub objects : List ArtifactObject
  pub scans : List ArtifactScan
  pub vectors : Vectors
  pub audit : List AuditEvent

-- `/^[\x20-\x7e]{1,128}$/`.
unfoldable pub is_safe_worker : Text → Bool
is_safe_worker s = leb 1 (length s) && leb (length s) 128 && all (between 32 126) s

-- `/^[a-z][a-z0-9_]{0,63}$/`.
unfoldable pub is_safe_error_code : Text → Bool
is_safe_error_code [] = false
is_safe_error_code (c ∷ s) =
    between b'a' b'z' c
    && leb (length s) 63
    && all (λ d. between b'a' b'z' d || between b'0' b'9' d || d == b'_') s

-- `/^[A-Za-z0-9_-]{32,256}$/`.
unfoldable pub is_safe_lease_token : Text → Bool
is_safe_lease_token s =
    leb 32 (length s)
    && leb (length s) 256
    && all
        (λ c.
          between b'A' b'Z' c
          || between b'a' b'z' c
          || between b'0' b'9' c
          || c == b'_'
          || c == b'-')
        s

abbrev pub default_lease_seconds : ℕ
default_lease_seconds = 300

abbrev pub min_lease_seconds : ℕ
min_lease_seconds = 30

abbrev pub max_lease_seconds : ℕ
max_lease_seconds = 900

abbrev pub max_retry_delay_seconds : ℕ
max_retry_delay_seconds = 900

unfoldable pub bounded_lease_seconds : Option ℕ → Checked ℕ
bounded_lease_seconds value =
    let duration = get_or value default_lease_seconds in
    guard (leb min_lease_seconds duration && leb duration max_lease_seconds)
      (job_error lease_policy_invalid false)
    >> ok duration

-- `30 * 2 ** Math.max(0, attemptCount - 1)`.
unfoldable pub doubled : ℕ → ℕ → ℕ
doubled zero n = n
doubled (suc k) n = doubled k (2 * n)

unfoldable pub default_delay : ℕ → ℕ
default_delay attempt_count = min max_retry_delay_seconds (doubled (attempt_count - 1) 30)

abbrev pub is_uuid_or_null : Option Text → Bool
is_uuid_or_null none = true
is_uuid_or_null (some t) = is_canonical_uuid t

abbrev pub is_uuid_in : Option Text → Bool
is_uuid_in none = false
is_uuid_in (some t) = is_canonical_uuid t

unfoldable pub is_valid_row : (Text → Text) → JobRow → Bool
is_valid_row quote row =
    is_canonical_uuid row.id
    && is_canonical_uuid row.tenant_id
    && is_canonical_uuid row.requested_by_principal_id
    && is_canonical_uuid row.document_version_id
    && is_sha256_hex row.artifact_sha256
    && is_uuid_or_null row.artifact_object_id
    && is_uuid_or_null row.artifact_scan_id
    && (not (status_eq row.status processing || status_eq row.status processed)
        || (is_uuid_in row.artifact_object_id && is_uuid_in row.artifact_scan_id))
    && is_ok (canonical_pipeline_config quote row.pipeline_config)

-- The object that `rowToJob` returns.
unfoldable pub job_of : JobRow → DurableIngestionJob
job_of row = record {
  job_id = row.id;
  tenant_id = row.tenant_id;
  principal_id = row.requested_by_principal_id;
  document_version_id = row.document_version_id;
  artifact_sha256 = row.artifact_sha256;
  artifact_object_id = row.artifact_object_id;
  artifact_scan_id = row.artifact_scan_id;
  status = row.status;
  attempt_count = row.attempt_count;
  max_attempts = row.max_attempts;
  available_at = row.available_at;
  started_at = row.started_at;
  finished_at = row.finished_at;
  lease_expires_at = row.lease_expires_at;
  heartbeat_at = row.heartbeat_at;
  last_error_code = row.last_error_code;
  last_error_retryable = row.last_error_retryable;
  pipeline_config = row.pipeline_config;
  created_at = row.created_at;
  updated_at = row.updated_at;
}

unfoldable pub row_to_job : (Text → Text) → JobRow → Checked DurableIngestionJob
row_to_job quote row =
    guard (is_valid_row quote row) (job_error persistence_invalid false) >> ok (job_of row)

abbrev has_length : ℕ → Text → Bool
has_length bound s = leb 1 (length s) && leb (length s) bound

unfoldable pub row_to_leased_document_identity : DocumentVersion → Checked LeasedDocumentIdentity
row_to_leased_document_identity v =
    guard
      (has_length 512 v.document_key
        && has_length 1000 v.document_title
        && has_length 256 v.version_label)
      (job_error persistence_invalid false)
    >> ok record {
      document_key = v.document_key;
      document_title = v.document_title;
      document_version = v.version_label;
    }

module _ {Vectors : Type 0} where
  unfoldable pub audit_event :
      Db Vectors → DurableIngestionJob → Text → AuditOutcome → Text → Text → Checked (Db Vectors)
  audit_event db job event_type outcome reason_code actor =
      guard (is_safe_error_code reason_code && is_canonical_uuid actor)
        (job_error audit_invalid false)
      >> ok (record db {
        audit =
            db.audit
            ++ record {
              tenant_id = job.tenant_id;
              actor = actor;
              event_type = event_type;
              entity_id = job.job_id;
              outcome = outcome;
              reason_code = reason_code;
            }
              ∷ [];
      })

  -- `withTenantTransaction`, with the database as it stands after COMMIT or ROLLBACK.
  unfoldable pub in_transaction :
      {A : Type 0}
      → Text
      → Db Vectors
      → (Db Vectors → Checked (A × Db Vectors))
      → Checked A × Db Vectors
  in_transaction tenant_id db operation =
      if not (is_canonical_uuid tenant_id)
      then (err tenant_context, db)
      else elim (operation db) [ ok (a, db') ↦ (ok a, db') | err e ↦ (err e, db) ]
