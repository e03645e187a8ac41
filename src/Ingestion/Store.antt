-- ===== src/Ingestion/Store.antt =====
-- The SQL statements of src/ingestion/ingestionJobService.ts as functions on the tables, and the
-- acceptance check of the database (src/db/migrations/011_artifact_vector_runtime_hardening.sql).
-- `now` is the statement's time. The unique indexes are those of
-- src/db/migrations/005_tenant_ingestion_runtime.sql.
use la_muni_rag.Base.{
  ℕ, ◌+◌, ◌*◌, Bool, true, false, ◌&&◌, ◌||◌, Option, none, some, List, [], ◌∷◌, ◌++◌, map, keep,
  any, ltb, leb, ◌==◌, get_or, if◌then◌else◌,
}
use la_muni_rag.Base.Text.{Text, codes, text_eq}
use la_muni_rag.Ingestion.Types.{
  DurableIngestionJobStatus, queued, processing, processed, failed, status_eq, JobRow,
}

pub record DocumentVersion : Type 0 where
  pub id : Text
  pub tenant_id : Text
  pub content_sha256 : Text
  pub version_label : Text
  pub document_title : Text
  pub document_key : Text
  pub document_is_active : Bool
  pub extraction_status : DurableIngestionJobStatus
  pub extracted_at : Option ℕ

pub record ArtifactObject : Type 0 where
  pub id : Text
  pub tenant_id : Text
  pub document_version_id : Text
  pub expected_sha256 : Text
  pub is_accepted : Bool
  pub accepted_until : ℕ
  pub accepted_scan_id : Text
  pub inspection_generation : ℕ
  pub declared_media_type : Text

pub record ArtifactScan : Type 0 where
  pub id : Text
  pub tenant_id : Text
  pub artifact_object_id : Text
  pub is_clean : Bool
  pub inspection_generation : ℕ
  pub content_sha256 : Text
  pub detected_media_type : Text
  pub inspected_at : ℕ

-- `make_interval(secs => n)`, and `interval '7 days'`.
abbrev pub seconds : ℕ → ℕ
seconds n = n * 1000000

abbrev pub text_in : Option Text → Text → Bool
text_in none t = false
text_in (some s) t = text_eq s t

-- `at <= now` and `at > now`, which are not true of NULL.
abbrev pub is_past : Option ℕ → ℕ → Bool
is_past none now = false
is_past (some at) now = leb at now

abbrev pub is_future : Option ℕ → ℕ → Bool
is_future none now = false
is_future (some at) now = ltb now at

-- The joined rows of an object and its accepted scan prove that the object may be used.
unfoldable pub is_valid_acceptance : ℕ → ArtifactObject → ArtifactScan → Bool
is_valid_acceptance now object scan =
    text_eq scan.id object.accepted_scan_id
    && text_eq scan.tenant_id object.tenant_id
    && text_eq scan.artifact_object_id object.id
    && scan.is_clean
    && scan.inspection_generation == object.inspection_generation
    && text_eq scan.content_sha256 object.expected_sha256
    && text_eq scan.detected_media_type object.declared_media_type
    && object.is_accepted
    && ltb now object.accepted_until
    && ltb scan.inspected_at object.accepted_until
    && leb object.accepted_until (scan.inspected_at + seconds 604800)

-- The first row of a list that meets the test.
unfoldable pub find_row : {A : Type 0} → (A → Bool) → List A → Option A
find_row test [] = none
find_row test (x ∷ xs) = if test x then some x else find_row test xs

-- The rows of `objects` joined with their scans for a job: an object and a scan.
unfoldable pub joined_artifact :
    ℕ → List ArtifactScan → JobRow → List ArtifactObject → Option (Text × Text)
joined_artifact now scans job [] = none
joined_artifact now scans job (object ∷ objects) =
    if text_eq object.tenant_id job.tenant_id
      && text_eq object.document_version_id job.document_version_id
      && text_eq object.expected_sha256 job.artifact_sha256
    then elim (find_row (is_valid_acceptance now object) scans) [
      | some scan ↦ some (object.id, scan.id)
      | none ↦ joined_artifact now scans job objects
    ]
    else joined_artifact now scans job objects

-- lock_valid_artifact_acceptance_v1. The transaction's tenant is that of the job, and the digest was
-- checked before.
unfoldable pub accepts_artifact :
    ℕ → List ArtifactObject → List ArtifactScan → Text → Text → Text → Text → Text → Bool
accepts_artifact now objects scans object_id tenant_id version_id sha256 scan_id =
    any
      (λ (o : ArtifactObject).
        text_eq o.id object_id
        && text_eq o.tenant_id tenant_id
        && text_eq o.document_version_id version_id
        && text_eq o.expected_sha256 sha256
        && any (λ s. text_eq s.id scan_id && is_valid_acceptance now o s) scans)
      objects

-- The rows of statuses under the unique index on work.
unfoldable pub is_active : DurableIngestionJobStatus → Bool
is_active queued = true
is_active processing = true
is_active processed = true
is_active _ = false

abbrev pub same_key : Text → Text → Text → JobRow → Bool
same_key tenant_id principal_id key j =
    text_eq j.tenant_id tenant_id
    && text_eq j.requested_by_principal_id principal_id
    && text_eq j.idempotency_key_sha256 key

abbrev pub same_work : Text → Text → JobRow → Bool
same_work tenant_id work j =
    text_eq j.tenant_id tenant_id && text_eq j.work_sha256 work && is_active j.status

-- INSERT_JOB_SQL: ON CONFLICT DO NOTHING under the primary key and the two unique indexes.
unfoldable pub insert_job : JobRow → List JobRow → Option (List JobRow)
insert_job row jobs =
    if any (λ (j : JobRow). text_eq j.id row.id) jobs
      || any (same_key row.tenant_id row.requested_by_principal_id row.idempotency_key_sha256) jobs
      || any (same_work row.tenant_id row.work_sha256) jobs
    then none
    else some (jobs ++ row ∷ [])

-- UPDATE ... SET ... WHERE test RETURNING: the table, and the rows returned.
unfoldable pub update_where : (JobRow → Bool) → (JobRow → JobRow) → List JobRow → List JobRow
update_where test set [] = []
update_where test set (j ∷ js) =
    let rest = update_where test set js in if test j then set j ∷ rest else j ∷ rest

abbrev pub returned : (JobRow → Bool) → (JobRow → JobRow) → List JobRow → List JobRow
returned test set jobs = map set (keep test jobs)

-- `status = 'processing'` under the lease of a token that has not run out.
unfoldable pub holds_lease : ℕ → Text → Text → Text → JobRow → Bool
holds_lease now id tenant_id token j =
    text_eq j.id id
    && text_eq j.tenant_id tenant_id
    && status_eq j.status processing
    && text_in j.lease_token_sha256 token
    && is_future j.lease_expires_at now

unfoldable pub is_exhausted : ℕ → Text → JobRow → Bool
is_exhausted now tenant_id j =
    text_eq j.tenant_id tenant_id
    && status_eq j.status processing
    && is_past j.lease_expires_at now
    && leb j.max_attempts j.attempt_count

-- What each way out of a lease sets.
abbrev pub without_lease : JobRow → JobRow
without_lease j = record j {
  lease_owner_sha256 = none;
  lease_token_sha256 = none;
  lease_expires_at = none;
  heartbeat_at = none;
}

unfoldable pub set_exhausted : ℕ → JobRow → JobRow
set_exhausted now j = record (without_lease j) {
  status = failed;
  finished_at = some now;
  last_error_code = some (codes "lease_expired");
  last_error_retryable = some false;
  updated_at = now;
}

unfoldable pub set_leased : ℕ → Text → Text → ℕ → Text → Text → JobRow → JobRow
set_leased now owner token duration object_id scan_id j = record j {
  status = processing;
  attempt_count = j.attempt_count + 1;
  started_at = some (get_or j.started_at now);
  finished_at = none;
  lease_owner_sha256 = some owner;
  lease_token_sha256 = some token;
  lease_expires_at = some (now + seconds duration);
  heartbeat_at = some now;
  artifact_object_id = some object_id;
  artifact_scan_id = some scan_id;
  last_error_code = none;
  last_error_retryable = none;
  updated_at = now;
}

unfoldable pub set_heartbeat : ℕ → ℕ → JobRow → JobRow
set_heartbeat now duration j = record j {
  heartbeat_at = some now;
  lease_expires_at = some (now + seconds duration);
  updated_at = now;
}

unfoldable pub set_processed : ℕ → JobRow → JobRow
set_processed now j = record (without_lease j) {
  status = processed;
  finished_at = some now;
  last_error_code = none;
  last_error_retryable = none;
  updated_at = now;
}

unfoldable pub set_retry : ℕ → ℕ → Text → JobRow → JobRow
set_retry now delay code j = record (without_lease j) {
  status = queued;
  available_at = now + seconds delay;
  finished_at = none;
  last_error_code = some code;
  last_error_retryable = some true;
  updated_at = now;
}

unfoldable pub set_failed : ℕ → Text → Bool → JobRow → JobRow
set_failed now code retryable j = record (without_lease j) {
  status = failed;
  finished_at = some now;
  last_error_code = some code;
  last_error_retryable = some retryable;
  updated_at = now;
}

-- LOCK_DOCUMENT_VERSION_SQL and SELECT_DOCUMENT_IDENTITY_SQL: the rows of an active document.
unfoldable pub active_versions : Text → Text → List DocumentVersion → List DocumentVersion
active_versions id tenant_id = keep (λ (v : DocumentVersion).
    text_eq v.id id && text_eq v.tenant_id tenant_id && v.document_is_active)

abbrev pub is_version : Text → Text → DocumentVersion → Bool
is_version id tenant_id v = text_eq v.id id && text_eq v.tenant_id tenant_id

unfoldable pub set_extraction : ℕ → DurableIngestionJobStatus → DocumentVersion → DocumentVersion
set_extraction now status v = record v {
  extraction_status = status;
  extracted_at = if status_eq status processed then some now else v.extracted_at;
}

unfoldable pub update_versions :
    ℕ → Text → Text → DurableIngestionJobStatus → List DocumentVersion → List DocumentVersion
update_versions now id tenant_id status [] = []
update_versions now id tenant_id status (v ∷ vs) =
    (if is_version id tenant_id v then set_extraction now status v else v)
    ∷ update_versions now id tenant_id status vs
