-- ===== src/Ingestion/Samples.antt =====
-- Sample jobs and tables for the tests of src/ingestion. The digest of a text is the text itself.
use la_muni_rag.Base.{ℕ, ◌+◌, refl, true, false, none, some, List, [], ◌∷◌, ok, arith}
use la_muni_rag.Base.Text.{Text, codes}
use la_muni_rag.Ingestion.Types.{
  queued, processing, processed, Checked, IngestionPipelineConfigV1, EnqueueIngestionJobInput,
  JobRow, DurableIngestionJob, VectorReplaceResult, CompleteIngestionJobInput,
  FailIngestionJobInput, HeartbeatIngestionJobInput,
}
use la_muni_rag.Ingestion.Store.{DocumentVersion, ArtifactObject, ArtifactScan}
use la_muni_rag.Ingestion.Rows.{Db}
use la_muni_rag.Ingestion.Table.{IsSound}
use la_muni_rag.Ingestion.History.{Call, to_enqueue, to_lease, to_heartbeat, to_complete, to_fail}

abbrev pub same_text : Text → Text
same_text t = t

abbrev pub clock : ℕ → ℕ
clock n = 5000 + n

abbrev pub tenant : Text
tenant = codes "11111111-1111-4111-8111-11111111111a"

abbrev pub job_id : Text
job_id = codes "22222222-2222-4222-8222-222222222222"

abbrev pub object_id : Text
object_id = codes "33333333-3333-4333-8333-333333333333"

abbrev pub scan_id : Text
scan_id = codes "44444444-4444-4444-8444-444444444444"

abbrev pub version_id : Text
version_id = codes "55555555-5555-4555-8555-555555555555"

abbrev pub artifact : Text
artifact = codes "0123456789abcdef0123456789abcdef0123456789abcdef0123456789abcdef"

abbrev pub token : Text
token = codes "abcdefghijklmnopqrstuvwxyz0123456789"

abbrev pub config : IngestionPipelineConfigV1
config = record {
  contract_version = codes "v1";
  extractor_name = codes "bounded_document_registry";
  extractor_version = codes "1.0.0";
  planner_name = codes "section_text_v1";
  max_chars = 1200;
  overlap_chars = 100;
  embedding_provider = codes "local";
  embedding_model = codes "m";
  embedding_dimension = 1536;
}

abbrev pub version : DocumentVersion
version = record {
  id = version_id;
  tenant_id = tenant;
  content_sha256 = artifact;
  version_label = codes "1";
  document_title = codes "t";
  document_key = codes "k";
  document_is_active = true;
  extraction_status = queued;
  extracted_at = none;
}

abbrev pub object : ArtifactObject
object = record {
  id = object_id;
  tenant_id = tenant;
  document_version_id = version_id;
  expected_sha256 = artifact;
  is_accepted = true;
  accepted_until = 9000;
  accepted_scan_id = scan_id;
  inspection_generation = 1;
  declared_media_type = codes "p";
}

abbrev pub scan : ArtifactScan
scan = record {
  id = scan_id;
  tenant_id = tenant;
  artifact_object_id = object_id;
  is_clean = true;
  inspection_generation = 1;
  content_sha256 = artifact;
  detected_media_type = codes "p";
  inspected_at = 100;
}

abbrev pub waiting_job : JobRow
waiting_job = record {
  id = job_id;
  tenant_id = tenant;
  requested_by_principal_id = tenant;
  document_version_id = version_id;
  idempotency_key_sha256 = codes "key";
  request_sha256 = codes "request";
  artifact_sha256 = artifact;
  work_sha256 = codes "work";
  artifact_object_id = none;
  artifact_scan_id = none;
  status = queued;
  attempt_count = 0;
  max_attempts = 3;
  available_at = 1000;
  started_at = none;
  finished_at = none;
  lease_owner_sha256 = none;
  lease_token_sha256 = none;
  lease_expires_at = none;
  heartbeat_at = none;
  last_error_code = none;
  last_error_retryable = none;
  pipeline_config = config;
  created_at = 1000;
  updated_at = 1000;
}

abbrev pub running_job : JobRow
running_job = record waiting_job {
  artifact_object_id = some object_id;
  artifact_scan_id = some scan_id;
  status = processing;
  attempt_count = 1;
  started_at = some 2000;
  lease_owner_sha256 = some (codes "worker");
  lease_token_sha256 = some token;
  lease_expires_at = some 8000;
  heartbeat_at = some 2000;
}

abbrev pub stopped_job : JobRow
stopped_job = record waiting_job {
  artifact_object_id = some object_id;
  artifact_scan_id = some scan_id;
  status = processed;
  attempt_count = 1;
  started_at = some 2000;
  finished_at = some 3000;
}

-- The vectors are a number, which each replacement adds to.
abbrev pub db_of : List JobRow → Db ℕ
db_of jobs = record {
  jobs = jobs;
  versions = version ∷ [];
  objects = object ∷ [];
  scans = scan ∷ [];
  vectors = 4;
  audit = [];
}

abbrev pub counts : VectorReplaceResult
counts = record { inserted_count = 1; updated_count = 0; unchanged_count = 0; deleted_count = 0 }

abbrev pub replace :
    DurableIngestionJob → DocumentVersion → ℕ → ℕ → Checked (VectorReplaceResult × ℕ)
replace job v records vectors = ok (counts, vectors + records)

abbrev pub enqueued : EnqueueIngestionJobInput
enqueued = record {
  tenant_id = tenant;
  principal_id = tenant;
  document_version_id = version_id;
  artifact_sha256 = artifact;
  idempotency_key = codes "a new key";
  pipeline_config = config;
  max_attempts = none;
}

abbrev pub completed : CompleteIngestionJobInput ℕ
completed = record {
  tenant_id = tenant;
  job_id = job_id;
  lease_token = token;
  artifact_sha256 = artifact;
  artifact_object_id = object_id;
  artifact_scan_id = scan_id;
  records = 3;
}

abbrev pub given_up : FailIngestionJobInput
given_up = record {
  tenant_id = tenant;
  job_id = job_id;
  lease_token = token;
  error_code = codes "embedding_failed";
  retryable = true;
  retry_delay_seconds = none;
}

abbrev pub beaten : HeartbeatIngestionJobInput
beaten = record {
  tenant_id = tenant;
  job_id = job_id;
  lease_token = token;
  lease_duration_seconds = none;
}

abbrev pub calls : List (Call ℕ)
calls =
    to_enqueue 1500 object_id enqueued
    ∷ to_lease clock tenant (codes "worker") none token (λ t. false)
    ∷ to_heartbeat clock beaten
    ∷ to_fail clock given_up
    ∷ to_complete clock completed
    ∷ []

pub waiting-IsSound : IsSound (waiting_job ∷ [])
waiting-IsSound = record {
  formed = (
    record {
      attempted = omega arith;
      at_least_once = omega arith;
      at_most_ten = omega arith;
      shaped = (refl, (refl, refl, refl, refl));
    },
    tt,
  );
  ids = (refl, tt);
  keys = (refl, tt);
  works = (refl, tt);
}

pub running-IsSound : IsSound (running_job ∷ [])
running-IsSound = record {
  formed = (
    record {
      attempted = omega arith;
      at_least_once = omega arith;
      at_most_ten = omega arith;
      shaped = (refl, refl, refl, refl, refl, refl, refl);
    },
    tt,
  );
  ids = (refl, tt);
  keys = (refl, tt);
  works = (refl, tt);
}

pub stopped-IsSound : IsSound (stopped_job ∷ [])
stopped-IsSound = record {
  formed = (
    record {
      attempted = omega arith;
      at_least_once = omega arith;
      at_most_ten = omega arith;
      shaped = (refl, refl, refl, refl, (refl, refl, refl, refl), refl);
    },
    tt,
  );
  ids = (refl, tt);
  keys = (refl, tt);
  works = (refl, tt);
}
