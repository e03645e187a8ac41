-- ===== src/Ingestion/WorkerTests.antt =====
-- The theorems of the worker and of the accepted artifacts of src/ingestion at concrete inputs.
use la_muni_rag.Base.{ℕ, ◌≡◌, refl, true, false, Option, some, List, [], ◌∷◌, ok, err, length}
use la_muni_rag.Base.Text.{Text, codes, lower, text_eq}
use la_muni_rag.Base.Json.{end}
use la_muni_rag.Ingestion.Rows.{Db}
use la_muni_rag.Ingestion.Failure.{
  IngestionWorkerResult, processed_job, assert_pipeline_matches_provider, artifact_request,
  prepared_records, after, service_call,
}
use la_muni_rag.Base.Uuid.{is_place}
use la_muni_rag.Security.Tenant.{is_canonical_uuid}
use la_muni_rag.Embeddings.Types.{txt, NormalizedDocument, EmbeddingVectorRecord, EmbeddingProvider}
use la_muni_rag.Ingestion.Types.{Checked, DurableIngestionJob, VectorReplaceResult}
use la_muni_rag.Ingestion.Identity.{is_sha256_hex}
use la_muni_rag.Ingestion.Store.{DocumentVersion}
use la_muni_rag.Ingestion.Artifact.{
  ingestion_failure, AcceptedArtifact, AcceptedArtifactRequest, ArtifactSafetyPolicy, Inspected,
  is_scanner_component, is_object_version, is_safe_filename, is_safe_metadata, is_scope_valid,
  is_identity_equal, is_policy_valid, is_evidence_valid, verify_content, verify_accepted_artifact,
}
use la_muni_rag.Ingestion.Artifact.Laws.{IsVerified, verify_accepted_artifact-IsVerified}
use la_muni_rag.Ingestion.Worker.{
  heartbeat_input, beat_all, checkpoint, stop, step, resolved_artifact, extracted, embedded_records,
  completion, work_on, run_lease, run_once,
}
use la_muni_rag.Ingestion.Failure.{Surroundings, WorkerOptions}
use la_muni_rag.Ingestion.Worker.Outcome.{IsProcessed, run_once-IsProcessed}
use la_muni_rag.Ingestion.Lease.{
  lease_next, lease_request, lease_work, exhaust_expired, settle_exhausted, lease_candidate_row,
  heartbeat, heartbeat_request, heartbeat_work,
}
use la_muni_rag.Ingestion.Queue.{exhausted_rows, lease_candidate, is_leasable, earlier}
use la_muni_rag.Ingestion.Store.{
  is_exhausted, joined_artifact, is_valid_acceptance, set_leased, set_exhausted, update_where,
  active_versions, set_heartbeat, holds_lease, accepts_artifact, set_processed, set_extraction,
  update_versions,
}
use la_muni_rag.Ingestion.Rows.{
  row_to_leased_document_identity, is_safe_worker, bounded_lease_seconds, row_to_job, job_of,
  is_valid_row, audit_event, in_transaction, is_safe_error_code, is_safe_lease_token,
}
use la_muni_rag.Ingestion.Settle.{
  complete, complete_work, lock_lease, check_completion, settle_lease,
}
use la_muni_rag.Ingestion.Service.{update_document_version, single_row}
use la_muni_rag.Ingestion.Identity.{is_safe_component, canonical_pipeline_config}
use la_muni_rag.Ingestion.Types.{status_eq}
use la_muni_rag.Embeddings.Indexer.{
  prepare_document_embeddings, plan_document, bounded_option, prepare_planned, embed_planned,
  embed_batches, records_from,
}
use la_muni_rag.Embeddings.Planner.{plan_chunks, assert_planner_options, plan_sections}
use la_muni_rag.Embeddings.Validation.{validate_chunks}
use la_muni_rag.Base.Sort.{sort}
use la_muni_rag.Base.Text.{join}
use la_muni_rag.Ingestion.Store.{find_row}
use la_muni_rag.Ingestion.Samples.{
  job_id, waiting-IsSound, same_text, clock, tenant, object_id, scan_id, version_id, artifact,
  token, counts, db_of, waiting_job,
}

abbrev digest : List ℕ → Text
digest content = artifact

abbrev parse_time : Text → Option ℕ
parse_time t = some 4000

abbrev found : Inspected
found = record {
  declared_media_type = codes "text/plain";
  detected_media_type = codes "text/plain";
  signature = codes "utf8_text";
}

abbrev inspect : List ℕ → Text → Text → ℕ → Option Inspected
inspect content path declared maximum = some found

abbrev file : AcceptedArtifact
file = record {
  tenant_id = codes "11111111-1111-4111-8111-11111111111A";
  document_version_id = version_id;
  artifact_sha256 = artifact;
  artifact_object_id = object_id;
  artifact_scan_id = scan_id;
  object_version = codes "v1";
  original_filename = codes "law.txt";
  media_type = codes "text/plain; charset=utf-8";
  content = 65 ∷ 66 ∷ [];
  safety = record {
    is_clean = true;
    content_sha256 = artifact;
    byte_length = 2;
    detected_media_type = codes "text/plain";
    structural_signature = codes "utf8_text";
    inspected_at = codes "2026-01-01T00:00:04Z";
    scanner_engine = codes "clamav";
    scanner_engine_version = codes "1.0";
    scanner_definitions_version = codes "7";
  };
}

abbrev request : AcceptedArtifactRequest
request = record {
  tenant_id = tenant;
  document_version_id = version_id;
  artifact_sha256 = artifact;
  artifact_object_id = object_id;
  artifact_scan_id = scan_id;
}

abbrev policy : ArtifactSafetyPolicy
policy = record {
  max_artifact_bytes = 100;
  malware_scan_max_age_ms = 2000;
  malware_scan_timeout_ms = 10;
}

abbrev verified : AcceptedArtifact
verified = record file { tenant_id = tenant; media_type = codes "text/plain" }

verifies :
    verify_accepted_artifact digest same_text parse_time inspect 5000 (some policy) request file
    ≡ ok verified
unfolding verify_accepted_artifact verify_content is_scope_valid is_identity_equal is_policy_valid
    is_evidence_valid is_scanner_component is_object_version is_safe_filename is_safe_metadata
    is_sha256_hex is_canonical_uuid is_place text_eq lower
verifies = refl

verify_accepted_artifact-IsVerified_example :
    IsVerified digest same_text parse_time inspect 5000 (some policy) request file verified
verify_accepted_artifact-IsVerified_example =
    verify_accepted_artifact-IsVerified digest same_text parse_time inspect 5000 (some policy)
      request file verified verifies

abbrev provider : EmbeddingProvider ℕ
provider = record {
  provider_name = codes "local";
  model = codes "m";
  dimensions = 1536;
  embed = λ n texts. ok [];
}

abbrev world : Surroundings
world = record {
  lease_clock = clock;
  locked = λ t. false;
  token = token;
  resolve = λ r. ok file;
  extract = λ name title content. err (ingestion_failure (codes "extraction_failed") true);
  digest = digest;
  basename = same_text;
  parse_time = parse_time;
  inspect = inspect;
  now = 5000;
  policy = some policy;
  timer_beats = λ n. clock ∷ [];
  checkpoint_clock = λ n. clock;
  complete_clock = clock;
  fail_clock = clock;
}

abbrev options : WorkerOptions
options = record { tenant_id = tenant; worker_id = codes "worker"; lease_duration_seconds = 300 }

abbrev replace_records :
    DurableIngestionJob
    → DocumentVersion
    → List (EmbeddingVectorRecord ℕ)
    → ℕ
    → Checked (VectorReplaceResult × ℕ)
replace_records job v records vectors = ok (counts, length records)

-- A file without sections, whose bytes are those of the job.
abbrev empty_document : NormalizedDocument
empty_document = record {
  document_title = codes "t";
  source_format = txt;
  text = [];
  sections = [];
  metadata = end;
}

abbrev working_world : Surroundings
working_world = record world { extract = λ name title content. ok (empty_document, content) }

abbrev outcome : Checked IngestionWorkerResult × Db ℕ
outcome =
    run_once same_text same_text replace_records provider (codes "2026-01-01") options working_world
      (db_of (waiting_job ∷ []))

reported : outcome ≡ (ok (processed_job job_id 0 counts), outcome.1)
unfolding run_once run_lease work_on assert_pipeline_matches_provider artifact_request
    prepared_records after service_call heartbeat_input beat_all checkpoint stop step
    resolved_artifact extracted embedded_records completion verify_accepted_artifact verify_content
    is_scope_valid is_identity_equal is_policy_valid is_evidence_valid is_scanner_component
    is_object_version is_safe_filename is_safe_metadata is_sha256_hex is_canonical_uuid is_place
    text_eq lower lease_next lease_request lease_work exhaust_expired settle_exhausted
    lease_candidate_row exhausted_rows is_exhausted lease_candidate is_leasable earlier
    joined_artifact is_valid_acceptance set_leased set_exhausted update_where active_versions
    row_to_leased_document_identity is_safe_worker bounded_lease_seconds heartbeat heartbeat_request
    heartbeat_work set_heartbeat holds_lease complete complete_work lock_lease check_completion
    settle_lease accepts_artifact set_processed set_extraction update_versions
    update_document_version row_to_job job_of is_valid_row audit_event in_transaction single_row
    is_safe_error_code is_safe_lease_token is_safe_component canonical_pipeline_config status_eq
    prepare_document_embeddings plan_document bounded_option plan_chunks assert_planner_options
    plan_sections prepare_planned embed_planned embed_batches records_from validate_chunks sort join
    find_row
reported = refl

run_once-IsProcessed_example : IsProcessed job_id outcome.1.jobs
run_once-IsProcessed_example =
    run_once-IsProcessed same_text same_text replace_records provider (codes "2026-01-01") options
      working_world (db_of (waiting_job ∷ [])) outcome.1 job_id 0 counts waiting-IsSound reported
