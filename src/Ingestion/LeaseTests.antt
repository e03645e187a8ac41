-- ===== src/Ingestion/LeaseTests.antt =====
-- `leaseNext` of src/ingestion/ingestionJobService.ts at a concrete table.
use la_muni_rag.Base.{ℕ, false, some, [], ◌∷◌}
use la_muni_rag.Base.Text.{codes}
use la_muni_rag.Ingestion.Types.{JobRow, LeasedIngestionJob}
use la_muni_rag.Ingestion.Store.{set_leased}
use la_muni_rag.Ingestion.Rows.{Db, job_of}
use la_muni_rag.Ingestion.Lease.{lease_next}
use la_muni_rag.Ingestion.Samples.{
  same_text, clock, tenant, object_id, scan_id, token, waiting_job, db_of,
}

-- A job that is available later than the other.
abbrev later_job : JobRow
later_job = record waiting_job {
  id = codes "77777777-7777-4777-8777-777777777777";
  idempotency_key_sha256 = codes "another key";
  work_sha256 = codes "other work";
  available_at = 1500;
}

abbrev queue : Db ℕ
queue = db_of (later_job ∷ waiting_job ∷ [])

abbrev taken : JobRow
taken = set_leased 5001 (codes "worker") token 300 object_id scan_id waiting_job

abbrev leased : LeasedIngestionJob
leased = record {
  job = job_of taken;
  lease_token = token;
  document_identity = record {
    document_title = codes "t";
    document_key = codes "k";
    document_version = codes "1";
  };
}

abbrev after_lease : Db ℕ
after_lease =
    (lease_next same_text same_text clock tenant (codes "worker") (some 300) token (λ t. false)
      queue).1
