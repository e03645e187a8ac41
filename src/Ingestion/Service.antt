-- ===== src/Ingestion/Service.antt =====
-- What the operations of src/ingestion/ingestionJobService.ts share. A parameter that SQL casts to
-- `uuid` is compared in lower case.
use la_muni_rag.Base.{ℕ, false, List, [], ◌∷◌, keep, length, ◌==◌, ok, err, guard, ◌>>◌}
use la_muni_rag.Ingestion.Types.{
  DurableIngestionJobStatus, Checked, JobError, job_error, document_version_missing,
  DurableIngestionJob,
}
use la_muni_rag.Ingestion.Store.{is_version, update_versions}
use la_muni_rag.Ingestion.Rows.{Db}

-- The row that a query has to return alone.
unfoldable pub single_row : {A : Type 0} → JobError → List A → Checked A
single_row thrown [] = err thrown
single_row thrown (a ∷ []) = ok a
single_row thrown (a ∷ b ∷ l) = err thrown

module _ {Vectors : Type 0} where
  -- UPDATE_DOCUMENT_VERSION_SQL, which has to change one row.
  unfoldable pub update_document_version :
      ℕ → DurableIngestionJob → DurableIngestionJobStatus → Db Vectors → Checked (Db Vectors)
  update_document_version now job status db =
      guard (length (keep (is_version job.document_version_id job.tenant_id) db.versions) == 1)
        (job_error document_version_missing false)
      >> ok (record db {
        versions = update_versions now job.document_version_id job.tenant_id status db.versions;
      })
