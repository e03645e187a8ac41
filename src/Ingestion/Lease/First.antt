-- ===== src/Ingestion/Lease/First.antt =====
-- The job that `leaseNext` of src/ingestion/ingestionJobService.ts gives to a worker.
use la_muni_rag.Base.{ℕ, ◌<◌, ◌≡◌, Bool, false, List}
use la_muni_rag.Base.Text.{Text}
use la_muni_rag.Ingestion.Types.{JobRow, LeasedIngestionJob}
use la_muni_rag.Ingestion.Store.{ArtifactObject, ArtifactScan, set_leased}
use la_muni_rag.Ingestion.Rows.{Db, job_of}
use la_muni_rag.Ingestion.Lease.Turn.{In, IsAccepted, IsFree, IsNoLater}
use la_muni_rag.Ingestion.Table.{Member}

-- A job that a worker of the tenant may be given, with the object and the scan that prove its file.
abbrev pub MayBeLeased :
    ℕ
    → Text
    → (Text → Bool)
    → List ArtifactObject
    → List ArtifactScan
    → JobRow
    → ArtifactObject
    → ArtifactScan
    → Type 0
MayBeLeased now tenant_id locked objects scans j o s =
    (j.tenant_id ≡ tenant_id)
    × (j.attempt_count < j.max_attempts)
    × IsFree now j
    × (locked j.id ≡ false)
    × In o objects
    × In s scans
    × IsAccepted now j o s

module _ (now : ℕ) (tenant_id : Text) (locked : Text → Bool) (objects : List ArtifactObject)
    (scans : List ArtifactScan) where
  -- No job that may be leased comes before `r`.
  abbrev pub IsNext : List JobRow → JobRow → Type 0
  IsNext js r =
      (k : JobRow)
      → Member k js
      → (o : ArtifactObject) (s : ArtifactScan)
      → MayBeLeased now tenant_id locked objects scans k o s
      → IsNoLater r k

module _ {Vectors : Type 0} (quote : Text → Text) (sha256 : Text → Text) (clock : ℕ → ℕ) where
  -- What a lease is: the row `j` of the table is given, with the object and the scan.
  pub record IsLeased (tenant_id worker_id token : Text) (duration : ℕ) (locked : Text → Bool)
      (db : Db Vectors) (leased : LeasedIngestionJob) (db' : Db Vectors) (j : JobRow)
      (o : ArtifactObject) (s : ArtifactScan) : Type 0 where
    pub member : Member j db.jobs
    pub allowed : MayBeLeased (clock 1) tenant_id locked db.objects db.scans j o s
    pub is_next : IsNext (clock 1) tenant_id locked db.objects db.scans db.jobs j
    pub written :
        Member
          (set_leased (clock 1) (sha256 worker_id) (sha256 token) duration o.id s.id j)
          db'.jobs
    pub answered :
        leased.job
        ≡ job_of (set_leased (clock 1) (sha256 worker_id) (sha256 token) duration o.id s.id j)
    pub token_given : leased.lease_token ≡ token
