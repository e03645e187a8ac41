-- ===== src/Ingestion/Queue.antt =====
-- The order of the queue in src/ingestion/ingestionJobService.ts: the rows that EXHAUST_EXPIRED_SQL
-- and LEASE_NEXT_SQL take.
use la_muni_rag.Base.{
  ℕ, Bool, true, false, ◌&&◌, ◌||◌, not, Option, none, some, List, [], ◌∷◌, keep, take, ltb, leb,
  ◌==◌, get_or, if◌then◌else◌,
}
use la_muni_rag.Base.Text.{Text, text_eq}
use la_muni_rag.Base.Sort.{sort}
use la_muni_rag.Ingestion.Types.{queued, processing, status_eq, JobRow}
use la_muni_rag.Ingestion.Store.{
  ArtifactObject, ArtifactScan, is_exhausted, is_past, joined_artifact,
}

-- Texts by their code units, as identifiers in lower case are ordered.
unfoldable pub text_lt : Text → Text → Bool
text_lt [] [] = false
text_lt [] (b ∷ t) = true
text_lt (a ∷ s) [] = false
text_lt (a ∷ s) (b ∷ t) = if ltb a b then true else if ltb b a then false else text_lt s t

-- ORDER BY available_at, created_at, id.
unfoldable pub queue_before : JobRow → JobRow → Bool
queue_before a b =
    ltb a.available_at b.available_at
    || (a.available_at == b.available_at
        && (ltb a.created_at b.created_at || (a.created_at == b.created_at && text_lt a.id b.id)))

-- ORDER BY lease_expires_at, id.
unfoldable pub expiry_before : JobRow → JobRow → Bool
expiry_before a b =
    ltb (get_or a.lease_expires_at 0) (get_or b.lease_expires_at 0)
    || (get_or a.lease_expires_at 0 == get_or b.lease_expires_at 0 && text_lt a.id b.id)

-- The rows that EXHAUST_EXPIRED_SQL takes, of those that no other transaction has locked.
unfoldable pub exhausted_rows : ℕ → Text → (Text → Bool) → List JobRow → List JobRow
exhausted_rows now tenant_id locked jobs = take 100 (
    sort expiry_before
      (keep (λ (j : JobRow). is_exhausted now tenant_id j && not (locked j.id)) jobs))

-- A row that LEASE_NEXT_SQL may take.
unfoldable pub is_leasable : ℕ → Text → JobRow → Bool
is_leasable now tenant_id j =
    text_eq j.tenant_id tenant_id
    && ltb j.attempt_count j.max_attempts
    && ((status_eq j.status queued && leb j.available_at now)
        || (status_eq j.status processing && is_past j.lease_expires_at now))

pub record Candidate : Type 0 where
  pub row : JobRow
  pub object_id : Text
  pub scan_id : Text

-- The candidate of the joined tables that comes first.
unfoldable pub earlier : Candidate → Option Candidate → Option Candidate
earlier c none = some c
earlier c (some d) = if queue_before d.row c.row then some d else some c

unfoldable pub lease_candidate :
    ℕ
    → Text
    → (Text → Bool)
    → List ArtifactObject
    → List ArtifactScan
    → List JobRow
    → Option Candidate
lease_candidate now tenant_id locked objects scans [] = none
lease_candidate now tenant_id locked objects scans (j ∷ js) =
    let rest = lease_candidate now tenant_id locked objects scans js in
    if is_leasable now tenant_id j && not (locked j.id)
    then elim (joined_artifact now scans j objects) [
      | none ↦ rest
      | some (object_id, scan_id) ↦
          earlier (record { row = j; object_id = object_id; scan_id = scan_id }) rest
    ]
    else rest
