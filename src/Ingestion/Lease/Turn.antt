-- ===== src/Ingestion/Lease/Turn.antt =====
-- Which jobs LEASE_NEXT_SQL of src/ingestion/ingestionJobService.ts may take, and in which order, told
-- by the columns of the rows.
use la_muni_rag.Base.{
  ℕ, ◌+◌, ◌<◌, ◌≤◌, ◌≡◌, refl, sym, ap, ◌∙◌, ◌⊎◌, inl, inr, Bool, true, false, ◌&&◌, Option, none,
  some, List, [], ◌∷◌, arith, is_some, Option-cases, Bool-cases,
}
use la_muni_rag.Base.Text.{Text, text_eq, text_eq_iff}
use la_muni_rag.Ingestion.Types.{JobRow, queued, processing, status_eq}
use la_muni_rag.Ingestion.Store.{
  ArtifactObject, ArtifactScan, is_valid_acceptance, joined_artifact, find_row, is_past, seconds,
}
use la_muni_rag.Ingestion.Queue.{text_lt, queue_before, is_leasable}
use la_muni_rag.Ingestion.Step.{status_eq→≡}

-- `a` is one of the list.
abbrev pub In : {A : Type 0} → A → List A → Type 0
In a [] = ⊥
In a (b ∷ l) = (a ≡ b) ⊎ In a l

find_row-In :
    {A : Type 0} (test : A → Bool) (l : List A) (a : A)
    → find_row test l ≡ some a
    → In a l × (test a ≡ true)
unfolding find_row
find_row-In test [] a h = cc h
find_row-In test (b ∷ l) a h = elim (Bool-cases (test b)) [
  | inl yes' ↦
      let same : b ≡ a = ground (arith, h, yes') in (inl (sym same), ap test (sym same) ∙ yes')
  | inr no' ↦
      let rest : find_row test l ≡ some a = ground (arith, h, no') in
      let (m, p) = find_row-In test l a rest in (inr m, p)
]

find_row-finds :
    {A : Type 0} (test : A → Bool) (l : List A) (a : A)
    → In a l
    → test a ≡ true
    → (b : A) × (find_row test l ≡ some b)
unfolding find_row
find_row-finds test [] a m p = absurd m
find_row-finds test (b ∷ l) a m p = elim (Bool-cases (test b)) [
  | inl yes' ↦ (b, rw (find_row, yes') refl)
  | inr no' ↦ elim m [
    | inl e ↦ let clash : true ≡ false = sym p ∙ ap test e ∙ no' in cc clash
    | inr later ↦ let (c, found) = find_row-finds test l a later p in (c, rw (find_row, no') found)
  ]
]

-- The scan is the one of this object, its tenant, its generation, its bytes and its media type by which
-- it is accepted, and it is clean; the acceptance is not over, and ends after the scan, at most a week
-- after it.
abbrev pub IsValid : ℕ → ArtifactObject → ArtifactScan → Type 0
IsValid now o s =
    (s.id ≡ o.accepted_scan_id)
    × (s.tenant_id ≡ o.tenant_id)
    × (s.artifact_object_id ≡ o.id)
    × (s.is_clean ≡ true)
    × (s.inspection_generation ≡ o.inspection_generation)
    × (s.content_sha256 ≡ o.expected_sha256)
    × (s.detected_media_type ≡ o.declared_media_type)
    × (o.is_accepted ≡ true)
    × (now < o.accepted_until)
    × (s.inspected_at < o.accepted_until)
    × (o.accepted_until ≤ s.inspected_at + seconds 604800)

is_valid_acceptance-IsValid :
    (now : ℕ) (o : ArtifactObject) (s : ArtifactScan)
    → is_valid_acceptance now o s ≡ true
    → IsValid now o s
unfolding is_valid_acceptance
is_valid_acceptance-IsValid now o s h =
    let id : text_eq s.id o.accepted_scan_id ≡ true = ground (arith, h) in
    let tenant : text_eq s.tenant_id o.tenant_id ≡ true = ground (arith, h) in
    let object : text_eq s.artifact_object_id o.id ≡ true = ground (arith, h) in
    let bytes : text_eq s.content_sha256 o.expected_sha256 ≡ true = ground (arith, h) in
    let media : text_eq s.detected_media_type o.declared_media_type ≡ true = ground (arith, h) in
    (
      (text_eq_iff _ _).0 id,
      (text_eq_iff _ _).0 tenant,
      (text_eq_iff _ _).0 object,
      ground (arith, h),
      ground (arith, h),
      (text_eq_iff _ _).0 bytes,
      (text_eq_iff _ _).0 media,
      ground (arith, h),
      ground (arith, h),
      ground (arith, h),
      ground (arith, h),
    )

IsValid-is_valid_acceptance :
    (now : ℕ) (o : ArtifactObject) (s : ArtifactScan)
    → IsValid now o s
    → is_valid_acceptance now o s ≡ true
unfolding is_valid_acceptance
IsValid-is_valid_acceptance now o s
      (id, tenant, object, clean, generation, bytes, media, accepted, live, after', week) =
    let id' = (text_eq_iff s.id o.accepted_scan_id).1 id in
    let tenant' = (text_eq_iff s.tenant_id o.tenant_id).1 tenant in
    let object' = (text_eq_iff s.artifact_object_id o.id).1 object in
    let bytes' = (text_eq_iff s.content_sha256 o.expected_sha256).1 bytes in
    let media' = (text_eq_iff s.detected_media_type o.declared_media_type).1 media in
    rw (is_valid_acceptance, id', tenant', object', clean, bytes', media', accepted)
      (ground (arith, generation, live, after', week))

-- The object and its scan prove the file of the job: they are of its bytes, tenant and version.
abbrev pub IsAccepted : ℕ → JobRow → ArtifactObject → ArtifactScan → Type 0
IsAccepted now j o s =
    (o.tenant_id ≡ j.tenant_id)
    × (o.document_version_id ≡ j.document_version_id)
    × (o.expected_sha256 ≡ j.artifact_sha256)
    × IsValid now o s

-- The first row of the objects that belongs to the job has an accepted scan.
pub joined_artifact-In :
    (now : ℕ) (scans : List ArtifactScan) (j : JobRow) (objects : List ArtifactObject)
    (object_id scan_id : Text)
    → joined_artifact now scans j objects ≡ some (object_id, scan_id)
    → (o : ArtifactObject) × (s : ArtifactScan) × In o objects
      × In s scans
      × IsAccepted now j o s
      × (o.id ≡ object_id)
      × (s.id ≡ scan_id)
unfolding joined_artifact
joined_artifact-In now scans j [] object_id scan_id h = cc h
joined_artifact-In now scans j (o ∷ objects) object_id scan_id h =
    let later : joined_artifact now scans j objects ≡ some (object_id, scan_id)
        → (p : ArtifactObject) × (s : ArtifactScan) × In p (o ∷ objects)
          × In s scans
          × IsAccepted now j p s
          × (p.id ≡ object_id)
          × (s.id ≡ scan_id) =
      λ e.
        let (p, s, m, n, a, b, c) = joined_artifact-In now scans j objects object_id scan_id e in
        (p, s, inr m, n, a, b, c) in
    elim (Bool-cases (
      text_eq o.tenant_id j.tenant_id
      && text_eq o.document_version_id j.document_version_id
      && text_eq o.expected_sha256 j.artifact_sha256)) [
        | inr other ↦ later (ground (arith, h, other))
        | inl of_job ↦ elim (Option-cases (find_row (is_valid_acceptance now o) scans)) [
          | inl e ↦ later (ground (arith, h, of_job, e))
          | inr (s, e) ↦
              let given : (o.id ≡ object_id) × (s.id ≡ scan_id) = ground (arith, h, of_job, e) in
              let (m, valid) = find_row-In (is_valid_acceptance now o) scans s e in
              let tenant : text_eq o.tenant_id j.tenant_id ≡ true = ground (arith, of_job) in
              let version : text_eq o.document_version_id j.document_version_id ≡ true =
                ground (arith, of_job) in
              let bytes : text_eq o.expected_sha256 j.artifact_sha256 ≡ true =
                ground (arith, of_job) in
              (
                o,
                s,
                inl refl,
                m,
                (
                  (text_eq_iff _ _).0 tenant,
                  (text_eq_iff _ _).0 version,
                  (text_eq_iff _ _).0 bytes,
                  is_valid_acceptance-IsValid now o s valid,
                ),
                given.0,
                given.1,
              )
        ]
      ]

pub joined_artifact-is_some :
    (now : ℕ) (scans : List ArtifactScan) (j : JobRow) (objects : List ArtifactObject)
    (o : ArtifactObject) (s : ArtifactScan)
    → In o objects
    → In s scans
    → IsAccepted now j o s
    → is_some (joined_artifact now scans j objects) ≡ true
unfolding joined_artifact
joined_artifact-is_some now scans j [] o s m n a = absurd m
joined_artifact-is_some now scans j (p ∷ objects) o s (inr m) n a =
    let rest = joined_artifact-is_some now scans j objects o s m n a in
    elim (Bool-cases (
      text_eq p.tenant_id j.tenant_id
      && text_eq p.document_version_id j.document_version_id
      && text_eq p.expected_sha256 j.artifact_sha256)) [
        | inr other ↦ rw (joined_artifact, other) rest
        | inl of_job ↦ elim (Option-cases (find_row (is_valid_acceptance now p) scans)) [
          | inl e ↦ rw (joined_artifact, of_job, e) rest
          | inr (t, e) ↦ rw (joined_artifact, of_job, e) refl
        ]
      ]
joined_artifact-is_some now scans j (p ∷ objects) o s (inl same) n (tenant, version, bytes, valid) =
    let tenant' =
      (text_eq_iff p.tenant_id j.tenant_id).1
        (ap (λ (q : ArtifactObject). q.tenant_id) (sym same) ∙ tenant) in
    let version' =
      (text_eq_iff p.document_version_id j.document_version_id).1
        (ap (λ (q : ArtifactObject). q.document_version_id) (sym same) ∙ version) in
    let bytes' =
      (text_eq_iff p.expected_sha256 j.artifact_sha256).1
        (ap (λ (q : ArtifactObject). q.expected_sha256) (sym same) ∙ bytes) in
    let (t, found) = find_row-finds (is_valid_acceptance now p) scans s n (
      ap (λ q. is_valid_acceptance now q s) (sym same)
      ∙ IsValid-is_valid_acceptance now o s valid) in
    rw (joined_artifact, tenant', version', bytes', found) refl

is_past-some :
    (o : Option ℕ) (now : ℕ) → is_past o now ≡ true → (at : ℕ) × (o ≡ some at) × (at ≤ now)
is_past-some none now h = cc h
is_past-some (some at) now h = (at, refl, ground (arith, h))

-- The job waits and is available, or the lease of its worker is over.
abbrev pub IsFree : ℕ → JobRow → Type 0
IsFree now j =
    ((j.status ≡ queued) × (j.available_at ≤ now))
    ⊎ ((j.status ≡ processing) × ((at : ℕ) × (j.lease_expires_at ≡ some at) × (at ≤ now)))

pub is_leasable-IsFree :
    (now : ℕ) (tenant_id : Text) (j : JobRow)
    → is_leasable now tenant_id j ≡ true
    → (j.tenant_id ≡ tenant_id) × (j.attempt_count < j.max_attempts) × IsFree now j
unfolding is_leasable
is_leasable-IsFree now tenant_id j h =
    let tenant : text_eq j.tenant_id tenant_id ≡ true = ground (arith, h) in
    let room : j.attempt_count < j.max_attempts = ground (arith, h) in
    elim (Bool-cases (status_eq j.status queued)) [
      | inl waits ↦ elim (Bool-cases (status_eq j.status processing)) [
        | inl both ↦
            let clash : queued ≡ processing = sym (status_eq→≡ _ _ waits) ∙ status_eq→≡ _ _ both in
            cc clash
        | inr only ↦
            let due : j.available_at ≤ now = ground (arith, h, waits, only) in
            ((text_eq_iff _ _).0 tenant, room, inl (status_eq→≡ _ _ waits, due))
      ]
      | inr other ↦
          let runs : status_eq j.status processing ≡ true = ground (arith, h, other) in
          let over : is_past j.lease_expires_at now ≡ true = ground (arith, h, other) in
          ((text_eq_iff _ _).0 tenant, room, inr (status_eq→≡ _ _ runs, is_past-some _ now over))
    ]

pub IsFree-is_leasable :
    (now : ℕ) (tenant_id : Text) (j : JobRow)
    → j.tenant_id ≡ tenant_id
    → j.attempt_count < j.max_attempts
    → IsFree now j
    → is_leasable now tenant_id j ≡ true
unfolding is_leasable status_eq
IsFree-is_leasable now tenant_id j tenant room (inl (waits, due)) =
    let same = (text_eq_iff j.tenant_id tenant_id).1 tenant in
    rw (is_leasable, same, waits) (ground (arith, room, due))
IsFree-is_leasable now tenant_id j tenant room (inr (runs, (at, until, over))) =
    let same = (text_eq_iff j.tenant_id tenant_id).1 tenant in
    rw (is_leasable, same, runs, until) (ground (arith, room, over))

-- `a` comes no later than `b`: by the time from which it is available, then by that of its creation,
-- then by its identifier.
abbrev pub IsNoLater : JobRow → JobRow → Type 0
IsNoLater a b =
    (a.available_at < b.available_at)
    ⊎ ((a.available_at ≡ b.available_at)
        × ((a.created_at < b.created_at)
            ⊎ ((a.created_at ≡ b.created_at) × (text_lt b.id a.id ≡ false))))

pub queue_before-IsNoLater : (a b : JobRow) → queue_before b a ≡ false → IsNoLater a b
unfolding queue_before
queue_before-IsNoLater a b h = ground (arith, h)
