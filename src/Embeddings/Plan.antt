-- ===== src/Embeddings/Plan.antt =====
-- What src/embeddings/chunkPlanner.ts plans for a document.
use mathlib.Core.Path.{subst}
use la_muni_rag.Base.{
  ℕ, suc, ◌+◌, ◌*◌, ◌≤◌, ◌≡◌, refl, ◌∙◌, ◌↔◌, ◌⊎◌, true, List, [], ◌∷◌, ◌++◌, length, ltb, All,
  All-append, length-append, is_ok, ok, Bool-cases, inl, inr, arith,
}
use la_muni_rag.Base.Text.{Text, is_empty}
use la_muni_rag.Embeddings.Normalize.{normalize_whitespace}
use la_muni_rag.Embeddings.Split.{ChunkPlannerOptions, split_long_text}
use la_muni_rag.Embeddings.Split.Bounds.{IsPiece, split_long_text-IsPiece}
use la_muni_rag.Embeddings.Types.{
  NormalizedSection, NormalizedDocument, EmbeddingChunk, PlanChunksInput,
}
use la_muni_rag.Embeddings.Planner.{
  Planned, returned, running, build_chunk_identity_input, build_chunk_id, plan_chunk, plan_texts,
  plan_sections, plan_chunks, assert_planner_options,
}

-- The chunks are numbered from `n` on.
abbrev pub IsNumbered : ℕ → List EmbeddingChunk → Type 0
IsNumbered n [] = Unit
IsNumbered n (c ∷ cs) = (c.chunk_ordinal ≡ n) × IsNumbered (suc n) cs

IsNumbered-snoc :
    (n : ℕ) (cs : List EmbeddingChunk) (c : EmbeddingChunk)
    → IsNumbered n cs
    → c.chunk_ordinal ≡ n + length cs
    → IsNumbered n (cs ++ c ∷ [])
IsNumbered-snoc n [] c h e = (omega (arith, e), tt)
IsNumbered-snoc n (d ∷ cs) c (p, h) e = (p, IsNumbered-snoc (suc n) cs c h (omega (arith, e)))

module _ (sha256 : Text → Text) (options : ChunkPlannerOptions) (max_chunks : ℕ) where
  -- A chunk has a text of the right size, and its digest and identifier are computed from it.
  abbrev pub IsGood : EmbeddingChunk → Type 0
  IsGood c =
      IsPiece options c.text
      × (c.content_sha256 ≡ sha256 c.text)
      × (c.chunk_id ≡ sha256 (build_chunk_identity_input c.source c.content_sha256 c.chunk_ordinal))

  pub record IsPlan (chunks : List EmbeddingChunk) : Type 0 where
    pub numbered : IsNumbered 1 chunks
    pub limited : length chunks ≤ suc max_chunks
    pub good : All IsGood chunks

  -- The invariant of the loops.
  record IsRunning (chunks : List EmbeddingChunk) (ordinal : ℕ) : Type 0 where
    next : ordinal ≡ suc (length chunks)
    numbered : IsNumbered 1 chunks
    limited : length chunks ≤ max_chunks
    good : All IsGood chunks

  abbrev Holds : Planned → Type 0
  Holds (returned chunks) = IsPlan chunks
  Holds (running chunks ordinal) = IsRunning chunks ordinal

  IsRunning→IsPlan :
      (chunks : List EmbeddingChunk) (ordinal : ℕ) → IsRunning chunks ordinal → IsPlan chunks
  IsRunning→IsPlan chunks ordinal h = record {
    numbered = h.numbered;
    limited = omega (arith, h.limited);
    good = h.good;
  }

  module _ (document : NormalizedDocument) (input : PlanChunksInput) where
    plan_chunk-IsGood :
        (section : NormalizedSection) (ordinal : ℕ) (text : Text)
        → IsPiece options text
        → IsGood (plan_chunk sha256 document input section ordinal text)
    unfolding plan_chunk build_chunk_id
    plan_chunk-IsGood section ordinal text h = (h, refl, refl)

    ordinal-plan_chunk :
        (section : NormalizedSection) (ordinal : ℕ) (text : Text)
        → (plan_chunk sha256 document input section ordinal text).chunk_ordinal ≡ ordinal
    unfolding plan_chunk
    ordinal-plan_chunk section ordinal text = refl

    plan_texts-Holds :
        (section : NormalizedSection) (chunks : List EmbeddingChunk) (ordinal : ℕ)
        (texts : List Text)
        → All (IsPiece options) texts
        → IsRunning chunks ordinal
        → Holds (plan_texts sha256 document input max_chunks section chunks ordinal texts)
    unfolding plan_texts
    plan_texts-Holds section chunks ordinal [] ps h = h
    plan_texts-Holds section chunks ordinal (text ∷ texts) (p, ps) h =
        let c = plan_chunk sha256 document input section ordinal text in
        let more = chunks ++ c ∷ [] in
        let size = length-append chunks (c ∷ []) in
        let numbered =
          IsNumbered-snoc 1 chunks c h.numbered
            (ordinal-plan_chunk section ordinal text ∙ omega (arith, h.next)) in
        let good =
          All-append IsGood chunks (c ∷ []) h.good (plan_chunk-IsGood section ordinal text p, tt) in
        elim (Bool-cases (ltb max_chunks (length more))) [
          | inl full ↦
              rw (full, plan_texts)
                record {
                  numbered = numbered;
                  limited = omega (arith, size, h.limited);
                  good = good;
                }
          | inr room ↦
              rw (room, plan_texts)
                (plan_texts-Holds section more (suc ordinal) texts ps record {
                  next = omega (arith, size, h.next);
                  numbered = numbered;
                  limited = ground arith;
                  good = good;
                })
        ]

    Planned-cases :
        (m : Planned)
        → ((cs : List EmbeddingChunk) × (m ≡ returned cs))
          ⊎ ((cs : List EmbeddingChunk) × (n : ℕ) × (m ≡ running cs n))
    Planned-cases (returned cs) = inl (cs, refl)
    Planned-cases (running cs n) = inr (cs, n, refl)

    plan_sections-IsPlan :
        (chunks : List EmbeddingChunk) (ordinal : ℕ) (sections : List NormalizedSection)
        → IsRunning chunks ordinal
        → IsPlan (plan_sections sha256 document input options max_chunks chunks ordinal sections)
    unfolding plan_sections
    plan_sections-IsPlan chunks ordinal [] h = IsRunning→IsPlan chunks ordinal h
    plan_sections-IsPlan chunks ordinal (section ∷ sections) h =
        let text = normalize_whitespace section.text in
        let pieces = split_long_text options text in
        elim (Bool-cases (is_empty text)) [
          | inl blank ↦ rw (blank, plan_sections) (plan_sections-IsPlan chunks ordinal sections h)
          | inr full ↦
              let holds =
                plan_texts-Holds section chunks ordinal pieces
                  (split_long_text-IsPiece options text full) h in
              elim (Planned-cases
                (plan_texts sha256 document input max_chunks section chunks ordinal pieces)) [
                  | inl (cs, stop) ↦ rw (full, stop, plan_sections) (subst Holds stop holds)
                  | inr (cs, n, go) ↦
                      rw (full, go, plan_sections)
                        (plan_sections-IsPlan cs n sections (subst Holds go holds))
                ]
        ]

    -- Planning succeeds exactly for `maxChars` from 32 to 1000000, an overlap of at most half of it
    -- and a limit from 1 to the largest safe integer.
    pub plan_chunks-is_ok :
        (is_ok (plan_chunks sha256 document input options max_chunks) ≡ true) ↔ (
          (32 ≤ options.max_chars)
          × (options.max_chars ≤ 1000000)
          × (2 * options.overlap_chars ≤ options.max_chars)
          × (1 ≤ max_chunks)
          × (max_chunks ≤ 9007199254740991))
    unfolding plan_chunks assert_planner_options
    plan_chunks-is_ok = ground arith

    plan_chunks-sections :
        (chunks : List EmbeddingChunk)
        → plan_chunks sha256 document input options max_chunks ≡ ok chunks
        → plan_sections sha256 document input options max_chunks [] 1 document.sections ≡ chunks
    unfolding plan_chunks assert_planner_options
    plan_chunks-sections chunks h = ground arith

    -- If the planner succeeds, a plan has at most one chunk more than the limit, its chunks are
    -- numbered from one on, none is empty or longer than `maxChars`, and the digest and the
    -- identifier of each are those of its text and its source.
    pub plan_chunks-IsPlan :
        (chunks : List EmbeddingChunk)
        → plan_chunks sha256 document input options max_chunks ≡ ok chunks
        → IsPlan chunks
    plan_chunks-IsPlan chunks h = subst IsPlan (plan_chunks-sections chunks h) (
        plan_sections-IsPlan [] 1 document.sections
          record { next = refl; numbered = tt; limited = omega arith; good = tt })
