-- ===== src/Embeddings/Indexer/Batches.antt =====
-- The batches of src/embeddings/indexer.ts give one vector of the right size for each chunk.
use mathlib.Core.Path.{subst}
use la_muni_rag.Base.{
  ℕ, ap, ◌∙◌, zero, suc, ◌+◌, ◌-◌, min, ◌≤◌, ◌≡◌, refl, List, [], ◌∷◌, ◌++◌, map, length, take,
  drop, ltb, All, All-append, length-append, length-map, ok, Result-cases, Bool-cases, inl, inr,
  arith,
}
use la_muni_rag.Base.Text.{Text}
use la_muni_rag.Embeddings.Types.{EmbeddingChunk, EmbeddingProvider}
use la_muni_rag.Embeddings.Validation.{
  validate_dimensions_from, validate_vector_dimensions, validate_vector_count,
}
use la_muni_rag.Embeddings.Indexer.{embed_batch, embed_batches}

length-take {ℓ} : {A : Type ℓ} (n : ℕ) (xs : List A) → length (take n xs) ≡ min n (length xs)
length-take zero xs = ground arith
length-take (suc n) [] = ground arith
length-take (suc n) (x ∷ xs) = ground (arith, length-take n xs)

length-drop {ℓ} : {A : Type ℓ} (n : ℕ) (xs : List A) → length (drop n xs) ≡ length xs - n
length-drop zero xs = ground arith
length-drop (suc n) [] = ground arith
length-drop (suc n) (x ∷ xs) = ground (arith, length-drop n xs)

append_empty {ℓ} : {A : Type ℓ} (xs : List A) → xs ++ [] ≡ xs
append_empty [] = refl
append_empty (x ∷ xs) = ap (λ ys. x ∷ ys) (append_empty xs)

append_assoc {ℓ} : {A : Type ℓ} (xs ys zs : List A) → (xs ++ ys) ++ zs ≡ xs ++ (ys ++ zs)
append_assoc [] ys zs = refl
append_assoc (x ∷ xs) ys zs = ap (λ ws. x ∷ ws) (append_assoc xs ys zs)

drop-all {ℓ} : {A : Type ℓ} (n : ℕ) (xs : List A) → length xs ≤ n → drop n xs ≡ []
drop-all zero [] h = refl
drop-all zero (x ∷ xs) h = absurd (omega arith)
drop-all (suc n) [] h = refl
drop-all (suc n) (x ∷ xs) h = drop-all n xs (omega arith)

map-whole {ℓ} :
    {A B : Type ℓ} (f : A → B) (size : ℕ) (xs : List A)
    → map f (take size xs) ++ map f (drop size xs) ≡ map f xs
map-whole f zero xs = refl
map-whole f (suc size) [] = refl
map-whole f (suc size) (x ∷ xs) = ap (λ ys. f x ∷ ys) (map-whole f size xs)

-- The first `size` elements from `start` on, and those after them, mapped.
map-take-drop {ℓ} :
    {A B : Type ℓ} (f : A → B) (size start : ℕ) (xs : List A)
    → map f (take size (drop start xs)) ++ map f (drop (start + size) xs) ≡ map f (drop start xs)
map-take-drop f size zero xs =
    let from_zero : 0 + size ≡ size = omega arith in rw from_zero (map-whole f size xs)
map-take-drop f zero (suc start) [] =
    let next' : suc start + 0 ≡ suc start = omega arith in rw next' refl
map-take-drop f (suc size) (suc start) [] =
    let next' : suc start + suc size ≡ suc (start + suc size) = omega arith in rw next' refl
map-take-drop f size (suc start) (x ∷ xs) =
    let next' : suc start + size ≡ suc (start + size) = omega arith in
    rw next' (map-take-drop f size start xs)

module _ {Vector : Type 0} where
  -- Every vector has the size given.
  abbrev pub HaveSize : ℕ → List (List Vector) → Type 0
  HaveSize size = All (λ (v : List Vector). length v ≡ size)

  validate_dimensions_from-ok :
      (index : ℕ) (vectors : List (List Vector)) (size : ℕ)
      → validate_dimensions_from index vectors size ≡ ok tt
      → HaveSize size vectors
  unfolding validate_dimensions_from
  validate_dimensions_from-ok index [] size h = tt
  validate_dimensions_from-ok index (v ∷ vs) size h =
      ground (arith, validate_dimensions_from-ok (suc index) vs size)

  HaveSize-ok :
      (index : ℕ) (vectors : List (List Vector)) (size : ℕ)
      → HaveSize size vectors
      → validate_dimensions_from index vectors size ≡ ok tt
  unfolding validate_dimensions_from
  HaveSize-ok index [] size h = refl
  HaveSize-ok index (v ∷ vs) size (p, h) = ground (arith, HaveSize-ok (suc index) vs size h)

  module _ (provider : EmbeddingProvider Vector) where
    embed_batch-ok :
        (n : ℕ) (batch : List EmbeddingChunk) (vectors : List (List Vector))
        → embed_batch provider n batch ≡ ok vectors
        → (length vectors ≡ length batch) × HaveSize provider.dimensions vectors
    unfolding embed_batch validate_vector_count validate_vector_dimensions
    embed_batch-ok n batch vectors h =
        elim (Result-cases (provider.embed n (map (λ (c : EmbeddingChunk). c.text) batch))) [
          | inr (e, thrown) ↦ absurd (ground arith)
          | inl (vs, given) ↦
              elim (Result-cases (validate_dimensions_from 0 vs provider.dimensions)) [
                | inr (e, thrown) ↦ absurd (ground arith)
                | inl (u, sized) ↦
                    let all = validate_dimensions_from-ok 0 vs provider.dimensions sized in
                    let same : vs ≡ vectors = ground arith in
                    let count : length vs ≡ length batch = ground arith in
                    subst (λ v. (length v ≡ length batch) × HaveSize provider.dimensions v) same
                      (count, all)
              ]
        ]

    -- What the loop has when it is at `start`.
    abbrev pub IsDone : List EmbeddingChunk → ℕ → List (List Vector) → Type 0
    IsDone chunks start vectors =
        (length vectors ≡ min start (length chunks)) × HaveSize provider.dimensions vectors

    IsDone-append :
        (chunks : List EmbeddingChunk) (size start : ℕ) (vectors more : List (List Vector))
        → IsDone chunks start vectors
        → (length more ≡ length (take size (drop start chunks))) × HaveSize provider.dimensions more
        → IsDone chunks (start + size) (vectors ++ more)
    IsDone-append chunks size start vectors more (n, h) (m, k) = (
      ground (
        arith,
        length-append vectors more,
        length-take size (drop start chunks),
        length-drop start chunks,
      ),
      All-append _ vectors more h k,
    )

    all_done :
        (chunks : List EmbeddingChunk) (start : ℕ) (vectors result : List (List Vector))
        → length chunks ≤ start
        → IsDone chunks start vectors
        → vectors ≡ result
        → (length result ≡ length chunks) × HaveSize provider.dimensions result
    all_done chunks start vectors result past (n, h) same =
        subst (λ v. (length v ≡ length chunks) × HaveSize provider.dimensions v) same
          (ground (arith, n), h)

    -- The loop that succeeds gives as many vectors as there are chunks.
    pub embed_batches-ok :
        (chunks : List EmbeddingChunk) (size fuel n start : ℕ) (vectors result : List (List Vector))
        → 1 ≤ size
        → length chunks ≤ start + fuel
        → IsDone chunks start vectors
        → embed_batches provider chunks size fuel n start vectors ≡ ok result
        → (length result ≡ length chunks) × HaveSize provider.dimensions result
    unfolding embed_batches
    embed_batches-ok chunks size zero n start vectors result positive enough done h =
        all_done chunks start vectors result (omega (arith, enough)) done (ground arith)
    embed_batches-ok chunks size (suc fuel) n start vectors result positive enough done h =
        elim (Bool-cases (ltb start (length chunks))) [
          | inr past ↦ all_done chunks start vectors result (ground arith) done (ground arith)
          | inl more ↦
              elim (Result-cases (embed_batch provider n (take size (drop start chunks)))) [
                | inr (e, thrown) ↦ absurd (ground arith)
                | inl (vs, given) ↦
                    embed_batches-ok chunks size fuel (suc n) (start + size) (vectors ++ vs) result
                      positive (omega (arith, enough, positive))
                      (IsDone-append chunks size start vectors vs done
                        (embed_batch-ok n _ vs given))
                      (ground arith)
              ]
        ]

    -- A provider that gives for each text the vector `f` of it, which has the provider's size.
    abbrev pub IsTextwise : (Text → List Vector) → Type 0
    IsTextwise f =
        ((n : ℕ) (texts : List Text) → provider.embed n texts ≡ ok (map f texts))
        × ((t : Text) → length (f t) ≡ provider.dimensions)

    module _ (f : Text → List Vector) (textwise : IsTextwise f) where
      abbrev pub vectors_of : List EmbeddingChunk → List (List Vector)
      vectors_of chunks = map (λ (c : EmbeddingChunk). f c.text) chunks

      HaveSize-vectors : (texts : List Text) → HaveSize provider.dimensions (map f texts)
      HaveSize-vectors [] = tt
      HaveSize-vectors (t ∷ texts) = (textwise.1 t, HaveSize-vectors texts)

      map-texts :
          (chunks : List EmbeddingChunk)
          → map f (map (λ (c : EmbeddingChunk). c.text) chunks) ≡ vectors_of chunks
      map-texts [] = refl
      map-texts (c ∷ chunks) = ap (λ vs. f c.text ∷ vs) (map-texts chunks)

      embed_batch-textwise :
          (n : ℕ) (batch : List EmbeddingChunk)
          → embed_batch provider n batch ≡ ok (vectors_of batch)
      unfolding embed_batch validate_vector_count validate_vector_dimensions
      embed_batch-textwise n batch =
          let texts = map (λ (c : EmbeddingChunk). c.text) batch in
          let given = textwise.0 n texts in
          let same = map-texts batch in
          let sized = HaveSize-ok 0 (map f texts) provider.dimensions (HaveSize-vectors texts) in
          let count : length (map f texts) ≡ length batch =
            length-map texts f ∙ length-map batch (λ (c : EmbeddingChunk). c.text) in
          ground (arith, given, count, sized, same)

      -- With such a provider the loop adds the vectors of the chunks that are left.
      pub embed_batches-textwise :
          (chunks : List EmbeddingChunk) (size fuel n start : ℕ) (vectors : List (List Vector))
          → 1 ≤ size
          → length chunks ≤ start + fuel
          → embed_batches provider chunks size fuel n start vectors
            ≡ ok (vectors ++ vectors_of (drop start chunks))
      unfolding embed_batches
      embed_batches-textwise chunks size zero n start vectors positive enough =
          rw (drop-all start chunks (omega (arith, enough)), append_empty vectors) refl
      embed_batches-textwise chunks size (suc fuel) n start vectors positive enough =
          elim (Bool-cases (ltb start (length chunks))) [
            | inr past ↦
                rw
                  (
                    past,
                    embed_batches,
                    drop-all start chunks (ground (arith, past)),
                    append_empty vectors,
                  )
                  refl
            | inl more ↦
                let batch = take size (drop start chunks) in
                let rest =
                  embed_batches-textwise chunks size fuel (suc n) (start + size)
                    (vectors ++ vectors_of batch) positive (omega (arith, enough, positive)) in
                rw (more, embed_batches, embed_batch-textwise n batch)
                  (rest
                    ∙ ap ok (
                        append_assoc vectors _ _
                        ∙ ap (λ vs. vectors ++ vs)
                            (map-take-drop (λ (c : EmbeddingChunk). f c.text) size start chunks)))
          ]
