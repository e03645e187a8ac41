-- ===== src/Embeddings/Split/Bounds.antt =====
-- The pieces into which src/embeddings/chunkPlanner.ts cuts a text are neither empty nor too
-- long.
use mathlib.Core.List.{reverse, reverse-cons}
use la_muni_rag.Base.{
  ℕ, ◌≤◌, ◌≡◌, refl, ap, ◌∙◌, false, List, [], ◌∷◌, ◌++◌, length, take, drop, leb, All, All-append,
  length-take-le, length-append, if◌then◌else◌, arith, Bool-cases, inl, inr,
}
use la_muni_rag.Base.Text.{Text, is_empty, trim_start, trim}
use la_muni_rag.Embeddings.Split.{
  ChunkPlannerOptions, yield_if, windows_at, windows, split_from, split_long_text, newlines,
}

length-reverse : (s : Text) → length (reverse s) ≡ length s
length-reverse [] = refl
length-reverse (c ∷ s) =
    ap length (reverse-cons c s)
    ∙ length-append (reverse s) (c ∷ [])
    ∙ omega (arith, length-reverse s)

length-trim_start : (s : Text) → length (trim_start s) ≤ length s
unfolding trim_start
length-trim_start [] = omega arith
length-trim_start (c ∷ s) = ground (arith, length-trim_start s)

length-trim : (s : Text) → length (trim s) ≤ length s
unfolding trim
length-trim s = omega (
  arith,
  length-reverse (trim_start (reverse (trim_start s))),
  length-trim_start (reverse (trim_start s)),
  length-reverse (trim_start s),
  length-trim_start s,
)

module _ (options : ChunkPlannerOptions) where
  -- A piece that may become a chunk.
  abbrev pub IsPiece : Text → Type 0
  IsPiece t = (is_empty t ≡ false) × (length t ≤ options.max_chars)

  All-yield_if :
      (t : Text) (rest : List Text)
      → length t ≤ options.max_chars
      → All IsPiece rest
      → All IsPiece (yield_if t rest)
  All-yield_if [] rest h hs = hs
  All-yield_if (c ∷ t) rest h hs = ((refl, h), hs)

  All-windows_at :
      (paragraph : Text) (starts : List ℕ) → All IsPiece (windows_at options paragraph starts)
  unfolding windows_at
  All-windows_at paragraph [] = tt
  All-windows_at paragraph (start ∷ starts) =
      let window = take options.max_chars (drop start paragraph) in
      All-yield_if (trim window) (windows_at options paragraph starts)
        (omega (arith, length-trim window, length-take-le options.max_chars (drop start paragraph)))
        (All-windows_at paragraph starts)

  All-windows : (paragraph : Text) → All IsPiece (windows options paragraph)
  unfolding windows
  All-windows paragraph = All-windows_at paragraph _

  All-split_from :
      (current : Text) (ps : List Text)
      → length current ≤ options.max_chars
      → All IsPiece (split_from options current ps)
  unfolding split_from
  All-split_from current [] h = All-yield_if current [] h tt
  All-split_from current (p ∷ ps) h =
      let candidate = if is_empty current then p else current ++ newlines 2 p in
      elim (Bool-cases (leb (length candidate) options.max_chars)) [
        | inl fits ↦ rw (fits, split_from) (All-split_from candidate ps (ground arith))
        | inr wide ↦ elim (Bool-cases (leb (length p) options.max_chars)) [
          | inl short ↦
              rw (wide, short, split_from)
                (All-yield_if current _ h (All-split_from p ps (ground arith)))
          | inr long ↦
              rw (wide, long, split_from)
                (All-yield_if current _ h (
                  All-append IsPiece (windows options p) _ (All-windows p)
                    (All-split_from [] ps (omega arith))))
        ]
      ]

  -- A text that is not empty is cut into pieces that are not empty, and none is longer than
  -- `maxChars`.
  pub split_long_text-IsPiece :
      (text : Text) → is_empty text ≡ false → All IsPiece (split_long_text options text)
  unfolding split_long_text
  split_long_text-IsPiece text h = elim (Bool-cases (leb (length text) options.max_chars)) [
    | inl short ↦ rw (short, split_long_text) ((h, ground arith), tt)
    | inr long ↦ rw (long, split_long_text) (All-split_from [] _ (omega arith))
  ]
