-- ===== src/Embeddings/Split.antt =====
-- src/embeddings/chunkPlanner.ts: `splitLongText`, whose generator is the list of what it yields.
pub mod Bounds
pub mod Cover
use mathlib.Core.List.{reverse}
use la_muni_rag.Base.{
  ℕ, zero, suc, ◌+◌, ◌-◌, Bool, true, false, not, List, [], ◌∷◌, ◌++◌, map, keep, length, take,
  drop, ltb, leb, ◌==◌, if◌then◌else◌,
}
use la_muni_rag.Base.Text.{Text, is_empty, trim}

pub record ChunkPlannerOptions : Type 0 where
  pub max_chars : ℕ
  pub overlap_chars : ℕ

abbrev newline : ℕ
newline = 10

-- `n` line feeds in front of a text.
unfoldable pub newlines : ℕ → Text → Text
newlines zero s = s
newlines (suc n) s = newline ∷ newlines n s

-- `text.split(/\n{2,}/)`: `n` line feeds and, before them, the reversed `current` part were read.
unfoldable pub split_paragraphs : ℕ → Text → Text → List Text
split_paragraphs n current [] =
    if leb 2 n then reverse current ∷ [] ∷ [] else reverse (newlines n current) ∷ []
split_paragraphs n current (c ∷ s) = elim (c == newline) [
  | true ↦ split_paragraphs (suc n) current s
  | false ↦ elim (leb 2 n) [
    | true ↦ reverse current ∷ split_paragraphs 0 (c ∷ []) s
    | false ↦ split_paragraphs 0 (c ∷ newlines n current) s
  ]
]

-- `if (piece) yield piece` before what follows.
abbrev pub yield_if : Text → List Text → List Text
yield_if [] rest = rest
yield_if (c ∷ piece) rest = (c ∷ piece) ∷ rest

-- `Math.max(1, maxChars - overlapChars)`.
unfoldable pub window_step : ChunkPlannerOptions → ℕ
window_step options =
    let step = options.max_chars - options.overlap_chars in if ltb step 1 then 1 else step

-- The values of `start` in the loop over a long paragraph of the given size. The step is at least
-- one, so the size is fuel enough.
unfoldable pub window_starts : ChunkPlannerOptions → ℕ → ℕ → ℕ → List ℕ
window_starts options size zero start = []
window_starts options size (suc fuel) start =
    let rest = window_starts options size fuel (start + window_step options) in
    if ltb start size then start ∷ rest else []

-- The body of that loop.
unfoldable pub windows_at : ChunkPlannerOptions → Text → List ℕ → List Text
windows_at options paragraph [] = []
windows_at options paragraph (start ∷ starts) =
    yield_if (trim (take options.max_chars (drop start paragraph)))
      (windows_at options paragraph starts)

unfoldable pub windows : ChunkPlannerOptions → Text → List Text
windows options paragraph =
    windows_at options paragraph (window_starts options (length paragraph) (length paragraph) 0)

-- The loop over the paragraphs.
unfoldable pub split_from : ChunkPlannerOptions → Text → List Text → List Text
split_from options current [] = yield_if current []
split_from options current (p ∷ ps) =
    let candidate = if is_empty current then p else current ++ newlines 2 p in
    elim (leb (length candidate) options.max_chars) [
      | true ↦ split_from options candidate ps
      | false ↦ yield_if current (elim (leb (length p) options.max_chars) [
        | true ↦ split_from options p ps
        | false ↦ windows options p ++ split_from options [] ps
      ])
    ]

unfoldable pub split_long_text : ChunkPlannerOptions → Text → List Text
split_long_text options text =
    if leb (length text) options.max_chars
    then text ∷ []
    else split_from options []
        (keep (λ p. not (is_empty p)) (map trim (split_paragraphs 0 [] text)))
