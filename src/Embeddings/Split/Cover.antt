-- ===== src/Embeddings/Split/Cover.antt =====
-- The windows over a long paragraph in src/embeddings/chunkPlanner.ts leave no gap.
use la_muni_rag.Base.{
  ℕ, zero, suc, ◌+◌, ◌≤◌, ◌<◌, ◌≡◌, ◌&&◌, Bool, true, any, ltb, leb, arith, Bool-cases, inl, inr,
}
use la_muni_rag.Embeddings.Split.{ChunkPlannerOptions, window_step, window_starts}

module _ (options : ChunkPlannerOptions) where
  -- Position `i` lies in the window that starts at `start`.
  abbrev pub in_window : ℕ → ℕ → Bool
  in_window i start = leb start i && ltb i (start + options.max_chars)

  step_bounds :
      1 ≤ options.max_chars → (1 ≤ window_step options) × (window_step options ≤ options.max_chars)
  unfolding window_step
  step_bounds h = ground arith

  window_starts_from :
      1 ≤ options.max_chars
      → (size fuel start i : ℕ) → size ≤ start + fuel
      → start ≤ i
      → i < size
      → any (in_window i) (window_starts options size fuel start) ≡ true
  unfolding window_starts
  window_starts_from h size zero start i enough from below = absurd (omega arith)
  window_starts_from h size (suc fuel) start i enough from below =
      elim (Bool-cases (ltb i (start + options.max_chars))) [
        | inl inside ↦ ground arith
        | inr beyond ↦
            let bounds = step_bounds h in
            let rest =
              window_starts_from h size fuel (start + window_step options) i
                (omega (arith, bounds.0)) (ground (arith, bounds.1)) below in
            ground (arith, rest)
      ]

  -- If `maxChars` is at least one, every position of a paragraph lies in a window of the loop, whatever
  -- the overlap.
  pub window_starts-in_window :
      1 ≤ options.max_chars
      → (size i : ℕ) → i < size
      → any (in_window i) (window_starts options size size 0) ≡ true
  window_starts-in_window h size i below =
      window_starts_from h size size 0 i (omega arith) (omega arith) below
