-- ===== src/Retrieval/Dedupe/Keys.antt =====
-- The key of src/retrieval/dedupe.ts: merging two candidates of one key gives a candidate of that
-- key.
use Prim.Native.Nat.{zero, suc}
use la_muni_rag.Base.{
  ℕ, ◌≤◌, ◌≡◌, refl, sym, ap, ◌∙◌, ◌⊎◌, inl, inr, false, Option, none, some, [], ◌∷◌, ◌++◌, length,
  length-append, take, get_or, or_else, arith, leb, if◌then◌else◌, Bool-cases,
}
use la_muni_rag.Base.Text.{Text, codes, trim}
use la_muni_rag.Retrieval.Types.{Floats, HybridCandidate}
use la_muni_rag.Retrieval.Dedupe.{
  truthy, collapse_from, hash_excerpt, dedupe_key_for_candidate, merge_hybrid_candidates,
}

-- Two texts with tails of one length have equal tails if they are equal.
tail_eq : (a b h k : Text) → length h ≡ length k → a ++ h ≡ b ++ k → h ≡ k
tail_eq [] [] h k n e = e
tail_eq [] (c ∷ b) h k n e = absurd (omega (arith, ap length e, length-append b k))
tail_eq (c ∷ a) [] h k n e = absurd (omega (arith, ap length e, length-append a h))
tail_eq (c ∷ a) (d ∷ b) h k n e = tail_eq a b h k n (cc)

-- The key as a function of what it reads.
abbrev key_of : Option Text → Option Text → Text → Text → Text
key_of chunk section label hash =
    if truthy chunk
    then codes "chunk:" ++ get_or chunk []
    else if truthy section
    then codes "section:" ++ get_or section []
    else codes "citation:" ++ label ++ codes ":" ++ hash

-- The first and the second code unit, by which the three kinds of key differ.
abbrev first : Text → ℕ
first [] = 0
first (c ∷ t) = c

abbrev second : Text → ℕ
second [] = 0
second (c ∷ t) = first t

citation_hash :
    (l l' h h' : Text)
    → length h ≡ length h'
    → codes "citation:" ++ l ++ codes ":" ++ h ≡ codes "citation:" ++ l' ++ codes ":" ++ h'
    → h ≡ h'
citation_hash l l' h h' n e =
    tail_eq (codes "citation:" ++ l ++ codes ":") (codes "citation:" ++ l' ++ codes ":") h h' n e

module _ (l l' h h' m : Text) (lengths : length h ≡ length h') (chosen : (m ≡ h) ⊎ (m ≡ h')) where
  same_hash :
      codes "citation:" ++ l ++ codes ":" ++ h ≡ codes "citation:" ++ l' ++ codes ":" ++ h' → m ≡ h
  same_hash e = elim chosen [ inl p ↦ p | inr p ↦ p ∙ sym (citation_hash l l' h h' lengths e) ]

  key_of-section :
      (k' s s' : Option Text)
      → key_of none s l h ≡ key_of k' s' l' h'
      → key_of k' (or_else s s') l m ≡ key_of none s l h
  key_of-section (some (c ∷ t)) none s' e = absurd (omega (arith, ap second e))
  key_of-section (some (c ∷ t)) (some []) s' e = absurd (omega (arith, ap second e))
  key_of-section (some (c ∷ t)) (some (d ∷ u)) s' e = absurd (omega (arith, ap first e))
  key_of-section none (some (d ∷ u)) s' e = refl
  key_of-section (some []) (some (d ∷ u)) s' e = refl
  key_of-section none (some []) (some (d ∷ u)) e = absurd (omega (arith, ap first e))
  key_of-section (some []) (some []) (some (d ∷ u)) e = absurd (omega (arith, ap first e))
  key_of-section none (some []) none e = rw (same_hash e)
  key_of-section (some []) (some []) none e = rw (same_hash e)
  key_of-section none (some []) (some []) e = rw (same_hash e)
  key_of-section (some []) (some []) (some []) e = rw (same_hash e)
  key_of-section none none (some (d ∷ u)) e = absurd (omega (arith, ap first e))
  key_of-section (some []) none (some (d ∷ u)) e = absurd (omega (arith, ap first e))
  key_of-section none none none e = rw (same_hash e)
  key_of-section (some []) none none e = rw (same_hash e)
  key_of-section none none (some []) e = rw (same_hash e)
  key_of-section (some []) none (some []) e = rw (same_hash e)

  key_of-merge :
      (k k' s s' : Option Text)
      → key_of k s l h ≡ key_of k' s' l' h'
      → key_of (or_else k k') (or_else s s') l m ≡ key_of k s l h
  key_of-merge (some (c ∷ t)) k' s s' e = refl
  key_of-merge (some []) none s s' e = key_of-section none s s' e
  key_of-merge (some []) (some []) s s' e = key_of-section (some []) s s' e
  key_of-merge (some []) (some (c ∷ t)) none s' e = absurd (omega (arith, ap second e))
  key_of-merge (some []) (some (c ∷ t)) (some []) s' e = absurd (omega (arith, ap second e))
  key_of-merge (some []) (some (c ∷ t)) (some (d ∷ u)) s' e = absurd (omega (arith, ap first e))
  key_of-merge none k' s s' e = key_of-section k' s s' e

length-take_of_le : (n : ℕ) (t : Text) → n ≤ length t → length (take n t) ≡ n
length-take_of_le zero t h = refl
length-take_of_le (suc n) [] h = absurd (omega arith)
length-take_of_le (suc n) (c ∷ t) h = ap suc (length-take_of_le n t (omega arith))

chosen_excerpt :
    {N : Type 0} (f : Text → Text) (c d : HybridCandidate N)
    → (f (if leb (length d.excerpt) (length c.excerpt) then c.excerpt else d.excerpt) ≡ f c.excerpt)
      ⊎ (f (if leb (length d.excerpt) (length c.excerpt) then c.excerpt else d.excerpt)
          ≡ f d.excerpt)
chosen_excerpt f c d = elim (Bool-cases (leb (length d.excerpt) (length c.excerpt))) [
  | inl longer ↦ inl (rw longer)
  | inr shorter ↦ inr (rw shorter)
]

module _ (F : Floats) (sha256 : Text → Text) (digest : (t : Text) → length (sha256 t) ≡ 64) where
  length-hash_excerpt : (t : Text) → length (hash_excerpt sha256 t) ≡ 16
  unfolding hash_excerpt
  length-hash_excerpt t =
      length-take_of_le 16 (sha256 (trim (collapse_from false t)))
        (omega (arith, digest (trim (collapse_from false t))))

  -- If the digest is 64 digits long, merging two candidates of one key gives a candidate of that key.
  pub merge_hybrid_candidates-key :
      (c d : HybridCandidate F.Num)
      → dedupe_key_for_candidate sha256 c ≡ dedupe_key_for_candidate sha256 d
      → dedupe_key_for_candidate sha256 (merge_hybrid_candidates F c d)
        ≡ dedupe_key_for_candidate sha256 c
  unfolding dedupe_key_for_candidate merge_hybrid_candidates
  merge_hybrid_candidates-key c d e =
      key_of-merge c.citation_label d.citation_label (hash_excerpt sha256 c.excerpt)
        (hash_excerpt sha256 d.excerpt)
        (hash_excerpt sha256
          (if leb (length d.excerpt) (length c.excerpt) then c.excerpt else d.excerpt))
        (length-hash_excerpt c.excerpt ∙ sym (length-hash_excerpt d.excerpt))
        (chosen_excerpt (hash_excerpt sha256) c d) c.chunk_id d.chunk_id c.section_id d.section_id e
