-- ===== src/Evidence/Marks.antt =====
-- How src/evidence.ts takes the marks of the highlighted words away.
use mathlib.Core.List.{append-nil}
use la_muni_rag.Base.{◌≡◌, refl, sym, ap, ◌∙◌, false, [], ◌∷◌, ◌++◌, All, arith, ◌==◌}
use la_muni_rag.Base.Text.{Text, codes}
use la_muni_rag.Evidence.Convert.{has_prefix, remove_all, strip_headline_tags}

-- No unit of the text is `<`.
abbrev pub IsPlain : Text → Type 0
IsPlain = All (λ c. (c == 60) ≡ false)

remove_all-plain :
    (p s t : Text) → IsPlain s → remove_all (60 ∷ p) 0 (s ++ t) ≡ s ++ remove_all (60 ∷ p) 0 t
unfolding remove_all has_prefix
remove_all-plain p [] t h = refl
remove_all-plain p (c ∷ s) t (q, h) =
    let other : (60 == c) ≡ false = ground arith in
    rw (other, remove_all, has_prefix) (ap (λ u. c ∷ u) (remove_all-plain p s t h))

remove_all-all_plain : (p s : Text) → IsPlain s → remove_all (60 ∷ p) 0 s ≡ s
unfolding remove_all
remove_all-all_plain p s h =
    ap (remove_all (60 ∷ p) 0) (sym (append-nil s)) ∙ remove_all-plain p s [] h ∙ append-nil s

-- The closing mark is no opening one.
open-close :
    (after : Text)
    → remove_all (codes "<mark>") 0 (codes "</mark>" ++ after)
      ≡ codes "</mark>" ++ remove_all (codes "<mark>") 0 after
unfolding remove_all has_prefix
open-close after = refl

open-open :
    (after : Text)
    → remove_all (codes "<mark>") 0 (codes "<mark>" ++ after) ≡ remove_all (codes "<mark>") 0 after
unfolding remove_all has_prefix
open-open after = refl

close-close :
    (after : Text)
    → remove_all (codes "</mark>") 0 (codes "</mark>" ++ after)
      ≡ remove_all (codes "</mark>") 0 after
unfolding remove_all has_prefix
close-close after = refl

remove_all-open :
    (before word after : Text)
    → IsPlain before
    → IsPlain word
    → IsPlain after
    → remove_all
        (codes "<mark>")
        0
        (before ++ (codes "<mark>" ++ (word ++ (codes "</mark>" ++ after))))
      ≡ before ++ (word ++ (codes "</mark>" ++ after))
remove_all-open before word after hb hw ha =
    remove_all-plain (codes "mark>") before (codes "<mark>" ++ (word ++ (codes "</mark>" ++ after)))
      hb
    ∙ ap (λ (t : Text). before ++ t)
        (open-open (word ++ (codes "</mark>" ++ after))
          ∙ remove_all-plain (codes "mark>") word (codes "</mark>" ++ after) hw
          ∙ ap (λ (t : Text). word ++ t)
              (open-close after
                ∙ ap (λ (t : Text). codes "</mark>" ++ t)
                    (remove_all-all_plain (codes "mark>") after ha)))

remove_all-close :
    (before word after : Text)
    → IsPlain before
    → IsPlain word
    → IsPlain after
    → remove_all (codes "</mark>") 0 (before ++ (word ++ (codes "</mark>" ++ after)))
      ≡ before ++ (word ++ after)
remove_all-close before word after hb hw ha =
    remove_all-plain (codes "/mark>") before (word ++ (codes "</mark>" ++ after)) hb
    ∙ ap (λ (t : Text). before ++ t)
        (remove_all-plain (codes "/mark>") word (codes "</mark>" ++ after) hw
          ∙ ap (λ (t : Text). word ++ t)
              (close-close after ∙ remove_all-all_plain (codes "/mark>") after ha))

-- In a text without `<`, the marks around a word are taken away and nothing else.
pub strip_headline_tags-mark :
    (before word after : Text)
    → IsPlain before
    → IsPlain word
    → IsPlain after
    → strip_headline_tags (before ++ (codes "<mark>" ++ (word ++ (codes "</mark>" ++ after))))
      ≡ before ++ (word ++ after)
unfolding strip_headline_tags
strip_headline_tags-mark before word after hb hw ha =
    ap (remove_all (codes "</mark>") 0) (remove_all-open before word after hb hw ha)
    ∙ remove_all-close before word after hb hw ha
