-- ===== src/Embeddings/Normalize.antt =====
-- src/ingestion/normalize.ts.
use mathlib.Core.List.{reverse}
use la_muni_rag.Base.{Bool, true, false, ◌||◌, List, [], ◌∷◌, map, ◌==◌, if◌then◌else◌}
use la_muni_rag.Base.Text.{Text, is_empty, trim, join}

-- `.replace(/\r\n/g, "\n").replace(/\r/g, "\n").replace(/\u0000/g, "")`; `after` says that the unit
-- before was a carriage return.
unfoldable pub line_endings_from : Bool → Text → Text
line_endings_from after [] = []
line_endings_from after (c ∷ s) =
    let return = 10 ∷ line_endings_from true s in
    let dropped = line_endings_from false s in
    let feed = 10 ∷ line_endings_from false s in
    if c == 13
    then return
    else if c == 10
    then if after then dropped else feed
    else if c == 0
    then dropped
    else c ∷ dropped

unfoldable pub normalize_line_endings : Text → Text
normalize_line_endings value = line_endings_from false value

-- `value.split("\n")`, with the reversed part that was read of the first line.
unfoldable pub split_lines : Text → Text → List Text
split_lines current [] = reverse current ∷ []
split_lines current (c ∷ s) = elim (c == 10) [
  | true ↦ reverse current ∷ split_lines [] s
  | false ↦ split_lines (c ∷ current) s
]

unfoldable pub drop_blanks : Text → Text
drop_blanks [] = []
drop_blanks (c ∷ s) = if c == 32 || c == 9 then drop_blanks s else c ∷ s

-- `line.replace(/[ \t]+$/g, "")`.
unfoldable pub trim_line_end : Text → Text
trim_line_end line = reverse (drop_blanks (reverse line))

-- The loop that leaves out a blank line after a blank line.
unfoldable pub compact_lines : Bool → List Text → List Text
compact_lines previous_blank [] = []
compact_lines previous_blank (line ∷ lines) =
    let blank = is_empty (trim line) in
    let rest = compact_lines blank lines in
    elim blank [ true ↦ if previous_blank then rest else line ∷ rest | false ↦ line ∷ rest ]

unfoldable pub normalize_whitespace : Text → Text
normalize_whitespace value = trim (
    join (10 ∷ [])
      (compact_lines false (map trim_line_end (split_lines [] (normalize_line_endings value)))))
