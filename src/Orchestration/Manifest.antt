-- ===== src/Orchestration/Manifest.antt =====
-- update_manifest_status (services/orchestration_service.py): the status cell of one row of a table
-- in a Markdown file.
use diecast.Prelude.{
  ℕ, suc, Bool, true, false, ◌&&◌, Option, none, some, List, [], ◌∷◌, ◌++◌, Text, codes, text_eq,
  starts_with, lower, is_space, strip_chars, split_on, split_lines, join, length, get_elem?, set,
  ltb, if◌then◌else◌,
}

abbrev pub bar : ℕ
bar = 124

unfoldable pub cells_of : Text → List Text
unfolding split_on
cells_of line = split_on bar line

unfoldable pub strip : Text → Text
unfolding is_space strip_chars
strip t = strip_chars is_space t

unfoldable pub is_row : Text → Bool
unfolding strip
is_row line = starts_with (strip line) (bar ∷ [])

-- The last of the cells with this name
unfoldable pub column : Text → List Text → ℕ → Option ℕ → Option ℕ
unfolding strip lower
column name [] i found = found
column name (c ∷ cs) i found =
    column name cs (suc i) (if text_eq (lower (strip c)) name then some i else found)

-- The columns of the status and of the notes, up to the first row that names a status
unfoldable pub columns : List Text → Option ℕ → Option ℕ × Option ℕ
unfolding is_row column cells_of
columns [] notes_col = (none, notes_col)
columns (line ∷ lines) notes_col = elim (is_row line) [
  | false ↦ columns lines notes_col
  | true ↦
      let notes_col' = column (codes "notes") (cells_of line) 0 notes_col in
      elim (column (codes "status") (cells_of line) 0 none) [
        | some c ↦ (some c, notes_col')
        | none ↦ columns lines notes_col'
      ]
]

abbrev pub padded : Text → Text
padded t = codes " " ++ t ++ codes " "

abbrev pub set_notes : Option ℕ → Text → List Text → List Text
set_notes none notes cells = cells
set_notes (some c) [] cells = cells
set_notes (some c) (n ∷ notes) cells =
    if ltb c (length cells) then set cells c (padded (n ∷ notes)) else cells

module _ (status_col : ℕ) (notes_col : Option ℕ) (phase_id new_status notes : Text) where
  unfoldable pub names_phase : Option Text → Bool
  unfolding strip
  names_phase none = false
  names_phase (some c) = text_eq (strip c) phase_id

  unfoldable pub is_target : Text → Bool
  unfolding is_row cells_of names_phase
  is_target line =
      is_row line
      && ltb status_col (length (cells_of line))
      && names_phase (get_elem? (cells_of line) 1)

  abbrev pub new_cells : Text → List Text
  new_cells line = set_notes notes_col notes (set (cells_of line) status_col (padded new_status))

  unfoldable pub update_line : Text → Text
  unfolding join cells_of
  update_line line = join (bar ∷ []) (new_cells line)

  abbrev pub keep_line : Text → Option (List Text) → Option (List Text)
  keep_line line none = none
  keep_line line (some lines) = some (line ∷ lines)

  unfoldable pub update_lines : List Text → Option (List Text)
  unfolding is_target update_line
  update_lines [] = none
  update_lines (line ∷ lines) =
      let rest = update_lines lines in
      if is_target line then some (update_line line ∷ lines) else keep_line line rest

unfoldable pub written : Option (List Text) → Option Text
unfolding join
written none = none
written (some lines) = some (join (codes "\n") lines ++ codes "\n")

unfoldable pub with_columns : Option ℕ × Option ℕ → Text → Text → Text → List Text → Option Text
unfolding update_lines written
with_columns (none, n) phase_id new_status notes lines = none
with_columns (some s, n) phase_id new_status notes lines =
    written (update_lines s n phase_id new_status notes lines)

-- The new text of the file; none where it is left
unfoldable pub update_manifest_status : Text → Text → Text → Text → Option Text
unfolding columns split_lines with_columns
update_manifest_status text phase_id new_status notes =
    let lines = split_lines text in
    with_columns (columns lines none) phase_id new_status notes lines
