-- ===== src/Orchestration/Cells.antt =====
-- What update_manifest_status (services/orchestration_service.py) changes of a file.
use diecast.Prelude.{
  ℕ, ◌≡◌, Option, some, List, ◌∷◌, ◌++◌, Text, split_on, length, ◌<◌, get_elem?, OneOf,
}
use diecast.Orchestration.Manifest.{bar, strip}
use diecast.Orchestration.Noted.{cell_after}
use diecast.Orchestration.Header.{IsRow}
use diecast.Orchestration.Updates.{Updates}

-- The line is a row that has the column of the status and names the phase in its second cell.
abbrev pub IsRowOf : Text → ℕ → Text → Type 0
IsRowOf phase_id status_col line =
    IsRow line
    × (status_col < length (split_on bar line))
    × ((cell : Text) × (get_elem? (split_on bar line) 1 ≡ some cell) × (strip cell ≡ phase_id))

module _ (status_col : ℕ) (notes_col : Option ℕ) (phase_id new_status notes : Text) where
  -- One line changes, the first row of the phase, and of its cells only the two.
  abbrev pub Sets : List Text → List Text → Type 0
  Sets lines lines' =
      (before : List Text) × (line : Text) × (line' : Text) × (after : List Text) × (lines
        ≡ before ++ line ∷ after)
      × (lines' ≡ before ++ line' ∷ after)
      × ((x : Text) → OneOf x before → ¬ IsRowOf phase_id status_col x)
      × IsRowOf phase_id status_col line
      × ((i : ℕ)
          → get_elem? (split_on bar line') i
            ≡ cell_after notes_col status_col new_status notes i (get_elem? (split_on bar line) i))
