-- ===== src/Orchestration/Updates.antt =====
-- Which line update_manifest_status (services/orchestration_service.py) rewrites, and that its cells are
-- read back as they were written.
use diecast.Prelude.{
  ℕ, zero, suc, ◌≤◌, ◌≡◌, refl, sym, ◌∙◌, ap, Bool, true, false, ◌&&◌, Option, none, some, List, [],
  ◌∷◌, ◌++◌, Text, codes, split_on, join, length, set, any, ltb, if◌then◌else◌, arith, some-inj,
  none-ne-some, Bool-cases, inl, inr, lacks, all_lack, all_lack-split_on, split_on-join, length-set,
}
use diecast.Orchestration.Manifest.{
  bar, cells_of, padded, set_notes, is_target, new_cells, update_line, keep_line, update_lines,
}

lacks-append : (sep : ℕ) (s t : Text) → lacks sep (s ++ t) ≡ (lacks sep s && lacks sep t)
lacks-append sep [] t = refl
lacks-append sep (c ∷ s) t = ground (arith, lacks-append sep s t)

all_lack-set :
    (sep i : ℕ) (ls : List Text) (v : Text)
    → all_lack sep ls ≡ true
    → lacks sep v ≡ true
    → all_lack sep (set ls i v) ≡ true
all_lack-set sep i [] v h l = refl
all_lack-set sep zero (m ∷ ls) v h l = ground (arith, h, l)
all_lack-set sep (suc i) (m ∷ ls) v h l =
    ground (arith, h, all_lack-set sep i ls v (ground (arith, h)) l)

lacks-padded : (t : Text) → lacks bar t ≡ true → lacks bar (padded t) ≡ true
lacks-padded t h =
    ground (arith, h, lacks-append bar (codes " " ++ t) (codes " "), lacks-append bar (codes " ") t)

split_join :
    (ls : List Text)
    → 1 ≤ length ls
    → all_lack bar ls ≡ true
    → split_on bar (join (bar ∷ []) ls) ≡ ls
split_join [] l h = absurd (ground (arith, l))
split_join (m ∷ ls) l h = split_on-join bar m ls h

set_notes-lacks :
    (notes_col : Option ℕ) (notes : Text) (cells : List Text)
    → all_lack bar cells ≡ true
    → lacks bar notes ≡ true
    → (all_lack bar (set_notes notes_col notes cells) ≡ true)
      × (length (set_notes notes_col notes cells) ≡ length cells)
set_notes-lacks none notes cells h l = (h, refl)
set_notes-lacks (some c) [] cells h l = (h, refl)
set_notes-lacks (some c) (n ∷ notes) cells h l = elim (Bool-cases (ltb c (length cells))) [
  | inl e ↦ (
    ground (arith, e, all_lack-set bar c cells (padded (n ∷ notes)) h (lacks-padded (n ∷ notes) l)),
    ground (arith, e, length-set cells c (padded (n ∷ notes))),
  )
  | inr e ↦ (ground (arith, e, h), ground (arith, e))
]

module _ (status_col : ℕ) (notes_col : Option ℕ) (phase_id new_status notes : Text) where
  abbrev target : Text → Bool
  target = is_target status_col notes_col phase_id new_status notes

  abbrev updated : Text → Text
  updated = update_line status_col notes_col phase_id new_status notes

  abbrev pub Updates : List Text → List Text → Type 0
  Updates lines lines' =
      (before : List Text) × (line : Text) × (after : List Text) × (lines ≡ before ++ line ∷ after)
      × (lines' ≡ before ++ updated line ∷ after)
      × (any target before ≡ false)
      × (target line ≡ true)
      × (cells_of (updated line) ≡ new_cells status_col notes_col phase_id new_status notes line)

  cells_of-update_line :
      (line : Text)
      → lacks bar new_status ≡ true
      → lacks bar notes ≡ true
      → target line ≡ true
      → cells_of (updated line) ≡ new_cells status_col notes_col phase_id new_status notes line
  unfolding update_line is_target split_on cells_of
  cells_of-update_line line s n h =
      let cells = set (cells_of line) status_col (padded new_status) in
      let (clean, long) =
        set_notes-lacks notes_col notes cells
          (all_lack-set bar status_col (cells_of line) (padded new_status)
            (all_lack-split_on bar line) (lacks-padded new_status s))
          n in
      split_join (set_notes notes_col notes cells)
        (ground (arith, h, long, length-set (cells_of line) status_col (padded new_status))) clean

  pub update_lines-Updates :
      (lines lines' : List Text)
      → lacks bar new_status ≡ true
      → lacks bar notes ≡ true
      → update_lines status_col notes_col phase_id new_status notes lines ≡ some lines'
      → Updates lines lines'
  unfolding update_lines
  update_lines-Updates [] lines' s n h = absurd (none-ne-some h)
  update_lines-Updates (line ∷ lines) lines' s n h =
      go (target line) refl (update_lines status_col notes_col phase_id new_status notes lines)
        (λ rest. update_lines-Updates lines rest s n) h
    where
      kept :
          (o : Option (List Text))
          → target line ≡ false
          → ((rest : List Text) → o ≡ some rest → Updates lines rest)
          → keep_line status_col notes_col phase_id new_status notes line o ≡ some lines'
          → Updates (line ∷ lines) lines'
      kept none e later h = absurd (none-ne-some h)
      kept (some rest) e later h =
          let (before, at, after, old, new, none_before, here, cells) = later rest refl in
          (
            line ∷ before,
            at,
            after,
            ap (λ ls. line ∷ ls) old,
            sym (some-inj h) ∙ ap (λ ls. line ∷ ls) new,
            ground (arith, e, none_before),
            here,
            cells,
          )

      go :
          (b : Bool)
          → target line ≡ b
          → (o : Option (List Text)) → ((rest : List Text) → o ≡ some rest → Updates lines rest)
          → (if b
              then some (updated line ∷ lines)
              else keep_line status_col notes_col phase_id new_status notes line o)
            ≡ some lines'
          → Updates (line ∷ lines) lines'
      go true e o later h =
          ([], line, lines, refl, sym (some-inj h), refl, e, cells_of-update_line line s n e)
      go false e o later h = kept o e later h
