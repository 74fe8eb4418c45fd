-- ===== src/Orchestration/Noted.antt =====
-- The cells of a row that update_manifest_status (services/orchestration_service.py) sets.
use diecast.Prelude.{
  ℕ, zero, suc, ◌≤◌, ◌≡◌, refl, sym, Bool, true, false, Option, none, some, List, [], ◌∷◌, ◌++◌,
  Text, codes, length, get_elem?, set, ltb, ◌==◌, if◌then◌else◌, arith, Bool-cases, inl, inr,
  true-ne-false, ap, ◌∙◌,
}
use diecast.Orchestration.Manifest.{padded, set_notes}

-- The notes go into this cell: they are not empty and this is their column.
abbrev pub is_noted : Option ℕ → Text → ℕ → Bool
is_noted none notes i = false
is_noted (some c) [] i = false
is_noted (some c) (n ∷ notes) i = i == c

-- What a cell holds after the update, by what it held
abbrev pub cell_after : Option ℕ → ℕ → Text → Text → ℕ → Option Text → Option Text
cell_after notes_col status_col new_status notes i none = none
cell_after notes_col status_col new_status notes i (some old) =
    if is_noted notes_col notes i
    then some (codes " " ++ notes ++ codes " ")
    else if i == status_col
    then some (codes " " ++ new_status ++ codes " ")
    else some old

-- A cell after a value was put at one place
abbrev pub put_at : Bool → Text → Option Text → Option Text
put_at here v none = none
put_at here v (some old) = if here then some v else some old

put_at_ne : (b : Bool) (v : Text) (o : Option Text) → b ≡ false → put_at b v o ≡ o
put_at_ne true v o e = absurd (true-ne-false e)
put_at_ne false v none e = refl
put_at_ne false v (some old) e = refl

put_at_same : (b c : Bool) (v : Text) (o : Option Text) → b ≡ c → put_at b v o ≡ put_at c v o
put_at_same b c v o e = ap (λ x. put_at x v o) e

pub get_elem?-set :
    (cells : List Text) (c i : ℕ) (v : Text)
    → get_elem? (set cells c v) i ≡ put_at (i == c) v (get_elem? cells i)
get_elem?-set [] c i v = refl
get_elem?-set (x ∷ cells) zero zero v = refl
get_elem?-set (x ∷ cells) (suc c) zero v = sym (put_at_ne (0 == suc c) v (some x) (ground arith))
get_elem?-set (x ∷ cells) zero (suc i) v =
    sym (put_at_ne (suc i == 0) v (get_elem? cells i) (ground arith))
get_elem?-set (x ∷ cells) (suc c) (suc i) v =
    get_elem?-set cells c i v
    ∙ put_at_same (i == c) (suc i == suc c) v (get_elem? cells i) (ground arith)

put_at-beyond :
    (cells : List Text) (c i : ℕ) (v : Text)
    → length cells ≤ c
    → put_at (i == c) v (get_elem? cells i) ≡ get_elem? cells i
put_at-beyond [] c i v h = refl
put_at-beyond (x ∷ cells) zero i v h = absurd (omega (arith, h))
put_at-beyond (x ∷ cells) (suc c) zero v h = put_at_ne (0 == suc c) v (some x) (ground arith)
put_at-beyond (x ∷ cells) (suc c) (suc i) v h =
    put_at_same (suc i == suc c) (i == c) v (get_elem? cells i) (ground arith)
    ∙ put_at-beyond cells c i v (omega (arith, h))

pub get_elem?-set_notes :
    (notes_col : Option ℕ) (notes : Text) (i : ℕ) (cells : List Text)
    → get_elem? (set_notes notes_col notes cells) i
      ≡ put_at (is_noted notes_col notes i) (padded notes) (get_elem? cells i)
get_elem?-set_notes none notes i cells =
    sym (put_at_ne false (padded notes) (get_elem? cells i) refl)
get_elem?-set_notes (some c) [] i cells = sym (put_at_ne false (padded []) (get_elem? cells i) refl)
get_elem?-set_notes (some c) (n ∷ notes) i cells = elim (Bool-cases (ltb c (length cells))) [
  | inl e ↦ rw e (get_elem?-set cells c i (padded (n ∷ notes)))
  | inr e ↦ rw e (sym (put_at-beyond cells c i (padded (n ∷ notes)) (ground (arith, e))))
]
