-- ===== src/Orchestration/Header.antt =====
-- Which columns update_manifest_status (services/orchestration_service.py) finds in a file.
use diecast.Prelude.{
  ℕ, zero, suc, ◌+◌, ◌<◌, ◌≡◌, refl, sym, ◌∙◌, ap, Bool, true, false, Option, none, some, List, [],
  ◌∷◌, ◌++◌, Text, codes, text_eq, text_eq_iff, starts_with, lower, split_on, get_elem?, ◌⊎◌, inl,
  inr, OneOf, arith, some-inj, none-ne-some, Bool-cases, true-ne-false,
}
use mathlib.Core.Path.{subst}
use diecast.Orchestration.Manifest.{bar, cells_of, strip, is_row, column, columns}

-- The line is a row of a table.
abbrev pub IsRow : Text → Type 0
IsRow line = starts_with (strip line) (bar ∷ []) ≡ true

-- The cell, but for spaces and case, is the name.
abbrev pub IsNamed : Text → Text → Type 0
IsNamed name cell = lower (strip cell) ≡ name

-- From a place of the cells on, the last one with the name is at `c`.
abbrev LastNamed : Text → List Text → ℕ → Type 0
LastNamed name cells c =
    ((cell : Text) × (get_elem? cells c ≡ some cell) × IsNamed name cell)
    × ((i : ℕ) (cell : Text) → c < i → get_elem? cells i ≡ some cell → ¬ IsNamed name cell)

abbrev NoneNamed : Text → List Text → Type 0
NoneNamed name cells = (i : ℕ) (cell : Text) → get_elem? cells i ≡ some cell → ¬ IsNamed name cell

-- The line is a row whose last cell with the name is at `c`.
abbrev pub HasColumn : Text → Text → ℕ → Type 0
HasColumn name line c = IsRow line × LastNamed name (split_on bar line) c

-- No cell of the line has the name, or the line is no row.
abbrev pub NoColumn : Text → Text → Type 0
NoColumn name line = (¬ IsRow line) ⊎ NoneNamed name (split_on bar line)

abbrev pub NoColumns : Text → List Text → Type 0
NoColumns name lines = (line : Text) → OneOf line lines → NoColumn name line

-- The last column with the name in the last row that has one
abbrev pub LastColumn : Text → List Text → Option ℕ → Option ℕ → Type 0
LastColumn name lines found m =
    ((m ≡ found) × NoColumns name lines)
    ⊎ ((before : List Text) × (line : Text) × (after : List Text) × (c : ℕ) × (lines
          ≡ before ++ line ∷ after)
        × (m ≡ some c)
        × HasColumn name line c
        × NoColumns name after)

-- The first row with a status gives the status column, and the rows up to it that of the notes.
abbrev pub HasColumns : List Text → Option ℕ → ℕ → Option ℕ → Type 0
HasColumns lines found status_col notes_col =
    (before : List Text) × (line : Text) × (after : List Text) × (lines ≡ before ++ line ∷ after)
    × NoColumns (codes "status") before
    × HasColumn (codes "status") line status_col
    × LastColumn (codes "notes") (before ++ line ∷ []) found notes_col

abbrev Found : Text → List Text → ℕ → Option ℕ → Option ℕ → Type 0
Found name cells i found m =
    ((m ≡ found) × NoneNamed name cells) ⊎ ((c : ℕ) × (m ≡ some (i + c)) × LastNamed name cells c)

column-Found :
    (name : Text) (cells : List Text) (i : ℕ) (found : Option ℕ)
    → Found name cells i found (column name cells i found)
unfolding column
column-Found name [] i found = inl (refl, λ j cell e. absurd (none-ne-some e))
column-Found name (x ∷ cells) i found = elim (Bool-cases (text_eq (lower (strip x)) name)) [
  | inl e ↦ rw e (elim (column-Found name cells (suc i) (some i)) [
    | inl (m, none_such) ↦ inr (
      0,
      m ∙ ap some (omega arith),
      ((x, refl, (text_eq_iff (lower (strip x)) name).0 e), later none_such),
    )
    | inr (c, m, last) ↦ inr (suc c, m ∙ ap some (omega arith), further c last)
  ])
  | inr e ↦ rw e (elim (column-Found name cells (suc i) found) [
    | inl (m, none_such) ↦ inl (m, none_here e none_such)
    | inr (c, m, last) ↦ inr (suc c, m ∙ ap some (omega arith), further c last)
  ])
]
  where
    later :
        NoneNamed name cells
        → (j : ℕ) (cell : Text) → 0 < j
        → get_elem? (x ∷ cells) j ≡ some cell
        → ¬ IsNamed name cell
    later none_such zero cell l h = absurd (omega (arith, l))
    later none_such (suc j) cell l h = none_such j cell h

    further : (c : ℕ) → LastNamed name cells c → LastNamed name (x ∷ cells) (suc c)
    further c (here, after) = (here, beyond)
      where
        beyond :
            (j : ℕ) (cell : Text)
            → suc c < j
            → get_elem? (x ∷ cells) j ≡ some cell
            → ¬ IsNamed name cell
        beyond zero cell l h = absurd (omega (arith, l))
        beyond (suc j) cell l h = after j cell (omega (arith, l)) h

    none_here :
        text_eq (lower (strip x)) name ≡ false → NoneNamed name cells → NoneNamed name (x ∷ cells)
    none_here e none_such zero cell h k = true-ne-false (
        sym ((text_eq_iff (lower (strip x)) name).1 (ap (λ t. lower (strip t)) (some-inj h) ∙ k))
        ∙ e)
    none_here e none_such (suc j) cell h k = none_such j cell h k

-- A line before those in which a column is sought
LastColumn-cons :
    (name line : Text) (lines : List Text) (found m n : Option ℕ)
    → ((n ≡ found) × NoColumn name line) ⊎ ((c : ℕ) × (n ≡ some c) × HasColumn name line c)
    → LastColumn name lines n m
    → LastColumn name (line ∷ lines) found m
LastColumn-cons name line lines found m n here rest = elim rest [
  | inr (before, x, after, c, e, at, has, none_such) ↦
      inr (line ∷ before, x, after, c, ap (λ ls. line ∷ ls) e, at, has, none_such)
  | inl (same, none_such) ↦ elim here [
    | inl (old, none_here) ↦ inl (
      same ∙ old,
      λ x o. elim o [ inl e ↦ subst (NoColumn name) (sym e) none_here | inr k ↦ none_such x k ],
    )
    | inr (c, at, has) ↦ inr ([], line, lines, c, refl, same ∙ at, has, none_such)
  ]
]

-- A line that is no row, or one without a status, before those that have the columns
HasColumns-cons :
    (line : Text) (lines : List Text) (found n m : Option ℕ) (s : ℕ)
    → NoColumn (codes "status") line
    → ((n ≡ found) × NoColumn (codes "notes") line)
      ⊎ ((c : ℕ) × (n ≡ some c) × HasColumn (codes "notes") line c)
    → HasColumns lines n s m
    → HasColumns (line ∷ lines) found s m
HasColumns-cons line lines found n m s no_status here (before, x, after, e, none_such, has, notes) =
    (
      line ∷ before,
      x,
      after,
      ap (λ ls. line ∷ ls) e,
      (λ y o. elim o [
        | inl q ↦ subst (NoColumn (codes "status")) (sym q) no_status
        | inr k ↦ none_such y k
      ]),
      has,
      LastColumn-cons (codes "notes") line (before ++ x ∷ []) found m n here notes,
    )

-- The columns of one row
row-notes :
    (line : Text) (found : Option ℕ)
    → IsRow line
    → ((column (codes "notes") (split_on bar line) 0 found ≡ found) × NoColumn (codes "notes") line)
      ⊎ ((c : ℕ) × (column (codes "notes") (split_on bar line) 0 found ≡ some c)
          × HasColumn (codes "notes") line c)
row-notes line found row = elim (column-Found (codes "notes") (split_on bar line) 0 found) [
  | inl (same, none_such) ↦ inl (same, inr none_such)
  | inr (c, at, last) ↦ inr (c, at ∙ ap some (omega arith), (row, last))
]

pub columns-HasColumns :
    (lines : List Text) (found m : Option ℕ) (s : ℕ)
    → columns lines found ≡ (some s, m)
    → HasColumns lines found s m
unfolding columns is_row cells_of
columns-HasColumns [] found m s h = absurd (none-ne-some (ap (λ p. p.0) h))
columns-HasColumns (line ∷ lines) found m s h =
    go (starts_with (strip line) (bar ∷ [])) refl (columns-HasColumns lines found m s)
      (columns-HasColumns lines (column (codes "notes") (split_on bar line) 0 found) m s) h
  where
    notes : Option ℕ
    notes = column (codes "notes") (split_on bar line) 0 found

    in_row :
        IsRow line
        → (o : Option ℕ) → column (codes "status") (split_on bar line) 0 none ≡ o
        → (columns lines notes ≡ (some s, m) → HasColumns lines notes s m)
        → elim o [ some c ↦ (some c, notes) | none ↦ columns lines notes ] ≡ (some s, m)
        → HasColumns (line ∷ lines) found s m
    in_row row none e later h = elim (column-Found (codes "status") (split_on bar line) 0 none) [
      | inl (same, none_such) ↦
          HasColumns-cons line lines found notes m s (inr none_such) (row-notes line found row)
            (later h)
      | inr (c, at, last) ↦ absurd (none-ne-some (sym e ∙ at))
    ]
    in_row row (some c) e later h =
        let at_s : c ≡ s = some-inj (ap (λ p. p.0) h) in
        let at_m : notes ≡ m = ap (λ p. p.1) h in
        elim (column-Found (codes "status") (split_on bar line) 0 none) [
          | inl (same, none_such) ↦ absurd (none-ne-some (sym same ∙ e))
          | inr (d, at, last) ↦
              let here : d ≡ s = omega (arith, some-inj (sym at ∙ e), at_s) in
              (
                [],
                line,
                lines,
                refl,
                (λ x o. elim o [ ]),
                (row, subst (LastNamed (codes "status") (split_on bar line)) here last),
                LastColumn-cons (codes "notes") line [] found m notes (row-notes line found row)
                    (inl (sym at_m, (λ x o. elim o [ ]))),
              )
        ]

    go :
        (b : Bool)
        → starts_with (strip line) (bar ∷ []) ≡ b
        → (columns lines found ≡ (some s, m) → HasColumns lines found s m)
        → (columns lines notes ≡ (some s, m) → HasColumns lines notes s m)
        → elim b [
          | false ↦ columns lines found
          | true ↦ elim (column (codes "status") (split_on bar line) 0 none) [
            | some c ↦ (some c, notes)
            | none ↦ columns lines notes
          ]
        ]
          ≡ (some s, m)
        → HasColumns (line ∷ lines) found s m
    go false e plain later h =
        let no_row : ¬ IsRow line = λ k. true-ne-false (sym k ∙ e) in
        HasColumns-cons line lines found found m s (inl no_row) (inl (refl, inl no_row)) (plain h)
    go true e plain later h =
        in_row e (column (codes "status") (split_on bar line) 0 none) refl later h
