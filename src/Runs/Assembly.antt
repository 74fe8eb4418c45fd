-- ===== src/Runs/Assembly.antt =====
-- Which rows the tree of a run holds (services/agent_service.py).
use diecast.Prelude.{
  ℕ, zero, suc, ◌<◌, ◌≤◌, ◌≡◌, Bool, ◌↔◌, refl, sym, ap, ◌∙◌, true, some, List, [], ◌∷◌, ◌++◌, Text,
  ◌⊎◌, inl, inr, filter, OneOf, OneOf-filter, filter-OneOf, OneOf-append_left, OneOf-append_right,
  arith, Bool-cases, none-ne-some, some-inj, true-ne-false, text_eq, if◌then◌else◌,
}
use mathlib.Core.Path.{subst}
use diecast.Runs.Dispatch.{text_le}
use diecast.Runs.Tree.{
  Row, Node, node, Nodes, nil, more, holds_parent, hold_parent, recursion_error, tree,
  assemble_tree, row_of, is_child, insert_row, sort_rows, nodes_of, fetched, assembled, get_row,
  get_run_with_rollups, tree_depth_cap,
}
use diecast.Runs.Rollups.{descendants, flatten}

-- The row is so many levels under a child of the first one, along the rows of the table.
pub data Below (table : List Row) : Row → ℕ → Row → Type 0 where
  child : (r x : Row) → OneOf x table → is_child r x ≡ true → Below table r 0 x
  under :
      (r c : Row) (k : ℕ) (x : Row)
      → OneOf c table
      → is_child r c ≡ true
      → Below table c k x
      → Below table r (suc k) x

OneOf-append : (x : Row) (xs ys : List Row) → OneOf x (xs ++ ys) → OneOf x xs ⊎ OneOf x ys
OneOf-append x [] ys m = inr m
OneOf-append x (y ∷ xs) ys m = elim m [
  | inl e ↦ inl (inl e)
  | inr k ↦ elim (OneOf-append x xs ys k) [ inl l ↦ inl (inr l) | inr l ↦ inr l ]
]

OneOf-insert_row : (x r : Row) (xs : List Row) → OneOf x (insert_row r xs) ↔ OneOf x (r ∷ xs)
unfolding insert_row
OneOf-insert_row x r [] = ((λ m. m), (λ m. m))
OneOf-insert_row x r (y ∷ ys) = elim (Bool-cases (text_le r.created_at y.created_at)) [
  | inl e ↦ rw e ((λ m. m), (λ m. m))
  | inr e ↦ rw e (
    (λ m. elim m [
      | inl q ↦ inr (inl q)
      | inr k ↦ elim ((OneOf-insert_row x r ys).0 k) [ inl q ↦ inl q | inr l ↦ inr (inr l) ]
    ]),
    (λ m. elim m [
      | inl q ↦ inr ((OneOf-insert_row x r ys).1 (inl q))
      | inr k ↦ elim k [ inl q ↦ inl q | inr l ↦ inr ((OneOf-insert_row x r ys).1 (inr l)) ]
    ]),
  )
]

OneOf-sort_rows : (x : Row) (xs : List Row) → OneOf x (sort_rows xs) ↔ OneOf x xs
unfolding sort_rows
OneOf-sort_rows x [] = ((λ m. m), (λ m. m))
OneOf-sort_rows x (r ∷ rs) = (
  (λ m. elim ((OneOf-insert_row x r (sort_rows rs)).0 m) [
    | inl q ↦ inl q
    | inr k ↦ inr ((OneOf-sort_rows x rs).0 k)
  ]),
  (λ m.
      (OneOf-insert_row x r (sort_rows rs)).1
        (elim m [ inl q ↦ inl q | inr k ↦ inr ((OneOf-sort_rows x rs).1 k) ])),
)

row_of-fetched : (n : ℕ) (table : List Row) (r : Row) → row_of (fetched n table r) ≡ r
unfolding fetched
row_of-fetched zero table r = refl
row_of-fetched (suc n) table r = refl

-- A row is in the nodes of a list of rows where it is one of them or a descendant of one's node.
module _ (f : Row → Node) (same : (r : Row) → row_of (f r) ≡ r) where
  flatten-nodes_of :
      (x : Row) (rs : List Row)
      → OneOf x (flatten (nodes_of f rs))
      → OneOf x rs ⊎ ((c : Row) × OneOf c rs × OneOf x (descendants (f c)))
  unfolding descendants
  flatten-nodes_of x [] m = elim m [ ]
  flatten-nodes_of x (r ∷ rs) m = elim m [
    | inl e ↦ inl (inl (e ∙ same r))
    | inr k ↦ elim (OneOf-append x (descendants (f r)) (flatten (nodes_of f rs)) k) [
      | inl l ↦ inr (r, inl refl, l)
      | inr l ↦ elim (flatten-nodes_of x rs l) [
        | inl o ↦ inl (inr o)
        | inr o ↦ inr (o.0, inr o.1, o.2)
      ]
    ]
  ]

  nodes_of-row : (x : Row) (rs : List Row) → OneOf x rs → OneOf x (flatten (nodes_of f rs))
  unfolding descendants
  nodes_of-row x [] m = elim m [ ]
  nodes_of-row x (r ∷ rs) m = elim m [
    | inl e ↦ inl (e ∙ sym (same r))
    | inr k ↦
        inr
          (OneOf-append_right x (descendants (f r)) (flatten (nodes_of f rs)) (nodes_of-row x rs k))
  ]

  nodes_of-descendants :
      (x c : Row) (rs : List Row)
      → OneOf c rs
      → OneOf x (descendants (f c))
      → OneOf x (flatten (nodes_of f rs))
  unfolding descendants
  nodes_of-descendants x c [] m d = elim m [ ]
  nodes_of-descendants x c (r ∷ rs) m d = elim m [
    | inl e ↦ inr (
        OneOf-append_left x (descendants (f r)) (flatten (nodes_of f rs))
          (subst (λ (y : Row). OneOf x (descendants (f y))) e d))
    | inr k ↦ inr (
        OneOf-append_right x (descendants (f r)) (flatten (nodes_of f rs))
          (nodes_of-descendants x c rs k d))
  ]

kids : List Row → Row → List Row
kids table r = sort_rows (filter (is_child r) table)

kids_iff :
    (table : List Row) (r x : Row)
    → OneOf x (kids table r) ↔ (OneOf x table × (is_child r x ≡ true))
unfolding kids
kids_iff table r x = (
  (λ m. OneOf-filter (is_child r) x table ((OneOf-sort_rows x (filter (is_child r) table)).0 m)),
  (λ h.
      (OneOf-sort_rows x (filter (is_child r) table)).1
        (filter-OneOf (is_child r) x table h.0 h.1)),
)

fetched_sound :
    (n : ℕ) (table : List Row) (r x : Row)
    → OneOf x (descendants (fetched n table r))
    → (k : ℕ) × (k < n) × Below table r k x
unfolding fetched descendants kids
fetched_sound zero table r x m = elim m [ ]
fetched_sound (suc n) table r x m =
    elim (flatten-nodes_of (fetched n table) (row_of-fetched n table) x (kids table r) m) [
      | inl o ↦ let h = (kids_iff table r x).0 o in (0, omega arith, child r x h.0 h.1)
      | inr (c, o, d) ↦
          let h = (kids_iff table r c).0 o in
          let (k, less, below) = fetched_sound n table c x d in
          (suc k, omega (arith, less), under r c k x h.0 h.1 below)
    ]

fetched_complete :
    (n : ℕ) (table : List Row) (r : Row) (k : ℕ) (x : Row)
    → k < n
    → Below table r k x
    → OneOf x (descendants (fetched n table r))
unfolding fetched descendants kids
fetched_complete zero table r k x h b = absurd (omega (arith, h))
fetched_complete (suc n) table r _ x h (child _ _ m e) =
    nodes_of-row (fetched n table) (row_of-fetched n table) x (kids table r)
      ((kids_iff table r x).1 (m, e))
fetched_complete (suc n) table r _ x h (under _ c k _ m e b) =
    nodes_of-descendants (fetched n table) (row_of-fetched n table) x c (kids table r)
      ((kids_iff table r c).1 (m, e)) (fetched_complete n table c k x (omega (arith, h)) b)

parent-Below :
    (table : List Row) (r : Row) (k : ℕ) (x : Row)
    → Below table r (suc k) x
    → (p : Row) × Below table r k p × (is_child p x ≡ true)
parent-Below table r zero x (under _ c _ _ m e (child _ _ _ l)) = (c, child r c m e, l)
parent-Below table r (suc k) x (under _ c _ _ m e b) =
    let (p, above, l) = parent-Below table c k x b in (p, under r c k p m e above, l)

child-Below :
    (table : List Row) (r : Row) (k : ℕ) (p x : Row)
    → Below table r k p
    → OneOf x table
    → is_child p x ≡ true
    → Below table r (suc k) x
child-Below table r _ p x (child _ _ m e) mx l = under r p 0 x m e (child p x mx l)
child-Below table r _ p x (under _ c k _ m e b) mx l =
    under r c (suc k) x m e (child-Below table c k p x b mx l)

get_row-OneOf : (i : Text) (rs : List Row) (r : Row) → get_row i rs ≡ some r → OneOf r rs
unfolding get_row
get_row-OneOf i [] r e = absurd (none-ne-some e)
get_row-OneOf i (x ∷ rs) r e = elim (Bool-cases (text_eq x.id i)) [
  | inl t ↦ inl (sym (some-inj (rw t at e)))
  | inr t ↦ inr (get_row-OneOf i rs r (rw t at e))
]

-- A tree holds the row's parent where its first row or a descendant is that.
mutual
  unfolding holds_parent descendants

  holds_parent-one :
      (r : Row) (n : Node)
      → holds_parent r n ≡ true
      → (is_child (row_of n) r ≡ true)
        ⊎ ((p : Row) × OneOf p (descendants n) × (is_child p r ≡ true))
  holds_parent-one r (node x ns) e = elim (Bool-cases (is_child x r)) [
    | inl t ↦ inl t
    | inr t ↦ inr (hold_parent-one r ns (rw t at e))
  ]

  hold_parent-one :
      (r : Row) (ns : Nodes)
      → hold_parent r ns ≡ true
      → (p : Row) × OneOf p (flatten ns) × (is_child p r ≡ true)
  hold_parent-one r nil e = absurd (true-ne-false (sym e))
  hold_parent-one r (more (node x ms) ns) e = elim (Bool-cases (holds_parent r (node x ms))) [
    | inl t ↦ elim (holds_parent-one r (node x ms) t) [
      | inl h ↦ (x, inl refl, h)
      | inr (p, m, h) ↦ (p, inr (OneOf-append_left p (flatten ms) (flatten ns) m), h)
    ]
    | inr t ↦
        let (p, m, h) = hold_parent-one r ns (rw t at e) in
        (p, inr (OneOf-append_right p (flatten ms) (flatten ns) m), h)
  ]

mutual
  unfolding holds_parent descendants

  one-holds_parent :
      (r p : Row) (n : Node)
      → is_child p r ≡ true
      → (row_of n ≡ p) ⊎ OneOf p (descendants n)
      → holds_parent r n ≡ true
  one-holds_parent r p (node x ns) e m = elim (Bool-cases (is_child x r)) [
    | inl t ↦ rw t refl
    | inr t ↦ elim m [
      | inl here ↦ absurd (true-ne-false (sym e ∙ ap (λ (q : Row). is_child q r) (sym here) ∙ t))
      | inr below ↦ rw t (one-hold_parent r p ns e below)
    ]
  ]

  one-hold_parent :
      (r p : Row) (ns : Nodes)
      → is_child p r ≡ true
      → OneOf p (flatten ns)
      → hold_parent r ns ≡ true
  one-hold_parent r p nil e m = elim m [ ]
  one-hold_parent r p (more (node x ms) ns) e m = elim (Bool-cases (holds_parent r (node x ms))) [
    | inl t ↦ rw t refl
    | inr t ↦ rw t (elim m [
      | inl here ↦
          absurd (true-ne-false (sym (one-holds_parent r p (node x ms) e (inl (sym here))) ∙ t))
      | inr k ↦ elim (OneOf-append p (flatten ms) (flatten ns) k) [
        | inl l ↦ absurd (true-ne-false (sym (one-holds_parent r p (node x ms) e (inr l)) ∙ t))
        | inr l ↦ one-hold_parent r p ns e l
      ]
    ])
  ]

-- The rows of the tree below the run are those that the table has so many levels down at most.
abbrev pub TreeOf : List Row → Row → Node → Type 0
TreeOf table r n =
    (row_of n ≡ r)
    × ((x : Row) → OneOf x (descendants n) ↔ ((k : ℕ) × (k < tree_depth_cap) × Below table r k x))

-- The run is below itself, by a cycle of parents of at most as many rows as there are levels.
abbrev pub IsCyclic : List Row → Row → Type 0
IsCyclic table r = (k : ℕ) × (k ≤ tree_depth_cap) × Below table r k r

fetched-TreeOf : (table : List Row) (r : Row) → TreeOf table r (fetched tree_depth_cap table r)
fetched-TreeOf table r = (
  row_of-fetched tree_depth_cap table r,
  (λ x. (
    fetched_sound tree_depth_cap table r x,
    (λ h. fetched_complete tree_depth_cap table r h.0 x h.1 h.2),
  )),
)

holds_parent-IsCyclic :
    (table : List Row) (r : Row) (n : Node)
    → OneOf r table
    → TreeOf table r n
    → (holds_parent r n ≡ true) ↔ IsCyclic table r
holds_parent-IsCyclic table r n here t = (
  (λ e. elim (holds_parent-one r n e) [
    | inl own ↦ (0, omega arith, child r r here (subst (λ (q : Row). is_child q r ≡ true) t.0 own))
    | inr (p, m, l) ↦
        let (k, less, b) = (t.1 p).0 m in
        (suc k, omega (arith, less), child-Below table r k p r b here l)
  ]),
  (λ c. elim (Cyclic-parent c.0 c.1 c.2) [
    | inl own ↦ one-holds_parent r r n own (inl t.0)
    | inr (p, m, l) ↦ one-holds_parent r p n l (inr m)
  ]),
)
  where
    Cyclic-parent :
        (k : ℕ)
        → k ≤ tree_depth_cap
        → Below table r k r
        → (is_child r r ≡ true) ⊎ ((p : Row) × OneOf p (descendants n) × (is_child p r ≡ true))
    Cyclic-parent zero le (child _ _ m e) = inl e
    Cyclic-parent (suc k) le b =
        let (p, above, l) = parent-Below table r k r b in
        inr (p, (t.1 p).1 (k, omega (arith, le), above), l)

-- Either no cycle of parents leads from the run back to it in at most eleven levels, and the answer is
-- a tree that holds, below the run, exactly the rows of the table that are reached from it along
-- children in at most ten levels; or there is one, and the answer is the error of an endless
-- recursion.
pub get_run_with_rollups-Below :
    (table : List Row) (run_id : Text) (r : Row)
    → get_row run_id table ≡ some r
    → (¬ IsCyclic table r
        × ((n : Node) × (get_run_with_rollups run_id table ≡ tree n) × TreeOf table r n))
      ⊎ (IsCyclic table r × (get_run_with_rollups run_id table ≡ recursion_error))
unfolding get_run_with_rollups assembled assemble_tree
get_run_with_rollups-Below table run_id r found =
    let n = fetched tree_depth_cap table r in
    let of_table = fetched-TreeOf table r in
    let closes = holds_parent-IsCyclic table r n (get_row-OneOf run_id table r found) of_table in
    elim (Bool-cases (holds_parent r n)) [
      | inl e ↦ inr (
        closes.0 e,
        ap (assembled table) found ∙ ap (λ (b : Bool). if b then recursion_error else tree n) e,
      )
      | inr e ↦ inl (
        (λ c. true-ne-false (sym (closes.1 c) ∙ e)),
        (
          n,
          ap (assembled table) found ∙ ap (λ (b : Bool). if b then recursion_error else tree n) e,
          of_table,
        ),
      )
    ]
