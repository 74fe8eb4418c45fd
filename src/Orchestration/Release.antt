-- ===== src/Orchestration/Release.antt =====
-- The in-degrees (services/orchestration_service.py) as sums over the dependencies, and what one
-- visit does to them and to the next queue.
use diecast.Prelude.{
  text_eq_swap, ℕ, ◌+◌, ◌≤◌, ◌≡◌, refl, ap, Bool, true, false, Option, none, some, List, [], ◌∷◌,
  ◌++◌, Text, text_eq, text_eq_iff, text_eq_refl, if◌then◌else◌, arith, ◌==◌, all, none-ne-some,
}
use mathlib.Core.Path.{subst}
use diecast.Orchestration.{
  Phase, Degrees, is_in, count, ids, by_id, or_else, known, degree, repeated, children,
  lower_degree, release,
}
use diecast.Orchestration.Counts.{hit, count-append, or_else-none}

-- The sum over the names, and over the dependencies of the phases with this id.
abbrev pub total : Degrees → List Text → ℕ
total f [] = 0
total f (d ∷ ds) = f d + total f ds

abbrev pub paid : Degrees → Text → List Phase → ℕ
paid f i [] = 0
paid f i (p ∷ ps) = (if text_eq p.id i then total f p.depends_on else 0) + paid f i ps

-- 1 at the ids of phases
abbrev pub one_known : List Phase → Degrees
one_known phases i = if is_in i (ids phases) then 1 else 0

known-total : (phases : List Phase) (ds : List Text) → known phases ds ≡ total (one_known phases) ds
known-total phases [] = refl
known-total phases (d ∷ ds) = ground (arith, known-total phases ds)

pub degree-paid :
    (phases : List Phase) (i : Text) (ps : List Phase)
    → degree phases i ps ≡ paid (one_known phases) i ps
unfolding degree
degree-paid phases i [] = refl
degree-paid phases i (p ∷ ps) =
    ground (arith, known-total phases p.depends_on, degree-paid phases i ps)

-- A name that is no id has no degree.
pub degree-none :
    (phases : List Phase) (i : Text) (ps : List Phase)
    → is_in i (ids ps) ≡ false
    → degree phases i ps ≡ 0
unfolding degree
degree-none phases i [] h = refl
degree-none phases i (p ∷ ps) h = ground (arith, h, degree-none phases i ps)

total_zero : (ds : List Text) → total (λ d. 0) ds ≡ 0
total_zero [] = refl
total_zero (d ∷ ds) = ground (arith, total_zero ds)

pub paid_zero : (i : Text) (ps : List Phase) → paid (λ d. 0) i ps ≡ 0
paid_zero i [] = refl
paid_zero i (p ∷ ps) = ground (arith, total_zero p.depends_on, paid_zero i ps)

count-repeated :
    (v j i : Text) (es : List Text)
    → count i (repeated v j es) ≡ (if text_eq j i then total (hit v) es else 0)
count-repeated v j i [] = ground arith
count-repeated v j i (e ∷ es) = ground (arith, count-repeated v j i es, text_eq_swap e v)

pub count-children : (v i : Text) (ps : List Phase) → count i (children v ps) ≡ paid (hit v) i ps
unfolding children
count-children v i [] = refl
count-children v i (p ∷ ps) = ground (
  arith,
  count-append i (repeated v p.id p.depends_on) (children v ps),
  count-repeated v p.id i p.depends_on,
  count-children v i ps,
)

module _ (f g : Degrees) where
  total-add : (ds : List Text) → total (λ d. f d + g d) ds ≡ total f ds + total g ds
  total-add [] = ground arith
  total-add (d ∷ ds) = ground (arith, total-add ds)

  pub paid-add :
      (i : Text) (ps : List Phase) → paid (λ d. f d + g d) i ps ≡ paid f i ps + paid g i ps
  paid-add i [] = ground arith
  paid-add i (p ∷ ps) = ground (arith, total-add p.depends_on, paid-add i ps)

  -- A sum of no smaller terms is no smaller; where it is no larger either, no term is.
  module _ (h : (d : Text) → f d ≤ g d) where
    total_mono : (ds : List Text) → total f ds ≤ total g ds
    total_mono [] = ground arith
    total_mono (d ∷ ds) = ground (arith, h d, total_mono ds)

    pub paid_mono : (i : Text) (ps : List Phase) → paid f i ps ≤ paid g i ps
    paid_mono i [] = ground arith
    paid_mono i (p ∷ ps) = ground (arith, total_mono p.depends_on, paid_mono i ps)

    pub total_tight :
        (settled : Text → Bool)
        → ((d : Text) → g d ≤ f d → settled d ≡ true)
        → (ds : List Text) → total g ds ≤ total f ds
        → all settled ds ≡ true
    total_tight settled s [] t = refl
    total_tight settled s (d ∷ ds) t =
        ground (arith, h d, s d, total_mono ds, total_tight settled s ds)

    pub paid_tight :
        (v : Text) (ps : List Phase) (p : Phase)
        → text_eq p.id v ≡ true
        → by_id v ps ≡ some p
        → paid g v ps ≤ paid f v ps
        → total g p.depends_on ≤ total f p.depends_on
    unfolding by_id
    paid_tight v [] p same found t = absurd (none-ne-some found)
    paid_tight v (q ∷ ps) p same found t = go (by_id v ps) (paid_tight v ps p same) found
      where
        go :
            (o : Option Phase)
            → (o ≡ some p → paid g v ps ≤ paid f v ps → total g p.depends_on ≤ total f p.depends_on)
            → or_else o q v ≡ some p
            → total g p.depends_on ≤ total f p.depends_on
        go (some r) later found = later found (ground (arith, t, total_mono q.depends_on))
        go none later found =
            let (e, same) = or_else-none q p v found in
            subst (λ (r : Phase). total g r.depends_on ≤ total f r.depends_on) same
              (ground (arith, t, e, paid_mono v ps))

abbrev pub zero_at : ℕ → ℕ
zero_at n = if n == 0 then 1 else 0

-- One decrement, and the name that it puts into the next queue.
count-lower :
    (c i : Text) (deg : Degrees) (next : List Text)
    → 1 ≤ deg c
    → count i (if lower_degree c deg c == 0 then next ++ c ∷ [] else next) + zero_at (deg i)
      ≡ count i next + zero_at (lower_degree c deg i)
count-lower c i deg next h = ground (
  arith,
  count-append i next (c ∷ []),
  text_eq_refl c,
  λ (e : text_eq c i ≡ true). ap deg ((text_eq_iff c i).0 e),
)

-- All children of a visit: each degree falls by the child's occurrences, and the next queue gains
-- the names whose degree became 0.
pub release_lem :
    (cs : List Text) (deg : Degrees) (next : List Text)
    → ((i : Text) → count i cs ≤ deg i)
    → (i : Text)
    → let (deg', next') = release cs deg next in
      (deg' i + count i cs ≡ deg i)
      × (count i next' + zero_at (deg i) ≡ count i next + zero_at (deg' i))
unfolding release
release_lem [] deg next h i = (ground arith, ground arith)
release_lem (c ∷ cs) deg next h i =
    let there : 1 ≤ deg c = ground (arith, h c, text_eq_refl c) in
    let deg' : Degrees = lower_degree c deg in
    let (falls, gains) =
      release_lem cs deg' (if deg' c == 0 then next ++ c ∷ [] else next) (λ j. ground (arith, h j))
        i in
    (ground (arith, falls, h i), ground (arith, gains, count-lower c i deg next there))
