-- ===== src/Orchestration/Order.antt =====
-- The order of the groups of build_execution_groups (services/orchestration_service.py).
use diecast.Prelude.{
  ◌≤◌, ◌≡◌, refl, sym, ◌∙◌, ap, Bool, true, false, ◌&&◌, ◌||◌, Option, none, some, List, [], ◌∷◌,
  ◌++◌, Text, text_eq_refl, arith, all,
}
use mathlib.Core.List.{append_assoc, append-nil}
use diecast.Orchestration.{
  Phase, Degrees, Round, is_in, count, ids, by_id, visit, run_round, add_to, add_group,
}
use diecast.Orchestration.Counts.{is_in-count, by_id-id, by_id-none}
use diecast.Orchestration.Release.{one_known, degree-paid, paid_tight, total_tight}
use diecast.Orchestration.Rounds.{grouped, skipped, Keeps, no_run}

module _ (phases : List Phase) where
  -- Each dependency of the phase is skipped or among the names.
  abbrev pub runs_after : List Text → Phase → Bool
  runs_after earlier p = all (λ d. skipped phases d || is_in d earlier) p.depends_on

  all-snoc :
      (f : Phase → Bool) (ps : List Phase) (p : Phase)
      → all f ps ≡ true
      → f p ≡ true
      → all f (ps ++ p ∷ []) ≡ true
  all-snoc f [] p h fp = ground (arith, fp)
  all-snoc f (q ∷ ps) p h fp = ground (arith, h, all-snoc f ps p (ground (arith, h)) fp)

  -- Each group runs after the names and the groups before it.
  abbrev pub ordered : List Text → List (List Phase) → Bool
  ordered earlier [] = true
  ordered earlier (g ∷ gs) = all (runs_after earlier) g && ordered (earlier ++ ids g) gs

  ordered-snoc :
      (earlier : List Text) (gs : List (List Phase)) (g : List Phase)
      → ordered earlier gs ≡ true
      → all (runs_after (earlier ++ grouped gs)) g ≡ true
      → ordered earlier (gs ++ g ∷ []) ≡ true
  ordered-snoc earlier [] g h a =
      ground (arith, ap (λ e. all (runs_after e) g) (append-nil earlier), a)
  ordered-snoc earlier (f ∷ gs) g h a = ground (
    arith,
    h,
    ordered-snoc (earlier ++ ids f) gs g (ground (arith, h))
        (ap (λ e. all (runs_after e) g) (append_assoc earlier (ids f) (grouped gs)) ∙ a),
  )

  -- A phase in the queue has its dependencies skipped or in the groups.
  pub runs_after-queue :
      (visited queue : List Text) (deg : Degrees) (placed : List Text)
      → Keeps phases visited queue deg placed
      → (v : Text) → 1 ≤ count v queue
      → (p : Phase) → by_id v phases ≡ some p
      → runs_after placed p ≡ true
  runs_after-queue visited queue deg placed k v here p found =
      let bound : (d : Text) → count d visited ≤ one_known phases d =
        λ d. ground (arith, k.due d) in
      total_tight (λ d. count d visited) (one_known phases) bound
        (λ d. skipped phases d || is_in d placed)
        (λ d h. ground (
          arith,
          h,
          k.runs d,
          is_in-count d placed,
          λ (n : is_in d (ids phases) ≡ false). ap no_run (by_id-none d phases n),
        ))
        p.depends_on
        (paid_tight (λ d. count d visited) (one_known phases) bound v phases p
          (by_id-id v phases p found) found
          (ground (arith, k.due v, k.owed v, degree-paid phases v phases)))

  add_to-Ordered :
      (placed : List Text) (o : Option Phase) (group : List Phase)
      → ((p : Phase) → o ≡ some p → runs_after placed p ≡ true)
      → all (runs_after placed) group ≡ true
      → all (runs_after placed) (add_to o group) ≡ true
  add_to-Ordered placed none group h a = a
  add_to-Ordered placed (some p) group h a =
      ground (arith, a, all-snoc (runs_after placed) group p a (h p refl))

  pub round-Ordered :
      (placed : List Text) (queue : List Text) (r : Round)
      → ((v : Text)
          → 1 ≤ count v queue
          → (p : Phase) → by_id v phases ≡ some p
          → runs_after placed p ≡ true)
      → all (runs_after placed) r.group ≡ true
      → all (runs_after placed) (run_round phases queue r).group ≡ true
  unfolding run_round visit
  round-Ordered placed [] r h a = a
  round-Ordered placed (v ∷ queue) r h a =
      round-Ordered placed queue (visit phases v r) (λ w here. h w (ground (arith, here)))
        (add_to-Ordered placed (by_id v phases) r.group (h v (ground (arith, text_eq_refl v))) a)

  pub add_group-Ordered :
      (g : List Phase) (gs : List (List Phase))
      → ordered [] gs ≡ true
      → all (runs_after (grouped gs)) g ≡ true
      → ordered [] (add_group g gs) ≡ true
  add_group-Ordered [] gs h a = h
  add_group-Ordered (p ∷ g) gs h a = ordered-snoc [] gs (p ∷ g) h a

  grouped-snoc :
      (gs : List (List Phase)) (g : List Phase) → grouped (gs ++ g ∷ []) ≡ grouped gs ++ ids g
  grouped-snoc [] g = append-nil (ids g)
  grouped-snoc (f ∷ gs) g =
      ap (λ is. ids f ++ is) (grouped-snoc gs g) ∙ sym (append_assoc (ids f) (grouped gs) (ids g))

  pub grouped-add_group :
      (g : List Phase) (gs : List (List Phase)) → grouped gs ++ ids g ≡ grouped (add_group g gs)
  grouped-add_group [] gs = append-nil (grouped gs)
  grouped-add_group (p ∷ g) gs = sym (grouped-snoc gs (p ∷ g))
