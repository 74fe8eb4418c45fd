-- ===== src/Orchestration/Complete.antt =====
-- The groups that build_execution_groups (services/orchestration_service.py) returns.
use diecast.Prelude.{
  ℕ, zero, suc, ◌+◌, ◌≤◌, ◌<◌, ◌≡◌, refl, sym, ◌∙◌, ap, Bool, true, false, Option, some, List, [],
  ◌∷◌, ◌++◌, Text, if◌then◌else◌, arith, ◌==◌, length, ltb, filter,
}
use mathlib.Core.List.{append-nil}
use mathlib.Core.Path.{subst}
use diecast.Orchestration.{
  Phase, Degrees, Round, ok, raised, cycle, is_in, count, keys, ids, degree, run_round, add_group,
  run_rounds, check_visited, plan_all,
}
use diecast.Orchestration.Counts.{
  by_id-none, count-keys, length-keys, length-Within, count-Within, count-filter,
}
use diecast.Orchestration.Release.{degree-none, paid_zero}
use diecast.Orchestration.Rounds.{
  grouped, skipped, no_run, Keeps, run_round-Keeps, count-visited_le,
}
use diecast.Orchestration.Order.{
  ordered, runs_after-queue, round-Ordered, add_group-Ordered, grouped-add_group,
}

module _ (phases : List Phase) where
  pub length-visited_le :
      (visited queue : List Text) (deg : Degrees) (placed : List Text)
      → Keeps phases visited queue deg placed
      → length visited ≤ length phases
  length-visited_le visited queue deg placed k = ground (
    arith,
    length-Within visited (keys phases) (count-visited_le phases visited queue deg placed k),
    length-keys phases,
  )

  tidy :
      (visited queue : List Text) (deg : Degrees) (groups : List (List Phase))
      → Keeps phases visited queue deg (grouped groups)
      → Keeps phases visited (queue ++ []) deg (grouped groups ++ [])
  tidy visited queue deg groups k =
      subst (λ q. Keeps phases visited q deg (grouped groups ++ [])) (sym (append-nil queue))
        (subst (Keeps phases visited queue deg) (sym (append-nil (grouped groups))) k)

  -- The loop ends with an empty queue.
  abbrev pub Ends : Option (List (List Phase) × ℕ × Degrees) → Type 0
  Ends o =
      (visited : List Text) × (deg : Degrees) × (groups : List (List Phase)) × (o
        ≡ some (groups, length visited, deg))
      × Keeps phases visited [] deg (grouped groups)
      × (ordered phases [] groups ≡ true)

  run_rounds-Ends :
      (fuel : ℕ) (visited queue : List Text) (deg : Degrees) (groups : List (List Phase)) (n : ℕ)
      → Keeps phases visited queue deg (grouped groups)
      → ordered phases [] groups ≡ true
      → length visited ≡ n
      → length phases < fuel + n
      → Ends (run_rounds fuel phases queue deg n groups)
  unfolding run_rounds
  run_rounds-Ends fuel visited [] deg groups n k o l e =
      (visited, deg, groups, ap (λ m. some (groups, m, deg)) (sym l), k, o)
  run_rounds-Ends zero visited (q ∷ queue) deg groups n k o l e =
      absurd (ground (arith, l, e, length-visited_le visited (q ∷ queue) deg (grouped groups) k))
  run_rounds-Ends (suc fuel) visited (q ∷ queue) deg groups n k o l e =
      let r : Round = record { degrees = deg; next = []; group = []; visited = n } in
      let r' = run_round phases (q ∷ queue) r in
      let (visited', kept, long, counted) =
        run_round-Keeps phases visited (q ∷ queue) r (grouped groups)
          (tidy visited (q ∷ queue) deg groups k) in
      run_rounds-Ends fuel visited' r'.next r'.degrees (add_group r'.group groups) r'.visited
        (subst (Keeps phases visited' r'.next r'.degrees) (grouped-add_group phases r'.group groups)
          kept)
        (add_group-Ordered phases r'.group groups o (
          round-Ordered phases (grouped groups) (q ∷ queue) r
            (runs_after-queue phases visited (q ∷ queue) deg (grouped groups) k) refl))
        (ground (arith, long, counted, l)) (ground (arith, e, counted))

  start-Keeps :
      let deg : Degrees = λ i. degree phases i phases in
      Keeps phases [] (filter (λ i. deg i == 0) (keys phases)) deg []
  start-Keeps = record {
    owed = λ i. ground (arith, paid_zero i phases);
    due = λ i. ground (
      arith,
      count-filter (λ j. degree phases j phases == 0) i (keys phases),
      count-keys i phases,
      degree-none phases i phases,
    );
    runs = λ i. ground arith;
  }

  -- What a plan's loop ended with
  pub plan_all-Ends :
      let deg : Degrees = λ i. degree phases i phases in
      Ends
        (run_rounds (suc (length phases)) phases (filter (λ i. deg i == 0) (keys phases)) deg 0 [])
  plan_all-Ends =
      run_rounds-Ends (suc (length phases)) [] _ _ [] 0 start-Keeps refl refl (ground arith)

  checked :
      (n : ℕ) (deg : Degrees) (groups gs : List (List Phase))
      → check_visited phases (some (groups, n, deg)) ≡ ok gs
      → (groups ≡ gs) × (n ≡ length phases)
  checked n deg groups gs h = go (n == length phases) refl h
    where
      go :
          (b : Bool)
          → (n == length phases) ≡ b
          → (if b then ok groups else raised (cycle (filter (λ i. ltb 0 (deg i)) (ids phases))))
            ≡ ok gs
          → (groups ≡ gs) × (n ≡ length phases)
      go true e h = (cc, ground (arith, e))
      go false e h = cc

  -- What holds of a plan's groups, from the end of the loop
  plan_all-ok :
      (groups : List (List Phase))
      → plan_all phases ≡ ok groups
      → (visited : List Text) × (deg : Degrees) × Keeps phases visited [] deg (grouped groups)
        × (ordered phases [] groups ≡ true)
        × (length visited ≡ length phases)
  unfolding plan_all
  plan_all-ok groups h =
      let (visited, deg, gs, ended, k, o) = plan_all-Ends in
      let (same, full) =
        checked (length visited) deg gs groups (ap (check_visited phases) (sym ended) ∙ h) in
      (
        visited,
        deg,
        subst (λ g. Keeps phases visited [] deg (grouped g)) same k,
        ap (ordered phases []) (sym same) ∙ o,
        full,
      )

  -- In the groups of a plan each dependency of a phase is the id of a phase of an earlier group, or
  -- no phase has it, or the phase that has it is done or verified.
  pub plan_all-ordered :
      (groups : List (List Phase)) → plan_all phases ≡ ok groups → ordered phases [] groups ≡ true
  plan_all-ordered groups h = let (visited, deg, k, o, full) = plan_all-ok groups h in o

  -- The groups of a plan hold each phase that is neither done nor verified exactly once, and no
  -- other id.
  pub plan_all_once :
      (groups : List (List Phase))
      → plan_all phases ≡ ok groups
      → (i : Text) → count i (grouped groups) ≡ (if skipped phases i then 0 else 1)
  plan_all_once groups h i =
      let (visited, deg, k, o, full) = plan_all-ok groups h in
      ground (
        arith,
        k.runs i,
        k.due i,
        count-keys i phases,
        count-Within visited (keys phases)
            (count-visited_le phases visited [] deg (grouped groups) k)
            (ground (arith, full, length-keys phases)) i,
        λ (n : is_in i (ids phases) ≡ false). ap no_run (by_id-none i phases n),
      )
