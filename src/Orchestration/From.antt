-- ===== src/Orchestration/From.antt =====
-- build_execution_groups with a phase to start from (services/orchestration_service.py).
use diecast.Prelude.{
  same_image, ℕ, ◌≤◌, ◌≡◌, ◌↔◌, refl, sym, ◌∙◌, ap, Bool, true, false, not, ◌||◌, Option, none,
  some, List, [], ◌∷◌, Text, text_eq, if◌then◌else◌, arith, map,
}
use mathlib.Core.Option.{map as map_option}
use diecast.Orchestration.{
  Phase, ok, unknown_phase, raised, is_in, count, ids, by_id, or_else, is_done, reachable_forward,
  skip_unreachable, plan_reachable, plan_all, build_execution_groups,
}
use diecast.Orchestration.Counts.{by_id-id}
use diecast.Orchestration.Rounds.{grouped, skipped, no_run}
use diecast.Orchestration.Complete.{plan_all_once}
use diecast.Orchestration.Reach.{Follows, distinct, reachable_forward_iff}

module _ (reached : List Text) where
  is_done-skip_unreachable :
      (p : Phase) → is_done (skip_unreachable reached p) ≡ (is_done p || not (is_in p.id reached))
  unfolding is_done
  is_done-skip_unreachable p = ground arith

  by_id-map_skip :
      (i : Text) (ps : List Phase)
      → by_id i (map (skip_unreachable reached) ps)
        ≡ map_option (skip_unreachable reached) (by_id i ps)
  unfolding by_id
  by_id-map_skip i [] = refl
  by_id-map_skip i (p ∷ ps) =
      ap (λ o. or_else o (skip_unreachable reached p) i) (by_id-map_skip i ps) ∙ go (by_id i ps)
    where
      last :
          (b : Bool)
          → (if b then some (skip_unreachable reached p) else none)
            ≡ map_option (skip_unreachable reached) (if b then some p else none)
      last true = refl
      last false = refl

      go :
          (o : Option Phase)
          → or_else (map_option (skip_unreachable reached) o) (skip_unreachable reached p) i
            ≡ map_option (skip_unreachable reached) (or_else o p i)
      go (some q) = refl
      go none = last (text_eq p.id i)

  -- An unreachable phase is skipped, and a reachable one where it was.
  skipped-map_skip :
      (phases : List Phase) (i : Text)
      → skipped (map (skip_unreachable reached) phases) i
        ≡ (skipped phases i || not (is_in i reached))
  skipped-map_skip phases i = ap no_run (by_id-map_skip i phases) ∙ go (by_id i phases) refl
    where
      go :
          (o : Option Phase)
          → by_id i phases ≡ o
          → no_run (map_option (skip_unreachable reached) o) ≡ (no_run o || not (is_in i reached))
      go none e = refl
      go (some p) e =
          is_done-skip_unreachable p
          ∙ ap (λ b. is_done p || not b)
              (same_image (λ j. is_in j reached) p.id i (by_id-id i phases p e))

-- A plan that is started from the id of a phase runs exactly the phases that follow it along the
-- dependencies and are neither done nor verified, each once.
pub build_execution_groups_from :
    (phases : List Phase) (c : ℕ) (cs : Text) (groups : List (List Phase))
    → is_in (c ∷ cs) (ids phases) ≡ true
    → build_execution_groups phases (some (c ∷ cs)) ≡ ok groups
    → (i : Text)
    → (count i (grouped groups) ≤ 1)
      × ((count i (grouped groups) ≡ 1)
          ↔ ((skipped phases i ≡ false) × Follows (distinct phases) (c ∷ cs) i))
unfolding build_execution_groups
build_execution_groups_from phases c cs groups known h i =
    let (reached, ends, follows) = reachable_forward_iff phases (c ∷ cs) known in
    let planned : plan_all (map (skip_unreachable reached) phases) ≡ ok groups =
      ap (plan_reachable phases) (sym ends)
      ∙ ap
          (λ b.
            if b
            then plan_reachable phases (reachable_forward phases (c ∷ cs))
            else raised (unknown_phase (c ∷ cs)))
          (sym known)
      ∙ h in
    let once = plan_all_once (map (skip_unreachable reached) phases) groups planned i in
    (
      ground (arith, once),
      (
        λ one. (
          ground (arith, one, once, skipped-map_skip reached phases i),
          (follows i).0 (ground (arith, one, once, skipped-map_skip reached phases i)),
        ),
        λ (run, f). ground (arith, once, skipped-map_skip reached phases i, run, (follows i).1 f),
      ),
    )
