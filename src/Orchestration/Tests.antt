-- ===== src/Orchestration/Tests.antt =====
-- A manifest of five phases and one with a cycle (services/orchestration_service.py).
use diecast.Prelude.{
  none, ℕ, ◌≤◌, ◌≡◌, ◌↔◌, refl, true, false, some, List, [], ◌∷◌, Text, codes, text_eq, All, ◌⊎◌,
}
use diecast.Orchestration.{
  Phase, ok, raised, cycle, unknown_phase, is_in, count, keys, plan_all, build_execution_groups,
  by_id, is_done, reachable_forward,
}
use diecast.Orchestration.Rounds.{grouped, skipped}
use diecast.Orchestration.Order.{ordered}
use diecast.Orchestration.Complete.{plan_all-ordered, plan_all_once}
use diecast.Orchestration.Cycles.{is_stuck, plan_all-cycle, plan_all_acyclic}
use diecast.Orchestration.Reach.{Follows, distinct, reachable_forward_iff}
use diecast.Orchestration.Manifest.{update_manifest_status}
use diecast.Orchestration.From.{build_execution_groups_from}

abbrev phase : Text → List Text → Text → Phase
phase i deps status = record {
  id = i;
  name = codes "work";
  file = codes "work.md";
  depends_on = deps;
  status = status;
  notes = [];
}

abbrev first : Phase
first = phase (codes "1") [] (codes "Done")

abbrev second : Phase
second = phase (codes "2") (codes "1" ∷ codes "zz" ∷ []) (codes "Not Started")

abbrev third : Phase
third = phase (codes "3") (codes "4" ∷ codes "2" ∷ codes "2" ∷ []) (codes "Not Started")

abbrev fourth : Phase
fourth = phase (codes "4") (codes "1" ∷ []) (codes "Blocked")

abbrev fifth : Phase
fifth = phase (codes "5") [] (codes "Not Started")

abbrev five : List Phase
five = third ∷ first ∷ second ∷ fourth ∷ fifth ∷ []

abbrev knot : List Phase
knot =
    first
    ∷ phase (codes "2") (codes "3" ∷ []) []
    ∷ phase (codes "3") (codes "1" ∷ codes "2" ∷ []) []
    ∷ []

abbrev rank : Text → ℕ
rank i = elim (text_eq i (codes "3")) [
  | true ↦ 2
  | false ↦ elim (text_eq i (codes "1")) [ true ↦ 0 | false ↦ 1 ]
]

plan_five : plan_all five ≡ ok ((fifth ∷ []) ∷ (second ∷ fourth ∷ []) ∷ (third ∷ []) ∷ [])
unfolding plan_all
plan_five = refl

plan_knot : plan_all knot ≡ raised (cycle (codes "2" ∷ codes "3" ∷ []))
unfolding plan_all
plan_knot = refl

-- Phases that share an id raise the cycle error, naming none.
plan_same_id : plan_all (first ∷ first ∷ []) ≡ raised (cycle [])
unfolding plan_all
plan_same_id = refl

unknown : build_execution_groups five (some (codes "9")) ≡ raised (unknown_phase (codes "9"))
unfolding build_execution_groups
unknown = refl

from_two : build_execution_groups five (some (codes "2")) ≡ ok ((second ∷ []) ∷ (third ∷ []) ∷ [])
unfolding build_execution_groups
from_two = refl

plan_all-ordered_example :
    ordered five [] ((fifth ∷ []) ∷ (second ∷ fourth ∷ []) ∷ (third ∷ []) ∷ []) ≡ true
plan_all-ordered_example = plan_all-ordered five _ plan_five

plan_all_once_example :
    count (codes "2") (grouped ((fifth ∷ []) ∷ (second ∷ fourth ∷ []) ∷ (third ∷ []) ∷ [])) ≡ 1
unfolding by_id is_done
plan_all_once_example = plan_all_once five _ plan_five (codes "2")

plan_all-cycle_example :
    ((groups : List (List Phase)) × (plan_all knot ≡ ok groups))
    ⊎ ((stuck : List Text) × (plan_all knot ≡ raised (cycle stuck))
        × All (λ (i : Text). is_stuck knot stuck i ≡ true) stuck)
plan_all-cycle_example = plan_all-cycle knot

plan_all_acyclic_example : (groups : List (List Phase)) × (plan_all five ≡ ok groups)
unfolding keys
plan_all_acyclic_example = plan_all_acyclic five rank refl refl

reachable_forward_iff_example :
    (reached : List Text) × (reachable_forward five (codes "2") ≡ some reached)
    × ((i : Text) → (is_in i reached ≡ true) ↔ Follows (distinct five) (codes "2") i)
reachable_forward_iff_example = reachable_forward_iff five (codes "2") refl

build_execution_groups_from_example :
    (count (codes "3") (grouped ((second ∷ []) ∷ (third ∷ []) ∷ [])) ≤ 1)
    × ((count (codes "3") (grouped ((second ∷ []) ∷ (third ∷ []) ∷ [])) ≡ 1)
        ↔ ((skipped five (codes "3") ≡ false) × Follows (distinct five) (codes "2") (codes "3")))
build_execution_groups_from_example =
    build_execution_groups_from five b'2' [] _ refl from_two (codes "3")

abbrev manifest : Text
manifest = codes "#\n|#|Status|\n|1|Done|\n|2|Due|"

abbrev manifest_after : Text
manifest_after = codes "#\n|#|Status|\n|1|Done|\n|2| Ran |\n"

no_row : update_manifest_status manifest (codes "3") (codes "Ran") [] ≡ none
unfolding update_manifest_status
no_row = refl
