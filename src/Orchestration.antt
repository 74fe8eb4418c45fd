-- ===== src/Orchestration.antt =====
-- services/orchestration_service.py: the phases of a manifest, and the groups in which they run.
pub mod Counts
pub mod Release
pub mod Rounds
pub mod Order
pub mod Complete
pub mod Cycles
pub mod Reach
pub mod From
pub mod Manifest
pub mod Header
pub mod Noted
pub mod Updates
pub mod Cells
mod Tests
use diecast.Prelude.{
  ℕ, zero, suc, ◌+◌, ◌-◌, ◌≡◌, Bool, true, false, not, ◌&&◌, ◌||◌, Option, none, some, List, [],
  ◌∷◌, ◌++◌, map, Text, codes, text_eq, starts_with, length, filter, any, ◌==◌, ltb, if◌then◌else◌,
}

pub record Phase : Type 0 where
  pub id : Text
  pub name : Text
  pub file : Text
  pub depends_on : List Text
  pub status : Text
  pub notes : Text

-- `x in xs`, and how often it is there
abbrev pub is_in : Text → List Text → Bool
is_in i xs = any (λ x. text_eq x i) xs

abbrev pub count : Text → List Text → ℕ
count i [] = 0
count i (x ∷ xs) = (if text_eq x i then 1 else 0) + count i xs

-- The keys of a dict that is filled in this order
unfoldable pub keys : List Phase → List Text
keys [] = []
keys (p ∷ ps) = p.id ∷ filter (λ i. not (text_eq i p.id)) (keys ps)

abbrev pub ids : List Phase → List Text
ids [] = []
ids (p ∷ ps) = p.id ∷ ids ps

-- `by_id[i]`: of two phases with one id the later
abbrev pub or_else : Option Phase → Phase → Text → Option Phase
or_else (some q) p i = some q
or_else none p i = if text_eq p.id i then some p else none

unfoldable pub by_id : Text → List Phase → Option Phase
by_id i [] = none
by_id i (p ∷ ps) = or_else (by_id i ps) p i

unfoldable pub is_done : Phase → Bool
is_done p = text_eq p.status (codes "Done") || text_eq p.status (codes "Verified")

module _ (phases : List Phase) where
  -- How many of the names are those of phases
  abbrev pub known : List Text → ℕ
  known [] = 0
  known (d ∷ ds) = (if is_in d (ids phases) then 1 else 0) + known ds

  -- The in-degree of a key, after the first loop
  unfoldable pub degree : Text → List Phase → ℕ
  degree i [] = 0
  degree i (p ∷ ps) = (if text_eq p.id i then known p.depends_on else 0) + degree i ps

abbrev pub repeated : Text → Text → List Text → List Text
repeated d i [] = []
repeated d i (e ∷ es) = let rest = repeated d i es in if text_eq e d then i ∷ rest else rest

-- `children[d]`
unfoldable pub children : Text → List Phase → List Text
children d [] = []
children d (p ∷ ps) = repeated d p.id p.depends_on ++ children d ps

-- The dict `in_degree` as a function on the keys.
abbrev pub Degrees : Type 0
Degrees = Text → ℕ

abbrev pub lower_degree : Text → Degrees → Degrees
lower_degree c deg i = if text_eq c i then deg i - 1 else deg i

-- The inner loop: each child's degree goes down, and a child at zero joins the next queue.
unfoldable pub release : List Text → Degrees → List Text → Degrees × List Text
release [] deg next = (deg, next)
release (c ∷ cs) deg next =
    let deg' = lower_degree c deg in release cs deg' (if deg' c == 0 then next ++ c ∷ [] else next)

abbrev pub add_to : Option Phase → List Phase → List Phase
add_to none group = group
add_to (some p) group = if is_done p then group else group ++ p ∷ []

-- One round of the outer loop, over the queue
pub record Round : Type 0 where
  pub degrees : Degrees
  pub next : List Text
  pub group : List Phase
  pub visited : ℕ

unfoldable pub visit : List Phase → Text → Round → Round
unfolding by_id is_done children release
visit phases pid r =
    let (deg, next) = release (children pid phases) r.degrees r.next in
    record {
      degrees = deg;
      next = next;
      group = add_to (by_id pid phases) r.group;
      visited = suc r.visited;
    }

unfoldable pub run_round : List Phase → List Text → Round → Round
unfolding visit
run_round phases [] r = r
run_round phases (pid ∷ queue) r = run_round phases queue (visit phases pid r)

-- `if group: groups.append(group)`
abbrev pub add_group : List Phase → List (List Phase) → List (List Phase)
add_group [] groups = groups
add_group (p ∷ ps) groups = groups ++ (p ∷ ps) ∷ []

-- The `while`, on fuel: the groups, how many were visited, and the degrees at the end
unfoldable pub run_rounds :
    ℕ
    → List Phase
    → List Text
    → Degrees
    → ℕ
    → List (List Phase)
    → Option (List (List Phase) × ℕ × Degrees)
unfolding run_round
run_rounds fuel phases [] deg visited groups = some (groups, visited, deg)
run_rounds zero phases (q ∷ queue) deg visited groups = none
run_rounds (suc fuel) phases (q ∷ queue) deg visited groups =
    let r =
      run_round phases (q ∷ queue)
        (record { degrees = deg; next = []; group = []; visited = visited }) in
    run_rounds fuel phases r.next r.degrees r.visited (add_group r.group groups)

-- `ValueError`: the phase to start from is not there, or there is a cycle.
pub data Failure : Type 0 where
  unknown_phase : Text → Failure
  cycle : List Text → Failure
  out_of_fuel : Failure

pub data Plan : Type 0 where
  ok : List (List Phase) → Plan
  raised : Failure → Plan

abbrev pub check_visited : List Phase → Option (List (List Phase) × ℕ × Degrees) → Plan
check_visited phases none = raised out_of_fuel
check_visited phases (some (groups, visited, deg)) =
    if visited == length phases
    then ok groups
    else raised (cycle (filter (λ i. ltb 0 (deg i)) (ids phases)))

-- `build_execution_groups` with no phase to start from
unfoldable pub plan_all : List Phase → Plan
unfolding keys degree run_rounds
plan_all phases =
    let deg : Degrees = λ i. degree phases i phases in
    check_visited phases
      (run_rounds (suc (length phases)) phases (filter (λ i. deg i == 0) (keys phases)) deg 0 [])

-- `by_id.values()`
abbrev pub add_found : Option Phase → List Phase → List Phase
add_found none ps = ps
add_found (some p) ps = p ∷ ps

unfoldable pub values : List Text → List Phase → List Phase
values [] phases = []
values (i ∷ is) phases = add_found (by_id i phases) (values is phases)

-- The `while` of `_reachable_forward`; the fuel bounds the names that become reachable.
unfoldable pub reach : ℕ → List Phase → List Text → List Text → Option (List Text)
unfolding children
reach fuel ps [] reachable = some reachable
reach zero ps (pid ∷ queue) reachable = elim (is_in pid reachable) [
  | true ↦ reach zero ps queue reachable
  | false ↦ none
]
reach (suc fuel) ps (pid ∷ queue) reachable = elim (is_in pid reachable) [
  | true ↦ reach (suc fuel) ps queue reachable
  | false ↦ reach fuel ps (queue ++ children pid ps) (pid ∷ reachable)
]

unfoldable pub reachable_forward : List Phase → Text → Option (List Text)
unfolding values reach
reachable_forward phases start =
    reach (suc (length phases)) (values (keys phases) phases) (start ∷ []) []

abbrev pub skip_unreachable : List Text → Phase → Phase
skip_unreachable reachable p = record {
  id = p.id;
  name = p.name;
  file = p.file;
  depends_on = p.depends_on;
  status = if is_in p.id reachable then p.status else codes "Done";
  notes = p.notes;
}

abbrev pub plan_reachable : List Phase → Option (List Text) → Plan
plan_reachable phases none = raised out_of_fuel
plan_reachable phases (some reachable) = plan_all (map (skip_unreachable reachable) phases)

unfoldable pub build_execution_groups : List Phase → Option Text → Plan
unfolding plan_all reachable_forward
build_execution_groups phases none = plan_all phases
build_execution_groups phases (some []) = plan_all phases
build_execution_groups phases (some (c ∷ cs)) =
    if is_in (c ∷ cs) (ids phases)
    then plan_reachable phases (reachable_forward phases (c ∷ cs))
    else raised (unknown_phase (c ∷ cs))
