-- ===== src/Runs/Keys.antt =====
-- The key of the table in the course of the service (services/agent_service.py).
use diecast.Prelude.{
  ◌+◌, ◌≤◌, ◌≡◌, refl, ◌∙◌, Option, none, some, List, [], ◌∷◌, ◌++◌, Text, codes, text_eq,
  text_eq_iff, inl, inr, filter, arith, Bool-cases,
}
use mathlib.Core.Path.{subst}
use diecast.Runs.{
  running, Run, Status, Service, get_agent_run, fail, is_active, is_ended, fail_with, cancel_found,
  cancel_run, delete_found, delete_run, fail_found, fail_run, Failure, bad_project_dir, Result,
  raised, done,
}
use diecast.Runs.Finish.{recover_stale_runs, is_stale, is_watched}
use diecast.Runs.Delegation.{
  invoke_agent, invocation, effective_slug, Stamp, Trigger, new_run, create_if, trigger_agent,
  check_parent, some_text, initial_status,
}
use diecast.Runs.Monitor.{check_all_agents}
use diecast.Runs.Edits.{Edits, same, edit, recheck_failed_run-Edits, recover_stale_runs-Edits}
use diecast.Runs.Watched.{check_all_agents-Edits}
use diecast.Runs.Kin.{without}
use diecast.Runs.Bounded.{occurs, HasKeys, occurs-update, tick-running_count}
use diecast.Runs.Course.{
  Step, triggered, invoked, cancelled, failed_by_hand, deleted, rechecked, recovered, dispatched,
  checked, AnyId, All-AnyId,
}
use diecast.Runs.Depth.{passed}

Edits-occurs :
    {keys : Text → Type 0} (j : Text) (rs ts : List Run)
    → Edits keys rs ts
    → occurs j ts ≡ occurs j rs
Edits-occurs j rs _ same = refl
Edits-occurs j rs _ (edit ts k f key keeps edits) =
    occurs-update k f (λ x. (keeps x).0) j ts ∙ Edits-occurs j rs ts edits

occurs-append :
    (j : Text) (rs : List Run) (x : Run) → occurs j (rs ++ x ∷ []) ≡ occurs j rs + occurs j (x ∷ [])
occurs-append j [] x = omega arith
occurs-append j (y ∷ rs) x = omega (arith, occurs-append j rs x)

occurs-none : (j : Text) (rs : List Run) → get_agent_run j rs ≡ none → occurs j rs ≡ 0
unfolding get_agent_run
occurs-none j [] e = refl
occurs-none j (y ∷ rs) e = ground (arith, e, occurs-none j rs)

occurs-without : (j d : Text) (rs : List Run) → occurs j (without d rs) ≤ occurs j rs
occurs-without j d [] = omega arith
occurs-without j d (y ∷ rs) = elim (Bool-cases (text_eq y.id d)) [
  | inl e ↦ rw e (omega (arith, occurs-without j d rs))
  | inr e ↦ rw e (omega (arith, occurs-without j d rs))
]

-- The table keeps its key, whatever the result.
ResultKeys : Result → Type 0
ResultKeys o = elim o [ raised f ↦ Unit | done t ↦ HasKeys t.runs ]

module _ (s : Service) (keys : HasKeys s.runs) where
  edited-HasKeys : {p : Text → Type 0} (ts : List Run) → Edits p s.runs ts → HasKeys ts
  edited-HasKeys ts edits j = omega (arith, keys j, Edits-occurs j s.runs ts edits)

  failed-HasKeys : (k m now : Text) → HasKeys (fail_with k m now s).runs
  unfolding fail_with
  failed-HasKeys k m now j =
      omega (arith, keys j, occurs-update k (fail m now) (λ x. refl) j s.runs)

  cancel_found-HasKeys : (k now : Text) (o : Option Run) → ResultKeys (cancel_found k now s o)
  unfolding ResultKeys
  cancel_found-HasKeys k now none = tt
  cancel_found-HasKeys k now (some x) = elim (Bool-cases (is_active x.status)) [
    | inl e ↦ rw e (failed-HasKeys k (codes "Cancelled by user") now)
    | inr e ↦ rw e tt
  ]

  fail_found-HasKeys : (k now : Text) (o : Option Run) → ResultKeys (fail_found k now s o)
  unfolding ResultKeys
  fail_found-HasKeys k now none = tt
  fail_found-HasKeys k now (some x) = elim (Bool-cases (is_ended x.status)) [
    | inl e ↦ rw e tt
    | inr e ↦ rw e (failed-HasKeys k (codes "Manually marked as failed") now)
  ]

  delete_found-HasKeys : (k : Text) (o : Option Run) → ResultKeys (delete_found k s o)
  unfolding ResultKeys
  delete_found-HasKeys k none = tt
  delete_found-HasKeys k (some x) = elim (Bool-cases (is_active x.status)) [
    | inl e ↦ rw e tt
    | inr e ↦ rw e (λ j. omega (arith, keys j, occurs-without j k s.runs))
  ]

  create_if-HasKeys :
      (t : Trigger) (stamp : Stamp) (f : Option Failure) (st : Option Status)
      → get_agent_run stamp.run_id s.runs ≡ none
      → ResultKeys (create_if t stamp s f st)
  unfolding ResultKeys
  create_if-HasKeys t stamp (some e) st new = tt
  create_if-HasKeys t stamp none none new = tt
  create_if-HasKeys t stamp none (some st) new = λ j.
      let absent : occurs stamp.run_id s.runs ≡ 0 = occurs-none stamp.run_id s.runs new in
      elim (Bool-cases (text_eq stamp.run_id j)) [
        | inl e ↦
            let none_yet : occurs j s.runs ≡ 0 =
              subst (λ (k : Text). occurs k s.runs ≡ 0) ((text_eq_iff stamp.run_id j).0 e) absent in
            ground (arith, occurs-append j s.runs (new_run t stamp st), none_yet)
        | inr e ↦ ground (arith, occurs-append j s.runs (new_run t stamp st), keys j, e)
      ]

pub Step-HasKeys : (s t : Service) → Step s t → HasKeys s.runs → HasKeys t.runs
unfolding invoke_agent trigger_agent cancel_run fail_run delete_run ResultKeys
Step-HasKeys s t (triggered rules tr stamp _ _ fresh e) keys =
    subst ResultKeys (passed (rules.has_project_dir tr.goal_slug) bad_project_dir e) (
      create_if-HasKeys s keys tr stamp
        (check_parent rules tr.agent_name (some_text tr.parent_run_id) s.runs)
        (initial_status rules stamp.seconds (some_text tr.scheduled_at)) fresh.0)
Step-HasKeys s _ (invoked has_goal agent slug stamp _ fresh) keys =
    let t = invocation agent (effective_slug has_goal (some_text slug)) in
    let created : HasKeys (s.runs ++ new_run t stamp running ∷ []) =
      create_if-HasKeys s keys t stamp none (some running) fresh.0 in
    λ j. omega (
      arith,
      created j,
      occurs-update stamp.run_id (λ x. record x { started_at = some stamp.now }) (λ x. refl) j
          (s.runs ++ new_run t stamp running ∷ []),
    )
Step-HasKeys s t (cancelled k now _ _ e) keys =
    subst ResultKeys e (cancel_found-HasKeys s keys k now (get_agent_run k s.runs))
Step-HasKeys s t (failed_by_hand k now _ _ e) keys =
    subst ResultKeys e (fail_found-HasKeys s keys k now (get_agent_run k s.runs))
Step-HasKeys s t (deleted k _ _ e) keys =
    subst ResultKeys e (delete_found-HasKeys s keys k (get_agent_run k s.runs))
Step-HasKeys s t (rechecked env k now _ _ e) keys =
    edited-HasKeys s keys t.runs (recheck_failed_run-Edits {keys = AnyId} env now k s t tt e)
Step-HasKeys s _ (recovered env live now _) keys =
    edited-HasKeys s keys (recover_stale_runs env live now s).0.runs (
      recover_stale_runs-Edits {keys = AnyId} env now live s
        (All-AnyId (filter (λ (x : Run). is_stale x.status) s.runs)))
Step-HasKeys s _ (dispatched n agents now _) keys =
    λ i. omega (arith, keys i, (tick-running_count n agents now s keys).1 i)
Step-HasKeys s _ (checked env watch clock _) keys =
    edited-HasKeys s keys (check_all_agents env watch clock s).runs (
      check_all_agents-Edits {keys = AnyId} env watch clock s
        (All-AnyId (filter (λ (x : Run). is_watched x.status) s.runs)))
