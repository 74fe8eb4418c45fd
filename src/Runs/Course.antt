-- ===== src/Runs/Course.antt =====
-- The operations on runs as steps of one service (services/agent_service.py).
use diecast.Prelude.{
  ◌++◌, none-ne-some, ℕ, ◌-◌, ◌≡◌, refl, ◌∙◌, Bool, Option, none, some, List, [], ◌∷◌, Text, codes,
  inl, inr, All, filter, Bool-cases,
}
use mathlib.Core.Path.{subst}
use diecast.Runs.{
  running, Run, Service, update_agent_run, get_agent_run, fail, is_active, is_ended, fail_with,
  cancel_found, cancel_run, delete_found, delete_run, fail_found, fail_run, Result, raised, done,
}
use diecast.Runs.Finish.{Env, is_watched, recheck_failed_run, recover_stale_runs, is_stale}
use diecast.Runs.Dispatch.{Agents, tick, promote_scheduled_runs, running_count, next_runs}
use diecast.Runs.Delegation.{
  Rules, Stamp, Trigger, trigger_agent, invoke_agent, invocation, effective_slug, new_run,
  some_text,
}
use diecast.Runs.Monitor.{Watch, Clock, check_all_agents}
use diecast.Runs.Edits.{recheck_failed_run-Edits, recover_stale_runs-Edits, tick-Edits}
use diecast.Runs.Watched.{check_all_agents-Edits}
use diecast.Runs.Kin.{Kin, Under, update-Kin, promote-Kin, Edits-Kin, delete-Under}
use diecast.Runs.Depth.{
  IsFresh, IsShallow, Under-IsShallow, append-IsShallow, trigger_agent-IsShallow,
}

fail_with-Kin : (i e now : Text) (s : Service) → Kin s.runs (fail_with i e now s).runs
unfolding fail_with update_agent_run
fail_with-Kin i e now s = update-Kin i (fail e now) (λ x. (refl, refl)) s.runs

-- A result of an operation by hand has the chains that were, or parts of them.
ResultUnder : Service → Result → Type 0
ResultUnder s o = elim o [ raised f ↦ Unit | done t ↦ Under s.runs t.runs ]

cancel_found-Under :
    (i now : Text) (s : Service) (o : Option Run) → ResultUnder s (cancel_found i now s o)
unfolding ResultUnder
cancel_found-Under i now s none = tt
cancel_found-Under i now s (some r) = elim (Bool-cases (is_active r.status)) [
  | inl e ↦ rw e (λ j. inl (fail_with-Kin i (codes "Cancelled by user") now s j))
  | inr e ↦ rw e tt
]

fail_found-Under :
    (i now : Text) (s : Service) (o : Option Run) → ResultUnder s (fail_found i now s o)
unfolding ResultUnder
fail_found-Under i now s none = tt
fail_found-Under i now s (some r) = elim (Bool-cases (is_ended r.status)) [
  | inl e ↦ rw e tt
  | inr e ↦ rw e (λ j. inl (fail_with-Kin i (codes "Manually marked as failed") now s j))
]

delete_found-Under : (i : Text) (s : Service) (o : Option Run) → ResultUnder s (delete_found i s o)
unfolding ResultUnder
delete_found-Under i s none = tt
delete_found-Under i s (some r) = elim (Bool-cases (is_active r.status)) [
  | inl e ↦ rw e tt
  | inr e ↦ rw e (delete-Under i s.runs)
]

Result-Under : (s t : Service) (o : Result) → o ≡ done t → ResultUnder s o → Under s.runs t.runs
unfolding ResultUnder
Result-Under s t o e h = subst (ResultUnder s) e h

-- One operation, at some time and with what it reads then; a new id is fresh.
pub data Step : Service → Service → Type 0 where
  triggered :
      (rules : Rules) (t : Trigger) (stamp : Stamp) (s s2 : Service)
      → IsFresh stamp.run_id s.runs
      → trigger_agent rules t stamp s ≡ done s2
      → Step s s2
  invoked :
      (has_goal : Text → Bool) (agent_name : Text) (goal_slug : Option Text) (stamp : Stamp)
      (s : Service)
      → IsFresh stamp.run_id s.runs
      → Step s (invoke_agent has_goal agent_name goal_slug stamp s)
  cancelled : (i now : Text) (s s2 : Service) → cancel_run i now s ≡ done s2 → Step s s2
  failed_by_hand : (i now : Text) (s s2 : Service) → fail_run i now s ≡ done s2 → Step s s2
  deleted : (i : Text) (s s2 : Service) → delete_run i s ≡ done s2 → Step s s2
  rechecked :
      (env : Env) (i now : Text) (s s2 : Service)
      → recheck_failed_run env i now s ≡ some s2
      → Step s s2
  recovered :
      (env : Env) (session_exists : Text → Bool) (now : Text) (s : Service)
      → Step s (recover_stale_runs env session_exists now s).0
  dispatched :
      (max_concurrent : ℕ) (agents : Agents) (now : Text) (s : Service)
      → Step s (tick max_concurrent agents now s)
  checked :
      (env : Env) (watch : Watch) (clock : Clock) (s : Service)
      → Step s (check_all_agents env watch clock s)

pub data Steps : Service → Service → Type 0 where
  stay : (s : Service) → Steps s s
  next : (s t u : Service) → Steps s t → Step t u → Steps s u

abbrev pub AnyId : Text → Type 0
AnyId i = Unit

pub All-AnyId : (rows : List Run) → All (λ (r : Run). AnyId r.id) rows
All-AnyId [] = tt
All-AnyId (r ∷ rows) = (tt, All-AnyId rows)

Step-IsShallow : (s t : Service) → Step s t → IsShallow s.runs → IsShallow t.runs
unfolding cancel_run fail_run delete_run invoke_agent
Step-IsShallow s t (triggered rules tr stamp _ _ fresh e) h =
    trigger_agent-IsShallow rules tr stamp s t e fresh h
Step-IsShallow s _ (invoked has_goal agent slug stamp _ fresh) h =
    let r = new_run (invocation agent (effective_slug has_goal (some_text slug))) stamp running in
    let t = invoke_agent has_goal agent slug stamp s in
    Under-IsShallow (s.runs ++ r ∷ []) t.runs
      (λ j. inl (
        update-Kin stamp.run_id (λ x. record x { started_at = some stamp.now }) (λ x. (refl, refl))
          (s.runs ++ r ∷ []) j))
      (append-IsShallow s.runs r fresh (λ p named. absurd (none-ne-some named)) h)
Step-IsShallow s t (cancelled i now _ _ e) h =
    Under-IsShallow s.runs t.runs
      (Result-Under s t (cancel_run i now s) e
        (cancel_found-Under i now s (get_agent_run i s.runs)))
      h
Step-IsShallow s t (failed_by_hand i now _ _ e) h =
    Under-IsShallow s.runs t.runs
      (Result-Under s t (fail_run i now s) e (fail_found-Under i now s (get_agent_run i s.runs))) h
Step-IsShallow s t (deleted i _ _ e) h =
    Under-IsShallow s.runs t.runs
      (Result-Under s t (delete_run i s) e (delete_found-Under i s (get_agent_run i s.runs))) h
Step-IsShallow s t (rechecked env i now _ _ e) h =
    Under-IsShallow s.runs t.runs
      (λ j.
        inl
          (Edits-Kin s.runs t.runs (recheck_failed_run-Edits {keys = AnyId} env now i s t tt e) j))
      h
Step-IsShallow s _ (recovered env live now _) h =
    let t = (recover_stale_runs env live now s).0 in
    Under-IsShallow s.runs t.runs
      (λ j. inl (
        Edits-Kin s.runs t.runs
          (recover_stale_runs-Edits {keys = AnyId} env now live s
            (All-AnyId (filter (λ (r : Run). is_stale r.status) s.runs)))
          j))
      h
Step-IsShallow s _ (dispatched n agents now _) h =
    let rs = promote_scheduled_runs now s.runs in
    let t = tick n agents now s in
    Under-IsShallow s.runs t.runs
      (λ j. inl (
        Edits-Kin rs t.runs
          (tick-Edits {keys = AnyId} n agents now s
            (All-AnyId (next_runs (n - running_count rs) rs)))
          j
        ∙ promote-Kin now s.runs j))
      h
Step-IsShallow s _ (checked env watch clock _) h =
    let t = check_all_agents env watch clock s in
    Under-IsShallow s.runs t.runs
      (λ j. inl (
        Edits-Kin s.runs t.runs
          (check_all_agents-Edits {keys = AnyId} env watch clock s
            (All-AnyId (filter (λ (r : Run). is_watched r.status) s.runs)))
          j))
      h

-- Where no chain of delegations is longer than the limit, none is after any series of triggers,
-- invocations, cancellations, failures by hand, deletions, rechecks, recoveries, iterations of the dispatcher and
-- of the monitor, where each new id is fresh.
pub Steps-IsShallow : (s t : Service) → Steps s t → IsShallow s.runs → IsShallow t.runs
Steps-IsShallow s _ (stay _) h = h
Steps-IsShallow s t (next _ m _ steps step) h =
    Step-IsShallow m t step (Steps-IsShallow s m steps h)
