-- ===== src/Runs/Lasting.antt =====
-- A completed run in the course of the service (services/agent_service.py).
use diecast.Prelude.{
  [], ◌∷◌, ◌++◌, ◌-◌, ◌≤◌, ◌≡◌, refl, sym, ap, ◌∙◌, Bool, true, false, not, ◌&&◌, ◌||◌, Option,
  none, some, List, Text, codes, text_eq, text_eq_iff, ◌⊎◌, inl, inr, if◌then◌else◌, arith,
  Bool-cases, some-inj, none-ne-some, true-ne-false,
}
use mathlib.Core.Path.{subst}
use diecast.Runs.{
  running, completed, Run, Status, Service, get_agent_run, is_active, is_ended, cancel_found,
  cancel_run, delete_found, delete_run, fail_found, fail_run, Failure, not_active, still_active,
  already_ended, bad_project_dir, raised, done,
}
use diecast.Runs.Finish.{
  Env, can_recheck, recheck_found, recheck_failed_run, recover_stale_runs, is_stale, is_watched,
  is_pending, is_text, has_files, finalize_run,
}
use diecast.Runs.Dispatch.{tick, promote_scheduled_runs, running_count}
use diecast.Runs.Delegation.{
  invoke_agent, invocation, effective_slug, Stamp, Trigger, new_run, create_if, trigger_agent,
  check_parent, some_text, initial_status,
}
use diecast.Runs.Monitor.{check_all_agents}
use diecast.Runs.Edits.{Edits, recheck_failed_run-Edits, recover_stale_runs-Edits, tick-Edits}
use diecast.Runs.Watched.{check_all_agents-Edits}
use diecast.Runs.Kin.{without, without_it, without_other}
use diecast.Runs.Bounded.{occurs, HasKeys, occurs-promote}
use diecast.Runs.Course.{
  Step, triggered, invoked, cancelled, failed_by_hand, deleted, rechecked, recovered, dispatched,
  checked,
}
use diecast.Runs.Depth.{passed, raised-ne-done, done-inj}
use diecast.Runs.Ended.{
  Others, Edits-get_agent_run, get_agent_run-update, filter-Others, next_runs-Others,
  get_agent_run-promote, get_agent_run-some-append, fail_with-Others,
}
use diecast.Runs.Keys.{Step-HasKeys}

went :
    (b : Bool) {u t : Service} (f : Failure)
    → (if b then done u else raised f) ≡ done t
    → (b ≡ true) × (u ≡ t)
went true f e = (refl, done-inj e)
went false f e = absurd (raised-ne-done e)

went_else :
    (b : Bool) {u t : Service} (f : Failure)
    → (if b then raised f else done u) ≡ done t
    → (b ≡ false) × (u ≡ t)
went_else true f e = absurd (raised-ne-done e)
went_else false f e = (refl, done-inj e)

got : (b : Bool) (u : Service) {t : Service} → (if b then some u else none) ≡ some t → b ≡ true
got true u e = refl
got false u e = absurd (none-ne-some e)

-- A run with a status of one kind and one with a status of another have different ids.
other_run :
    (kind : Status → Bool) (rs : List Run) (k i : Text) (x r : Run)
    → get_agent_run k rs ≡ some x
    → get_agent_run i rs ≡ some r
    → kind x.status ≡ true
    → kind r.status ≡ false
    → Others i k
other_run kind rs k i x r at_k at_i is_so is_not = elim (Bool-cases (text_eq k i)) [
  | inr e ↦ e
  | inl e ↦
      let one : some x ≡ some r =
        sym at_k ∙ ap (λ (j : Text). get_agent_run j rs) ((text_eq_iff k i).0 e) ∙ at_i in
      absurd (true-ne-false (sym is_so ∙ ap (λ (y : Run). kind y.status) (some-inj one) ∙ is_not))
]

absent_other :
    (rs : List Run) (i k : Text) (r : Run)
    → get_agent_run i rs ≡ some r
    → get_agent_run k rs ≡ none
    → Others i k
absent_other rs i k r here gone = elim (Bool-cases (text_eq k i)) [
  | inr e ↦ e
  | inl e ↦ absurd (
      none-ne-some
        (sym gone ∙ ap (λ (j : Text). get_agent_run j rs) ((text_eq_iff k i).0 e) ∙ here))
]

-- The run is as it was, or deleted.
abbrev pub Remains : Text → Run → Service → Type 0
Remains i r s = (get_agent_run i s.runs ≡ some r) ⊎ (get_agent_run i s.runs ≡ none)

module _ (i : Text) (r : Run) (s : Service) (is_done : r.status ≡ completed)
    (here : get_agent_run i s.runs ≡ some r) where
  edited : (t : Service) → Edits (Others i) s.runs t.runs → Remains i r t
  edited t edits = inl (Edits-get_agent_run i s.runs t.runs edits ∙ here)

  cancel_found-Remains :
      (k now : Text) (t : Service) (o : Option Run)
      → get_agent_run k s.runs ≡ o
      → cancel_found k now s o ≡ done t
      → Remains i r t
  cancel_found-Remains k now t none at_k e = absurd (raised-ne-done e)
  cancel_found-Remains k now t (some x) at_k e =
      let (active, it) = went (is_active x.status) not_active e in
      let other : Others i k =
        other_run is_active s.runs k i x r at_k here active (ap is_active is_done) in
      subst (Remains i r) it
        (inl (fail_with-Others i k (codes "Cancelled by user") now s other ∙ here))

  fail_found-Remains :
      (k now : Text) (t : Service) (o : Option Run)
      → get_agent_run k s.runs ≡ o
      → fail_found k now s o ≡ done t
      → Remains i r t
  fail_found-Remains k now t none at_k e = absurd (raised-ne-done e)
  fail_found-Remains k now t (some x) at_k e =
      let (unended, it) = went_else (is_ended x.status) already_ended e in
      let other : Others i k =
        other_run (λ st. not (is_ended st)) s.runs k i x r at_k here (ap not unended)
          (ap (λ st. not (is_ended st)) is_done) in
      subst (Remains i r) it
        (inl (fail_with-Others i k (codes "Manually marked as failed") now s other ∙ here))

  delete_found-Remains :
      (k : Text) (t : Service) (o : Option Run) → delete_found k s o ≡ done t → Remains i r t
  delete_found-Remains k t none e = absurd (raised-ne-done e)
  delete_found-Remains k t (some x) e =
      let (inactive, it) = went_else (is_active x.status) still_active e in
      subst (Remains i r) it (elim (Bool-cases (text_eq i k)) [
        | inl q ↦ inr (
            subst (λ (j : Text). get_agent_run j (without k s.runs) ≡ none)
              (sym ((text_eq_iff i k).0 q)) (without_it k s.runs))
        | inr q ↦ inl (without_other k s.runs i q ∙ here)
      ])

  recheck_found-Others :
      (env : Env) (k now : Text) (t : Service) (o : Option Run)
      → get_agent_run k s.runs ≡ o
      → recheck_found env k now s o ≡ some t
      → Others i k
  unfolding finalize_run
  recheck_found-Others env k now t none at_k e = absurd (none-ne-some e)
  recheck_found-Others env k now t (some x) at_k e =
      let all_three =
        got
          (can_recheck x.status
            && (is_text x.goal_slug || is_text (env.params_goal k))
            && has_files k s)
          (finalize_run env k now s) e in
      other_run can_recheck s.runs k i x r at_k here (ground (arith, all_three))
        (ap can_recheck is_done)

  create_if-Remains :
      (t : Trigger) (stamp : Stamp) (u : Service) (f : Option Failure) (st : Option Status)
      → create_if t stamp s f st ≡ done u
      → Remains i r u
  create_if-Remains t stamp u (some e) st h = absurd (raised-ne-done h)
  create_if-Remains t stamp u none none h = absurd (raised-ne-done h)
  create_if-Remains t stamp u none (some st) h =
      subst (Remains i r) (done-inj h)
        (inl (get_agent_run-some-append i r s.runs (new_run t stamp st) here))

Step-Remains :
    (i : Text) (r : Run) (s t : Service)
    → r.status ≡ completed
    → get_agent_run i s.runs ≡ some r
    → occurs i s.runs ≤ 1
    → Step s t
    → Remains i r t
unfolding invoke_agent trigger_agent cancel_run fail_run delete_run recheck_failed_run
Step-Remains i r s t is_done here key (triggered rules tr stamp _ _ fresh e) =
    create_if-Remains i r s is_done here tr stamp t
      (check_parent rules tr.agent_name (some_text tr.parent_run_id) s.runs)
      (initial_status rules stamp.seconds (some_text tr.scheduled_at))
      (passed (rules.has_project_dir tr.goal_slug) bad_project_dir e)
Step-Remains i r s _ is_done here key (invoked has_goal agent slug stamp _ fresh) =
    let x = new_run (invocation agent (effective_slug has_goal (some_text slug))) stamp running in
    let started : Run → Run = λ y. record y { started_at = some stamp.now } in
    let other : Others i stamp.run_id = absent_other s.runs i stamp.run_id r here fresh.0 in
    inl (
      get_agent_run-update i stamp.run_id started (λ y. (refl, refl)) other (s.runs ++ x ∷ [])
      ∙ get_agent_run-some-append i r s.runs x here)
Step-Remains i r s t is_done here key (cancelled k now _ _ e) =
    cancel_found-Remains i r s is_done here k now t (get_agent_run k s.runs) refl e
Step-Remains i r s t is_done here key (failed_by_hand k now _ _ e) =
    fail_found-Remains i r s is_done here k now t (get_agent_run k s.runs) refl e
Step-Remains i r s t is_done here key (deleted k _ _ e) =
    delete_found-Remains i r s is_done here k t (get_agent_run k s.runs) e
Step-Remains i r s t is_done here key (rechecked env k now _ _ e) = edited i r s is_done here t (
    recheck_failed_run-Edits env now k s t
      (recheck_found-Others i r s is_done here env k now t (get_agent_run k s.runs) refl e) e)
Step-Remains i r s _ is_done here key (recovered env live now _) =
    edited i r s is_done here (recover_stale_runs env live now s).0 (
      recover_stale_runs-Edits env now live s
        (filter-Others i (λ (x : Run). is_stale x.status) r (ap is_stale is_done) s.runs key here))
Step-Remains i r s _ is_done here key (dispatched n agents now _) =
    let rs = promote_scheduled_runs now s.runs in
    let promoted : get_agent_run i rs ≡ some r =
      get_agent_run-promote i now r is_done s.runs here in
    inl (
      Edits-get_agent_run i rs (tick n agents now s).runs (
        tick-Edits n agents now s (
          next_runs-Others i (n - running_count rs) r (ap is_pending is_done) rs
            (omega (arith, key, occurs-promote now i s.runs)) promoted))
      ∙ promoted)
Step-Remains i r s _ is_done here key (checked env watch clock _) =
    edited i r s is_done here (check_all_agents env watch clock s) (
      check_all_agents-Edits env watch clock s (
        filter-Others i (λ (x : Run). is_watched x.status) r (ap is_watched is_done) s.runs key
          here))

-- Where ids are distinct, they are after a trigger, an invocation, a cancellation, a failure by hand,
-- a deletion, a recheck, a recovery, an iteration of the dispatcher or one of the monitor; and a
-- completed run is then as it was in every column that `Run` keeps, or deleted: in its id, agent, status,
-- parent, times, error message and mark for attention.
pub Step-HasKeys-Remains :
    (i : Text) (r : Run) (s t : Service)
    → Step s t
    → HasKeys s.runs
    → get_agent_run i s.runs ≡ some r
    → r.status ≡ completed
    → HasKeys t.runs × Remains i r t
Step-HasKeys-Remains i r s t step keys here is_done =
    (Step-HasKeys s t step keys, Step-Remains i r s t is_done here (keys i) step)
