-- ===== src/Runs/Watched.antt =====
-- What the monitor writes, as changes of the rows that it watches (services/agent_service.py).
use diecast.Prelude.{
  ℕ, ◌-◌, refl, Bool, true, false, not, ◌&&◌, some, List, [], ◌∷◌, Text, codes, inl, inr, All,
  filter, leb, Bool-cases,
}
use diecast.Runs.{running, rate_limited, stuck, Run, Service, set_at, fail}
use diecast.Runs.Finish.{Env, has_files, is_watched}
use diecast.Runs.Monitor.{
  AgentState, working, idle, shell_returned, waiting_input, limit_reached, unknown, Watch, Clock,
  or_now, finalize_run_from_monitor, mark_idle, track_idle, exit_run, handle_idle, resume_run,
  is_over, is_rate_limited, handle_limit, handle_state_transition, state_of, check_runs,
  check_all_agents,
}
use diecast.Runs.Edits.{Edits, same, edit_at, join-Edits, finalize_run-Edits}

module _ {keys : Text → Type 0} (env : Env) (watch : Watch) (clock : Clock) where
  mark_idle-Edits :
      (i : Text) (d : ℕ) (s : Service) → keys i → Edits keys s.runs (mark_idle watch i d s).runs
  unfolding mark_idle
  mark_idle-Edits i d s key = elim (Bool-cases (leb watch.idle_stuck d)) [
    | inl e ↦ rw e (edit_at i (λ r. record r { status = stuck }) key (λ x. (refl, refl)))
    | inr e ↦ rw e (elim (Bool-cases (leb watch.idle_warning d)) [
      | inl w ↦ rw w (edit_at i (λ r. record r { needs_attention = true }) key (λ x. (refl, refl)))
      | inr w ↦ rw w (same)
    ])
  ]

  track_idle-Edits :
      (run : Run) (s : Service)
      → keys run.id
      → Edits keys s.runs (track_idle watch clock run s).runs
  unfolding track_idle
  track_idle-Edits run s key = elim (Bool-cases (watch.interactive run.agent_name)) [
    | inl e ↦ rw e (same)
    | inr e ↦ rw e (
        mark_idle-Edits run.id (clock.seconds - or_now clock.seconds (s.idle_since run.id))
          (record s {
            idle_since =
                set_at run.id (some (or_now clock.seconds (s.idle_since run.id))) s.idle_since;
          })
          key)
  ]

  handle_idle-Edits :
      (returned : Bool) (run : Run) (s : Service)
      → keys run.id
      → Edits keys s.runs (handle_idle env watch clock returned run s).runs
  unfolding handle_idle finalize_run_from_monitor exit_run
  handle_idle-Edits returned run s key = elim (Bool-cases (has_files run.id s)) [
    | inl e ↦ rw e (finalize_run-Edits env clock.now run.id s key)
    | inr e ↦ rw e (elim (Bool-cases (returned && not (watch.session_exists run.id))) [
      | inl w ↦ rw w (
          edit_at run.id (fail (codes "Agent process exited without producing output") clock.now)
            key (λ x. (refl, refl)))
      | inr w ↦ rw w (track_idle-Edits run s key)
    ])
  ]

  handle_limit-Edits :
      (run : Run) (s : Service)
      → keys run.id
      → Edits keys s.runs (handle_limit watch clock run s).runs
  unfolding handle_limit resume_run
  handle_limit-Edits run s key = elim (Bool-cases (is_rate_limited run.status)) [
    | inr e ↦
        rw e (edit_at run.id (λ r. record r { status = rate_limited }) key (λ x. (refl, refl)))
    | inl e ↦ rw e (elim (Bool-cases (is_over clock.seconds (s.cooldown_until run.id))) [
      | inl w ↦ rw w (edit_at run.id (λ r. record r { status = running }) key (λ x. (refl, refl)))
      | inr w ↦ rw w (same)
    ])
  ]

  transition-Edits :
      (run : Run) (state : AgentState) (s : Service)
      → keys run.id
      → Edits keys s.runs (handle_state_transition env watch clock run state s).runs
  unfolding handle_state_transition
  transition-Edits run working s key = same
  transition-Edits run idle s key = handle_idle-Edits false run s key
  transition-Edits run shell_returned s key = handle_idle-Edits true run s key
  transition-Edits run waiting_input s key =
      edit_at run.id (λ r. record r { status = stuck; needs_attention = true }) key
        (λ x. (refl, refl))
  transition-Edits run limit_reached s key = handle_limit-Edits run s key
  transition-Edits run unknown s key = same

  check_runs-Edits :
      (rows : List Run) (s : Service)
      → All (λ (r : Run). keys r.id) rows
      → Edits keys s.runs (check_runs env watch clock rows s).runs
  unfolding check_runs
  check_runs-Edits [] s ids = same
  check_runs-Edits (run ∷ rest) s ids =
      let t = handle_state_transition env watch clock run (state_of watch run.id) s in
      join-Edits (transition-Edits run (state_of watch run.id) s ids.0)
        (check_runs-Edits rest t ids.1)

  pub check_all_agents-Edits :
      (s : Service)
      → All (λ (r : Run). keys r.id) (filter (λ (r : Run). is_watched r.status) s.runs)
      → Edits keys s.runs (check_all_agents env watch clock s).runs
  unfolding check_all_agents
  check_all_agents-Edits s ids =
      check_runs-Edits (filter (λ (r : Run). is_watched r.status) s.runs) s ids
