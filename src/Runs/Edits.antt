-- ===== src/Runs/Edits.antt =====
-- What the operations write, as changes of the rows with certain ids (services/agent_service.py).
use diecast.Prelude.{
  ℕ, ◌-◌, ◌≡◌, refl, Bool, true, false, ◌&&◌, ◌||◌, Option, none, some, List, [], ◌∷◌, ◌++◌, Text,
  codes, inl, inr, All, filter, ltb, if◌then◌else◌, Bool-cases,
}
use mathlib.Core.Path.{subst}
use diecast.Runs.{running, Run, Service, update_agent_run, get_agent_run, fail}
use diecast.Runs.Finish.{
  Env, finish, finalize_run, recheck_found, recheck_failed_run, can_recheck, is_text, has_files,
  is_pending, is_stale, Recovery, force_fail, or_keep, or_fail, recover_row, recover_rows,
  recover_stale_runs,
}
use diecast.Runs.Dispatch.{
  promote_scheduled_runs, running_count, launch_found, launch_agent, blocked_message, Agents,
  may_launch, dispatch_run, dispatch_runs, next_runs, tick,
}

-- The change keeps a run's name and its parent.
abbrev pub KeepsKin : (Run → Run) → Type 0
KeepsKin f = (r : Run) → ((f r).id ≡ r.id) × ((f r).parent_run_id ≡ r.parent_run_id)

-- The second table is the first after changes of rows whose ids are keys.
pub data Edits (keys : Text → Type 0) (rs : List Run) : List Run → Type 0 where
  same : Edits keys rs rs
  edit :
      (ts : List Run) (k : Text) (f : Run → Run)
      → keys k
      → KeepsKin f
      → Edits keys rs ts
      → Edits keys rs (update_agent_run k f ts)

pub join-Edits :
    {keys : Text → Type 0} {rs ts us : List Run}
    → Edits keys rs ts
    → Edits keys ts us
    → Edits keys rs us
join-Edits first same = first
join-Edits first (edit us k f key keeps rest) = edit us k f key keeps (join-Edits first rest)

pub edit_at :
    {keys : Text → Type 0} {rs : List Run} (k : Text) (f : Run → Run)
    → keys k
    → KeepsKin f
    → Edits keys rs (update_agent_run k f rs)
edit_at {rs = rs} k f key keeps = edit rs k f key keeps same

-- What the check of a run gives has such changes.
OptionEdits : (Text → Type 0) → Service → Option Service → Type 0
OptionEdits keys s o = elim o [ none ↦ Unit | some t ↦ Edits keys s.runs t.runs ]

recheck_found-Edits :
    (keys : Text → Type 0) (env : Env) (now i : Text) (s : Service) (o : Option Run)
    → keys i
    → OptionEdits keys s (recheck_found env i now s o)
unfolding OptionEdits finalize_run finish
recheck_found-Edits keys env now i s none key = tt
recheck_found-Edits keys env now i s (some r) key =
    go (
      can_recheck r.status && (is_text r.goal_slug || is_text (env.params_goal i)) && has_files i s)
  where
    go : (b : Bool) → OptionEdits keys s (if b then some (finalize_run env i now s) else none)
    go true = edit_at i (finish env now (s.output_file i)) key (λ x. (refl, refl))
    go false = tt

module _ {keys : Text → Type 0} where
  launch_found-Edits :
      (i now : Text) (problem : Option Text) (s : Service) (o : Option Run)
      → keys i
      → Edits keys s.runs (launch_found i now problem s o).runs
  unfolding update_agent_run
  launch_found-Edits i now problem s none key = same
  launch_found-Edits i now none s (some r) key = elim (Bool-cases (is_pending r.status)) [
    | inl e ↦ rw e (
        edit_at i (λ x. record x { status = running; started_at = some now }) key
          (λ x. (refl, refl)))
    | inr e ↦ rw e (same)
  ]
  launch_found-Edits i now (some m) s (some r) key = elim (Bool-cases (is_pending r.status)) [
    | inl e ↦ rw e (edit_at i (fail (codes "Launch failed: " ++ m) now) key (λ x. (refl, refl)))
    | inr e ↦ rw e (same)
  ]

  dispatch_run-Edits :
      (agents : Agents) (now i : Text) (s : Service)
      → keys i
      → Edits keys s.runs (dispatch_run agents now i s).runs
  unfolding dispatch_run launch_agent
  dispatch_run-Edits agents now i s key =
      elim (Bool-cases (may_launch agents (get_agent_run i s.runs))) [
        | inl e ↦ rw e (launch_found-Edits i now (agents.problem i) s (get_agent_run i s.runs) key)
        | inr e ↦ rw e (edit_at i (fail blocked_message now) key (λ x. (refl, refl)))
      ]

  dispatch_runs-Edits :
      (agents : Agents) (now : Text) (rows : List Run) (s : Service)
      → All (λ (r : Run). keys r.id) rows
      → Edits keys s.runs (dispatch_runs agents now rows s).runs
  unfolding dispatch_runs
  dispatch_runs-Edits agents now [] s ids = same
  dispatch_runs-Edits agents now (r ∷ rows) s ids =
      join-Edits (dispatch_run-Edits agents now r.id s ids.0)
        (dispatch_runs-Edits agents now rows (dispatch_run agents now r.id s) ids.1)

  pub tick-Edits :
      (n : ℕ) (agents : Agents) (now : Text) (s : Service)
      → All
          (λ (r : Run). keys r.id)
          (next_runs
            (n - running_count (promote_scheduled_runs now s.runs))
            (promote_scheduled_runs now s.runs))
      → Edits keys (promote_scheduled_runs now s.runs) (tick n agents now s).runs
  unfolding tick
  tick-Edits n agents now s ids =
      let rs = promote_scheduled_runs now s.runs in
      elim (Bool-cases (ltb (running_count rs) n)) [
        | inl e ↦ rw e (
            dispatch_runs-Edits agents now (next_runs (n - running_count rs) rs)
              (record s { runs = rs }) ids)
        | inr e ↦ rw e same
      ]

  module _ (env : Env) (now : Text) where
    pub finalize_run-Edits :
        (i : Text) (s : Service) → keys i → Edits keys s.runs (finalize_run env i now s).runs
    unfolding finalize_run finish
    finalize_run-Edits i s key =
        edit_at i (finish env now (s.output_file i)) key (λ x. (refl, refl))

    pub recheck_failed_run-Edits :
        (i : Text) (s t : Service)
        → keys i
        → recheck_failed_run env i now s ≡ some t
        → Edits keys s.runs t.runs
    unfolding recheck_failed_run OptionEdits
    recheck_failed_run-Edits i s t key e =
        subst (OptionEdits keys s) e
          (recheck_found-Edits keys env now i s (get_agent_run i s.runs) key)

    force_fail-Edits :
        (i : Text) (s : Service) (recovered : List Text)
        → keys i
        → Edits keys s.runs (force_fail i now (s, recovered)).0.runs
    unfolding force_fail
    force_fail-Edits i s recovered key =
        edit_at i (fail (codes "Orphaned by server restart — tmux session not found") now) key
          (λ x. (refl, refl))

    or_fail-Edits :
        (i : Text) (s : Service) (recovered : List Text) (o : Option Service)
        → keys i
        → OptionEdits keys s o
        → Edits keys s.runs (or_fail i now o (s, recovered)).0.runs
    unfolding force_fail OptionEdits
    or_fail-Edits i s recovered none key h = force_fail-Edits i s recovered key
    or_fail-Edits i s recovered (some t) key h = h

    or_keep-Edits :
        (i : Text) (s : Service) (recovered : List Text) (o : Option Service)
        → OptionEdits keys s o
        → Edits keys s.runs (or_keep i o (s, recovered)).0.runs
    unfolding OptionEdits
    or_keep-Edits i s recovered none h = same
    or_keep-Edits i s recovered (some t) h = h

    recover_row-Edits :
        (session_exists : Text → Bool) (row : Run) (s : Service) (recovered : List Text)
        → keys row.id
        → Edits keys s.runs (recover_row env session_exists now row (s, recovered)).0.runs
    unfolding recover_row recheck_failed_run
    recover_row-Edits session_exists row s recovered key =
        let got : OptionEdits keys s (recheck_failed_run env row.id now s) =
          recheck_found-Edits keys env now row.id s (get_agent_run row.id s.runs) key in
        elim (Bool-cases (is_pending row.status)) [
          | inl p ↦
              rw p (or_keep-Edits row.id s recovered (recheck_failed_run env row.id now s) got)
          | inr p ↦ rw p (elim (Bool-cases (session_exists row.id)) [
            | inl a ↦ rw a (same)
            | inr a ↦ rw a (elim (Bool-cases (has_files row.id s)) [
              | inl f ↦
                  rw f
                    (or_fail-Edits row.id s recovered (recheck_failed_run env row.id now s) key got)
              | inr f ↦ rw f (force_fail-Edits row.id s recovered key)
            ])
          ])
        ]

    recover_rows-Edits :
        (session_exists : Text → Bool) (rows : List Run) (w : Recovery)
        → All (λ (r : Run). keys r.id) rows
        → Edits keys w.0.runs (recover_rows env session_exists now rows w).0.runs
    unfolding recover_rows
    recover_rows-Edits session_exists [] w ids = same
    recover_rows-Edits session_exists (row ∷ rows) w ids =
        join-Edits (recover_row-Edits session_exists row w.0 w.1 ids.0)
          (recover_rows-Edits session_exists rows (recover_row env session_exists now row w) ids.1)

    pub recover_stale_runs-Edits :
        (session_exists : Text → Bool) (s : Service)
        → All (λ (r : Run). keys r.id) (filter (λ (r : Run). is_stale r.status) s.runs)
        → Edits keys s.runs (recover_stale_runs env session_exists now s).0.runs
    unfolding recover_stale_runs
    recover_stale_runs-Edits session_exists s ids =
        recover_rows-Edits session_exists (filter (λ (r : Run). is_stale r.status) s.runs) (s, [])
          ids
