-- ===== src/Quality/Exploration/Ends.antt =====
-- The quality loop of the exploration render ends (services/exploration_render_service.py).
use diecast.Prelude.{
  ℕ, zero, suc, ◌+◌, ◌*◌, ◌-◌, ◌<◌, ◌≡◌, refl, Option, none, some, List, Text, Bool, ◌⊎◌, inl, inr,
}
use diecast.Quality.Float.{Floats}
use diecast.Quality.Loop.{FeedbackItem, Decision}
use diecast.Quality.Loop.Termination.{CountsAttempts, passes_left, run_quality_loop_total}
use diecast.Quality.Sentinel.{extract_render}
use diecast.Quality.Exploration.{
  ExplorationVerdict, GateReport, ExplorationJob, AgentRun, run_failed, printed, Reading,
  unreadable, verdict_of, Surroundings,
}
use diecast.Quality.Exploration.Stages.{
  keep_render, after_maker, how_of, run_how, gate_of, gate_html, after_reading, after_check,
  check_from, run_checker,
}
use diecast.Quality.Exploration.Ops.{exploration_ops, run_exploration_loop}

module _ {F : Type 0} (o : Floats F) (w : Surroundings F) where
  -- The two counters of a state
  abbrev Same : ExplorationJob F → ExplorationJob F → Type 0
  Same s t =
      (s.how_attempts ≡ t.how_attempts) × (s.consecutive_structural ≡ t.consecutive_structural)

  keep_render-Same : (found : Option Text) (s : ExplorationJob F) → Same (keep_render w found s).0 s
  keep_render-Same none s = (refl, refl)
  keep_render-Same (some html) s = (refl, refl)

  after_maker-Same : (r : AgentRun) (s : ExplorationJob F) → Same (after_maker w r s).0 s
  unfolding after_maker
  after_maker-Same (run_failed e) s = (refl, refl)
  after_maker-Same (printed raw) s =
      keep_render-Same (extract_render (some raw)) (record s { how_raw = some raw })

  -- A run of the maker with a document counts an attempt, and one without has no output.
  how_of-counts :
      (doc : Option Text) (feedback : Option (List FeedbackItem)) (history : Option Text)
      (s : ExplorationJob F)
      → (((how_of w doc feedback history s).0.how_attempts ≡ s.how_attempts + 1)
          ⊎ ((how_of w doc feedback history s).0.how_attempts ≡ s.how_attempts)
            × ((how_of w doc feedback history s).1 ≡ none))
        × ((how_of w doc feedback history s).0.consecutive_structural ≡ s.consecutive_structural)
  unfolding how_of
  how_of-counts none feedback history s = (inr (refl, refl), refl)
  how_of-counts (some doc) feedback history s =
      let counted : ExplorationJob F = record s {
        attempts = s.attempts + 1;
        how_attempts = s.how_attempts + 1;
      } in
      let same = after_maker-Same (w.maker feedback history counted) counted in (inl same.0, same.1)

  gate_of-Same : (found : Option Text) (s : ExplorationJob F) → Same (gate_of w found s) s
  gate_of-Same none s = (refl, refl)
  gate_of-Same (some html) s = (refl, refl)

  check_from-counts :
      (n attempt : ℕ) (html : Text) (s : ExplorationJob F)
      → (check_from w n attempt html s).0.how_attempts ≡ s.how_attempts
  unfolding check_from
  check_from-counts zero attempt html s = refl
  check_from-counts (suc n) attempt html s =
      ran (w.checker attempt html s) (λ t. check_from-counts n (suc attempt) html t)
    where
      Kept : ExplorationJob F × Option (ExplorationVerdict F) × Bool → Type 0
      Kept c = c.0.how_attempts ≡ s.how_attempts

      read :
          (r : Reading F)
          → ((t : ExplorationJob F)
              → (check_from w n (suc attempt) html t).0.how_attempts ≡ t.how_attempts)
          → Kept (after_reading w r attempt (check_from w n (suc attempt) html) s)
      read (unreadable e) later = later _
      read (verdict_of v) later = refl

      ran :
          (r : AgentRun)
          → ((t : ExplorationJob F)
              → (check_from w n (suc attempt) html t).0.how_attempts ≡ t.how_attempts)
          → Kept (after_check w r attempt (check_from w n (suc attempt) html) s)
      ran (run_failed e) later = later _
      ran (printed raw) later = read (w.parse_verdict raw) later

  exploration_ops-CountsAttempts : CountsAttempts (exploration_ops o w)
  unfolding exploration_ops run_how gate_html run_checker
  exploration_ops-CountsAttempts = record {
    how_counts = λ feedback history s. (how_of-counts s.what_doc feedback history s).0;
    how_structural = λ feedback history s. (how_of-counts s.what_doc feedback history s).1;
    gate_counts = λ s. (gate_of-Same s.html s).0;
    gate_structural = λ s. (gate_of-Same s.html s).1;
    checker_counts = λ html s. check_from-counts 2 0 html s;
    append_counts = λ r s. refl;
    set_counts = λ n s. refl;
    set_structural = λ n s. refl;
    escalate_counts = λ verdict s. refl;
  }

  -- Whatever the agents print, the quality loop of an exploration render returns a final state and a
  -- decision within a bound on its passes: for each attempt left, one more than the structural stop,
  -- and what is left of that stop.
  pub run_exploration_loop_total :
      (fuel : ℕ) (s : ExplorationJob F)
      → (w.quality_max_attempts - s.how_attempts) * suc w.quality_structural_stop
          + (w.quality_structural_stop - s.consecutive_structural)
        < fuel
      → (p : ExplorationJob F × Decision F (ExplorationVerdict F) GateReport)
        × (run_exploration_loop o w fuel s ≡ some p)
  unfolding run_exploration_loop passes_left exploration_ops
  run_exploration_loop_total fuel s h =
      run_quality_loop_total o (exploration_ops o w) exploration_ops-CountsAttempts fuel s h
