-- ===== src/Runs/TreeTests.antt =====
-- Panes and trees of runs at concrete inputs (services/agent_service.py, infra/state_detection.py).
use diecast.Prelude.{ℕ, ◌≡◌, ◌≢◌, ◌⊎◌, refl, true, false, Option, none, some, [], ◌∷◌, Text, codes}
use diecast.Runs.{
  Status, running, stuck, completed, partial, failed, Run, absent, Service, get_agent_run,
}
use diecast.Runs.Finish.{Env}
use diecast.Runs.Monitor.{
  working, idle, limit_reached, unknown, waiting_input, shell_returned, is_other_command,
  detect_agent_state, state_of, Watch, Clock,
}
use diecast.Runs.Tree.{
  tree, recursion_error, Row, Node, node, nil, more, detect_rework, severity, rollup, get_row,
  get_run_with_rollups,
}
use diecast.Runs.Idle.{state_of-shell_returned, idle_rounds, idle_rounds-stuck}
use diecast.Runs.Rollups.{descendants, rollup-descendants}
use diecast.Runs.Assembly.{IsCyclic, TreeOf, get_run_with_rollups-Below}

abbrev watch : Watch
watch = record {
  pane_command = λ i. codes "bash";
  capture_pane = λ i. codes "$ " ∷ [];
  session_exists = λ i. true;
  interactive = λ a. false;
  idle_warning = 600;
  idle_stuck = 1800;
  resume_at = λ i. 0;
}

state_of-shell_returned_example :
    (state_of watch (codes "a") ≢ shell_returned)
    × ((is_other_command (watch.pane_command (codes "a")) ≡ false)
        ⊎ (state_of watch (codes "a") ≡ unknown))
state_of-shell_returned_example = state_of-shell_returned watch (codes "a")

pane_working :
    detect_agent_state (codes "───" ∷ codes "❯ go" ∷ codes "Esc to interrupt" ∷ []) (codes "claude")
    ≡ working
unfolding detect_agent_state
pane_working = refl

pane_idle : detect_agent_state (codes "───" ∷ codes "❯ " ∷ []) [] ≡ idle
unfolding detect_agent_state
pane_idle = refl

pane_limit :
    detect_agent_state (codes "You've hit your limit" ∷ []) (codes "claude") ≡ limit_reached
unfolding detect_agent_state
pane_limit = refl

pane_prompt : detect_agent_state (codes "Go on? [Y/n]" ∷ []) (codes "claude") ≡ waiting_input
unfolding detect_agent_state
pane_prompt = refl

abbrev env : Env
env = record { no_output_message = λ i. codes "no output"; params_goal = λ i. codes "goal" }

abbrev run : Run
run = record {
  id = codes "a";
  agent_name = codes "maker";
  goal_slug = codes "goal";
  status = running;
  parent_run_id = none;
  scheduled_at = none;
  created_at = codes "1";
  started_at = none;
  completed_at = none;
  error_message = none;
  needs_attention = false;
}

abbrev service : Service
service = record {
  runs = run ∷ [];
  idle_since = λ i. none;
  total_paused = λ i. none;
  cooldown_until = λ i. none;
  current_pause = λ i. none;
  done_file = λ i. false;
  output_file = λ i. absent;
}

abbrev at : ℕ → Clock
at n = record { now = codes "t"; seconds = n }

idle_rounds-stuck_example :
    (t : Run) × (get_agent_run
        (codes "a")
        (idle_rounds env watch run (at 100 ∷ at 700 ∷ at 1900 ∷ []) service).runs
      ≡ some t)
    × (t.status ≡ stuck)
unfolding get_agent_run
idle_rounds-stuck_example =
    idle_rounds-stuck env watch run run (at 100) (at 700 ∷ at 1900 ∷ []) service refl refl refl

abbrev row : Text → Option Text → Text → Status → Row
row i parent created st = record {
  id = i;
  parent_run_id = parent;
  agent_name = codes "maker";
  task_id = some 1;
  created_at = created;
  status = st;
}

abbrev root_row : Row
root_row = row (codes "r") none (codes "1") partial

abbrev first_try : Row
first_try = row (codes "a") (some (codes "r")) (codes "2") failed

abbrev second_try : Row
second_try = row (codes "b") (some (codes "r")) (codes "3") completed

abbrev run_tree : Node
run_tree = node root_row (more (node first_try nil) (more (node second_try nil) nil))

rollup-descendants_example :
    ((rollup run_tree).descendant_count ≡ 2)
    × ((rollup run_tree).failed_descendant_count ≡ 1)
    × (severity (rollup run_tree).status_rollup ≡ 6)
unfolding descendants
rollup-descendants_example = rollup-descendants run_tree

-- A run that ended partial is rolled up as completed.
partial_rollup : (rollup (node root_row nil)).status_rollup ≡ completed
unfolding rollup
partial_rollup = refl

rework_run : detect_rework (first_try ∷ second_try ∷ []) ≡ (
  record { is_rework = false; rework_index = none }
      ∷ record { is_rework = true; rework_index = some 2 }
      ∷ [],
  1,
)
unfolding detect_rework
rework_run = refl

get_run_with_rollups-Below_example :
    (¬ IsCyclic (second_try ∷ root_row ∷ first_try ∷ []) root_row
      × ((n : Node) × (get_run_with_rollups (codes "r") (second_try ∷ root_row ∷ first_try ∷ [])
            ≡ tree n)
          × TreeOf (second_try ∷ root_row ∷ first_try ∷ []) root_row n))
    ⊎ (IsCyclic (second_try ∷ root_row ∷ first_try ∷ []) root_row
        × (get_run_with_rollups (codes "r") (second_try ∷ root_row ∷ first_try ∷ [])
            ≡ recursion_error))
unfolding get_row
get_run_with_rollups-Below_example =
    get_run_with_rollups-Below (second_try ∷ root_row ∷ first_try ∷ []) (codes "r") root_row refl

assembled_run :
    get_run_with_rollups (codes "r") (second_try ∷ root_row ∷ first_try ∷ []) ≡ tree run_tree
unfolding get_run_with_rollups
assembled_run = refl

-- Two runs, each the other's parent
cyclic_runs :
    get_run_with_rollups
      (codes "r")
      (record root_row { parent_run_id = some first_try.id } ∷ first_try ∷ [])
    ≡ recursion_error
unfolding get_run_with_rollups
cyclic_runs = refl
