-- ===== src/Runs/Finish.antt =====
-- services/agent_service.py: how a run ends, by its files, and the recovery of stale runs.
use diecast.Prelude.{
  Bool, true, false, ◌&&◌, ◌||◌, Option, none, some, List, [], ◌∷◌, ◌++◌, Text, codes, join, filter,
  if◌then◌else◌,
}
use diecast.Runs.{
  Status, pending, running, rate_limited, failed, partial, Run, Output, absent, malformed, parsed,
  has_output, Service, set_at, get_agent_run, update_agent_run, fail,
}

abbrev pub is_partial : Status → Bool
is_partial partial = true
is_partial s = false

-- The message with the exit code, and the goal that a run's parameters name.
pub record Env : Type 0 where
  pub no_output_message : Text → Text
  pub params_goal : Text → Text

abbrev pub final_status : Output → Status
final_status absent = failed
final_status (malformed e) = failed
final_status (parsed st errors attention) = st

unfoldable pub joined_errors : List Text → Option Text
unfolding join
joined_errors [] = none
joined_errors (e ∷ es) = some (join (codes "; ") (e ∷ es))

unfoldable pub final_error : Env → Text → Output → Option Text
unfolding joined_errors
final_error env run_id absent = some (env.no_output_message run_id)
final_error env run_id (malformed e) = some (codes "Malformed output.json: " ++ e)
final_error env run_id (parsed st errors attention) = joined_errors errors

abbrev pub final_attention : Output → Bool
final_attention absent = false
final_attention (malformed e) = false
final_attention (parsed st errors attention) = attention || is_partial st

unfoldable pub finish : Env → Text → Output → Run → Run
unfolding final_error
finish env now out r = record r {
  status = final_status out;
  error_message = final_error env r.id out;
  completed_at = some now;
  needs_attention = final_attention out;
}

-- The columns of usage, cost and output text, and the wiring of artefacts, are left out.
unfoldable pub finalize_run : Env → Text → Text → Service → Service
unfolding finish update_agent_run
finalize_run env run_id now s = record s {
  runs = update_agent_run run_id (finish env now (s.output_file run_id)) s.runs;
  done_file = set_at run_id false s.done_file;
}

abbrev pub has_files : Text → Service → Bool
has_files run_id s = s.done_file run_id || has_output (s.output_file run_id)

abbrev pub can_recheck : Status → Bool
can_recheck failed = true
can_recheck running = true
can_recheck pending = true
can_recheck s = false

abbrev pub is_text : Text → Bool
is_text [] = false
is_text (c ∷ t) = true

abbrev pub recheck_found : Env → Text → Text → Service → Option Run → Option Service
unfolding finalize_run
recheck_found env run_id now s none = none
recheck_found env run_id now s (some r) =
    if can_recheck r.status
      && (is_text r.goal_slug || is_text (env.params_goal run_id))
      && has_files run_id s
    then some (finalize_run env run_id now s)
    else none

-- None where the recovery is not possible, and nothing changes.
unfoldable pub recheck_failed_run : Env → Text → Text → Service → Option Service
unfolding get_agent_run finalize_run
recheck_failed_run env run_id now s = recheck_found env run_id now s (get_agent_run run_id s.runs)

abbrev pub is_pending : Status → Bool
is_pending pending = true
is_pending s = false

-- The monitor watches these.
abbrev pub is_watched : Status → Bool
is_watched running = true
is_watched rate_limited = true
is_watched s = false

abbrev pub is_stale : Status → Bool
is_stale s = is_watched s || is_pending s

-- The service and the ids recovered so far
abbrev pub Recovery : Type 0
Recovery = Service × List Text

unfoldable pub force_fail : Text → Text → Recovery → Recovery
unfolding update_agent_run
force_fail run_id now (s, recovered) = (
  record s {
    runs =
        update_agent_run run_id
          (fail (codes "Orphaned by server restart — tmux session not found") now) s.runs;
  },
  recovered ++ run_id ∷ [],
)

abbrev pub or_keep : Text → Option Service → Recovery → Recovery
or_keep run_id none w = w
or_keep run_id (some s) (s0, recovered) = (s, recovered ++ run_id ∷ [])

abbrev pub or_fail : Text → Text → Option Service → Recovery → Recovery
unfolding force_fail
or_fail run_id now none w = force_fail run_id now w
or_fail run_id now (some s) (s0, recovered) = (s, recovered ++ run_id ∷ [])

-- A session exists only if tmux is there.
unfoldable pub recover_row : Env → (Text → Bool) → Text → Run → Recovery → Recovery
unfolding recheck_failed_run force_fail
recover_row env session_exists now row (s, recovered) =
    if is_pending row.status
    then or_keep row.id (recheck_failed_run env row.id now s) (s, recovered)
    else (if session_exists row.id
        then (s, recovered)
        else (if has_files row.id s
            then or_fail row.id now (recheck_failed_run env row.id now s) (s, recovered)
            else force_fail row.id now (s, recovered)))

unfoldable pub recover_rows : Env → (Text → Bool) → Text → List Run → Recovery → Recovery
unfolding recover_row
recover_rows env session_exists now [] w = w
recover_rows env session_exists now (row ∷ rows) w =
    recover_rows env session_exists now rows (recover_row env session_exists now row w)

unfoldable pub recover_stale_runs : Env → (Text → Bool) → Text → Service → Recovery
unfolding recover_rows
recover_stale_runs env session_exists now s =
    recover_rows env session_exists now (filter (λ (r : Run). is_stale r.status) s.runs) (s, [])
