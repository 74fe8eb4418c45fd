-- ===== src/Runs.antt =====
-- services/agent_service.py: the runs of agents, and what cancels, fails and deletes them.
pub mod Finish
pub mod Dispatch
pub mod Delegation
pub mod Monitor
pub mod Recovered
pub mod Bounded
pub mod Edits
pub mod Watched
pub mod Kin
pub mod Depth
pub mod Course
pub mod Ended
pub mod Idle
pub mod Keys
pub mod Lasting
pub mod Tree
pub mod Rollups
pub mod Assembly
mod Tests
mod TreeTests
use diecast.Prelude.{
  ℕ, Bool, true, false, not, ◌||◌, Option, none, some, List, [], ◌∷◌, ◌++◌, map, Text, codes,
  text_eq, filter, if◌then◌else◌,
}

-- The values of the column `status`; an agent's output may bring others.
pub data Status : Type 0 where
  pending : Status
  scheduled : Status
  running : Status
  rate_limited : Status
  stuck : Status
  completed : Status
  partial : Status
  failed : Status
  other : Text → Status

-- A row of `agent_runs`: eleven of its columns, those that the service decides by or changes a run's
-- course with. What an operation writes in the others, as the output, the artifacts, the cost, the
-- session's id and the exit code, is left out.
pub record Run : Type 0 where
  pub id : Text
  pub agent_name : Text
  pub goal_slug : Text
  pub status : Status
  pub parent_run_id : Option Text
  pub scheduled_at : Option Text
  pub created_at : Text
  pub started_at : Option Text
  pub completed_at : Option Text
  pub error_message : Option Text
  pub needs_attention : Bool

-- The output of a run on disk, as `AgentOutput` reads it
pub data Output : Type 0 where
  absent : Output
  malformed : Text → Output
  parsed : Status → List Text → Bool → Output

-- The table, the module's timers by run id, and the files of the runs; times of the clock are
-- seconds.
pub record Service : Type 0 where
  pub runs : List Run
  pub idle_since : Text → Option ℕ
  pub total_paused : Text → Option ℕ
  pub cooldown_until : Text → Option ℕ
  pub current_pause : Text → Option ℕ
  pub done_file : Text → Bool
  pub output_file : Text → Output

abbrev pub has_output : Output → Bool
has_output absent = false
has_output (malformed e) = true
has_output (parsed s es a) = true

-- `d[key] = value` and `d.pop(key, None)` on a dict by run id
abbrev pub set_at : {A : Type 0} → Text → A → (Text → A) → Text → A
set_at key v d i = if text_eq i key then v else d i

unfoldable pub get_agent_run : Text → List Run → Option Run
get_agent_run run_id [] = none
get_agent_run run_id (r ∷ rs) =
    let rest = get_agent_run run_id rs in if text_eq r.id run_id then some r else rest

-- `UPDATE … WHERE id = ?`; the fields to set are a function of the row.
abbrev pub update_row : Text → (Run → Run) → Run → Run
update_row run_id fields r = if text_eq r.id run_id then fields r else r

unfoldable pub update_agent_run : Text → (Run → Run) → List Run → List Run
update_agent_run run_id fields rs = map (update_row run_id fields) rs

abbrev pub fail : Text → Text → Run → Run
fail error now r = record r { status = failed; error_message = some error; completed_at = some now }

abbrev pub is_active : Status → Bool
is_active running = true
is_active pending = true
is_active scheduled = true
is_active s = false

abbrev pub is_ended : Status → Bool
is_ended completed = true
is_ended failed = true
is_ended s = false

-- The clean-up of the in-memory state
abbrev pub forget : Text → Service → Service
forget run_id s = record s {
  idle_since = set_at run_id none s.idle_since;
  total_paused = set_at run_id none s.total_paused;
  cooldown_until = set_at run_id none s.cooldown_until;
  current_pause = set_at run_id none s.current_pause;
}

pub data Failure : Type 0 where
  not_found : Failure
  not_active : Failure
  still_active : Failure
  already_ended : Failure
  parent_not_found : Failure
  not_allowed : Failure
  too_deep : Failure
  bad_project_dir : Failure
  naive_time : Failure

-- What an operation does, or the exception that it raises before any change
pub data Result : Type 0 where
  raised : Failure → Result
  done : Service → Result

abbrev pub fail_with : Text → Text → Text → Service → Service
unfolding update_agent_run
fail_with run_id error now s =
    forget run_id (record s { runs = update_agent_run run_id (fail error now) s.runs })

abbrev pub cancel_found : Text → Text → Service → Option Run → Result
cancel_found run_id now s none = raised not_found
cancel_found run_id now s (some r) =
    if is_active r.status
    then done (fail_with run_id (codes "Cancelled by user") now s)
    else raised not_active

-- Killing the session and removing the prompt files are effects outside.
unfoldable pub cancel_run : Text → Text → Service → Result
unfolding get_agent_run
cancel_run run_id now s = cancel_found run_id now s (get_agent_run run_id s.runs)

abbrev pub delete_found : Text → Service → Option Run → Result
delete_found run_id s none = raised not_found
delete_found run_id s (some r) =
    if is_active r.status
    then raised still_active
    else done (record s { runs = filter (λ (x : Run). not (text_eq x.id run_id)) s.runs })

unfoldable pub delete_run : Text → Service → Result
unfolding get_agent_run
delete_run run_id s = delete_found run_id s (get_agent_run run_id s.runs)

abbrev pub fail_found : Text → Text → Service → Option Run → Result
fail_found run_id now s none = raised not_found
fail_found run_id now s (some r) =
    if is_ended r.status
    then raised already_ended
    else done (fail_with run_id (codes "Manually marked as failed") now s)

unfoldable pub fail_run : Text → Text → Service → Result
unfolding get_agent_run
fail_run run_id now s = fail_found run_id now s (get_agent_run run_id s.runs)
