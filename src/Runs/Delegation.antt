-- ===== src/Runs/Delegation.antt =====
-- services/agent_service.py: the depth of a chain of delegations, and what enqueues a run.
use diecast.Prelude.{
  ℕ, zero, suc, ◌+◌, Bool, false, Option, none, some, List, [], ◌∷◌, ◌++◌, Text, codes, text_eq,
  any, ltb, leb, if◌then◌else◌,
}
use diecast.Runs.{
  Status, pending, scheduled, running, Run, Service, get_agent_run, update_agent_run, Failure,
  parent_not_found, not_allowed, too_deep, bad_project_dir, naive_time, Result, raised, done,
}
use diecast.Runs.Finish.{is_text}

abbrev pub max_delegation_depth : ℕ
max_delegation_depth = 3

-- None and the empty text are no id.
abbrev pub some_text : Option Text → Option Text
some_text none = none
some_text (some t) = if is_text t then some t else none

abbrev pub parent_found : Option Run → Option Text
parent_found none = none
parent_found (some r) = some_text r.parent_run_id

unfoldable pub parent_of : List Run → Text → Option Text
unfolding get_agent_run
parent_of rs i = parent_found (get_agent_run i rs)

-- The loop, with the passes that are left before the safety limit breaks it
unfoldable pub walk : List Run → ℕ → Text → ℕ
unfolding parent_of
walk rs zero current = 0
walk rs (suc n) current =
    if is_text current
    then elim (parent_of rs current) [ none ↦ 0 | some p ↦ suc (walk rs n p) ]
    else 0

-- The pass that raises the depth above the limit plus one is the last.
unfoldable pub get_delegation_depth : Text → List Run → ℕ
unfolding walk
get_delegation_depth run_id rs = walk rs (max_delegation_depth + 2) run_id

-- A time stamp, as `datetime.fromisoformat` reads it
pub data Moment : Type 0 where
  naive : Moment
  aware : ℕ → Moment

-- What is read on the disk and in the goals' table, and the library's `fromisoformat`
pub record Rules : Type 0 where
  pub has_project_dir : Text → Bool
  pub allowed_delegations : Text → List Text
  pub from_iso : Text → Option Moment

-- The clock, as text and in seconds, and the id that `_generate_run_id` gives
pub record Stamp : Type 0 where
  pub now : Text
  pub seconds : ℕ
  pub run_id : Text

-- A text that is no time is passed over; a time with no zone cannot be compared.
abbrev pub status_at : ℕ → Option Moment → Option Status
status_at seconds none = some pending
status_at seconds (some naive) = none
status_at seconds (some (aware t)) = if ltb seconds t then some scheduled else some pending

abbrev pub initial_status : Rules → ℕ → Option Text → Option Status
initial_status rules seconds none = some pending
initial_status rules seconds (some t) = status_at seconds (rules.from_iso t)

abbrev pub allows : Rules → Text → Run → Bool
allows rules agent_name parent_run =
    any (text_eq agent_name) (rules.allowed_delegations parent_run.agent_name)

unfoldable pub check_found : Rules → Text → Text → List Run → Option Run → Option Failure
unfolding get_delegation_depth
check_found rules agent_name parent rs none = some parent_not_found
check_found rules agent_name parent rs (some parent_run) =
    if allows rules agent_name parent_run
    then (if leb max_delegation_depth (get_delegation_depth parent rs) then some too_deep else none)
    else some not_allowed

-- The exception that the parent is a reason for
unfoldable pub check_parent : Rules → Text → Option Text → List Run → Option Failure
unfolding get_agent_run get_delegation_depth check_found
check_parent rules agent_name none rs = none
check_parent rules agent_name (some parent) rs =
    check_found rules agent_name parent rs (get_agent_run parent rs)

-- What the caller asks for
pub record Trigger : Type 0 where
  pub agent_name : Text
  pub goal_slug : Text
  pub scheduled_at : Option Text
  pub parent_run_id : Option Text

abbrev pub new_run : Trigger → Stamp → Status → Run
new_run t stamp st = record {
  id = stamp.run_id;
  agent_name = t.agent_name;
  goal_slug = t.goal_slug;
  status = st;
  parent_run_id = t.parent_run_id;
  scheduled_at = t.scheduled_at;
  created_at = stamp.now;
  started_at = none;
  completed_at = none;
  error_message = none;
  needs_attention = false;
}

abbrev pub create_agent_run : Trigger → Stamp → Status → Service → Service
create_agent_run t stamp st s = record s { runs = s.runs ++ new_run t stamp st ∷ [] }

abbrev pub create_if : Trigger → Stamp → Service → Option Failure → Option Status → Result
create_if t stamp s (some e) st = raised e
create_if t stamp s none none = raised naive_time
create_if t stamp s none (some st) = done (create_agent_run t stamp st s)

-- The file of the delegation context is written after this.
unfoldable pub trigger_agent : Rules → Trigger → Stamp → Service → Result
unfolding check_parent
trigger_agent rules t stamp s =
    if rules.has_project_dir t.goal_slug
    then create_if t stamp s (check_parent rules t.agent_name (some_text t.parent_run_id) s.runs)
        (initial_status rules stamp.seconds (some_text t.scheduled_at))
    else raised bad_project_dir

-- The goal that a command line names, where there is such a goal
abbrev pub effective_slug : (Text → Bool) → Option Text → Text
effective_slug has_goal none = codes "system-ops"
effective_slug has_goal (some slug) = if has_goal slug then slug else codes "system-ops"

abbrev pub invocation : Text → Text → Trigger
invocation agent_name goal_slug = record {
  agent_name = agent_name;
  goal_slug = goal_slug;
  scheduled_at = none;
  parent_run_id = none;
}

-- A run that a command line starts has no parent and is running at once. Its session, its
-- directories and its prompt are left out.
unfoldable pub invoke_agent : (Text → Bool) → Text → Option Text → Stamp → Service → Service
unfolding update_agent_run
invoke_agent has_goal agent_name goal_slug stamp s =
    let t =
      create_agent_run (invocation agent_name (effective_slug has_goal (some_text goal_slug))) stamp
        running s in
    record t {
      runs = update_agent_run stamp.run_id (λ r. record r { started_at = some stamp.now }) t.runs;
    }
