-- ===== src/Runs/Dispatch.antt =====
-- services/agent_service.py: the dispatcher, which promotes scheduled runs and launches pending ones.
use diecast.Prelude.{
  ℕ, ◌+◌, ◌-◌, Bool, true, false, ◌&&◌, Option, none, some, List, [], ◌∷◌, ◌++◌, map, Text, codes,
  filter, take, ltb, ◌==◌, if◌then◌else◌,
}
use diecast.Runs.{
  Status, pending, scheduled, running, Run, Service, set_at, get_agent_run, update_agent_run, fail,
}
use diecast.Runs.Finish.{is_pending}

-- The order of texts, by code points
unfoldable pub text_le : Text → Text → Bool
text_le [] b = true
text_le (a ∷ s) [] = false
text_le (a ∷ s) (b ∷ t) = let rest = text_le s t in if a == b then rest else ltb a b

abbrev pub is_scheduled : Status → Bool
is_scheduled scheduled = true
is_scheduled s = false

abbrev pub is_running : Status → Bool
is_running running = true
is_running s = false

abbrev pub is_due : Text → Option Text → Bool
unfolding text_le
is_due now none = false
is_due now (some t) = text_le t now

unfoldable pub promote : Text → Run → Run
unfolding text_le
promote now r =
    if is_scheduled r.status && is_due now r.scheduled_at then record r { status = pending } else r

unfoldable pub promote_scheduled_runs : Text → List Run → List Run
unfolding promote
promote_scheduled_runs now rs = map (promote now) rs

abbrev pub running_count : List Run → ℕ
running_count [] = 0
running_count (r ∷ rs) = (if is_running r.status then 1 else 0) + running_count rs

-- `ORDER BY created_at ASC`
unfoldable pub insert_run : Run → List Run → List Run
unfolding text_le
insert_run r [] = r ∷ []
insert_run r (x ∷ xs) =
    let rest = insert_run r xs in if text_le r.created_at x.created_at then r ∷ x ∷ xs else x ∷ rest

unfoldable pub oldest_first : List Run → List Run
unfolding insert_run
oldest_first [] = []
oldest_first (r ∷ rs) = insert_run r (oldest_first rs)

abbrev pub launch_found : Text → Text → Option Text → Service → Option Run → Service
unfolding update_agent_run
launch_found run_id now problem s none = s
launch_found run_id now problem s (some r) =
    if is_pending r.status
    then elim problem [
      | none ↦ record s {
        runs =
            update_agent_run run_id (λ x. record x { status = running; started_at = some now })
              s.runs;
        total_paused = set_at run_id (some 0) s.total_paused;
      }
      | some e ↦ record s {
        runs = update_agent_run run_id (fail (codes "Launch failed: " ++ e) now) s.runs;
      }
    ]
    else s

-- What is prepared for the session, and the session itself, are tmux's and the goal's: the launch
-- goes through, or an exception says why not.
unfoldable pub launch_agent : Text → Text → Option Text → Service → Service
unfolding get_agent_run update_agent_run
launch_agent run_id now problem s = launch_found run_id now problem s (get_agent_run run_id s.runs)

abbrev pub blocked_message : Text
blocked_message =
    codes
      "Auto-retry blocked: agent has escalated error patterns (3+ recurring failures). Resolve error memories first."

-- Whether an agent may be tried again, and how its launch goes
pub record Agents : Type 0 where
  pub should_auto_retry : Text → Bool
  pub problem : Text → Option Text

abbrev pub may_launch : Agents → Option Run → Bool
may_launch agents none = true
may_launch agents (some r) = agents.should_auto_retry r.agent_name

unfoldable pub dispatch_run : Agents → Text → Text → Service → Service
unfolding get_agent_run launch_agent update_agent_run
dispatch_run agents now run_id s =
    if may_launch agents (get_agent_run run_id s.runs)
    then launch_agent run_id now (agents.problem run_id) s
    else record s { runs = update_agent_run run_id (fail blocked_message now) s.runs }

unfoldable pub dispatch_runs : Agents → Text → List Run → Service → Service
unfolding dispatch_run
dispatch_runs agents now [] s = s
dispatch_runs agents now (r ∷ rs) s = dispatch_runs agents now rs (dispatch_run agents now r.id s)

-- The pending runs that the free slots are for
unfoldable pub next_runs : ℕ → List Run → List Run
unfolding oldest_first
next_runs slots rs = take slots (oldest_first (filter (λ (r : Run). is_pending r.status) rs))

-- One iteration of `_dispatcher_loop`
unfoldable pub tick : ℕ → Agents → Text → Service → Service
unfolding promote_scheduled_runs next_runs dispatch_runs
tick max_concurrent agents now s =
    let rs = promote_scheduled_runs now s.runs in
    let count = running_count rs in
    if ltb count max_concurrent
    then dispatch_runs agents now (next_runs (max_concurrent - count) rs) (record s { runs = rs })
    else record s { runs = rs }
