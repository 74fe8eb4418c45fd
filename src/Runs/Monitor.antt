-- ===== src/Runs/Monitor.antt =====
-- infra/state_detection.py and the monitor of services/agent_service.py: the state of an agent by
-- what its pane shows, and what a state does to its run. Patterns ignore the case of ASCII letters.
use diecast.Prelude.{
  ℕ, suc, ◌+◌, ◌-◌, Bool, true, false, not, ◌&&◌, ◌||◌, Option, none, some, List, [], ◌∷◌, Text,
  codes, text_eq, contains, lower, join, filter, leb, if◌then◌else◌,
}
use diecast.Runs.{
  Status, running, rate_limited, stuck, Run, Service, set_at, update_agent_run, fail, forget,
}
use diecast.Runs.Finish.{Env, finalize_run, has_files, is_text, is_watched}

pub data AgentState : Type 0 where
  working : AgentState
  idle : AgentState
  shell_returned : AgentState
  waiting_input : AgentState
  limit_reached : AgentState
  unknown : AgentState

-- `line` and the lines after it, from index i; the line above it where there is one
unfoldable pub input_field_at : ℕ → Option Text → List Text → Option ℕ
input_field_at i above [] = none
input_field_at i above (line ∷ lines) =
    let rest = input_field_at (suc i) (some line) lines in
    if contains line (codes "❯") && elim above [ none ↦ false | some a ↦ contains a (codes "─") ]
    then some i
    else rest

-- The index of the prompt
unfoldable pub has_input_field : List Text → Option ℕ
unfolding input_field_at
has_input_field pane_lines = input_field_at 0 none pane_lines

abbrev pub is_some : Option ℕ → Bool
is_some none = false
is_some (some i) = true

unfoldable pub shows_limit : Text → Bool
unfolding lower
shows_limit text =
    contains (lower text) (codes "hit your limit")
    || contains (lower text) (codes "you've hit your")

unfoldable pub shows_prompt : Text → Bool
unfolding lower
shows_prompt text =
    contains (lower text) (codes "[y/n]")
    || contains text (codes "[Y/n]")
    || contains (lower text) (codes "[yes/no]")

unfoldable pub is_other_command : Text → Bool
is_other_command pane_command = is_text pane_command && not (text_eq pane_command (codes "claude"))

unfoldable pub detect_by_text : Text → Bool → AgentState
unfolding shows_limit shows_prompt lower
detect_by_text text has_field =
    if shows_limit text
    then limit_reached
    else (if shows_prompt text && not has_field
        then waiting_input
        else (if has_field
            then (if contains (lower text) (codes "esc to interrupt") then working else idle)
            else unknown))

unfoldable pub detect_agent_state : List Text → Text → AgentState
unfolding is_other_command detect_by_text has_input_field join
detect_agent_state [] pane_command = unknown
detect_agent_state (l ∷ ls) pane_command =
    if is_other_command pane_command
    then shell_returned
    else detect_by_text (join (10 ∷ []) (l ∷ ls)) (is_some (has_input_field (l ∷ ls)))

-- The lines that are captured for a session, by its command
unfoldable pub pane_content : Text → List Text → List Text
pane_content pane_command captured =
    if text_eq pane_command (codes "claude") || not (is_text pane_command) then captured else []

-- What tmux tells, the agents' configuration, the settings, and the time at which a limit of the
-- session is over
pub record Watch : Type 0 where
  pub pane_command : Text → Text
  pub capture_pane : Text → List Text
  pub session_exists : Text → Bool
  pub interactive : Text → Bool
  pub idle_warning : ℕ
  pub idle_stuck : ℕ
  pub resume_at : Text → ℕ

-- The clock, as text and in seconds
pub record Clock : Type 0 where
  pub now : Text
  pub seconds : ℕ

abbrev pub or_now : ℕ → Option ℕ → ℕ
or_now seconds none = seconds
or_now seconds (some t) = t

unfoldable pub finalize_run_from_monitor : Env → Clock → Text → Service → Service
unfolding finalize_run
finalize_run_from_monitor env clock run_id s = forget run_id (finalize_run env run_id clock.now s)

unfoldable pub mark_idle : Watch → Text → ℕ → Service → Service
unfolding update_agent_run
mark_idle watch run_id duration s =
    if leb watch.idle_stuck duration
    then record s { runs = update_agent_run run_id (λ r. record r { status = stuck }) s.runs }
    else (if leb watch.idle_warning duration
        then record s {
          runs = update_agent_run run_id (λ r. record r { needs_attention = true }) s.runs;
        }
        else s)

-- An idle agent with no files: an interactive one is not timed.
unfoldable pub track_idle : Watch → Clock → Run → Service → Service
unfolding mark_idle
track_idle watch clock run s =
    if watch.interactive run.agent_name
    then record s { idle_since = set_at run.id none s.idle_since }
    else (let since = or_now clock.seconds (s.idle_since run.id) in
        mark_idle watch run.id (clock.seconds - since)
          (record s { idle_since = set_at run.id (some since) s.idle_since }))

unfoldable pub exit_run : Clock → Text → Service → Service
unfolding update_agent_run
exit_run clock run_id s = record s {
  runs =
      update_agent_run run_id
        (fail (codes "Agent process exited without producing output") clock.now) s.runs;
  idle_since = set_at run_id none s.idle_since;
  total_paused = set_at run_id none s.total_paused;
}

unfoldable pub handle_idle : Env → Watch → Clock → Bool → Run → Service → Service
unfolding finalize_run_from_monitor exit_run track_idle
handle_idle env watch clock returned run s =
    if has_files run.id s
    then finalize_run_from_monitor env clock run.id s
    else (if returned && not (watch.session_exists run.id)
        then exit_run clock run.id s
        else track_idle watch clock run s)

abbrev pub paused_for : ℕ → Option ℕ → ℕ
paused_for seconds none = 0
paused_for seconds (some started) = seconds - started

unfoldable pub resume_run : Clock → Text → Service → Service
unfolding update_agent_run
resume_run clock run_id s = record s {
  runs = update_agent_run run_id (λ r. record r { status = running }) s.runs;
  current_pause = set_at run_id none s.current_pause;
  total_paused =
      set_at run_id
        (some
          (or_now 0 (s.total_paused run_id) + paused_for clock.seconds (s.current_pause run_id)))
        s.total_paused;
  cooldown_until = set_at run_id none s.cooldown_until;
}

abbrev pub is_over : ℕ → Option ℕ → Bool
is_over seconds none = false
is_over seconds (some t) = leb t seconds

abbrev pub is_rate_limited : Status → Bool
is_rate_limited rate_limited = true
is_rate_limited st = false

unfoldable pub handle_limit : Watch → Clock → Run → Service → Service
unfolding update_agent_run resume_run
handle_limit watch clock run s =
    if is_rate_limited run.status
    then (if is_over clock.seconds (s.cooldown_until run.id) then resume_run clock run.id s else s)
    else record s {
      runs = update_agent_run run.id (λ r. record r { status = rate_limited }) s.runs;
      cooldown_until = set_at run.id (some (watch.resume_at run.id)) s.cooldown_until;
      current_pause = set_at run.id (some clock.seconds) s.current_pause;
    }

-- The run is as the monitor read it before.
unfoldable pub handle_state_transition : Env → Watch → Clock → Run → AgentState → Service → Service
unfolding handle_idle handle_limit update_agent_run
handle_state_transition env watch clock run working s = record s {
  idle_since = set_at run.id none s.idle_since;
}
handle_state_transition env watch clock run idle s = handle_idle env watch clock false run s
handle_state_transition env watch clock run shell_returned s =
    handle_idle env watch clock true run s
handle_state_transition env watch clock run waiting_input s = record s {
  runs = update_agent_run run.id (λ r. record r { status = stuck; needs_attention = true }) s.runs;
}
handle_state_transition env watch clock run limit_reached s = handle_limit watch clock run s
handle_state_transition env watch clock run unknown s = s

-- The state of an agent's pane
unfoldable pub state_of : Watch → Text → AgentState
unfolding detect_agent_state pane_content
state_of watch run_id =
    detect_agent_state (pane_content (watch.pane_command run_id) (watch.capture_pane run_id))
      (watch.pane_command run_id)

unfoldable pub check_runs : Env → Watch → Clock → List Run → Service → Service
unfolding handle_state_transition state_of
check_runs env watch clock [] s = s
check_runs env watch clock (run ∷ rest) s =
    check_runs env watch clock rest
      (handle_state_transition env watch clock run (state_of watch run.id) s)

-- Finding the id of the session in tmux is left out.
unfoldable pub check_all_agents : Env → Watch → Clock → Service → Service
unfolding check_runs
check_all_agents env watch clock s =
    check_runs env watch clock (filter (λ (r : Run). is_watched r.status) s.runs) s
