-- ===== src/Runs/Tests.antt =====
-- Runs, trees and panes at concrete inputs (services/agent_service.py, infra/state_detection.py).
use diecast.Prelude.{
  ◌≤◌, ◌≡◌, refl, Bool, true, false, Option, none, some, List, [], ◌∷◌, Text, codes, text_eq,
  text_eq_iff, inl, inr, all, if◌then◌else◌, arith, Bool-cases, none-ne-some,
}
use mathlib.Core.Path.{subst}
use diecast.Runs.{
  Status, pending, running, rate_limited, completed, failed, Run, Output, absent, parsed, Service,
  raised, done, naive_time, get_agent_run,
}
use diecast.Runs.Finish.{Env, recover_stale_runs}
use diecast.Runs.Dispatch.{Agents, running_count, tick}
use diecast.Runs.Delegation.{
  get_delegation_depth, parent_of, naive, Rules, Stamp, Trigger, new_run, trigger_agent,
}
use diecast.Runs.Recovered.{keeps_contract, has_session, recover_stale_runs-has_session}
use diecast.Runs.Bounded.{HasKeys, occurs, tick-running_count}
use diecast.Runs.Depth.{top, up, IsFresh, IsShallow, get_delegation_depth-Chain}
use diecast.Runs.Course.{triggered, dispatched, stay, next, Steps-IsShallow}
use diecast.Runs.Lasting.{Remains, Step-HasKeys-Remains}

abbrev env : Env
env = record { no_output_message = λ i. codes "no output"; params_goal = λ i. codes "goal" }

abbrev run_with : Text → Status → Option Text → Run
run_with i st parent = record {
  id = i;
  agent_name = codes "maker";
  goal_slug = codes "goal";
  status = st;
  parent_run_id = parent;
  scheduled_at = none;
  created_at = codes "1";
  started_at = none;
  completed_at = none;
  error_message = none;
  needs_attention = false;
}

abbrev output_of : Text → Output
output_of i = if text_eq i (codes "b") then parsed completed [] false else absent

abbrev service : List Run → Service
service rs = record {
  runs = rs;
  idle_since = λ i. none;
  total_paused = λ i. none;
  cooldown_until = λ i. none;
  current_pause = λ i. none;
  done_file = λ i. false;
  output_file = output_of;
}

abbrev no_session : Text → Bool
no_session i = false

-- One run has lost its session and left nothing; the other has left an output.
abbrev stale_two : Service
stale_two = service (run_with (codes "a") running none ∷ run_with (codes "b") pending none ∷ [])

output_of_keeps : (i : Text) → keeps_contract (output_of i) ≡ true
output_of_keeps i = elim (Bool-cases (text_eq i (codes "b"))) [
  | inl e ↦ rw e refl
  | inr e ↦ rw e refl
]

recover_stale_runs-has_session_example :
    all (has_session no_session) (recover_stale_runs env no_session (codes "9") stale_two).0.runs
    ≡ true
recover_stale_runs-has_session_example =
    recover_stale_runs-has_session env no_session (codes "9") stale_two output_of_keeps

abbrev map_status : List Run → List Status
map_status [] = []
map_status (r ∷ rs) = r.status ∷ map_status rs

-- A paused run whose session has died is failed although its output is there.
paused_run :
    map_status
      (recover_stale_runs env no_session
        (codes "9")
        (service (run_with (codes "b") rate_limited none ∷ []))).0.runs
    ≡ failed ∷ []
unfolding recover_stale_runs
paused_run = refl

abbrev queued_two : Service
queued_two = service (run_with (codes "a") completed none ∷ run_with (codes "b") pending none ∷ [])

two_keys :
    (st su : Status) → HasKeys (run_with (codes "a") st none ∷ run_with (codes "b") su none ∷ [])
two_keys st su i = elim (Bool-cases (text_eq (codes "a") i)) [
  | inl e ↦
      subst
        (λ (j : Text).
          occurs j (run_with (codes "a") st none ∷ run_with (codes "b") su none ∷ []) ≤ 1)
        ((text_eq_iff (codes "a") i).0 e) (omega arith)
  | inr e ↦ ground (arith, e)
]

abbrev agents : Agents
agents = record { should_auto_retry = λ a. true; problem = λ i. none }

tick-running_count_example :
    (running_count (tick 1 agents (codes "9") queued_two).runs ≤ 1)
    × ((i : Text) → occurs i (tick 1 agents (codes "9") queued_two).runs ≡ occurs i queued_two.runs)
tick-running_count_example =
    tick-running_count 1 agents (codes "9") queued_two (two_keys completed pending)

Step-HasKeys-Remains_example :
    HasKeys (tick 1 agents (codes "9") queued_two).runs
    × Remains
        (codes "a")
        (run_with (codes "a") completed none)
        (tick 1 agents (codes "9") queued_two)
unfolding get_agent_run
Step-HasKeys-Remains_example =
    Step-HasKeys-Remains (codes "a") (run_with (codes "a") completed none) queued_two
      (tick 1 agents (codes "9") queued_two) (dispatched 1 agents (codes "9") queued_two)
      (two_keys completed pending) refl refl

-- The second run was delegated by the first.
abbrev pair : List Run
pair = run_with (codes "a") running none ∷ run_with (codes "b") pending (some (codes "a")) ∷ []

get_delegation_depth-Chain_example : get_delegation_depth (codes "b") pair ≡ 1
unfolding parent_of get_agent_run
get_delegation_depth-Chain_example =
    get_delegation_depth-Chain pair (codes "b") 1 refl
      (up (codes "b") (codes "a") 0 refl (top (codes "a") refl))

abbrev rules : Rules
rules = record {
  has_project_dir = λ g. true;
  allowed_delegations = λ a. codes "checker" ∷ [];
  from_iso = λ t. some naive;
}

abbrev ask : Text → Option Text → Trigger
ask agent parent = record {
  agent_name = agent;
  goal_slug = codes "goal";
  scheduled_at = none;
  parent_run_id = parent;
}

abbrev stamp : Text → Stamp
stamp i = record { now = codes "1"; seconds = 1; run_id = i }

abbrev begun : Service
begun = service (new_run (ask (codes "maker") none) (stamp (codes "a")) pending ∷ [])

abbrev grown : Service
grown = service (
    new_run (ask (codes "maker") none) (stamp (codes "a")) pending
    ∷ new_run (ask (codes "checker") (some (codes "a"))) (stamp (codes "b")) pending
    ∷ [])

trigger_first :
    trigger_agent rules (ask (codes "maker") none) (stamp (codes "a")) (service []) ≡ done begun
unfolding trigger_agent
trigger_first = refl

trigger_second :
    trigger_agent rules (ask (codes "checker") (some (codes "a"))) (stamp (codes "b")) begun
    ≡ done grown
unfolding trigger_agent
trigger_second = refl

-- A time with no zone ends in an error that nothing catches.
trigger_naive :
    trigger_agent rules
      (record {
        agent_name = codes "maker";
        goal_slug = codes "goal";
        scheduled_at = some (codes "2026-01-01T00:00:00");
        parent_run_id = none;
      })
      (stamp (codes "a"))
      (service [])
    ≡ raised naive_time
unfolding trigger_agent
trigger_naive = refl

a-IsFresh : IsFresh (codes "a") []
unfolding get_agent_run parent_of
a-IsFresh = (refl, (λ i. none-ne-some), refl)

b-IsFresh : IsFresh (codes "b") begun.runs
unfolding get_agent_run parent_of
b-IsFresh = (
  refl,
  (λ i. elim (Bool-cases (text_eq (codes "a") i)) [
    | inl e ↦ rw e none-ne-some
    | inr e ↦ rw e none-ne-some
  ]),
  refl,
)

empty-IsShallow : IsShallow []
unfolding get_delegation_depth parent_of get_agent_run
empty-IsShallow i = ground arith

Steps-IsShallow_example : IsShallow grown.runs
Steps-IsShallow_example =
    Steps-IsShallow (service []) grown
      (next (service []) begun grown
        (next (service []) (service []) begun (stay (service [])) (
          triggered rules (ask (codes "maker") none) (stamp (codes "a")) (service []) begun
            a-IsFresh trigger_first))
        (triggered rules (ask (codes "checker") (some (codes "a"))) (stamp (codes "b")) begun grown
          b-IsFresh trigger_second))
      empty-IsShallow
