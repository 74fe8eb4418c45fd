-- ===== src/Runs/Bounded.antt =====
-- How many runs the dispatcher lets run (services/agent_service.py).
use diecast.Prelude.{
  ℕ, ◌+◌, ◌-◌, ◌≤◌, max, ◌≡◌, refl, Option, none, some, List, [], ◌∷◌, ◌++◌, Text, codes, text_eq,
  filter, length, length-take, ltb, ltb→lt, if◌then◌else◌, arith, Bool-cases, ◌∙◌, inl, inr,
}
use diecast.Runs.{running, Run, Service, update_agent_run, get_agent_run, fail}
use diecast.Runs.Finish.{is_pending}
use diecast.Runs.Dispatch.{
  is_running, promote, promote_scheduled_runs, running_count, launch_found, launch_agent,
  blocked_message, Agents, may_launch, dispatch_run, dispatch_runs, next_runs, oldest_first, tick,
}

abbrev pub occurs : Text → List Run → ℕ
occurs i [] = 0
occurs i (r ∷ rs) = (if text_eq r.id i then 1 else 0) + occurs i rs

-- `id` is the table's primary key.
abbrev pub HasKeys : List Run → Type 0
HasKeys rs = (i : Text) → occurs i rs ≤ 1

promote-is_running :
    (now : Text) (r : Run) → is_running (promote now r).status ≡ is_running r.status
unfolding promote
promote-is_running now r = ground arith

promote_id : (now : Text) (r : Run) → (promote now r).id ≡ r.id
unfolding promote
promote_id now r = ground arith

running_count-promote :
    (now : Text) (rs : List Run) → running_count (promote_scheduled_runs now rs) ≡ running_count rs
unfolding promote_scheduled_runs
running_count-promote now [] = refl
running_count-promote now (r ∷ rs) =
    rw (promote-is_running now r, running_count-promote now rs) refl

pub occurs-promote :
    (now i : Text) (rs : List Run) → occurs i (promote_scheduled_runs now rs) ≡ occurs i rs
unfolding promote_scheduled_runs
occurs-promote now i [] = refl
occurs-promote now i (r ∷ rs) = rw (promote_id now r, occurs-promote now i rs) refl

running_count-update :
    (i : Text) (f : Run → Run) (rs : List Run)
    → running_count (update_agent_run i f rs) ≤ running_count rs + occurs i rs
unfolding update_agent_run
running_count-update i f [] = omega arith
running_count-update i f (r ∷ rs) = ground (arith, running_count-update i f rs)

pub occurs-update :
    (i : Text) (f : Run → Run)
    → ((r : Run) → (f r).id ≡ r.id)
    → (j : Text) (rs : List Run) → occurs j (update_agent_run i f rs) ≡ occurs j rs
unfolding update_agent_run
occurs-update i f same j [] = refl
occurs-update i f same j (r ∷ rs) = elim (Bool-cases (text_eq r.id i)) [
  | inl e ↦ rw (e, same r, occurs-update i f same j rs) refl
  | inr e ↦ rw (e, occurs-update i f same j rs) refl
]

-- From `s` to `t`, at most `n` runs more are running, and the ids are the same.
abbrev Adds : ℕ → Service → Service → Type 0
Adds n s t =
    (running_count t.runs ≤ running_count s.runs + n)
    × ((i : Text) → occurs i t.runs ≡ occurs i s.runs)

update-Adds :
    (i : Text) (f : Run → Run) (s : Service)
    → HasKeys s.runs
    → ((r : Run) → (f r).id ≡ r.id)
    → (running_count (update_agent_run i f s.runs) ≤ running_count s.runs + 1)
      × ((j : Text) → occurs j (update_agent_run i f s.runs) ≡ occurs j s.runs)
update-Adds i f s keys same =
    (omega (arith, running_count-update i f s.runs, keys i), (λ j. occurs-update i f same j s.runs))

launch_found-Adds :
    (i now : Text) (problem : Option Text) (s : Service) (o : Option Run)
    → HasKeys s.runs
    → Adds 1 s (launch_found i now problem s o)
unfolding update_agent_run
launch_found-Adds i now problem s none keys = (omega arith, (λ j. refl))
launch_found-Adds i now none s (some r) keys = elim (Bool-cases (is_pending r.status)) [
  | inl e ↦
      rw e (
        update-Adds i (λ x. record x { status = running; started_at = some now }) s keys
          (λ x. refl))
  | inr e ↦ rw e (omega arith, (λ j. refl))
]
launch_found-Adds i now (some m) s (some r) keys = elim (Bool-cases (is_pending r.status)) [
  | inl e ↦ rw e (update-Adds i (fail (codes "Launch failed: " ++ m) now) s keys (λ x. refl))
  | inr e ↦ rw e (omega arith, (λ j. refl))
]

dispatch_run-Adds :
    (agents : Agents) (now i : Text) (s : Service)
    → HasKeys s.runs
    → Adds 1 s (dispatch_run agents now i s)
unfolding dispatch_run launch_agent
dispatch_run-Adds agents now i s keys =
    elim (Bool-cases (may_launch agents (get_agent_run i s.runs))) [
      | inl e ↦ rw e (launch_found-Adds i now (agents.problem i) s (get_agent_run i s.runs) keys)
      | inr e ↦ rw e (update-Adds i (fail blocked_message now) s keys (λ x. refl))
    ]

dispatch_runs-Adds :
    (agents : Agents) (now : Text) (rows : List Run) (s : Service)
    → HasKeys s.runs
    → Adds (length rows) s (dispatch_runs agents now rows s)
unfolding dispatch_runs
dispatch_runs-Adds agents now [] s keys = (omega arith, (λ j. refl))
dispatch_runs-Adds agents now (r ∷ rows) s keys =
    let one : Adds 1 s (dispatch_run agents now r.id s) =
      dispatch_run-Adds agents now r.id s keys in
    let keys2 : HasKeys (dispatch_run agents now r.id s).runs =
      λ i. omega (arith, keys i, one.1 i) in
    let rest : Adds (length rows) (dispatch_run agents now r.id s)
        (dispatch_runs agents now rows (dispatch_run agents now r.id s)) =
      dispatch_runs-Adds agents now rows (dispatch_run agents now r.id s) keys2 in
    (omega (arith, one.0, rest.0), (λ j. rest.1 j ∙ one.1 j))

length-next_runs : (slots : ℕ) (rs : List Run) → length (next_runs slots rs) ≤ slots
unfolding next_runs
length-next_runs slots rs =
    omega (arith, length-take slots (oldest_first (filter (λ (r : Run). is_pending r.status) rs)))

-- Where ids are distinct, an iteration of the dispatcher leaves at most as many runs running as the
-- limit, or as were running before when they were more; and every id stays as often as it was.
pub tick-running_count :
    (max_concurrent : ℕ) (agents : Agents) (now : Text) (s : Service)
    → HasKeys s.runs
    → (running_count (tick max_concurrent agents now s).runs
        ≤ max max_concurrent (running_count s.runs))
      × ((i : Text) → occurs i (tick max_concurrent agents now s).runs ≡ occurs i s.runs)
unfolding tick
tick-running_count n agents now s keys =
    let rs = promote_scheduled_runs now s.runs in
    let keys2 : HasKeys rs = λ i. omega (arith, keys i, occurs-promote now i s.runs) in
    let t : Service = record s { runs = rs } in
    let adds : Adds (length (next_runs (n - running_count rs) rs)) t
        (dispatch_runs agents now (next_runs (n - running_count rs) rs) t) =
      dispatch_runs-Adds agents now (next_runs (n - running_count rs) rs) t keys2 in
    elim (Bool-cases (ltb (running_count rs) n)) [
      | inl e ↦ rw e (
        omega (
          arith,
          adds.0,
          ltb→lt (running_count rs) n e,
          running_count-promote now s.runs,
          length-next_runs (n - running_count rs) rs,
        ),
        (λ i. adds.1 i ∙ occurs-promote now i s.runs),
      )
      | inr e ↦
          rw e (omega (arith, running_count-promote now s.runs), (λ i. occurs-promote now i s.runs))
    ]
