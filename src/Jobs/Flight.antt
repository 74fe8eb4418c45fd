-- ===== src/Jobs/Flight.antt =====
-- The life of the render jobs (services/render_job_service.py): requests, the jobs' threads and the
-- reaper, in any order of their steps.
use diecast.Prelude.{
  ℕ, ◌≡◌, Bool, true, false, Option, none, some, List, [], ◌∷◌, ◌++◌, Text, get_elem?, length,
  filter, if◌then◌else◌, ◌==◌, not,
}
use diecast.Jobs.Rows.{JobRow, Table, insert_job}
use diecast.Jobs.{
  Key, same_key, JobSlot, JobRegistry, done, acquire_slot, release_slot, lookup, pop, Host, is_live,
  Reaping, reap_row,
}

-- Where a job's thread stands: before its slot, in the pipeline, after the release of its slot, out
-- of the registry but alive, or at its end
pub data Stage : Type 0 where
  waiting : Stage
  running : Stage
  releasing : Stage
  leaving : Stage
  ended : Stage

abbrev pub is_alive_stage : Stage → Bool
is_alive_stage waiting = true
is_alive_stage running = true
is_alive_stage releasing = true
is_alive_stage leaving = true
is_alive_stage ended = false

-- The thread has not yet come to the removal of its state from the registry.
abbrev pub is_registered_stage : Stage → Bool
is_registered_stage waiting = true
is_registered_stage running = true
is_registered_stage releasing = true
is_registered_stage leaving = false
is_registered_stage ended = false

abbrev pub is_running_stage : Stage → Bool
is_running_stage waiting = false
is_running_stage running = true
is_running_stage releasing = false
is_running_stage leaving = false
is_running_stage ended = false

-- The registry, the table and the thread of each state; a thread has its state's reference.
pub record System (Score : Type 0) : Type 0 where
  pub jobs : JobRegistry
  pub table : Table Score
  pub stages : ℕ → Stage

abbrev pub put_stage : ℕ → Stage → (ℕ → Stage) → ℕ → Stage
put_stage ref s stages i = if i == ref then s else stages i

-- The host whose threads are these
abbrev pub with_threads : Host → (ℕ → Stage) → Host
with_threads h stages = record {
  fromisoformat = h.fromisoformat;
  is_alive = λ t. is_alive_stage (stages t);
  reaped_error = h.reaped_error;
  utcnow_iso = h.utcnow_iso;
}

-- `_registry[state.key] = state`
abbrev pub register : Key → ℕ → List (Key × ℕ) → List (Key × ℕ)
register k ref rs = (k, ref) ∷ filter (λ e. not (same_key e.0 k)) rs

abbrev pub add_state : Key → JobRegistry → JobRegistry
add_state k r =
    let ref = length r.states in
    record {
      states = r.states ++ record { key = k; slot_held = false; thread = some ref } ∷ [];
      registry = register k ref r.registry;
      max_inflight = r.max_inflight;
      free = r.free;
      held = r.held;
    }

-- The end of `_run_job_thread`: the registry's entry goes if it is this state.
abbrev pub pop_if : Bool → Key → JobRegistry → JobRegistry
pop_if true k r = pop k r
pop_if false k r = r

abbrev pub is_ref : Option ℕ → ℕ → Bool
is_ref none ref = false
is_ref (some j) ref = j == ref

abbrev pub pop_own : ℕ → Option JobSlot → JobRegistry → JobRegistry
pop_own ref none r = r
pop_own ref (some s) r = pop_if (is_ref (lookup s.key r.registry) ref) s.key r

module _ {Score : Type 0} where
  -- `_start_job`
  unfoldable pub start_job : Key → Text → System Score → System Score
  unfolding insert_job
  start_job k now s = record {
    jobs = add_state k s.jobs;
    table = (insert_job k.0 k.1 now s.table).0;
    stages = put_stage (length s.jobs.states) waiting s.stages;
  }

  -- The locked part of `request_render`: join the key's live job, or start one.
  unfoldable pub request_job : Host → Key → Text → System Score → System Score
  unfolding start_job
  request_job host k now s =
      if is_live (with_threads host s.stages) k s.jobs then s else start_job k now s

  abbrev pub set_table : List (JobRow Score) → Table Score → Table Score
  set_table rows t = record { rows = rows; last_id = t.last_id }

  pub data Step (host : Host) : System Score → System Score → Type 0 where
    -- The reaper takes a row as it once selected it.
    reap :
        (s : System Score) (row : JobRow Score) (ceiling now : ℕ) (w : Reaping Score)
        → reap_row
            (with_threads host s.stages)
            ceiling
            now
            row
            (record { jobs = s.jobs; rows = s.table.rows; reaped = [] })
          ≡ some w
        → Step host s
            (record { jobs = w.jobs; table = set_table w.rows s.table; stages = s.stages })
    -- `request_render` joins or starts.
    request : (s : System Score) (k : Key) (stamp : Text) → Step host s (request_job host k stamp s)
    -- A waiting thread gets a slot.
    acquire :
        (s : System Score) (ref : ℕ) (r : JobRegistry)
        → s.stages ref ≡ waiting
        → acquire_slot ref s.jobs ≡ done r
        → Step host s
            (record { jobs = r; table = s.table; stages = put_stage ref running s.stages })
    -- The pipeline of a running thread writes rows.
    write :
        (s : System Score) (t : Table Score)
        → Step host s (record { jobs = s.jobs; table = t; stages = s.stages })
    -- The pipeline of a running thread returns or raises, and its `finally` releases the slot.
    release :
        (s : System Score) (ref : ℕ) (r : JobRegistry)
        → s.stages ref ≡ running
        → release_slot ref s.jobs ≡ done r
        → Step host s
            (record { jobs = r; table = s.table; stages = put_stage ref releasing s.stages })
    -- Then it takes its state out of the registry, under the lock. A request may from then on start
    -- another job of the key, though the thread still lives.
    leave :
        (s : System Score) (ref : ℕ)
        → s.stages ref ≡ releasing
        → Step host s (record {
          jobs = pop_own ref (get_elem? s.jobs.states ref) s.jobs;
          table = s.table;
          stages = put_stage ref leaving s.stages;
        })
    -- The thread ends.
    end_thread :
        (s : System Score) (ref : ℕ)
        → s.stages ref ≡ leaving
        → Step host s
            (record { jobs = s.jobs; table = s.table; stages = put_stage ref ended s.stages })

  pub data Reachable (host : Host) (max_inflight : ℕ) : System Score → Type 0 where
    initial :
        (t : Table Score)
        → Reachable host max_inflight (record {
          jobs = record {
            states = [];
            registry = [];
            max_inflight = max_inflight;
            free = max_inflight;
            held = [];
          };
          table = t;
          stages = λ i. ended;
        })
    next :
        (s s' : System Score)
        → Reachable host max_inflight s
        → Step host s s'
        → Reachable host max_inflight s'
