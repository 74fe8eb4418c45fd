-- ===== src/Jobs.antt =====
-- render_common/job_runtime.py: the registry of render jobs, the slots in flight and the reaper.
pub mod Rows
pub mod Slots
pub mod Live
pub mod Reaper
pub mod Flight
pub mod Single
pub mod Steps
pub mod Threads
pub mod Safe
mod Tests
use diecast.Prelude.{
  ℕ, zero, suc, ◌+◌, ◌*◌, Bool, true, false, not, ◌&&◌, Option, none, some, List, [], ◌∷◌, ◌++◌,
  Text, codes, text_eq, get_elem?, set, filter, ltb, leb, ◌-◌, ◌==◌, if◌then◌else◌,
}
use diecast.Jobs.Rows.{JobRow, update_job}

-- `(slug, hash)`
abbrev pub Key : Type 0
Key = Text × Text

abbrev pub same_key : Key → Key → Bool
same_key a b = text_eq a.0 b.0 && text_eq a.1 b.1

-- A `JobSlot`
pub record JobSlot : Type 0 where
  pub key : Key
  pub slot_held : Bool
  pub thread : Option ℕ

-- The job-state objects by reference, and the members of a `JobRegistry`: the registry's dict as an
-- association list, the semaphore's value with its bound, and the set of held slots.
pub record JobRegistry : Type 0 where
  pub states : List JobSlot
  pub registry : List (Key × ℕ)
  pub max_inflight : ℕ
  pub free : ℕ
  pub held : List Key

abbrev pub discard : Key → List Key → List Key
discard k ks = filter (λ x. not (same_key x k)) ks

abbrev pub mark : Bool → JobSlot → JobSlot
mark b s = record { key = s.key; slot_held = b; thread = s.thread }

-- `acquire` blocks on an empty semaphore, and `release` raises above the bound.
pub data Outcome : Type 0 where
  blocked : Outcome
  over_released : Outcome
  done : JobRegistry → Outcome

-- No reference dangles; the clauses for one that does change nothing.
abbrev pub acquire_state : Option JobSlot → ℕ → ℕ → JobRegistry → Outcome
acquire_state none ref free r = done r
acquire_state (some s) ref zero r = blocked
acquire_state (some s) ref (suc free) r = done (record {
  states = set r.states ref (mark true s);
  registry = r.registry;
  max_inflight = r.max_inflight;
  free = free;
  held = s.key ∷ discard s.key r.held;
})

unfoldable pub acquire_slot : ℕ → JobRegistry → Outcome
acquire_slot ref r = acquire_state (get_elem? r.states ref) ref r.free r

abbrev pub release_held : Bool → JobSlot → ℕ → JobRegistry → Outcome
release_held false s ref r = done r
release_held true s ref r =
    if leb r.max_inflight r.free
    then over_released
    else done (record {
      states = set r.states ref (mark false s);
      registry = r.registry;
      max_inflight = r.max_inflight;
      free = suc r.free;
      held = discard s.key r.held;
    })

abbrev pub release_state : Option JobSlot → ℕ → JobRegistry → Outcome
release_state none ref r = done r
release_state (some s) ref r = release_held s.slot_held s ref r

unfoldable pub release_slot : ℕ → JobRegistry → Outcome
release_slot ref r = release_state (get_elem? r.states ref) ref r

-- A reset builds a new semaphore; the states are the callers' and stay.
unfoldable pub reset : ℕ → JobRegistry → JobRegistry
reset max_inflight r = record {
  states = r.states;
  registry = [];
  max_inflight = max_inflight;
  free = max_inflight;
  held = [];
}

-- `registry.get(key)` and `registry.pop(key, None)`
abbrev pub lookup : Key → List (Key × ℕ) → Option ℕ
lookup k [] = none
lookup k ((j, ref) ∷ rs) = let rest = lookup k rs in if same_key j k then some ref else rest

abbrev pub pop : Key → JobRegistry → JobRegistry
pop k r = record {
  states = r.states;
  registry = filter (λ e. not (same_key e.0 k)) r.registry;
  max_inflight = r.max_inflight;
  free = r.free;
  held = r.held;
}

-- An age in microseconds; a time to come has a negative one.
pub data Age : Type 0 where
  past : ℕ → Age
  future : ℕ → Age

abbrev pub second : ℕ
second = 1000000

-- `age > ceiling` in seconds
abbrev pub exceeds : Age → ℕ → Bool
exceeds (past age) ceiling = ltb (ceiling * second) age
exceeds (future age) ceiling = false

-- What the module calls: the parser of times, in microseconds of UTC, the test of a thread, the
-- reaper's message, and the time at which a row is written.
pub record Host : Type 0 where
  pub fromisoformat : Text → Option ℕ
  pub is_alive : ℕ → Bool
  pub reaped_error : Option Age → ℕ → Text
  pub utcnow_iso : ℕ → Text

abbrev pub age_at : Option ℕ → ℕ → Option Age
age_at none now = none
age_at (some t) now = some (if leb t now then past (now - t) else future (t - now))

abbrev pub is_over : Option Age → ℕ → Bool
is_over none ceiling = false
is_over (some age) ceiling = exceeds age ceiling

abbrev pub state_of : Option ℕ → JobRegistry → Option JobSlot
state_of none r = none
state_of (some ref) r = get_elem? r.states ref

-- `release_slot(state)` and the pop, where there is a state; none for the semaphore's `ValueError`
abbrev pub then_pop : Key → Outcome → Option JobRegistry
then_pop k (done r) = some (pop k r)
then_pop k blocked = none
then_pop k over_released = none

unfoldable pub drop_state : Key → Option ℕ → JobRegistry → Option JobRegistry
unfolding release_slot
drop_state k none r = some r
drop_state k (some ref) r = then_pop k (release_slot ref r)

-- The registry, the table and the ids reaped so far
pub record Reaping (Score : Type 0) : Type 0 where
  pub jobs : JobRegistry
  pub rows : List (JobRow Score)
  pub reaped : List ℕ

module _ (host : Host) where
  unfoldable pub age_seconds : Option Text → ℕ → Option Age
  age_seconds none now = none
  age_seconds (some []) now = none
  age_seconds (some (c ∷ ts)) now = age_at (host.fromisoformat (c ∷ ts)) now

  abbrev pub thread_lives : Option ℕ → Bool
  thread_lives none = false
  thread_lives (some t) = host.is_alive t

  abbrev pub state_lives : Option JobSlot → Bool
  state_lives none = false
  state_lives (some s) = thread_lives s.thread

  abbrev pub is_live : Key → JobRegistry → Bool
  is_live k r = state_lives (state_of (lookup k r.registry) r)

module _ {Score : Type 0} where
  -- `heartbeat_at or started_at`
  abbrev pub last_sign : JobRow Score → Option Text
  last_sign row = elim row.heartbeat_at [
    | none ↦ row.started_at
    | some t ↦ elim t [ [] ↦ row.started_at | c ∷ cs ↦ some (c ∷ cs) ]
  ]

  abbrev pub key_of : JobRow Score → Key
  key_of row = (row.goal_slug, row.source_hash)

  abbrev pub is_running : JobRow Score → Bool
  is_running row = text_eq row.status (codes "running")

module _ {Score : Type 0} (host : Host) where
  unfoldable pub is_stale : ℕ → ℕ → JobRow Score → Bool
  unfolding age_seconds
  is_stale ceiling now row = is_over (age_seconds host (last_sign row) now) ceiling

  abbrev pub reap_fields : ℕ → ℕ → JobRow Score → JobRow Score → JobRow Score
  reap_fields ceiling now stale row = record {
    id = row.id;
    goal_slug = row.goal_slug;
    source_hash = row.source_hash;
    status = codes "failed";
    attempts = row.attempts;
    error = some (host.reaped_error (age_seconds host (last_sign stale) now) ceiling);
    started_at = row.started_at;
    finished_at = some (host.utcnow_iso stale.id);
    heartbeat_at = row.heartbeat_at;
    human_review = row.human_review;
    review_reason = row.review_reason;
    published_attempt = row.published_attempt;
    published_score = row.published_score;
  }

  abbrev pub fail_row :
      ℕ → ℕ → JobRow Score → Reaping Score → Option JobRegistry → Option (Reaping Score)
  fail_row ceiling now row w none = none
  fail_row ceiling now row w (some r) = some (record {
    jobs = r;
    rows = update_job (some row.id) (reap_fields ceiling now row) w.rows;
    reaped = w.reaped ++ row.id ∷ [];
  })

  unfoldable pub reap_row : ℕ → ℕ → JobRow Score → Reaping Score → Option (Reaping Score)
  unfolding is_stale drop_state update_job
  reap_row ceiling now row w =
      let k = key_of row in
      if is_stale ceiling now row && not (is_live host k w.jobs)
      then fail_row ceiling now row w (drop_state k (lookup k w.jobs.registry) w.jobs)
      else some w

  unfoldable pub reap_rows :
      ℕ → ℕ → List (JobRow Score) → Option (Reaping Score) → Option (Reaping Score)
  unfolding reap_row
  reap_rows ceiling now rows none = none
  reap_rows ceiling now [] (some w) = some w
  reap_rows ceiling now (row ∷ rows) (some w) =
      reap_rows ceiling now rows (reap_row ceiling now row w)

  unfoldable pub reap_stale_jobs :
      ℕ → ℕ → JobRegistry → List (JobRow Score) → Option (Reaping Score)
  unfolding reap_rows
  reap_stale_jobs ceiling now r rows =
      reap_rows ceiling now (filter is_running rows)
        (some (record { jobs = r; rows = rows; reaped = [] }))
