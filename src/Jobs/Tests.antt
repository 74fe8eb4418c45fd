-- ===== src/Jobs/Tests.antt =====
-- A registry of two slots and a table of four jobs (render_common/job_runtime.py).
use diecast.Prelude.{
  ℕ, ◌≤◌, ◌+◌, ◌≡◌, refl, Bool, true, false, Option, none, some, List, [], ◌∷◌, Text, codes, filter,
  ◌==◌,
}
use diecast.Jobs.Rows.{JobRow, Table, insert_job, heartbeat, latest_job_row, get_job_row}
use diecast.Jobs.{
  Key, JobSlot, JobRegistry, Host, Reaping, age_seconds, is_stale, lookup, acquire_slot, is_running,
  reap_stale_jobs,
}
use diecast.Jobs.Slots.{IsBalanced}
use diecast.Jobs.Flight.{
  System, ended, running, put_stage, start_job, request_job, request, acquire, Reachable, initial,
  next,
}
use diecast.Jobs.Safe.{running_from, Reachable-bound, Reachable-single}
use diecast.Jobs.Reaper.{orphan_ids, Fails, reap_stale_jobs_lem}

-- Times are texts as long as their seconds; thread 0 lives.
abbrev seconds : Text → ℕ
seconds [] = 0
seconds (c ∷ cs) = 1000000 + seconds cs

abbrev lives : ℕ → Bool
lives n = n == 0

abbrev host : Host
host = record {
  fromisoformat = λ t. some (seconds t);
  is_alive = lives;
  reaped_error = λ age ceiling. codes "reaped";
  utcnow_iso = λ id. codes "now";
}

abbrev job : Text → Bool → Option ℕ → JobSlot
job slug held thread = record { key = (slug, codes "h"); slot_held = held; thread = thread }

abbrev two_held : JobRegistry
two_held = record {
  states =
      job (codes "a") true (some 1)
      ∷ job (codes "b") true (some 0)
      ∷ job (codes "c") false none
      ∷ [];
  registry =
      ((codes "a", codes "h"), 0) ∷ ((codes "b", codes "h"), 1) ∷ ((codes "c", codes "h"), 2) ∷ [];
  max_inflight = 3;
  free = 1;
  held = (codes "a", codes "h") ∷ (codes "b", codes "h") ∷ [];
}

abbrev row : ℕ → Text → Text → Text → JobRow ℕ
row id slug status beat = record {
  id = id;
  goal_slug = slug;
  source_hash = codes "h";
  status = status;
  attempts = 1;
  error = none;
  started_at = some (codes "s");
  finished_at = none;
  heartbeat_at = some beat;
  human_review = 0;
  review_reason = none;
  published_attempt = none;
  published_score = none;
}

-- Of the running jobs at second 9 with a ceiling of 3, the first is stale and dead, the second
-- stale and live, the third fresh; the fourth has ended.
abbrev table : List (JobRow ℕ)
table =
    row 1 (codes "a") (codes "running") (codes "s")
    ∷ row 2 (codes "b") (codes "running") (codes "s")
    ∷ row 3 (codes "c") (codes "running") (codes "seconds")
    ∷ row 4 (codes "a") (codes "published") (codes "s")
    ∷ []

one_reaped : orphan_ids host 3 9000000 two_held (filter is_running table) ≡ 1 ∷ []
unfolding is_stale age_seconds
one_reaped = refl

reap_stale_jobs_lem_example :
    (w : Reaping ℕ) × (reap_stale_jobs host 3 9000000 two_held table ≡ some w)
    × IsBalanced w.jobs
    × (w.reaped ≡ orphan_ids host 3 9000000 two_held (filter is_running table))
    × Fails host 3 9000000 table w.reaped w.rows
reap_stale_jobs_lem_example = reap_stale_jobs_lem host 3 9000000 two_held table refl

abbrev empty : Table ℕ
empty = record { rows = []; last_id = 4 }

-- An inserted job is the latest of its key, and its row shows the heartbeat and the end.
latest_of_inserted :
    latest_job_row (codes "g") (codes "h") (
      heartbeat
        (some 5)
        (codes "t")
        2
        (insert_job (codes "g") (codes "h") (codes "s") empty).0.rows)
    ≡ get_job_row 5 (
        heartbeat
          (some 5)
          (codes "t")
          2
          (insert_job (codes "g") (codes "h") (codes "s") empty).0.rows)
unfolding latest_job_row heartbeat insert_job
latest_of_inserted = refl

abbrev page : Key
page = (codes "g", codes "h")

-- A request starts a job, a second one joins it, and the job gets the one slot.
abbrev begun : System ℕ
begun = record {
  jobs = record { states = []; registry = []; max_inflight = 1; free = 1; held = [] };
  table = empty;
  stages = λ i. ended;
}

abbrev requested : System ℕ
requested = request_job host page (codes "s") begun

abbrev joined : System ℕ
joined = request_job host page (codes "t") requested

abbrev in_pipeline : System ℕ
in_pipeline = record {
  jobs = record {
    states = record { key = page; slot_held = true; thread = some 0 } ∷ [];
    registry = (page, 0) ∷ [];
    max_inflight = 1;
    free = 0;
    held = page ∷ [];
  };
  table = joined.table;
  stages = put_stage 0 running joined.stages;
}

in_pipeline-Reachable : Reachable host 1 in_pipeline
unfolding request_job start_job acquire_slot
in_pipeline-Reachable =
    next joined in_pipeline
      (next requested joined (next begun requested (initial empty) (request begun page (codes "s")))
        (request requested page (codes "t")))
      (acquire joined 0 _ refl refl)

Reachable-bound_example : running_from 0 in_pipeline.jobs.states in_pipeline.stages ≤ 1
Reachable-bound_example = Reachable-bound 1 host in_pipeline in_pipeline-Reachable

Reachable-single_example : (◌≡◌ {A = ℕ} 0 0) × (lookup page in_pipeline.jobs.registry ≡ some 0)
unfolding request_job
Reachable-single_example =
    Reachable-single 1 host in_pipeline in_pipeline-Reachable 0 0
      (record { key = page; slot_held = true; thread = some 0 })
      (record { key = page; slot_held = true; thread = some 0 }) refl refl refl refl refl
