-- ===== src/Jobs/Rows.antt =====
-- The rows of `render_jobs` (render_common/job_runtime.py), with the current time as an argument.
use diecast.Prelude.{
  ℕ, suc, Bool, true, false, ◌&&◌, Option, none, some, List, [], ◌∷◌, ◌++◌, Text, codes, text_eq,
  ◌==◌, if◌then◌else◌, map,
}

pub record JobRow (Score : Type 0) : Type 0 where
  pub id : ℕ
  pub goal_slug : Text
  pub source_hash : Text
  pub status : Text
  pub attempts : ℕ
  pub error : Option Text
  pub started_at : Option Text
  pub finished_at : Option Text
  pub heartbeat_at : Option Text
  pub human_review : ℕ
  pub review_reason : Option Text
  pub published_attempt : Option ℕ
  pub published_score : Option Score

-- The table: its rows in the order of their ids, and the last id given (AUTOINCREMENT).
pub record Table (Score : Type 0) : Type 0 where
  pub rows : List (JobRow Score)
  pub last_id : ℕ

-- The keyword arguments of `finalize_job`.
pub record Terminal (Score : Type 0) : Type 0 where
  pub status : Text
  pub error : Option Text
  pub attempts : ℕ
  pub human_review : ℕ
  pub review_reason : Option Text
  pub published_attempt : Option ℕ
  pub published_score : Option Score

module _ {Score : Type 0} where
  unfoldable pub insert_job : Text → Text → Text → Table Score → Table Score × ℕ
  insert_job goal_slug source_hash now t =
      let row : JobRow Score = record {
        id = suc t.last_id;
        goal_slug = goal_slug;
        source_hash = source_hash;
        status = codes "running";
        attempts = 0;
        error = none;
        started_at = some now;
        finished_at = none;
        heartbeat_at = some now;
        human_review = 0;
        review_reason = none;
        published_attempt = none;
        published_score = none;
      } in
      (record { rows = t.rows ++ row ∷ []; last_id = suc t.last_id }, suc t.last_id)

  -- The `UPDATE` of the row with an id; the fields to set are a function of the row.
  unfoldable pub update_job :
      Option ℕ → (JobRow Score → JobRow Score) → List (JobRow Score) → List (JobRow Score)
  update_job none fields rows = rows
  update_job (some id) fields rows =
      map (λ (r : JobRow Score). if r.id == id then fields r else r) rows

  abbrev pub get_job_row : ℕ → List (JobRow Score) → Option (JobRow Score)
  get_job_row id [] = none
  get_job_row id (r ∷ rs) = let rest = get_job_row id rs in if r.id == id then some r else rest

  -- Of the rows of one goal and hash, the last.
  abbrev later : Option (JobRow Score) → JobRow Score → Bool → Option (JobRow Score)
  later (some q) r b = some q
  later none r true = some r
  later none r false = none

  unfoldable pub latest_job_row : Text → Text → List (JobRow Score) → Option (JobRow Score)
  latest_job_row goal_slug source_hash [] = none
  latest_job_row goal_slug source_hash (r ∷ rs) =
      later (latest_job_row goal_slug source_hash rs) r
        (text_eq r.goal_slug goal_slug && text_eq r.source_hash source_hash)

  abbrev pub beat : Text → ℕ → JobRow Score → JobRow Score
  beat now attempts r = record {
    id = r.id;
    goal_slug = r.goal_slug;
    source_hash = r.source_hash;
    status = r.status;
    attempts = attempts;
    error = r.error;
    started_at = r.started_at;
    finished_at = r.finished_at;
    heartbeat_at = some now;
    human_review = r.human_review;
    review_reason = r.review_reason;
    published_attempt = r.published_attempt;
    published_score = r.published_score;
  }

  unfoldable pub heartbeat : Option ℕ → Text → ℕ → List (JobRow Score) → List (JobRow Score)
  unfolding update_job
  heartbeat row_id now attempts rows = update_job row_id (beat now attempts) rows

  abbrev pub finish : Text → Terminal Score → JobRow Score → JobRow Score
  finish now e r = record {
    id = r.id;
    goal_slug = r.goal_slug;
    source_hash = r.source_hash;
    status = e.status;
    attempts = e.attempts;
    error = e.error;
    started_at = r.started_at;
    finished_at = some now;
    heartbeat_at = some now;
    human_review = e.human_review;
    review_reason = e.review_reason;
    published_attempt = e.published_attempt;
    published_score = e.published_score;
  }

  unfoldable pub finalize_job :
      Option ℕ → Text → Terminal Score → List (JobRow Score) → List (JobRow Score)
  unfolding update_job
  finalize_job row_id now e rows = update_job row_id (finish now e) rows

abbrev pub stage_timeout : Text → List (Text × ℕ) → ℕ → ℕ
stage_timeout stage [] default = default
stage_timeout stage ((name, secs) ∷ rest) default =
    if text_eq name stage then secs else stage_timeout stage rest default
