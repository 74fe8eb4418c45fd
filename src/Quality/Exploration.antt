-- ===== src/Quality/Exploration.antt =====
-- services/exploration_render_service.py: the job of an exploration render as the quality loop sees it,
-- with the gate of exploration_render/verdict.py. What the two agents print, the reading of a verdict
-- from JSON, the digest of the files and the page of the fallback are arguments; the prompts, the log
-- and the files of the job's directory are left out.
pub mod Stages
pub mod Publishing
pub mod Ops
pub mod Ends
use diecast.Prelude.{
  ℕ, zero, suc, ◌+◌, Bool, true, false, not, ◌&&◌, Option, none, some, List, [], ◌∷◌, ◌++◌, map,
  Text, codes, text_eq, contains, lower, join, if◌then◌else◌,
}
use diecast.Quality.Float.{Floats}
use diecast.Quality.Verdict.{BaseVerdict, CheckerIssue, derive_pass, error_issues, canonical_score}
use diecast.Quality.Attempt.{AttemptRecord}
use diecast.Quality.Sentinel.{extract_render}
use diecast.Quality.Loop.{QualityLoopOps, FeedbackItem, Decision, run_quality_loop}

-- `ExplorationVerdict`
pub record ExplorationVerdict (F : Type 0) : Type 0 where
  pub base : BaseVerdict F
  pub hat_coverage_ok : Bool
  pub pov_legible : Bool
  pub distinctness_ok : Bool
  pub visual_ok : Bool

abbrev pub gated_tokens : List Text
gated_tokens = codes "pov" ∷ codes "distinctness" ∷ codes "hat_coverage" ∷ codes "visual" ∷ []

abbrev pub exploration_pass : {F : Type 0} → ExplorationVerdict F → Bool
exploration_pass v =
    derive_pass v.base gated_tokens
    && v.hat_coverage_ok
    && v.pov_legible
    && v.distinctness_ok
    && v.visual_ok

pub record HatNote : Type 0 where
  pub hat_id : Text
  pub is_present : Bool

pub record ExplorationStep : Type 0 where
  pub slug : Text
  pub hat_notes : List HatNote

-- What the structural gate reports
pub record GateReport : Type 0 where
  pub passed : Bool
  pub violations : List Text

-- What `_finalize` writes in the row of the job
pub record Final (F : Type 0) : Type 0 where
  pub status : Text
  pub error : Option Text
  pub human_review : Bool
  pub review_reason : Option Text
  pub published_attempt : Option ℕ
  pub published_score : Option F

-- The published page
pub record ServedPage : Type 0 where
  pub html : Text
  pub source_digest : Text
  pub served_by : Text
  pub human_review : Bool
  pub review_reason : Option Text

-- A record of the history
abbrev pub Attempt : Type 0 → Type 0
Attempt F = AttemptRecord F (ExplorationVerdict F) GateReport

-- `ExplorationJobState`
pub record ExplorationJob (F : Type 0) : Type 0 where
  pub source_digest : Text
  pub steps : List ExplorationStep
  pub what_doc : Option Text
  pub what_ok_flag : Bool
  pub how_raw : Option Text
  pub html : Option Text
  pub html_ok_flag : Bool
  pub html_violations : List Text
  pub notes : List Text
  pub attempts : ℕ
  pub how_attempts : ℕ
  pub consecutive_structural : ℕ
  pub attempts_history : List (Attempt F)
  pub final : Option (Final F)
  pub page : Option ServedPage

-- A run of an agent: its `AgentRunError`, or what it printed
pub data AgentRun : Type 0 where
  run_failed : Text → AgentRun
  printed : Text → AgentRun

-- `parse_exploration_verdict`: its `CheckerVerdictError`, or the verdict
pub data Reading (F : Type 0) : Type 0 where
  unreadable : Text → Reading F
  verdict_of : ExplorationVerdict F → Reading F

-- The world of the job: the agents by the state, with the texts their prompts are built from; the
-- digest of the files by the state; and the two numbers of the configuration
pub record Surroundings (F : Type 0) : Type 0 where
  pub maker : Option (List FeedbackItem) → Option Text → ExplorationJob F → AgentRun
  pub checker : ℕ → Text → ExplorationJob F → AgentRun
  pub parse_verdict : Text → Reading F
  pub current_digest : ExplorationJob F → Option Text
  pub fallback_page : List ExplorationStep → Text
  pub decimal : ℕ → Text
  pub two_digits : F → Text
  pub quality_max_attempts : ℕ
  pub quality_structural_stop : ℕ
