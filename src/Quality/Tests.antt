-- ===== src/Quality/Tests.antt =====
-- Runs of the quality loop on small inputs. A float is the number of hundredths above -1.00, and
-- the job is a script of the stages' answers.
use Prim.Native.Nat.{◌-◌}
use diecast.Prelude.{
  ℕ, ◌+◌, ◌*◌, ◌≡◌, refl, ◌⊎◌, Bool, true, false, Option, none, some, List, [], ◌∷◌, ◌++◌, Text,
  codes, leb, arith, OneOf, lower, ◌==◌, if◌then◌else◌,
}
use diecast.Quality.Float.{Floats}
use diecast.Quality.Verdict.{
  CheckerIssue, BaseVerdict, severity_error, severity_warning, derive_pass, canonical_score,
  is_error, is_warning, missing_names_gated_token,
}
use diecast.Quality.Attempt.{AttemptRecord, best_attempt}
use diecast.Quality.Loop.{QualityLoopOps, FeedbackItem, Decision, decide, run_quality_loop, maker}
use diecast.Quality.Loop.Policy.{Chosen, decide-flagged}
use diecast.Quality.Exploration.{
  ExplorationVerdict, GateReport, ExplorationJob, AgentRun, run_failed, printed, verdict_of,
  Surroundings,
}
use diecast.Quality.Exploration.Ops.{run_exploration_loop}
use diecast.Quality.Exploration.Ends.{run_exploration_loop_total}
use diecast.Quality.Loop.Clean.{Published, run_quality_loop-clean}
use diecast.Quality.Loop.Retry.{run_checker_with_retry}

le_total_ℕ : (a b : ℕ) → (leb a b ≡ true) ⊎ (leb b a ≡ true)
le_total_ℕ a b = ground arith

abbrev hundredths : Floats ℕ
hundredths = record {
  zero_float = 100;
  one_float = 200;
  minus_one = 0;
  error_weight = 115;
  warning_weight = 105;
  times = λ w n. (w - 100) * n + 100;
  minus = λ a b. a + 100 - b;
  le = leb;
  le_refl = λ a. ground arith;
  le_trans = λ a b c h k. ground arith;
  le_total = le_total_ℕ;
  times_mono_error = λ m n h. ground arith;
  times_mono_warning = λ m n h. ground arith;
  minus_mono_left = λ a b c h. ground arith;
  minus_anti_right = λ a b c h. ground arith;
}

abbrev issue : Text → CheckerIssue
issue s = record {
  dimension = codes "clarity";
  criterion = codes "job";
  severity = s;
  description = codes "unclear";
  evidence = [];
}

abbrev verdict_with : List Text → List CheckerIssue → BaseVerdict ℕ
verdict_with missing issues = record {
  can_state_what = true;
  missing = missing;
  issues = issues;
  score = 200;
  rework_feedback = [];
  contract = [];
}

abbrev gated : List Text
gated = codes "job" ∷ codes "scope" ∷ []

gate_run :
    (derive_pass (verdict_with [] (issue severity_warning ∷ [])) gated ≡ true)
    × (derive_pass (verdict_with (codes "The JOB itself" ∷ []) []) gated ≡ false)
    × (derive_pass (verdict_with [] (issue severity_error ∷ [])) gated ≡ false)
unfolding derive_pass missing_names_gated_token is_error lower
gate_run = (refl, refl, refl)

score_run :
    canonical_score hundredths
      (verdict_with [] (issue severity_warning ∷ issue severity_error ∷ []))
    ≡ 180
unfolding canonical_score is_error is_warning
score_run = refl

-- The state of a scripted job.
record Job : Type 0 where
  how : ℕ
  structural : ℕ
  history : List (AttemptRecord ℕ (BaseVerdict ℕ) Bool)
  outputs : List (Option Text)
  verdicts : List (BaseVerdict ℕ)
  valid : Bool
  served : List Text

abbrev next_output : List (Option Text) → Option Text
next_output [] = none
next_output (x ∷ xs) = x

abbrev rest_of {ℓ} : {A : Type ℓ} → List A → List A
rest_of [] = []
rest_of (x ∷ xs) = xs

abbrev first_verdict : List (BaseVerdict ℕ) → Option (BaseVerdict ℕ)
first_verdict [] = none
first_verdict (v ∷ vs) = some v

abbrev has_none {ℓ} : {A : Type ℓ} → List A → Bool
has_none [] = true
has_none (x ∷ xs) = false

abbrev script_ops : QualityLoopOps Job (BaseVerdict ℕ) Bool ℕ
script_ops = record {
  max_attempts = 3;
  structural_stop = 2;
  run_how =
      λ fb h s. (record s { how = s.how + 1; outputs = rest_of s.outputs }, next_output s.outputs);
  gate_html = λ s. s;
  run_checker = λ html s.
      (record s { verdicts = rest_of s.verdicts }, first_verdict s.verdicts, has_none s.verdicts);
  structurally_valid = λ s. s.valid;
  what_ok = λ s. true;
  derive_pass = λ v. derive_pass v gated;
  canonical_score = canonical_score hundredths;
  gate_report = λ s. s.valid;
  how_attempts = λ s. s.how;
  consecutive_structural = λ s. s.structural;
  set_consecutive_structural = λ n s. record s { structural = n };
  attempts_history = λ s. s.history;
  append_attempt = λ r s. record s { history = s.history ++ r ∷ [] };
  no_output_feedback = record { text = codes "Emit one render"; provenance = codes "structural" };
  rework_feedback = λ v s. record { text = codes "Improve"; provenance = codes "quality" } ∷ [];
  score_history = λ s. codes "history";
  maybe_escalate = λ v s. s;
  heartbeat = λ stage s. s;
  publish_clean = λ r s. record s { served = r.html ∷ s.served };
  publish_flagged = λ r by reason s. record s { served = r.html ∷ s.served };
  publish_fallback = λ reason s. record s { served = codes "fallback" ∷ s.served };
}

-- The first attempt has no output, the second an error, and the third passes.
abbrev job : Job
job = record {
  how = 0;
  structural = 0;
  history = [];
  outputs = none ∷ some (codes "<p>1</p>") ∷ some (codes "<p>2</p>") ∷ [];
  verdicts = verdict_with [] (issue severity_error ∷ []) ∷ verdict_with [] [] ∷ [];
  valid = true;
  served = [];
}

-- The maker's first output has no render, its second a page without the hat, and its third the page.
abbrev maker_prints : Option (List FeedbackItem) → Option Text → ExplorationJob ℕ → AgentRun
maker_prints feedback history s =
    if s.how_attempts == 1
    then printed (codes "nothing")
    else if s.how_attempts == 2
    then printed (codes "<!-- BEGIN RENDER --><head><style><!-- END RENDER -->")
    else printed (codes "<!-- BEGIN RENDER --><head><style>sceptic<!-- END RENDER -->")

abbrev clear : ExplorationVerdict ℕ
clear = record {
  base = verdict_with [] [];
  hat_coverage_ok = true;
  pov_legible = true;
  distinctness_ok = true;
  visual_ok = true;
}

-- The checker's run fails once, then it prints its verdict.
abbrev surroundings : Surroundings ℕ
surroundings = record {
  maker = maker_prints;
  checker =
      λ attempt html s. if attempt == 0 then run_failed (codes "timeout") else printed (codes "{}");
  parse_verdict = λ raw. verdict_of clear;
  current_digest = λ s. some (codes "abc");
  fallback_page = λ steps. codes "fallback";
  decimal = λ n. codes "#";
  two_digits = λ x. codes "2.00";
  quality_max_attempts = 15;
  quality_structural_stop = 3;
}

abbrev exploration : ExplorationJob ℕ
exploration = record {
  source_digest = codes "abc";
  steps =
      record {
        slug = codes "market";
        hat_notes = record { hat_id = codes "sceptic"; is_present = true } ∷ [];
      }
      ∷ [];
  what_doc = some (codes "market: sceptic");
  what_ok_flag = true;
  how_raw = none;
  html = none;
  html_ok_flag = false;
  html_violations = [];
  notes = [];
  attempts = 1;
  how_attempts = 0;
  consecutive_structural = 0;
  attempts_history = [];
  final = none;
  page = none;
}

run_exploration_loop_total_example :
    (p : ExplorationJob ℕ × Decision ℕ (ExplorationVerdict ℕ) GateReport) × (run_exploration_loop
        hundredths surroundings 64 exploration
      ≡ some p)
run_exploration_loop_total_example =
    run_exploration_loop_total hundredths surroundings 64 exploration (omega arith)

status_of : Option (ExplorationJob ℕ × Decision ℕ (ExplorationVerdict ℕ) GateReport) → Option Text
status_of none = none
status_of (some p) = elim p.0.final [ none ↦ none | some f ↦ some f.status ]

exploration_run :
    status_of (run_exploration_loop hundredths surroundings 64 exploration)
    ≡ some (codes "published")
unfolding status_of run_exploration_loop lower missing_names_gated_token
exploration_run = refl

abbrev passing : AttemptRecord ℕ (BaseVerdict ℕ) Bool
passing = record {
  attempt_no = 3;
  html = codes "<p>2</p>";
  gate_report = true;
  what_ok = true;
  structurally_valid = true;
  verdict = some (verdict_with [] []);
  unscored = false;
  canonical_score = some 200;
}

abbrev failing : AttemptRecord ℕ (BaseVerdict ℕ) Bool
failing = record {
  attempt_no = 2;
  html = codes "<p>1</p>";
  gate_report = true;
  what_ok = true;
  structurally_valid = true;
  verdict = some (verdict_with [] (issue severity_error ∷ []));
  unscored = false;
  canonical_score = some 185;
}

abbrev job_end : Job
job_end = record {
  how = 3;
  structural = 0;
  history = failing ∷ passing ∷ [];
  outputs = [];
  verdicts = [];
  valid = true;
  served = codes "<p>2</p>" ∷ [];
}

run_quality_loop-clean_example : Published hundredths script_ops job_end passing
unfolding run_quality_loop derive_pass canonical_score missing_names_gated_token is_error is_warning
    lower
run_quality_loop-clean_example =
    run_quality_loop-clean hundredths script_ops 12 job job_end passing refl

broken : AttemptRecord ℕ (BaseVerdict ℕ) Bool
broken = record passing { structurally_valid = false }

-- The broken attempt has the higher score and the later number, and the valid one is served.
decide-flagged_example :
    OneOf failing (failing ∷ broken ∷ [])
    × Chosen hundredths (failing ∷ broken ∷ []) failing maker (codes "structural_degradation")
unfolding decide best_attempt broken
decide-flagged_example =
    decide-flagged hundredths true (failing ∷ broken ∷ []) failing maker
      (codes "structural_degradation") refl

-- The checker's script: what each run answers. An empty answer does not parse.
abbrev run_script : List (Option Text) → List (Option Text) × Option Text
run_script outputs = (rest_of outputs, next_output outputs)

abbrev parse_nonempty : Text → Option Text
parse_nonempty [] = none
parse_nonempty (c ∷ t) = some (c ∷ t)

abbrev answers : List (Option Text)
answers = some [] ∷ some (codes "ok") ∷ some (codes "late") ∷ []

-- The first run answers what does not parse, and the second is used.
retry_run :
    run_checker_with_retry run_script parse_nonempty answers
    ≡ (some (codes "late") ∷ [], some (codes "ok"), false, codes "ok")
unfolding run_checker_with_retry
retry_run = refl
