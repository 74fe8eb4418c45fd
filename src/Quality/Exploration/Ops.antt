-- ===== src/Quality/Exploration/Ops.antt =====
-- `_ExplorationLoopOps` (services/exploration_render_service.py): the stages and the publishing as the
-- operations of the quality loop.
use diecast.Prelude.{
  ℕ, ◌+◌, Option, none, some, List, [], ◌∷◌, ◌++◌, map, Text, codes, if◌then◌else◌,
}
use diecast.Quality.Float.{Floats}
use diecast.Quality.Verdict.{derive_pass, canonical_score}
use diecast.Quality.Loop.{QualityLoopOps, FeedbackItem, Decision, run_quality_loop}
use diecast.Quality.Exploration.{
  ExplorationVerdict, exploration_pass, GateReport, ExplorationJob, Attempt, Surroundings,
}
use diecast.Quality.Exploration.Stages.{run_how, gate_html, run_checker}
use diecast.Quality.Exploration.Publishing.{publish_clean, publish_flagged, publish_fallback}

module _ {F : Type 0} (o : Floats F) (w : Surroundings F) where
  abbrev structural_item : Text → FeedbackItem
  structural_item t = record { text = t; provenance = codes "structural" }

  abbrev quality_item : Text → FeedbackItem
  quality_item t = record { text = t; provenance = codes "quality" }

  abbrev quality_items : Option (ExplorationVerdict F) → List FeedbackItem
  quality_items none = []
  quality_items (some v) = map quality_item v.base.rework_feedback

  -- The first of the best scores, with its attempt
  abbrev better_score : Option (F × ℕ) → Option F → ℕ → Option (F × ℕ)
  better_score best none n = best
  better_score none (some x) n = some (x, n)
  better_score (some (y, m)) (some x) n = if o.le x y then some (y, m) else some (x, n)

  abbrev best_score : Option (F × ℕ) → List (Attempt F) → Option (F × ℕ)
  best_score best [] = best
  best_score best (r ∷ rs) = best_score (better_score best r.canonical_score r.attempt_no) rs

  abbrev best_text : Option (F × ℕ) → Text
  best_text none = codes "no scored attempt yet."
  best_text (some (x, n)) =
      codes "best so far " ++ w.two_digits x ++ codes " at attempt " ++ w.decimal n ++ codes "."

  abbrev score_history : ExplorationJob F → Text
  score_history s =
      codes "attempt "
      ++ w.decimal (s.how_attempts + 1)
      ++ codes " of up to "
      ++ w.decimal w.quality_max_attempts
      ++ codes "; "
      ++ best_text (best_score none s.attempts_history)

  -- `_ExplorationLoopOps`
  unfoldable pub exploration_ops :
      QualityLoopOps (ExplorationJob F) (ExplorationVerdict F) GateReport F
  unfolding run_how gate_html run_checker publish_clean publish_flagged publish_fallback derive_pass
      canonical_score
  exploration_ops = record {
    max_attempts = w.quality_max_attempts;
    structural_stop = w.quality_structural_stop;
    run_how = run_how w;
    gate_html = gate_html w;
    run_checker = run_checker w;
    structurally_valid = λ s. s.html_ok_flag;
    what_ok = λ s. s.what_ok_flag;
    derive_pass = exploration_pass;
    canonical_score = λ v. canonical_score o v.base;
    gate_report = λ s. record { passed = s.html_ok_flag; violations = s.html_violations };
    how_attempts = λ s. s.how_attempts;
    consecutive_structural = λ s. s.consecutive_structural;
    set_consecutive_structural = λ n s. record s { consecutive_structural = n };
    attempts_history = λ s. s.attempts_history;
    append_attempt = λ r s. record s { attempts_history = s.attempts_history ++ r ∷ [] };
    no_output_feedback = structural_item (
        codes
          "Your previous output did not contain a single well-formed render. Emit EXACTLY ONE `<!-- BEGIN RENDER -->` … `<!-- END RENDER -->` block wrapping a complete self-contained HTML document, with no markdown fences or chatty preamble around it.");
    rework_feedback = λ v s. map structural_item s.html_violations ++ quality_items v;
    score_history = score_history;
    maybe_escalate = λ v s. s;
    heartbeat = λ stage s. s;
    publish_clean = publish_clean w;
    publish_flagged = publish_flagged w;
    publish_fallback = publish_fallback w;
  }

  unfoldable pub run_exploration_loop :
      ℕ
      → ExplorationJob F
      → Option (ExplorationJob F × Decision F (ExplorationVerdict F) GateReport)
  unfolding run_quality_loop exploration_ops
  run_exploration_loop fuel s = run_quality_loop o exploration_ops fuel s
