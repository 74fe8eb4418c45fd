-- ===== src/Quality/Loop.antt =====
-- render_common/quality_loop.py: the rework loop and its terminal decision, over the interface
-- `QualityLoopOps` that a render job implements. `S` is the job's state, `V` its verdict, `R` the
-- report of its structural gate and `F` the floats.
pub mod Policy
pub mod Clean
pub mod Termination
pub mod Retry
use diecast.Prelude.{
  ℕ, zero, suc, ◌+◌, Bool, true, false, not, ◌&&◌, Option, none, some, List, [], ◌∷◌, Text, codes,
  ltb, leb, filter, all, if◌then◌else◌,
}
use diecast.Quality.Float.{Floats}
use diecast.Quality.Attempt.{AttemptRecord, best_attempt}

pub record FeedbackItem : Type 0 where
  pub text : Text
  pub provenance : Text

pub record QualityLoopOps (S V R F : Type 0) : Type 0 where
  pub max_attempts : ℕ
  pub structural_stop : ℕ
  pub run_how : Option (List FeedbackItem) → Option Text → S → S × Option Text
  pub gate_html : S → S
  pub run_checker : Text → S → S × Option V × Bool
  pub structurally_valid : S → Bool
  pub what_ok : S → Bool
  pub derive_pass : V → Bool
  pub canonical_score : V → F
  pub gate_report : S → R
  pub how_attempts : S → ℕ
  pub consecutive_structural : S → ℕ
  pub set_consecutive_structural : ℕ → S → S
  pub attempts_history : S → List (AttemptRecord F V R)
  pub append_attempt : AttemptRecord F V R → S → S
  pub no_output_feedback : FeedbackItem
  pub rework_feedback : Option V → S → List FeedbackItem
  pub score_history : S → Text
  pub maybe_escalate : Option V → S → S
  pub heartbeat : Text → S → S
  pub publish_clean : AttemptRecord F V R → S → S
  pub publish_flagged : AttemptRecord F V R → Text → Text → S → S
  pub publish_fallback : Text → S → S

-- What the loop ends with. `raised` is the error of `max` on no records.
pub data Decision (F V R : Type 0) : Type 0 where
  clean : AttemptRecord F V R → Decision F V R
  flagged : AttemptRecord F V R → Text → Text → Decision F V R
  fallback : Text → Decision F V R
  raised : Decision F V R

-- How one pass of the loop's body ends: `return` after a clean publish, `break`, or the next pass
-- with its feedback.
pub data Next (S F V R : Type 0) : Type 0 where
  return : S → AttemptRecord F V R → Next S F V R
  break : S → Next S F V R
  continue : List FeedbackItem → S → Next S F V R

abbrev pub no_render : Text
no_render = codes "maker produced no extractable render across all attempts"

abbrev pub maker : Text
maker = codes "maker"

abbrev pub structural_violation : Text
structural_violation = codes "structural_violation"

module _ {F V R : Type 0} (o : Floats F) where
  abbrev flag : Option (AttemptRecord F V R) → Text → Text → Decision F V R
  flag none served_by reason = raised
  flag (some chosen) served_by reason = flagged chosen served_by reason

  abbrev reason_for : Bool → List (AttemptRecord F V R) → Text
  reason_for structural_stop valid =
      if structural_stop
      then codes "structural_degradation"
      else if all (λ r. r.unscored) valid
      then codes "checker_unavailable"
      else codes "non_convergent"

  -- The policy table, over the structural-stop flag and the records.
  unfoldable pub decide : Bool → List (AttemptRecord F V R) → Decision F V R
  decide structural_stop history = elim history [
    | [] ↦ fallback no_render
    | r ∷ rs ↦
        let valid = filter (λ a. a.structurally_valid) (r ∷ rs) in
        elim valid [
          | [] ↦ flag (best_attempt o (r ∷ rs)) structural_violation structural_violation
          | v ∷ vs ↦ flag (best_attempt o (v ∷ vs)) maker (reason_for structural_stop (v ∷ vs))
        ]
  ]

module _ {S F V R : Type 0} (o : Floats F) (ops : QualityLoopOps S V R F) where
  pub publish : Decision F V R → S → S
  publish (clean r) s = ops.publish_clean r s
  publish (flagged r served_by reason) s = ops.publish_flagged r served_by reason s
  publish (fallback reason) s = ops.publish_fallback reason s
  publish raised s = s

  unfoldable pub decide_quality : S → S × Decision F V R
  unfolding publish
  decide_quality s =
      let s1 = ops.heartbeat (codes "decide_quality") s in
      let stopped = leb ops.structural_stop (ops.consecutive_structural s1) in
      let decision = decide o stopped (ops.attempts_history s1) in (publish decision s1, decision)

  -- An attempt with no output: another structural failure, with nothing to score.
  pub no_output : S → Next S F V R
  no_output s =
      let n = ops.consecutive_structural s + 1 in
      let s1 = ops.set_consecutive_structural n s in
      if leb ops.structural_stop n then break s1 else continue (ops.no_output_feedback ∷ []) s1

  abbrev score_of : Option V → Bool → Option F
  score_of none unscored = none
  score_of (some v) unscored = if unscored then none else some (ops.canonical_score v)

  abbrev passes : Option V → Bool
  passes none = false
  passes (some v) = ops.derive_pass v

  -- The rework after an attempt that is not clean.
  pub rework : Option V → Bool → S → Next S F V R
  rework verdict sound s =
      let n = if sound then 0 else ops.consecutive_structural s + 1 in
      let s1 = ops.maybe_escalate verdict (ops.set_consecutive_structural n s) in
      if leb ops.structural_stop (ops.consecutive_structural s1)
      then break s1
      else continue (ops.rework_feedback verdict s1) s1

  -- A clean attempt is published; any other is reworked.
  pub conclude : AttemptRecord F V R → S → Next S F V R
  unfolding rework
  conclude r s =
      if r.what_ok && (r.structurally_valid && passes r.verdict)
      then return (ops.publish_clean r s) r
      else rework r.verdict (r.structurally_valid && r.what_ok) s

  pub new_attempt : Text → S → Option V → Bool → AttemptRecord F V R
  new_attempt extracted s verdict unscored = record {
    attempt_no = ops.how_attempts s;
    html = extracted;
    gate_report = ops.gate_report s;
    what_ok = ops.what_ok s;
    structurally_valid = ops.structurally_valid s;
    verdict = verdict;
    unscored = unscored;
    canonical_score = score_of verdict unscored;
  }

  -- The check and the record of the attempt.
  pub scored : Text → S → Next S F V R
  unfolding conclude new_attempt
  scored extracted s =
      let (s1, verdict, unscored) = ops.run_checker extracted s in
      let r = new_attempt extracted s1 verdict unscored in conclude r (ops.append_attempt r s1)

  abbrev is_nonempty : Option (List FeedbackItem) → Bool
  is_nonempty none = false
  is_nonempty (some []) = false
  is_nonempty (some (f ∷ fs)) = true

  pub after_how : S × Option Text → Next S F V R
  unfolding no_output scored
  after_how (s, none) = no_output (ops.gate_html s)
  after_how (s, some extracted) = scored extracted (ops.gate_html s)

  -- One pass of the `while` body.
  pub iteration : Option (List FeedbackItem) → S → Next S F V R
  unfolding after_how
  iteration feedback s =
      let history = if is_nonempty feedback then some (ops.score_history s) else none in
      after_how (ops.run_how feedback history s)

  -- What follows a pass: `rest` is the next one.
  pub settle :
      (List FeedbackItem → S → Option (S × Decision F V R))
      → Next S F V R
      → Option (S × Decision F V R)
  settle rest (return s r) = some (s, clean r)
  settle rest (break s) = some (decide_quality s)
  settle rest (continue feedback s) = rest feedback s

  -- The `while` loop on fuel; `none` means that the fuel ran out.
  pub loop : ℕ → Option (List FeedbackItem) → S → Option (S × Decision F V R)
  loop zero feedback s = none
  loop (suc fuel) feedback s = elim (ltb (ops.how_attempts s) ops.max_attempts) [
    | false ↦ some (decide_quality s)
    | true ↦ settle (λ feedback'. loop fuel (some feedback')) (iteration feedback s)
  ]

  unfoldable pub run_quality_loop : ℕ → S → Option (S × Decision F V R)
  unfolding loop settle iteration decide_quality
  run_quality_loop fuel s = loop fuel none s
