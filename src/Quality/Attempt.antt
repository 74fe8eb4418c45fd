-- ===== src/Quality/Attempt.antt =====
-- `AttemptRecord` and `best_attempt` of render_common/quality_loop.py.
pub mod Best
use diecast.Prelude.{
  ℕ, Bool, true, false, not, ◌&&◌, Option, none, some, List, [], ◌∷◌, Text, ltb, ◌==◌,
  if◌then◌else◌,
}
use diecast.Quality.Float.{Floats}

-- `V` is the verdict and `R` the report of the structural gate.
pub record AttemptRecord (F V R : Type 0) : Type 0 where
  pub attempt_no : ℕ
  pub html : Text
  pub gate_report : R
  pub what_ok : Bool
  pub structurally_valid : Bool
  pub verdict : Option V
  pub unscored : Bool
  pub canonical_score : Option F

-- The sort key `(scored, score or -1.0, attempt_no)`.
pub record Key (F : Type 0) : Type 0 where
  pub scored : ℕ
  pub score : F
  pub number : ℕ

module _ {F : Type 0} (o : Floats F) where
  abbrev float_eq : F → F → Bool
  float_eq a b = o.le a b && o.le b a

  -- `k < l` on tuples: by the first components that differ
  pub key_lt : Key F → Key F → Bool
  key_lt k l =
      if not (k.scored == l.scored)
      then ltb k.scored l.scored
      else if not (float_eq k.score l.score)
      then not (o.le l.score k.score)
      else ltb k.number l.number

  abbrev score_or : Option F → F
  score_or none = o.minus_one
  score_or (some s) = s

module _ {F V R : Type 0} (o : Floats F) where
  unfoldable pub key : AttemptRecord F V R → Key F
  key r = record {
    scored = if r.unscored then 0 else 1;
    score = score_or o r.canonical_score;
    number = r.attempt_no;
  }

  -- `max` keeps the first of the greatest.
  pub better : AttemptRecord F V R → AttemptRecord F V R → AttemptRecord F V R
  better best r = if key_lt o (key best) (key r) then r else best

  pub max_from : AttemptRecord F V R → List (AttemptRecord F V R) → AttemptRecord F V R
  max_from best [] = best
  max_from best (r ∷ rs) = max_from (better best r) rs

  -- `max` of no records raises
  unfoldable pub best_attempt : List (AttemptRecord F V R) → Option (AttemptRecord F V R)
  unfolding max_from better key_lt key
  best_attempt [] = none
  best_attempt (r ∷ rs) = some (max_from r rs)
