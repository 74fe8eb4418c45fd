-- ===== src/Quality/Verdict.antt =====
-- render_common/verdict.py: the checker's verdict, the binary gate and the ranking score, both
-- computed from the structured fields. Text is lower-cased over ASCII.
pub mod Gate
pub mod Score
use diecast.Prelude.{
  ℕ, Bool, true, false, not, ◌||◌, List, [], ◌∷◌, Text, codes, text_eq, contains, lower, filter,
  any, length, if◌then◌else◌,
}
use diecast.Quality.Float.{Floats, float_max}

pub record CheckerIssue : Type 0 where
  pub dimension : Text
  pub criterion : Text
  pub severity : Text
  pub description : Text
  pub evidence : Text

pub record BaseVerdict (F : Type 0) : Type 0 where
  pub can_state_what : Bool
  pub missing : List Text
  pub issues : List CheckerIssue
  pub score : F
  pub rework_feedback : List Text
  pub contract : Text

abbrev pub severity_error : Text
severity_error = codes "error"

abbrev pub severity_warning : Text
severity_warning = codes "warning"

unfoldable pub is_error : CheckerIssue → Bool
is_error i = text_eq i.severity severity_error

unfoldable pub is_warning : CheckerIssue → Bool
is_warning i = text_eq i.severity severity_warning

abbrev is_nil {ℓ} : {A : Type ℓ} → List A → Bool
is_nil [] = true
is_nil (x ∷ xs) = false

-- `any(token in str(entry).lower() for entry in missing for token in gated_tokens)`
unfoldable pub missing_names_gated_token : List Text → List Text → Bool
missing_names_gated_token missing gated_tokens =
    any (λ entry. any (λ token. contains (lower entry) token) gated_tokens) missing

module _ {F : Type 0} where
  unfoldable pub error_issues : BaseVerdict F → List CheckerIssue
  error_issues v = filter is_error v.issues

  unfoldable pub warning_issues : BaseVerdict F → List CheckerIssue
  warning_issues v = filter is_warning v.issues

  unfoldable pub derive_pass : BaseVerdict F → List Text → Bool
  unfolding error_issues
  derive_pass v gated_tokens =
      if not v.can_state_what
      then false
      else if missing_names_gated_token v.missing gated_tokens
      then false
      else if not (is_nil (error_issues v))
      then false
      else true

  unfoldable pub canonical_score : Floats F → BaseVerdict F → F
  unfolding error_issues warning_issues float_max
  canonical_score o v =
      let errors = length (error_issues v) in
      let warnings = length (warning_issues v) in
      let raw =
        o.minus (o.minus o.one_float (o.times o.error_weight errors))
          (o.times o.warning_weight warnings) in
      float_max o o.zero_float raw
