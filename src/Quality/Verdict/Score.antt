-- ===== src/Quality/Verdict/Score.antt =====
-- `canonical_score` of render_common/verdict.py by the counts of issues.
use diecast.Prelude.{ℕ, ◌≤◌, ◌≡◌, true, length}
use diecast.Quality.Float.{Floats, float_max-le}
use diecast.Quality.Verdict.{BaseVerdict, error_issues, warning_issues, canonical_score}

module _ {F : Type 0} (o : Floats F) where
  -- `1.0 - 0.15 * errors - 0.05 * warnings`
  abbrev raw_score : ℕ → ℕ → F
  raw_score errors warnings =
      o.minus (o.minus o.one_float (o.times o.error_weight errors))
        (o.times o.warning_weight warnings)

  raw_score-anti : (e e' w w' : ℕ) → e ≤ e' → w ≤ w' → o.le (raw_score e' w') (raw_score e w) ≡ true
  raw_score-anti e e' w w' he hw =
      o.le_trans _ _ _
        (o.minus_mono_left _ _ _ (o.minus_anti_right _ _ _ (o.times_mono_error e e' he)))
        (o.minus_anti_right _ _ _ (o.times_mono_warning w w' hw))

  -- A verdict with at least as many errors and at least as many warnings never scores higher.
  canonical_score-anti :
      (v v' : BaseVerdict F)
      → length (error_issues v) ≤ length (error_issues v')
      → length (warning_issues v) ≤ length (warning_issues v')
      → o.le (canonical_score o v') (canonical_score o v) ≡ true
  unfolding canonical_score
  canonical_score-anti v v' he hw = float_max-le o _ _ _ (raw_score-anti _ _ _ _ he hw)
