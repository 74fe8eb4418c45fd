-- ===== src/Quality/Loop/Retry.antt =====
-- `run_checker_with_retry`: one retry on a failed run or a malformed verdict.
use diecast.Prelude.{
  ℕ, zero, suc, ◌≡◌, Bool, true, false, Option, none, some, Text, [], if◌then◌else◌, arith,
}

abbrev or_else {ℓ} : {A : Type ℓ} → Option A → Option A → Option A
or_else none b = b
or_else (some a) b = some a

abbrev is_none {ℓ} : {A : Type ℓ} → Option A → Bool
is_none none = true
is_none (some a) = false

-- `W` is the world of the agents. `run` returns the raw output, or none when it raises the run
-- error; `parse` returns none when it raises the verdict error.
module _ {W V : Type 0} (run : W → W × Option Text) (parse : Text → Option V) where
  abbrev parse_run : Option Text → Text → Option V × Text
  parse_run none last_raw = (none, last_raw)
  parse_run (some raw) last_raw = (parse raw, raw)

  -- `for attempt in range(n)`: the result, and the world with the tries made
  unfoldable pub try_checker : ℕ → Text → W → W × Option V × Bool × Text
  try_checker zero last_raw w = (w, none, true, last_raw)
  try_checker (suc n) last_raw w =
      let (w', raw) = run w in
      let (verdict, last_raw') = parse_run raw last_raw in
      elim verdict [ some v ↦ (w', some v, false, last_raw') | none ↦ try_checker n last_raw' w' ]

  unfoldable pub run_checker_with_retry : W → W × Option V × Bool × Text
  unfolding try_checker
  run_checker_with_retry w = try_checker 2 [] w

  -- One try, and the verdict that it parsed.
  abbrev pub try_once : W → W × Option V
  try_once w = let (w', raw) = run w in (w', (parse_run raw []).0)

  abbrev pub Outcome : Option V → W → W × Option V × Bool × Text → Type 0
  Outcome first w (w', verdict, unscored, last_raw) =
      (verdict ≡ or_else first (try_once w).1)
      × (unscored ≡ is_none verdict)
      × (w' ≡ (if is_none first then (try_once w).0 else w))

  -- The checker runs a second time only when the first try gave no verdict. The verdict is that of
  -- the first try that gave one, and the attempt is unscored exactly when neither did.
  run_checker_with_retry_lem :
      (w : W) → Outcome (try_once w).1 (try_once w).0 (run_checker_with_retry w)
  unfolding run_checker_with_retry
  run_checker_with_retry_lem w = ground arith
