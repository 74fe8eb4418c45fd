-- ===== src/Quality/Loop/Termination.antt =====
-- The `while` of `run_quality_loop` (render_common/quality_loop.py) and its fuel.
use diecast.Prelude.{
  ◌≡◌, refl, sym, ◌∙◌, ap, ◌⊎◌, inl, inr, Bool, true, false, ◌&&◌, Option, none, some, List, Text,
  arith, Bool-cases, none-ne-some, ltb, ltb→lt, zero, suc, ℕ, ◌+◌, ◌*◌, ◌-◌, ◌<◌,
}
use mathlib.Core.Path.{subst}
use diecast.Quality.Float.{Floats}
use diecast.Quality.Attempt.{AttemptRecord}
use diecast.Quality.Loop.{
  QualityLoopOps, FeedbackItem, Decision, clean, Next, return, break, continue, decide_quality,
  iteration, loop, settle, passes, scored, new_attempt, conclude, rework, no_output, after_how,
  run_quality_loop,
}

-- How the stages use the two counters: `run_how` either counts an attempt, or returns nothing (no
-- WHAT document); nothing else counts attempts, and the structural counter is only set.
pub record CountsAttempts {S V R F : Type 0} (ops : QualityLoopOps S V R F) : Type 0 where
  pub how_counts :
      (feedback : Option (List FeedbackItem)) (history : Option Text) (s : S)
      → let (s', extracted) = ops.run_how feedback history s in
        (ops.how_attempts s' ≡ ops.how_attempts s + 1)
        ⊎ (ops.how_attempts s' ≡ ops.how_attempts s) × (extracted ≡ none)
  pub how_structural :
      (feedback : Option (List FeedbackItem)) (history : Option Text) (s : S)
      → ops.consecutive_structural (ops.run_how feedback history s).0 ≡ ops.consecutive_structural s
  pub gate_counts : (s : S) → ops.how_attempts (ops.gate_html s) ≡ ops.how_attempts s
  pub gate_structural :
      (s : S) → ops.consecutive_structural (ops.gate_html s) ≡ ops.consecutive_structural s
  pub checker_counts :
      (html : Text) (s : S) → ops.how_attempts (ops.run_checker html s).0 ≡ ops.how_attempts s
  pub append_counts :
      (r : AttemptRecord F V R) (s : S)
      → ops.how_attempts (ops.append_attempt r s) ≡ ops.how_attempts s
  pub set_counts :
      (n : ℕ) (s : S) → ops.how_attempts (ops.set_consecutive_structural n s) ≡ ops.how_attempts s
  pub set_structural :
      (n : ℕ) (s : S) → ops.consecutive_structural (ops.set_consecutive_structural n s) ≡ n
  pub escalate_counts :
      (verdict : Option V) (s : S)
      → ops.how_attempts (ops.maybe_escalate verdict s) ≡ ops.how_attempts s

module _ {S F V R : Type 0} (o : Floats F) (ops : QualityLoopOps S V R F)
    (laws : CountsAttempts ops) where
  -- The passes left: an attempt pays for `structural_stop` passes without one.
  unfoldable pub passes_left : S → ℕ
  passes_left s =
      (ops.max_attempts - ops.how_attempts s) * suc ops.structural_stop
      + (ops.structural_stop - ops.consecutive_structural s)

  -- A pass that goes on leaves the structural counter below its stop, and either an attempt was
  -- counted or the structural counter has grown.
  abbrev Goes : S → Next S F V R → Type 0
  Goes s (return s' r) = Unit
  Goes s (break s') = Unit
  Goes s (continue feedback s') =
      (ops.consecutive_structural s' < ops.structural_stop)
      × ((ops.how_attempts s' ≡ ops.how_attempts s + 1)
          ⊎ (ops.how_attempts s' ≡ ops.how_attempts s)
            × (ops.consecutive_structural s < ops.consecutive_structural s'))

  no_output-Goes :
      (s t : S)
      → ops.consecutive_structural s ≡ ops.consecutive_structural t
      → (ops.how_attempts s ≡ ops.how_attempts t + 1) ⊎ (ops.how_attempts s ≡ ops.how_attempts t)
      → Goes t (no_output o ops s)
  unfolding no_output
  no_output-Goes s t same counted = ground (
    arith,
    laws.set_counts (ops.consecutive_structural s + 1) s,
    laws.set_structural (ops.consecutive_structural s + 1) s,
  )

  rework-Goes :
      (verdict : Option V) (sound : Bool) (s t : S)
      → ops.how_attempts s ≡ ops.how_attempts t + 1
      → Goes t (rework o ops verdict sound s)
  unfolding rework
  rework-Goes verdict true s t counted = ground (
    arith,
    laws.set_counts 0 s,
    laws.escalate_counts verdict (ops.set_consecutive_structural 0 s),
  )
  rework-Goes verdict false s t counted = ground (
    arith,
    laws.set_counts (ops.consecutive_structural s + 1) s,
    laws.escalate_counts verdict
        (ops.set_consecutive_structural (ops.consecutive_structural s + 1) s),
  )

  conclude-Goes :
      (r : AttemptRecord F V R) (s t : S)
      → ops.how_attempts s ≡ ops.how_attempts t + 1
      → Goes t (conclude o ops r s)
  unfolding conclude
  conclude-Goes r s t counted =
      elim (Bool-cases (r.what_ok && (r.structurally_valid && passes o ops r.verdict))) [
        | inl e ↦ rw e tt
        | inr e ↦ rw e (rework-Goes r.verdict (r.structurally_valid && r.what_ok) s t counted)
      ]

  scored-Goes :
      (extracted : Text) (s t : S)
      → ops.how_attempts s ≡ ops.how_attempts t + 1
      → Goes t (scored o ops extracted s)
  unfolding scored
  scored-Goes extracted s t counted =
      let (s1, verdict, unscored) = ops.run_checker extracted s in
      let r = new_attempt o ops extracted s1 verdict unscored in
      conclude-Goes r (ops.append_attempt r s1) t
        (laws.append_counts r s1 ∙ laws.checker_counts extracted s ∙ counted)

  -- What `run_how` has done to the counters, by its result.
  abbrev Counted : S → S × Option Text → Type 0
  Counted t (s, extracted) =
      (ops.consecutive_structural s ≡ ops.consecutive_structural t)
      × ((ops.how_attempts s ≡ ops.how_attempts t + 1)
          ⊎ (ops.how_attempts s ≡ ops.how_attempts t) × (extracted ≡ none))

  after_how-Goes : (p : S × Option Text) (t : S) → Counted t p → Goes t (after_how o ops p)
  unfolding after_how
  after_how-Goes (s, none) t h =
      no_output-Goes (ops.gate_html s) t (laws.gate_structural s ∙ h.0)
        (elim h.1 [ inl c ↦ inl (laws.gate_counts s ∙ c) | inr c ↦ inr (laws.gate_counts s ∙ c.0) ])
  after_how-Goes (s, some extracted) t h =
      scored-Goes extracted (ops.gate_html s) t
        (laws.gate_counts s ∙ elim h.1 [ inl c ↦ c | inr c ↦ absurd (none-ne-some (sym c.1)) ])

  iteration-Goes :
      (feedback : Option (List FeedbackItem)) (s : S) → Goes s (iteration o ops feedback s)
  unfolding iteration
  iteration-Goes feedback s =
      after_how-Goes (ops.run_how feedback _ s) s
        (laws.how_structural feedback _ s, laws.how_counts feedback _ s)

  -- A pass that goes on uses up one of the passes left.
  passes_left-falls :
      (s s' : S)
      → ops.how_attempts s < ops.max_attempts
      → ops.consecutive_structural s' < ops.structural_stop
      → (ops.how_attempts s' ≡ ops.how_attempts s + 1)
        ⊎ (ops.how_attempts s' ≡ ops.how_attempts s)
          × (ops.consecutive_structural s < ops.consecutive_structural s')
      → passes_left s' < passes_left s
  unfolding passes_left
  passes_left-falls s s' more below (inl c) =
      let e : ops.max_attempts - ops.how_attempts s ≡ suc (ops.max_attempts - ops.how_attempts s') =
        omega arith in
      omega (arith, ap (λ (t : ℕ). t * suc ops.structural_stop) e)
  passes_left-falls s s' more below (inr c) =
      omega (arith, ap (λ (t : ℕ). (ops.max_attempts - t) * suc ops.structural_stop) c.0)

  settle_total :
      (rest : List FeedbackItem → S → Option (S × Decision F V R)) (n : Next S F V R)
      → ((feedback : List FeedbackItem) (s' : S)
          → n ≡ continue feedback s'
          → (p : S × Decision F V R) × (rest feedback s' ≡ some p))
      → (p : S × Decision F V R) × (settle o ops rest n ≡ some p)
  unfolding settle
  settle_total rest (return s' r) h = ((s', clean r), refl)
  settle_total rest (break s') h = (decide_quality o ops s', refl)
  settle_total rest (continue feedback s') h = h feedback s' refl

  loop_total :
      (fuel : ℕ) (feedback : Option (List FeedbackItem)) (s : S)
      → passes_left s < fuel
      → (p : S × Decision F V R) × (loop o ops fuel feedback s ≡ some p)
  unfolding loop
  loop_total zero feedback s h = absurd (omega arith)
  loop_total (suc fuel) feedback s h =
      elim (Bool-cases (ltb (ops.how_attempts s) ops.max_attempts)) [
        | inr e ↦ (decide_quality o ops s, rw (e, loop))
        | inl e ↦
            let (p, q) =
              settle_total (λ feedback'. loop o ops fuel (some feedback'))
                (iteration o ops feedback s)
                (λ feedback' s' k.
                  let g : Goes s (continue feedback' s') =
                    subst (Goes s) k (iteration-Goes feedback s) in
                  loop_total fuel (some feedback') s'
                    (omega (arith, passes_left-falls s s' (ltb→lt _ _ e) g.0 g.1))) in
            (p, rw (e, loop) q)
      ]

  -- If the stages count attempts as `CountsAttempts` says, the loop returns a final state and a
  -- decision for every fuel above the passes left.
  pub run_quality_loop_total :
      (fuel : ℕ) (s : S)
      → passes_left s < fuel
      → (p : S × Decision F V R) × (run_quality_loop o ops fuel s ≡ some p)
  unfolding run_quality_loop
  run_quality_loop_total fuel s h = loop_total fuel none s h
