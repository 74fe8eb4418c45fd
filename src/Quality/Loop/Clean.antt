-- ===== src/Quality/Loop/Clean.antt =====
-- The clean publishes of `run_quality_loop` (render_common/quality_loop.py).
use diecast.Prelude.{
  ◌≡◌, refl, sym, ap, inl, inr, Bool, true, ◌&&◌, Option, none, some, List, [], ◌∷◌, Text, arith,
  Bool-cases, some-inj, none-ne-some, true-ne-false, ltb, zero, suc, ℕ,
}
use mathlib.Core.Path.{subst}
use diecast.Quality.Float.{Floats}
use diecast.Quality.Attempt.{AttemptRecord}
use diecast.Quality.Loop.{
  QualityLoopOps, FeedbackItem, Decision, clean, Next, return, break, continue, decide,
  decide_quality, iteration, loop, passes, scored, new_attempt, conclude, settle, rework, no_output,
  after_how, run_quality_loop,
}
use diecast.Quality.Loop.Policy.{decide_serves}

module _ {S F V R : Type 0} (o : Floats F) (ops : QualityLoopOps S V R F) where
  -- The attempt passed both gates, and it has a verdict that passes the checker's.
  pub record Gated (r : AttemptRecord F V R) : Type 0 where
    pub what_ok : r.what_ok ≡ true
    pub structurally_valid : r.structurally_valid ≡ true
    pub passed : (v : V) × (r.verdict ≡ some v) × (ops.derive_pass v ≡ true)

  -- The checker judged the text in a state, and the job went from what it left to `s'`: the attempt
  -- was appended to the history, then published.
  pub record Judged (text : Text) (s s' : S) (r : AttemptRecord F V R) : Type 0 where
    pub checked : S
    pub judged : ops.run_checker text s ≡ (checked, r.verdict, r.unscored)
    pub html : r.html ≡ text
    pub what_gate : r.what_ok ≡ ops.what_ok checked
    pub structure_gate : r.structurally_valid ≡ ops.structurally_valid checked
    pub gated : Gated r
    pub published : s' ≡ ops.publish_clean r (ops.append_attempt r checked)

  -- The attempt is of a text that the maker returned, and was judged after the structural gate.
  pub record Published (s' : S) (r : AttemptRecord F V R) : Type 0 where
    pub entry : S
    pub feedback : Option (List FeedbackItem)
    pub scores : Option Text
    pub made : S
    pub text : Text
    pub how : ops.run_how feedback scores entry ≡ (made, some text)
    pub judgement : Judged text (ops.gate_html made) s' r

  rework-return :
      (verdict : Option V) (sound : Bool) (s s' : S) (r : AttemptRecord F V R)
      → rework o ops verdict sound s ≡ return s' r
      → ⊥
  unfolding rework
  rework-return verdict sound s s' r h = ground arith

  no_output-return : (s s' : S) (r : AttemptRecord F V R) → no_output o ops s ≡ return s' r → ⊥
  unfolding no_output
  no_output-return s s' r h = ground arith

  passed-verdict :
      (v : Option V) → passes o ops v ≡ true → (w : V) × (v ≡ some w) × (ops.derive_pass w ≡ true)
  passed-verdict none e = absurd (true-ne-false (sym e))
  passed-verdict (some v) e = (v, refl, e)

  conclude-return :
      (r q : AttemptRecord F V R) (s s' : S)
      → conclude o ops r s ≡ return s' q
      → Gated r × (s' ≡ ops.publish_clean r s) × (r ≡ q)
  unfolding conclude
  conclude-return r q s s' h =
      elim (Bool-cases (r.what_ok && (r.structurally_valid && passes o ops r.verdict))) [
        | inl e ↦ (
          record {
            what_ok = ground arith;
            structurally_valid = ground arith;
            passed = passed-verdict r.verdict (ground arith);
          },
          ground arith,
          ground arith,
        )
        | inr e ↦ absurd (rework-return _ _ s s' q (rw (e) at h))
      ]

  scored-return :
      (extracted : Text) (s s' : S) (r : AttemptRecord F V R)
      → scored o ops extracted s ≡ return s' r
      → Judged extracted s s' r
  unfolding scored new_attempt
  scored-return extracted s s' r h =
      let (s1, verdict, unscored) = ops.run_checker extracted s in
      let q = new_attempt o ops extracted s1 verdict unscored in
      let (gated, published, same) = conclude-return q r (ops.append_attempt q s1) s' h in
      subst (Judged extracted s s') same (record {
        checked = s1;
        judged = refl;
        html = refl;
        what_gate = refl;
        structure_gate = refl;
        gated = gated;
        published = published;
      })

  after_how-return :
      (entry : S) (feedback : Option (List FeedbackItem)) (scores : Option Text)
      (p : S × Option Text) (s' : S) (r : AttemptRecord F V R)
      → ops.run_how feedback scores entry ≡ p
      → after_how o ops p ≡ return s' r
      → Published s' r
  unfolding after_how
  after_how-return entry feedback scores (s, none) s' r how h = absurd (no_output-return _ s' r h)
  after_how-return entry feedback scores (s, some text) s' r how h = record {
    entry = entry;
    feedback = feedback;
    scores = scores;
    made = s;
    text = text;
    how = how;
    judgement = scored-return text _ s' r h;
  }

  decide-not_clean :
      (stopped : Bool) (history : List (AttemptRecord F V R)) (r : AttemptRecord F V R)
      → decide o stopped history ≡ clean r
      → ⊥
  decide-not_clean stopped [] r h = unfold decide in cc
  decide-not_clean stopped (x ∷ xs) r h = let (b, s, t, e) = decide_serves o stopped x xs in cc

  decide_quality-not_clean :
      (s s' : S) (r : AttemptRecord F V R) → some (decide_quality o ops s) ≡ some (s', clean r) → ⊥
  unfolding decide_quality
  decide_quality-not_clean s s' r h = decide-not_clean _ _ r (ap (λ p. p.1) (some-inj h))

  iteration-return :
      (feedback : Option (List FeedbackItem)) (s s' : S) (r : AttemptRecord F V R)
      → iteration o ops feedback s ≡ return s' r
      → Published s' r
  unfolding iteration
  iteration-return feedback s s' r h = after_how-return s feedback _ _ s' r refl h

  settle-clean :
      (rest : List FeedbackItem → S → Option (S × Decision F V R)) (n : Next S F V R) (s' : S)
      (r : AttemptRecord F V R)
      → ((s1 : S) (q : AttemptRecord F V R) → n ≡ return s1 q → Published s1 q)
      → ((feedback : List FeedbackItem) (s1 : S)
          → rest feedback s1 ≡ some (s', clean r)
          → Published s' r)
      → settle o ops rest n ≡ some (s', clean r)
      → Published s' r
  unfolding settle
  settle-clean rest (return s1 q) s' r now later h =
      let same : q ≡ r = ground arith in
      let there : s1 ≡ s' = ground arith in
      subst (λ t. Published t r) there (subst (Published s1) same (now s1 q refl))
  settle-clean rest (break s1) s' r now later h = absurd (decide_quality-not_clean s1 s' r h)
  settle-clean rest (continue feedback s1) s' r now later h = later feedback s1 h

  loop-clean :
      (fuel : ℕ) (feedback : Option (List FeedbackItem)) (s s' : S) (r : AttemptRecord F V R)
      → loop o ops fuel feedback s ≡ some (s', clean r)
      → Published s' r
  unfolding loop
  loop-clean zero feedback s s' r h = absurd (none-ne-some h)
  loop-clean (suc fuel) feedback s s' r h =
      elim (Bool-cases (ltb (ops.how_attempts s) ops.max_attempts)) [
        | inl e ↦
            settle-clean _ (iteration o ops feedback s) s' r
              (λ s1 q. iteration-return feedback s s1 q)
              (λ feedback' s1. loop-clean fuel (some feedback') s1 s' r) (rw (e, loop) at h)
        | inr e ↦ absurd (decide_quality-not_clean s s' r (rw (e, loop) at h))
      ]

  -- A run that ends in a clean publish has, as its last steps, had the checker judge a text that the
  -- maker returned, appended its attempt to the history and published it; the attempt carries the
  -- checker's verdict, that verdict passes the checker's gate, and the WHAT gate and the structural
  -- gate pass in the state the checker left.
  pub run_quality_loop-clean :
      (fuel : ℕ) (s s' : S) (r : AttemptRecord F V R)
      → run_quality_loop o ops fuel s ≡ some (s', clean r)
      → Published s' r
  unfolding run_quality_loop
  run_quality_loop-clean fuel s s' r h = loop-clean fuel none s s' r h
