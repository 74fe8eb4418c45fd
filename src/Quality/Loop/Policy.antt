-- ===== src/Quality/Loop/Policy.antt =====
-- The terminal policy of `decide_quality` (render_common/quality_loop.py).
use diecast.Prelude.{
  ◌≡◌, refl, sym, inl, inr, ◌↔◌, Bool, true, false, Option, none, some, List, [], ◌∷◌, OneOf,
  OneOf-filter, filter-OneOf, All-OneOf, filter, Text, Bool-cases, none-ne-some,
}
use diecast.Quality.Float.{Floats}
use diecast.Quality.Attempt.{AttemptRecord, best_attempt}
use diecast.Quality.Attempt.Best.{Ranks, best_attempt-max, best_attempt_total}
use diecast.Quality.Loop.{
  flagged, fallback, no_render, maker, structural_violation, flag, reason_for, decide,
}

module _ {F V R : Type 0} (o : Floats F) where
  -- The choice between structurally valid and broken records.
  pub data Chosen (history : List (AttemptRecord F V R)) (b : AttemptRecord F V R)
      : Text → Text → Type 0 where
    valid_best :
        {served_by reason : Text}
        → b.structurally_valid ≡ true
        → ((r : AttemptRecord F V R) → OneOf r history → r.structurally_valid ≡ true → Ranks o b r)
        → served_by ≡ maker
        → Chosen history b served_by reason
    broken_best :
        {served_by reason : Text}
        → ((r : AttemptRecord F V R) → OneOf r history → r.structurally_valid ≡ false)
        → ((r : AttemptRecord F V R) → OneOf r history → Ranks o b r)
        → served_by ≡ structural_violation
        → reason ≡ structural_violation
        → Chosen history b served_by reason

  flag-flagged :
      (c : Option (AttemptRecord F V R)) (s t : Text) (b : AttemptRecord F V R)
      (served_by reason : Text)
      → flag o c s t ≡ flagged b served_by reason
      → (c ≡ some b) × (s ≡ served_by) × (t ≡ reason)
  flag-flagged none s t b served_by reason h = cc
  flag-flagged (some c) s t b served_by reason h = (cc, cc, cc)

  valid_of : List (AttemptRecord F V R) → List (AttemptRecord F V R)
  valid_of = filter (λ a. a.structurally_valid)

  none_valid :
      (history : List (AttemptRecord F V R)) (r : AttemptRecord F V R)
      → filter (λ a. a.structurally_valid) history ≡ []
      → OneOf r history
      → r.structurally_valid ≡ false
  none_valid history r e m = elim (Bool-cases r.structurally_valid) [
    | inl v ↦ elim (rw e at (filter-OneOf (λ a. a.structurally_valid) r history m v)) [ ]
    | inr v ↦ v
  ]

  -- A flagged publish: with any structurally valid attempt the served one is valid and no valid
  -- attempt ranks above it; with none, it is a broken attempt above which no attempt ranks, under
  -- the served-by mark and the reason `structural_violation`. The served one is always an attempt
  -- of the history.
  pub decide-flagged :
      (stopped : Bool) (history : List (AttemptRecord F V R)) (b : AttemptRecord F V R)
      (served_by reason : Text)
      → decide o stopped history ≡ flagged b served_by reason
      → OneOf b history × Chosen history b served_by reason
  unfolding decide
  decide-flagged stopped [] b served_by reason h = cc
  decide-flagged stopped (r ∷ rs) b served_by reason h =
      go (filter (λ a. a.structurally_valid) (r ∷ rs)) refl h
    where
      go :
          (valid : List (AttemptRecord F V R))
          → filter (λ a. a.structurally_valid) (r ∷ rs) ≡ valid
          → elim valid [
            | [] ↦ flag o (best_attempt o (r ∷ rs)) structural_violation structural_violation
            | v ∷ vs ↦ flag o (best_attempt o (v ∷ vs)) maker (reason_for o stopped (v ∷ vs))
          ]
            ≡ flagged b served_by reason
          → OneOf b (r ∷ rs) × Chosen (r ∷ rs) b served_by reason
      go [] e k =
          let (eb, es, et) = flag-flagged _ _ _ b served_by reason k in
          let (m, a) = best_attempt-max o (r ∷ rs) b eb in
          (
            m,
            broken_best (λ x. none_valid (r ∷ rs) x e) (λ x. All-OneOf (Ranks o b) x (r ∷ rs) a)
                (sym es) (sym et),
          )
      go (v ∷ vs) e k =
          let (eb, es, et) = flag-flagged _ _ _ b served_by reason k in
          let (m, a) = best_attempt-max o (v ∷ vs) b eb in
          let (inside, ok) = OneOf-filter (λ c. c.structurally_valid) b (r ∷ rs) (rw e m) in
          (
            inside,
            valid_best ok
                (λ x mx vx.
                  All-OneOf (Ranks o b) x (v ∷ vs) a
                    (rw e at (filter-OneOf (λ c. c.structurally_valid) x (r ∷ rs) mx vx)))
                (sym es),
          )

  flag-some :
      (c : Option (AttemptRecord F V R)) (s t : Text)
      → (b : AttemptRecord F V R) × (c ≡ some b)
      → (b : AttemptRecord F V R) × (flag o c s t ≡ flagged b s t)
  flag-some none s t (b, e) = absurd (none-ne-some e)
  flag-some (some c) s t h = (c, refl)

  -- With at least one attempt in the history the decision is a flagged publish: never the fallback,
  -- never the error of `max` on no records.
  pub decide_serves :
      (stopped : Bool) (r : AttemptRecord F V R) (rs : List (AttemptRecord F V R))
      → (b : AttemptRecord F V R) × (served_by : Text) × (reason : Text) × (decide o stopped
            (r ∷ rs)
          ≡ flagged b served_by reason)
  unfolding decide
  decide_serves stopped r rs = go (filter (λ a. a.structurally_valid) (r ∷ rs))
    where
      go :
          (valid : List (AttemptRecord F V R))
          → (b : AttemptRecord F V R) × (served_by : Text) × (reason : Text) × (elim valid [
            | [] ↦ flag o (best_attempt o (r ∷ rs)) structural_violation structural_violation
            | v ∷ vs ↦ flag o (best_attempt o (v ∷ vs)) maker (reason_for o stopped (v ∷ vs))
          ]
              ≡ flagged b served_by reason)
      go [] =
          let (b, e) =
            flag-some (best_attempt o (r ∷ rs)) structural_violation structural_violation
              (best_attempt_total o (r ∷ rs) (λ q. cc)) in
          (b, structural_violation, structural_violation, e)
      go (v ∷ vs) =
          let (b, e) =
            flag-some (best_attempt o (v ∷ vs)) maker (reason_for o stopped (v ∷ vs))
              (best_attempt_total o (v ∷ vs) (λ q. cc)) in
          (b, maker, reason_for o stopped (v ∷ vs), e)

  -- The deterministic page is served exactly when no attempt was ever extracted.
  decide-fallback_iff :
      (stopped : Bool) (history : List (AttemptRecord F V R))
      → (decide o stopped history ≡ fallback no_render) ↔ (history ≡ [])
  unfolding decide
  decide-fallback_iff stopped [] = ((λ h. refl), (λ h. refl))
  decide-fallback_iff stopped (r ∷ rs) =
      let (b, s, t, e) = decide_serves stopped r rs in ((λ h. cc), (λ h. cc))
