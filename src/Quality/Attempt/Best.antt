-- ===== src/Quality/Attempt/Best.antt =====
-- `best_attempt` of render_common/quality_loop.py against the order of the attempts' keys.
use diecast.Prelude.{
  some-inj, ◌≡◌, refl, sym, ◌∙◌, ◌⊎◌, inl, inr, true, false, some, List, [], ◌∷◌, All, OneOf, arith,
  Bool-cases, true-ne-false,
}
use mathlib.Core.Path.{subst}
use mathlib.Core.Logic.{◌≢◌}
use diecast.Quality.Float.{Floats, le_of_not_le}
use diecast.Quality.Attempt.{AttemptRecord, Key, key_lt, key, max_from, better, best_attempt}

module _ {F : Type 0} (o : Floats F) where
  key_lt_irrefl : (k : Key F) → key_lt o k k ≡ false
  unfolding key_lt
  key_lt_irrefl k = ground (arith, o.le_refl k.score)

  key_lt_trans : (k l m : Key F) → key_lt o k l ≡ true → key_lt o l m ≡ true → key_lt o k m ≡ true
  unfolding key_lt
  key_lt_trans k l m h g = ground (
    arith,
    le_of_not_le o k.score l.score,
    le_of_not_le o l.score k.score,
    le_of_not_le o m.score l.score,
    le_of_not_le o l.score m.score,
    le_of_not_le o k.score m.score,
    le_of_not_le o m.score k.score,
    o.le_trans k.score l.score m.score,
    o.le_trans m.score l.score k.score,
    o.le_trans k.score m.score l.score,
    o.le_trans l.score m.score k.score,
    o.le_trans l.score k.score m.score,
    o.le_trans m.score k.score l.score,
  )

  not_key_lt_mono :
      (k l m : Key F) → key_lt o m k ≡ false → key_lt o k l ≡ false → key_lt o m l ≡ false
  unfolding key_lt
  not_key_lt_mono k l m h g = ground (
    arith,
    le_of_not_le o k.score l.score,
    le_of_not_le o l.score k.score,
    le_of_not_le o m.score l.score,
    le_of_not_le o l.score m.score,
    le_of_not_le o k.score m.score,
    le_of_not_le o m.score k.score,
    o.le_trans k.score l.score m.score,
    o.le_trans m.score l.score k.score,
    o.le_trans k.score m.score l.score,
    o.le_trans l.score m.score k.score,
    o.le_trans l.score k.score m.score,
    o.le_trans m.score k.score l.score,
  )

  -- What lies below a rank lies below every rank that is not below that.
  not_key_lt_trans :
      (k l m : Key F) → key_lt o k l ≡ true → key_lt o m l ≡ false → key_lt o m k ≡ false
  not_key_lt_trans k l m h g = elim (Bool-cases (key_lt o m k)) [
    | inl e ↦ absurd (true-ne-false (sym (key_lt_trans m k l e h) ∙ g))
    | inr e ↦ e
  ]

module _ {F V R : Type 0} (o : Floats F) where
  abbrev pub Ranks : AttemptRecord F V R → AttemptRecord F V R → Type 0
  Ranks b r = key_lt o (key o b) (key o r) ≡ false

  Ranks-better :
      (b best r : AttemptRecord F V R) → Ranks b (better o best r) → Ranks b best × Ranks b r
  unfolding better
  Ranks-better b best r h = elim (Bool-cases (key_lt o (key o best) (key o r))) [
    | inl e ↦
        let g : Ranks b r = rw e at h in
        (not_key_lt_trans o (key o best) (key o r) (key o b) e g, g)
    | inr e ↦ let g : Ranks b best = rw e at h in (g, not_key_lt_mono o _ _ _ g e)
  ]

  better_cases : (best r : AttemptRecord F V R) → (better o best r ≡ best) ⊎ (better o best r ≡ r)
  unfolding better
  better_cases best r = ground arith

  -- The scan of `max`: the result is the start or a record, and neither ranks above it.
  max_from-Ranks :
      (best : AttemptRecord F V R) (rs : List (AttemptRecord F V R))
      → All (Ranks (max_from o best rs)) (best ∷ rs) × OneOf (max_from o best rs) (best ∷ rs)
  unfolding max_from
  max_from-Ranks best [] = ((key_lt_irrefl o (key o best), tt), inl refl)
  max_from-Ranks best (r ∷ rs) =
      let (h, m) = max_from-Ranks (better o best r) rs in
      let (hb, hr) = Ranks-better _ best r h.0 in
      (
        (hb, (hr, h.1)),
        elim m [
          | inl e ↦ elim (better_cases best r) [ inl q ↦ inl (e ∙ q) | inr q ↦ inr (inl (e ∙ q)) ]
          | inr rest ↦ inr (inr rest)
        ],
      )

  -- Of any records but none, `best_attempt` returns one of them, and no record has a greater key:
  -- scored before unscored, then the higher score, then the later attempt.
  pub best_attempt-max :
      (rs : List (AttemptRecord F V R)) (b : AttemptRecord F V R)
      → best_attempt o rs ≡ some b
      → OneOf b rs × All (Ranks b) rs
  unfolding best_attempt
  best_attempt-max [] b h = cc
  best_attempt-max (r ∷ rs) b h =
      let (a, m) = max_from-Ranks r rs in
      subst (λ c. OneOf c (r ∷ rs) × All (Ranks c) (r ∷ rs)) (some-inj h) (m, a)

  pub best_attempt_total :
      (rs : List (AttemptRecord F V R))
      → rs ≢ []
      → (b : AttemptRecord F V R) × (best_attempt o rs ≡ some b)
  unfolding best_attempt
  best_attempt_total [] h = absurd (h refl)
  best_attempt_total (r ∷ rs) h = (max_from o r rs, refl)
