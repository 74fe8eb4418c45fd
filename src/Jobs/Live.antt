-- ===== src/Jobs/Live.antt =====
-- The states of the keys (render_common/job_runtime.py): which live, and what dropping one does.
use diecast.Prelude.{
  leb, ℕ, zero, suc, ◌≡◌, refl, sym, ◌∙◌, ap, Bool, true, false, not, Option, none, some, List, [],
  ◌∷◌, text_eq_iff, get_elem?, set, filter, if◌then◌else◌, arith, Bool-cases, inl, inr,
}
use mathlib.Core.Path.{subst}
use diecast.Jobs.{
  Key, same_key, JobSlot, JobRegistry, over_released, done, mark, release_held, release_state,
  release_slot, lookup, pop, Host, state_lives, state_of, is_live, then_pop, drop_state,
}
use diecast.Jobs.Slots.{IsBalanced, released, release_slot-IsBalanced}

pub same_key_eq : (a b : Key) → same_key a b ≡ true → a ≡ b
same_key_eq (s, h) (t, k) e =
    ap (λ x. (x, h)) ((text_eq_iff s t).0 (ground (arith, e)))
    ∙ ap (λ y. (t, y)) ((text_eq_iff h k).0 (ground (arith, e)))

pub lookup-pop_ne :
    (k j : Key) (rs : List (Key × ℕ))
    → same_key j k ≡ false
    → lookup j (filter (λ e. not (same_key e.0 k)) rs) ≡ lookup j rs
lookup-pop_ne k j [] h = refl
lookup-pop_ne k j ((i, ref) ∷ rs) h = ground (
  arith,
  lookup-pop_ne k j rs h,
  h,
  λ (e : same_key i j ≡ true). ap (λ x. same_key x k) (same_key_eq i j e),
)

pub lookup-pop :
    (k : Key) (rs : List (Key × ℕ)) → lookup k (filter (λ e. not (same_key e.0 k)) rs) ≡ none
lookup-pop k [] = refl
lookup-pop k ((i, ref) ∷ rs) = ground (arith, lookup-pop k rs)

state_of-pop : (o : Option ℕ) (k : Key) (r : JobRegistry) → state_of o (pop k r) ≡ state_of o r
state_of-pop none k r = refl
state_of-pop (some ref) k r = refl

module _ (host : Host) where
  state_lives-mark :
      (ss : List JobSlot) (ref j : ℕ) (s : JobSlot)
      → get_elem? ss ref ≡ some s
      → state_lives host (get_elem? (set ss ref (mark false s)) j)
        ≡ state_lives host (get_elem? ss j)
  state_lives-mark [] ref j s h = refl
  state_lives-mark (t ∷ ss) zero zero s h = ap (λ o. state_lives host o) (sym h)
  state_lives-mark (t ∷ ss) zero (suc j) s h = refl
  state_lives-mark (t ∷ ss) (suc ref) zero s h = refl
  state_lives-mark (t ∷ ss) (suc ref) (suc j) s h = state_lives-mark ss ref j s h

  unfoldable Alike : JobRegistry → JobRegistry → Type 0
  Alike r r' =
      (k : Key)
      → (lookup k r'.registry ≡ lookup k r.registry) × (is_live host k r' ≡ is_live host k r)

  state_of-released :
      (r : JobRegistry) (ref : ℕ) (s : JobSlot)
      → get_elem? r.states ref ≡ some s
      → (o : Option ℕ)
      → state_lives host (state_of o (released s ref r)) ≡ state_lives host (state_of o r)
  state_of-released r ref s e none = refl
  state_of-released r ref s e (some j) = state_lives-mark r.states ref j s e

  -- A release leaves the registry and every thread.
  release_slot-Alike : (ref : ℕ) (r r' : JobRegistry) → release_slot ref r ≡ done r' → Alike r r'
  unfolding release_slot Alike
  release_slot-Alike ref r r' h = go (get_elem? r.states ref) refl h
    where
      freed :
          (b : Bool) (s : JobSlot)
          → get_elem? r.states ref ≡ some s
          → (if b then over_released else done (released s ref r)) ≡ done r'
          → Alike r r'
      freed true s e h = cc
      freed false s e h =
          let one : released s ref r ≡ r' = cc in
          subst (Alike r) one λ k. (refl, state_of-released r ref s e (lookup k r.registry))

      held :
          (b : Bool) (s : JobSlot)
          → get_elem? r.states ref ≡ some s
          → release_held b s ref r ≡ done r'
          → Alike r r'
      held true s e h = freed (leb r.max_inflight r.free) s e h
      held false s e h = let one : r ≡ r' = cc in subst (Alike r) one λ k. (refl, refl)

      go :
          (o : Option JobSlot)
          → get_elem? r.states ref ≡ o
          → release_state o ref r ≡ done r'
          → Alike r r'
      go none e h = let one : r ≡ r' = cc in subst (Alike r) one λ k. (refl, refl)
      go (some s) e h = held s.slot_held s e h

  is_live-pop :
      (k : Key) (r r' : JobRegistry)
      → Alike r r'
      → is_live host k r ≡ false
      → (j : Key) → is_live host j (pop k r') ≡ is_live host j r
  unfolding Alike
  is_live-pop k r r' alike dead j = elim (Bool-cases (same_key j k)) [
    | inl e ↦
        let same : j ≡ k = same_key_eq j k e in
        ap (λ x. is_live host x (pop k r')) same
        ∙ ap (λ o. state_lives host (state_of o (pop k r'))) (lookup-pop k r'.registry)
        ∙ sym (ap (λ x. is_live host x r) same ∙ dead)
    | inr e ↦
        ap (λ o. state_lives host (state_of o (pop k r'))) (lookup-pop_ne k j r'.registry e)
        ∙ ap (state_lives host) (state_of-pop (lookup j r'.registry) k r')
        ∙ (alike j).1
  ]

  -- The state of a key that is not live is dropped without harm to the others.
  pub drop_state_lem :
      (k : Key) (r : JobRegistry)
      → IsBalanced r
      → is_live host k r ≡ false
      → (r' : JobRegistry) × (drop_state k (lookup k r.registry) r ≡ some r')
        × IsBalanced r'
        × ((j : Key) → is_live host j r' ≡ is_live host j r)
  unfolding drop_state
  drop_state_lem k r balanced dead = go (lookup k r.registry)
    where
      go :
          (o : Option ℕ)
          → (r' : JobRegistry) × (drop_state k o r ≡ some r')
            × IsBalanced r'
            × ((j : Key) → is_live host j r' ≡ is_live host j r)
      go none = (r, refl, balanced, λ j. refl)
      go (some ref) =
          let (r', released_to, balanced', again) = release_slot-IsBalanced r ref balanced in
          let alike = release_slot-Alike ref r r' released_to in
          (pop k r', ap (then_pop k) released_to, balanced', λ j. is_live-pop k r r' alike dead j)
