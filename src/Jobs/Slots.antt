-- ===== src/Jobs/Slots.antt =====
-- The slots in flight (render_common/job_runtime.py): each is either free or held by one state.
use diecast.Prelude.{
  leb, ℕ, zero, suc, ◌+◌, ◌≡◌, refl, ◌∙◌, ap, Bool, true, false, Option, none, some, List, [], ◌∷◌,
  get_elem?, set, if◌then◌else◌, arith, some-inj, none-ne-some,
}
use diecast.Jobs.{
  JobSlot, JobRegistry, over_released, done, mark, discard, release_held, release_state,
  release_slot,
}

abbrev pub held_count : List JobSlot → ℕ
held_count [] = 0
held_count (s ∷ ss) = (if s.slot_held then 1 else 0) + held_count ss

-- The free slots and the held ones make up the bound.
abbrev pub IsBalanced : JobRegistry → Type 0
IsBalanced r = r.free + held_count r.states ≡ r.max_inflight

pub held_count-set :
    (ss : List JobSlot) (ref : ℕ) (s : JobSlot) (b : Bool)
    → get_elem? ss ref ≡ some s
    → held_count (set ss ref (mark b s)) + (if s.slot_held then 1 else 0)
      ≡ held_count ss + (if b then 1 else 0)
held_count-set [] ref s b h = absurd (none-ne-some h)
held_count-set (t ∷ ss) zero s b h = ground (arith, ap (λ (u : JobSlot). u.slot_held) (some-inj h))
held_count-set (t ∷ ss) (suc ref) s b h = ground (arith, held_count-set ss ref s b h)

pub get_elem?-mark :
    (ss : List JobSlot) (ref : ℕ) (s : JobSlot) (b : Bool)
    → get_elem? ss ref ≡ some s
    → get_elem? (set ss ref (mark b s)) ref ≡ some (mark b s)
get_elem?-mark [] ref s b h = absurd (none-ne-some h)
get_elem?-mark (t ∷ ss) zero s b h = refl
get_elem?-mark (t ∷ ss) (suc ref) s b h = get_elem?-mark ss ref s b h

-- What a release of a held slot leaves, and what an acquisition does.
abbrev pub released : JobSlot → ℕ → JobRegistry → JobRegistry
released s ref r = record {
  states = set r.states ref (mark false s);
  registry = r.registry;
  max_inflight = r.max_inflight;
  free = suc r.free;
  held = discard s.key r.held;
}

abbrev pub acquired : JobSlot → ℕ → ℕ → JobRegistry → JobRegistry
acquired s ref free r = record {
  states = set r.states ref (mark true s);
  registry = r.registry;
  max_inflight = r.max_inflight;
  free = free;
  held = s.key ∷ discard s.key r.held;
}

-- In a balanced registry a release never goes above the bound; it keeps the balance, and a second
-- one changes nothing.
pub release_slot-IsBalanced :
    (r : JobRegistry) (ref : ℕ)
    → IsBalanced r
    → (r' : JobRegistry) × (release_slot ref r ≡ done r')
      × IsBalanced r'
      × (release_slot ref r' ≡ done r')
unfolding release_slot
release_slot-IsBalanced r ref h = go (get_elem? r.states ref) refl
  where
    held :
        (b : Bool) (s : JobSlot)
        → s.slot_held ≡ b
        → get_elem? r.states ref ≡ some s
        → (r' : JobRegistry) × (release_held b s ref r ≡ done r')
          × IsBalanced r'
          × (release_slot ref r' ≡ done r')
    held false s e found =
        (r, refl, h, ap (λ o. release_state o ref r) found ∙ ap (λ b. release_held b s ref r) e)
    held true s e found =
        let fewer = held_count-set r.states ref s false found in
        let below : leb r.max_inflight r.free ≡ false = ground (arith, e, h, fewer) in
        let r' = released s ref r in
        (
          r',
          ap (λ b. if b then over_released else done r') below,
          ground (arith, e, h, fewer),
          ap (λ o. release_state o ref r') (get_elem?-mark r.states ref s false found),
        )

    go :
        (o : Option JobSlot)
        → get_elem? r.states ref ≡ o
        → (r' : JobRegistry) × (release_state o ref r ≡ done r')
          × IsBalanced r'
          × (release_slot ref r' ≡ done r')
    go none e = (r, refl, h, ap (λ o. release_state o ref r) e)
    go (some s) e = held s.slot_held s refl e
