-- ===== src/Jobs/Single.antt =====
-- How the states of the jobs stand, and what the reaper does to them (services/render_job_service.py).
use diecast.Prelude.{
  ℕ, ◌≡◌, refl, sym, ◌∙◌, ap, text_eq_refl, Bool, true, false, Option, none, some, List, get_elem?,
  arith, some-inj, true-ne-false, Bool-cases, inl, inr,
}
use mathlib.Core.Path.{subst}
use diecast.Jobs.Rows.{JobRow}
use diecast.Jobs.{
  Key, same_key, JobSlot, JobRegistry, release_held, release_state, release_slot, lookup, pop, Host,
  state_lives, state_of, thread_lives, is_live, then_pop, drop_state, Reaping, key_of, reap_row,
}
use diecast.Jobs.Slots.{IsBalanced}
use diecast.Jobs.Live.{same_key_eq, lookup-pop_ne, drop_state_lem}
use diecast.Jobs.Reaper.{is_orphan, failed, reap_row-kept, reap_row-failed}
use diecast.Jobs.Flight.{
  Stage, waiting, running, releasing, leaving, ended, is_alive_stage, is_registered_stage,
  is_running_stage, with_threads,
}

-- A state has its own thread, holds a slot while that runs, and is the registry's until that has
-- taken it out.
abbrev pub Stands : JobSlot → ℕ → List (Key × ℕ) → Stage → Type 0
Stands a i registry stage =
    (a.thread ≡ some i)
    × (a.slot_held ≡ is_running_stage stage)
    × (is_registered_stage stage ≡ true → lookup a.key registry ≡ some i)

abbrev pub AllStand : List JobSlot → List (Key × ℕ) → (ℕ → Stage) → Type 0
AllStand states registry stages =
    (i : ℕ) (a : JobSlot) → get_elem? states i ≡ some a → Stands a i registry (stages i)

not_running : (s : Stage) → is_alive_stage s ≡ false → is_running_stage s ≡ false
not_running waiting h = refl
not_running running h = absurd (true-ne-false h)
not_running releasing h = refl
not_running leaving h = refl
not_running ended h = refl

registered_alive : (s : Stage) → is_registered_stage s ≡ true → is_alive_stage s ≡ true
registered_alive waiting h = refl
registered_alive running h = refl
registered_alive releasing h = refl
registered_alive leaving h = refl
registered_alive ended h = absurd (true-ne-false (sym h))

pub same_key_refl : (a : Key) → same_key a a ≡ true
same_key_refl a = grind (arith, text_eq_refl)

module _ (host : Host) (stages : ℕ → Stage) where
  live_key :
      (r : JobRegistry) (i : ℕ) (a : JobSlot)
      → AllStand r.states r.registry stages
      → get_elem? r.states i ≡ some a
      → is_registered_stage (stages i) ≡ true
      → is_live (with_threads host stages) a.key r ≡ true
  live_key r i a all found alive =
      let (thread, held, own) = all i a found in
      ap (λ o. state_lives (with_threads host stages) (state_of o r)) (own alive)
      ∙ ap (state_lives (with_threads host stages)) found
      ∙ ap (thread_lives (with_threads host stages)) thread
      ∙ registered_alive (stages i) alive

  -- A registered state has not the key of a job that is not live.
  pub live_ne :
      (r : JobRegistry) (k : Key) (i : ℕ) (a : JobSlot)
      → AllStand r.states r.registry stages
      → is_live (with_threads host stages) k r ≡ false
      → get_elem? r.states i ≡ some a
      → is_registered_stage (stages i) ≡ true
      → same_key a.key k ≡ false
  live_ne r k i a all dead found alive = elim (Bool-cases (same_key a.key k)) [
    | inl e ↦ absurd (
        true-ne-false (
          sym (live_key r i a all found alive)
          ∙ ap (λ x. is_live (with_threads host stages) x r) (same_key_eq a.key k e)
          ∙ dead))
    | inr e ↦ e
  ]

  pop-AllStand :
      (r : JobRegistry) (k : Key)
      → AllStand r.states r.registry stages
      → is_live (with_threads host stages) k r ≡ false
      → AllStand r.states (pop k r).registry stages
  pop-AllStand r k all dead i a found =
      let (thread, held, own) = all i a found in
      (
        thread,
        held,
        λ alive.
            lookup-pop_ne k a.key r.registry (live_ne r k i a all dead found alive) ∙ own alive,
      )

  -- The reaper finds no slot to release: it only takes out the entry.
  drop_state-AllStand :
      (r r' : JobRegistry) (k : Key)
      → AllStand r.states r.registry stages
      → is_live (with_threads host stages) k r ≡ false
      → drop_state k (lookup k r.registry) r ≡ some r'
      → AllStand r'.states r'.registry stages × (r'.max_inflight ≡ r.max_inflight)
  unfolding drop_state release_slot
  drop_state-AllStand r r' k all dead h = go (lookup k r.registry) refl h
    where
      Kept : JobRegistry → Type 0
      Kept x = AllStand x.states x.registry stages × (x.max_inflight ≡ r.max_inflight)

      popped : Kept (pop k r)
      popped = (pop-AllStand r k all dead, refl)

      alive :
          (ref : ℕ) (a : JobSlot)
          → lookup k r.registry ≡ some ref
          → get_elem? r.states ref ≡ some a
          → a.thread ≡ some ref
          → is_live (with_threads host stages) k r ≡ is_alive_stage (stages ref)
      alive ref a e f thread =
          ap (λ o. state_lives (with_threads host stages) (state_of o r)) e
          ∙ ap (state_lives (with_threads host stages)) f
          ∙ ap (thread_lives (with_threads host stages)) thread

      held :
          (b : Bool) (ref : ℕ) (a : JobSlot)
          → b ≡ false
          → then_pop k (release_held b a ref r) ≡ some r'
          → Kept r'
      held false ref a e h = subst Kept (some-inj h) popped
      held true ref a e h = absurd (true-ne-false e)

      at :
          (ref : ℕ) (o : Option JobSlot)
          → lookup k r.registry ≡ some ref
          → get_elem? r.states ref ≡ o
          → then_pop k (release_state o ref r) ≡ some r'
          → Kept r'
      at ref none e f h = subst Kept (some-inj h) popped
      at ref (some a) e f h =
          let (thread, slot, own) = all ref a f in
          held a.slot_held ref a
            (slot ∙ not_running (stages ref) (sym (alive ref a e f thread) ∙ dead)) h

      go : (o : Option ℕ) → lookup k r.registry ≡ o → drop_state k o r ≡ some r' → Kept r'
      go none e h = subst Kept (some-inj h) (all, refl)
      go (some ref) e h = at ref (get_elem? r.states ref) e refl h

module _ {Score : Type 0} (host : Host) (ceiling now : ℕ) (stages : ℕ → Stage) where
  pub reap_row-AllStand :
      (row : JobRow Score) (w : Reaping Score)
      → IsBalanced w.jobs
      → AllStand w.jobs.states w.jobs.registry stages
      → (w' : Reaping Score) × (reap_row (with_threads host stages) ceiling now row w ≡ some w')
        × IsBalanced w'.jobs
        × AllStand w'.jobs.states w'.jobs.registry stages
        × (w'.jobs.max_inflight ≡ w.jobs.max_inflight)
  reap_row-AllStand row w b all =
      let threads = with_threads host stages in
      elim (Bool-cases (is_orphan threads ceiling now w.jobs row)) [
        | inl e ↦
            let dead : is_live threads (key_of row) w.jobs ≡ false = ground (arith, e) in
            let (r', dropped, b', lives) = drop_state_lem threads (key_of row) w.jobs b dead in
            let (all', bound) =
              drop_state-AllStand host stages w.jobs r' (key_of row) all dead dropped in
            (
              failed threads ceiling now row w r',
              reap_row-failed threads ceiling now row w r' e dropped,
              b',
              all',
              bound,
            )
        | inr e ↦ (w, reap_row-kept threads ceiling now row w e, b, all, refl)
      ]
