-- ===== src/Jobs/Threads.antt =====
-- What the steps of a job's thread keep (services/render_job_service.py).
use diecast.Prelude.{
  leb, ℕ, zero, suc, ◌≡◌, refl, sym, ◌∙◌, ap, Bool, true, false, Option, none, some, get_elem?,
  if◌then◌else◌, arith, true-ne-false,
}
use mathlib.Core.Path.{subst}
use diecast.Jobs.{
  JobSlot, JobRegistry, over_released, done, acquire_state, acquire_slot, release_held,
  release_state, release_slot, lookup,
}
use diecast.Jobs.Slots.{held_count-set, IsBalanced, acquired, released, release_slot-IsBalanced}
use diecast.Jobs.Flight.{
  waiting, running, releasing, leaving, ended, is_registered_stage, is_running_stage, System,
  put_stage, pop_if, is_ref, pop_own,
}
use diecast.Jobs.Single.{AllStand}
use diecast.Jobs.Steps.{mark-AllStand, none-AllStand, leave-AllStand, pop_if-AllStand}

done-inj : {a b : JobRegistry} → done a ≡ done b → a ≡ b
done-inj h = cc

-- What every step keeps
abbrev pub IsSafe : {Score : Type 0} → ℕ → System Score → Type 0
IsSafe max_inflight s =
    IsBalanced s.jobs
    × AllStand s.jobs.states s.jobs.registry s.stages
    × (s.jobs.max_inflight ≡ max_inflight)

module _ {Score : Type 0} (max_inflight : ℕ) where
  pub pop_own-IsSafe :
      (s : System Score) (ref : ℕ)
      → IsSafe max_inflight s
      → s.stages ref ≡ releasing
      → IsSafe {Score = Score} max_inflight (record {
        jobs = pop_own ref (get_elem? s.jobs.states ref) s.jobs;
        table = s.table;
        stages = put_stage ref leaving s.stages;
      })
  pop_own-IsSafe s ref (b, all, bound) idle = go (get_elem? s.jobs.states ref) refl
    where
      Goal : JobRegistry → Type 0
      Goal r =
          IsBalanced r
          × AllStand r.states r.registry (put_stage ref leaving s.stages)
          × (r.max_inflight ≡ max_inflight)

      stopped : is_running_stage (s.stages ref) ≡ false
      stopped = ap is_running_stage idle

      if_own :
          (slot : JobSlot) (v : Bool)
          → is_ref (lookup slot.key s.jobs.registry) ref ≡ v
          → Goal (pop_if v slot.key s.jobs)
      if_own slot true e = (b, pop_if-AllStand s.jobs ref slot s.stages true e all stopped, bound)
      if_own slot false e = (b, pop_if-AllStand s.jobs ref slot s.stages false e all stopped, bound)

      go : (o : Option JobSlot) → get_elem? s.jobs.states ref ≡ o → Goal (pop_own ref o s.jobs)
      go none e = (b, none-AllStand s.jobs.states s.jobs.registry s.stages ref leaving all e, bound)
      go (some slot) e = if_own slot (is_ref (lookup slot.key s.jobs.registry) ref) refl

  pub end_thread-IsSafe :
      (s : System Score) (ref : ℕ)
      → IsSafe max_inflight s
      → s.stages ref ≡ leaving
      → IsSafe {Score = Score} max_inflight
          (record { jobs = s.jobs; table = s.table; stages = put_stage ref ended s.stages })
  end_thread-IsSafe s ref (b, all, bound) at = (
    b,
    leave-AllStand s.jobs.states s.jobs.registry s.jobs.registry ref s.stages ended refl refl all
        (ap is_running_stage at) (λ i a ne own. own),
    bound,
  )

  pub acquire_slot-IsSafe :
      (s : System Score) (ref : ℕ) (r : JobRegistry)
      → IsSafe max_inflight s
      → s.stages ref ≡ waiting
      → acquire_slot ref s.jobs ≡ done r
      → IsSafe {Score = Score} max_inflight
          (record { jobs = r; table = s.table; stages = put_stage ref running s.stages })
  unfolding acquire_slot
  acquire_slot-IsSafe s ref r (b, all, bound) at h = go (get_elem? s.jobs.states ref) refl h
    where
      Goal : JobRegistry → Type 0
      Goal r =
          IsBalanced r
          × AllStand r.states r.registry (put_stage ref running s.stages)
          × (r.max_inflight ≡ max_inflight)

      taken :
          (slot : JobSlot) (n : ℕ)
          → get_elem? s.jobs.states ref ≡ some slot
          → s.jobs.free ≡ n
          → acquire_state (some slot) ref n s.jobs ≡ done r
          → Goal r
      taken slot zero e f h = cc
      taken slot (suc n) e f h =
          let one : acquired slot ref n s.jobs ≡ r = cc in
          let (thread, held, own) = all ref slot e in
          subst Goal one (
            ground (
              arith,
              held_count-set s.jobs.states ref slot true e,
              held ∙ ap is_running_stage at,
              b,
              f,
            ),
            mark-AllStand s.jobs.states s.jobs.registry s.stages ref slot running all e
                (ap is_registered_stage at),
            bound,
          )

      go :
          (o : Option JobSlot)
          → get_elem? s.jobs.states ref ≡ o
          → acquire_state o ref s.jobs.free s.jobs ≡ done r
          → Goal r
      go none e h =
          let one : s.jobs ≡ r = cc in
          subst Goal one
            (b, none-AllStand s.jobs.states s.jobs.registry s.stages ref running all e, bound)
      go (some slot) e h = taken slot s.jobs.free e refl h

  pub release_slot-IsSafe :
      (s : System Score) (ref : ℕ) (r : JobRegistry)
      → IsSafe max_inflight s
      → s.stages ref ≡ running
      → release_slot ref s.jobs ≡ done r
      → IsSafe {Score = Score} max_inflight
          (record { jobs = r; table = s.table; stages = put_stage ref releasing s.stages })
  unfolding release_slot
  release_slot-IsSafe s ref r (b, all, bound) at h =
      let (r', ends, b', again) = release_slot-IsBalanced s.jobs ref b in
      let one : r' ≡ r = done-inj (sym ends ∙ h) in
      let (all', bound') = go (get_elem? s.jobs.states ref) refl h in
      (subst IsBalanced one b', all', bound')
    where
      Goal : JobRegistry → Type 0
      Goal x =
          AllStand x.states x.registry (put_stage ref releasing s.stages)
          × (x.max_inflight ≡ max_inflight)

      freed :
          (v : Bool) (slot : JobSlot)
          → get_elem? s.jobs.states ref ≡ some slot
          → (if v then over_released else done (released slot ref s.jobs)) ≡ done r
          → Goal r
      freed true slot e h = cc
      freed false slot e h =
          let one : released slot ref s.jobs ≡ r = cc in
          subst Goal one (
            mark-AllStand s.jobs.states s.jobs.registry s.stages ref slot releasing all e
                (ap is_registered_stage at),
            bound,
          )

      held :
          (v : Bool) (slot : JobSlot)
          → get_elem? s.jobs.states ref ≡ some slot
          → slot.slot_held ≡ v
          → release_held v slot ref s.jobs ≡ done r
          → Goal r
      held true slot e v h = freed (leb s.jobs.max_inflight s.jobs.free) slot e h
      held false slot e v h =
          let (thread, slot_held, own) = all ref slot e in
          absurd (true-ne-false (sym (slot_held ∙ ap is_running_stage at) ∙ v))

      go :
          (o : Option JobSlot)
          → get_elem? s.jobs.states ref ≡ o
          → release_state o ref s.jobs ≡ done r
          → Goal r
      go none e h =
          let one : s.jobs ≡ r = cc in
          subst Goal one
            (none-AllStand s.jobs.states s.jobs.registry s.stages ref releasing all e, bound)
      go (some slot) e h = held slot.slot_held slot e refl h
