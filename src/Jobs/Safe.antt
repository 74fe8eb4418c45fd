-- ===== src/Jobs/Safe.antt =====
-- What every order of the jobs' steps keeps (services/render_job_service.py).
use diecast.Prelude.{
  ℕ, suc, ◌+◌, ◌≤◌, ◌≡◌, refl, sym, ◌∙◌, ap, Bool, true, false, some, List, [], ◌∷◌, ◌++◌, Text,
  get_elem?, length, if◌then◌else◌, arith, some-inj, none-ne-some,
}
use mathlib.Core.Path.{subst}
use diecast.Jobs.{Key, JobSlot, lookup, Host, is_live, Reaping}
use diecast.Jobs.Slots.{held_count, IsBalanced}
use diecast.Jobs.Flight.{
  Stage, is_registered_stage, is_running_stage, System, with_threads, start_job, request_job, Step,
  reap, request, acquire, write, release, leave, end_thread, Reachable, initial, next,
}
use diecast.Jobs.Single.{AllStand, reap_row-AllStand}
use diecast.Jobs.Steps.{add_state-AllStand}
use diecast.Jobs.Threads.{
  IsSafe, pop_own-IsSafe, acquire_slot-IsSafe, end_thread-IsSafe, release_slot-IsSafe,
}

held_count-snoc :
    (ss : List JobSlot) (x : JobSlot)
    → x.slot_held ≡ false
    → held_count (ss ++ x ∷ []) ≡ held_count ss
held_count-snoc [] x h = ground (arith, h)
held_count-snoc (s ∷ ss) x h = ground (arith, held_count-snoc ss x h)

-- The states whose pipeline runs, from a reference on
abbrev pub running_from : ℕ → List JobSlot → (ℕ → Stage) → ℕ
running_from ref [] stages = 0
running_from ref (a ∷ ss) stages =
    (if is_running_stage (stages ref) then 1 else 0) + running_from (suc ref) ss stages

held_count-running :
    (ref : ℕ) (ss : List JobSlot) (stages : ℕ → Stage)
    → ((i : ℕ) (a : JobSlot)
        → get_elem? ss i ≡ some a
        → a.slot_held ≡ is_running_stage (stages (ref + i)))
    → held_count ss ≡ running_from ref ss stages
held_count-running ref [] stages h = refl
held_count-running ref (a ∷ ss) stages h =
    let here : a.slot_held ≡ is_running_stage (stages ref) =
      h 0 a refl ∙ ap (λ n. is_running_stage (stages n)) (ground arith) in
    ground (
      arith,
      here,
      held_count-running (suc ref) ss stages
          (λ i b found. h (suc i) b found ∙ ap (λ n. is_running_stage (stages n)) (ground arith)),
    )

module _ {Score : Type 0} (max_inflight : ℕ) (host : Host) where
  request_job-IsSafe :
      (s : System Score) (k : Key) (stamp : Text)
      → IsSafe max_inflight s
      → IsSafe max_inflight (request_job host k stamp s)
  unfolding request_job start_job
  request_job-IsSafe s k stamp (b, all, bound) =
      go (is_live (with_threads host s.stages) k s.jobs) refl
    where
      go :
          (v : Bool)
          → is_live (with_threads host s.stages) k s.jobs ≡ v
          → IsSafe max_inflight (if v then s else start_job k stamp s)
      go true e = (b, all, bound)
      go false e = (
        ground (
          arith,
          b,
          held_count-snoc s.jobs.states
              (record { key = k; slot_held = false; thread = some (length s.jobs.states) }) refl,
        ),
        add_state-AllStand host s.jobs k s.stages all e,
        bound,
      )

  Step-IsSafe :
      (s s' : System Score) → Step host s s' → IsSafe max_inflight s → IsSafe max_inflight s'
  Step-IsSafe _ _ (reap s row ceiling now w ends) (b, all, bound) =
      let (w', ends', b', all', bound') =
        reap_row-AllStand host ceiling now s.stages row
          (record { jobs = s.jobs; rows = s.table.rows; reaped = [] }) b all in
      subst
        (λ (x : Reaping Score).
          IsBalanced x.jobs
          × AllStand x.jobs.states x.jobs.registry s.stages
          × (x.jobs.max_inflight ≡ max_inflight))
        (some-inj (sym ends' ∙ ends)) (b', all', bound' ∙ bound)
  Step-IsSafe _ _ (request s k stamp) safe = request_job-IsSafe s k stamp safe
  Step-IsSafe _ _ (acquire s ref r at h) safe = acquire_slot-IsSafe max_inflight s ref r safe at h
  Step-IsSafe _ _ (write s t) safe = safe
  Step-IsSafe _ _ (release s ref r at h) safe = release_slot-IsSafe max_inflight s ref r safe at h
  Step-IsSafe _ _ (leave s ref at) safe = pop_own-IsSafe max_inflight s ref safe at
  Step-IsSafe _ _ (end_thread s ref at) safe = end_thread-IsSafe max_inflight s ref safe at

  Reachable-IsSafe : (s : System Score) → Reachable host max_inflight s → IsSafe max_inflight s
  Reachable-IsSafe _ (initial t) = (ground arith, λ i a found. absurd (none-ne-some found), refl)
  Reachable-IsSafe _ (next s s' r step) = Step-IsSafe s s' step (Reachable-IsSafe s r)

  -- In whatever order requests, threads and the reaper take their steps, no more than
  -- `max_inflight` pipelines run at a time.
  pub Reachable-bound :
      (s : System Score)
      → Reachable host max_inflight s
      → running_from 0 s.jobs.states s.stages ≤ max_inflight
  Reachable-bound s r =
      let (b, all, bound) = Reachable-IsSafe s r in
      ground (
        arith,
        b,
        bound,
        held_count-running 0 s.jobs.states s.stages (λ i a found.
            (all i a found).1 ∙ ap (λ n. is_running_stage (s.stages n)) (ground arith)),
      )

  -- In whatever order requests, threads and the reaper take their steps, two jobs of one key whose
  -- threads have not yet taken them out of the registry are the same job, and it is the registry's.
  pub Reachable-single :
      (s : System Score)
      → Reachable host max_inflight s
      → (i j : ℕ) (a b : JobSlot) → get_elem? s.jobs.states i ≡ some a
      → get_elem? s.jobs.states j ≡ some b
      → is_registered_stage (s.stages i) ≡ true
      → is_registered_stage (s.stages j) ≡ true
      → a.key ≡ b.key
      → (i ≡ j) × (lookup a.key s.jobs.registry ≡ some i)
  Reachable-single s r i j a b at_i at_j live_i live_j same =
      let (balanced, all, bound) = Reachable-IsSafe s r in
      (
        some-inj (
            sym ((all i a at_i).2 live_i)
            ∙ ap (λ k. lookup k s.jobs.registry) same
            ∙ (all j b at_j).2 live_j),
        (all i a at_i).2 live_i,
      )
