-- ===== src/Polling/Ends.antt =====
-- When the wait for a child ends (agents/_shared/polling.py).
use diecast.Prelude.{
  ℕ, zero, suc, ◌+◌, ◌-◌, ◌≤◌, ◌<◌, ◌≡◌, refl, sym, ap, ◌∙◌, Bool, true, false, Option, none, some,
  List, [], ◌∷◌, ◌⊎◌, inl, inr, length, get_elem?, ltb, leb, if◌then◌else◌, arith, all, Bool-cases,
  none-ne-some,
}
use Prim.Native.Nat.{min}
use mathlib.Core.Path.{subst}
use diecast.Polling.{
  File, absent, file, blank, undecodable, bad_json, json, untold, named, unhashable, cancelled,
  idle_timeout, read, is_terminal, try_read_terminal, Answer, stop, go, World, Progress, Next,
  same_mtime, observe, sleep, check, after_read, one_pass, poll, started, poll_for_terminal_output,
}

abbrev pub mtime_of : File → Option ℕ
mtime_of absent = none
mtime_of (file m c) = some m

-- The child's file has no new time of change from this pass on.
abbrev pub IsSilent : World → ℕ → Type 0
IsSilent w n = (k : ℕ) → n ≤ k → mtime_of (w.file_at k) ≡ mtime_of (w.file_at n)

abbrev is_step : ℕ → Bool
is_step d = leb 1 d

get_elem?-step :
    (ladder : List ℕ) (i d : ℕ) → all is_step ladder ≡ true → get_elem? ladder i ≡ some d → 1 ≤ d
get_elem?-step [] i d h e = absurd (none-ne-some e)
get_elem?-step (x ∷ xs) zero d h e = ground (arith, h, e)
get_elem?-step (x ∷ xs) (suc i) d h e = get_elem?-step xs i d (ground (arith, h)) e

-- What a pass leaves of the progress, where it does not stop.
module _ (w : World) (timeout : ℕ) (ladder : List ℕ) (steps : all is_step ladder ≡ true) where
  record Goes (p q : Progress) : Type 0 where
    pass : q.pass ≡ suc p.pass
    time : p.now < q.now
    mtime : q.last_mtime ≡ (observe (mtime_of (w.file_at p.pass)) p).last_mtime
    progress : q.last_progress ≡ (observe (mtime_of (w.file_at p.pass)) p).last_progress
    waits : p.now ≤ (observe (mtime_of (w.file_at p.pass)) p).last_progress + timeout

  pub go-inj : {p q : Progress} → go p ≡ go q → p ≡ q
  go-inj e = cc

  pub stop-ne-go : {a : Answer} {q : Progress} → stop a ≡ go q → ⊥
  stop-ne-go e = cc

  pub observe_pass :
      (m : Option ℕ) (p : Progress) → ((observe m p).pass ≡ p.pass) × ((observe m p).now ≡ p.now)
  observe_pass none p = (refl, refl)
  observe_pass (some m) p = elim (Bool-cases (same_mtime m p.last_mtime)) [
    | inl e ↦ rw e (refl, refl)
    | inr e ↦ rw e (refl, refl)
  ]

  pub read-checked :
      (p q : Progress) (f : File)
      → after_read w timeout ladder p (try_read_terminal f) ≡ go q
      → check w timeout ladder (observe (mtime_of f) p) ≡ go q
  read-checked p q absent e = e
  read-checked p q (file m blank) e = e
  read-checked p q (file m undecodable) e = absurd (stop-ne-go e)
  read-checked p q (file m (bad_json x)) e = absurd (stop-ne-go e)
  read-checked p q (file m (json untold value)) e = e
  read-checked p q (file m (json unhashable value)) e = absurd (stop-ne-go e)
  read-checked p q (file m (json (named s) value)) e = split (is_terminal s) e
    where
      split :
          (b : Bool)
          → after_read w timeout ladder p
              (if b then read (some value) (some m) else read none (some m))
            ≡ go q
          → check w timeout ladder (observe (some m) p) ≡ go q
      split true k = absurd (stop-ne-go k)
      split false k = k

  sleep-go :
      (x q : Progress) (o : Option ℕ)
      → ((d : ℕ) → o ≡ some d → 1 ≤ d)
      → sleep w o x ≡ go q
      → (q.pass ≡ suc x.pass)
        × (x.now < q.now)
        × (q.last_mtime ≡ x.last_mtime)
        × (q.last_progress ≡ x.last_progress)
  sleep-go x q none h e = absurd (stop-ne-go e)
  sleep-go x q (some d) h e =
      subst
        (λ (y : Progress).
          (y.pass ≡ suc x.pass)
          × (x.now < y.now)
          × (y.last_mtime ≡ x.last_mtime)
          × (y.last_progress ≡ x.last_progress))
        (go-inj e) (refl, omega (arith, h d refl), refl, refl)

  pub check-go :
      (x q : Progress)
      → check w timeout ladder x ≡ go q
      → (x.now ≤ x.last_progress + timeout)
        × (sleep w (get_elem? ladder (min x.pass (length ladder - 1))) x ≡ go q)
  check-go x q e = split (w.is_cancelled x.pass) (ltb timeout (x.now - x.last_progress)) refl e
    where
      split :
          (a b : Bool)
          → ltb timeout (x.now - x.last_progress) ≡ b
          → (if a
              then stop cancelled
              else (if b
                  then stop idle_timeout
                  else sleep w (get_elem? ladder (min x.pass (length ladder - 1))) x))
            ≡ go q
          → (x.now ≤ x.last_progress + timeout)
            × (sleep w (get_elem? ladder (min x.pass (length ladder - 1))) x ≡ go q)
      split true b h k = absurd (stop-ne-go k)
      split false true h k = absurd (stop-ne-go k)
      split false false h k = (ground (arith, h), k)

  one_pass-Goes : (p q : Progress) → one_pass w timeout ladder p ≡ go q → Goes p q
  unfolding one_pass
  one_pass-Goes p q e =
      let x = observe (mtime_of (w.file_at p.pass)) p in
      let (waits, slept) = check-go x q (read-checked p q (w.file_at p.pass) e) in
      let (pass, time, mtime, progress) =
        sleep-go x q (get_elem? ladder (min x.pass (length ladder - 1)))
          (λ d. get_elem?-step ladder (min x.pass (length ladder - 1)) d steps) slept in
      let (same_pass, same_now) = observe_pass (mtime_of (w.file_at p.pass)) p in
      record {
        pass = pass ∙ ap suc same_pass;
        time = omega (arith, time, same_now);
        mtime = mtime;
        progress = progress;
        waits = omega (arith, waits, same_now);
      }

  poll-step :
      (fuel : ℕ) (p : Progress)
      → ((q : Progress) → Goes p q → (a : Answer) × (poll fuel w timeout ladder q ≡ some a))
      → (a : Answer) × (poll (suc fuel) w timeout ladder p ≡ some a)
  unfolding poll
  poll-step fuel p then_ends = split (one_pass w timeout ladder p) refl
    where
      split :
          (n : Next)
          → one_pass w timeout ladder p ≡ n
          → (a : Answer) × (poll (suc fuel) w timeout ladder p ≡ some a)
      split (stop a) e = (a, rw (e, poll) refl)
      split (go q) e = let (a, ends) = then_ends q (one_pass-Goes p q e) in (a, rw (e, poll) ends)

  -- The file's time of change is known, or there is no file, at this pass and all after it.
  abbrev Settled : Progress → Type 0
  Settled p =
      (k : ℕ)
      → p.pass ≤ k
      → (mtime_of (w.file_at k) ≡ none) ⊎ (mtime_of (w.file_at k) ≡ p.last_mtime)

  observe-same :
      (p : Progress) (m : Option ℕ)
      → (m ≡ none) ⊎ (m ≡ p.last_mtime)
      → (observe m p).last_progress ≡ p.last_progress
  observe-same p none h = refl
  observe-same p (some m) h = ground (arith, h)

  observe-mtime : (p : Progress) (m : Option ℕ) → (m ≡ none) ⊎ (m ≡ (observe m p).last_mtime)
  observe-mtime p none = inl refl
  observe-mtime p (some m) = ground arith

  observe-same_mtime :
      (p : Progress) (m : Option ℕ)
      → (m ≡ none) ⊎ (m ≡ p.last_mtime)
      → (observe m p).last_mtime ≡ p.last_mtime
  observe-same_mtime p none h = refl
  observe-same_mtime p (some m) h = ground (arith, h)

  poll_late :
      (fuel : ℕ) (p : Progress)
      → Settled p
      → timeout + p.last_progress < p.now + fuel
      → (a : Answer) × (poll (suc fuel) w timeout ladder p ≡ some a)
  poll_late zero p settled late = poll-step 0 p λ q goes. absurd (
      omega (
        arith,
        late,
        goes.waits,
        observe-same p (mtime_of (w.file_at p.pass)) (settled p.pass (omega arith)),
      ))
  poll_late (suc fuel) p settled late = poll-step (suc fuel) p λ q goes.
      let m = mtime_of (w.file_at p.pass) in
      let here : (m ≡ none) ⊎ (m ≡ p.last_mtime) = settled p.pass (omega arith) in
      let kept : q.last_mtime ≡ p.last_mtime = goes.mtime ∙ observe-same_mtime p m here in
      poll_late fuel q
        (λ k le.
          subst (λ (l : Option ℕ). (mtime_of (w.file_at k) ≡ none) ⊎ (mtime_of (w.file_at k) ≡ l))
            (sym kept) (settled k (omega (arith, le, goes.pass))))
        (omega (arith, late, goes.time, goes.progress, observe-same p m here))

  -- So many passes on top of two more than the timeout
  abbrev fuel_for : ℕ → ℕ
  fuel_for zero = suc (suc timeout)
  fuel_for (suc d) = suc (fuel_for d)

  observe-progress_le :
      (p : Progress) (m : Option ℕ) → p.last_progress ≤ p.now → (observe m p).last_progress ≤ p.now
  observe-progress_le p none h = h
  observe-progress_le p (some m) h = ground (arith, h)

  reaches :
      (n : ℕ)
      → IsSilent w n
      → (d : ℕ) (p : Progress) → p.pass + d ≡ suc n
      → p.last_progress ≤ p.now
      → (p.pass ≡ suc n → (mtime_of (w.file_at n) ≡ none) ⊎ (mtime_of (w.file_at n) ≡ p.last_mtime))
      → (a : Answer) × (poll (fuel_for d) w timeout ladder p ≡ some a)
  reaches n silent zero p left late known =
      poll_late (suc timeout) p
        (λ k le.
          subst (λ (m : Option ℕ). (m ≡ none) ⊎ (m ≡ p.last_mtime))
            (sym (silent k (omega (arith, le, left)))) (known (omega (arith, left))))
        (omega (arith, late))
  reaches n silent (suc d) p left late known = poll-step (fuel_for d) p λ q goes.
      let m = mtime_of (w.file_at p.pass) in
      reaches n silent d q (omega (arith, left, goes.pass))
        (omega (arith, goes.progress, goes.time, observe-progress_le p m late))
        (λ last.
          let at_n : p.pass ≡ n = omega (arith, last, goes.pass) in
          subst (λ (l : Option ℕ). (mtime_of (w.file_at n) ≡ none) ⊎ (mtime_of (w.file_at n) ≡ l))
            (sym goes.mtime)
            (subst
              (λ (k : ℕ).
                (mtime_of (w.file_at k) ≡ none)
                ⊎ (mtime_of (w.file_at k) ≡ (observe m p).last_mtime))
              at_n (observe-mtime p m)))

  fuel_for_lem : (d : ℕ) → fuel_for d ≡ d + timeout + 2
  fuel_for_lem zero = omega arith
  fuel_for_lem (suc d) = omega (arith, fuel_for_lem d)

-- Where each sleep of the ladder takes time and the child's file has no new time of change from some
-- pass on, the wait ends with an answer within three more passes than that one and the timeout's
-- number of units together.
pub poll_for_terminal_output_ends :
    (w : World) (timeout : ℕ) (ladder : List ℕ) (now n : ℕ)
    → all (leb 1) ladder ≡ true
    → IsSilent w n
    → (a : Answer) × (poll_for_terminal_output (n + timeout + 3) w timeout ladder now ≡ some a)
unfolding poll_for_terminal_output
poll_for_terminal_output_ends w timeout ladder now n steps silent =
    let (a, ends) =
      reaches w timeout ladder steps n silent (suc n) (started now) (omega arith) (omega arith)
        (λ e. absurd (omega (arith, e))) in
    let enough : fuel_for w timeout ladder steps (suc n) ≡ n + timeout + 3 =
      fuel_for_lem w timeout ladder steps (suc n) ∙ omega arith in
    (a, subst (λ (f : ℕ). poll f w timeout ladder (started now) ≡ some a) enough ends)
