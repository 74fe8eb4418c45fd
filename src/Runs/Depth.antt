-- ===== src/Runs/Depth.antt =====
-- How deep agents delegate (services/agent_service.py).
use diecast.Prelude.{
  ℕ, zero, suc, ◌+◌, ◌≤◌, ◌<◌, ◌≡◌, ◌≢◌, refl, sym, ap, ◌∙◌, Bool, true, false, Option, none, some,
  List, [], ◌∷◌, ◌++◌, Text, text_eq, text_eq_iff, text_eq_refl, inl, inr, if◌then◌else◌, arith,
  Bool-cases, none-ne-some, some-inj,
}
use Prim.Native.Nat.{min}
use mathlib.Core.Path.{subst}
use diecast.Runs.{
  Run, Status, Service, get_agent_run, Failure, bad_project_dir, Result, raised, done,
}
use diecast.Runs.Finish.{is_text}
use diecast.Runs.Delegation.{
  max_delegation_depth, some_text, parent_found, parent_of, walk, get_delegation_depth, Rules,
  Stamp, Trigger, new_run, check_found, check_parent, create_if, initial_status, trigger_agent,
}
use diecast.Runs.Kin.{Under, walk-Under}

-- The run has so many ancestors: a run with no parent has none, and one with a parent has one more
-- than the parent, a run that is gone counting as one with no parent.
pub data Chain (rs : List Run) : Text → ℕ → Type 0 where
  top : (i : Text) → parent_of rs i ≡ none → Chain rs i 0
  up : (i p : Text) (n : ℕ) → parent_of rs i ≡ some p → Chain rs p n → Chain rs i (suc n)

-- An id that no run has, nor names as its parent
abbrev pub IsFresh : Text → List Run → Type 0
IsFresh new rs =
    (get_agent_run new rs ≡ none) × ((i : Text) → parent_of rs i ≢ some new) × (is_text new ≡ true)

-- No chain of delegations is longer than the limit.
abbrev pub IsShallow : List Run → Type 0
unfolding get_delegation_depth
IsShallow rs = (i : Text) → get_delegation_depth i rs ≤ max_delegation_depth

parent_is_text : (o : Option Text) (p : Text) → some_text o ≡ some p → is_text p ≡ true
parent_is_text none p e = absurd (none-ne-some e)
parent_is_text (some []) p e = absurd (none-ne-some e)
parent_is_text (some (c ∷ t)) p e = subst (λ (q : Text). is_text q ≡ true) (some-inj e) refl

parent_found-is_text : (o : Option Run) (p : Text) → parent_found o ≡ some p → is_text p ≡ true
parent_found-is_text none p e = absurd (none-ne-some e)
parent_found-is_text (some r) p e = parent_is_text r.parent_run_id p e

parent_of-is_text : (rs : List Run) (i p : Text) → parent_of rs i ≡ some p → is_text p ≡ true
unfolding parent_of
parent_of-is_text rs i p e = parent_found-is_text (get_agent_run i rs) p e

walk-Chain :
    (rs : List Run) {n : ℕ} (i : Text)
    → is_text i ≡ true
    → Chain rs i n
    → (k : ℕ) → walk rs k i ≡ min n k
unfolding walk
walk-Chain rs i t c zero = ground arith
walk-Chain rs i t (top _ e) (suc k) = rw (t, e) (omega arith)
walk-Chain rs i t (up _ p n e c) (suc k) =
    rw (t, e) (omega (arith, walk-Chain rs p (parent_of-is_text rs i p e) c k))

-- A nonempty id whose chain has n ancestors has depth n, or two more than the limit where n is more.
pub get_delegation_depth-Chain :
    (rs : List Run) (i : Text) (n : ℕ)
    → is_text i ≡ true
    → Chain rs i n
    → get_delegation_depth i rs ≡ min n (max_delegation_depth + 2)
unfolding get_delegation_depth
get_delegation_depth-Chain rs i n t c = walk-Chain rs i t c (max_delegation_depth + 2)

pub Under-IsShallow : (rs ts : List Run) → Under rs ts → IsShallow rs → IsShallow ts
unfolding get_delegation_depth
Under-IsShallow rs ts under shallow i =
    omega (arith, walk-Under rs ts under (max_delegation_depth + 2) i, shallow i)

get_agent_run-append :
    (rs : List Run) (r : Run) (i : Text)
    → text_eq r.id i ≡ false
    → get_agent_run i (rs ++ r ∷ []) ≡ get_agent_run i rs
unfolding get_agent_run
get_agent_run-append [] r i ne = rw ne refl
get_agent_run-append (x ∷ rs) r i ne =
    ap (λ o. if text_eq x.id i then some x else o) (get_agent_run-append rs r i ne)

get_agent_run-new :
    (rs : List Run) (r : Run)
    → get_agent_run r.id rs ≡ none
    → get_agent_run r.id (rs ++ r ∷ []) ≡ some r
unfolding get_agent_run
get_agent_run-new [] r e = rw (text_eq_refl r.id) refl
get_agent_run-new (x ∷ rs) r e = ground (arith, e, get_agent_run-new rs r)

walk-append :
    (rs : List Run) (r : Run)
    → ((i : Text) → parent_of rs i ≢ some r.id)
    → (n : ℕ) (i : Text) → text_eq r.id i ≡ false
    → walk (rs ++ r ∷ []) n i ≡ walk rs n i
unfolding walk parent_of
walk-append rs r orphan zero i ne = refl
walk-append rs r orphan (suc n) i ne = elim (Bool-cases (is_text i)) [
  | inr e ↦ rw e refl
  | inl e ↦
      rw (e, get_agent_run-append rs r i ne)
        (step (parent_of rs i) refl (walk-append rs r orphan n))
]
  where
    step :
        (o : Option Text)
        → parent_of rs i ≡ o
        → ((p : Text) → text_eq r.id p ≡ false → walk (rs ++ r ∷ []) n p ≡ walk rs n p)
        → ◌≡◌ {A = ℕ}
            (elim o [ none ↦ 0 | some p ↦ suc (walk (rs ++ r ∷ []) n p) ])
            (elim o [ none ↦ 0 | some p ↦ suc (walk rs n p) ])
    step none e same = refl
    step (some p) e same = elim (Bool-cases (text_eq r.id p)) [
      | inl k ↦ absurd (orphan i (e ∙ ap some (sym ((text_eq_iff r.id p).0 k))))
      | inr k ↦ ap suc (same p k)
    ]

walk-suc : (rs : List Run) (n : ℕ) (i : Text) → walk rs n i ≤ walk rs (suc n) i
unfolding walk
walk-suc rs zero i = omega arith
walk-suc rs (suc n) i = elim (Bool-cases (is_text i)) [
  | inr e ↦ rw e (omega arith)
  | inl e ↦ rw e (step (parent_of rs i) (walk-suc rs n))
]
  where
    step :
        (o : Option Text)
        → ((p : Text) → walk rs n p ≤ walk rs (suc n) p)
        → (elim o [ none ↦ 0 | some p ↦ suc (walk rs n p) ])
          ≤ (elim o [ none ↦ 0 | some p ↦ suc (walk rs (suc n) p) ])
    step none longer = omega arith
    step (some p) longer = omega (arith, longer p)

check_parent-none :
    (rules : Rules) (agent_name : Text) (parent : Option Text) (rs : List Run) (p : Text)
    → parent ≡ some p
    → check_parent rules agent_name parent rs ≡ none
    → (get_agent_run p rs ≢ none) × (get_delegation_depth p rs < max_delegation_depth)
unfolding check_parent check_found get_delegation_depth
check_parent-none rules agent_name none rs p named h = absurd (none-ne-some named)
check_parent-none rules agent_name (some q) rs p named h =
    subst
      (λ (x : Text).
        (get_agent_run x rs ≢ none) × (get_delegation_depth x rs < max_delegation_depth))
      (some-inj named) (go (get_agent_run q rs) refl h)
  where
    go :
        (o : Option Run)
        → get_agent_run q rs ≡ o
        → check_found rules agent_name q rs o ≡ none
        → (get_agent_run q rs ≢ none) × (get_delegation_depth q rs < max_delegation_depth)
    go none e k = absurd (none-ne-some (sym k))
    go (some r) e k = ((λ gone. none-ne-some (sym gone ∙ e)), ground (arith, k))

-- A new run whose parent, where it names one, is there and less deep than the limit
pub append-IsShallow :
    (rs : List Run) (r : Run)
    → IsFresh r.id rs
    → ((p : Text)
        → some_text r.parent_run_id ≡ some p
        → (get_agent_run p rs ≢ none) × (get_delegation_depth p rs < max_delegation_depth))
    → IsShallow rs
    → IsShallow (rs ++ r ∷ [])
unfolding get_delegation_depth walk parent_of
append-IsShallow rs r fresh ok shallow i = elim (Bool-cases (text_eq r.id i)) [
  | inr e ↦ omega (arith, shallow i, walk-append rs r fresh.1 (max_delegation_depth + 2) i e)
  | inl e ↦ subst (λ (j : Text). walk (rs ++ r ∷ []) 5 j ≤ 3) ((text_eq_iff r.id i).0 e) new
]
  where
    step :
        (o : Option Text)
        → some_text r.parent_run_id ≡ o
        → (elim o [ none ↦ 0 | some p ↦ suc (walk (rs ++ r ∷ []) 4 p) ]) ≤ 3
    step none e = omega arith
    step (some p) e = elim (Bool-cases (text_eq r.id p)) [
      | inl k ↦ absurd (
          (ok p e).0
            (subst (λ (j : Text). get_agent_run j rs ≡ none) ((text_eq_iff r.id p).0 k) fresh.0))
      | inr k ↦ omega (arith, walk-append rs r fresh.1 4 p k, walk-suc rs 4 p, (ok p e).1)
    ]

    new : walk (rs ++ r ∷ []) 5 r.id ≤ 3
    new = rw (fresh.2, get_agent_run-new rs r fresh.0) (step (some_text r.parent_run_id) refl)

pub done-inj : {s t : Service} → done s ≡ done t → s ≡ t
done-inj e = cc

pub raised-ne-done : {f : Failure} {t : Service} → raised f ≡ done t → ⊥
raised-ne-done e = cc

create_if-IsShallow :
    (rules : Rules) (t : Trigger) (stamp : Stamp) (s s2 : Service) (f : Option Failure)
    (st : Option Status)
    → check_parent rules t.agent_name (some_text t.parent_run_id) s.runs ≡ f
    → create_if t stamp s f st ≡ done s2
    → IsFresh stamp.run_id s.runs
    → IsShallow s.runs
    → IsShallow s2.runs
create_if-IsShallow rules t stamp s s2 (some e) st k h fresh shallow = absurd (raised-ne-done h)
create_if-IsShallow rules t stamp s s2 none none k h fresh shallow = absurd (raised-ne-done h)
create_if-IsShallow rules t stamp s s2 none (some st) k h fresh shallow =
    subst (λ (x : Service). IsShallow x.runs) (done-inj h)
      (append-IsShallow s.runs (new_run t stamp st) fresh
        (λ p named.
          check_parent-none rules t.agent_name (some_text t.parent_run_id) s.runs p named k)
        shallow)

pub passed :
    (b : Bool) {o : Result} (f : Failure) {t : Service}
    → (if b then o else raised f) ≡ done t
    → o ≡ done t
passed true f h = h
passed false f h = absurd (raised-ne-done h)

pub trigger_agent-IsShallow :
    (rules : Rules) (t : Trigger) (stamp : Stamp) (s s2 : Service)
    → trigger_agent rules t stamp s ≡ done s2
    → IsFresh stamp.run_id s.runs
    → IsShallow s.runs
    → IsShallow s2.runs
unfolding trigger_agent
trigger_agent-IsShallow rules t stamp s s2 h =
    create_if-IsShallow rules t stamp s s2
      (check_parent rules t.agent_name (some_text t.parent_run_id) s.runs)
      (initial_status rules stamp.seconds (some_text t.scheduled_at)) refl
      (passed (rules.has_project_dir t.goal_slug) bad_project_dir h)
