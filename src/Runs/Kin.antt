-- ===== src/Runs/Kin.antt =====
-- What the operations on runs leave of the chains of delegations (services/agent_service.py).
use diecast.Prelude.{
  ℕ, zero, suc, ◌≤◌, ◌≡◌, refl, sym, ap, ◌∙◌, false, not, Option, none, some, List, [], ◌∷◌, map,
  Text, text_eq, text_eq_iff, ◌⊎◌, inl, inr, filter, if◌then◌else◌, arith, Bool-cases,
}
use mathlib.Core.Path.{subst}
use diecast.Runs.{Run, update_row, update_agent_run, get_agent_run}
use diecast.Runs.Finish.{is_text}
use diecast.Runs.Dispatch.{promote, promote_scheduled_runs}
use diecast.Runs.Delegation.{parent_found, parent_of, walk}
use diecast.Runs.Edits.{KeepsKin, Edits, same, edit}

-- The chains are the same.
abbrev pub Kin : List Run → List Run → Type 0
Kin rs ts = (i : Text) → parent_of ts i ≡ parent_of rs i

-- Each chain is one that was, or a part of it.
abbrev pub Under : List Run → List Run → Type 0
Under rs ts = (i : Text) → (parent_of ts i ≡ parent_of rs i) ⊎ (parent_of ts i ≡ none)

pub walk-Under : (rs ts : List Run) → Under rs ts → (n : ℕ) (i : Text) → walk ts n i ≤ walk rs n i
unfolding walk
walk-Under rs ts under zero i = omega arith
walk-Under rs ts under (suc n) i = elim (Bool-cases (is_text i)) [
  | inr e ↦ rw e (omega arith)
  | inl e ↦ rw e (elim (under i) [
    | inr k ↦ rw k (omega arith)
    | inl k ↦ rw k (step (parent_of rs i) (walk-Under rs ts under n))
  ])
]
  where
    step :
        (o : Option Text)
        → ((p : Text) → walk ts n p ≤ walk rs n p)
        → (elim o [ none ↦ 0 | some p ↦ suc (walk ts n p) ])
          ≤ (elim o [ none ↦ 0 | some p ↦ suc (walk rs n p) ])
    step none shorter = omega arith
    step (some p) shorter = omega (arith, shorter p)

pub map-Kin : (f : Run → Run) → KeepsKin f → (rs : List Run) → Kin rs (map f rs)
unfolding parent_of get_agent_run
map-Kin f keeps [] i = refl
map-Kin f keeps (r ∷ rs) i = elim (Bool-cases (text_eq r.id i)) [
  | inl e ↦ rw ((keeps r).0, e, (keeps r).1) refl
  | inr e ↦ rw ((keeps r).0, e) (map-Kin f keeps rs i)
]

pub update-Kin :
    (k : Text) (f : Run → Run) → KeepsKin f → (rs : List Run) → Kin rs (update_agent_run k f rs)
unfolding update_agent_run
update-Kin k f keeps rs = map-Kin (update_row k f) kept rs
  where
    kept : KeepsKin (update_row k f)
    kept r = elim (Bool-cases (text_eq r.id k)) [
      | inl e ↦ rw e (keeps r)
      | inr e ↦ rw e (refl, refl)
    ]

pub Edits-Kin : {keys : Text → Type 0} (rs ts : List Run) → Edits keys rs ts → Kin rs ts
Edits-Kin rs _ same i = refl
Edits-Kin rs _ (edit ts k f key keeps edits) i = update-Kin k f keeps ts i ∙ Edits-Kin rs ts edits i

pub promote-Kin : (now : Text) (rs : List Run) → Kin rs (promote_scheduled_runs now rs)
unfolding promote_scheduled_runs promote
promote-Kin now rs = map-Kin (promote now) (λ r. ground arith) rs

abbrev pub without : Text → List Run → List Run
without d rs = filter (λ (x : Run). not (text_eq x.id d)) rs

pub without_it : (d : Text) (rs : List Run) → get_agent_run d (without d rs) ≡ none
unfolding get_agent_run
without_it d [] = refl
without_it d (r ∷ rs) = elim (Bool-cases (text_eq r.id d)) [
  | inl e ↦ rw e (without_it d rs)
  | inr e ↦ rw (e, e) (without_it d rs)
]

pub without_other :
    (d : Text) (rs : List Run) (i : Text)
    → text_eq i d ≡ false
    → get_agent_run i (without d rs) ≡ get_agent_run i rs
unfolding get_agent_run
without_other d [] i ne = refl
without_other d (r ∷ rs) i ne = elim (Bool-cases (text_eq r.id d)) [
  | inl e ↦
      let other : text_eq r.id i ≡ false =
        ground (arith, text_eq_iff r.id d, text_eq_iff r.id i, ne, e) in
      rw (e, other) (without_other d rs i ne)
  | inr e ↦ rw e (ap (λ o. if text_eq r.id i then some r else o) (without_other d rs i ne))
]

pub delete-Under : (d : Text) (rs : List Run) → Under rs (without d rs)
unfolding parent_of
delete-Under d rs i = elim (Bool-cases (text_eq i d)) [
  | inl e ↦
      let gone : get_agent_run i (without d rs) ≡ none =
        subst (λ k. get_agent_run k (without d rs) ≡ none) (sym ((text_eq_iff i d).0 e))
          (without_it d rs) in
      inr (ap parent_found gone)
  | inr e ↦ inl (ap parent_found (without_other d rs i e))
]
