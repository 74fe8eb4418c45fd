-- ===== src/Jobs/Steps.antt =====
-- What each step of the jobs keeps (services/render_job_service.py).
use diecast.Prelude.{
  ℕ, zero, suc, ◌≡◌, refl, sym, ◌∙◌, ap, Bool, true, false, not, Option, none, some, List, [], ◌∷◌,
  ◌++◌, text_eq_iff, get_elem?, set, length, filter, if◌then◌else◌, arith, ◌==◌, ==_iff, some-inj,
  none-ne-some, true-ne-false, Bool-cases, inl, inr, ◌⊎◌,
}
use mathlib.Core.Path.{subst}
use diecast.Jobs.{Key, same_key, JobSlot, JobRegistry, mark, lookup, pop, Host, is_live}
use diecast.Jobs.Slots.{get_elem?-mark}
use diecast.Jobs.Live.{same_key_eq, lookup-pop_ne}
use diecast.Jobs.Flight.{
  Stage, waiting, leaving, is_registered_stage, is_running_stage, put_stage, with_threads, register,
  add_state, pop_if, is_ref,
}
use diecast.Jobs.Single.{Stands, AllStand, same_key_refl, live_ne}

get_elem?-mark_ne :
    (ss : List JobSlot) (ref i : ℕ) (v : JobSlot)
    → (i == ref) ≡ false
    → get_elem? (set ss ref v) i ≡ get_elem? ss i
get_elem?-mark_ne [] ref i v h = refl
get_elem?-mark_ne (s ∷ ss) zero zero v h = ground (arith, h)
get_elem?-mark_ne (s ∷ ss) zero (suc i) v h = refl
get_elem?-mark_ne (s ∷ ss) (suc ref) zero v h = refl
get_elem?-mark_ne (s ∷ ss) (suc ref) (suc i) v h = get_elem?-mark_ne ss ref i v (ground (arith, h))

get_elem?-snoc :
    (ss : List JobSlot) (x : JobSlot) (i : ℕ) (a : JobSlot)
    → get_elem? (ss ++ x ∷ []) i ≡ some a
    → ((i ≡ length ss) × (x ≡ a)) ⊎ (((i == length ss) ≡ false) × (get_elem? ss i ≡ some a))
get_elem?-snoc [] x zero a h = inl (ground arith, some-inj h)
get_elem?-snoc [] x (suc i) a h = absurd (none-ne-some h)
get_elem?-snoc (s ∷ ss) x zero a h = inr (ground arith, h)
get_elem?-snoc (s ∷ ss) x (suc i) a h = elim (get_elem?-snoc ss x i a h) [
  | inl (e, same) ↦ inl (ground (arith, e), same)
  | inr (e, found) ↦ inr (ground (arith, e), found)
]

put_stage_here :
    (ref i : ℕ) (t : Stage) (stages : ℕ → Stage) → (i == ref) ≡ true → put_stage ref t stages i ≡ t
put_stage_here ref i t stages e = ap (λ b. if b then t else stages i) e

put_stage_ne :
    (ref i : ℕ) (t : Stage) (stages : ℕ → Stage)
    → (i == ref) ≡ false
    → put_stage ref t stages i ≡ stages i
put_stage_ne ref i t stages e = ap (λ b. if b then t else stages i) e

-- A state whose thread takes its next step
pub mark-AllStand :
    (ss : List JobSlot) (registry : List (Key × ℕ)) (stages : ℕ → Stage) (ref : ℕ) (s : JobSlot)
    (t : Stage)
    → AllStand ss registry stages
    → get_elem? ss ref ≡ some s
    → is_registered_stage (stages ref) ≡ true
    → AllStand (set ss ref (mark (is_running_stage t) s)) registry (put_stage ref t stages)
mark-AllStand ss registry stages ref s t all here alive i a found =
    let m = mark (is_running_stage t) s in
    elim (Bool-cases (i == ref)) [
      | inl e ↦
          let same : i ≡ ref = (==_iff i ref).0 e in
          let (thread, held, own) = all ref s here in
          let marked : m ≡ a = some-inj (
            sym (get_elem?-mark ss ref s (is_running_stage t) here)
            ∙ ap (get_elem? (set ss ref m)) (sym same)
            ∙ found) in
          let stands : Stands m ref registry t = (thread, refl, λ l. own alive) in
          subst (λ x. Stands x i registry (put_stage ref t stages i)) marked
            (subst (λ j. Stands m j registry (put_stage ref t stages i)) (sym same)
              (subst (Stands m ref registry) (sym (put_stage_here ref i t stages e)) stands))
      | inr e ↦
          subst (Stands a i registry) (sym (put_stage_ne ref i t stages e))
            (all i a (sym (get_elem?-mark_ne ss ref i m e) ∙ found))
    ]

-- A thread with no state
pub none-AllStand :
    (ss : List JobSlot) (registry : List (Key × ℕ)) (stages : ℕ → Stage) (ref : ℕ) (t : Stage)
    → AllStand ss registry stages
    → get_elem? ss ref ≡ none
    → AllStand ss registry (put_stage ref t stages)
none-AllStand ss registry stages ref t all gone i a found = elim (Bool-cases (i == ref)) [
  | inl e ↦ absurd (none-ne-some (sym gone ∙ ap (get_elem? ss) (sym ((==_iff i ref).0 e)) ∙ found))
  | inr e ↦ subst (Stands a i registry) (sym (put_stage_ne ref i t stages e)) (all i a found)
]

same_key_swap : (a b : Key) → same_key a b ≡ same_key b a
same_key_swap a b = grind (arith, text_eq_iff)

-- A new job, whose key no live state has
pub add_state-AllStand :
    (host : Host) (r : JobRegistry) (k : Key) (stages : ℕ → Stage)
    → AllStand r.states r.registry stages
    → is_live (with_threads host stages) k r ≡ false
    → AllStand
        (add_state k r).states
        (add_state k r).registry
        (put_stage (length r.states) waiting stages)
add_state-AllStand host r k stages all dead i a found =
    elim (get_elem?-snoc r.states
      (record { key = k; slot_held = false; thread = some (length r.states) }) i a found) [
        | inl (e, same) ↦
            let n = length r.states in
            subst (λ x. Stands x i (register k n r.registry) (put_stage n waiting stages i)) same
              (subst
                (λ j.
                  Stands (record { key = k; slot_held = false; thread = some n }) j
                    (register k n r.registry) (put_stage n waiting stages i))
                (sym e)
                (subst
                  (Stands (record { key = k; slot_held = false; thread = some n }) n
                    (register k n r.registry))
                  (sym (put_stage_here n i waiting stages ((==_iff i n).1 e)))
                  (
                    refl,
                    refl,
                    λ l.
                        ap
                          (λ b.
                            if b
                            then some n
                            else lookup k (filter (λ e. not (same_key e.0 k)) r.registry))
                          (same_key_refl k),
                  )))
        | inr (e, old) ↦
            let n = length r.states in
            let (thread, held, own) = all i a old in
            subst (Stands a i (register k n r.registry)) (sym (put_stage_ne n i waiting stages e)) (
              thread,
              held,
              λ alive.
                  let other = live_ne host stages r k i a all dead old alive in
                  ap
                    (λ b.
                      if b
                      then some n
                      else lookup a.key (filter (λ e. not (same_key e.0 k)) r.registry))
                    (same_key_swap k a.key ∙ other)
                  ∙ lookup-pop_ne k a.key r.registry other
                  ∙ own alive,
            )
      ]

-- A thread that is no more registered, with a registry that has what it had for the others
pub leave-AllStand :
    (ss : List JobSlot) (registry registry' : List (Key × ℕ)) (ref : ℕ) (stages : ℕ → Stage)
    (t : Stage)
    → is_registered_stage t ≡ false
    → is_running_stage t ≡ false
    → AllStand ss registry stages
    → is_running_stage (stages ref) ≡ false
    → ((i : ℕ) (a : JobSlot)
        → (i == ref) ≡ false
        → lookup a.key registry ≡ some i
        → lookup a.key registry' ≡ some i)
    → AllStand ss registry' (put_stage ref t stages)
leave-AllStand ss registry registry' ref stages t out stopped all idle keeps i a found =
    let (thread, held, own) = all i a found in
    elim (Bool-cases (i == ref)) [
      | inl e ↦ subst (Stands a i registry') (sym (put_stage_here ref i t stages e)) (
        thread,
        held ∙ ap (λ j. is_running_stage (stages j)) ((==_iff i ref).0 e) ∙ idle ∙ sym stopped,
        λ l. absurd (true-ne-false (sym l ∙ out)),
      )
      | inr e ↦
          subst (Stands a i registry') (sym (put_stage_ne ref i t stages e))
            (thread, held, λ l. keeps i a e (own l))
    ]

is_ref_eq : (o : Option ℕ) (ref : ℕ) → is_ref o ref ≡ true → o ≡ some ref
is_ref_eq none ref h = absurd (true-ne-false (sym h))
is_ref_eq (some j) ref h = ap some ((==_iff j ref).0 h)

pub pop_if-AllStand :
    (r : JobRegistry) (ref : ℕ) (s : JobSlot) (stages : ℕ → Stage) (b : Bool)
    → is_ref (lookup s.key r.registry) ref ≡ b
    → AllStand r.states r.registry stages
    → is_running_stage (stages ref) ≡ false
    → AllStand r.states (pop_if b s.key r).registry (put_stage ref leaving stages)
pop_if-AllStand r ref s stages false e all idle =
    leave-AllStand r.states r.registry r.registry ref stages leaving refl refl all idle
      (λ i a ne own. own)
pop_if-AllStand r ref s stages true e all idle =
    leave-AllStand r.states r.registry (pop s.key r).registry ref stages leaving refl refl all idle
      λ i a ne own. elim (Bool-cases (same_key a.key s.key)) [
        | inl same ↦
            let mine : lookup a.key r.registry ≡ some ref =
              ap (λ k. lookup k r.registry) (same_key_eq a.key s.key same)
              ∙ is_ref_eq (lookup s.key r.registry) ref e in
            absurd (true-ne-false (sym ((==_iff i ref).1 (some-inj (sym own ∙ mine))) ∙ ne))
        | inr differ ↦ lookup-pop_ne s.key a.key r.registry differ ∙ own
      ]
