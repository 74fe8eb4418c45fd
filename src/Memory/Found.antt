-- ===== src/Memory/Found.antt =====
-- How an error is found in the table (services/error_memory_service.py).
use diecast.Prelude.{
  ℕ, ◌≡◌, refl, sym, ap, ◌∙◌, Bool, true, Option, none, some, List, [], ◌∷◌, ◌++◌, map, Text, inl,
  inr, ◌==◌, if◌then◌else◌, OneOf, Bool-cases, none-ne-some, some-inj,
}
use diecast.Memory.{ErrorMemory, has_key, find_memory, recur_at}

pub find-OneOf :
    (agent hash : Text) (rows : List ErrorMemory) (m : ErrorMemory)
    → find_memory agent hash rows ≡ some m
    → OneOf m rows × (has_key agent hash m ≡ true)
unfolding find_memory
find-OneOf agent hash [] m e = absurd (none-ne-some e)
find-OneOf agent hash (x ∷ xs) m e = elim (Bool-cases (has_key agent hash x)) [
  | inl k ↦
      let it : x ≡ m =
        some-inj (ap (λ (b : Bool). if b then some x else find_memory agent hash xs) (sym k) ∙ e) in
      (inl (sym it), ap (has_key agent hash) (sym it) ∙ k)
  | inr k ↦
      let rest =
        find-OneOf agent hash xs m
          (ap (λ (b : Bool). if b then some x else find_memory agent hash xs) (sym k) ∙ e) in
      (inr rest.0, rest.1)
]

pub recur_at-has_key :
    (i : ℕ) (run_id : Text) (now : ℕ) (agent hash : Text) (m : ErrorMemory)
    → has_key agent hash (recur_at i run_id now m) ≡ has_key agent hash m
recur_at-has_key i run_id now agent hash m = elim (Bool-cases (m.id == i)) [
  | inl e ↦ rw e refl
  | inr e ↦ rw e refl
]

pub recur_at_id :
    (i : ℕ) (run_id : Text) (now : ℕ) (m : ErrorMemory) → (recur_at i run_id now m).id ≡ m.id
recur_at_id i run_id now m = elim (Bool-cases (m.id == i)) [ inl e ↦ rw e refl | inr e ↦ rw e refl ]

abbrev pub after_found : (ErrorMemory → ErrorMemory) → Option ErrorMemory → Option ErrorMemory
after_found f none = none
after_found f (some m) = some (f m)

pub find-recur_at :
    (i : ℕ) (run_id : Text) (now : ℕ) (agent hash : Text) (rows : List ErrorMemory)
    → find_memory agent hash (map (recur_at i run_id now) rows)
      ≡ after_found (recur_at i run_id now) (find_memory agent hash rows)
unfolding find_memory
find-recur_at i run_id now agent hash [] = refl
find-recur_at i run_id now agent hash (x ∷ xs) = elim (Bool-cases (has_key agent hash x)) [
  | inl k ↦
      ap
        (λ (b : Bool).
          if b
          then some (recur_at i run_id now x)
          else find_memory agent hash (map (recur_at i run_id now) xs))
        (recur_at-has_key i run_id now agent hash x ∙ k)
      ∙ ap
          (λ (b : Bool).
            after_found (recur_at i run_id now) (if b then some x else find_memory agent hash xs))
          (sym k)
  | inr k ↦
      ap
        (λ (b : Bool).
          if b
          then some (recur_at i run_id now x)
          else find_memory agent hash (map (recur_at i run_id now) xs))
        (recur_at-has_key i run_id now agent hash x ∙ k)
      ∙ find-recur_at i run_id now agent hash xs
      ∙ ap
          (λ (b : Bool).
            after_found (recur_at i run_id now) (if b then some x else find_memory agent hash xs))
          (sym k)
]

pub find-append :
    (agent hash : Text) (rows : List ErrorMemory) (x : ErrorMemory)
    → find_memory agent hash (rows ++ x ∷ []) ≡ elim (find_memory agent hash rows) [
      | none ↦ if has_key agent hash x then some x else none
      | some m ↦ some m
    ]
unfolding find_memory
find-append agent hash [] x = refl
find-append agent hash (y ∷ ys) x = elim (Bool-cases (has_key agent hash y)) [
  | inl k ↦ rw (k, find_memory) refl
  | inr k ↦ rw (k, find_memory) (find-append agent hash ys x)
]
