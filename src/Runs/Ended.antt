-- ===== src/Runs/Ended.antt =====
-- What the operations leave of a completed run (services/agent_service.py).
use diecast.Prelude.{
  ℕ, zero, suc, ◌≤◌, ◌≡◌, refl, sym, ap, ◌∙◌, Bool, false, some, List, [], ◌∷◌, ◌++◌, Text, text_eq,
  text_eq_iff, inl, inr, All, take, filter, if◌then◌else◌, arith, Bool-cases, some-inj,
  none-ne-some,
}
use mathlib.Core.Path.{subst}
use diecast.Runs.{completed, Run, Service, update_agent_run, get_agent_run, fail, fail_with}
use diecast.Runs.Finish.{is_pending}
use diecast.Runs.Dispatch.{
  promote, promote_scheduled_runs, next_runs, oldest_first, insert_run, text_le,
}
use diecast.Runs.Edits.{Edits, same, edit, KeepsKin}
use diecast.Runs.Bounded.{occurs}

-- An id that is not i
abbrev pub Others : Text → Text → Type 0
Others i k = text_eq k i ≡ false

take-All : (P : Run → Type 0) (n : ℕ) (rs : List Run) → All P rs → All P (take n rs)
take-All P zero rs h = tt
take-All P (suc n) [] h = tt
take-All P (suc n) (r ∷ rs) h = (h.0, take-All P n rs h.1)

insert_run-All :
    (P : Run → Type 0) (r : Run) (rs : List Run) → P r → All P rs → All P (insert_run r rs)
unfolding insert_run
insert_run-All P r [] h k = (h, tt)
insert_run-All P r (x ∷ xs) h k = elim (Bool-cases (text_le r.created_at x.created_at)) [
  | inl e ↦ rw e (h, k)
  | inr e ↦ rw e (k.0, insert_run-All P r xs h k.1)
]

oldest_first-All : (P : Run → Type 0) (rs : List Run) → All P rs → All P (oldest_first rs)
unfolding oldest_first
oldest_first-All P [] h = tt
oldest_first-All P (r ∷ rs) h = insert_run-All P r (oldest_first rs) h.0 (oldest_first-All P rs h.1)

module _ (i : Text) where
  pub get_agent_run-update :
      (k : Text) (f : Run → Run)
      → KeepsKin f
      → Others i k
      → (rs : List Run) → get_agent_run i (update_agent_run k f rs) ≡ get_agent_run i rs
  unfolding get_agent_run update_agent_run
  get_agent_run-update k f keeps other [] = refl
  get_agent_run-update k f keeps other (r ∷ rs) = elim (Bool-cases (text_eq r.id k)) [
    | inl e ↦
        let ne : text_eq r.id i ≡ false =
          subst (λ (j : Text). text_eq j i ≡ false) (sym ((text_eq_iff r.id k).0 e)) other in
        rw (e, (keeps r).0, ne) (get_agent_run-update k f keeps other rs)
    | inr e ↦
        rw e
          (ap (λ o. if text_eq r.id i then some r else o) (get_agent_run-update k f keeps other rs))
  ]

  pub Edits-get_agent_run :
      (rs ts : List Run) → Edits (Others i) rs ts → get_agent_run i ts ≡ get_agent_run i rs
  Edits-get_agent_run rs _ same = refl
  Edits-get_agent_run rs _ (edit ts k f key keeps edits) =
      get_agent_run-update k f keeps key ts ∙ Edits-get_agent_run rs ts edits

  filter-absent :
      (p : Run → Bool) (rs : List Run)
      → occurs i rs ≤ 0
      → All (λ (x : Run). Others i x.id) (filter p rs)
  filter-absent p [] h = tt
  filter-absent p (x ∷ xs) h =
      let other : text_eq x.id i ≡ false = ground (arith, h) in
      let rest : All (λ (x : Run). Others i x.id) (filter p xs) =
        filter-absent p xs (ground (arith, h)) in
      elim (Bool-cases (p x)) [ inl e ↦ rw e (other, rest) | inr e ↦ rw e rest ]

  -- The rows that a test picks are other runs than one that it does not pick.
  pub filter-Others :
      (p : Run → Bool) (r : Run)
      → p r ≡ false
      → (rs : List Run) → occurs i rs ≤ 1
      → get_agent_run i rs ≡ some r
      → All (λ (x : Run). Others i x.id) (filter p rs)
  unfolding get_agent_run
  filter-Others p r no_pick [] h e = absurd (none-ne-some e)
  filter-Others p r no_pick (x ∷ xs) h e = elim (Bool-cases (text_eq x.id i)) [
    | inl k ↦
        let it : some x ≡ some r =
          ap (λ (b : Bool). if b then some x else get_agent_run i xs) (sym k) ∙ e in
        let unpicked : p x ≡ false = ap p (some-inj it) ∙ no_pick in
        rw unpicked (filter-absent p xs (ground (arith, h, k)))
    | inr k ↦
        let later : get_agent_run i xs ≡ some r =
          ap (λ (b : Bool). if b then some x else get_agent_run i xs) (sym k) ∙ e in
        let rest : All (λ (x : Run). Others i x.id) (filter p xs) =
          filter-Others p r no_pick xs (ground (arith, h)) later in
        elim (Bool-cases (p x)) [ inl q ↦ rw q (k, rest) | inr q ↦ rw q rest ]
  ]

  pub next_runs-Others :
      (n : ℕ) (r : Run)
      → is_pending r.status ≡ false
      → (rs : List Run) → occurs i rs ≤ 1
      → get_agent_run i rs ≡ some r
      → All (λ (x : Run). Others i x.id) (next_runs n rs)
  unfolding next_runs
  next_runs-Others n r no_pick rs h e =
      let pending_rows = filter (λ (x : Run). is_pending x.status) rs in
      take-All (λ (x : Run). Others i x.id) n (oldest_first pending_rows)
        (oldest_first-All (λ (x : Run). Others i x.id) pending_rows
          (filter-Others (λ (x : Run). is_pending x.status) r no_pick rs h e))

  pub get_agent_run-promote :
      (now : Text) (r : Run)
      → r.status ≡ completed
      → (rs : List Run) → get_agent_run i rs ≡ some r
      → get_agent_run i (promote_scheduled_runs now rs) ≡ some r
  unfolding get_agent_run promote_scheduled_runs promote
  get_agent_run-promote now r c [] e = absurd (none-ne-some e)
  get_agent_run-promote now r c (x ∷ xs) e = ground (arith, e, c, get_agent_run-promote now r c xs)

  pub get_agent_run-some-append :
      (r : Run) (rs : List Run) (x : Run)
      → get_agent_run i rs ≡ some r
      → get_agent_run i (rs ++ x ∷ []) ≡ some r
  unfolding get_agent_run
  get_agent_run-some-append r [] x e = absurd (none-ne-some e)
  get_agent_run-some-append r (y ∷ rs) x e = ground (arith, e, get_agent_run-some-append r rs x)

  pub fail_with-Others :
      (k m now : Text) (s : Service)
      → Others i k
      → get_agent_run i (fail_with k m now s).runs ≡ get_agent_run i s.runs
  unfolding fail_with
  fail_with-Others k m now s other =
      get_agent_run-update k (fail m now) (λ x. (refl, refl)) other s.runs
