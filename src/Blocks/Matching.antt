-- ===== src/Blocks/Matching.antt =====
-- One pass of `diff_blocks`: the old blocks in a dict of queues by key, from which each new block
-- takes the first that is left under its own key.
pub mod Counting
pub mod Sound
use diecast.Prelude.{
  ℕ, zero, suc, ◌+◌, ◌≤◌, ◌≡◌, refl, sym, ◌∙◌, ap, Bool, true, false, not, Option, none, some, List,
  [], ◌∷◌, ◌++◌, map, any, filter, All, ◌==◌, ==_iff, if◌then◌else◌, arith, Bool-cases, inl, inr,
  ◌↔◌, length, ◌<◌, ltb, leb,
}

abbrev pub count : ℕ → List ℕ → ℕ
count i [] = 0
count i (j ∷ js) = (if i == j then 1 else 0) + count i js

-- A flag of `old_used` or `new_used`: the flags set are the positions taken.
unfoldable pub is_taken : List ℕ → ℕ → Bool
is_taken taken i = any (λ j. j == i) taken

-- An element with its position.
abbrev pub Indexed : Type 0 → Type 0
Indexed A = ℕ × A

module _ {A : Type 0} where
  abbrev pub enumerate_from : ℕ → List A → List (Indexed A)
  enumerate_from n [] = []
  enumerate_from n (x ∷ xs) = (n, x) ∷ enumerate_from (suc n) xs

  abbrev pub enumerate : List A → List (Indexed A)
  enumerate xs = enumerate_from 0 xs

  -- Those whose flag is not set.
  abbrev pub unused : List ℕ → List (Indexed A) → List (Indexed A)
  unused taken = filter (λ e. not (is_taken taken e.0))

  abbrev pub positions : List (Indexed A) → List ℕ
  positions [] = []
  positions (e ∷ es) = e.0 ∷ positions es

module _ {A K : Type 0} (eq : K → K → Bool) (key : A → K) where
  abbrev Buckets : Type 0
  Buckets = List (K × List (Indexed A))

  -- `buckets[k].append(e)` on a `defaultdict(deque)`
  pub push : K → Indexed A → Buckets → Buckets
  push k e [] = (k, e ∷ []) ∷ []
  push k e ((j, q) ∷ bs) = if eq k j then (j, q ++ e ∷ []) ∷ bs else (j, q) ∷ push k e bs

  abbrev keep : K × List (Indexed A) → Option (Indexed A × Buckets) → Option (Indexed A × Buckets)
  keep b none = none
  keep b (some (e, bs)) = some (e, b ∷ bs)

  abbrev pop_from : K → List (Indexed A) → Buckets → Option (Indexed A × Buckets)
  pop_from j [] bs = none
  pop_from j (e ∷ q) bs = some (e, (j, q) ∷ bs)

  -- `bucket = buckets.get(k)`, and `bucket.popleft()` where that is not empty
  pub pop : K → Buckets → Option (Indexed A × Buckets)
  pop k [] = none
  pop k ((j, q) ∷ bs) = if eq k j then pop_from j q bs else keep (j, q) (pop k bs)

  pub index : List (Indexed A) → Buckets → Buckets
  unfolding push
  index [] bs = bs
  index (e ∷ es) bs = index es (push (key e.1) e bs)

  -- The pairs of the pass, the old block first.
  pub take_all : Buckets → List (Indexed A) → List (Indexed A × Indexed A)
  unfolding pop
  take_all bs [] = []
  take_all bs (n ∷ ns) = elim (pop (key n.1) bs) [
    | none ↦ take_all bs ns
    | some (o, bs') ↦ (o, n) ∷ take_all bs' ns
  ]

  unfoldable pub match_all : List (Indexed A) → List (Indexed A) → List (Indexed A × Indexed A)
  unfolding index take_all
  match_all old new = take_all (index old []) new

abbrev pub lefts : {A : Type 0} → List (Indexed A × Indexed A) → List ℕ
lefts [] = []
lefts (p ∷ ps) = p.0.0 ∷ lefts ps

abbrev pub rights : {A : Type 0} → List (Indexed A × Indexed A) → List ℕ
rights [] = []
rights (p ∷ ps) = p.1.0 ∷ rights ps
