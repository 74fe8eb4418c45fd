-- ===== src/Blocks/Matching/Counting.antt =====
-- How often a pass of `diff_blocks` takes a position.
use diecast.Prelude.{
  ◌&&◌, ℕ, suc, ◌+◌, ◌≤◌, ◌≡◌, refl, ap, Bool, Option, none, some, List, [], ◌∷◌, ◌++◌, ◌==◌,
  if◌then◌else◌, arith, Bool-cases, some-inj, none-ne-some, inl, inr, length, ltb, leb,
}
use mathlib.Core.Path.{subst}
use diecast.Blocks.Matching.{
  Indexed, enumerate_from, unused, count, positions, Buckets, push, pop, pop_from, keep, index,
  take_all, is_taken, match_all, lefts, rights,
}

pub count-append : (i : ℕ) (xs ys : List ℕ) → count i (xs ++ ys) ≡ count i xs + count i ys
count-append i [] ys = omega arith
count-append i (x ∷ xs) ys = omega (arith, count-append i xs ys)

positions-append :
    {A : Type 0} (xs ys : List (Indexed A)) → positions (xs ++ ys) ≡ positions xs ++ positions ys
positions-append [] ys = refl
positions-append (x ∷ xs) ys = ap (λ t. x.0 ∷ t) (positions-append xs ys)

module _ {A K : Type 0} (eq : K → K → Bool) (key : A → K) where
  -- The positions in the buckets.
  held : Buckets eq key → List ℕ
  held [] = []
  held (b ∷ bs) = positions b.1 ++ held bs

  count-push :
      (i : ℕ) (k : K) (e : Indexed A) (bs : Buckets eq key)
      → count i (held (push eq key k e bs)) ≡ (if i == e.0 then 1 else 0) + count i (held bs)
  unfolding push held
  count-push i k e [] = omega arith
  count-push i k e ((j, q) ∷ bs) = elim (Bool-cases (eq k j)) [
    | inl h ↦ rw h (
        omega (
          arith,
          count-append i (positions (q ++ e ∷ [])) (held bs),
          ap (count i) (positions-append q (e ∷ [])),
          count-append i (positions q) (e.0 ∷ []),
          count-append i (positions q) (held bs),
        ))
    | inr h ↦ rw h (
        omega (
          arith,
          count-append i (positions q) (held (push eq key k e bs)),
          count-append i (positions q) (held bs),
          count-push i k e bs,
        ))
  ]

  count-index :
      (i : ℕ) (es : List (Indexed A)) (bs : Buckets eq key)
      → count i (held (index eq key es bs)) ≡ count i (positions es) + count i (held bs)
  unfolding index
  count-index i [] bs = omega arith
  count-index i (e ∷ es) bs =
      omega (arith, count-index i es (push eq key (key e.1) e bs), count-push i (key e.1) e bs)

  count-pop_from :
      (i : ℕ) (j : K) (q : List (Indexed A)) (bs bs' : Buckets eq key) (e : Indexed A)
      → pop_from eq key j q bs ≡ some (e, bs')
      → count i (positions q ++ held bs) ≡ (if i == e.0 then 1 else 0) + count i (held bs')
  unfolding held
  count-pop_from i j [] bs bs' e h = absurd (none-ne-some h)
  count-pop_from i j (x ∷ q) bs bs' e h =
      let p : (x, (j, q) ∷ bs) ≡ (e, bs') = some-inj h in
      subst
        (λ r.
          count i (positions (x ∷ q) ++ held bs)
          ≡ (if i == r.0.0 then 1 else 0) + count i (held r.1))
        p refl

  count-keep :
      (i : ℕ) (j : K) (q : List (Indexed A)) (bs bs' : Buckets eq key) (e : Indexed A)
      (r : Option (Indexed A × Buckets eq key))
      → ((c : Indexed A) (cs : Buckets eq key)
          → r ≡ some (c, cs)
          → count i (held bs) ≡ (if i == c.0 then 1 else 0) + count i (held cs))
      → keep eq key (j, q) r ≡ some (e, bs')
      → count i (positions q ++ held bs) ≡ (if i == e.0 then 1 else 0) + count i (held bs')
  unfolding held
  count-keep i j q bs bs' e none ih h = absurd (none-ne-some h)
  count-keep i j q bs bs' e (some (c, cs)) ih h =
      let p : (c, (j, q) ∷ cs) ≡ (e, bs') = some-inj h in
      subst
        (λ r. count i (positions q ++ held bs) ≡ (if i == r.0.0 then 1 else 0) + count i (held r.1))
        p
        (omega (
          arith,
          ih c cs refl,
          count-append i (positions q) (held bs),
          count-append i (positions q) (held cs),
        ))

  pop_nil : (k : K) (bs' : Buckets eq key) (e : Indexed A) → pop eq key k [] ≡ some (e, bs') → ⊥
  unfolding pop
  pop_nil k bs' e h = cc

  count-pop :
      (i : ℕ) (k : K) (bs bs' : Buckets eq key) (e : Indexed A)
      → pop eq key k bs ≡ some (e, bs')
      → count i (held bs) ≡ (if i == e.0 then 1 else 0) + count i (held bs')
  unfolding held pop
  count-pop i k [] bs' e h = absurd (pop_nil k bs' e h)
  count-pop i k ((j, q) ∷ bs) bs' e h = elim (Bool-cases (eq k j)) [
    | inl t ↦ count-pop_from i j q bs bs' e (rw (t, pop) at h)
    | inr f ↦
        count-keep i j q bs bs' e (pop eq key k bs) (λ c cs. count-pop i k bs cs c)
          (rw (f, pop) at h)
  ]

  -- The old positions of the pairs were held, as often.
  count-take_all_left :
      (i : ℕ) (bs : Buckets eq key) (ns : List (Indexed A))
      → count i (lefts (take_all eq key bs ns)) ≤ count i (held bs)
  unfolding take_all
  count-take_all_left i bs [] = omega arith
  count-take_all_left i bs (n ∷ ns) =
      go (pop eq key (key n.1) bs) refl (λ bs'. count-take_all_left i bs' ns)
    where
      go :
          (r : Option (Indexed A × Buckets eq key))
          → pop eq key (key n.1) bs ≡ r
          → ((bs' : Buckets eq key) → count i (lefts (take_all eq key bs' ns)) ≤ count i (held bs'))
          → count i (
              lefts (elim r [
                | none ↦ take_all eq key bs ns
                | some (o, bs') ↦ (o, n) ∷ take_all eq key bs' ns
              ]))
            ≤ count i (held bs)
      go none h rest = rest bs
      go (some (o, bs')) h rest = omega (arith, rest bs', count-pop i (key n.1) bs bs' o h)

  -- The new positions of the pairs are among the new ones, at most as often.
  count-take_all_right :
      (i : ℕ) (bs : Buckets eq key) (ns : List (Indexed A))
      → count i (rights (take_all eq key bs ns)) ≤ count i (positions ns)
  unfolding take_all
  count-take_all_right i bs [] = omega arith
  count-take_all_right i bs (n ∷ ns) =
      go (pop eq key (key n.1) bs) (λ bs'. count-take_all_right i bs' ns)
    where
      go :
          (r : Option (Indexed A × Buckets eq key))
          → ((bs' : Buckets eq key)
              → count i (rights (take_all eq key bs' ns)) ≤ count i (positions ns))
          → count i (
              rights (elim r [
                | none ↦ take_all eq key bs ns
                | some (o, bs') ↦ (o, n) ∷ take_all eq key bs' ns
              ]))
            ≤ count i (positions (n ∷ ns))
      go none rest = omega (arith, rest bs)
      go (some (o, bs')) rest = omega (arith, rest bs')

  count-indexed :
      (i : ℕ) (os : List (Indexed A)) → count i (held (index eq key os [])) ≡ count i (positions os)
  unfolding held
  count-indexed i os = omega (arith, count-index i os [])

  pub count-match_all_left :
      (i : ℕ) (os ns : List (Indexed A))
      → count i (lefts (match_all eq key os ns)) ≤ count i (positions os)
  unfolding match_all
  count-match_all_left i os ns =
      omega (arith, count-take_all_left i (index eq key os []) ns, count-indexed i os)

  pub count-match_all_right :
      (i : ℕ) (os ns : List (Indexed A))
      → count i (rights (match_all eq key os ns)) ≤ count i (positions ns)
  unfolding match_all
  count-match_all_right i os ns = count-take_all_right i (index eq key os []) ns

pub is_taken-count : (i : ℕ) (taken : List ℕ) → is_taken taken i ≡ ltb 0 (count i taken)
unfolding is_taken
is_taken-count i [] = refl
is_taken-count i (j ∷ js) = ground (arith, is_taken-count i js)

module _ {A : Type 0} where
  -- A position is left exactly when it is not taken.
  pub count-unused :
      (i : ℕ) (taken : List ℕ) (es : List (Indexed A))
      → count i (positions (unused taken es))
        ≡ (if ltb 0 (count i taken) then 0 else count i (positions es))
  count-unused i taken [] = ground arith
  count-unused i taken (e ∷ es) =
      ground (arith, count-unused i taken es, is_taken-count i taken, is_taken-count e.0 taken)

  pub count-enumerate_from :
      (i n : ℕ) (xs : List A)
      → count i (positions (enumerate_from n xs))
        ≡ (if leb n i && ltb i (n + length xs) then 1 else 0)
  count-enumerate_from i n [] = ground arith
  count-enumerate_from i n (x ∷ xs) = ground (arith, count-enumerate_from i (suc n) xs)
