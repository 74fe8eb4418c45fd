-- ===== src/Blocks/Matching/Sound.antt =====
-- The two sides of the pairs that a pass of `diff_blocks` makes.
use diecast.Prelude.{
  ◌≡◌, refl, sym, ◌∙◌, Bool, true, Option, none, some, List, [], ◌∷◌, All, All-append, Bool-cases,
  inl, inr,
}
use diecast.Blocks.Matching.{
  Indexed, Buckets, push, pop, pop_from, keep, index, take_all, match_all,
}

module _ {A K : Type 0} (eq : K → K → Bool) (key : A → K)
    (sound : (j k : K) → eq j k ≡ true → j ≡ k) where
  -- Every block in the buckets stands under its own key and satisfies `P`.
  abbrev Filed : (Indexed A → Type 0) → Buckets eq key → Type 0
  Filed P = All (λ b. All (λ e. (key e.1 ≡ b.0) × P e) b.1)

  module _ (P : Indexed A → Type 0) where
    push-Filed :
        (e : Indexed A) (bs : Buckets eq key)
        → P e
        → Filed P bs
        → Filed P (push eq key (key e.1) e bs)
    unfolding push
    push-Filed e [] p h = (((refl, p), tt), tt)
    push-Filed e ((j, q) ∷ bs) p h = elim (Bool-cases (eq (key e.1) j)) [
      | inl t ↦ rw t (All-append _ q (e ∷ []) h.0 ((sound (key e.1) j t, p), tt), h.1)
      | inr f ↦ rw f (h.0, push-Filed e bs p h.1)
    ]

    index-Filed :
        (es : List (Indexed A)) (bs : Buckets eq key)
        → All P es
        → Filed P bs
        → Filed P (index eq key es bs)
    unfolding index
    index-Filed [] bs p h = h
    index-Filed (e ∷ es) bs p h =
        index-Filed es (push eq key (key e.1) e bs) p.1 (push-Filed e bs p.0 h)

    abbrev Popped : K → Option (Indexed A × Buckets eq key) → Type 0
    Popped k none = Unit
    Popped k (some (e, bs)) = (key e.1 ≡ k) × P e × Filed P bs

    pop_from-Popped :
        (k j : K) (q : List (Indexed A)) (bs : Buckets eq key)
        → k ≡ j
        → Filed P ((j, q) ∷ bs)
        → Popped k (pop_from eq key j q bs)
    pop_from-Popped k j [] bs e h = tt
    pop_from-Popped k j (x ∷ q) bs e h = (h.0.0.0 ∙ sym e, h.0.0.1, (h.0.1, h.1))

    keep-Popped :
        (k j : K) (q : List (Indexed A)) (r : Option (Indexed A × Buckets eq key))
        → All (λ e. (key e.1 ≡ j) × P e) q
        → Popped k r
        → Popped k (keep eq key (j, q) r)
    keep-Popped k j q none h p = tt
    keep-Popped k j q (some (e, bs)) h p = (p.0, p.1, (h, p.2))

    pop-Popped : (k : K) (bs : Buckets eq key) → Filed P bs → Popped k (pop eq key k bs)
    unfolding pop
    pop-Popped k [] h = tt
    pop-Popped k ((j, q) ∷ bs) h = elim (Bool-cases (eq k j)) [
      | inl t ↦ rw t (pop_from-Popped k j q bs (sound k j t) h)
      | inr f ↦ rw f (keep-Popped k j q (pop eq key k bs) h.0 (pop-Popped k bs h.1))
    ]

    abbrev Paired : (Indexed A → Type 0) → Indexed A × Indexed A → Type 0
    Paired Q p = (key p.0.1 ≡ key p.1.1) × P p.0 × Q p.1

    take_all-Paired :
        (Q : Indexed A → Type 0) (bs : Buckets eq key) (ns : List (Indexed A))
        → Filed P bs
        → All Q ns
        → All (Paired Q) (take_all eq key bs ns)
    unfolding take_all
    take_all-Paired Q bs [] h q = tt
    take_all-Paired Q bs (n ∷ ns) h q =
        go (pop eq key (key n.1) bs) (pop-Popped (key n.1) bs h)
          (λ bs' h'. take_all-Paired Q bs' ns h' q.1)
      where
        go :
            (r : Option (Indexed A × Buckets eq key))
            → Popped (key n.1) r
            → ((bs' : Buckets eq key) → Filed P bs' → All (Paired Q) (take_all eq key bs' ns))
            → All (Paired Q) (elim r [
              | none ↦ take_all eq key bs ns
              | some (o, bs') ↦ (o, n) ∷ take_all eq key bs' ns
            ])
        go none p rest = rest bs h
        go (some (o, bs')) p rest = ((p.0, p.1, q.0), rest bs' p.2)

  -- Each pair of a pass joins an old block and a new block that have one key.
  pub match_all-Paired :
      (P Q : Indexed A → Type 0) (os ns : List (Indexed A))
      → All P os
      → All Q ns
      → All (λ p. (key p.0.1 ≡ key p.1.1) × P p.0 × Q p.1) (match_all eq key os ns)
  unfolding match_all
  match_all-Paired P Q os ns p q =
      take_all-Paired P Q (index eq key os []) ns (index-Filed P os [] p tt) q
