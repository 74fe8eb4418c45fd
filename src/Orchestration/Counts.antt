-- ===== src/Orchestration/Counts.antt =====
-- How often a name occurs in a list (services/orchestration_service.py): the ids of the phases, the
-- keys of the dicts over them, and lists that hold no name more often than another.
use diecast.Prelude.{
  text_eq_swap, same_image, ℕ, suc, ◌+◌, ◌≤◌, ◌≡◌, refl, sym, ◌∙◌, ap, none-ne-some, some-inj, Bool,
  true, false, not, Option, none, some, List, [], ◌∷◌, ◌++◌, Text, text_eq, text_eq_refl, length,
  filter, if◌then◌else◌, arith, ◌==◌,
}
use diecast.Orchestration.{Phase, is_in, count, keys, ids, by_id, or_else}

-- 1 where the names are the same.
abbrev pub hit : Text → Text → ℕ
hit x i = if text_eq x i then 1 else 0

pub count-append : (i : Text) (xs ys : List Text) → count i (xs ++ ys) ≡ count i xs + count i ys
count-append i [] ys = ground arith
count-append i (x ∷ xs) ys = ground (arith, count-append i xs ys)

pub count-ids_append :
    (i : Text) (ps qs : List Phase) → count i (ids (ps ++ qs)) ≡ count i (ids ps) + count i (ids qs)
count-ids_append i [] qs = ground arith
count-ids_append i (p ∷ ps) qs = ground (arith, count-ids_append i ps qs)

-- A name is in a list as often as it occurs, at least once or not at all.
pub is_in-count : (i : Text) (xs : List Text) → is_in i xs ≡ not (count i xs == 0)
is_in-count i [] = refl
is_in-count i (x ∷ xs) = ground (arith, is_in-count i xs)

pub count-filter :
    (f : Text → Bool) (i : Text) (xs : List Text)
    → count i (filter f xs) ≡ (if f i then count i xs else 0)
count-filter f i [] = ground arith
count-filter f i (x ∷ xs) = ground (arith, count-filter f i xs, same_image f x i)

pub count-keys :
    (i : Text) (ps : List Phase) → count i (keys ps) ≡ (if is_in i (ids ps) then 1 else 0)
unfolding keys
count-keys i [] = refl
count-keys i (p ∷ ps) = ground (
  arith,
  count-filter (λ j. not (text_eq j p.id)) i (keys ps),
  count-keys i ps,
  text_eq_swap p.id i,
)

length-filter : (f : Text → Bool) (xs : List Text) → length (filter f xs) ≤ length xs
length-filter f [] = ground arith
length-filter f (x ∷ xs) = ground (arith, length-filter f xs)

pub length-keys : (ps : List Phase) → length (keys ps) ≤ length ps
unfolding keys
length-keys [] = ground arith
length-keys (p ∷ ps) =
    ground (arith, length-filter (λ j. not (text_eq j p.id)) (keys ps), length-keys ps)

-- The list without the first occurrence of the name.
abbrev removed : Text → List Text → List Text
removed v [] = []
removed v (x ∷ xs) = let rest = removed v xs in if text_eq x v then xs else x ∷ rest

count-removed :
    (v i : Text) (xs : List Text) → 1 ≤ count v xs → count i xs ≡ hit v i + count i (removed v xs)
count-removed v i [] h = ground arith
count-removed v i (x ∷ xs) h =
    ground (arith, count-removed v i xs, same_image (λ j. text_eq j i) x v)

length-removed :
    (v : Text) (xs : List Text) → 1 ≤ count v xs → length xs ≡ suc (length (removed v xs))
length-removed v [] h = ground arith
length-removed v (x ∷ xs) h = ground (arith, length-removed v xs)

-- No name is more often in the first list than in the second.
pub length-Within :
    (vs xs : List Text) → ((i : Text) → count i vs ≤ count i xs) → length vs ≤ length xs
length-Within [] xs h = ground arith
length-Within (v ∷ vs) xs h =
    let there : 1 ≤ count v xs = ground (arith, h v, text_eq_refl v) in
    ground (
      arith,
      length-removed v xs there,
      length-Within vs (removed v xs) (λ i. ground (arith, h i, count-removed v i xs there)),
    )

-- Then a second list that is no longer has no name more often either.
pub count-Within :
    (vs xs : List Text)
    → ((i : Text) → count i vs ≤ count i xs)
    → length xs ≤ length vs
    → (i : Text) → count i xs ≤ count i vs
count-Within [] [] h l i = ground arith
count-Within [] (x ∷ xs) h l i = ground arith
count-Within (v ∷ vs) xs h l i =
    let there : 1 ≤ count v xs = ground (arith, h v, text_eq_refl v) in
    ground (
      arith,
      count-removed v i xs there,
      count-Within vs (removed v xs) (λ j. ground (arith, h j, count-removed v j xs there))
          (ground (arith, length-removed v xs there)) i,
    )

-- The last phase of a list is found under its own id alone.
pub or_else-none :
    (q p : Phase) (i : Text) → or_else none q i ≡ some p → (text_eq q.id i ≡ true) × (q ≡ p)
or_else-none q p i = go (text_eq q.id i) refl
  where
    go :
        (b : Bool)
        → text_eq q.id i ≡ b
        → (if b then some q else none) ≡ some p
        → (text_eq q.id i ≡ true) × (q ≡ p)
    go true e h = (e, some-inj h)
    go false e h = absurd (none-ne-some h)

-- A phase found under an id has it.
pub by_id-id :
    (i : Text) (ps : List Phase) (p : Phase) → by_id i ps ≡ some p → text_eq p.id i ≡ true
unfolding by_id
by_id-id i [] p h = absurd (none-ne-some h)
by_id-id i (q ∷ ps) p h = go (by_id i ps) (by_id-id i ps p) h
  where
    go :
        (o : Option Phase)
        → (o ≡ some p → text_eq p.id i ≡ true)
        → or_else o q i ≡ some p
        → text_eq p.id i ≡ true
    go (some r) found h = found h
    go none found h =
        let (e, same) = or_else-none q p i h in ap (λ (r : Phase). text_eq r.id i) (sym same) ∙ e

pub by_id-none : (i : Text) (ps : List Phase) → is_in i (ids ps) ≡ false → by_id i ps ≡ none
unfolding by_id
by_id-none i [] h = refl
by_id-none i (q ∷ ps) h = rw (by_id-none i ps (ground (arith, h))) (ground (arith, h))
