-- ===== src/Prelude/Lists.antt =====
-- Lists measured and indexed by native numbers, under the library's names.
use Prim.Native.Nat.{ℕ, zero, suc, ◌+◌, ◌-◌, ◌<◌, min}
use mathlib.Core.Path.{◌≡◌, refl, sym, ap, subst, ◌∙◌}
use mathlib.Core.Logic.{◌≢◌, ◌↔◌, ◌⊎◌, inl, inr}
use mathlib.Core.Bool.{Bool, true, false, ◌&&◌, ◌||◌}
use mathlib.Core.List.{List, [], ◌∷◌, ◌++◌, map}
use mathlib.Core.Option.{Option, none, some}
use native.Mathlib.Omega.{arith}
use diecast.Prelude.Tests.{if◌then◌else◌, Bool-cases, true-ne-false}

module _ {ℓ} {A : Type ℓ} where
  abbrev pub length : List A → ℕ
  length [] = 0
  length (x ∷ xs) = suc (length xs)

  abbrev pub get_elem? : List A → ℕ → Option A
  get_elem? [] i = none
  get_elem? (x ∷ xs) zero = some x
  get_elem? (x ∷ xs) (suc i) = get_elem? xs i

  -- A write out of bounds changes nothing.
  abbrev pub set : List A → ℕ → A → List A
  set [] i v = []
  set (x ∷ xs) zero v = v ∷ xs
  set (x ∷ xs) (suc i) v = x ∷ set xs i v

  pub length-append : (xs ys : List A) → length (xs ++ ys) ≡ length xs + length ys
  length-append [] ys = omega arith
  length-append (x ∷ xs) ys = omega (arith, length-append xs ys)

module _ {ℓ} {A : Type ℓ} where
  pub length-set : (xs : List A) (i : ℕ) (v : A) → length (set xs i v) ≡ length xs
  length-set [] i v = refl
  length-set (x ∷ xs) zero v = refl
  length-set (x ∷ xs) (suc i) v = ap suc (length-set xs i v)

  pub get_elem?-set_self :
      (xs : List A) (i : ℕ) (v : A) → i < length xs → get_elem? (set xs i v) i ≡ some v
  get_elem?-set_self [] i v h = elim h [ ]
  get_elem?-set_self (x ∷ xs) zero v h = refl
  get_elem?-set_self (x ∷ xs) (suc i) v h = get_elem?-set_self xs i v (omega arith)

  pub get_elem?-set_ne :
      (xs : List A) {i j : ℕ} (v : A) → i ≢ j → get_elem? (set xs i v) j ≡ get_elem? xs j
  get_elem?-set_ne [] v h = refl
  get_elem?-set_ne (x ∷ xs) {i = zero} {j = zero} v h = absurd (h refl)
  get_elem?-set_ne (x ∷ xs) {i = zero} {j = suc j} v h = refl
  get_elem?-set_ne (x ∷ xs) {i = suc i} {j = zero} v h = refl
  get_elem?-set_ne (x ∷ xs) {i = suc i} {j = suc j} v h = get_elem?-set_ne xs v (λ e. h (ap suc e))

module _ {ℓ} {A : Type ℓ} where
  abbrev pub get_or : List A → ℕ → A → A
  get_or [] i d = d
  get_or (x ∷ xs) zero d = x
  get_or (x ∷ xs) (suc i) d = get_or xs i d

  abbrev pub take : ℕ → List A → List A
  take zero xs = []
  take (suc n) [] = []
  take (suc n) (x ∷ xs) = x ∷ take n xs

  abbrev pub drop : ℕ → List A → List A
  drop zero xs = xs
  drop (suc n) [] = []
  drop (suc n) (x ∷ xs) = drop n xs

  abbrev pub replicate : ℕ → A → List A
  replicate zero a = []
  replicate (suc n) a = a ∷ replicate n a

  pub take-append-drop : (n : ℕ) (xs : List A) → take n xs ++ drop n xs ≡ xs
  take-append-drop zero xs = refl
  take-append-drop (suc n) [] = refl
  take-append-drop (suc n) (x ∷ xs) = rw (take-append-drop n xs)

  pub length-take : (n : ℕ) (xs : List A) → length (take n xs) ≡ min n (length xs)
  length-take zero xs = omega arith
  length-take (suc n) [] = omega arith
  length-take (suc n) (x ∷ xs) = omega (arith, length-take n xs)

  pub length-drop : (n : ℕ) (xs : List A) → length (drop n xs) ≡ length xs - n
  length-drop zero xs = omega arith
  length-drop (suc n) [] = omega arith
  length-drop (suc n) (x ∷ xs) = omega (arith, length-drop n xs)

  pub length-replicate : (n : ℕ) (a : A) → length (replicate n a) ≡ n
  length-replicate zero a = refl
  length-replicate (suc n) a = ap suc (length-replicate n a)

  pub length-map {κ} : {B : Type κ} (xs : List A) (f : A → B) → length (map f xs) ≡ length xs
  length-map [] f = refl
  length-map (x ∷ xs) f = ap suc (length-map xs f)

module _ {ℓ} {A : Type ℓ} where
  -- A list comprehension with a Boolean test.
  abbrev pub filter : (A → Bool) → List A → List A
  filter p [] = []
  filter p (x ∷ xs) = if p x then x ∷ filter p xs else filter p xs

  abbrev pub any : (A → Bool) → List A → Bool
  any p [] = false
  any p (x ∷ xs) = p x || any p xs

  abbrev pub all : (A → Bool) → List A → Bool
  all p [] = true
  all p (x ∷ xs) = p x && all p xs

  -- The predicates of a list and of its elements, by recursion.
  abbrev pub All {κ} : (A → Type κ) → List A → Type κ
  All P [] = Unit
  All P (x ∷ xs) = P x × All P xs

  pub All-append {κ} : (P : A → Type κ) (xs ys : List A) → All P xs → All P ys → All P (xs ++ ys)
  All-append P [] ys h k = k
  All-append P (x ∷ xs) ys h k = (h.0, All-append P xs ys h.1 k)

  pub All-map_lem {κ μ} :
      (P : A → Type κ) (Q : A → Type μ) (f : (a : A) → P a → Q a) (xs : List A)
      → All P xs
      → All Q xs
  All-map_lem P Q f [] h = tt
  All-map_lem P Q f (x ∷ xs) h = (f x h.0, All-map_lem P Q f xs h.1)

  pub filter-All : (p : A → Bool) (xs : List A) → All (λ a. p a ≡ true) (filter p xs)
  filter-All p [] = tt
  filter-All p (x ∷ xs) = elim (Bool-cases (p x)) [
    | inl e ↦ rw e (e, filter-All p xs)
    | inr e ↦ rw e (filter-All p xs)
  ]

  pub any-eq-false : (p : A → Bool) (xs : List A) → (any p xs ≡ false) ↔ All (λ x. p x ≡ false) xs
  any-eq-false p [] = ((λ h. tt), (λ h. refl))
  any-eq-false p (x ∷ xs) = elim (Bool-cases (p x)) [
    | inl e ↦ rw e ((λ h. cc), (λ h. cc))
    | inr e ↦ rw e ((λ h. (refl, (any-eq-false p xs).0 h)), (λ h. (any-eq-false p xs).1 h.1))
  ]

module _ {A : Type 0} where
  abbrev pub OneOf : A → List A → Type 0
  OneOf a [] = ⊥
  OneOf a (x ∷ xs) = (a ≡ x) ⊎ OneOf a xs

  pub All-OneOf {κ} : (P : A → Type κ) (a : A) (xs : List A) → All P xs → OneOf a xs → P a
  All-OneOf P a [] h m = elim m [ ]
  All-OneOf P a (x ∷ xs) h m = elim m [
    | inl e ↦ subst P (sym e) h.0
    | inr r ↦ All-OneOf P a xs h.1 r
  ]

  pub OneOf-filter :
      (p : A → Bool) (a : A) (xs : List A) → OneOf a (filter p xs) → OneOf a xs × (p a ≡ true)
  OneOf-filter p a [] m = elim m [ ]
  OneOf-filter p a (x ∷ xs) m = elim (Bool-cases (p x)) [
    | inl e ↦ elim (rw e at m) [
      | inl q ↦ (inl q, ap p q ∙ e)
      | inr r ↦ let h = OneOf-filter p a xs r in (inr h.0, h.1)
    ]
    | inr e ↦ let h = OneOf-filter p a xs (rw e at m) in (inr h.0, h.1)
  ]

  pub filter-OneOf :
      (p : A → Bool) (a : A) (xs : List A) → OneOf a xs → p a ≡ true → OneOf a (filter p xs)
  filter-OneOf p a [] m h = m
  filter-OneOf p a (x ∷ xs) m h = elim (Bool-cases (p x)) [
    | inl e ↦ elim m [ inl q ↦ rw e (inl q) | inr r ↦ rw e (inr (filter-OneOf p a xs r h)) ]
    | inr e ↦ elim m [
      | inl q ↦ absurd (true-ne-false (sym h ∙ ap p q ∙ e))
      | inr r ↦ rw e (filter-OneOf p a xs r h)
    ]
  ]

  pub OneOf-append_left : (a : A) (xs ys : List A) → OneOf a xs → OneOf a (xs ++ ys)
  OneOf-append_left a [] ys m = elim m [ ]
  OneOf-append_left a (x ∷ xs) ys m = elim m [
    | inl q ↦ inl q
    | inr r ↦ inr (OneOf-append_left a xs ys r)
  ]

  pub OneOf-append_right : (a : A) (xs ys : List A) → OneOf a ys → OneOf a (xs ++ ys)
  OneOf-append_right a [] ys m = m
  OneOf-append_right a (x ∷ xs) ys m = inr (OneOf-append_right a xs ys m)

  pub All-self : (xs : List A) → All (λ a. OneOf a xs) xs
  All-self [] = tt
  All-self (x ∷ xs) = (inl refl, All-map_lem _ _ (λ a m. inr m) xs (All-self xs))

  pub All-filter : (P : A → Type 0) (p : A → Bool) (xs : List A) → All P xs → All P (filter p xs)
  All-filter P p [] h = tt
  All-filter P p (x ∷ xs) h = elim (Bool-cases (p x)) [
    | inl e ↦ rw e (h.0, All-filter P p xs h.1)
    | inr e ↦ rw e (All-filter P p xs h.1)
  ]
