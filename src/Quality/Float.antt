-- ===== src/Quality/Float.antt =====
-- Python floats as the scoring code uses them: the two weights, and the operations `*`, `-` and
-- `<=`. The laws are those of IEEE arithmetic with round-to-nearest on finite values, where every
-- operation is monotone; no exactness is assumed.
use diecast.Prelude.{
  ℕ, ◌≤◌, ◌≡◌, sym, ◌∙◌, ◌⊎◌, inl, inr, Bool, true, false, true-ne-false, arith, if◌then◌else◌,
}

pub record Floats (F : Type 0) : Type 0 where
  pub zero_float : F
  pub one_float : F
  pub minus_one : F
  pub error_weight : F
  pub warning_weight : F
  pub times : F → ℕ → F
  pub minus : F → F → F
  pub le : F → F → Bool
  pub le_refl : (a : F) → le a a ≡ true
  pub le_trans : (a b c : F) → le a b ≡ true → le b c ≡ true → le a c ≡ true
  pub le_total : (a b : F) → (le a b ≡ true) ⊎ (le b a ≡ true)
  pub times_mono_error : (m n : ℕ) → m ≤ n → le (times error_weight m) (times error_weight n) ≡ true
  pub times_mono_warning :
      (m n : ℕ) → m ≤ n → le (times warning_weight m) (times warning_weight n) ≡ true
  pub minus_mono_left : (a b c : F) → le a b ≡ true → le (minus a c) (minus b c) ≡ true
  pub minus_anti_right : (a b c : F) → le b c ≡ true → le (minus a c) (minus a b) ≡ true

-- `max(a, b)`: the first of two that compare equal.
unfoldable pub float_max : {F : Type 0} → Floats F → F → F → F
float_max o a b = if o.le b a then a else b

module _ {F : Type 0} (o : Floats F) where
  pub le_of_not_le : (a b : F) → o.le b a ≡ false → o.le a b ≡ true
  le_of_not_le a b h = elim (o.le_total a b) [
    | inl k ↦ k
    | inr k ↦ absurd (true-ne-false (sym k ∙ h))
  ]

  pub float_max-le : (a b c : F) → o.le b c ≡ true → o.le (float_max o a b) (float_max o a c) ≡ true
  unfolding float_max
  float_max-le a b c h =
      ground (arith, le_of_not_le a b, le_of_not_le a c, o.le_refl a, o.le_trans b c a)

  pub le-float_max_left : (a b : F) → o.le a (float_max o a b) ≡ true
  unfolding float_max
  le-float_max_left a b = ground (arith, le_of_not_le a b, o.le_refl a)
