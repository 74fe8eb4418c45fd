-- ===== src/Quality/Verdict/Gate.antt =====
-- The quality gate against its three conditions.
use diecast.Prelude.{
  ◌≡◌, refl, ◌↔◌, inl, inr, Bool, true, false, List, [], ◌∷◌, All, All-map_lem, Text, contains,
  lower, any-eq-false, arith, Bool-cases, filter,
}
use diecast.Quality.Verdict.{
  CheckerIssue, BaseVerdict, is_error, is_nil, error_issues, derive_pass, missing_names_gated_token,
}

-- What the documentation of the gate asks for.
pub record Passes {F : Type 0} (v : BaseVerdict F) (gated_tokens : List Text) : Type 0 where
  pub states_what : v.can_state_what ≡ true
  pub names_none :
      All (λ entry. All (λ token. contains (lower entry) token ≡ false) gated_tokens) v.missing
  pub no_error : All (λ i. is_error i ≡ false) v.issues

is_nil-filter :
    (p : CheckerIssue → Bool) (xs : List CheckerIssue)
    → (is_nil (filter p xs) ≡ true) ↔ All (λ x. p x ≡ false) xs
is_nil-filter p [] = ((λ h. tt), (λ h. refl))
is_nil-filter p (x ∷ xs) = elim (Bool-cases (p x)) [
  | inl e ↦ rw e ((λ h. cc), (λ h. cc))
  | inr e ↦ rw e ((λ h. (refl, (is_nil-filter p xs).0 h)), (λ h. (is_nil-filter p xs).1 h.1))
]

names_none_iff :
    (missing gated_tokens : List Text)
    → (missing_names_gated_token missing gated_tokens ≡ false)
      ↔ All (λ entry. All (λ token. contains (lower entry) token ≡ false) gated_tokens) missing
unfolding missing_names_gated_token
names_none_iff missing gated_tokens = (
  (λ h.
      All-map_lem _ _ (λ entry. (any-eq-false (contains (lower entry)) gated_tokens).0) missing
        ((any-eq-false _ missing).0 h)),
  (λ h. (any-eq-false _ missing).1 (
      All-map_lem _ _ (λ entry. (any-eq-false (contains (lower entry)) gated_tokens).1) missing h)),
)

module _ {F : Type 0} (v : BaseVerdict F) (gated_tokens : List Text) where
  derive_pass_parts :
      derive_pass v gated_tokens ≡ true
      → (v.can_state_what ≡ true)
        × (missing_names_gated_token v.missing gated_tokens ≡ false)
        × (is_nil (error_issues v) ≡ true)
  unfolding derive_pass
  derive_pass_parts h = ground arith

  -- The gate passes exactly when the verdict can state the WHAT, no entry of `missing` contains a
  -- gated token, and no issue is an error.
  derive_pass_iff : (derive_pass v gated_tokens ≡ true) ↔ Passes v gated_tokens
  unfolding derive_pass
  derive_pass_iff = (
    (λ h.
        let (s, m, e) = derive_pass_parts h in
        record {
          states_what = s;
          names_none = (names_none_iff v.missing gated_tokens).0 m;
          no_error = (is_nil-filter is_error v.issues).0 e;
        }),
    (λ p. rw (
      p.states_what,
      (names_none_iff v.missing gated_tokens).1 p.names_none,
      (is_nil-filter is_error v.issues).1 p.no_error,
    )),
  )
