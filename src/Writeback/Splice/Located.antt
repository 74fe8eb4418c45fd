-- ===== src/Writeback/Splice/Located.antt =====
-- `str.find` and the lines around what it finds.
use diecast.Prelude.{
  ℕ, zero, suc, ◌+◌, ◌-◌, ◌≤◌, ◌≡◌, refl, sym, ◌∙◌, ap, true, false, Option, none, some, [], ◌∷◌,
  ◌++◌, Text, starts_with, find, length, take, drop, ◌==◌, ==_iff, arith, Bool-cases, inl, inr, All,
}
use mathlib.Core.List.{append_assoc}
use diecast.Writeback.Splice.{newline, after_last, end_from, shift, rfind_newline, enclosing}

pub starts_with-split : (t p : Text) → starts_with t p ≡ true → t ≡ p ++ drop (length p) t
starts_with-split t [] h = refl
starts_with-split [] (c ∷ p) h = ground arith
starts_with-split (d ∷ t) (c ∷ p) h = ground (arith, starts_with-split t p)

-- What is found is there, after the first `n` characters.
pub find-split :
    (t p : Text) (n : ℕ) → find t p ≡ some n → (starts_with (drop n t) p ≡ true) × (n ≤ length t)
unfolding find
find-split [] p zero h = ground arith
find-split [] p (suc n) h = ground arith
find-split (c ∷ t) p zero h = ground arith
find-split (c ∷ t) p (suc n) h = ground (arith, find-split t p n)

-- It is the first place.
pub find-least :
    (t p : Text) (m : ℕ)
    → starts_with (drop m t) p ≡ true
    → m ≤ length t
    → (n : ℕ) × (find t p ≡ some n) × (n ≤ m)
unfolding find
find-least [] p zero h k = (0, rw h, omega arith)
find-least [] p (suc m) h k = ground arith
find-least (c ∷ t) p zero h k = (0, rw h, omega arith)
find-least (c ∷ t) p (suc m) h k = elim (Bool-cases (starts_with (c ∷ t) p)) [
  | inl e ↦ (0, rw e, omega arith)
  | inr e ↦
      let (n, found, le) = find-least t p m h (omega arith) in (suc n, rw (e, found), omega arith)
]

pub take-append_len : (a b : Text) → take (length a) (a ++ b) ≡ a
take-append_len [] b = refl
take-append_len (c ∷ a) b = rw (take-append_len a b)

pub drop-append_len : (a b : Text) → drop (length a) (a ++ b) ≡ b
drop-append_len [] b = refl
drop-append_len (c ∷ a) b = drop-append_len a b

abbrev pub NoNewline : Text → Type 0
NoNewline t = All (λ c. (c == newline) ≡ false) t

abbrev pub EndsLine : Text → Type 0
EndsLine [] = Unit
EndsLine (c ∷ []) = c ≡ newline
EndsLine (c ∷ d ∷ t) = EndsLine (d ∷ t)

abbrev pub StartsLine : Text → Type 0
StartsLine [] = Unit
StartsLine (c ∷ t) = c ≡ newline

-- A text up to its last newline, and the rest
pub record LastLine (t : Text) (o : Option ℕ) : Type 0 where
  pub lines : Text
  pub line : Text
  pub parts : t ≡ lines ++ line
  pub at : after_last o ≡ length lines
  pub ended : EndsLine lines
  pub one_line : NoNewline line

LastLine-cons :
    (c : ℕ) (t : Text) (o : Option ℕ) (lines line : Text)
    → t ≡ lines ++ line
    → after_last o ≡ length lines
    → EndsLine lines
    → NoNewline line
    → LastLine (c ∷ t) (shift o c)
LastLine-cons c t none [] line e l h k = elim (Bool-cases (c == newline)) [
  | inl is_nl ↦ rw is_nl record {
    lines = c ∷ [];
    line = line;
    parts = rw e;
    at = refl;
    ended = (==_iff c newline).0 is_nl;
    one_line = k;
  }
  | inr not_nl ↦ rw not_nl record {
    lines = [];
    line = c ∷ line;
    parts = rw e;
    at = refl;
    ended = tt;
    one_line = (not_nl, k);
  }
]
LastLine-cons c t none (d ∷ lines) line e l h k = absurd (omega arith)
LastLine-cons c t (some n) [] line e l h k = absurd (omega arith)
LastLine-cons c t (some n) (d ∷ lines) line e l h k = record {
  lines = c ∷ d ∷ lines;
  line = line;
  parts = rw e;
  at = omega arith;
  ended = h;
  one_line = k;
}

pub rfind_newline-LastLine : (t : Text) → LastLine t (rfind_newline t)
unfolding rfind_newline
rfind_newline-LastLine [] = record {
  lines = [];
  line = [];
  parts = refl;
  at = refl;
  ended = tt;
  one_line = tt;
}
rfind_newline-LastLine (c ∷ t) =
    let r = rfind_newline-LastLine t in
    LastLine-cons c t (rfind_newline t) r.lines r.line r.parts r.at r.ended r.one_line

-- A text up to its first newline, and the rest
pub record FirstLine (t : Text) : Type 0 where
  pub line : Text
  pub rest : Text
  pub parts : t ≡ line ++ rest
  pub at :
      (start : ℕ) (content : Text)
      → length content ≡ start + length t
      → end_from content start (find t (newline ∷ [])) ≡ start + length line
  pub one_line : NoNewline line
  pub started : StartsLine rest

end_from-suc :
    (d : Text) (s : ℕ) (o : Option ℕ)
    → end_from d s (elim o [ none ↦ none | some n ↦ some (suc n) ]) ≡ end_from d (suc s) o
end_from-suc d s none = refl
end_from-suc d s (some n) = omega arith

pub find-FirstLine : (t : Text) → FirstLine t
unfolding find
find-FirstLine [] = record {
  line = [];
  rest = [];
  parts = refl;
  at = λ s c h. h;
  one_line = tt;
  started = tt;
}
find-FirstLine (c ∷ t) = elim (Bool-cases (c == newline)) [
  | inl e ↦ record {
    line = [];
    rest = c ∷ t;
    parts = refl;
    at = λ s d h. rw e refl;
    one_line = tt;
    started = (==_iff c newline).0 e;
  }
  | inr e ↦
      let r = find-FirstLine t in
      record {
        line = c ∷ r.line;
        rest = r.rest;
        parts = rw r.parts;
        at = λ s d h. rw e (
            end_from-suc d s (find t (newline ∷ []))
            ∙ r.at (suc s) d (omega (arith, h))
            ∙ omega arith);
        one_line = (e, r.one_line);
        started = r.started;
      }
]

pub length-append_text : (a b : Text) → length (a ++ b) ≡ length a + length b
length-append_text [] b = omega arith
length-append_text (c ∷ a) b = omega (arith, length-append_text a b)

-- A slice between two lengths
slice :
    (a m z : Text) (n : ℕ)
    → n ≡ length a + length m
    → take (n - length a) (drop (length a) (a ++ (m ++ z))) ≡ m
slice a m z n h =
    let k : n - length a ≡ length m = omega arith in
    rw (drop-append_len a (m ++ z), k) (take-append_len m z)

pub drop-append_two : (p q s : Text) → drop (length p + length q) (p ++ (q ++ s)) ≡ s
drop-append_two p q s =
    rw (sym (length-append_text p q), sym (append_assoc p q s)) (drop-append_len (p ++ q) s)

regroup : (a b q c d : Text) → (a ++ b) ++ (q ++ (c ++ d)) ≡ a ++ ((b ++ q ++ c) ++ d)
regroup a b q c d = simp append_assoc

pub content-lines :
    (p q s : Text) (l : LastLine p (rfind_newline p)) (r : FirstLine s)
    → p ++ (q ++ s) ≡ l.lines ++ ((l.line ++ q ++ r.line) ++ r.rest)
content-lines p q s l r =
    ap (λ t. t ++ (q ++ s)) l.parts
    ∙ ap (λ t. (l.lines ++ l.line) ++ (q ++ t)) r.parts
    ∙ regroup l.lines l.line q r.line r.rest

pub enclosing-lines :
    (p q s : Text) (l : LastLine p (rfind_newline p)) (r : FirstLine s)
    → enclosing (p ++ (q ++ s)) (length p) (length q) ≡ l.line ++ q ++ r.line
unfolding enclosing
enclosing-lines p q s l r =
    let content = p ++ (q ++ s) in
    let size : length content ≡ (length p + length q) + length s =
      omega (arith, length-append_text p (q ++ s), length-append_text q s) in
    let stop : end_from content (length p + length q) (find s (newline ∷ []))
        ≡ length l.lines + length (l.line ++ q ++ r.line) =
      r.at _ content size
      ∙ omega (
        arith,
        length-append_text (l.line ++ q) r.line,
        length-append_text l.line q,
        length-append_text l.lines l.line,
        ap length l.parts,
      ) in
    rw (take-append_len p (q ++ s), drop-append_two p q s, stop, l.at, content-lines p q s l r)
      (slice l.lines (l.line ++ q ++ r.line) r.rest _ refl)
