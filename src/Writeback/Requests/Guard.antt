-- ===== src/Writeback/Requests/Guard.antt =====
-- The guard `_verify_surgical` of services/change_request_service.py on what the two splices make.
use diecast.Prelude.{
  if◌then◌else◌, starts_with-append, ℕ, zero, suc, ◌+◌, ◌-◌, ◌≤◌, ◌≡◌, refl, sym, ◌∙◌, ap, true,
  false, ◌&&◌, Option, none, some, List, [], ◌∷◌, ◌++◌, Text, text_eq, starts_with, find, ends_with,
  length, length-take, take, drop, take-append-drop, ◌==◌, arith, Bool-cases, split_on, inl, inr,
}
use Prim.Native.Nat.{min}
use mathlib.Core.List.{reverse, reverse_aux, append_assoc, append-nil}
use diecast.Writeback.Splice.{
  find_line, is_named, newline, apply_addition, apply_modification, replaced, append_tail,
  insert_after, insert_in_section, inserted, spliced_at, or_tail, strip_newlines,
}
use diecast.Writeback.Splice.Located.{length-append_text}
use diecast.Writeback.Requests.{
  Kind, is_addition, common_prefix_len, common_suffix_len, keeps_all, keeps_around, verify_surgical,
  before_region, after_region,
}

prefix-append :
    (x a b : Text) → common_prefix_len (x ++ a) (x ++ b) ≡ length x + common_prefix_len a b
unfolding common_prefix_len
prefix-append [] a b = omega arith
prefix-append (c ∷ x) a b =
    let e : (c == c) ≡ true = ground arith in rw (e, prefix-append x a b) (omega arith)

prefix_le : (a b : Text) → common_prefix_len a b ≤ length a
unfolding common_prefix_len
prefix_le [] b = omega arith
prefix_le (c ∷ a) [] = omega arith
prefix_le (c ∷ a) (d ∷ b) = ground (arith, prefix_le a b)

prefix_self : (a : Text) → common_prefix_len a a ≡ length a
unfolding common_prefix_len
prefix_self [] = refl
prefix_self (c ∷ a) = ground (arith, prefix_self a)

take-append_le : (n : ℕ) (a b : Text) → n ≤ length a → take n (a ++ b) ≡ take n a
take-append_le zero a b h = refl
take-append_le (suc n) [] b h = absurd (omega arith)
take-append_le (suc n) (c ∷ a) b h = rw (take-append_le n a b (omega arith))

length-reverse_aux : (a b : Text) → length (reverse_aux a b) ≡ length a + length b
length-reverse_aux [] b = omega arith
length-reverse_aux (c ∷ a) b = omega (arith, length-reverse_aux a (c ∷ b))

reverse_aux-acc : (a b : Text) → reverse_aux a b ≡ reverse_aux a [] ++ b
reverse_aux-acc [] b = refl
reverse_aux-acc (c ∷ a) b =
    reverse_aux-acc a (c ∷ b)
    ∙ sym (append_assoc (reverse_aux a []) (c ∷ []) b)
    ∙ ap (λ t. t ++ b) (sym (reverse_aux-acc a (c ∷ [])))

reverse_aux-append : (a b acc : Text) → reverse_aux (a ++ b) acc ≡ reverse_aux b (reverse_aux a acc)
reverse_aux-append [] b acc = refl
reverse_aux-append (c ∷ a) b acc = reverse_aux-append a b (c ∷ acc)

reverse-append_text : (a b : Text) → reverse (a ++ b) ≡ reverse b ++ reverse a
reverse-append_text a b = reverse_aux-append a b [] ∙ reverse_aux-acc b (reverse a)

ends_with-append : (a s : Text) → ends_with (a ++ s) s ≡ true
unfolding ends_with
ends_with-append a s =
    ap (λ t. starts_with t (reverse s)) (reverse-append_text a s)
    ∙ starts_with-append (reverse s) (reverse a)

-- Where the last `n` characters of two texts are of one end of both, they agree.
suffix-of_end :
    (n : ℕ) (a b y : Text)
    → n ≤ length y
    → common_prefix_len (take n (reverse (a ++ y))) (take n (reverse (b ++ y))) ≡ n
suffix-of_end n a b y h =
    let k : n ≤ length (reverse y) = omega (arith, length-reverse_aux y []) in
    let same : (t : Text) → take n (reverse (t ++ y)) ≡ take n (reverse y) =
      λ t. ap (take n) (reverse-append_text t y) ∙ take-append_le n (reverse y) (reverse t) k in
    ap (λ t. common_prefix_len t (take n (reverse (b ++ y)))) (same a)
    ∙ ap (common_prefix_len (take n (reverse y))) (same b)
    ∙ prefix_self (take n (reverse y))
    ∙ omega (arith, length-take n (reverse y))

-- An insertion removes nothing.
keeps_all-insertion : (x ins y : Text) → keeps_all (x ++ y) (x ++ (ins ++ y)) ≡ true
unfolding keeps_all common_suffix_len
keeps_all-insertion x ins y =
    let old = x ++ y in
    let new = x ++ (ins ++ y) in
    let p = common_prefix_len old new in
    let n = min (length old) (length new) - p in
    let at : p ≡ length x + common_prefix_len y (ins ++ y) = prefix-append x y (ins ++ y) in
    let n_le : n ≤ length y = omega (arith, at, length-append_text x y) in
    let whole : new ≡ (x ++ ins) ++ y = sym (append_assoc x ins y) in
    let s : common_prefix_len (take n (reverse old)) (take n (reverse new)) ≡ n =
      ap (λ t. common_prefix_len (take n (reverse old)) (take n (reverse t))) whole
      ∙ suffix-of_end n x (x ++ ins) y n_le in
    let none_left : length old - common_prefix_len (take n (reverse old)) (take n (reverse new)) - p
        ≡ 0 =
      omega (
        arith,
        s,
        at,
        length-append_text x y,
        length-append_text x (ins ++ y),
        length-append_text ins y,
      ) in
    ap (λ k. text_eq (take k (drop p old)) []) none_left

-- The new text is the old one with something inserted.
record Inserts (old new : Text) : Type 0 where
  before : Text
  insertion : Text
  after : Text
  old_parts : old ≡ before ++ after
  new_parts : new ≡ before ++ (insertion ++ after)

append_tail-Inserts : (content body : Text) → Inserts content (append_tail content body)
unfolding append_tail
append_tail-Inserts [] body = record {
  before = [];
  insertion = body ++ newline ∷ [];
  after = [];
  old_parts = refl;
  new_parts = simp append-nil;
}
append_tail-Inserts (c ∷ t) body = elim (Bool-cases (ends_with (c ∷ t) (newline ∷ []))) [
  | inl e ↦ rw e record {
    before = c ∷ t;
    insertion = body ++ newline ∷ [];
    after = [];
    old_parts = simp append-nil;
    new_parts = simp (append_assoc, append-nil);
  }
  | inr e ↦ rw e record {
    before = c ∷ t;
    insertion = newline ∷ body ++ newline ∷ [];
    after = [];
    old_parts = simp append-nil;
    new_parts = simp (append_assoc, append-nil);
  }
]

insert_after-Inserts : (content body : Text) (k : ℕ) → Inserts content (insert_after content k body)
insert_after-Inserts content body k = record {
  before = take k content;
  insertion = newline ∷ body;
  after = drop k content;
  old_parts = sym (take-append-drop k content);
  new_parts = append_assoc (take k content) (newline ∷ body) (drop k content);
}

inserted-Inserts :
    (content body : Text) (lines : List Text) (head : Option ℕ)
    → Inserts content (or_tail content body (inserted content body lines head))
unfolding inserted or_tail
inserted-Inserts content body lines none = append_tail-Inserts content body
inserted-Inserts content body lines (some n) = insert_after-Inserts content body _

spliced_at-Inserts :
    (content body : Text) (hint : Option Text)
    → Inserts content (or_tail content body (spliced_at hint content body))
unfolding spliced_at or_tail insert_in_section
spliced_at-Inserts content body none = append_tail-Inserts content body
spliced_at-Inserts content body (some []) = append_tail-Inserts content body
spliced_at-Inserts content body (some (c ∷ hint)) =
    inserted-Inserts content body (split_on newline content)
      (find_line (is_named (c ∷ hint)) (split_on newline content))

keeps_all-Inserts : (old new : Text) → Inserts old new → keeps_all old new ≡ true
keeps_all-Inserts old new i =
    ap (λ t. keeps_all t new) i.old_parts
    ∙ ap (keeps_all (i.before ++ i.after)) i.new_parts
    ∙ keeps_all-insertion i.before i.insertion i.after

-- The guard accepts every addition that `_apply_addition` makes: to a section, or at the end of the
-- file when there is no hint or no such section.
verify_surgical-apply_addition :
    (old body : Text) (hint : Option Text) (kind : Kind)
    → is_addition kind ≡ true
    → verify_surgical old (apply_addition old body hint) kind none ≡ true
unfolding verify_surgical apply_addition
verify_surgical-apply_addition old body hint kind h =
    rw h (keeps_all-Inserts old _ (spliced_at-Inserts old (strip_newlines body) hint))

around_by :
    (old region body : Text) (found : Option ℕ)
    → (starts_with (replaced old region body found) (before_region old region found)
        && ends_with (replaced old region body found) (after_region old region found))
      ≡ true
around_by old region body none =
    let a = take (length old - 1) old in
    let b = drop (length region - 1) old in
    let front : starts_with (a ++ body ++ b) a ≡ true =
      ap (λ t. starts_with t a) (append_assoc a body b) ∙ starts_with-append a (body ++ b) in
    rw (front, ends_with-append (a ++ body) b) refl
around_by old region body (some n) =
    let a = take n old in
    let b = drop (n + length region) old in
    let front : starts_with (a ++ body ++ b) a ≡ true =
      ap (λ t. starts_with t a) (append_assoc a body b) ∙ starts_with-append a (body ++ b) in
    rw (front, ends_with-append (a ++ body) b) refl

-- The guard accepts every modification that `_apply_modification` makes, of whatever region.
verify_surgical-apply_modification :
    (old region body : Text) (kind : Kind)
    → is_addition kind ≡ false
    → verify_surgical old (apply_modification old region body) kind (some region) ≡ true
unfolding verify_surgical keeps_around apply_modification
verify_surgical-apply_modification old region body kind h =
    rw h (around_by old region (strip_newlines body) (find old region))

-- The guard accepts every text that an apply makes: an addition to a section or at the end of the
-- file, and for the other kinds a modification, of whatever region.
pub verify_surgical-applied :
    (old region body : Text) (hint : Option Text) (kind : Kind)
    → verify_surgical old
        (if is_addition kind
          then apply_addition old body hint
          else apply_modification old region body)
        kind
        (if is_addition kind then none else some region)
      ≡ true
verify_surgical-applied old region body hint kind = elim (Bool-cases (is_addition kind)) [
  | inl e ↦ rw e (verify_surgical-apply_addition old body hint kind e)
  | inr e ↦ rw e (verify_surgical-apply_modification old region body kind e)
]
