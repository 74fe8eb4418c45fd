-- ===== src/Writeback/Splice/Modification.antt =====
-- `verbatim_locate` and `_apply_modification` of services/change_request_service.py, by the lines of
-- the file.
use diecast.Prelude.{
  starts_with-append, ℕ, ◌+◌, ◌≤◌, ◌≡◌, refl, sym, ◌∙◌, ap, true, Option, some, ◌++◌, Text,
  starts_with, find, length, take, drop, arith, Option-cases, inl, inr, some-inj, none-ne-some,
  take-append-drop, length-take,
}
use mathlib.Core.List.{append_assoc}
use mathlib.Core.Path.{subst}
use diecast.Writeback.Splice.{enclosing, verbatim_locate, apply_modification, strip_newlines}
use diecast.Writeback.Splice.Located.{
  starts_with-split, find-split, find-least, NoNewline, EndsLine, StartsLine,
  rfind_newline-LastLine, find-FirstLine, length-append_text, take-append_len, drop-append_len,
  drop-append_two, enclosing-lines, content-lines,
}

-- What the locator returns: the whole lines around the first place of the quote.
pub record Encloses (content target_quote region : Text) : Type 0 where
  pub before : Text
  pub left : Text
  pub right : Text
  pub after : Text
  pub parts : content ≡ before ++ region ++ after
  pub quoted : region ≡ left ++ target_quote ++ right
  pub line_starts : EndsLine before
  pub line_ends : StartsLine after
  pub one_line_left : NoNewline left
  pub one_line_right : NoNewline right
  pub first :
      (m : ℕ)
      → m ≤ length content
      → starts_with (drop m content) target_quote ≡ true
      → length before + length left ≤ m

find-parts :
    (t q : Text) (n : ℕ)
    → find t q ≡ some n
    → (p : Text) × (s : Text) × (t ≡ p ++ (q ++ s)) × (n ≡ length p)
find-parts t q n h =
    let (here, le) = find-split t q n h in
    (
      take n t,
      drop (length q) (drop n t),
      sym (take-append-drop n t) ∙ ap (λ r. take n t ++ r) (starts_with-split (drop n t) q here),
      omega (arith, length-take n t),
    )

parts-Encloses :
    (p q s : Text)
    → ((m : ℕ)
        → m ≤ length (p ++ (q ++ s))
        → starts_with (drop m (p ++ (q ++ s))) q ≡ true
        → length p ≤ m)
    → Encloses (p ++ (q ++ s)) q (enclosing (p ++ (q ++ s)) (length p) (length q))
parts-Encloses p q s least =
    let l = rfind_newline-LastLine p in
    let r = find-FirstLine s in
    rw (enclosing-lines p q s l r) record {
      before = l.lines;
      left = l.line;
      right = r.line;
      after = r.rest;
      parts = content-lines p q s l r ∙ sym (append_assoc l.lines (l.line ++ q ++ r.line) r.rest);
      quoted = refl;
      line_starts = l.ended;
      line_ends = r.started;
      one_line_left = l.one_line;
      one_line_right = r.one_line;
      first = λ m le h.
          omega (arith, least m le h, ap length l.parts, length-append_text l.lines l.line);
    }

located-Encloses :
    (content q region : Text) (n : ℕ)
    → find content q ≡ some n
    → enclosing content n (length q) ≡ region
    → Encloses content q region
located-Encloses content q region n found e =
    let (p, s, whole, at) = find-parts content q n found in
    let least : (m : ℕ)
        → m ≤ length content
        → starts_with (drop m content) q ≡ true
        → length p ≤ m =
      λ m le h.
        let (k, found', k_le) = find-least content q m h le in
        omega (arith, some-inj (sym found ∙ found'), at, k_le) in
    let at_parts = parts-Encloses p q s (
      subst (λ t. (m : ℕ) → m ≤ length t → starts_with (drop m t) q ≡ true → length p ≤ m) whole
        least) in
    let at_place =
      subst (λ k. Encloses (p ++ (q ++ s)) q (enclosing (p ++ (q ++ s)) k (length q))) (sym at)
        at_parts in
    let of_content = subst (λ t. Encloses t q (enclosing t n (length q))) (sym whole) at_place in
    subst (λ r. Encloses content q r) e of_content

-- A located region is whole lines of the file, around the first place of the quote.
verbatim_locate-Encloses :
    (content q : Text) (hint : Option Text) (region : Text)
    → verbatim_locate content (some q) hint ≡ some region
    → Encloses content q region
unfolding verbatim_locate
verbatim_locate-Encloses content q hint region h = elim (Option-cases (find content q)) [
  | inl e ↦ absurd (none-ne-some {a = region} (rw e at h))
  | inr (n, e) ↦ located-Encloses content q region n e (some-inj (rw e at h))
]

-- The file after a modification: the lines before and after the region, and the body between. The
-- quote is at no earlier place of the old file than the one in the region.
pub record Replaces (content target_quote body result : Text) : Type 0 where
  pub before : Text
  pub left : Text
  pub right : Text
  pub after : Text
  pub old_parts : content ≡ before ++ (left ++ target_quote ++ right) ++ after
  pub new_parts : result ≡ before ++ body ++ after
  pub line_starts : EndsLine before
  pub line_ends : StartsLine after
  pub one_line_left : NoNewline left
  pub one_line_right : NoNewline right
  pub first :
      (m : ℕ)
      → m ≤ length content
      → starts_with (drop m content) target_quote ≡ true
      → length before + length left ≤ m

parted :
    (content q region : Text) (r : Encloses content q region)
    → content ≡ r.before ++ (region ++ r.after)
parted content q region r = r.parts ∙ append_assoc r.before region r.after

-- A place of the region is a place of the quote, `left` characters on.
quote-in-region :
    (p left q right s : Text)
    → starts_with (drop (length p + length left) (p ++ ((left ++ q ++ right) ++ s))) q ≡ true
quote-in-region p left q right s =
    let regrouped : p ++ ((left ++ q ++ right) ++ s) ≡ (p ++ left) ++ (q ++ (right ++ s)) =
      simp append_assoc in
    rw (regrouped, sym (length-append_text p left), drop-append_len (p ++ left) (q ++ (right ++ s)))
      (starts_with-append q (right ++ s))

quote-at :
    (content p region s left q right : Text)
    → content ≡ p ++ (region ++ s)
    → region ≡ left ++ q ++ right
    → starts_with (drop (length p + length left) content) q ≡ true
quote-at content p region s left q right e k = rw (e, k) (quote-in-region p left q right s)

-- The region is found where the locator saw it: an earlier place of it would hold an earlier quote.
find-region :
    (content q region : Text) (r : Encloses content q region)
    → find content region ≡ some (length r.before)
find-region content q region r =
    let whole = parted content q region r in
    let there : starts_with (drop (length r.before) content) region ≡ true =
      rw (whole, drop-append_len r.before (region ++ r.after))
        (starts_with-append region r.after) in
    let (n, found, n_le) =
      find-least content region (length r.before) there
        (omega (arith, ap length whole, length-append_text r.before (region ++ r.after))) in
    let (p, s, whole', at) = find-parts content region n found in
    let again : starts_with (drop (length p + length r.left) content) q ≡ true =
      quote-at content p region s r.left q r.right whole' r.quoted in
    let le =
      r.first (length p + length r.left)
        (omega (
          arith,
          ap length whole',
          length-append_text p (region ++ s),
          length-append_text region s,
          ap length r.quoted,
          length-append_text (r.left ++ q) r.right,
          length-append_text r.left q,
        ))
        again in
    found ∙ ap some (omega (arith, le, n_le, at))

-- A modification of a located region keeps what is before and after the lines of the first place
-- of the quote, and puts the proposed body, without newlines at its ends, for those lines.
pub apply_modification-Replaces :
    (content q : Text) (hint : Option Text) (region proposed_body : Text)
    → verbatim_locate content (some q) hint ≡ some region
    → Replaces content q
        (strip_newlines proposed_body)
        (apply_modification content region proposed_body)
unfolding apply_modification
apply_modification-Replaces content q hint region proposed_body h =
    let r = verbatim_locate-Encloses content q hint region h in
    record {
      before = r.before;
      left = r.left;
      right = r.right;
      after = r.after;
      old_parts = r.parts ∙ ap (λ t. r.before ++ t ++ r.after) r.quoted;
      new_parts = rw (find-region content q region r) (
          ap
            (λ t.
              take (length r.before) t
              ++ strip_newlines proposed_body
              ++ drop (length r.before + length region) t)
            (parted content q region r)
          ∙ rw (
            take-append_len r.before (region ++ r.after),
            drop-append_two r.before region r.after,
          ));
      line_starts = r.line_starts;
      line_ends = r.line_ends;
      one_line_left = r.one_line_left;
      one_line_right = r.one_line_right;
      first = r.first;
    }
