-- ===== src/Writeback/Splice/Addition.antt =====
-- `_insert_in_section` of services/change_request_service.py, against an insertion into the list
-- of lines.
use diecast.Prelude.{
  ℕ, zero, suc, ◌+◌, ◌-◌, ◌≤◌, ◌<◌, ◌≡◌, refl, sym, ◌∙◌, ap, Bool, Option, none, some, List, [],
  ◌∷◌, ◌++◌, Text, split_on, join, length, length-take, length-drop, take, drop, arith, Bool-cases,
  Option-cases, inl, inr, some-inj, none-ne-some, ◌==◌, ==_iff,
}
use mathlib.Core.List.{append_assoc, append-nil}
use diecast.Writeback.Splice.Located.{take-append_len, drop-append_len, length-append_text}
use diecast.Writeback.Splice.{
  newline, insert_after, line_offset, insert_in_section, find_line, is_named, is_section, is_blank,
  strip, last_filled, last_line, section_end,
}

abbrev pub insert_line : ℕ → Text → List Text → List Text
insert_line k body ls = take (suc k) ls ++ body ∷ drop (suc k) ls

insert_after-append :
    (a b : Text) (n : ℕ) (body : Text)
    → insert_after (a ++ b) (length a + n) body ≡ a ++ insert_after b n body
insert_after-append [] b n body =
    let e : 0 + n ≡ n = omega arith in ap (λ m. insert_after b m body) e
insert_after-append (c ∷ a) b n body =
    let e : suc (length a) + n ≡ suc (length a + n) = omega arith in
    ap (λ m. insert_after (c ∷ (a ++ b)) m body) e
    ∙ ap (λ t. c ∷ t) (insert_after-append a b n body)

take-all : (a : Text) → take (length a) a ≡ a
take-all [] = refl
take-all (c ∷ a) = rw (take-all a)

drop-all : (a : Text) → drop (length a) a ≡ []
drop-all [] = refl
drop-all (c ∷ a) = drop-all a

insert_after-here :
    (a s b : Text) (body : Text)
    → insert_after (a ++ s ++ b) (length a) body ≡ a ++ (newline ∷ body ++ (s ++ b))
insert_after-here a s b body =
    rw (append_assoc a s b, take-append_len a (s ++ b), drop-append_len a (s ++ b))
      (simp append_assoc)

join-insert_line :
    (k : ℕ) (body : Text) (ls : List Text)
    → k < length ls
    → insert_after (join (newline ∷ []) ls) (line_offset k ls) body
      ≡ join (newline ∷ []) (insert_line k body ls)
unfolding join line_offset
join-insert_line k body [] h = absurd (omega arith)
join-insert_line zero body (l ∷ []) h =
    rw (take-all l, drop-all l) (simp (append_assoc, append-nil))
join-insert_line zero body (l ∷ m ∷ ls) h =
    insert_after-here l (newline ∷ []) (join (newline ∷ []) (m ∷ ls)) body ∙ simp append_assoc
join-insert_line (suc k) body (l ∷ []) h = absurd (omega arith)
join-insert_line (suc k) body (l ∷ m ∷ ls) h =
    let size : length l + 1 + line_offset k (m ∷ ls)
        ≡ length (l ++ newline ∷ []) + line_offset k (m ∷ ls) =
      omega (arith, length-append_text l (newline ∷ [])) in
    rw size (
      insert_after-append (l ++ newline ∷ []) (join (newline ∷ []) (m ∷ ls))
        (line_offset k (m ∷ ls)) body
      ∙ ap (λ t. l ++ newline ∷ [] ++ t) (join-insert_line k body (m ∷ ls) (omega arith)))

split_on-cons : (t : Text) → (l : Text) × (ls : List Text) × (split_on newline t ≡ l ∷ ls)
unfolding split_on
split_on-cons [] = ([], [], refl)
split_on-cons (c ∷ t) =
    let (l, ls, e) = split_on-cons t in
    elim (Bool-cases (c == newline)) [
      | inl is_nl ↦ ([], l ∷ ls, rw (is_nl, e))
      | inr not_nl ↦ (c ∷ l, ls, rw (not_nl, e))
    ]

join-cons :
    (c : ℕ) (l : Text) (ls : List Text)
    → join (newline ∷ []) ((c ∷ l) ∷ ls) ≡ c ∷ join (newline ∷ []) (l ∷ ls)
unfolding join
join-cons c l [] = refl
join-cons c l (m ∷ ls) = refl

join-split_on : (t : Text) → join (newline ∷ []) (split_on newline t) ≡ t
unfolding join split_on
join-split_on [] = refl
join-split_on (c ∷ t) =
    let (l, ls, e) = split_on-cons t in
    let whole : join (newline ∷ []) (l ∷ ls) ≡ t =
      ap (join (newline ∷ [])) (sym e) ∙ join-split_on t in
    elim (Bool-cases (c == newline)) [
      | inl is_nl ↦
          rw (is_nl, e)
            (ap (λ r. newline ∷ r) whole ∙ ap (λ d. d ∷ t) (sym ((==_iff c newline).0 is_nl)))
      | inr not_nl ↦ rw (not_nl, e) (join-cons c l ls ∙ ap (λ r. c ∷ r) whole)
    ]

last_filled-bounds :
    (last k : ℕ) (ls : List Text)
    → last < k
    → (last ≤ last_filled last k ls) × (last_filled last k ls < k + length ls)
unfolding last_filled
last_filled-bounds last k [] h = (omega arith, omega arith)
last_filled-bounds last k (l ∷ ls) h = elim (Bool-cases (is_blank (strip l))) [
  | inl e ↦
      let r = last_filled-bounds last (suc k) ls (omega arith) in rw e (r.0, omega (arith, r.1))
  | inr e ↦
      let r = last_filled-bounds k (suc k) ls (omega arith) in
      rw e (omega (arith, r.0), omega (arith, r.1))
]

find_line-bound :
    (p : Text → Bool) (ls : List Text) (n : ℕ) → find_line p ls ≡ some n → n < length ls
unfolding find_line
find_line-bound p [] n h = absurd (none-ne-some h)
find_line-bound p (l ∷ ls) zero h = omega arith
find_line-bound p (l ∷ ls) (suc n) h = ground (arith, find_line-bound p ls n)

-- Where a section's addition goes: after a line `last`, in the section that `head` opens.
pub record InSection (lines : List Text) (hint : Text) (head last : ℕ) : Type 0 where
  pub heading : find_line (is_named hint) lines ≡ some head
  pub from_heading : head ≤ last
  pub before_end : last < section_end head (find_line is_section (drop (suc head) lines)) lines
  pub in_file : last < length lines

section_end-bounds :
    (head : ℕ) (o : Option ℕ) (lines : List Text)
    → head < length lines
    → ((n : ℕ) → o ≡ some n → n < length (drop (suc head) lines))
    → (suc head ≤ section_end head o lines) × (section_end head o lines ≤ length lines)
section_end-bounds head none lines h k = (omega arith, omega arith)
section_end-bounds head (some n) lines h k =
    (omega arith, omega (arith, k n refl, length-drop (suc head) lines))

last_line-InSection :
    (lines : List Text) (hint : Text) (head : ℕ)
    → find_line (is_named hint) lines ≡ some head
    → InSection lines hint head (last_line head lines)
unfolding last_line
last_line-InSection lines hint head e =
    let rest = drop (suc head) lines in
    let next = find_line is_section rest in
    let (low, high) =
      section_end-bounds head next lines (find_line-bound _ lines head e)
        (find_line-bound is_section rest) in
    let block = take (section_end head next lines - suc head) rest in
    let (from, to) = last_filled-bounds head (suc head) block (omega arith) in
    let size = length-take (section_end head next lines - suc head) rest in
    record {
      heading = e;
      from_heading = from;
      before_end = omega (arith, to, size, low);
      in_file = omega (arith, to, size, low, high);
    }

-- An addition to a section that the file has inserts the body as one line of the file's list of
-- lines, after a line that is the section's heading or follows it before the next section; the
-- other lines stay as they are and in order.
pub insert_in_section-lines :
    (content hint body result : Text)
    → insert_in_section content hint body ≡ some result
    → (head last : ℕ) × InSection (split_on newline content) hint head last
      × (result ≡ join (newline ∷ []) (insert_line last body (split_on newline content)))
unfolding insert_in_section
insert_in_section-lines content hint body result h =
    let lines = split_on newline content in
    elim (Option-cases (find_line (is_named hint) lines)) [
      | inl e ↦ absurd (none-ne-some {a = result} (rw e at h))
      | inr (head, e) ↦
          let section = last_line-InSection lines hint head e in
          let spliced : insert_after content (line_offset (last_line head lines) lines) body
              ≡ result =
            some-inj (rw e at h) in
          (
            head,
            last_line head lines,
            section,
            sym spliced
                ∙ ap (λ t. insert_after t (line_offset (last_line head lines) lines) body)
                    (sym (join-split_on content))
                ∙ join-insert_line (last_line head lines) body lines section.in_file,
          )
    ]
