-- ===== src/Writeback/Splice.antt =====
-- services/change_request_service.py, the surgical splice: the locator `verbatim_locate`, and the two
-- ways `_apply_addition` and `_apply_modification` edit a requirements file.
pub mod Addition
pub mod Located
pub mod Modification
use diecast.Prelude.{
  ℕ, zero, suc, ◌+◌, ◌-◌, ◌≡◌, Bool, true, false, not, ◌&&◌, Option, none, some, List, [], ◌∷◌,
  ◌++◌, Text, codes, text_eq, starts_with, is_space, strip_chars, split_on, find, ends_with, length,
  take, drop, ◌==◌, if◌then◌else◌,
}

abbrev pub newline : ℕ
newline = 10

-- One past the last newline, which is `rfind("\n") + 1`
abbrev pub after_last : Option ℕ → ℕ
after_last none = 0
after_last (some n) = suc n

abbrev pub shift : Option ℕ → ℕ → Option ℕ
shift none c = if c == newline then some 0 else none
shift (some n) c = some (suc n)

unfoldable pub rfind_newline : Text → Option ℕ
rfind_newline [] = none
rfind_newline (c ∷ t) = shift (rfind_newline t) c

-- `nl if nl != -1 else len(content)`
abbrev pub end_from : Text → ℕ → Option ℕ → ℕ
end_from content start none = length content
end_from content start (some n) = start + n

-- The lines that hold the `n` characters from `idx` on.
unfoldable pub enclosing : Text → ℕ → ℕ → Text
unfolding rfind_newline find
enclosing content idx n =
    let start = after_last (rfind_newline (take idx content)) in
    let end = end_from content (idx + n) (find (drop (idx + n) content) (newline ∷ [])) in
    take (end - start) (drop start content)

abbrev pub located : Text → Text → Option ℕ → Option Text
unfolding enclosing
located content target_quote none = none
located content target_quote (some idx) = some (enclosing content idx (length target_quote))

unfoldable pub verbatim_locate : Text → Option Text → Option Text → Option Text
unfolding find enclosing
verbatim_locate content none section_hint = none
verbatim_locate content (some target_quote) section_hint =
    located content target_quote (find content target_quote)

abbrev pub strip_newlines : Text → Text
unfolding strip_chars
strip_newlines t = strip_chars (λ c. c == newline) t

abbrev pub replaced : Text → Text → Text → Option ℕ → Text
replaced content region body none =
    take (length content - 1) content ++ body ++ drop (length region - 1) content
replaced content region body (some idx) =
    take idx content ++ body ++ drop (idx + length region) content

-- `_apply_modification`; without a match `find` gives -1, which Python counts from the end.
unfoldable pub apply_modification : Text → Text → Text → Text
unfolding find strip_chars
apply_modification content region proposed_body =
    replaced content region (strip_newlines proposed_body) (find content region)

-- The index of the first line that passes the test
unfoldable pub find_line : (Text → Bool) → List Text → Option ℕ
find_line p [] = none
find_line p (l ∷ ls) =
    let rest = find_line p ls in
    if p l then some 0 else elim rest [ none ↦ none | some n ↦ some (suc n) ]

abbrev pub is_section : Text → Bool
is_section l = starts_with l (codes "## ")

abbrev pub strip : Text → Text
unfolding strip_chars is_space
strip t = strip_chars is_space t

abbrev pub is_named : Text → Text → Bool
unfolding strip_chars is_space
is_named hint l = is_section l && text_eq (strip (drop 3 l)) hint

abbrev pub is_blank : Text → Bool
is_blank [] = true
is_blank (c ∷ t) = false

-- `for k in range(…): if lines[k].strip(): last = k`
unfoldable pub last_filled : ℕ → ℕ → List Text → ℕ
unfolding strip_chars is_space
last_filled last k [] = last
last_filled last k (l ∷ ls) =
    let skip = last_filled last (suc k) ls in
    let take_it = last_filled k (suc k) ls in if is_blank (strip l) then skip else take_it

abbrev pub section_end : ℕ → Option ℕ → List Text → ℕ
section_end head none lines = length lines
section_end head (some n) lines = suc head + n

-- `sum(len(lines[n]) + 1 for n in range(last)) + len(lines[last])`
unfoldable pub line_offset : ℕ → List Text → ℕ
line_offset n [] = 0
line_offset zero (l ∷ ls) = length l
line_offset (suc n) (l ∷ ls) = length l + 1 + line_offset n ls

-- The last line of the section that is not blank
unfoldable pub last_line : ℕ → List Text → ℕ
unfolding find_line last_filled
last_line head lines =
    let sec_end = section_end head (find_line is_section (drop (suc head) lines)) lines in
    last_filled head (suc head) (take (sec_end - suc head) (drop (suc head) lines))

abbrev pub insert_after : Text → ℕ → Text → Text
insert_after content offset body = take offset content ++ newline ∷ body ++ drop offset content

unfoldable pub inserted : Text → Text → List Text → Option ℕ → Option Text
unfolding last_line line_offset
inserted content body lines none = none
inserted content body lines (some head) =
    some (insert_after content (line_offset (last_line head lines) lines) body)

unfoldable pub insert_in_section : Text → Text → Text → Option Text
unfolding inserted split_on find_line last_line line_offset strip_chars is_space
insert_in_section content section_hint body =
    let lines = split_on newline content in
    inserted content body lines (find_line (is_named section_hint) lines)

-- The addition at the end of the file
unfoldable pub append_tail : Text → Text → Text
unfolding ends_with
append_tail [] body = body ++ newline ∷ []
append_tail (c ∷ t) body =
    if ends_with (c ∷ t) (newline ∷ [])
    then (c ∷ t) ++ body ++ newline ∷ []
    else (c ∷ t) ++ newline ∷ body ++ newline ∷ []

unfoldable pub or_tail : Text → Text → Option Text → Text
unfolding append_tail
or_tail content body none = append_tail content body
or_tail content body (some spliced) = spliced

-- An empty hint is no hint
unfoldable pub spliced_at : Option Text → Text → Text → Option Text
unfolding insert_in_section
spliced_at none content body = none
spliced_at (some []) content body = none
spliced_at (some (c ∷ hint)) content body = insert_in_section content (c ∷ hint) body

unfoldable pub apply_addition : Text → Text → Option Text → Text
unfolding or_tail spliced_at strip_chars insert_in_section append_tail
apply_addition content proposed_body section_hint =
    let body = strip_newlines proposed_body in
    or_tail content body (spliced_at section_hint content body)
