-- ===== src/Prelude/Strings.antt =====
-- Python strings as lists of code points, with the `str` operations the program calls.
use Prim.Native.Nat.{ℕ, suc, ◌+◌}
use mathlib.Core.Option.{Option, none, some}
use mathlib.Core.Path.{◌≡◌, refl, ap, ◌∙◌}
use mathlib.Core.Logic.{◌↔◌}
use mathlib.Core.Bool.{Bool, true, false, ◌&&◌, ◌||◌, not}
use mathlib.Core.List.{List, [], ◌∷◌, ◌++◌, map, reverse, append_assoc}
use native.Mathlib.Omega.{arith}
use diecast.Prelude.Tests.{leb, ◌==◌, if◌then◌else◌}
use Prim.Native.Char.{code}
use Prim.Native.String.{String}

abbrev pub Text : Type 0
Text = List ℕ

-- The code points of a literal.
abbrev pub codes : String → Text
codes String.[] = []
codes (String.◌∷◌ c s) = code c ∷ codes s

-- `a == b` on strings
abbrev pub text_eq : Text → Text → Bool
text_eq [] [] = true
text_eq [] (b ∷ ys) = false
text_eq (a ∷ xs) [] = false
text_eq (a ∷ xs) (b ∷ ys) = a == b && text_eq xs ys

pub text_eq_iff : (a b : Text) → (text_eq a b ≡ true) ↔ (a ≡ b)
text_eq_iff [] [] = ground arith
text_eq_iff [] (b ∷ ys) = ground arith
text_eq_iff (a ∷ xs) [] = ground arith
text_eq_iff (a ∷ xs) (b ∷ ys) = ground (arith, text_eq_iff xs ys)

pub text_eq_refl : (t : Text) → text_eq t t ≡ true
text_eq_refl t = (text_eq_iff t t).1 refl

pub text_eq_swap : (a b : Text) → text_eq a b ≡ text_eq b a
text_eq_swap a b = grind (arith, text_eq_iff)

pub same_image : (f : Text → Bool) (x i : Text) → text_eq x i ≡ true → f x ≡ f i
same_image f x i h = ap f ((text_eq_iff x i).0 h)

-- `str.lower()`, on ASCII letters
unfoldable pub lower_char : ℕ → ℕ
lower_char c = if leb b'A' c && leb c b'Z' then c + 32 else c

unfoldable pub lower : Text → Text
unfolding lower_char
lower t = map lower_char t

-- `text.startswith(p)`
abbrev pub starts_with : Text → Text → Bool
starts_with t [] = true
starts_with [] (p ∷ ps) = false
starts_with (c ∷ t) (p ∷ ps) = c == p && starts_with t ps

pub starts_with-append : (p s : Text) → starts_with (p ++ s) p ≡ true
starts_with-append [] s = ground arith
starts_with-append (c ∷ p) s = ground (arith, starts_with-append p s)

-- `p in text`
abbrev pub contains : Text → Text → Bool
contains [] p = starts_with [] p
contains (c ∷ t) p = starts_with (c ∷ t) p || contains t p

-- `str.isspace()` on one character, and the strips built on it
unfoldable pub is_space : ℕ → Bool
is_space c =
    (leb 9 c && leb c 13)
    || (leb 28 c && leb c 32)
    || c == 133
    || c == 160
    || c == 5760
    || (leb 8192 c && leb c 8202)
    || c == 8232
    || c == 8233
    || c == 8239
    || c == 8287
    || c == 12288

abbrev drop_while : (ℕ → Bool) → Text → Text
drop_while p [] = []
drop_while p (c ∷ t) = if p c then drop_while p t else c ∷ t

unfoldable pub rstrip_chars : (ℕ → Bool) → Text → Text
rstrip_chars p t = reverse (drop_while p (reverse t))

unfoldable pub strip_chars : (ℕ → Bool) → Text → Text
unfolding rstrip_chars
strip_chars p t = rstrip_chars p (drop_while p t)

-- `t.split(sep)` on a one-character separator, and `sep.join(parts)`
abbrev cons_first : ℕ → List Text → List Text
cons_first c [] = (c ∷ []) ∷ []
cons_first c (l ∷ ls) = (c ∷ l) ∷ ls

unfoldable pub split_on : ℕ → Text → List Text
split_on sep [] = [] ∷ []
split_on sep (c ∷ t) =
    let rest = split_on sep t in if c == sep then [] ∷ rest else cons_first c rest

-- `t.splitlines()`
abbrev is_break : ℕ → Bool
is_break c = (leb 10 c && leb c 13) || (leb 28 c && leb c 30) || c == 133 || c == 8232 || c == 8233

unfoldable pub split_lines : Text → List Text
split_lines [] = []
split_lines (c ∷ t) =
    let rest = split_lines t in
    if c == 13 && starts_with t (10 ∷ [])
    then rest
    else (if is_break c then [] ∷ rest else cons_first c rest)

unfoldable pub join : Text → List Text → Text
join sep [] = []
join sep (l ∷ []) = l
join sep (l ∷ m ∷ ls) = l ++ sep ++ join sep (m ∷ ls)

-- `t.split()`: the words between runs of whitespace
abbrev add_word : Text → List Text → List Text
add_word [] ws = ws
add_word (c ∷ w) ws = (c ∷ w) ∷ ws

abbrev words_from : Text → Text → List Text
words_from w [] = add_word (reverse w) []
words_from w (c ∷ t) =
    if is_space c then add_word (reverse w) (words_from [] t) else words_from (c ∷ w) t

unfoldable pub split_words : Text → List Text
unfolding is_space
split_words t = words_from [] t

abbrev shift : Option ℕ → Option ℕ
shift none = none
shift (some n) = some (suc n)

-- `t.find(p)`; none for -1
unfoldable pub find : Text → Text → Option ℕ
find [] p = if starts_with [] p then some 0 else none
find (c ∷ t) p = let rest = find t p in if starts_with (c ∷ t) p then some 0 else shift rest

-- `t.endswith(p)`
unfoldable pub ends_with : Text → Text → Bool
ends_with t p = starts_with (reverse t) (reverse p)

-- A text without the separator, and a list of such texts
abbrev pub lacks : ℕ → Text → Bool
lacks sep [] = true
lacks sep (c ∷ t) = not (c == sep) && lacks sep t

abbrev pub all_lack : ℕ → List Text → Bool
all_lack sep [] = true
all_lack sep (l ∷ ls) = lacks sep l && all_lack sep ls

all_lack-cons_first :
    (sep c : ℕ) (ls : List Text)
    → (c == sep) ≡ false
    → all_lack sep ls ≡ true
    → all_lack sep (cons_first c ls) ≡ true
all_lack-cons_first sep c [] n h = ground (arith, n)
all_lack-cons_first sep c (l ∷ ls) n h = ground (arith, n, h)

pub all_lack-split_on : (sep : ℕ) (t : Text) → all_lack sep (split_on sep t) ≡ true
unfolding split_on
all_lack-split_on sep [] = refl
all_lack-split_on sep (c ∷ t) = ground (
  arith,
  all_lack-split_on sep t,
  λ (n : (c == sep) ≡ false).
      all_lack-cons_first sep c (split_on sep t) n (all_lack-split_on sep t),
)

split_on-lacks : (sep : ℕ) (l : Text) → lacks sep l ≡ true → split_on sep l ≡ l ∷ []
unfolding split_on
split_on-lacks sep [] h = refl
split_on-lacks sep (c ∷ l) h =
    ground (arith, h, ap (cons_first c) (split_on-lacks sep l (ground (arith, h))))

split_on-append :
    (sep : ℕ) (l t : Text) → lacks sep l ≡ true → split_on sep (l ++ (sep ∷ t)) ≡ l ∷ split_on sep t
unfolding split_on
split_on-append sep [] t h = ground arith
split_on-append sep (c ∷ l) t h =
    ground (arith, h, ap (cons_first c) (split_on-append sep l t (ground (arith, h))))

-- The parts of a join are its parts again, when none has the separator.
pub split_on-join :
    (sep : ℕ) (l : Text) (ls : List Text)
    → all_lack sep (l ∷ ls) ≡ true
    → split_on sep (join (sep ∷ []) (l ∷ ls)) ≡ l ∷ ls
unfolding split_on join
split_on-join sep l [] h = split_on-lacks sep l (ground (arith, h))
split_on-join sep l (m ∷ ls) h =
    ap (split_on sep) (append_assoc l (sep ∷ []) (join (sep ∷ []) (m ∷ ls)))
    ∙ split_on-append sep l (join (sep ∷ []) (m ∷ ls)) (ground (arith, h))
    ∙ ap (λ ps. l ∷ ps) (split_on-join sep m ls (ground (arith, h)))
