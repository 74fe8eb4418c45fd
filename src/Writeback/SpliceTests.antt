-- ===== src/Writeback/SpliceTests.antt =====
-- Runs of the splice and of the conflict test on small files.
use diecast.Prelude.{
  ℕ, ◌≡◌, ◌↔◌, refl, true, none, some, [], ◌∷◌, ◌++◌, Text, codes, text_eq, text_eq_iff, split_on,
  find, join, strip_chars, is_space,
}
use diecast.Writeback.Conflict.{
  clean, conflicted, orphaned, detect_conflict, Judged, detect_conflict_iff,
}
use diecast.Writeback.Splice.{
  newline, enclosing, rfind_newline, verbatim_locate, apply_modification, apply_addition,
  strip_newlines, insert_in_section, last_line, line_offset, last_filled, find_line,
}
use diecast.Writeback.Splice.Modification.{Replaces, apply_modification-Replaces}
use diecast.Writeback.Splice.Addition.{InSection, insert_line, insert_in_section-lines}

abbrev hash_of : Text → Text
hash_of t = t

hash_sound : (a b : Text) → text_eq a b ≡ true → a ≡ b
hash_sound a b h = (text_eq_iff a b).0 h

hash_refl : (a : Text) → text_eq a a ≡ true
hash_refl a = (text_eq_iff a a).1 refl

abbrev file : Text
file = codes "# Goal\nkeep it small\n## Scope\none\n"

abbrev changed_file : Text
changed_file = codes "# Goal\nkeep it very small\n## Scope\none\n"

locate_run : verbatim_locate file (some (codes "small")) none ≡ some (codes "keep it small")
unfolding verbatim_locate enclosing rfind_newline find
locate_run = refl

modification_run :
    apply_modification file (codes "keep it small") (codes "keep it big\n")
    ≡ codes "# Goal\nkeep it big\n## Scope\none\n"
unfolding apply_modification find strip_chars
modification_run = refl

addition_run : (apply_addition file (codes "two") (some (codes "Scope")) ≡ file ++ codes "two\n")
unfolding apply_addition insert_in_section split_on find_line last_line last_filled line_offset
    strip_chars is_space
addition_run = refl

apply_modification-Replaces_example :
    Replaces file
      (codes "small")
      (strip_newlines (codes "keep it big\n"))
      (apply_modification file (codes "keep it small") (codes "keep it big\n"))
apply_modification-Replaces_example =
    apply_modification-Replaces file (codes "small") none (codes "keep it small")
      (codes "keep it big\n") locate_run

section_run : insert_in_section file (codes "Scope") (codes "two") ≡ some (file ++ codes "two\n")
unfolding insert_in_section split_on find_line last_line last_filled line_offset strip_chars
    is_space
section_run = refl

insert_in_section-lines_example :
    (head last : ℕ) × InSection (split_on newline file) (codes "Scope") head last
    × (file ++ codes "two\n"
        ≡ join (newline ∷ []) (insert_line last (codes "two") (split_on newline file)))
insert_in_section-lines_example =
    insert_in_section-lines file (codes "Scope") (codes "two") (file ++ codes "two\n") section_run

conflict_run :
    (detect_conflict text_eq hash_of verbatim_locate file changed_file (some (codes "keep")) none
      ≡ conflicted)
    × (detect_conflict text_eq hash_of verbatim_locate file changed_file (some (codes "one")) none
        ≡ clean)
    × (detect_conflict text_eq hash_of verbatim_locate file changed_file
          (some (codes "it small"))
          none
        ≡ orphaned)
unfolding detect_conflict verbatim_locate enclosing rfind_newline find
conflict_run = (refl, refl, refl)

detect_conflict_iff_example :
    (detect_conflict text_eq hash_of verbatim_locate file changed_file (some (codes "keep")) none
      ≡ conflicted)
    ↔ Judged text_eq hash_of verbatim_locate file changed_file (some (codes "keep")) none conflicted
detect_conflict_iff_example =
    detect_conflict_iff text_eq hash_of verbatim_locate hash_sound hash_refl file changed_file
      (some (codes "keep")) none conflicted
