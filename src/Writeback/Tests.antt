-- ===== src/Writeback/Tests.antt =====
-- Runs of the write-back services on small tables. The hash of a text is the text itself.
use diecast.Writeback.Versions.{get_version}
use diecast.Writeback.History.{Findable}
use diecast.Prelude.{
  ◌≡◌, refl, true, none, some, none-ne-some, List, [], ◌∷◌, Text, codes, text_eq, text_eq_iff,
  arith,
}
use diecast.Writeback.Versions.{
  Version, current, archived, create_snapshot, get_current, max_id, max_version, archive,
  new_version, snapshot_after,
}
use diecast.Writeback.Versions.Current.{
  IsValid, currents, with_id, create_snapshot-IsValid, create_snapshot_twice,
}
use diecast.Writeback.Comments.{
  Store, NewComment, resolved, get_row, events_of, new_comment, ok, err, already_resolved,
}
use diecast.Writeback.Comments.Operation.{resolve, create, run_op}
use diecast.Writeback.Comments.Outcome.{Answers, run_op-Answers}
use diecast.Writeback.Comments.Rows.{Before}
use diecast.Writeback.Comments.Trail.{IsTracked, run_op-IsTracked}

abbrev hash_of : Text → Text
hash_of t = t

hash_sound : (a b : Text) → text_eq a b ≡ true → a ≡ b
hash_sound a b h = (text_eq_iff a b).0 h

hash_refl : (a : Text) → text_eq a a ≡ true
hash_refl a = (text_eq_iff a a).1 refl

abbrev first_version : Version Text
first_version = record {
  id = 1;
  goal_slug = codes "goal";
  version = 1;
  content = codes "a";
  content_hash = codes "a";
  status = current;
  created_at = 5;
  created_by = none;
}

abbrev one_row : List (Version Text)
one_row = first_version ∷ []

one_row-IsValid : IsValid one_row
unfolding currents with_id
one_row-IsValid = record { one_current = λ slug. ground arith; ids = λ i. ground arith }

-- A changed file archives the row and adds the second version.
snapshot_run :
    (create_snapshot text_eq hash_of (codes "goal") (codes "b") none 7 one_row).1
    ≡ record first_version { status = archived }
      ∷ record {
        id = 2;
        goal_slug = codes "goal";
        version = 2;
        content = codes "b";
        content_hash = codes "b";
        status = current;
        created_at = 7;
        created_by = none;
      }
      ∷ []
unfolding create_snapshot get_current snapshot_after archive new_version max_id max_version
snapshot_run = refl

create_snapshot-IsValid_example :
    IsValid (create_snapshot text_eq hash_of (codes "goal") (codes "b") none 7 one_row).1
create_snapshot-IsValid_example =
    create_snapshot-IsValid text_eq hash_of (codes "goal") (codes "b") none 7 one_row
      one_row-IsValid

abbrev second : Version Text × List (Version Text)
second = create_snapshot text_eq hash_of (codes "goal") (codes "b") none 7 one_row

create_snapshot_twice_example :
    (get_current (codes "goal") second.1 ≡ some second.0)
    × (second.0.content_hash ≡ codes "b")
    × (create_snapshot text_eq hash_of (codes "goal") (codes "b") (some (codes "x")) 9 second.1
        ≡ second)
create_snapshot_twice_example =
    create_snapshot_twice text_eq hash_of (codes "goal") (codes "b") none 7 one_row
      (some (codes "x")) 9 hash_sound hash_refl one_row-IsValid

abbrev note : NewComment
note = record {
  goal_slug = codes "goal";
  version = 1;
  quoted_text = codes "a";
  section_hint = none;
  body = codes "why?";
  author = codes "me";
  author_kind = codes "human";
  block_ref = none;
  artifact_ref = none;
  source_hash = none;
  miss_class = none;
}

abbrev empty : Store
empty = record { comments = []; events = [] }

empty-IsTracked : IsTracked empty
unfolding get_row events_of
empty-IsTracked = record {
  in_order = tt;
  states = λ i c h. absurd (none-ne-some h);
  untracked = λ i h. refl;
}

abbrev tables : Store
tables = (run_op (create note) 5 empty).1

tables-IsTracked : IsTracked tables
tables-IsTracked = run_op-IsTracked (create note) 5 empty tt empty-IsTracked

-- A comment is resolved once.
resolve_run :
    ((run_op (resolve 1 none) 8 tables).0
      ≡ ok (record (new_comment note 1 5) { state = resolved; updated_at = 8 }))
    × ((run_op (resolve 1 none) 9 (run_op (resolve 1 none) 8 tables).1).0 ≡ err already_resolved)
unfolding run_op
resolve_run = (refl, refl)

Before-tables : Before 8 tables.events
unfolding run_op
Before-tables = (omega arith, tt)

run_op-IsTracked_example : IsTracked (run_op (resolve 1 none) 8 tables).1
run_op-IsTracked_example = run_op-IsTracked (resolve 1 none) 8 tables Before-tables tables-IsTracked

run_op-Answers_example : Answers tables (run_op (resolve 1 none) 8 tables)
run_op-Answers_example = run_op-Answers (resolve 1 none) 8 tables

tables-Findable : Findable tables.comments
unfolding run_op get_row
tables-Findable = (refl, tt)

first_there : get_version (codes "goal") 1 one_row ≡ some first_version
unfolding get_version
first_there = refl

no_second : get_version (codes "goal") 2 one_row ≡ none
unfolding get_version
no_second = refl
