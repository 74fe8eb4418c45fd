-- ===== src/Writeback/RequestTests.antt =====
-- A change request applied to a small file. The hash of a text is the text itself, and the parser
-- of the file finds no blocks.
use diecast.Prelude.{◌≡◌, refl, true, none, some, List, [], ◌∷◌, Text, codes, text_eq}
use diecast.Blocks.{Block}
use diecast.Writeback.Splice.{apply_modification, verbatim_locate}
use diecast.Writeback.Versions.{Version, current}
use diecast.Writeback.Requests.{Request, addition, modification, proposed, verify_surgical}
use diecast.Writeback.Requests.Guard.{verify_surgical-applied}
use diecast.Writeback.Requests.Apply.{World, Answer}
use diecast.Writeback.Requests.Intake.{NewRequest}
use diecast.Writeback.Requests.Pipeline.{Call, apply_change_request}
use diecast.Writeback.Requests.Pipeline.Refused.{Outcome, apply_change_request-Outcome}

abbrev hash_of : Text → Text
hash_of t = t

abbrev no_blocks : Text → List Block
no_blocks t = []

abbrev request : Request
request = record {
  id = 4;
  goal_slug = codes "goal";
  target_quote = some (codes "small");
  section_hint = none;
  base_version = 1;
  proposed_body = codes "keep it big\n";
  kind = modification;
  status = proposed;
  origin_phase = none;
  origin_activity_id = none;
  origin_artifact_path = none;
  author = codes "planner";
  author_type = codes "agent";
  created_at = 3;
  updated_at = 3;
}

abbrev base : Version Text
base = record {
  id = 1;
  goal_slug = codes "goal";
  version = 1;
  content = codes "# Goal\nkeep it small\n";
  content_hash = codes "# Goal\nkeep it small\n";
  status = current;
  created_at = 1;
  created_by = none;
}

abbrev world : Text → World Text
world content = record {
  file = some content;
  versions = base ∷ [];
  comments = [];
  requests = request ∷ [];
  events = [];
  outbox = [];
}

abbrev call : Call
call = record {
  goal_in_root = true;
  target_in_goal = true;
  actor = none;
  target_quote_override = none;
  section_hint_override = none;
  now = 8;
}

abbrev applied : Text → Answer × World Text
applied content =
    apply_change_request text_eq hash_of verbatim_locate no_blocks 4 call (world content)

-- The region is as the request's base had it.
apply_run :
    (applied (codes "# New goal\nkeep it small\n")).1.file
    ≡ some (codes "# New goal\nkeep it big\n")
unfolding apply_change_request verbatim_locate
apply_run = refl

-- The region has changed.
conflict_run :
    (applied (codes "# Goal\nkeep it very small\n")).1.file
    ≡ some (codes "# Goal\nkeep it very small\n")
unfolding apply_change_request verbatim_locate
conflict_run = refl

-- A file with carriage returns loses them on every line.
newlines_run :
    (applied (codes "# New goal\r\nkeep it small\r\n")).1.file
    ≡ some (codes "# New goal\nkeep it big\n")
unfolding apply_change_request verbatim_locate
newlines_run = refl

apply_change_request-Outcome_example :
    Outcome text_eq hash_of verbatim_locate no_blocks 4 call
      (world (codes "# New goal\nkeep it small\n"))
      (applied (codes "# New goal\nkeep it small\n"))
apply_change_request-Outcome_example =
    apply_change_request-Outcome text_eq hash_of verbatim_locate no_blocks 4 call
      (world (codes "# New goal\nkeep it small\n"))

verify_surgical-applied_example :
    verify_surgical
      (codes "# Goal\nkeep it small\n")
      (apply_modification
        (codes "# Goal\nkeep it small\n")
        (codes "keep it small")
        (codes "keep it big"))
      modification
      (some (codes "keep it small"))
    ≡ true
verify_surgical-applied_example =
    verify_surgical-applied (codes "# Goal\nkeep it small\n") (codes "keep it small")
      (codes "keep it big") (some (codes "Goal")) modification

-- The guard also lets a text through that has lost one of the two characters around the region.
lost_run : verify_surgical (codes "aXa") (codes "a") modification (some (codes "X")) ≡ true
unfolding verify_surgical
lost_run = refl

abbrev new_one : NewRequest
new_one = record {
  goal_slug = codes "goal";
  kind = addition;
  proposed_body = codes "two";
  base_version = 1;
  target_quote = none;
  section_hint = some (codes "Scope");
  author = codes "planner";
  author_type = codes "agent";
  origin_phase = none;
  origin_activity_id = none;
  origin_artifact_path = none;
  status = proposed;
}

abbrev start : World Text
start = world (codes "# Goal\n")
