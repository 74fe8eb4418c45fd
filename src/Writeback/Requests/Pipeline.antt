-- ===== src/Writeback/Requests/Pipeline.antt =====
-- `apply_change_request` of services/change_request_service.py. The resolved paths enter as the two
-- answers of `_is_within`, and the parser of requirement files is an argument.
pub mod Refused
use diecast.Prelude.{
  ℕ, zero, ◌≡◌, Bool, true, false, Option, none, some, List, [], ◌∷◌, ◌++◌, Text, if◌then◌else◌,
  ◌==◌,
}
use diecast.Blocks.{Block, Summary, diff_blocks, summarize}
use diecast.Writeback.Conflict.{
  Verdict, clean, conflicted, orphaned, Locator, detect_conflict, choices,
}
use diecast.Writeback.Splice.{apply_addition, apply_modification}
use diecast.Writeback.Versions.{Version, get_version, create_snapshot}
use diecast.Writeback.Comments.{open_comments, open_comment_count}
use diecast.Writeback.Versions.Next.{create_next}
use diecast.Writeback.Requests.{
  Request, is_addition, RequestStatus, applied, conflicted_request, verify_surgical,
}
use diecast.Writeback.Requests.Apply.{
  Surface, RequestEventType, RequestPayload, World, Refusal, Receipt, Answer, refused, done,
  universal_newlines, get_request, set_status, append_request_event, or_this, or_text,
  provenance_badge, orphaned_event, conflicted_event, applied_event, target, surface, applied_as,
  refused_error, refused_out_of_tree, refused_orphaned, refused_conflicted,
}

-- The caller's arguments besides the request: the two answers of `_is_within`, the actor, the
-- overrides and the instant.
pub record Call : Type 0 where
  pub goal_in_root : Bool
  pub target_in_goal : Bool
  pub actor : Option Text
  pub target_quote_override : Option Text
  pub section_hint_override : Option Text
  pub now : ℕ

abbrev pub quote_for : Call → Request → Option Text
quote_for call cr = or_this call.target_quote_override cr.target_quote

abbrev pub hint_for : Call → Request → Option Text
hint_for call cr = or_this call.section_hint_override cr.section_hint

abbrev surface_of : Verdict → Call → Request → Surface
unfolding choices
surface_of verdict call cr = record {
  verdict = verdict;
  target_quote = quote_for call cr;
  section_hint = hint_for call cr;
  base_version = cr.base_version;
  proposed_body = cr.proposed_body;
  offered = choices verdict;
}

module _ {Hash : Type 0} where
  abbrev pub refuse : Refusal → World Hash → Answer × World Hash
  refuse r w = (refused r none, w)

  abbrev content_of : Option (Version Hash) → Text
  content_of none = []
  content_of (some v) = v.content

  -- `_record_refusal` and the raise, for the two verdicts that leave an audit row
  unfoldable pub refuse_orphaned : Call → Request → World Hash → Answer × World Hash
  unfolding choices
  refuse_orphaned call cr w = (
    refused refused_orphaned (some (surface_of orphaned call cr)),
    record w {
      events =
          append_request_event cr.id orphaned_event call.actor
            (target (quote_for call cr) (hint_for call cr)) call.now w.events;
    },
  )

  unfoldable pub refuse_conflicted : Call → Request → World Hash → Answer × World Hash
  unfolding choices set_status
  refuse_conflicted call cr w =
      let found = surface_of conflicted call cr in
      (
        refused refused_conflicted (some found),
        record w {
          requests = set_status cr.id conflicted_request call.now w.requests;
          events =
              append_request_event cr.id conflicted_event call.actor (surface found) call.now
                w.events;
        },
      )

module _ {Hash : Type 0} (hash_eq : Hash → Hash → Bool) (content_hash : Text → Hash)
    (locate : Locator) (parse : Text → List Block) where
  unfoldable pub change_summary : Text → Text → Summary
  unfolding diff_blocks summarize
  change_summary old new = summarize (diff_blocks (parse old) (parse new))

  -- The write of the file, the new version, and the last transaction
  unfoldable pub commit : Text → Text → Call → Request → World Hash → Answer × World Hash
  unfolding create_next provenance_badge change_summary set_status
  commit old new call cr w =
      let (bump, versions) =
        create_next hash_eq content_hash cr.goal_slug new (some (or_text call.actor cr.author))
          call.now w.comments w.versions in
      let number = bump.version.version in
      let summary = change_summary old new in
      let badge = provenance_badge cr summary in
      (
        done record {
          change_request_id = cr.id;
          applied_version = number;
          converged = bump.converged;
          displaced_comment_ids = bump.displaced_comment_ids;
          change_summary = summary;
          provenance_badge = badge;
        },
        record w {
          file = some new;
          versions = versions;
          requests = set_status cr.id applied call.now w.requests;
          events =
              append_request_event cr.id applied_event call.actor
                (applied_as number badge summary.counts) call.now w.events;
          outbox =
              w.outbox
              ++ record {
                request = cr;
                status = applied;
                report = some (number, badge, summary);
                created_at = call.now;
              }
                ∷ [];
        },
      )

  -- The splice, checked before it is written
  unfoldable pub write :
      Text → Text → Option Text → Call → Request → World Hash → Answer × World Hash
  unfolding verify_surgical commit
  write old new region call cr w =
      if verify_surgical old new cr.kind region
      then commit old new call cr w
      else refuse refused_error w

  abbrev pub modify : Text → Option Text → Call → Request → World Hash → Answer × World Hash
  unfolding write apply_modification
  modify old none call cr w = refuse refused_orphaned w
  modify old (some region) call cr w =
      write old (apply_modification old region cr.proposed_body) (some region) call cr w

  unfoldable pub splice : Text → Call → Request → World Hash → Answer × World Hash
  unfolding write apply_addition apply_modification
  splice old call cr w =
      if is_addition cr.kind
      then write old (apply_addition old cr.proposed_body (hint_for call cr)) none call cr w
      else modify old (locate old (quote_for call cr) (hint_for call cr)) call cr w

  unfoldable pub on_verdict : Verdict → Text → Call → Request → World Hash → Answer × World Hash
  unfolding refuse_orphaned refuse_conflicted splice
  on_verdict orphaned old call cr w = refuse_orphaned call cr w
  on_verdict conflicted old call cr w = refuse_conflicted call cr w
  on_verdict clean old call cr w = splice old call cr w

  -- The base version's content is empty where there is no such version.
  abbrev pub judge : Text → Call → Request → World Hash → Verdict
  unfolding detect_conflict get_version
  judge old call cr w =
      detect_conflict hash_eq content_hash locate
        (content_of (get_version cr.goal_slug cr.base_version w.versions)) old (quote_for call cr)
        (hint_for call cr)

  abbrev pub on_text : Text → Call → Request → World Hash → Answer × World Hash
  unfolding on_verdict detect_conflict get_version
  on_text old call cr w = on_verdict (judge old call cr w) old call cr w

  -- The text of the file is read with its newlines translated; what is written is not translated back.
  abbrev pub on_file : Option Text → Call → Request → World Hash → Answer × World Hash
  unfolding on_verdict detect_conflict get_version universal_newlines
  on_file none call cr w = refuse refused_orphaned w
  on_file (some raw) call cr w = on_text (universal_newlines raw) call cr w

  unfoldable pub on_request : Option Request → Call → World Hash → Answer × World Hash
  unfolding on_verdict detect_conflict get_version universal_newlines
  on_request none call w = refuse refused_error w
  on_request (some cr) call w =
      let inside = on_file w.file call cr w in
      if call.goal_in_root
      then if call.target_in_goal then inside else refuse refused_out_of_tree w
      else refuse refused_out_of_tree w

  unfoldable pub apply_change_request : ℕ → Call → World Hash → Answer × World Hash
  unfolding get_request on_request
  apply_change_request i call w = on_request (get_request i w.requests) call w
