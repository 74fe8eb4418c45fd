-- ===== src/Writeback/Requests/Apply.antt =====
-- What `apply_change_request` reads and writes, and the parts of its answer.
use diecast.Prelude.{
  ℕ, Bool, false, ◌&&◌, Option, none, some, List, [], ◌∷◌, ◌++◌, Text, codes, text_eq, join, ◌==◌,
  if◌then◌else◌,
}
use diecast.Blocks.{Item, Summary, Counts}
use diecast.Writeback.Conflict.{Verdict}
use diecast.Writeback.Versions.{Version}
use diecast.Writeback.Comments.{Comment}
use diecast.Writeback.Requests.{Request, Kind, addition, modification, annotation, RequestStatus}

-- `ConflictSurface.to_dict()`
pub record Surface : Type 0 where
  pub verdict : Verdict
  pub target_quote : Option Text
  pub section_hint : Option Text
  pub base_version : ℕ
  pub proposed_body : Text
  pub offered : List Text

-- `change_request_events`
pub data RequestEventType : Type 0 where
  proposed_event orphaned_event conflicted_event applied_event : RequestEventType

pub data RequestPayload : Type 0 where
  blank : RequestPayload
  target : Option Text → Option Text → RequestPayload
  surface : Surface → RequestPayload
  applied_as : ℕ → Text → Counts → RequestPayload

pub record RequestEvent : Type 0 where
  pub change_request_id : ℕ
  pub event_type : RequestEventType
  pub actor : Option Text
  pub payload : RequestPayload
  pub created_at : ℕ

-- A pending row of `notifications_outbox`: `_notification_payload`, and what an apply adds to it
pub record Notification : Type 0 where
  pub request : Request
  pub status : RequestStatus
  pub report : Option (ℕ × Text × Summary)
  pub created_at : ℕ

-- What a text file reads as, after a carriage return or not: "\r\n" and a lone "\r" become "\n".
unfoldable newlines_from : Bool → Text → Text
newlines_from after_return [] = []
newlines_from after_return (c ∷ t) =
    let rest = newlines_from (c == b'\r') t in
    if c == b'\r' then b'\n' ∷ rest else if after_return && c == b'\n' then rest else c ∷ rest

-- `Path.read_text` on the file's characters
unfoldable pub universal_newlines : Text → Text
unfolding newlines_from
universal_newlines t = newlines_from false t

-- The characters of the file, none where it is absent, and the tables
pub record World (Hash : Type 0) : Type 0 where
  pub file : Option Text
  pub versions : List (Version Hash)
  pub comments : List Comment
  pub requests : List Request
  pub events : List RequestEvent
  pub outbox : List Notification

pub data Refusal : Type 0 where
  refused_error refused_out_of_tree refused_orphaned refused_conflicted : Refusal

pub record Receipt : Type 0 where
  pub change_request_id : ℕ
  pub applied_version : ℕ
  pub converged : Bool
  pub displaced_comment_ids : List ℕ
  pub change_summary : Summary
  pub provenance_badge : Text

pub data Answer : Type 0 where
  refused : Refusal → Option Surface → Answer
  done : Receipt → Answer

unfoldable pub get_request : ℕ → List Request → Option Request
get_request i [] = none
get_request i (r ∷ rs) = if r.id == i then some r else get_request i rs

unfoldable pub set_status : ℕ → RequestStatus → ℕ → List Request → List Request
set_status i st now [] = []
set_status i st now (r ∷ rs) =
    (if r.id == i then record r { status = st; updated_at = now } else r) ∷ set_status i st now rs

abbrev pub append_request_event :
    ℕ → RequestEventType → Option Text → RequestPayload → ℕ → List RequestEvent → List RequestEvent
append_request_event i t actor payload now es =
    es
    ++ record {
      change_request_id = i;
      event_type = t;
      actor = actor;
      payload = payload;
      created_at = now;
    }
      ∷ []

abbrev pub or_this {ℓ} : {A : Type ℓ} → Option A → Option A → Option A
or_this none b = b
or_this (some a) b = some a

-- `x or y` on an optional string
abbrev pub or_text : Option Text → Text → Text
or_text none y = y
or_text (some []) y = y
or_text (some (c ∷ t)) y = c ∷ t

abbrev kind_text : Kind → Text
kind_text addition = codes "addition"
kind_text modification = codes "modification"
kind_text annotation = codes "annotation"

abbrev sign : Text → Text
sign change =
    if text_eq change (codes "added")
    then codes "+"
    else if text_eq change (codes "modified")
    then codes "~"
    else if text_eq change (codes "removed")
    then codes "-"
    else codes "~"

-- The badge's first part, by the first item of the summary
abbrev lead_part : Request → List Item → Text → Text
lead_part cr [] origin =
    let ref = or_text cr.target_quote (codes "(addition)") in
    codes "~" ++ ref ++ codes " — " ++ kind_text cr.kind ++ codes " by " ++ origin
lead_part cr (i ∷ is) origin =
    sign i.change ++ i.heading_or_ref ++ codes " — " ++ i.change ++ codes " by " ++ origin

abbrev derived_part : Option Text → List Text
derived_part none = []
derived_part (some []) = []
derived_part (some (c ∷ t)) = (codes "derived from " ++ (c ∷ t)) ∷ []

unfoldable pub provenance_badge : Request → Summary → Text
unfolding join
provenance_badge cr summary =
    let origin = or_text cr.origin_phase (codes "a downstream phase") in
    let who =
      if text_eq cr.author_type (codes "agent") then codes "agent " ++ cr.author else cr.author in
    join (codes " · ")
      (lead_part cr summary.items origin ∷ who ∷ derived_part cr.origin_artifact_path)
