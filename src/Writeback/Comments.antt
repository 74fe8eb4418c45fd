-- ===== src/Writeback/Comments.antt =====
-- services/comment_service.py and the replay of `requirement_version_service._state_as_of`: the
-- comments of a goal and their append-only event trail. A timestamp is an instant; the placement
-- that `resolve_render_anchor` finds for a new comment is an argument of `create_comment`.
pub mod Operation
pub mod Rows
pub mod Trail
pub mod Outcome
use diecast.Prelude.{
  ℕ, suc, ◌+◌, ◌≡◌, Bool, true, false, not, ◌&&◌, Option, none, some, List, [], ◌∷◌, ◌++◌, Text,
  text_eq, codes, filter, length, ltb, leb, ◌==◌, if◌then◌else◌, max,
}

pub data State : Type 0 where
  opened resolved orphaned : State

-- `comment_events.event_type`
pub data EventType : Type 0 where
  created resolved_event reopened orphaned_event relocated : EventType

pub data Payload : Type 0 where
  nothing : Payload
  placed : Option Text → Option Text → Option Text → Option Text → Payload
  old_quote : Text → Payload

pub record Comment : Type 0 where
  pub id : ℕ
  pub goal_slug : Text
  pub version : ℕ
  pub quoted_text : Text
  pub section_hint : Option Text
  pub body : Text
  pub state : State
  pub author : Text
  pub author_kind : Text
  pub block_ref : Option Text
  pub anchor_space : Text
  pub artifact_ref : Option Text
  pub created_at : ℕ
  pub updated_at : ℕ

pub record Event : Type 0 where
  pub comment_id : ℕ
  pub event_type : EventType
  pub actor : Option Text
  pub payload : Payload
  pub created_at : ℕ

-- The two tables
pub record Store : Type 0 where
  pub comments : List Comment
  pub events : List Event

-- `CommentNotFound`, `CommentStateError`
pub data Error : Type 0 where
  not_found already_resolved already_open : Error

pub data Result : Type 0 where
  ok : Comment → Result
  err : Error → Result

unfoldable pub get_row : ℕ → List Comment → Option Comment
get_row i [] = none
get_row i (c ∷ cs) = if c.id == i then some c else get_row i cs

-- `UPDATE … WHERE id = ?`
unfoldable pub update : ℕ → (Comment → Comment) → List Comment → List Comment
update i f [] = []
update i f (c ∷ cs) = (if c.id == i then f c else c) ∷ update i f cs

unfoldable pub max_id : List Comment → ℕ
max_id [] = 0
max_id (c ∷ cs) = max c.id (max_id cs)

abbrev pub append_event : ℕ → EventType → Option Text → Payload → ℕ → List Event → List Event
append_event i t actor payload now events =
    events
    ++ record { comment_id = i; event_type = t; actor = actor; payload = payload; created_at = now }
      ∷ []

-- The row after the commit; it is there, since it has just been read.
abbrev pub returned : Option Comment → Result
returned none = err not_found
returned (some c) = ok c

abbrev pub set_state : State → ℕ → Comment → Comment
set_state state now c = record c { state = state; updated_at = now }

abbrev pub set_quote : Text → Option Text → ℕ → Comment → Comment
set_quote quote hint now c = record c { quoted_text = quote; section_hint = hint; updated_at = now }

-- One transaction: the update of a row and its event.
unfoldable pub transact :
    ℕ → (Comment → Comment) → EventType → Option Text → Payload → ℕ → Store → Result × Store
unfolding get_row update
transact i f t actor payload now s =
    let cs = update i f s.comments in
    (
      returned (get_row i cs),
      record { comments = cs; events = append_event i t actor payload now s.events },
    )

abbrev on_row : Option Comment → (Comment → Result × Store) → Store → Result × Store
on_row none k s = (err not_found, s)
on_row (some row) k s = k row

-- `_get_row`, which raises `CommentNotFound`, and the rest of the operation
unfoldable pub with_row : ℕ → (Comment → Result × Store) → Store → Result × Store
unfolding get_row
with_row i k s = on_row (get_row i s.comments) k s

abbrev is_resolved : State → Bool
is_resolved resolved = true
is_resolved _ = false

abbrev is_open : State → Bool
is_open opened = true
is_open _ = false

unfoldable pub resolve_comment : ℕ → Option Text → ℕ → Store → Result × Store
unfolding with_row transact
resolve_comment i actor now s =
    with_row i
      (λ row.
        if is_resolved row.state
        then (err already_resolved, s)
        else transact i (set_state resolved now) resolved_event actor nothing now s)
      s

unfoldable pub reopen_comment : ℕ → Option Text → ℕ → Store → Result × Store
unfolding with_row transact
reopen_comment i actor now s =
    with_row i
      (λ row.
        if is_open row.state
        then (err already_open, s)
        else transact i (set_state opened now) reopened actor nothing now s)
      s

unfoldable pub relocate_comment : ℕ → Text → Option Text → Option Text → ℕ → Store → Result × Store
unfolding with_row transact
relocate_comment i new_quote new_hint actor now s =
    with_row i
      (λ row.
        transact i (set_quote new_quote new_hint now) relocated actor (old_quote row.quoted_text)
          now s)
      s

unfoldable pub orphan_comment : ℕ → Option Text → ℕ → Store → Result × Store
unfolding with_row transact
orphan_comment i actor now s =
    with_row i (λ row. transact i (set_state orphaned now) orphaned_event actor nothing now s) s

-- What the caller passes to `create_comment`, and where the quote was placed.
pub record NewComment : Type 0 where
  pub goal_slug : Text
  pub version : ℕ
  pub quoted_text : Text
  pub section_hint : Option Text
  pub body : Text
  pub author : Text
  pub author_kind : Text
  pub block_ref : Option Text
  pub artifact_ref : Option Text
  pub source_hash : Option Text
  pub miss_class : Option Text

abbrev pub new_comment : NewComment → ℕ → ℕ → Comment
new_comment n i now = record {
  id = i;
  goal_slug = n.goal_slug;
  version = n.version;
  quoted_text = n.quoted_text;
  section_hint = n.section_hint;
  body = n.body;
  state = opened;
  author = n.author;
  author_kind = n.author_kind;
  block_ref = n.block_ref;
  anchor_space = codes "render";
  artifact_ref = n.artifact_ref;
  created_at = now;
  updated_at = now;
}

unfoldable pub create_comment : NewComment → ℕ → Store → Result × Store
unfolding get_row max_id
create_comment n now s =
    let i = max_id s.comments + 1 in
    let cs = s.comments ++ new_comment n i now ∷ [] in
    (
      returned (get_row i cs),
      record {
        comments = cs;
        events =
            append_event i created (some n.author)
              (placed n.block_ref n.artifact_ref n.source_hash n.miss_class) now s.events;
      },
    )

-- `SELECT * FROM comment_events WHERE comment_id = ? ORDER BY id`
unfoldable pub events_of : ℕ → List Event → List Event
events_of i [] = []
events_of i (e ∷ es) = let rest = events_of i es in if e.comment_id == i then e ∷ rest else rest

-- `_EVENT_STATE.get(event_type, state)`
unfoldable pub event_state : EventType → Option State → Option State
event_state created st = some opened
event_state resolved_event st = some resolved
event_state reopened st = some opened
event_state orphaned_event st = some orphaned
event_state relocated st = st

-- `sorted(events, key=created_at)`, which is stable
unfoldable pub insert_event : Event → List Event → List Event
insert_event e [] = e ∷ []
insert_event e (f ∷ fs) =
    if leb e.created_at f.created_at then e ∷ f ∷ fs else f ∷ insert_event e fs

unfoldable pub sort_events : List Event → List Event
unfolding insert_event
sort_events [] = []
sort_events (e ∷ es) = insert_event e (sort_events es)

abbrev past : Option ℕ → ℕ → Bool
past none t = false
past (some cutoff) t = ltb cutoff t

unfoldable pub replay : Option ℕ → Option State → List Event → Option State
unfolding event_state
replay cutoff st [] = st
replay cutoff st (e ∷ es) =
    let rest = replay cutoff (event_state e.event_type st) es in
    if past cutoff e.created_at then st else rest

unfoldable pub state_as_of : List Event → Option ℕ → Option State
unfolding sort_events replay
state_as_of events cutoff = replay cutoff none (sort_events events)

unfoldable pub open_comments : Text → List Comment → List Comment
open_comments slug = filter (λ c. text_eq c.goal_slug slug && is_open c.state)

-- `open_comment_count`
unfoldable pub open_comment_count : Text → List Comment → ℕ
unfolding open_comments
open_comment_count slug cs = length (open_comments slug cs)
