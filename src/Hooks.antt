-- ===== src/Hooks.antt =====
-- cli/install_hooks.py and hook_events.py: the cast-hook entries of a settings.json. `bin` is the
-- path `CAST_HOOK_BIN`. What is printed is left out; what is written comes with the two lists that
-- the messages name.
pub mod Values
pub mod Rounds
pub mod Idempotent
pub mod Foreign
pub mod Commute
pub mod RoundTrip
mod Tests
use diecast.Prelude.{
  ◌≡◌, Bool, true, false, not, ◌||◌, Option, none, some, List, [], ◌∷◌, ◌++◌, Text, codes,
  starts_with, if◌then◌else◌,
}
use diecast.Hooks.Values.{
  Json, null, boolean, number, text, array, object, Items, nil, item, Fields, end, field, get, put,
  remove, append,
}

-- A row of `HOOK_EVENTS`; the handler is the command's own business.
pub record HookEvent : Type 0 where
  pub event : Text
  pub sub : Text
  pub matcher : Option Text

abbrev hook_event : Text → Text → Option Text → HookEvent
hook_event e s m = record { event = e; sub = s; matcher = m }

unfoldable pub hook_events : List HookEvent
hook_events =
    hook_event (codes "UserPromptSubmit") (codes "user-prompt-start") none
    ∷ hook_event (codes "Stop") (codes "user-prompt-stop") none
    ∷ hook_event (codes "SubagentStart") (codes "subagent-start") none
    ∷ hook_event (codes "SubagentStop") (codes "subagent-stop") none
    ∷ hook_event (codes "PreToolUse") (codes "skill-invoke") (some (codes "Skill"))
    ∷ []

-- The exits: the hook is missing, the file is no JSON, a bucket is no list, or an `AttributeError`
-- on a file or a hooks block that is no dict.
pub data Failure : Type 0 where
  missing_bin malformed not_a_list not_a_dict : Failure

pub data SettingsFile : Type 0 where
  absent : SettingsFile
  unreadable : SettingsFile
  content : Json → SettingsFile

pub data Outcome : Type 0 where
  raised : Failure → Outcome
  untouched : Outcome
  wrote : Fields → List Text → List Text → Outcome

module _ (bin : Text) where
  -- `HOOK_MARKER`
  abbrev pub hook_marker : Text
  hook_marker = bin ++ codes " "

  abbrev pub starts_ours : Option Json → Bool
  starts_ours (some (text cmd)) = starts_with cmd hook_marker
  starts_ours _ = false

  abbrev pub command_is_ours : Json → Bool
  unfolding get
  command_is_ours (object h) = starts_ours (get (codes "command") h)
  command_is_ours _ = false

  unfoldable pub any_command : Items → Bool
  unfolding get
  any_command nil = false
  any_command (item h hs) = command_is_ours h || any_command hs

  abbrev pub list_is_ours : Option Json → Bool
  unfolding any_command
  list_is_ours (some (array inner)) = any_command inner
  list_is_ours _ = false

  unfoldable pub entry_is_ours : Json → Bool
  unfolding get any_command
  entry_is_ours (object entry) = list_is_ours (get (codes "hooks") entry)
  entry_is_ours _ = false

  unfoldable pub any_ours : Items → Bool
  unfolding entry_is_ours
  any_ours nil = false
  any_ours (item e es) = entry_is_ours e || any_ours es

  -- `[e for e in bucket if not _entry_is_ours(e)]`
  unfoldable pub foreign : Items → Items
  unfolding entry_is_ours
  foreign nil = nil
  foreign (item e es) = let rest = foreign es in if entry_is_ours e then rest else item e rest

  abbrev with_matcher : Option Text → Fields
  with_matcher none = end
  with_matcher (some m) = field (codes "matcher") (text m) end

  unfoldable pub new_entry : HookEvent → Json
  new_entry e = object (
      field (codes "hooks")
        (array (
          item
            (object (
              field (codes "type") (text (codes "command")) (
                field (codes "command") (text (hook_marker ++ e.sub))
                  (field (codes "timeout") (number (codes "3")) end))))
            nil))
        (with_matcher e.matcher))

  -- One round of the loop: the hooks block, and whether an entry was added; none where the bucket is
  -- no list.
  abbrev pub install_bucket : HookEvent → Option Json → Fields → Option (Fields × Bool)
  unfolding any_ours new_entry put append
  install_bucket e none hooks = some (put e.event (array (item (new_entry e) nil)) hooks, true)
  install_bucket e (some (array bucket)) hooks =
      if any_ours bucket
      then some (hooks, false)
      else some (put e.event (array (append bucket (new_entry e))) hooks, true)
  install_bucket e (some _) hooks = none

  unfoldable pub install_event : HookEvent → Fields → Option (Fields × Bool)
  unfolding get install_bucket
  install_event e hooks = install_bucket e (get e.event hooks) hooks

  -- The loop, with the two lists of subcommands
  abbrev pub report : Bool → HookEvent → List Text × List Text → List Text × List Text
  report true e (installed, skipped) = (e.sub ∷ installed, skipped)
  report false e (installed, skipped) = (installed, e.sub ∷ skipped)

  abbrev pub reported :
      Bool
      → HookEvent
      → Option (Fields × List Text × List Text)
      → Option (Fields × List Text × List Text)
  reported b e none = none
  reported b e (some (hooks, installed, skipped)) =
      let (i, s) = report b e (installed, skipped) in some (hooks, i, s)

  abbrev pub then_install :
      Option (Fields × Bool)
      → HookEvent
      → (Fields → Option (Fields × List Text × List Text))
      → Option (Fields × List Text × List Text)
  then_install none e rest = none
  then_install (some (hooks, added)) e rest = reported added e (rest hooks)

  unfoldable pub install_events : List HookEvent → Fields → Option (Fields × List Text × List Text)
  unfolding install_event
  install_events [] hooks = some (hooks, [], [])
  install_events (e ∷ es) hooks = then_install (install_event e hooks) e (install_events es)

  abbrev pub write_hooks : Fields → Option (Fields × List Text × List Text) → Outcome
  unfolding put
  write_hooks settings none = raised not_a_list
  write_hooks settings (some (hooks, installed, skipped)) =
      wrote (put (codes "hooks") (object hooks) settings) installed skipped

  -- `settings.setdefault("hooks", {})`
  abbrev pub install_under : Fields → Option Json → Outcome
  unfolding install_events put
  install_under settings none = write_hooks settings (install_events hook_events end)
  install_under settings (some (object hooks)) =
      write_hooks settings (install_events hook_events hooks)
  install_under settings (some _) = raised not_a_dict

  unfoldable pub install_settings : Fields → Outcome
  unfolding get install_events put
  install_settings settings = install_under settings (get (codes "hooks") settings)

  unfoldable pub install : Bool → SettingsFile → Outcome
  unfolding install_settings
  install false file = raised missing_bin
  install true absent = install_settings end
  install true unreadable = raised malformed
  install true (content (object settings)) = install_settings settings
  install true (content _) = raised not_a_dict

  abbrev pub keep_bucket : Text → Items → Fields → Fields
  unfolding put remove
  keep_bucket event nil hooks = remove event hooks
  keep_bucket event (item e es) hooks = put event (array (item e es)) hooks

  abbrev pub uninstall_bucket : Text → Option Json → Fields → Fields
  unfolding put remove foreign
  uninstall_bucket event (some (array bucket)) hooks = keep_bucket event (foreign bucket) hooks
  uninstall_bucket event _ hooks = hooks

  unfoldable pub uninstall_event : HookEvent → Fields → Fields
  unfolding get put remove foreign
  uninstall_event e hooks = uninstall_bucket e.event (get e.event hooks) hooks

  unfoldable pub uninstall_events : List HookEvent → Fields → Fields
  unfolding uninstall_event
  uninstall_events [] hooks = hooks
  uninstall_events (e ∷ es) hooks = uninstall_events es (uninstall_event e hooks)

  -- `len(kept) != len(bucket)`
  abbrev pub has_ours : Option Json → Bool
  unfolding any_ours
  has_ours (some (array bucket)) = any_ours bucket
  has_ours _ = false

  unfoldable pub removed_events : List HookEvent → Fields → List Text
  unfolding get any_ours uninstall_event
  removed_events [] hooks = []
  removed_events (e ∷ es) hooks =
      let rest = removed_events es (uninstall_event e hooks) in
      if has_ours (get e.event hooks) then e.event ∷ rest else rest

  abbrev pub settle : Fields → Fields → Fields
  unfolding put remove
  settle end settings = remove (codes "hooks") settings
  settle (field k v d) settings = put (codes "hooks") (object (field k v d)) settings

  abbrev pub uninstall_under : Fields → Option Json → Outcome
  unfolding uninstall_events removed_events settle
  uninstall_under settings (some (object hooks)) =
      wrote (settle (uninstall_events hook_events hooks) settings) []
        (removed_events hook_events hooks)
  uninstall_under settings _ = untouched

  unfoldable pub uninstall_settings : Fields → Outcome
  unfolding get uninstall_events removed_events put remove
  uninstall_settings settings = uninstall_under settings (get (codes "hooks") settings)

  unfoldable pub uninstall : SettingsFile → Outcome
  unfolding uninstall_settings
  uninstall absent = untouched
  uninstall unreadable = raised malformed
  uninstall (content (object settings)) = uninstall_settings settings
  uninstall (content _) = raised not_a_dict
