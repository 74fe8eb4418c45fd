-- ===== src/Polling.antt =====
-- agents/_shared/polling.py: how a parent waits for the output file of a child. Times are natural
-- numbers of one unit.
pub mod Ends
pub mod Silent
mod Tests
use diecast.Prelude.{
  ℕ, zero, suc, ◌+◌, ◌-◌, Bool, true, false, not, ◌&&◌, ◌||◌, Option, none, some, List, [], ◌∷◌,
  Text, codes, text_eq, length, get_elem?, ltb, ◌==◌, if◌then◌else◌,
}
use Prim.Native.Nat.{min}

-- The `status` of a value: none that is a text (the value is no object, the key is missing, or null, a
-- number or a Boolean is there), a text, or a list or object, which has no hash
pub data StatusField : Type 0 where
  untold : StatusField
  named : Text → StatusField
  unhashable : StatusField

-- What a file holds: no byte, bytes that are no UTF-8, text that is no JSON with the error, or a value
-- with its status. Errors of the file system other than a missing file are left out.
pub data Contents : Type 0 where
  blank : Contents
  undecodable : Contents
  bad_json : Text → Contents
  json : StatusField → Text → Contents

pub data File : Type 0 where
  absent : File
  file : ℕ → Contents → File

-- The exceptions that leave the wait: of decoding, of a status without a hash, of an empty ladder
pub data Fault : Type 0 where
  unicode_error : Fault
  type_error : Fault
  index_error : Fault

pub data Read : Type 0 where
  raises : Fault → Read
  decode_error : Text → Read
  read : Option Text → Option ℕ → Read

abbrev pub is_terminal : Text → Bool
is_terminal s =
    text_eq s (codes "completed") || text_eq s (codes "partial") || text_eq s (codes "failed")

abbrev pub try_read_terminal : File → Read
try_read_terminal absent = read none none
try_read_terminal (file mtime blank) = read none (some mtime)
try_read_terminal (file mtime undecodable) = raises unicode_error
try_read_terminal (file mtime (bad_json e)) = decode_error e
try_read_terminal (file mtime (json untold value)) = read none (some mtime)
try_read_terminal (file mtime (json unhashable value)) = raises type_error
try_read_terminal (file mtime (json (named s) value)) =
    if is_terminal s then read (some value) (some mtime) else read none (some mtime)

-- The answer: the child's value, or one of the three failures made up; or an exception
pub data Answer : Type 0 where
  payload : Text → Answer
  malformed : Text → Answer
  cancelled : Answer
  idle_timeout : Answer
  exception : Fault → Answer

-- The file and the caller's wish at each pass, and what a pass takes on top of its sleep
pub record World : Type 0 where
  pub file_at : ℕ → File
  pub is_cancelled : ℕ → Bool
  pub delay : ℕ → ℕ

pub record Progress : Type 0 where
  pub pass : ℕ
  pub now : ℕ
  pub last_mtime : Option ℕ
  pub last_progress : ℕ

pub data Next : Type 0 where
  stop : Answer → Next
  go : Progress → Next

abbrev pub same_mtime : ℕ → Option ℕ → Bool
same_mtime m none = false
same_mtime m (some l) = m == l

-- A new time of change is progress.
abbrev pub observe : Option ℕ → Progress → Progress
observe none p = p
observe (some m) p =
    if same_mtime m p.last_mtime then p else record p { last_mtime = some m; last_progress = p.now }

abbrev pub sleep : World → Option ℕ → Progress → Next
sleep w none p = stop (exception index_error)
sleep w (some d) p = go (record p { pass = suc p.pass; now = p.now + d + w.delay p.pass })

abbrev pub check : World → ℕ → List ℕ → Progress → Next
check w timeout ladder p =
    if w.is_cancelled p.pass
    then stop cancelled
    else (if ltb timeout (p.now - p.last_progress)
        then stop idle_timeout
        else sleep w (get_elem? ladder (min p.pass (length ladder - 1))) p)

abbrev pub after_read : World → ℕ → List ℕ → Progress → Read → Next
after_read w timeout ladder p (raises e) = stop (exception e)
after_read w timeout ladder p (decode_error e) = stop (malformed e)
after_read w timeout ladder p (read (some value) mtime) = stop (payload value)
after_read w timeout ladder p (read none mtime) = check w timeout ladder (observe mtime p)

-- One pass of the `while`
unfoldable pub one_pass : World → ℕ → List ℕ → Progress → Next
one_pass w timeout ladder p = after_read w timeout ladder p (try_read_terminal (w.file_at p.pass))

unfoldable pub poll : ℕ → World → ℕ → List ℕ → Progress → Option Answer
unfolding one_pass
poll zero w timeout ladder p = none
poll (suc fuel) w timeout ladder p = elim (one_pass w timeout ladder p) [
  | stop a ↦ some a
  | go q ↦ poll fuel w timeout ladder q
]

-- The start, at a time of the clock
abbrev pub started : ℕ → Progress
started now = record { pass = 0; now = now; last_mtime = none; last_progress = now }

unfoldable pub poll_for_terminal_output : ℕ → World → ℕ → List ℕ → ℕ → Option Answer
unfolding poll
poll_for_terminal_output fuel w timeout ladder now = poll fuel w timeout ladder (started now)
