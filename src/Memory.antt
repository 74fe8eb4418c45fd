-- ===== src/Memory.antt =====
-- services/error_memory_service.py: the errors that an agent's runs had, and when one is escalated.
pub mod Found
pub mod Counted
pub mod Escalated
mod Tests
use diecast.Prelude.{
  ℕ, zero, suc, ◌+◌, Bool, true, false, not, ◌&&◌, ◌||◌, Option, none, some, List, [], ◌∷◌, ◌++◌,
  map, Text, codes, text_eq, any, max, leb, take, ◌==◌, if◌then◌else◌,
}

pub data Resolution : Type 0 where
  unresolved : Resolution
  escalated : Resolution
  resolved : Resolution

-- A row of `agent_error_memories`; times are numbers.
pub record ErrorMemory : Type 0 where
  pub id : ℕ
  pub agent_name : Text
  pub error_pattern : Text
  pub pattern_hash : Text
  pub error_category : Text
  pub is_transient : Bool
  pub occurrence_count : ℕ
  pub first_seen : ℕ
  pub last_seen : ℕ
  pub run_ids : List Text
  pub resolution : Option Text
  pub resolution_status : Resolution
  pub suppress_after_days : Option ℕ
  pub inject_as_context : Bool

-- The table, with the last id that it gave
pub record Memories : Type 0 where
  pub rows : List ErrorMemory
  pub last_id : ℕ

-- The regular expressions and the hash: the pattern's hash and the category of an error's text
pub record Patterns : Type 0 where
  pub hash_of : Text → Text
  pub category_of : Text → Text

abbrev pub is_transient_category : Text → Bool
is_transient_category c =
    text_eq c (codes "rate_limit")
    || text_eq c (codes "timeout")
    || text_eq c (codes "external_service")

abbrev pub has_key : Text → Text → ErrorMemory → Bool
has_key agent hash m = text_eq m.agent_name agent && text_eq m.pattern_hash hash

unfoldable pub find_memory : Text → Text → List ErrorMemory → Option ErrorMemory
find_memory agent hash [] = none
find_memory agent hash (m ∷ ms) =
    let rest = find_memory agent hash ms in if has_key agent hash m then some m else rest

abbrev pub status_for : ℕ → Resolution
status_for n = if leb 3 n then escalated else unresolved

-- One more occurrence
abbrev pub recur : Text → ℕ → ErrorMemory → ErrorMemory
recur run_id now m = record m {
  occurrence_count = m.occurrence_count + 1;
  last_seen = now;
  run_ids = m.run_ids ++ run_id ∷ [];
  resolution_status = status_for (m.occurrence_count + 1);
}

abbrev pub recur_at : ℕ → Text → ℕ → ErrorMemory → ErrorMemory
recur_at i run_id now m = if m.id == i then recur run_id now m else m

abbrev pub new_memory : Patterns → Text → Text → Text → ℕ → ℕ → ErrorMemory
new_memory patterns agent run_id error now i =
    let transient = is_transient_category (patterns.category_of error) in
    record {
      id = i;
      agent_name = agent;
      error_pattern = take 500 error;
      pattern_hash = patterns.hash_of error;
      error_category = patterns.category_of error;
      is_transient = transient;
      occurrence_count = 1;
      first_seen = now;
      last_seen = now;
      run_ids = run_id ∷ [];
      resolution = none;
      resolution_status = unresolved;
      suppress_after_days = if transient then some 7 else none;
      inject_as_context = true;
    }

abbrev pub upsert : Patterns → Text → Text → Text → ℕ → Memories → Option ErrorMemory → Memories
upsert patterns agent run_id error now s none = record {
  rows = s.rows ++ new_memory patterns agent run_id error now (suc s.last_id) ∷ [];
  last_id = suc s.last_id;
}
upsert patterns agent run_id error now s (some m) = record s {
  rows = map (recur_at m.id run_id now) s.rows;
}

-- The pass of the loop for one error
unfoldable pub store_error : Patterns → Text → Text → Text → ℕ → Memories → Memories
unfolding find_memory
store_error patterns agent run_id error now s =
    upsert patterns agent run_id error now s (find_memory agent (patterns.hash_of error) s.rows)

unfoldable pub store_errors : Patterns → Text → Text → ℕ → List Text → Memories → Memories
unfolding store_error
store_errors patterns agent run_id now [] s = s
store_errors patterns agent run_id now (e ∷ es) s =
    store_errors patterns agent run_id now es (store_error patterns agent run_id e now s)

-- An entry of the output's `errors`
pub data Entry : Type 0 where
  text : Text → Entry
  with_message : Text → Entry
  other : Entry

abbrev pub texts_of : List Entry → List Text
texts_of [] = []
texts_of (text t ∷ es) = t ∷ texts_of es
texts_of (with_message t ∷ es) = t ∷ texts_of es
texts_of (other ∷ es) = texts_of es

abbrev pub message_of : Option Text → List Text
message_of none = []
message_of (some []) = []
message_of (some (c ∷ t)) = (c ∷ t) ∷ []

unfoldable pub extract_and_store_error :
    Patterns → Text → Text → List Entry → Option Text → ℕ → Memories → Memories
unfolding store_errors
extract_and_store_error patterns agent run_id errors error_message now s =
    store_errors patterns agent run_id now (texts_of errors ++ message_of error_message) s

abbrev pub is_escalated : Resolution → Bool
is_escalated escalated = true
is_escalated r = false

unfoldable pub should_auto_retry : Text → List ErrorMemory → Bool
should_auto_retry agent rows =
    not (
      any (λ (m : ErrorMemory). text_eq m.agent_name agent && is_escalated m.resolution_status)
        rows)

abbrev pub resolve_row : ℕ → Text → ErrorMemory → ErrorMemory
resolve_row memory_id resolution m =
    if m.id == memory_id
    then record m {
      resolution = some resolution;
      resolution_status = resolved;
      inject_as_context = false;
    }
    else m

unfoldable pub resolve_memory : ℕ → Text → Memories → Memories
resolve_memory memory_id resolution s = record s {
  rows = map (resolve_row memory_id resolution) s.rows;
}
