-- ===== src/Memory/Escalated.antt =====
-- The errors stored one after the other, and what the dispatcher makes of them
-- (services/error_memory_service.py, services/agent_service.py).
use diecast.Prelude.{
  ℕ, zero, suc, ◌+◌, ◌≤◌, ◌≡◌, refl, sym, ap, ◌∙◌, Bool, true, false, not, ◌&&◌, Option, none, some,
  List, [], ◌∷◌, ◌++◌, Text, text_eq, inl, inr, any, if◌then◌else◌, OneOf, arith, Bool-cases,
  none-ne-some, some-inj,
}
use diecast.Memory.{
  Resolution, escalated, ErrorMemory, Memories, Patterns, find_memory, status_for, upsert,
  store_error, store_errors, Entry, texts_of, message_of, extract_and_store_error, is_escalated,
  should_auto_retry,
}
use diecast.Memory.Found.{find-OneOf}
use diecast.Memory.Counted.{shown, expected, IsKept, upsert-IsKept, upsert-shown, raise}
use diecast.Runs.{Run, Service, get_agent_run, fail}
use diecast.Runs.Dispatch.{Agents, may_launch, blocked_message, dispatch_run}
use diecast.Runs.Idle.{get_agent_run-fields}

-- An error of a run of an agent
pub record Event : Type 0 where
  pub agent : Text
  pub run_id : Text
  pub error : Text
  pub at : ℕ

module _ (patterns : Patterns) where
  -- The errors stored one after the other
  unfoldable pub store_all : List Event → Memories → Memories
  unfolding store_error
  store_all [] s = s
  store_all (v ∷ vs) s = store_all vs (store_error patterns v.agent v.run_id v.error v.at s)

  -- How many of the errors are an agent's and have a pattern
  abbrev pub count_of : Text → Text → List Event → ℕ
  count_of a h [] = 0
  count_of a h (v ∷ vs) =
      (if text_eq v.agent a && text_eq (patterns.hash_of v.error) h then 1 else 0) + count_of a h vs

  counts_on :
      (a h : Text) (vs : List Event) (n : ℕ) (s : Memories)
      → IsKept s
      → shown (find_memory a h s.rows) ≡ expected n
      → shown (find_memory a h (store_all vs s).rows) ≡ expected (n + count_of a h vs)
  unfolding store_all store_error
  counts_on a h [] n s k e = e ∙ ap expected (omega arith)
  counts_on a h (v ∷ vs) n s k e =
      let found = find_memory v.agent (patterns.hash_of v.error) s.rows in
      let t = upsert patterns v.agent v.run_id v.error v.at s found in
      let after = upsert-shown patterns v.agent v.run_id v.error v.at s found refl k a h in
      let kept = upsert-IsKept patterns v.agent v.run_id v.error v.at s found k in
      elim (Bool-cases (text_eq v.agent a && text_eq (patterns.hash_of v.error) h)) [
        | inl it ↦ rw it (
            counts_on a h vs (suc n) t kept (
              after
              ∙ rw it (ap (raise patterns v.agent v.run_id v.error v.at) e ∙ raise-expected v n))
            ∙ ap expected (omega arith))
        | inr it ↦ rw it (counts_on a h vs n t kept (after ∙ rw it e) ∙ ap expected (omega arith))
      ]
    where
      raise-expected :
          (v : Event) (n : ℕ)
          → raise patterns v.agent v.run_id v.error v.at (expected n) ≡ expected (suc n)
      raise-expected v zero = refl
      raise-expected v (suc n) = ap (λ k. some (k, status_for k)) (omega arith)

abbrev pub no_memories : Memories
no_memories = record { rows = []; last_id = 0 }

no_memories-IsKept : IsKept no_memories
no_memories-IsKept = record { one_key = λ m n at_m. elim at_m [ ]; given = λ m at_m. elim at_m [ ] }

store_all-expected :
    (patterns : Patterns) (vs : List Event) (a h : Text)
    → shown (find_memory a h (store_all patterns vs no_memories).rows)
      ≡ expected (count_of patterns a h vs)
unfolding find_memory
store_all-expected patterns vs a h =
    counts_on patterns a h vs 0 no_memories no_memories-IsKept refl ∙ ap expected (omega arith)

-- The end of a run that failed, with the entries of its output and its message
pub record Report : Type 0 where
  pub agent : Text
  pub run_id : Text
  pub errors : List Entry
  pub error_message : Option Text
  pub at : ℕ

abbrev pub events_from : Report → List Text → List Event
events_from r [] = []
events_from r (e ∷ es) =
    record { agent = r.agent; run_id = r.run_id; error = e; at = r.at } ∷ events_from r es

abbrev pub events_of : List Report → List Event
events_of [] = []
events_of (r ∷ rs) = events_from r (texts_of r.errors ++ message_of r.error_message) ++ events_of rs

module _ (patterns : Patterns) where
  unfoldable pub report_all : List Report → Memories → Memories
  unfolding extract_and_store_error
  report_all [] s = s
  report_all (r ∷ rs) s =
      report_all rs
        (extract_and_store_error patterns r.agent r.run_id r.errors r.error_message r.at s)

  store_all-append :
      (vs us : List Event) (s : Memories)
      → store_all patterns (vs ++ us) s ≡ store_all patterns us (store_all patterns vs s)
  unfolding store_all
  store_all-append [] us s = refl
  store_all-append (v ∷ vs) us s =
      store_all-append vs us (store_error patterns v.agent v.run_id v.error v.at s)

  store_errors-store_all :
      (r : Report) (es : List Text) (s : Memories)
      → store_errors patterns r.agent r.run_id r.at es s ≡ store_all patterns (events_from r es) s
  unfolding store_errors store_all
  store_errors-store_all r [] s = refl
  store_errors-store_all r (e ∷ es) s =
      store_errors-store_all r es (store_error patterns r.agent r.run_id e r.at s)

  report_all-store_all :
      (rs : List Report) (s : Memories) → report_all rs s ≡ store_all patterns (events_of rs) s
  unfolding report_all store_all extract_and_store_error
  report_all-store_all [] s = refl
  report_all-store_all (r ∷ rs) s =
      let texts = texts_of r.errors ++ message_of r.error_message in
      report_all-store_all rs (store_errors patterns r.agent r.run_id r.at texts s)
      ∙ ap (store_all patterns (events_of rs)) (store_errors-store_all r texts s)
      ∙ sym (store_all-append (events_from r texts) (events_of rs) s)

-- After failed runs are reported to an empty table, an agent's pattern shows as many occurrences as
-- there were entries and messages of it, and is escalated from the third on.
pub report_all-expected :
    (patterns : Patterns) (rs : List Report) (a h : Text)
    → shown (find_memory a h (report_all patterns rs no_memories).rows)
      ≡ expected (count_of patterns a h (events_of rs))
report_all-expected patterns rs a h =
    ap (λ (s : Memories). shown (find_memory a h s.rows))
      (report_all-store_all patterns rs no_memories)
    ∙ store_all-expected patterns (events_of rs) a h

any_of :
    (p : ErrorMemory → Bool) (m : ErrorMemory) (rows : List ErrorMemory)
    → OneOf m rows
    → p m ≡ true
    → any p rows ≡ true
any_of p m [] at_m h = elim at_m [ ]
any_of p m (x ∷ xs) at_m h = elim at_m [
  | inl e ↦ ground (arith, ap p e, h)
  | inr k ↦ ground (arith, any_of p m xs k h)
]

shown_escalated :
    (a h : Text) (rows : List ErrorMemory) (n : ℕ)
    → shown (find_memory a h rows) ≡ some (n, escalated)
    → should_auto_retry a rows ≡ false
unfolding should_auto_retry
shown_escalated a h rows n e = go (find_memory a h rows) refl e
  where
    go :
        (o : Option ErrorMemory)
        → find_memory a h rows ≡ o
        → shown o ≡ some (n, escalated)
        → not (
            any
              (λ (m : ErrorMemory). text_eq m.agent_name a && is_escalated m.resolution_status)
              rows)
          ≡ false
    go none f k = absurd (none-ne-some k)
    go (some m) f k =
        let (at_m, key) = find-OneOf a h rows m f in
        let status : m.resolution_status ≡ escalated =
          ap (λ (x : ℕ × Resolution). x.1) (some-inj k) in
        ap not (
          any_of (λ (x : ErrorMemory). text_eq x.agent_name a && is_escalated x.resolution_status) m
            rows at_m (ground (arith, key, ap is_escalated status)))

expected_escalated : (n : ℕ) → 3 ≤ n → expected n ≡ some (n, escalated)
expected_escalated zero h = absurd (omega (arith, h))
expected_escalated (suc n) h = ground (arith, h)

-- After reports to an empty table with three or more errors of one pattern of an agent, a run of the
-- agent that the dispatcher takes up is failed with the message about escalated patterns, and not launched.
pub report_all-dispatch_run :
    (patterns : Patterns) (rs : List Report) (h : Text) (problem : Text → Option Text)
    (now i : Text) (s : Service) (r : Run)
    → 3 ≤ count_of patterns r.agent_name h (events_of rs)
    → get_agent_run i s.runs ≡ some r
    → get_agent_run i
        (dispatch_run
          (record {
            should_auto_retry = λ a. should_auto_retry a (report_all patterns rs no_memories).rows;
            problem = problem;
          })
          now
          i
          s).runs
      ≡ some (fail blocked_message now r)
unfolding dispatch_run
report_all-dispatch_run patterns rs h problem now i s r often found =
    let rows = (report_all patterns rs no_memories).rows in
    let shows : shown (find_memory r.agent_name h rows)
        ≡ some (count_of patterns r.agent_name h (events_of rs), escalated) =
      report_all-expected patterns rs r.agent_name h
      ∙ expected_escalated (count_of patterns r.agent_name h (events_of rs)) often in
    let blocked : should_auto_retry r.agent_name rows ≡ false =
      shown_escalated r.agent_name h rows (count_of patterns r.agent_name h (events_of rs)) shows in
    let agents : Agents = record {
      should_auto_retry = λ a. should_auto_retry a rows;
      problem = problem;
    } in
    let refused : may_launch agents (get_agent_run i s.runs) ≡ false =
      ap (may_launch agents) found ∙ blocked in
    rw refused (get_agent_run-fields i (fail blocked_message now) (λ x. refl) s.runs r found)
