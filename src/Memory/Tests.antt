-- ===== src/Memory/Tests.antt =====
-- One agent whose runs fail alike (services/error_memory_service.py).
use diecast.Prelude.{◌≡◌, refl, false, none, some, [], ◌∷◌, Text, codes, arith}
use diecast.Memory.{
  unresolved, escalated, Patterns, text, find_memory, extract_and_store_error, resolve_memory,
  should_auto_retry,
}
use diecast.Memory.Counted.{shown}
use diecast.Memory.Escalated.{
  Report, report_all, no_memories, report_all-expected, report_all-dispatch_run,
}
use diecast.Runs.{pending, Run, Service, absent, get_agent_run, fail}
use diecast.Runs.Dispatch.{blocked_message, dispatch_run}

-- The text itself in place of the hash
abbrev patterns : Patterns
patterns = record { hash_of = λ t. t; category_of = λ t. codes "timeout" }

abbrev report_of : Text → Report
report_of i = record {
  agent = codes "maker";
  run_id = i;
  errors = text (codes "late") ∷ [];
  error_message = some (codes "late");
  at = 1;
}

-- The run's one error is stored a second time as the message that is made of it.
counted_twice :
    shown (
      find_memory
        (codes "maker")
        (codes "late")
        (extract_and_store_error patterns
          (codes "maker")
          (codes "a")
          (text (codes "late") ∷ [])
          (some (codes "late"))
          1
          no_memories).rows)
    ≡ some (2, unresolved)
unfolding extract_and_store_error find_memory
counted_twice = refl

report_all-expected_example :
    shown (
      find_memory
        (codes "maker")
        (codes "late")
        (report_all patterns (report_of (codes "a") ∷ report_of (codes "b") ∷ []) no_memories).rows)
    ≡ some (4, escalated)
report_all-expected_example =
    report_all-expected patterns (report_of (codes "a") ∷ report_of (codes "b") ∷ [])
      (codes "maker") (codes "late")

-- A resolved pattern that occurs again is escalated at once.
resolved_run :
    should_auto_retry
      (codes "maker")
      (report_all patterns (report_of (codes "c") ∷ []) (
        resolve_memory 1 (codes "fixed") (
          report_all patterns
            (report_of (codes "a") ∷ report_of (codes "b") ∷ [])
            no_memories))).rows
    ≡ false
unfolding should_auto_retry report_all resolve_memory
resolved_run = refl

abbrev run : Run
run = record {
  id = codes "c";
  agent_name = codes "maker";
  goal_slug = codes "goal";
  status = pending;
  parent_run_id = none;
  scheduled_at = none;
  created_at = codes "1";
  started_at = none;
  completed_at = none;
  error_message = none;
  needs_attention = false;
}

abbrev service : Service
service = record {
  runs = run ∷ [];
  idle_since = λ i. none;
  total_paused = λ i. none;
  cooldown_until = λ i. none;
  current_pause = λ i. none;
  done_file = λ i. false;
  output_file = λ i. absent;
}

report_all-dispatch_run_example :
    get_agent_run
      (codes "c")
      (dispatch_run
        (record {
          should_auto_retry = λ a.
              should_auto_retry a
                (report_all patterns
                  (report_of (codes "a") ∷ report_of (codes "b") ∷ [])
                  no_memories).rows;
          problem = λ i. none;
        })
        (codes "9")
        (codes "c")
        service).runs
    ≡ some (fail blocked_message (codes "9") run)
unfolding get_agent_run
report_all-dispatch_run_example =
    report_all-dispatch_run patterns (report_of (codes "a") ∷ report_of (codes "b") ∷ [])
      (codes "late") (λ i. none) (codes "9") (codes "c") service run (omega arith) refl
