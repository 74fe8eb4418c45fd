-- ===== src/Polling/Tests.antt =====
-- Children that answer, fall silent or break, at concrete inputs (agents/_shared/polling.py).
use diecast.Prelude.{ℕ, zero, suc, ◌<◌, ◌≡◌, refl, false, some, List, [], ◌∷◌, codes, arith}
use diecast.Polling.{
  File, absent, file, blank, undecodable, bad_json, json, named, unhashable, Answer, payload,
  malformed, idle_timeout, index_error, exception, unicode_error, type_error, World,
  poll_for_terminal_output,
}
use diecast.Polling.Ends.{IsSilent, poll_for_terminal_output_ends}
use diecast.Polling.Silent.{Waiting, Ended, poll_for_terminal_output-Ended}

-- Nothing, then an empty file, then the output
abbrev writes : ℕ → File
writes zero = absent
writes (suc zero) = file 5 blank
writes (suc (suc k)) = file 9 (json (named (codes "completed")) (codes "done"))

abbrev child : (ℕ → File) → World
child f = record { file_at = f; is_cancelled = λ k. false; delay = λ k. 0 }

abbrev ladder : List ℕ
ladder = 1 ∷ 2 ∷ 5 ∷ []

child_run : poll_for_terminal_output 9 (child writes) 300 ladder 100 ≡ some (payload (codes "done"))
unfolding poll_for_terminal_output
child_run = refl

silent_run :
    poll_for_terminal_output 9
      (child (λ k. file 5 (json (named (codes "running")) [])))
      10
      ladder
      100
    ≡ some idle_timeout
unfolding poll_for_terminal_output
silent_run = refl

broken_run :
    poll_for_terminal_output 9 (child (λ k. file 5 (bad_json (codes "x")))) 10 ladder 100
    ≡ some (malformed (codes "x"))
unfolding poll_for_terminal_output
broken_run = refl

-- An empty ladder ends in an exception.
no_ladder_run : poll_for_terminal_output 9 (child writes) 10 [] 100 ≡ some (exception index_error)
unfolding poll_for_terminal_output
no_ladder_run = refl

-- Bytes that are no UTF-8, and a status that is a list, end in exceptions.
undecodable_run :
    poll_for_terminal_output 9 (child (λ k. file 5 undecodable)) 10 ladder 100
    ≡ some (exception unicode_error)
unfolding poll_for_terminal_output
undecodable_run = refl

unhashable_run :
    poll_for_terminal_output 9 (child (λ k. file 5 (json unhashable []))) 10 ladder 100
    ≡ some (exception type_error)
unfolding poll_for_terminal_output
unhashable_run = refl

poll_for_terminal_output-Ended_example :
    (k : ℕ) × (k < 9)
    × ((j : ℕ) → j < k → Waiting (child writes) 300 ladder 100 j)
    × Ended (child writes) 300 ladder 100 k (payload (codes "done"))
poll_for_terminal_output-Ended_example =
    poll_for_terminal_output-Ended (child writes) 300 ladder 100 9 (payload (codes "done"))
      child_run

writes-IsSilent : IsSilent (child writes) 2
writes-IsSilent zero le = absurd (omega (arith, le))
writes-IsSilent (suc zero) le = absurd (omega (arith, le))
writes-IsSilent (suc (suc k)) le = refl

poll_for_terminal_output_ends_example :
    (a : Answer) × (poll_for_terminal_output 305 (child writes) 300 ladder 100 ≡ some a)
poll_for_terminal_output_ends_example =
    poll_for_terminal_output_ends (child writes) 300 ladder 100 2 refl writes-IsSilent
