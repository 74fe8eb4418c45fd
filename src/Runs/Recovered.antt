-- ===== src/Runs/Recovered.antt =====
-- What the recovery at startup leaves (services/agent_service.py).
use diecast.Prelude.{
  ◌≡◌, refl, sym, Bool, true, false, not, ◌&&◌, ◌||◌, Option, none, some, List, [], ◌∷◌, Text,
  codes, text_eq, text_eq_swap, text_eq_refl, same_image, ◌⊎◌, all, any, filter, if◌then◌else◌,
  arith, Bool-cases, inl, inr, some-inj, none-ne-some, true-ne-false,
}
use mathlib.Core.Path.{subst}
use diecast.Runs.{
  Status, pending, scheduled, running, rate_limited, stuck, completed, partial, failed, other, Run,
  Output, absent, malformed, parsed, Service, update_agent_run, get_agent_run, fail,
}
use diecast.Runs.Finish.{
  Env, final_status, finish, finalize_run, recheck_found, recheck_failed_run, can_recheck, is_text,
  has_files, is_pending, is_watched, is_stale, Recovery, force_fail, or_keep, or_fail, recover_row,
  recover_rows, recover_stale_runs,
}

-- The statuses that the output contract allows
abbrev pub in_contract : Status → Bool
in_contract completed = true
in_contract partial = true
in_contract failed = true
in_contract s = false

abbrev pub keeps_contract : Output → Bool
keeps_contract absent = true
keeps_contract (malformed e) = true
keeps_contract (parsed st errors attention) = in_contract st

contract_unwatched : (o : Output) → keeps_contract o ≡ true → is_watched (final_status o) ≡ false
contract_unwatched absent h = refl
contract_unwatched (malformed e) h = refl
contract_unwatched (parsed pending es a) h = refl
contract_unwatched (parsed scheduled es a) h = refl
contract_unwatched (parsed running es a) h = absurd (true-ne-false (sym h))
contract_unwatched (parsed rate_limited es a) h = absurd (true-ne-false (sym h))
contract_unwatched (parsed stuck es a) h = refl
contract_unwatched (parsed completed es a) h = refl
contract_unwatched (parsed partial es a) h = refl
contract_unwatched (parsed failed es a) h = refl
contract_unwatched (parsed (other t) es a) h = refl

abbrev stale : Run → Bool
stale r = is_stale r.status

chosen : {A : Type 0} {x y : A} (b : Bool) → (if b then some x else none) ≡ some y → x ≡ y
chosen true e = some-inj e
chosen false e = absurd (none-ne-some e)

module _ (session_exists : Text → Bool) where
  -- A watched run has a live session, or a watched row of the list is still to come for it.
  abbrev awaits : List Run → Text → Bool
  awaits rows i = any (λ (x : Run). is_watched x.status && text_eq x.id i) rows

  abbrev pub is_kept : List Run → Run → Bool
  is_kept rows r = not (is_watched r.status) || session_exists r.id || awaits rows r.id

  -- A row that writes an unwatched status into every run with its id is done with.
  update-Kept :
      (row : Run) (rows : List Run) (f : Run → Run)
      → ((r : Run) → is_watched (f r).status ≡ false)
      → (rs : List Run) → all (is_kept (row ∷ rows)) rs ≡ true
      → all (is_kept rows) (update_agent_run row.id f rs) ≡ true
  unfolding update_agent_run
  update-Kept row rows f dead [] h = refl
  update-Kept row rows f dead (r ∷ rs) h =
      ground (arith, h, dead r, update-Kept row rows f dead rs, text_eq_swap row.id r.id)

  skip-Kept :
      (row : Run) (rows rs : List Run)
      → (is_watched row.status ≡ false) ⊎ (session_exists row.id ≡ true)
      → all (is_kept (row ∷ rows)) rs ≡ true
      → all (is_kept rows) rs ≡ true
  skip-Kept row rows [] why h = refl
  skip-Kept row rows (r ∷ rs) why h =
      ground (arith, h, why, same_image session_exists row.id r.id, skip-Kept row rows rs why)

  -- Where every output keeps the contract, the rows `rows` are left to recover.
  abbrev Good : List Run → Service → Type 0
  Good rows s =
      (all (is_kept rows) s.runs ≡ true) × ((i : Text) → keeps_contract (s.output_file i) ≡ true)

  module _ (env : Env) (now : Text) where
    recheck_found-Good :
        (row : Run) (rows : List Run) (s : Service) (o : Option Run) (t : Service)
        → recheck_found env row.id now s o ≡ some t
        → Good (row ∷ rows) s
        → Good rows t
    unfolding finalize_run finish update_agent_run
    recheck_found-Good row rows s none t e h = absurd (none-ne-some e)
    recheck_found-Good row rows s (some r) t e h =
        subst (Good rows)
          (chosen
            (can_recheck r.status
              && (is_text r.goal_slug || is_text (env.params_goal row.id))
              && has_files row.id s)
            e)
          (
            update-Kept row rows (finish env now (s.output_file row.id))
                (λ r. contract_unwatched (s.output_file row.id) (h.1 row.id)) s.runs h.0,
            h.1,
          )

    force_fail-Good :
        (row : Run) (rows : List Run) (s : Service) (recovered : List Text)
        → Good (row ∷ rows) s
        → Good rows (force_fail row.id now (s, recovered)).0
    unfolding force_fail
    force_fail-Good row rows s recovered h = (
      update-Kept row rows (fail (codes "Orphaned by server restart — tmux session not found") now)
          (λ r. refl) s.runs h.0,
      h.1,
    )

    or_fail-Good :
        (row : Run) (rows : List Run) (s : Service) (recovered : List Text) (o : Option Service)
        → ((t : Service) → o ≡ some t → Good rows t)
        → Good (row ∷ rows) s
        → Good rows (or_fail row.id now o (s, recovered)).0
    unfolding force_fail
    or_fail-Good row rows s recovered none g h = force_fail-Good row rows s recovered h
    or_fail-Good row rows s recovered (some t) g h = g t refl

    or_keep-Good :
        (row : Run) (rows : List Run) (s : Service) (recovered : List Text) (o : Option Service)
        → ((t : Service) → o ≡ some t → Good rows t)
        → Good rows s
        → Good rows (or_keep row.id o (s, recovered)).0
    or_keep-Good row rows s recovered none g h = h
    or_keep-Good row rows s recovered (some t) g h = g t refl

    pending_unwatched : (st : Status) → is_pending st ≡ true → is_watched st ≡ false
    pending_unwatched pending e = refl
    pending_unwatched scheduled e = refl
    pending_unwatched running e = absurd (true-ne-false (sym e))
    pending_unwatched rate_limited e = absurd (true-ne-false (sym e))
    pending_unwatched stuck e = refl
    pending_unwatched completed e = refl
    pending_unwatched partial e = refl
    pending_unwatched failed e = refl
    pending_unwatched (other t) e = refl

    recover_row-Good :
        (row : Run) (rows : List Run) (s : Service) (recovered : List Text)
        → Good (row ∷ rows) s
        → Good rows (recover_row env session_exists now row (s, recovered)).0
    unfolding recover_row recheck_failed_run
    recover_row-Good row rows s recovered h =
        let got : (t : Service) → recheck_failed_run env row.id now s ≡ some t → Good rows t =
          λ t e. recheck_found-Good row rows s (get_agent_run row.id s.runs) t e h in
        elim (Bool-cases (is_pending row.status)) [
          | inl p ↦ rw p (
              or_keep-Good row rows s recovered (recheck_failed_run env row.id now s) got
                (skip-Kept row rows s.runs (inl (pending_unwatched row.status p)) h.0, h.1))
          | inr p ↦ rw p (elim (Bool-cases (session_exists row.id)) [
            | inl a ↦ rw a (skip-Kept row rows s.runs (inr a) h.0, h.1)
            | inr a ↦ rw a (elim (Bool-cases (has_files row.id s)) [
              | inl f ↦
                  rw f
                    (or_fail-Good row rows s recovered (recheck_failed_run env row.id now s) got h)
              | inr f ↦ rw f (force_fail-Good row rows s recovered h)
            ])
          ])
        ]

    recover_rows-Good :
        (rows : List Run) (w : Recovery)
        → Good rows w.0
        → Good [] (recover_rows env session_exists now rows w).0
    unfolding recover_rows
    recover_rows-Good [] w h = h
    recover_rows-Good (row ∷ rows) w h =
        recover_rows-Good rows (recover_row env session_exists now row w)
          (recover_row-Good row rows w.0 w.1 h)

  more_Kept :
      (row : Run) (rows rs : List Run)
      → all (is_kept rows) rs ≡ true
      → all (is_kept (row ∷ rows)) rs ≡ true
  more_Kept row rows [] h = refl
  more_Kept row rows (r ∷ rs) h = ground (arith, h, more_Kept row rows rs)

  stale_Kept : (rs : List Run) → all (is_kept (filter stale rs)) rs ≡ true
  stale_Kept [] = refl
  stale_Kept (r ∷ rs) = elim (Bool-cases (is_stale r.status)) [
    | inl e ↦
        let kept : filter stale (r ∷ rs) ≡ r ∷ filter stale rs = rw e refl in
        subst (λ rows. all (is_kept rows) (r ∷ rs) ≡ true) (sym kept)
          (ground (arith, text_eq_refl r.id, more_Kept r (filter stale rs) rs (stale_Kept rs)))
    | inr e ↦
        let left : filter stale (r ∷ rs) ≡ filter stale rs = rw e refl in
        subst (λ rows. all (is_kept rows) (r ∷ rs) ≡ true) (sym left)
          (ground (arith, e, stale_Kept rs))
  ]

-- A run that the monitor is to watch has its session.
abbrev pub has_session : (Text → Bool) → Run → Bool
has_session session_exists r = not (is_watched r.status) || session_exists r.id

-- Where every output on disk keeps the output contract, each run that is running or rate-limited
-- after the recovery at startup has a live session, whatever the files and sessions were.
pub recover_stale_runs-has_session :
    (env : Env) (session_exists : Text → Bool) (now : Text) (s : Service)
    → ((i : Text) → keeps_contract (s.output_file i) ≡ true)
    → all (has_session session_exists) (recover_stale_runs env session_exists now s).0.runs ≡ true
unfolding recover_stale_runs
recover_stale_runs-has_session env session_exists now s h =
    ended (recover_rows env session_exists now (filter stale s.runs) (s, [])).0.runs
      (recover_rows-Good session_exists env now (filter stale s.runs) (s, [])
        (stale_Kept session_exists s.runs, h)).0
  where
    ended :
        (rs : List Run)
        → all (is_kept session_exists []) rs ≡ true
        → all (has_session session_exists) rs ≡ true
    ended [] k = refl
    ended (r ∷ rs) k = ground (arith, k, ended rs)
