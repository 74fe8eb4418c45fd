-- ===== src/Runs/Idle.antt =====
-- What the monitor makes of an idle pane and of a shell (services/agent_service.py, infra/state_detection.py).
use diecast.Prelude.{
  ℕ, ◌-◌, ◌≡◌, ◌≢◌, refl, sym, ap, ◌∙◌, Bool, true, false, some, List, [], ◌∷◌, Text, text_eq,
  text_eq_refl, inl, inr, ◌⊎◌, any, join, leb, if◌then◌else◌, arith, Bool-cases, none-ne-some,
  some-inj,
}
use mathlib.Core.Path.{subst}
use diecast.Runs.{stuck, Run, Status, Service, update_agent_run, get_agent_run, set_at}
use diecast.Runs.Finish.{Env, has_files}
use diecast.Runs.Monitor.{
  idle, shell_returned, unknown, has_input_field, is_some, is_other_command, detect_by_text,
  detect_agent_state, pane_content, Watch, Clock, or_now, mark_idle, track_idle, handle_idle,
  handle_state_transition, state_of,
}

detect_by_text-shell_returned :
    (text : Text) (has_field : Bool) → detect_by_text text has_field ≢ shell_returned
unfolding detect_by_text
detect_by_text-shell_returned text has_field = ground arith

detect-shell_returned :
    (lines : List Text) (pane_command : Text)
    → is_other_command pane_command ≡ false
    → detect_agent_state lines pane_command ≢ shell_returned
unfolding detect_agent_state
detect-shell_returned [] pane_command claude e = cc
detect-shell_returned (l ∷ ls) pane_command claude e =
    detect_by_text-shell_returned (join (10 ∷ []) (l ∷ ls)) (is_some (has_input_field (l ∷ ls))) (
      ap
        (λ (b : Bool).
          if b
          then shell_returned
          else detect_by_text (join (10 ∷ []) (l ∷ ls)) (is_some (has_input_field (l ∷ ls))))
        (sym claude)
      ∙ e)

-- Whatever its pane holds and its command is, the monitor never sees that a shell has returned:
-- of a command other than claude it captures no lines, and of no lines the state is unknown.
pub state_of-shell_returned :
    (watch : Watch) (run_id : Text)
    → (state_of watch run_id ≢ shell_returned)
      × ((is_other_command (watch.pane_command run_id) ≡ false) ⊎ (state_of watch run_id ≡ unknown))
unfolding state_of
state_of-shell_returned watch run_id =
    elim (Bool-cases (is_other_command (watch.pane_command run_id))) [
      | inl e ↦ (rw (no_lines e) (λ k. cc), inr (rw (no_lines e) refl))
      | inr e ↦ (
        detect-shell_returned (pane_content (watch.pane_command run_id) (watch.capture_pane run_id))
            (watch.pane_command run_id) e,
        inl e,
      )
    ]
  where
    no_lines :
        is_other_command (watch.pane_command run_id) ≡ true
        → pane_content (watch.pane_command run_id) (watch.capture_pane run_id) ≡ []
    no_lines e = ground (arith, e)

-- The idle pane of one run, seen at each of these times
unfoldable pub idle_rounds : Env → Watch → Run → List Clock → Service → Service
unfolding handle_state_transition
idle_rounds env watch run [] s = s
idle_rounds env watch run (c ∷ cs) s =
    idle_rounds env watch run cs (handle_state_transition env watch c run idle s)

pub get_agent_run-fields :
    (i : Text) (f : Run → Run)
    → ((r : Run) → (f r).id ≡ r.id)
    → (rs : List Run) (r : Run) → get_agent_run i rs ≡ some r
    → get_agent_run i (update_agent_run i f rs) ≡ some (f r)
unfolding get_agent_run update_agent_run
get_agent_run-fields i f keeps [] r e = absurd (none-ne-some e)
get_agent_run-fields i f keeps (x ∷ xs) r e = elim (Bool-cases (text_eq x.id i)) [
  | inl k ↦
      let it : some x ≡ some r =
        ap (λ (b : Bool). if b then some x else get_agent_run i xs) (sym k) ∙ e in
      rw (k, ap (λ (j : Text). text_eq j i) (keeps x) ∙ k)
        (ap (λ (y : Run). some (f y)) (some-inj it))
  | inr k ↦
      let later : get_agent_run i xs ≡ some r =
        ap (λ (b : Bool). if b then some x else get_agent_run i xs) (sym k) ∙ e in
      rw (k, k) (get_agent_run-fields i f keeps xs r later)
]

abbrev is_time : Watch → ℕ → Clock → Bool
is_time watch since c = leb watch.idle_stuck (c.seconds - since)

-- The service holds the run idle since then, with no files and this status.
abbrev pub Idles : Text → ℕ → Status → Service → Type 0
Idles i since st s =
    (s.idle_since i ≡ some since)
    × (has_files i s ≡ false)
    × ((r : Run) × (get_agent_run i s.runs ≡ some r) × (r.status ≡ st))

mark_idle-Idles :
    (watch : Watch) (i : Text) (since d : ℕ) (st : Status) (s : Service)
    → Idles i since st s
    → Idles i since (if leb watch.idle_stuck d then stuck else st) (mark_idle watch i d s)
unfolding mark_idle
mark_idle-Idles watch i since d st s (timed, no_files, (r, here, is_st)) =
    elim (Bool-cases (leb watch.idle_stuck d)) [
      | inl e ↦ rw e (
        timed,
        no_files,
        (
          record r { status = stuck },
          get_agent_run-fields i (λ x. record x { status = stuck }) (λ x. refl) s.runs r here,
          refl,
        ),
      )
      | inr e ↦ rw e (elim (Bool-cases (leb watch.idle_warning d)) [
        | inl w ↦ rw w (
          timed,
          no_files,
          (
            record r { needs_attention = true },
            get_agent_run-fields i (λ x. record x { needs_attention = true }) (λ x. refl) s.runs r
                here,
            is_st,
          ),
        )
        | inr w ↦ rw w (timed, no_files, (r, here, is_st))
      ])
    ]

module _ (env : Env) (watch : Watch) (run : Run)
    (timed : watch.interactive run.agent_name ≡ false) where
  round-Idles :
      (c : Clock) (since : ℕ) (st : Status) (s : Service)
      → or_now c.seconds (s.idle_since run.id) ≡ since
      → has_files run.id s ≡ false
      → (r : Run) → get_agent_run run.id s.runs ≡ some r
      → r.status ≡ st
      → Idles run.id since
          (if is_time watch since c then stuck else st)
          (handle_state_transition env watch c run idle s)
  unfolding handle_state_transition handle_idle track_idle
  round-Idles c since st s begun no_files r here is_st =
      rw (no_files, timed, begun)
        (mark_idle-Idles watch run.id since (c.seconds - since) st
          (record s { idle_since = set_at run.id (some since) s.idle_since })
          (at_id, no_files, (r, here, is_st)))
    where
      at_id : set_at run.id (some since) s.idle_since run.id ≡ some since
      at_id = rw (text_eq_refl run.id) refl

  rounds-Idles :
      (cs : List Clock) (since : ℕ) (st : Status) (s : Service)
      → Idles run.id since st s
      → Idles run.id since
          (if any (is_time watch since) cs then stuck else st)
          (idle_rounds env watch run cs s)
  unfolding idle_rounds
  rounds-Idles [] since st s h = h
  rounds-Idles (c ∷ cs) since st s h =
      let (begun, no_files, (r, here, is_st)) = h in
      let u = handle_state_transition env watch c run idle s in
      let one : Idles run.id since (if is_time watch since c then stuck else st) u =
        round-Idles c since st s (ap (or_now c.seconds) begun) no_files r here is_st in
      subst (λ (x : Status). Idles run.id since x (idle_rounds env watch run cs u)) (ground arith)
        (rounds-Idles cs since (if is_time watch since c then stuck else st) u one)

-- A run of a non-interactive agent with no files whose pane is idle at each of a series of checks
-- is stuck after them where one check comes the limit after the time at which the agent was first
-- seen idle, which is the first check's where no timer runs; else it has the status it had.
pub idle_rounds-stuck :
    (env : Env) (watch : Watch) (run r : Run) (c : Clock) (cs : List Clock) (s : Service)
    → watch.interactive run.agent_name ≡ false
    → has_files run.id s ≡ false
    → get_agent_run run.id s.runs ≡ some r
    → (t : Run) × (get_agent_run run.id (idle_rounds env watch run (c ∷ cs) s).runs ≡ some t)
      × (t.status ≡ (
          if any
            (λ (x : Clock).
              leb watch.idle_stuck (x.seconds - or_now c.seconds (s.idle_since run.id)))
            (c ∷ cs)
          then stuck
          else r.status))
unfolding idle_rounds
idle_rounds-stuck env watch run r c cs s timed no_files here =
    let since = or_now c.seconds (s.idle_since run.id) in
    let u = handle_state_transition env watch c run idle s in
    let one : Idles run.id since (if is_time watch since c then stuck else r.status) u =
      round-Idles env watch run timed c since r.status s refl no_files r here refl in
    let (begun, still, (t, found, is_st)) =
      rounds-Idles env watch run timed cs since (if is_time watch since c then stuck else r.status)
        u one in
    (t, found, is_st ∙ ground arith)
