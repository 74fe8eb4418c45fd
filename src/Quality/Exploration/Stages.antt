-- ===== src/Quality/Exploration/Stages.antt =====
-- The stages of the exploration render's quality loop (services/exploration_render_service.py): the
-- maker's run, the structural gate and the checker.
use diecast.Prelude.{
  ℕ, zero, suc, ◌+◌, Bool, true, false, not, ◌&&◌, Option, none, some, List, [], ◌∷◌, ◌++◌, Text,
  codes, contains, lower, if◌then◌else◌,
}
use diecast.Quality.Sentinel.{extract_render}
use diecast.Quality.Loop.{FeedbackItem}
use diecast.Quality.Exploration.{
  ExplorationVerdict, HatNote, ExplorationStep, ExplorationJob, AgentRun, run_failed, printed,
  Reading, unreadable, verdict_of, Surroundings,
}

abbrev how_agent : Text
how_agent = codes "cast-exploration-how"

abbrev checker_agent : Text
checker_agent = codes "cast-exploration-render-checker"

abbrev hat_violations : Text → Text → List HatNote → List Text
hat_violations html slug [] = []
hat_violations html slug (h ∷ hs) =
    let rest = hat_violations html slug hs in
    if h.is_present && not (contains html h.hat_id)
    then (codes "present hat "
        ++ h.hat_id
        ++ codes " (step "
        ++ slug
        ++ codes ") has no selectable container")
      ∷ rest
    else rest

abbrev step_violations : Text → List ExplorationStep → List Text
step_violations html [] = []
step_violations html (s ∷ ss) = hat_violations html s.slug s.hat_notes ++ step_violations html ss

abbrev gate_violations : Text → List ExplorationStep → List Text
gate_violations html steps =
    (if contains (lower html) (codes "<head") && contains (lower html) (codes "<style")
      then []
      else codes "page is not self-contained (missing <head>/<style>)" ∷ [])
    ++ step_violations html steps

abbrev is_none_left : List Text → Bool
is_none_left [] = true
is_none_left (x ∷ xs) = false

module _ {F : Type 0} (w : Surroundings F) where
  abbrev note : Text → ExplorationJob F → ExplorationJob F
  note msg s = record s { notes = s.notes ++ msg ∷ [] }

  abbrev pub keep_render : Option Text → ExplorationJob F → ExplorationJob F × Option Text
  keep_render none s = (
    note
        (how_agent
          ++ codes " attempt "
          ++ w.decimal s.how_attempts
          ++ codes ": no extractable render (sentinel failure)")
        s,
    none,
  )
  keep_render (some html) s = (record s { html = some html }, some html)

  unfoldable pub after_maker : AgentRun → ExplorationJob F → ExplorationJob F × Option Text
  unfolding extract_render
  after_maker (run_failed e) s = (
    note (how_agent ++ codes " attempt " ++ w.decimal s.how_attempts ++ codes " failed: " ++ e) s,
    none,
  )
  after_maker (printed raw) s =
      keep_render (extract_render (some raw)) (record s { how_raw = some raw })

  unfoldable pub how_of :
      Option Text
      → Option (List FeedbackItem)
      → Option Text
      → ExplorationJob F
      → ExplorationJob F × Option Text
  unfolding after_maker
  how_of none feedback history s =
      (note (how_agent ++ codes " skipped — no WHAT doc to render") s, none)
  how_of (some doc) feedback history s =
      let counted = record s { attempts = s.attempts + 1; how_attempts = s.how_attempts + 1 } in
      after_maker (w.maker feedback history counted) counted

  unfoldable pub run_how :
      Option (List FeedbackItem) → Option Text → ExplorationJob F → ExplorationJob F × Option Text
  unfolding how_of
  run_how feedback history s = how_of s.what_doc feedback history s

  abbrev pub gate_of : Option Text → ExplorationJob F → ExplorationJob F
  gate_of none s = record s { html_ok_flag = false; html_violations = [] }
  gate_of (some html) s =
      let violations = gate_violations html s.steps in
      record s { html_ok_flag = is_none_left violations; html_violations = violations }

  unfoldable pub gate_html : ExplorationJob F → ExplorationJob F
  gate_html s = gate_of s.html s

  abbrev Checked : Type 0
  Checked = ExplorationJob F × Option (ExplorationVerdict F) × Bool

  abbrev failed_try : ℕ → Text → ExplorationJob F → ExplorationJob F
  failed_try attempt e s =
      note (checker_agent ++ codes " try " ++ w.decimal (attempt + 1) ++ codes " failed: " ++ e) s

  abbrev pub after_reading :
      Reading F → ℕ → (ExplorationJob F → Checked) → ExplorationJob F → Checked
  after_reading (unreadable e) attempt retry s = retry (failed_try attempt e s)
  after_reading (verdict_of v) attempt retry s = (s, some v, false)

  abbrev pub after_check : AgentRun → ℕ → (ExplorationJob F → Checked) → ExplorationJob F → Checked
  after_check (run_failed e) attempt retry s = retry (failed_try attempt e s)
  after_check (printed raw) attempt retry s = after_reading (w.parse_verdict raw) attempt retry s

  -- So many tries, from one number on
  unfoldable pub check_from : ℕ → ℕ → Text → ExplorationJob F → Checked
  check_from zero attempt html s = (s, none, true)
  check_from (suc n) attempt html s =
      after_check (w.checker attempt html s) attempt (check_from n (suc attempt) html) s

  unfoldable pub run_checker : Text → ExplorationJob F → Checked
  unfolding check_from
  run_checker html s = check_from 2 0 html s
