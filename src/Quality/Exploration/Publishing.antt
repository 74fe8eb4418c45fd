-- ===== src/Quality/Exploration/Publishing.antt =====
-- How an exploration render ends (services/exploration_render_service.py): the publishing of a page
-- where the files are still those that it was made of, and the row of the job.
use diecast.Prelude.{
  Bool, true, false, Option, none, some, List, [], ◌∷◌, ◌++◌, map, Text, codes, text_eq, join,
  if◌then◌else◌,
}
use diecast.Quality.Verdict.{CheckerIssue, error_issues}
use diecast.Quality.Exploration.{
  ExplorationVerdict, Final, ServedPage, ExplorationJob, Attempt, Surroundings,
}

-- `"; ".join(parts)`, or the other text where there are no parts
abbrev joined_or : List Text → Option Text → Option Text
joined_or [] other = other
joined_or (p ∷ ps) other = some (join (codes "; ") (p ∷ ps))

module _ {F : Type 0} (w : Surroundings F) where
  abbrev finalize : Final F → ExplorationJob F → ExplorationJob F
  finalize f s = record s { final = some f }

  abbrev unpublished : Text → Option Text → Final F
  unpublished status error = record {
    status = status;
    error = error;
    human_review = false;
    review_reason = none;
    published_attempt = none;
    published_score = none;
  }

  abbrev publish_page : ServedPage → ExplorationJob F → Option Text → ExplorationJob F × Bool
  publish_page page s none = (
    finalize
        (unpublished (codes "failed")
          (some (codes "exploration md tree disappeared during render")))
        s,
    false,
  )
  publish_page page s (some digest) =
      if text_eq digest s.source_digest
      then (record s { page = some page }, true)
      else (finalize (unpublished (codes "superseded") none) s, false)

  unfoldable pub compare_and_publish :
      Text → Text → Bool → Option Text → ExplorationJob F → ExplorationJob F × Bool
  compare_and_publish html served_by human_review review_reason s =
      publish_page
        (record {
          html = html;
          source_digest = s.source_digest;
          served_by = served_by;
          human_review = human_review;
          review_reason = review_reason;
        })
        s (w.current_digest s)

  abbrev failed_criteria : Option (ExplorationVerdict F) → List Text
  unfolding error_issues
  failed_criteria none = []
  failed_criteria (some v) =
      map (λ (i : CheckerIssue). i.description) (error_issues v.base)
      ++ map (λ tok. codes "criterion failed: " ++ tok) v.base.missing

  unfoldable pub terminal_error : ExplorationJob F → Attempt F → Option Text
  unfolding error_issues
  terminal_error s r =
      joined_or
        ((if r.structurally_valid then [] else s.html_violations) ++ failed_criteria r.verdict)
        (joined_or s.notes none)

  abbrev published_row : Attempt F → Bool → Option Text → Option Text → Final F
  published_row r human_review review_reason error = record {
    status = codes "published";
    error = error;
    human_review = human_review;
    review_reason = review_reason;
    published_attempt = some r.attempt_no;
    published_score = r.canonical_score;
  }

  abbrev if_published :
      ExplorationJob F × Bool → (ExplorationJob F → ExplorationJob F) → ExplorationJob F
  if_published (s, ok) then_do = if ok then then_do s else s

  unfoldable pub publish_clean : Attempt F → ExplorationJob F → ExplorationJob F
  unfolding compare_and_publish
  publish_clean r s =
      if_published (compare_and_publish r.html (codes "maker") false none s)
        (finalize (published_row r false none none))

  unfoldable pub publish_flagged : Attempt F → Text → Text → ExplorationJob F → ExplorationJob F
  unfolding compare_and_publish terminal_error
  publish_flagged r served_by reason s =
      if_published (compare_and_publish r.html served_by true (some reason) s)
        (λ t. finalize (published_row r true (some reason) (terminal_error t r)) t)

  unfoldable pub publish_fallback : Text → ExplorationJob F → ExplorationJob F
  unfolding compare_and_publish
  publish_fallback reason s =
      if_published
        (compare_and_publish (w.fallback_page s.steps) (codes "deterministic") false none s)
        (λ t. finalize (unpublished (codes "fallback") (joined_or t.notes (some reason))) t)
