-- ===== src/Quality/SentinelTests.antt =====
-- Outputs with sentinels in their places and not (render_common/sentinel.py).
use diecast.Prelude.{◌≡◌, refl, none, some, ◌++◌, codes}
use diecast.Quality.Sentinel.{begin_sentinel, end_sentinel, extract_render}

window :
    extract_render
      (some (codes "ok" ++ begin_sentinel ++ codes " <p> " ++ end_sentinel ++ codes "x"))
    ≡ some (codes "<p>")
unfolding extract_render
window = refl

no_markup : extract_render (some (begin_sentinel ++ codes " hi " ++ end_sentinel)) ≡ none
unfolding extract_render
no_markup = refl

no_end : extract_render (some (end_sentinel ++ begin_sentinel ++ codes "<p>")) ≡ none
unfolding extract_render
no_end = refl

-- A second begin is part of the content, and a second pair is ignored.
begun_twice :
    extract_render
      (some (begin_sentinel ++ codes "a" ++ begin_sentinel ++ codes "b" ++ end_sentinel))
    ≡ some (codes "a" ++ begin_sentinel ++ codes "b")
unfolding extract_render
begun_twice = refl

two_pairs :
    extract_render (
      some (
        begin_sentinel
        ++ codes "<a>"
        ++ end_sentinel
        ++ begin_sentinel
        ++ codes "<b>"
        ++ end_sentinel))
    ≡ some (codes "<a>")
unfolding extract_render
two_pairs = refl
