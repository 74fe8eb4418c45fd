-- ===== src/Quality/Sentinel.antt =====
-- render_common/sentinel.py: the render in an agent's output.
use diecast.Prelude.{
  ℕ, ◌+◌, true, false, Option, none, some, [], ◌∷◌, Text, codes, contains, find, is_space,
  strip_chars, length, take, drop,
}

abbrev pub begin_sentinel : Text
begin_sentinel = codes "<!-- BEGIN RENDER -->"

abbrev pub end_sentinel : Text
end_sentinel = codes "<!-- END RENDER -->"

-- A window that is not empty and has markup
unfoldable pub content_of : Text → Option Text
content_of [] = none
content_of (c ∷ cs) = elim (contains (c ∷ cs) (codes "<")) [ true ↦ some (c ∷ cs) | false ↦ none ]

unfoldable pub up_to_end : Text → Option ℕ → Option Text
unfolding content_of is_space strip_chars
up_to_end after none = none
up_to_end after (some n) = content_of (strip_chars is_space (take n after))

unfoldable pub from_begin : Text → Option ℕ → Option Text
unfolding find up_to_end
from_begin raw none = none
from_begin raw (some n) =
    let after = drop (n + length begin_sentinel) raw in up_to_end after (find after end_sentinel)

unfoldable pub extract_render : Option Text → Option Text
unfolding find from_begin
extract_render none = none
extract_render (some []) = none
extract_render (some (c ∷ cs)) = from_begin (c ∷ cs) (find (c ∷ cs) begin_sentinel)
