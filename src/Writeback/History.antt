-- ===== src/Writeback/History.antt =====
-- `get_version_with_comments` of services/requirement_version_service.py: an archived version with
-- each comment in the state that it had when the version was superseded. The rows of the comments'
-- table are in the order of their ids, which is that of the answer.
use diecast.Prelude.{
  ℕ, ◌+◌, ◌≡◌, refl, ap, Bool, not, ◌&&◌, Option, none, some, List, [], ◌∷◌, Text, text_eq, ltb,
  filter, map, All, if◌then◌else◌, Bool-cases, inl, inr,
}
use diecast.Writeback.Versions.{Version, get_version}
use diecast.Writeback.Comments.{Comment, State, Event, Store, get_row, events_of, state_as_of}
use diecast.Writeback.Comments.Trail.{IsTracked}

-- A comment that did not yet exist is left out.
abbrev pub add_state : Comment → Option State → List (Comment × State) → List (Comment × State)
add_state c none rest = rest
add_state c (some st) rest = (c, st) ∷ rest

abbrev is_listed : Text → ℕ → Comment → Bool
is_listed slug version c = text_eq c.goal_slug slug && not (ltb version c.version)

unfoldable pub comments_as_of :
    Text → ℕ → Option ℕ → List Event → List Comment → List (Comment × State)
unfolding state_as_of events_of
comments_as_of slug version cutoff es [] = []
comments_as_of slug version cutoff es (c ∷ cs) =
    let rest = comments_as_of slug version cutoff es cs in
    if is_listed slug version c
    then add_state c (state_as_of (events_of c.id es) cutoff) rest
    else rest

module _ {Hash : Type 0} where
  abbrev pub cutoff_of : Option (Version Hash) → Option ℕ
  cutoff_of none = none
  cutoff_of (some next) = some next.created_at

  abbrev with_comments :
      Option (Version Hash)
      → Option ℕ
      → Text
      → ℕ
      → Store
      → Option (Version Hash × List (Comment × State))
  unfolding comments_as_of
  with_comments none cutoff slug version s = none
  with_comments (some row) cutoff slug version s =
      some (row, comments_as_of slug version cutoff s.events s.comments)

  unfoldable pub get_version_with_comments :
      Text → ℕ → List (Version Hash) → Store → Option (Version Hash × List (Comment × State))
  unfolding get_version comments_as_of
  get_version_with_comments slug version vs s =
      with_comments (get_version slug version vs) (cutoff_of (get_version slug (version + 1) vs))
        slug version s

-- Every row is found under its id.
abbrev pub Findable : List Comment → Type 0
Findable cs = All (λ c. get_row c.id cs ≡ some c) cs

listed-states :
    (slug : Text) (version : ℕ) (s : Store) (cs : List Comment)
    → IsTracked s
    → All (λ c. get_row c.id s.comments ≡ some c) cs
    → comments_as_of slug version none s.events cs
      ≡ map (λ c. (c, c.state)) (filter (is_listed slug version) cs)
unfolding comments_as_of
listed-states slug version s [] h f = refl
listed-states slug version s (c ∷ cs) h f =
    let rest = listed-states slug version s cs h f.1 in
    elim (Bool-cases (is_listed slug version c)) [
      | inl e ↦ rw (e, h.states c.id c f.0) (ap (λ r. (c, c.state) ∷ r) rest)
      | inr e ↦ rw e rest
    ]

module _ {Hash : Type 0} where
  -- For a version that the goal has and that no next one supersedes, the answer is its row with the
  -- goal's comments up to that version, each in its stored state, if the event trail agrees with the
  -- stored states and every comment is found under its id.
  get_version_with_comments-latest :
      (slug : Text) (version : ℕ) (vs : List (Version Hash)) (s : Store) (row : Version Hash)
      → get_version slug version vs ≡ some row
      → get_version slug (version + 1) vs ≡ none
      → IsTracked s
      → Findable s.comments
      → get_version_with_comments slug version vs s
        ≡ some (
          row,
          map
              (λ c. (c, c.state))
              (filter (λ c. text_eq c.goal_slug slug && not (ltb version c.version)) s.comments),
        )
  unfolding get_version_with_comments
  get_version_with_comments-latest slug version vs s row here next h f =
      rw (here, next) (ap (λ r. some (row, r)) (listed-states slug version s s.comments h f))
