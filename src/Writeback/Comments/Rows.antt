-- ===== src/Writeback/Comments/Rows.antt =====
-- Rows by id, and the events of one comment in the order of their times.
use diecast.Prelude.{
  ℕ, ◌≤◌, ◌<◌, ◌≡◌, refl, true, false, Option, none, some, List, [], ◌∷◌, ◌++◌, All, All-append,
  ◌==◌, if◌then◌else◌, arith, Bool-cases, inl, inr,
}
use diecast.Writeback.Comments.{
  State, Comment, Event, get_row, update, max_id, events_of, event_state, insert_event, sort_events,
  replay, state_as_of,
}

abbrev pub Sorted : List Event → Type 0
Sorted [] = Unit
Sorted (e ∷ es) = All (λ f. e.created_at ≤ f.created_at) es × Sorted es

abbrev pub Before : ℕ → List Event → Type 0
Before now = All (λ e. e.created_at ≤ now)

pub insert_event-least :
    (e : Event) (es : List Event)
    → All (λ f. e.created_at ≤ f.created_at) es
    → insert_event e es ≡ e ∷ es
unfolding insert_event
insert_event-least e [] h = refl
insert_event-least e (f ∷ fs) h = ground arith

pub sort_events-Sorted : (es : List Event) → Sorted es → sort_events es ≡ es
unfolding sort_events
sort_events-Sorted [] h = refl
sort_events-Sorted (e ∷ es) h = rw (sort_events-Sorted es h.1) (insert_event-least e es h.0)

pub Sorted-append :
    (es : List Event) (e : Event) → Sorted es → Before e.created_at es → Sorted (es ++ e ∷ [])
Sorted-append [] e h b = (tt, tt)
Sorted-append (f ∷ fs) e h b = (All-append _ fs (e ∷ []) h.0 (b.0, tt), Sorted-append fs e h.1 b.1)

pub events_of-All :
    (P : Event → Type 0) (i : ℕ) (es : List Event) → All P es → All P (events_of i es)
unfolding events_of
events_of-All P i [] h = tt
events_of-All P i (e ∷ es) h = elim (Bool-cases (e.comment_id == i)) [
  | inl t ↦ rw t (h.0, events_of-All P i es h.1)
  | inr f ↦ rw f (events_of-All P i es h.1)
]

pub events_of-Sorted : (i : ℕ) (es : List Event) → Sorted es → Sorted (events_of i es)
unfolding events_of
events_of-Sorted i [] h = tt
events_of-Sorted i (e ∷ es) h = elim (Bool-cases (e.comment_id == i)) [
  | inl t ↦ rw t (events_of-All _ i es h.0, events_of-Sorted i es h.1)
  | inr f ↦ rw f (events_of-Sorted i es h.1)
]

pub events_of-append :
    (i : ℕ) (es : List Event) (e : Event)
    → events_of i (es ++ e ∷ [])
      ≡ (if e.comment_id == i then events_of i es ++ e ∷ [] else events_of i es)
unfolding events_of
events_of-append i [] e = ground arith
events_of-append i (f ∷ fs) e = ground (arith, events_of-append i fs e)

pub replay-append :
    (st : Option State) (es : List Event) (e : Event)
    → replay none st (es ++ e ∷ []) ≡ event_state e.event_type (replay none st es)
unfolding replay
replay-append st [] e = refl
replay-append st (f ∷ fs) e = replay-append (event_state f.event_type st) fs e

pub state_as_of-append :
    (es : List Event) (e : Event)
    → Sorted es
    → Before e.created_at es
    → state_as_of (es ++ e ∷ []) none ≡ event_state e.event_type (state_as_of es none)
unfolding state_as_of
state_as_of-append es e h b =
    rw (sort_events-Sorted es h, sort_events-Sorted (es ++ e ∷ []) (Sorted-append es e h b))
      (replay-append none es e)

pub first_state : (e : Event) → state_as_of (e ∷ []) none ≡ event_state e.event_type none
unfolding state_as_of
first_state e = refl

abbrev pub map_row : (Comment → Comment) → Option Comment → Option Comment
map_row f none = none
map_row f (some c) = some (f c)

pub get_row-update :
    (i j : ℕ) (f : Comment → Comment) (cs : List Comment)
    → ((c : Comment) → (f c).id ≡ c.id)
    → get_row j (update i f cs) ≡ (if i == j then map_row f (get_row j cs) else get_row j cs)
unfolding get_row update
get_row-update i j f [] k = ground arith
get_row-update i j f (c ∷ cs) k = ground (arith, get_row-update i j f cs k, k c)

pub get_row-append_ne :
    (j : ℕ) (cs : List Comment) (c : Comment)
    → (c.id == j) ≡ false
    → get_row j (cs ++ c ∷ []) ≡ get_row j cs
unfolding get_row
get_row-append_ne j [] c h = rw h
get_row-append_ne j (d ∷ cs) c h = ground (arith, get_row-append_ne j cs c h)

pub get_row-append_new :
    (j : ℕ) (cs : List Comment) (c : Comment)
    → get_row j cs ≡ none
    → (c.id == j) ≡ true
    → get_row j (cs ++ c ∷ []) ≡ some c
unfolding get_row
get_row-append_new j [] c e h = rw h
get_row-append_new j (d ∷ cs) c e h = ground (arith, get_row-append_new j cs c)

pub get_row-fresh : (i : ℕ) (cs : List Comment) → max_id cs < i → get_row i cs ≡ none
unfolding get_row max_id
get_row-fresh i [] h = refl
get_row-fresh i (c ∷ cs) h = ground (arith, get_row-fresh i cs)
