-- ===== src/Writeback/Comments/Trail.antt =====
-- The stored states of comments (services/comment_service.py) against the replay of their events.
use diecast.Prelude.{
  ℕ, ◌+◌, ◌<◌, ◌≡◌, refl, sym, ◌∙◌, ap, true, false, Option, none, some, [], ◌∷◌, ◌++◌, Text, ◌==◌,
  ==_iff, arith, Bool-cases, Option-cases, some-inj, none-ne-some, inl, inr,
}
use mathlib.Core.Path.{subst}
use diecast.Writeback.Comments.{
  Result, with_row, is_open, is_resolved, opened, EventType, created, Payload, Comment, Event,
  Store, NewComment, get_row, update, max_id, transact, resolve_comment, reopen_comment,
  relocate_comment, orphan_comment, create_comment, events_of, event_state, state_as_of,
}
use diecast.Writeback.Comments.Rows.{
  Sorted, Before, Sorted-append, events_of-All, events_of-Sorted, events_of-append,
  state_as_of-append, first_state, get_row-update, get_row-append_ne, get_row-append_new,
  get_row-fresh,
}
use diecast.Writeback.Comments.Operation.{Op, create, resolve, reopen, orphan, relocate, run_op}

pub record IsTracked (s : Store) : Type 0 where
  pub in_order : Sorted s.events
  pub states :
      (i : ℕ) (c : Comment)
      → get_row i s.comments ≡ some c
      → state_as_of (events_of i s.events) none ≡ some c.state
  pub untracked : (i : ℕ) → get_row i s.comments ≡ none → events_of i s.events ≡ []

abbrev new_event : ℕ → EventType → Option Text → Payload → ℕ → Event
new_event i t actor payload now = record {
  comment_id = i;
  event_type = t;
  actor = actor;
  payload = payload;
  created_at = now;
}

module _ (i : ℕ) (f : Comment → Comment) (t : EventType) (actor : Option Text) (payload : Payload)
    (now : ℕ) (s : Store) (row : Comment) (found : get_row i s.comments ≡ some row)
    (same_id : (c : Comment) → (f c).id ≡ c.id)
    (agrees : event_state t (some row.state) ≡ some (f row).state) (later : Before now s.events)
    (h : IsTracked s) where
  abbrev event : Event
  event = new_event i t actor payload now

  transact-states :
      (j : ℕ) (c : Comment)
      → get_row j (update i f s.comments) ≡ some c
      → state_as_of (events_of j (s.events ++ event ∷ [])) none ≡ some c.state
  transact-states j c e = elim (Bool-cases (i == j)) [
    | inl t' ↦
        let here : get_row j s.comments ≡ some row =
          subst (λ k. get_row k s.comments ≡ some row) ((==_iff i j).0 t') found in
        let now_row : some (f row) ≡ some c =
          sym (get_row-update i j f s.comments same_id ∙ rw (t', here) refl) ∙ e in
        rw (events_of-append j s.events event, t')
          (state_as_of-append (events_of j s.events) event (events_of-Sorted j s.events h.in_order)
              (events_of-All _ j s.events later)
            ∙ ap (event_state t) (h.states j row here)
            ∙ agrees
            ∙ ap (λ d. some d.state) (some-inj now_row))
    | inr f' ↦
        rw (events_of-append j s.events event, f')
          (h.states j c (sym (get_row-update i j f s.comments same_id ∙ rw f') ∙ e))
  ]

  transact-untracked :
      (j : ℕ) → get_row j (update i f s.comments) ≡ none → events_of j (s.events ++ event ∷ []) ≡ []
  transact-untracked j e = elim (Bool-cases (i == j)) [
    | inl t' ↦
        let here : get_row j s.comments ≡ some row =
          subst (λ k. get_row k s.comments ≡ some row) ((==_iff i j).0 t') found in
        absurd (
          none-ne-some {a = f row}
            (sym e ∙ get_row-update i j f s.comments same_id ∙ rw (t', here) refl))
    | inr f' ↦
        rw (events_of-append j s.events event, f')
          (h.untracked j (sym (get_row-update i j f s.comments same_id ∙ rw f') ∙ e))
  ]

  transact-IsTracked : IsTracked (transact i f t actor payload now s).1
  unfolding transact
  transact-IsTracked = record {
    in_order = Sorted-append s.events event h.in_order later;
    states = transact-states;
    untracked = transact-untracked;
  }

-- A row with a new id, opened with its first event
module _ (i : ℕ) (row : Comment) (actor : Option Text) (payload : Payload) (now : ℕ) (s : Store)
    (fresh : max_id s.comments < i) (its_id : row.id ≡ i) (starts : row.state ≡ opened)
    (later : Before now s.events) (h : IsTracked s) where
  abbrev first_event : Event
  first_event = new_event i created actor payload now

  get_row-inserted : (j : ℕ) → (i == j) ≡ true → get_row j (s.comments ++ row ∷ []) ≡ some row
  get_row-inserted j t =
      get_row-append_new j s.comments row
        (get_row-fresh j s.comments (subst (λ k. max_id s.comments < k) ((==_iff i j).0 t) fresh))
        (subst (λ k. (k == j) ≡ true) (sym its_id) t)

  get_row-others :
      (j : ℕ) → (i == j) ≡ false → get_row j (s.comments ++ row ∷ []) ≡ get_row j s.comments
  get_row-others j f =
      get_row-append_ne j s.comments row (subst (λ k. (k == j) ≡ false) (sym its_id) f)

  no_events : (j : ℕ) → (i == j) ≡ true → events_of j s.events ≡ []
  no_events j t =
      h.untracked j
        (get_row-fresh j s.comments (subst (λ k. max_id s.comments < k) ((==_iff i j).0 t) fresh))

  insert-states :
      (j : ℕ) (c : Comment)
      → get_row j (s.comments ++ row ∷ []) ≡ some c
      → state_as_of (events_of j (s.events ++ first_event ∷ [])) none ≡ some c.state
  insert-states j c e = elim (Bool-cases (i == j)) [
    | inl t ↦
        rw (events_of-append j s.events first_event, t, no_events j t)
          (first_state first_event
            ∙ (unfold event_state in
                ap some (sym starts)
                ∙ ap (λ d. some d.state) (some-inj (sym (get_row-inserted j t) ∙ e))))
    | inr f ↦
        rw (events_of-append j s.events first_event, f)
          (h.states j c (sym (get_row-others j f) ∙ e))
  ]

  insert-untracked :
      (j : ℕ)
      → get_row j (s.comments ++ row ∷ []) ≡ none
      → events_of j (s.events ++ first_event ∷ []) ≡ []
  insert-untracked j e = elim (Bool-cases (i == j)) [
    | inl t ↦ absurd (none-ne-some {a = row} (sym e ∙ get_row-inserted j t))
    | inr f ↦
        rw (events_of-append j s.events first_event, f)
          (h.untracked j (sym (get_row-others j f) ∙ e))
  ]

  insert-IsTracked :
      IsTracked
        (record { comments = s.comments ++ row ∷ []; events = s.events ++ first_event ∷ [] })
  insert-IsTracked = record {
    in_order = Sorted-append s.events first_event h.in_order later;
    states = insert-states;
    untracked = insert-untracked;
  }

with_row-IsTracked :
    (i : ℕ) (k : Comment → Result × Store) (s : Store)
    → IsTracked s
    → ((row : Comment) → get_row i s.comments ≡ some row → IsTracked (k row).1)
    → IsTracked (with_row i k s).1
unfolding with_row
with_row-IsTracked i k s h step = elim (Option-cases (get_row i s.comments)) [
  | inl e ↦ rw e h
  | inr (row, e) ↦ rw e (step row e)
]

module _ (now : ℕ) (s : Store) (later : Before now s.events) (h : IsTracked s) where
  resolve-IsTracked : (i : ℕ) (actor : Option Text) → IsTracked (resolve_comment i actor now s).1
  unfolding resolve_comment event_state
  resolve-IsTracked i actor = with_row-IsTracked i _ s h λ row found.
      elim (Bool-cases (is_resolved row.state)) [
        | inl e ↦ rw e h
        | inr e ↦ rw e (transact-IsTracked i _ _ actor _ now s row found (λ c. refl) refl later h)
      ]

  reopen-IsTracked : (i : ℕ) (actor : Option Text) → IsTracked (reopen_comment i actor now s).1
  unfolding reopen_comment event_state
  reopen-IsTracked i actor = with_row-IsTracked i _ s h λ row found.
      elim (Bool-cases (is_open row.state)) [
        | inl e ↦ rw e h
        | inr e ↦ rw e (transact-IsTracked i _ _ actor _ now s row found (λ c. refl) refl later h)
      ]

  orphan-IsTracked : (i : ℕ) (actor : Option Text) → IsTracked (orphan_comment i actor now s).1
  unfolding orphan_comment event_state
  orphan-IsTracked i actor =
      with_row-IsTracked i _ s h
        λ row found. transact-IsTracked i _ _ actor _ now s row found (λ c. refl) refl later h

  relocate-IsTracked :
      (i : ℕ) (quote : Text) (hint actor : Option Text)
      → IsTracked (relocate_comment i quote hint actor now s).1
  unfolding relocate_comment event_state
  relocate-IsTracked i quote hint actor =
      with_row-IsTracked i _ s h
        λ row found. transact-IsTracked i _ _ actor _ now s row found (λ c. refl) refl later h

  create-IsTracked : (n : NewComment) → IsTracked (create_comment n now s).1
  unfolding create_comment
  create-IsTracked n =
      insert-IsTracked (max_id s.comments + 1) _ (some n.author) _ now s (omega arith) refl refl
        later h

-- Whichever of five operations runs (creation, resolving, reopening, relocation, orphaning), failing or
-- not, every comment's stored state is the replay of its own
-- event trail afterwards, if it was so before and the clock has not gone back.
pub run_op-IsTracked :
    (op : Op) (now : ℕ) (s : Store)
    → Before now s.events
    → IsTracked s
    → IsTracked (run_op op now s).1
unfolding run_op
run_op-IsTracked (create n) now s later h = create-IsTracked now s later h n
run_op-IsTracked (resolve i actor) now s later h = resolve-IsTracked now s later h i actor
run_op-IsTracked (reopen i actor) now s later h = reopen-IsTracked now s later h i actor
run_op-IsTracked (orphan i actor) now s later h = orphan-IsTracked now s later h i actor
run_op-IsTracked (relocate i quote hint actor) now s later h =
    relocate-IsTracked now s later h i quote hint actor
