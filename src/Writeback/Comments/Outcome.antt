-- ===== src/Writeback/Comments/Outcome.antt =====
-- The answers of the operations of services/comment_service.py, against the tables that they leave.
use diecast.Prelude.{
  ℕ, ◌+◌, ◌≡◌, refl, sym, ◌∙◌, true, Option, some, List, [], ◌∷◌, ◌++◌, Text, ◌==◌, arith,
  Bool-cases, Option-cases, inl, inr,
}
use mathlib.Core.Path.{subst}
use diecast.Writeback.Comments.{
  new_comment, EventType, Payload, Comment, Event, Store, Result, ok, err, get_row, update, max_id,
  transact, with_row, is_open, is_resolved, resolve_comment, reopen_comment, relocate_comment,
  orphan_comment, create_comment,
}
use diecast.Writeback.Comments.Rows.{get_row-update, get_row-append_new, get_row-fresh}
use diecast.Writeback.Comments.Operation.{Op, create, resolve, reopen, orphan, relocate, run_op}

-- An error leaves the tables alone; a comment is the stored row, with one event of it appended.
abbrev pub Answers : Store → Result × Store → Type 0
Answers s (err e, after) = after ≡ s
Answers s (ok c, after) =
    (get_row c.id after.comments ≡ some c)
    × ((e : Event) × (after.events ≡ s.events ++ e ∷ []) × (e.comment_id ≡ c.id))

get_row-id : (i : ℕ) (cs : List Comment) (c : Comment) → get_row i cs ≡ some c → c.id ≡ i
unfolding get_row
get_row-id i [] c h = ground arith
get_row-id i (d ∷ cs) c h = ground (arith, get_row-id i cs c)

eq_refl : (i : ℕ) → (i == i) ≡ true
eq_refl i = ground arith

transact-Answers :
    (i : ℕ) (f : Comment → Comment) (t : EventType) (actor : Option Text) (payload : Payload)
    (now : ℕ) (s : Store) (row : Comment)
    → get_row i s.comments ≡ some row
    → ((c : Comment) → (f c).id ≡ c.id)
    → Answers s (transact i f t actor payload now s)
unfolding transact
transact-Answers i f t actor payload now s row found same_id =
    let after : get_row i (update i f s.comments) ≡ some (f row) =
      get_row-update i i f s.comments same_id ∙ rw (eq_refl i, found) refl in
    let its_id : (f row).id ≡ i = same_id row ∙ get_row-id i s.comments row found in
    rw after (
      subst (λ k. get_row k (update i f s.comments) ≡ some (f row)) (sym its_id) after,
      (_, refl, sym its_id),
    )

with_row-Answers :
    (i : ℕ) (k : Comment → Result × Store) (s : Store)
    → ((row : Comment) → get_row i s.comments ≡ some row → Answers s (k row))
    → Answers s (with_row i k s)
unfolding with_row
with_row-Answers i k s step = elim (Option-cases (get_row i s.comments)) [
  | inl e ↦ rw e refl
  | inr (row, e) ↦ rw e (step row e)
]

-- An operation that fails leaves both tables as they were; one that succeeds returns a row as it is
-- stored afterwards and has appended one event, which is of that row.
pub run_op-Answers : (op : Op) (now : ℕ) (s : Store) → Answers s (run_op op now s)
unfolding run_op create_comment resolve_comment reopen_comment relocate_comment orphan_comment
run_op-Answers (create n) now s =
    let stored =
      get_row-append_new (max_id s.comments + 1) s.comments
        (new_comment n (max_id s.comments + 1) now)
        (get_row-fresh (max_id s.comments + 1) s.comments (omega arith))
        (eq_refl (max_id s.comments + 1)) in
    rw stored (stored, (_, refl, refl))
run_op-Answers (resolve i actor) now s = with_row-Answers i _ s λ row found.
    elim (Bool-cases (is_resolved row.state)) [
      | inl e ↦ rw e refl
      | inr e ↦ rw e (transact-Answers i _ _ actor _ now s row found (λ c. refl))
    ]
run_op-Answers (reopen i actor) now s = with_row-Answers i _ s λ row found.
    elim (Bool-cases (is_open row.state)) [
      | inl e ↦ rw e refl
      | inr e ↦ rw e (transact-Answers i _ _ actor _ now s row found (λ c. refl))
    ]
run_op-Answers (orphan i actor) now s =
    with_row-Answers i _ s λ row found. transact-Answers i _ _ actor _ now s row found (λ c. refl)
run_op-Answers (relocate i quote hint actor) now s =
    with_row-Answers i _ s λ row found. transact-Answers i _ _ actor _ now s row found (λ c. refl)
