-- ===== src/Writeback/Comments/Operation.antt =====
-- Five of the mutations of services/comment_service.py as data, for what holds of each of the five.
use diecast.Prelude.{ℕ, Option, Text}
use diecast.Writeback.Comments.{
  Result, Store, NewComment, resolve_comment, reopen_comment, relocate_comment, orphan_comment,
  create_comment,
}

-- Five operations of the service; its sixth mutation, `migrate_comments_to_render_space`, is not
-- among them.
pub data Op : Type 0 where
  create : NewComment → Op
  resolve reopen orphan : ℕ → Option Text → Op
  relocate : ℕ → Text → Option Text → Option Text → Op

unfoldable pub run_op : Op → ℕ → Store → Result × Store
unfolding create_comment resolve_comment reopen_comment orphan_comment relocate_comment
run_op (create n) now s = create_comment n now s
run_op (resolve i actor) now s = resolve_comment i actor now s
run_op (reopen i actor) now s = reopen_comment i actor now s
run_op (orphan i actor) now s = orphan_comment i actor now s
run_op (relocate i quote hint actor) now s = relocate_comment i quote hint actor now s
