-- ===== src/Writeback/Versions/Next.antt =====
-- `create_next` of services/requirement_version_service.py: a snapshot, and the open comments that
-- it leaves. `list_comments` gives them from the newest id down.
use diecast.Prelude.{ℕ, Bool, not, Option, List, Text, contains, filter, map, ◌==◌}
use mathlib.Core.List.{reverse}
use diecast.Writeback.Versions.{Version, create_snapshot}
use diecast.Writeback.Comments.{Comment, open_comments, open_comment_count}

-- The ids of the comments whose quote is no longer in the content
unfoldable pub displaced : Text → List Comment → List ℕ
displaced content cs = map (λ c. c.id) (filter (λ c. not (contains content c.quoted_text)) cs)

pub record NextVersion (Hash : Type 0) : Type 0 where
  pub version : Version Hash
  pub converged : Bool
  pub open_comments : List Comment
  pub displaced_comment_ids : List ℕ

unfoldable pub create_next :
    {Hash : Type 0}
    → (Hash → Hash → Bool)
    → (Text → Hash)
    → Text
    → Text
    → Option Text
    → ℕ
    → List Comment
    → List (Version Hash)
    → NextVersion Hash × List (Version Hash)
unfolding create_snapshot open_comments open_comment_count displaced
create_next hash_eq content_hash slug content created_by now comments vs =
    let (version, versions) = create_snapshot hash_eq content_hash slug content created_by now vs in
    let still_open = reverse (open_comments slug comments) in
    (
      record {
        version = version;
        converged = open_comment_count slug comments == 0;
        open_comments = still_open;
        displaced_comment_ids = displaced content still_open;
      },
      versions,
    )
