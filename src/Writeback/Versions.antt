-- ===== src/Writeback/Versions.antt =====
-- services/requirement_version_service.py: the snapshots of a goal's requirements file, over the
-- table `requirement_versions`. A row's `created_at` is an instant; `Hash` and `content_hash` stand
-- for SHA-256, and a new row's id is one above the greatest.
pub mod Current
pub mod Next
use diecast.Prelude.{
  ℕ, zero, suc, ◌+◌, ◌≡◌, Bool, true, false, ◌&&◌, Option, none, some, List, [], ◌∷◌, ◌++◌, Text,
  text_eq, ◌==◌, if◌then◌else◌, max,
}

-- The values of the column `status`
pub data Status : Type 0 where
  current archived : Status

abbrev pub is_current : Status → Bool
is_current current = true
is_current archived = false

pub record Version (Hash : Type 0) : Type 0 where
  pub id : ℕ
  pub goal_slug : Text
  pub version : ℕ
  pub content : Text
  pub content_hash : Hash
  pub status : Status
  pub created_at : ℕ
  pub created_by : Option Text

module _ {Hash : Type 0} where
  -- `SELECT … WHERE goal_slug = ? AND status = 'current'`, the first row
  unfoldable pub get_current : Text → List (Version Hash) → Option (Version Hash)
  get_current slug [] = none
  get_current slug (v ∷ vs) =
      if text_eq v.goal_slug slug && is_current v.status then some v else get_current slug vs

  unfoldable pub get_version : Text → ℕ → List (Version Hash) → Option (Version Hash)
  get_version slug n [] = none
  get_version slug n (v ∷ vs) =
      if text_eq v.goal_slug slug && v.version == n then some v else get_version slug n vs

  -- `COALESCE(MAX(version), 0)` of the goal
  unfoldable pub max_version : Text → List (Version Hash) → ℕ
  max_version slug [] = 0
  max_version slug (v ∷ vs) =
      let rest = max_version slug vs in
      if text_eq v.goal_slug slug then max v.version rest else rest

  unfoldable pub max_id : List (Version Hash) → ℕ
  max_id [] = 0
  max_id (v ∷ vs) = max v.id (max_id vs)

  -- `UPDATE … SET status = 'archived' WHERE id = ?`
  unfoldable pub archive : ℕ → List (Version Hash) → List (Version Hash)
  archive i [] = []
  archive i (v ∷ vs) = (if v.id == i then record v { status = archived } else v) ∷ archive i vs

module _ {Hash : Type 0} (hash_eq : Hash → Hash → Bool) (content_hash : Text → Hash) where
  unfoldable pub new_version : Text → Text → Option Text → ℕ → List (Version Hash) → Version Hash
  unfolding max_version max_id
  new_version slug content created_by now vs = record {
    id = max_id vs + 1;
    goal_slug = slug;
    version = max_version slug vs + 1;
    content = content;
    content_hash = content_hash content;
    status = current;
    created_at = now;
    created_by = created_by;
  }

  -- After the look-up of the current row: the row returned, and the table after the transaction.
  unfoldable pub snapshot_after :
      Option (Version Hash)
      → Text
      → Text
      → Option Text
      → ℕ
      → List (Version Hash)
      → Version Hash × List (Version Hash)
  unfolding archive new_version
  snapshot_after none slug content created_by now vs =
      let v = new_version slug content created_by now vs in (v, vs ++ v ∷ [])
  snapshot_after (some c) slug content created_by now vs =
      let v = new_version slug content created_by now vs in
      if hash_eq c.content_hash (content_hash content)
      then (c, vs)
      else (v, archive c.id vs ++ v ∷ [])

  unfoldable pub create_snapshot :
      Text → Text → Option Text → ℕ → List (Version Hash) → Version Hash × List (Version Hash)
  unfolding get_current snapshot_after
  create_snapshot slug content created_by now vs =
      snapshot_after (get_current slug vs) slug content created_by now vs
