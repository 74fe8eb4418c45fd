-- ===== src/Writeback/Versions/Current.antt =====
-- The snapshot service (services/requirement_version_service.py) over valid tables, and what it returns.
use diecast.Prelude.{
  ℕ, ◌+◌, ◌≤◌, ◌<◌, ◌≡◌, refl, ◌∙◌, Bool, true, false, ◌&&◌, Option, none, some, List, [], ◌∷◌,
  ◌++◌, Text, text_eq, text_eq_iff, ◌==◌, ==_iff, if◌then◌else◌, All, arith, Bool-cases, inl, inr,
  none-ne-some,
}
use mathlib.Core.Path.{subst}
use diecast.Writeback.Versions.{
  Version, is_current, get_current, max_id, archive, new_version, snapshot_after, create_snapshot,
}

module _ {Hash : Type 0} where
  -- How many current rows the goal has.
  unfoldable pub currents : Text → List (Version Hash) → ℕ
  currents slug [] = 0
  currents slug (v ∷ vs) =
      (if text_eq v.goal_slug slug && is_current v.status then 1 else 0) + currents slug vs

  -- How many rows have the id.
  unfoldable pub with_id : ℕ → List (Version Hash) → ℕ
  with_id i [] = 0
  with_id i (v ∷ vs) = (if v.id == i then 1 else 0) + with_id i vs

  pub record IsValid (vs : List (Version Hash)) : Type 0 where
    pub one_current : (slug : Text) → currents slug vs ≤ 1
    pub ids : (i : ℕ) → with_id i vs ≤ 1

  currents-append :
      (slug : Text) (vs ws : List (Version Hash))
      → currents slug (vs ++ ws) ≡ currents slug vs + currents slug ws
  unfolding currents
  currents-append slug [] ws = omega arith
  currents-append slug (v ∷ vs) ws = omega (arith, currents-append slug vs ws)

  with_id-append :
      (i : ℕ) (vs ws : List (Version Hash)) → with_id i (vs ++ ws) ≡ with_id i vs + with_id i ws
  unfolding with_id
  with_id-append i [] ws = omega arith
  with_id-append i (v ∷ vs) ws = omega (arith, with_id-append i vs ws)

  with_id-archive : (i k : ℕ) (vs : List (Version Hash)) → with_id i (archive k vs) ≡ with_id i vs
  unfolding with_id archive
  with_id-archive i k [] = refl
  with_id-archive i k (v ∷ vs) = ground (arith, with_id-archive i k vs)

  with_id-fresh : (i : ℕ) (vs : List (Version Hash)) → max_id vs < i → with_id i vs ≡ 0
  unfolding with_id max_id
  with_id-fresh i [] h = refl
  with_id-fresh i (v ∷ vs) h = ground (arith, with_id-fresh i vs)

  currents-archive_le :
      (slug : Text) (k : ℕ) (vs : List (Version Hash))
      → currents slug (archive k vs) ≤ currents slug vs
  unfolding currents archive
  currents-archive_le slug k [] = omega arith
  currents-archive_le slug k (v ∷ vs) = ground (arith, currents-archive_le slug k vs)

  currents-none :
      (slug : Text) (vs : List (Version Hash)) → get_current slug vs ≡ none → currents slug vs ≡ 0
  unfolding currents get_current
  currents-none slug [] h = refl
  currents-none slug (v ∷ vs) h = ground (arith, currents-none slug vs)

  -- Archiving the current row leaves the goal with one current row less.
  currents-archive :
      (slug : Text) (vs : List (Version Hash)) (c : Version Hash)
      → get_current slug vs ≡ some c
      → currents slug (archive c.id vs) + 1 ≤ currents slug vs
  unfolding currents get_current archive
  currents-archive slug [] c h = absurd (none-ne-some h)
  currents-archive slug (v ∷ vs) c h =
      ground (arith, currents-archive slug vs c, currents-archive_le slug c.id vs)

  get_current-append :
      (slug : Text) (vs : List (Version Hash)) (v : Version Hash)
      → currents slug vs ≡ 0
      → text_eq v.goal_slug slug ≡ true
      → is_current v.status ≡ true
      → get_current slug (vs ++ v ∷ []) ≡ some v
  unfolding currents get_current
  get_current-append slug [] v h e c = ground arith
  get_current-append slug (w ∷ vs) v h e c = ground (arith, get_current-append slug vs v)

  get_current-found :
      (slug : Text) (vs : List (Version Hash)) (c : Version Hash)
      → get_current slug vs ≡ some c
      → (text_eq c.goal_slug slug ≡ true) × (is_current c.status ≡ true)
  unfolding get_current
  get_current-found slug [] c h = absurd (none-ne-some h)
  get_current-found slug (v ∷ vs) c h = ground (arith, get_current-found slug vs c)

  -- A goal's row is not found under another goal's name.
  get_current-append_ne :
      (slug : Text) (vs : List (Version Hash)) (v : Version Hash)
      → text_eq v.goal_slug slug ≡ false
      → get_current slug (vs ++ v ∷ []) ≡ get_current slug vs
  unfolding get_current
  get_current-append_ne slug [] v h = ground arith
  get_current-append_ne slug (w ∷ vs) v h = ground (arith, get_current-append_ne slug vs v)

  -- The row with the id of a goal's row is that goal's row, if ids are distinct.
  get_current-archive_ne :
      (slug other : Text) (vs : List (Version Hash)) (k : ℕ)
      → All (λ v. v.id ≡ k → text_eq v.goal_slug other ≡ false) vs
      → get_current other (archive k vs) ≡ get_current other vs
  unfolding get_current archive
  get_current-archive_ne slug other [] k h = refl
  get_current-archive_ne slug other (v ∷ vs) k h =
      ground (arith, get_current-archive_ne slug other vs k h.1, ==_iff v.id k, h.0)

module _ {Hash : Type 0} (hash_eq : Hash → Hash → Bool) (content_hash : Text → Hash) (slug : Text)
    (content : Text) (created_by : Option Text) (now : ℕ) (vs : List (Version Hash)) where
  abbrev snapshot : Version Hash × List (Version Hash)
  snapshot = create_snapshot hash_eq content_hash slug content created_by now vs

  text_eq_refl : (t : Text) → text_eq t t ≡ true
  text_eq_refl t = (text_eq_iff t t).1 refl

  append-currents_le :
      (ws : List (Version Hash)) (v : Version Hash)
      → IsValid ws
      → ((other : Text) → text_eq v.goal_slug other ≡ true → currents other ws ≡ 0)
      → with_id v.id ws ≡ 0
      → IsValid (ws ++ v ∷ [])
  unfolding currents with_id
  append-currents_le ws v h none_there fresh = record {
    one_current = λ other.
        ground (arith, h.one_current other, currents-append other ws (v ∷ []), none_there other);
    ids = λ i. ground (arith, h.ids i, with_id-append i ws (v ∷ []), ==_iff v.id i, fresh);
  }

  archive-IsValid : (k : ℕ) (ws : List (Version Hash)) → IsValid ws → IsValid (archive k ws)
  archive-IsValid k ws h = record {
    one_current = λ other. omega (arith, h.one_current other, currents-archive_le other k ws);
    ids = λ i. omega (arith, h.ids i, with_id-archive i k ws);
  }

  abbrev added : Version Hash
  added = new_version hash_eq content_hash slug content created_by now vs

  new_id : (k : ℕ) → with_id added.id (archive k vs) ≡ 0
  unfolding new_version
  new_id k = with_id-archive _ k vs ∙ with_id-fresh (max_id vs + 1) vs (omega arith)

  -- Once the goal's current row is archived the goal has none.
  archived_none :
      (c : Version Hash)
      → get_current slug vs ≡ some c
      → IsValid vs
      → currents slug (archive c.id vs) ≡ 0
  archived_none c e h = omega (arith, h.one_current slug, currents-archive slug vs c e)

  same_slug :
      (ws : List (Version Hash)) (other : Text)
      → currents slug ws ≡ 0
      → text_eq added.goal_slug other ≡ true
      → currents other ws ≡ 0
  unfolding new_version
  same_slug ws other h e = subst (λ t. currents t ws ≡ 0) ((text_eq_iff slug other).0 e) h

  snapshot_after-IsValid :
      (found : Option (Version Hash))
      → get_current slug vs ≡ found
      → IsValid vs
      → IsValid (snapshot_after hash_eq content_hash found slug content created_by now vs).1
  unfolding snapshot_after
  snapshot_after-IsValid none e h =
      append-currents_le vs added h (λ other. same_slug vs other (currents-none slug vs e))
        (unfold new_version in with_id-fresh (max_id vs + 1) vs (omega arith))
  snapshot_after-IsValid (some c) e h =
      elim (Bool-cases (hash_eq c.content_hash (content_hash content))) [
        | inl same ↦ rw same h
        | inr new ↦ rw new (
            append-currents_le (archive c.id vs) added (archive-IsValid c.id vs h)
              (λ other. same_slug (archive c.id vs) other (archived_none c e h)) (new_id c.id))
      ]

  -- A snapshot keeps the table valid: one current row for each goal at most, and distinct ids.
  pub create_snapshot-IsValid : IsValid vs → IsValid snapshot.1
  unfolding create_snapshot
  create_snapshot-IsValid = snapshot_after-IsValid (get_current slug vs) refl

  Returned : Version Hash × List (Version Hash) → Type 0
  Returned (v, ws) = (get_current slug ws ≡ some v) × (v.content_hash ≡ content_hash content)

  snapshot_after-Returned :
      (found : Option (Version Hash))
      → get_current slug vs ≡ found
      → ((a b : Hash) → hash_eq a b ≡ true → a ≡ b)
      → IsValid vs
      → Returned (snapshot_after hash_eq content_hash found slug content created_by now vs)
  unfolding snapshot_after Returned
  snapshot_after-Returned none e sound h =
      (get_current-append slug vs added (currents-none slug vs e) (text_eq_refl slug) refl, refl)
  snapshot_after-Returned (some c) e sound h =
      elim (Bool-cases (hash_eq c.content_hash (content_hash content))) [
        | inl same ↦ rw same (e, sound _ _ same)
        | inr new ↦ rw new (
          get_current-append slug (archive c.id vs) added (archived_none c e h) (text_eq_refl slug)
              refl,
          refl,
        )
      ]

  -- What a snapshot returns is the goal's current row afterwards, and it has the content's hash.
  get_current-create_snapshot :
      ((a b : Hash) → hash_eq a b ≡ true → a ≡ b)
      → IsValid vs
      → (get_current slug snapshot.1 ≡ some snapshot.0)
        × (snapshot.0.content_hash ≡ content_hash content)
  unfolding create_snapshot Returned
  get_current-create_snapshot = snapshot_after-Returned (get_current slug vs) refl

  -- On a valid table and with a hash test that is equality, a snapshot returns the goal's current row,
  -- which has the content's hash, and a second one of the same content returns that row again and
  -- leaves the table alone.
  pub create_snapshot_twice :
      (by_second : Option Text) (later : ℕ)
      → ((a b : Hash) → hash_eq a b ≡ true → a ≡ b)
      → ((a : Hash) → hash_eq a a ≡ true)
      → IsValid vs
      → (get_current slug snapshot.1 ≡ some snapshot.0)
        × (snapshot.0.content_hash ≡ content_hash content)
        × (create_snapshot hash_eq content_hash slug content by_second later snapshot.1 ≡ snapshot)
  create_snapshot_twice by_second later sound hash_refl h =
      let (found, same) = get_current-create_snapshot sound h in
      (found, same, unfold create_snapshot in rw (found, snapshot_after) (rw same (rw hash_refl)))
