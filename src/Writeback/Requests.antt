-- ===== src/Writeback/Requests.antt =====
-- services/change_request_service.py: the change requests, the trust gate `gate_status` and the guard
-- `_verify_surgical`.
pub mod Apply
pub mod Guard
pub mod Intake
pub mod Pipeline
use diecast.Prelude.{
  ℕ, zero, suc, ◌+◌, ◌-◌, ◌≡◌, Bool, true, false, not, ◌&&◌, Option, none, some, List, [], ◌∷◌,
  ◌++◌, Text, codes, text_eq, starts_with, find, ends_with, length, take, drop, ◌==◌, if◌then◌else◌,
  max,
}
use Prim.Native.Nat.{min}
use mathlib.Core.List.{reverse}
use diecast.Writeback.Conflict.{Verdict, clean, conflicted, orphaned}

pub data Kind : Type 0 where
  addition modification annotation : Kind

abbrev pub is_addition : Kind → Bool
is_addition addition = true
is_addition _ = false

-- `change_requests.status`
pub data RequestStatus : Type 0 where
  proposed applied conflicted_request rejected superseded : RequestStatus

pub record Request : Type 0 where
  pub id : ℕ
  pub goal_slug : Text
  pub target_quote : Option Text
  pub section_hint : Option Text
  pub base_version : ℕ
  pub proposed_body : Text
  pub kind : Kind
  pub status : RequestStatus
  pub origin_phase : Option Text
  pub origin_activity_id : Option Text
  pub origin_artifact_path : Option Text
  pub author : Text
  pub author_type : Text
  pub created_at : ℕ
  pub updated_at : ℕ

-- The policies that `gate_status` knows, and any other text
pub data Policy : Type 0 where
  gate_except_additions gate_none gate_all unknown_policy : Policy

abbrev is_none {ℓ} : {A : Type ℓ} → Option A → Bool
is_none none = true
is_none (some a) = false

unfoldable pub gate_status : Kind → Option Text → Policy → RequestStatus
gate_status kind target_quote gate_none = applied
gate_status kind target_quote gate_all = proposed
gate_status kind target_quote _ =
    if is_addition kind && is_none target_quote then applied else proposed

unfoldable pub common_prefix_len : Text → Text → ℕ
common_prefix_len [] b = 0
common_prefix_len (c ∷ a) [] = 0
common_prefix_len (c ∷ a) (d ∷ b) =
    let rest = common_prefix_len a b in if c == d then suc rest else 0

-- Characters from the end that agree, `n` at most
unfoldable pub common_suffix_len : Text → Text → ℕ → ℕ
unfolding common_prefix_len
common_suffix_len a b floor =
    let n = min (length a) (length b) - floor in
    common_prefix_len (take n (reverse a)) (take n (reverse b))

abbrev pub before_region : Text → Text → Option ℕ → Text
before_region old region none = take (length old - 1) old
before_region old region (some idx) = take idx old

abbrev pub after_region : Text → Text → Option ℕ → Text
after_region old region none = drop (length region - 1) old
after_region old region (some idx) = drop (idx + length region) old

abbrev pub or_empty : Option Text → Text
or_empty none = []
or_empty (some t) = t

unfoldable pub keeps_all : Text → Text → Bool
unfolding common_prefix_len common_suffix_len
keeps_all old new =
    let p = common_prefix_len old new in
    let s = common_suffix_len old new p in text_eq (take (length old - s - p) (drop p old)) []

unfoldable pub keeps_around : Text → Text → Text → Bool
unfolding find ends_with
keeps_around old new region =
    starts_with new (before_region old region (find old region))
    && ends_with new (after_region old region (find old region))

-- False where `_verify_surgical` raises.
unfoldable pub verify_surgical : Text → Text → Kind → Option Text → Bool
unfolding keeps_all keeps_around
verify_surgical old new kind region =
    if is_addition kind then keeps_all old new else keeps_around old new (or_empty region)
