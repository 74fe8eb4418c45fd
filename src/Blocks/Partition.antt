-- ===== src/Blocks/Partition.antt =====
-- The positions of the blocks in the parts of the change set of `diff_blocks`.
use diecast.Prelude.{ℕ, ◌+◌, ◌≡◌, List, ◌++◌, if◌then◌else◌, arith, length, ltb, text_eq}
use diecast.Blocks.{Block, diff_indexed, body_key, key, key_eq}
use diecast.Blocks.Matching.{enumerate, unused, count, positions, match_all, lefts, rights}
use diecast.Blocks.Matching.Counting.{
  count-append, count-match_all_left, count-match_all_right, count-unused, count-enumerate_from,
}

module _ (old new : List Block) (i : ℕ) where
  -- Every position of an old block occurs exactly once among the old sides of the unchanged pairs,
  -- those of the modified pairs and the removed blocks, and no other position occurs.
  old_partition :
      let d = diff_indexed old new in
      count i (lefts d.same) + count i (lefts d.changed) + count i (positions d.gone)
      ≡ (if ltb i (length old) then 1 else 0)
  unfolding diff_indexed
  old_partition =
      let os = enumerate old in
      let ns = enumerate new in
      let same = match_all text_eq body_key os ns in
      let changed = match_all key_eq key (unused (lefts same) os) (unused (rights same) ns) in
      ground (
        arith,
        count-enumerate_from i 0 old,
        count-match_all_left text_eq body_key i os ns,
        count-match_all_left key_eq key i (unused (lefts same) os) (unused (rights same) ns),
        count-unused i (lefts same) os,
        count-unused i (lefts same ++ lefts changed) os,
        count-append i (lefts same) (lefts changed),
      )

  -- Every position of a new block occurs exactly once among the new sides of the unchanged pairs,
  -- those of the modified pairs and the added blocks, and no other position occurs.
  new_partition :
      let d = diff_indexed old new in
      count i (rights d.same) + count i (rights d.changed) + count i (positions d.fresh)
      ≡ (if ltb i (length new) then 1 else 0)
  unfolding diff_indexed
  new_partition =
      let os = enumerate old in
      let ns = enumerate new in
      let same = match_all text_eq body_key os ns in
      let changed = match_all key_eq key (unused (lefts same) os) (unused (rights same) ns) in
      ground (
        arith,
        count-enumerate_from i 0 new,
        count-match_all_right text_eq body_key i os ns,
        count-match_all_right key_eq key i (unused (lefts same) os) (unused (rights same) ns),
        count-unused i (rights same) ns,
        count-unused i (rights same ++ rights changed) ns,
        count-append i (rights same) (rights changed),
      )

  -- Every position of an old block occurs exactly once among the old sides of the unchanged pairs,
  -- those of the modified pairs and the removed blocks, every position of a new block exactly once
  -- among the new sides of the pairs and the added blocks, and no other position occurs.
  pub diff_partition :
      let d = diff_indexed old new in
      (count i (lefts d.same) + count i (lefts d.changed) + count i (positions d.gone)
        ≡ (if ltb i (length old) then 1 else 0))
      × (count i (rights d.same) + count i (rights d.changed) + count i (positions d.fresh)
          ≡ (if ltb i (length new) then 1 else 0))
  diff_partition = (old_partition, new_partition)
