-- ===== src/Blocks/Tests.antt =====
-- A change set on two small documents.
use diecast.Prelude.{
  ℕ, ◌+◌, ◌≡◌, refl, none, some, List, [], ◌∷◌, All, Text, codes, if◌then◌else◌, ltb, length,
}
use diecast.Blocks.{Block, fr, diff_indexed, diff_blocks, summarize, body_key, key}
use diecast.Blocks.Matching.{is_taken, count, positions, lefts, rights}
use diecast.Blocks.Partition.{diff_partition}
use diecast.Blocks.Pairs.{Joins, diff_pairs}

abbrev requirement : Text → Text → ℕ → Block
requirement ref body i = record {
  kind = fr;
  level = 2;
  body = body;
  heading = none;
  ref = some ref;
  line_start = i;
  line_end = i;
  identity = i;
}

abbrev before : List Block
before =
    requirement (codes "FR-001") (codes "keep ") 1
    ∷ requirement (codes "FR-002") (codes "old") 2
    ∷ requirement (codes "FR-003") (codes "gone") 3
    ∷ []

abbrev after : List Block
after =
    requirement (codes "FR-004") (codes "fresh") 11
    ∷ requirement (codes "FR-002") (codes "new") 12
    ∷ requirement (codes "FR-001") (codes "keep") 13
    ∷ []

summary_run :
    (summarize (diff_blocks before after)).counts
    ≡ record { added = 1; modified = 1; removed = 1; unchanged = 1 }
unfolding summarize diff_blocks is_taken
summary_run = refl

diff_partition_example :
    let d = diff_indexed before after in
    (count 1 (lefts d.same) + count 1 (lefts d.changed) + count 1 (positions d.gone)
      ≡ (if ltb 1 (length before) then 1 else 0))
    × (count 1 (rights d.same) + count 1 (rights d.changed) + count 1 (positions d.fresh)
        ≡ (if ltb 1 (length after) then 1 else 0))
diff_partition_example = diff_partition before after 1

diff_pairs_example :
    let d = diff_indexed before after in
    All (Joins before after body_key) d.same × All (Joins before after key) d.changed
diff_pairs_example = diff_pairs before after
