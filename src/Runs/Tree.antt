-- ===== src/Runs/Tree.antt =====
-- services/agent_service.py: the tree of runs, its reworks, and what is rolled up along it.
use diecast.Prelude.{
  ℕ, zero, suc, ◌+◌, Bool, true, false, ◌&&◌, ◌||◌, Option, none, some, filter, List, [], ◌∷◌, Text,
  text_eq, max, ltb, leb, ◌==◌, if◌then◌else◌,
}
use diecast.Runs.{
  Status, pending, scheduled, running, rate_limited, stuck, completed, partial, failed, other,
}
use diecast.Runs.Dispatch.{text_le}

-- A row with the columns that the tree is made by. `created_at` is "" where the column is null.
pub record Row : Type 0 where
  pub id : Text
  pub parent_run_id : Option Text
  pub agent_name : Text
  pub task_id : Option ℕ
  pub created_at : Text
  pub status : Status

-- A row and its children
mutual
  pub data Node : Type 0 where
    node : Row → Nodes → Node

  pub data Nodes : Type 0 where
    nil : Nodes
    more : Node → Nodes → Nodes

abbrev pub row_of : Node → Row
row_of (node r ns) = r

abbrev pub children : Node → Nodes
children (node r ns) = ns

abbrev pub rows_of : Nodes → List Row
rows_of nil = []
rows_of (more n ns) = row_of n ∷ rows_of ns

abbrev pub same_task : Option ℕ → Option ℕ → Bool
same_task none none = true
same_task none (some b) = false
same_task (some a) none = false
same_task (some a) (some b) = a == b

-- The key of a row: its agent and its task
abbrev pub same_key : Row → Row → Bool
same_key a b = text_eq a.agent_name b.agent_name && same_task a.task_id b.task_id

-- `is_rework` and `rework_index`
pub record Rework : Type 0 where
  pub is_rework : Bool
  pub rework_index : Option ℕ

abbrev pub rework_at : ℕ → Rework
rework_at count =
    if leb 2 count
    then record { is_rework = true; rework_index = some count }
    else record { is_rework = false; rework_index = none }

-- A dict by the key of a row
abbrev pub Seen : Type 0
Seen = Row → ℕ

abbrev pub see : Row → ℕ → Seen → Seen
see r count seen k = if same_key k r then count else seen k

unfoldable pub detect_rework_from : Seen → List Row → List Rework × ℕ
detect_rework_from seen [] = ([], 0)
detect_rework_from seen (child ∷ rest) =
    let count = seen child + 1 in
    let (marks, events) = detect_rework_from (see child count seen) rest in
    (rework_at count ∷ marks, (if leb 2 count then 1 else 0) + events)

-- The marks of the children, and the number of reworks among them
unfoldable pub detect_rework : List Row → List Rework × ℕ
unfolding detect_rework_from
detect_rework rows = detect_rework_from (λ k. 0) rows

unfoldable mutual
  -- `rework_count`, as the walk of `_propagate_rework` returns it
  pub propagate_rework : Node → ℕ
  propagate_rework (node r ns) = (detect_rework (rows_of ns)).1 + propagate_all ns

  pub propagate_all : Nodes → ℕ
  propagate_all nil = 0
  propagate_all (more n ns) = propagate_rework n + propagate_all ns

abbrev pub severity : Status → ℕ
severity completed = 0
severity scheduled = 1
severity pending = 2
severity running = 3
severity rate_limited = 4
severity stuck = 5
severity failed = 6
severity partial = 0
severity (other s) = 0

-- The reverse table; a severity that it lacks gives the row's own status.
abbrev pub status_of_severity : ℕ → Status → Status
status_of_severity n own =
    if n == 0
    then completed
    else (if n == 1
        then scheduled
        else (if n == 2
            then pending
            else (if n == 3
                then running
                else (if n == 4
                    then rate_limited
                    else (if n == 5 then stuck else (if n == 6 then failed else own))))))

abbrev pub is_failed : Status → Bool
is_failed failed = true
is_failed stuck = true
is_failed s = false

-- What the walk returns for the children so far: how many descendants, how many of them failed,
-- and the worst severity
pub record Sums : Type 0 where
  pub count : ℕ
  pub failures : ℕ
  pub worst : ℕ

-- The fields that the walk sets on a node
pub record Rollup : Type 0 where
  pub descendant_count : ℕ
  pub failed_descendant_count : ℕ
  pub status_rollup : Status

abbrev pub add_child : Sums → Sums → Sums
add_child child sub = record {
  count = 1 + child.count + sub.count;
  failures = child.failures + sub.failures;
  worst = if ltb sub.worst child.worst then child.worst else sub.worst;
}

abbrev pub with_own : Row → Sums → Sums
with_own r sub = record {
  count = sub.count;
  failures = sub.failures + (if is_failed r.status then 1 else 0);
  worst = max (severity r.status) sub.worst;
}

-- The walk of `_compute_rollups`: sums go from the last child to the first. Costs, context and
-- durations are left out.
unfoldable mutual
  pub walk : Node → Sums
  walk (node r ns) = with_own r (walk_all ns)

  pub walk_all : Nodes → Sums
  walk_all nil = record { count = 0; failures = 0; worst = 0 }
  walk_all (more n ns) = add_child (walk n) (walk_all ns)

unfoldable pub rollup : Node → Rollup
unfolding walk
rollup (node r ns) =
    let sub = walk_all ns in
    record {
      descendant_count = sub.count;
      failed_descendant_count = sub.failures;
      status_rollup = status_of_severity (max (severity r.status) sub.worst) r.status;
    }

abbrev pub tree_depth_cap : ℕ
tree_depth_cap = 10

abbrev pub is_child : Row → Row → Bool
is_child parent r = elim r.parent_run_id [ none ↦ false | some p ↦ text_eq p parent.id ]

-- The stable sort by `created_at`
unfoldable pub insert_row : Row → List Row → List Row
unfolding text_le
insert_row r [] = r ∷ []
insert_row r (x ∷ xs) =
    let rest = insert_row r xs in if text_le r.created_at x.created_at then r ∷ x ∷ xs else x ∷ rest

unfoldable pub sort_rows : List Row → List Row
unfolding insert_row
sort_rows [] = []
sort_rows (r ∷ rs) = insert_row r (sort_rows rs)

abbrev pub nodes_of : (Row → Node) → List Row → Nodes
nodes_of f [] = nil
nodes_of f (r ∷ rs) = more (f r) (nodes_of f rs)

-- The rows that the recursive query fetches below a row, so many levels down, each under the row that
-- is its parent. Rows with one `created_at` keep the table's order.
unfoldable pub fetched : ℕ → List Row → Row → Node
unfolding sort_rows
fetched zero table r = node r nil
fetched (suc n) table r =
    node r (nodes_of (fetched n table) (sort_rows (filter (is_child r) table)))

unfoldable mutual
  -- A row of the tree is the parent of this one.
  pub holds_parent : Row → Node → Bool
  holds_parent r (node x ns) = is_child x r || hold_parent r ns

  pub hold_parent : Row → Nodes → Bool
  hold_parent r nil = false
  hold_parent r (more n ns) = holds_parent r n || hold_parent r ns

-- A tree, no row, or the error of a recursion without end
pub data Assembled : Type 0 where
  missing : Assembled
  recursion_error : Assembled
  tree : Node → Assembled

-- The dict by id attaches each fetched row to its parent, the run itself too where its parent was
-- fetched. Ids being the table's key, a row has one parent, so that no other row can close a cycle; on
-- that one the walk of the rollups does not end.
unfoldable pub assemble_tree : Row → Node → Assembled
unfolding holds_parent
assemble_tree r n = if holds_parent r n then recursion_error else tree n

unfoldable pub get_row : Text → List Row → Option Row
get_row run_id [] = none
get_row run_id (r ∷ rs) =
    let rest = get_row run_id rs in if text_eq r.id run_id then some r else rest

unfoldable pub assembled : List Row → Option Row → Assembled
unfolding fetched assemble_tree
assembled table none = missing
assembled table (some r) = assemble_tree r (fetched tree_depth_cap table r)

-- The rollups and marks of the tree are those of its nodes.
unfoldable pub get_run_with_rollups : Text → List Row → Assembled
unfolding get_row assembled
get_run_with_rollups run_id table = assembled table (get_row run_id table)
