-- ===== src/Runs/Rollups.antt =====
-- What the rollups and the marks of reworks say (services/agent_service.py).
use diecast.Prelude.{
  ℕ, ◌+◌, ◌≤◌, ◌≡◌, ◌↔◌, refl, ap, ◌∙◌, true, Option, none, some, List, [], ◌∷◌, ◌++◌, text_eq_iff,
  max, if◌then◌else◌, arith, inl, inr, length, length-append, Bool-cases,
}
use diecast.Runs.{Status}
use diecast.Runs.Tree.{
  Row, Node, node, Nodes, nil, more, row_of, same_task, same_key, Rework, rework_at, Seen, see,
  detect_rework_from, detect_rework, severity, status_of_severity, is_failed, walk, walk_all, Sums,
  rollup,
}

-- The rows below a node, each before those below it
unfoldable mutual
  pub descendants : Node → List Row
  descendants (node r ns) = flatten ns

  pub flatten : Nodes → List Row
  flatten nil = []
  flatten (more n ns) = row_of n ∷ descendants n ++ flatten ns

abbrev pub failures_of : List Row → ℕ
failures_of [] = 0
failures_of (r ∷ rs) = (if is_failed r.status then 1 else 0) + failures_of rs

abbrev pub worst_of : List Row → ℕ
worst_of [] = 0
worst_of (r ∷ rs) = max (severity r.status) (worst_of rs)

failures_of-append : (xs ys : List Row) → failures_of (xs ++ ys) ≡ failures_of xs + failures_of ys
failures_of-append [] ys = omega arith
failures_of-append (x ∷ xs) ys = omega (arith, failures_of-append xs ys)

worst_of-append : (xs ys : List Row) → worst_of (xs ++ ys) ≡ max (worst_of xs) (worst_of ys)
worst_of-append [] ys = omega arith
worst_of-append (x ∷ xs) ys = omega (arith, worst_of-append xs ys)

abbrev Agrees : Sums → List Row → Type 0
Agrees s rs = (s.count ≡ length rs) × (s.failures ≡ failures_of rs) × (s.worst ≡ worst_of rs)

mutual
  unfolding walk descendants

  walk-row :
      (n : Node)
      → ((walk n).count ≡ length (descendants n))
        × ((walk n).failures ≡ failures_of (row_of n ∷ descendants n))
        × ((walk n).worst ≡ worst_of (row_of n ∷ descendants n))
  walk-row (node r ns) =
      let (counts, fails, worsts) = walk_all-Agrees ns in
      (counts, omega (arith, fails), omega (arith, worsts))

  walk_all-Agrees : (ns : Nodes) → Agrees (walk_all ns) (flatten ns)
  walk_all-Agrees nil = (refl, refl, refl)
  walk_all-Agrees (more n ns) =
      let (counts, fails, worsts) = walk_all-Agrees ns in
      let (count, fail, worst) = walk-row n in
      (
        omega (arith, counts, count, length-append (descendants n) (flatten ns)),
        omega (arith, fails, fail, failures_of-append (descendants n) (flatten ns)),
        ground (arith, worsts, worst, worst_of-append (descendants n) (flatten ns)),
      )

severity-bounded : (s : Status) → severity s ≤ 6
severity-bounded s = ground arith

worst_of-bounded : (rs : List Row) → worst_of rs ≤ 6
worst_of-bounded [] = omega arith
worst_of-bounded (r ∷ rs) = omega (arith, severity-bounded r.status, worst_of-bounded rs)

severity-status_of : (n : ℕ) (own : Status) → n ≤ 6 → severity (status_of_severity n own) ≡ n
severity-status_of n own h = ground (arith, h)

-- A node's rollup counts its descendants and those of them that are failed or stuck, and its
-- status has the worst severity of the node and its descendants.
pub rollup-descendants :
    (n : Node)
    → ((rollup n).descendant_count ≡ length (descendants n))
      × ((rollup n).failed_descendant_count ≡ failures_of (descendants n))
      × (severity (rollup n).status_rollup ≡ worst_of (row_of n ∷ descendants n))
unfolding rollup descendants
rollup-descendants (node r ns) =
    let (counts, fails, worsts) = walk_all-Agrees ns in
    (
      counts,
      fails,
      severity-status_of (max (severity r.status) (walk_all ns).worst) r.status
            (omega (arith, severity-bounded r.status, worst_of-bounded (flatten ns), worsts))
          ∙ ap (max (severity r.status)) worsts,
    )

-- How many rows of the list have the agent and the task of this one
abbrev pub count_same : Row → List Row → ℕ
count_same k [] = 0
count_same k (r ∷ rs) = (if same_key k r then 1 else 0) + count_same k rs

-- Each row after those before it (the last first) is a rework from the second of its key on.
abbrev pub marks_after : List Row → List Row → List Rework
marks_after before [] = []
marks_after before (r ∷ rs) = rework_at (count_same r before + 1) ∷ marks_after (r ∷ before) rs

abbrev pub reworks_of : List Rework → ℕ
reworks_of [] = 0
reworks_of (m ∷ ms) = (if m.is_rework then 1 else 0) + reworks_of ms

same_task_iff : (a b : Option ℕ) → (same_task a b ≡ true) ↔ (a ≡ b)
same_task_iff none none = ground arith
same_task_iff none (some b) = ground arith
same_task_iff (some a) none = ground arith
same_task_iff (some a) (some b) = ground arith

count_same-key :
    (k r : Row) (rs : List Row) → same_key k r ≡ true → count_same k rs ≡ count_same r rs
count_same-key k r [] e = refl
count_same-key k r (x ∷ rs) e = ground (
  arith,
  e,
  count_same-key k r rs e,
  text_eq_iff k.agent_name r.agent_name,
  text_eq_iff k.agent_name x.agent_name,
  text_eq_iff r.agent_name x.agent_name,
  same_task_iff k.task_id r.task_id,
  same_task_iff k.task_id x.task_id,
  same_task_iff r.task_id x.task_id,
)

detect_from-marks :
    (seen : Seen) (before rows : List Row)
    → ((k : Row) → seen k ≡ count_same k before)
    → detect_rework_from seen rows ≡ (marks_after before rows, reworks_of (marks_after before rows))
unfolding detect_rework_from
detect_from-marks seen before [] agrees = refl
detect_from-marks seen before (r ∷ rs) agrees =
    rw (detect_from-marks (see r (seen r + 1) seen) (r ∷ before) rs later, agrees r) (ground arith)
  where
    later : (k : Row) → see r (seen r + 1) seen k ≡ count_same k (r ∷ before)
    later k = elim (Bool-cases (same_key k r)) [
      | inl e ↦ rw e (omega (arith, agrees r, count_same-key k r before e))
      | inr e ↦ rw e (omega (arith, agrees k))
    ]

-- Of siblings in order, each is marked a rework with the number of those up to it that have its
-- agent and task, where that is two or more, and the events counted are the rows so marked.
detect_rework-marks :
    (rows : List Row) → detect_rework rows ≡ (marks_after [] rows, reworks_of (marks_after [] rows))
unfolding detect_rework
detect_rework-marks rows = detect_from-marks (λ k. 0) [] rows (λ k. refl)
