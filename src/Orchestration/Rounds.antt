-- ===== src/Orchestration/Rounds.antt =====
-- The rounds of build_execution_groups (services/orchestration_service.py) and what they keep of the
-- degrees, the queue and the groups.
use diecast.Prelude.{
  same_image, ◌+◌, ◌≤◌, ◌≡◌, refl, ap, Bool, true, Option, none, some, List, [], ◌∷◌, ◌++◌, Text,
  text_eq, if◌then◌else◌, arith, length,
}
use diecast.Orchestration.{
  Phase, Degrees, Round, is_in, count, keys, ids, by_id, is_done, degree, children, release, add_to,
  visit, run_round,
}
use diecast.Orchestration.Counts.{hit, count-keys, count-append, count-ids_append, by_id-id}
use diecast.Orchestration.Release.{
  paid, one_known, degree-paid, count-children, paid-add, paid_mono, zero_at, release_lem,
}

abbrev pub no_run : Option Phase → Bool
no_run none = true
no_run (some p) = is_done p

-- The ids of the phases of the groups
abbrev pub grouped : List (List Phase) → List Text
grouped [] = []
grouped (g ∷ gs) = ids g ++ grouped gs

module _ (phases : List Phase) where
  -- No phase has the name, or the one that has it needs no run.
  abbrev pub skipped : Text → Bool
  skipped i = no_run (by_id i phases)

  -- What is kept of the visited names, the names still to visit, the degrees, and the ids in the
  -- groups.
  pub record Keeps (visited queue : List Text) (deg : Degrees) (placed : List Text) : Type 0 where
    pub owed : (i : Text) → deg i + paid (λ d. count d visited) i phases ≡ degree phases i phases
    pub due :
        (i : Text)
        → count i visited + count i queue + (if is_in i (ids phases) then 0 else 1)
          ≡ zero_at (deg i)
    pub runs : (i : Text) → count i placed ≡ (if skipped i then 0 else count i visited)

  -- The children of a name in the queue occur no oftener than their degrees say.
  children_owed :
      (visited queue : List Text) (deg : Degrees) (placed : List Text) (v : Text)
      → Keeps visited (v ∷ queue) deg placed
      → (i : Text)
      → count i (children v phases) + paid (λ d. count d visited) i phases ≤ degree phases i phases
  children_owed visited queue deg placed v k i = ground (
    arith,
    degree-paid phases i phases,
    count-children v i phases,
    paid-add (hit v) (λ d. count d visited) i phases,
    paid_mono (λ d. hit v d + count d visited) (one_known phases) (λ d. ground (arith, k.due d)) i
        phases,
  )

  -- The group of a round gains the phase's id, unless its phase is skipped.
  count-add_to :
      (v i : Text) (group : List Phase)
      → count i (ids (add_to (by_id v phases) group))
        ≡ count i (ids group) + (if skipped i then 0 else hit v i)
  count-add_to v i group = go (by_id v phases) refl
    where
      go :
          (o : Option Phase)
          → by_id v phases ≡ o
          → count i (ids (add_to o group))
            ≡ count i (ids group) + (if skipped i then 0 else hit v i)
      go none e = ground (arith, ap no_run e, same_image skipped v i)
      go (some p) e =
          let named : text_eq p.id v ≡ true = by_id-id v phases p e in
          ground (
            arith,
            ap no_run e,
            same_image skipped v i,
            same_image (λ x. text_eq x i) p.id v named,
            count-ids_append i group (p ∷ []),
          )

  visit-Keeps :
      (visited queue : List Text) (v : Text) (r : Round) (before : List Text)
      → Keeps visited ((v ∷ queue) ++ r.next) r.degrees (before ++ ids r.group)
      → let r' = visit phases v r in
        Keeps (v ∷ visited) (queue ++ r'.next) r'.degrees (before ++ ids r'.group)
  unfolding visit
  visit-Keeps visited queue v r before k =
      let cs = children v phases in
      let bound : (i : Text)
          → count i cs + paid (λ d. count d visited) i phases ≤ degree phases i phases =
        children_owed visited (queue ++ r.next) r.degrees (before ++ ids r.group) v k in
      let freed = release_lem cs r.degrees r.next (λ i. ground (arith, bound i, k.owed i)) in
      record {
        owed = λ i. ground (
          arith,
          (freed i).0,
          k.owed i,
          count-children v i phases,
          paid-add (hit v) (λ d. count d visited) i phases,
        );
        due = λ i. ground (
          arith,
          (freed i).0,
          (freed i).1,
          k.due i,
          count-append i queue r.next,
          count-append i queue (release cs r.degrees r.next).1,
        );
        runs = λ i. ground (
          arith,
          k.runs i,
          count-append i before (ids r.group),
          count-append i before (ids (add_to (by_id v phases) r.group)),
          count-add_to v i r.group,
        );
      }

  pub run_round-Keeps :
      (visited queue : List Text) (r : Round) (before : List Text)
      → Keeps visited (queue ++ r.next) r.degrees (before ++ ids r.group)
      → let r' = run_round phases queue r in
        (visited' : List Text) × Keeps visited' r'.next r'.degrees (before ++ ids r'.group)
        × (length visited' ≡ length visited + length queue)
        × (r'.visited ≡ r.visited + length queue)
  unfolding run_round visit
  run_round-Keeps visited [] r before k = (visited, k, ground arith, ground arith)
  run_round-Keeps visited (v ∷ queue) r before k =
      let (visited', kept, long, counted) =
        run_round-Keeps (v ∷ visited) queue (visit phases v r) before
          (visit-Keeps visited queue v r before k) in
      (visited', kept, ground (arith, long), ground (arith, counted))

  -- No name is visited twice, and none that is no id.
  pub count-visited_le :
      (visited queue : List Text) (deg : Degrees) (placed : List Text)
      → Keeps visited queue deg placed
      → (i : Text) → count i visited ≤ count i (keys phases)
  count-visited_le visited queue deg placed k i = ground (arith, k.due i, count-keys i phases)
