-- ===== src/Orchestration/Cycles.antt =====
-- When build_execution_groups (services/orchestration_service.py) raises, and when not.
use diecast.Prelude.{
  same_image, ℕ, zero, suc, ◌≤◌, ◌<◌, ◌≡◌, ◌∙◌, ap, Bool, true, false, not, ◌&&◌, ◌||◌, List, [],
  ◌∷◌, Text, text_eq, text_eq_refl, All, ◌⊎◌, inl, inr, if◌then◌else◌, arith, ◌==◌, any, all,
  length, ltb, filter,
}
use diecast.Orchestration.{
  Phase, Degrees, ok, raised, cycle, is_in, count, keys, ids, check_visited, plan_all,
}
use diecast.Orchestration.Counts.{is_in-count, count-keys, length-Within, count-filter}
use diecast.Orchestration.Release.{paid, total, one_known, degree-paid}
use diecast.Orchestration.Rounds.{grouped, Keeps}
use diecast.Orchestration.Complete.{plan_all-Ends, length-visited_le}

-- Where a sum falls short, some term does.
total_short :
    (f g : Degrees) (short : Text → Bool)
    → ((d : Text) → suc (f d) ≤ g d → short d ≡ true)
    → (ds : List Text) → suc (total f ds) ≤ total g ds
    → any short ds ≡ true
total_short f g short s [] h = absurd (ground (arith, h))
total_short f g short s (d ∷ ds) h = ground (arith, h, s d, total_short f g short s ds)

paid_short :
    (f g : Degrees) (short : Text → Bool)
    → ((d : Text) → suc (f d) ≤ g d → short d ≡ true)
    → (i : Text) (ps : List Phase) → suc (paid f i ps) ≤ paid g i ps
    → any (λ (p : Phase). text_eq p.id i && any short p.depends_on) ps ≡ true
paid_short f g short s i [] h = absurd (ground (arith, h))
paid_short f g short s i (p ∷ ps) h =
    ground (arith, h, total_short f g short s p.depends_on, paid_short f g short s i ps)

module _ (phases : List Phase) where
  abbrev stuck_of : Degrees → List Text
  stuck_of deg = filter (λ i. ltb 0 (deg i)) (ids phases)

  -- A name whose degree is left has a dependency whose degree is left.
  stuck_on :
      (visited : List Text) (deg : Degrees) (placed : List Text)
      → Keeps phases visited [] deg placed
      → (i : Text) → is_in i (stuck_of deg) ≡ true
      → any (λ (p : Phase). text_eq p.id i && any (λ d. is_in d (stuck_of deg)) p.depends_on) phases
        ≡ true
  stuck_on visited deg placed k i h =
      let f : Text → Bool = λ j. ltb 0 (deg j) in
      paid_short (λ d. count d visited) (one_known phases) (λ d. is_in d (stuck_of deg))
        (λ d s. ground (
          arith,
          s,
          k.due d,
          is_in-count d (stuck_of deg),
          count-filter f d (ids phases),
          is_in-count d (ids phases),
        ))
        i phases
        (ground (
          arith,
          h,
          is_in-count i (stuck_of deg),
          count-filter f i (ids phases),
          k.owed i,
          degree-paid phases i phases,
        ))

  -- Names that satisfy P, each of them
  is_in-All :
      (P : Text → Type 0) (is : List Text) → ((i : Text) → is_in i is ≡ true → P i) → All P is
  is_in-All P [] h = tt
  is_in-All P (i ∷ is) h =
      (h i (ground (arith, text_eq_refl i)), is_in-All P is (λ j m. h j (ground (arith, m))))

  abbrev pub is_stuck : List Text → Text → Bool
  is_stuck stuck i =
      any (λ (p : Phase). text_eq p.id i && any (λ d. is_in d stuck) p.depends_on) phases

  -- A plan is made, or an error about a cycle is raised in which every phase named has a dependency
  -- that is named too; the rounds are never cut off.
  pub plan_all-cycle :
      ((groups : List (List Phase)) × (plan_all phases ≡ ok groups))
      ⊎ ((stuck : List Text) × (plan_all phases ≡ raised (cycle stuck))
          × All (λ (i : Text). is_stuck stuck i ≡ true) stuck)
  unfolding plan_all
  plan_all-cycle =
      let (visited, deg, groups, ended, k, o) = plan_all-Ends phases in
      go deg groups (length visited == length phases) (ap (check_visited phases) ended) (
        is_in-All (λ (i : Text). is_stuck (stuck_of deg) i ≡ true) (stuck_of deg)
          (stuck_on visited deg (grouped groups) k))
    where
      go :
          (deg : Degrees) (groups : List (List Phase)) (b : Bool)
          → plan_all phases ≡ (if b then ok groups else raised (cycle (stuck_of deg)))
          → All (λ (i : Text). is_stuck (stuck_of deg) i ≡ true) (stuck_of deg)
          → ((found : List (List Phase)) × (plan_all phases ≡ ok found))
            ⊎ ((stuck : List Text) × (plan_all phases ≡ raised (cycle stuck))
                × All (λ (i : Text). is_stuck stuck i ≡ true) stuck)
      go deg groups true e h = inl (groups, e)
      go deg groups false e h = inr (stuck_of deg, e, h)

  -- The dependency is no phase, or ranks lower.
  abbrev pub below : (Text → ℕ) → Text → Text → Bool
  below rank i d = not (is_in d (ids phases)) || ltb (rank d) (rank i)

  abbrev pub descends : (Text → ℕ) → List Phase → Bool
  descends rank ps = all (λ (p : Phase). all (below rank p.id) p.depends_on) ps

  total_le :
      (f g : Degrees) (fine : Text → Bool)
      → ((d : Text) → fine d ≡ true → g d ≤ f d)
      → (ds : List Text) → all fine ds ≡ true
      → total g ds ≤ total f ds
  total_le f g fine s [] h = ground arith
  total_le f g fine s (d ∷ ds) h = ground (arith, h, s d, total_le f g fine s ds)

  paid_le :
      (rank : Text → ℕ) (f g : Degrees) (i : Text)
      → ((d : Text) → below rank i d ≡ true → g d ≤ f d)
      → (ps : List Phase) → descends rank ps ≡ true
      → paid g i ps ≤ paid f i ps
  paid_le rank f g i s [] h = ground arith
  paid_le rank f g i s (p ∷ ps) h = ground (
    arith,
    h,
    total_le f g (below rank i) s p.depends_on,
    same_image (λ j. all (below rank j) p.depends_on) p.id i,
    paid_le rank f g i s ps,
  )

  -- With an empty queue, ranked dependencies leave no phase unvisited.
  all_visited :
      (rank : Text → ℕ) (visited : List Text) (deg : Degrees) (placed : List Text)
      → Keeps phases visited [] deg placed
      → descends rank phases ≡ true
      → (n : ℕ) (i : Text) → rank i < n
      → count i (keys phases) ≤ count i visited
  all_visited rank visited deg placed k h zero i l = absurd (ground (arith, l))
  all_visited rank visited deg placed k h (suc n) i l = ground (
    arith,
    count-keys i phases,
    k.due i,
    k.owed i,
    degree-paid phases i phases,
    paid_le rank (λ d. count d visited) (one_known phases) i
        (λ d b.
          ground (arith, b, l, count-keys d phases, all_visited rank visited deg placed k h n d))
        phases h,
  )

  -- Phases with distinct ids, each of whose dependencies on another phase ranks below it, have a
  -- plan.
  pub plan_all_acyclic :
      (rank : Text → ℕ)
      → length (keys phases) ≡ length phases
      → descends rank phases ≡ true
      → (groups : List (List Phase)) × (plan_all phases ≡ ok groups)
  unfolding plan_all
  plan_all_acyclic rank distinct h =
      let (visited, deg, groups, ended, k, o) = plan_all-Ends phases in
      let all_of : length (keys phases) ≤ length visited =
        length-Within (keys phases) visited (λ i.
          all_visited rank visited deg (grouped groups) k h (suc (rank i)) i (ground arith)) in
      let full : (length visited == length phases) ≡ true =
        ground
          (arith, all_of, distinct, length-visited_le phases visited [] deg (grouped groups) k) in
      (
        groups,
        ap (check_visited phases) ended
            ∙ ap (λ b. if b then ok groups else raised (cycle (stuck_of deg))) full,
      )
