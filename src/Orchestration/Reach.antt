-- ===== src/Orchestration/Reach.antt =====
-- The phases reachable from one (services/orchestration_service.py), and the plan that starts there.
use diecast.Prelude.{
  same_image, Bool-cases, ℕ, zero, suc, ◌+◌, ◌≤◌, ◌<◌, ◌≡◌, ◌↔◌, inl, inr, refl, sym, ◌∙◌, ap, Bool,
  true, false, ◌&&◌, ◌||◌, Option, none, some, List, [], ◌∷◌, ◌++◌, Text, text_eq, text_eq_iff,
  text_eq_refl, if◌then◌else◌, arith, any, length, none-ne-some,
}
use mathlib.Core.Path.{subst}
use diecast.Orchestration.{
  Phase, is_in, count, keys, ids, by_id, children, values, add_found, repeated, reach,
  reachable_forward,
}
use diecast.Orchestration.Counts.{is_in-count, length-Within, by_id-id, by_id-none}

-- The phase with the second name depends on the first.
abbrev pub depends : List Phase → Text → Text → Bool
depends ps d i = any (λ (p : Phase). text_eq p.id i && is_in d p.depends_on) ps

-- The name follows the first along dependencies.
pub data Follows (ps : List Phase) (start : Text) : Text → Type 0 where
  here : Follows ps start start
  step : (d i : Text) → Follows ps start d → depends ps d i ≡ true → Follows ps start i

is_in-append : (i : Text) (xs ys : List Text) → is_in i (xs ++ ys) ≡ (is_in i xs || is_in i ys)
is_in-append i [] ys = refl
is_in-append i (x ∷ xs) ys = ground (arith, is_in-append i xs ys)

is_in-repeated :
    (d j i : Text) (es : List Text) → is_in i (repeated d j es) ≡ (text_eq j i && is_in d es)
is_in-repeated d j i [] = ground arith
is_in-repeated d j i (e ∷ es) = ground (arith, is_in-repeated d j i es)

is_in-children : (d i : Text) (ps : List Phase) → is_in i (children d ps) ≡ depends ps d i
unfolding children
is_in-children d i [] = refl
is_in-children d i (p ∷ ps) = ground (
  arith,
  is_in-append i (repeated d p.id p.depends_on) (children d ps),
  is_in-repeated d p.id i p.depends_on,
  is_in-children d i ps,
)

depends-ids : (d i : Text) (ps : List Phase) → depends ps d i ≡ true → is_in i (ids ps) ≡ true
depends-ids d i [] h = h
depends-ids d i (p ∷ ps) h = ground (arith, h, depends-ids d i ps)

length-ids : (ps : List Phase) → length (ids ps) ≡ length ps
length-ids [] = refl
length-ids (p ∷ ps) = ap suc (length-ids ps)

-- A list whose children are all among these names
module _ (ps : List Phase) (names : List Text) (start : Text)
    (among : (d i : Text) → is_in i (children d ps) ≡ true → is_in i names ≡ true) where
  -- The names in the queue and reached follow the start, which is among them, and so are the
  -- children of a reached name; they are names of the list, and none is reached twice.
  record Explored (queue reachable : List Text) : Type 0 where
    sound : (i : Text) → (is_in i queue || is_in i reachable) ≡ true → Follows ps start i
    begun : (is_in start queue || is_in start reachable) ≡ true
    closed :
        (d i : Text)
        → is_in d reachable ≡ true
        → is_in i (children d ps) ≡ true
        → (is_in i queue || is_in i reachable) ≡ true
    waits : (i : Text) → is_in i queue ≡ true → is_in i names ≡ true
    once : (i : Text) → count i reachable ≤ (if is_in i names then 1 else 0)

  drop-Explored :
      (pid : Text) (queue reachable : List Text)
      → is_in pid reachable ≡ true
      → Explored (pid ∷ queue) reachable
      → Explored queue reachable
  drop-Explored pid queue reachable h e =
      let again : (i : Text) → text_eq pid i ≡ true → is_in i reachable ≡ true =
        λ i m. sym (same_image (λ j. is_in j reachable) pid i m) ∙ h in
      record {
        sound = λ i m. e.sound i (ground (arith, m));
        begun = ground (arith, e.begun, again start);
        closed = λ d i m c. ground (arith, e.closed d i m c, again i);
        waits = λ i m. e.waits i (ground (arith, m));
        once = e.once;
      }

  add-Explored :
      (pid : Text) (queue reachable : List Text)
      → is_in pid reachable ≡ false
      → Explored (pid ∷ queue) reachable
      → Explored (queue ++ children pid ps) (pid ∷ reachable)
  add-Explored pid queue reachable h e =
      let split : (i : Text)
          → is_in i (queue ++ children pid ps) ≡ (is_in i queue || is_in i (children pid ps)) =
        λ i. is_in-append i queue (children pid ps) in
      let first : Follows ps start pid = e.sound pid (ground (arith, text_eq_refl pid)) in
      record {
        sound = λ i m.
            either i (is_in i (children pid ps)) refl (ground (arith, m, split i)) first e.sound;
        begun = ground (arith, e.begun, split start);
        closed = λ d i m c.
            ground
              (arith, m, e.closed d i, c, split i, same_image (λ j. is_in i (children j ps)) pid d);
        waits = λ i m. ground (arith, m, split i, e.waits i, among pid i);
        once = λ i. ground (
          arith,
          e.once i,
          e.waits i,
          is_in-count i reachable,
          same_image (λ j. is_in j reachable) pid i,
        );
      }
    where
      either :
          (i : Text) (b : Bool)
          → is_in i (children pid ps) ≡ b
          → (b ≡ false → (is_in i (pid ∷ queue) || is_in i reachable) ≡ true)
          → Follows ps start pid
          → ((j : Text) → (is_in j (pid ∷ queue) || is_in j reachable) ≡ true → Follows ps start j)
          → Follows ps start i
      either i true c m first s = step pid i first (sym (is_in-children pid i ps) ∙ c)
      either i false c m first s = s i (m refl)

  -- The loop ends with an empty queue.
  reach-Explored :
      (fuel : ℕ) (queue reachable : List Text)
      → Explored queue reachable
      → length names < fuel + length reachable
      → (reached : List Text) × (reach fuel ps queue reachable ≡ some reached) × Explored [] reached
  unfolding reach
  reach-Explored fuel [] reachable e l = (reachable, refl, e)
  reach-Explored zero (pid ∷ queue) reachable e l = absurd (
      ground (
        arith,
        l,
        length-Within reachable names (λ i. ground (arith, e.once i, is_in-count i names)),
      ))
  reach-Explored (suc fuel) (pid ∷ queue) reachable e l = elim (Bool-cases (is_in pid reachable)) [
    | inl h ↦
        let (reached, ends, e') =
          reach-Explored (suc fuel) queue reachable (drop-Explored pid queue reachable h e) l in
        (reached, rw (h, reach) ends, e')
    | inr h ↦
        let (reached, ends, e') =
          reach-Explored fuel (queue ++ children pid ps) (pid ∷ reachable)
            (add-Explored pid queue reachable h e) (ground (arith, l)) in
        (reached, rw (h, reach) ends, e')
  ]

  Follows-Explored :
      (reached : List Text)
      → Explored [] reached
      → (i : Text) → Follows ps start i
      → is_in i reached ≡ true
  Follows-Explored reached e i here = e.begun
  Follows-Explored reached e _ (step d i f h) =
      e.closed d i (Follows-Explored reached e d f) (is_in-children d i ps ∙ h)

module _ (phases : List Phase) where
  -- The phases of the dict
  abbrev pub distinct : List Phase
  distinct = values (keys phases) phases

  by_id-known : (k : Text) (p : Phase) → by_id k phases ≡ some p → is_in k (ids phases) ≡ true
  by_id-known k p e = elim (Bool-cases (is_in k (ids phases))) [
    | inl h ↦ h
    | inr h ↦ absurd (none-ne-some (sym (by_id-none k phases h) ∙ e))
  ]

  ids-values :
      (is : List Text) (i : Text)
      → is_in i (ids (values is phases)) ≡ true
      → is_in i (ids phases) ≡ true
  unfolding values
  ids-values [] i h = ground (arith, h)
  ids-values (k ∷ is) i h = go (by_id k phases) refl h (ids-values is i)
    where
      go :
          (o : Option Phase)
          → by_id k phases ≡ o
          → is_in i (ids (add_found o (values is phases))) ≡ true
          → (is_in i (ids (values is phases)) ≡ true → is_in i (ids phases) ≡ true)
          → is_in i (ids phases) ≡ true
      go none e h rest = rest h
      go (some p) e h rest = ground (
        arith,
        h,
        rest,
        by_id-known k p e,
        same_image (λ j. is_in j (ids phases)) k i,
        same_image (λ x. text_eq x i) p.id k (by_id-id k phases p e),
      )

  begin :
      (start : Text)
      → is_in start (ids phases) ≡ true
      → (among : (d i : Text) → is_in i (children d distinct) ≡ true → is_in i (ids phases) ≡ true)
      → Explored distinct (ids phases) start among (start ∷ []) []
  begin start known among = record {
    sound =
        λ i m. subst (Follows distinct start) ((text_eq_iff start i).0 (ground (arith, m))) here;
    begun = ground (arith, text_eq_refl start);
    closed = λ d i m c. ground (arith, m);
    waits = λ i m. ground (arith, m, known, same_image (λ j. is_in j (ids phases)) start i);
    once = λ i. ground arith;
  }

  -- From a start that is the id of a phase the search ends, and it finds exactly the names that
  -- follow the start along the dependencies of the phases in the dict.
  pub reachable_forward_iff :
      (start : Text)
      → is_in start (ids phases) ≡ true
      → (reached : List Text) × (reachable_forward phases start ≡ some reached)
        × ((i : Text) → (is_in i reached ≡ true) ↔ Follows distinct start i)
  unfolding reachable_forward
  reachable_forward_iff start known =
      let among : (d i : Text)
          → is_in i (children d distinct) ≡ true
          → is_in i (ids phases) ≡ true =
        λ d i h.
          ids-values (keys phases) i
            (depends-ids d i distinct (sym (is_in-children d i distinct) ∙ h)) in
      let (reached, ends, e) =
        reach-Explored distinct (ids phases) start among (suc (length phases)) (start ∷ []) []
          (begin start known among) (ground (arith, length-ids phases)) in
      (
        reached,
        ends,
        λ i. (e.sound i, Follows-Explored distinct (ids phases) start among reached e i),
      )
