-- ===== src/Memory/Counted.antt =====
-- What one more error makes of the table (services/error_memory_service.py).
use diecast.Prelude.{
  ℕ, zero, suc, ◌+◌, ◌≤◌, ◌≡◌, refl, sym, ap, ◌∙◌, Bool, true, ◌&&◌, Option, none, some, List, [],
  ◌∷◌, ◌++◌, map, Text, text_eq, text_eq_iff, text_eq_refl, ◌⊎◌, inl, inr, ◌==◌, ==_iff,
  if◌then◌else◌, OneOf, arith, Bool-cases, none-ne-some, some-inj,
}
use mathlib.Core.Path.{subst}
use diecast.Memory.{
  Resolution, ErrorMemory, Memories, Patterns, has_key, find_memory, status_for, recur_at,
  new_memory, upsert,
}
use diecast.Memory.Found.{after_found, find-OneOf, find-recur_at, find-append, recur_at_id}

-- The count and the status of an agent's pattern
abbrev pub shown : Option ErrorMemory → Option (ℕ × Resolution)
shown none = none
shown (some m) = some (m.occurrence_count, m.resolution_status)

-- What n occurrences are to show
abbrev pub expected : ℕ → Option (ℕ × Resolution)
expected zero = none
expected (suc n) = some (suc n, status_for (suc n))

abbrev same_key : ErrorMemory → ErrorMemory → Bool
same_key m n = text_eq m.agent_name n.agent_name && text_eq m.pattern_hash n.pattern_hash

-- Rows with one id have one key, and the ids are given ones.
pub record IsKept (s : Memories) : Type 0 where
  pub one_key :
      (m n : ErrorMemory) → OneOf m s.rows → OneOf n s.rows → m.id ≡ n.id → same_key m n ≡ true
  pub given : (m : ErrorMemory) → OneOf m s.rows → m.id ≤ s.last_id

OneOf-map :
    (f : ErrorMemory → ErrorMemory) (x : ErrorMemory) (rows : List ErrorMemory)
    → OneOf x (map f rows)
    → (y : ErrorMemory) × OneOf y rows × (x ≡ f y)
OneOf-map f x [] m = elim m [ ]
OneOf-map f x (r ∷ rs) m = elim m [
  | inl e ↦ (r, inl refl, e)
  | inr k ↦ let (y, at_y, e) = OneOf-map f x rs k in (y, inr at_y, e)
]

OneOf-snoc :
    (x y : ErrorMemory) (rows : List ErrorMemory)
    → OneOf x (rows ++ y ∷ [])
    → OneOf x rows ⊎ (x ≡ y)
OneOf-snoc x y [] m = elim m [ inl e ↦ inr e | inr k ↦ elim k [ ] ]
OneOf-snoc x y (r ∷ rs) m = elim m [
  | inl e ↦ inl (inl e)
  | inr k ↦ elim (OneOf-snoc x y rs k) [ inl l ↦ inl (inr l) | inr l ↦ inr l ]
]

recur_at-same_key :
    (i : ℕ) (run_id : Text) (now : ℕ) (m n : ErrorMemory)
    → same_key (recur_at i run_id now m) (recur_at i run_id now n) ≡ same_key m n
recur_at-same_key i run_id now m n = elim (Bool-cases (m.id == i)) [
  | inl e ↦ elim (Bool-cases (n.id == i)) [ inl d ↦ rw (e, d) refl | inr d ↦ rw (e, d) refl ]
  | inr e ↦ elim (Bool-cases (n.id == i)) [ inl d ↦ rw (e, d) refl | inr d ↦ rw (e, d) refl ]
]

module _ (patterns : Patterns) (agent run_id error : Text) (now : ℕ) where
  pub upsert-IsKept :
      (s : Memories) (o : Option ErrorMemory)
      → IsKept s
      → IsKept (upsert patterns agent run_id error now s o)
  upsert-IsKept s none k = record {
    one_key = λ m n at_m at_n same.
        let new = new_memory patterns agent run_id error now (suc s.last_id) in
        elim (OneOf-snoc m new s.rows at_m) [
          | inl old_m ↦ elim (OneOf-snoc n new s.rows at_n) [
            | inl old_n ↦ k.one_key m n old_m old_n same
            | inr is_n ↦
                absurd (omega (arith, k.given m old_m, same, ap (λ (x : ErrorMemory). x.id) is_n))
          ]
          | inr is_m ↦ elim (OneOf-snoc n new s.rows at_n) [
            | inl old_n ↦
                absurd (omega (arith, k.given n old_n, same, ap (λ (x : ErrorMemory). x.id) is_m))
            | inr is_n ↦
                subst (λ (x : ErrorMemory). same_key x n ≡ true) (sym is_m)
                  (subst (λ (x : ErrorMemory). same_key new x ≡ true) (sym is_n)
                    (rw (text_eq_refl agent, text_eq_refl (patterns.hash_of error)) refl))
          ]
        ];
    given = λ m at_m.
        elim (OneOf-snoc m (new_memory patterns agent run_id error now (suc s.last_id)) s.rows
          at_m) [
            | inl old ↦ omega (arith, k.given m old)
            | inr is_m ↦ omega (arith, ap (λ (x : ErrorMemory). x.id) is_m)
          ];
  }
  upsert-IsKept s (some found) k = record {
    one_key = λ m n at_m at_n same.
        let f = recur_at found.id run_id now in
        let (y, at_y, is_m) = OneOf-map f m s.rows at_m in
        let (z, at_z, is_n) = OneOf-map f n s.rows at_n in
        let ids : y.id ≡ z.id =
          sym (recur_at_id found.id run_id now y)
          ∙ ap (λ (x : ErrorMemory). x.id) (sym is_m)
          ∙ same
          ∙ ap (λ (x : ErrorMemory). x.id) is_n
          ∙ recur_at_id found.id run_id now z in
        ap (λ (x : ErrorMemory). same_key x n) is_m
        ∙ ap (same_key (f y)) is_n
        ∙ recur_at-same_key found.id run_id now y z
        ∙ k.one_key y z at_y at_z ids;
    given = λ m at_m.
        let (y, at_y, is_m) = OneOf-map (recur_at found.id run_id now) m s.rows at_m in
        omega (
          arith,
          k.given y at_y,
          ap (λ (x : ErrorMemory). x.id) is_m,
          recur_at_id found.id run_id now y,
        );
  }

  -- What one more occurrence makes of the count and the status
  abbrev pub raise : Option (ℕ × Resolution) → Option (ℕ × Resolution)
  raise none = expected 1
  raise (some (n, st)) = some (n + 1, status_for (n + 1))

  abbrev is_it : Text → Text → Bool
  is_it a h = text_eq agent a && text_eq (patterns.hash_of error) h

  is_it-find :
      (a h : Text) (rows : List ErrorMemory)
      → is_it a h ≡ true
      → find_memory a h rows ≡ find_memory agent (patterns.hash_of error) rows
  is_it-find a h rows e =
      let same_agent : agent ≡ a = (text_eq_iff agent a).0 (ground (arith, e)) in
      let same_hash : patterns.hash_of error ≡ h =
        (text_eq_iff (patterns.hash_of error) h).0 (ground (arith, e)) in
      ap (λ (x : Text). find_memory x h rows) (sym same_agent)
      ∙ ap (λ (x : Text). find_memory agent x rows) (sym same_hash)

  pub upsert-shown :
      (s : Memories) (o : Option ErrorMemory)
      → find_memory agent (patterns.hash_of error) s.rows ≡ o
      → IsKept s
      → (a h : Text)
      → shown (find_memory a h (upsert patterns agent run_id error now s o).rows) ≡ (
          if is_it a h
          then raise (shown (find_memory a h s.rows))
          else shown (find_memory a h s.rows))
  upsert-shown s none none_yet k a h =
      ap shown (find-append a h s.rows new) ∙ go (find_memory a h s.rows) refl
    where
      new : ErrorMemory
      new = new_memory patterns agent run_id error now (suc s.last_id)

      go :
          (p : Option ErrorMemory)
          → find_memory a h s.rows ≡ p
          → shown (elim p [ none ↦ if has_key a h new then some new else none | some m ↦ some m ])
            ≡ (if is_it a h then raise (shown p) else shown p)
      go none e = elim (Bool-cases (is_it a h)) [ inl it ↦ rw it refl | inr it ↦ rw it refl ]
      go (some m) e = elim (Bool-cases (is_it a h)) [
        | inl it ↦ absurd (none-ne-some (sym none_yet ∙ sym (is_it-find a h s.rows it) ∙ e))
        | inr it ↦ rw it refl
      ]
  upsert-shown s (some found) is_found k a h =
      ap shown (find-recur_at found.id run_id now a h s.rows) ∙ go (find_memory a h s.rows) refl
    where
      go :
          (p : Option ErrorMemory)
          → find_memory a h s.rows ≡ p
          → shown (after_found (recur_at found.id run_id now) p)
            ≡ (if is_it a h then raise (shown p) else shown p)
      go none e = elim (Bool-cases (is_it a h)) [
        | inl it ↦ absurd (none-ne-some (sym e ∙ is_it-find a h s.rows it ∙ is_found))
        | inr it ↦ rw it refl
      ]
      go (some m) e = elim (Bool-cases (is_it a h)) [
        | inl it ↦
            let one : m ≡ found = some-inj (sym e ∙ is_it-find a h s.rows it ∙ is_found) in
            let same : (m.id == found.id) ≡ true =
              (==_iff m.id found.id).1 (ap (λ (x : ErrorMemory). x.id) one) in
            rw (it, same) refl
        | inr it ↦ elim (Bool-cases (m.id == found.id)) [
          | inr other ↦ rw (it, other) refl
          | inl same ↦
              let at_m = find-OneOf a h s.rows m e in
              let at_found = find-OneOf agent (patterns.hash_of error) s.rows found is_found in
              let keys : same_key m found ≡ true =
                k.one_key m found at_m.0 at_found.0 ((==_iff m.id found.id).0 same) in
              absurd (
                ground (
                  arith,
                  it,
                  keys,
                  at_m.1,
                  at_found.1,
                  text_eq_iff m.agent_name found.agent_name,
                  text_eq_iff m.pattern_hash found.pattern_hash,
                  text_eq_iff m.agent_name a,
                  text_eq_iff m.pattern_hash h,
                  text_eq_iff found.agent_name agent,
                  text_eq_iff found.pattern_hash (patterns.hash_of error),
                  text_eq_iff agent a,
                  text_eq_iff (patterns.hash_of error) h,
                ))
        ]
      ]
