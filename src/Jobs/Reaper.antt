-- ===== src/Jobs/Reaper.antt =====
-- The reaper (render_common/job_runtime.py): which rows it fails, and what it does to the slots.
use diecast.Prelude.{
  ℕ, ◌≡◌, refl, sym, ◌∙◌, ap, Bool, true, false, not, ◌&&◌, ◌||◌, Option, none, some, List, [], ◌∷◌,
  ◌++◌, codes, text_eq, filter, map, any, if◌then◌else◌, arith, ◌==◌, Bool-cases, inl, inr,
}
use mathlib.Core.Path.{subst}
use mathlib.Core.List.{append_assoc, append-nil}
use diecast.Jobs.Rows.{JobRow, update_job, get_job_row}
use diecast.Jobs.{
  Key, JobRegistry, lookup, Host, is_live, is_stale, drop_state, Reaping, key_of, reap_fields,
  fail_row, reap_row, reap_rows, is_running, reap_stale_jobs,
}
use diecast.Jobs.Slots.{IsBalanced}
use diecast.Jobs.Live.{drop_state_lem}

abbrev pub among : ℕ → List ℕ → Bool
among i is = any (λ j. j == i) is

among-append : (i : ℕ) (is js : List ℕ) → among i (is ++ js) ≡ (among i is || among i js)
among-append i [] js = refl
among-append i (j ∷ is) js = ground (arith, among-append i is js)

module _ {Score : Type 0} (host : Host) (ceiling now : ℕ) where
  -- The row's last sign is past the ceiling and no live thread works on its key.
  abbrev pub is_orphan : JobRegistry → JobRow Score → Bool
  is_orphan r row = is_stale host ceiling now row && not (is_live host (key_of row) r)

  abbrev pub orphan_ids : JobRegistry → List (JobRow Score) → List ℕ
  orphan_ids r rows = map (λ (row : JobRow Score). row.id) (filter (is_orphan r) rows)

  abbrev pub has_failed : Option (JobRow Score) → Bool
  has_failed none = true
  has_failed (some row) = text_eq row.status (codes "failed")

  -- What holds of the table while the reaper runs
  abbrev pub Fails : List (JobRow Score) → List ℕ → List (JobRow Score) → Type 0
  Fails rows reaped rows' =
      (i : ℕ)
      → (among i reaped ≡ true → has_failed (get_job_row i rows') ≡ true)
        × (among i reaped ≡ false → get_job_row i rows' ≡ get_job_row i rows)

  get_job_row-update_ne :
      (i j : ℕ) (stale : JobRow Score) (rows : List (JobRow Score))
      → (j == i) ≡ false
      → get_job_row i (update_job (some j) (reap_fields host ceiling now stale) rows)
        ≡ get_job_row i rows
  unfolding update_job
  get_job_row-update_ne i j stale [] h = refl
  get_job_row-update_ne i j stale (r ∷ rows) h =
      ground (arith, h, get_job_row-update_ne i j stale rows h)

  get_job_row-update :
      (i : ℕ) (stale : JobRow Score) (rows : List (JobRow Score))
      → has_failed (get_job_row i (update_job (some i) (reap_fields host ceiling now stale) rows))
        ≡ true
  unfolding update_job
  get_job_row-update i stale [] = refl
  get_job_row-update i stale (r ∷ rows) = ground (arith, get_job_row-update i stale rows)

  -- One row: nothing is done, or its state is dropped and it fails.
  pub reap_row-kept :
      (row : JobRow Score) (w : Reaping Score)
      → is_orphan w.jobs row ≡ false
      → reap_row host ceiling now row w ≡ some w
  unfolding reap_row
  reap_row-kept row w e =
      ap
        (λ b.
          if b
          then fail_row host ceiling now row w
              (drop_state (key_of row) (lookup (key_of row) w.jobs.registry) w.jobs)
          else some w)
        e

  abbrev pub failed : JobRow Score → Reaping Score → JobRegistry → Reaping Score
  failed row w r' = record {
    jobs = r';
    rows = update_job (some row.id) (reap_fields host ceiling now row) w.rows;
    reaped = w.reaped ++ row.id ∷ [];
  }

  pub reap_row-failed :
      (row : JobRow Score) (w : Reaping Score) (r' : JobRegistry)
      → is_orphan w.jobs row ≡ true
      → drop_state (key_of row) (lookup (key_of row) w.jobs.registry) w.jobs ≡ some r'
      → reap_row host ceiling now row w ≡ some (failed row w r')
  unfolding reap_row
  reap_row-failed row w r' e d =
      ap
        (λ b.
          if b
          then fail_row host ceiling now row w
              (drop_state (key_of row) (lookup (key_of row) w.jobs.registry) w.jobs)
          else some w)
        e
      ∙ ap (fail_row host ceiling now row w) d

  orphan_ids-cons :
      (r : JobRegistry) (row : JobRow Score) (rows : List (JobRow Score)) (b : Bool)
      → is_orphan r row ≡ b
      → orphan_ids r (row ∷ rows) ≡ (if b then row.id ∷ orphan_ids r rows else orphan_ids r rows)
  orphan_ids-cons r row rows true e = ground (arith, e)
  orphan_ids-cons r row rows false e = ground (arith, e)

  update-Fails :
      (all : List (JobRow Score)) (row : JobRow Score) (w : Reaping Score) (r' : JobRegistry)
      → Fails all w.reaped w.rows
      → Fails all (failed row w r').reaped (failed row w r').rows
  update-Fails all row w r' f i = elim (Bool-cases (row.id == i)) [
    | inl e ↦ (
      λ a.
          subst (λ j. has_failed (get_job_row j (failed row w r').rows) ≡ true) (ground (arith, e))
            (get_job_row-update row.id row w.rows),
      λ a. absurd (ground (arith, a, e, among-append i w.reaped (row.id ∷ []))),
    )
    | inr e ↦
        let other = get_job_row-update_ne i row.id row w.rows e in
        let split = among-append i w.reaped (row.id ∷ []) in
        (
          λ a. ap has_failed other ∙ (f i).0 (ground (arith, a, e, split)),
          λ a. other ∙ (f i).1 (ground (arith, a, e, split)),
        )
  ]

  reap_rows_lem :
      (r : JobRegistry) (all : List (JobRow Score)) (rows : List (JobRow Score)) (w : Reaping Score)
      → IsBalanced w.jobs
      → ((k : Key) → is_live host k w.jobs ≡ is_live host k r)
      → Fails all w.reaped w.rows
      → (w' : Reaping Score) × (reap_rows host ceiling now rows (some w) ≡ some w')
        × IsBalanced w'.jobs
        × (w'.reaped ≡ w.reaped ++ orphan_ids r rows)
        × Fails all w'.reaped w'.rows
  unfolding reap_rows
  reap_rows_lem r all [] w b l f = (w, refl, b, sym (append-nil w.reaped), f)
  reap_rows_lem r all (row ∷ rows) w b l f =
      let same : is_orphan r row ≡ is_orphan w.jobs row =
        ap (λ v. is_stale host ceiling now row && not v) (sym (l (key_of row))) in
      elim (Bool-cases (is_orphan w.jobs row)) [
        | inl e ↦
            let (r', dropped, b', l') =
              drop_state_lem host (key_of row) w.jobs b (ground (arith, e)) in
            let (w', ends, b'', reaped, f') =
              reap_rows_lem r all rows (failed row w r') b' (λ k. l' k ∙ l k)
                (update-Fails all row w r' f) in
            (
              w',
              ap (reap_rows host ceiling now rows) (reap_row-failed row w r' e dropped) ∙ ends,
              b'',
              reaped
                  ∙ append_assoc w.reaped (row.id ∷ []) (orphan_ids r rows)
                  ∙ ap (λ is. w.reaped ++ is) (sym (orphan_ids-cons r row rows true (same ∙ e))),
              f',
            )
        | inr e ↦
            let (w', ends, b'', reaped, f') = reap_rows_lem r all rows w b l f in
            (
              w',
              ap (reap_rows host ceiling now rows) (reap_row-kept row w e) ∙ ends,
              b'',
              reaped
                  ∙ ap (λ is. w.reaped ++ is) (sym (orphan_ids-cons r row rows false (same ∙ e))),
              f',
            )
      ]

  -- From a balanced registry the reaper ends with one, having released no slot above the bound. It
  -- reaps exactly the running rows that are orphans at the start: a row with a reaped id has failed,
  -- and under every other id the table finds what it found.
  pub reap_stale_jobs_lem :
      (r : JobRegistry) (rows : List (JobRow Score))
      → IsBalanced r
      → (w : Reaping Score) × (reap_stale_jobs host ceiling now r rows ≡ some w)
        × IsBalanced w.jobs
        × (w.reaped ≡ orphan_ids r (filter is_running rows))
        × Fails rows w.reaped w.rows
  unfolding reap_stale_jobs
  reap_stale_jobs_lem r rows b =
      reap_rows_lem r rows (filter is_running rows) (record { jobs = r; rows = rows; reaped = [] })
        b (λ k. refl) (λ i. ((λ a. absurd (ground (arith, a))), λ a. refl))
