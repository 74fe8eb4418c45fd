-- ===== src/Polling/Silent.antt =====
-- What each answer of the wait for a child tells (agents/_shared/polling.py).
use diecast.Prelude.{
  ℕ, zero, suc, ◌+◌, ◌-◌, ◌≤◌, ◌<◌, ◌≡◌, refl, sym, ap, ◌∙◌, Bool, true, false, Option, none, some,
  List, ◌⊎◌, inl, inr, length, get_elem?, ltb, if◌then◌else◌, arith, Bool-cases, none-ne-some,
  some-inj, ◌↔◌, Text, codes, text_eq, text_eq_iff, true-ne-false,
}
use Prim.Native.Nat.{min}
use mathlib.Core.Path.{subst}
use diecast.Polling.{
  File, absent, file, blank, undecodable, bad_json, json, untold, named, unhashable, read,
  is_terminal, try_read_terminal, Answer, payload, malformed, cancelled, idle_timeout, exception,
  unicode_error, type_error, index_error, stop, go, World, Progress, Next, same_mtime, observe,
  sleep, check, after_read, one_pass, poll, started, poll_for_terminal_output,
}
use diecast.Polling.Ends.{mtime_of}

-- The status is one of the three that end a child.
abbrev pub IsTerminal : Text → Type 0
IsTerminal s = (s ≡ codes "completed") ⊎ (s ≡ codes "partial") ⊎ (s ≡ codes "failed")

-- A file without an answer: none, an empty one, or a value whose status is no text or another one
pub data NoAnswer : File → Type 0 where
  unwritten : NoAnswer absent
  empty : (m : ℕ) → NoAnswer (file m blank)
  statusless : (m : ℕ) (v : Text) → NoAnswer (file m (json untold v))
  going_on : (m : ℕ) (s v : Text) → ¬ IsTerminal s → NoAnswer (file m (json (named s) v))

is_terminal_iff : (s : Text) → (is_terminal s ≡ true) ↔ IsTerminal s
is_terminal_iff s = (
  (λ h. elim (Bool-cases (text_eq s (codes "completed"))) [
    | inl e ↦ inl ((text_eq_iff s (codes "completed")).0 e)
    | inr e ↦ elim (Bool-cases (text_eq s (codes "partial"))) [
      | inl f ↦ inr (inl ((text_eq_iff s (codes "partial")).0 f))
      | inr f ↦ inr (inr ((text_eq_iff s (codes "failed")).0 (rw (e, f) at h)))
    ]
  ]),
  (λ h. elim h [ inl e ↦ rw e refl | inr k ↦ elim k [ inl e ↦ rw e refl | inr e ↦ rw e refl ] ]),
)

module _ (w : World) (timeout : ℕ) (ladder : List ℕ) (start : ℕ) where
  -- The sleep after a pass
  abbrev pub sleep_of : ℕ → Option ℕ
  sleep_of k = get_elem? ladder (min k (length ladder - 1))

  abbrev pub or_zero : Option ℕ → ℕ
  or_zero none = 0
  or_zero (some d) = d

  -- The clock at a pass
  abbrev pub time_at : ℕ → ℕ
  time_at zero = start
  time_at (suc k) = time_at k + or_zero (sleep_of k) + w.delay k

  -- The file has no answer at a pass.
  abbrev pub Waiting : ℕ → Type 0
  Waiting k = NoAnswer (w.file_at k)

  -- From one pass to another, the file shows no time of change but this one.
  abbrev pub Unchanged : ℕ → ℕ → Option ℕ → Type 0
  Unchanged since n l =
      (k : ℕ) → since ≤ k → k < n → (mtime_of (w.file_at k) ≡ none) ⊎ (mtime_of (w.file_at k) ≡ l)

  -- What holds at the pass that gives an answer
  abbrev pub Ended : ℕ → Answer → Type 0
  Ended k (payload v) =
      (m : ℕ) × (s : Text) × (w.file_at k ≡ file m (json (named s) v)) × IsTerminal s
  Ended k (malformed e) = (m : ℕ) × (w.file_at k ≡ file m (bad_json e))
  Ended k cancelled = w.is_cancelled k ≡ true
  Ended k idle_timeout =
      (since : ℕ) × (l : Option ℕ) × (since ≤ k)
      × Unchanged since (suc k) l
      × (timeout < time_at k - time_at since)
  Ended k (exception unicode_error) = (m : ℕ) × (w.file_at k ≡ file m undecodable)
  Ended k (exception type_error) = (m : ℕ) × (v : Text) × (w.file_at k ≡ file m (json unhashable v))
  Ended k (exception index_error) = sleep_of k ≡ none

  record Kept (p : Progress) : Type 0 where
    clock : p.now ≡ time_at p.pass
    earlier : (k : ℕ) → k < p.pass → Waiting k
    since : ℕ
    before : since ≤ p.pass
    progress : p.last_progress ≡ time_at since
    unchanged : Unchanged since p.pass p.last_mtime

  -- The progress after a look at the file
  record Looked (p x : Progress) : Type 0 where
    pass : x.pass ≡ p.pass
    clock : x.now ≡ time_at p.pass
    since : ℕ
    before : since ≤ p.pass
    progress : x.last_progress ≡ time_at since
    unchanged : Unchanged since (suc p.pass) x.last_mtime

  longer :
      (since n : ℕ) (l : Option ℕ)
      → Unchanged since n l
      → (mtime_of (w.file_at n) ≡ none) ⊎ (mtime_of (w.file_at n) ≡ l)
      → Unchanged since (suc n) l
  longer since n l h last k from before = elim (Bool-cases (ltb k n)) [
    | inl e ↦ h k from (ground (arith, e))
    | inr e ↦
        let at_n : n ≡ k = ground (arith, e, before) in
        subst (λ (j : ℕ). (mtime_of (w.file_at j) ≡ none) ⊎ (mtime_of (w.file_at j) ≡ l)) at_n last
  ]

  observe-Looked :
      (p : Progress) (m : Option ℕ)
      → mtime_of (w.file_at p.pass) ≡ m
      → Kept p
      → Looked p (observe m p)
  observe-Looked p none e k = record {
    pass = refl;
    clock = k.clock;
    since = k.since;
    before = k.before;
    progress = k.progress;
    unchanged = longer k.since p.pass p.last_mtime k.unchanged (inl e);
  }
  observe-Looked p (some m) e k = elim (Bool-cases (same_mtime m p.last_mtime)) [
    | inl same ↦ rw same (record {
      pass = refl;
      clock = k.clock;
      since = k.since;
      before = k.before;
      progress = k.progress;
      unchanged = longer k.since p.pass p.last_mtime k.unchanged (inr (e ∙ ground (arith, same)));
    })
    | inr new ↦ rw new (record {
      pass = refl;
      clock = k.clock;
      since = p.pass;
      before = omega arith;
      progress = k.clock;
      unchanged =
          longer p.pass p.pass (some m) (λ j from before. absurd (omega (arith, from, before)))
            (inr e);
    })
  ]

  -- A pass over: an answer with what it tells, or the next pass
  Told : Progress → Next → Type 0
  Told p n = elim n [
    | stop a ↦ Ended p.pass a
    | go q ↦ (q.pass ≡ suc p.pass) × (Waiting p.pass → Kept q)
  ]

  sleep-Told :
      (p x : Progress) (o : Option ℕ)
      → sleep_of p.pass ≡ o
      → Looked p x
      → Kept p
      → Told p (sleep w o x)
  unfolding Told
  sleep-Told p x none e l k = e
  sleep-Told p x (some d) e l k = (
    ap suc l.pass,
    (λ waiting. record {
      clock =
          subst (λ (j : ℕ). x.now + d + w.delay x.pass ≡ time_at (suc j)) (sym l.pass)
            (rw (l.pass, l.clock, e) refl);
      earlier = λ j before. elim (Bool-cases (ltb j p.pass)) [
        | inl le ↦ k.earlier j (ground (arith, le))
        | inr ge ↦
            let here : p.pass ≡ j = ground (arith, ge, before, l.pass) in subst Waiting here waiting
      ];
      since = l.since;
      before = omega (arith, l.before, l.pass);
      progress = l.progress;
      unchanged = λ j from before. l.unchanged j from (omega (arith, before, l.pass));
    }),
  )

  check-Told : (p x : Progress) → Looked p x → Kept p → Told p (check w timeout ladder x)
  unfolding Told
  check-Told p x l k =
      split (w.is_cancelled x.pass) (ltb timeout (x.now - x.last_progress)) refl refl
    where
      rest : Told p (sleep w (sleep_of x.pass) x)
      rest = sleep-Told p x (sleep_of x.pass) (ap sleep_of (sym l.pass)) l k

      split :
          (a b : Bool)
          → w.is_cancelled x.pass ≡ a
          → ltb timeout (x.now - x.last_progress) ≡ b
          → Told p (
              if a
              then stop cancelled
              else (if b then stop idle_timeout else sleep w (sleep_of x.pass) x))
      split true b e f = ap w.is_cancelled (sym l.pass) ∙ e
      split false true e f =
          (l.since, x.last_mtime, l.before, l.unchanged, ground (arith, f, l.clock, l.progress))
      split false false e f = rest

  read-Told :
      (p : Progress) (f : File)
      → w.file_at p.pass ≡ f
      → Kept p
      → Told p (after_read w timeout ladder p (try_read_terminal f))
  unfolding Told
  read-Told p absent e k = check-Told p p (observe-Looked p none (ap mtime_of e) k) k
  read-Told p (file m blank) e k =
      check-Told p (observe (some m) p) (observe-Looked p (some m) (ap mtime_of e) k) k
  read-Told p (file m undecodable) e k = (m, e)
  read-Told p (file m (bad_json x)) e k = (m, e)
  read-Told p (file m (json unhashable value)) e k = (m, value, e)
  read-Told p (file m (json untold value)) e k =
      check-Told p (observe (some m) p) (observe-Looked p (some m) (ap mtime_of e) k) k
  read-Told p (file m (json (named s) value)) e k = split (is_terminal s) refl
    where
      split :
          (b : Bool)
          → is_terminal s ≡ b
          → Told p (
              after_read w timeout ladder p
                (if b then read (some value) (some m) else read none (some m)))
      split true h = (m, s, e, (is_terminal_iff s).0 h)
      split false h =
          check-Told p (observe (some m) p) (observe-Looked p (some m) (ap mtime_of e) k) k

  -- A pass that goes on found no answer.
  read-NoAnswer :
      (p q : Progress) (f : File)
      → after_read w timeout ladder p (try_read_terminal f) ≡ go q
      → NoAnswer f
  read-NoAnswer p q absent e = unwritten
  read-NoAnswer p q (file m blank) e = empty m
  read-NoAnswer p q (file m undecodable) e = cc
  read-NoAnswer p q (file m (bad_json x)) e = cc
  read-NoAnswer p q (file m (json untold v)) e = statusless m v
  read-NoAnswer p q (file m (json unhashable v)) e = cc
  read-NoAnswer p q (file m (json (named s) v)) e = split (is_terminal s) refl e
    where
      split :
          (b : Bool)
          → is_terminal s ≡ b
          → after_read w timeout ladder p (if b then read (some v) (some m) else read none (some m))
            ≡ go q
          → NoAnswer (file m (json (named s) v))
      split true h k = cc
      split false h k = going_on m s v (λ t. true-ne-false (sym ((is_terminal_iff s).1 t) ∙ h))

  poll-Told :
      (fuel : ℕ) (p : Progress) (a : Answer)
      → Kept p
      → poll fuel w timeout ladder p ≡ some a
      → (k : ℕ) × (k < p.pass + fuel) × ((j : ℕ) → j < k → Waiting j) × Ended k a
  unfolding poll one_pass Told
  poll-Told zero p a kept e = absurd (none-ne-some e)
  poll-Told (suc fuel) p a kept e =
      split (one_pass w timeout ladder p) refl (read-Told p (w.file_at p.pass) refl kept)
        (poll-Told fuel)
    where
      split :
          (n : Next)
          → one_pass w timeout ladder p ≡ n
          → Told p n
          → ((q : Progress) (b : Answer)
              → Kept q
              → poll fuel w timeout ladder q ≡ some b
              → (k : ℕ) × (k < q.pass + fuel) × ((j : ℕ) → j < k → Waiting j) × Ended k b)
          → (k : ℕ) × (k < p.pass + suc fuel) × ((j : ℕ) → j < k → Waiting j) × Ended k a
      split (stop b) h told later =
          let same : some b ≡ some a =
            ap (λ (n : Next). elim n [ stop c ↦ some c | go q ↦ poll fuel w timeout ladder q ])
              (sym h)
            ∙ e in
          (p.pass, omega arith, kept.earlier, subst (Ended p.pass) (some-inj same) told)
      split (go q) h told later =
          let same : poll fuel w timeout ladder q ≡ some a =
            ap (λ (n : Next). elim n [ stop c ↦ some c | go q ↦ poll fuel w timeout ladder q ])
              (sym h)
            ∙ e in
          let (k, less, earlier, ended) =
            later q a (told.1 (read-NoAnswer p q (w.file_at p.pass) h)) same in
          (k, omega (arith, less, told.0), earlier, ended)

-- An answer is given at a pass before which the file was missing, or empty, or a value whose status is
-- none of "completed", "partial" and "failed", of which a parent waits for the next version. A payload
-- is the value that the file holds at the pass, its status one of the three; a malformed answer is the
-- error of text that is no JSON; a cancelled one the caller's wish; and after an idle timeout the file
-- has shown one time of change at most since a pass that lies more than the timeout back. An exception
-- tells of bytes that are no UTF-8, of a status that is a list or an object, or that the ladder has no
-- sleep for the pass.
pub poll_for_terminal_output-Ended :
    (w : World) (timeout : ℕ) (ladder : List ℕ) (start fuel : ℕ) (a : Answer)
    → poll_for_terminal_output fuel w timeout ladder start ≡ some a
    → (k : ℕ) × (k < fuel)
      × ((j : ℕ) → j < k → Waiting w timeout ladder start j)
      × Ended w timeout ladder start k a
unfolding poll_for_terminal_output
poll_for_terminal_output-Ended w timeout ladder start fuel a e =
    let (k, less, earlier, ended) =
      poll-Told w timeout ladder start fuel (started start) a
        (record {
          clock = refl;
          earlier = λ j before. absurd (omega (arith, before));
          since = 0;
          before = omega arith;
          progress = refl;
          unchanged = λ j from before. absurd (omega (arith, before));
        })
        e in
    (k, omega (arith, less), earlier, ended)
