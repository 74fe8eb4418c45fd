-- ===== src/Writeback/Requests/Pipeline/Refused.antt =====
-- The answers of `apply_change_request` against the worlds before and after.
use diecast.Prelude.{
  ℕ, ◌≡◌, refl, Bool, true, false, Option, none, some, List, Text, Bool-cases, inl, inr, ◌⊎◌,
  if◌then◌else◌,
}
use diecast.Blocks.{Block}
use diecast.Writeback.Conflict.{Verdict, clean, conflicted, orphaned, Locator}
use diecast.Writeback.Splice.{apply_addition, apply_modification}
use diecast.Writeback.Versions.{create_snapshot}
use diecast.Writeback.Versions.Next.{create_next}
use diecast.Writeback.Requests.{Request, is_addition, verify_surgical}
use diecast.Writeback.Requests.Apply.{
  World, Answer, refused, done, refused_out_of_tree, get_request, or_text, universal_newlines,
}
use diecast.Writeback.Requests.Pipeline.{
  Call, refuse, quote_for, hint_for, judge, commit, write, modify, splice, on_verdict, on_file,
  on_request, refuse_orphaned, refuse_conflicted, apply_change_request,
}

module _ {Hash : Type 0} (hash_eq : Hash → Hash → Bool) (content_hash : Text → Hash)
    (locate : Locator) (parse : Text → List Block) where
  -- The text that the request's splice makes of the old one.
  abbrev pub Spliced : Text → Text → Call → Request → Type 0
  Spliced old new call cr =
      (is_addition cr.kind ≡ true) × (new ≡ apply_addition old cr.proposed_body (hint_for call cr))
      ⊎ ((is_addition cr.kind ≡ false)
          × ((region : Text) × (locate old (quote_for call cr) (hint_for call cr) ≡ some region)
              × (new ≡ apply_modification old region cr.proposed_body)))

  pub record Written (call : Call) (cr : Request) (old : Text) (w after : World Hash) : Type 0 where
    pub new : Text
    pub spliced : Spliced old new call cr
    pub file : after.file ≡ some new
    pub versions :
        after.versions
        ≡ (create_snapshot hash_eq content_hash cr.goal_slug new
            (some (or_text call.actor cr.author))
            call.now
            w.versions).1

  -- What an answer claims of the world before and after, for a request and a file that are there
  abbrev Splices : Text → Call → Request → World Hash → Answer × World Hash → Type 0
  Splices old call cr w (refused r s, after) =
      (after.file ≡ w.file)
      × (after.versions ≡ w.versions)
      × (after.comments ≡ w.comments)
      × (after.outbox ≡ w.outbox)
  Splices old call cr w (done receipt, after) = Written call cr old w after

  -- What an answer claims of the world before and after.
  abbrev pub Outcome : ℕ → Call → World Hash → Answer × World Hash → Type 0
  Outcome i call w (refused r s, after) =
      (after.file ≡ w.file)
      × (after.versions ≡ w.versions)
      × (after.comments ≡ w.comments)
      × (after.outbox ≡ w.outbox)
  Outcome i call w (done receipt, after) =
      (cr : Request) × (raw : Text) × (get_request i w.requests ≡ some cr)
      × (call.goal_in_root ≡ true)
      × (call.target_in_goal ≡ true)
      × (w.file ≡ some raw)
      × (judge hash_eq content_hash locate parse (universal_newlines raw) call cr w ≡ clean)
      × Written call cr (universal_newlines raw) w after

  write-Splices :
      (old new : Text) (region : Option Text) (call : Call) (cr : Request) (w : World Hash)
      → Spliced old new call cr
      → Splices old call cr w (write hash_eq content_hash locate parse old new region call cr w)
  unfolding write commit create_next
  write-Splices old new region call cr w e =
      elim (Bool-cases (verify_surgical old new cr.kind region)) [
        | inl t ↦ rw t (record { new = new; spliced = e; file = refl; versions = refl })
        | inr f ↦ rw f (refl, refl, refl, refl)
      ]

  modify-Splices :
      (old : Text) (call : Call) (cr : Request) (w : World Hash) (found : Option Text)
      → is_addition cr.kind ≡ false
      → locate old (quote_for call cr) (hint_for call cr) ≡ found
      → Splices old call cr w (modify hash_eq content_hash locate parse old found call cr w)
  unfolding modify
  modify-Splices old call cr w none f e = (refl, refl, refl, refl)
  modify-Splices old call cr w (some region) f e =
      write-Splices old _ (some region) call cr w (inr (f, (region, e, refl)))

  splice_by :
      (old : Text) (call : Call) (cr : Request) (w : World Hash) (adds : Bool)
      → is_addition cr.kind ≡ adds
      → Splices old call cr w (
          if adds
          then write hash_eq content_hash locate parse old
              (apply_addition old cr.proposed_body (hint_for call cr))
              none
              call
              cr
              w
          else modify hash_eq content_hash locate parse old
              (locate old (quote_for call cr) (hint_for call cr))
              call
              cr
              w)
  splice_by old call cr w true t = write-Splices old _ none call cr w (inl (t, refl))
  splice_by old call cr w false f = modify-Splices old call cr w _ f refl

  splice-Splices :
      (old : Text) (call : Call) (cr : Request) (w : World Hash)
      → Splices old call cr w (splice hash_eq content_hash locate parse old call cr w)
  unfolding splice
  splice-Splices old call cr w = splice_by old call cr w (is_addition cr.kind) refl

  Splices-Outcome :
      (i : ℕ) (call : Call) (w : World Hash) (cr : Request) (raw : Text) (a : Answer × World Hash)
      → get_request i w.requests ≡ some cr
      → call.goal_in_root ≡ true
      → call.target_in_goal ≡ true
      → w.file ≡ some raw
      → judge hash_eq content_hash locate parse (universal_newlines raw) call cr w ≡ clean
      → Splices (universal_newlines raw) call cr w a
      → Outcome i call w a
  Splices-Outcome i call w cr raw (refused r s, after) e g t f j h = h
  Splices-Outcome i call w cr raw (done receipt, after) e g t f j h = (cr, raw, e, g, t, f, j, h)

  -- On a file that is there, by the verdict.
  verdict-Outcome :
      (i : ℕ) (call : Call) (w : World Hash) (cr : Request) (raw : Text) (v : Verdict)
      → get_request i w.requests ≡ some cr
      → call.goal_in_root ≡ true
      → call.target_in_goal ≡ true
      → w.file ≡ some raw
      → judge hash_eq content_hash locate parse (universal_newlines raw) call cr w ≡ v
      → Outcome i call w
          (on_verdict hash_eq content_hash locate parse v (universal_newlines raw) call cr w)
  unfolding on_verdict refuse_orphaned refuse_conflicted
  verdict-Outcome i call w cr raw orphaned e g t f j = (refl, refl, refl, refl)
  verdict-Outcome i call w cr raw conflicted e g t f j = (refl, refl, refl, refl)
  verdict-Outcome i call w cr raw clean e g t f j =
      Splices-Outcome i call w cr raw _ e g t f j
        (splice-Splices (universal_newlines raw) call cr w)

  file-Outcome :
      (i : ℕ) (call : Call) (w : World Hash) (cr : Request) (file : Option Text)
      → get_request i w.requests ≡ some cr
      → call.goal_in_root ≡ true
      → call.target_in_goal ≡ true
      → w.file ≡ file
      → Outcome i call w (on_file hash_eq content_hash locate parse file call cr w)
  unfolding on_file
  file-Outcome i call w cr none e g t f = (refl, refl, refl, refl)
  file-Outcome i call w cr (some raw) e g t f = verdict-Outcome i call w cr raw _ e g t f refl

  paths-Outcome :
      (i : ℕ) (call : Call) (w : World Hash) (cr : Request) (in_root in_goal : Bool)
      → get_request i w.requests ≡ some cr
      → call.goal_in_root ≡ in_root
      → call.target_in_goal ≡ in_goal
      → Outcome i call w (
          if in_root
          then if in_goal
            then on_file hash_eq content_hash locate parse w.file call cr w
            else refuse refused_out_of_tree w
          else refuse refused_out_of_tree w)
  paths-Outcome i call w cr true true e g t = file-Outcome i call w cr w.file e g t refl
  paths-Outcome i call w cr true false e g t = (refl, refl, refl, refl)
  paths-Outcome i call w cr false in_goal e g t = (refl, refl, refl, refl)

  inside-Outcome :
      (i : ℕ) (call : Call) (w : World Hash) (found : Option Request)
      → get_request i w.requests ≡ found
      → Outcome i call w (on_request hash_eq content_hash locate parse found call w)
  unfolding on_request
  inside-Outcome i call w none e = (refl, refl, refl, refl)
  inside-Outcome i call w (some cr) e = paths-Outcome i call w cr _ _ e refl refl

  -- A refused apply leaves the file, the versions, the comments and the outbox as they were. One that
  -- is done found the request, the paths inside their roots and the file, judged the request clean,
  -- and wrote the text that the request's splice makes of the file's text with its newlines
  -- translated to "\n", which it also handed to the version service.
  pub apply_change_request-Outcome :
      (i : ℕ) (call : Call) (w : World Hash)
      → Outcome i call w (apply_change_request hash_eq content_hash locate parse i call w)
  unfolding apply_change_request
  apply_change_request-Outcome i call w = inside-Outcome i call w (get_request i w.requests) refl
