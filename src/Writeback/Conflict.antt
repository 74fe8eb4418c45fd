-- ===== src/Writeback/Conflict.antt =====
-- requirements_render/conflict.py: whether the region that a change request targets has changed
-- since the version it assumed. `locate` is injected, and `Hash` with its test and `content_hash`
-- stand for SHA-256 of hashing.py.
use diecast.Prelude.{
  ◌≡◌, ◌≢◌, ◌↔◌, inl, inr, refl, sym, ◌∙◌, ap, Bool, true, false, Option, none, some, List, [], ◌∷◌,
  Text, codes, if◌then◌else◌, Bool-cases, Option-cases, some-inj, none-ne-some, true-ne-false,
}
use mathlib.Core.Path.{subst}

pub data Verdict : Type 0 where
  clean conflicted orphaned : Verdict

abbrev pub Locator : Type 0
Locator = Text → Option Text → Option Text → Option Text

module _ {Hash : Type 0} (hash_eq : Hash → Hash → Bool) (content_hash : Text → Hash)
    (locate : Locator) where
  abbrev pub hash_region : Option Text → Option Hash
  hash_region none = none
  hash_region (some region) = some (content_hash region)

  abbrev pub region_hash : Text → Option Text → Option Text → Option Hash
  region_hash content none section_hint = none
  region_hash content (some quote) section_hint =
      hash_region (locate content (some quote) section_hint)

  -- `base == head` on optional hashes
  abbrev same_hash : Option Hash → Hash → Bool
  same_hash none h = false
  same_hash (some b) h = hash_eq b h

  abbrev pub compare_hash : Option Hash → Option Hash → Verdict
  compare_hash base none = orphaned
  compare_hash base (some head) = if same_hash base head then clean else conflicted

  unfoldable pub detect_conflict : Text → Text → Option Text → Option Text → Verdict
  detect_conflict base_content head_content none section_hint = clean
  detect_conflict base_content head_content (some quote) section_hint =
      compare_hash (region_hash base_content (some quote) section_hint)
        (region_hash head_content (some quote) section_hint)

  -- What each verdict claims of the two contents.
  abbrev pub Judged : Text → Text → Option Text → Option Text → Verdict → Type 0
  Judged base head none hint clean = Unit
  Judged base head none hint conflicted = ⊥
  Judged base head none hint orphaned = ⊥
  Judged base head (some quote) hint clean =
      (b : Text) × (h : Text) × (locate base (some quote) hint ≡ some b)
      × (locate head (some quote) hint ≡ some h)
      × (content_hash b ≡ content_hash h)
  Judged base head (some quote) hint conflicted =
      (h : Text) × (locate head (some quote) hint ≡ some h)
      × ((b : Text) → locate base (some quote) hint ≡ some b → content_hash b ≢ content_hash h)
  Judged base head (some quote) hint orphaned = locate head (some quote) hint ≡ none

  module _ (sound : (a b : Hash) → hash_eq a b ≡ true → a ≡ b)
      (reflexive : (a : Hash) → hash_eq a a ≡ true) where
    differs :
        (b b' h : Text)
        → hash_eq (content_hash b) (content_hash h) ≡ false
        → b ≡ b'
        → content_hash b' ≡ content_hash h
        → ⊥
    differs b b' h f e s =
        let f' : hash_eq (content_hash h) (content_hash h) ≡ false =
          subst (λ x. hash_eq x (content_hash h) ≡ false) (ap content_hash e ∙ s) f in
        true-ne-false (sym (reflexive (content_hash h)) ∙ f')

    verdict-Judged :
        (base head quote : Text) (hint : Option Text)
        → Judged base head (some quote) hint (detect_conflict base head (some quote) hint)
    unfolding detect_conflict
    verdict-Judged base head quote hint = elim (Option-cases (locate head (some quote) hint)) [
      | inl e ↦ rw e e
      | inr (h, e) ↦ elim (Option-cases (locate base (some quote) hint)) [
        | inl e' ↦ rw (e, e') (h, e, λ b k s. none-ne-some (sym e' ∙ k))
        | inr (b, e') ↦
            rw (e, e')
              (elim (Bool-cases (hash_eq (content_hash b) (content_hash h))) [
                | inl t ↦ rw t (b, h, e', e, sound _ _ t)
                | inr f ↦ rw f (h, e, λ b' k s. differs b b' h f (some-inj (sym e' ∙ k)) s)
              ])
      ]
    ]

    -- At most one verdict describes the contents.
    Judged-unique :
        (base head : Text) (quote hint : Option Text) (v w : Verdict)
        → Judged base head quote hint v
        → Judged base head quote hint w
        → v ≡ w
    Judged-unique base head none hint clean clean j k = refl
    Judged-unique base head none hint clean conflicted j k = absurd k
    Judged-unique base head none hint clean orphaned j k = absurd k
    Judged-unique base head none hint conflicted w j k = absurd j
    Judged-unique base head none hint orphaned w j k = absurd j
    Judged-unique base head (some q) hint clean clean j k = refl
    Judged-unique base head (some q) hint clean conflicted (b, h, eb, eh, s) (h', eh', differ) =
        absurd (differ b eb (s ∙ ap content_hash (some-inj (sym eh ∙ eh'))))
    Judged-unique base head (some q) hint clean orphaned (b, h, eb, eh, s) k =
        absurd (none-ne-some (sym k ∙ eh))
    Judged-unique base head (some q) hint conflicted clean (h', eh', differ) (b, h, eb, eh, s) =
        absurd (differ b eb (s ∙ ap content_hash (some-inj (sym eh ∙ eh'))))
    Judged-unique base head (some q) hint conflicted conflicted j k = refl
    Judged-unique base head (some q) hint conflicted orphaned (h', eh', differ) k =
        absurd (none-ne-some (sym k ∙ eh'))
    Judged-unique base head (some q) hint orphaned clean k (b, h, eb, eh, s) =
        absurd (none-ne-some (sym k ∙ eh))
    Judged-unique base head (some q) hint orphaned conflicted k (h', eh', differ) =
        absurd (none-ne-some (sym k ∙ eh'))
    Judged-unique base head (some q) hint orphaned orphaned j k = refl

    -- The verdict is the one that describes the contents: clean when there is no target, or when the
    -- target's region is located in both with one hash; orphaned when the current content has no such
    -- region; and conflicted when it has one, whose hash is not that of a region of the base.
    pub detect_conflict_iff :
        (base head : Text) (quote hint : Option Text) (v : Verdict)
        → (detect_conflict base head quote hint ≡ v) ↔ Judged base head quote hint v
    unfolding detect_conflict
    detect_conflict_iff base head none hint v =
        (λ e. subst (Judged base head none hint) e tt, Judged-unique base head none hint clean v tt)
    detect_conflict_iff base head (some quote) hint v =
        let given = verdict-Judged base head quote hint in
        (
          λ e. subst (Judged base head (some quote) hint) e given,
          Judged-unique base head (some quote) hint (detect_conflict base head (some quote) hint) v
              given,
        )

-- `RESOLUTION_CHOICES` and `ConflictSurface.choices`
abbrev resolution_choices : List Text
resolution_choices =
    codes "accept-incoming" ∷ codes "keep-current" ∷ codes "merge-with-free-edit" ∷ []

unfoldable pub choices : Verdict → List Text
choices conflicted = resolution_choices
choices _ = []
