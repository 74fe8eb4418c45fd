-- ===== src/Hooks/Foreign.antt =====
-- The entries of others, and the other settings, across `install` and `uninstall` of
-- cli/install_hooks.py.
use diecast.Prelude.{
  ◌≡◌, refl, sym, ◌∙◌, ap, Bool, true, false, Option, none, some, List, [], ◌∷◌, Text, codes,
  text_eq, text_eq_iff, arith, Bool-cases, inl, inr, some-inj,
}
use mathlib.Core.Path.{subst}
use diecast.Hooks.Values.{
  Json, null, boolean, number, text, array, object, Items, nil, item, Fields, end, field, get, put,
  remove, append, get-put, get-remove,
}
use diecast.Hooks.{
  HookEvent, wrote, hook_events, entry_is_ours, foreign, new_entry, install_events,
  install_settings, keep_bucket, uninstall_bucket, uninstall_event, uninstall_events,
  uninstall_settings, uninstall_under, settle,
}
use diecast.Hooks.Rounds.{
  Block, entry_is_ours-new_entry, Installs, kept, first, joined, install_event-Installs,
  install_events-cons, install_settings-Wrote,
}

module _ (bin : Text) where
  -- What a key of the hooks block holds besides our entries; no bucket counts as an empty one.
  abbrev pub foreign_of : Option Json → Json
  foreign_of none = array nil
  foreign_of (some (array bucket)) = array (foreign bin bucket)
  foreign_of (some v) = v

  abbrev pub block_of : Option Json → Fields
  block_of (some (object hooks)) = hooks
  block_of _ = end

  -- The other settings are as they were, and so is what each key holds besides our entries.
  pub record KeepsForeign (settings settings' : Fields) : Type 0 where
    pub others : (k : Text) → text_eq (codes "hooks") k ≡ false → get k settings' ≡ get k settings
    pub entries :
        (event : Text)
        → foreign_of (get event (block_of (get (codes "hooks") settings')))
          ≡ foreign_of (get event (block_of (get (codes "hooks") settings)))

  pub foreign-append :
      (b : Items) (v : Json) → entry_is_ours bin v ≡ true → foreign bin (append b v) ≡ foreign bin b
  unfolding foreign append
  foreign-append nil v h = rw h
  foreign-append (item e es) v h = ground (arith, foreign-append es v)

  foreign_twice : (b : Items) → foreign bin (foreign bin b) ≡ foreign bin b
  unfolding foreign
  foreign_twice nil = refl
  foreign_twice (item e es) = ground (arith, foreign_twice es)

  pub foreign-ours : (v : Json) → entry_is_ours bin v ≡ true → foreign bin (item v nil) ≡ nil
  unfolding foreign
  foreign-ours v h = rw h

  -- An assignment with the same foreign entries
  foreign_of-put :
      (event : Text) (v : Json) (hooks : Fields) (k : Text)
      → foreign_of (some v) ≡ foreign_of (get event hooks)
      → foreign_of (get k (put event v hooks)) ≡ foreign_of (get k hooks)
  foreign_of-put event v hooks k h = elim (Bool-cases (text_eq event k)) [
    | inl t ↦
        ap foreign_of {y = some v} (get-put k event v hooks ∙ rw t)
        ∙ h
        ∙ ap (λ j. foreign_of (get j hooks)) ((text_eq_iff event k).0 t)
    | inr n ↦ ap foreign_of {y = get k hooks} (get-put k event v hooks ∙ rw n)
  ]

  foreign_of-remove :
      (event : Text) (hooks : Fields) (k : Text)
      → foreign_of (get event hooks) ≡ array nil
      → foreign_of (get k (remove event hooks)) ≡ foreign_of (get k hooks)
  foreign_of-remove event hooks k h = elim (Bool-cases (text_eq event k)) [
    | inl t ↦
        ap foreign_of {y = none} (get-remove k event hooks ∙ rw t)
        ∙ sym h
        ∙ ap (λ j. foreign_of (get j hooks)) ((text_eq_iff event k).0 t)
    | inr n ↦ ap foreign_of {y = get k hooks} (get-remove k event hooks ∙ rw n)
  ]

  Installs-foreign :
      (e : HookEvent) (hooks hooks' : Fields) (added : Bool) (k : Text)
      → Installs bin e hooks hooks' added
      → foreign_of (get k hooks') ≡ foreign_of (get k hooks)
  Installs-foreign e hooks hooks' added k (kept bucket g ours same a) =
      ap (λ d. foreign_of (get k d)) same
  Installs-foreign e hooks hooks' added k (first g same a) =
      ap (λ d. foreign_of (get k d)) same
      ∙ foreign_of-put e.event _ hooks k (
          ap array (foreign-ours (new_entry bin e) (entry_is_ours-new_entry bin e))
          ∙ sym (ap foreign_of g))
  Installs-foreign e hooks hooks' added k (joined bucket g not_ours same a) =
      ap (λ d. foreign_of (get k d)) same
      ∙ foreign_of-put e.event _ hooks k (
          ap array (foreign-append bucket (new_entry bin e) (entry_is_ours-new_entry bin e))
          ∙ sym (ap foreign_of g))

  install_events-foreign :
      (es : List HookEvent) (hooks hooks' : Fields) (installed skipped : List Text) (k : Text)
      → install_events bin es hooks ≡ some (hooks', installed, skipped)
      → foreign_of (get k hooks') ≡ foreign_of (get k hooks)
  unfolding install_events
  install_events-foreign [] hooks hooks' installed skipped k h =
      ap (λ d. foreign_of (get k d)) (sym (ap (λ p. p.0) (some-inj h)))
  install_events-foreign (e ∷ es) hooks hooks' installed skipped k h =
      let (between, added, i, s, one, rest) =
        install_events-cons bin e es hooks hooks' installed skipped h in
      install_events-foreign es between hooks' i s k rest
      ∙ Installs-foreign e hooks between added k
          (install_event-Installs bin e hooks between added one)

  uninstall_bucket-foreign :
      (event : Text) (found : Option Json) (hooks : Fields) (k : Text)
      → get event hooks ≡ found
      → foreign_of (get k (uninstall_bucket bin event found hooks)) ≡ foreign_of (get k hooks)
  unfolding uninstall_bucket keep_bucket
  uninstall_bucket-foreign event none hooks k g = refl
  uninstall_bucket-foreign event (some null) hooks k g = refl
  uninstall_bucket-foreign event (some (boolean b)) hooks k g = refl
  uninstall_bucket-foreign event (some (number n)) hooks k g = refl
  uninstall_bucket-foreign event (some (text t)) hooks k g = refl
  uninstall_bucket-foreign event (some (object d)) hooks k g = refl
  uninstall_bucket-foreign event (some (array bucket)) hooks k g =
      kept_or_removed (foreign bin bucket) refl
    where
      kept_or_removed :
          (f : Items)
          → foreign bin bucket ≡ f
          → foreign_of (get k (keep_bucket bin event f hooks)) ≡ foreign_of (get k hooks)
      kept_or_removed nil e = foreign_of-remove event hooks k (ap foreign_of g ∙ ap array e)
      kept_or_removed (item v vs) e = foreign_of-put event (array (item v vs)) hooks k (
          ap (λ f. array (foreign bin f)) (sym e)
          ∙ ap array (foreign_twice bucket)
          ∙ sym (ap foreign_of g))

  uninstall_events-foreign :
      (es : List HookEvent) (hooks : Fields) (k : Text)
      → foreign_of (get k (uninstall_events bin es hooks)) ≡ foreign_of (get k hooks)
  unfolding uninstall_events uninstall_event
  uninstall_events-foreign [] hooks k = refl
  uninstall_events-foreign (e ∷ es) hooks k =
      uninstall_events-foreign es (uninstall_event bin e hooks) k
      ∙ uninstall_bucket-foreign e.event (get e.event hooks) hooks k refl

  abbrev key : Text
  key = codes "hooks"

  Block-block_of :
      (settings hooks : Fields) → Block bin settings hooks → block_of (get key settings) ≡ hooks
  Block-block_of settings hooks (inl g) = ap block_of g
  Block-block_of settings hooks (inr (g, e)) = ap block_of g ∙ sym e

  put-KeepsForeign :
      (settings hooks : Fields)
      → ((event : Text)
          → foreign_of (get event hooks) ≡ foreign_of (get event (block_of (get key settings))))
      → KeepsForeign settings (put key (object hooks) settings)
  put-KeepsForeign settings hooks h = record {
    others = λ k n. get-put k key (object hooks) settings ∙ rw n;
    entries = λ event.
        ap (λ v. foreign_of (get event (block_of v))) (get-put key key (object hooks) settings)
        ∙ h event;
  }

  -- An `install` that wrote has kept the other settings, and at each key of the hooks block the
  -- entries that are not ours, in their order.
  install_settings-KeepsForeign :
      (settings settings' : Fields) (installed skipped : List Text)
      → install_settings bin settings ≡ wrote settings' installed skipped
      → KeepsForeign settings settings'
  install_settings-KeepsForeign settings settings' installed skipped h =
      let w = install_settings-Wrote bin settings settings' installed skipped h in
      subst (KeepsForeign settings) (sym w.written) (
        put-KeepsForeign settings w.hooks' λ event.
          install_events-foreign hook_events w.hooks w.hooks' installed skipped event w.ran
          ∙ ap (λ d. foreign_of (get event d)) (sym (Block-block_of settings w.hooks w.block)))

  settle-KeepsForeign :
      (settings hooks : Fields)
      → ((event : Text)
          → foreign_of (get event hooks) ≡ foreign_of (get event (block_of (get key settings))))
      → KeepsForeign settings (settle bin hooks settings)
  unfolding settle
  settle-KeepsForeign settings end h = record {
    others = λ k n. get-remove k key settings ∙ rw n;
    entries = λ event.
        ap (λ v. foreign_of (get event (block_of v))) (get-remove key key settings) ∙ h event;
  }
  settle-KeepsForeign settings (field k v d) h = put-KeepsForeign settings (field k v d) h

  -- An `uninstall` that wrote has kept the other settings, and at each key of the hooks block the
  -- entries that are not ours, in their order.
  uninstall_settings-KeepsForeign :
      (settings settings' : Fields) (kept_none removed : List Text)
      → uninstall_settings bin settings ≡ wrote settings' kept_none removed
      → KeepsForeign settings settings'
  unfolding uninstall_settings uninstall_under
  uninstall_settings-KeepsForeign settings settings' kept_none removed h =
      go (get key settings) refl h
    where
      go :
          (o : Option Json)
          → get key settings ≡ o
          → uninstall_under bin settings o ≡ wrote settings' kept_none removed
          → KeepsForeign settings settings'
      go (some (object hooks)) g k =
          let same : settle bin (uninstall_events bin hook_events hooks) settings ≡ settings' =
            cc in
          subst (KeepsForeign settings) same (
            settle-KeepsForeign settings (uninstall_events bin hook_events hooks) λ event.
              uninstall_events-foreign hook_events hooks event
              ∙ ap (λ v. foreign_of (get event (block_of v))) (sym g))
      go none g k = cc
      go (some null) g k = cc
      go (some (boolean b)) g k = cc
      go (some (number n)) g k = cc
      go (some (text t)) g k = cc
      go (some (array l)) g k = cc

  -- An `install` that wrote has kept the other settings, and at each key of the hooks block the
  -- entries that are not ours, in their order; and so has an `uninstall` that wrote.
  pub wrote-KeepsForeign :
      (settings settings' : Fields) (installed skipped : List Text) (start ended : Fields)
      (kept_none removed : List Text)
      → install_settings bin settings ≡ wrote settings' installed skipped
      → uninstall_settings bin start ≡ wrote ended kept_none removed
      → KeepsForeign settings settings' × KeepsForeign start ended
  wrote-KeepsForeign settings settings' installed skipped start ended kept_none removed h k = (
    install_settings-KeepsForeign settings settings' installed skipped h,
    uninstall_settings-KeepsForeign start ended kept_none removed k,
  )
