-- ===== src/Hooks/RoundTrip.antt =====
-- `uninstall` after `install` (cli/install_hooks.py) on settings without our entries.
use diecast.Prelude.{
  ◌≡◌, refl, sym, ◌∙◌, ap, Bool, false, none, some, List, [], ◌∷◌, Text, codes, text_eq_refl, All,
  arith, inl, inr, ◌⊎◌, some-inj, none-ne-some, true-ne-false,
}
use mathlib.Core.Path.{subst}
use diecast.Hooks.Values.{
  Json, array, object, Items, nil, item, Fields, end, field, get, put, append, get-put,
  put-put_self, put-get_self, remove-put_new,
}
use diecast.Hooks.{
  HookEvent, wrote, hook_events, any_ours, foreign, new_entry, install_events, install_settings,
  keep_bucket, uninstall_bucket, uninstall_event, uninstall_events, removed_events,
  uninstall_settings, uninstall_under, settle,
}
use diecast.Hooks.Rounds.{
  Block, entry_is_ours-new_entry, Installs, kept, first, joined, install_event-Installs,
  install_events-cons, install_settings-Wrote,
}
use diecast.Hooks.Foreign.{foreign-append, foreign-ours}
use diecast.Hooks.Commute.{Distinct, install_events-uninstall_event}

module _ (bin : Text) where
  -- The event has no bucket, or a bucket with entries, none of them ours.
  abbrev pub IsFresh : Fields → HookEvent → Type 0
  IsFresh hooks e =
      (get e.event hooks ≡ none)
      ⊎ ((v : Json) × (vs : Items) × (get e.event hooks ≡ some (array (item v vs)))
          × (any_ours bin (item v vs) ≡ false))

  foreign_self : (b : Items) → any_ours bin b ≡ false → foreign bin b ≡ b
  unfolding foreign any_ours
  foreign_self nil h = refl
  foreign_self (item e es) h = ground (arith, foreign_self es)

  -- The bucket that an `uninstall` finds, and what it leaves.
  uninstall_event-found :
      (e : HookEvent) (hooks : Fields) (bucket left : Items)
      → get e.event hooks ≡ some (array bucket)
      → foreign bin bucket ≡ left
      → uninstall_event bin e hooks ≡ keep_bucket bin e.event left hooks
  unfolding uninstall_event uninstall_bucket
  uninstall_event-found e hooks bucket left found f =
      ap (λ o. uninstall_bucket bin e.event o hooks) found
      ∙ ap (λ l. keep_bucket bin e.event l hooks) f

  found_again :
      (e : HookEvent) (v : Json) (hooks : Fields) → get e.event (put e.event v hooks) ≡ some v
  found_again e v hooks = get-put e.event e.event v hooks ∙ rw (text_eq_refl e.event)

  uninstall_event-Installs :
      (e : HookEvent) (hooks hooks' : Fields) (added : Bool)
      → Installs bin e hooks hooks' added
      → IsFresh hooks e
      → uninstall_event bin e hooks' ≡ hooks
  unfolding keep_bucket
  uninstall_event-Installs e hooks hooks' added (first g same a) fresh =
      ap (uninstall_event bin e) same
      ∙ uninstall_event-found e _ (item (new_entry bin e) nil) nil (found_again e _ hooks)
          (foreign-ours bin (new_entry bin e) (entry_is_ours-new_entry bin e))
      ∙ remove-put_new e.event _ hooks g
  uninstall_event-Installs e hooks hooks' added (kept bucket g ours same a) (inl n) =
      absurd (none-ne-some {a = array bucket} (sym n ∙ g))
  uninstall_event-Installs e hooks hooks' added (kept bucket g ours same a)
        (inr (v, vs, g', not_ours)) =
      let one : bucket ≡ item v vs = cc in
      absurd (true-ne-false (sym ours ∙ ap (any_ours bin) one ∙ not_ours))
  uninstall_event-Installs e hooks hooks' added (joined bucket g no_ours same a) (inl n) =
      absurd (none-ne-some {a = array bucket} (sym n ∙ g))
  uninstall_event-Installs e hooks hooks' added (joined bucket g no_ours same a)
        (inr (v, vs, g', not_ours)) =
      let one : bucket ≡ item v vs = cc in
      let left =
        foreign-append bin bucket (new_entry bin e) (entry_is_ours-new_entry bin e)
        ∙ foreign_self bucket no_ours
        ∙ one in
      ap (uninstall_event bin e) same
      ∙ uninstall_event-found e _ (append bucket (new_entry bin e)) (item v vs)
          (found_again e _ hooks) left
      ∙ put-put_self e.event _ _ hooks
      ∙ put-get_self e.event _ hooks g'

  uninstall_events-install :
      (es : List HookEvent) (hooks hooks' : Fields) (installed skipped : List Text)
      → Distinct bin es
      → All (IsFresh hooks) es
      → install_events bin es hooks ≡ some (hooks', installed, skipped)
      → uninstall_events bin es hooks' ≡ hooks
  unfolding uninstall_events install_events
  uninstall_events-install [] hooks hooks' installed skipped d f h =
      sym (ap (λ p. p.0) (some-inj h))
  uninstall_events-install (e ∷ es) hooks hooks' installed skipped d f h =
      let (between, added, i, s, one, rest) =
        install_events-cons bin e es hooks hooks' installed skipped h in
      let back : uninstall_event bin e between ≡ hooks =
        uninstall_event-Installs e hooks between added
          (install_event-Installs bin e hooks between added one) f.0 in
      let (i', s', others) = install_events-uninstall_event bin es e between hooks' i s d.0 rest in
      uninstall_events-install es hooks (uninstall_event bin e hooks') i' s' d.1 f.1
        (ap (install_events bin es) (sym back) ∙ others)

  abbrev key : Text
  key = codes "hooks"

  -- There is no hooks block, or one with keys of which the events' are fresh.
  abbrev pub IsUnhooked : Fields → Type 0
  IsUnhooked settings =
      (get key settings ≡ none)
      ⊎ ((k : Text) × (v : Json) × (d : Fields) × (get key settings ≡ some (object (field k v d)))
          × All (IsFresh (field k v d)) hook_events)

  hook_events-Distinct : Distinct bin hook_events
  unfolding hook_events
  hook_events-Distinct = (
    (refl, (refl, (refl, (refl, tt)))),
    ((refl, (refl, (refl, tt))), ((refl, (refl, tt)), ((refl, tt), (tt, tt)))),
  )

  none-IsFresh : (es : List HookEvent) → All (IsFresh end) es
  unfolding get
  none-IsFresh [] = tt
  none-IsFresh (e ∷ es) = (inl refl, none-IsFresh es)

  uninstall_settings-put :
      (settings hooks : Fields)
      → uninstall_settings bin (put key (object hooks) settings)
        ≡ wrote
            (settle bin (uninstall_events bin hook_events hooks) (put key (object hooks) settings))
            []
            (removed_events bin hook_events hooks)
  unfolding uninstall_settings uninstall_under
  uninstall_settings-put settings hooks =
      ap (uninstall_under bin (put key (object hooks) settings))
        (get-put key key (object hooks) settings)

  settle-back :
      (settings hooks hooks' : Fields)
      → IsUnhooked settings
      → Block bin settings hooks
      → settle bin hooks (put key (object hooks') settings) ≡ settings
  unfolding settle
  settle-back settings hooks hooks' u (inr (n, e)) =
      ap (λ d. settle bin d (put key (object hooks') settings)) e ∙ remove-put_new key _ settings n
  settle-back settings hooks hooks' (inl n) (inl g) =
      absurd (none-ne-some {a = object hooks} (sym n ∙ g))
  settle-back settings hooks hooks' (inr (k, v, d, g', _)) (inl g) =
      let one : hooks ≡ field k v d = cc in
      ap (λ h. settle bin h (put key (object hooks') settings)) one
      ∙ put-put_self key _ _ settings
      ∙ put-get_self key _ settings g'

  Block-IsFresh :
      (settings hooks : Fields)
      → IsUnhooked settings
      → Block bin settings hooks
      → All (IsFresh hooks) hook_events
  Block-IsFresh settings hooks u (inr (n, e)) =
      subst (λ d. All (IsFresh d) hook_events) (sym e) (none-IsFresh hook_events)
  Block-IsFresh settings hooks (inl n) (inl g) =
      absurd (none-ne-some {a = object hooks} (sym n ∙ g))
  Block-IsFresh settings hooks (inr (k, v, d, g', f)) (inl g) =
      let one : hooks ≡ field k v d = cc in subst (λ d. All (IsFresh d) hook_events) (sym one) f

  -- On settings without our entries, an `uninstall` after an `install` that wrote writes the settings
  -- that were there before, if the hooks block, where there was one, was not empty, and no bucket of
  -- an event was either.
  pub uninstall-install :
      (settings settings' : Fields) (installed skipped : List Text)
      → IsUnhooked settings
      → install_settings bin settings ≡ wrote settings' installed skipped
      → (removed : List Text) × (uninstall_settings bin settings' ≡ wrote settings [] removed)
  uninstall-install settings settings' installed skipped u h =
      let w = install_settings-Wrote bin settings settings' installed skipped h in
      let gone =
        uninstall_events-install hook_events w.hooks w.hooks' installed skipped hook_events-Distinct
          (Block-IsFresh settings w.hooks u w.block) w.ran in
      (
        removed_events bin hook_events w.hooks',
        ap (uninstall_settings bin) w.written
            ∙ uninstall_settings-put settings w.hooks'
            ∙ ap (λ d. wrote d [] (removed_events bin hook_events w.hooks'))
                (ap (λ d. settle bin d (put key (object w.hooks') settings)) gone
                  ∙ settle-back settings w.hooks w.hooks' u w.block),
      )
