-- ===== src/Hooks/Idempotent.antt =====
-- A second `install` of cli/install_hooks.py.
use diecast.Prelude.{
  ◌≡◌, refl, sym, ◌∙◌, ap, Bool, true, false, some, List, [], ◌∷◌, Text, codes, text_eq,
  text_eq_refl, map, All, Bool-cases, inl, inr, some-inj,
}
use mathlib.Core.Path.{subst}
use diecast.Hooks.Values.{
  array, object, Items, nil, item, Fields, get, put, append, get-put, put-get_self,
}
use diecast.Hooks.{
  HookEvent, wrote, hook_events, any_ours, new_entry, install_bucket, install_event, install_events,
  install_settings, install_under, write_hooks,
}
use diecast.Hooks.Rounds.{
  entry_is_ours-new_entry, any_ours-append, Installs, kept, first, joined, install_event-Installs,
  install_events-cons, install_settings-Wrote,
}

module _ (bin : Text) where
  -- The event has a bucket with an entry of ours.
  abbrev IsInstalled : Fields → HookEvent → Type 0
  IsInstalled hooks e =
      (bucket : Items) × (get e.event hooks ≡ some (array bucket)) × (any_ours bin bucket ≡ true)

  Installs-IsInstalled :
      (e : HookEvent) (hooks hooks' : Fields) (added : Bool)
      → Installs bin e hooks hooks' added
      → IsInstalled hooks' e
  Installs-IsInstalled e hooks hooks' added (kept bucket g ours same a) =
      (bucket, ap (get e.event) same ∙ g, ours)
  Installs-IsInstalled e hooks hooks' added (first g same a) = (
    item (new_entry bin e) nil,
    ap (get e.event) same ∙ get-put e.event e.event _ hooks ∙ rw (text_eq_refl e.event),
    unfold any_ours in rw (entry_is_ours-new_entry bin e),
  )
  Installs-IsInstalled e hooks hooks' added (joined bucket g not_ours same a) = (
    append bucket (new_entry bin e),
    ap (get e.event) same ∙ get-put e.event e.event _ hooks ∙ rw (text_eq_refl e.event),
    any_ours-append bin bucket (new_entry bin e) ∙ rw (not_ours, entry_is_ours-new_entry bin e),
  )

  -- What a round does to another event, or to its own again, leaves an installed event installed.
  put-IsInstalled :
      (e f : HookEvent) (hooks : Fields) (new : Items)
      → any_ours bin new ≡ true
      → IsInstalled hooks e
      → IsInstalled (put f.event (array new) hooks) e
  put-IsInstalled e f hooks new ours (bucket, g, b) = elim (Bool-cases (text_eq f.event e.event)) [
    | inl t ↦ (new, get-put e.event f.event _ hooks ∙ rw t, ours)
    | inr n ↦ (bucket, get-put e.event f.event _ hooks ∙ rw n g, b)
  ]

  Installs-kept :
      (e f : HookEvent) (hooks hooks' : Fields) (added : Bool)
      → Installs bin f hooks hooks' added
      → IsInstalled hooks e
      → IsInstalled hooks' e
  Installs-kept e f hooks hooks' added (kept bucket g ours same a) i =
      subst (λ d. IsInstalled d e) (sym same) i
  Installs-kept e f hooks hooks' added (first g same a) i =
      subst (λ d. IsInstalled d e) (sym same)
        (put-IsInstalled e f hooks _ (unfold any_ours in rw (entry_is_ours-new_entry bin f)) i)
  Installs-kept e f hooks hooks' added (joined bucket g not_ours same a) i =
      subst (λ d. IsInstalled d e) (sym same)
        (put-IsInstalled e f hooks _
          (any_ours-append bin bucket (new_entry bin f)
            ∙ rw (not_ours, entry_is_ours-new_entry bin f))
          i)

  install_event-again :
      (e : HookEvent) (hooks : Fields)
      → IsInstalled hooks e
      → install_event bin e hooks ≡ some (hooks, false)
  unfolding install_event
  install_event-again e hooks (bucket, found, ours) = rw (found, install_bucket) (rw ours)

  install_events-kept :
      (es : List HookEvent) (e : HookEvent) (hooks hooks' : Fields) (installed skipped : List Text)
      → install_events bin es hooks ≡ some (hooks', installed, skipped)
      → IsInstalled hooks e
      → IsInstalled hooks' e
  unfolding install_events
  install_events-kept [] e hooks hooks' installed skipped h i =
      subst (λ d. IsInstalled d e) (ap (λ p. p.0) (some-inj h)) i
  install_events-kept (f ∷ es) e hooks hooks' installed skipped h i =
      let (between, added, _, _, one, rest) =
        install_events-cons bin f es hooks hooks' installed skipped h in
      install_events-kept es e between hooks' _ _ rest (
        Installs-kept e f hooks between added (install_event-Installs bin f hooks between added one)
          i)

  install_events-IsInstalled :
      (es : List HookEvent) (hooks hooks' : Fields) (installed skipped : List Text)
      → install_events bin es hooks ≡ some (hooks', installed, skipped)
      → All (IsInstalled hooks') es
  install_events-IsInstalled [] hooks hooks' installed skipped h = tt
  install_events-IsInstalled (e ∷ es) hooks hooks' installed skipped h =
      let (between, added, i, s, one, rest) =
        install_events-cons bin e es hooks hooks' installed skipped h in
      (
        install_events-kept es e between hooks' i s rest (
            Installs-IsInstalled e hooks between added
              (install_event-Installs bin e hooks between added one)),
        install_events-IsInstalled es between hooks' i s rest,
      )

  install_events-again :
      (es : List HookEvent) (hooks : Fields)
      → All (IsInstalled hooks) es
      → install_events bin es hooks ≡ some (hooks, [], map (λ e. e.sub) es)
  unfolding install_events
  install_events-again [] hooks h = refl
  install_events-again (e ∷ es) hooks h =
      rw (install_event-again e hooks h.0) (rw (install_events-again es hooks h.1))

  -- After an `install` that wrote, another one adds no entry and leaves the settings as they are.
  pub install_twice :
      (settings settings' : Fields) (installed skipped : List Text)
      → install_settings bin settings ≡ wrote settings' installed skipped
      → install_settings bin settings' ≡ wrote settings' [] (map (λ e. e.sub) hook_events)
  unfolding install_settings
  install_twice settings settings' installed skipped h =
      let w = install_settings-Wrote bin settings settings' installed skipped h in
      let again =
        install_events-again hook_events w.hooks'
          (install_events-IsInstalled hook_events w.hooks w.hooks' installed skipped w.ran) in
      let found : get (codes "hooks") settings' ≡ some (object w.hooks') =
        ap (get (codes "hooks")) w.written
        ∙ get-put (codes "hooks") (codes "hooks") (object w.hooks') settings in
      let same : put (codes "hooks") (object w.hooks') settings' ≡ settings' =
        put-get_self (codes "hooks") (object w.hooks') settings' found in
      ap (install_under bin settings') found
      ∙ ap (write_hooks bin settings') again
      ∙ ap (λ d. wrote d [] (map (λ e. e.sub) hook_events)) same
