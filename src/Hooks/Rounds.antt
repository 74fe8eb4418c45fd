-- ===== src/Hooks/Rounds.antt =====
-- The rounds of the loop of `install` in cli/install_hooks.py.
use diecast.Prelude.{
  ◌≡◌, refl, sym, ◌∙◌, ap, Bool, true, false, ◌||◌, Option, none, some, List, ◌∷◌, Text, codes,
  starts_with-append, arith, Bool-cases, inl, inr, ◌⊎◌, some-inj, none-ne-some,
}
use diecast.Hooks.Values.{
  Json, null, boolean, number, array, object, text, Items, nil, item, Fields, end, get, put, append,
}
use diecast.Hooks.{
  HookEvent, wrote, hook_marker, hook_events, entry_is_ours, any_command, any_ours, new_entry,
  install_bucket, install_event, reported, then_install, install_events, install_settings,
  install_under, write_hooks,
}

module _ (bin : Text) where
  pub entry_is_ours-new_entry : (e : HookEvent) → entry_is_ours bin (new_entry bin e) ≡ true
  unfolding entry_is_ours any_command new_entry get
  entry_is_ours-new_entry e = rw (starts_with-append (hook_marker bin) e.sub) refl

  pub any_ours-append :
      (b : Items) (v : Json) → any_ours bin (append b v) ≡ (any_ours bin b || entry_is_ours bin v)
  unfolding any_ours append
  any_ours-append nil v = ground arith
  any_ours-append (item e es) v = ground (arith, any_ours-append es v)

  -- What a round of the install loop does: the event's entry is there, or it is appended.
  pub data Installs (e : HookEvent) (hooks hooks' : Fields) (added : Bool) : Type 0 where
    kept :
        (bucket : Items)
        → get e.event hooks ≡ some (array bucket)
        → any_ours bin bucket ≡ true
        → hooks' ≡ hooks
        → added ≡ false
        → Installs e hooks hooks' added
    first :
        get e.event hooks ≡ none
        → hooks' ≡ put e.event (array (item (new_entry bin e) nil)) hooks
        → added ≡ true
        → Installs e hooks hooks' added
    joined :
        (bucket : Items)
        → get e.event hooks ≡ some (array bucket)
        → any_ours bin bucket ≡ false
        → hooks' ≡ put e.event (array (append bucket (new_entry bin e))) hooks
        → added ≡ true
        → Installs e hooks hooks' added

  install_bucket-Installs :
      (e : HookEvent) (hooks hooks' : Fields) (added : Bool) (found : Option Json)
      → get e.event hooks ≡ found
      → install_bucket bin e found hooks ≡ some (hooks', added)
      → Installs e hooks hooks' added
  unfolding install_bucket
  install_bucket-Installs e hooks hooks' added none g h =
      let same = some-inj h in first g (sym (ap (λ p. p.0) same)) (sym (ap (λ p. p.1) same))
  install_bucket-Installs e hooks hooks' added (some (array bucket)) g h =
      elim (Bool-cases (any_ours bin bucket)) [
        | inl ours ↦
            let same = some-inj (rw ours at h) in
            kept bucket g ours (sym (ap (λ p. p.0) same)) (sym (ap (λ p. p.1) same))
        | inr not_ours ↦
            let same = some-inj (rw not_ours at h) in
            joined bucket g not_ours (sym (ap (λ p. p.0) same)) (sym (ap (λ p. p.1) same))
      ]
  install_bucket-Installs e hooks hooks' added (some null) g h = absurd (none-ne-some h)
  install_bucket-Installs e hooks hooks' added (some (boolean b)) g h = absurd (none-ne-some h)
  install_bucket-Installs e hooks hooks' added (some (number n)) g h = absurd (none-ne-some h)
  install_bucket-Installs e hooks hooks' added (some (text t)) g h = absurd (none-ne-some h)
  install_bucket-Installs e hooks hooks' added (some (object d)) g h = absurd (none-ne-some h)

  pub install_event-Installs :
      (e : HookEvent) (hooks hooks' : Fields) (added : Bool)
      → install_event bin e hooks ≡ some (hooks', added)
      → Installs e hooks hooks' added
  unfolding install_event
  install_event-Installs e hooks hooks' added h =
      install_bucket-Installs e hooks hooks' added _ refl h

  reported-some :
      (added : Bool) (e : HookEvent) (o : Option (Fields × List Text × List Text)) (hooks' : Fields)
      (installed skipped : List Text)
      → reported bin added e o ≡ some (hooks', installed, skipped)
      → (i : List Text) × (s : List Text) × (o ≡ some (hooks', i, s))
  reported-some added e none hooks' installed skipped h = absurd (none-ne-some h)
  reported-some added e (some (d, i, s)) hooks' installed skipped h =
      (i, s, ap (λ k. some (k, i, s)) (ap (λ p. p.0) (some-inj h)))

  -- A run of the loop over a first event and the others.
  pub install_events-cons :
      (e : HookEvent) (es : List HookEvent) (hooks hooks' : Fields) (installed skipped : List Text)
      → install_events bin (e ∷ es) hooks ≡ some (hooks', installed, skipped)
      → (between : Fields) × (added : Bool) × (i : List Text) × (s : List Text) × (install_event bin
            e hooks
          ≡ some (between, added))
        × (install_events bin es between ≡ some (hooks', i, s))
  unfolding install_events
  install_events-cons e es hooks hooks' installed skipped h = go (install_event bin e hooks) refl h
    where
      go :
          (o : Option (Fields × Bool))
          → install_event bin e hooks ≡ o
          → then_install bin o e (install_events bin es) ≡ some (hooks', installed, skipped)
          → (between : Fields) × (added : Bool) × (i : List Text) × (s : List Text) × (install_event
                bin e hooks
              ≡ some (between, added))
            × (install_events bin es between ≡ some (hooks', i, s))
      go none g k = absurd (none-ne-some k)
      go (some (between, added)) g k =
          let (i, s, rest) =
            reported-some added e (install_events bin es between) hooks' installed skipped k in
          (between, added, i, s, g, rest)

  -- The hooks block that `install` goes on from.
  abbrev pub Block : Fields → Fields → Type 0
  Block settings hooks =
      (get (codes "hooks") settings ≡ some (object hooks))
      ⊎ (get (codes "hooks") settings ≡ none) × (hooks ≡ end)

  -- What `install` wrote.
  pub record Wrote (settings settings' : Fields) (installed skipped : List Text) : Type 0 where
    pub hooks : Fields
    pub hooks' : Fields
    pub block : Block settings hooks
    pub ran : install_events bin hook_events hooks ≡ some (hooks', installed, skipped)
    pub written : settings' ≡ put (codes "hooks") (object hooks') settings

  write_hooks-Wrote :
      (settings settings' hooks : Fields) (installed skipped : List Text)
      (o : Option (Fields × List Text × List Text))
      → Block settings hooks
      → install_events bin hook_events hooks ≡ o
      → write_hooks bin settings o ≡ wrote settings' installed skipped
      → Wrote settings settings' installed skipped
  unfolding write_hooks
  write_hooks-Wrote settings settings' hooks installed skipped none b r h = cc
  write_hooks-Wrote settings settings' hooks installed skipped (some (hooks', i, s)) b r h =
      record { hooks = hooks; hooks' = hooks'; block = b; ran = r ∙ cc; written = cc }

  pub install_settings-Wrote :
      (settings settings' : Fields) (installed skipped : List Text)
      → install_settings bin settings ≡ wrote settings' installed skipped
      → Wrote settings settings' installed skipped
  unfolding install_settings install_under
  install_settings-Wrote settings settings' installed skipped h =
      go (get (codes "hooks") settings) refl h
    where
      go :
          (o : Option Json)
          → get (codes "hooks") settings ≡ o
          → install_under bin settings o ≡ wrote settings' installed skipped
          → Wrote settings settings' installed skipped
      go none g k =
          write_hooks-Wrote settings settings' end installed skipped _ (inr (g, refl)) refl k
      go (some (object hooks)) g k =
          write_hooks-Wrote settings settings' hooks installed skipped _ (inl g) refl k
      go (some null) g k = cc
      go (some (boolean b)) g k = cc
      go (some (number n)) g k = cc
      go (some (text t)) g k = cc
      go (some (array l)) g k = cc
