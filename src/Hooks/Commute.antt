-- ===== src/Hooks/Commute.antt =====
-- `uninstall` of one event and `install` of another (cli/install_hooks.py), in either order.
use diecast.Prelude.{
  ◌≡◌, refl, sym, ◌∙◌, ap, Bool, true, false, Option, none, some, List, [], ◌∷◌, Text, text_eq,
  text_eq_iff, All, arith, some-inj,
}
use diecast.Hooks.Values.{
  Json, null, boolean, number, text, array, object, Items, nil, item, Fields, get, put, get-put,
  get-remove, put-put_ne, remove-put_ne,
}
use diecast.Hooks.{
  HookEvent, foreign, install_bucket, install_event, report, reported, then_install, install_events,
  keep_bucket, uninstall_bucket, uninstall_event,
}
use diecast.Hooks.Rounds.{
  Installs, kept, first, joined, install_event-Installs, install_events-cons,
}

module _ (bin : Text) where
  Installs-event :
      (e : HookEvent) (hooks hooks' : Fields) (added : Bool)
      → Installs bin e hooks hooks' added
      → install_event bin e hooks ≡ some (hooks', added)
  unfolding install_event install_bucket
  Installs-event e hooks hooks' added (kept bucket g ours same a) =
      rw (g, install_bucket) (rw (ours, a) (ap (λ d. some (d, false)) (sym same)))
  Installs-event e hooks hooks' added (first g same a) =
      rw (g, install_bucket) (rw a (ap (λ d. some (d, true)) (sym same)))
  Installs-event e hooks hooks' added (joined bucket g not_ours same a) =
      rw (g, install_bucket) (rw (not_ours, a) (ap (λ d. some (d, true)) (sym same)))

  -- An `uninstall` of one event commutes with assignments to another.
  keep_bucket-put :
      (j k : Text) (left : Items) (v u : Json) (hooks : Fields)
      → text_eq j k ≡ false
      → get j hooks ≡ some u
      → keep_bucket bin j left (put k v hooks) ≡ put k v (keep_bucket bin j left hooks)
  unfolding keep_bucket
  keep_bucket-put j k nil v u hooks n g = remove-put_ne j k v hooks n
  keep_bucket-put j k (item e es) v u hooks n g = put-put_ne j k _ v u hooks n g

  uninstall_bucket-put :
      (j k : Text) (found : Option Json) (v : Json) (hooks : Fields)
      → text_eq j k ≡ false
      → get j hooks ≡ found
      → uninstall_bucket bin j found (put k v hooks) ≡ put k v (uninstall_bucket bin j found hooks)
  unfolding uninstall_bucket
  uninstall_bucket-put j k (some (array bucket)) v hooks n g =
      keep_bucket-put j k (foreign bin bucket) v (array bucket) hooks n g
  uninstall_bucket-put j k none v hooks n g = refl
  uninstall_bucket-put j k (some null) v hooks n g = refl
  uninstall_bucket-put j k (some (boolean b)) v hooks n g = refl
  uninstall_bucket-put j k (some (number t)) v hooks n g = refl
  uninstall_bucket-put j k (some (text t)) v hooks n g = refl
  uninstall_bucket-put j k (some (object d)) v hooks n g = refl

  text_eq_flip : (j k : Text) → text_eq j k ≡ false → text_eq k j ≡ false
  text_eq_flip j k h = ground (arith, text_eq_iff j k, text_eq_iff k j)

  uninstall_event-put :
      (e f : HookEvent) (v : Json) (hooks : Fields)
      → text_eq e.event f.event ≡ false
      → uninstall_event bin e (put f.event v hooks) ≡ put f.event v (uninstall_event bin e hooks)
  unfolding uninstall_event
  uninstall_event-put e f v hooks n =
      let found : get e.event (put f.event v hooks) ≡ get e.event hooks =
        get-put e.event f.event v hooks ∙ rw (text_eq_flip e.event f.event n) in
      ap (λ o. uninstall_bucket bin e.event o (put f.event v hooks)) found
      ∙ uninstall_bucket-put e.event f.event (get e.event hooks) v hooks n refl

  get-keep_bucket :
      (j k : Text) (left : Items) (hooks : Fields)
      → text_eq j k ≡ false
      → get k (keep_bucket bin j left hooks) ≡ get k hooks
  unfolding keep_bucket
  get-keep_bucket j k nil hooks n = get-remove k j hooks ∙ rw n
  get-keep_bucket j k (item e es) hooks n = get-put k j _ hooks ∙ rw n

  get-uninstall_event :
      (e f : HookEvent) (hooks : Fields)
      → text_eq e.event f.event ≡ false
      → get f.event (uninstall_event bin e hooks) ≡ get f.event hooks
  unfolding uninstall_event uninstall_bucket
  get-uninstall_event e f hooks n = go (get e.event hooks)
    where
      go :
          (o : Option Json) → get f.event (uninstall_bucket bin e.event o hooks) ≡ get f.event hooks
      go (some (array bucket)) = get-keep_bucket e.event f.event (foreign bin bucket) hooks n
      go none = refl
      go (some null) = refl
      go (some (boolean b)) = refl
      go (some (number t)) = refl
      go (some (text t)) = refl
      go (some (object d)) = refl

  Installs-uninstall_event :
      (e f : HookEvent) (hooks hooks' : Fields) (added : Bool)
      → text_eq e.event f.event ≡ false
      → Installs bin f hooks hooks' added
      → Installs bin f (uninstall_event bin e hooks) (uninstall_event bin e hooks') added
  Installs-uninstall_event e f hooks hooks' added n (kept bucket g ours same a) =
      kept bucket (get-uninstall_event e f hooks n ∙ g) ours (ap (uninstall_event bin e) same) a
  Installs-uninstall_event e f hooks hooks' added n (first g same a) =
      first (get-uninstall_event e f hooks n ∙ g)
        (ap (uninstall_event bin e) same ∙ uninstall_event-put e f _ hooks n) a
  Installs-uninstall_event e f hooks hooks' added n (joined bucket g not_ours same a) =
      joined bucket (get-uninstall_event e f hooks n ∙ g) not_ours
        (ap (uninstall_event bin e) same ∙ uninstall_event-put e f _ hooks n) a

  abbrev pub Distinct : List HookEvent → Type 0
  Distinct [] = Unit
  Distinct (e ∷ es) = All (λ f. text_eq e.event f.event ≡ false) es × Distinct es

  -- Without the first event, the others are installed as before.
  pub install_events-uninstall_event :
      (es : List HookEvent) (e : HookEvent) (hooks hooks' : Fields) (installed skipped : List Text)
      → All (λ f. text_eq e.event f.event ≡ false) es
      → install_events bin es hooks ≡ some (hooks', installed, skipped)
      → (i : List Text) × (s : List Text) × (install_events bin es (uninstall_event bin e hooks)
          ≡ some (uninstall_event bin e hooks', i, s))
  unfolding install_events
  install_events-uninstall_event [] e hooks hooks' installed skipped n h =
      ([], [], ap (λ d. some (uninstall_event bin e d, [], [])) (ap (λ p. p.0) (some-inj h)))
  install_events-uninstall_event (f ∷ es) e hooks hooks' installed skipped n h =
      let (between, added, i, s, one, rest) =
        install_events-cons bin f es hooks hooks' installed skipped h in
      let there =
        Installs-event f (uninstall_event bin e hooks) (uninstall_event bin e between) added (
          Installs-uninstall_event e f hooks between added n.0
            (install_event-Installs bin f hooks between added one)) in
      let (i', s', others) = install_events-uninstall_event es e between hooks' i s n.1 rest in
      (
        (report bin added f (i', s')).0,
        (report bin added f (i', s')).1,
        ap (λ o. then_install bin o f (install_events bin es)) there
            ∙ ap (reported bin added f) others,
      )
