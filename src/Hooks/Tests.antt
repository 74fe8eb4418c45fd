-- ===== src/Hooks/Tests.antt =====
-- `install` and `uninstall` on a small settings file.
use diecast.Prelude.{◌≡◌, refl, true, inl, inr, List, [], Text, codes, map}
use diecast.Hooks.Values.{Fields, Json, text, array, object, nil, item, field, end, get}
use diecast.Hooks.{
  Outcome, wrote, raised, not_a_list, content, hook_events, any_ours, install_settings, install,
  uninstall_settings,
}
use diecast.Hooks.Idempotent.{install_twice}
use diecast.Hooks.Foreign.{KeepsForeign, wrote-KeepsForeign}
use diecast.Hooks.RoundTrip.{IsUnhooked, uninstall-install}

abbrev bin : Text
bin = codes "/cast-hook"

-- A hook of someone else's at one of our events, and another setting.
abbrev other_entry : Json
other_entry = object (
    field (codes "hooks")
      (array (item (object (field (codes "command") (text (codes "lint")) end)) nil)) end)

abbrev settings : Fields
settings =
    field (codes "model") (text (codes "m"))
      (field (codes "hooks") (object (field (codes "Stop") (array (item other_entry nil)) end)) end)

abbrev written_by : Outcome → Fields
written_by (wrote d installed skipped) = d
written_by _ = end

abbrev after : Fields
after = written_by (install_settings bin settings)

abbrev subs : List Text
subs = map (λ e. e.sub) hook_events

install_run : install_settings bin settings ≡ wrote after subs []
unfolding install_settings hook_events
install_run = refl

settings-IsUnhooked : IsUnhooked bin settings
unfolding get any_ours hook_events
settings-IsUnhooked = inr (
  codes "Stop",
  array (item other_entry nil),
  end,
  refl,
  (inl refl, (inr (other_entry, nil, refl, refl), (inl refl, (inl refl, (inl refl, tt))))),
)

install_twice_example : install_settings bin after ≡ wrote after [] (map (λ e. e.sub) hook_events)
install_twice_example = install_twice bin settings after subs [] install_run

uninstall_run : uninstall_settings bin after ≡ wrote settings [] (map (λ e. e.event) hook_events)
unfolding uninstall_settings install_settings hook_events
uninstall_run = refl

wrote-KeepsForeign_example : KeepsForeign bin settings after × KeepsForeign bin after settings
wrote-KeepsForeign_example =
    wrote-KeepsForeign bin settings after subs [] after settings [] (map (λ e. e.event) hook_events)
      install_run uninstall_run

uninstall-install_example :
    (removed : List Text) × (uninstall_settings bin after ≡ wrote settings [] removed)
uninstall-install_example =
    uninstall-install bin settings after subs [] settings-IsUnhooked install_run

install_not_a_list :
    install bin true (
      content
        (object (field (codes "hooks") (object (field (codes "Stop") (text (codes "x")) end)) end)))
    ≡ raised not_a_list
unfolding install hook_events
install_not_a_list = refl
