-- ===== src/Tests/Entries.antt =====
-- Inputs for internal/startup.
use bigducks_live.Base.{◌≡◌, inl, refl, List, [], ◌∷◌, none, some}
use bigducks_live.Base.Text.{Text, codes, text_eq}
use bigducks_live.Errors.{failure}
use bigducks_live.Effects.{Fault, works, fails, stops, done, act, or_cleanup}
use bigducks_live.Startup.{
  Registry, Manager, install, uninstall, read_metadata, get_string, migrate_legacy_startup,
  take_over, metadata_at, find_metadata, without_metadata, write_metadata, set_string, delete_value,
}
use bigducks_live.Startup.Recovery.{Recoverable}
use bigducks_live.Startup.History.{
  Operation, installs, uninstalls, migrates, after_all, after_all-Recoverable,
  uninstall_after-install, uninstall-install,
}

abbrev discord_command : Text
discord_command = codes "C:\\Discord\\Update.exe"

abbrev run_key : Registry
run_key = record { discord = some discord_command; startup = none; legacy = none; metadata = [] }

abbrev manager : Manager
manager = record { metadata_path = codes "startup.json"; helper = codes "C:\\bigducks.exe" }

-- An installation that stops before it deletes the Discord value, and an uninstallation by another
-- manager.
abbrev history : List (Operation × List Fault)
history =
    (installs manager, works ∷ works ∷ works ∷ works ∷ stops none ∷ [])
    ∷ (uninstalls (record manager { helper = codes "D:\\bigducks.exe" }), [])
    ∷ (migrates, fails (failure "access denied") none ∷ [])
    ∷ []

after_all-Recoverable_example :
    Recoverable (some discord_command) (codes "startup.json") (after_all history run_key)
unfolding find_metadata
after_all-Recoverable_example =
    after_all-Recoverable (some discord_command) (codes "startup.json") history run_key
      (refl, (refl, (tt, tt))) (inl (refl, refl))

uninstall_after-install_example :
    let y = (install manager (record { state = after_all history run_key; faults = [] })).1.state in
    let r = uninstall manager (record { state = y; faults = [] }) in
    (r.0 ≡ done tt)
    × (r.1.state.discord ≡ some discord_command)
    × (r.1.state.startup ≡ none)
    × (metadata_at (codes "startup.json") r.1.state ≡ none)
unfolding install read_metadata act get_string migrate_legacy_startup uninstall take_over
    write_metadata find_metadata without_metadata set_string text_eq or_cleanup delete_value
uninstall_after-install_example =
    uninstall_after-install manager run_key history [] (refl, (refl, (tt, tt))) refl refl

uninstall-install_example :
    let i = install manager (record { state = run_key; faults = [] }) in
    let u = uninstall manager i.1 in (i.0 ≡ done tt) × (u.0 ≡ done tt) × (u.1.state ≡ run_key)
unfolding find_metadata
uninstall-install_example = uninstall-install manager run_key refl refl refl refl
