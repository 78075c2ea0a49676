-- ===== src/Startup/History.antt =====
-- Histories of internal/startup/registry_windows.go: installations, uninstallations and migrations by
-- any managers, each with faults of its own; and what a last uninstallation gives back.
use bigducks_live.Base.{
  ◌≡◌, refl, sym, subst, ap, All, false, not, ◌||◌, Bool-cases, inl, inr, List, [], ◌∷◌, Option,
  none, some,
}
use bigducks_live.Base.Text.{Text, text_eq_refl, is_empty}
use bigducks_live.Effects.{
  Fault, Machine, M, Outcome, done, failed, stopped, or_cleanup, act, attempt,
}
use bigducks_live.Effects.Logic.{Meets, done-Meets}
use bigducks_live.Startup.{
  MetadataFile, Registry, Manager, get_string, set_string, delete_value, read_metadata,
  write_metadata, remove_metadata, metadata_at, command_for, install, give_back, uninstall,
  migrate_legacy_startup, take_over,
}
use bigducks_live.Startup.Rules.{
  find_metadata-written, without_metadata-written, without_metadata-absent,
}
use bigducks_live.Startup.Recovery.{Pristine, Recoverable, Installed, install-Triple}
use bigducks_live.Startup.Removal.{manager_at, uninstall-Triple, migrate_legacy_startup-Triple}

pub data Operation : Type 0 where
  installs uninstalls : Manager → Operation
  migrates : Operation

abbrev pub perform : Operation → M Registry (Unit {0})
perform (installs m) = install m
perform (uninstalls m) = uninstall m
perform migrates = migrate_legacy_startup

-- The registry after operations, each with the faults it meets.
abbrev pub after_all : List (Operation × List Fault) → Registry → Registry
after_all [] x = x
after_all ((op, faults) ∷ ops) x =
    after_all ops (perform op (record { state = x; faults = faults })).1.state

-- The managers keep their metadata at one path.
abbrev pub Uses : Text → Operation → Type 0
Uses path (installs m) = m.metadata_path ≡ path
Uses path (uninstalls m) = m.metadata_path ≡ path
Uses path migrates = Unit

module _ (original : Option Text) (path : Text) where
  ended-Recoverable :
      {Q : Unit {0} → Registry → Type 0} (r : Outcome (Unit {0}) × Machine Registry)
      → ((a : Unit {0}) (x : Registry) → Q a x → Recoverable original path x)
      → Meets Q (Recoverable original path) (Recoverable original path) r
      → Recoverable original path r.1.state
  ended-Recoverable (done a, s) keep h = keep a s.state h
  ended-Recoverable (failed e, s) keep h = h
  ended-Recoverable (stopped, s) keep h = h

  abbrev Keeps : Operation → Type 0
  Keeps op =
      (s : Machine Registry)
      → Recoverable original path s.state
      → Recoverable original path (perform op s).1.state

  install-Keeps : (helper : Text) → Keeps (installs (manager_at path helper))
  install-Keeps helper s h =
      ended-Recoverable {Q = λ _. Installed original path (manager_at path helper)} _
        (λ _ x (stored, kept, _, _). inr (stored, kept))
        ((install-Triple original path helper).run s h)

  uninstall-Keeps : (helper : Text) → Keeps (uninstalls (manager_at path helper))
  uninstall-Keeps helper s h =
      ended-Recoverable _ (λ _ x p. inl p) ((uninstall-Triple original path helper).run s h)

  perform-Recoverable : (op : Operation) → Uses path op → Keeps op
  perform-Recoverable (installs m) e =
      subst (λ p. Keeps (installs (manager_at p m.helper))) (sym e) (install-Keeps m.helper)
  perform-Recoverable (uninstalls m) e =
      subst (λ p. Keeps (uninstalls (manager_at p m.helper))) (sym e) (uninstall-Keeps m.helper)
  perform-Recoverable migrates e = λ s h.
      ended-Recoverable _ (λ _ x p. p) ((migrate_legacy_startup-Triple original path).run s h)

  -- Whatever installations, uninstallations and migrations run, by managers of any helpers that keep
  -- their metadata at one path, with whatever faults, even if the machine stops in each: Discord's own
  -- startup value stands in its place, or the metadata records it (and that it was there), and then no
  -- other value stands in its place.
  pub after_all-Recoverable :
      (ops : List (Operation × List Fault)) (x : Registry)
      → All (λ op. Uses path op.0) ops
      → Recoverable original path x
      → Recoverable original path (after_all ops x)
  after_all-Recoverable [] x u h = h
  after_all-Recoverable ((op, faults) ∷ ops) x u h =
      after_all-Recoverable ops _ u.1
        (perform-Recoverable op u.0 (record { state = x; faults = faults }) h)

abbrev quiet : Registry → Machine Registry
quiet x = record { state = x; faults = [] }

module _ (m : Manager) where
  abbrev path : Text
  path = m.metadata_path

  abbrev Removes : Registry → Type 0
  Removes x =
      ((uninstall m (quiet x)).0 ≡ done tt) × ((uninstall m (quiet x)).1.state.startup ≡ none)

  placed-Removes :
      (stored : MetadataFile) (x : Registry)
      → metadata_at path x ≡ some stored
      → stored.helper_path ≡ m.helper
      → Removes (record x { startup = some (command_for m.helper) })
  unfolding uninstall give_back read_metadata get_string set_string delete_value remove_metadata act
      or_cleanup attempt
  placed-Removes stored x there e = rw there (
      rw (e, text_eq_refl m.helper)
        (rw (text_eq_refl (command_for m.helper))
          (elim (Bool-cases (stored.original_present || not (is_empty stored.original_value))) [
            | inl has ↦ rw has (refl, refl)
            | inr has_not ↦ rw has_not (refl, refl)
          ])))

  Installed-Removes :
      (original : Option Text) (x : Registry) → Installed original path m x → Removes x
  Installed-Removes original x (stored, (there, _, _), same, entry) =
      subst Removes (sym (ap (λ v. record x { startup = v }) entry))
        (placed-Removes stored x there same)

  -- After any history from a registry and a metadata path without an entry of ours, by managers of any
  -- helpers with that metadata path: once an installation has succeeded, an uninstallation by the same
  -- manager that meets no fault succeeds. Discord's startup value is what it was at first, and neither
  -- the entry nor the metadata is left.
  pub uninstall_after-install :
      (x : Registry) (ops : List (Operation × List Fault)) (faults : List Fault)
      → All (λ op. Uses m.metadata_path op.0) ops
      → metadata_at m.metadata_path x ≡ none
      → (install m (record { state = after_all ops x; faults = faults })).0 ≡ done tt
      → let y = (install m (record { state = after_all ops x; faults = faults })).1.state in
        let r = uninstall m (record { state = y; faults = [] }) in
        (r.0 ≡ done tt)
        × (r.1.state.discord ≡ x.discord)
        × (r.1.state.startup ≡ none)
        × (metadata_at m.metadata_path r.1.state ≡ none)
  uninstall_after-install x ops faults uses free worked =
      let s : Machine Registry = record { state = after_all ops x; faults = faults } in
      let before = after_all-Recoverable x.discord path ops x uses (inl (free, refl)) in
      let there : Installed x.discord path m (install m s).1.state =
        done-Meets (λ _. Installed x.discord path m) (Recoverable x.discord path)
          (Recoverable x.discord path) tt (install m s)
          ((install-Triple x.discord path m.helper).run s before) worked in
      let (gone, entry) = Installed-Removes x.discord _ there in
      let (stored, kept, _, _) = there in
      let back : Pristine x.discord path (uninstall m (quiet (install m s).1.state)).1.state =
        done-Meets (λ _. Pristine x.discord path) (Recoverable x.discord path)
          (Recoverable x.discord path) tt _
          ((uninstall-Triple x.discord path m.helper).run _ (inr (stored, kept))) gone in
      (gone, back.1, entry, back.0)

  abbrev RoundTrip : Registry → Type 0
  RoundTrip x =
      ((install m (quiet x)).0 ≡ done tt)
      × ((uninstall m (install m (quiet x)).1).0 ≡ done tt)
      × ((uninstall m (install m (quiet x)).1).1.state ≡ x)

  placed-RoundTrip :
      (discord : Option Text) (x : Registry)
      → (is_empty m.helper || is_empty m.metadata_path) ≡ false
      → metadata_at path x ≡ none
      → RoundTrip (record x { discord = discord; startup = none })
  unfolding install take_over uninstall give_back read_metadata write_metadata get_string set_string
      delete_value remove_metadata act or_cleanup attempt
  placed-RoundTrip none x given free =
      let kept = without_metadata-absent path x.metadata free in
      rw given (
        rw free (
          rw (find_metadata-written, text_eq_refl m.helper)
            (rw (text_eq_refl (command_for m.helper))
              (refl, refl, rw (without_metadata-written, kept) (rw kept refl)))))
  placed-RoundTrip (some v) x given free =
      let kept = without_metadata-absent path x.metadata free in
      rw given (
        rw free (
          rw (find_metadata-written, text_eq_refl m.helper)
            (rw (text_eq_refl (command_for m.helper))
              (refl, refl, rw (without_metadata-written, kept) (rw kept refl)))))

  -- Install and then Uninstall, with no fault, for a helper and a metadata path that are not empty and
  -- a registry without an entry of ours: both succeed, and the registry is exactly what it was.
  pub uninstall-install :
      (x : Registry)
      → is_empty m.helper ≡ false
      → is_empty m.metadata_path ≡ false
      → x.startup ≡ none
      → metadata_at m.metadata_path x ≡ none
      → let i = install m (record { state = x; faults = [] }) in
        let u = uninstall m i.1 in (i.0 ≡ done tt) × (u.0 ≡ done tt) × (u.1.state ≡ x)
  uninstall-install x helper given entry free =
      subst RoundTrip (sym (ap (λ v. record x { startup = v }) entry))
        (placed-RoundTrip x.discord x (rw (helper, given) refl) free)
