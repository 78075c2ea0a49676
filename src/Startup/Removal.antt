-- ===== src/Startup/Removal.antt =====
-- The same for Uninstall and MigrateLegacyStartup of internal/startup/registry_windows.go.
use bigducks_live.Base.{
  ◌≡◌, ◌⊎◌, inl, inr, refl, ap, true, false, not, ◌||◌, Option, none, some, Bool-cases,
}
use bigducks_live.Base.Text.{Text, text_eq, is_empty}
use bigducks_live.Effects.Logic.{
  Triple, pure-Triple, fail-Triple, bind-Triple, then-Triple, ignore-Triple, or_cleanup-Triple,
  fact-Triple,
}
use bigducks_live.Startup.{
  discord_value, startup_value, legacy_value, MetadataFile, Registry, Manager, metadata_at,
  command_for, restore_discord, give_back, uninstall_entry, uninstall_with, uninstall,
  migrate_value, migrate_missing, migrate_legacy_startup,
}
use bigducks_live.Startup.Rules.{
  get_string-Triple, set_string-Triple, delete_value-Triple, read_metadata-Triple,
  remove_metadata-Triple, find_metadata-without,
}
use bigducks_live.Startup.Recovery.{
  Remembers, Recorded, Pristine, Recoverable, Recorded-Recoverable, recorded, pristine, text_of,
  is_present,
}

abbrev pub manager_at : Text → Text → Manager
manager_at path helper = record { metadata_path = path; helper = helper }

module _ (original : Option Text) (path : Text) where
  -- The value is back, and its record is still there.
  abbrev Returned : MetadataFile → Registry → Type 0
  Returned stored x = Recorded original path stored x × (x.discord ≡ original)

  restored_value :
      (v : Option Text) (stored : MetadataFile)
      → stored.original_value ≡ text_of v
      → stored.original_present ≡ is_present v
      → (stored.original_present || not (is_empty stored.original_value)) ≡ true
      → some stored.original_value ≡ v
  restored_value none stored e p h = cc (rw (e, p) at h)
  restored_value (some v) stored e p h = ap some e

  restore_discord-Triple :
      (stored : MetadataFile) (current : Text)
      → Remembers original path stored
      → Triple
          (Recorded original path stored)
          (restore_discord stored current)
          (λ _. Returned stored)
          (Recoverable original path)
          (Recoverable original path)
  restore_discord-Triple stored current known =
      elim (Bool-cases (stored.original_present || not (is_empty stored.original_value))) [
        | inl has ↦ rw has (
            let back = restored_value original stored known.0 known.1 has in
            or_cleanup-Triple {E = Recoverable original path}
              (set_string-Triple discord_value stored.original_value
                (λ x (there, _, _). ((there, known, inl back), back))
                (Recorded-Recoverable original path stored))
              (ignore-Triple {E = Recoverable original path} {Q = λ _. Recoverable original path}
                (set_string-Triple startup_value current (λ x h. h) (λ x h. (h, h))) (λ _ x h. h)
                (λ x h. h)))
        | inr has_not ↦ rw has_not (pure-Triple tt λ x h. (h, absent original x known has_not h.2))
      ]
    where
      absent :
          (v : Option Text) (x : Registry)
          → (stored.original_value ≡ text_of v) × (stored.original_present ≡ is_present v)
          → (stored.original_present || not (is_empty stored.original_value)) ≡ false
          → (x.discord ≡ v) ⊎ (x.discord ≡ none)
          → x.discord ≡ v
      absent none x k h (inl e) = e
      absent none x k h (inr e) = e
      absent (some v) x (e, p) h k = cc (rw p at h)

  give_back-Triple :
      (helper : Text) (stored : MetadataFile) (current : Text)
      → Remembers original path stored
      → Triple
          (Recorded original path stored)
          (give_back (manager_at path helper) stored current)
          (λ _. Pristine original path)
          (Recoverable original path)
          (Recoverable original path)
  unfolding give_back
  give_back-Triple helper stored current known =
      then-Triple
        (delete_value-Triple startup_value {Q = Recorded original path stored} (λ x h. h)
          (Recorded-Recoverable original path stored))
        (then-Triple (restore_discord-Triple stored current known) (
          remove_metadata-Triple path (λ x h. (find_metadata-without path x.metadata, h.1))
            (λ x h. Recorded-Recoverable original path stored x h.0)))

  uninstall_entry-Triple :
      (helper : Text) (stored : MetadataFile) (current : Option Text)
      → Triple
          (Recorded original path stored)
          (uninstall_entry (manager_at path helper) stored current)
          (λ _. Pristine original path)
          (Recoverable original path)
          (Recoverable original path)
  uninstall_entry-Triple helper stored none = fail-Triple _ (λ x h. inr (stored, h))
  uninstall_entry-Triple helper stored (some current) =
      elim (Bool-cases (text_eq current (command_for helper))) [
        | inl ours ↦
            rw ours (fact-Triple (λ x h. h.1) λ known. give_back-Triple helper stored current known)
        | inr other ↦ rw other (fail-Triple _ (λ x h. inr (stored, h)))
      ]

  uninstall_with-Triple :
      (helper : Text) (stored : Option MetadataFile)
      → Triple
          (λ x. Recoverable original path x × (metadata_at path x ≡ stored))
          (uninstall_with (manager_at path helper) stored)
          (λ _. Pristine original path)
          (Recoverable original path)
          (Recoverable original path)
  uninstall_with-Triple helper none = pure-Triple tt (λ x (h, e). (e, pristine original path x h e))
  uninstall_with-Triple helper (some stored) =
      elim (Bool-cases (text_eq stored.helper_path helper)) [
        | inl ours ↦ rw ours (
            bind-Triple
              (get_string-Triple startup_value {Q = λ _. Recorded original path stored}
                (λ x (h, e). recorded original path stored x h e) (λ x h. (h.0, h.0)))
              (uninstall_entry-Triple helper stored))
        | inr other ↦ rw other (fail-Triple _ (λ x h. h.0))
      ]

  pub uninstall-Triple :
      (helper : Text)
      → Triple
          (Recoverable original path)
          (uninstall (manager_at path helper))
          (λ _. Pristine original path)
          (Recoverable original path)
          (Recoverable original path)
  unfolding uninstall
  uninstall-Triple helper =
      bind-Triple
        (read_metadata-Triple path
          {Q = λ stored x. Recoverable original path x × (metadata_at path x ≡ stored)}
          (λ x h. (h, refl)) (λ x h. (h, h)))
        (uninstall_with-Triple helper)

  migrate_value-Triple :
      (found : Option Text)
      → Triple
          (Recoverable original path)
          (migrate_value found)
          (λ _. Recoverable original path)
          (Recoverable original path)
          (Recoverable original path)
  migrate_value-Triple none = pure-Triple tt (λ x h. h)
  migrate_value-Triple (some v) =
      then-Triple
        (set_string-Triple startup_value v {Q = Recoverable original path} (λ x h. h)
          (λ x h. (h, h)))
        (or_cleanup-Triple {E = Recoverable original path}
          (delete_value-Triple legacy_value (λ x h. h) (λ x h. (h, h)))
          (ignore-Triple {E = Recoverable original path} {Q = λ _. Recoverable original path}
            (delete_value-Triple startup_value (λ x h. h) (λ x h. (h, h))) (λ _ x h. h) (λ x h. h)))

  pub migrate_legacy_startup-Triple :
      Triple
        (Recoverable original path)
        migrate_legacy_startup
        (λ _. Recoverable original path)
        (Recoverable original path)
        (Recoverable original path)
  unfolding migrate_legacy_startup
  migrate_legacy_startup-Triple =
      bind-Triple
        (get_string-Triple startup_value {Q = λ _. Recoverable original path} (λ x h. h)
          (λ x h. (h, h)))
        migrate_missing-Triple
    where
      migrate_missing-Triple :
          (found : Option Text)
          → Triple
              (Recoverable original path)
              (migrate_missing found)
              (λ _. Recoverable original path)
              (Recoverable original path)
              (Recoverable original path)
      migrate_missing-Triple (some v) = pure-Triple tt (λ x h. h)
      migrate_missing-Triple none =
          bind-Triple
            (get_string-Triple legacy_value {Q = λ _. Recoverable original path} (λ x h. h)
              (λ x h. (h, h)))
            migrate_value-Triple
