-- ===== src/Injection/Install/Whole.antt =====
-- The whole installation of internal/injection/injection_windows.go, with the backup that it makes.
use bigducks_live.Base.{
  ◌≡◌, ◌⊎◌, inl, inr, refl, sym, subst, ap, ◌∙◌, List, [], ◌∷◌, Option, none, some, Bool-cases,
}
use bigducks_live.Base.Text.{Text, text_eq, text_eq_refl, text_eq_iff}
use bigducks_live.Effects.{M, Machine, done, pure, ◌>>◌, attempt, or_cleanup, act, act_cut}
use bigducks_live.Effects.Logic.{
  Triple, Meets, pure-Triple, fail-Triple, bind-Triple, then-Triple, widen-Triple, known-Triple,
  done-Meets,
}
use bigducks_live.Injection.Disk.{
  file, InjectionRecord, app, Disk, set_entry, get_entry, find_backup, read_file, read_backup,
  make_backups, write_backup, read_records, stat, rename, remove, make_folder, write_in,
  write_records,
}
use bigducks_live.Injection.Disk.Rules.{
  read_file-Triple, make_backups-Triple, read_backup-Triple, write_backup-Triple,
  read_records-Triple,
}
use bigducks_live.Injection.Stub.{Paths}
use bigducks_live.Injection.Install.{
  InjectionResult, load_metadata, check_backup, ensure_backup, transaction, fill_stub, install,
  installed_result, records_or_empty,
}
use bigducks_live.Injection.Install.Crash.{Untouched, Integrated, Safe, transaction-Safe}

get_entry-set_entry :
    (name bytes : Text) (fs : List (Text × Text))
    → get_entry name (set_entry name bytes fs) ≡ some bytes
get_entry-set_entry name bytes [] = rw (text_eq_refl name) refl
get_entry-set_entry name bytes ((n, b) ∷ fs) = elim (Bool-cases (text_eq n name)) [
  | inl here ↦ rw here (rw (text_eq_refl name) refl)
  | inr there ↦ rw there (rw there (get_entry-set_entry name bytes fs))
]

module _ (original : Text) (paths : Paths) where
  -- Discord's own loader is in its place, and no transaction is under way.
  abbrev pub Original : Disk → Type 0
  Original d = (d.app_asar ≡ some (file original)) × (d.installing_asar ≡ none)

  abbrev path : Text
  path = paths.backup_path (paths.digest original)

  -- Where an installation may end: as it began, or with the loader safe.
  abbrev pub Kept : Disk → Type 0
  Kept d = Original d ⊎ Safe original (paths.backup_path (paths.digest original)) paths d

  Original-Kept : (x : Disk) → Original x → Kept x × Kept x
  Original-Kept x h = (inl h, inl h)

  check_backup-Triple :
      (found : Option Text)
      → Triple
          (λ x. Original x × (find_backup path x ≡ found))
          (check_backup paths path original found)
          (λ _. Untouched original path)
          Kept
          Kept
  check_backup-Triple none =
      write_backup-Triple path original
        (λ x ((there, free), e). (there, free, get_entry-set_entry path original x.backups))
        (λ x h. (inl h.0, inl h.0))
  check_backup-Triple (some found) = elim (Bool-cases (text_eq found original)) [
    | inl same ↦ rw same (
        pure-Triple tt
          λ x ((there, free), e). (there, free, e ∙ ap some ((text_eq_iff found original).0 same)))
    | inr other ↦ rw other (fail-Triple _ (λ x h. inl h.0))
  ]

  load_metadata-Triple : Triple Original load_metadata (λ _. Original) Kept Kept
  unfolding load_metadata
  load_metadata-Triple =
      bind-Triple (read_records-Triple {Q = λ _. Original} (λ x h. h) Original-Kept)
        λ stored. pure-Triple (records_or_empty stored) (λ x h. h)

  install-Triple :
      (resources : Text)
      → Triple Original
          (install paths resources)
          (λ _. Integrated original (paths.backup_path (paths.digest original)) paths)
          Kept
          Kept
  unfolding install ensure_backup
  install-Triple resources = bind-Triple load_metadata-Triple λ records.
      bind-Triple
        (read_file-Triple app {Q = λ current x. Original x × (current ≡ original)}
          (λ x (there, free). (original, there, ((there, free), refl))) Original-Kept)
        λ current.
          known-Triple (with_current records) original current (with_current-Triple records)
    where
      with_current : List InjectionRecord → Text → M Disk InjectionResult
      with_current records current = do
        make_backups
        ensure_backup paths (paths.backup_path (paths.digest current)) current
        transaction paths resources (paths.backup_path (paths.digest current))
            (paths.digest current) records
        pure installed_result

      with_current-Triple :
          (records : List InjectionRecord)
          → Triple Original
              (with_current records original)
              (λ _. Integrated original path paths)
              Kept
              Kept
      with_current-Triple records =
          then-Triple (make_backups-Triple {Q = Original} (λ x h. h) Original-Kept) (
            then-Triple
              (bind-Triple
                (read_backup-Triple path {Q = λ found x. Original x × (find_backup path x ≡ found)}
                  (λ x h. (h, refl)) Original-Kept)
                check_backup-Triple)
              (then-Triple
                (widen-Triple (λ x h. inr h) (λ x h. inr h)
                  (transaction-Safe original path paths resources (paths.digest original) records))
                (pure-Triple installed_result (λ x h. h))))

  -- What the installation that ends Ensure does with Discord's own loader, whatever actions fail and
  -- wherever the machine stops. If it succeeds, the finished stub is in place, the loader is backed up byte for byte, and nothing is
  -- left over. Otherwise the loader is where it was; or it is backed up byte for byte, and set aside
  -- under the transaction's name, with nothing in its place but files that are the stub's from their
  -- beginnings on; or it is backed up behind the finished stub.
  pub install-Kept :
      (resources : Text) (s : Machine Disk)
      → Original s.state
      → Meets
          (λ _. Integrated original (paths.backup_path (paths.digest original)) paths)
          Kept
          Kept
          (install paths resources s)
  install-Kept resources s h = (install-Triple resources).run s h

  abbrev working : Disk → Machine Disk
  working x = record { state = x; faults = [] }

  abbrev Completes : Text → Disk → Type 0
  Completes resources x = (install paths resources (working x)).0 ≡ done installed_result

  abbrev placed : Disk → Disk
  placed x = record x { app_asar = some (file original); installing_asar = none }

  placed_lem : (x : Disk) → Original x → placed x ≡ x
  placed_lem x (there, free) = sym (
      ap (λ v. record x { app_asar = v }) there
      ∙ ap (λ v. record x { app_asar = some (file original); installing_asar = v }) free)

  placed-Completes :
      (resources : Text) (x : Disk)
      → (find_backup path x ≡ none) ⊎ (find_backup path x ≡ some original)
      → Completes resources (placed x)
  unfolding install ensure_backup load_metadata read_records read_file read_backup write_backup
      transaction fill_stub make_backups stat rename make_folder write_in write_records remove act
      act_cut or_cleanup attempt text_eq
  placed-Completes resources x (inl e) = rw e refl
  placed-Completes resources x (inr e) = rw e (rw (text_eq_refl original) refl)

  -- From Discord's own loader, unless other bytes stand under the backup's name, an installation that
  -- meets no fault succeeds: the finished stub is in place, the loader is backed up byte for byte, and
  -- nothing is left over.
  pub install_succeeds :
      (resources : Text) (x : Disk)
      → Original x
      → (find_backup (paths.backup_path (paths.digest original)) x ≡ none)
        ⊎ (find_backup (paths.backup_path (paths.digest original)) x ≡ some original)
      → let r = install paths resources (record { state = x; faults = [] }) in
        (r.0 ≡ done installed_result)
        × Integrated original (paths.backup_path (paths.digest original)) paths r.1.state
  install_succeeds resources x h e =
      let completes : Completes resources x =
        subst (Completes resources) (placed_lem x h) (placed-Completes resources x e) in
      (
        completes,
        done-Meets (λ _. Integrated original path paths) Kept Kept installed_result _
            (install-Kept resources (working x) h) completes,
      )
