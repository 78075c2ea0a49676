-- ===== src/Injection/Install.antt =====
-- internal/injection/injection_windows.go: Inspect, the repair of records, the recovery of an
-- interrupted transaction, the transaction and Ensure. The texts with which errors are wrapped are
-- left out.
pub mod Crash
pub mod Recovery
pub mod Ending
pub mod Whole
use bigducks_live.Base.{
  ℕ, Bool, true, false, not, ◌&&◌, ◌||◌, List, [], ◌∷◌, ◌++◌, Option, none, some, if◌then◌else◌,
}
use bigducks_live.Base.Text.{Text, codes, text_eq, equal_fold}
use bigducks_live.Errors.{Error, failure, Result, ok, err}
use bigducks_live.Effects.{M, pure, fail, ◌>>=◌, ◌>>◌, attempt, ignore, or_cleanup}
use bigducks_live.Injection.Disk.{
  Node, file, folder, InjectionRecord, Place, app, installing, partial, restoring, removed_stub,
  Disk, get_entry, stat, rename, remove, remove_all, make_folder, write_in, replace_in, write_file,
  read_file, read_in, make_backups, read_backup, write_backup, read_records, write_records,
  write_bridge, has_original,
}
use bigducks_live.Injection.Stub.{
  Paths, stub_package_json, recoverable_entries, build_stub_index, owned_stub_backup, is_marked,
  backup_path_from_stub,
}
use bigducks_live.Injection.Asar.{Libraries, recognized_loader, official_discord_asar}

pub data InjectionState : Type 0 where
  vanilla recognized_mod ours unknown_mod unavailable : InjectionState

pub record InjectionResult : Type 0 where
  pub state : InjectionState
  pub installed : Bool
  pub repair_required : Bool

abbrev pub result_of : InjectionState → InjectionResult
result_of state = record { state = state; installed = false; repair_required = false }

abbrev pub exists : Option Node → Bool
exists none = false
exists (some n) = true

abbrev pub records_or_empty : Option (List InjectionRecord) → List InjectionRecord
records_or_empty none = []
records_or_empty (some records) = records

-- loadMetadata: a file that does not exist holds no records.
unfoldable pub load_metadata : M Disk (List InjectionRecord)
load_metadata = read_records >>= λ stored. pure (records_or_empty stored)

module _ (paths : Paths) where
  abbrev pub same_resources : Text → Text → Bool
  same_resources a b = equal_fold (paths.clean a) (paths.clean b)

  unfoldable pub replace_record : List InjectionRecord → InjectionRecord → List InjectionRecord
  replace_record [] replacement = replacement ∷ []
  replace_record (r ∷ records) replacement =
      let rest = replace_record records replacement in
      if same_resources r.resources replacement.resources then rest else r ∷ rest

  unfoldable pub listed : Text → List InjectionRecord → Bool
  listed resources [] = false
  listed resources (r ∷ records) = same_resources r.resources resources || listed resources records

  unfoldable pub has_record : Text → M Disk Bool
  has_record resources = load_metadata >>= λ records. pure (listed resources records)

  -- validStubPackage, of what the read of package.json gave.
  abbrev pub valid_package : Result Text → Bool
  valid_package (ok bytes) = text_eq bytes stub_package_json
  valid_package (err e) = false

  -- The folder is a stub of ours, with the text of its index and the path of its backup.
  abbrev pub inspected_stub : Text → Text → Bool → Result Text → InjectionResult
  inspected_stub index backup recorded package_text = record {
    state = ours;
    installed = true;
    repair_required =
        not recorded
        || not (valid_package package_text)
        || not (text_eq index (build_stub_index paths backup));
  }

  abbrev pub owned_folder : Text → Text → Option Text → M Disk InjectionResult
  owned_folder resources index none = pure (result_of unknown_mod)
  owned_folder resources index (some backup) = do
    recorded ← has_record resources
    package_text ← attempt (read_in app (codes "package.json"))
    pure (inspected_stub index backup recorded package_text)

  abbrev pub inspect_index : Text → Result Text → M Disk InjectionResult
  inspect_index resources (err e) = pure (result_of unknown_mod)
  inspect_index resources (ok index) = owned_folder resources index (owned_stub_backup paths index)

  abbrev pub inspect_archive : Libraries → Text → Bool → InjectionResult
  inspect_archive lib current original =
      if original
      then result_of unknown_mod
      else if official_discord_asar lib current
      then result_of vanilla
      else result_of unknown_mod

  abbrev pub inspect_file : Libraries → Text → M Disk InjectionResult
  inspect_file lib current =
      if recognized_loader lib current
      then pure (result_of recognized_mod)
      else (has_original >>= λ original. pure (inspect_archive lib current original))

  abbrev pub inspect_node : Libraries → Text → Option Node → M Disk InjectionResult
  inspect_node lib resources none =
      pure (record { state = unavailable; installed = false; repair_required = true })
  inspect_node lib resources (some (folder fs)) =
      attempt (read_in app (codes "index.js")) >>= inspect_index resources
  inspect_node lib resources (some (file bytes)) = read_file app >>= inspect_file lib

  -- Inspect of a resources folder that exists.
  unfoldable pub inspect : Libraries → Text → M Disk InjectionResult
  inspect lib resources = stat app >>= inspect_node lib resources

  -- repairRecord, from the digest of the backup on.
  abbrev pub repair_with : Text → Text → Option Text → M Disk (Unit {0})
  repair_with resources path none = fail (failure "read injected Discord backup")
  repair_with resources path (some backup) =
      if not (equal_fold (paths.base path) (paths.digest backup ++ codes ".asar"))
      then fail (failure "injected Discord backup filename does not match its checksum")
      else (load_metadata >>= λ records. write_records (
          replace_record records
            (record { resources = resources; backup = path; sha256 = paths.digest backup })))

  abbrev pub repair_owned : Text → Option Text → M Disk (Unit {0})
  repair_owned resources none = fail (failure "Discord loader is not owned by BIG DUCKS")
  repair_owned resources (some path) = read_backup path >>= repair_with resources path

  unfoldable pub repair_record : Text → M Disk (Unit {0})
  repair_record resources = read_in app (codes "index.js") >>= λ index.
      repair_owned resources (owned_stub_backup paths index)

  abbrev pub rewrite_owned : Option Text → M Disk (Unit {0})
  rewrite_owned none = fail (failure "BIG DUCKS loader backup cannot be validated")
  rewrite_owned (some path) = do
    replace_in app (codes "package.json") stub_package_json
    replace_in app (codes "index.js") (build_stub_index paths path)

  unfoldable pub rewrite_stub : M Disk (Unit {0})
  rewrite_stub =
      read_in app (codes "index.js") >>= λ index. rewrite_owned (owned_stub_backup paths index)

  abbrev pub check_backup : Text → Text → Option Text → M Disk (Unit {0})
  check_backup path expected none = write_backup path expected
  check_backup path expected (some found) =
      if text_eq found expected
      then pure tt
      else fail (failure "an injection backup has an unexpected checksum")

  unfoldable pub ensure_backup : Text → Text → M Disk (Unit {0})
  ensure_backup path expected = read_backup path >>= check_backup path expected

-- The moves of recoverInterruptedInstall where a stub stands at `app`.
unfoldable pub set_stub_aside : M Disk (Unit {0})
set_stub_aside = do
  rename app partial
  or_cleanup (rename installing app) (ignore (rename partial app))
  ignore (remove_all partial)

abbrev pub stub_aside : Option Node → M Disk (Unit {0})
stub_aside none = set_stub_aside
stub_aside (some n) =
    fail (failure "a previous partial BIG DUCKS integration recovery is still present")

abbrev pub recover_app : Option Node → M Disk (Unit {0})
recover_app none = rename installing app
recover_app (some (file bytes)) =
    fail (failure "an ambiguous BIG DUCKS integration transaction needs manual repair")
recover_app (some (folder fs)) =
    if recoverable_entries fs
    then stat partial >>= stub_aside
    else fail (failure "an ambiguous BIG DUCKS integration transaction needs manual repair")

abbrev pub recover_from : Option Node → M Disk (Unit {0})
recover_from none = pure tt
recover_from (some n) = stat app >>= recover_app

unfoldable pub recover_interrupted_install : M Disk (Unit {0})
recover_interrupted_install = stat installing >>= recover_from

-- The rollback of Ensure, before and after the stub's folder was created.
unfoldable pub rollback : Bool → M Disk (Unit {0})
rollback stub_created =
    if stub_created
    then (do ignore (remove_all app); ignore (rename installing app))
    else ignore (rename installing app)

abbrev pub not_present : Option Node → M Disk (Unit {0})
not_present none = pure tt
not_present (some n) =
    fail (failure "a previous BIG DUCKS integration transaction is still present")

abbrev pub installed_result : InjectionResult
installed_result = record { state = ours; installed = true; repair_required = false }

module _ (paths : Paths) where
  -- What the transaction does behind its rollback, with the stub's folder in place.
  unfoldable pub fill_stub : Text → Text → Text → List InjectionRecord → M Disk (Unit {0})
  fill_stub resources path digest records = do
    write_in app (codes "package.json") stub_package_json
    write_in app (codes "index.js") (build_stub_index paths path)
    write_records (
        replace_record paths records
          (record { resources = resources; backup = path; sha256 = digest }))

  -- The transaction of Ensure, from the check of the temporary name on.
  unfoldable pub transaction : Text → Text → Text → List InjectionRecord → M Disk (Unit {0})
  transaction resources path digest records = do
    found ← stat installing
    not_present found
    rename app installing
    or_cleanup (make_folder app) (rollback false)
    or_cleanup (fill_stub resources path digest records) (rollback true)
    remove installing

  unfoldable pub install : Text → M Disk InjectionResult
  install resources = do
    records ← load_metadata
    current ← read_file app
    make_backups
    ensure_backup paths (paths.backup_path (paths.digest current)) current
    transaction resources (paths.backup_path (paths.digest current)) (paths.digest current) records
    pure installed_result

  abbrev pub repaired : Text → Bool → M Disk (Unit {0})
  repaired resources false = pure tt
  repaired resources true = do repair_record paths resources; rewrite_stub paths

  abbrev pub ensure_state : Text → Text → InjectionResult → M Disk InjectionResult
  ensure_state resources script r = elim r.state [
    | unknown_mod ↦ pure r
    | unavailable ↦ pure r
    | ours ↦ do write_bridge script; repaired resources r.repair_required; pure installed_result
    | vanilla ↦ do write_bridge script; install resources
    | recognized_mod ↦ do write_bridge script; install resources
  ]

  -- Ensure of folders that exist.
  unfoldable pub ensure : Libraries → Text → Text → M Disk InjectionResult
  ensure lib resources script = do
    recover_interrupted_install
    r ← inspect paths lib resources
    ensure_state resources script r

abbrev pub has_path : Option Text → Bool
has_path none = false
has_path (some path) = true

abbrev pub stub_index : Paths → Result Text → Bool
stub_index paths (err e) = false
stub_index paths (ok index) = is_marked paths index && has_path (backup_path_from_stub paths index)

-- isOurStub, of what os.Stat gave.
unfoldable pub is_our_stub : Paths → Result (Option Node) → M Disk Bool
is_our_stub paths (err e) = pure false
is_our_stub paths (ok none) = pure false
is_our_stub paths (ok (some (file bytes))) = pure false
is_our_stub paths (ok (some (folder fs))) =
    attempt (read_in app (codes "index.js")) >>= λ index. pure (stub_index paths index)

-- restoreRecord, where a stub of ours stands at `app`.
unfoldable pub swap_back : Text → M Disk (Unit {0})
swap_back backup = do
  write_file restoring backup
  or_cleanup (rename app removed_stub) (ignore (remove restoring))
  or_cleanup (rename restoring app) (do ignore (rename removed_stub app); ignore (remove restoring))
  ignore (remove_all removed_stub)

abbrev pub restore_stub : Text → Bool → M Disk (Unit {0})
restore_stub backup true = swap_back backup
restore_stub backup false = fail (failure "refusing to remove an unrecognized Discord loader")

module _ (paths : Paths) where
  abbrev pub restore_over : InjectionRecord → Text → Result Text → M Disk (Unit {0})
  restore_over r backup (ok current) =
      if text_eq (paths.digest current) r.sha256
      then pure tt
      else fail (failure "refusing to overwrite a newer Discord loader")
  restore_over r backup (err e) = do
    node ← attempt (stat app)
    is_ours ← is_our_stub paths node
    restore_stub backup is_ours

  abbrev pub restore_with : InjectionRecord → Option Text → M Disk (Unit {0})
  restore_with r none = fail (failure "read Discord loader backup")
  restore_with r (some backup) =
      if not (text_eq (paths.digest backup) r.sha256)
      then fail (failure "Discord loader backup checksum mismatch")
      else (attempt (read_file app) >>= restore_over r backup)

  -- restoreRecord of a record whose resources folder exists.
  unfoldable pub restore_record : InjectionRecord → M Disk (Unit {0})
  restore_record r = read_backup r.backup >>= restore_with r
