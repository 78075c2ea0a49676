-- ===== src/Startup.antt =====
-- internal/startup/registry_windows.go: the values under the Run key of the Windows registry and the
-- metadata files, each known by its path, and the operations of Manager on them. A value that does not
-- exist is none. A file is kept as the record it decodes to; it is replaced as a whole.
pub mod Rules
pub mod Recovery
pub mod Removal
pub mod History
use bigducks_live.Base.{
  Bool, true, false, not, ◌&&◌, ◌||◌, List, [], ◌∷◌, ◌++◌, Option, none, some, if◌then◌else◌, ◌==◌,
}
use bigducks_live.Base.Text.{Text, codes, text_eq, is_empty}
use bigducks_live.Errors.{Error, failure, Result, ok, err}
use bigducks_live.Effects.{M, pure, fail, ◌>>=◌, ◌>>◌, ignore, or_cleanup, act}

-- DiscordValue, StartupValue, LegacyStartupValue.
pub data ValueName : Type 0 where
  discord_value startup_value legacy_value : ValueName

pub record MetadataFile : Type 0 where
  pub original_value : Text
  pub original_present : Bool
  pub helper_path : Text

pub record Registry : Type 0 where
  pub discord : Option Text
  pub startup : Option Text
  pub legacy : Option Text
  pub metadata : List (Text × MetadataFile)

pub record Manager : Type 0 where
  pub metadata_path : Text
  pub helper : Text

pub record StartupStatus : Type 0 where
  pub installed : Bool
  pub helper_path : Text
  pub original_value : Text
  pub current_value : Text

abbrev pub value : ValueName → Registry → Option Text
value discord_value x = x.discord
value startup_value x = x.startup
value legacy_value x = x.legacy

abbrev pub with_value : ValueName → Option Text → Registry → Registry
with_value discord_value v x = record x { discord = v }
with_value startup_value v x = record x { startup = v }
with_value legacy_value v x = record x { legacy = v }

abbrev same : Registry → Registry
same x = x

unfoldable pub get_string : ValueName → M Registry (Option Text)
get_string name = act (λ x. (ok (value name x), x)) same

unfoldable pub set_string : ValueName → Text → M Registry (Unit {0})
set_string name v = act (λ x. (ok tt, with_value name (some v) x)) same

abbrev pub deleted : ValueName → Option Text → Registry → Result (Unit {0}) × Registry
deleted name none x = (err (failure "startup value not found"), x)
deleted name (some v) x = (ok tt, with_value name none x)

unfoldable pub delete_value : ValueName → M Registry (Unit {0})
delete_value name = act (λ x. deleted name (value name x) x) same

unfoldable pub find_metadata : Text → List (Text × MetadataFile) → Option MetadataFile
find_metadata path [] = none
find_metadata path ((p, stored) ∷ files) =
    let rest = find_metadata path files in if text_eq p path then some stored else rest

unfoldable pub without_metadata : Text → List (Text × MetadataFile) → List (Text × MetadataFile)
without_metadata path [] = []
without_metadata path ((p, stored) ∷ files) =
    let rest = without_metadata path files in if text_eq p path then rest else (p, stored) ∷ rest

-- The metadata file at a path.
abbrev pub metadata_at : Text → Registry → Option MetadataFile
metadata_at path x = find_metadata path x.metadata

abbrev pub with_metadata : Text → MetadataFile → Registry → Registry
with_metadata path stored x = record x {
  metadata = (path, stored) ∷ without_metadata path x.metadata;
}

unfoldable pub read_metadata : Text → M Registry (Option MetadataFile)
read_metadata path = act (λ x. (ok (metadata_at path x), x)) same

unfoldable pub write_metadata : Text → MetadataFile → M Registry (Unit {0})
write_metadata path stored = act (λ x. (ok tt, with_metadata path stored x)) same

-- A file that does not exist is not an error.
unfoldable pub remove_metadata : Text → M Registry (Unit {0})
remove_metadata path =
    act (λ x. (ok tt, record x { metadata = without_metadata path x.metadata })) same

-- strings.ReplaceAll(path, `"`, `\"`)
unfoldable pub escape_quotes : Text → Text
escape_quotes [] = []
escape_quotes (c ∷ path) =
    let rest = escape_quotes path in if c == 34 then 92 ∷ 34 ∷ rest else c ∷ rest

unfoldable pub command_for : Text → Text
command_for path = codes "\"" ++ (escape_quotes path ++ codes "\" --startup")

abbrev pub ownership_changed : Error
ownership_changed = failure "BIG DUCKS startup ownership changed"

abbrev pub stored_original : Text → Option Text → MetadataFile
stored_original helper none = record {
  original_value = [];
  original_present = false;
  helper_path = helper;
}
stored_original helper (some original) = record {
  original_value = original;
  original_present = true;
  helper_path = helper;
}

abbrev pub remove_direct : Option Text → M Registry (Unit {0})
remove_direct none = pure tt
remove_direct (some v) =
    or_cleanup (delete_value discord_value) (ignore (delete_value startup_value))

-- Install, from the write of the metadata on.
unfoldable pub take_over : Manager → MetadataFile → M Registry (Unit {0})
take_over m stored = do
  write_metadata m.metadata_path stored
  set_string startup_value (command_for m.helper)
  found ← get_string discord_value
  remove_direct found

abbrev pub take_over_again : Manager → MetadataFile → Option Text → M Registry (Unit {0})
take_over_again m stored none = take_over m stored
take_over_again m stored (some current) =
    if text_eq current (command_for m.helper) then pure tt else fail ownership_changed

abbrev pub take_over_moved : Manager → MetadataFile → Option Text → M Registry (Unit {0})
take_over_moved m stored none = fail ownership_changed
take_over_moved m stored (some current) =
    if text_eq current (command_for stored.helper_path)
    then take_over m (record stored { helper_path = m.helper })
    else fail ownership_changed

abbrev pub install_with : Manager → Option MetadataFile → Option Text → M Registry (Unit {0})
install_with m (some stored) current =
    if text_eq stored.helper_path m.helper
    then take_over_again m stored current
    else take_over_moved m stored current
install_with m none (some current) = fail ownership_changed
install_with m none none =
    get_string discord_value >>= λ original. take_over m (stored_original m.helper original)

-- Install.
unfoldable pub install : Manager → M Registry (Unit {0})
install m =
    if is_empty m.helper || is_empty m.metadata_path
    then fail (failure "startup paths are required")
    else do
      stored ← read_metadata m.metadata_path
      current ← get_string startup_value
      install_with m stored current

abbrev pub restore_discord : MetadataFile → Text → M Registry (Unit {0})
restore_discord stored current =
    if stored.original_present || not (is_empty stored.original_value)
    then or_cleanup (set_string discord_value stored.original_value)
        (ignore (set_string startup_value current))
    else pure tt

-- Uninstall, from the deletion of the value on.
unfoldable pub give_back : Manager → MetadataFile → Text → M Registry (Unit {0})
give_back m stored current = do
  delete_value startup_value
  restore_discord stored current
  remove_metadata m.metadata_path

abbrev pub uninstall_entry : Manager → MetadataFile → Option Text → M Registry (Unit {0})
uninstall_entry m stored none = fail ownership_changed
uninstall_entry m stored (some current) =
    if text_eq current (command_for m.helper)
    then give_back m stored current
    else fail ownership_changed

abbrev pub uninstall_with : Manager → Option MetadataFile → M Registry (Unit {0})
uninstall_with m none = pure tt
uninstall_with m (some stored) =
    if text_eq stored.helper_path m.helper
    then (get_string startup_value >>= uninstall_entry m stored)
    else fail ownership_changed

-- Uninstall.
unfoldable pub uninstall : Manager → M Registry (Unit {0})
uninstall m = read_metadata m.metadata_path >>= uninstall_with m

abbrev pub stored_status : Option MetadataFile → StartupStatus
stored_status none = record {
  installed = false;
  helper_path = [];
  original_value = [];
  current_value = [];
}
stored_status (some stored) = record {
  installed = false;
  helper_path = stored.helper_path;
  original_value = stored.original_value;
  current_value = [];
}

abbrev pub is_installed : Manager → Option MetadataFile → Text → Bool
is_installed m none current = false
is_installed m (some stored) current =
    text_eq stored.helper_path m.helper && text_eq current (command_for m.helper)

abbrev pub status_with : Manager → Option MetadataFile → Option Text → StartupStatus
status_with m stored none = stored_status stored
status_with m stored (some current) = record (stored_status stored) {
  installed = is_installed m stored current;
  current_value = current;
}

-- Status.
unfoldable pub startup_status : Manager → M Registry StartupStatus
startup_status m = do
  stored ← read_metadata m.metadata_path
  current ← get_string startup_value
  pure (status_with m stored current)

abbrev pub migrate_value : Option Text → M Registry (Unit {0})
migrate_value none = pure tt
migrate_value (some legacy) = do
  set_string startup_value legacy
  or_cleanup (delete_value legacy_value) (ignore (delete_value startup_value))

abbrev pub migrate_missing : Option Text → M Registry (Unit {0})
migrate_missing none = get_string legacy_value >>= migrate_value
migrate_missing (some current) = pure tt

-- MigrateLegacyStartup; what it deletes exists, since it was read.
unfoldable pub migrate_legacy_startup : M Registry (Unit {0})
migrate_legacy_startup = get_string startup_value >>= migrate_missing
