-- ===== src/Injection/Stub.antt =====
-- internal/injection: the texts of the stub that takes the place of app.asar, and how it is
-- recognized. Paths are Windows paths; JSON and package filepath are parameters.
use bigducks_live.Base.{
  Bool, true, false, not, ◌&&◌, ◌||◌, List, [], ◌∷◌, ◌++◌, reverse, Option, none, some,
  if◌then◌else◌,
}
use bigducks_live.Base.Text.{
  Text, codes, text_eq, trim_space, has_prefix, has_suffix, trim_prefix, trim_suffix,
}
use bigducks_live.Update.Version.{split_at_byte}

abbrev pub marker : Text
marker = codes "discordstream-electron-bridge-v2"

abbrev pub legacy_marker : Text
legacy_marker = codes "discordstream-electron-bridge-v1"

-- The paths of the data directory, and what the code takes from libraries: encoding/json and
-- package filepath. `relative` is filepath.Rel to the folder of backups.
pub record Paths : Type 0 where
  pub bridge_path : Text
  pub backup_path : Text → Text
  pub quote : Text → Text
  pub unquote : Text → Option Text
  pub is_absolute : Text → Bool
  pub clean : Text → Text
  pub relative : Text → Option Text
  pub base : Text → Text
  pub digest : Text → Text

abbrev pub stub_package_json : Text
stub_package_json = codes "{\"name\":\"discord\",\"main\":\"index.js\",\"version\":\"1.0.0\"}"

unfoldable pub contains_text : Text → Text → Bool
contains_text [] part = has_prefix [] part
contains_text (c ∷ s) part = has_prefix (c ∷ s) part || contains_text s part

-- `// discordstream-electron-bridge-v`
abbrev pub index_prefix : Text
index_prefix = codes "// discordstream-electron-bridge-v"

-- An entry that the code may have left behind: one of the two files, empty or with its text.
abbrev pub recoverable_entry : Text → Text → Bool
recoverable_entry name [] = text_eq name (codes "package.json") || text_eq name (codes "index.js")
recoverable_entry name (c ∷ bytes) =
    (text_eq name (codes "package.json") && text_eq (c ∷ bytes) stub_package_json)
    || (text_eq name (codes "index.js") && has_prefix (c ∷ bytes) index_prefix)

unfoldable pub recoverable_entries : List (Text × Text) → Bool
recoverable_entries [] = true
recoverable_entries ((name, bytes) ∷ fs) = recoverable_entry name bytes && recoverable_entries fs

-- `relative == ".." || strings.HasPrefix(relative, "..\\") || filepath.IsAbs(relative)`, negated.
abbrev pub inside_backups : Paths → Option Text → Bool
inside_backups paths none = false
inside_backups paths (some r) =
    not (text_eq r (codes "..") || has_prefix r (codes "..\\") || paths.is_absolute r)

module _ (paths : Paths) where
  unfoldable pub build_stub_index : Text → Text
  build_stub_index backup =
      codes "// "
      ++ (marker
          ++ (codes "\ntry {\n  require("
              ++ (paths.quote paths.bridge_path
                  ++ (codes
                        ");\n} catch (error) {\n  // The original Discord loader must remain usable if the optional bridge fails.\n}\nrequire("
                      ++ (paths.quote backup ++ codes ");\n")))))

  abbrev pub absolute_path : Option Text → Option Text
  absolute_path none = none
  absolute_path (some path) = if paths.is_absolute path then some path else none

  -- The path that a line requires.
  unfoldable pub required_path : Text → Option Text
  required_path text =
      let line = trim_space text in
      if not (has_prefix line (codes "require(")) || not (has_suffix line (codes ");"))
      then none
      else absolute_path
          (paths.unquote (trim_suffix (trim_prefix line (codes "require(")) (codes ");")))

  abbrev pub or_else : Option Text → Option Text → Option Text
  or_else none rest = rest
  or_else (some path) rest = some path

  -- The lines from the last one up.
  unfoldable pub first_required : List Text → Option Text
  first_required [] = none
  first_required (line ∷ lines) = or_else (required_path line) (first_required lines)

  unfoldable pub backup_path_from_stub : Text → Option Text
  backup_path_from_stub index = first_required (reverse (split_at_byte 10 index))

  unfoldable pub is_marked : Text → Bool
  is_marked index = contains_text index marker || contains_text index legacy_marker

  abbrev pub inside_only : Option Text → Option Text
  inside_only none = none
  inside_only (some path) =
      if inside_backups paths (paths.relative (paths.clean path))
      then some (paths.clean path)
      else none

  unfoldable pub owned_stub_backup : Text → Option Text
  owned_stub_backup index =
      if is_marked index then inside_only (backup_path_from_stub index) else none
