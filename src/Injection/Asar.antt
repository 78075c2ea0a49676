-- ===== src/Injection/Asar.antt =====
-- internal/injection/injection_windows.go: the header of an asar archive and the files in it, and
-- what a loader is recognized by. JSON, the regular expression and the path functions are parameters.
pub mod Bounds
use bigducks_live.Base.{
  ℕ, zero, suc, ◌+◌, ◌-◌, ◌*◌, ◌^◌, Bool, true, false, not, ◌&&◌, ◌||◌, List, [], ◌∷◌, ◌++◌, Option,
  none, some, length, take, drop, ltb, leb, ◌==◌, if◌then◌else◌,
}
use bigducks_live.Base.Int.{ℤ, pos, negsuc}
use bigducks_live.Base.Text.{Text, codes, text_eq, to_lower, has_suffix}

-- asarEntry: a folder has files, a file has none.
pub record AsarEntry : Type 0 where
  pub size : ℤ
  pub offset : Text
  pub is_folder : Bool

-- asarHeader, if its files are not nil.
pub record AsarHeader : Type 0 where
  pub files : List (Text × AsarEntry)

pub record PackageValue : Type 0 where
  pub name : Text
  pub main : Text

-- What the code takes from libraries: encoding/json, requireOnlyPattern, package filepath, and
-- strconv.ParseInt.
pub record Libraries : Type 0 where
  pub parse_header : Text → Option AsarHeader
  pub parse_package : Text → Option PackageValue
  pub parse_string : Text → Option Text
  pub require_only : Text → Option Text
  pub is_absolute : Text → Bool
  pub clean : Text → Text
  pub parse_int : Text → Option ℤ

-- binary.LittleEndian.Uint32 of the bytes at an offset.
abbrev pub uint32_of : List ℕ → ℕ
uint32_of (a ∷ b ∷ c ∷ d ∷ rest) = a + b * 256 + c * 65536 + d * 16777216
uint32_of short = 0

abbrev pub uint32_at : ℕ → Text → ℕ
uint32_at n bytes = uint32_of (drop n bytes)

abbrev pub slice : ℕ → ℕ → Text → Text
slice start end bytes = take (end - start) (drop start bytes)

-- The guard of the lengths in the header.
abbrev pub bad_lengths : ℕ → ℕ → ℕ → Bool
bad_lengths limit header_length content =
    ltb header_length 2
    || ltb (limit - 16) header_length
    || ltb content (16 + header_length)
    || ltb limit content

abbrev pub with_offset : ℕ → Option AsarHeader → Option (AsarHeader × ℕ)
with_offset offset none = none
with_offset offset (some h) = some (h, offset)

abbrev pub find_entry : Text → List (Text × AsarEntry) → Option AsarEntry
find_entry name [] = none
find_entry name ((n, e) ∷ files) =
    let rest = find_entry name files in if text_eq n name then some e else rest

-- `entry.Size` and `offset` that are not negative and at most the length of the archive.
abbrev pub within : ℕ → ℤ → Option ℕ
within limit (pos n) = if ltb limit n then none else some n
within limit (negsuc n) = none

abbrev pub within_some : ℕ → Option ℤ → Option ℕ
within_some limit none = none
within_some limit (some v) = within limit v

-- The bytes from `start` on, if they end in the archive. In 64 bits none of the sums overflows:
-- each summand is at most the length of the archive.
abbrev pub cut : ℕ → Option ℕ → Option ℕ → Text → Option Text
cut content (some offset) (some size) bytes =
    let start = content + offset in
    if ltb (length bytes) (start + size) then none else some (slice start (start + size) bytes)
cut content (some offset) none bytes = none
cut content none size bytes = none

module _ (lib : Libraries) where
  unfoldable pub parse_asar_header : Text → Option (AsarHeader × ℕ)
  parse_asar_header bytes =
      if ltb (length bytes) 16 || not (uint32_at 0 bytes == 4)
      then none
      else (let header_length = uint32_at 12 bytes in
          let content = 8 + uint32_at 4 bytes in
          if bad_lengths (length bytes) header_length content
          then none
          else with_offset content (lib.parse_header (slice 16 (16 + header_length) bytes)))

  unfoldable pub entry_bytes : Text → ℕ → Option AsarEntry → Option Text
  entry_bytes bytes content none = none
  entry_bytes bytes content (some entry) =
      if entry.is_folder
      then none
      else cut content (within_some (length bytes) (lib.parse_int entry.offset))
          (within (length bytes) entry.size) bytes

  abbrev pub file_of : Text → Text → Option (AsarHeader × ℕ) → Option Text
  file_of bytes name none = none
  file_of bytes name (some (header, content)) =
      entry_bytes bytes content (find_entry name header.files)

  unfoldable pub asar_file : Text → Text → Option Text
  asar_file bytes name = file_of bytes name (parse_asar_header bytes)

  abbrev pub all_found : List Text → List (Text × AsarEntry) → Bool
  all_found [] files = true
  all_found (name ∷ names) files = is_found (find_entry name files) && all_found names files
    where
      is_found : Option AsarEntry → Bool
      is_found none = false
      is_found (some e) = true

  abbrev pub official_header : Option (AsarHeader × ℕ) → Bool
  official_header none = false
  official_header (some (header, content)) =
      all_found
        (codes "bundle.js"
          ∷ codes "package.json"
          ∷ codes "splash"
          ∷ codes "splashScreenPreload.js"
          ∷ [])
        header.files

  unfoldable pub official_discord_asar : Text → Bool
  official_discord_asar bytes = official_header (parse_asar_header bytes)

  abbrev pub is_discord_package : Option PackageValue → Bool
  is_discord_package none = false
  is_discord_package (some p) =
      text_eq p.name (codes "discord") && text_eq p.main (codes "index.js")

  -- `\vencord\dist\patcher.js` and `\equicord\dist\patcher.js`.
  abbrev pub is_mod_path : Text → Bool
  is_mod_path path =
      let normalized = to_lower (lib.clean path) in
      has_suffix normalized (codes "\\vencord\\dist\\patcher.js")
      || has_suffix normalized (codes "\\equicord\\dist\\patcher.js")

  abbrev pub requires_mod : Option Text → Bool
  requires_mod none = false
  requires_mod (some path) = lib.is_absolute path && is_mod_path path

  abbrev pub unquoted : Option Text → Option Text
  unquoted none = none
  unquoted (some quoted) = lib.parse_string quoted

  abbrev pub loader_files : Option Text → Option Text → Bool
  loader_files (some package_text) (some index) =
      is_discord_package (lib.parse_package package_text)
      && requires_mod (unquoted (lib.require_only index))
  loader_files (some package_text) none = false
  loader_files none index = false

  unfoldable pub recognized_loader : Text → Bool
  recognized_loader bytes =
      loader_files (asar_file bytes (codes "package.json")) (asar_file bytes (codes "index.js"))
