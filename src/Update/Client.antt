-- ===== src/Update/Client.antt =====
-- internal/update/client.go: Check, download and findReleaseAsset. What the server answers is a
-- parameter: the latest release, and a response for each address.
pub mod Checked
pub mod Offer
use bigducks_live.Base.{
  ℕ, zero, suc, ◌*◌, ◌+◌, Bool, true, false, not, ◌&&◌, ◌||◌, ltb, leb, ◌==◌, List, [], ◌∷◌, Option,
  none, some, length, take, if◌then◌else◌,
}
use bigducks_live.Base.Int.{ℤ, pos, negsuc}
use bigducks_live.Base.Text.{Text, codes, text_eq, is_empty, trim_space, trim_prefix}
use bigducks_live.Errors.{Error, failure, Result, ok, err}
use bigducks_live.Update.Version.{is_newer, bare_version}
use bigducks_live.Update.Manifest.{Manifest, Codec, windows_asset_name, verify_manifest}
use Prim.Native.String.{String}

pub record Client : Type 0 where
  pub latest_release_url : Text
  pub current_version : Text
  pub public_key : Text

pub record UpdateResult : Type 0 where
  pub available : Bool
  pub manifest : Manifest
  pub download_url : Text
  pub manifest_raw : Text
  pub signature : Text

pub record ReleaseAsset : Type 0 where
  pub name : Text
  pub browser_download_url : Text
  pub size : ℤ

pub record ReleaseResponse : Type 0 where
  pub tag_name : Text
  pub draft : Bool
  pub prerelease : Bool
  pub assets : List ReleaseAsset

-- A response: its status code, the announced length, and the body with the error that ends it.
pub record Response : Type 0 where
  pub status_code : ℕ
  pub content_length : ℤ
  pub body : Text
  pub body_error : Option Error

pub record ReleaseServer : Type 0 where
  pub get_json : Text → Result ReleaseResponse
  pub get : Text → Result Response

abbrev pub and_then {ℓ} : {A B : Type ℓ} → Result A → (A → Result B) → Result B
and_then (ok a) f = f a
and_then (err e) f = err e

-- `fmt.Errorf("...: %w", err)`
abbrev pub relabel {ℓ} : {A : Type ℓ} → String → Result A → Result A
relabel label (ok a) = ok a
relabel label (err e) = err (failure label)

unfoldable pub find_release_asset : List ReleaseAsset → Text → Option ReleaseAsset
find_release_asset [] name = none
find_release_asset (asset ∷ assets) name =
    if text_eq asset.name name && not (is_empty asset.browser_download_url)
    then some asset
    else find_release_asset assets name

abbrev pub found {ℓ} : {A : Type ℓ} → String → Option A → Result A
found missing none = err (failure missing)
found missing (some a) = ok a

-- `response.ContentLength > maximum`
abbrev pub longer_than : ℤ → ℕ → Bool
longer_than (pos n) maximum = ltb maximum n
longer_than (negsuc n) maximum = false

-- io.ReadAll of io.LimitReader(response.Body, maximum+1): an error behind the limit is not met.
unfoldable pub read_limited : Response → ℕ → Result Text
read_limited r maximum =
    if leb (maximum + 1) (length r.body)
    then ok (take (maximum + 1) r.body)
    else elim r.body_error [ none ↦ ok r.body | some e ↦ err e ]

unfoldable pub receive : ℕ → Response → Result Text
receive maximum r =
    if not (r.status_code == 200)
    then err (failure "server returned")
    else if longer_than r.content_length maximum
    then err (failure "download is larger than the allowed bytes")
    else and_then (read_limited r maximum) λ bytes.
      if ltb maximum (length bytes)
      then err (failure "download is larger than the allowed bytes")
      else ok bytes

unfoldable pub download : ReleaseServer → Text → ℕ → Result Text
download server url maximum =
    if ltb maximum 1 || ltb (100 * 1024 * 1024) maximum
    then err (failure "download size limit is invalid")
    else and_then (server.get url) (receive maximum)

abbrev pub no_update : UpdateResult
no_update = record {
  available = false;
  manifest = record { version = []; asset = []; size = pos 0; sha256 = [] };
  download_url = [];
  manifest_raw = [];
  signature = [];
}

-- Equality of int64.
abbrev pub int_eq : ℤ → ℤ → Bool
int_eq (pos m) (pos n) = m == n
int_eq (pos m) (negsuc n) = false
int_eq (negsuc m) (pos n) = false
int_eq (negsuc m) (negsuc n) = m == n

-- What Check compares and returns once the manifest is verified.
unfoldable pub accept_manifest : Text → ReleaseAsset → Text → Text → Manifest → Result UpdateResult
accept_manifest candidate executable bytes signature m =
    if not (text_eq m.version candidate)
    then err (failure "signed version does not match release")
    else if not (int_eq m.size executable.size)
    then err (failure "signed size does not match release asset size")
    else ok (record {
      available = true;
      manifest = m;
      download_url = executable.browser_download_url;
      manifest_raw = bytes;
      signature = trim_space signature;
    })

module _ (codec : Codec) (server : ReleaseServer) (c : Client) where
  unfoldable pub check_downloads :
      Text → ReleaseAsset → ReleaseAsset → ReleaseAsset → Result UpdateResult
  check_downloads candidate executable manifest_asset signature_asset =
      and_then
        (relabel "download update manifest"
          (download server manifest_asset.browser_download_url (64 * 1024)))
        λ bytes.
          and_then
            (relabel "download update signature"
              (download server signature_asset.browser_download_url (4 * 1024)))
            λ signature.
              and_then (verify_manifest codec bytes signature c.public_key)
                (accept_manifest candidate executable bytes signature)

  unfoldable pub check_assets : Text → List ReleaseAsset → Result UpdateResult
  check_assets candidate assets =
      and_then
        (found "manifest.json is missing" (find_release_asset assets (codes "manifest.json")))
        λ manifest_asset.
          and_then
            (found "manifest.sig is missing" (find_release_asset assets (codes "manifest.sig")))
            λ signature_asset.
              and_then
                (found "the executable is missing" (find_release_asset assets windows_asset_name))
                λ executable. check_downloads candidate executable manifest_asset signature_asset

  unfoldable pub check_release : ReleaseResponse → Result UpdateResult
  check_release release =
      if release.draft || release.prerelease
      then ok no_update
      else if not (is_newer (bare_version release.tag_name) c.current_version)
      then ok no_update
      else check_assets (bare_version release.tag_name) release.assets

  -- Client.Check
  unfoldable pub check : Result UpdateResult
  check =
      if is_empty c.current_version || is_empty c.public_key
      then err (failure "update client is not configured")
      else and_then (relabel "check latest release" (server.get_json c.latest_release_url))
          check_release
