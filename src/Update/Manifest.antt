-- ===== src/Update/Manifest.antt =====
-- internal/update/manifest.go: EncodeManifest, VerifyManifest, VerifyAsset and validateManifest. Signatures, digests,
-- base64 and JSON are parameters (Codec): an implementation of packages crypto/ed25519,
-- crypto/sha256, encoding/base64 and encoding/json.
pub mod Laws
use bigducks_live.Base.{
  ℕ, zero, suc, ◌*◌, ◌+◌, Bool, true, false, not, ◌&&◌, ◌||◌, ltb, leb, ◌==◌, List, [], ◌∷◌, ◌++◌,
  Option, none, some, length, if◌then◌else◌,
}
use bigducks_live.Base.Int.{ℤ, pos, negsuc}
use bigducks_live.Base.Text.{Text, codes, text_eq, trim_space, equal_fold, is_some}
use bigducks_live.Errors.{Error, failure, Result, ok, err}
use bigducks_live.Update.Version.{Version, parse_version}

pub record Manifest : Type 0 where
  pub version : Text
  pub asset : Text
  pub size : ℤ
  pub sha256 : Text

abbrev pub windows_asset_name : Text
windows_asset_name = codes "BigDucks-windows-amd64.exe"

pub record Codec : Type 0 where
  pub base64_decode : Text → Option Text
  pub signed_by : Text → Text → Text → Bool
  pub unmarshal : Text → Option Manifest
  pub marshal : Manifest → Option Text
  pub digest : Text → Text
  pub hex_encode : Text → Text

-- A byte of hex.DecodeString.
abbrev pub is_hex : ℕ → Bool
is_hex c = (leb b'0' c && leb c b'9') || (leb b'a' c && leb c b'f') || (leb b'A' c && leb c b'F')

-- How many bytes hex.DecodeString gives, or none where it fails.
unfoldable pub hex_length : Text → Option ℕ
hex_length [] = some 0
hex_length (a ∷ []) = none
hex_length (a ∷ b ∷ s) =
    let rest = hex_length s in if is_hex a && is_hex b then one_more rest else none
  where
    one_more : Option ℕ → Option ℕ
    one_more none = none
    one_more (some n) = some (suc n)

abbrev pub has_version : Option Version → Bool
has_version none = false
has_version (some v) = true

-- `manifest.Size < 1 || manifest.Size > 100*1024*1024`, negated.
unfoldable pub size_allowed : ℤ → Bool
size_allowed (pos n) = leb 1 n && leb n (100 * 1024 * 1024)
size_allowed (negsuc n) = false

-- `err != nil || len(digest) != sha256.Size`, negated.
abbrev pub is_digest_length : Option ℕ → Bool
is_digest_length none = false
is_digest_length (some n) = n == 32

unfoldable pub validate_manifest : Manifest → Option Error
validate_manifest m =
    if not (has_version (parse_version m.version))
    then some (failure "invalid update version")
    else if not (text_eq m.asset windows_asset_name)
    then some (failure "unexpected update asset")
    else if not (size_allowed m.size)
    then some (failure "invalid update size")
    else if not (is_digest_length (hex_length m.sha256))
    then some (failure "invalid update SHA-256")
    else none

-- `if err := validateManifest(manifest); err != nil { return Manifest{}, err }; return manifest, nil`
abbrev pub checked : Option Error → Manifest → Result Manifest
checked none m = ok m
checked (some e) m = err e

abbrev pub of_length : ℕ → Option Text → Option Text
of_length n none = none
of_length n (some s) = if length s == n then some s else none

abbrev pub encode_checked : Option Error → Manifest → Option Text → Result Text
encode_checked (some e) m bytes = err e
encode_checked none m none = err (failure "json")
encode_checked none m (some bytes) = ok (bytes ++ 10 ∷ [])

abbrev pub decode_checked : Option Manifest → Result Manifest
decode_checked none = err (failure "decode update manifest")
decode_checked (some m) = checked (validate_manifest m) m

-- `int64(len(data)) != manifest.Size`, negated.
abbrev pub has_size : ℕ → ℤ → Bool
has_size n (pos m) = n == m
has_size n (negsuc m) = false

module _ (codec : Codec) where
  unfoldable pub encode_manifest : Manifest → Result Text
  encode_manifest m = encode_checked (validate_manifest m) m (codec.marshal m)

  abbrev pub verify_signature : Text → Option Text → Option Text → Result Manifest
  verify_signature bytes none signature = err (failure "update public key is invalid")
  verify_signature bytes (some key) none = err (failure "update signature is invalid")
  verify_signature bytes (some key) (some signature) =
      if codec.signed_by key bytes signature
      then decode_checked (codec.unmarshal bytes)
      else err (failure "update manifest signature did not match")

  unfoldable pub verify_manifest : Text → Text → Text → Result Manifest
  verify_manifest bytes signature public_key =
      verify_signature bytes (of_length 32 (codec.base64_decode (trim_space public_key)))
        (of_length 64 (codec.base64_decode (trim_space signature)))

  abbrev pub asset_checked : Option Error → Manifest → Text → Option Error
  asset_checked (some e) m bytes = some e
  asset_checked none m bytes =
      if not (has_size (length bytes) m.size)
      then some (failure "update size")
      else if not (equal_fold (codec.hex_encode (codec.digest bytes)) m.sha256)
      then some (failure "update SHA-256 did not match the signed manifest")
      else none

  unfoldable pub verify_asset : Manifest → Text → Option Error
  verify_asset m bytes = asset_checked (validate_manifest m) m bytes
