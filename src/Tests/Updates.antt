-- ===== src/Tests/Updates.antt =====
-- Inputs for internal/update.
use bigducks_live.Base.{
  ℕ, zero, suc, ◌==◌, if◌then◌else◌, ◌≡◌, ◌↔◌, ◌≤◌, refl, true, false, [], ◌∷◌, Option, none, some,
  length, arith,
}
use bigducks_live.Base.Int.{pos}
use bigducks_live.Base.Text.{Text, codes, text_eq, trim_space, trim_left, trim_prefix, strip_prefix}
use bigducks_live.Errors.{ok}
use bigducks_live.Update.Version.{
  parse_version, bare_version, has_sign, split_at_byte, parse_part, malformed, atoi, digits_value,
  is_later, is_newer,
}
use bigducks_live.Update.Version.Order.{Newer, is_newer_iff}
use bigducks_live.Update.Manifest.{
  Manifest, Codec, windows_asset_name, hex_length, size_allowed, validate_manifest, encode_manifest,
  verify_manifest,
}
use bigducks_live.Update.Manifest.Laws.{
  Acceptable, Authentic, verify_manifest_iff, verify_manifest-encode_manifest,
}
use bigducks_live.Update.Client.{
  Client, UpdateResult, ReleaseAsset, ReleaseResponse, Response, ReleaseServer, find_release_asset,
  download, receive, read_limited, accept_manifest, check_downloads, check_assets, check_release,
  check,
}
use bigducks_live.Update.Client.Checked.{download-body}
use bigducks_live.Update.Client.Offer.{check-offered}

is_newer_iff_example :
    (is_newer (codes "v1.10.0") (codes "1.9.3") ≡ true) ↔ Newer (codes "v1.10.0") (codes "1.9.3")
is_newer_iff_example = is_newer_iff (codes "v1.10.0") (codes "1.9.3")

leading_zero_refused : parse_version (codes "1.02.3") ≡ none
unfolding parse_version bare_version trim_space trim_left trim_prefix strip_prefix has_sign
    split_at_byte parse_part malformed atoi digits_value
leading_zero_refused = refl

-- 32 bytes as 64 hexadecimal digits, and a manifest with them.
abbrev pub digest_text : Text
digest_text = codes "00112233445566778899aabbccddeeff00112233445566778899AABBCCDDEEFF"

abbrev pub release_manifest : Manifest
release_manifest = record {
  version = codes "1.10.0";
  asset = windows_asset_name;
  size = pos 3;
  sha256 = digest_text;
}

abbrev pub zeros : ℕ → Text
zeros zero = []
zeros (suc n) = 0 ∷ zeros n

-- base64 of these two texts only; a JSON text is one byte, and any signature is good.
abbrev pub decode_text : Text → Option Text
decode_text [] = none
decode_text (c ∷ s) = if c == b'k' then some (zeros 32) else some (zeros 64)

abbrev pub toy_codec : Codec
toy_codec = record {
  base64_decode = decode_text;
  signed_by = λ key bytes signature. true;
  unmarshal = λ bytes. some release_manifest;
  marshal = λ m. some (1 ∷ []);
  digest = λ bytes. bytes;
  hex_encode = λ bytes. digest_text;
}

release_manifest-Acceptable : Acceptable release_manifest
unfolding parse_version bare_version trim_space trim_left trim_prefix strip_prefix has_sign
    split_at_byte parse_part malformed atoi digits_value hex_length
release_manifest-Acceptable = (
  (record { major = 1; minor = 10; patch = 0 }, refl),
  refl,
  (3, refl, omega arith, omega arith),
  refl,
)

verify_manifest_iff_example :
    (verify_manifest toy_codec (1 ∷ []) (codes "s") (codes "k") ≡ ok release_manifest)
    ↔ Authentic toy_codec (1 ∷ []) (codes "s") (codes "k") release_manifest
verify_manifest_iff_example =
    verify_manifest_iff toy_codec (1 ∷ []) (codes "s") (codes "k") release_manifest

verify_manifest-encode_manifest_example :
    (bytes : Text) × (encode_manifest toy_codec release_manifest ≡ ok bytes)
    × (verify_manifest toy_codec bytes (codes "s") (codes "k") ≡ ok release_manifest)
unfolding trim_space trim_left
verify_manifest-encode_manifest_example =
    verify_manifest-encode_manifest toy_codec release_manifest (1 ∷ []) (zeros 32) (zeros 64)
      (codes "s") (codes "k") release_manifest-Acceptable refl refl refl refl refl refl refl

abbrev page : Response
page = record { status_code = 200; content_length = pos 1; body = 1 ∷ []; body_error = none }

abbrev latest : ReleaseResponse
latest = record {
  tag_name = codes "v1.10.0";
  draft = false;
  prerelease = false;
  assets =
      record { name = codes "manifest.json"; browser_download_url = codes "m"; size = pos 1 }
      ∷ record { name = codes "manifest.sig"; browser_download_url = codes "s"; size = pos 1 }
      ∷ record { name = windows_asset_name; browser_download_url = codes "e"; size = pos 3 }
      ∷ [];
}

abbrev releases : ReleaseServer
releases = record { get_json = λ url. ok latest; get = λ url. ok page }

abbrev one_byte : Text
one_byte = 1 ∷ []

download-body_example :
    (r : Response) × (releases.get (codes "m") ≡ ok r)
    × (r.status_code ≡ 200)
    × (one_byte ≡ r.body)
    × (length one_byte ≤ 10)
unfolding download receive read_limited
download-body_example = download-body releases (codes "m") 10 one_byte refl

abbrev installed : Client
installed = record {
  latest_release_url = codes "latest";
  current_version = codes "1.9.3";
  public_key = codes "k";
}

abbrev offer : UpdateResult
offer = record {
  available = true;
  manifest = release_manifest;
  download_url = codes "e";
  manifest_raw = 1 ∷ [];
  signature = 1 ∷ [];
}

check-offered_example :
    (release : ReleaseResponse) × (ok latest ≡ ok release)
    × (release.draft ≡ false)
    × (release.prerelease ≡ false)
    × (is_newer (bare_version release.tag_name) installed.current_version ≡ true)
    × ((executable : ReleaseAsset) × (find_release_asset release.assets windows_asset_name
          ≡ some executable)
        × ((signature : Text) × (offer.manifest.version ≡ bare_version release.tag_name)
            × (offer.manifest.size ≡ executable.size)
            × (offer.download_url ≡ executable.browser_download_url)
            × (offer.signature ≡ trim_space signature)
            × Authentic toy_codec offer.manifest_raw signature installed.public_key offer.manifest))
unfolding check check_release check_assets check_downloads accept_manifest find_release_asset
    download receive read_limited verify_manifest validate_manifest size_allowed hex_length is_newer
    is_later parse_version bare_version trim_space trim_left trim_prefix strip_prefix has_sign
    split_at_byte parse_part malformed atoi digits_value text_eq
check-offered_example = check-offered toy_codec releases installed offer refl refl
