-- ===== src/Update/Client/Offer.antt =====
-- When Check of internal/update/client.go offers an update.
use bigducks_live.Base.{
  ◌*◌, ◌≡◌, ◌∙◌, sym, ap, true, false, ◌||◌, ==_iff, List, some, Bool-cases, Option-cases, inl, inr,
  arith,
}
use bigducks_live.Base.Int.{ℤ, pos, negsuc}
use bigducks_live.Base.Text.{Text, codes, text_eq, text_eq_iff, is_empty, trim_space}
use bigducks_live.Errors.{Result, ok}
use bigducks_live.Update.Version.{is_newer, bare_version}
use bigducks_live.Update.Manifest.{Manifest, Codec, windows_asset_name, verify_manifest}
use bigducks_live.Update.Manifest.Laws.{Authentic, verify_manifest_iff}
use bigducks_live.Update.Client.{
  Client, UpdateResult, ReleaseAsset, ReleaseResponse, ReleaseServer, find_release_asset, download,
  no_update, int_eq, accept_manifest, check_downloads, check_assets, check_release, check,
}
use bigducks_live.Update.Client.Checked.{Result-cases}

int_eq_sound : (a b : ℤ) → int_eq a b ≡ true → a ≡ b
int_eq_sound (pos m) (pos n) h = ap pos ((==_iff m n).0 h)
int_eq_sound (pos m) (negsuc n) h = cc
int_eq_sound (negsuc m) (pos n) h = cc
int_eq_sound (negsuc m) (negsuc n) h = ap negsuc ((==_iff m n).0 h)

-- What the result takes from the release's executable and from the manifest.
abbrev Matches : Text → ReleaseAsset → Text → Text → Manifest → UpdateResult → Type 0
Matches candidate executable bytes signature m r =
    (r.manifest.version ≡ candidate)
    × (r.manifest.size ≡ executable.size)
    × (r.download_url ≡ executable.browser_download_url)
    × (r.manifest_raw ≡ bytes)
    × (r.signature ≡ trim_space signature)
    × (m ≡ r.manifest)

accept_manifest-Matches :
    (candidate : Text) (executable : ReleaseAsset) (bytes signature : Text) (m : Manifest)
    (r : UpdateResult)
    → accept_manifest candidate executable bytes signature m ≡ ok r
    → Matches candidate executable bytes signature m r
unfolding accept_manifest
accept_manifest-Matches candidate executable bytes signature m r h =
    elim (Bool-cases (text_eq m.version candidate)) [
      | inr other ↦ cc (rw other at h)
      | inl version ↦
          let h1 = rw version at h in
          elim (Bool-cases (int_eq m.size executable.size)) [
            | inr other ↦ cc (rw other at h1)
            | inl size ↦
                let offered : UpdateResult = record {
                  available = true;
                  manifest = m;
                  download_url = executable.browser_download_url;
                  manifest_raw = bytes;
                  signature = trim_space signature;
                } in
                let same : offered ≡ r = cc (rw size at h1) in
                (
                  ap (λ x. x.manifest.version) (sym same)
                      ∙ (text_eq_iff m.version candidate).0 version,
                  ap (λ x. x.manifest.size) (sym same) ∙ int_eq_sound m.size executable.size size,
                  ap (λ x. x.download_url) (sym same),
                  ap (λ x. x.manifest_raw) (sym same),
                  ap (λ x. x.signature) (sym same),
                  ap (λ x. x.manifest) same,
                )
          ]
    ]

module _ (codec : Codec) (server : ReleaseServer) (c : Client) where
  abbrev FromExecutable : Text → ReleaseAsset → UpdateResult → Type 0
  FromExecutable candidate executable r =
      (signature : Text) × (r.manifest.version ≡ candidate)
      × (r.manifest.size ≡ executable.size)
      × (r.download_url ≡ executable.browser_download_url)
      × (r.signature ≡ trim_space signature)
      × Authentic codec r.manifest_raw signature c.public_key r.manifest

  from_verified :
      (candidate : Text) (executable : ReleaseAsset) (bytes signature : Text) (m : Manifest)
      (r : UpdateResult)
      → verify_manifest codec bytes signature c.public_key ≡ ok m
      → accept_manifest candidate executable bytes signature m ≡ ok r
      → FromExecutable candidate executable r
  from_verified candidate executable bytes signature m r verified h =
      let (version, size, url, raw, sig, same) =
        accept_manifest-Matches candidate executable bytes signature m r h in
      let e : verify_manifest codec r.manifest_raw signature c.public_key ≡ ok r.manifest =
        rw raw (verified ∙ ap ok same) in
      (
        signature,
        version,
        size,
        url,
        sig,
        (verify_manifest_iff codec r.manifest_raw signature c.public_key r.manifest).0 e,
      )

  check_downloads-FromExecutable :
      (candidate : Text) (executable manifest_asset signature_asset : ReleaseAsset)
      (r : UpdateResult)
      → check_downloads codec server c candidate executable manifest_asset signature_asset ≡ ok r
      → FromExecutable candidate executable r
  unfolding check_downloads
  check_downloads-FromExecutable candidate executable manifest_asset signature_asset r h =
      elim (Result-cases (download server manifest_asset.browser_download_url (64 * 1024))) [
        | inl (e, failed) ↦ cc (rw failed at h)
        | inr (bytes, first) ↦
            let h1 = rw first at h in
            elim (Result-cases (download server signature_asset.browser_download_url (4 * 1024))) [
              | inl (e, failed) ↦ cc (rw failed at h1)
              | inr (signature, second) ↦
                  let h2 = rw second at h1 in
                  elim (Result-cases (verify_manifest codec bytes signature c.public_key)) [
                    | inl (e, refused) ↦ cc (rw refused at h2)
                    | inr (m, verified) ↦
                        from_verified candidate executable bytes signature m r verified
                          (rw verified at h2)
                  ]
            ]
      ]

  abbrev FromAssets : Text → List ReleaseAsset → UpdateResult → Type 0
  FromAssets candidate assets r =
      (executable : ReleaseAsset) × (find_release_asset assets windows_asset_name ≡ some executable)
      × FromExecutable candidate executable r

  check_assets-FromAssets :
      (candidate : Text) (assets : List ReleaseAsset) (r : UpdateResult)
      → check_assets codec server c candidate assets ≡ ok r
      → FromAssets candidate assets r
  unfolding check_assets
  check_assets-FromAssets candidate assets r h =
      elim (Option-cases (find_release_asset assets (codes "manifest.json"))) [
        | inl missing ↦ cc (rw missing at h)
        | inr (manifest_asset, has_manifest) ↦
            let h1 = rw has_manifest at h in
            elim (Option-cases (find_release_asset assets (codes "manifest.sig"))) [
              | inl missing ↦ cc (rw missing at h1)
              | inr (signature_asset, has_signature) ↦
                  let h2 = rw has_signature at h1 in
                  elim (Option-cases (find_release_asset assets windows_asset_name)) [
                    | inl missing ↦ cc (rw missing at h2)
                    | inr (executable, has_executable) ↦ (
                      executable,
                      has_executable,
                      check_downloads-FromExecutable candidate executable manifest_asset
                          signature_asset r (rw has_executable at h2),
                    )
                  ]
            ]
      ]

  -- A release that is out, later than the program, and holds the executable of the manifest.
  abbrev pub Offered : UpdateResult → Type 0
  Offered r =
      (release : ReleaseResponse) × (server.get_json c.latest_release_url ≡ ok release)
      × (release.draft ≡ false)
      × (release.prerelease ≡ false)
      × (is_newer (bare_version release.tag_name) c.current_version ≡ true)
      × FromAssets (bare_version release.tag_name) release.assets r

  no_offer :
      (r : UpdateResult)
      → r.available ≡ true
      → ◌≡◌ {A = Result UpdateResult} (ok no_update) (ok r)
      → ⊥
  no_offer r available h =
      let same : no_update ≡ r = cc h in
      let never : false ≡ r.available = ap (λ x. x.available) same in cc

  check_release-Offered :
      (release : ReleaseResponse) (r : UpdateResult)
      → server.get_json c.latest_release_url ≡ ok release
      → r.available ≡ true
      → check_release codec server c release ≡ ok r
      → Offered r
  unfolding check_release
  check_release-Offered release r got available h =
      elim (Bool-cases (release.draft || release.prerelease)) [
        | inl hidden ↦ absurd (no_offer r available (rw hidden at h))
        | inr shown ↦
            let h1 = rw shown at h in
            elim (Bool-cases (is_newer (bare_version release.tag_name) c.current_version)) [
              | inr old ↦ absurd (no_offer r available (rw old at h1))
              | inl newer ↦ (
                release,
                got,
                ground arith,
                ground arith,
                newer,
                check_assets-FromAssets (bare_version release.tag_name) release.assets r
                    (rw newer at h1),
              )
            ]
      ]

  -- Check offers an update only from the latest release of the server, if that is neither a draft
  -- nor a prerelease and its tag is a later version than the program's. The manifest is authentic:
  -- it was decoded from bytes whose signature is good under the program's key, and is well-formed.
  -- Its version is the release's, its size is that of the release's executable, and the address to
  -- download is that executable's.
  pub check-offered :
      (r : UpdateResult)
      → check codec server c ≡ ok r
      → r.available ≡ true
      → (release : ReleaseResponse) × (server.get_json c.latest_release_url ≡ ok release)
        × (release.draft ≡ false)
        × (release.prerelease ≡ false)
        × (is_newer (bare_version release.tag_name) c.current_version ≡ true)
        × ((executable : ReleaseAsset) × (find_release_asset release.assets windows_asset_name
              ≡ some executable)
            × ((signature : Text) × (r.manifest.version ≡ bare_version release.tag_name)
                × (r.manifest.size ≡ executable.size)
                × (r.download_url ≡ executable.browser_download_url)
                × (r.signature ≡ trim_space signature)
                × Authentic codec r.manifest_raw signature c.public_key r.manifest))
  unfolding check
  check-offered r h available =
      elim (Bool-cases (is_empty c.current_version || is_empty c.public_key)) [
        | inl unset ↦ cc (rw unset at h)
        | inr set ↦
            let h1 = rw set at h in
            elim (Result-cases (server.get_json c.latest_release_url)) [
              | inl (e, failed) ↦ cc (rw failed at h1)
              | inr (release, got) ↦ check_release-Offered release r got available (rw got at h1)
            ]
      ]
