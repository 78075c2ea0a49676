-- ===== src/Update/Manifest/Laws.antt =====
-- What internal/update/manifest.go accepts.
use bigducks_live.Base.{
  ℕ, ◌*◌, ◌≡◌, ◌↔◌, ◌≤◌, ◌∙◌, refl, sym, ap, Bool, true, false, not, [], ◌∷◌, ◌++◌, Option, none,
  some, length, Option-cases, Bool-cases, inl, inr, ◌==◌, ==_iff, if◌then◌else◌, arith,
}
use bigducks_live.Base.Int.{ℤ, pos, negsuc}
use bigducks_live.Base.Text.{Text, text_eq_iff, trim_space, equal_fold}
use bigducks_live.Errors.{Error, ok}
use bigducks_live.Update.Version.{Version, parse_version}
use bigducks_live.Update.Manifest.{
  Manifest, Codec, windows_asset_name, hex_length, size_allowed, is_digest_length, has_version,
  has_size, of_length, validate_manifest, encode_manifest, decode_checked, verify_signature,
  verify_manifest, verify_asset,
}

-- A well-formed version, the one asset, from 1 byte to 100 MiB, and a digest of 32 bytes.
abbrev pub Acceptable : Manifest → Type 0
Acceptable m =
    ((v : Version) × (parse_version m.version ≡ some v))
    × (m.asset ≡ windows_asset_name)
    × ((n : ℕ) × (m.size ≡ pos n) × (1 ≤ n) × (n ≤ 100 * 1024 * 1024))
    × (hex_length m.sha256 ≡ some 32)

has_version_iff : (o : Option Version) → (has_version o ≡ true) ↔ ((v : Version) × (o ≡ some v))
has_version_iff none = ((λ h. cc), λ (v, e). cc)
has_version_iff (some v) = ((λ h. (v, refl)), λ h. refl)

size_allowed_iff :
    (z : ℤ) → (size_allowed z ≡ true) ↔ ((n : ℕ) × (z ≡ pos n) × (1 ≤ n) × (n ≤ 100 * 1024 * 1024))
unfolding size_allowed
size_allowed_iff (pos n) = (
  (λ h. (n, refl, ground arith, ground arith)),
  λ (m, e, low, high). let same : n ≡ m = cc e in ground arith,
)
size_allowed_iff (negsuc n) = ((λ h. cc), λ (m, e, low, high). cc)

is_digest_length_iff : (o : Option ℕ) → (is_digest_length o ≡ true) ↔ (o ≡ some 32)
is_digest_length_iff none = ((λ h. cc), λ h. cc)
is_digest_length_iff (some n) =
    ((λ h. ap some ((==_iff n 32).0 h)), λ h. let e : n ≡ 32 = cc h in (==_iff n 32).1 e)

-- A guard that returns an error unless its test holds.
guard_iff :
    (b : Bool) (e : Error) (rest : Option Error)
    → ((if not b then some e else rest) ≡ none) ↔ ((b ≡ true) × (rest ≡ none))
guard_iff true e rest = ((λ h. (refl, h)), λ h. h.1)
guard_iff false e rest = ((λ h. cc), λ h. cc)

pub validate_manifest_iff : (m : Manifest) → (validate_manifest m ≡ none) ↔ Acceptable m
unfolding validate_manifest
validate_manifest_iff m = (gives_acceptable, gives_none)
  where
    gives_acceptable : validate_manifest m ≡ none → Acceptable m
    gives_acceptable h =
        let (a, h1) = (guard_iff _ _ _).0 h in
        let (b, h2) = (guard_iff _ _ _).0 h1 in
        let (c, h3) = (guard_iff _ _ _).0 h2 in
        let (d, _) = (guard_iff _ _ _).0 h3 in
        (
          (has_version_iff (parse_version m.version)).0 a,
          (text_eq_iff m.asset windows_asset_name).0 b,
          (size_allowed_iff m.size).0 c,
          (is_digest_length_iff (hex_length m.sha256)).0 d,
        )

    gives_none : Acceptable m → validate_manifest m ≡ none
    gives_none (a, b, c, d) = (guard_iff _ _ _).1 (
      (has_version_iff (parse_version m.version)).1 a,
      (guard_iff _ _ _).1 (
        (text_eq_iff m.asset windows_asset_name).1 b,
        (guard_iff _ _ _).1 (
          (size_allowed_iff m.size).1 c,
          (guard_iff _ _ _).1 ((is_digest_length_iff (hex_length m.sha256)).1 d, refl),
        ),
      ),
    )

of_length-some :
    (n : ℕ) (o : Option Text) (s : Text)
    → (of_length n o ≡ some s) ↔ ((o ≡ some s) × (length s ≡ n))
of_length-some n none s = ((λ h. cc), λ h. cc)
of_length-some n (some t) s = elim (Bool-cases (length t == n)) [
  | inl long ↦ rw long (
    (λ e.
        let same : t ≡ s = cc e in
        (ap some same, ap length (sym same) ∙ (==_iff (length t) n).0 long)),
    λ (e, l). e,
  )
  | inr short ↦ rw short (
    (λ e. cc),
    λ (e, l).
        let same : t ≡ s = cc e in let long = (==_iff (length t) n).1 (ap length same ∙ l) in cc,
  )
]

has_size_iff : (n : ℕ) (z : ℤ) → (has_size n z ≡ true) ↔ (z ≡ pos n)
has_size_iff n (pos m) =
    ((λ h. ap pos (sym ((==_iff n m).0 h))), λ h. let e : m ≡ n = cc h in (==_iff n m).1 (sym e))
has_size_iff n (negsuc m) = ((λ h. cc), λ h. cc)

-- What EncodeManifest and VerifyManifest do once the bytes are known to be well signed.
decode_checked_iff :
    (o : Option Manifest) (m : Manifest) → (decode_checked o ≡ ok m) ↔ ((o ≡ some m) × Acceptable m)
decode_checked_iff none m = ((λ h. cc), λ (e, a). cc)
decode_checked_iff (some d) m = elim (Option-cases (validate_manifest d)) [
  | inl valid ↦ rw valid (
    (λ h.
        let same : d ≡ m = cc h in
        (ap some same, (validate_manifest_iff m).0 (ap validate_manifest (sym same) ∙ valid))),
    λ (e, a). let same : d ≡ m = cc e in ap ok same,
  )
  | inr (error, invalid) ↦ rw invalid (
    (λ h. cc),
    λ (e, a).
        let same : d ≡ m = cc e in
        let valid = ap validate_manifest same ∙ (validate_manifest_iff m).1 a in cc,
  )
]

module _ (codec : Codec) where
  -- A signature of 64 bytes over exactly these bytes, by a key of 32 bytes, that was verified, on
  -- an acceptable manifest.
  abbrev pub Authentic : Text → Text → Text → Manifest → Type 0
  Authentic bytes signature public_key m =
      (key : Text) × (sig : Text) × (codec.base64_decode (trim_space public_key) ≡ some key)
      × (length key ≡ 32)
      × (codec.base64_decode (trim_space signature) ≡ some sig)
      × (length sig ≡ 64)
      × (codec.signed_by key bytes sig ≡ true)
      × (codec.unmarshal bytes ≡ some m)
      × Acceptable m

  abbrev Signed : Text → Option Text → Option Text → Manifest → Type 0
  Signed bytes key sig m =
      (k : Text) × (s : Text) × (key ≡ some k)
      × (sig ≡ some s)
      × (codec.signed_by k bytes s ≡ true)
      × (codec.unmarshal bytes ≡ some m)
      × Acceptable m

  verify_signature_iff :
      (bytes : Text) (key sig : Option Text) (m : Manifest)
      → (verify_signature codec bytes key sig ≡ ok m) ↔ Signed bytes key sig m
  verify_signature_iff bytes none sig m = ((λ h. cc), λ (k, s, e, _, _, _, _). cc)
  verify_signature_iff bytes (some key) none m = ((λ h. cc), λ (k, s, _, e, _, _, _). cc)
  verify_signature_iff bytes (some key) (some sig) m =
      elim (Bool-cases (codec.signed_by key bytes sig)) [
        | inl good ↦ (
          (λ h.
              let (e, a) = (decode_checked_iff (codec.unmarshal bytes) m).0 (when_good good h) in
              (key, sig, refl, refl, good, e, a)),
          λ (k, s, _, _, _, e, a).
              rw good ((decode_checked_iff (codec.unmarshal bytes) m).1 (e, a)),
        )
        | inr bad ↦ (
          (λ h. absurd (when_bad bad h)),
          λ (k, s, ek, es, good, _, _).
              let same_key : key ≡ k = cc ek in let same_sig : sig ≡ s = cc es in cc,
        )
      ]
    where
      when_good :
          codec.signed_by key bytes sig ≡ true
          → verify_signature codec bytes (some key) (some sig) ≡ ok m
          → decode_checked (codec.unmarshal bytes) ≡ ok m
      when_good good h = rw good at h

      when_bad :
          codec.signed_by key bytes sig ≡ false
          → verify_signature codec bytes (some key) (some sig) ≡ ok m
          → ⊥
      when_bad bad h = cc (rw bad at h)

  -- VerifyManifest gives a manifest exactly if the public key decodes to 32 bytes, the signature to
  -- 64, the signature of these very bytes is verified with that key, the bytes decode to the
  -- manifest, and it has a well-formed version, the one asset name, a size from 1 byte to 100 MiB
  -- and a digest of 32 bytes.
  pub verify_manifest_iff :
      (bytes signature public_key : Text) (m : Manifest)
      → (verify_manifest codec bytes signature public_key ≡ ok m)
        ↔ Authentic bytes signature public_key m
  unfolding verify_manifest
  verify_manifest_iff bytes signature public_key m = (
    (λ h.
        let (key, sig, ek, es, good, e, a) =
          (verify_signature_iff bytes (of_length 32 (codec.base64_decode (trim_space public_key)))
              (of_length 64 (codec.base64_decode (trim_space signature))) m).0
            h in
        let (fk, lk) = (of_length-some 32 (codec.base64_decode (trim_space public_key)) key).0 ek in
        let (fs, ls) = (of_length-some 64 (codec.base64_decode (trim_space signature)) sig).0 es in
        (key, sig, fk, lk, fs, ls, good, e, a)),
    λ (key, sig, fk, lk, fs, ls, good, e, a).
        (verify_signature_iff bytes (of_length 32 (codec.base64_decode (trim_space public_key)))
            (of_length 64 (codec.base64_decode (trim_space signature))) m).1
          (
            key,
            sig,
            (of_length-some 32 (codec.base64_decode (trim_space public_key)) key).1 (fk, lk),
            (of_length-some 64 (codec.base64_decode (trim_space signature)) sig).1 (fs, ls),
            good,
            e,
            a,
          ),
  )

  -- VerifyAsset accepts bytes exactly if the manifest is acceptable, they are as many as it says, and
  -- their digest in hexadecimal is its digest up to case.
  pub verify_asset_iff :
      (m : Manifest) (bytes : Text)
      → (verify_asset codec m bytes ≡ none) ↔ (
          Acceptable m
          × (m.size ≡ pos (length bytes))
          × (equal_fold (codec.hex_encode (codec.digest bytes)) m.sha256 ≡ true))
  unfolding verify_asset
  verify_asset_iff m bytes = elim (Option-cases (validate_manifest m)) [
    | inl valid ↦ rw valid (
      (λ h.
          let (a, h1) = (guard_iff _ _ _).0 h in
          let (b, _) = (guard_iff _ _ _).0 h1 in
          ((validate_manifest_iff m).0 valid, (has_size_iff (length bytes) m.size).0 a, b)),
      λ (_, a, b).
          (guard_iff _ _ _).1
            ((has_size_iff (length bytes) m.size).1 a, (guard_iff _ _ _).1 (b, refl)),
    )
    | inr (error, invalid) ↦
        rw invalid ((λ h. cc), λ (a, _, _). let valid = (validate_manifest_iff m).1 a in cc)
  ]

  -- A manifest that is acceptable, and that JSON carries there and back, comes back from
  -- VerifyManifest of what EncodeManifest wrote, under any signature of those bytes that is good.
  pub verify_manifest-encode_manifest :
      (m : Manifest) (text key sig signature public_key : Text)
      → Acceptable m
      → codec.marshal m ≡ some text
      → codec.unmarshal (text ++ 10 ∷ []) ≡ some m
      → codec.base64_decode (trim_space public_key) ≡ some key
      → length key ≡ 32
      → codec.base64_decode (trim_space signature) ≡ some sig
      → length sig ≡ 64
      → codec.signed_by key (text ++ 10 ∷ []) sig ≡ true
      → (bytes : Text) × (encode_manifest codec m ≡ ok bytes)
        × (verify_manifest codec bytes signature public_key ≡ ok m)
  unfolding encode_manifest
  verify_manifest-encode_manifest m text key sig signature public_key a e f fk lk fs ls good = (
    text ++ 10 ∷ [],
    rw ((validate_manifest_iff m).1 a, e) refl,
    (verify_manifest_iff (text ++ 10 ∷ []) signature public_key m).1
        (key, sig, fk, lk, fs, ls, good, f, a),
  )
