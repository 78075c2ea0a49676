-- ===== src/Update/Version/Order.antt =====
-- IsNewer of internal/update/manifest.go as an order.
use bigducks_live.Base.{◌≡◌, ◌↔◌, ◌⊎◌, ◌<◌, refl, true, false, Option, none, some, arith}
use bigducks_live.Base.Text.{Text}
use bigducks_live.Update.Version.{Version, parse_version, is_later, later_than, is_newer}

-- The lexicographic order of versions.
abbrev pub Before : Version → Version → Type 0
Before a b =
    (a.major < b.major)
    ⊎ ((a.major ≡ b.major) × ((a.minor < b.minor) ⊎ ((a.minor ≡ b.minor) × (a.patch < b.patch))))

is_later_iff : (a b : Version) → (is_later b a ≡ true) ↔ Before a b
unfolding is_later
is_later_iff a b = ground arith

-- Both texts are versions, the current one before the candidate.
abbrev pub Newer : Text → Text → Type 0
Newer candidate current =
    (next : Version) × (present : Version) × (parse_version candidate ≡ some next)
    × (parse_version current ≡ some present)
    × Before present next

abbrev NewerVersions : Option Version → Option Version → Type 0
NewerVersions a b =
    (next : Version) × (present : Version) × (a ≡ some next)
    × (b ≡ some present)
    × Before present next

later_than_iff : (a b : Option Version) → (later_than a b ≡ true) ↔ NewerVersions a b
later_than_iff none b = ((λ h. cc), λ (_, _, e, _, _). cc)
later_than_iff (some a) none = ((λ h. cc), λ (_, _, _, e, _). cc)
later_than_iff (some a) (some b) = (
  (λ h. (a, b, refl, refl, (is_later_iff b a).0 h)),
  λ (next, present, e, f, before).
      let same_next : a ≡ next = cc e in
      let same_present : b ≡ present = cc f in
      (is_later_iff b a).1 (rw (same_next, same_present) before),
)

-- IsNewer accepts a candidate exactly if both texts are well-formed versions and the current one
-- comes before it in the lexicographic order of the three numbers.
pub is_newer_iff :
    (candidate current : Text) → (is_newer candidate current ≡ true) ↔ Newer candidate current
unfolding is_newer
is_newer_iff candidate current = later_than_iff (parse_version candidate) (parse_version current)

later_compare :
    (v w : Version)
    → ((is_later v w ≡ true) × (is_later w v ≡ false))
      ⊎ (((is_later w v ≡ true) × (is_later v w ≡ false))
          ⊎ ((v ≡ w) × (is_later v w ≡ false) × (is_later w v ≡ false)))
unfolding is_later
later_compare v w = ground arith

-- Of two well-formed versions exactly one of three things holds: the first is newer, the second is
-- newer, or they are the same version and neither is.
pub is_newer_compare :
    (a b : Text) (v w : Version)
    → parse_version a ≡ some v
    → parse_version b ≡ some w
    → ((is_newer a b ≡ true) × (is_newer b a ≡ false))
      ⊎ (((is_newer b a ≡ true) × (is_newer a b ≡ false))
          ⊎ ((v ≡ w) × (is_newer a b ≡ false) × (is_newer b a ≡ false)))
unfolding is_newer
is_newer_compare a b v w e f = rw (e, f) (later_compare v w)
