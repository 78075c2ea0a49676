-- ===== src/Update/Version.antt =====
-- internal/update/manifest.go: parseVersion and IsNewer, with the functions of packages strings and
-- strconv that they call. `int` has 64 bits.
pub mod Order
use bigducks_live.Base.{
  ℕ, zero, suc, ◌+◌, ◌-◌, ◌*◌, ◌^◌, Bool, true, false, not, ◌&&◌, ◌||◌, List, [], ◌∷◌, Option, none,
  some, length, ltb, leb, ◌==◌, if◌then◌else◌,
}
use bigducks_live.Base.Text.{Text, codes, is_empty, trim_space, trim_prefix}

abbrev pub cons_head : ℕ → List Text → List Text
cons_head c [] = (c ∷ []) ∷ []
cons_head c (part ∷ parts) = (c ∷ part) ∷ parts

-- strings.Split at one byte.
unfoldable pub split_at_byte : ℕ → Text → List Text
split_at_byte separator [] = [] ∷ []
split_at_byte separator (c ∷ s) =
    let parts = split_at_byte separator s in
    if c == separator then [] ∷ parts else cons_head c parts

-- `strings.ContainsAny(value, "+-")`
unfoldable pub has_sign : Text → Bool
has_sign [] = false
has_sign (c ∷ s) = c == b'+' || c == b'-' || has_sign s

unfoldable pub digits_value : ℕ → Text → Option ℕ
digits_value n [] = some n
digits_value n (c ∷ s) =
    let rest = digits_value (n * 10 + (c - b'0')) s in
    if leb b'0' c && leb c b'9' then rest else none

abbrev pub in_int_range : Option ℕ → Option ℕ
in_int_range none = none
in_int_range (some n) = if ltb n (2 ^ 63) then some n else none

-- strconv.Atoi of a text without sign.
unfoldable pub atoi : Text → Option ℕ
atoi [] = none
atoi (c ∷ s) = in_int_range (digits_value 0 (c ∷ s))

-- `part == "" || (len(part) > 1 && part[0] == '0')`
unfoldable pub malformed : Text → Bool
malformed [] = true
malformed (c ∷ s) = ltb 1 (length (c ∷ s)) && c == b'0'

unfoldable pub parse_part : Text → Option ℕ
parse_part part = if malformed part then none else atoi part

pub record Version : Type 0 where
  pub major : ℕ
  pub minor : ℕ
  pub patch : ℕ

abbrev pub version_of : Option ℕ → Option ℕ → Option ℕ → Option Version
version_of (some a) (some b) (some c) = some (record { major = a; minor = b; patch = c })
version_of (some a) (some b) none = none
version_of (some a) none c = none
version_of none b c = none

abbrev pub parse_parts : List Text → Option Version
parse_parts (a ∷ b ∷ c ∷ []) = version_of (parse_part a) (parse_part b) (parse_part c)
parse_parts [] = none
parse_parts (a ∷ []) = none
parse_parts (a ∷ b ∷ []) = none
parse_parts (a ∷ b ∷ c ∷ d ∷ parts) = none

-- `strings.TrimPrefix(strings.TrimSpace(value), "v")`
unfoldable pub bare_version : Text → Text
bare_version value = trim_prefix (trim_space value) (codes "v")

unfoldable pub parse_version : Text → Option Version
parse_version value =
    if has_sign (bare_version value)
    then none
    else parse_parts (split_at_byte b'.' (bare_version value))

-- The loop of IsNewer: the first component that differs decides.
unfoldable pub is_later : Version → Version → Bool
is_later next present =
    if not (next.major == present.major)
    then ltb present.major next.major
    else if not (next.minor == present.minor)
    then ltb present.minor next.minor
    else if not (next.patch == present.patch)
    then ltb present.patch next.patch
    else false

abbrev pub later_than : Option Version → Option Version → Bool
later_than (some next) (some present) = is_later next present
later_than (some next) none = false
later_than none present = false

unfoldable pub is_newer : Text → Text → Bool
is_newer candidate current = later_than (parse_version candidate) (parse_version current)
