-- ===== src/Proxy/Source.antt =====
-- internal/proxy/source.go: ParseProxyScrape, of the decoded list. Uptimes and timeouts are float64,
-- which JSON decodes to finite ones: integers in units of 2^-1074. A map of countries is the list of
-- those that it excludes.
pub mod Usable
use bigducks_live.Base.{
  ℕ, Bool, true, false, not, ◌&&◌, ◌||◌, ◌==◌, ltb, ◌*◌, ◌^◌, List, [], ◌∷◌, map, take, Option,
  none, some, if◌then◌else◌,
}
use bigducks_live.Base.Int.{ℤ, pos, negsuc}
use bigducks_live.Base.Sort.{sort, by_int_le}
use bigducks_live.Base.Text.{Text, is_empty, to_upper, trim_space}
use bigducks_live.Errors.{failure, Result, ok, err}
use bigducks_live.Model.{Endpoint}
use bigducks_live.Model.Hosts.{member}
use bigducks_live.Model.Parse.{ParsedUrl, parse_endpoint}
use bigducks_live.Model.Url.{redacted_url}

abbrev pub max_listed_timeout : ℕ
max_listed_timeout = 1500

abbrev pub max_candidates : ℕ
max_candidates = 40

abbrev pub min_listed_uptime : ℕ
min_listed_uptime = 90

-- 1, in units of a float64.
unfoldable pub unit : ℕ
unit = 2 ^ 1074

abbrev pub is_positive : ℤ → Bool
is_positive (pos n) = ltb 0 n
is_positive (negsuc n) = false

-- Whether an integer is below a number, and whether it is above.
abbrev pub is_below : ℤ → ℕ → Bool
is_below (pos n) limit = ltb n limit
is_below (negsuc n) limit = true

abbrev pub is_above : ℤ → ℕ → Bool
is_above (pos n) limit = ltb limit n
is_above (negsuc n) limit = false

pub record ScrapeProxy : Type 0 where
  pub proxy : Text
  pub alive : Option Bool
  pub uptime : ℤ
  pub timeout : ℤ
  pub country_code : Text

pub record ListedCandidate : Type 0 where
  pub endpoint : Endpoint
  pub timeout : ℤ

abbrev pub is_dead : Option Bool → Bool
is_dead none = false
is_dead (some alive) = not alive

unfoldable pub is_excluded : List Text → Text → Bool
is_excluded excluded code =
    let country = to_upper (trim_space code) in not (is_empty country) && member country excluded

abbrev pub usable_port : Result Endpoint → Option Endpoint
usable_port (err e) = none
usable_port (ok endpoint) = if endpoint.port == 4145 then none else some endpoint

-- `max <= 0 || max > MaxCandidates`; 0 stands for every `max <= 0`.
unfoldable pub candidate_limit : ℕ → ℕ
candidate_limit max = if max == 0 || ltb max_candidates max then max_candidates else max

-- Not after: by the timeout, and then by the redacted URL.
unfoldable pub candidate_le : ListedCandidate → ListedCandidate → Bool
candidate_le a b = by_int_le a.timeout (redacted_url a.endpoint) b.timeout (redacted_url b.endpoint)

module _ (parse_url : Text → Option ParsedUrl) (excluded : List Text) where
  -- What the loop makes of an entry before it looks at the keys that it has seen.
  unfoldable pub listed : ScrapeProxy → Option Endpoint
  listed entry =
      if is_dead entry.alive
      then none
      else if is_positive entry.uptime && is_below entry.uptime (min_listed_uptime * unit)
      then none
      else if is_above entry.timeout (max_listed_timeout * unit)
      then none
      else if is_excluded excluded entry.country_code
      then none
      else usable_port (parse_endpoint parse_url entry.proxy)

  -- The loop, with the keys seen so far.
  unfoldable pub collect_listed : List Text → List ScrapeProxy → List ListedCandidate
  collect_listed seen [] = []
  collect_listed seen (entry ∷ entries) = elim (listed entry) [
    | none ↦ collect_listed seen entries
    | some endpoint ↦ elim (member (redacted_url endpoint) seen) [
      | true ↦ collect_listed seen entries
      | false ↦
          record { endpoint = endpoint; timeout = entry.timeout }
          ∷ collect_listed (redacted_url endpoint ∷ seen) entries
    ]
  ]

  -- The candidates, in the order of the result.
  unfoldable pub ranked : ℕ → List ScrapeProxy → List ListedCandidate
  ranked max entries = take (candidate_limit max) (sort candidate_le (collect_listed [] entries))

  unfoldable pub parse_proxy_scrape : ℕ → Option (List ScrapeProxy) → Result (List Endpoint)
  parse_proxy_scrape max none = err (failure "decode proxy list")
  parse_proxy_scrape max (some entries) =
      ok (map (λ (c : ListedCandidate). c.endpoint) (ranked max entries))
