-- ===== src/Proxy/Source/Usable.antt =====
-- What ParseProxyScrape of internal/proxy/source.go returns.
use bigducks_live.Base.{
  ℕ, ◌≤◌, zero, suc, if◌then◌else◌, ◌*◌, ◌≡◌, ◌≢◌, ◌⊎◌, inl, inr, refl, Bool, true, false, not,
  ◌&&◌, List, [], ◌∷◌, map, Option, none, some, length, length-take, All, All-of_Elem, Elem, arith,
  Bool-cases, Option-cases,
}
use bigducks_live.Base.Int.{ℤ, pos, negsuc}
use bigducks_live.Base.Sort.{
  sort, IsSorted, Elem-sort, sort-IsSorted, take-IsSorted, Elem-take, by_int_le_total,
  by_int_le_trans,
}
use bigducks_live.Base.Text.{Text, codes, text_eq, is_empty, to_lower, trim_space}
use bigducks_live.Errors.{Error, Result, ok, err}
use bigducks_live.Update.Version.{atoi}
use bigducks_live.Model.{Endpoint}
use bigducks_live.Model.Hosts.{member}
use bigducks_live.Model.Parse.{ParsedUrl, with_port, parsed_endpoint, parse_endpoint}
use bigducks_live.Model.Url.{redacted_url}
use bigducks_live.Proxy.Source.{
  ScrapeProxy, ListedCandidate, is_dead, is_excluded, usable_port, candidate_limit, candidate_le,
  unit, is_positive, is_below, is_above, listed, collect_listed, ranked, parse_proxy_scrape,
}

-- A SOCKS5 endpoint with a port of 16 bits.
abbrev pub IsWellFormed : Endpoint → Type 0
IsWellFormed e = (e.scheme ≡ codes "socks5") × (1 ≤ e.port) × (e.port ≤ 65535)

checked :
    {e : Endpoint} (b : Bool) (x : Error) (r : Result Endpoint)
    → (if b then err x else r) ≡ ok e
    → r ≡ ok e
checked true x r h = cc
checked false x r h = h

passed :
    {e : Endpoint} (b : Bool) (o : Option Endpoint)
    → (if b then none else o) ≡ some e
    → (b ≡ false) × (o ≡ some e)
passed true o h = cc
passed false o h = (refl, h)

with_port-IsWellFormed :
    (parsed : ParsedUrl) (port : Option ℕ) (e : Endpoint)
    → with_port parsed port ≡ ok e
    → IsWellFormed e
with_port-IsWellFormed parsed none e h = cc
with_port-IsWellFormed parsed (some port) e h = ground arith

pub parse_endpoint-IsWellFormed :
    (parse_url : Text → Option ParsedUrl) (raw : Text) (e : Endpoint)
    → parse_endpoint parse_url raw ≡ ok e
    → IsWellFormed e
unfolding parse_endpoint parsed_endpoint
parse_endpoint-IsWellFormed parse_url raw e h = of_parsed (parse_url (trim_space raw)) h
  where
    of_parsed : (r : Option ParsedUrl) → parsed_endpoint r ≡ ok e → IsWellFormed e
    of_parsed none k = cc
    of_parsed (some parsed) k =
        let k0 : parsed_endpoint (some parsed) ≡ ok e = k in
        let k1 = checked {e = e} (not (text_eq (to_lower parsed.scheme) (codes "socks5"))) _ _ k0 in
        let k2 = checked {e = e} (is_empty parsed.hostname) _ _ k1 in
        with_port-IsWellFormed parsed (atoi parsed.port) e
          (checked {e = e} (is_empty parsed.port) _ _ k2)

not_dead : (alive : Option Bool) → is_dead alive ≡ false → alive ≢ some false
not_dead none h e = cc
not_dead (some true) h e = cc
not_dead (some false) h e = cc

-- Not positive, or at least a number.
abbrev pub NotBetween : ℤ → ℕ → Type 0
NotBetween (pos n) limit = (n ≡ 0) ⊎ (limit ≤ n)
NotBetween (negsuc n) limit = Unit

abbrev pub AtMost : ℤ → ℕ → Type 0
AtMost (pos n) limit = n ≤ limit
AtMost (negsuc n) limit = Unit

uptime_fine : (n : ℤ) (limit : ℕ) → (is_positive n && is_below n limit) ≡ false → NotBetween n limit
uptime_fine (pos zero) limit h = inl refl
uptime_fine (pos (suc n)) limit h = inr (ground arith)
uptime_fine (negsuc n) limit h = tt

timeout_fine : (n : ℤ) (limit : ℕ) → is_above n limit ≡ false → AtMost n limit
timeout_fine (pos n) limit h = ground arith
timeout_fine (negsuc n) limit h = tt

module _ (parse_url : Text → Option ParsedUrl) (excluded : List Text) where
  -- An entry of the list that may be a candidate.
  abbrev pub IsUsable : ScrapeProxy → Endpoint → Type 0
  IsUsable entry e =
      (entry.alive ≢ some false)
      × NotBetween entry.uptime (90 * unit)
      × AtMost entry.timeout (1500 * unit)
      × (is_excluded excluded entry.country_code ≡ false)
      × (parse_endpoint parse_url entry.proxy ≡ ok e)
      × IsWellFormed e
      × (e.port ≢ 4145)

  usable_port_sound :
      (r : Result Endpoint) (e : Endpoint) → usable_port r ≡ some e → (r ≡ ok e) × (e.port ≢ 4145)
  usable_port_sound (err x) e h = cc
  usable_port_sound (ok endpoint) e h = (ground arith, ground arith)

  listed-IsUsable :
      (entry : ScrapeProxy) (e : Endpoint)
      → listed parse_url excluded entry ≡ some e
      → IsUsable entry e
  unfolding listed
  listed-IsUsable entry e h =
      let (alive, h1) = passed (is_dead entry.alive) _ h in
      let (up, h2) = passed (is_positive entry.uptime && is_below entry.uptime (90 * unit)) _ h1 in
      let (fast, h3) = passed (is_above entry.timeout (1500 * unit)) _ h2 in
      let (allowed, h4) = passed (is_excluded excluded entry.country_code) _ h3 in
      let (parsed, port) = usable_port_sound (parse_endpoint parse_url entry.proxy) e h4 in
      (
        (λ dead. not_dead entry.alive alive dead),
        uptime_fine entry.uptime (90 * unit) up,
        timeout_fine entry.timeout (1500 * unit) fast,
        allowed,
        parsed,
        parse_endpoint-IsWellFormed parse_url entry.proxy e parsed,
        port,
      )

  -- A candidate with the entry that it comes from.
  abbrev pub IsFrom : List ScrapeProxy → ListedCandidate → Type 0
  IsFrom entries c =
      (entry : ScrapeProxy) × Elem entry entries
      × (c.timeout ≡ entry.timeout)
      × IsUsable entry c.endpoint

  module _ (seen : List Text) (entry : ScrapeProxy) (entries : List ScrapeProxy) where
    collect_unlisted :
        listed parse_url excluded entry ≡ none
        → collect_listed parse_url excluded seen (entry ∷ entries)
          ≡ collect_listed parse_url excluded seen entries
    unfolding collect_listed
    collect_unlisted h = rw (h, collect_listed)

    collect_seen :
        (e : Endpoint)
        → listed parse_url excluded entry ≡ some e
        → member (redacted_url e) seen ≡ true
        → collect_listed parse_url excluded seen (entry ∷ entries)
          ≡ collect_listed parse_url excluded seen entries
    unfolding collect_listed
    collect_seen e h k = rw (h, collect_listed, k)

    collect_new :
        (e : Endpoint)
        → listed parse_url excluded entry ≡ some e
        → member (redacted_url e) seen ≡ false
        → collect_listed parse_url excluded seen (entry ∷ entries)
          ≡ record { endpoint = e; timeout = entry.timeout }
            ∷ collect_listed parse_url excluded (redacted_url e ∷ seen) entries
    unfolding collect_listed
    collect_new e h k = rw (h, collect_listed, k)

  later :
      (entry : ScrapeProxy) (entries : List ScrapeProxy) (c : ListedCandidate)
      → IsFrom entries c
      → IsFrom (entry ∷ entries) c
  later entry entries c h = (h.0, inr h.1, h.2, h.3)

  nothing :
      (seen : List Text) (c : ListedCandidate) {P : Type 0}
      → Elem c (collect_listed parse_url excluded seen [])
      → P
  unfolding collect_listed
  nothing seen c m = elim m [ ]

  collect_listed_sound :
      (seen : List Text) (entries : List ScrapeProxy) (c : ListedCandidate)
      → Elem c (collect_listed parse_url excluded seen entries)
      → IsFrom entries c
  collect_listed_sound seen [] c m = nothing seen c m
  collect_listed_sound seen (entry ∷ entries) c m =
      elim (Option-cases (listed parse_url excluded entry)) [
        | inl skipped ↦ later entry entries c (
            collect_listed_sound seen entries c
              (rw (collect_unlisted seen entry entries skipped) at m))
        | inr (e, there) ↦ elim (Bool-cases (member (redacted_url e) seen)) [
          | inl old ↦ later entry entries c (
              collect_listed_sound seen entries c
                (rw (collect_seen seen entry entries e there old) at m))
          | inr new ↦ elim (fresh e there new) [
            | inl same ↦ rw same (entry, inl refl, refl, listed-IsUsable entry e there)
            | inr rest ↦
                later entry entries c (collect_listed_sound (redacted_url e ∷ seen) entries c rest)
          ]
        ]
      ]
    where
      fresh :
          (e : Endpoint)
          → listed parse_url excluded entry ≡ some e
          → member (redacted_url e) seen ≡ false
          → (c ≡ record { endpoint = e; timeout = entry.timeout })
            ⊎ Elem c (collect_listed parse_url excluded (redacted_url e ∷ seen) entries)
      fresh e there new = rw (collect_new seen entry entries e there new) at m

candidate_le_total : (a b : ListedCandidate) → candidate_le a b ≡ false → candidate_le b a ≡ true
unfolding candidate_le
candidate_le_total a b = by_int_le_total a.timeout b.timeout _ _

candidate_le_trans :
    (a b c : ListedCandidate)
    → candidate_le a b ≡ true
    → candidate_le b c ≡ true
    → candidate_le a c ≡ true
unfolding candidate_le
candidate_le_trans a b c = by_int_le_trans a.timeout b.timeout c.timeout _ _ _

limit-le : (max : ℕ) → candidate_limit max ≤ 40
unfolding candidate_limit
limit-le max = ground arith

-- Of a list that decodes, ParseProxyScrape returns the endpoints of at most 40 candidates, and no more
-- than were asked for (40, if none were), which are sorted by timeout and then by redacted URL. Each
-- comes from an entry of the list that is not dead, whose uptime is not positive or at least 90, whose timeout is at most 1500, whose country is not
-- excluded, and whose address is a SOCKS5 endpoint with a port from 1 to 65535 other than 4145.
pub parse_proxy_scrape-usable :
    (parse_url : Text → Option ParsedUrl) (excluded : List Text) (max : ℕ)
    (entries : List ScrapeProxy)
    → let candidates = ranked parse_url excluded max entries in
      (parse_proxy_scrape parse_url excluded max (some entries)
        ≡ ok (map (λ (c : ListedCandidate). c.endpoint) candidates))
      × (length candidates ≤ candidate_limit max)
      × (candidate_limit max ≤ 40)
      × IsSorted candidate_le candidates
      × All (IsFrom parse_url excluded entries) candidates
unfolding parse_proxy_scrape ranked
parse_proxy_scrape-usable parse_url excluded max entries =
    let all = collect_listed parse_url excluded [] entries in
    let n = candidate_limit max in
    (
      refl,
      omega (arith, length-take n (sort candidate_le all)),
      limit-le max,
      take-IsSorted candidate_le n (sort candidate_le all)
          (sort-IsSorted candidate_le candidate_le_total candidate_le_trans all),
      All-of_Elem _ _ (λ c m. collect_listed_sound parse_url excluded [] entries c (
          (Elem-sort candidate_le c all).0 (Elem-take candidate_le c n (sort candidate_le all) m))),
    )
