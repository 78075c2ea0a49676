-- ===== src/Tests/Listings.antt =====
-- Inputs for the selection of proxies and the script of internal/pac.
use bigducks_live.Base.{
  ℕ, ◌≤◌, ◌≡◌, ◌⊎◌, ◌↔◌, true, List, [], ◌∷◌, map, Option, none, some, length, All, Elem, arith,
  ◌*◌,
}
use bigducks_live.Base.Sort.{IsSorted, text_le}
use bigducks_live.Base.Int.{pos}
use bigducks_live.Base.Text.{Text, codes}
use bigducks_live.Errors.{ok}
use bigducks_live.Model.Hosts.{normalize_host, contains_host, new_host_allowlist}
use bigducks_live.Model.Parse.{ParsedUrl}
use bigducks_live.Proxy.Select.{ProbeResult, entry_le, limit_of, select_verified}
use bigducks_live.Proxy.Select.Best.{IsVerified, IsUnfit, select_verified-best}
use bigducks_live.Proxy.Source.{
  unit, ScrapeProxy, ListedCandidate, candidate_limit, candidate_le, ranked, parse_proxy_scrape,
}
use bigducks_live.Proxy.Source.Usable.{IsFrom, parse_proxy_scrape-usable}
use bigducks_live.Pac.{normalize_list}
use bigducks_live.Pac.Hosts.{normalize_list-allowlist}

abbrev probed : Text → ℕ → Text → ProbeResult
probed host latency country = record {
  endpoint = record {
    endpoint = record { scheme = codes "socks5"; host = host; port = 1080; user = []; pass = [] };
    latency_ms = latency;
    country = country;
    checked_at = 0;
  };
  error = none;
}

abbrev probes : List ProbeResult
probes =
    probed (codes "a") 90 (codes "NL")
    ∷ probed (codes "b") 10 (codes "br")
    ∷ probed (codes "c") 40 (codes "DE")
    ∷ []

select_verified-best_example :
    let selected = select_verified 3 1 true probes in
    IsSorted entry_le selected
    × (length selected ≤ limit_of 1 3)
    × All (IsVerified probes) selected
    × All
        (λ r.
          IsUnfit r
          ⊎ (Elem r.endpoint selected
              ⊎ ((length selected ≡ limit_of 1 3)
                  × All (λ y. entry_le y r.endpoint ≡ true) selected)))
        probes
select_verified-best_example = select_verified-best 3 1 probes (omega arith)

-- Every address parses as that of one proxy.
abbrev parsed_proxy : Text → Option ParsedUrl
parsed_proxy raw = some (record {
  scheme = codes "socks5";
  hostname = codes "10.0.0.1";
  port = codes "1080";
  raw_query = [];
  fragment = [];
  user = none;
})

abbrev scraped : List ScrapeProxy
scraped =
    record {
      proxy = codes "p";
      alive = some true;
      uptime = pos (95 * unit);
      timeout = pos (300 * unit);
      country_code = codes "nl";
    }
    ∷ []

parse_proxy_scrape-usable_example :
    let candidates = ranked parsed_proxy (codes "BR" ∷ []) 5 scraped in
    (parse_proxy_scrape parsed_proxy (codes "BR" ∷ []) 5 (some scraped)
      ≡ ok (map (λ (c : ListedCandidate). c.endpoint) candidates))
    × (length candidates ≤ candidate_limit 5)
    × (candidate_limit 5 ≤ 40)
    × IsSorted candidate_le candidates
    × All (IsFrom parsed_proxy (codes "BR" ∷ []) scraped) candidates
parse_proxy_scrape-usable_example =
    parse_proxy_scrape-usable parsed_proxy (codes "BR" ∷ []) 5 scraped

abbrev routed_hosts : List Text
routed_hosts = codes "gateway.discord.gg" ∷ codes "Discord.com." ∷ []

normalize_list-allowlist_example :
    ((contains_host (new_host_allowlist routed_hosts) (codes "discord.com") ≡ true)
      ↔ Elem (normalize_host (codes "discord.com")) (normalize_list routed_hosts))
    × IsSorted text_le (normalize_list routed_hosts)
normalize_list-allowlist_example = normalize_list-allowlist routed_hosts (codes "discord.com")
