-- ===== src/App/Config.antt =====
-- internal/app/config.go: Config, DefaultConfig, normalized and what LoadConfig makes of a decoded
-- file. The directories of DefaultConfig come from the system and are parameters, as are
-- time.ParseDuration and the candidates' limit of internal/proxy/source.go. A map of countries is a
-- list in the order in which it is read; nil is none. Durations are nanoseconds.
pub mod InRange
use bigducks_live.Base.{
  ℕ, zero, suc, ◌*◌, ◌+◌, Bool, true, false, ◌&&◌, leb, ltb, List, [], ◌∷◌, Option, none, some,
  if◌then◌else◌,
}
use bigducks_live.Base.Int.{ℤ, pos, negsuc}
use bigducks_live.Base.Text.{Text, codes, text_eq, is_empty, to_upper, trim_space}
use bigducks_live.Errors.{Error, failure, Result, ok, err}

pub record Config : Type 0 where
  pub data_dir : Text
  pub discord_root : Text
  pub disabled : Bool
  pub routing_mode : Text
  pub proxy_source_url : Text
  pub routed_hosts : List Text
  pub routed_suffixes : List Text
  pub excluded_countries : Option (List (Text × Bool))
  pub probe_timeout : ℤ
  pub startup_budget : ℤ
  pub cache_ttl : ℤ
  pub max_candidates : ℤ
  pub pool_size : ℤ
  pub probe_workers : ℤ
  pub heartbeat_interval : ℤ
  pub heartbeat_timeout : ℤ
  pub recovery_wait : ℤ
  pub hunt_cooldown : ℤ
  pub min_reserves : ℤ
  pub relay_port : ℤ
  pub pac_port : ℤ
  pub dynamic_runtime_ports : Bool

-- proxy.DefaultSourceURL of internal/proxy/source.go.
abbrev pub default_source_url : Text
default_source_url =
    codes
      "https://api.proxyscrape.com/v4/free-proxy-list/get?request=display_proxies&protocol=socks5&proxy_format=protocolipport&format=json&timeout=1500"

abbrev pub seconds : ℕ → ℤ
seconds n = pos (n * 1000000000)

abbrev pub default_config : Text → Text → Config
default_config data_dir discord_root = record {
  data_dir = data_dir;
  discord_root = discord_root;
  disabled = false;
  routing_mode = codes "gateway";
  proxy_source_url = default_source_url;
  routed_hosts = codes "gateway.discord.gg" ∷ codes "remote-auth-gateway.discord.gg" ∷ [];
  routed_suffixes = codes "discord.gg" ∷ [];
  excluded_countries = some ((codes "BR", true) ∷ []);
  probe_timeout = seconds 6;
  startup_budget = seconds 12;
  cache_ttl = seconds 86400;
  max_candidates = pos 40;
  pool_size = pos 3;
  probe_workers = pos 10;
  heartbeat_interval = seconds 30;
  heartbeat_timeout = seconds 4;
  recovery_wait = seconds 12;
  hunt_cooldown = seconds 180;
  min_reserves = pos 2;
  relay_port = pos 55367;
  pac_port = pos 55368;
  dynamic_runtime_ports = false;
}

abbrev pub text_or : Text → Text → Text
text_or [] d = d
text_or (c ∷ s) d = c ∷ s

abbrev pub list_or : List Text → List Text → List Text
list_or [] d = d
list_or (x ∷ xs) d = x ∷ xs

-- `if value <= 0 { value = default }`, and with `< 1`.
abbrev pub positive_or : ℤ → ℤ → ℤ
positive_or (pos zero) d = d
positive_or (pos (suc n)) d = pos (suc n)
positive_or (negsuc n) d = d

-- `if port < 1 || port > 65535 { port = default }`
abbrev pub port_or : ℤ → ℤ → ℤ
port_or (pos n) d = if leb 1 n && leb n 65535 then pos n else d
port_or (negsuc n) d = d

unfoldable pub set_country : Text → Bool → List (Text × Bool) → List (Text × Bool)
set_country country excluded [] = (country, excluded) ∷ []
set_country country excluded ((c, e) ∷ countries) =
    let rest = set_country country excluded countries in
    if text_eq c country then (country, excluded) ∷ countries else (c, e) ∷ rest

-- The loop of normalizeCountries, with the result so far.
unfoldable pub normalize_loop : List (Text × Bool) → List (Text × Bool) → List (Text × Bool)
normalize_loop result [] = result
normalize_loop result ((c, excluded) ∷ source) =
    let country = to_upper (trim_space c) in
    normalize_loop (if is_empty country then result else set_country country excluded result) source

unfoldable pub normalize_countries : List (Text × Bool) → List (Text × Bool)
normalize_countries source = normalize_loop [] source

abbrev pub countries_or :
    Option (List (Text × Bool)) → Option (List (Text × Bool)) → Option (List (Text × Bool))
countries_or none d = d
countries_or (some countries) d = some (normalize_countries countries)

-- Config.normalized
unfoldable pub normalized : Config → Config → Config
normalized d c = record c {
  data_dir = text_or c.data_dir d.data_dir;
  discord_root = text_or c.discord_root d.discord_root;
  proxy_source_url = text_or c.proxy_source_url d.proxy_source_url;
  routing_mode = if text_eq c.routing_mode (codes "full") then c.routing_mode else d.routing_mode;
  routed_hosts = list_or c.routed_hosts d.routed_hosts;
  routed_suffixes = list_or c.routed_suffixes d.routed_suffixes;
  excluded_countries = countries_or c.excluded_countries d.excluded_countries;
  probe_timeout = positive_or c.probe_timeout d.probe_timeout;
  startup_budget = positive_or c.startup_budget d.startup_budget;
  cache_ttl = positive_or c.cache_ttl d.cache_ttl;
  max_candidates = positive_or c.max_candidates d.max_candidates;
  pool_size = positive_or c.pool_size d.pool_size;
  probe_workers = positive_or c.probe_workers d.probe_workers;
  heartbeat_interval = positive_or c.heartbeat_interval d.heartbeat_interval;
  heartbeat_timeout = positive_or c.heartbeat_timeout d.heartbeat_timeout;
  recovery_wait = positive_or c.recovery_wait d.recovery_wait;
  hunt_cooldown = positive_or c.hunt_cooldown d.hunt_cooldown;
  min_reserves = positive_or c.min_reserves d.min_reserves;
  relay_port = port_or c.relay_port d.relay_port;
  pac_port = port_or c.pac_port d.pac_port;
}

-- The decoded config.json; missing lists are none.
pub record PersistedConfig : Type 0 where
  pub disabled : Bool
  pub routing_mode : Text
  pub proxy_source_url : Text
  pub cache_ttl : Text
  pub probe_timeout : Text
  pub excluded_countries : Option (List Text)
  pub relay_port : ℤ
  pub pac_port : ℤ

unfoldable pub excluded_of : List (Text × Bool) → List Text → List (Text × Bool)
excluded_of result [] = result
excluded_of result (c ∷ countries) =
    let country = to_upper (trim_space c) in
    excluded_of (if is_empty country then result else set_country country true result) countries

abbrev pub stored_countries :
    Option (List Text) → Option (List (Text × Bool)) → Option (List (Text × Bool))
stored_countries none current = current
stored_countries (some countries) current = some (excluded_of [] countries)

abbrev pub is_positive : ℤ → Bool
is_positive (pos n) = ltb 0 n
is_positive (negsuc n) = false

-- `parseErr != nil || value <= 0` is an error.
abbrev pub valid_duration : Option ℤ → Error → Result ℤ
valid_duration none e = err e
valid_duration (some v) e = if is_positive v then ok v else err e

abbrev pub stored_duration : (Text → Option ℤ) → Text → ℤ → Error → Result ℤ
stored_duration parse_duration [] current e = ok current
stored_duration parse_duration (c ∷ s) current e = valid_duration (parse_duration (c ∷ s)) e

abbrev pub with_durations : Config → Config → Result ℤ → Result ℤ → Result Config
with_durations d c (err e) probe_timeout = err e
with_durations d c (ok cache_ttl) (err e) = err e
with_durations d c (ok cache_ttl) (ok probe_timeout) =
    ok (normalized d (record c { cache_ttl = cache_ttl; probe_timeout = probe_timeout }))

-- The defaults with what the file names, but for the durations.
abbrev pub stored_base : Config → PersistedConfig → Config
stored_base d stored = record d {
  proxy_source_url = text_or stored.proxy_source_url d.proxy_source_url;
  routing_mode = text_or stored.routing_mode d.routing_mode;
  disabled = stored.disabled;
  relay_port = positive_or stored.relay_port d.relay_port;
  pac_port = positive_or stored.pac_port d.pac_port;
  excluded_countries = stored_countries stored.excluded_countries d.excluded_countries;
}

-- LoadConfig of a file that was decoded, over the defaults.
unfoldable pub load_stored : (Text → Option ℤ) → Config → PersistedConfig → Result Config
load_stored parse_duration d stored =
    with_durations d (stored_base d stored)
      (stored_duration parse_duration stored.cache_ttl d.cache_ttl (failure "invalid cacheTTL"))
      (stored_duration parse_duration stored.probe_timeout d.probe_timeout
        (failure "invalid probeTimeout"))
