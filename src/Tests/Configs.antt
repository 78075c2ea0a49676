-- ===== src/Tests/Configs.antt =====
-- Inputs for internal/app/config.go.
use bigducks_live.Base.{refl, false, [], ◌∷◌, Option, some}
use bigducks_live.Base.Int.{ℤ, pos, negsuc}
use bigducks_live.Base.Text.{Text, codes, text_eq, to_upper, trim_space, trim_left}
use bigducks_live.App.Config.{
  Config, PersistedConfig, default_config, normalized, normalize_countries, normalize_loop,
  set_country, excluded_of, load_stored, seconds,
}
use bigducks_live.App.Config.InRange.{InRange, normalized-InRange, load_stored-InRange}

abbrev defaults : Config
defaults = default_config (codes "data") (codes "discord")

-- A port out of range, and a country in lower case.
abbrev stored : PersistedConfig
stored = record {
  disabled = false;
  routing_mode = codes "odd";
  proxy_source_url = [];
  cache_ttl = codes "1h";
  probe_timeout = [];
  excluded_countries = some (codes " br" ∷ []);
  relay_port = pos 70000;
  pac_port = negsuc 4;
}

abbrev one_hour : Text → Option ℤ
one_hour s = some (seconds 3600)

abbrev loaded : Config
loaded = record defaults { cache_ttl = seconds 3600 }

load_stored-InRange_example : InRange loaded
unfolding load_stored normalized normalize_countries normalize_loop set_country excluded_of text_eq
    to_upper trim_space trim_left
load_stored-InRange_example =
    load_stored-InRange one_hour (codes "data") (codes "discord") stored loaded refl

defaults-InRange : InRange (normalized defaults defaults)
defaults-InRange = normalized-InRange (codes "data") (codes "discord") defaults
