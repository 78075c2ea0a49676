-- ===== src/App/Config/InRange.antt =====
-- What holds of every configuration that internal/app/config.go loads.
use bigducks_live.Base.{
  zero, suc, ◌≡◌, ◌⊎◌, ◌≤◌, ◌∙◌, inl, inr, refl, sym, subst, true, false, ◌&&◌, leb, leb→le, &&_iff,
  Bool-cases, List, [], ◌∷◌, Option, if◌then◌else◌, arith,
}
use bigducks_live.Base.Int.{ℤ, pos, negsuc}
use bigducks_live.Base.Text.{Text, codes, text_eq, text_eq_iff}
use bigducks_live.Errors.{Result, ok, err}
use bigducks_live.App.Config.{
  Config, PersistedConfig, default_config, text_or, list_or, positive_or, port_or, countries_or,
  normalized, stored_base, stored_duration, with_durations, load_stored,
}

abbrev pub Positive : ℤ → Type 0
Positive (pos zero) = ⊥
Positive (pos (suc n)) = Unit
Positive (negsuc n) = ⊥

abbrev pub IsPort : ℤ → Type 0
IsPort (pos n) = (1 ≤ n) × (n ≤ 65535)
IsPort (negsuc n) = ⊥

abbrev pub Present {ℓ} : {A : Type ℓ} → List A → Type 0
Present [] = ⊥
Present (x ∷ xs) = Unit

pub record InRange (c : Config) : Type 0 where
  pub mode : (c.routing_mode ≡ codes "gateway") ⊎ (c.routing_mode ≡ codes "full")
  pub source : Present c.proxy_source_url
  pub hosts : Present c.routed_hosts
  pub suffixes : Present c.routed_suffixes
  pub timeouts : Positive c.probe_timeout × Positive c.startup_budget × Positive c.cache_ttl
  pub counts : Positive c.max_candidates × Positive c.pool_size × Positive c.probe_workers
  pub heartbeat : Positive c.heartbeat_interval × Positive c.heartbeat_timeout
  pub recovery : Positive c.recovery_wait × Positive c.hunt_cooldown × Positive c.min_reserves
  pub ports : IsPort c.relay_port × IsPort c.pac_port

text_or-Present : (s d : Text) → Present d → Present (text_or s d)
text_or-Present [] d h = h
text_or-Present (c ∷ s) d h = tt

list_or-Present : (xs d : List Text) → Present d → Present (list_or xs d)
list_or-Present [] d h = h
list_or-Present (x ∷ xs) d h = tt

positive_or-Positive : (v d : ℤ) → Positive d → Positive (positive_or v d)
positive_or-Positive (pos zero) d h = h
positive_or-Positive (pos (suc n)) d h = tt
positive_or-Positive (negsuc n) d h = h

port_or-IsPort : (v d : ℤ) → IsPort d → IsPort (port_or v d)
port_or-IsPort (pos n) d h = elim (Bool-cases (leb 1 n && leb n 65535)) [
  | inl fits ↦
      let (low, high) = (&&_iff (leb 1 n) (leb n 65535)).0 fits in
      rw fits (leb→le 1 n low, leb→le n 65535 high)
  | inr out ↦ rw out h
]
port_or-IsPort (negsuc n) d h = h

mode_or :
    (mode d : Text)
    → d ≡ codes "gateway"
    → let m = if text_eq mode (codes "full") then mode else d in
      (m ≡ codes "gateway") ⊎ (m ≡ codes "full")
mode_or mode d e = elim (Bool-cases (text_eq mode (codes "full"))) [
  | inl full ↦ rw full (inr ((text_eq_iff mode (codes "full")).0 full))
  | inr other ↦ rw other (inl e)
]

-- Whatever a configuration holds, normalized makes it one with the mode gateway or full, a source, at
-- least one routed host and suffix, positive durations and counts, and ports from 1 to 65535.
pub normalized-InRange :
    (data_dir discord_root : Text) (c : Config)
    → InRange (normalized (default_config data_dir discord_root) c)
unfolding normalized
normalized-InRange data_dir discord_root c =
    let d = default_config data_dir discord_root in
    record {
      mode = mode_or c.routing_mode d.routing_mode refl;
      source = text_or-Present c.proxy_source_url d.proxy_source_url tt;
      hosts = list_or-Present c.routed_hosts d.routed_hosts tt;
      suffixes = list_or-Present c.routed_suffixes d.routed_suffixes tt;
      timeouts = (
        positive_or-Positive c.probe_timeout d.probe_timeout tt,
        positive_or-Positive c.startup_budget d.startup_budget tt,
        positive_or-Positive c.cache_ttl d.cache_ttl tt,
      );
      counts = (
        positive_or-Positive c.max_candidates d.max_candidates tt,
        positive_or-Positive c.pool_size d.pool_size tt,
        positive_or-Positive c.probe_workers d.probe_workers tt,
      );
      heartbeat = (
        positive_or-Positive c.heartbeat_interval d.heartbeat_interval tt,
        positive_or-Positive c.heartbeat_timeout d.heartbeat_timeout tt,
      );
      recovery = (
        positive_or-Positive c.recovery_wait d.recovery_wait tt,
        positive_or-Positive c.hunt_cooldown d.hunt_cooldown tt,
        positive_or-Positive c.min_reserves d.min_reserves tt,
      );
      ports = (
        port_or-IsPort c.relay_port d.relay_port (omega arith, omega arith),
        port_or-IsPort c.pac_port d.pac_port (omega arith, omega arith),
      );
    }

text_or-keeps : (s d : Text) → Present s → text_or s d ≡ s
text_or-keeps [] d h = elim h [ ]
text_or-keeps (c ∷ s) d h = refl

list_or-keeps : (xs d : List Text) → Present xs → list_or xs d ≡ xs
list_or-keeps [] d h = elim h [ ]
list_or-keeps (x ∷ xs) d h = refl

positive_or-keeps : (v d : ℤ) → Positive v → positive_or v d ≡ v
positive_or-keeps (pos zero) d h = elim h [ ]
positive_or-keeps (pos (suc n)) d h = refl
positive_or-keeps (negsuc n) d h = elim h [ ]

port_or-keeps : (v d : ℤ) → IsPort v → port_or v d ≡ v
port_or-keeps (pos n) d (low, high) =
    let fits : (leb 1 n && leb n 65535) ≡ true = ground arith in rw fits refl
port_or-keeps (negsuc n) d h = elim h [ ]

mode_or-keeps :
    (mode d : Text)
    → d ≡ codes "gateway"
    → (mode ≡ codes "gateway") ⊎ (mode ≡ codes "full")
    → (if text_eq mode (codes "full") then mode else d) ≡ mode
mode_or-keeps mode d e h = elim (Bool-cases (text_eq mode (codes "full"))) [
  | inl full ↦ rw full refl
  | inr other ↦ rw other (kept h other)
]
  where
    kept :
        (mode ≡ codes "gateway") ⊎ (mode ≡ codes "full")
        → text_eq mode (codes "full") ≡ false
        → d ≡ mode
    kept (inl gateway) other = e ∙ sym gateway
    kept (inr full) other = cc ((text_eq_iff mode (codes "full")).1 full)

-- A configuration that is in range and names its directories is left as it is, but for its
-- countries: normalized changes only what it has to.
pub normalized_keeps :
    (data_dir discord_root : Text) (c : Config)
    → InRange c
    → Present c.data_dir
    → Present c.discord_root
    → let d = default_config data_dir discord_root in
      normalized d c
      ≡ record c { excluded_countries = countries_or c.excluded_countries d.excluded_countries }
unfolding normalized
normalized_keeps data_dir discord_root c h has_data has_root =
    let d = default_config data_dir discord_root in
    rw
      (
        text_or-keeps c.data_dir d.data_dir has_data,
        text_or-keeps c.discord_root d.discord_root has_root,
        text_or-keeps c.proxy_source_url d.proxy_source_url h.source,
        mode_or-keeps c.routing_mode d.routing_mode refl h.mode,
        list_or-keeps c.routed_hosts d.routed_hosts h.hosts,
        list_or-keeps c.routed_suffixes d.routed_suffixes h.suffixes,
        positive_or-keeps c.probe_timeout d.probe_timeout h.timeouts.0,
        positive_or-keeps c.startup_budget d.startup_budget h.timeouts.1,
        positive_or-keeps c.cache_ttl d.cache_ttl h.timeouts.2,
        positive_or-keeps c.max_candidates d.max_candidates h.counts.0,
        positive_or-keeps c.pool_size d.pool_size h.counts.1,
        positive_or-keeps c.probe_workers d.probe_workers h.counts.2,
        positive_or-keeps c.heartbeat_interval d.heartbeat_interval h.heartbeat.0,
        positive_or-keeps c.heartbeat_timeout d.heartbeat_timeout h.heartbeat.1,
        positive_or-keeps c.recovery_wait d.recovery_wait h.recovery.0,
        positive_or-keeps c.hunt_cooldown d.hunt_cooldown h.recovery.1,
        positive_or-keeps c.min_reserves d.min_reserves h.recovery.2,
        port_or-keeps c.relay_port d.relay_port h.ports.0,
        port_or-keeps c.pac_port d.pac_port h.ports.1,
      )
      refl

-- Whatever a decoded file holds, LoadConfig returns an error or a configuration in range: the mode
-- gateway or full, a source, at least one routed host and suffix, positive durations and counts, and
-- ports from 1 to 65535.
pub load_stored-InRange :
    (parse_duration : Text → Option ℤ) (data_dir discord_root : Text) (stored : PersistedConfig)
    (c : Config)
    → load_stored parse_duration (default_config data_dir discord_root) stored ≡ ok c
    → InRange c
unfolding load_stored
load_stored-InRange parse_duration data_dir discord_root stored c h =
    loaded (stored_base (default_config data_dir discord_root) stored)
      (stored_duration parse_duration stored.cache_ttl _ _)
      (stored_duration parse_duration stored.probe_timeout _ _) h
  where
    loaded :
        (base : Config) (cache_ttl probe_timeout : Result ℤ)
        → with_durations (default_config data_dir discord_root) base cache_ttl probe_timeout ≡ ok c
        → InRange c
    loaded base (err e) probe_timeout h = cc
    loaded base (ok v) (err e) h = cc
    loaded base (ok v) (ok w) h =
        let result =
          normalized (default_config data_dir discord_root)
            (record base { cache_ttl = v; probe_timeout = w }) in
        let same : result ≡ c = cc h in
        subst InRange same (normalized-InRange data_dir discord_root _)
