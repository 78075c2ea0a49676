-- ===== src/Proxy/Managed.antt =====
-- internal/proxy/managed.go: ManagedPool. Its state, what it tells the callbacks onDead and
-- onChange (as lists, oldest first), and its construction. Times are nanoseconds of a clock, and
-- the zero time is `none`.
pub mod Refresh
pub mod Heartbeat
pub mod Connect
use bigducks_live.Base.{
  ℕ, zero, suc, Bool, true, false, not, ◌||◌, List, [], ◌∷◌, ◌++◌, Option, none, some,
  if◌then◌else◌,
}
use bigducks_live.Base.Int.{ℤ, pos, negsuc}
use bigducks_live.Base.Text.{Text}
use bigducks_live.Model.{Endpoint, VerifiedEndpoint}
use bigducks_live.Proxy.Pool.{replace, promote_reserve, contains_endpoint}

-- The fields that stay as NewManagedPool sets them; a flag says whether a callback is given.
pub record Settings : Type 0 where
  pub pool_size : ℕ
  pub min_reserves : ℕ
  pub hunt_cooldown : ℕ
  pub has_refresh : Bool
  pub has_probe : Bool
  pub has_on_dead : Bool
  pub has_on_change : Bool

pub record ManagedPool : Type 0 where
  pub settings : Settings
  pub entries : List VerifiedEndpoint
  pub in_flight : Bool
  pub last_failed : Option ℕ
  pub misses : List (Text × ℕ)
  pub dead : List Endpoint
  pub changes : List (List VerifiedEndpoint)

pub record ManagedOptions : Type 0 where
  pub entries : List VerifiedEndpoint
  pub pool_size : ℤ
  pub min_reserves : ℤ
  pub hunt_cooldown : ℕ
  pub has_refresh : Bool
  pub has_probe : Bool
  pub has_on_dead : Bool
  pub has_on_change : Bool

-- `if poolSize < 1 { poolSize = 3 }`
abbrev pub pool_size_or_default : ℤ → ℕ
pool_size_or_default (pos zero) = 3
pool_size_or_default (pos (suc n)) = suc n
pool_size_or_default (negsuc n) = 3

-- `if minReserves < 0 { minReserves = 0 }`
abbrev pub reserves_or_zero : ℤ → ℕ
reserves_or_zero (pos n) = n
reserves_or_zero (negsuc n) = 0

unfoldable pub new_managed_pool : ManagedOptions → ManagedPool
new_managed_pool options = record {
  settings = record {
    pool_size = pool_size_or_default options.pool_size;
    min_reserves = reserves_or_zero options.min_reserves;
    hunt_cooldown = options.hunt_cooldown;
    has_refresh = options.has_refresh;
    has_probe = options.has_probe;
    has_on_dead = options.has_on_dead;
    has_on_change = options.has_on_change;
  };
  entries = replace [] options.entries;
  in_flight = false;
  last_failed = none;
  misses = [];
  dead = [];
  changes = [];
}

unfoldable pub notify_change : ManagedPool → ManagedPool
notify_change m =
    if m.settings.has_on_change then record m { changes = m.changes ++ m.entries ∷ [] } else m

-- `if m.onDead != nil { m.onDead(endpoint) }`
unfoldable pub report_dead : ManagedPool → Endpoint → ManagedPool
report_dead m e = if m.settings.has_on_dead then record m { dead = m.dead ++ e ∷ [] } else m

-- ManagedPool.PromoteReserve
unfoldable pub managed_promote_reserve : ManagedPool → ManagedPool × Bool
unfolding notify_change
managed_promote_reserve m =
    let (entries, promoted) = promote_reserve m.entries in
    if promoted then (notify_change (record m { entries = entries }), true) else (m, false)

-- reportDialRemovals: those that were in the pool before a dial and are not in it now.
unfoldable pub report_removals :
    ManagedPool → List VerifiedEndpoint → List VerifiedEndpoint → ManagedPool × Bool
unfolding report_dead
report_removals m after [] = (m, false)
report_removals m after (previous ∷ before) =
    let kept = contains_endpoint after previous.endpoint in
    let (m', changed) =
      report_removals (if kept then m else report_dead m previous.endpoint) after before in
    (m', not kept || changed)

unfoldable pub report_dial_removals : ManagedPool → List VerifiedEndpoint → ManagedPool
unfolding report_removals notify_change
report_dial_removals m before =
    let (m', changed) = report_removals m m.entries before in
    if changed then notify_change m' else m'
