-- ===== src/Proxy/Managed/Heartbeat.antt =====
-- internal/proxy/managed.go: HeartbeatOnce. The probes run at once; their results come in some
-- order, and are handled one by one. `in_use` is what the callback inUse answers at that moment.
pub mod Misses
pub mod Evict
use bigducks_live.Base.{
  ℕ, zero, suc, ◌+◌, Bool, true, false, not, ◌&&◌, ◌||◌, ltb, leb, List, [], ◌∷◌, ◌++◌, Option,
  none, some, if◌then◌else◌, length,
}
use bigducks_live.Base.Text.{Text, text_eq}
use bigducks_live.Errors.{Error}
use bigducks_live.Model.{Endpoint, VerifiedEndpoint}
use bigducks_live.Model.Url.{url}
use bigducks_live.Proxy.Pool.{invalidate}
use bigducks_live.Proxy.Managed.{ManagedPool, notify_change, report_dead}
use bigducks_live.Proxy.Managed.Refresh.{RefreshWorld, refresh}

-- The map of missed heartbeats: a read of a missing key gives 0.
unfoldable pub miss_count : Text → List (Text × ℕ) → ℕ
miss_count key [] = 0
miss_count key ((k, n) ∷ misses) = if text_eq k key then n else miss_count key misses

unfoldable pub delete_misses : Text → List (Text × ℕ) → List (Text × ℕ)
delete_misses key [] = []
delete_misses key ((k, n) ∷ misses) =
    let rest = delete_misses key misses in if text_eq k key then rest else (k, n) ∷ rest

unfoldable pub set_misses : Text → ℕ → List (Text × ℕ) → List (Text × ℕ)
set_misses key n misses = (key, n) ∷ delete_misses key misses

pub record ProbeResult : Type 0 where
  pub entry : VerifiedEndpoint
  pub failed : Bool
  pub in_use : Bool

abbrev pub key_of : ProbeResult → Text
key_of r = url r.entry.endpoint

-- The eviction of an entry that missed too often.
unfoldable pub evict : ManagedPool → ProbeResult → ManagedPool
evict m r =
    report_dead
      (record m {
        entries = invalidate r.entry.endpoint m.entries;
        misses = delete_misses (key_of r) m.misses;
      })
      r.entry.endpoint

-- One result: the pool, and whether the entry was evicted.
unfoldable pub handle_result : ManagedPool → ProbeResult → ManagedPool × Bool
handle_result m r =
    if not r.failed
    then (record m { misses = delete_misses (key_of r) m.misses }, false)
    else (let misses = miss_count (key_of r) m.misses + 1 in
        let threshold : ℕ = if r.in_use then 1 else 2 in
        if ltb misses threshold
        then (record m { misses = set_misses (key_of r) misses m.misses }, false)
        else (evict m r, true))

unfoldable pub handle_results : ManagedPool → List ProbeResult → ManagedPool × Bool
handle_results m [] = (m, false)
handle_results m (r ∷ rs) =
    let (m', evicted) = handle_result m r in
    let (m'', changed) = handle_results m' rs in (m'', evicted || changed)

unfoldable pub probe_entries : ManagedPool → List ProbeResult → ManagedPool
probe_entries m results =
    if m.settings.has_probe && ltb 0 (length m.entries)
    then (let (m', changed) = handle_results m results in if changed then notify_change m' else m')
    else m

-- `desired := 1 + minReserves`, at most the pool's size.
unfoldable pub desired_entries : ManagedPool → ℕ
desired_entries m =
    let desired = 1 + m.settings.min_reserves in
    if ltb m.settings.pool_size desired then m.settings.pool_size else desired

unfoldable pub heartbeat_once : ManagedPool → List ProbeResult → RefreshWorld → ManagedPool
heartbeat_once m results w =
    let m' = probe_entries m results in
    if ltb (length m'.entries) (desired_entries m') then (refresh m' false w).0 else m'
