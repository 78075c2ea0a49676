-- ===== src/Proxy/Managed/Refresh.antt =====
-- internal/proxy/managed.go: Refresh. It is cut where it gives up the mutex: the part up to the
-- call of the refresh function, and the part after it, so that others can act in between.
pub mod Laws
use bigducks_live.Base.{
  ℕ, zero, suc, ◌+◌, ◌-◌, Bool, true, false, not, ◌&&◌, ltb, leb, List, [], ◌∷◌, ◌++◌, Option, none,
  some, if◌then◌else◌, length,
}
use bigducks_live.Errors.{Error, no_proxy, refresh_cooldown, Result, ok, err}
use bigducks_live.Model.{VerifiedEndpoint}
use bigducks_live.Proxy.Pool.{merge}
use bigducks_live.Proxy.Managed.{ManagedPool, notify_change}

-- How the first part ends: an error or nil at once, the wait for another refresh, or a flight of
-- its own.
pub data Entry : Type 0 where
  returned : Option Error → Entry
  joined : Entry
  started : Entry

-- `!m.lastFailed.IsZero() && m.huntCooldown > 0 && m.now().Sub(m.lastFailed) < m.huntCooldown`. A
-- clock that went back gives a negative difference there, and 0 here; both are under the cooldown.
unfoldable pub cooling_down : ManagedPool → ℕ → Bool
cooling_down m now = elim m.last_failed [
  | none ↦ false
  | some failed ↦ ltb 0 m.settings.hunt_cooldown && ltb (now - failed) m.settings.hunt_cooldown
]

unfoldable pub refresh_begin : ManagedPool → Bool → ℕ → ManagedPool × Entry
refresh_begin m force now =
    if not m.settings.has_refresh
    then (m, returned (some no_proxy))
    else if m.in_flight
    then (m, joined)
    else if not force && leb m.settings.pool_size (length m.entries)
    then (m, returned none)
    else if not force && cooling_down m now
    then (m, returned (some refresh_cooldown))
    else (record m { in_flight = true }, started)

-- `if err == nil && len(entries) == 0 { err = ErrNoProxy }`
abbrev pub require_entries : Result (List VerifiedEndpoint) → Result (List VerifiedEndpoint)
require_entries (ok []) = err no_proxy
require_entries (ok (x ∷ xs)) = ok (x ∷ xs)
require_entries (err e) = err e

abbrev pub land : ManagedPool → ℕ → Result (List VerifiedEndpoint) → ManagedPool × Option Error
land m now (ok found) =
    let merged =
      notify_change (record m { entries = merge m.entries found m.settings.pool_size }) in
    (record merged { last_failed = none; in_flight = false }, none)
land m now (err e) = (record m { last_failed = some now; in_flight = false }, some e)

-- What the refresh function returned, at the time `now`.
unfoldable pub refresh_finish :
    ManagedPool → ℕ → Result (List VerifiedEndpoint) → ManagedPool × Option Error
refresh_finish m now fetched = land m now (require_entries fetched)

-- What a call of Refresh meets: the result of the flight that it may join, the times, what others do
-- to the pool while the refresh function runs (never to the flight), and what that returns.
pub record RefreshWorld : Type 0 where
  pub joined_result : Option Error
  pub begins : ℕ
  pub ends : ℕ
  pub meanwhile : List VerifiedEndpoint → List VerifiedEndpoint
  pub fetched : Result (List VerifiedEndpoint)

abbrev pub after_begin : RefreshWorld → ManagedPool → Entry → ManagedPool × Option Error
after_begin w m (returned e) = (m, e)
after_begin w m joined = (m, w.joined_result)
after_begin w m started =
    refresh_finish (record m { entries = w.meanwhile m.entries }) w.ends w.fetched

unfoldable pub refresh : ManagedPool → Bool → RefreshWorld → ManagedPool × Option Error
refresh m force w = let (m', entry) = refresh_begin m force w.begins in after_begin w m' entry
