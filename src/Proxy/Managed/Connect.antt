-- ===== src/Proxy/Managed/Connect.antt =====
-- internal/proxy/managed.go: DialWithEndpoint, which dials, refreshes the pool when every entry was
-- refused, and dials once more.
pub mod Errors
use bigducks_live.Base.{ℕ, Bool, true, false, List, [], ◌∷◌, Option, none, some}
use bigducks_live.Base.Text.{Text}
use bigducks_live.Errors.{Error, no_proxy, Result, ok, err}
use bigducks_live.Model.{VerifiedEndpoint}
use bigducks_live.Proxy.Dial.{World, DialResult, dial_with_endpoint}
use bigducks_live.Proxy.Managed.{ManagedPool, report_dial_removals}
use bigducks_live.Proxy.Managed.Refresh.{RefreshWorld, refresh}

-- What the call meets: the two dials, the refresh, and what `ctx.Err()` says at each of the three
-- places that ask.
pub record ConnectWorld : Type 0 where
  pub first : World
  pub parent_after_first : Option Error
  pub refreshing : RefreshWorld
  pub parent_after_refresh : Option Error
  pub second : World
  pub parent_after_second : Option Error

-- `if parentErr := ctx.Err(); parentErr != nil { return parentErr }; return ErrNoProxy`
abbrev pub parent_or_no_proxy : Option Error → Result DialResult
parent_or_no_proxy none = err no_proxy
parent_or_no_proxy (some e) = err e

abbrev pub second_failed : ConnectWorld → Result DialResult → Result DialResult
second_failed w (ok r) = ok r
second_failed w (err e) = parent_or_no_proxy w.parent_after_second

-- The removals are reported only if the dial failed.
abbrev pub report_if_failed : ManagedPool → List VerifiedEndpoint → Result DialResult → ManagedPool
report_if_failed m before (ok r) = m
report_if_failed m before (err e) = report_dial_removals m before

unfoldable pub second_dial : ManagedPool → Text → ℕ → ConnectWorld → ManagedPool × Result DialResult
second_dial m host port w =
    let run = dial_with_endpoint w.second host port m.entries in
    (
      report_if_failed (record m { entries = run.entries }) m.entries run.result,
      second_failed w run.result,
    )

abbrev pub after_refresh :
    ManagedPool × Option Error → Text → ℕ → ConnectWorld → ManagedPool × Result DialResult
after_refresh (m, some e) host port w = (m, parent_or_no_proxy w.parent_after_refresh)
after_refresh (m, none) host port w = second_dial m host port w

abbrev pub recover_dial :
    ManagedPool → Option Error → Text → ℕ → ConnectWorld → ManagedPool × Result DialResult
recover_dial m (some e) host port w = (m, err e)
recover_dial m none host port w = after_refresh (refresh m true w.refreshing) host port w

abbrev pub after_first :
    ManagedPool
    → List VerifiedEndpoint
    → Result DialResult
    → Text
    → ℕ
    → ConnectWorld
    → ManagedPool × Result DialResult
after_first m before (ok r) host port w = (m, ok r)
after_first m before (err e) host port w =
    recover_dial (report_dial_removals m before) w.parent_after_first host port w

unfoldable pub managed_dial :
    ManagedPool → Text → ℕ → ConnectWorld → ManagedPool × Result DialResult
managed_dial m host port w =
    let run = dial_with_endpoint w.first host port m.entries in
    after_first (record m { entries = run.entries }) m.entries run.result host port w
