-- ===== src/App/Recovery.antt =====
-- internal/app/recovery.go: RecoveryCoordinator.Recover, over the pool of internal/proxy/managed.go
-- and the tracker of internal/relay/tracker.go. Others touch only the tunnels, and from CloseAll on.
pub mod Outcome
use bigducks_live.Base.{
  ℕ, zero, suc, ◌+◌, Bool, true, false, List, [], ◌∷◌, ◌++◌, Option, none, some, if◌then◌else◌,
  length, ◌==◌,
}
use bigducks_live.Base.Text.{Text, codes}
use bigducks_live.Errors.{Error, Result, ok, err}
use bigducks_live.Proxy.Managed.{ManagedPool, managed_promote_reserve}
use bigducks_live.Proxy.Managed.Refresh.{RefreshWorld, refresh}
use bigducks_live.Relay.Tracker.{Tracker, close_all}
use bigducks_live.Relay.Tracker.Wait.{Event, wait_for_connection}
use bigducks_live.App.Status.{
  RuntimeStatusStore, RecoveryState, protected, reconnecting, without_proxy, failed, error_text,
}
use bigducks_live.App.Gateway.{report}

pub record RecoveryResult : Type 0 where
  pub state : RecoveryState
  pub message : Text
  pub used_bridge : Bool

-- The pool, the tunnels and the status that the coordinator works on.
pub record Runtime : Type 0 where
  pub pool : ManagedPool
  pub tunnels : Tracker
  pub status : Option RuntimeStatusStore

-- What Recover meets: the context's error if it is done before the gate opens; the refresh of an
-- empty pool; the answer of the bridge, if there is one; the events while it waits, by the looks of
-- WaitForConnection, and the error of the context when it is done. `now` is the time of every status.
pub record RecoveryWorld : Type 0 where
  pub now : Text
  pub gate : Option Error
  pub refreshing : RefreshWorld
  pub bridge : Option (Option Error)
  pub waiting : List (List Event)
  pub last : List Event
  pub done : Error

abbrev pub set_runtime_status : RecoveryWorld → RecoveryState → Text → Text → Runtime → Runtime
set_runtime_status w state technical message r = record r {
  status = report w.now state technical message r.status;
}

abbrev pub used_bridge_of : Option (Option Error) → Bool
used_bridge_of none = false
used_bridge_of (some none) = true
used_bridge_of (some (some e)) = false

-- `technical`, with the error of the bridge if there was one.
unfoldable pub technical_text : Error → Option (Option Error) → Text
technical_text e none = error_text e
technical_text e (some none) = error_text e
technical_text e (some (some b)) = error_text e ++ codes "; Electron redial: " ++ error_text b

unfoldable pub after_wait :
    RecoveryWorld → Runtime → Tracker × Option Error → Runtime × RecoveryResult × Option Error
after_wait w r (t, some e) =
    let message = codes "O Discord não abriu uma nova conexão de gateway dentro do prazo" in
    (
      set_runtime_status w failed (technical_text e w.bridge) message (record r { tunnels = t }),
      record { state = failed; message = message; used_bridge = used_bridge_of w.bridge },
      some e,
    )
after_wait w r (t, none) =
    let message = codes "A live está usando uma nova rota protegida" in
    (
      set_runtime_status w protected [] message (record r { tunnels = t }),
      record { state = protected; message = message; used_bridge = used_bridge_of w.bridge },
      none,
    )

-- From `before := c.tunnels.Generation()` on.
unfoldable pub redial : RecoveryWorld → Runtime → Runtime × RecoveryResult × Option Error
redial w r =
    let before = r.tunnels.generation in
    let (pool, promoted) = managed_promote_reserve r.pool in
    let (tunnels, closed) = close_all r.tunnels in
    after_wait w (record r { pool = pool; tunnels = tunnels })
      (wait_for_connection tunnels before w.waiting w.last w.done)

abbrev pub after_recovery_refresh :
    RecoveryWorld → Runtime → ManagedPool × Option Error → Runtime × RecoveryResult × Option Error
after_recovery_refresh w r (pool, some e) =
    let message = codes "Nenhum proxy verificado está disponível" in
    (
      set_runtime_status w without_proxy (error_text e) message (record r { pool = pool }),
      record { state = without_proxy; message = message; used_bridge = false },
      some e,
    )
after_recovery_refresh w r (pool, none) = redial w (record r { pool = pool })

-- `c.setStatus(RecoveryReconnecting, ...)`
abbrev pub preparing : RecoveryWorld → Runtime → Runtime
preparing w r =
    set_runtime_status w reconnecting [] (codes "Preparando uma nova rota para a live") r

unfoldable pub through_gate : RecoveryWorld → Runtime → Runtime × RecoveryResult × Option Error
through_gate w r =
    let r' = preparing w r in
    if length r'.pool.entries == 0
    then after_recovery_refresh w r' (refresh r'.pool true w.refreshing)
    else redial w r'

abbrev pub at_gate :
    RecoveryWorld → Option Error → Runtime → Runtime × RecoveryResult × Option Error
at_gate w (some e) r = (r, record { state = failed; message = []; used_bridge = false }, some e)
at_gate w none r = through_gate w r

-- RecoveryCoordinator.Recover of a coordinator that has a pool and tunnels.
unfoldable pub recover : RecoveryWorld → Runtime → Runtime × RecoveryResult × Option Error
recover w r = at_gate w w.gate r
