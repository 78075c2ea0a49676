-- ===== src/App/Gateway.antt =====
-- internal/app/gateway.go: gatewayConnector. Its fields are state; onConnected is recorded in a
-- list, and a pool that is nil is none. `tracker.Track` returns nil for a nil connection only, so
-- that the connector's test of what it returned never holds and has no case here.
pub mod Routes
use bigducks_live.Base.{
  ℕ, Bool, true, false, List, [], ◌∷◌, ◌++◌, Option, none, some, if◌then◌else◌,
}
use bigducks_live.Base.Text.{Text, codes}
use bigducks_live.Errors.{Error, no_proxy, Result, ok, err}
use bigducks_live.Model.{Endpoint}
use bigducks_live.Relay.Tracker.{Tracker, Tracked, track}
use bigducks_live.App.Status.{
  RuntimeStatusStore, RecoveryState, protected, reconnecting, without_proxy, error_text,
  update_status, set_status,
}

pub record GatewayConnector : Type 0 where
  pub tracker : Option Tracker
  pub status : Option RuntimeStatusStore
  pub has_on_connected : Bool
  pub connected : List Endpoint

-- What `c.pool.DialWithEndpoint` returns.
pub record PoolAnswer : Type 0 where
  pub conn : Option ℕ
  pub endpoint : Endpoint
  pub error : Option Error

-- The net.Conn that a dial gives: the pool's, or the tracker's around it.
pub data Connection : Type 0 where
  untracked : ℕ → Connection
  tracked_by : Tracked → Connection

-- `if c.status != nil { c.status.Update(...) }`
unfoldable pub report :
    Text → RecoveryState → Text → Text → Option RuntimeStatusStore → Option RuntimeStatusStore
report now state technical message none = none
report now state technical message (some s) =
    some (update_status now (set_status state technical message) s)

unfoldable pub dial_refused : Text → Error → GatewayConnector → GatewayConnector × Result Connection
dial_refused now e c = (
  record c {
    status =
        report now without_proxy (error_text e)
          (codes "Nenhum proxy verificado respondeu dentro do prazo") c.status;
  },
  err e,
)

abbrev pub track_if : Option Tracker → Endpoint → ℕ → Option Tracker × Connection
track_if none e conn = (none, untracked conn)
track_if (some t) e conn = let (t', c) = track t e conn in (some t', tracked_by c)

unfoldable pub dial_succeeded :
    Text → Endpoint → ℕ → GatewayConnector → GatewayConnector × Result Connection
dial_succeeded now e conn c =
    let (tracker, connection) = track_if c.tracker e conn in
    (
      record c {
        tracker = tracker;
        status =
            report now protected [] (codes "Gateway conectado por uma rota protegida") c.status;
        connected = if c.has_on_connected then c.connected ++ e ∷ [] else c.connected;
      },
      ok connection,
    )

-- `err != nil || result.Conn == nil`, with ErrNoProxy where there is no error.
unfoldable pub after_pool :
    Text → PoolAnswer → GatewayConnector → GatewayConnector × Result Connection
after_pool now answer c = elim answer.error [
  | some e ↦ dial_refused now e c
  | none ↦ elim answer.conn [
    | none ↦ dial_refused now no_proxy c
    | some conn ↦ dial_succeeded now answer.endpoint conn c
  ]
]

unfoldable pub opening : Text → GatewayConnector → GatewayConnector
opening now c = record c {
  status =
      report now reconnecting [] (codes "Abrindo uma conexão protegida com o gateway") c.status;
}

-- gatewayConnector.Dial: the times of its two updates, and what the pool answers in between. Others
-- use the tracker and the status meanwhile.
unfoldable pub gateway_dial :
    Text
    → Text
    → Option ((GatewayConnector → GatewayConnector) × PoolAnswer)
    → GatewayConnector
    → GatewayConnector × Result Connection
gateway_dial now later none c = (c, err no_proxy)
gateway_dial now later (some (meanwhile, answer)) c =
    after_pool later answer (meanwhile (opening now c))
