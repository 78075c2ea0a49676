-- ===== src/App/Gateway/Routes.antt =====
-- What gatewayConnector.Dial of internal/app/gateway.go promises: a route through a proxy or none.
use bigducks_live.Base.{ℕ, ◌≡◌, ◌⊎◌, refl, inl, inr, true, [], Option, none, some}
use bigducks_live.Base.Text.{Text}
use bigducks_live.Errors.{Error, no_proxy, Result, ok, err}
use bigducks_live.Model.{Endpoint, same_endpoint_refl}
use bigducks_live.Relay.Tracker.{Tracker, track, in_use, endpoint_in_use}
use bigducks_live.App.Status.{
  RuntimeStatusStore, RecoveryState, protected, without_proxy, error_text, update_status,
}
use bigducks_live.App.Gateway.{
  GatewayConnector, track_if, PoolAnswer, Connection, untracked, tracked_by, report, opening,
  dial_refused, dial_succeeded, after_pool, gateway_dial,
}

-- The status shows a state, if there is one to show it.
abbrev pub Shows : RecoveryState → Text → Option RuntimeStatusStore → Type 0
Shows state technical none = Unit
Shows state technical (some s) = (s.status.state ≡ state) × (s.status.last_error ≡ technical)

-- The tracker, if there is one, has the tunnel and knows its endpoint as in use.
abbrev pub Carries : Connection → Endpoint → ℕ → Option Tracker → Option Tracker → Type 0
Carries connection e conn none after = (connection ≡ untracked conn) × (after ≡ none)
Carries connection e conn (some t) after =
    (connection ≡ tracked_by (track t e conn).1)
    × (after ≡ some (track t e conn).0)
    × (in_use (track t e conn).0 e ≡ true)

-- The pool had a route: the connection is its, tracked under its endpoint, and the status says so.
abbrev pub Routed : PoolAnswer → GatewayConnector → GatewayConnector × Result Connection → Type 0
Routed answer c r =
    (conn : ℕ) × (connection : Connection) × (answer.error ≡ none)
    × (answer.conn ≡ some conn)
    × (r.1 ≡ ok connection)
    × Carries connection answer.endpoint conn c.tracker r.0.tracker
    × Shows protected [] r.0.status

-- It had none: an error, no connection, no tunnel, nobody told of one.
abbrev pub Refused : PoolAnswer → GatewayConnector → GatewayConnector × Result Connection → Type 0
Refused answer c r =
    (e : Error) × ((answer.error ≡ some e) ⊎ ((answer.conn ≡ none) × (e ≡ no_proxy)))
    × (r.1 ≡ err e)
    × (r.0.tracker ≡ c.tracker)
    × (r.0.connected ≡ c.connected)
    × Shows without_proxy (error_text e) r.0.status

pub report-Shows :
    (now : Text) (state : RecoveryState) (technical message : Text) (s : Option RuntimeStatusStore)
    → Shows state technical (report now state technical message s)
unfolding report update_status
report-Shows now state technical message none = tt
report-Shows now state technical message (some s) = (refl, refl)

track_if-Carries :
    (t : Option Tracker) (e : Endpoint) (conn : ℕ)
    → Carries (track_if t e conn).1 e conn t (track_if t e conn).0
unfolding track in_use endpoint_in_use
track_if-Carries none e conn = (refl, refl)
track_if-Carries (some t) e conn = (refl, refl, rw (same_endpoint_refl e) refl)

dial_succeeded-Routed :
    (now : Text) (answer : PoolAnswer) (conn : ℕ) (c : GatewayConnector)
    → answer.error ≡ none
    → answer.conn ≡ some conn
    → Routed answer c (dial_succeeded now answer.endpoint conn c)
unfolding dial_succeeded
dial_succeeded-Routed now answer conn c e f = (
  conn,
  (track_if c.tracker answer.endpoint conn).1,
  e,
  f,
  refl,
  track_if-Carries c.tracker answer.endpoint conn,
  report-Shows now protected [] _ c.status,
)

dial_refused-Refused :
    (now : Text) (answer : PoolAnswer) (e : Error) (c : GatewayConnector)
    → (answer.error ≡ some e) ⊎ ((answer.conn ≡ none) × (e ≡ no_proxy))
    → Refused answer c (dial_refused now e c)
unfolding dial_refused
dial_refused-Refused now answer e c why =
    (e, why, refl, refl, refl, report-Shows now without_proxy (error_text e) _ c.status)

abbrev Routes : Text → GatewayConnector → PoolAnswer → Type 0
Routes now c answer =
    Routed answer c (after_pool now answer c) ⊎ Refused answer c (after_pool now answer c)

after_pool-route :
    (now : Text) (c : GatewayConnector) (e : Endpoint) (conn : Option ℕ) (error : Option Error)
    → Routes now c (record { conn = conn; endpoint = e; error = error })
unfolding after_pool
after_pool-route now c e conn (some error) =
    let answer : PoolAnswer = record { conn = conn; endpoint = e; error = some error } in
    inr (dial_refused-Refused now answer error c (inl refl))
after_pool-route now c e none none =
    let answer : PoolAnswer = record { conn = none; endpoint = e; error = none } in
    inr (dial_refused-Refused now answer no_proxy c (inr (refl, refl)))
after_pool-route now c e (some conn) none =
    let answer : PoolAnswer = record { conn = some conn; endpoint = e; error = none } in
    inl (dial_succeeded-Routed now answer conn c refl refl)

-- Whatever others do to the connector while its pool dials, Dial ends in one of two ways, which the
-- status shows if there is one. Either
-- the pool answered with a connection and no error: then that connection is returned, by way of the
-- tracker if there is one, which now has the pool's endpoint in use, and the status is protected
-- with no error. Or the pool answered with an error or with no connection: then that error, or
-- ErrNoProxy, is returned and shown in a status without proxy, no tunnel is tracked and no
-- connection is announced.
pub gateway_dial-route :
    (now later : Text) (meanwhile : GatewayConnector → GatewayConnector) (answer : PoolAnswer)
    (c : GatewayConnector)
    → let r = gateway_dial now later (some (meanwhile, answer)) c in
      let during = meanwhile (opening now c) in Routed answer during r ⊎ Refused answer during r
unfolding gateway_dial
gateway_dial-route now later meanwhile answer c =
    after_pool-route later (meanwhile (opening now c)) answer.endpoint answer.conn answer.error
