-- ===== src/Tests/Core.antt =====
-- Inputs for internal/app.
use bigducks_live.Base.{
  ◌≡◌, ◌⊎◌, ◌<◌, ◌≤◌, ◌+◌, ◌^◌, true, false, List, [], ◌∷◌, ◌++◌, none, some, length, arith,
}
use bigducks_live.Base.Text.{codes}
use bigducks_live.Errors.{no_proxy, disconnected, deadline_exceeded, err}
use bigducks_live.Model.{Endpoint, VerifiedEndpoint}
use bigducks_live.Relay.Tracker.{Tracker, new_tracker, track, close_all}
use bigducks_live.Relay.Tracker.Invariant.{IsValid, new_tracker-IsValid, track-IsValid}
use bigducks_live.Relay.Tracker.Close.{next_id-close_all}
use bigducks_live.Relay.Tracker.Wait.{opens, all_events}
use bigducks_live.App.Status.{new_runtime_status_store, protected, reconnecting, set_status}
use bigducks_live.App.Status.Log.{
  Update, last, update_all, full_log, status_after, update_all-full_log,
}
use bigducks_live.App.Gateway.{GatewayConnector, PoolAnswer, opening, gateway_dial}
use bigducks_live.App.Gateway.Routes.{Routed, Refused, gateway_dial-route}
use bigducks_live.App.Recovery.{Runtime, RecoveryWorld, recover}
use bigducks_live.App.Recovery.Outcome.{Renewed, Late, NoRoute, Turned, recover-outcome}
use bigducks_live.App.Control.{RuntimeBindings, new_runtime_control, bind, unbind, stopped_status}
use bigducks_live.App.Control.Bindings.{
  binds, sets, unbinds, used, bind_count, Unavailable, unbind_after_bind,
}

abbrev exit_node : Endpoint
exit_node = record {
  scheme = codes "socks5";
  host = codes "198.51.100.7";
  port = 1080;
  user = [];
  pass = [];
}

abbrev verified_exit : VerifiedEndpoint
verified_exit = record {
  endpoint = exit_node;
  latency_ms = 80;
  country = codes "NL";
  checked_at = 1;
}

-- Three updates, of which the second changes nothing.
abbrev updates : List Update
updates =
    (codes "t1", set_status reconnecting [] (codes "dialing"))
    ∷ (codes "t2", set_status reconnecting [] (codes "dialing"))
    ∷ (codes "t3", set_status protected [] (codes "live"))
    ∷ []

update_all-full_log_example :
    ((update_all new_runtime_status_store updates).events
      ≡ last 50
          (new_runtime_status_store.events ++ full_log new_runtime_status_store.status updates))
    × ((update_all new_runtime_status_store updates).status
        ≡ status_after new_runtime_status_store.status updates)
    × (length (update_all new_runtime_status_store updates).events ≤ 50)
update_all-full_log_example = update_all-full_log new_runtime_status_store updates (omega arith)

abbrev connector : GatewayConnector
connector = record {
  tracker = some new_tracker;
  status = some new_runtime_status_store;
  has_on_connected = true;
  connected = [];
}

abbrev route_found : PoolAnswer
route_found = record { conn = some 7; endpoint = exit_node; error = none }

gateway_dial-route_example :
    let r = gateway_dial (codes "t1") (codes "t2") (some (λ c. c, route_found)) connector in
    let during = opening (codes "t1") connector in
    Routed route_found during r ⊎ Refused route_found during r
gateway_dial-route_example =
    gateway_dial-route (codes "t1") (codes "t2") (λ c. c) route_found connector

abbrev one_tunnel : Tracker
one_tunnel = (track new_tracker exit_node 100).0

one_tunnel-IsValid : IsValid one_tunnel
one_tunnel-IsValid = (track-IsValid new_tracker exit_node 100 new_tracker-IsValid (omega arith)).0

abbrev core : Runtime
core = record {
  pool = record {
    settings = record {
      pool_size = 3;
      min_reserves = 1;
      hunt_cooldown = 100;
      has_refresh = true;
      has_probe = true;
      has_on_dead = true;
      has_on_change = true;
    };
    entries = verified_exit ∷ [];
    in_flight = false;
    last_failed = none;
    misses = [];
    dead = [];
    changes = [];
  };
  tunnels = one_tunnel;
  status = some new_runtime_status_store;
}

-- The bridge fails, and a new tunnel opens.
abbrev recovery : RecoveryWorld
recovery = record {
  now = codes "t1";
  gate = none;
  refreshing = record {
    joined_result = none;
    begins = 5;
    ends = 6;
    meanwhile = λ entries. entries;
    fetched = err no_proxy;
  };
  bridge = some (some disconnected);
  waiting = (opens exit_node 101 ∷ []) ∷ [];
  last = [];
  done = deadline_exceeded;
}

room_for_one : (close_all one_tunnel).0.next_id + 1 < 2 ^ 64
unfolding track
room_for_one = omega (arith, next_id-close_all one_tunnel)

recover-outcome_example :
    Renewed recovery one_tunnel (recover recovery core)
    ⊎ (Late recovery one_tunnel (recover recovery core)
        ⊎ (NoRoute core (recover recovery core) ⊎ Turned none core (recover recovery core)))
unfolding all_events
recover-outcome_example = recover-outcome recovery core one_tunnel-IsValid (room_for_one, tt)

abbrev bound : RuntimeBindings
bound = record { reconnect = some none; reload = some none; test_route = some none; status = none }

-- The second run binds the control before the first one ends.
unbind_after_bind_example :
    let c' =
      used (sets stopped_status ∷ binds bound ∷ unbinds 0 ∷ []) (bind new_runtime_control bound) in
    ((bind_count (sets stopped_status ∷ binds bound ∷ unbinds 0 ∷ []) ≡ 0)
      × Unavailable (unbind 1 c'))
    ⊎ ((0 < bind_count (sets stopped_status ∷ binds bound ∷ unbinds 0 ∷ [])) × (unbind 1 c' ≡ c'))
unfolding bind bind_count
unbind_after_bind_example =
    unbind_after_bind new_runtime_control bound (sets stopped_status ∷ binds bound ∷ unbinds 0 ∷ [])
      (omega arith)
