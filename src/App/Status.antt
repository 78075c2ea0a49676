-- ===== src/App/Status.antt =====
-- internal/app: the types of control.go and runtimeStatusStore of gateway.go. Messages are lists of
-- code points: the program only compares them. The time of an event is an argument.
pub mod Log
use bigducks_live.Base.{
  ℕ, ◌-◌, Bool, true, false, not, ◌||◌, List, [], ◌∷◌, ◌++◌, length, drop, ltb, if◌then◌else◌,
}
use bigducks_live.Base.Text.{Text, codes, text_eq, is_empty}
use bigducks_live.Errors.{
  Error, no_proxy, refresh_cooldown, runtime_unavailable, bridge_unavailable, disconnected,
  canceled, deadline_exceeded, failure,
}

pub data RecoveryState : Type 0 where
  starting protected reconnecting without_proxy failed repair_required stopped : RecoveryState

-- The string that a state is.
unfoldable pub state_text : RecoveryState → Text
state_text starting = codes "starting"
state_text protected = codes "protected"
state_text reconnecting = codes "reconnecting"
state_text without_proxy = codes "no_proxy"
state_text failed = codes "failed"
state_text repair_required = codes "repair_required"
state_text stopped = codes "stopped"

-- `err.Error()`
unfoldable pub error_text : Error → Text
error_text no_proxy = codes "no verified proxy available"
error_text refresh_cooldown = codes "proxy refresh is cooling down"
error_text runtime_unavailable = codes "o núcleo do BIG DUCKS não está disponível"
error_text bridge_unavailable = codes "Discord reload bridge is unavailable"
error_text disconnected = codes "Discord reload bridge disconnected"
error_text canceled = codes "context canceled"
error_text deadline_exceeded = codes "context deadline exceeded"
error_text (failure s) = codes s

pub record RuntimeEvent : Type 0 where
  pub at_time : Text
  pub level : Text
  pub code : Text
  pub message : Text
  pub details : Text

pub record RuntimeStatus : Type 0 where
  pub state : RecoveryState
  pub pool_size : ℕ
  pub tunnel_count : ℕ
  pub bridge_connected : Bool
  pub injection_state : Text
  pub repair_required : Bool
  pub last_error : Text
  pub last_message : Text
  pub active_proxy : Text
  pub latency_ms : ℕ
  pub recent_events : List RuntimeEvent

-- `RuntimeStatus{State: state, LastError: technical, LastMessage: message}`
abbrev pub status_of : RecoveryState → Text → Text → RuntimeStatus
status_of state technical message = record {
  state = state;
  pool_size = 0;
  tunnel_count = 0;
  bridge_connected = false;
  injection_state = [];
  repair_required = false;
  last_error = technical;
  last_message = message;
  active_proxy = [];
  latency_ms = 0;
  recent_events = [];
}

pub record RuntimeStatusStore : Type 0 where
  pub status : RuntimeStatus
  pub events : List RuntimeEvent

abbrev pub new_runtime_status_store : RuntimeStatusStore
new_runtime_status_store = record {
  status = status_of starting [] (codes "Preparando a proteção da live");
  events = [];
}

unfoldable pub event_level : RecoveryState → Text
event_level protected = codes "success"
event_level failed = codes "error"
event_level repair_required = codes "error"
event_level starting = codes "info"
event_level reconnecting = codes "info"
event_level without_proxy = codes "info"
event_level stopped = codes "info"

-- `before.State != s.status.State || before.LastMessage != ... || before.LastError != ...`
unfoldable pub differs : RuntimeStatus → RuntimeStatus → Bool
differs before status =
    not (text_eq (state_text before.state) (state_text status.state))
    || not (text_eq before.last_message status.last_message)
    || not (text_eq before.last_error status.last_error)

unfoldable pub runtime_event : Text → RuntimeStatus → RuntimeEvent
runtime_event now status = record {
  at_time = now;
  level = event_level status.state;
  code = codes "route." ++ state_text status.state;
  message = if is_empty status.last_message then state_text status.state else status.last_message;
  details = status.last_error;
}

-- `append` of one event, of which the last 50 are kept.
unfoldable pub append_event : List RuntimeEvent → RuntimeEvent → List RuntimeEvent
append_event events event =
    let all = events ++ event ∷ [] in
    if ltb 50 (length all) then drop (length all - 50) all else all

-- runtimeStatusStore.Update
unfoldable pub update_status :
    Text → (RuntimeStatus → RuntimeStatus) → RuntimeStatusStore → RuntimeStatusStore
update_status now update s =
    let status = update s.status in
    record {
      status = status;
      events =
          if differs s.status status
          then append_event s.events (runtime_event now status)
          else s.events;
    }

-- runtimeStatusStore.Snapshot
abbrev pub status_snapshot : RuntimeStatusStore → RuntimeStatus
status_snapshot s = record s.status { recent_events = s.events }

-- RecoveryCoordinator.setStatus; the connector sets the same three fields.
abbrev pub set_status : RecoveryState → Text → Text → RuntimeStatus → RuntimeStatus
set_status state technical message status = record status {
  state = state;
  last_error = technical;
  last_message = message;
}
