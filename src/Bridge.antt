-- ===== src/Bridge.antt =====
-- internal/bridge/server.go: the server that Discord's injected script connects to, as a record under
-- its mutex, and the events that change it. A pending channel is known by its command's id; what is
-- sent on the channels is kept in order. Encode works or not, as an event says. Reads and writes of
-- sockets, the control file and the random token are left out; a message may come at any time.
pub mod Sound
pub mod Answers
use bigducks_live.Base.{
  ℕ, ◌+◌, ◌%◌, ◌^◌, Bool, true, false, not, ◌&&◌, ◌||◌, ◌==◌, List, [], ◌∷◌, ◌++◌, Option, none,
  some, if◌then◌else◌,
}
use bigducks_live.Base.Text.{Text, codes, text_eq, is_empty}
use bigducks_live.Errors.{Error, bridge_unavailable, failure, Result, ok, err}

abbrev pub u64 : ℕ
u64 = 2 ^ 64

pub record ProtocolMessage : Type 0 where
  pub kind : Text
  pub token : Text
  pub id : ℕ
  pub is_ok : Bool
  pub error_text : Text
  pub url : Text
  pub value : Text

-- commandResult: a value, the error that the client named, or ErrDisconnected.
pub data CommandResult : Type 0 where
  resolved : Text → CommandResult
  rejected : Text → CommandResult
  was_disconnected : CommandResult

-- `answers` are the sends on the channels of the commands.
pub record Server : Type 0 where
  pub listening : Bool
  pub conn : Option ℕ
  pub token : Text
  pub last_seen : ℕ
  pub next_id : ℕ
  pub pending : List ℕ
  pub closed : Bool
  pub answers : List (ℕ × CommandResult)

pub record BridgeStatus : Type 0 where
  pub connected : Bool
  pub last_seen : ℕ

abbrev pub new_server : Server
new_server = record {
  listening = false;
  conn = none;
  token = [];
  last_seen = 0;
  next_id = 0;
  pending = [];
  closed = false;
  answers = [];
}

unfoldable pub is_pending : ℕ → List ℕ → Bool
is_pending id [] = false
is_pending id (x ∷ xs) = (id == x) || is_pending id xs

-- delete(s.pending, id)
unfoldable pub without : ℕ → List ℕ → List ℕ
without id [] = []
without id (x ∷ xs) = let rest = without id xs in if id == x then rest else x ∷ rest

abbrev pub has_conn : Option ℕ → Bool
has_conn none = false
has_conn (some c) = true

abbrev pub is_conn : ℕ → Option ℕ → Bool
is_conn c none = false
is_conn c (some d) = c == d

abbrev pub disconnect_all : List ℕ → List (ℕ × CommandResult)
disconnect_all [] = []
disconnect_all (id ∷ ids) = (id, was_disconnected) ∷ disconnect_all ids

-- failPendingLocked(ErrDisconnected)
unfoldable pub fail_pending : Server → Server
fail_pending s = record s { pending = []; answers = s.answers ++ disconnect_all s.pending }

-- Start, from its lock on.
unfoldable pub start : Text → Server → Server × Result (Unit {0})
start token s =
    if s.listening || s.closed
    then (s, err (failure "bridge server has already been started"))
    else (record s { listening = true; token = token }, ok tt)

abbrev pub message_of : Text → Text → ProtocolMessage
message_of kind url = record {
  kind = kind;
  token = [];
  id = 0;
  is_ok = false;
  error_text = [];
  url = url;
  value = [];
}

-- The start of command, until it waits for its result: the id, or an error.
unfoldable pub command : Bool → ProtocolMessage → Server → Server × Result ℕ
command encodes message s =
    if not (has_conn s.conn) || s.closed
    then (s, err bridge_unavailable)
    else (let id = (s.next_id + 1) % u64 in
        if encodes
        then (record s { next_id = id; pending = id ∷ without id s.pending }, ok id)
        else (
          record s { next_id = id; pending = without id s.pending },
          err (failure "send command"),
        ))

unfoldable pub reload : Bool → Server → Server × Result ℕ
reload encodes s = command encodes (message_of (codes "reload") []) s

unfoldable pub close_connections : Bool → Server → Server × Result ℕ
close_connections encodes s = command encodes (message_of (codes "close_connections") []) s

unfoldable pub resolve_proxy : Bool → Text → Server → Server × Result ℕ
resolve_proxy encodes url s =
    if is_empty url
    then (s, err (failure "proxy resolution URL is empty"))
    else command encodes (message_of (codes "resolve_proxy") url) s

-- The end of command when its context is done first.
unfoldable pub abandon : ℕ → Server → Server
abandon id s = record s { pending = without id s.pending }

unfoldable pub bridge_status : Server → BridgeStatus
bridge_status s = record { connected = has_conn s.conn && not s.closed; last_seen = s.last_seen }

-- Close; a second call does nothing.
unfoldable pub close : Server → Server
close s =
    if s.closed
    then s
    else fail_pending (record s { closed = true; listening = false; conn = none })

-- handleClient, of its first message.
unfoldable pub hello : ℕ → ℕ → ProtocolMessage → Server → Server
hello now c message s =
    if not (text_eq message.kind (codes "hello"))
    then s
    else if s.closed || not (text_eq message.token s.token) || has_conn s.conn
    then s
    else record s { conn = some c; last_seen = now }

abbrev pub or_default : Text → Text
or_default [] = codes "Discord rejected the reload command"
or_default (c ∷ text) = c ∷ text

abbrev pub result_of : ProtocolMessage → CommandResult
result_of message =
    if message.is_ok then resolved message.value else rejected (or_default message.error_text)

-- handleClient, of a later message.
unfoldable pub receive : ℕ → ProtocolMessage → Server → Server
receive now message s =
    if not (text_eq message.kind (codes "result")) || message.id == 0
    then s
    else if is_pending message.id s.pending
    then record s {
      last_seen = now;
      pending = without message.id s.pending;
      answers = s.answers ++ (message.id, result_of message) ∷ [];
    }
    else record s { last_seen = now }

unfoldable pub disconnect : ℕ → Server → Server
disconnect c s = if is_conn c s.conn then fail_pending (record s { conn = none }) else s

pub data Event : Type 0 where
  starts : Text → Event
  commands : Bool → ProtocolMessage → Event
  abandons : ℕ → Event
  greets : ℕ → ℕ → ProtocolMessage → Event
  receives : ℕ → ProtocolMessage → Event
  disconnects : ℕ → Event
  closes : Event

abbrev pub step : Event → Server → Server
step (starts token) s = (start token s).0
step (commands encodes message) s = (command encodes message s).0
step (abandons id) s = abandon id s
step (greets now c message) s = hello now c message s
step (receives now message) s = receive now message s
step (disconnects c) s = disconnect c s
step closes s = close s

abbrev pub run : List Event → Server → Server
run [] s = s
run (e ∷ es) s = run es (step e s)
