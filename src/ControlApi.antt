-- ===== src/ControlApi.antt =====
-- internal/controlapi: the handlers of the core's control server (server.go) and its client
-- (client.go). A request carries the handler that the ServeMux found for its path, if any; the JSON
-- of a body is what it stands for, and is shorter than the client's limits. `calls` records the
-- functions that a server has called, in order. The listener and the control file are left out.
pub mod Guarded
use bigducks_live.Base.{
  ℕ, Bool, true, false, not, ◌&&◌, ◌||◌, ◌==◌, ltb, leb, List, [], ◌∷◌, ◌++◌, Option, none, some,
  length, if◌then◌else◌,
}
use bigducks_live.Base.Text.{Text, codes, text_eq, is_empty}
use bigducks_live.Errors.{
  Error, no_proxy, refresh_cooldown, runtime_unavailable, bridge_unavailable, disconnected,
  canceled, deadline_exceeded, failure, Result, ok, err,
}
use bigducks_live.App.Status.{RuntimeStatus, error_text}
use bigducks_live.App.Control.{
  RuntimeControl, control_reconnect, control_reload, control_test_route, control_status,
}

pub record ControlFile : Type 0 where
  pub address : Text
  pub token : Text
  pub pid : ℕ

pub data Method : Type 0 where
  get post other : Method

pub data Call : Type 0 where
  reconnects reloads tests_route shuts_down : Call

-- The handlers that Start gives the ServeMux.
pub data Route : Type 0 where
  to_status : Route
  to_call : Call → Route

pub record Request : Type 0 where
  pub route : Option Route
  pub method : Method
  pub authorization : Text

pub data Body : Type 0 where
  status_body : RuntimeStatus → Body
  ok_body : Body
  error_body : Text → Body

pub record Response : Type 0 where
  pub status_code : ℕ
  pub body : Body

pub record ControlServer : Type 0 where
  pub control : ControlFile
  pub runtime : RuntimeControl
  pub has_shutdown : Bool
  pub calls : List Call

abbrev pub Answer : Type 0
Answer = Response × ControlServer

abbrev pub write_json : ℕ → Body → Response
write_json code body = record { status_code = code; body = body }

abbrev pub write_error : ℕ → Text → Response
write_error code message = write_json code (error_body message)

abbrev pub called : Call → ControlServer → ControlServer
called c s = record s { calls = s.calls ++ c ∷ [] }

abbrev pub is_get : Method → Bool
is_get get = true
is_get post = false
is_get other = false

abbrev pub is_post : Method → Bool
is_post get = false
is_post post = true
is_post other = false

abbrev pub not_allowed : Response
not_allowed = write_error 405 (codes "method not allowed")

unfoldable pub handle_status : Method → ControlServer → Answer
handle_status method s =
    if not (is_get method)
    then (not_allowed, s)
    else (write_json 200 (status_body (control_status s.runtime)), s)

-- The status code for an action's error.
abbrev pub code_of : Error → ℕ
code_of deadline_exceeded = 504
code_of canceled = 504
code_of _ = 503

abbrev pub action_response : Option Error → Response
action_response none = write_json 200 ok_body
action_response (some e) = write_error (code_of e) (error_text e)

-- action, of a function that is not nil, which answers `result` if it is called.
unfoldable pub handle_action : Call → Option Error → Method → ControlServer → Answer
handle_action c result method s =
    if not (is_post method) then (not_allowed, s) else (action_response result, called c s)

unfoldable pub handle_shutdown : Method → ControlServer → Answer
handle_shutdown method s =
    if not (is_post method)
    then (not_allowed, s)
    else (write_json 200 ok_body, if s.has_shutdown then called shuts_down s else s)

abbrev pub bearer : Text → Text
bearer token = codes "Bearer " ++ token

-- The test of auth; subtle.ConstantTimeCompare gives 1 exactly for equal bytes.
unfoldable pub is_authorized : ControlServer → Text → Bool
is_authorized s provided =
    let expected = bearer s.control.token in
    not (not (length provided == length expected) || not (text_eq provided expected))

abbrev pub run_call : Call → Method → ControlServer → Answer
run_call reconnects method s = handle_action reconnects (control_reconnect s.runtime) method s
run_call reloads method s = handle_action reloads (control_reload s.runtime) method s
run_call tests_route method s = handle_action tests_route (control_test_route s.runtime) method s
run_call shuts_down method s = handle_shutdown method s

abbrev pub run_route : Route → Method → ControlServer → Answer
run_route to_status method s = handle_status method s
run_route (to_call c) method s = run_call c method s

-- auth around a handler.
unfoldable pub auth : Route → Request → ControlServer → Answer
auth route request s =
    if not (is_authorized s request.authorization)
    then (write_error 401 (codes "unauthorized"), s)
    else run_route route request.method s

abbrev pub serve_route : Option Route → Request → ControlServer → Answer
serve_route none request s = (write_error 404 (codes "404 page not found"), s)
serve_route (some route) request s = auth route request s

unfoldable pub serve : Request → ControlServer → Answer
serve request s = serve_route request.route request s

-- LoadClient of a decoded control file.
unfoldable pub load_client : ControlFile → Result ControlFile
load_client control =
    if is_empty control.address || is_empty control.token
    then err (failure "core control file is incomplete")
    else ok control

-- What a call of the client returns: what the body holds, or the text of its error.
pub data Reply : Type 0 where
  accepted : Body → Reply
  refused : Text → Reply

abbrev pub remote_error : Body → Text
remote_error (error_body text) = text
remote_error ok_body = []
remote_error (status_body status) = []

-- The end of request; `status_line` is response.Status.
unfoldable pub read_response : (ℕ → Text) → Response → Reply
read_response status_line response =
    if ltb response.status_code 200 || leb 300 response.status_code
    then refused (
        if is_empty (remote_error response.body)
        then status_line response.status_code
        else remote_error response.body)
    else accepted response.body

unfoldable pub client_request : ControlFile → Method → Route → Request
client_request control method route = record {
  route = some route;
  method = method;
  authorization = bearer control.token;
}

abbrev pub received : (ℕ → Text) → Answer → Reply × ControlServer
received status_line (response, s) = (read_response status_line response, s)

-- Reconnect, Reload, TestRoute and Shutdown of the client, against a server.
unfoldable pub client_call : (ℕ → Text) → ControlFile → Call → ControlServer → Reply × ControlServer
client_call status_line control c s =
    received status_line (serve (client_request control post (to_call c)) s)

unfoldable pub client_status : (ℕ → Text) → ControlFile → ControlServer → Reply × ControlServer
client_status status_line control s =
    received status_line (serve (client_request control get to_status) s)
