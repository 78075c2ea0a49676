-- ===== src/ControlApi/Guarded.antt =====
-- Who may do what through internal/controlapi.
use bigducks_live.Base.{
  ℕ, ◌≤◌, ◌≡◌, ◌⊎◌, inl, inr, refl, true, false, Option, none, some, Bool-cases, arith,
  if◌then◌else◌,
}
use bigducks_live.Base.Text.{Text, codes, text_eq_iff, text_eq_refl, is_empty}
use bigducks_live.Errors.{Error, ok, no_proxy, canceled, deadline_exceeded}
use bigducks_live.App.Status.{error_text}
use bigducks_live.App.Control.{
  control_reconnect, control_reload, control_test_route, control_status,
}
use bigducks_live.ControlApi.{
  ControlFile, Method, get, post, other, Call, reconnects, reloads, tests_route, shuts_down, Route,
  to_status, to_call, Request, status_body, ok_body, error_body, ControlServer, Answer, write_json,
  called, bearer, handle_status, handle_action, handle_shutdown, is_authorized, run_route, auth,
  serve_route, serve, action_response, client_request, client_call, client_status, load_client,
  read_response, Reply, accepted, refused, code_of,
}

-- The request is refused with an error, and nothing is done.
abbrev pub Refused : ControlServer → Answer → Type 0
Refused s (response, s') =
    (s' ≡ s) × (400 ≤ response.status_code) × ((text : Text) × (response.body ≡ error_body text))

-- The status is shown, and nothing is done.
abbrev pub Shown : Option Route → Method → ControlServer → Answer → Type 0
Shown route method s (response, s') =
    (route ≡ some to_status)
    × (method ≡ get)
    × (s' ≡ s)
    × (response ≡ write_json 200 (status_body (control_status s.runtime)))

-- The call of the route is made, and no other; a shutdown only if there is a function for it.
abbrev pub Called : Option Route → Method → ControlServer → Answer → Type 0
Called route method s (response, s') =
    (c : Call) × (route ≡ some (to_call c))
    × (method ≡ post)
    × ((s' ≡ called c s) ⊎ ((s' ≡ s) × (c ≡ shuts_down) × (s.has_shutdown ≡ false)))

is_authorized_sound :
    (s : ControlServer) (provided : Text)
    → is_authorized s provided ≡ true
    → provided ≡ bearer s.control.token
unfolding is_authorized
is_authorized_sound s provided h = ground (arith, text_eq_iff provided (bearer s.control.token))

pub is_authorized-bearer : (s : ControlServer) → is_authorized s (bearer s.control.token) ≡ true
unfolding is_authorized
is_authorized-bearer s = ground (arith, text_eq_refl (bearer s.control.token))

abbrev Done : Option Route → Method → ControlServer → Answer → Type 0
Done route method s answer =
    Refused s answer ⊎ (Shown route method s answer ⊎ Called route method s answer)

handle_status-Done :
    (method : Method) (s : ControlServer) → Done (some to_status) method s (handle_status method s)
unfolding handle_status
handle_status-Done get s = inr (inl (refl, refl, refl, refl))
handle_status-Done post s = inl (refl, omega arith, (codes "method not allowed", refl))
handle_status-Done other s = inl (refl, omega arith, (codes "method not allowed", refl))

handle_action-Done :
    (c : Call) (result : Option Error) (method : Method) (s : ControlServer)
    → Done (some (to_call c)) method s (handle_action c result method s)
unfolding handle_action
handle_action-Done c result get s = inl (refl, omega arith, (codes "method not allowed", refl))
handle_action-Done c result post s = inr (inr (c, refl, refl, inl refl))
handle_action-Done c result other s = inl (refl, omega arith, (codes "method not allowed", refl))

handle_shutdown-Done :
    (method : Method) (s : ControlServer)
    → Done (some (to_call shuts_down)) method s (handle_shutdown method s)
unfolding handle_shutdown
handle_shutdown-Done get s = inl (refl, omega arith, (codes "method not allowed", refl))
handle_shutdown-Done other s = inl (refl, omega arith, (codes "method not allowed", refl))
handle_shutdown-Done post s = elim (Bool-cases s.has_shutdown) [
  | inl has ↦ inr (inr (shuts_down, refl, refl, inl (ground arith)))
  | inr hasnt ↦ inr (inr (shuts_down, refl, refl, inr (ground arith, refl, hasnt)))
]

run_route-Done :
    (route : Route) (method : Method) (s : ControlServer)
    → Done (some route) method s (run_route route method s)
run_route-Done to_status method s = handle_status-Done method s
run_route-Done (to_call reconnects) method s = handle_action-Done reconnects _ method s
run_route-Done (to_call reloads) method s = handle_action-Done reloads _ method s
run_route-Done (to_call tests_route) method s = handle_action-Done tests_route _ method s
run_route-Done (to_call shuts_down) method s = handle_shutdown-Done method s

-- Whatever request comes, one of three things happens. It is refused with an error, and nothing is
-- done. Or it carries the server's token and asks for the status by GET: then it is shown, and
-- nothing is done. Or it carries the token and asks for a call by POST: then this call is made, and
-- no other (a shutdown only if the server was given a function for it).
pub serve-IsGuarded :
    (request : Request) (s : ControlServer)
    → Refused s (serve request s)
      ⊎ ((request.authorization ≡ bearer s.control.token)
          × (Shown request.route request.method s (serve request s)
              ⊎ Called request.route request.method s (serve request s)))
unfolding serve
serve-IsGuarded request s = by_route request.route
  where
    with_token :
        (route : Route)
        → request.authorization ≡ bearer s.control.token
        → Done (some route) request.method s (run_route route request.method s)
        → Refused s (run_route route request.method s)
          ⊎ ((request.authorization ≡ bearer s.control.token)
              × (Shown (some route) request.method s (run_route route request.method s)
                  ⊎ Called (some route) request.method s (run_route route request.method s)))
    with_token route e (inl not_done) = inl not_done
    with_token route e (inr done) = inr (e, done)

    by_route :
        (route : Option Route)
        → Refused s (serve_route route request s)
          ⊎ ((request.authorization ≡ bearer s.control.token)
              × (Shown route request.method s (serve_route route request s)
                  ⊎ Called route request.method s (serve_route route request s)))
    by_route none = inl (refl, omega arith, (codes "404 page not found", refl))
    by_route (some route) =
        unfold auth in
        elim (Bool-cases (is_authorized s request.authorization)) [
          | inl good ↦ rw good (
              with_token route (is_authorized_sound s request.authorization good)
                (run_route-Done route request.method s))
          | inr bad ↦ rw bad (inl (refl, omega arith, (codes "unauthorized", refl)))
        ]

-- What a caller is told of an action's result.
abbrev pub told : (ℕ → Text) → Option Error → Reply
told status_line none = accepted ok_body
told status_line (some e) =
    refused (if is_empty (error_text e) then status_line (code_of e) else error_text e)

abbrev pub shut_down : ControlServer → ControlServer
shut_down s = if s.has_shutdown then called shuts_down s else s

authorized :
    (s : ControlServer) (method : Method) (route : Route)
    → serve (client_request s.control method route) s ≡ run_route route method s
unfolding serve auth client_request
authorized s method route = rw (is_authorized-bearer s) refl

read-action :
    (status_line : ℕ → Text) (result : Option Error)
    → read_response status_line (action_response result) ≡ told status_line result
unfolding read_response
read-action status_line none = refl
read-action status_line (some no_proxy) = refl
read-action status_line (some canceled) = refl
read-action status_line (some deadline_exceeded) = refl
read-action status_line (some e) = refl

-- A client that loaded the control file of the server gets through: Status returns the status of
-- the core and changes nothing; Reconnect, Reload and TestRoute call the core's function, and return
-- what it returned, an error as its text (as the response's status, if the text is empty); Shutdown
-- succeeds, and calls the function for it if there is one.
pub client-reaches :
    (status_line : ℕ → Text) (s : ControlServer) (control : ControlFile)
    → load_client s.control ≡ ok control
    → (client_status status_line control s ≡ (accepted (status_body (control_status s.runtime)), s))
      × (client_call status_line control reconnects s
          ≡ (told status_line (control_reconnect s.runtime), called reconnects s))
      × (client_call status_line control reloads s
          ≡ (told status_line (control_reload s.runtime), called reloads s))
      × (client_call status_line control tests_route s
          ≡ (told status_line (control_test_route s.runtime), called tests_route s))
      × (client_call status_line control shuts_down s ≡ (accepted ok_body, shut_down s))
unfolding client_status client_call handle_status handle_action handle_shutdown
client-reaches status_line s control loaded =
    let same : s.control ≡ control = unfold load_client in ground arith in
    rw (← same) (
      rw (authorized s get to_status) (unfold read_response in refl),
      rw (authorized s post (to_call reconnects), read-action) refl,
      rw (authorized s post (to_call reloads), read-action) refl,
      rw (authorized s post (to_call tests_route), read-action) refl,
      rw (authorized s post (to_call shuts_down)) (unfold read_response in refl),
    )
