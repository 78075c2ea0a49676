-- ===== src/App/Control.antt =====
-- internal/app/control.go: RuntimeControl. A binding is what its function does when it is called:
-- its error, or the status that it gives.
pub mod Bindings
use bigducks_live.Base.{
  ℕ, ◌+◌, ◌%◌, ◌^◌, Bool, true, false, ◌==◌, List, [], ◌∷◌, Option, none, some, if◌then◌else◌,
}
use bigducks_live.Errors.{Error, runtime_unavailable}
use bigducks_live.App.Status.{RuntimeStatus, status_of, stopped}

pub record RuntimeBindings : Type 0 where
  pub reconnect : Option (Option Error)
  pub reload : Option (Option Error)
  pub test_route : Option (Option Error)
  pub status : Option RuntimeStatus

pub record RuntimeControl : Type 0 where
  pub generation : ℕ
  pub bindings : RuntimeBindings
  pub status : RuntimeStatus

abbrev pub no_bindings : RuntimeBindings
no_bindings = record { reconnect = none; reload = none; test_route = none; status = none }

abbrev pub stopped_status : RuntimeStatus
stopped_status = status_of stopped [] []

abbrev pub new_runtime_control : RuntimeControl
new_runtime_control = record { generation = 0; bindings = no_bindings; status = stopped_status }

-- RuntimeControl.Bind; its result, the function that unbinds, is known by the generation.
unfoldable pub bind : RuntimeControl → RuntimeBindings → RuntimeControl
bind c b = record c { generation = (c.generation + 1) % 2 ^ 64; bindings = b }

-- The function that Bind returned at a generation.
unfoldable pub unbind : ℕ → RuntimeControl → RuntimeControl
unbind generation c =
    if c.generation == generation
    then record c { bindings = no_bindings; status = stopped_status }
    else c

-- `if f == nil { return ErrRuntimeUnavailable }; return f(ctx)`
abbrev pub call : Option (Option Error) → Option Error
call none = some runtime_unavailable
call (some e) = e

unfoldable pub control_reconnect : RuntimeControl → Option Error
control_reconnect c = call c.bindings.reconnect

unfoldable pub control_reload : RuntimeControl → Option Error
control_reload c = call c.bindings.reload

unfoldable pub control_test_route : RuntimeControl → Option Error
control_test_route c = call c.bindings.test_route

abbrev pub status_or : Option RuntimeStatus → RuntimeStatus → RuntimeStatus
status_or none status = status
status_or (some given) status = given

unfoldable pub control_status : RuntimeControl → RuntimeStatus
control_status c = status_or c.bindings.status c.status

unfoldable pub control_set_status : RuntimeStatus → RuntimeControl → RuntimeControl
control_set_status status c = record c { status = status }
