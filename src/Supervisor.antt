-- ===== src/Supervisor.antt =====
-- internal/supervisor/supervisor.go: the core's process. A process is known by its number; `alive`
-- are those of the operating system that the supervisor started. Start gives its lock up while it
-- waits for the core to be ready, and Stop while it waits for its end: both are cut in two. What the
-- probes, the timers, the context and the process say is an argument.
pub mod Single
use bigducks_live.Base.{
  ℕ, ◌+◌, Bool, true, false, not, ◌||◌, ◌==◌, List, [], ◌∷◌, Option, none, some, if◌then◌else◌,
}
use bigducks_live.Errors.{Error, failure, Result, ok, err}

pub record Supervisor : Type 0 where
  pub configured : Bool
  pub process : Option ℕ
  pub alive : List ℕ
  pub next_pid : ℕ

abbrev pub new_supervisor : Supervisor
new_supervisor = record { configured = true; process = none; alive = []; next_pid = 1 }

-- A tick of waitReady: whether there is a client, and whether its status call succeeds.
pub record Tick : Type 0 where
  pub has_client : Bool
  pub answers : Bool

-- What ends waitReady if no tick does.
pub data Ending : Type 0 where
  exits : Option Error → Ending
  deadline : Ending
  context_done : Error → Ending

abbrev pub ending_error : Ending → Error
ending_error (exits none) = failure "protection core exited before becoming ready"
ending_error (exits (some e)) = failure "protection core exited before becoming ready"
ending_error deadline = failure "protection core did not become ready within the deadline"
ending_error (context_done e) = e

-- waitReady: the ticks until something else ends the loop.
unfoldable pub wait_ready : List Tick → Ending → Option Error
wait_ready [] ending = some (ending_error ending)
wait_ready (tick ∷ ticks) ending =
    if not tick.has_client
    then wait_ready ticks ending
    else if tick.answers
    then none
    else wait_ready ticks ending

unfoldable pub without : ℕ → List ℕ → List ℕ
without pid [] = []
without pid (p ∷ ps) = let rest = without pid ps in if pid == p then rest else p ∷ rest

abbrev pub is_process : ℕ → Option ℕ → Bool
is_process pid none = false
is_process pid (some p) = p == pid

-- clearProcess
unfoldable pub clear_process : ℕ → Supervisor → Supervisor
clear_process pid s = if is_process pid s.process then record s { process = none } else s

-- The process ends: by itself, or killed.
abbrev pub ended : ℕ → Supervisor → Supervisor
ended pid s = record s { alive = without pid s.alive }

-- What Start did under its lock.
pub data Started : Type 0 where
  running : Started
  spawned : ℕ → Started

abbrev pub has_process : Option ℕ → Bool
has_process none = false
has_process (some p) = true

-- command.Start, with its error, and what follows it under the lock.
abbrev pub spawn : Option Error → Supervisor → Supervisor × Result Started
spawn (some e) s = (s, err (failure "start protection core"))
spawn none s = (
  record s { process = some s.next_pid; alive = s.next_pid ∷ s.alive; next_pid = s.next_pid + 1 },
  ok (spawned s.next_pid),
)

-- Start, until it waits; `spawns` is the error of command.Start.
unfoldable pub start_begin : Option Error → Supervisor → Supervisor × Result Started
start_begin spawns s =
    if not s.configured
    then (s, err (failure "core supervisor is not configured"))
    else if has_process s.process
    then (s, ok running)
    else spawn spawns s

-- The rest of Start, of what waitReady returned.
unfoldable pub start_end : ℕ → Option Error → Supervisor → Supervisor × Option Error
start_end pid none s = (s, none)
start_end pid (some e) s = (clear_process pid (ended pid s), some e)

-- What ends the wait of stop: the process ended, with its error and whether that is expected, the
-- context, or the timer.
pub data StopEnding : Type 0 where
  done : Option (Error × Bool) → StopEnding
  stop_canceled : Error → StopEnding
  timed_out : StopEnding

abbrev pub stop_error : Option Error → StopEnding → Option Error
stop_error shutdown (done none) = shutdown
stop_error shutdown (done (some (e, expected))) = if not expected then some e else shutdown
stop_error shutdown (stop_canceled e) = some e
stop_error shutdown timed_out = some (failure "protection core did not stop within the deadline")

-- stop, of the process that it found, once its wait is over; `shutdown` is the error of the client
-- or of its Shutdown.
unfoldable pub stop_end : ℕ → Option Error → StopEnding → Supervisor → Supervisor × Option Error
stop_end pid shutdown ending s = (clear_process pid (ended pid s), stop_error shutdown ending)

unfoldable pub is_running : Supervisor → Bool
is_running s = has_process s.process
