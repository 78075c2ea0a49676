-- ===== src/Tests/Bridges.antt =====
-- Inputs for internal/bridge.
use bigducks_live.Base.{◌+◌, ◌≡◌, refl, true, List, [], ◌∷◌, none, length, arith}
use bigducks_live.Base.Text.{codes, text_eq}
use bigducks_live.Bridge.{
  ProtocolMessage, new_server, command, is_pending, without, start, hello, receive, disconnect,
  fail_pending, message_of, Event, starts, greets, commands, receives, disconnects, run,
}
use bigducks_live.Bridge.Sound.{IsSound, waits, answered, run-IsSound}
use bigducks_live.Bridge.Answers.{command-answered_once}

abbrev greeting : ProtocolMessage
greeting = record (message_of (codes "hello") []) { token = codes "t" }

abbrev reply : ProtocolMessage
reply = record (message_of (codes "result") []) { id = 1; is_ok = true; value = codes "v" }

abbrev reload_message : ProtocolMessage
reload_message = message_of (codes "reload") []

abbrev greeted : List Event
greeted = starts (codes "t") ∷ greets 5 7 greeting ∷ []

abbrev answered_then_gone : List Event
answered_then_gone = commands true reload_message ∷ receives 6 reply ∷ disconnects 7 ∷ []

run-IsSound_example : IsSound 2 (run greeted new_server)
run-IsSound_example = run-IsSound greeted (omega arith)

command-answered_once_example :
    let s = run answered_then_gone (command true reload_message (run greeted new_server)).0 in
    (waits 1 s + answered 1 s ≡ 1) × (s.conn ≡ none → answered 1 s ≡ 1)
unfolding command start hello text_eq
command-answered_once_example =
    command-answered_once greeted answered_then_gone true reload_message 1 (omega arith) refl tt

-- The first command has its answer, and the second that of the client's end.
two_answers :
    length (run answered_then_gone (command true reload_message (run greeted new_server)).0).answers
    ≡ 2
unfolding command start hello receive disconnect fail_pending is_pending without text_eq
two_answers = refl
