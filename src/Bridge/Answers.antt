-- ===== src/Bridge/Answers.antt =====
-- Every command of internal/bridge/server.go that was sent gets one answer.
use bigducks_live.Base.{
  ℕ, suc, ◌+◌, ◌%◌, ◌≤◌, ◌<◌, ◌≡◌, ap, ◌≢◌, Bool, true, false, not, ◌||◌, ◌==◌, List, [], ◌∷◌, none,
  by_test, length, arith,
}
use bigducks_live.Base.Text.{Text, codes, text_eq}
use bigducks_live.Errors.{Result, ok}
use bigducks_live.Bridge.{
  ProtocolMessage, Server, u64, new_server, start, is_pending, has_conn, is_conn, command, abandon,
  close, hello, receive, disconnect, result_of, Event, starts, commands, abandons, greets, receives,
  disconnects, closes, step, run,
}
use bigducks_live.Bridge.Sound.{
  occurrences, waits, answered, total, IsSound, occurrences-without, occurrences-append,
  occurrences_added, is_pending-occurrences, total-fail_pending, command-IsSound, step-IsSound,
  run-IsSound, run-IsSound_from,
}

-- Its caller does not give the command up.
abbrev pub IsAwaited : ℕ → List Event → Type 0
IsAwaited x [] = Unit
IsAwaited x (abandons id ∷ es) = (x ≢ id) × IsAwaited x es
IsAwaited x (_ ∷ es) = IsAwaited x es

abbrev Known : ℕ → Server → Type 0
Known x s = 1 ≤ total x s

module _ (n x : ℕ) (s : Server) (h : IsSound n s) (known : Known x s) where
  start-Known : (token : Text) → Known x (start token s).0
  unfolding start
  start-Known token =
      by_test (λ (r : Server × Result (Unit {0})). Known x r.0) (s.listening || s.closed)
        (λ _. known) (λ _. known)

  command-Known :
      (encodes : Bool) (message : ProtocolMessage)
      → suc n < u64
      → Known x (command encodes message s).0
  unfolding command
  command-Known encodes message small =
      let P : Server × Result ℕ → Type 0 = λ r. Known x r.0 in
      let next : (s.next_id + 1) % u64 ≡ s.next_id + 1 = omega (arith, h.few) in
      by_test P (not (has_conn s.conn) || s.closed) (λ _. known)
        λ _.
          by_test P encodes
            (λ _.
              ground
                (arith, next, h.fresh x, occurrences_added x ((s.next_id + 1) % u64) s.pending))
            λ _.
              ground
                (arith, next, h.fresh x, occurrences-without x ((s.next_id + 1) % u64) s.pending)

  abandon-Known : (id : ℕ) → x ≢ id → Known x (abandon id s)
  unfolding abandon
  abandon-Known id other = ground (arith, occurrences-without x id s.pending)

  close-Known : Known x (close s)
  unfolding close
  close-Known =
      by_test (Known x) s.closed (λ _. known)
        λ _.
          omega (
            arith,
            total-fail_pending x (record s { closed = true; listening = false; conn = none }),
          )

  disconnect-Known : (c : ℕ) → Known x (disconnect c s)
  unfolding disconnect
  disconnect-Known c =
      by_test (Known x) (is_conn c s.conn)
        (λ _. omega (arith, total-fail_pending x (record s { conn = none }))) (λ _. known)

  hello-Known : (now c : ℕ) (message : ProtocolMessage) → Known x (hello now c message s)
  unfolding hello
  hello-Known now c message =
      by_test (Known x) (not (text_eq message.kind (codes "hello"))) (λ _. known)
        λ _.
          by_test (Known x) (s.closed || not (text_eq message.token s.token) || has_conn s.conn)
            (λ _. known) (λ _. known)

  receive-Known : (now : ℕ) (message : ProtocolMessage) → Known x (receive now message s)
  unfolding receive
  receive-Known now message =
      by_test (Known x) (not (text_eq message.kind (codes "result")) || message.id == 0)
        (λ _. known)
        λ _.
          by_test (Known x) (is_pending message.id s.pending)
            (λ waiting. ground (
              arith,
              occurrences-without x message.id s.pending,
              occurrences-append x s.answers ((message.id, result_of message) ∷ []),
              h.once x,
              is_pending-occurrences message.id s.pending waiting,
            ))
            (λ _. known)

  step-Known :
      (e : Event) (es : List Event)
      → suc n < u64
      → IsAwaited x (e ∷ es)
      → Known x (step e s) × IsAwaited x es
  step-Known (starts token) es small w = (start-Known token, w)
  step-Known (commands encodes message) es small w = (command-Known encodes message small, w)
  step-Known (abandons id) es small w = (abandon-Known id w.0, w.1)
  step-Known (greets now c message) es small w = (hello-Known now c message, w)
  step-Known (receives now message) es small w = (receive-Known now message, w)
  step-Known (disconnects c) es small w = (disconnect-Known c, w)
  step-Known closes es small w = (close-Known, w)

run-Known :
    (n x : ℕ) (es : List Event) (s : Server)
    → IsSound n s
    → Known x s
    → n + length es < u64
    → IsAwaited x es
    → Known x (run es s)
run-Known n x [] s h k small w = k
run-Known n x (e ∷ es) s h k small w =
    let (k', w') = step-Known n x s h k e es (omega arith) w in
    run-Known (n + 1) x es (step e s) (step-IsSound n s h e (omega arith)) k' (omega arith) w'

sent-Known :
    (encodes : Bool) (message : ProtocolMessage) (s : Server) (id : ℕ)
    → (command encodes message s).1 ≡ ok id
    → Known id (command encodes message s).0
unfolding command
sent-Known encodes message s id sent =
    let next = (s.next_id + 1) % u64 in ground (arith, occurrences_added id next s.pending)

-- A command is sent, and not given up. Before and after it other things happen, fewer than 2^64 - 1
-- in all. Then at any time it waits or was answered, and never both or twice. Once no client is
-- there, it was answered, exactly once: none is left waiting by a client that leaves or by Close.
pub command-answered_once :
    (before after : List Event) (encodes : Bool) (message : ProtocolMessage) (id : ℕ)
    → length before + 1 + length after < u64
    → (command encodes message (run before new_server)).1 ≡ ok id
    → IsAwaited id after
    → let s = run after (command encodes message (run before new_server)).0 in
      (waits id s + answered id s ≡ 1) × (s.conn ≡ none → answered id s ≡ 1)
command-answered_once before after encodes message id small sent awaited =
    let n = length before in
    let s0 = run before new_server in
    let h0 = run-IsSound before (omega arith) in
    let s1 = (command encodes message s0).0 in
    let h1 = command-IsSound n s0 h0 encodes message (omega arith) in
    let h = run-IsSound_from (n + 1) after s1 h1 (omega arith) in
    let known =
      run-Known (n + 1) id after s1 h1 (sent-Known encodes message s0 id sent) (omega arith)
        awaited in
    let one : total id (run after s1) ≡ 1 = omega (arith, h.once id) in
    (one, λ gone. omega (arith, one, ap (occurrences id) (h.attended gone)))
