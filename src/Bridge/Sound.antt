-- ===== src/Bridge/Sound.antt =====
-- An invariant of internal/bridge/server.go: who waits for an answer, and who got one.
use bigducks_live.Base.{
  ℕ, ◌+◌, ◌≤◌, ◌<◌, ◌≡◌, refl, Bool, true, false, not, ◌%◌, ◌||◌, ◌==◌, List, [], ◌∷◌, ◌++◌, none,
  some, suc, by_test, if◌then◌else◌, length, arith,
}
use bigducks_live.Base.Text.{Text, codes, text_eq}
use bigducks_live.Errors.{Result}
use bigducks_live.Bridge.{
  ProtocolMessage, CommandResult, Server, u64, new_server, start, is_pending, without, has_conn,
  is_conn, disconnect_all, fail_pending, command, abandon, close, hello, receive, disconnect,
  result_of, Event, starts, commands, abandons, greets, receives, disconnects, closes, step, run,
}

abbrev pub occurrences : ℕ → List ℕ → ℕ
occurrences x [] = 0
occurrences x (y ∷ ys) = let rest = occurrences x ys in if x == y then 1 + rest else rest

abbrev pub ids_of : List (ℕ × CommandResult) → List ℕ
ids_of [] = []
ids_of ((id, r) ∷ xs) = id ∷ ids_of xs

-- How often a command waits, and how often it was answered.
abbrev pub waits : ℕ → Server → ℕ
waits x s = occurrences x s.pending

abbrev pub answered : ℕ → Server → ℕ
answered x s = occurrences x (ids_of s.answers)

abbrev pub total : ℕ → Server → ℕ
total x s = waits x s + answered x s

-- `n` is the number of events so far.
pub record IsSound (n : ℕ) (s : Server) : Type 0 where
  pub few : s.next_id ≤ n
  pub once : (x : ℕ) → total x s ≤ 1
  pub fresh : (x : ℕ) → s.next_id < x → total x s ≡ 0
  pub attended : s.conn ≡ none → s.pending ≡ []
  pub ended : s.closed ≡ true → s.conn ≡ none

pub occurrences-without :
    (x id : ℕ) (ids : List ℕ)
    → occurrences x (without id ids) ≡ (if id == x then 0 else occurrences x ids)
unfolding without
occurrences-without x id [] = ground arith
occurrences-without x id (y ∷ ys) = ground (arith, occurrences-without x id ys)

pub occurrences-append :
    (x : ℕ) (xs ys : List (ℕ × CommandResult))
    → occurrences x (ids_of (xs ++ ys)) ≡ occurrences x (ids_of xs) + occurrences x (ids_of ys)
occurrences-append x [] ys = omega arith
occurrences-append x ((id, r) ∷ xs) ys = ground (arith, occurrences-append x xs ys)

occurrences-disconnect_all :
    (x : ℕ) (ids : List ℕ) → occurrences x (ids_of (disconnect_all ids)) ≡ occurrences x ids
occurrences-disconnect_all x [] = refl
occurrences-disconnect_all x (y ∷ ys) = ground (arith, occurrences-disconnect_all x ys)

pub is_pending-occurrences :
    (id : ℕ) (ids : List ℕ) → is_pending id ids ≡ true → 1 ≤ occurrences id ids
unfolding is_pending
is_pending-occurrences id [] h = cc
is_pending-occurrences id (y ∷ ys) h = ground (arith, is_pending-occurrences id ys)

pub total-fail_pending : (x : ℕ) (s : Server) → total x (fail_pending s) ≡ total x s
unfolding fail_pending
total-fail_pending x s = omega (
  arith,
  occurrences-append x s.answers (disconnect_all s.pending),
  occurrences-disconnect_all x s.pending,
)

pub occurrences_added :
    (x id : ℕ) (ids : List ℕ)
    → occurrences x (id ∷ without id ids) ≡ (if id == x then 1 else occurrences x ids)
occurrences_added x id ids = ground (arith, occurrences-without x id ids)

send-IsSound :
    (n id : ℕ) (s : Server)
    → id ≡ s.next_id + 1
    → IsSound n s
    → has_conn s.conn ≡ true
    → IsSound (n + 1) (record s { next_id = id; pending = id ∷ without id s.pending })
send-IsSound n id s e h there = record {
  few = omega (arith, h.few);
  once = λ x. ground (arith, h.once x, h.fresh x, occurrences_added x id s.pending);
  fresh = λ x later. ground (arith, h.fresh x, occurrences_added x id s.pending);
  attended = λ gone. absurd (cc (rw gone at there));
  ended = h.ended;
}

-- A command is given up.
drop-IsSound :
    (n id next : ℕ) (s : Server)
    → s.next_id ≤ next
    → next ≤ n + 1
    → IsSound n s
    → IsSound (n + 1) (record s { next_id = next; pending = without id s.pending })
unfolding without
drop-IsSound n id next s low high h = record {
  few = high;
  once = λ x. ground (arith, h.once x, occurrences-without x id s.pending);
  fresh = λ x later. ground (arith, h.fresh x, occurrences-without x id s.pending);
  attended = λ gone. rw (h.attended gone) refl;
  ended = h.ended;
}

answer-IsSound :
    (n now id : ℕ) (r : CommandResult) (s : Server)
    → is_pending id s.pending ≡ true
    → IsSound n s
    → IsSound (n + 1) (record s {
      last_seen = now;
      pending = without id s.pending;
      answers = s.answers ++ (id, r) ∷ [];
    })
unfolding without
answer-IsSound n now id r s waiting h = record {
  few = omega (arith, h.few);
  once = λ x. ground (
    arith,
    h.once x,
    occurrences-without x id s.pending,
    occurrences-append x s.answers ((id, r) ∷ []),
    is_pending-occurrences id s.pending waiting,
  );
  fresh = λ x later. ground (
    arith,
    h.fresh x,
    occurrences-without x id s.pending,
    occurrences-append x s.answers ((id, r) ∷ []),
    is_pending-occurrences id s.pending waiting,
  );
  attended = λ gone. rw (h.attended gone) refl;
  ended = h.ended;
}

-- What changes nothing of commands and clients.
keep-IsSound : (n : ℕ) (s : Server) → IsSound n s → IsSound (n + 1) s
keep-IsSound n s h = record {
  few = omega (arith, h.few);
  once = h.once;
  fresh = h.fresh;
  attended = h.attended;
  ended = h.ended;
}

-- The client is gone, and the commands are failed.
fail-IsSound :
    (n : ℕ) (closed listening : Bool) (s : Server)
    → IsSound n s
    → IsSound
        (n + 1)
        (fail_pending (record s { closed = closed; listening = listening; conn = none }))
unfolding fail_pending
fail-IsSound n closed listening s h = record {
  few = omega (arith, h.few);
  once = λ x. omega (arith, h.once x, total-fail_pending x s);
  fresh = λ x later. omega (arith, h.fresh x later, total-fail_pending x s);
  attended = λ _. refl;
  ended = λ _. refl;
}

-- A client is there, whose time may have changed.
client-IsSound :
    (n c now : ℕ) (s : Server)
    → IsSound n s
    → s.closed ≡ false
    → IsSound (n + 1) (record s { conn = some c; last_seen = now })
client-IsSound n c now s h alive = record {
  few = omega (arith, h.few);
  once = h.once;
  fresh = h.fresh;
  attended = λ gone. cc;
  ended = λ closed. cc;
}

module _ (n : ℕ) (s : Server) (h : IsSound n s) where
  abbrev Kept : Server → Type 0
  Kept = IsSound (n + 1)

  kept : Kept s
  kept = keep-IsSound n s h

  start-IsSound : (token : Text) → Kept (start token s).0
  unfolding start
  start-IsSound token =
      by_test (λ (r : Server × Result (Unit {0})). Kept r.0) (s.listening || s.closed) (λ _. kept)
        λ _. record {
          few = omega (arith, h.few);
          once = h.once;
          fresh = h.fresh;
          attended = h.attended;
          ended = h.ended;
        }

  pub command-IsSound :
      (encodes : Bool) (message : ProtocolMessage)
      → suc n < u64
      → Kept (command encodes message s).0
  unfolding command
  command-IsSound encodes message small =
      let next : (s.next_id + 1) % u64 ≡ s.next_id + 1 = omega (arith, h.few) in
      by_test (λ (r : Server × Result ℕ). Kept r.0) (not (has_conn s.conn) || s.closed) (λ _. kept)
        λ open_conn.
          by_test (λ (r : Server × Result ℕ). Kept r.0) encodes
            (λ _. send-IsSound n _ s next h (ground arith))
            λ _. drop-IsSound n _ _ s (omega (arith, h.few)) (omega (arith, h.few)) h

  abandon-IsSound : (id : ℕ) → Kept (abandon id s)
  unfolding abandon
  abandon-IsSound id = drop-IsSound n id s.next_id s (omega arith) (omega (arith, h.few)) h

  close-IsSound : Kept (close s)
  unfolding close
  close-IsSound = by_test Kept s.closed (λ _. kept) (λ _. fail-IsSound n true false s h)

  disconnect-IsSound : (c : ℕ) → Kept (disconnect c s)
  unfolding disconnect
  disconnect-IsSound c =
      by_test Kept (is_conn c s.conn) (λ _. fail-IsSound n s.closed s.listening s h) (λ _. kept)

  hello-IsSound : (now c : ℕ) (message : ProtocolMessage) → Kept (hello now c message s)
  unfolding hello
  hello-IsSound now c message =
      by_test Kept (not (text_eq message.kind (codes "hello"))) (λ _. kept)
        λ _.
          by_test Kept (s.closed || not (text_eq message.token s.token) || has_conn s.conn)
            (λ _. kept) λ free. client-IsSound n c now s h (ground arith)

  receive-IsSound : (now : ℕ) (message : ProtocolMessage) → Kept (receive now message s)
  unfolding receive
  receive-IsSound now message =
      by_test Kept (not (text_eq message.kind (codes "result")) || message.id == 0) (λ _. kept)
        λ _.
          by_test Kept (is_pending message.id s.pending)
            (λ waiting. answer-IsSound n now message.id (result_of message) s waiting h)
            λ _. record {
              few = omega (arith, h.few);
              once = h.once;
              fresh = h.fresh;
              attended = h.attended;
              ended = h.ended;
            }

  pub step-IsSound : (e : Event) → suc n < u64 → Kept (step e s)
  step-IsSound (starts token) small = start-IsSound token
  step-IsSound (commands encodes message) small = command-IsSound encodes message small
  step-IsSound (abandons id) small = abandon-IsSound id
  step-IsSound (greets now c message) small = hello-IsSound now c message
  step-IsSound (receives now message) small = receive-IsSound now message
  step-IsSound (disconnects c) small = disconnect-IsSound c
  step-IsSound closes small = close-IsSound

pub run-IsSound_from :
    (n : ℕ) (es : List Event) (s : Server)
    → IsSound n s
    → n + length es < u64
    → IsSound (n + length es) (run es s)
run-IsSound_from n [] s h small = let e : n + 0 ≡ n = omega arith in rw e h
run-IsSound_from n (e ∷ es) s h small =
    let next =
      run-IsSound_from (n + 1) es (step e s) (step-IsSound n s h e (omega arith)) (omega arith) in
    let same : n + length (e ∷ es) ≡ n + 1 + length es = omega arith in rw same next

-- At most 2^64 - 1 events happen to a new server: starts, commands, clients that greet, answer and
-- leave, and its end. Then no command waits twice, is answered twice, or waits and is answered; no
-- id beyond the last one is known; no command waits without a client; and a closed server has none.
pub run-IsSound : (es : List Event) → length es < u64 → IsSound (length es) (run es new_server)
run-IsSound es small =
    let e : 0 + length es ≡ length es = omega arith in
    let all =
      run-IsSound_from 0 es new_server
        (record {
          few = omega arith;
          once = λ x. omega arith;
          fresh = λ x later. refl;
          attended = λ _. refl;
          ended = λ closed. refl;
        })
        (omega arith) in
    rw e at all
