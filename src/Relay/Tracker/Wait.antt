-- ===== src/Relay/Tracker/Wait.antt =====
-- WaitForConnection of internal/relay/tracker.go after CloseAll, as the recovery of
-- internal/app/recovery.go uses them.
use bigducks_live.Base.{
  ℕ, ◌+◌, ◌≤◌, ◌<◌, ◌≡◌, ◌⊎◌, inl, inr, refl, sym, ◌∙◌, ap, subst, true, false, List, [], ◌∷◌, ◌++◌,
  length, All, arith, Option, none, some, if◌then◌else◌, Bool-cases,
}
use mathlib.Core.List.{append_assoc}
use bigducks_live.Errors.{Error}
use bigducks_live.Model.{Endpoint}
use bigducks_live.Relay.Tracker.{
  Tracked, Tracker, u64, track, close_once, close_all, has_connection, has_id, remove,
}
use bigducks_live.Relay.Tracker.Invariant.{
  IsValid, track-IsValid, close_once-IsValid, without_id-All,
}
use bigducks_live.Relay.Tracker.Close.{close_all-empties, next_id-close_all}

-- What happens to a tracker while a recovery waits: a tunnel opens, or a tracked one ends.
pub data Event : Type 0 where
  opens : Endpoint → ℕ → Event
  ends : Tracked → Event

unfoldable pub after_event : Tracker → Event → Tracker
after_event t (opens e conn) = (track t e conn).0
after_event t (ends c) = (close_once t c).0

unfoldable pub after_events : Tracker → List Event → Tracker
after_events t [] = t
after_events t (x ∷ xs) = after_events (after_event t x) xs

-- Tracker.WaitForConnection. The loop looks at the tracker, and again each time it wakes. A round is
-- what happens from one look to the next, any number of events, since each closes `changed` and the
-- loop may wake late. In the last round the select takes ctx.Done, after whatever happened in it.
unfoldable pub wait_for_connection :
    Tracker → ℕ → List (List Event) → List Event → Error → Tracker × Option Error
wait_for_connection t after [] last done =
    if has_connection t after then (t, none) else (after_events t last, some done)
wait_for_connection t after (round ∷ rounds) last done =
    let rest = wait_for_connection (after_events t round) after rounds last done in
    if has_connection t after then (t, none) else rest

-- All that may happen while it waits.
unfoldable pub all_events : List (List Event) → List Event → List Event
all_events [] last = last
all_events (round ∷ rounds) last = round ++ all_events rounds last

-- A tunnel ends only if it was tracked, and fewer than 2^64 are tracked in all.
abbrev pub Possible : Tracker → List Event → Type 0
Possible t [] = Unit
Possible t (opens e conn ∷ xs) = (t.next_id + 1 < u64) × Possible (track t e conn).0 xs
Possible t (ends c ∷ xs) = (c.id ≤ t.next_id) × Possible (close_once t c).0 xs

abbrev OnlyNew : ℕ → Tracker → Type 0
OnlyNew before t = All (λ c. before < c.id) t.entries × (before ≤ t.next_id)

track-OnlyNew :
    (before : ℕ) (t : Tracker) (e : Endpoint) (conn : ℕ)
    → t.next_id + 1 < u64
    → OnlyNew before t
    → OnlyNew before (track t e conn).0
unfolding track
track-OnlyNew before t e conn room (new, le) = ((omega arith, new), omega arith)

close_once-OnlyNew :
    (before : ℕ) (t : Tracker) (c : Tracked) → OnlyNew before t → OnlyNew before (close_once t c).0
unfolding close_once
close_once-OnlyNew before t c (new, le) =
    ground (arith, without_id-All (λ d. before < d.id) c.id t.entries new)

after_events-OnlyNew :
    (before : ℕ) (t : Tracker) (xs : List Event)
    → Possible t xs
    → IsValid t
    → OnlyNew before t
    → OnlyNew before (after_events t xs) × IsValid (after_events t xs)
unfolding after_events after_event
after_events-OnlyNew before t [] p v n = (n, v)
after_events-OnlyNew before t (opens e conn ∷ xs) p v n =
    after_events-OnlyNew before (track t e conn).0 xs p.1 (track-IsValid t e conn v p.0).0
      (track-OnlyNew before t e conn p.0 n)
after_events-OnlyNew before t (ends c ∷ xs) p v n =
    after_events-OnlyNew before (close_once t c).0 xs p.1 (close_once-IsValid t c v p.0)
      (close_once-OnlyNew before t c n)

no_entry : (before : ℕ) (t : Tracker) → t.entries ≡ [] → has_connection t before ≡ false
unfolding has_connection
no_entry before t e = ground (arith, ap length e)

some_entry :
    (before : ℕ) (t : Tracker)
    → All (λ c. before < c.id) t.entries
    → has_connection t before ≡ true
    → (c : Tracked) × (rest : List Tracked) × (t.entries ≡ c ∷ rest) × (before < c.id)
some_entry before t a h = split t.entries refl a
  where
    split :
        (cs : List Tracked)
        → t.entries ≡ cs
        → All (λ c. before < c.id) cs
        → (c : Tracked) × (rest : List Tracked) × (t.entries ≡ c ∷ rest) × (before < c.id)
    split [] e a = cc (no_entry before t e)
    split (c ∷ rest) e a = (c, rest, e, a.0)

close_all-OnlyNew : (t : Tracker) → IsValid t → OnlyNew t.next_id (close_all t).0
close_all-OnlyNew t v =
    (rw (close_all-empties t v).0 tt, let n = next_id-close_all t in omega arith)

-- A recovery notes the generation, closes all tunnels and waits. If the wait is over, whatever
-- tunnels opened and ended in between, then there are live tunnels, and every one of them was
-- tracked after the close: none of those that were live before is in use.
pub has_connection-close_all :
    (t : Tracker) (xs : List Event)
    → IsValid t
    → Possible (close_all t).0 xs
    → has_connection (after_events (close_all t).0 xs) t.generation ≡ true
    → let t' = after_events (close_all t).0 xs in
      All (λ c. t.next_id < c.id) t'.entries
      × ((c : Tracked) × (rest : List Tracked) × (t'.entries ≡ c ∷ rest) × (t.next_id < c.id))
has_connection-close_all t xs v p h =
    let closed = close_all-empties t v in
    let t' = after_events (close_all t).0 xs in
    let new =
      after_events-OnlyNew t.next_id (close_all t).0 xs p closed.4 (close_all-OnlyNew t v) in
    (new.0.0, some_entry t.next_id t' new.0.0 (subst (λ g. has_connection t' g ≡ true) v.counted h))

-- The events of a prefix are possible where all are.
pub Possible-append_left :
    (t : Tracker) (xs ys : List Event) → Possible t (xs ++ ys) → Possible t xs
Possible-append_left t [] ys p = tt
Possible-append_left t (opens e conn ∷ xs) ys p =
    (p.0, Possible-append_left (track t e conn).0 xs ys p.1)
Possible-append_left t (ends c ∷ xs) ys p = (p.0, Possible-append_left (close_once t c).0 xs ys p.1)

after_events-append :
    (t : Tracker) (xs ys : List Event)
    → after_events t (xs ++ ys) ≡ after_events (after_events t xs) ys
unfolding after_events
after_events-append t [] ys = refl
after_events-append t (x ∷ xs) ys = after_events-append (after_event t x) xs ys

close_once-signals :
    (t : Tracker) (c : Tracked)
    → ((close_once t c).0 ≡ t) ⊎ (t.signals < (close_once t c).0.signals)
unfolding close_once remove
close_once-signals t c = elim (Bool-cases (has_id c.id t.ended)) [
  | inl ended ↦ inl (rw ended refl)
  | inr live ↦ inr (rw live (omega arith))
]

-- An event that changes the tracker closes `changed`.
after_event-signals :
    (t : Tracker) (x : Event) → (after_event t x ≡ t) ⊎ (t.signals < (after_event t x).signals)
unfolding after_event track
after_event-signals t (opens e conn) = inr (omega arith)
after_event-signals t (ends c) = close_once-signals t c

after_events-signals :
    (t : Tracker) (xs : List Event)
    → (after_events t xs ≡ t) ⊎ (t.signals < (after_events t xs).signals)
unfolding after_events
after_events-signals t [] = inl refl
after_events-signals t (x ∷ xs) =
    later (after_events (after_event t x) xs) (after_event-signals t x)
      (after_events-signals (after_event t x) xs)
  where
    later :
        (v : Tracker)
        → (after_event t x ≡ t) ⊎ (t.signals < (after_event t x).signals)
        → (v ≡ after_event t x) ⊎ ((after_event t x).signals < v.signals)
        → (v ≡ t) ⊎ (t.signals < v.signals)
    later v (inl same) (inl stays) = inl (stays ∙ same)
    later v (inl same) (inr more) = inr (rw same at more)
    later v (inr more) (inl stays) =
        inr (let e = ap (λ (u : Tracker). u.signals) stays in omega arith)
    later v (inr more) (inr again) = inr (omega arith)

-- The loop returned nil when there was a live tunnel of a later generation.
abbrev pub Connected : Tracker → ℕ → List Event → Tracker × Option Error → Type 0
Connected t after events r =
    (xs : List Event) × (ys : List Event) × (events ≡ xs ++ ys)
    × (r ≡ (after_events t xs, none))
    × (has_connection (after_events t xs) after ≡ true)

-- None of the looks found one. If there is one in the end, it came after the last look, and the channel
-- that the loop held is closed.
abbrev pub NeverSeen : Tracker → ℕ → List (List Event) → List Event → Type 0
NeverSeen t after [] last =
    (has_connection t after ≡ false)
    × ((has_connection (after_events t last) after ≡ false)
        ⊎ (t.signals < (after_events t last).signals))
NeverSeen t after (round ∷ rounds) last =
    (has_connection t after ≡ false) × NeverSeen (after_events t round) after rounds last

abbrev pub TimedOut :
    Tracker → ℕ → List (List Event) → List Event → Error → Tracker × Option Error → Type 0
TimedOut t after rounds last done r =
    (r ≡ (after_events t (all_events rounds last), some done)) × NeverSeen t after rounds last

later_Connected :
    (t : Tracker) (after : ℕ) (round events : List Event) (r : Tracker × Option Error)
    → Connected (after_events t round) after events r
    → Connected t after (round ++ events) r
later_Connected t after round events r (xs, ys, e, result, live) =
    let same = after_events-append t round xs in
    (
      round ++ xs,
      ys,
      ap (λ zs. round ++ zs) e ∙ sym (append_assoc round xs ys),
      rw same result,
      rw same live,
    )

missed :
    (t : Tracker) (after : ℕ) (last : List Event)
    → has_connection t after ≡ false
    → (has_connection (after_events t last) after ≡ false)
      ⊎ (t.signals < (after_events t last).signals)
missed t after last not_yet = elim (after_events-signals t last) [
  | inl same ↦ inl (ap (λ u. has_connection u after) same ∙ not_yet)
  | inr more ↦ inr more
]

pub wait_for_connection-outcome :
    (t : Tracker) (after : ℕ) (rounds : List (List Event)) (last : List Event) (done : Error)
    → Connected t after (all_events rounds last) (wait_for_connection t after rounds last done)
      ⊎ TimedOut t after rounds last done (wait_for_connection t after rounds last done)
unfolding wait_for_connection all_events after_events
wait_for_connection-outcome t after [] last done = elim (Bool-cases (has_connection t after)) [
  | inl live ↦ rw live (inl ([], last, refl, refl, live))
  | inr not_yet ↦ rw not_yet (inr (refl, (refl, missed t after last not_yet)))
]
wait_for_connection-outcome t after (round ∷ rounds) last done =
    elim (Bool-cases (has_connection t after)) [
      | inl live ↦ rw live (inl ([], round ++ all_events rounds last, refl, refl, live))
      | inr not_yet ↦
          rw not_yet
            (elim (wait_for_connection-outcome (after_events t round) after rounds last done) [
              | inl connected ↦ inl (later_Connected t after round _ _ connected)
              | inr timed_out ↦ inr (
                timed_out.0
                    ∙ ap (λ u. (u, some done))
                        (sym (after_events-append t round (all_events rounds last))),
                (refl, timed_out.1),
              )
            ])
    ]
