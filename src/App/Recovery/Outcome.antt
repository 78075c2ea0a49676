-- ===== src/App/Recovery/Outcome.antt =====
-- How RecoveryCoordinator.Recover of internal/app/recovery.go ends.
use bigducks_live.Base.{
  ◌<◌, ◌≡◌, ◌⊎◌, inl, inr, refl, sym, subst, true, List, [], ◌∷◌, length, All, arith, Option, none,
  some, Bool-cases, ◌==◌,
}
use bigducks_live.Errors.{Error}
use bigducks_live.Model.{VerifiedEndpoint}
use bigducks_live.Proxy.Managed.{ManagedPool}
use bigducks_live.Proxy.Managed.Refresh.{refresh}
use bigducks_live.Relay.Tracker.{Tracked, Tracker, close_all}
use bigducks_live.Relay.Tracker.Invariant.{IsValid}
use bigducks_live.Relay.Tracker.Wait.{
  after_events, Possible, Possible-append_left, NeverSeen, all_events, Connected, TimedOut,
  wait_for_connection-outcome, has_connection-close_all,
}
use bigducks_live.App.Status.{protected, without_proxy, failed, error_text}
use bigducks_live.App.Gateway.Routes.{Shows, report-Shows}
use bigducks_live.App.Recovery.{
  Runtime, RecoveryResult, RecoveryWorld, used_bridge_of, technical_text, after_wait, redial,
  after_recovery_refresh, preparing, at_gate, through_gate, recover,
}

abbrev Recovered : Type 0
Recovered = Runtime × RecoveryResult × Option Error

-- Success: the tunnels are those of a moment of the wait, there are some, and each was tracked after
-- those that the recovery closed.
abbrev pub Renewed : RecoveryWorld → Tracker → Runtime × RecoveryResult × Option Error → Type 0
Renewed w t (r, result, e) =
    (e ≡ none)
    × (result.state ≡ protected)
    × (result.used_bridge ≡ used_bridge_of w.bridge)
    × Shows protected [] r.status
    × All (λ c. t.next_id < c.id) r.tunnels.entries
    × ((c : Tracked) × (rest : List Tracked) × (r.tunnels.entries ≡ c ∷ rest))

-- The context was done before the wait saw a new tunnel.
abbrev pub Late : RecoveryWorld → Tracker → Runtime × RecoveryResult × Option Error → Type 0
Late w t (r, result, e) =
    (e ≡ some w.done)
    × (result.state ≡ failed)
    × Shows failed (technical_text w.done w.bridge) r.status
    × (r.tunnels ≡ after_events (close_all t).0 (all_events w.waiting w.last))
    × NeverSeen (close_all t).0 t.generation w.waiting w.last

-- The pool was empty and could not be filled: no tunnel is closed.
abbrev pub NoRoute : Runtime → Runtime × RecoveryResult × Option Error → Type 0
NoRoute before (r, result, e) =
    (before.pool.entries ≡ [])
    × (result.state ≡ without_proxy)
    × ((error : Error) × (e ≡ some error) × Shows without_proxy (error_text error) r.status)
    × (r.tunnels ≡ before.tunnels)

-- The context was done before it was this recovery's turn: nothing is changed.
abbrev pub Turned : Option Error → Runtime → Runtime × RecoveryResult × Option Error → Type 0
Turned gate before (r, result, e) =
    (r ≡ before) × (result.state ≡ failed) × (e ≡ gate) × ((error : Error) × (e ≡ some error))

after_wait-outcome :
    (w : RecoveryWorld) (r : Runtime) (t : Tracker) (out : Tracker × Option Error)
    → IsValid t
    → Possible (close_all t).0 (all_events w.waiting w.last)
    → Connected (close_all t).0 t.generation (all_events w.waiting w.last) out
      ⊎ TimedOut (close_all t).0 t.generation w.waiting w.last w.done out
    → Renewed w t (after_wait w r out) ⊎ Late w t (after_wait w r out)
unfolding after_wait
after_wait-outcome w r t out v p (inl (xs, ys, e, result, live)) =
    let possible =
      Possible-append_left (close_all t).0 xs ys (subst (Possible (close_all t).0) e p) in
    let (new, (c, rest, head, newer)) = has_connection-close_all t xs v possible live in
    rw result
      (inl (refl, refl, refl, report-Shows w.now protected [] _ r.status, new, (c, rest, head)))
after_wait-outcome w r t out v p (inr (result, never)) = rw result (
    inr (
      refl,
      refl,
      report-Shows w.now failed (technical_text w.done w.bridge) _ r.status,
      refl,
      never,
    ))

redial-outcome :
    (w : RecoveryWorld) (r : Runtime)
    → IsValid r.tunnels
    → Possible (close_all r.tunnels).0 (all_events w.waiting w.last)
    → Renewed w r.tunnels (redial w r) ⊎ Late w r.tunnels (redial w r)
unfolding redial
redial-outcome w r v p = after_wait-outcome w _ r.tunnels _ v p (
    wait_for_connection-outcome (close_all r.tunnels).0 r.tunnels.generation w.waiting w.last
      w.done)

abbrev Outcome : RecoveryWorld → Option Error → Runtime → Recovered → Type 0
Outcome w gate r out =
    Renewed w r.tunnels out ⊎ (Late w r.tunnels out ⊎ (NoRoute r out ⊎ Turned gate r out))

redialed :
    (w : RecoveryWorld) (before r : Runtime)
    → r.tunnels ≡ before.tunnels
    → IsValid before.tunnels
    → Possible (close_all before.tunnels).0 (all_events w.waiting w.last)
    → Renewed w before.tunnels (redial w r) ⊎ Late w before.tunnels (redial w r)
redialed w before r e v p =
    subst (λ t. Renewed w t (redial w r) ⊎ Late w t (redial w r)) e
      (redial-outcome w r (subst IsValid (sym e) v)
        (subst (λ (t : Tracker). Possible (close_all t).0 (all_events w.waiting w.last)) (sym e) p))

redialed-Outcome :
    (w : RecoveryWorld) (before r : Runtime)
    → r.tunnels ≡ before.tunnels
    → IsValid before.tunnels
    → Possible (close_all before.tunnels).0 (all_events w.waiting w.last)
    → Outcome w none before (redial w r)
redialed-Outcome w before r e v p = elim (redialed w before r e v p) [
  | inl renewed ↦ inl renewed
  | inr late ↦ inr (inl late)
]

no_entries : (xs : List VerifiedEndpoint) → (length xs == 0) ≡ true → xs ≡ []
no_entries [] h = refl
no_entries (x ∷ xs) h = absurd (ground arith)

after_recovery_refresh-Outcome :
    (w : RecoveryWorld) (before r : Runtime) (out : ManagedPool × Option Error)
    → r.tunnels ≡ before.tunnels
    → before.pool.entries ≡ []
    → IsValid before.tunnels
    → Possible (close_all before.tunnels).0 (all_events w.waiting w.last)
    → Outcome w none before (after_recovery_refresh w r out)
after_recovery_refresh-Outcome w before r (pool, none) e empty v p =
    redialed-Outcome w before (record r { pool = pool }) e v p
after_recovery_refresh-Outcome w before r (pool, some error) e empty v p = inr (
    inr (
      inl (
        empty,
        refl,
        (error, refl, report-Shows w.now without_proxy (error_text error) _ r.status),
        e,
      )))

through_gate-Outcome :
    (w : RecoveryWorld) (before : Runtime)
    → IsValid before.tunnels
    → Possible (close_all before.tunnels).0 (all_events w.waiting w.last)
    → Outcome w none before (through_gate w before)
unfolding through_gate
through_gate-Outcome w before v p = elim (Bool-cases (length before.pool.entries == 0)) [
  | inl empty ↦ rw empty (
      after_recovery_refresh-Outcome w before (preparing w before)
        (refresh before.pool true w.refreshing) refl (no_entries before.pool.entries empty) v p)
  | inr filled ↦ rw filled (redialed-Outcome w before (preparing w before) refl v p)
]

at_gate-Outcome :
    (w : RecoveryWorld) (gate : Option Error) (before : Runtime)
    → IsValid before.tunnels
    → Possible (close_all before.tunnels).0 (all_events w.waiting w.last)
    → Outcome w gate before (at_gate w gate before)
at_gate-Outcome w none before v p = through_gate-Outcome w before v p
at_gate-Outcome w (some error) before v p = inr (inr (inr (refl, refl, refl, (error, refl))))

-- For a valid tracker of fewer than 2^64 tunnels, and whatever opens and ends while it waits,
-- Recover ends in one of four ways, which the status shows if there is one. It succeeds, and the
-- status is protected: then there are live tunnels, and every one of them was tracked after those that it closed. Or it fails with the
-- context's error, shown with the bridge's: then all old tunnels are closed and no look of the wait
-- found a new one; one that is there now came after the last look. Or the pool was empty and its refresh failed: then that error is
-- returned and shown in a status without proxy, and no tunnel is closed. Or the context was done
-- before its turn: then its error is returned and nothing is changed.
pub recover-outcome :
    (w : RecoveryWorld) (before : Runtime)
    → IsValid before.tunnels
    → Possible (close_all before.tunnels).0 (all_events w.waiting w.last)
    → Renewed w before.tunnels (recover w before)
      ⊎ (Late w before.tunnels (recover w before)
          ⊎ (NoRoute before (recover w before) ⊎ Turned w.gate before (recover w before)))
unfolding recover
recover-outcome w before v p = at_gate-Outcome w w.gate before v p
