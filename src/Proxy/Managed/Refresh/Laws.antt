-- ===== src/Proxy/Managed/Refresh/Laws.antt =====
-- Refresh of internal/proxy/managed.go: one flight at a time, the cooldown, and the pool's bounds.
use bigducks_live.Base.{
  ℕ, zero, suc, ◌+◌, ◌≤◌, ◌<◌, ◌≡◌, ◌↔◌, refl, ◌∙◌, Bool, true, false, List, [], ◌∷◌, ◌++◌, Option,
  none, some, length, take, ◌-◌, arith, ◌⊎◌,
}
use bigducks_live.Errors.{Error, refresh_cooldown, Result, ok, err}
use bigducks_live.Model.{VerifiedEndpoint}
use bigducks_live.Proxy.Pool.{merge}
use bigducks_live.Proxy.Pool.Keys.{Distinct}
use bigducks_live.Proxy.Pool.Unique.{merge_keeps, fresh}
use bigducks_live.Proxy.Managed.{ManagedPool, notify_change}
use bigducks_live.Proxy.Managed.Refresh.{
  returned, started, cooling_down, refresh_begin, refresh_finish, require_entries,
}

-- Refresh calls the refresh function exactly if there is one, no other refresh is in flight, and
-- either it is forced, or the pool is short and no failure is cooling down.
pub refresh_begin_started :
    (m : ManagedPool) (force : Bool) (now : ℕ)
    → ((refresh_begin m force now).1 ≡ started) ↔ (
        (m.settings.has_refresh ≡ true)
        × (m.in_flight ≡ false)
        × ((force ≡ true)
            ⊎ ((length m.entries < m.settings.pool_size) × (cooling_down m now ≡ false))))
unfolding refresh_begin
refresh_begin_started m force now = ground arith

-- The entries that a refresh keeps in order: no endpoint twice, and no more than the pool's size.
pub record IsSound (m : ManagedPool) : Type 0 where
  pub distinct : Distinct m.entries
  pub bounded : length m.entries ≤ m.settings.pool_size
  pub positive : 0 < m.settings.pool_size

module _ (m : ManagedPool) where
  pub notify_change_keeps :
      ((notify_change m).entries ≡ m.entries)
      × ((notify_change m).settings ≡ m.settings)
      × ((notify_change m).in_flight ≡ m.in_flight)
  unfolding notify_change
  notify_change_keeps = ground arith

abbrev pub Refreshed :
    ManagedPool → ℕ → Result (List VerifiedEndpoint) → ManagedPool × Option Error → Type 0
Refreshed m now (ok found) r =
    (r.1 ≡ none)
    × (r.0.last_failed ≡ none)
    × (r.0.entries
        ≡ m.entries ++ take (m.settings.pool_size - length m.entries) (fresh m.entries found))
Refreshed m now (err why) r =
    (r.1 ≡ some why) × (r.0.last_failed ≡ some now) × (r.0.entries ≡ m.entries)

IsSound-failed :
    (m : ManagedPool) (now : ℕ)
    → IsSound m
    → IsSound (record m { last_failed = some now; in_flight = false })
IsSound-failed m now v = record {
  distinct = v.distinct;
  bounded = v.bounded;
  positive = v.positive;
}

merge-IsSound :
    (m : ManagedPool) (found : List VerifiedEndpoint) (size : ℕ)
    → m.settings.pool_size ≡ size
    → IsSound m
    → (merge m.entries found size
        ≡ m.entries ++ take (size - length m.entries) (fresh m.entries found))
      × IsSound (record m { entries = merge m.entries found size })
merge-IsSound m found zero e v = absurd (let p = v.positive in omega arith)
merge-IsSound m found (suc n) e v =
    let k = merge_keeps m.entries found n v.distinct (let b = v.bounded in omega arith) in
    (k.0, record { distinct = k.2; bounded = omega (arith, k.1); positive = v.positive })

-- The end of a flight, from a sound pool: an error, or an empty answer, which counts as
-- ErrNoProxy, sets the time of the failure and leaves the entries alone. Of entries that were found,
-- those whose endpoint is not yet there are put behind the pool's, each endpoint once and in order,
-- as many as the pool's size leaves room for, and the failure is forgotten. Either way the flight is
-- over, and the pool is sound.
pub refresh_finish-IsSound :
    (m : ManagedPool) (now : ℕ) (fetched : Result (List VerifiedEndpoint))
    → IsSound m
    → Refreshed m now (require_entries fetched) (refresh_finish m now fetched)
      × IsSound (refresh_finish m now fetched).0
      × ((refresh_finish m now fetched).0.in_flight ≡ false)
unfolding refresh_finish
refresh_finish-IsSound m now (err e) v = ((refl, refl, refl), IsSound-failed m now v, refl)
refresh_finish-IsSound m now (ok []) v = ((refl, refl, refl), IsSound-failed m now v, refl)
refresh_finish-IsSound m now (ok (x ∷ xs)) v =
    let k = merge-IsSound m (x ∷ xs) m.settings.pool_size refl v in
    let kept =
      notify_change_keeps (record m { entries = merge m.entries (x ∷ xs) m.settings.pool_size }) in
    (
      (refl, refl, kept.0 ∙ k.0),
      record {
        distinct = rw kept.0 k.1.distinct;
        bounded = rw (kept.0, kept.1) k.1.bounded;
        positive = rw kept.1 k.1.positive;
      },
      refl,
    )

-- After a flight that failed at time `t`, a call that is not forced, less than the cooldown (which
-- is not 0) later and on a pool that is short, returns ErrRefreshCooldown and changes nothing.
pub refresh_cools_down :
    (m : ManagedPool) (t : ℕ) (fetched : Result (List VerifiedEndpoint)) (why : Error) (now : ℕ)
    → require_entries fetched ≡ err why
    → m.settings.has_refresh ≡ true
    → length m.entries < m.settings.pool_size
    → 0 < m.settings.hunt_cooldown
    → now < t + m.settings.hunt_cooldown
    → refresh_begin (refresh_finish m t fetched).0 false now
      ≡ ((refresh_finish m t fetched).0, returned (some refresh_cooldown))
unfolding refresh_begin refresh_finish cooling_down
refresh_cools_down m t fetched why now e h short cools soon = rw e (ground arith)
