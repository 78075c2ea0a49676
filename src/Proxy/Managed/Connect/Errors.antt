-- ===== src/Proxy/Managed/Connect/Errors.antt =====
-- How DialWithEndpoint of internal/proxy/managed.go ends.
use bigducks_live.Base.{ℕ, ◌≡◌, refl, true, Option, none, some, ◌⊎◌, inl, inr}
use bigducks_live.Base.Text.{Text}
use bigducks_live.Errors.{Error, no_proxy, Result, ok, err}
use bigducks_live.Proxy.Dial.{DialResult, dial_with_endpoint}
use bigducks_live.Proxy.Managed.{ManagedPool, report_dial_removals}
use bigducks_live.Proxy.Managed.Refresh.{refresh}
use bigducks_live.Proxy.Managed.Connect.{
  ConnectWorld, parent_or_no_proxy, second_dial, after_refresh, recover_dial, managed_dial,
}

-- Where a connection comes from: one of the two dials, the second on the entries that the refresh
-- left after the first found none.
abbrev pub FromDial : ManagedPool → Text → ℕ → ConnectWorld → DialResult → Type 0
FromDial m host port w r =
    ((dial_with_endpoint w.first host port m.entries).result ≡ ok r)
    ⊎ ((e : Error) × (m' : ManagedPool) × ((dial_with_endpoint w.first host port m.entries).result
          ≡ err e)
        × (w.parent_after_first ≡ none)
        × (refresh
              (report_dial_removals
                (record m { entries = (dial_with_endpoint w.first host port m.entries).entries })
                m.entries)
              true w.refreshing
            ≡ (m', none))
        × ((dial_with_endpoint w.second host port m'.entries).result ≡ ok r))

abbrev pub Outcome : ManagedPool → Text → ℕ → ConnectWorld → Result DialResult → Type 0
Outcome m host port w (ok r) = FromDial m host port w r
Outcome m host port w (err e) =
    (e ≡ no_proxy)
    ⊎ ((w.parent_after_first ≡ some e)
        ⊎ ((w.parent_after_refresh ≡ some e) ⊎ (w.parent_after_second ≡ some e)))

Result-cases :
    (x : Result DialResult) → ((e : Error) × (x ≡ err e)) ⊎ ((r : DialResult) × (x ≡ ok r))
Result-cases (ok r) = inr (r, refl)
Result-cases (err e) = inl (e, refl)

module _ (m : ManagedPool) (host : Text) (port : ℕ) (w : ConnectWorld) where
  parent_Outcome :
      (parent : Option Error)
      → ((e : Error) → parent ≡ some e → Outcome m host port w (err e))
      → Outcome m host port w (parent_or_no_proxy parent)
  parent_Outcome none shut = inl refl
  parent_Outcome (some e) shut = shut e refl

  second_Outcome :
      (m' : ManagedPool)
      → ((r : DialResult)
          → (dial_with_endpoint w.second host port m'.entries).result ≡ ok r
          → FromDial m host port w r)
      → Outcome m host port w (second_dial m' host port w).1
  unfolding second_dial
  second_Outcome m' from =
      elim (Result-cases (dial_with_endpoint w.second host port m'.entries).result) [
        | inr (r, hit) ↦ rw hit (from r hit)
        | inl (e, miss) ↦ rw miss (parent_Outcome w.parent_after_second (λ e p. inr (inr (inr p))))
      ]

  refresh_Outcome :
      (r : ManagedPool × Option Error)
      → ((m' : ManagedPool) (c : DialResult)
          → r ≡ (m', none)
          → (dial_with_endpoint w.second host port m'.entries).result ≡ ok c
          → FromDial m host port w c)
      → Outcome m host port w (after_refresh r host port w).1
  refresh_Outcome (m', some e) from =
      parent_Outcome w.parent_after_refresh (λ e p. inr (inr (inl p)))
  refresh_Outcome (m', none) from = second_Outcome m' (λ c. from m' c refl)

  recover_Outcome :
      (m' : ManagedPool) (parent : Option Error)
      → ((e : Error) → parent ≡ some e → Outcome m host port w (err e))
      → ((m'' : ManagedPool) (c : DialResult)
          → parent ≡ none
          → refresh m' true w.refreshing ≡ (m'', none)
          → (dial_with_endpoint w.second host port m''.entries).result ≡ ok c
          → FromDial m host port w c)
      → Outcome m host port w (recover_dial m' parent host port w).1
  recover_Outcome m' (some e) shut from = shut e refl
  recover_Outcome m' none shut from =
      refresh_Outcome (refresh m' true w.refreshing) (λ m'' c. from m'' c refl)

  -- How a dial of the managed pool ends. A connection comes from one of the two dials of the pool,
  -- the second only after the first was refused, with the context open, and a forced refresh went
  -- well. An error is ErrNoProxy, or what the caller's context said at one of the three places
  -- where it is asked: neither the refresh's error nor a dial's own error gets out.
  pub managed_dial-Outcome : Outcome m host port w (managed_dial m host port w).1
  unfolding managed_dial
  managed_dial-Outcome =
      elim (Result-cases (dial_with_endpoint w.first host port m.entries).result) [
        | inr (r, hit) ↦ rw hit (inl hit)
        | inl (e, miss) ↦ rw miss (
            recover_Outcome _ w.parent_after_first (λ e p. inr (inl p))
              (λ m'' c clear done hit. inr (e, m'', miss, clear, done, hit)))
      ]
