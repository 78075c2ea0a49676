-- ===== src/Proxy/Select/Best.antt =====
-- What SelectVerified of internal/proxy/pool.go selects.
use bigducks_live.Base.{
  ℕ, ◌≤◌, ◌<◌, ◌≡◌, ◌⊎◌, inl, inr, refl, true, false, ◌==◌, List, [], ◌∷◌, none, length, take,
  length-take, All, Elem, arith, Bool-cases, Option-cases, ◌≢◌, All-of_Elem, ap,
}
use bigducks_live.Base.Sort.{
  sort, IsSorted, Elem-sort, sort-IsSorted, take-IsSorted, Elem-take, take-first,
  by_number_le_total, by_number_le_trans,
}
use bigducks_live.Base.Text.{codes, is_empty, equal_fold}
use bigducks_live.Model.{VerifiedEndpoint}
use bigducks_live.Proxy.Select.{
  ProbeResult, is_rejected, collect_verified, entry_le, limit_of, select_verified,
}

-- A probe verified the entry, in a country that is known and not Brazil.
abbrev pub IsVerified : List ProbeResult → VerifiedEndpoint → Type 0
IsVerified results e =
    (r : ProbeResult) × Elem r results
    × (r.endpoint ≡ e)
    × (r.error ≡ none)
    × (is_empty e.country ≡ false)
    × (equal_fold e.country (codes "BR") ≡ false)

accepted :
    (r : ProbeResult)
    → is_rejected r ≡ false
    → (r.error ≡ none)
      × (is_empty r.endpoint.country ≡ false)
      × (equal_fold r.endpoint.country (codes "BR") ≡ false)
unfolding is_rejected
accepted r h = ground arith

-- A probe failed, or its country is not known or is Brazil.
abbrev pub IsUnfit : ProbeResult → Type 0
IsUnfit r =
    (r.error ≢ none)
    ⊎ ((is_empty r.endpoint.country ≡ true) ⊎ (equal_fold r.endpoint.country (codes "BR") ≡ true))

rejected : (r : ProbeResult) → is_rejected r ≡ true → IsUnfit r
unfolding is_rejected
rejected r h = elim (Option-cases r.error) [
  | inl fine ↦ inr (ground arith)
  | inr (e, fails) ↦ inl (λ none_there. cc)
]

later :
    (r : ProbeResult) (rs : List ProbeResult) (e : VerifiedEndpoint)
    → IsVerified rs e
    → IsVerified (r ∷ rs) e
later r rs e (s, m, same, a, b, c) = (s, inr m, same, a, b, c)

collect_verified_sound :
    (results : List ProbeResult) (e : VerifiedEndpoint)
    → Elem e (collect_verified results)
    → IsVerified results e
unfolding collect_verified
collect_verified_sound [] e m = elim m [ ]
collect_verified_sound (r ∷ rs) e m = elim (Bool-cases (is_rejected r)) [
  | inl out ↦ later r rs e (collect_verified_sound rs e (rw out at m))
  | inr stays ↦
      let here : (e ≡ r.endpoint) ⊎ Elem e (collect_verified rs) = rw stays at m in
      elim here [
        | inl same ↦ let (a, b, c) = accepted r stays in rw same (r, inl refl, refl, a, b, c)
        | inr there ↦ later r rs e (collect_verified_sound rs e there)
      ]
]

collect_verified_complete :
    (results : List ProbeResult) (r : ProbeResult)
    → Elem r results
    → is_rejected r ≡ false
    → Elem r.endpoint (collect_verified results)
unfolding collect_verified
collect_verified_complete [] r m h = elim m [ ]
collect_verified_complete (s ∷ rs) r (inl e) h =
    let stays : is_rejected s ≡ false = cc in
    rw stays (inl (ap (λ (x : ProbeResult). x.endpoint) e))
collect_verified_complete (s ∷ rs) r (inr m) h = elim (Bool-cases (is_rejected s)) [
  | inl out ↦ rw out (collect_verified_complete rs r m h)
  | inr stays ↦ rw stays (inr (collect_verified_complete rs r m h))
]

entry_le_total : (a b : VerifiedEndpoint) → entry_le a b ≡ false → entry_le b a ≡ true
unfolding entry_le
entry_le_total a b = by_number_le_total a.latency_ms b.latency_ms _ _

entry_le_trans :
    (a b c : VerifiedEndpoint) → entry_le a b ≡ true → entry_le b c ≡ true → entry_le a c ≡ true
unfolding entry_le
entry_le_trans a b c = by_number_le_trans a.latency_ms b.latency_ms c.latency_ms _ _ _

-- Some candidates are probed, by a probe. In whatever order the results arrive, SelectVerified
-- returns verified entries only, sorted by latency and then by redacted URL, and no more than the
-- limit. A result is left out only if its probe failed or its country is unknown or Brazil, or if
-- the selection is full, and then all that is selected comes before it or is equal to it in that
-- order.
pub select_verified-best :
    (candidates max : ℕ) (results : List ProbeResult)
    → 0 < candidates
    → let selected = select_verified candidates max true results in
      IsSorted entry_le selected
      × (length selected ≤ limit_of max candidates)
      × All (IsVerified results) selected
      × All
          (λ r.
            IsUnfit r
            ⊎ (Elem r.endpoint selected
                ⊎ ((length selected ≡ limit_of max candidates)
                    × All (λ y. entry_le y r.endpoint ≡ true) selected)))
          results
unfolding select_verified
select_verified-best candidates max results some_left =
    let all = collect_verified results in
    let n = limit_of max candidates in
    let sorted = sort-IsSorted entry_le entry_le_total entry_le_trans all in
    let probed : (candidates == 0) ≡ false = ground arith in
    rw probed (
      take-IsSorted entry_le n (sort entry_le all) sorted,
      omega (arith, length-take n (sort entry_le all)),
      All-of_Elem (IsVerified results) (take n (sort entry_le all)) (λ e m.
          collect_verified_sound results e
            ((Elem-sort entry_le e all).0 (Elem-take entry_le e n (sort entry_le all) m))),
      All-of_Elem _ results (λ r there. elim (Bool-cases (is_rejected r)) [
        | inl out ↦ inl (rejected r out)
        | inr stays ↦ inr (
            take-first entry_le r.endpoint n (sort entry_le all) sorted (
              (Elem-sort entry_le r.endpoint all).1
                (collect_verified_complete results r there stays)))
      ]),
    )
