-- ===== src/Proxy/Managed/Heartbeat/Evict.antt =====
-- Which entries a heartbeat of internal/proxy/managed.go evicts.
use bigducks_live.Base.{
  ℕ, ◌+◌, ◌≡◌, ◌↔◌, ◌⊎◌, inl, inr, refl, ◌∙◌, Bool, true, false, not, ◌&&◌, ◌||◌, leb, List, [],
  ◌∷◌, if◌then◌else◌, All, Elem, arith, Bool-cases,
}
use bigducks_live.Base.Text.{Text, text_eq, text_eq_iff}
use bigducks_live.Model.{Endpoint}
use bigducks_live.Proxy.Pool.{invalidate}
use bigducks_live.Proxy.Pool.Keys.{endpoints, Distinct, invalidate-Elem, invalidate-Distinct}
use bigducks_live.Proxy.Managed.{ManagedPool, report_dead}
use bigducks_live.Proxy.Managed.Heartbeat.{
  miss_count, ProbeResult, key_of, evict, handle_result, handle_results,
}
use bigducks_live.Proxy.Managed.Heartbeat.Misses.{miss_count-delete_misses, miss_count-set_misses}

-- A failed probe costs an entry its place if it is in use or has missed before.
abbrev pub strikes_out : List (Text × ℕ) → ProbeResult → Bool
strikes_out misses r = r.failed && (r.in_use || leb 1 (miss_count (key_of r) misses))

module _ (m : ManagedPool) (r : ProbeResult) where
  handle_result_entries :
      (handle_result m r).0.entries
      ≡ (if strikes_out m.misses r then invalidate r.entry.endpoint m.entries else m.entries)
  unfolding handle_result evict report_dead
  handle_result_entries = ground arith

  handle_result_evicted : (handle_result m r).1 ≡ strikes_out m.misses r
  unfolding handle_result
  handle_result_evicted = ground arith

  handle_result_misses :
      (other : Text)
      → text_eq (key_of r) other ≡ false
      → miss_count other (handle_result m r).0.misses ≡ miss_count other m.misses
  unfolding handle_result evict report_dead
  handle_result_misses other h = ground (
    arith,
    miss_count-delete_misses (key_of r) other m.misses,
    miss_count-set_misses (key_of r) other (miss_count (key_of r) m.misses + 1) m.misses,
  )

  handle_result_own_misses :
      miss_count (key_of r) (handle_result m r).0.misses
      ≡ (if r.failed && not (strikes_out m.misses r) then 1 else 0)
  unfolding handle_result evict report_dead
  handle_result_own_misses = ground (
    arith,
    text_eq_iff (key_of r) (key_of r),
    miss_count-delete_misses (key_of r) (key_of r) m.misses,
    miss_count-set_misses (key_of r) (key_of r) (miss_count (key_of r) m.misses + 1) m.misses,
  )

-- No two results have one key.
abbrev pub DistinctKeys : List ProbeResult → Type 0
DistinctKeys [] = Unit
DistinctKeys (r ∷ rs) = All (λ s. text_eq (key_of r) (key_of s) ≡ false) rs × DistinctKeys rs

-- Some result costs the endpoint its place.
abbrev pub StruckOut : List (Text × ℕ) → Endpoint → List ProbeResult → Type 0
StruckOut misses e [] = ⊥
StruckOut misses e (r ∷ rs) =
    ((strikes_out misses r ≡ true) × (e ≡ r.entry.endpoint)) ⊎ StruckOut misses e rs

abbrev SameCounts : List (Text × ℕ) → List (Text × ℕ) → List ProbeResult → Type 0
SameCounts before after = All (λ s. miss_count (key_of s) after ≡ miss_count (key_of s) before)

StruckOut-same :
    (before after : List (Text × ℕ)) (e : Endpoint) (rs : List ProbeResult)
    → SameCounts before after rs
    → StruckOut after e rs ↔ StruckOut before e rs
StruckOut-same before after e [] same = ((λ s. s), λ s. s)
StruckOut-same before after e (r ∷ rs) same =
    let ih = StruckOut-same before after e rs same.1 in
    (
      (λ s. elim s [ inl (k, x) ↦ inl (ground (arith, same.0), x) | inr k ↦ inr (ih.0 k) ]),
      λ s. elim s [ inl (k, x) ↦ inl (ground (arith, same.0), x) | inr k ↦ inr (ih.1 k) ],
    )

handle_result-SameCounts :
    (m : ManagedPool) (r : ProbeResult) (rs : List ProbeResult)
    → All (λ s. text_eq (key_of r) (key_of s) ≡ false) rs
    → SameCounts m.misses (handle_result m r).0.misses rs
handle_result-SameCounts m r [] h = tt
handle_result-SameCounts m r (s ∷ rs) h =
    (handle_result_misses m r (key_of s) h.0, handle_result-SameCounts m r rs h.1)

handle_result-Distinct :
    (m : ManagedPool) (r : ProbeResult)
    → Distinct m.entries
    → Distinct (handle_result m r).0.entries
handle_result-Distinct m r d =
    rw (handle_result_entries m r) (elim (Bool-cases (strikes_out m.misses r)) [
      | inl out ↦ rw out (invalidate-Distinct r.entry.endpoint m.entries d)
      | inr stay ↦ rw stay d
    ])

handle_result-Elem :
    (m : ManagedPool) (r : ProbeResult) (e : Endpoint)
    → Distinct m.entries
    → Elem e (endpoints (handle_result m r).0.entries) ↔ (
        Elem e (endpoints m.entries)
        × (¬ ((strikes_out m.misses r ≡ true) × (e ≡ r.entry.endpoint))))
handle_result-Elem m r e d =
    rw (handle_result_entries m r) (elim (Bool-cases (strikes_out m.misses r)) [
      | inl out ↦
          let k = invalidate-Elem r.entry.endpoint e m.entries d in
          rw out ((λ x. ((k.0 x).0, λ s. (k.0 x).1 s.1)), λ x. k.1 (x.0, λ q. x.1 (refl, q)))
      | inr stay ↦ rw stay ((λ x. (x, λ s. cc s.0)), λ x. x.0)
    ])

-- The results of one heartbeat, one for each key and in any order, evict exactly the entries whose
-- probe failed and that were in use or had missed the heartbeat before. The pool keeps distinct
-- endpoints.
pub handle_results-Elem :
    (m : ManagedPool) (rs : List ProbeResult) (e : Endpoint)
    → Distinct m.entries
    → DistinctKeys rs
    → (Elem e (endpoints (handle_results m rs).0.entries)
        ↔ (Elem e (endpoints m.entries) × (¬ StruckOut m.misses e rs)))
      × Distinct (handle_results m rs).0.entries
unfolding handle_results
handle_results-Elem m [] e d k = (((λ x. (x, λ s. s)), λ x. x.0), d)
handle_results-Elem m (r ∷ rs) e d k =
    let here = handle_result-Elem m r e d in
    let rest = handle_results-Elem (handle_result m r).0 rs e (handle_result-Distinct m r d) k.1 in
    let same =
      StruckOut-same m.misses (handle_result m r).0.misses e rs
        (handle_result-SameCounts m r rs k.0) in
    (
      (
        (λ x.
            let y = rest.0.0 x in
            let z = here.0 y.0 in
            (z.0, λ s. elim s [ inl out ↦ z.1 out | inr later ↦ y.1 (same.1 later) ])),
        λ x. rest.0.1 (here.1 (x.0, λ s. x.1 (inl s)), λ s. x.1 (inr (same.0 s))),
      ),
      rest.1,
    )

handle_results_other_misses :
    (m : ManagedPool) (rs : List ProbeResult) (key : Text)
    → All (λ s. text_eq (key_of s) key ≡ false) rs
    → miss_count key (handle_results m rs).0.misses ≡ miss_count key m.misses
unfolding handle_results
handle_results_other_misses m [] key h = refl
handle_results_other_misses m (r ∷ rs) key h =
    handle_results_other_misses (handle_result m r).0 rs key h.1 ∙ handle_result_misses m r key h.0

flip_keys :
    (r : ProbeResult) (rs : List ProbeResult)
    → All (λ s. text_eq (key_of r) (key_of s) ≡ false) rs
    → All (λ s. text_eq (key_of s) (key_of r) ≡ false) rs
flip_keys r [] h = tt
flip_keys r (s ∷ rs) h = (
  ground (arith, text_eq_iff (key_of r) (key_of s), text_eq_iff (key_of s) (key_of r)),
  flip_keys r rs h.1,
)

abbrev Left : List (Text × ℕ) → List (Text × ℕ) → ProbeResult → Type 0
Left before after r =
    miss_count (key_of r) after ≡ (if r.failed && not (strikes_out before r) then 1 else 0)

Left-same :
    (before middle after : List (Text × ℕ)) (rs : List ProbeResult)
    → SameCounts before middle rs
    → All (Left middle after) rs
    → All (Left before after) rs
Left-same before middle after [] same left = tt
Left-same before middle after (r ∷ rs) same left =
    (rw (← same.0) left.0, Left-same before middle after rs same.1 left.1)

-- What a heartbeat whose results have distinct keys (the URLs of their endpoints) leaves in
-- the map for the key of one of them, whatever the order: 1 if the probe failed and the entry was let
-- off, and 0 otherwise.
pub handle_results_misses :
    (m : ManagedPool) (rs : List ProbeResult)
    → DistinctKeys rs
    → All
        (λ r.
          miss_count (key_of r) (handle_results m rs).0.misses
          ≡ (if r.failed && not (strikes_out m.misses r) then 1 else 0))
        rs
unfolding handle_results
handle_results_misses m [] k = tt
handle_results_misses m (r ∷ rs) k = (
  handle_results_other_misses (handle_result m r).0 rs (key_of r) (flip_keys r rs k.0)
      ∙ handle_result_own_misses m r,
  Left-same m.misses (handle_result m r).0.misses _ rs (handle_result-SameCounts m r rs k.0)
      (handle_results_misses (handle_result m r).0 rs k.1),
)
