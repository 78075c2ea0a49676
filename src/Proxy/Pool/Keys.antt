-- ===== src/Proxy/Pool/Keys.antt =====
-- The endpoints of a list of entries: membership, distinctness and the first entry of an endpoint.
use bigducks_live.Base.{
  ◌+◌, ◌≡◌, refl, sym, ◌↔◌, ◌⊎◌, inl, inr, true, false, if◌then◌else◌, List, [], ◌∷◌, ◌++◌, map,
  Option, none, some, length, Elem, arith, Bool-cases,
}
use bigducks_live.Model.{Endpoint, VerifiedEndpoint, same_endpoint, same_endpoint_iff}
use bigducks_live.Proxy.Pool.{contains_endpoint, invalidate}

abbrev pub endpoints : List VerifiedEndpoint → List Endpoint
endpoints = map λ x. x.endpoint

-- No endpoint stands twice.
abbrev pub Distinct : List VerifiedEndpoint → Type 0
Distinct [] = Unit
Distinct (x ∷ xs) = (¬ Elem x.endpoint (endpoints xs)) × Distinct xs

-- The first entry with an endpoint.
unfoldable pub entry_of : Endpoint → List VerifiedEndpoint → Option VerifiedEndpoint
entry_of e [] = none
entry_of e (x ∷ xs) = if same_endpoint x.endpoint e then some x else entry_of e xs

pub contains_endpoint_iff :
    (xs : List VerifiedEndpoint) (e : Endpoint)
    → (contains_endpoint xs e ≡ true) ↔ Elem e (endpoints xs)
unfolding contains_endpoint
contains_endpoint_iff [] e = ground arith
contains_endpoint_iff (x ∷ xs) e =
    ground (arith, same_endpoint_iff x.endpoint e, contains_endpoint_iff xs e)

pub not-Elem_of_contains :
    (xs : List VerifiedEndpoint) (e : Endpoint)
    → contains_endpoint xs e ≡ false
    → ¬ Elem e (endpoints xs)
not-Elem_of_contains xs e h m = cc ((contains_endpoint_iff xs e).1 m)

pub Elem-snoc :
    (e : Endpoint) (xs : List VerifiedEndpoint) (x : VerifiedEndpoint)
    → Elem e (endpoints (xs ++ x ∷ []))
    → Elem e (endpoints xs) ⊎ (e ≡ x.endpoint)
Elem-snoc e [] x h = ground arith
Elem-snoc e (y ∷ xs) x (inl h) = inl (inl h)
Elem-snoc e (y ∷ xs) x (inr h) = ground (arith, Elem-snoc e xs x h)

pub Distinct-snoc :
    (xs : List VerifiedEndpoint) (x : VerifiedEndpoint)
    → Distinct xs
    → ¬ Elem x.endpoint (endpoints xs)
    → Distinct (xs ++ x ∷ [])
Distinct-snoc [] x d h = ((λ m. m), tt)
Distinct-snoc (y ∷ xs) x d h = (fresh, Distinct-snoc xs x d.1 (λ m. h (inr m)))
  where
    fresh : ¬ Elem y.endpoint (endpoints (xs ++ x ∷ []))
    fresh m = elim (Elem-snoc y.endpoint xs x m) [ inl k ↦ d.0 k | inr e ↦ h (inl (sym e)) ]

pub entry_of-append :
    (e : Endpoint) (xs ys : List VerifiedEndpoint)
    → entry_of e (xs ++ ys) ≡ elim (entry_of e xs) [ none ↦ entry_of e ys | some x ↦ some x ]
unfolding entry_of
entry_of-append e [] ys = refl
entry_of-append e (x ∷ xs) ys = ground (arith, entry_of-append e xs ys)

pub entry_of_contains :
    (xs : List VerifiedEndpoint) (e : Endpoint)
    → contains_endpoint xs e ≡ true
    → (x : VerifiedEndpoint) × (entry_of e xs ≡ some x)
unfolding contains_endpoint entry_of
entry_of_contains [] e h = cc
entry_of_contains (x ∷ xs) e h = elim (Bool-cases (same_endpoint x.endpoint e)) [
  | inl same ↦ (x, rw same)
  | inr other ↦
      let found : (y : VerifiedEndpoint) × (entry_of e xs ≡ some y) =
        entry_of_contains xs e (ground arith) in
      (found.0, rw other found.1)
]

-- With distinct entries, `invalidate` removes the endpoint, and nothing else.
pub invalidate-Elem :
    (e f : Endpoint) (xs : List VerifiedEndpoint)
    → Distinct xs
    → Elem f (endpoints (invalidate e xs)) ↔ (Elem f (endpoints xs) × (¬ (f ≡ e)))
unfolding invalidate
invalidate-Elem e f [] d = ((λ m. elim m [ ]), λ m. m.0)
invalidate-Elem e f (x ∷ xs) d = elim (Bool-cases (same_endpoint x.endpoint e)) [
  | inl same ↦ rw same (
    (λ m. (inr m, λ fe. d.0 (let k = (same_endpoint_iff x.endpoint e).0 same in rw (k, ← fe) m))),
    λ (m, ne). elim m [
      | inl fx ↦ absurd (ne (ground (arith, same_endpoint_iff x.endpoint e)))
      | inr k ↦ k
    ],
  )
  | inr other ↦ rw other (
    (λ m. elim m [
      | inl fx ↦ (inl fx, λ fe. ground (arith, same_endpoint_iff x.endpoint e))
      | inr k ↦ let r = (invalidate-Elem e f xs d.1).0 k in (inr r.0, r.1)
    ]),
    λ (m, ne). elim m [ inl fx ↦ inl fx | inr k ↦ inr ((invalidate-Elem e f xs d.1).1 (k, ne)) ],
  )
]

pub invalidate-Distinct :
    (e : Endpoint) (xs : List VerifiedEndpoint) → Distinct xs → Distinct (invalidate e xs)
unfolding invalidate
invalidate-Distinct e [] d = tt
invalidate-Distinct e (x ∷ xs) d = elim (Bool-cases (same_endpoint x.endpoint e)) [
  | inl same ↦ rw same d.1
  | inr other ↦
      rw other
        ((λ m. d.0 ((invalidate-Elem e x.endpoint xs d.1).0 m).0), invalidate-Distinct e xs d.1)
]

pub length-invalidate :
    (e : Endpoint) (xs : List VerifiedEndpoint)
    → length (invalidate e xs) + (if contains_endpoint xs e then 1 else 0) ≡ length xs
unfolding invalidate contains_endpoint
length-invalidate e [] = omega arith
length-invalidate e (x ∷ xs) = ground (arith, length-invalidate e xs)
