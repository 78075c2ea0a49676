-- ===== src/Proxy/Pool/Unique.antt =====
-- uniqueEntries, Replace and Merge of internal/proxy/pool.go.
use bigducks_live.Base.{
  ℕ, suc, ◌≤◌, ◌<◌, ◌≡◌, refl, sym, ap, ◌∙◌, inl, inr, true, false, ◌&&◌, List, [], ◌∷◌, ◌++◌,
  length, take, length-append, length-take, take_all, take-append_left, take-append, ◌-◌, Elem,
  arith, Bool-cases, leb, ltb,
}
use mathlib.Core.List.{append_assoc, append-nil}
use bigducks_live.Model.{Endpoint, VerifiedEndpoint, same_endpoint, same_endpoint_iff}
use bigducks_live.Proxy.Pool.{contains_endpoint, unique_loop, unique_entries, merge}
use bigducks_live.Proxy.Pool.Keys.{
  endpoints, Distinct, Distinct-snoc, entry_of, entry_of-append, entry_of_contains,
  not-Elem_of_contains, contains_endpoint_iff,
}

abbrev Entries : Type 0
Entries = List VerifiedEndpoint

-- One round of the loop, by its three outcomes.
module _ (max : ℕ) (result : Entries) (x : VerifiedEndpoint) (xs : Entries) where
  unique_loop_old :
      contains_endpoint result x.endpoint ≡ true
      → unique_loop max result (x ∷ xs) ≡ unique_loop max result xs
  unfolding unique_loop
  unique_loop_old h = rw (h, unique_loop)

  unique_loop_full :
      contains_endpoint result x.endpoint ≡ false
      → (ltb 0 max && leb max (length (result ++ x ∷ []))) ≡ true
      → unique_loop max result (x ∷ xs) ≡ result ++ x ∷ []
  unfolding unique_loop
  unique_loop_full h k = ground arith

  unique_loop_room :
      contains_endpoint result x.endpoint ≡ false
      → (ltb 0 max && leb max (length (result ++ x ∷ []))) ≡ false
      → unique_loop max result (x ∷ xs) ≡ unique_loop max (result ++ x ∷ []) xs
  unfolding unique_loop
  unique_loop_room h k = ground arith

unique_loop-Distinct :
    (max : ℕ) (result entries : Entries)
    → Distinct result
    → Distinct (unique_loop max result entries)
unique_loop-Distinct max result [] d = unfold unique_loop in d
unique_loop-Distinct max result (x ∷ xs) d =
    elim (Bool-cases (contains_endpoint result x.endpoint)) [
      | inl old ↦ rw (unique_loop_old max result x xs old) (unique_loop-Distinct max result xs d)
      | inr new ↦
          let d' = Distinct-snoc result x d (not-Elem_of_contains result x.endpoint new) in
          elim (Bool-cases (ltb 0 max && leb max (length (result ++ x ∷ [])))) [
            | inl full ↦ rw (unique_loop_full max result x xs new full) d'
            | inr room ↦
                rw (unique_loop_room max result x xs new room)
                  (unique_loop-Distinct max (result ++ x ∷ []) xs d')
          ]
    ]

-- No endpoint stands twice in what uniqueEntries returns.
pub unique_entries-Distinct : (entries : Entries) (max : ℕ) → Distinct (unique_entries entries max)
unfolding unique_entries
unique_entries-Distinct entries max = unique_loop-Distinct max [] entries tt

keep_first :
    (e : Endpoint) (result : Entries) (x : VerifiedEndpoint) (xs : Entries)
    → contains_endpoint result x.endpoint ≡ true
    → entry_of e (result ++ xs) ≡ entry_of e (result ++ x ∷ xs)
keep_first e result x xs old = elim (Bool-cases (same_endpoint x.endpoint e)) [
  | inl same ↦
      let found =
        entry_of_contains result e
          (let k = (same_endpoint_iff x.endpoint e).0 same in rw (← k) old) in
      ground (arith, entry_of-append e result xs, entry_of-append e result (x ∷ xs), found.1)
  | inr other ↦
      unfold entry_of in
      ground (arith, entry_of-append e result xs, entry_of-append e result (x ∷ xs))
]

entry_of-unique_loop :
    (e : Endpoint) (result entries : Entries)
    → entry_of e (unique_loop 0 result entries) ≡ entry_of e (result ++ entries)
entry_of-unique_loop e result [] = unfold unique_loop in rw append-nil
entry_of-unique_loop e result (x ∷ xs) = elim (Bool-cases (contains_endpoint result x.endpoint)) [
  | inl old ↦
      rw (unique_loop_old 0 result x xs old)
        (entry_of-unique_loop e result xs ∙ keep_first e result x xs old)
  | inr new ↦ rw (unique_loop_room 0 result x xs new refl) (
      entry_of-unique_loop e (result ++ x ∷ []) xs
      ∙ ap (entry_of e) (append_assoc result (x ∷ []) xs))
]

-- With no limit, each endpoint keeps its first entry, and none is lost.
pub entry_of-unique_entries :
    (e : Endpoint) (entries : Entries) → entry_of e (unique_entries entries 0) ≡ entry_of e entries
unfolding unique_entries
entry_of-unique_entries e entries = entry_of-unique_loop e [] entries

-- The entries whose endpoint is not among those before them, in their order.
unfoldable pub fresh : Entries → Entries → Entries
fresh seen [] = []
fresh seen (x ∷ xs) = elim (contains_endpoint seen x.endpoint) [
  | true ↦ fresh seen xs
  | false ↦ x ∷ fresh (seen ++ x ∷ []) xs
]

unique_loop_extends :
    (result entries : Entries) → unique_loop 0 result entries ≡ result ++ fresh result entries
unfolding fresh unique_loop
unique_loop_extends result [] = sym (append-nil result)
unique_loop_extends result (x ∷ xs) = elim (Bool-cases (contains_endpoint result x.endpoint)) [
  | inl old ↦ unique_loop_old 0 result x xs old ∙ rw (old, fresh) (unique_loop_extends result xs)
  | inr new ↦
      unique_loop_room 0 result x xs new refl
      ∙ rw (new, fresh)
          (unique_loop_extends (result ++ x ∷ []) xs
            ∙ append_assoc result (x ∷ []) (fresh (result ++ x ∷ []) xs))
]

take-unique_loop :
    (m : ℕ) (result entries : Entries)
    → length result < suc m
    → unique_loop (suc m) result entries ≡ take (suc m) (unique_loop 0 result entries)
take-unique_loop m result [] h = unfold unique_loop in sym (take_all (suc m) result (omega arith))
take-unique_loop m result (x ∷ xs) h = elim (Bool-cases (contains_endpoint result x.endpoint)) [
  | inl old ↦
      rw (unique_loop_old (suc m) result x xs old, unique_loop_old 0 result x xs old)
        (take-unique_loop m result xs h)
  | inr new ↦ elim (Bool-cases (ltb 0 (suc m) && leb (suc m) (length (result ++ x ∷ [])))) [
    | inl full ↦
        let r = unique_loop_extends (result ++ x ∷ []) xs in
        let more = fresh (result ++ x ∷ []) xs in
        let n : suc m ≡ length (result ++ x ∷ []) = ground (arith, length-append result (x ∷ [])) in
        unique_loop_full (suc m) result x xs new full
        ∙ sym (take-append_left (result ++ x ∷ []) more)
        ∙ ap (λ k. take k ((result ++ x ∷ []) ++ more)) (sym n)
        ∙ ap (take (suc m)) (sym (unique_loop_room 0 result x xs new refl ∙ r))
    | inr room ↦
        rw (unique_loop_room (suc m) result x xs new room, unique_loop_room 0 result x xs new refl)
          (take-unique_loop m (result ++ x ∷ []) xs (ground (arith, length-append result (x ∷ []))))
  ]
]

-- A limit cuts what uniqueEntries returns without one.
pub unique_entries-take :
    (m : ℕ) (entries : Entries)
    → unique_entries entries (suc m) ≡ take (suc m) (unique_entries entries 0)
unfolding unique_entries
unique_entries-take m entries = take-unique_loop m [] entries (omega arith)

Distinct-append_fresh :
    (result : Entries) (x : VerifiedEndpoint) (xs : Entries)
    → Distinct (result ++ x ∷ xs)
    → ¬ Elem x.endpoint (endpoints result)
Distinct-append_fresh [] x xs d m = m
Distinct-append_fresh (y ∷ ys) x xs d (inr m) = Distinct-append_fresh ys x xs d.1 m
Distinct-append_fresh (y ∷ ys) x xs d (inl e) = d.0 (rw (← e) (middle ys))
  where
    middle : (ys : Entries) → Elem x.endpoint (endpoints (ys ++ x ∷ xs))
    middle [] = inl refl
    middle (y ∷ ys) = inr (middle ys)

unique_loop-append :
    (result xs ys : Entries)
    → Distinct (result ++ xs)
    → unique_loop 0 result (xs ++ ys) ≡ unique_loop 0 (result ++ xs) ys
unique_loop-append result [] ys d = rw append-nil
unique_loop-append result (x ∷ xs) ys d = elim (Bool-cases (contains_endpoint result x.endpoint)) [
  | inl old ↦
      absurd (Distinct-append_fresh result x xs d ((contains_endpoint_iff result x.endpoint).0 old))
  | inr new ↦
      unique_loop_room 0 result x (xs ++ ys) new refl
      ∙ unique_loop-append (result ++ x ∷ []) xs ys (rw append_assoc d)
      ∙ ap (λ r. unique_loop 0 r ys) (append_assoc result (x ∷ []) xs)
]

-- Merge of new entries into a pool without duplicates that fits its limit, which is not 0: it is
-- what was there, followed by the new entries whose endpoint is not yet there, each endpoint once
-- and in order, as many as there is room for. No endpoint stands twice, and the limit is kept.
pub merge_keeps :
    (entries new : Entries) (m : ℕ)
    → Distinct entries
    → length entries ≤ suc m
    → (merge entries new (suc m) ≡ entries ++ take (suc m - length entries) (fresh entries new))
      × (length (merge entries new (suc m)) ≤ suc m)
      × Distinct (merge entries new (suc m))
unfolding merge
merge_keeps entries new m d fits = (
  all ∙ take-append entries (fresh entries new) (suc m) fits,
  rw all (omega (arith, length-take (suc m) (entries ++ fresh entries new))),
  unique_entries-Distinct (entries ++ new) (suc m),
)
  where
    all : unique_entries (entries ++ new) (suc m) ≡ take (suc m) (entries ++ fresh entries new)
    all =
        unique_entries-take m (entries ++ new)
        ∙ ap (take (suc m)) (
            unfold unique_entries in
            unique_loop-append [] entries new d ∙ unique_loop_extends entries new)
