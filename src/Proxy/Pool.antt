-- ===== src/Proxy/Pool.antt =====
-- internal/proxy/pool.go: the operations of Pool on its entries. The first entry is the active
-- proxy; the others are reserves.
pub mod Keys
pub mod Unique
pub mod Reserve
use bigducks_live.Base.{
  ℕ, zero, suc, ◌+◌, ◌≡◌, Bool, true, false, ◌&&◌, ◌||◌, leb, ltb, if◌then◌else◌, List, [], ◌∷◌,
  ◌++◌, map, Option, none, some, length,
}
use bigducks_live.Model.{Endpoint, VerifiedEndpoint, same_endpoint}

-- containsEndpoint of managed.go; also the inner loop of uniqueEntries.
unfoldable pub contains_endpoint : List VerifiedEndpoint → Endpoint → Bool
contains_endpoint [] e = false
contains_endpoint (x ∷ xs) e = same_endpoint x.endpoint e || contains_endpoint xs e

unfoldable pub invalidate : Endpoint → List VerifiedEndpoint → List VerifiedEndpoint
invalidate e [] = []
invalidate e (x ∷ xs) = if same_endpoint x.endpoint e then xs else x ∷ invalidate e xs

-- The loop of uniqueEntries over the entries that are left, with the result so far. `max` 0 stands
-- for every `max <= 0`, which sets no limit.
unfoldable pub unique_loop :
    ℕ → List VerifiedEndpoint → List VerifiedEndpoint → List VerifiedEndpoint
unique_loop max result [] = result
unique_loop max result (entry ∷ entries) = elim (contains_endpoint result entry.endpoint) [
  | true ↦ unique_loop max result entries
  | false ↦ elim (ltb 0 max && leb max (length (result ++ entry ∷ []))) [
    | true ↦ result ++ entry ∷ []
    | false ↦ unique_loop max (result ++ entry ∷ []) entries
  ]
]

unfoldable pub unique_entries : List VerifiedEndpoint → ℕ → List VerifiedEndpoint
unfolding unique_loop
unique_entries entries max = unique_loop max [] entries

-- Pool.Replace and Pool.Merge: what they store in Entries.
unfoldable pub replace : List VerifiedEndpoint → List VerifiedEndpoint → List VerifiedEndpoint
replace entries new = unique_entries new 0

unfoldable pub merge : List VerifiedEndpoint → List VerifiedEndpoint → ℕ → List VerifiedEndpoint
merge entries new max = unique_entries (entries ++ new) max

-- Pool.PromoteReserve: the active proxy goes to the end.
unfoldable pub promote_reserve : List VerifiedEndpoint → List VerifiedEndpoint × Bool
promote_reserve [] = ([], false)
promote_reserve (active ∷ []) = (active ∷ [], false)
promote_reserve (active ∷ next ∷ rest) = ((next ∷ rest) ++ active ∷ [], true)
