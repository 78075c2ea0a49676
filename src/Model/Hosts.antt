-- ===== src/Model/Hosts.antt =====
-- internal/model/model.go: normalizeHost and HostAllowlist. The set of hosts is a list without
-- repetitions; Go's order of iteration is not modelled.
use bigducks_live.Base.{
  ◌≡◌, ◌↔◌, Bool, true, false, ◌||◌, List, [], ◌∷◌, Elem, arith, if◌then◌else◌,
}
use bigducks_live.Base.Text.{
  Text, text_eq, text_eq_iff, to_lower, trim_space, trim_suffix, is_empty, codes,
}

unfoldable pub normalize_host : Text → Text
normalize_host host = trim_suffix (to_lower (trim_space host)) (codes ".")

-- The keys of a map[string]struct{}.
unfoldable pub member : Text → List Text → Bool
member k [] = false
member k (x ∷ xs) = text_eq x k || member k xs

unfoldable pub add_key : Text → List Text → List Text
unfolding member
add_key k set = if member k set then set else k ∷ set

pub record HostAllowlist : Type 0 where
  pub hosts : List Text

unfoldable pub collect_hosts : List Text → List Text → List Text
collect_hosts set [] = set
collect_hosts set (host ∷ hosts) =
    let normalized = normalize_host host in
    collect_hosts (if is_empty normalized then set else add_key normalized set) hosts

unfoldable pub new_host_allowlist : List Text → HostAllowlist
unfolding collect_hosts
new_host_allowlist hosts = record { hosts = collect_hosts [] hosts }

unfoldable pub contains_host : HostAllowlist → Text → Bool
contains_host a host = member (normalize_host host) a.hosts

pub member_iff : (k : Text) (xs : List Text) → (member k xs ≡ true) ↔ Elem k xs
unfolding member
member_iff k [] = ground arith
member_iff k (x ∷ xs) = ground (arith, text_eq_iff x k, member_iff k xs)
