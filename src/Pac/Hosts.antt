-- ===== src/Pac/Hosts.antt =====
-- The hosts of the script of internal/pac/pac.go, and those that internal/model/model.go allows.
use bigducks_live.Base.{◌≡◌, ◌↔◌, refl, true, List, [], ◌∷◌, Elem, if◌then◌else◌}
use bigducks_live.Base.Sort.{
  text_le, text_le_total, text_le_trans, IsSorted, Elem-sort, sort-IsSorted,
}
use bigducks_live.Base.Text.{Text, trim_space, is_empty}
use bigducks_live.Base.Text.Affix.{to_lower-trim_suffix}
use bigducks_live.Model.Hosts.{
  normalize_host, add_key, member_iff, collect_hosts, new_host_allowlist, contains_host,
}
use bigducks_live.Pac.{normal_value, collect_values, normalize_list}

normal_value-eq : (value : Text) → normal_value value ≡ normalize_host value
unfolding normal_value normalize_host
normal_value-eq value = to_lower-trim_suffix (trim_space value)

collect_values-eq : (set values : List Text) → collect_values set values ≡ collect_hosts set values
unfolding collect_values collect_hosts
collect_values-eq set [] = refl
collect_values-eq set (value ∷ values) =
    let normal = normalize_host value in
    rw (normal_value-eq value)
      (collect_values-eq (if is_empty normal then set else add_key normal set) values)

-- The script lists exactly the hosts that the relay's allowlist of the same configuration holds:
-- the allowlist contains a host exactly if its normal form is in the list. The list is sorted.
pub normalize_list-allowlist :
    (hosts : List Text) (host : Text)
    → ((contains_host (new_host_allowlist hosts) host ≡ true)
        ↔ Elem (normalize_host host) (normalize_list hosts))
      × IsSorted text_le (normalize_list hosts)
unfolding normalize_list contains_host new_host_allowlist
normalize_list-allowlist hosts host =
    let set = collect_hosts [] hosts in
    let found = member_iff (normalize_host host) set in
    let kept = Elem-sort text_le (normalize_host host) set in
    rw (collect_values-eq [] hosts) (
      ((λ h. kept.1 (found.0 h)), λ m. found.1 (kept.0 m)),
      sort-IsSorted text_le text_le_total text_le_trans set,
    )
