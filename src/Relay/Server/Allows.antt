-- ===== src/Relay/Server/Allows.antt =====
-- Which destinations internal/relay/socks5.go allows.
use bigducks_live.Base.{
  ℕ, ◌≡◌, ◌≢◌, ◌↔◌, ◌⊎◌, refl, Bool, true, not, ◌&&◌, ◌||◌, ltb, List, [], ◌∷◌, ◌++◌, length, Elem,
  arith, ||_decides, &&_decides,
}
use bigducks_live.Base.Text.{Text, text_eq, text_eq_iff, codes, is_empty, trim_space, has_suffix}
use bigducks_live.Base.Text.Affix.{has_suffix_iff, to_lower-trim_suffix}
use bigducks_live.Model.Hosts.{contains_host, member_iff, normalize_host}
use bigducks_live.Relay.Server.{Server, port_flag, routed_name, suffix_allows, allows}

-- The relay's own way to normalize a host agrees with normalizeHost of internal/model/model.go,
-- though the two lower the case and drop the last dot in another order.
pub routed_name-eq-normalize_host : (host : Text) → routed_name host ≡ normalize_host host
unfolding routed_name normalize_host
routed_name-eq-normalize_host host = to_lower-trim_suffix (trim_space host)

-- The name is a suffix of the list, or lies below one: a dot stands before the suffix.
abbrev pub Below : Text → List Text → Type 0
Below name [] = ⊥
Below name (s ∷ suffixes) =
    ((normalize_host s ≢ [])
      × ((name ≡ normalize_host s)
          ⊎ ((label : Text) × (name ≡ label ++ (codes "." ++ normalize_host s)))))
    ⊎ Below name suffixes

not-is_empty : (s : Text) → (not (is_empty s) ≡ true) ↔ (s ≢ [])
not-is_empty [] = ((λ h. cc), λ h. absurd (h refl))
not-is_empty (c ∷ s) = ((λ h e. cc), λ h. refl)

suffix_allows_iff :
    (host : Text) (suffixes : List Text)
    → (suffix_allows host suffixes ≡ true) ↔ Below host suffixes
unfolding suffix_allows
suffix_allows_iff host [] = ((λ h. cc), λ h. absurd h)
suffix_allows_iff host (s ∷ suffixes) =
    let e = routed_name-eq-normalize_host s in
    let n = normalize_host s in
    let rest = suffix_allows_iff host suffixes in
    rw e (both n (not-is_empty n) (text_eq_iff host n) (has_suffix_iff host (codes "." ++ n)) rest)
  where
    both :
        (n : Text)
        → (not (is_empty n) ≡ true) ↔ (n ≢ [])
        → (text_eq host n ≡ true) ↔ (host ≡ n)
        → (has_suffix host (codes "." ++ n) ≡ true)
          ↔ ((label : Text) × (host ≡ label ++ (codes "." ++ n)))
        → (suffix_allows host suffixes ≡ true) ↔ Below host suffixes
        → (((not (is_empty n) && (text_eq host n || has_suffix host (codes "." ++ n)))
              || suffix_allows host suffixes)
            ≡ true)
          ↔ (((n ≢ []) × ((host ≡ n) ⊎ ((label : Text) × (host ≡ label ++ (codes "." ++ n)))))
              ⊎ Below host suffixes)
    both n p q r t = ||_decides _ _ (&&_decides _ _ p (||_decides _ _ q r)) t

port_open :
    (ports : List (ℕ × Bool)) (flag : Bool)
    → (not (ltb 0 (length ports) && not flag) ≡ true) ↔ ((length ports ≡ 0) ⊎ (flag ≡ true))
port_open ports flag = ground arith

allows_tests :
    (s : Server) (host : Text) (port : ℕ)
    → allows s host port ≡ (
        not (ltb 0 (length s.allowed_ports) && not (port_flag port s.allowed_ports))
        && (contains_host s.allowlist host || suffix_allows (routed_name host) s.allowed_suffixes))
unfolding allows
allows_tests s host port = ground arith

-- The relay allows a destination exactly if the port is one of the map's (or the map is empty),
-- and the normalized name is in the allowlist, or is one of the suffixes, or ends in a dot and one
-- of them. A name that merely ends in the letters of a suffix, or goes on after it, is refused.
pub allows_iff :
    (s : Server) (host : Text) (port : ℕ)
    → (allows s host port ≡ true) ↔ (
        ((length s.allowed_ports ≡ 0) ⊎ (port_flag port s.allowed_ports ≡ true))
        × (Elem (normalize_host host) s.allowlist.hosts
            ⊎ Below (normalize_host host) s.allowed_suffixes))
unfolding contains_host
allows_iff s host port =
    rw (allows_tests s host port, routed_name-eq-normalize_host host)
      (&&_decides _ _ (port_open s.allowed_ports (port_flag port s.allowed_ports)) (
        ||_decides _ _ (member_iff (normalize_host host) s.allowlist.hosts)
          (suffix_allows_iff (normalize_host host) s.allowed_suffixes)))
