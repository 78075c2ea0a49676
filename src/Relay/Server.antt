-- ===== src/Relay/Server.antt =====
-- internal/relay/socks5.go: which destinations the relay allows, and what it does with a client.
pub mod Allows
pub mod Handle
use bigducks_live.Base.{
  ℕ, Bool, true, false, not, ◌&&◌, ◌||◌, ltb, ◌==◌, List, [], ◌∷◌, ◌++◌, length, if◌then◌else◌,
  Option, none, some,
}
use bigducks_live.Base.Text.{
  Text, text_eq, codes, is_empty, to_lower, trim_space, trim_suffix, has_suffix,
}
use bigducks_live.Errors.{Result, ok, err}
use bigducks_live.Model.Hosts.{HostAllowlist, contains_host}
use bigducks_live.Wire.{Wire, write}
use bigducks_live.Relay.Handshake.{negotiate_no_auth, read_connect_request, write_reply}

pub record Server : Type 0 where
  pub allowlist : HostAllowlist
  pub allowed_suffixes : List Text
  pub allowed_ports : List (ℕ × Bool)

-- A read of map[int]bool.
unfoldable pub port_flag : ℕ → List (ℕ × Bool) → Bool
port_flag port [] = false
port_flag port ((p, flag) ∷ ports) = if p == port then flag else port_flag port ports

-- `strings.ToLower(strings.TrimSuffix(strings.TrimSpace(host), "."))`
unfoldable pub routed_name : Text → Text
routed_name host = to_lower (trim_suffix (trim_space host) (codes "."))

unfoldable pub suffix_allows : Text → List Text → Bool
suffix_allows host [] = false
suffix_allows host (s ∷ suffixes) =
    let suffix = routed_name s in
    (not (is_empty suffix) && (text_eq host suffix || has_suffix host (codes "." ++ suffix)))
    || suffix_allows host suffixes

unfoldable pub allows : Server → Text → ℕ → Bool
allows s host port =
    if ltb 0 (length s.allowed_ports) && not (port_flag port s.allowed_ports)
    then false
    else if contains_host s.allowlist host
    then true
    else suffix_allows (routed_name host) s.allowed_suffixes

-- What becomes of a client: its connection, the destination that was dialed, and the remote
-- connection with which bytes are exchanged from then on.
pub record Handled : Type 0 where
  pub wire : Wire
  pub dialed : Option (Text × ℕ)
  pub tunnel : Option ℕ

abbrev pub refuse : Wire → ℕ → Option (Text × ℕ) → Handled
refuse w code dialed = record { wire = write_reply w code; dialed = dialed; tunnel = none }

abbrev pub after_reply : Text → ℕ → ℕ → Result (Unit {0}) × Wire → Handled
after_reply host port remote (ok _, w) = record {
  wire = w;
  dialed = some (host, port);
  tunnel = some remote;
}
after_reply host port remote (err e, w) = record {
  wire = w;
  dialed = some (host, port);
  tunnel = none;
}

-- The remote connection of `err == nil && remote != nil`, or none.
abbrev pub after_dial : Wire → Text → ℕ → Option ℕ → Handled
after_dial w host port none = refuse w 5 (some (host, port))
after_dial w host port (some remote) =
    after_reply host port remote (write (5 ∷ 0 ∷ 0 ∷ 1 ∷ 0 ∷ 0 ∷ 0 ∷ 0 ∷ 0 ∷ 0 ∷ []) w)

abbrev pub after_request : Server → (Text → ℕ → Option ℕ) → Result (Text × ℕ) × Wire → Handled
after_request s dial (err e, w) = refuse w 8 none
after_request s dial (ok (host, port), w) =
    if allows s host port then after_dial w host port (dial host port) else refuse w 2 none

abbrev pub after_negotiation : Server → (Text → ℕ → Option ℕ) → Result (Unit {0}) × Wire → Handled
after_negotiation s dial (err e, w) = record { wire = w; dialed = none; tunnel = none }
after_negotiation s dial (ok _, w) = after_request s dial (read_connect_request w)

unfoldable pub handle : Server → (Text → ℕ → Option ℕ) → Wire → Handled
handle s dial w = after_negotiation s dial (negotiate_no_auth w)
