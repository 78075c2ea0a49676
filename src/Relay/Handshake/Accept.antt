-- ===== src/Relay/Handshake/Accept.antt =====
-- The relay's handshake of internal/relay/socks5.go on what the client of internal/proxy/socks5.go
-- sends.
use bigducks_live.Base.{
  ℕ, ◌+◌, ◌*◌, ◌/◌, ◌%◌, ◌≤◌, ◌<◌, ◌≡◌, refl, true, false, not, leb, ◌==◌, List, [], ◌∷◌, ◌++◌,
  length, arith, Bool-cases, inl, inr,
}
use mathlib.Core.List.{append_assoc}
use bigducks_live.Base.Text.{Text, is_empty}
use bigducks_live.Errors.{ok}
use bigducks_live.Model.{Endpoint}
use bigducks_live.Wire.{Wire, write, read_full_exact}
use bigducks_live.Proxy.Socks.{greeting, connect_request}
use bigducks_live.Relay.Handshake.{offers_no_auth, negotiate_no_auth, read_connect_request}

-- A connection from which the bytes can be read first.
abbrev pub receiving : Wire → List ℕ → Wire
receiving w bytes = record w { incoming = bytes }

greeting_plain : (e : Endpoint) → is_empty e.user ≡ true → greeting e ≡ 5 ∷ 1 ∷ 0 ∷ []
unfolding greeting
greeting_plain e h = rw h

greeting_user : (e : Endpoint) → is_empty e.user ≡ false → greeting e ≡ 5 ∷ 2 ∷ 0 ∷ 2 ∷ []
unfolding greeting
greeting_user e h = rw h

-- Among the methods that are offered there is the one without authentication: the relay takes it,
-- and reads no byte more.
pub negotiate_no_auth-accepts :
    (methods rest : List ℕ) (w : Wire)
    → offers_no_auth methods ≡ true
    → negotiate_no_auth (receiving w (5 ∷ length methods ∷ (methods ++ rest)))
      ≡ write (5 ∷ 0 ∷ []) (receiving w rest)
unfolding negotiate_no_auth
negotiate_no_auth-accepts methods rest w h =
    rw (read_full_exact 2 (5 ∷ length methods ∷ []) (methods ++ rest) w refl)
      (rw (read_full_exact (length methods) methods rest w refl, h))

-- Whatever credentials the client has, the relay accepts its greeting.
pub negotiate_no_auth-greeting :
    (e : Endpoint) (rest : List ℕ) (w : Wire)
    → negotiate_no_auth (receiving w (greeting e ++ rest)) ≡ write (5 ∷ 0 ∷ []) (receiving w rest)
negotiate_no_auth-greeting e rest w = elim (Bool-cases (is_empty e.user)) [
  | inl no_user ↦
      rw (greeting_plain e no_user)
        (negotiate_no_auth-accepts (0 ∷ []) rest w (unfold offers_no_auth in refl))
  | inr user ↦
      rw (greeting_user e user)
        (negotiate_no_auth-accepts (0 ∷ 2 ∷ []) rest w (unfold offers_no_auth in refl))
]

-- The relay reads back the request that the client writes: the host as it is and the port, if the
-- host has 1 to 255 bytes and the port is 1 to 65535. It reads no byte more.
pub read_connect_request-connect_request :
    (host : Text) (port : ℕ) (rest : List ℕ) (w : Wire)
    → 0 < length host
    → length host ≤ 255
    → 0 < port
    → port < 65536
    → read_connect_request (receiving w (connect_request host port ++ rest))
      ≡ (ok (host, port), receiving w rest)
unfolding read_connect_request connect_request
read_connect_request-connect_request host port rest w h1 h2 p1 p2 =
    rw (read_full_exact 4 (5 ∷ 1 ∷ 0 ∷ 3 ∷ []) (size ∷ ((host ++ tail) ++ rest)) w refl) (
      rw (read_full_exact 1 (size ∷ []) ((host ++ tail) ++ rest) w refl, size_eq, nonempty)
        (rw (append_assoc host tail rest, read_full_exact (length host) host (tail ++ rest) w refl)
          (rw (read_full_exact 2 tail rest w refl, port_eq, positive))))
  where
    size : ℕ
    size = length host % 256

    tail : List ℕ
    tail = ((port / 256) % 256) ∷ (port % 256) ∷ []

    size_eq : size ≡ length host
    size_eq = omega arith

    nonempty : not (length host == 0) ≡ true
    nonempty = ground arith

    port_eq : ((port / 256) % 256) * 256 + port % 256 ≡ port
    port_eq = omega arith

    positive : leb 1 port ≡ true
    positive = ground arith
