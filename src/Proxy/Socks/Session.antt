-- ===== src/Proxy/Socks/Session.antt =====
-- The client's handshake of internal/proxy/socks5.go against a server that follows the protocol.
use bigducks_live.Base.{
  ℕ, suc, ◌+◌, ◌≡◌, ◌≤◌, ◌<◌, refl, true, false, ◌&&◌, ltb, leb, ◌==◌, List, [], ◌∷◌, ◌++◌, length,
  length-append, arith,
}
use mathlib.Core.List.{append_assoc}
use bigducks_live.Base.Text.{Text, is_empty}
use bigducks_live.Errors.{failure, ok, err}
use bigducks_live.Model.{Endpoint}
use bigducks_live.Wire.{Wire, write, read_full_exact}
use bigducks_live.Proxy.Socks.{
  greeting, auth_request, connect_request, send_credentials, authenticate, address_length,
  read_connect_reply, send_connect, client_handshake,
}

-- The same connection with other bytes to come.
abbrev pub receiving : Wire → List ℕ → Wire
receiving w bytes = record w { incoming = bytes }

abbrev pub wrote : Wire → List ℕ → ℕ → Wire
wrote w bytes n = record w { outgoing = w.outgoing ++ bytes; writes = n }

write-suc :
    (bytes : List ℕ) (w : Wire) (n : ℕ)
    → w.writes ≡ suc n
    → write bytes w ≡ (ok tt, wrote w bytes n)
unfolding write
write-suc bytes w n e = rw (e, write)

-- A bound address as the reply carries it: its type, and behind it the address.
pub data Bound : Type 0 where
  ipv4 : (a b c d : ℕ) → Bound
  domain : List ℕ → Bound

abbrev pub bound_bytes : Bound → List ℕ
bound_bytes (ipv4 a b c d) = 1 ∷ a ∷ b ∷ c ∷ d ∷ []
bound_bytes (domain name) = 3 ∷ length name ∷ name

-- A reply of success with any IPv4 or domain name as the bound address is accepted, and exactly
-- its bytes are read.
pub read_connect_reply-success :
    (reserved p q : ℕ) (bound : Bound) (rest : List ℕ) (w : Wire)
    → read_connect_reply (receiving w (5 ∷ 0 ∷ reserved ∷ (bound_bytes bound ++ p ∷ q ∷ rest)))
      ≡ (ok tt, receiving w rest)
unfolding read_connect_reply address_length
read_connect_reply-success reserved p q (ipv4 a b c d) rest w =
    rw (read_full_exact 4 (5 ∷ 0 ∷ reserved ∷ 1 ∷ []) (a ∷ b ∷ c ∷ d ∷ p ∷ q ∷ rest) w refl)
      (rw (read_full_exact 6 (a ∷ b ∷ c ∷ d ∷ p ∷ q ∷ []) rest w refl))
read_connect_reply-success reserved p q (domain name) rest w =
    rw (read_full_exact 4 (5 ∷ 0 ∷ reserved ∷ 3 ∷ []) (length name ∷ (name ++ p ∷ q ∷ rest)) w refl)
      (rw (read_full_exact 1 (length name ∷ []) (name ++ p ∷ q ∷ rest) w refl) (
        rw (← append_assoc name (p ∷ q ∷ []) rest) (
          rw (
            read_full_exact (length name + 2) (name ++ p ∷ q ∷ []) rest w
              (omega (arith, length-append name (p ∷ q ∷ [])))))))

-- A reply with another code than 0 is refused.
pub read_connect_reply-failure :
    (code a b : ℕ) (rest : List ℕ) (w : Wire)
    → 0 < code
    → read_connect_reply (receiving w (5 ∷ code ∷ a ∷ b ∷ rest))
      ≡ (err (failure "SOCKS5 CONNECT failed"), receiving w rest)
unfolding read_connect_reply
read_connect_reply-failure code a b rest w h =
    rw (read_full_exact 4 (5 ∷ code ∷ a ∷ b ∷ []) rest w refl, nonzero)
  where
    nonzero : (code == 0) ≡ false
    nonzero = ground arith

module _ (e : Endpoint) (host : Text) (port reserved p q : ℕ) (bound : Bound) (rest : List ℕ)
    (w : Wire) where
  abbrev reply : List ℕ
  reply = 5 ∷ 0 ∷ reserved ∷ (bound_bytes bound ++ p ∷ q ∷ rest)

  module _ (h1 : 0 < length host) (h2 : length host ≤ 255) where
    host_fits : (ltb 0 (length host) && leb (length host) 255) ≡ true
    host_fits = ground arith

    send_connect_lem :
        (v : Wire) (n : ℕ)
        → v.writes ≡ suc n
        → send_connect host port v ≡ (ok tt, wrote v (connect_request host port) n)
    unfolding send_connect
    send_connect_lem v n writes = rw (host_fits, write-suc (connect_request host port) v n writes)

    -- A server that asks for no authentication and reports success opens the connection, whatever
    -- credentials the client has: the client sends its greeting and the request, and reads the two
    -- answers, no byte more.
    pub client_handshake-plain :
        (n : ℕ)
        → w.writes ≡ suc (suc n)
        → client_handshake e host port (receiving w (5 ∷ 0 ∷ reply))
          ≡ (ok tt, wrote (receiving w rest) (greeting e ++ connect_request host port) n)
    unfolding client_handshake authenticate
    client_handshake-plain n writes =
        rw (write-suc (greeting e) (receiving w (5 ∷ 0 ∷ reply)) (suc n) writes) (
          rw (read_full_exact 2 (5 ∷ 0 ∷ []) reply (wrote w (greeting e) (suc n)) refl) (
            rw (send_connect_lem (receiving (wrote w (greeting e) (suc n)) reply) n refl) (
              rw (
                read_connect_reply-success reserved p q bound rest
                    (wrote (wrote w (greeting e) (suc n)) (connect_request host port) n),
                append_assoc w.outgoing (greeting e) (connect_request host port),
              ))))

    -- A server that asks for the user name and password, and takes those of an endpoint that has a
    -- user, both of at most 255 bytes, gets them between the greeting and the request.
    pub client_handshake-credentials :
        (n k : ℕ)
        → w.writes ≡ suc (suc (suc n))
        → is_empty e.user ≡ false
        → length e.user ≤ 255
        → length e.pass ≤ 255
        → client_handshake e host port (receiving w (5 ∷ 2 ∷ k ∷ 0 ∷ reply)) ≡ (
          ok tt,
          wrote (receiving w rest) (greeting e ++ (auth_request e ++ connect_request host port)) n,
        )
    unfolding client_handshake authenticate send_credentials
    client_handshake-credentials n k writes user u1 u2 =
        rw (write-suc (greeting e) (receiving w (5 ∷ 2 ∷ k ∷ 0 ∷ reply)) (suc (suc n)) writes) (
          rw
            (read_full_exact 2 (5 ∷ 2 ∷ []) (k ∷ 0 ∷ reply) (wrote w (greeting e) (suc (suc n)))
              refl)
            (rw
              (
                user,
                fits,
                write-suc (auth_request e)
                    (receiving (wrote w (greeting e) (suc (suc n))) (k ∷ 0 ∷ reply)) (suc n) refl,
              )
              (rw
                (read_full_exact 2 (k ∷ 0 ∷ []) reply
                  (wrote (wrote w (greeting e) (suc (suc n))) (auth_request e) (suc n)) refl)
                (rw
                  (send_connect_lem
                    (receiving (wrote (wrote w (greeting e) (suc (suc n))) (auth_request e) (suc n))
                      reply)
                    n refl)
                  (rw
                    (read_connect_reply-success reserved p q bound rest (
                      wrote (wrote (wrote w (greeting e) (suc (suc n))) (auth_request e) (suc n))
                        (connect_request host port) n))
                    (rw (
                      append_assoc (w.outgoing ++ greeting e) (auth_request e)
                          (connect_request host port),
                      append_assoc w.outgoing (greeting e)
                          (auth_request e ++ connect_request host port),
                    )))))))
      where
        fits : (leb (length e.user) 255 && leb (length e.pass) 255) ≡ true
        fits = ground arith
