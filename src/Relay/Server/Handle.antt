-- ===== src/Relay/Server/Handle.antt =====
-- What internal/relay/socks5.go does with a client.
use bigducks_live.Base.{
  ℕ, suc, ◌≡◌, ◌≤◌, ◌<◌, ◌⊎◌, inl, inr, refl, true, List, [], ◌∷◌, ◌++◌, length, Option, none, some,
  Bool-cases,
}
use mathlib.Core.List.{append_assoc}
use bigducks_live.Base.Text.{Text}
use bigducks_live.Errors.{Result, ok, err}
use bigducks_live.Model.{Endpoint}
use bigducks_live.Wire.{Wire, write}
use bigducks_live.Proxy.Socks.{greeting, connect_request}
use bigducks_live.Relay.Handshake.{negotiate_no_auth, read_connect_request}
use bigducks_live.Relay.Handshake.Accept.{
  receiving, negotiate_no_auth-greeting, read_connect_request-connect_request,
}
use bigducks_live.Relay.Server.{
  Server, allows, Handled, after_reply, after_dial, after_request, after_negotiation, handle,
}

-- The client asked for the destination in a well-formed way, and the relay allows it.
pub record Asked (s : Server) (w : Wire) (host : Text) (port : ℕ) : Type 0 where
  pub negotiated : Wire
  pub requested : Wire
  pub negotiation : negotiate_no_auth w ≡ (ok tt, negotiated)
  pub request : read_connect_request negotiated ≡ (ok (host, port), requested)
  pub allowed : allows s host port ≡ true

-- Nothing was dialed; or a destination that was asked for and is allowed, and then there is no
-- tunnel, or one to the connection that the dial gave.
abbrev pub IsGuarded : Server → (Text → ℕ → Option ℕ) → Wire → Handled → Type 0
IsGuarded s dial w h =
    ((h.dialed ≡ none) × (h.tunnel ≡ none))
    ⊎ ((host : Text) × (port : ℕ) × Asked s w host port
        × (h.dialed ≡ some (host, port))
        × ((h.tunnel ≡ none)
            ⊎ ((remote : ℕ) × (h.tunnel ≡ some remote) × (dial host port ≡ some remote))))

module _ (s : Server) (dial : Text → ℕ → Option ℕ) (w : Wire) where
  dialed_IsGuarded :
      (w' : Wire) (host : Text) (port : ℕ)
      → Asked s w host port
      → (remote : Option ℕ) → dial host port ≡ remote
      → IsGuarded s dial w (after_dial w' host port remote)
  dialed_IsGuarded w' host port asked none d = inr (host, port, asked, refl, inl refl)
  dialed_IsGuarded w' host port asked (some remote) d =
      replied (write (5 ∷ 0 ∷ 0 ∷ 1 ∷ 0 ∷ 0 ∷ 0 ∷ 0 ∷ 0 ∷ 0 ∷ []) w')
    where
      replied : (r : Result (Unit {0}) × Wire) → IsGuarded s dial w (after_reply host port remote r)
      replied (ok u, w'') = inr (host, port, asked, refl, inr (remote, refl, d))
      replied (err e, w'') = inr (host, port, asked, refl, inl refl)

  request_IsGuarded :
      (w' : Wire) (r : Result (Text × ℕ) × Wire)
      → negotiate_no_auth w ≡ (ok tt, w')
      → read_connect_request w' ≡ r
      → IsGuarded s dial w (after_request s dial r)
  request_IsGuarded w' (err e, w'') n q = inl (refl, refl)
  request_IsGuarded w' (ok (host, port), w'') n q = elim (Bool-cases (allows s host port)) [
    | inr no_route ↦ rw no_route (inl (refl, refl))
    | inl allowed ↦ rw allowed (
        dialed_IsGuarded w'' host port
          (record {
            negotiated = w';
            requested = w'';
            negotiation = n;
            request = q;
            allowed = allowed;
          })
          (dial host port) refl)
  ]

  negotiation_IsGuarded :
      (r : Result (Unit {0}) × Wire)
      → negotiate_no_auth w ≡ r
      → IsGuarded s dial w (after_negotiation s dial r)
  negotiation_IsGuarded (err e, w') n = inl (refl, refl)
  negotiation_IsGuarded (ok tt, w') n = request_IsGuarded w' (read_connect_request w') n refl

  -- Whatever a client sends, the relay dials only a destination that the client asked for in a
  -- well-formed request and that `allows` accepts, and it joins the client to nothing but the
  -- connection which that dial gave.
  pub handle-IsGuarded : IsGuarded s dial w (handle s dial w)
  unfolding handle
  handle-IsGuarded = negotiation_IsGuarded (negotiate_no_auth w) refl

-- A connection with a number of writes left and what was written so far.
abbrev pub wrote : Wire → List ℕ → ℕ → Wire
wrote w bytes n = record w { outgoing = w.outgoing ++ bytes; writes = n }

write-suc :
    (bytes : List ℕ) (w : Wire) (n : ℕ)
    → w.writes ≡ suc n
    → write bytes w ≡ (ok tt, wrote w bytes n)
unfolding write
write-suc bytes w n e = rw (e, write)

abbrev pub success_reply : List ℕ
success_reply = 5 ∷ 0 ∷ 0 ∷ 1 ∷ 0 ∷ 0 ∷ 0 ∷ 0 ∷ 0 ∷ 0 ∷ []

-- A client that speaks as internal/proxy/socks5.go does, and asks for a destination that is
-- allowed and that can be dialed, gets its tunnel: the relay answers the greeting and the request,
-- and leaves the bytes behind the request, which the tunnel forwards.
pub handle_serves :
    (s : Server) (dial : Text → ℕ → Option ℕ) (e : Endpoint) (host : Text) (port remote : ℕ)
    (payload : List ℕ) (w : Wire) (n : ℕ)
    → 0 < length host
    → length host ≤ 255
    → 0 < port
    → port < 65536
    → allows s host port ≡ true
    → dial host port ≡ some remote
    → w.writes ≡ suc (suc n)
    → handle s dial (receiving w (greeting e ++ (connect_request host port ++ payload))) ≡ record {
      wire = wrote (receiving w payload) ((5 ∷ 0 ∷ []) ++ success_reply) n;
      dialed = some (host, port);
      tunnel = some remote;
    }
unfolding handle
handle_serves s dial e host port remote payload w n h1 h2 p1 p2 allowed d writes =
    rw (negotiate_no_auth-greeting e (connect_request host port ++ payload) w) (
      rw
        (write-suc (5 ∷ 0 ∷ []) (receiving w (connect_request host port ++ payload)) (suc n) writes)
        (rw
          (read_connect_request-connect_request host port payload
            (wrote (receiving w (connect_request host port ++ payload)) (5 ∷ 0 ∷ []) (suc n)) h1 h2
            p1 p2)
          (rw (allowed, d)
            (rw (write-suc success_reply (wrote (receiving w payload) (5 ∷ 0 ∷ []) (suc n)) n refl)
              (rw (append_assoc w.outgoing (5 ∷ 0 ∷ []) success_reply))))))
