-- ===== src/Tests/Tunnels.antt =====
-- Inputs for internal/relay, and for the SOCKS5 client of internal/proxy that speaks to it.
use bigducks_live.Base.{
  ℕ, ◌≡◌, ◌↔◌, ◌⊎◌, refl, true, false, [], ◌∷◌, ◌++◌, Option, some, length, Elem, arith,
}
use bigducks_live.Base.Text.{
  Text, codes, text_eq, to_lower, trim_space, strip_prefix, trim_suffix, has_suffix,
}
use bigducks_live.Errors.{failure}
use bigducks_live.Model.{Endpoint, same_endpoint}
use bigducks_live.Model.Hosts.{normalize_host, contains_host, member}
use bigducks_live.Wire.{Wire}
use bigducks_live.Proxy.Socks.{greeting, connect_request}
use bigducks_live.Relay.Handshake.Accept.{receiving}
use bigducks_live.Relay.Server.{Server, port_flag, suffix_allows, routed_name, allows, handle}
use bigducks_live.Relay.Server.Allows.{Below, allows_iff}
use bigducks_live.Relay.Server.Handle.{
  IsGuarded, handle-IsGuarded, wrote, success_reply, handle_serves,
}
use bigducks_live.Relay.Tracker.{Tracked, Tracker, new_tracker, track, close_endpoint}
use bigducks_live.Relay.Tracker.Invariant.{IsValid, new_tracker-IsValid, track-IsValid}
use bigducks_live.Relay.Tracker.Close.{ClosesMatching, close_endpoint-ClosesMatching}

abbrev relay : Server
relay = record {
  allowlist = record { hosts = codes "gateway.discord.gg" ∷ [] };
  allowed_suffixes = codes "discord.gg" ∷ [];
  allowed_ports = (443, true) ∷ [];
}

regional_allowed : allows relay (codes "Gateway-us-east1-b.discord.gg.") 443 ≡ true
unfolding allows port_flag contains_host member normalize_host routed_name suffix_allows text_eq
    to_lower trim_space trim_suffix has_suffix
regional_allowed = refl

lookalike_refused : allows relay (codes "discord.gg.example.com") 443 ≡ false
unfolding allows port_flag contains_host member normalize_host routed_name suffix_allows text_eq
    to_lower trim_space trim_suffix has_suffix
lookalike_refused = refl

glued_refused : allows relay (codes "notdiscord.gg") 443 ≡ false
unfolding allows port_flag contains_host member normalize_host routed_name suffix_allows text_eq
    to_lower trim_space trim_suffix has_suffix
glued_refused = refl

allows_iff_example : (allows relay (codes "eu.discord.gg") 443 ≡ true) ↔ (
    ((length relay.allowed_ports ≡ 0) ⊎ (port_flag 443 relay.allowed_ports ≡ true))
    × (Elem (normalize_host (codes "eu.discord.gg")) relay.allowlist.hosts
        ⊎ Below (normalize_host (codes "eu.discord.gg")) relay.allowed_suffixes))
allows_iff_example = allows_iff relay (codes "eu.discord.gg") 443

abbrev peer : Endpoint
peer = record {
  scheme = codes "socks5";
  host = codes "127.0.0.1";
  port = 55367;
  user = codes "ana";
  pass = codes "pw";
}

abbrev blank : Wire
blank = record {
  incoming = [];
  outgoing = [];
  writes = 3;
  read_error = failure "EOF";
  write_error = failure "closed";
}

abbrev gateway : Text
gateway = codes "gateway.discord.gg"

abbrev answers : Text → ℕ → Option ℕ
answers host port = some 7

handle-IsGuarded_example :
    IsGuarded relay answers
      (receiving blank (5 ∷ 1 ∷ 2 ∷ []))
      (handle relay answers (receiving blank (5 ∷ 1 ∷ 2 ∷ [])))
handle-IsGuarded_example = handle-IsGuarded relay answers (receiving blank (5 ∷ 1 ∷ 2 ∷ []))

gateway_allowed : allows relay gateway 443 ≡ true
unfolding allows port_flag contains_host member normalize_host text_eq to_lower trim_space
    trim_suffix strip_prefix
gateway_allowed = refl

handle_serves_example :
    handle relay answers
      (receiving blank (greeting peer ++ (connect_request gateway 443 ++ 22 ∷ 3 ∷ [])))
    ≡ record {
      wire = wrote (receiving blank (22 ∷ 3 ∷ [])) ((5 ∷ 0 ∷ []) ++ success_reply) 1;
      dialed = some (gateway, 443);
      tunnel = some 7;
    }
handle_serves_example =
    handle_serves relay answers peer gateway 443 7 (22 ∷ 3 ∷ []) blank 1 (omega arith) (omega arith)
      (omega arith) (omega arith) gateway_allowed refl refl

-- Two tunnels, of one endpoint each.
abbrev other : Endpoint
other = record peer { port = 1080 }

abbrev one : Tracker
one = (track new_tracker peer 100).0

abbrev two : Tracker
two = (track one other 101).0

one-IsValid : IsValid one
one-IsValid = (track-IsValid new_tracker peer 100 new_tracker-IsValid (omega arith)).0

two-IsValid : IsValid two
unfolding track
two-IsValid = (track-IsValid one other 101 one-IsValid (omega arith)).0

abbrev second : Tracked
second = record { id = 2; endpoint = other; conn = 101 }

close_endpoint-ClosesMatching_example :
    ClosesMatching (λ c. same_endpoint c.endpoint other) two (close_endpoint two other)
close_endpoint-ClosesMatching_example = close_endpoint-ClosesMatching two other two-IsValid
