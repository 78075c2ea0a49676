-- ===== src/Tests/Proxies.antt =====
-- Inputs for internal/proxy.
use bigducks_live.Base.{
  ℕ, ◌+◌, ◌≤◌, ◌<◌, ◌≡◌, ◌↔◌, refl, true, false, not, ◌&&◌, List, [], ◌∷◌, ◌++◌, none, some, length,
  take, ◌-◌, All, Elem, arith, if◌then◌else◌,
}
use bigducks_live.Base.Text.{Text, codes, text_eq}
use bigducks_live.Errors.{canceled, ok}
use bigducks_live.Model.{Endpoint, VerifiedEndpoint, same_endpoint}
use bigducks_live.Model.Url.{url}
use bigducks_live.Proxy.Pool.{invalidate, merge}
use bigducks_live.Proxy.Pool.Keys.{endpoints, Distinct}
use bigducks_live.Proxy.Pool.Unique.{merge_keeps, fresh}
use bigducks_live.Proxy.Dial.{Attempt, World, accepted, close_conn, dial_loop, dial_with_endpoint}
use bigducks_live.Proxy.Dial.Quiet.{IsQuiet, DialSpec, dial_with_endpoint-DialSpec}
use bigducks_live.Proxy.Dial.Safety.{LoopState, Rounds, Served, dial_with_endpoint-Served}
use bigducks_live.Proxy.Managed.{ManagedPool}
use bigducks_live.Proxy.Managed.Refresh.{refresh_finish}
use bigducks_live.Proxy.Managed.Refresh.Laws.{IsSound, Refreshed, refresh_finish-IsSound}
use bigducks_live.Proxy.Managed.Heartbeat.{ProbeResult, key_of, miss_count, handle_results}
use bigducks_live.Proxy.Managed.Heartbeat.Evict.{
  DistinctKeys, StruckOut, strikes_out, handle_results-Elem, handle_results_misses,
}
use bigducks_live.Proxy.Managed.Connect.{ConnectWorld, managed_dial}
use bigducks_live.Proxy.Managed.Connect.Errors.{Outcome, managed_dial-Outcome}

abbrev proxy_at : ℕ → Endpoint
proxy_at port = record {
  scheme = codes "socks5";
  host = codes "10.0.0.1";
  port = port;
  user = [];
  pass = [];
}

abbrev entry_at : ℕ → VerifiedEndpoint
entry_at port = record {
  endpoint = proxy_at port;
  latency_ms = port;
  country = codes "DE";
  checked_at = 0;
}

abbrev three : List VerifiedEndpoint
three = entry_at 1 ∷ entry_at 2 ∷ entry_at 3 ∷ []

three-Distinct : Distinct three
three-Distinct = ground arith

-- The dialer refuses the proxy at port 1, with a connection that it must give back.
abbrev fussy : ℕ → Endpoint → Text → ℕ → Attempt
fussy k e host port =
    if text_eq (url e) (url (proxy_at 1))
    then record { conn = some 90; error = some canceled }
    else record { conn = some (e.port + 100); error = none }

abbrev calm : World
calm = record {
  ctx_err = λ k. none;
  dialer = fussy;
  between = λ k entries. entries;
  meanwhile = λ k entries. entries;
}

calm-IsQuiet : IsQuiet calm
calm-IsQuiet = record {
  open_ctx = λ k. refl;
  alone = λ k entries. refl;
  alone' = λ k entries. refl;
}

dial_run : dial_with_endpoint calm (codes "gateway.discord.gg") 443 three ≡ record {
  entries = entry_at 2 ∷ entry_at 3 ∷ [];
  closed = 90 ∷ [];
  result = ok (record { conn = 102; endpoint = proxy_at 2 });
}
unfolding dial_with_endpoint dial_loop accepted close_conn invalidate same_endpoint url text_eq
dial_run = refl

dial_with_endpoint-DialSpec_example :
    DialSpec calm
      (codes "gateway.discord.gg")
      443
      0
      three
      []
      (dial_with_endpoint calm (codes "gateway.discord.gg") 443 three)
dial_with_endpoint-DialSpec_example =
    dial_with_endpoint-DialSpec calm (codes "gateway.discord.gg") 443 calm-IsQuiet three

dial_with_endpoint-Served_example :
    (t : LoopState) × Rounds calm
      (codes "a")
      443
      t
      (record { at = 0; entries = three; closed = [] })
    × Served calm
        (codes "a")
        443
        t
        (dial_with_endpoint calm (codes "a") 443 three)
        (record { conn = 102; endpoint = proxy_at 2 })
    × (t.at < length three)
unfolding dial_with_endpoint dial_loop accepted close_conn invalidate same_endpoint url text_eq
dial_with_endpoint-Served_example =
    dial_with_endpoint-Served calm (codes "a") 443 three
      (record { conn = 102; endpoint = proxy_at 2 }) refl

merge_keeps_example :
    (merge three (entry_at 4 ∷ []) 3
      ≡ three ++ take (3 - length three) (fresh three (entry_at 4 ∷ [])))
    × (length (merge three (entry_at 4 ∷ []) 3) ≤ 3)
    × Distinct (merge three (entry_at 4 ∷ []) 3)
merge_keeps_example = merge_keeps three (entry_at 4 ∷ []) 2 three-Distinct (omega arith)

abbrev managed : ManagedPool
managed = record {
  settings = record {
    pool_size = 4;
    min_reserves = 2;
    hunt_cooldown = 100;
    has_refresh = true;
    has_probe = true;
    has_on_dead = true;
    has_on_change = true;
  };
  entries = three;
  in_flight = false;
  last_failed = none;
  misses = (url (proxy_at 1), 1) ∷ [];
  dead = [];
  changes = [];
}

managed-IsSound : IsSound managed
managed-IsSound = record {
  distinct = three-Distinct;
  bounded = omega arith;
  positive = omega arith;
}

refresh_finish-IsSound_example :
    Refreshed managed 7 (ok (entry_at 9 ∷ [])) (refresh_finish managed 7 (ok (entry_at 9 ∷ [])))
    × IsSound (refresh_finish managed 7 (ok (entry_at 9 ∷ []))).0
    × ((refresh_finish managed 7 (ok (entry_at 9 ∷ []))).0.in_flight ≡ false)
refresh_finish-IsSound_example =
    refresh_finish-IsSound managed 7 (ok (entry_at 9 ∷ [])) managed-IsSound

-- The proxy at port 1 misses its second heartbeat, the one at port 2 its first, while in use.
abbrev beats : List ProbeResult
beats =
    record { entry = entry_at 3; failed = false; in_use = false }
    ∷ record { entry = entry_at 1; failed = true; in_use = false }
    ∷ record { entry = entry_at 2; failed = true; in_use = true }
    ∷ []

beats-DistinctKeys : DistinctKeys beats
unfolding text_eq url
beats-DistinctKeys = ((refl, (refl, tt)), ((refl, tt), (tt, tt)))

handle_results-Elem_example :
    (Elem (proxy_at 1) (endpoints (handle_results managed beats).0.entries)
      ↔ (Elem (proxy_at 1) (endpoints three) × (¬ StruckOut managed.misses (proxy_at 1) beats)))
    × Distinct (handle_results managed beats).0.entries
handle_results-Elem_example =
    handle_results-Elem managed beats (proxy_at 1) three-Distinct beats-DistinctKeys

handle_results_misses_example :
    All
      (λ r.
        miss_count (key_of r) (handle_results managed beats).0.misses
        ≡ (if r.failed && not (strikes_out managed.misses r) then 1 else 0))
      beats
handle_results_misses_example = handle_results_misses managed beats beats-DistinctKeys

abbrev connecting : ConnectWorld
connecting = record {
  first = calm;
  parent_after_first = none;
  refreshing = record {
    joined_result = none;
    begins = 1;
    ends = 2;
    meanwhile = λ entries. entries;
    fetched = ok (entry_at 5 ∷ []);
  };
  parent_after_refresh = none;
  second = calm;
  parent_after_second = none;
}

managed_dial-Outcome_example :
    Outcome managed
      (codes "gateway.discord.gg")
      443
      connecting
      (managed_dial managed (codes "gateway.discord.gg") 443 connecting).1
managed_dial-Outcome_example =
    managed_dial-Outcome managed (codes "gateway.discord.gg") 443 connecting
