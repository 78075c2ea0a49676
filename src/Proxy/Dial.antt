-- ===== src/Proxy/Dial.antt =====
-- internal/proxy/pool.go: DialWithEndpoint. A run is told what the context says before each
-- attempt, what the dialer returns for it, and what other goroutines do to the entries while the
-- pool's mutex is free: between two rounds (`between`) and while the dialer works (`meanwhile`).
pub mod Quiet
pub mod Safety
use bigducks_live.Base.{
  ℕ, zero, suc, ◌+◌, ◌≡◌, Bool, true, false, List, [], ◌∷◌, ◌++◌, Option, none, some, length,
}
use bigducks_live.Base.Text.{Text}
use bigducks_live.Errors.{Error, no_proxy, Result, ok, err}
use bigducks_live.Model.{Endpoint, VerifiedEndpoint}
use bigducks_live.Proxy.Pool.{invalidate}

-- What a dialer returns: a connection or nil, and an error or nil.
pub record Attempt : Type 0 where
  pub conn : Option ℕ
  pub error : Option Error

pub record World : Type 0 where
  pub ctx_err : ℕ → Option Error
  pub dialer : ℕ → Endpoint → Text → ℕ → Attempt
  pub between : ℕ → List VerifiedEndpoint → List VerifiedEndpoint
  pub meanwhile : ℕ → List VerifiedEndpoint → List VerifiedEndpoint

pub record DialResult : Type 0 where
  pub conn : ℕ
  pub endpoint : Endpoint

-- The entries that are left, the connections that the pool closed, and what it returns.
pub record DialRun : Type 0 where
  pub entries : List VerifiedEndpoint
  pub closed : List ℕ
  pub result : Result DialResult

-- `err == nil && conn != nil`
unfoldable pub accepted : Attempt → Option ℕ
accepted a = elim a.error [ none ↦ a.conn | some e ↦ none ]

-- `if conn != nil { conn.Close() }`
unfoldable pub close_conn : Option ℕ → List ℕ → List ℕ
close_conn none closed = closed
close_conn (some c) closed = closed ++ c ∷ []

-- `n` attempts are left, and `k` were made.
unfoldable pub dial_loop : World → Text → ℕ → ℕ → ℕ → List VerifiedEndpoint → List ℕ → DialRun
dial_loop w host port zero k entries closed = record {
  entries = entries;
  closed = closed;
  result = err no_proxy;
}
dial_loop w host port (suc n) k entries closed = elim (w.ctx_err k) [
  | some e ↦ record { entries = entries; closed = closed; result = err e }
  | none ↦ elim (w.between k entries) [
    | [] ↦ record { entries = []; closed = closed; result = err no_proxy }
    | entry ∷ rest ↦
        let attempt = w.dialer k entry.endpoint host port in
        let after = w.meanwhile k (entry ∷ rest) in
        elim (accepted attempt) [
          | some c ↦ record {
            entries = after;
            closed = closed;
            result = ok (record { conn = c; endpoint = entry.endpoint });
          }
          | none ↦
              dial_loop w host port n (suc k) (invalidate entry.endpoint after)
                (close_conn attempt.conn closed)
        ]
  ]
]

-- Pool.DialWithEndpoint; Pool.Dial returns its connection.
unfoldable pub dial_with_endpoint : World → Text → ℕ → List VerifiedEndpoint → DialRun
dial_with_endpoint w host port entries = dial_loop w host port (length entries) 0 entries []
