-- ===== src/Proxy/Dial/Safety.antt =====
-- DialWithEndpoint while other goroutines change the pool: the loop as a relation between states.
use bigducks_live.Base.{
  ℕ, zero, suc, ◌+◌, ◌<◌, ◌≡◌, refl, ◌⊎◌, inl, inr, List, [], ◌∷◌, none, some, length, arith,
  Option-cases,
}
use bigducks_live.Base.Text.{Text}
use bigducks_live.Errors.{Error, no_proxy, ok, err}
use bigducks_live.Model.{VerifiedEndpoint}
use bigducks_live.Proxy.Pool.{invalidate}
use bigducks_live.Proxy.Dial.{
  World, DialResult, DialRun, accepted, close_conn, dial_loop, dial_with_endpoint,
}

abbrev Entries : Type 0
Entries = List VerifiedEndpoint

-- The state before a round: its number, the entries and the closed connections.
pub record LoopState : Type 0 where
  pub at : ℕ
  pub entries : Entries
  pub closed : List ℕ

-- `Rounds w host port s t`: from `s` to `t` by rounds that were refused, each with the entry that
-- headed the pool.
pub data Rounds (w : World) (host : Text) (port : ℕ) (t : LoopState) : LoopState → Type 0 where
  done : Rounds w host port t t
  refused :
      (s : LoopState) (entry : VerifiedEndpoint) (rest : Entries)
      → w.ctx_err s.at ≡ none
      → w.between s.at s.entries ≡ entry ∷ rest
      → accepted (w.dialer s.at entry.endpoint host port) ≡ none
      → Rounds w host port t (record {
        at = suc s.at;
        entries = invalidate entry.endpoint (w.meanwhile s.at (entry ∷ rest));
        closed = close_conn (w.dialer s.at entry.endpoint host port).conn s.closed;
      })
      → Rounds w host port t s

-- The run ended in state `t` with a connection: the context was open, and the entry that headed
-- the pool then is the endpoint of the result, whose dial was accepted.
pub record Served (w : World) (host : Text) (port : ℕ) (t : LoopState) (run : DialRun)
    (r : DialResult) : Type 0 where
  pub entry : VerifiedEndpoint
  pub rest : Entries
  pub ctx_open : w.ctx_err t.at ≡ none
  pub head : w.between t.at t.entries ≡ entry ∷ rest
  pub endpoint : r.endpoint ≡ entry.endpoint
  pub conn : accepted (w.dialer t.at entry.endpoint host port) ≡ some r.conn
  pub left : run.entries ≡ w.meanwhile t.at (entry ∷ rest)
  pub closed : run.closed ≡ t.closed

module _ (w : World) (host : Text) (port n : ℕ) (s : LoopState) where
  -- The state after a refused round.
  abbrev after_refusal : VerifiedEndpoint → Entries → LoopState
  after_refusal entry rest = record {
    at = suc s.at;
    entries = invalidate entry.endpoint (w.meanwhile s.at (entry ∷ rest));
    closed = close_conn (w.dialer s.at entry.endpoint host port).conn s.closed;
  }

  abbrev run_from : ℕ → LoopState → DialRun
  run_from n s = dial_loop w host port n s.at s.entries s.closed

  stopped : (e : Error) → w.ctx_err s.at ≡ some e → (run_from (suc n) s).result ≡ err e
  unfolding dial_loop
  stopped e h = rw (h, dial_loop)

  emptied :
      w.ctx_err s.at ≡ none
      → w.between s.at s.entries ≡ []
      → (run_from (suc n) s).result ≡ err no_proxy
  unfolding dial_loop
  emptied h k = rw (h, k, dial_loop)

  module _ (entry : VerifiedEndpoint) (rest : Entries) (h : w.ctx_err s.at ≡ none)
      (k : w.between s.at s.entries ≡ entry ∷ rest) where
    served :
        (c : ℕ)
        → accepted (w.dialer s.at entry.endpoint host port) ≡ some c
        → run_from (suc n) s ≡ record {
          entries = w.meanwhile s.at (entry ∷ rest);
          closed = s.closed;
          result = ok (record { conn = c; endpoint = entry.endpoint });
        }
    unfolding dial_loop
    served c hit = rw (h, k, hit, dial_loop)

    went_on :
        accepted (w.dialer s.at entry.endpoint host port) ≡ none
        → run_from (suc n) s ≡ run_from n (after_refusal entry rest)
    unfolding dial_loop
    went_on miss = rw (h, k, miss, dial_loop)

abbrev ServedFrom : World → Text → ℕ → ℕ → LoopState → DialResult → DialRun → Type 0
ServedFrom w host port n s r run =
    run.result ≡ ok r
    → (t : LoopState) × Rounds w host port t s × Served w host port t run r × (t.at < s.at + n)

List-cases : (xs : Entries) → (xs ≡ []) ⊎ ((x : VerifiedEndpoint) × (ys : Entries) × (xs ≡ x ∷ ys))
List-cases [] = inl refl
List-cases (x ∷ xs) = inr (x, xs, refl)

module _ (w : World) (host : Text) (port : ℕ) where
  later :
      (n : ℕ) (s : LoopState) (r : DialResult) (run : DialRun) (entry : VerifiedEndpoint)
      (rest : Entries)
      → w.ctx_err s.at ≡ none
      → w.between s.at s.entries ≡ entry ∷ rest
      → accepted (w.dialer s.at entry.endpoint host port) ≡ none
      → ServedFrom w host port n (after_refusal w host port n s entry rest) r run
      → ServedFrom w host port (suc n) s r run
  later n s r run entry rest e k miss ih h =
      let (t, rounds, fin, bound) = ih h in
      (t, refused s entry rest e k miss rounds, fin, omega arith)

  dial_loop-Served :
      (n : ℕ) (s : LoopState) (r : DialResult)
      → ServedFrom w host port n s r (dial_loop w host port n s.at s.entries s.closed)
  dial_loop-Served zero s r = unfold dial_loop in λ h. cc
  dial_loop-Served (suc n) s r = elim (Option-cases (w.ctx_err s.at)) [
    | inr (e, stop) ↦ λ h. cc (stopped w host port n s e stop)
    | inl e ↦ elim (List-cases (w.between s.at s.entries)) [
      | inl none_left ↦ λ h. cc (emptied w host port n s e none_left)
      | inr (entry, rest, k) ↦
          elim (Option-cases (accepted (w.dialer s.at entry.endpoint host port))) [
            | inl miss ↦ rw (went_on w host port n s entry rest e k miss) (
                later n s r _ entry rest e k miss
                  (dial_loop-Served n (after_refusal w host port n s entry rest) r))
            | inr (c, hit) ↦ rw (served w host port n s entry rest e k c hit) λ h. (
              s,
              done,
              record {
                entry = entry;
                rest = rest;
                ctx_open = e;
                head = k;
                endpoint = ground arith;
                conn = ground arith;
                left = refl;
                closed = refl;
              },
              omega arith,
            )
          ]
    ]
  ]

  -- Whatever other goroutines do to the pool, a connection that DialWithEndpoint returns comes from
  -- an accepted dial of the entry that headed the pool in that round, after rounds that were all
  -- refused and evicted their entry, with the context open; no more rounds are made than the pool
  -- had entries at the start.
  pub dial_with_endpoint-Served :
      (entries : Entries) (r : DialResult)
      → (dial_with_endpoint w host port entries).result ≡ ok r
      → (t : LoopState) × Rounds w host port t (record { at = 0; entries = entries; closed = [] })
        × Served w host port t (dial_with_endpoint w host port entries) r
        × (t.at < length entries)
  unfolding dial_with_endpoint
  dial_with_endpoint-Served entries r h =
      let (t, rounds, fin, bound) =
        dial_loop-Served (length entries) (record { at = 0; entries = entries; closed = [] }) r h in
      (t, rounds, fin, omega arith)
