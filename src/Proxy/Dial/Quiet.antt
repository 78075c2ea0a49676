-- ===== src/Proxy/Dial/Quiet.antt =====
-- DialWithEndpoint where no other goroutine changes the pool and the context stays open.
use bigducks_live.Base.{
  ℕ, suc, ◌+◌, ◌≡◌, refl, sym, ap, ◌∙◌, ◌⊎◌, inl, inr, List, [], ◌∷◌, ◌++◌, Option, none, some,
  length, arith, Option-cases,
}
use mathlib.Core.List.{append-nil, append_assoc}
use bigducks_live.Base.Text.{Text}
use bigducks_live.Errors.{no_proxy, ok, err}
use bigducks_live.Model.{VerifiedEndpoint, same_endpoint_refl}
use bigducks_live.Proxy.Pool.{invalidate}
use bigducks_live.Proxy.Dial.{World, DialRun, accepted, close_conn, dial_loop, dial_with_endpoint}

pub record IsQuiet (w : World) : Type 0 where
  pub open_ctx : (k : ℕ) → w.ctx_err k ≡ none
  pub alone : (k : ℕ) (entries : List VerifiedEndpoint) → w.between k entries ≡ entries
  pub alone' : (k : ℕ) (entries : List VerifiedEndpoint) → w.meanwhile k entries ≡ entries

-- Every entry is refused by the dialer, the first of them in round `k`.
abbrev pub Refused : World → Text → ℕ → ℕ → List VerifiedEndpoint → Type 0
Refused w host port k [] = Unit
Refused w host port k (x ∷ xs) =
    (accepted (w.dialer k x.endpoint host port) ≡ none) × Refused w host port (suc k) xs

-- The connections that came with an error, which the pool closes.
pub leftovers : World → Text → ℕ → ℕ → List VerifiedEndpoint → List ℕ
leftovers w host port k [] = []
leftovers w host port k (x ∷ xs) =
    close_conn (w.dialer k x.endpoint host port).conn [] ++ leftovers w host port (suc k) xs

-- Either every entry was refused and the pool is empty, or the entries before the first that
-- accepted are gone and its connection is returned.
abbrev pub DialSpec : World → Text → ℕ → ℕ → List VerifiedEndpoint → List ℕ → DialRun → Type 0
DialSpec w host port k entries closed run =
    (Refused w host port k entries
      × (run ≡ record {
        entries = [];
        closed = closed ++ leftovers w host port k entries;
        result = err no_proxy;
      }))
    ⊎ ((front : List VerifiedEndpoint) × (entry : VerifiedEndpoint) × (rest : List VerifiedEndpoint)
        × (conn : ℕ) × (entries ≡ front ++ entry ∷ rest)
        × Refused w host port k front
        × (accepted (w.dialer (k + length front) entry.endpoint host port) ≡ some conn)
        × (run ≡ record {
          entries = entry ∷ rest;
          closed = closed ++ leftovers w host port k front;
          result = ok (record { conn = conn; endpoint = entry.endpoint });
        }))

invalidate-head :
    (x : VerifiedEndpoint) (xs : List VerifiedEndpoint) → invalidate x.endpoint (x ∷ xs) ≡ xs
unfolding invalidate
invalidate-head x xs = rw (same_endpoint_refl x.endpoint)

close_conn-append :
    (c : Option ℕ) (closed : List ℕ) → close_conn c closed ≡ closed ++ close_conn c []
unfolding close_conn
close_conn-append none closed = sym (append-nil closed)
close_conn-append (some c) closed = refl

module _ (w : World) (host : Text) (port : ℕ) (quiet : IsQuiet w) where
  round_accepted :
      (n k : ℕ) (x : VerifiedEndpoint) (xs : List VerifiedEndpoint) (closed : List ℕ) (c : ℕ)
      → accepted (w.dialer k x.endpoint host port) ≡ some c
      → dial_loop w host port (suc n) k (x ∷ xs) closed ≡ record {
        entries = x ∷ xs;
        closed = closed;
        result = ok (record { conn = c; endpoint = x.endpoint });
      }
  unfolding dial_loop
  round_accepted n k x xs closed c h =
      rw (quiet.open_ctx k, quiet.alone k (x ∷ xs), h, quiet.alone' k (x ∷ xs), dial_loop)

  round_refused :
      (n k : ℕ) (x : VerifiedEndpoint) (xs : List VerifiedEndpoint) (closed : List ℕ)
      → accepted (w.dialer k x.endpoint host port) ≡ none
      → dial_loop w host port (suc n) k (x ∷ xs) closed
        ≡ dial_loop w host port n
            (suc k)
            xs
            (closed ++ close_conn (w.dialer k x.endpoint host port).conn [])
  unfolding dial_loop
  round_refused n k x xs closed h =
      rw (quiet.open_ctx k, quiet.alone k (x ∷ xs), h, quiet.alone' k (x ∷ xs), dial_loop)
        (ap (λ es. dial_loop w host port n (suc k) es _) (invalidate-head x xs)
          ∙ ap (dial_loop w host port n (suc k) xs) (close_conn-append _ closed))

  refused-DialSpec :
      (k : ℕ) (x : VerifiedEndpoint) (xs : List VerifiedEndpoint) (closed : List ℕ) (run : DialRun)
      → accepted (w.dialer k x.endpoint host port) ≡ none
      → DialSpec w host port
          (suc k)
          xs
          (closed ++ close_conn (w.dialer k x.endpoint host port).conn [])
          run
      → DialSpec w host port k (x ∷ xs) closed run
  unfolding leftovers
  refused-DialSpec k x xs closed run h (inl (all, e)) = inl (
    (h, all),
    e
        ∙ ap (λ c. record { entries = []; closed = c; result = err no_proxy })
            (append_assoc closed _ _),
  )
  refused-DialSpec k x xs closed run h (inr (front, entry, rest, conn, split, all, hit, e)) = inr (
    x ∷ front,
    entry,
    rest,
    conn,
    ap (◌∷◌ x) split,
    (h, all),
    (let n : k + length (x ∷ front) ≡ suc k + length front = omega arith in rw n hit),
    e
        ∙ ap
            (λ c. record {
              entries = entry ∷ rest;
              closed = c;
              result = ok (record { conn = conn; endpoint = entry.endpoint });
            })
            (append_assoc closed _ _),
  )

  dial_loop-DialSpec :
      (k : ℕ) (entries : List VerifiedEndpoint) (closed : List ℕ)
      → DialSpec w host port k entries closed
          (dial_loop w host port (length entries) k entries closed)
  unfolding leftovers
  dial_loop-DialSpec k [] closed =
      unfold dial_loop in
      inl (
        tt,
        ap (λ c. record { entries = []; closed = c; result = err no_proxy })
            (sym (append-nil closed)),
      )
  dial_loop-DialSpec k (x ∷ xs) closed =
      elim (Option-cases (accepted (w.dialer k x.endpoint host port))) [
        | inl refused ↦
            rw (round_refused (length xs) k x xs closed refused)
              (refused-DialSpec k x xs closed _ refused (dial_loop-DialSpec (suc k) xs _))
        | inr (c, hit) ↦ inr (
          [],
          x,
          xs,
          c,
          refl,
          tt,
          (let n : k + 0 ≡ k = omega arith in rw n hit),
          round_accepted (length xs) k x xs closed c hit
              ∙ ap
                  (λ cl. record {
                    entries = x ∷ xs;
                    closed = cl;
                    result = ok (record { conn = c; endpoint = x.endpoint });
                  })
                  (sym (append-nil closed)),
        )
      ]

  -- Where the context stays open and no other goroutine changes the pool, the pool tries its entries
  -- in order. Either every dial is refused: then all entries are gone
  -- and the result is ErrNoProxy. Or the first accepted dial gives the connection and its
  -- endpoint: then the entries that were refused before it are gone, the others stay in order with
  -- the one in use first. The connections that came with an error are closed.
  pub dial_with_endpoint-DialSpec :
      (entries : List VerifiedEndpoint)
      → DialSpec w host port 0 entries [] (dial_with_endpoint w host port entries)
  unfolding dial_with_endpoint
  dial_with_endpoint-DialSpec entries = dial_loop-DialSpec 0 entries []
