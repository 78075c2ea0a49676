-- ===== src/Proxy/Pool/Reserve.antt =====
-- PromoteReserve of internal/proxy/pool.go.
use mathlib.Core.List.{append-nil, append_assoc}
use bigducks_live.Base.{ℕ, zero, suc, ◌≡◌, refl, sym, ap, ◌∙◌, List, [], ◌∷◌, ◌++◌, length}
use bigducks_live.Model.{VerifiedEndpoint}
use bigducks_live.Proxy.Pool.{promote_reserve}

abbrev Entries : Type 0
Entries = List VerifiedEndpoint

-- k promotions in a row.
pub promote_times : ℕ → Entries → Entries
promote_times zero entries = entries
promote_times (suc k) entries = promote_times k (promote_reserve entries).0

promote_reserve-cons :
    (x : VerifiedEndpoint) (xs : Entries) → (promote_reserve (x ∷ xs)).0 ≡ xs ++ x ∷ []
unfolding promote_reserve
promote_reserve-cons x [] = refl
promote_reserve-cons x (y ∷ ys) = refl

-- As many promotions as there are entries in front make the first of the others active, and put
-- those in front behind them in their order: each reserve has its turn.
pub promote_times-append :
    (front back : Entries) → promote_times (length front) (front ++ back) ≡ back ++ front
unfolding promote_times
promote_times-append [] back = sym (append-nil back)
promote_times-append (x ∷ front) back =
    ap (promote_times (length front)) (promote_reserve-cons x (front ++ back))
    ∙ (ap (promote_times (length front)) (append_assoc front back (x ∷ []))
        ∙ promote_times-append front (back ++ x ∷ [])
        ∙ append_assoc back (x ∷ []) front)
