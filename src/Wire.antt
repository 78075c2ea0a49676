-- ===== src/Wire.antt =====
-- A network connection as the handshakes of internal/proxy and internal/relay use it: the bytes
-- that the peer sends before it closes, the bytes that were written, and how many writes succeed
-- before they fail. An error that wraps another one is that other one.
use bigducks_live.Base.{
  ℕ, zero, suc, ◌≡◌, true, leb, List, [], ◌∷◌, ◌++◌, length, take, drop, if◌then◌else◌, arith,
  take-append_left, drop-append_left, length-append,
}
use bigducks_live.Errors.{Error, failure, Result, ok, err}
use Prim.Native.String.{String}

pub record Wire : Type 0 where
  pub incoming : List ℕ
  pub outgoing : List ℕ
  pub writes : ℕ
  pub read_error : Error
  pub write_error : Error

-- An action on a connection that may fail; what it did to the connection stays.
abbrev pub M : Type 0 → Type 0
M A = Wire → Result A × Wire

abbrev pub continue : {A B : Type 0} → Result A → (A → M B) → M B
continue (ok a) f w = f a w
continue (err e) f w = (err e, w)

infixl 5 ◌>>=◌ ◌>>◌
abbrev pub ◌>>=◌ : {A B : Type 0} → M A → (A → M B) → M B
◌>>=◌ m f w = continue (m w).0 f (m w).1

abbrev pub ◌>>◌ : {B : Type 0} → M (Unit {0}) → M B → M B
m >> k = m >>= λ _. k

abbrev pub pure : {A : Type 0} → A → M A
pure a w = (ok a, w)

abbrev pub raise : {A : Type 0} → String → M A
raise text w = (err (failure text), w)

-- io.ReadFull
unfoldable pub read_full : ℕ → M (List ℕ)
read_full n w =
    if leb n (length w.incoming)
    then (ok (take n w.incoming), record w { incoming = drop n w.incoming })
    else (err w.read_error, record w { incoming = [] })

abbrev pub write_left : ℕ → List ℕ → M (Unit {0})
write_left zero bytes w = (err w.write_error, w)
write_left (suc n) bytes w = (ok tt, record w { outgoing = w.outgoing ++ bytes; writes = n })

-- conn.Write
unfoldable pub write : List ℕ → M (Unit {0})
write bytes w = write_left w.writes bytes w

-- A byte of a buffer that was read whole.
abbrev pub byte : List ℕ → ℕ → ℕ
byte [] i = 0
byte (b ∷ bs) zero = b
byte (b ∷ bs) (suc i) = byte bs i

-- Reading as many bytes as the peer sends first.
pub read_full-append :
    (bytes rest : List ℕ) (w : Wire)
    → read_full (length bytes) (record w { incoming = bytes ++ rest })
      ≡ (ok bytes, record w { incoming = rest })
unfolding read_full
read_full-append bytes rest w =
    rw (enough, take-append_left bytes rest, drop-append_left bytes rest)
  where
    enough : leb (length bytes) (length (bytes ++ rest)) ≡ true
    enough = ground (arith, length-append bytes rest)

-- The same for a number of bytes that is known to be the length.
pub read_full_exact :
    (n : ℕ) (bytes rest : List ℕ) (w : Wire)
    → n ≡ length bytes
    → read_full n (record w { incoming = bytes ++ rest }) ≡ (ok bytes, record w { incoming = rest })
read_full_exact n bytes rest w e = rw e (read_full-append bytes rest w)
