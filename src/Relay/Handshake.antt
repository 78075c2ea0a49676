-- ===== src/Relay/Handshake.antt =====
-- internal/relay/socks5.go: the server's side of the SOCKS5 handshake.
pub mod Accept
use bigducks_live.Base.{
  ℕ, zero, suc, ◌+◌, ◌*◌, Bool, true, false, not, ◌&&◌, ◌||◌, ltb, leb, ◌==◌, List, [], ◌∷◌, ◌++◌,
  length, if◌then◌else◌, Option, none, some,
}
use bigducks_live.Base.Text.{Text}
use bigducks_live.Errors.{Error, failure, Result, ok, err}
use bigducks_live.Wire.{Wire, M, ◌>>=◌, ◌>>◌, pure, raise, read_full, write, byte}
use Prim.Native.String.{String}

-- The handshake's functions return false on any failure.
abbrev pub require : Bool → M (Unit {0})
require true = pure tt
require false = raise "refused"

unfoldable pub offers_no_auth : List ℕ → Bool
offers_no_auth [] = false
offers_no_auth (method ∷ methods) = method == 0 || offers_no_auth methods

unfoldable pub negotiate_no_auth : M (Unit {0})
negotiate_no_auth = do
  header ← read_full 2
  require (byte header 0 == 5)
  methods ← read_full (byte header 1)
  if offers_no_auth methods then write (5 ∷ 0 ∷ []) else (do write (5 ∷ 255 ∷ []); raise "refused")

unfoldable pub read_connect_request : M (Text × ℕ)
read_connect_request = do
  header ← read_full 4
  require (byte header 0 == 5 && byte header 2 == 0)
  require (byte header 1 == 1 && byte header 3 == 3)
  n ← read_full 1
  require (not (byte n 0 == 0))
  host ← read_full (byte n 0)
  port_bytes ← read_full 2
  require (leb 1 (byte port_bytes 0 * 256 + byte port_bytes 1))
  pure (host, byte port_bytes 0 * 256 + byte port_bytes 1)

-- A failed write is ignored.
unfoldable pub write_reply : Wire → ℕ → Wire
write_reply w code = (write (5 ∷ code ∷ 0 ∷ 1 ∷ 0 ∷ 0 ∷ 0 ∷ 0 ∷ 0 ∷ 0 ∷ []) w).1
