-- ===== src/Proxy/Socks.antt =====
-- internal/proxy/socks5.go: the client's side of the SOCKS5 handshake, from the open connection to
-- the proxy. User names and passwords are their bytes.
pub mod Session
use bigducks_live.Base.{
  ℕ, zero, suc, ◌+◌, ◌*◌, ◌/◌, ◌%◌, ◌^◌, Bool, true, false, not, ◌&&◌, ◌||◌, ltb, leb, ◌==◌, List,
  [], ◌∷◌, ◌++◌, length, if◌then◌else◌,
}
use bigducks_live.Base.Text.{Text, is_empty}
use bigducks_live.Errors.{Error, failure, Result, ok, err}
use bigducks_live.Model.{Endpoint}
use bigducks_live.Wire.{Wire, M, ◌>>=◌, ◌>>◌, pure, raise, read_full, write, byte}
use Prim.Native.String.{String}

-- Fails with the text unless the test holds.
abbrev pub require : Bool → String → M (Unit {0})
require true text = pure tt
require false text = raise text

-- The methods that the client offers.
unfoldable pub greeting : Endpoint → List ℕ
greeting e = if is_empty e.user then 5 ∷ 1 ∷ 0 ∷ [] else 5 ∷ 2 ∷ 0 ∷ 2 ∷ []

-- `byte(len(user))` and `byte(len(pass))` are taken modulo 256.
unfoldable pub auth_request : Endpoint → List ℕ
auth_request e = 1 ∷ (length e.user % 256) ∷ (e.user ++ ((length e.pass % 256) ∷ e.pass))

unfoldable pub connect_request : Text → ℕ → List ℕ
connect_request host port =
    5 ∷ 1 ∷ 0 ∷ 3 ∷ (length host % 256) ∷ (host ++ ((port / 256) % 256) ∷ (port % 256) ∷ [])

-- The answer to the credentials.
unfoldable pub send_credentials : Endpoint → M (Unit {0})
send_credentials e = do
  require (not (is_empty e.user)) "proxy requested unsupported credentials"
  require (leb (length e.user) 255 && leb (length e.pass) 255) "proxy credentials are too long"
  write (auth_request e)
  response ← read_full 2
  require (byte response 1 == 0) "proxy authentication failed"

-- `switch selection[1]`
unfoldable pub authenticate : Endpoint → ℕ → M (Unit {0})
authenticate e method =
    if method == 0
    then pure tt
    else if method == 2
    then send_credentials e
    else raise "proxy selected unsupported SOCKS5 method"

-- The length of the bound address, by its type.
unfoldable pub address_length : ℕ → M ℕ
address_length kind =
    if kind == 1
    then pure 4
    else if kind == 3
    then (do n ← read_full 1; pure (byte n 0))
    else if kind == 4
    then pure 16
    else raise "invalid SOCKS5 bind address type"

unfoldable pub read_connect_reply : M (Unit {0})
read_connect_reply = do
  header ← read_full 4
  require (byte header 0 == 5) "invalid SOCKS5 CONNECT response version"
  require (byte header 1 == 0) "SOCKS5 CONNECT failed"
  n ← address_length (byte header 3)
  bound ← read_full (n + 2)
  pure tt

unfoldable pub send_connect : Text → ℕ → M (Unit {0})
send_connect host port = do
  require (ltb 0 (length host) && leb (length host) 255) "target host length is invalid"
  write (connect_request host port)

-- DialViaSOCKS5, once the proxy is connected.
unfoldable pub client_handshake : Endpoint → Text → ℕ → M (Unit {0})
client_handshake e host port = do
  write (greeting e)
  selection ← read_full 2
  require (byte selection 0 == 5) "invalid SOCKS5 greeting response"
  authenticate e (byte selection 1)
  send_connect host port
  read_connect_reply
