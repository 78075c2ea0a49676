-- ===== src/Errors.antt =====
-- The errors that the modelled functions return. The package variables ErrNoProxy,
-- ErrRefreshCooldown and ErrRuntimeUnavailable, the two errors of package context, and any other
-- error by its text.
use Prim.Native.String.{String}

pub data Error : Type 0 where
  no_proxy refresh_cooldown runtime_unavailable bridge_unavailable disconnected : Error
  canceled deadline_exceeded : Error
  failure : String → Error

pub data Result {ℓ} (A : Type ℓ) : Type ℓ where
  ok : A → Result A
  err : Error → Result A
