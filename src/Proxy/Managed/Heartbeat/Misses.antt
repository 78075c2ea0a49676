-- ===== src/Proxy/Managed/Heartbeat/Misses.antt =====
-- The map of missed heartbeats of internal/proxy/managed.go.
use bigducks_live.Base.{ℕ, ◌≡◌, List, [], ◌∷◌, if◌then◌else◌, arith}
use bigducks_live.Base.Text.{Text, text_eq, text_eq_iff}
use bigducks_live.Proxy.Managed.Heartbeat.{miss_count, delete_misses, set_misses}

pub miss_count-delete_misses :
    (key other : Text) (misses : List (Text × ℕ))
    → miss_count other (delete_misses key misses)
      ≡ (if text_eq key other then 0 else miss_count other misses)
unfolding miss_count delete_misses
miss_count-delete_misses key other [] = ground arith
miss_count-delete_misses key other ((k, n) ∷ misses) = ground (
  arith,
  text_eq_iff k key,
  text_eq_iff k other,
  text_eq_iff key other,
  miss_count-delete_misses key other misses,
)

pub miss_count-set_misses :
    (key other : Text) (n : ℕ) (misses : List (Text × ℕ))
    → miss_count other (set_misses key n misses)
      ≡ (if text_eq key other then n else miss_count other misses)
unfolding set_misses miss_count
miss_count-set_misses key other n misses = ground (arith, miss_count-delete_misses key other misses)
