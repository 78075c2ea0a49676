-- ===== src/Model.antt =====
-- internal/model/model.go: proxy endpoints and the host allowlist.
pub mod Hosts
pub mod Url
pub mod Parse
use bigducks_live.Base.{
  ℕ, ◌≡◌, refl, ap, ◌↔◌, Bool, true, ◌&&◌, ◌==◌, ==_iff, &&_iff, arith, List, [], ◌∷◌, map, Elem,
}
use bigducks_live.Base.Text.{Text, text_eq, text_eq_iff, text_eq_refl}

pub record Endpoint : Type 0 where
  pub scheme : Text
  pub host : Text
  pub port : ℕ
  pub user : Text
  pub pass : Text

pub record VerifiedEndpoint : Type 0 where
  pub endpoint : Endpoint
  pub latency_ms : ℕ
  pub country : Text
  pub checked_at : ℕ

-- sameEndpoint of internal/proxy/pool.go; also Go's `==` on two endpoints.
unfoldable pub same_endpoint : Endpoint → Endpoint → Bool
same_endpoint a b =
    text_eq a.scheme b.scheme
    && text_eq a.host b.host
    && a.port == b.port
    && text_eq a.user b.user
    && text_eq a.pass b.pass

pub same_endpoint_sound : (a b : Endpoint) → same_endpoint a b ≡ true → a ≡ b
unfolding same_endpoint
same_endpoint_sound a b h = ground (
  arith,
  text_eq_iff a.scheme b.scheme,
  text_eq_iff a.host b.host,
  text_eq_iff a.user b.user,
  text_eq_iff a.pass b.pass,
)

pub same_endpoint_refl : (a : Endpoint) → same_endpoint a a ≡ true
unfolding same_endpoint
same_endpoint_refl a =
    ground
      (arith, text_eq_refl a.scheme, text_eq_refl a.host, text_eq_refl a.user, text_eq_refl a.pass)

pub same_endpoint_iff : (a b : Endpoint) → (same_endpoint a b ≡ true) ↔ (a ≡ b)
same_endpoint_iff a b = (same_endpoint_sound a b, λ e. rw e (same_endpoint_refl b))
