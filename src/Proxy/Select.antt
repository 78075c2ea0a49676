-- ===== src/Proxy/Select.antt =====
-- internal/proxy/pool.go: SelectVerified. The workers probe the candidates at the same time: what
-- they send on the channel of results, until it is closed, is an argument, in the order of arrival.
pub mod Best
use bigducks_live.Base.{
  ℕ, Bool, true, false, not, ◌||◌, ◌==◌, ltb, List, [], ◌∷◌, Option, none, some, take,
  if◌then◌else◌,
}
use bigducks_live.Base.Sort.{sort, by_number_le}
use bigducks_live.Base.Text.{Text, codes, is_empty, equal_fold}
use bigducks_live.Errors.{Error}
use bigducks_live.Model.{VerifiedEndpoint}
use bigducks_live.Model.Url.{redacted_url}

pub record ProbeResult : Type 0 where
  pub endpoint : VerifiedEndpoint
  pub error : Option Error

abbrev pub has_error : Option Error → Bool
has_error none = false
has_error (some e) = true

-- The test of the loop over the results.
unfoldable pub is_rejected : ProbeResult → Bool
is_rejected r =
    has_error r.error || is_empty r.endpoint.country || equal_fold r.endpoint.country (codes "BR")

unfoldable pub collect_verified : List ProbeResult → List VerifiedEndpoint
collect_verified [] = []
collect_verified (r ∷ rs) =
    if is_rejected r then collect_verified rs else r.endpoint ∷ collect_verified rs

-- Not after: by the latency, and then by the redacted URL.
unfoldable pub entry_le : VerifiedEndpoint → VerifiedEndpoint → Bool
entry_le a b =
    by_number_le a.latency_ms (redacted_url a.endpoint) b.latency_ms (redacted_url b.endpoint)

-- `max <= 0 || max > len(candidates)`; 0 stands for every `max <= 0`.
unfoldable pub limit_of : ℕ → ℕ → ℕ
limit_of max candidates = if max == 0 || ltb candidates max then candidates else max

-- `candidates` is how many there are.
unfoldable pub select_verified : ℕ → ℕ → Bool → List ProbeResult → List VerifiedEndpoint
unfolding entry_le
select_verified candidates max has_probe results =
    if candidates == 0 || not has_probe
    then []
    else take (limit_of max candidates) (sort entry_le (collect_verified results))
