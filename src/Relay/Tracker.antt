-- ===== src/Relay/Tracker.antt =====
-- internal/relay/tracker.go: the live tunnels. A tracked connection is known by its id; the map of
-- entries is a list, newest first; `ended` are the ids whose sync.Once has run, `closed` the
-- connections that were closed, and `signals` counts how often `changed` was closed.
pub mod Invariant
pub mod Close
pub mod Wait
use bigducks_live.Base.{
  ℕ, zero, suc, ◌+◌, ◌%◌, ◌^◌, Bool, true, false, not, ◌&&◌, ◌||◌, ltb, ◌==◌, List, [], ◌∷◌, ◌++◌,
  length, if◌then◌else◌,
}
use bigducks_live.Model.{Endpoint, same_endpoint}

pub record Tracked : Type 0 where
  pub id : ℕ
  pub endpoint : Endpoint
  pub conn : ℕ

pub record Tracker : Type 0 where
  pub next_id : ℕ
  pub generation : ℕ
  pub entries : List Tracked
  pub ended : List ℕ
  pub closed : List ℕ
  pub signals : ℕ

-- The modulus of uint64.
abbrev pub u64 : ℕ
u64 = 2 ^ 64

abbrev pub new_tracker : Tracker
new_tracker = record {
  next_id = 0;
  generation = 0;
  entries = [];
  ended = [];
  closed = [];
  signals = 0;
}

abbrev pub tracked : Tracker → Endpoint → ℕ → Tracked
tracked t e conn = record { id = (t.next_id + 1) % u64; endpoint = e; conn = conn }

-- Track of a connection that is not nil: the tracker, and the connection that stands for it.
unfoldable pub track : Tracker → Endpoint → ℕ → Tracker × Tracked
track t e conn = (
  record t {
    next_id = (t.next_id + 1) % u64;
    generation = (t.generation + 1) % u64;
    entries = tracked t e conn ∷ t.entries;
    signals = t.signals + 1;
  },
  tracked t e conn,
)

-- `delete(t.entries, id)`
unfoldable pub without_id : ℕ → List Tracked → List Tracked
without_id id [] = []
without_id id (c ∷ entries) =
    let rest = without_id id entries in if c.id == id then rest else c ∷ rest

unfoldable pub has_id : ℕ → List ℕ → Bool
has_id id [] = false
has_id id (i ∷ ids) = i == id || has_id id ids

unfoldable pub remove : Tracker → ℕ → Tracker
remove t id = record t { entries = without_id id t.entries; signals = t.signals + 1 }

-- trackedConn.closeOnce; Close does the same and returns the connection's error.
unfoldable pub close_once : Tracker → Tracked → Tracker × Bool
unfolding remove
close_once t c =
    if has_id c.id t.ended
    then (t, false)
    else (record (remove t c.id) { ended = c.id ∷ t.ended; closed = c.conn ∷ t.closed }, true)

-- The loop of CloseEndpoint and CloseAll over their targets, with the count so far.
unfoldable pub close_targets : Tracker → List Tracked → ℕ → Tracker × ℕ
close_targets t [] closed = (t, closed)
close_targets t (c ∷ targets) closed =
    let (t', did) = close_once t c in close_targets t' targets (if did then closed + 1 else closed)

unfoldable pub matching : (Tracked → Bool) → List Tracked → List Tracked
matching match [] = []
matching match (c ∷ entries) =
    let rest = matching match entries in if match c then c ∷ rest else rest

unfoldable pub close_endpoint : Tracker → Endpoint → Tracker × ℕ
close_endpoint t e = close_targets t (matching (λ c. same_endpoint c.endpoint e) t.entries) 0

unfoldable pub close_all : Tracker → Tracker × ℕ
close_all t = close_targets t (matching (λ c. true) t.entries) 0

unfoldable pub endpoint_in_use : List Tracked → Endpoint → Bool
endpoint_in_use [] e = false
endpoint_in_use (c ∷ entries) e = same_endpoint c.endpoint e || endpoint_in_use entries e

unfoldable pub in_use : Tracker → Endpoint → Bool
unfolding endpoint_in_use
in_use t e = endpoint_in_use t.entries e

unfoldable pub count : Tracker → ℕ
count t = length t.entries

-- The test of WaitForConnection, which returns nil as soon as it holds.
unfoldable pub has_connection : Tracker → ℕ → Bool
has_connection t after = ltb after t.generation && ltb 0 (length t.entries)
