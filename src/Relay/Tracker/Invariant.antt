-- ===== src/Relay/Tracker/Invariant.antt =====
-- The invariant of the tracker of internal/relay/tracker.go.
use bigducks_live.Base.{
  ℕ, ◌+◌, ◌≤◌, ◌<◌, ◌≡◌, refl, ap, ◌-◌, false, List, [], ◌∷◌, All, arith, ◌==◌, Bool-cases, inl,
  inr,
}
use bigducks_live.Model.{Endpoint}
use bigducks_live.Relay.Tracker.{
  Tracked, Tracker, u64, new_tracker, track, without_id, has_id, close_once,
}

-- The ids fall along the list, newest first, and stay at or under a bound.
abbrev pub Falling : ℕ → List Tracked → Type 0
Falling n [] = Unit
Falling n (c ∷ cs) = (0 < c.id) × (c.id ≤ n) × Falling (c.id - 1) cs

-- Live connections have not ended; ids and generations count the connections tracked so far.
pub record IsValid (t : Tracker) : Type 0 where
  pub ids : Falling t.next_id t.entries
  pub live : All (λ c. has_id c.id t.ended ≡ false) t.entries
  pub past : All (λ i. i ≤ t.next_id) t.ended
  pub counted : t.generation ≡ t.next_id
  pub in_range : t.next_id < u64

pub Falling-mono : (m n : ℕ) (cs : List Tracked) → m ≤ n → Falling m cs → Falling n cs
Falling-mono m n [] h f = tt
Falling-mono m n (c ∷ cs) h f = (f.0, omega arith, f.2)

pub without_id-Falling :
    (id n : ℕ) (cs : List Tracked) → Falling n cs → Falling n (without_id id cs)
unfolding without_id
without_id-Falling id n [] f = tt
without_id-Falling id n (c ∷ cs) f = elim (Bool-cases (c.id == id)) [
  | inl gone ↦ rw gone (
      Falling-mono (c.id - 1) n (without_id id cs) (let b = f.1 in omega arith)
        (without_id-Falling id (c.id - 1) cs f.2))
  | inr kept ↦ rw kept (f.0, f.1, without_id-Falling id (c.id - 1) cs f.2)
]

-- Ids above the bound are not in the list.
pub without_id_above :
    (id n : ℕ) (cs : List Tracked) → Falling n cs → n < id → without_id id cs ≡ cs
unfolding without_id
without_id_above id n [] f h = refl
without_id_above id n (c ∷ cs) f h =
    let other : (c.id == id) ≡ false = let b = f.1 in ground arith in
    rw other (ap (◌∷◌ c) (without_id_above id (c.id - 1) cs f.2 (let b = f.1 in omega arith)))

-- What holds of all entries holds of those that are left.
pub without_id-All :
    (P : Tracked → Type 0) (id : ℕ) (cs : List Tracked) → All P cs → All P (without_id id cs)
unfolding without_id
without_id-All P id [] a = tt
without_id-All P id (c ∷ cs) a = elim (Bool-cases (c.id == id)) [
  | inl gone ↦ rw gone (without_id-All P id cs a.1)
  | inr kept ↦ rw kept (a.0, without_id-All P id cs a.1)
]

-- Behind the removal of an id, no entry has it: the others have not ended if it ends.
without_id-live :
    (id : ℕ) (ended : List ℕ) (cs : List Tracked)
    → All (λ c. has_id c.id ended ≡ false) cs
    → All (λ c. has_id c.id (id ∷ ended) ≡ false) (without_id id cs)
unfolding without_id has_id
without_id-live id ended [] a = tt
without_id-live id ended (c ∷ cs) a = elim (Bool-cases (c.id == id)) [
  | inl gone ↦ rw gone (without_id-live id ended cs a.1)
  | inr kept ↦ rw kept (
    (let other : (id == c.id) ≡ false = ground arith in rw other a.0),
    without_id-live id ended cs a.1,
  )
]

not-has_id_above : (id n : ℕ) (ids : List ℕ) → All (λ i. i ≤ n) ids → n < id → has_id id ids ≡ false
unfolding has_id
not-has_id_above id n [] a h = refl
not-has_id_above id n (i ∷ ids) a h =
    let other : (i == id) ≡ false = let b = a.0 in ground arith in
    rw other (not-has_id_above id n ids a.1 h)

All-le_mono : (m n : ℕ) (ids : List ℕ) → m ≤ n → All (λ i. i ≤ m) ids → All (λ i. i ≤ n) ids
All-le_mono m n [] h a = tt
All-le_mono m n (i ∷ ids) h a = (let b = a.0 in omega arith, All-le_mono m n ids h a.1)

pub new_tracker-IsValid : IsValid new_tracker
new_tracker-IsValid = record {
  ids = tt;
  live = tt;
  past = tt;
  counted = refl;
  in_range = omega arith;
}

-- A new connection gets an id that no connection had before, while fewer than 2^64 were tracked.
pub track-IsValid :
    (t : Tracker) (e : Endpoint) (conn : ℕ)
    → IsValid t
    → t.next_id + 1 < u64
    → IsValid (track t e conn).0 × ((track t e conn).1.id ≡ t.next_id + 1)
unfolding track
track-IsValid t e conn v room = (
  record {
    ids = (omega arith, omega arith, Falling-mono t.next_id _ t.entries (omega arith) v.ids);
    live = (not-has_id_above _ t.next_id t.ended v.past (omega arith), v.live);
    past = All-le_mono t.next_id _ t.ended (omega arith) v.past;
    counted = let c = v.counted in omega arith;
    in_range = omega arith;
  },
  omega arith,
)

-- A close, by whichever way and however often, keeps the tracker valid if the connection is one
-- that was tracked.
pub close_once-IsValid :
    (t : Tracker) (c : Tracked) → IsValid t → c.id ≤ t.next_id → IsValid (close_once t c).0
unfolding close_once
close_once-IsValid t c v h = elim (Bool-cases (has_id c.id t.ended)) [
  | inl again ↦ rw again v
  | inr first ↦ rw first (record {
    ids = without_id-Falling c.id t.next_id t.entries v.ids;
    live = without_id-live c.id t.ended t.entries v.live;
    past = (h, v.past);
    counted = v.counted;
    in_range = v.in_range;
  })
]
