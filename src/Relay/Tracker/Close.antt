-- ===== src/Relay/Tracker/Close.antt =====
-- CloseEndpoint and CloseAll of internal/relay/tracker.go.
use bigducks_live.Base.{
  ℕ, ◌+◌, ◌-◌, ◌≤◌, ◌<◌, ◌≡◌, ◌∙◌, refl, ap, Bool, true, false, not, ◌==◌, List, [], ◌∷◌, length,
  All, arith, Bool-cases, inl, inr,
}
use bigducks_live.Model.{Endpoint, same_endpoint}
use bigducks_live.Relay.Tracker.{
  Tracked, Tracker, without_id, has_id, close_once, close_targets, matching, close_endpoint,
  close_all, in_use, endpoint_in_use, count,
}
use bigducks_live.Relay.Tracker.Invariant.{
  IsValid, Falling, Falling-mono, without_id_above, close_once-IsValid,
}

-- Connections that have not ended, each with an id of its own.
abbrev Fresh : List ℕ → List Tracked → Type 0
Fresh ended = All (λ c. has_id c.id ended ≡ false)

without_all : List Tracked → List Tracked → List Tracked
without_all [] entries = entries
without_all (c ∷ targets) entries = without_all targets (without_id c.id entries)

-- The connections of the targets in front of those that were closed before, the last one first.
pub closed_after : List Tracked → List ℕ → List ℕ
closed_after [] closed = closed
closed_after (c ∷ targets) closed = closed_after targets (c.conn ∷ closed)

Fresh-cons :
    (id n : ℕ) (ended : List ℕ) (targets : List Tracked)
    → Falling n targets
    → n < id
    → Fresh ended targets
    → Fresh (id ∷ ended) targets
unfolding has_id
Fresh-cons id n ended [] f h a = tt
Fresh-cons id n ended (c ∷ targets) f h a = (
  (let other : (id == c.id) ≡ false = let b = f.1 in ground arith in rw other a.0),
  Fresh-cons id (c.id - 1) ended targets f.2 (let b = f.1 in omega arith) a.1,
)

-- What the loop does to targets that are live.
abbrev Closes : Tracker → List Tracked → ℕ → Tracker × ℕ → Type 0
Closes t targets k r =
    (r.0.entries ≡ without_all targets t.entries)
    × (r.0.closed ≡ closed_after targets t.closed)
    × (r.1 ≡ k + length targets)

abbrev closed_one : Tracker → Tracked → Tracker
closed_one t c = record t {
  entries = without_id c.id t.entries;
  signals = t.signals + 1;
  ended = c.id ∷ t.ended;
  closed = c.conn ∷ t.closed;
}

close_once_live :
    (t : Tracker) (c : Tracked)
    → has_id c.id t.ended ≡ false
    → close_once t c ≡ (closed_one t c, true)
unfolding close_once
close_once_live t c h = rw h

close_targets_live :
    (t : Tracker) (c : Tracked) (targets : List Tracked) (k : ℕ)
    → has_id c.id t.ended ≡ false
    → close_targets t (c ∷ targets) k ≡ close_targets (closed_one t c) targets (k + 1)
unfolding close_targets
close_targets_live t c targets k h = rw (close_once_live t c h, close_targets)

close_targets-Closes :
    (t : Tracker) (targets : List Tracked) (n k : ℕ)
    → Falling n targets
    → Fresh t.ended targets
    → Closes t targets k (close_targets t targets k)
unfolding close_targets without_all closed_after
close_targets-Closes t [] n k f a = (refl, refl, omega arith)
close_targets-Closes t (c ∷ targets) n k f a =
    let r =
      close_targets-Closes (closed_one t c) targets (c.id - 1) (k + 1) f.2
        (Fresh-cons c.id (c.id - 1) t.ended targets f.2 (let b = f.0 in omega arith) a.1) in
    let e = close_targets_live t c targets k a.0 in
    (
      ap (λ (x : Tracker × ℕ). x.0.entries) e ∙ r.0,
      ap (λ (x : Tracker × ℕ). x.0.closed) e ∙ r.1,
      ap (λ (x : Tracker × ℕ). x.1) e ∙ r.2 ∙ omega arith,
    )

next_id-close_once : (t : Tracker) (c : Tracked) → (close_once t c).0.next_id ≡ t.next_id
unfolding close_once
next_id-close_once t c = ground arith

close_targets-IsValid :
    (t : Tracker) (targets : List Tracked) (k : ℕ)
    → IsValid t
    → All (λ c. c.id ≤ t.next_id) targets
    → IsValid (close_targets t targets k).0
unfolding close_targets
close_targets-IsValid t [] k v a = v
close_targets-IsValid t (c ∷ targets) k v a =
    close_targets-IsValid (close_once t c).0 targets _ (close_once-IsValid t c v a.0)
      (rw (next_id-close_once t c) a.1)

module _ (match : Tracked → Bool) where
  matching-Falling : (n : ℕ) (cs : List Tracked) → Falling n cs → Falling n (matching match cs)
  unfolding matching
  matching-Falling n [] f = tt
  matching-Falling n (c ∷ cs) f = elim (Bool-cases (match c)) [
    | inl hit ↦ rw hit (f.0, f.1, matching-Falling (c.id - 1) cs f.2)
    | inr miss ↦ rw miss (
        Falling-mono (c.id - 1) n (matching match cs) (let b = f.1 in omega arith)
          (matching-Falling (c.id - 1) cs f.2))
  ]

  matching-All : (P : Tracked → Type 0) (cs : List Tracked) → All P cs → All P (matching match cs)
  unfolding matching
  matching-All P [] a = tt
  matching-All P (c ∷ cs) a = elim (Bool-cases (match c)) [
    | inl hit ↦ rw hit (a.0, matching-All P cs a.1)
    | inr miss ↦ rw miss (matching-All P cs a.1)
  ]

  without_id_self :
      (c : Tracked) (cs : List Tracked) (n : ℕ)
      → Falling n cs
      → n < c.id
      → without_id c.id (c ∷ cs) ≡ cs
  unfolding without_id
  without_id_self c cs n f h =
      let same : (c.id == c.id) ≡ true = ground arith in rw same (without_id_above c.id n cs f h)

  without_all-cons :
      (c : Tracked) (targets rest : List Tracked) (n : ℕ)
      → Falling n targets
      → n < c.id
      → without_all targets (c ∷ rest) ≡ c ∷ without_all targets rest
  unfolding without_all without_id
  without_all-cons c [] rest n f h = refl
  without_all-cons c (d ∷ targets) rest n f h =
      let other : (c.id == d.id) ≡ false = let b = f.1 in ground arith in
      rw other (
        without_all-cons c targets (without_id d.id rest) (d.id - 1) f.2
          (let b = f.1 in omega arith))

  -- Taking away those that match leaves those that do not.
  without_all-matching :
      (n : ℕ) (cs : List Tracked)
      → Falling n cs
      → without_all (matching match cs) cs ≡ matching (λ c. not (match c)) cs
  unfolding matching without_all
  without_all-matching n [] f = refl
  without_all-matching n (c ∷ cs) f = elim (Bool-cases (match c)) [
    | inl hit ↦ rw hit (
        ap (without_all (matching match cs))
          (without_id_self c cs (c.id - 1) f.2 (let b = f.0 in omega arith))
        ∙ without_all-matching (c.id - 1) cs f.2)
    | inr miss ↦ rw miss (
        without_all-cons c (matching match cs) cs (c.id - 1) (matching-Falling (c.id - 1) cs f.2)
          (let b = f.0 in omega arith)
        ∙ ap (◌∷◌ c) (without_all-matching (c.id - 1) cs f.2))
  ]

matching_none : (cs : List Tracked) → matching (λ c. not true) cs ≡ []
unfolding matching
matching_none [] = refl
matching_none (c ∷ cs) = matching_none cs

matching_every : (cs : List Tracked) → matching (λ c. true) cs ≡ cs
unfolding matching
matching_every [] = refl
matching_every (c ∷ cs) = ap (◌∷◌ c) (matching_every cs)

Falling-bounded : (n m : ℕ) (cs : List Tracked) → Falling n cs → n ≤ m → All (λ c. c.id ≤ m) cs
Falling-bounded n m [] f h = tt
Falling-bounded n m (c ∷ cs) f h =
    (let b = f.1 in omega arith, Falling-bounded (c.id - 1) m cs f.2 (let b = f.1 in omega arith))

-- What closing the entries that match does to a valid tracker.
abbrev pub ClosesMatching : (Tracked → Bool) → Tracker → Tracker × ℕ → Type 0
ClosesMatching match t r =
    (r.0.entries ≡ matching (λ c. not (match c)) t.entries)
    × (r.0.closed ≡ closed_after (matching match t.entries) t.closed)
    × (r.1 ≡ length (matching match t.entries))
    × IsValid r.0

close_matching :
    (match : Tracked → Bool) (t : Tracker)
    → IsValid t
    → ClosesMatching match t (close_targets t (matching match t.entries) 0)
close_matching match t v =
    let targets = matching match t.entries in
    let r =
      close_targets-Closes t targets t.next_id 0 (matching-Falling match t.next_id t.entries v.ids)
        (matching-All match _ t.entries v.live) in
    (
      r.0 ∙ without_all-matching match t.next_id t.entries v.ids,
      r.1,
      r.2 ∙ omega arith,
      close_targets-IsValid t targets 0 v (
          matching-All match _ t.entries
            (Falling-bounded t.next_id t.next_id t.entries v.ids (omega arith))),
    )

-- CloseEndpoint on a valid tracker ends exactly the tunnels of the endpoint, closes their connections and returns how
-- many they were; the other tunnels stay, in their order. The tracker stays valid.
pub close_endpoint-ClosesMatching :
    (t : Tracker) (e : Endpoint)
    → IsValid t
    → ClosesMatching (λ c. same_endpoint c.endpoint e) t (close_endpoint t e)
unfolding close_endpoint
close_endpoint-ClosesMatching t e v = close_matching (λ c. same_endpoint c.endpoint e) t v

not_in_use :
    (cs : List Tracked) (e : Endpoint)
    → endpoint_in_use (matching (λ c. not (same_endpoint c.endpoint e)) cs) e ≡ false
unfolding matching endpoint_in_use
not_in_use [] e = refl
not_in_use (c ∷ cs) e = ground (arith, not_in_use cs e)

-- In a valid tracker, after CloseEndpoint of an endpoint InUse answers false for it.
pub in_use-close_endpoint :
    (t : Tracker) (e : Endpoint) → IsValid t → in_use (close_endpoint t e).0 e ≡ false
unfolding in_use
in_use-close_endpoint t e v =
    ap (λ cs. endpoint_in_use cs e) (close_endpoint-ClosesMatching t e v).0 ∙ not_in_use t.entries e

-- CloseAll of a valid tracker ends every tunnel, closes each connection once, and returns how many there were: a
-- second call finds none.
pub close_all-empties :
    (t : Tracker)
    → IsValid t
    → ((close_all t).0.entries ≡ [])
      × ((close_all t).0.closed ≡ closed_after t.entries t.closed)
      × ((close_all t).1 ≡ count t)
      × ((close_all (close_all t).0).1 ≡ 0)
      × IsValid (close_all t).0
unfolding close_all count
close_all-empties t v =
    let r = close_matching (λ c. true) t v in
    let none_left = r.0 ∙ matching_none t.entries in
    let again =
      close_matching (λ c. true) (close_targets t (matching (λ c. true) t.entries) 0).0 r.3 in
    (
      none_left,
      r.1 ∙ ap (λ cs. closed_after cs t.closed) (matching_every t.entries),
      r.2 ∙ ap length (matching_every t.entries),
      again.2 ∙ ap (λ cs. length (matching (λ c. true) cs)) none_left ∙ unfold matching in refl,
      r.3,
    )

next_id-close_targets :
    (t : Tracker) (targets : List Tracked) (k : ℕ)
    → (close_targets t targets k).0.next_id ≡ t.next_id
unfolding close_targets
next_id-close_targets t [] k = refl
next_id-close_targets t (c ∷ targets) k =
    next_id-close_targets (close_once t c).0 targets _ ∙ next_id-close_once t c

pub next_id-close_all : (t : Tracker) → (close_all t).0.next_id ≡ t.next_id
unfolding close_all
next_id-close_all t = next_id-close_targets t (matching (λ c. true) t.entries) 0
