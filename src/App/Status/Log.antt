-- ===== src/App/Status/Log.antt =====
-- The events that runtimeStatusStore of internal/app/gateway.go keeps.
use mathlib.Core.List.{append-nil, append_assoc}
use bigducks_live.Base.{
  ℕ, zero, suc, ◌+◌, ◌-◌, ◌≤◌, ◌≡◌, ◌∙◌, refl, sym, ap, List, [], ◌∷◌, ◌++◌, length, drop,
  length-drop, length-append, subst, ltb, if◌then◌else◌, Bool-cases, inl, inr, arith,
}
use bigducks_live.Base.Text.{Text}
use bigducks_live.App.Status.{
  RuntimeEvent, RuntimeStatus, RuntimeStatusStore, append_event, differs, runtime_event,
  update_status,
}

-- The last `n` entries.
abbrev pub last {ℓ} : {A : Type ℓ} → ℕ → List A → List A
last n xs = drop (length xs - n) xs

module _ {ℓ} {A : Type ℓ} where
  drop-append : (n : ℕ) (xs ys : List A) → n ≤ length xs → drop n (xs ++ ys) ≡ drop n xs ++ ys
  drop-append zero xs ys h = refl
  drop-append (suc n) [] ys h = absurd (omega arith)
  drop-append (suc n) (x ∷ xs) ys h = drop-append n xs ys (omega arith)

  drop-nil : (n : ℕ) (xs : List A) → length xs ≡ 0 → drop n xs ≡ xs
  drop-nil zero xs h = refl
  drop-nil (suc n) [] h = refl
  drop-nil (suc n) (x ∷ xs) h = absurd (omega arith)

  drop-drop : (m n : ℕ) (xs : List A) → drop m (drop n xs) ≡ drop (n + m) xs
  drop-drop m zero xs = ap (λ k. drop k xs) (omega arith)
  drop-drop m (suc n) [] = drop-nil m [] refl ∙ sym (drop-nil (suc n + m) [] refl)
  drop-drop m (suc n) (x ∷ xs) =
      let e : suc n + m ≡ suc (n + m) = omega arith in
      drop-drop m n xs ∙ ap (λ k. drop k (x ∷ xs)) (sym e)

  -- Entries that were dropped before are not among the last ones later either.
  last-last : (n : ℕ) (xs ys : List A) → last n (last n xs ++ ys) ≡ last n (xs ++ ys)
  last-last n xs ys =
      let k = length xs - n in
      ap (drop (length (drop k xs ++ ys) - n)) (sym (drop-append k xs ys (omega arith)))
      ∙ drop-drop (length (drop k xs ++ ys) - n) k (xs ++ ys)
      ∙ ap (λ m. drop m (xs ++ ys))
          (omega (arith, length-append (drop k xs) ys, length-append xs ys, length-drop k xs))

-- A call of Update: its time and its function.
abbrev pub Update : Type 0
Update = Text × (RuntimeStatus → RuntimeStatus)

unfoldable pub update_all : RuntimeStatusStore → List Update → RuntimeStatusStore
update_all s [] = s
update_all s (u ∷ us) = update_all (update_status u.0 u.1 s) us

unfoldable pub status_after : RuntimeStatus → List Update → RuntimeStatus
status_after status [] = status
status_after status (u ∷ us) = status_after (u.1 status) us

-- Every event that the updates give rise to, without a bound.
unfoldable pub full_log : RuntimeStatus → List Update → List RuntimeEvent
full_log status [] = []
full_log status (u ∷ us) =
    let rest = full_log (u.1 status) us in
    if differs status (u.1 status) then runtime_event u.0 (u.1 status) ∷ rest else rest

append_event-last :
    (events : List RuntimeEvent) (event : RuntimeEvent)
    → append_event events event ≡ last 50 (events ++ event ∷ [])
unfolding append_event
append_event-last events event = elim (Bool-cases (ltb 50 (length (events ++ event ∷ [])))) [
  | inl over ↦ rw over refl
  | inr under ↦
      let e : length (events ++ event ∷ []) - 50 ≡ 0 = ground arith in
      rw under (ap (λ k. drop k (events ++ event ∷ [])) (sym e))
]

last_short : (xs : List RuntimeEvent) → length xs ≤ 50 → last 50 xs ≡ xs
last_short xs h = let e : length xs - 50 ≡ 0 = omega arith in ap (λ k. drop k xs) e

bounded : (xs : List RuntimeEvent) → length (last 50 xs) ≤ 50
bounded xs = omega (arith, length-drop (length xs - 50) xs)

-- The effect of one update, of either kind.
abbrev Step : RuntimeStatusStore → Update → List RuntimeEvent → Type 0
Step s u new =
    (update_status u.0 u.1 s ≡ record { status = u.1 s.status; events = last 50 (s.events ++ new) })
    × ((us : List Update) → full_log s.status (u ∷ us) ≡ new ++ full_log (u.1 s.status) us)

update_status-Step :
    (s : RuntimeStatusStore) (u : Update)
    → length s.events ≤ 50
    → (new : List RuntimeEvent) × Step s u new
unfolding update_status full_log
update_status-Step s u h = elim (Bool-cases (differs s.status (u.1 s.status))) [
  | inl changes ↦
      let event = runtime_event u.0 (u.1 s.status) in
      let e = append_event-last s.events event in
      (event ∷ [], (rw changes (rw e refl), λ us. rw changes refl))
  | inr same ↦
      let e = ap (last 50) (append-nil s.events) ∙ last_short s.events h in
      ([], (rw same (rw e refl), λ us. rw same refl))
]

abbrev Kept : RuntimeStatusStore → List RuntimeEvent → RuntimeStatus → Type 0
Kept s log status = (s.events ≡ last 50 log) × (s.status ≡ status) × (length s.events ≤ 50)

-- The store starts with at most 50 events. After any updates its status is the composition of the
-- update functions, and its events are the last 50 of a log that keeps every event: those the store
-- had, then one for each update that changed the state, the message or the error. It never holds
-- more than 50.
pub update_all-full_log :
    (s : RuntimeStatusStore) (us : List Update)
    → length s.events ≤ 50
    → ((update_all s us).events ≡ last 50 (s.events ++ full_log s.status us))
      × ((update_all s us).status ≡ status_after s.status us)
      × (length (update_all s us).events ≤ 50)
update_all-full_log s [] h =
    unfold update_all full_log status_after in
    (sym (last_short s.events h) ∙ ap (last 50) (sym (append-nil s.events)), refl, h)
update_all-full_log s (u ∷ us) h =
    let (new, (step, log)) = update_status-Step s u h in
    let status = u.1 s.status in
    let s' : RuntimeStatusStore = record { status = status; events = last 50 (s.events ++ new) } in
    let r = update_all-full_log s' us (bounded (s.events ++ new)) in
    let e : update_all s (u ∷ us) ≡ update_all s' us =
      unfold update_all in ap (λ x. update_all x us) step in
    let e' : status_after s.status (u ∷ us) ≡ status_after status us =
      unfold status_after in refl in
    (
      ap (λ x. x.events) e
          ∙ r.0
          ∙ last-last 50 (s.events ++ new) (full_log status us)
          ∙ ap (last 50) (append_assoc s.events new (full_log status us))
          ∙ ap (λ xs. last 50 (s.events ++ xs)) (sym (log us)),
      ap (λ x. x.status) e ∙ r.1 ∙ sym e',
      subst (λ (x : RuntimeStatusStore). length x.events ≤ 50) (sym e) r.2,
    )
