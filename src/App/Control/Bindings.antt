-- ===== src/App/Control/Bindings.antt =====
-- Who may unbind a RuntimeControl of internal/app/control.go.
use bigducks_live.Base.{
  ℕ, zero, suc, ◌⊎◌, ◌+◌, ◌%◌, ◌^◌, ◌<◌, ◌≡◌, ◌∙◌, refl, ap, by_test, true, ◌==◌, ==_iff, List, [],
  ◌∷◌, some, Bool-cases, inl, inr, arith,
}
use bigducks_live.Errors.{runtime_unavailable}
use bigducks_live.App.Status.{RuntimeStatus}
use bigducks_live.App.Control.{
  RuntimeBindings, RuntimeControl, stopped_status, bind, unbind, control_reconnect, control_reload,
  control_test_route, control_status, control_set_status,
}

-- What is done to a control: a binding, a new status, or a call of the function that the binding of
-- a generation returned.
pub data Use : Type 0 where
  binds : RuntimeBindings → Use
  sets : RuntimeStatus → Use
  unbinds : ℕ → Use

unfoldable pub used : List Use → RuntimeControl → RuntimeControl
used [] c = c
used (binds b ∷ us) c = used us (bind c b)
used (sets s ∷ us) c = used us (control_set_status s c)
used (unbinds n ∷ us) c = used us (unbind n c)

unfoldable pub bind_count : List Use → ℕ
bind_count [] = 0
bind_count (binds b ∷ us) = suc (bind_count us)
bind_count (sets s ∷ us) = bind_count us
bind_count (unbinds n ∷ us) = bind_count us

wraps : (a b : ℕ) → ((a + 1) % 2 ^ 64 + b) % 2 ^ 64 ≡ (a + suc b) % 2 ^ 64
wraps a b = omega arith

generation-unbind : (n : ℕ) (c : RuntimeControl) → (unbind n c).generation ≡ c.generation
unfolding unbind
generation-unbind n c =
    by_test (λ (x : RuntimeControl). x.generation ≡ c.generation) (c.generation == n) (λ _. refl)
      (λ _. refl)

generation-used :
    (us : List Use) (c : RuntimeControl)
    → c.generation < 2 ^ 64
    → (used us c).generation ≡ (c.generation + bind_count us) % 2 ^ 64
unfolding used bind_count bind control_set_status
generation-used [] c h = omega arith
generation-used (binds b ∷ us) c h =
    generation-used us (bind c b) (omega arith) ∙ wraps c.generation (bind_count us)
generation-used (sets s ∷ us) c h = generation-used us (control_set_status s c) h
generation-used (unbinds n ∷ us) c h =
    let e = generation-unbind n c in
    generation-used us (unbind n c) (rw e h) ∙ ap (λ g. (g + bind_count us) % 2 ^ 64) e

-- Nothing answers any more, and the status is that of a stopped core.
abbrev pub Unavailable : RuntimeControl → Type 0
Unavailable c =
    (control_reconnect c ≡ some runtime_unavailable)
    × (control_reload c ≡ some runtime_unavailable)
    × (control_test_route c ≡ some runtime_unavailable)
    × (control_status c ≡ stopped_status)

unbind_current : (c : RuntimeControl) (n : ℕ) → c.generation ≡ n → Unavailable (unbind n c)
unfolding unbind control_reconnect control_reload control_test_route control_status
unbind_current c n e =
    let same : (c.generation == n) ≡ true = (==_iff c.generation n).1 e in
    rw same (refl, refl, refl, refl)

unbind_other : (c : RuntimeControl) (n : ℕ) → (c.generation ≡ n → ⊥) → unbind n c ≡ c
unfolding unbind
unbind_other c n h = elim (Bool-cases (c.generation == n)) [
  | inl same ↦ absurd (h ((==_iff c.generation n).0 same))
  | inr other ↦ rw other refl
]

zero_or_more : (n : ℕ) → (n ≡ 0) ⊎ (0 < n)
zero_or_more zero = inl refl
zero_or_more (suc n) = inr (omega arith)

-- A run binds a control. Then, in any order, fewer than 2^64 more runs bind it, statuses are set, and
-- functions that any binding returned are called. If nobody bound it again, the function that Bind returned ends it: every call gives ErrRuntimeUnavailable and the
-- status is stopped. If somebody did, it changes nothing: a run that ends late does not take the
-- bindings of its successor away.
pub unbind_after_bind :
    (c : RuntimeControl) (b : RuntimeBindings) (us : List Use)
    → bind_count us < 2 ^ 64
    → let generation = (bind c b).generation in
      let c' = used us (bind c b) in
      ((bind_count us ≡ 0) × Unavailable (unbind generation c'))
      ⊎ ((0 < bind_count us) × (unbind generation c' ≡ c'))
unbind_after_bind c b us h =
    let g = (bind c b).generation in
    let small : g < 2 ^ 64 = unfold bind in omega arith in
    let e = generation-used us (bind c b) small in
    elim (zero_or_more (bind_count us)) [
      | inl none_more ↦ inl (none_more, unbind_current (used us (bind c b)) g (omega arith))
      | inr more ↦ inr (more, unbind_other (used us (bind c b)) g (λ same. omega arith))
    ]
