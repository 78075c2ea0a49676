-- ===== src/Effects/Logic.antt =====
-- A program logic for Effects: what holds when a program returns, when it fails, and at whatever
-- point the machine stops.
use bigducks_live.Base.{◌≡◌, ◌⊎◌, inl, inr, ℕ, List, [], ◌∷◌, none, some}
use bigducks_live.Errors.{Error, Result, ok, err}
use bigducks_live.Effects.{
  Fault, works, fails, stops, Outcome, done, failed, stopped, Machine, M, pure, fail, continue,
  ◌>>=◌, ◌>>◌, attempt, caught, ignore, or_cleanup, after_cleanup, act, act_cut, met, acted,
}

abbrev pub Meets :
    {S A : Type 0} → (A → S → Type 0) → (S → Type 0) → (S → Type 0) → Outcome A × Machine S → Type 0
Meets Q E C (done a, s) = Q a s.state
Meets Q E C (failed e, s) = E s.state
Meets Q E C (stopped, s) = C s.state

-- From a state with `P`, whatever faults it meets: a result leaves `Q`, an error `E`, a stop `C`.
pub record Triple {S A : Type 0} (P : S → Type 0) (m : M S A) (Q : A → S → Type 0)
    (E C : S → Type 0) : Type 0 where
  pub run : (s : Machine S) → P s.state → Meets Q E C (m s)

module _ {S : Type 0} {E C : S → Type 0} where
  pub pure-Triple :
      {A : Type 0} {P : S → Type 0} {Q : A → S → Type 0} (a : A)
      → ((x : S) → P x → Q a x)
      → Triple P (pure a) Q E C
  pure-Triple a h = record { run = λ s p. h s.state p }

  pub fail-Triple :
      {A : Type 0} {P : S → Type 0} {Q : A → S → Type 0} (e : Error)
      → ((x : S) → P x → E x)
      → Triple P (fail e) Q E C
  fail-Triple e h = record { run = λ s p. h s.state p }

  -- The first part meets its own midcondition, from which the rest starts.
  pub bind-Triple :
      {A B : Type 0} {P : S → Type 0} {m : M S A} {f : A → M S B} {Q : A → S → Type 0}
      {R : B → S → Type 0}
      → Triple P m Q E C
      → ((a : A) → Triple (Q a) (f a) R E C)
      → Triple P (m >>= f) R E C
  bind-Triple {m} {f} {Q} {R} first rest = record { run = λ s p. next (m s) (first.run s p) }
    where
      next : (r : _) → Meets Q E C r → Meets R E C (continue r f)
      next (done a, s) h = (rest a).run s h
      next (failed e, s) h = h
      next (stopped, s) h = h

  pub then-Triple :
      {B : Type 0} {P : S → Type 0} {m : M S (Unit {0})} {k : M S B} {Q : S → Type 0}
      {R : B → S → Type 0}
      → Triple P m (λ _. Q) E C
      → Triple Q k R E C
      → Triple P (m >> k) R E C
  then-Triple first rest = bind-Triple first (λ _. rest)

  -- A stronger precondition and a weaker postcondition will do.
  pub weaken-Triple :
      {A : Type 0} {P P' : S → Type 0} {m : M S A} {Q Q' : A → S → Type 0}
      → ((x : S) → P' x → P x)
      → ((a : A) (x : S) → Q a x → Q' a x)
      → Triple P m Q E C
      → Triple P' m Q' E C
  weaken-Triple {m} {Q} {Q'} before after t = record {
    run = λ s p. keep (m s) (t.run s (before s.state p));
  }
    where
      keep : (r : _) → Meets Q E C r → Meets Q' E C r
      keep (done a, s) h = after a s.state h
      keep (failed e, s) h = h
      keep (stopped, s) h = h

  pub act_cut-Triple :
      {A : Type 0} {P : S → Type 0} {Q : A → S → Type 0} (op : S → Result A × S) (half : ℕ → S → S)
      → ((x : S) → P x → Meets Q E C (acted (op x) []))
      → ((x : S) → P x → E x × C x × ((n : ℕ) → E (half n x) × C (half n x)))
      → Triple P (act_cut op half) Q E C
  unfolding act_cut
  act_cut-Triple {Q} op half works_well cut = record {
    run = λ s p. go s.faults s.state (works_well s.state p) (cut s.state p);
  }
    where
      finished : (r : _) (fs : List Fault) → Meets Q E C (acted r []) → Meets Q E C (acted r fs)
      finished (ok a, x) fs h = h
      finished (err e, x) fs h = h

      go :
          (fs : List Fault) (x : S)
          → Meets Q E C (acted (op x) [])
          → E x × C x × ((n : ℕ) → E (half n x) × C (half n x))
          → Meets Q E C (met op half x fs)
      go [] x w c = w
      go (works ∷ fs) x w c = finished (op x) fs w
      go (fails e none ∷ fs) x w c = c.0
      go (fails e (some n) ∷ fs) x w c = (c.2 n).0
      go (stops none ∷ fs) x w c = c.1
      go (stops (some n) ∷ fs) x w c = (c.2 n).1

  pub act-Triple :
      {A : Type 0} {P : S → Type 0} {Q : A → S → Type 0} (op : S → Result A × S) (half : S → S)
      → ((x : S) → P x → Meets Q E C (acted (op x) []))
      → ((x : S) → P x → E x × E (half x) × C x × C (half x))
      → Triple P (act op half) Q E C
  unfolding act act_cut
  act-Triple {Q} op half works_well cut =
      act_cut-Triple {Q = Q} op (λ n. half) works_well
        λ x p. let (e, e', c, c') = cut x p in (e, c, λ n. (e', c'))

-- A caught error is a value; what it leaves is a postcondition.
abbrev pub Caught : {S A : Type 0} → (A → S → Type 0) → (S → Type 0) → Result A → S → Type 0
Caught Q E (ok a) = Q a
Caught Q E (err e) = E

module _ {S : Type 0} {C : S → Type 0} where
  pub attempt-Triple :
      {A : Type 0} {P E E' : S → Type 0} {m : M S A} {Q : A → S → Type 0}
      → Triple P m Q E C
      → Triple P (attempt m) (Caught Q E) E' C
  unfolding attempt
  attempt-Triple {E} {E'} {m} {Q} t = record { run = λ s p. keep (m s) (t.run s p) }
    where
      keep : (r : _) → Meets Q E C r → Meets (Caught Q E) E' C (caught r)
      keep (done a, s) h = h
      keep (failed e, s) h = h
      keep (stopped, s) h = h

  pub ignore-Triple :
      {A : Type 0} {P E E' R : S → Type 0} {m : M S A} {Q : A → S → Type 0}
      → Triple P m Q E C
      → ((a : A) (x : S) → Q a x → R x)
      → ((x : S) → E x → R x)
      → Triple P (ignore m) (λ _. R) E' C
  unfolding ignore
  ignore-Triple {E} {R} {Q} t good bad =
      bind-Triple (attempt-Triple t) λ r. record { run = λ s h. either r s.state h }
    where
      either : (r : _) (x : S) → Caught Q E r x → R x
      either (ok a) x h = good a x h
      either (err e) x h = bad x h

  -- After an error the cleanup starts from what the error left.
  pub or_cleanup-Triple :
      {A : Type 0} {P E E' : S → Type 0} {m : M S A} {cleanup : M S (Unit {0})} {Q : A → S → Type 0}
      → Triple P m Q E C
      → Triple E cleanup (λ _. E') E' C
      → Triple P (or_cleanup m cleanup) Q E' C
  unfolding or_cleanup
  or_cleanup-Triple {E} {E'} {cleanup} {Q} t c = bind-Triple (attempt-Triple t) settled
    where
      settled : (r : _) → Triple (Caught Q E r) (after_cleanup cleanup r) Q E' C
      settled (ok a) = pure-Triple a (λ x h. h)
      settled (err e) = then-Triple c (fail-Triple e (λ x h. h))

module _ {S : Type 0} {E C : S → Type 0} where
  pub or-Triple :
      {A : Type 0} {P P' : S → Type 0} {m : M S A} {Q : A → S → Type 0}
      → Triple P m Q E C
      → Triple P' m Q E C
      → Triple (λ x. P x ⊎ P' x) m Q E C
  or-Triple {P} {P'} {m} {Q} t u = record { run = λ s. either s }
    where
      either : (s : Machine S) → P s.state ⊎ P' s.state → Meets Q E C (m s)
      either s (inl p) = t.run s p
      either s (inr p) = u.run s p

-- What an error or a stop leaves may be said more weakly.
pub widen-Triple :
    {S A : Type 0} {P E E' C C' : S → Type 0} {m : M S A} {Q : A → S → Type 0}
    → ((x : S) → E x → E' x)
    → ((x : S) → C x → C' x)
    → Triple P m Q E C
    → Triple P m Q E' C'
widen-Triple {E} {E'} {C} {C'} {m} {Q} on_error on_stop t = record {
  run = λ s p. keep (m s) (t.run s p);
}
  where
    keep : (r : _) → Meets Q E C r → Meets Q E' C' r
    keep (done a, s) h = h
    keep (failed e, s) h = on_error s.state h
    keep (stopped, s) h = on_stop s.state h

-- A value that is known by an equation in the precondition.
pub known-Triple :
    {S A B : Type 0} {P E C : S → Type 0} {Q : A → S → Type 0} (f : B → M S A) (b b' : B)
    → Triple P (f b) Q E C
    → Triple (λ x. P x × (b' ≡ b)) (f b') Q E C
known-Triple f b b' t = record { run = λ s (p, e). rw e (t.run s p) }

-- A fact that the precondition gives, whatever the state.
pub fact-Triple :
    {S A F : Type 0} {P E C : S → Type 0} {m : M S A} {Q : A → S → Type 0}
    → ((x : S) → P x → F)
    → (F → Triple P m Q E C)
    → Triple P m Q E C
fact-Triple fact t = record { run = λ s p. (t (fact s.state p)).run s p }

-- What holds after a run that is known to return.
pub done-Meets :
    {S A : Type 0} (Q : A → S → Type 0) (E C : S → Type 0) (a : A) (r : Outcome A × Machine S)
    → Meets Q E C r
    → r.0 ≡ done a
    → Q a r.1.state
done-Meets Q E C a (done b, s) h e = let same : b ≡ a = cc e in rw (← same) h
done-Meets Q E C a (failed b, s) h e = cc
done-Meets Q E C a (stopped, s) h e = cc
