-- ===== src/Effects.antt =====
-- Programs that act on the outside world: files, the registry. A run meets a list of faults, one for
-- each action: it works, it fails with an error, or the machine stops there. A failure and a stop may
-- leave an action half done, by a number that says how far it got. An error ends a chain of actions
-- unless the program catches it; a stop ends it in any case.
pub mod Logic
use bigducks_live.Base.{ℕ, List, [], ◌∷◌, Option, none, some}
use bigducks_live.Errors.{Error, Result, ok, err}

pub data Fault : Type 0 where
  works : Fault
  fails : Error → Option ℕ → Fault
  stops : Option ℕ → Fault

pub data Outcome (A : Type 0) : Type 0 where
  done : A → Outcome A
  failed : Error → Outcome A
  stopped : Outcome A

pub record Machine (S : Type 0) : Type 0 where
  pub state : S
  pub faults : List Fault

abbrev pub M : Type 0 → Type 0 → Type 0
M S A = Machine S → Outcome A × Machine S

abbrev pub pure : {S A : Type 0} → A → M S A
pure a s = (done a, s)

abbrev pub fail : {S A : Type 0} → Error → M S A
fail e s = (failed e, s)

abbrev pub continue : {S A B : Type 0} → Outcome A × Machine S → (A → M S B) → Outcome B × Machine S
continue (done a, s) f = f a s
continue (failed e, s) f = (failed e, s)
continue (stopped, s) f = (stopped, s)

infixl 5 ◌>>=◌ ◌>>◌
abbrev pub ◌>>=◌ : {S A B : Type 0} → M S A → (A → M S B) → M S B
◌>>=◌ m f s = continue (m s) f

abbrev pub ◌>>◌ : {S B : Type 0} → M S (Unit {0}) → M S B → M S B
m >> k = m >>= λ _. k

-- `m`, whose error becomes a value.
abbrev pub caught : {S A : Type 0} → Outcome A × Machine S → Outcome (Result A) × Machine S
caught (done a, s) = (done (ok a), s)
caught (failed e, s) = (done (err e), s)
caught (stopped, s) = (stopped, s)

unfoldable pub attempt : {S A : Type 0} → M S A → M S (Result A)
attempt m s = caught (m s)

-- `_ = m`
unfoldable pub ignore : {S A : Type 0} → M S A → M S (Unit {0})
unfolding attempt
ignore m = attempt m >>= λ _. pure tt

-- `if err := m; err != nil { cleanup; return err }`
abbrev pub after_cleanup : {S A : Type 0} → M S (Unit {0}) → Result A → M S A
after_cleanup cleanup (ok a) = pure a
after_cleanup cleanup (err e) = cleanup >> fail e

unfoldable pub or_cleanup : {S A : Type 0} → M S A → M S (Unit {0}) → M S A
unfolding attempt
or_cleanup m cleanup = attempt m >>= after_cleanup cleanup

-- One action: what it does to the state, and what it leaves behind if it is cut short.
abbrev pub acted : {S A : Type 0} → Result A × S → List Fault → Outcome A × Machine S
acted (ok a, x) fs = (done a, record { state = x; faults = fs })
acted (err e, x) fs = (failed e, record { state = x; faults = fs })

abbrev pub cut_short : {S : Type 0} → (ℕ → S → S) → Option ℕ → S → S
cut_short half none x = x
cut_short half (some n) x = half n x

abbrev pub met :
    {S A : Type 0} → (S → Result A × S) → (ℕ → S → S) → S → List Fault → Outcome A × Machine S
met op half x [] = acted (op x) []
met op half x (works ∷ fs) = acted (op x) fs
met op half x (fails e b ∷ fs) = (failed e, record { state = cut_short half b x; faults = fs })
met op half x (stops b ∷ fs) = (stopped, record { state = cut_short half b x; faults = fs })

unfoldable pub act : {S A : Type 0} → (S → Result A × S) → (S → S) → M S A
act op half s = met op (λ n. half) s.state s.faults

-- The same, where the action may be cut short at several points.
unfoldable pub act_cut : {S A : Type 0} → (S → Result A × S) → (ℕ → S → S) → M S A
act_cut op half s = met op half s.state s.faults
