-- ===== src/Update/Apply/Rules.antt =====
-- The actions of internal/update/apply.go on its files, in the logic of Effects.
use bigducks_live.Base.{◌≡◌, refl, Option, none, some, []}
use bigducks_live.Base.Text.{Text}
use bigducks_live.Effects.{acted, ignore}
use bigducks_live.Effects.Logic.{Triple, Meets, act-Triple, ignore-Triple}
use bigducks_live.Update.Apply.{
  Place, Files, at_place, put, contents, read_file, pass, replaced, replace, removed, remove,
}

module _ {P E C : Files → Type 0} where
  pub read-Triple :
      (p : Place) {Q : Text → Files → Type 0}
      → ((x : Files) (bytes : Text) → P x → at_place p x ≡ some bytes → Q bytes x)
      → ((x : Files) → P x → E x × C x)
      → Triple P (read_file p) Q E C
  unfolding read_file
  read-Triple p {Q} good cut =
      act-Triple _ _ (λ x h. found x (at_place p x) (λ bytes. good x bytes h) (cut x h).0)
        λ x h. let (e, c) = cut x h in (e, e, c, c)
    where
      found :
          (x : Files) (b : Option Text)
          → ((bytes : Text) → b ≡ some bytes → Q bytes x)
          → E x
          → Meets Q E C (acted (contents b, x) [])
      found x none good e = e
      found x (some bytes) good e = good bytes refl

  pub pass-Triple : ((x : Files) → P x → E x × C x) → Triple P pass (λ _. P) E C
  unfolding pass
  pass-Triple cut = act-Triple _ _ (λ x h. h) λ x h. let (e, c) = cut x h in (e, e, c, c)

  pub replace-Triple :
      (p q : Place) {Q : Files → Type 0}
      → ((x : Files)
          → P x
          → (bytes : Text) × (at_place p x ≡ some bytes) × Q (put p none (put q (some bytes) x)))
      → ((x : Files) → P x → E x × C x)
      → Triple P (replace p q) (λ _. Q) E C
  unfolding replace
  replace-Triple p q {Q} good cut =
      act-Triple _ _ (λ x h. let (b, there, h') = good x h in moved b x (at_place p x) there h')
        λ x h. let (e, c) = cut x h in (e, e, c, c)
    where
      moved :
          (b : Text) (x : Files) (a : Option Text)
          → a ≡ some b
          → Q (put p none (put q (some b) x))
          → Meets (λ _. Q) E C (acted (replaced p q a x) [])
      moved b x none e h = cc
      moved b x (some d) e h = let same_bytes : b ≡ d = cc e in rw (← same_bytes) h

  -- A removal whose error does not matter.
  pub discard-Triple :
      (p : Place) {Q : Files → Type 0}
      → ((x : Files) → P x → Q x × Q (put p none x) × C x)
      → Triple P (ignore (remove p)) (λ _. Q) E C
  unfolding remove
  discard-Triple p {Q} keeps =
      ignore-Triple {E = Q} {Q = λ _. Q}
        (act-Triple _ _ (λ x h. gone x (at_place p x) (keeps x h).0 (keeps x h).1)
          λ x h. let (q, _, c) = keeps x h in (q, q, c, c))
        (λ _ x h. h) (λ x h. h)
    where
      gone :
          (x : Files) (a : Option Text)
          → Q x
          → Q (put p none x)
          → Meets (λ _. Q) Q C (acted (removed p a x) [])
      gone x none q q' = q
      gone x (some b) q q' = q'
