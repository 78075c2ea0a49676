-- ===== src/Base/Sort.antt =====
-- Insertion sort by a Boolean order, which stands for sort.Slice and sort.Strings (which may order
-- values differently that are equal in the order), and what the first of a sorted list are.
use Prim.Native.Nat.{ℕ, zero, suc}
use mathlib.Core.Path.{◌≡◌, refl}
use mathlib.Core.Logic.{◌↔◌, ◌⊎◌, inl, inr}
use mathlib.Core.Bool.{Bool, true, false, ◌&&◌, ◌||◌}
use mathlib.Core.List.{List, [], ◌∷◌}
use native.Mathlib.Omega.{arith}
use bigducks_live.Base.Int.{ℤ, pos, negsuc}
use bigducks_live.Base.Tests.{ltb, ◌==◌, if◌then◌else◌, Bool-cases}
use bigducks_live.Base.Lists.{length, take, All, Elem}
use bigducks_live.Base.Text.{Text}

module _ {A : Type 0} (le : A → A → Bool) where
  unfoldable pub insert : A → List A → List A
  insert x [] = x ∷ []
  insert x (y ∷ ys) = if le x y then x ∷ y ∷ ys else y ∷ insert x ys

  unfoldable pub sort : List A → List A
  unfolding insert
  sort [] = []
  sort (x ∷ xs) = insert x (sort xs)

  -- Every value comes before those behind it.
  abbrev pub IsSorted : List A → Type 0
  IsSorted [] = Unit
  IsSorted (x ∷ xs) = All (λ y. le x y ≡ true) xs × IsSorted xs

  Elem-insert : (z x : A) (ys : List A) → Elem z (insert x ys) ↔ ((z ≡ x) ⊎ Elem z ys)
  unfolding insert
  Elem-insert z x [] = ((λ h. h), λ h. h)
  Elem-insert z x (y ∷ ys) = elim (Bool-cases (le x y)) [
    | inl first ↦ rw first ((λ h. h), λ h. h)
    | inr later ↦ rw later (
      (λ h. elim h [
        | inl e ↦ inr (inl e)
        | inr m ↦ elim ((Elem-insert z x ys).0 m) [ inl e ↦ inl e | inr k ↦ inr (inr k) ]
      ]),
      λ h. elim h [
        | inl e ↦ inr ((Elem-insert z x ys).1 (inl e))
        | inr m ↦ elim m [ inl e ↦ inl e | inr k ↦ inr ((Elem-insert z x ys).1 (inr k)) ]
      ],
    )
  ]

  pub Elem-sort : (z : A) (xs : List A) → Elem z (sort xs) ↔ Elem z xs
  unfolding sort
  Elem-sort z [] = ((λ h. h), λ h. h)
  Elem-sort z (x ∷ xs) =
      let there = Elem-insert z x (sort xs) in
      let rest = Elem-sort z xs in
      (
        (λ h. elim (there.0 h) [ inl e ↦ inl e | inr m ↦ inr (rest.0 m) ]),
        λ h. there.1 (elim h [ inl e ↦ inl e | inr m ↦ inr (rest.1 m) ]),
      )

  module _ (total : (x y : A) → le x y ≡ false → le y x ≡ true)
      (trans : (x y z : A) → le x y ≡ true → le y z ≡ true → le x z ≡ true) where
    All-insert :
        (z x : A) (ys : List A)
        → le z x ≡ true
        → All (λ y. le z y ≡ true) ys
        → All (λ y. le z y ≡ true) (insert x ys)
    unfolding insert
    All-insert z x [] h k = (h, tt)
    All-insert z x (y ∷ ys) h k = elim (Bool-cases (le x y)) [
      | inl first ↦ rw first (h, (k.0, k.1))
      | inr later ↦ rw later (k.0, All-insert z x ys h k.1)
    ]

    weaken :
        (x y : A) (ys : List A)
        → le x y ≡ true
        → All (λ z. le y z ≡ true) ys
        → All (λ z. le x z ≡ true) ys
    weaken x y [] h k = tt
    weaken x y (z ∷ zs) h k = (trans x y z h k.0, weaken x y zs h k.1)

    insert-IsSorted : (x : A) (ys : List A) → IsSorted ys → IsSorted (insert x ys)
    unfolding insert
    insert-IsSorted x [] s = (tt, tt)
    insert-IsSorted x (y ∷ ys) s = elim (Bool-cases (le x y)) [
      | inl first ↦ rw first ((first, weaken x y ys first s.0), s)
      | inr later ↦ rw later (All-insert y x ys (total x y later) s.0, insert-IsSorted x ys s.1)
    ]

    pub sort-IsSorted : (xs : List A) → IsSorted (sort xs)
    unfolding sort
    sort-IsSorted [] = tt
    sort-IsSorted (x ∷ xs) = insert-IsSorted x (sort xs) (sort-IsSorted xs)

  pub Elem-All : (x z : A) (ys : List A) → All (λ y. le x y ≡ true) ys → Elem z ys → le x z ≡ true
  Elem-All x z [] h m = elim m [ ]
  Elem-All x z (y ∷ ys) h (inl e) = rw e h.0
  Elem-All x z (y ∷ ys) h (inr m) = Elem-All x z ys h.1 m

  All-take : (P : A → Type 0) (n : ℕ) (ys : List A) → All P ys → All P (take n ys)
  All-take P zero ys h = tt
  All-take P (suc n) [] h = tt
  All-take P (suc n) (y ∷ ys) h = (h.0, All-take P n ys h.1)

  pub take-IsSorted : (n : ℕ) (xs : List A) → IsSorted xs → IsSorted (take n xs)
  take-IsSorted zero xs s = tt
  take-IsSorted (suc n) [] s = tt
  take-IsSorted (suc n) (x ∷ xs) s = (All-take _ n xs s.0, take-IsSorted n xs s.1)

  pub Elem-take : (z : A) (n : ℕ) (xs : List A) → Elem z (take n xs) → Elem z xs
  Elem-take z zero xs m = elim m [ ]
  Elem-take z (suc n) [] m = elim m [ ]
  Elem-take z (suc n) (x ∷ xs) (inl e) = inl e
  Elem-take z (suc n) (x ∷ xs) (inr m) = inr (Elem-take z n xs m)

  -- What is left out of the first `n` comes after all of them, and they are `n`.
  pub take-first :
      (z : A) (n : ℕ) (xs : List A)
      → IsSorted xs
      → Elem z xs
      → Elem z (take n xs) ⊎ ((length (take n xs) ≡ n) × All (λ y. le y z ≡ true) (take n xs))
  take-first z zero xs s m = inr (refl, tt)
  take-first z (suc n) [] s m = elim m [ ]
  take-first z (suc n) (x ∷ xs) s (inl e) = inl (inl e)
  take-first z (suc n) (x ∷ xs) s (inr m) = elim (take-first z n xs s.1 m) [
    | inl k ↦ inl (inr k)
    | inr (full, before) ↦ inr (omega (arith, full), (Elem-All x z xs s.0 m, before))
  ]

-- The order of Go's strings, by their bytes.
unfoldable pub text_le : Text → Text → Bool
text_le [] t = true
text_le (a ∷ s) [] = false
text_le (a ∷ s) (b ∷ t) = ltb a b || (a == b && text_le s t)

pub text_le_total : (s t : Text) → text_le s t ≡ false → text_le t s ≡ true
unfolding text_le
text_le_total [] t h = cc
text_le_total (a ∷ s) [] h = refl
text_le_total (a ∷ s) (b ∷ t) h = ground (arith, text_le_total s t)

pub text_le_trans : (s t u : Text) → text_le s t ≡ true → text_le t u ≡ true → text_le s u ≡ true
unfolding text_le
text_le_trans [] t u h k = refl
text_le_trans (a ∷ s) [] u h k = cc
text_le_trans (a ∷ s) (b ∷ t) [] h k = cc
text_le_trans (a ∷ s) (b ∷ t) (c ∷ u) h k = ground (arith, text_le_trans s t u)

-- By a number first, then by a text.
abbrev pub by_number_le : ℕ → Text → ℕ → Text → Bool
by_number_le m s n t = if m == n then text_le s t else ltb m n

pub by_number_le_total :
    (m n : ℕ) (s t : Text) → by_number_le m s n t ≡ false → by_number_le n t m s ≡ true
by_number_le_total m n s t h = ground (arith, text_le_total s t)

pub by_number_le_trans :
    (k m n : ℕ) (s t u : Text)
    → by_number_le k s m t ≡ true
    → by_number_le m t n u ≡ true
    → by_number_le k s n u ≡ true
by_number_le_trans k m n s t u g h = ground (arith, text_le_trans s t u)

-- The same by an integer first.
abbrev pub by_int_le : ℤ → Text → ℤ → Text → Bool
by_int_le (pos a) s (pos b) t = by_number_le a s b t
by_int_le (pos a) s (negsuc b) t = false
by_int_le (negsuc a) s (pos b) t = true
by_int_le (negsuc a) s (negsuc b) t = by_number_le b s a t

pub by_int_le_total : (a b : ℤ) (s t : Text) → by_int_le a s b t ≡ false → by_int_le b t a s ≡ true
by_int_le_total (pos a) (pos b) s t h = by_number_le_total a b s t h
by_int_le_total (pos a) (negsuc b) s t h = refl
by_int_le_total (negsuc a) (pos b) s t h = cc
by_int_le_total (negsuc a) (negsuc b) s t h = by_number_le_total b a s t h

below_zero_le_trans :
    (k m n : ℕ) (s t u : Text)
    → by_number_le m s k t ≡ true
    → by_number_le n t m u ≡ true
    → by_number_le n s k u ≡ true
below_zero_le_trans k m n s t u g h = ground (arith, text_le_trans s t u)

pub by_int_le_trans :
    (a b c : ℤ) (s t u : Text)
    → by_int_le a s b t ≡ true
    → by_int_le b t c u ≡ true
    → by_int_le a s c u ≡ true
by_int_le_trans (pos a) (pos b) (pos c) s t u g h = by_number_le_trans a b c s t u g h
by_int_le_trans (pos a) (pos b) (negsuc c) s t u g h = h
by_int_le_trans (pos a) (negsuc b) c s t u g h = cc
by_int_le_trans (negsuc a) b (pos c) s t u g h = refl
by_int_le_trans (negsuc a) (pos b) (negsuc c) s t u g h = cc
by_int_le_trans (negsuc a) (negsuc b) (negsuc c) s t u g h = below_zero_le_trans a b c s t u g h
