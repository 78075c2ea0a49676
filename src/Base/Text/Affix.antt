-- ===== src/Base/Text/Affix.antt =====
-- Prefixes and suffixes of texts.
use mathlib.Core.List.{reverse-append, reverse-reverse, reverse-cons, map-append}
use mathlib.Core.Path.{◌≡◌, refl, ap, sym, ◌∙◌}
use mathlib.Core.Logic.{◌↔◌, inl, inr}
use mathlib.Core.Bool.{true}
use mathlib.Core.Option.{Option, none, some}
use mathlib.Core.List.{[], ◌∷◌, ◌++◌, reverse}
use native.Mathlib.Omega.{arith}
use bigducks_live.Base.Tests.{Option-cases}
use bigducks_live.Base.Text.{
  Text, codes, lower, to_lower, strip_prefix, reversed_or, has_prefix, has_suffix, trim_suffix,
}

pub strip_prefix_sound : (p s r : Text) → strip_prefix p s ≡ some r → s ≡ p ++ r
unfolding strip_prefix
strip_prefix_sound [] s r h = ground arith
strip_prefix_sound (a ∷ p) [] r h = cc
strip_prefix_sound (a ∷ p) (c ∷ s) r h = ground (arith, strip_prefix_sound p s r)

pub strip_prefix-append : (p r : Text) → strip_prefix p (p ++ r) ≡ some r
unfolding strip_prefix
strip_prefix-append [] r = refl
strip_prefix-append (a ∷ p) r = ground (arith, strip_prefix-append p r)

pub has_prefix_iff : (s p : Text) → (has_prefix s p ≡ true) ↔ ((r : Text) × (s ≡ p ++ r))
unfolding has_prefix
has_prefix_iff s p = (
  (λ h. elim (Option-cases (strip_prefix p s)) [
    | inl e ↦ absurd (ground arith)
    | inr (r, e) ↦ (r, strip_prefix_sound p s r e)
  ]),
  λ (r, e). rw (e, strip_prefix-append p r),
)

-- A text ends in another exactly if it is some text followed by that.
pub has_suffix_iff : (s t : Text) → (has_suffix s t ≡ true) ↔ ((front : Text) × (s ≡ front ++ t))
unfolding has_suffix
has_suffix_iff s t = (
  (λ h.
      let (r, e) = (has_prefix_iff (reverse s) (reverse t)).0 h in
      (
        reverse r,
        sym (reverse-reverse s)
            ∙ ap reverse e
            ∙ reverse-append (reverse t) r
            ∙ ap (λ x. reverse r ++ x) (reverse-reverse t),
      )),
  λ (front, e).
      (has_prefix_iff (reverse s) (reverse t)).1
        (reverse front, ap reverse e ∙ reverse-append front t),
)

to_lower-reverse : (s : Text) → to_lower (reverse s) ≡ reverse (to_lower s)
unfolding to_lower
to_lower-reverse [] = refl
to_lower-reverse (c ∷ s) =
    ap to_lower (reverse-cons c s)
    ∙ map-append lower (reverse s) (c ∷ [])
    ∙ ap (λ x. x ++ lower c ∷ []) (to_lower-reverse s)
    ∙ sym (reverse-cons (lower c) (to_lower s))

abbrev dot : Text
dot = b'.' ∷ []

abbrev lower_rest : Option Text → Option Text
lower_rest none = none
lower_rest (some r) = some (to_lower r)

strip_dot-to_lower : (s : Text) → strip_prefix dot (to_lower s) ≡ lower_rest (strip_prefix dot s)
unfolding strip_prefix to_lower
strip_dot-to_lower [] = refl
strip_dot-to_lower (c ∷ s) = ground arith

to_lower-reversed_or :
    (s : Text) (o : Option Text)
    → to_lower (reversed_or s o) ≡ reversed_or (to_lower s) (lower_rest o)
to_lower-reversed_or s none = refl
to_lower-reversed_or s (some r) = to_lower-reverse r

-- Lowering the case and dropping a last dot can change places.
pub to_lower-trim_suffix :
    (s : Text) → to_lower (trim_suffix s (codes ".")) ≡ trim_suffix (to_lower s) (codes ".")
unfolding trim_suffix
to_lower-trim_suffix s =
    to_lower-reversed_or s (strip_prefix dot (reverse s))
    ∙ ap (reversed_or (to_lower s))
        (sym (strip_dot-to_lower (reverse s)) ∙ ap (strip_prefix dot) (to_lower-reverse s))
