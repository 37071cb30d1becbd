-- ===== src/Base/Text/Within.antt =====
-- A text found in two texts that a separator joins lies in one of them, where it has no separator.
use Prim.Native.Char.{Char, code}
use Prim.Native.String.{[], ◌∷◌, ◌++◌, String}
use mathlib.Core.Path.{◌≡◌, refl, ap, sym, ◌∙◌}
use mathlib.Core.Bool.{Bool, true, false, ◌&&◌, ◌||◌, not}
use mathlib.Core.Logic.{◌⊎◌, inl, inr}
use native.Mathlib.Omega.{arith}
use text.Mathlib.TextLemmas.{nil-append, cons-append}
use devdiag.Base.Tests.{◌==◌}
use devdiag.Base.Text.{recode, has_prefix, is_blank, map_text, to_lower}
use devdiag.Base.Text.Join.{lacks}
use devdiag.Base.Text.Split.{has_text}

has_prefix-blank : (s p : String) → is_blank p ≡ true → has_prefix s p ≡ true
unfolding has_prefix
has_prefix-blank [] [] h = refl
has_prefix-blank (c ∷ s) [] h = refl
has_prefix-blank s (d ∷ p) h = absurd (ground arith)

clash :
    (d e : Char) (x y : Bool)
    → (code d == code e && x) ≡ true
    → (not (code e == code d) && y) ≡ true
    → ⊥
clash d e x y h k = ground arith

and_left : (x y : Bool) → (x && y) ≡ true → x ≡ true
and_left x y h = ground arith

and_right : (x y : Bool) → (x && y) ≡ true → y ≡ true
and_right x y h = ground arith

both : (x y : Bool) → x ≡ true → y ≡ true → (x && y) ≡ true
both x y h k = ground arith

or_cases : (x y : Bool) → (x || y) ≡ true → (x ≡ true) ⊎ (y ≡ true)
or_cases true y h = inl refl
or_cases false y h = inr h

or_right : (x y : Bool) → y ≡ true → (x || y) ≡ true
or_right x y h = ground arith

prefix_before :
    (d : Char) (a b p : String)
    → lacks d p ≡ true
    → has_prefix (a ++ (d ∷ b)) p ≡ true
    → has_prefix a p ≡ true
unfolding lacks has_prefix
prefix_before d a b [] h k = has_prefix-blank a [] refl
prefix_before d [] b (e ∷ p) h k =
    absurd (clash d e _ _ (sym (ap (λ s. has_prefix s (e ∷ p)) (nil-append (d ∷ b))) ∙ k) h)
prefix_before d (c ∷ a) b (e ∷ p) h k =
    let there = sym (ap (λ s. has_prefix s (e ∷ p)) (cons-append c a (d ∷ b))) ∙ k in
    both _ _ (and_left _ _ there) (prefix_before d a b p (and_right _ _ h) (and_right _ _ there))

pub within_either :
    (d : Char) (a b p : String)
    → lacks d p ≡ true
    → has_text (a ++ (d ∷ b)) p ≡ true
    → (has_text a p ≡ true) ⊎ (has_text b p ≡ true)
unfolding has_text has_prefix lacks
within_either d [] b [] h k = inl refl
within_either d [] b (e ∷ p) h k =
    elim (or_cases (has_prefix (d ∷ b) (e ∷ p)) (has_text b (e ∷ p))
      (sym (ap (λ s. has_text s (e ∷ p)) (nil-append (d ∷ b))) ∙ k)) [
        | inl here ↦ absurd (clash d e (has_prefix b p) (lacks d p) here h)
        | inr there ↦ inr there
      ]
within_either d (c ∷ a) b p h k =
    elim (or_cases (has_prefix (c ∷ (a ++ (d ∷ b))) p) (has_text (a ++ (d ∷ b)) p)
      (sym (ap (λ s. has_text s p) (cons-append c a (d ∷ b))) ∙ k)) [
        | inl here ↦
            let front =
              prefix_before d (c ∷ a) b p h
                (ap (λ s. has_prefix s p) (cons-append c a (d ∷ b)) ∙ here) in
            inl (rw front refl)
        | inr there ↦ elim (within_either d a b p h there) [
          | inl left ↦ inl (or_right (has_prefix (c ∷ a) p) (has_text a p) left)
          | inr right ↦ inr right
        ]
      ]

map_text-append :
    (f : Char → Char) (s t : String) → map_text f (s ++ t) ≡ map_text f s ++ map_text f t
unfolding map_text
map_text-append f [] t = rw (nil-append t) (sym (nil-append (map_text f t)))
map_text-append f (c ∷ s) t =
    rw (cons-append c s t) (
      ap (◌∷◌ (f c)) (map_text-append f s t)
      ∙ sym (cons-append (f c) (map_text f s) (map_text f t)))

pub to_lower-append : (s t : String) → to_lower (s ++ t) ≡ to_lower s ++ to_lower t
unfolding to_lower
to_lower-append s t = map_text-append _ s t

to_lower-newline : (s : String) → to_lower ("\n" ++ s) ≡ "\n" ∷ to_lower s
unfolding to_lower map_text recode
to_lower-newline s = rw (cons-append "\n" [] s, nil-append s) refl

-- Two texts on lines of their own, in small letters.
pub to_lower-lines :
    (s t : String) → to_lower (s ++ ("\n" ++ t)) ≡ to_lower s ++ ("\n" ∷ to_lower t)
to_lower-lines s t = to_lower-append s ("\n" ++ t) ∙ ap (λ u. to_lower s ++ u) (to_lower-newline t)
