-- ===== src/Base/Text/Join.antt =====
-- Two texts joined by a separator that the second has not can be told apart again.
use Prim.Native.Char.{Char, code}
use Prim.Native.String.{[], ◌∷◌, ◌++◌, String}
use mathlib.Core.Path.{◌≡◌, refl, ap, ap₂, ◌∙◌, sym}
use mathlib.Core.Bool.{Bool, true, false, ◌&&◌, not}
use native.Mathlib.Omega.{arith}
use text.Mathlib.TextLemmas.{nil-append, cons-append, head-eq_of_cons-eq, tail-eq_of_cons-eq}
use devdiag.Base.Tests.{◌==◌}

unfoldable pub lacks : Char → String → Bool
lacks d [] = true
lacks d (c ∷ s) = not (code c == code d) && lacks d s

lacks-join : (d : Char) (a x : String) → lacks d (a ++ (d ∷ x)) ≡ false
unfolding lacks
lacks-join d [] x = rw (nil-append (d ∷ x)) (ground arith)
lacks-join d (c ∷ a) x = rw (cons-append c a (d ∷ x)) (ground (arith, lacks-join d a x))

pub join_inj :
    (d : Char) (a b x y : String)
    → lacks d x ≡ true
    → lacks d y ≡ true
    → a ++ (d ∷ x) ≡ b ++ (d ∷ y)
    → (a ≡ b) × (x ≡ y)
unfolding lacks
join_inj d [] [] x y h k e =
    (refl, tail-eq_of_cons-eq (sym (nil-append (d ∷ x)) ∙ e ∙ nil-append (d ∷ y)))
join_inj d [] (c ∷ b) x y h k e =
    let p = tail-eq_of_cons-eq (sym (nil-append (d ∷ x)) ∙ e ∙ cons-append c b (d ∷ y)) in
    absurd (clash (lacks-join d b y) p)
  where
    clash : lacks d (b ++ (d ∷ y)) ≡ false → x ≡ b ++ (d ∷ y) → ⊥
    clash l p = cc (ap (lacks d) p)
join_inj d (c ∷ a) [] x y h k e =
    let p = tail-eq_of_cons-eq (sym (cons-append c a (d ∷ x)) ∙ e ∙ nil-append (d ∷ y)) in
    absurd (clash (lacks-join d a x) p)
  where
    clash : lacks d (a ++ (d ∷ x)) ≡ false → a ++ (d ∷ x) ≡ y → ⊥
    clash l p = cc (ap (lacks d) p)
join_inj d (c ∷ a) (c' ∷ b) x y h k e =
    let p = sym (cons-append c a (d ∷ x)) ∙ e ∙ cons-append c' b (d ∷ y) in
    let (same, rest) = join_inj d a b x y h k (tail-eq_of_cons-eq p) in
    (ap₂ ◌∷◌ (head-eq_of_cons-eq p) same, rest)

join-cons : (d : Char) (a x : String) → a ++ ((d ∷ []) ++ x) ≡ a ++ (d ∷ x)
join-cons d a x = ap (λ t. a ++ t) (cons-append d [] x ∙ ap (λ t. d ∷ t) (nil-append x))

-- The same, as the texts are joined in the program.
pub join_sep_inj :
    (d : Char) (a b x y : String)
    → lacks d x ≡ true
    → lacks d y ≡ true
    → a ++ ((d ∷ []) ++ x) ≡ b ++ ((d ∷ []) ++ y)
    → (a ≡ b) × (x ≡ y)
join_sep_inj d a b x y h k e = join_inj d a b x y h k (sym (join-cons d a x) ∙ e ∙ join-cons d b y)
