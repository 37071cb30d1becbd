-- ===== src/Base/Text/Order.antt =====
-- Go's `<` on strings is a strict total order.
use Prim.Native.Nat.{ℕ, Ordering}
use Prim.Native.Nat.{compare as compare_ℕ}
use Prim.Native.Char.{Char, code}
use Prim.Native.String.{[], ◌∷◌, String, then}
use Prim.Native.String.{compare as compare_text}
use Prim.Native.String.compare
use mathlib.Core.Path.{◌≡◌, refl, ap₂}
use mathlib.Core.Bool.{Bool, true, false, ◌&&◌, ◌||◌}
use native.Mathlib.Omega.{arith}
use text.Mathlib.Text.{is_lt}
use text.Mathlib.TextEquality.{Char-path}
use devdiag.Base.Tests.{ltb, ◌==◌}
use devdiag.Base.Sort.{StrictWeak}

unfoldable pub str_lt : String → String → Bool
str_lt s t = is_lt (compare_text s t)

is_lt-then :
    (c d : ℕ) (r : Ordering) → is_lt (then (compare_ℕ c d) r) ≡ (ltb c d || (c == d && is_lt r))
is_lt-then c d r = ground arith

lt-cons :
    (c d : Char) (s t : String)
    → str_lt (c ∷ s) (d ∷ t) ≡ (ltb (code c) (code d) || (code c == code d && str_lt s t))
unfolding str_lt
lt-cons c d s t = rw (compare.cons-cons c d s t) (is_lt-then (code c) (code d) (compare_text s t))

lt-nil : (c : Char) (s : String) → str_lt (c ∷ s) [] ≡ false
unfolding str_lt
lt-nil c s = rw (compare.cons-nil c s)

nil-lt : (c : Char) (s : String) → str_lt [] (c ∷ s) ≡ true
unfolding str_lt
nil-lt c s = rw (compare.nil-cons c s)

nil-nil : str_lt [] [] ≡ false
unfolding str_lt
nil-nil = refl

pub str_lt_asym : (s t : String) → str_lt s t ≡ true → str_lt t s ≡ false
str_lt_asym [] [] h = nil-nil
str_lt_asym [] (d ∷ t) h = lt-nil d t
str_lt_asym (c ∷ s) [] h = cc (lt-nil c s)
str_lt_asym (c ∷ s) (d ∷ t) h = ground (arith, lt-cons c d s t, lt-cons d c t s, str_lt_asym s t)

pub str_lt_neg_trans :
    (s t u : String) → str_lt t s ≡ false → str_lt u t ≡ false → str_lt u s ≡ false
str_lt_neg_trans [] t [] h k = nil-nil
str_lt_neg_trans [] t (e ∷ u) h k = lt-nil e u
str_lt_neg_trans (c ∷ s) [] u h k = cc (nil-lt c s)
str_lt_neg_trans (c ∷ s) (d ∷ t) [] h k = cc (nil-lt d t)
str_lt_neg_trans (c ∷ s) (d ∷ t) (e ∷ u) h k =
    ground (arith, lt-cons d c t s, lt-cons e d u t, lt-cons e c u s, str_lt_neg_trans s t u)

-- Texts neither of which is smaller are equal.
pub str_lt_total : (s t : String) → str_lt s t ≡ false → str_lt t s ≡ false → s ≡ t
str_lt_total [] [] h k = refl
str_lt_total [] (d ∷ t) h k = cc (nil-lt d t)
str_lt_total (c ∷ s) [] h k = cc (nil-lt c s)
str_lt_total (c ∷ s) (d ∷ t) h k =
    ap₂ ◌∷◌ (Char-path c d (ground (arith, lt-cons c d s t, lt-cons d c t s))) (
      str_lt_total s t (ground (arith, lt-cons c d s t, lt-cons d c t s))
        (ground (arith, lt-cons c d s t, lt-cons d c t s)))

pub str_lt-StrictWeak : StrictWeak str_lt
str_lt-StrictWeak = record { asym = str_lt_asym; neg_trans = str_lt_neg_trans }
