-- ===== src/Base/Text/Trim.antt =====
-- Trimming and capitals, as far as blanks go.
use Prim.Native.Char.{Char}
use Prim.Native.String.{[], ◌∷◌, String}
use mathlib.Core.Path.{◌≡◌, refl, ◌∙◌}
use mathlib.Core.Bool.{Bool, true, ◌&&◌, not}
use native.Mathlib.Omega.{arith}
use devdiag.Base.Text.{
  is_blank, is_space, recode, map_text, to_upper, trim_left, trim_right, trim_space,
}

pub all_space : String → Bool
all_space [] = true
all_space (c ∷ s) = is_space c && all_space s

unfoldable pub no_space : String → Bool
no_space [] = true
no_space (c ∷ s) = not (is_space c) && no_space s

all_space-trim_left : (s : String) → all_space (trim_left s) ≡ all_space s
unfolding all_space trim_left
all_space-trim_left [] = refl
all_space-trim_left (c ∷ s) = ground (arith, all_space-trim_left s)

is_blank-trim_right : (s : String) → is_blank (trim_right s) ≡ all_space s
unfolding all_space trim_right
is_blank-trim_right [] = refl
is_blank-trim_right (c ∷ s) = ground (arith, is_blank-trim_right s)

all_space-trim_right : (s : String) → all_space (trim_right s) ≡ all_space s
unfolding all_space trim_right
all_space-trim_right [] = refl
all_space-trim_right (c ∷ s) = ground (arith, all_space-trim_right s, is_blank-trim_right s)

pub is_blank-trim_space : (s : String) → is_blank (trim_space s) ≡ all_space s
unfolding trim_space
is_blank-trim_space s = is_blank-trim_right (trim_left s) ∙ all_space-trim_left s

pub all_space-trim_space : (s : String) → all_space (trim_space s) ≡ all_space s
unfolding trim_space
all_space-trim_space s = all_space-trim_right (trim_left s) ∙ all_space-trim_left s

-- Letters are no blanks, and stay none.
is_space-recode :
    (ls us : String) (c : Char)
    → no_space ls ≡ true
    → no_space us ≡ true
    → is_space (recode ls us c) ≡ is_space c
unfolding no_space recode
is_space-recode [] us c h k = refl
is_space-recode (l ∷ ls) [] c h k = refl
is_space-recode (l ∷ ls) (u ∷ us) c h k = ground (arith, is_space-recode ls us c)

all_space-map_text :
    (f : Char → Char) (s : String)
    → ((c : Char) → is_space (f c) ≡ is_space c)
    → all_space (map_text f s) ≡ all_space s
unfolding all_space map_text
all_space-map_text f [] h = refl
all_space-map_text f (c ∷ s) h = ground (arith, h c, all_space-map_text f s h)

pub all_space-to_upper : (s : String) → all_space (to_upper s) ≡ all_space s
unfolding to_upper no_space
all_space-to_upper s =
    all_space-map_text _ s
      (λ c. is_space-recode "abcdefghijklmnopqrstuvwxyz" "ABCDEFGHIJKLMNOPQRSTUVWXYZ" c refl refl)

pub is_blank-to_upper : (s : String) → is_blank (to_upper s) ≡ is_blank s
unfolding to_upper
is_blank-to_upper [] = refl
is_blank-to_upper (c ∷ s) = refl

-- An ID in its stored form is blank only where the given one is.
pub is_blank-stored :
    (s : String)
    → is_blank (trim_space (to_upper (trim_space s))) ≡ is_blank (to_upper (trim_space s))
is_blank-stored s =
    rw
      (
        is_blank-trim_space (to_upper (trim_space s)),
        all_space-to_upper (trim_space s),
        all_space-trim_space s,
        is_blank-to_upper (trim_space s),
        is_blank-trim_space s,
      )
      refl

trim_left-eq : (s : String) → no_space s ≡ true → trim_left s ≡ s
unfolding no_space trim_left
trim_left-eq [] h = refl
trim_left-eq (c ∷ s) h = ground arith

trim_right-eq : (s : String) → no_space s ≡ true → trim_right s ≡ s
unfolding no_space trim_right
trim_right-eq [] h = refl
trim_right-eq (c ∷ s) h = ground (arith, trim_right-eq s)

-- A text without blanks is not trimmed.
pub trim_space-eq : (s : String) → no_space s ≡ true → trim_space s ≡ s
unfolding trim_space
trim_space-eq s h = rw (trim_left-eq s h) (trim_right-eq s h)
