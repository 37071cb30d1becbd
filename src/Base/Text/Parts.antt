-- ===== src/Base/Text/Parts.antt =====
-- Texts cut at separators and at characters of a set, as the functions of Go's `strings` do.
use devdiag.Base.{true, ◌-◌}
use Prim.Native.Char.{Char, code}
use Prim.Native.String.{String, ◌++◌}
use text.Mathlib.TextLemmas.{nil-append, cons-append}
use native.Mathlib.Omega.{arith}
use Prim.Native.Nat.{zero}
use mathlib.Core.Path.{◌≡◌, refl}
use mathlib.Core.Bool.{Bool, false, ◌||◌, ◌&&◌}
use mathlib.Core.Option.{Option, none, some}
use mathlib.Core.List.{List, [], ◌∷◌}
use devdiag.Base.Tests.{◌==◌, if◌then◌else◌}
use devdiag.Base.Text.{suc, ℕ, has_prefix, is_blank, is_space, drop_prefix, trim_prefix}
use devdiag.Base.Text.Split.{on_first, text_length}

abbrev on_left : Char → Option (String × String) → Option (String × String)
on_left c none = none
on_left c (some (a, b)) = some (String.◌∷◌ c a, b)

-- What stands before and after the first `sub`: `strings.Cut`.
unfoldable pub cut : String → String → Option (String × String)
cut String.[] sub = if is_blank sub then some (String.[], String.[]) else none
cut (String.◌∷◌ c s) sub =
    let later = on_left c (cut s sub) in
    if has_prefix (String.◌∷◌ c s) sub
    then some (String.[], drop_prefix (String.◌∷◌ c s) sub)
    else later

-- What stands before and after the last `sub`, by `strings.LastIndex`; `sub` is not empty.
unfoldable pub cut_last : String → String → Option (String × String)
cut_last String.[] sub = none
cut_last (String.◌∷◌ c s) sub =
    let here =
      if has_prefix (String.◌∷◌ c s) sub
      then some (String.[], drop_prefix (String.◌∷◌ c s) sub)
      else none in
    elim (cut_last s sub) [ some (a, b) ↦ some (String.◌∷◌ c a, b) | none ↦ here ]

-- `s[:strings.Index(s, sub)]`, and `s` where it has none
abbrev pub before : String → String → String
before s sub = elim (cut s sub) [ none ↦ s | some (a, b) ↦ a ]

-- `strings.Split` at a separator that is not empty: how many characters of a separator are still to
-- be passed over is the second argument.
unfoldable pub split_from : String → ℕ → String → List String
split_from sep n String.[] = String.[] ∷ []
split_from sep (suc n) (String.◌∷◌ c s) = split_from sep n s
split_from sep zero (String.◌∷◌ c s) =
    let skip = split_from sep (text_length sep - 1) s in
    let stay = split_from sep 0 s in
    if has_prefix (String.◌∷◌ c s) sep then String.[] ∷ skip else on_first c stay

unfoldable pub split_text : String → String → List String
unfolding split_from
split_text s sep = split_from sep 0 s

abbrev pub in_set : String → Char → Bool
in_set String.[] c = false
in_set (String.◌∷◌ d set) c = code c == code d || in_set set c

-- `strings.TrimRight`
unfoldable pub trim_right_of : String → String → String
trim_right_of String.[] set = String.[]
trim_right_of (String.◌∷◌ c s) set =
    let rest = trim_right_of s set in
    if in_set set c && is_blank rest then String.[] else String.◌∷◌ c rest

-- `strings.TrimLeft`
unfoldable pub trim_left_of : String → String → String
trim_left_of String.[] set = String.[]
trim_left_of (String.◌∷◌ c s) set =
    let rest = trim_left_of s set in if in_set set c then rest else String.◌∷◌ c s

-- `strings.Fields`: the pieces between blanks, of which those that are not empty are the words.
unfoldable pub fields_from : String → List String
fields_from String.[] = String.[] ∷ []
fields_from (String.◌∷◌ c s) =
    let rest = fields_from s in if is_space c then String.[] ∷ rest else on_first c rest

abbrev pub non_blank : List String → List String
non_blank [] = []
non_blank (w ∷ ws) = if is_blank w then non_blank ws else w ∷ non_blank ws

unfoldable pub words : String → List String
unfolding fields_from
words s = non_blank (fields_from s)

-- The part behind the last `d`, and all of `s` where it has none.
abbrev pub last_of : String → List String → String
last_of s [] = s
last_of s (p ∷ ps) = last_of p ps

-- A text begins with what it was appended to, and behind it stands the rest.
pub has_prefix-append : (p s : String) → has_prefix (p ++ s) p ≡ true
unfolding has_prefix
has_prefix-append String.[] s = refl
has_prefix-append (String.◌∷◌ c p) s =
    rw (cons-append c p s) (ground (arith, has_prefix-append p s))

drop_prefix-append : (p s : String) → drop_prefix (p ++ s) p ≡ s
unfolding drop_prefix
drop_prefix-append String.[] s = nil-append s
drop_prefix-append (String.◌∷◌ c p) s = rw (cons-append c p s) (drop_prefix-append p s)

pub trim_prefix-append : (p s : String) → trim_prefix (p ++ s) p ≡ s
unfolding trim_prefix
trim_prefix-append p s = rw (has_prefix-append p s) (drop_prefix-append p s)

splits_text : split_text "A, B, " ", " ≡ "A" ∷ "B" ∷ "" ∷ []
unfolding split_text has_prefix
splits_text = refl

cuts : cut "a references ${B}" " references " ≡ some ("a", "${B}")
unfolding cut has_prefix drop_prefix
cuts = refl

trims_set : (trim_right_of "1xX*" "xX*" ≡ "1") × (words " >=1  <2 " ≡ ">=1" ∷ "<2" ∷ [])
unfolding trim_right_of words
trims_set = (refl, refl)
