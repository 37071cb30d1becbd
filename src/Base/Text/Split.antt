-- ===== src/Base/Text/Split.antt =====
-- Texts taken apart and put together, as the functions of Go's `strings` do.
use devdiag.Base.{◌-◌}
use Prim.Native.Char.{Char, code}
use Prim.Native.String.{String, ◌++◌}
use mathlib.Core.Path.{◌≡◌, refl}
use mathlib.Core.Bool.{Bool, true, ◌||◌}
use mathlib.Core.List.{List, [], ◌∷◌}
use Prim.Native.Nat.{zero}
use devdiag.Base.Tests.{◌==◌, if◌then◌else◌}
use devdiag.Base.Text.{suc, ◌=ₛ◌, ℕ, has_prefix, is_blank}

abbrev pub on_first : Char → List String → List String
on_first c [] = String.◌∷◌ c String.[] ∷ []
on_first c (p ∷ ps) = String.◌∷◌ c p ∷ ps

-- `strings.Split` at one character
unfoldable pub split : ℕ → String → List String
split d String.[] = String.[] ∷ []
split d (String.◌∷◌ c s) =
    let rest = split d s in if code c == d then String.[] ∷ rest else on_first c rest

-- `strings.Join`
unfoldable pub joined : String → List String → String
joined sep [] = String.[]
joined sep (p ∷ []) = p
joined sep (p ∷ q ∷ ps) = p ++ (sep ++ joined sep (q ∷ ps))

-- `strings.Contains`
unfoldable pub has_text : String → String → Bool
has_text String.[] sub = is_blank sub
has_text (String.◌∷◌ c s) sub = has_prefix (String.◌∷◌ c s) sub || has_text s sub

abbrev pub text_length : String → ℕ
text_length String.[] = 0
text_length (String.◌∷◌ c s) = suc (text_length s)

-- `strings.HasSuffix`
unfoldable pub has_suffix : String → String → Bool
has_suffix String.[] end = is_blank end
has_suffix (String.◌∷◌ c s) end = String.◌∷◌ c s =ₛ end || has_suffix s end

-- `strings.TrimSuffix`
unfoldable pub trim_suffix : String → String → String
trim_suffix String.[] end = String.[]
trim_suffix (String.◌∷◌ c s) end =
    let rest = trim_suffix s end in if String.◌∷◌ c s =ₛ end then String.[] else String.◌∷◌ c rest

-- `strings.ReplaceAll` of a pattern that is not empty: how many characters of a match are still to be
-- passed over is the second argument.
unfoldable pub replaced : String → String → ℕ → String → String
replaced old new n String.[] = String.[]
replaced old new (suc n) (String.◌∷◌ c s) = replaced old new n s
replaced old new zero (String.◌∷◌ c s) =
    let skip = replaced old new (text_length old - 1) s in
    let stay = replaced old new 0 s in
    if has_prefix (String.◌∷◌ c s) old then new ++ skip else String.◌∷◌ c stay

unfoldable pub replace_all : String → String → String → String
unfolding replaced
replace_all s old new = replaced old new 0 s

splits : split b'/' "/a//b" ≡ "" ∷ "a" ∷ "" ∷ "b" ∷ []
unfolding split
splits = refl

replaces : replace_all "x {{p}} {{p}}{{q}}" "{{p}}" "80" ≡ "x 80 80{{q}}"
unfolding replace_all replaced has_prefix
replaces = refl

suffixes : (has_suffix "a_status" "_status" ≡ true) × (trim_suffix "a_status" "_status" ≡ "a")
unfolding has_suffix trim_suffix
suffixes = (refl, refl)
