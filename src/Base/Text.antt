-- ===== src/Base/Text.antt =====
-- Text, as the source handles it with Go's `strings`. A `String` is a list of characters by its own
-- `[]` and `∷`; Go compares bytes, and UTF-8 keeps the order of code points. Letters and space are
-- those of ASCII.
pub mod Order
pub mod Trim
pub mod Join
pub mod Split
pub mod Parts
pub mod Within
use Prim.Native.Char.{Char, code}
use Prim.Native.Nat.{ℕ, suc, Ordering}
use Prim.Native.String.{[], ◌∷◌, String, compare}
use mathlib.Core.Bool.{Bool, true, false, ◌&&◌, ◌||◌}
use mathlib.Core.Path.{◌≡◌, refl}
use mathlib.Core.List
use mathlib.Core.List.{List}
use devdiag.Base.Tests.{◌==◌, leb, if◌then◌else◌}
pub use Prim.Native.String.{◌++◌ as ◌^^◌}
pub use text.Mathlib.Text.{◌==◌ as ◌=ₛ◌}
pub use text.Mathlib.TextEquality.{eq_iff}

abbrev pub is_blank : String → Bool
is_blank [] = true
is_blank (c ∷ s) = false

-- `strings.HasPrefix`
unfoldable pub has_prefix : String → String → Bool
has_prefix s [] = true
has_prefix [] (p ∷ ps) = false
has_prefix (c ∷ s) (p ∷ ps) = code c == code p && has_prefix s ps

-- The text after its first `p`, where it begins with it: `strings.TrimPrefix`.
unfoldable pub drop_prefix : String → String → String
drop_prefix s [] = s
drop_prefix [] (p ∷ ps) = []
drop_prefix (c ∷ s) (p ∷ ps) = drop_prefix s ps

unfoldable pub trim_prefix : String → String → String
unfolding has_prefix drop_prefix
trim_prefix s p = if has_prefix s p then drop_prefix s p else s

-- The letter beside `c` in the second table, and `c` itself where the first lacks it.
recode : String → String → Char → Char
recode (l ∷ ls) (u ∷ us) c = if code c == code l then u else recode ls us c
recode _ _ c = c

map_text : (Char → Char) → String → String
map_text f [] = []
map_text f (c ∷ s) = f c ∷ map_text f s

-- `strings.ToUpper`
unfoldable pub to_upper : String → String
unfolding recode map_text
to_upper s = map_text (recode "abcdefghijklmnopqrstuvwxyz" "ABCDEFGHIJKLMNOPQRSTUVWXYZ") s

-- `strings.ToLower`
unfoldable pub to_lower : String → String
unfolding recode map_text
to_lower s = map_text (recode "ABCDEFGHIJKLMNOPQRSTUVWXYZ" "abcdefghijklmnopqrstuvwxyz") s

abbrev pub is_space : Char → Bool
is_space c = code c == 32 || (leb 9 (code c) && leb (code c) 13)

-- `strings.TrimSpace`: the leading blanks, then the trailing ones.
trim_left : String → String
trim_left [] = []
trim_left (c ∷ s) = if is_space c then trim_left s else c ∷ s

trim_right : String → String
trim_right [] = []
trim_right (c ∷ s) = let rest = trim_right s in if is_space c && is_blank rest then [] else c ∷ rest

unfoldable pub trim_space : String → String
unfolding trim_left trim_right
trim_space s = trim_right (trim_left s)

trims : trim_space " \tF-ENV-001 x\n" ≡ "F-ENV-001 x"
unfolding trim_space
trims = refl

uppers : to_upper "f-Env-1" ≡ "F-ENV-1"
unfolding to_upper
uppers = refl
