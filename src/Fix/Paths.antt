-- ===== src/Fix/Paths.antt =====
-- path/filepath on Unix, as internal/fix uses it. A cleaned path is its parts and whether it begins
-- at the root; `path_text` is the text that Go has for it.
use Prim.Native.Char.{code}
use devdiag.Base.{
  ◌^^◌, String, List, [], ◌∷◌, Option, none, some, Bool, false, ◌≡◌, refl, ◌==◌, ◌=ₛ◌,
  if◌then◌else◌, is_blank, not, ◌&&◌, ◌||◌,
}
use devdiag.Base.Text.Split.{split, joined}

pub record FilePath : Type 0 where
  pub rooted : Bool
  pub parts : List String

-- A part after those kept so far, the last kept part first: `..` takes one away.
unfoldable pub keep_part : Bool → List String → String → List String
keep_part rooted [] p =
    if is_blank p || p =ₛ "." then [] else if rooted && p =ₛ ".." then [] else p ∷ []
keep_part rooted (k ∷ ks) p =
    if is_blank p || p =ₛ "."
    then k ∷ ks
    else if p =ₛ ".." && not (k =ₛ "..")
    then ks
    else p ∷ k ∷ ks

abbrev pub reversed : List String → List String → List String
reversed done [] = done
reversed done (p ∷ ps) = reversed (p ∷ done) ps

unfoldable pub clean_loop : Bool → List String → List String → List String
unfolding keep_part
clean_loop rooted kept [] = reversed [] kept
clean_loop rooted kept (p ∷ ps) = clean_loop rooted (keep_part rooted kept p) ps

abbrev pub is_abs : String → Bool
is_abs String.[] = false
is_abs (String.◌∷◌ c s) = code c == b'/'

-- `filepath.Clean`
unfoldable pub clean : String → FilePath
unfolding split clean_loop
clean s = record { rooted = is_abs s; parts = clean_loop (is_abs s) [] (split b'/' s) }

abbrev pub dot_if_blank : String → String
dot_if_blank s = if is_blank s then "." else s

unfoldable pub path_text : FilePath → String
path_text p = if p.rooted then "/" ^^ joined "/" p.parts else dot_if_blank (joined "/" p.parts)

-- `filepath.Join` of two elements, of which an empty one is passed over
unfoldable pub join : String → String → String
unfolding clean path_text
join a b =
    if is_blank a && is_blank b
    then ""
    else if is_blank a
    then path_text (clean b)
    else if is_blank b
    then path_text (clean a)
    else path_text (clean (a ^^ "/" ^^ b))

abbrev pub ups : List String → List String → List String
ups [] target = target
ups (b ∷ bs) target = ".." ∷ ups bs target

abbrev starts_up : List String → Bool
starts_up [] = false
starts_up (p ∷ ps) = p =ₛ ".."

-- The parts of `filepath.Rel`: the way up from the base, then down to the target. From above a base
-- that is not known there is no way.
unfoldable pub rel_parts : List String → List String → Option (List String)
rel_parts [] target = some target
rel_parts (b ∷ bs) [] = if b =ₛ ".." then none else some (ups (b ∷ bs) [])
rel_parts (b ∷ bs) (t ∷ ts) =
    let rest = rel_parts bs ts in
    if b =ₛ t then rest else if b =ₛ ".." then none else some (ups (b ∷ bs) (t ∷ ts))

abbrev relative : Option (List String) → Option FilePath
relative none = none
relative (some ps) = some (record { rooted = false; parts = ps })

-- `filepath.Rel` of cleaned paths
unfoldable pub rel : FilePath → FilePath → Option FilePath
unfolding rel_parts
rel base target =
    if base.rooted && not target.rooted || (not base.rooted && target.rooted)
    then none
    else relative (rel_parts base.parts target.parts)

cleans : path_text (clean "/a/./b//../c/") ≡ "/a/c"
unfolding path_text clean joined
cleans = refl

cleans_up : path_text (clean "../x/../..") ≡ "../.."
unfolding path_text clean joined
cleans_up = refl

goes_up : rel (clean "/usr/local") (clean "/usr") ≡ some (clean "..")
unfolding path_text clean rel joined
goes_up = refl
