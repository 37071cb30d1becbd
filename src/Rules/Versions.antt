-- ===== src/Rules/Versions.antt =====
-- internal/rules/m1engine.go: version numbers, the constraints on them and whether two agree. A pair
-- (ok, evaluated) is an Option here, with none where nothing was evaluated; every return of the
-- source with evaluated unset has ok unset too.
use Prim.Native.Nat.{suc, ℕ, Ordering}
use devdiag.Base.{
  zero, suc, is_empty, refl, not, has_prefix, ◌=ₛ◌, ◌+◌, ◌≡◌, ◌&&◌, ◌||◌, trim_space, trim_prefix,
  if◌then◌else◌, String, List, [], ◌∷◌, Option, none, some, Bool, true, false, ltb, is_blank,
}
use devdiag.Base.Number.{ℤ, pos, negsuc, atoi, wrap64}
use devdiag.Base.Text.Split.{split, replace_all, has_text}
use devdiag.Base.Text.Parts.{words, trim_right_of}

abbrev pub lt_int : ℤ → ℤ → Bool
lt_int (pos a) (pos b) = ltb a b
lt_int (pos a) (negsuc b) = false
lt_int (negsuc a) (pos b) = true
lt_int (negsuc a) (negsuc b) = ltb b a

-- `n + 1` on an `int` of 64 bits
abbrev pub next_int : ℤ → ℤ
next_int (pos n) = wrap64 (n + 1)
next_int (negsuc zero) = pos 0
next_int (negsuc (suc n)) = negsuc n

-- A round of the comparing loops: the parts at one place, and the answer of the rounds behind it.
abbrev pub compare_step : ℤ → ℤ → Ordering → Ordering
compare_step a t rest = if lt_int a t then Ordering.lt else if lt_int t a then Ordering.gt else rest

unfoldable pub compare_version_parts : List ℤ → List ℤ → Ordering
compare_version_parts [] [] = Ordering.eq
compare_version_parts [] (t ∷ ts) = compare_step (pos 0) t (compare_version_parts [] ts)
compare_version_parts (a ∷ xs) [] = compare_step a (pos 0) (compare_version_parts xs [])
compare_version_parts (a ∷ xs) (t ∷ ts) = compare_step a t (compare_version_parts xs ts)

unfoldable pub compare_version_parts_prefix : List ℤ → List ℤ → Ordering
compare_version_parts_prefix xs [] = Ordering.eq
compare_version_parts_prefix [] (t ∷ ts) =
    compare_step (pos 0) t (compare_version_parts_prefix [] ts)
compare_version_parts_prefix (a ∷ xs) (t ∷ ts) =
    compare_step a t (compare_version_parts_prefix xs ts)

unfoldable pub caret_upper_bound : List ℤ → List ℤ
caret_upper_bound [] = pos 1 ∷ []
caret_upper_bound (a ∷ []) = if lt_int (pos 0) a then next_int a ∷ [] else pos 1 ∷ []
caret_upper_bound (a ∷ b ∷ rest) =
    if lt_int (pos 0) a then next_int a ∷ [] else pos 0 ∷ next_int b ∷ []

-- The source is given a base that has a part.
unfoldable pub tilde_upper_bound : List ℤ → List ℤ
tilde_upper_bound [] = []
tilde_upper_bound (a ∷ []) = next_int a ∷ []
tilde_upper_bound (a ∷ b ∷ rest) = a ∷ next_int b ∷ []

abbrev pub trim_prefixes : String → List String → String
trim_prefixes v [] = v
trim_prefixes v (p ∷ ps) = trim_prefixes (trim_prefix v p) ps

abbrev pub version_prefixes : List String
version_prefixes = ">=" ∷ "<=" ∷ "~>" ∷ "^" ∷ ">" ∷ "<" ∷ "=" ∷ "node" ∷ "lts/" ∷ []

unfoldable pub normalize_version : String → String
normalize_version v =
    trim_space (trim_prefixes (trim_prefix (trim_prefix (trim_space v) "v") "go") version_prefixes)

-- The loop over the fields, which ends at a blank one; none for a field that is no number.
abbrev pub with_part : Option ℤ → Option (List ℤ) → Option (List ℤ)
with_part (some n) (some ns) = some (n ∷ ns)
with_part (some n) none = none
with_part none rest = none

unfoldable pub parts_of : List String → Option (List ℤ)
parts_of [] = some []
parts_of (field ∷ fields) =
    let digits = trim_right_of (trim_space field) "xX*" in
    let rest = with_part (atoi digits) (parts_of fields) in
    if is_blank digits then some [] else rest

abbrev pub non_empty : Option (List ℤ) → Option (List ℤ)
non_empty none = none
non_empty (some []) = none
non_empty (some (n ∷ ns)) = some (n ∷ ns)

unfoldable pub parse_version_parts : String → Option (List ℤ)
parse_version_parts v =
    let w = trim_space (normalize_version v) in
    if is_blank w || w =ₛ "*" then none else non_empty (parts_of (split b'.' w))

unfoldable pub looks_like_version_expression : String → Bool
looks_like_version_expression expr =
    has_text expr " "
    || (has_text expr ","
        || (has_prefix expr ">"
            || (has_prefix expr "<"
                || (has_prefix expr "^"
                    || (has_prefix expr "~" || (has_text expr ".x" || has_text expr ".*"))))))

pub data Operator : Type 0 where
  at_least at_most above below equals : Operator

abbrev pub holds : Operator → Ordering → Bool
holds at_least Ordering.lt = false
holds at_least c = true
holds at_most Ordering.gt = false
holds at_most c = true
holds above Ordering.gt = true
holds above c = false
holds below Ordering.lt = true
holds below c = false
holds equals Ordering.eq = true
holds equals c = false

unfoldable pub operator_of : String → Operator × String
operator_of token =
    if has_prefix token ">="
    then (at_least, trim_space (trim_prefix token ">="))
    else if has_prefix token "<="
    then (at_most, trim_space (trim_prefix token "<="))
    else if has_prefix token ">"
    then (above, trim_space (trim_prefix token ">"))
    else if has_prefix token "<"
    then (below, trim_space (trim_prefix token "<"))
    else if has_prefix token "="
    then (equals, trim_space (trim_prefix token "="))
    else (equals, token)

abbrev pub compare_with : Operator → List ℤ → Option (List ℤ) → Option Bool
compare_with op actual none = none
compare_with op actual (some target) = some (holds op (compare_version_parts_prefix actual target))

unfoldable pub version_constraint_satisfied : String → List ℤ → Option Bool
unfolding operator_of
version_constraint_satisfied token actual =
    let t = trim_space token in
    let (op, rest) = operator_of t in
    if is_blank t then some true else compare_with op actual (parse_version_parts rest)

-- The loop over the tokens, which stops at the first that fails or is not evaluated.
abbrev pub unless_failed : Option Bool → Option Bool → Option Bool
unless_failed none rest = none
unless_failed (some false) rest = some false
unless_failed (some true) rest = rest

unfoldable pub all_satisfied : List String → List ℤ → Option Bool
all_satisfied [] actual = some true
all_satisfied (token ∷ tokens) actual =
    unless_failed (version_constraint_satisfied token actual) (all_satisfied tokens actual)

-- At least the base, and below the bound that it has.
abbrev pub between : (List ℤ → List ℤ) → List ℤ → Option (List ℤ) → Option Bool
between upper actual none = none
between upper actual (some base) = some (
    holds at_least (compare_version_parts actual base)
    && holds below (compare_version_parts actual (upper base)))

unfoldable pub satisfied : String → List ℤ → Option Bool
satisfied expr actual =
    let tokens = words (replace_all expr "," " ") in
    if has_prefix expr "^"
    then between caret_upper_bound actual (parse_version_parts (trim_prefix expr "^"))
    else if has_prefix expr "~" && not (has_prefix expr "~>")
    then between tilde_upper_bound actual (parse_version_parts (trim_prefix expr "~"))
    else if is_empty tokens
    then none
    else all_satisfied tokens actual

abbrev pub on_parts : String → Option (List ℤ) → Option Bool
on_parts expr none = none
on_parts expr (some actual) = satisfied expr actual

unfoldable pub version_expression_satisfied : String → String → Option Bool
version_expression_satisfied expr actual =
    let e = trim_space expr in
    if is_blank e || not (looks_like_version_expression e)
    then none
    else on_parts e (parse_version_parts actual)

-- The loop over the parts that both have, `n` at most.
unfoldable pub same_parts : ℕ → List String → List String → Bool
same_parts zero es xs = true
same_parts (suc n) [] xs = true
same_parts (suc n) es [] = true
same_parts (suc n) (e ∷ es) (a ∷ xs) = e =ₛ a && same_parts n es xs

unfoldable pub versions_compatible : String → String → Bool
versions_compatible expected actual =
    let e = trim_space expected in
    let a = trim_space actual in
    let plain =
      same_parts 2 (split b'.' (normalize_version e)) (split b'.' (normalize_version a)) in
    if e =ₛ "lts/*" || (e =ₛ "node" || is_blank e)
    then true
    else elim (version_expression_satisfied e a) [
      | some ok ↦ ok
      | none ↦ elim (version_expression_satisfied a e) [ some ok ↦ ok | none ↦ plain ]
    ]

agrees : versions_compatible "^18.2" "v18.17.0" ≡ true
unfolding versions_compatible trim_space version_expression_satisfied looks_like_version_expression
    has_text has_prefix parse_version_parts normalize_version trim_prefix parts_of split
    trim_right_of atoi satisfied compare_version_parts caret_upper_bound wrap64
agrees = refl
