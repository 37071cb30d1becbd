-- ===== src/Fix/Validate.antt =====
-- internal/fix/validate.go: evidence checked before it is put into a command. `home` is what
-- `os.UserHomeDir` answers, with none for an error.
use devdiag.Base.Text.Split.{split, joined}
use Prim.Native.Char.{Char, code}
use devdiag.Base.{
  [], trim_prefix, refl, not, has_prefix, ◌≡◌, ◌==◌, ◌&&◌, ltb, any, is_empty, ◌=ₛ◌, ◌∷◌, none,
  ◌||◌, true, leb, is_blank, trim_space, ◌^^◌, false, some, Bool, if◌then◌else◌, List, Option, ℕ,
  String,
}
use devdiag.Base.Number.{ℤ, pos, negsuc, atoi}
use devdiag.Fix.Paths.{FilePath, clean, path_text, join, rel, is_abs}

pub data Checked {ℓ} (A : Type ℓ) : Type ℓ where
  valid : A → Checked A
  invalid : String → Checked A

abbrev pub is_valid {ℓ} : {A : Type ℓ} → Checked A → Bool
is_valid (valid a) = true
is_valid (invalid err) = false

-- the tilde of a path, where the home directory is known
unfoldable pub expand_home : Option String → String → String
unfolding join
expand_home none s = s
expand_home (some home) s =
    if s =ₛ "~" then home else if has_prefix s "~/" then join home (trim_prefix s "~/") else s

abbrev pub allowed_prefixes : List String
allowed_prefixes = "/tmp" ∷ "/var/tmp" ∷ "/dev/shm" ∷ "/home" ∷ "/usr/local" ∷ []

-- `strings.HasPrefix(rel, "../")`, of a cleaned path
abbrev pub goes_above : List String → Bool
goes_above [] = false
goes_above (p ∷ []) = false
goes_above (p ∷ q ∷ ps) = p =ₛ ".."

-- A relative path is never absolute, so that the test of `filepath.IsAbs(rel)` is left out.
unfoldable pub is_below : Option FilePath → Bool
is_below none = false
is_below (some r) = is_empty r.parts || not (goes_above r.parts)

unfoldable pub in_allowed : List String → FilePath → Bool
unfolding is_below
in_allowed [] path = false
in_allowed (prefix ∷ rest) path = is_below (rel (clean prefix) path) || in_allowed rest path

abbrev pub is_up : List String → Bool
is_up [] = false
is_up (p ∷ ps) = p =ₛ ".." && is_empty ps

unfoldable pub within_root : String → FilePath → Option FilePath → Checked String
within_root value resolved none = invalid "could not resolve relative path"
within_root value resolved (some r) =
    if is_up r.parts || goes_above r.parts
    then invalid ("path contains traversal outside root: " ^^ value)
    else valid (path_text resolved)

-- a path that is cleaned, its tilde expanded, against a root with its tilde expanded
unfoldable pub validate_clean : String → String → String → Checked String
unfolding in_allowed within_root
validate_clean root value clean_value =
    if is_abs clean_value
    then if in_allowed allowed_prefixes (clean clean_value)
      then valid clean_value
      else invalid ("absolute path not in allowed prefix: " ^^ value)
    else if is_blank root
    then if any (λ p. p =ₛ "..") (split b'/' clean_value)
      then invalid ("path contains traversal: " ^^ value)
      else valid clean_value
    else if not (clean root).rooted
    then invalid ("root must be absolute: " ^^ root)
    else let resolved = clean (join (path_text (clean root)) clean_value) in
      within_root value resolved (rel (clean root) resolved)

unfoldable pub validate_path : Option String → String → String → Checked String
unfolding validate_clean
validate_path home root given =
    let value = trim_space given in
    if is_blank value
    then invalid "path is empty"
    else validate_clean (expand_home home root) value (expand_home home (path_text (clean value)))

abbrev pub port_of : String → Option ℤ → Checked ℕ
port_of value none = invalid ("port is not a number: " ^^ value)
port_of value (some (negsuc n)) = invalid "port out of range"
port_of value (some (pos n)) =
    if ltb n 1 || ltb 65535 n then invalid "port out of range" else valid n

unfoldable pub validate_port : String → Checked ℕ
validate_port value = if is_blank value then invalid "port is empty" else port_of value (atoi value)

abbrev pub is_letter : Char → Bool
is_letter c = leb b'a' (code c) && leb (code c) b'z' || (leb b'A' (code c) && leb (code c) b'Z')

abbrev pub is_digit : Char → Bool
is_digit c = leb b'0' (code c) && leb (code c) b'9'

unfoldable pub all_chars : (Char → Bool) → String → Bool
all_chars test String.[] = true
all_chars test (String.◌∷◌ c s) = test c && all_chars test s

-- the regular expressions of the two names: a first character, then any number of others
unfoldable pub matches : (Char → Bool) → (Char → Bool) → String → Bool
unfolding all_chars
matches first rest String.[] = false
matches first rest (String.◌∷◌ c s) = first c && all_chars rest s

unfoldable pub valid_env_key : String → Bool
unfolding matches
valid_env_key =
    matches (λ c. is_letter c || code c == b'_') (λ c. is_letter c || is_digit c || code c == b'_')

unfoldable pub valid_service_name : String → Bool
unfolding matches
valid_service_name =
    matches (λ c. is_letter c || is_digit c)
      (λ c. is_letter c || is_digit c || code c == b'_' || code c == b'-')

unfoldable pub validate_service_name : String → Checked String
validate_service_name value =
    if is_blank value
    then invalid "service name is empty"
    else if valid_service_name value
    then valid value
    else invalid ("invalid service name: " ^^ value)

unfoldable pub validate_env_key : String → Checked String
validate_env_key value =
    if is_blank value
    then invalid "env key is empty"
    else if valid_env_key value
    then valid value
    else invalid ("invalid env key: " ^^ value)

accepts_root : validate_path none "/repo" "/" ≡ valid "/"
unfolding validate_path expand_home path_text clean joined rel trim_space
accepts_root = refl

keeps_inside :
    (validate_path none "/repo" "a/../b.sh" ≡ valid "/repo/b.sh")
    × (validate_path none "/repo" "../b.sh"
        ≡ invalid "path contains traversal outside root: ../b.sh")
unfolding validate_path validate_clean within_root expand_home path_text clean joined rel join
    trim_space
keeps_inside = (refl, refl)
