-- ===== src/Updater/Verify.antt =====
-- internal/updater/verify.go: the digest that a checksum file has for an asset.
use Prim.Native.Char.{Char, code}
use devdiag.Base.{
  ◌&&◌, ◌==◌, ◌=ₛ◌, is_blank, trim_prefix, if◌then◌else◌, String, List, [], ◌∷◌, Option, none, some,
  Bool, true, ◌||◌, not, ◌≡◌, refl, is_space, leb,
}
use devdiag.Base.Text.Split.{split, text_length}

abbrev field_end : String → List String → List String
field_end word rest = if is_blank word then rest else word ∷ rest

add_char : Char → String × List String → String × List String
add_char c (word, rest) =
    if is_space c then ("", field_end word rest) else (String.◌∷◌ c word, rest)

split_fields : String → String × List String
split_fields String.[] = ("", [])
split_fields (String.◌∷◌ c s) = add_char c (split_fields s)

-- `strings.Fields`
unfoldable pub fields : String → List String
unfolding split_fields add_char
fields s = let (word, rest) = split_fields s in field_end word rest

pub data ChecksumError : Type 0 where
  malformed_digest conflicting_digests unreadable absent : ChecksumError

pub data Checksum : Type 0 where
  digest : String → Checksum
  refused : ChecksumError → Checksum

abbrev pub found_or_absent : String → Checksum
found_or_absent found = if is_blank found then refused absent else digest found

-- the two fields of a line, the star of a binary file left out
abbrev pub pair_of : List String → Option (String × String)
pair_of (d ∷ name ∷ []) = some (d, trim_prefix name "*")
pair_of _ = none

abbrev pub named_digest : String → Option (String × String) → Option String
named_digest asset none = none
named_digest asset (some (d, name)) = if name =ₛ asset then some d else none

abbrev pub is_hex_char : Char → Bool
is_hex_char c =
    leb b'0' (code c) && leb (code c) b'9'
    || (leb b'a' (code c) && leb (code c) b'f')
    || (leb b'A' (code c) && leb (code c) b'F')

-- `isHex`
unfoldable pub is_hex : String → Bool
is_hex String.[] = true
is_hex (String.◌∷◌ c s) = is_hex_char c && is_hex s

-- what a line does with the digest found so far, where `rest` goes on
abbrev pub take_digest : String → Option String → (String → Checksum) → Checksum
take_digest found none rest = rest found
take_digest found (some d) rest =
    if not (text_length d == 64) || not (is_hex d)
    then refused malformed_digest
    else if not (is_blank found) && not (found =ₛ d)
    then refused conflicting_digests
    else rest d

-- The loop over the lines. `bufio.Scanner` stops at a line of 64 KiB or more.
unfoldable pub checksum_loop : String → List String → String → Checksum
unfolding fields
checksum_loop asset [] found = found_or_absent found
checksum_loop asset (line ∷ lines) found =
    if leb 65536 (text_length line)
    then refused unreadable
    else take_digest found (named_digest asset (pair_of (fields line))) (checksum_loop asset lines)

unfoldable pub checksum_for : String → String → Checksum
checksum_for checksums asset = checksum_loop asset (split b'\n' checksums) ""

splits_fields : fields "  ab \t *devdiag  " ≡ "ab" ∷ "*devdiag" ∷ []
unfolding fields
splits_fields = refl
