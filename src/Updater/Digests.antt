-- ===== src/Updater/Digests.antt =====
-- What a digest that is found for an asset is.
use mathlib.Core.Path.{subst}
use devdiag.Base.{
  ap, sym, ◌∙◌, if◌then◌else◌, if◌then◌else◌, String, List, [], ◌∷◌, Option, none, some, Bool, true,
  false, ◌≡◌, ◌⊎◌, inl, inr, refl, arith, is_blank, All, Option-cases, eq_iff,
}
use devdiag.Base.Text.Split.{split, text_length}
use devdiag.Updater.Verify.{
  Checksum, digest, found_or_absent, fields, pair_of, named_digest, take_digest, checksum_loop,
  checksum_for, is_hex, ChecksumError,
}

abbrev pub IsDigest : String → Type 0
IsDigest d = (text_length d ≡ 64) × (is_hex d ≡ true)

-- A line that has no digest for the asset, or this one.
abbrev pub Agrees : String → String → String → Type 0
Agrees asset d line =
    (named_digest asset (pair_of (fields line)) ≡ none)
    ⊎ (named_digest asset (pair_of (fields line)) ≡ some d)

abbrev Kept : String → String → Type 0
Kept found d = (is_blank found ≡ true) ⊎ (found ≡ d)

IsDigest-of : (s : String) → (is_blank s ≡ true) ⊎ IsDigest s → is_blank s ≡ false → IsDigest s
IsDigest-of s (inl h) k = absurd (ground arith)
IsDigest-of s (inr h) k = h

same_digest :
    (found d : String) → found_or_absent found ≡ digest d → (is_blank found ≡ false) × (found ≡ d)
same_digest found d e = ground arith

found_lem :
    (found d : String)
    → (is_blank found ≡ true) ⊎ IsDigest found
    → found_or_absent found ≡ digest d
    → IsDigest d × Kept found d
found_lem found d h e =
    let (filled, same) = same_digest found d e in
    (subst IsDigest same (IsDigest-of found h filled), inr same)

taken_lem :
    (found new d : String) (rest : String → Checksum)
    → take_digest found (some new) rest ≡ digest d
    → IsDigest new × Kept found new × (rest new ≡ digest d)
taken_lem found new d rest h = ground (arith, eq_iff found new)

blank-text_length : (s : String) → is_blank s ≡ true → text_length s ≡ 0
blank-text_length String.[] h = refl
blank-text_length (String.◌∷◌ c s) h = absurd (ground arith)

read_on :
    (long : Bool) (c : Checksum) (err : ChecksumError) (d : String)
    → (if long then Checksum.refused err else c) ≡ digest d
    → c ≡ digest d
read_on true c err d h = absurd cc
read_on false c err d h = h

not_blank : (s : String) → IsDigest s → is_blank s ≡ true → ⊥
not_blank s h k = omega (arith, h.0, blank-text_length s k)

Kept-trans :
    (found new d : String) → IsDigest new → Kept found new → Kept new d → Kept found d × (new ≡ d)
Kept-trans found new d h k (inl blank) = absurd (not_blank new h blank)
Kept-trans found new d h (inl blank) (inr same) = (inl blank, same)
Kept-trans found new d h (inr k) (inr same) = (inr (k ∙ same), same)

passed_over :
    (found : String) (lines : List String) (asset : String) (named : Option String) (d : String)
    → named ≡ none
    → take_digest found named (checksum_loop asset lines) ≡ digest d
    → checksum_loop asset lines found ≡ digest d
passed_over found lines asset none d h e = e
passed_over found lines asset (some new) d h e = absurd cc

taken_over :
    (found : String) (lines : List String) (asset : String) (named : Option String) (new d : String)
    → named ≡ some new
    → take_digest found named (checksum_loop asset lines) ≡ digest d
    → take_digest found (some new) (checksum_loop asset lines) ≡ digest d
taken_over found lines asset named new d h e =
    sym (ap (λ n. take_digest found n (checksum_loop asset lines)) h) ∙ e

checksum_loop-Agrees :
    (asset : String) (lines : List String) (found d : String)
    → (is_blank found ≡ true) ⊎ IsDigest found
    → checksum_loop asset lines found ≡ digest d
    → All (Agrees asset d) lines × IsDigest d × Kept found d
unfolding checksum_loop
checksum_loop-Agrees asset [] found d h e =
    let (valid, kept) = found_lem found d h e in (tt, valid, kept)
checksum_loop-Agrees asset (line ∷ lines) found d h e =
    elim (Option-cases (named_digest asset (pair_of (fields line)))) [
      | inl none_named ↦
          let (all, valid, kept) =
            checksum_loop-Agrees asset lines found d h
              (passed_over found lines asset _ d none_named (read_on _ _ _ d e)) in
          ((inl none_named, all), valid, kept)
      | inr (new, named) ↦
          let (valid_new, kept_new, rest) =
            taken_lem found new d (checksum_loop asset lines)
              (taken_over found lines asset _ new d named (read_on _ _ _ d e)) in
          let (all, valid, kept) = checksum_loop-Agrees asset lines new d (inr valid_new) rest in
          let (kept_found, same) = Kept-trans found new d valid_new kept_new kept in
          ((inr (named ∙ ap some same), all), valid, kept_found)
    ]

-- A digest that is found for an asset has 64 hexadecimal digits, and each line of the checksum file that
-- has a digest for the asset has this one.
pub checksum_for-Agrees :
    (checksums asset d : String)
    → checksum_for checksums asset ≡ digest d
    → All (Agrees asset d) (split b'\n' checksums) × IsDigest d
unfolding checksum_for
checksum_for-Agrees checksums asset d h =
    let (all, valid, kept) = checksum_loop-Agrees asset (split b'\n' checksums) "" d (inl refl) h in
    (all, valid)
