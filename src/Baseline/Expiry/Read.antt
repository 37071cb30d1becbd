-- ===== src/Baseline/Expiry/Read.antt =====
-- internal/baseline/baseline.go: which texts `ParseExpiryDuration` reads, and as which duration.
use text.Mathlib.TextEquality.{Char-path}
use mathlib.Core.Path.{subst}
use mathlib.Core.Logic.{◌↔◌}
use devdiag.Base.{true, Bool, leb, trim_space, if◌then◌else◌}
use devdiag.Baseline.Expiry.{
  ExpiryResult, bad, too_short, not_positive, parse_trimmed, parse_expiry_duration,
}
use Prim.Native.String.len
use text.Mathlib.TextPositions.{len_utf8-pos}
use devdiag.Base.{ltb, ◌==◌, false, none, zero}
use Prim.Native.Char.{Char, code}
use Prim.Native.String.{len, [], ◌∷◌}
use text.Mathlib.TextLemmas.{cons-append, nil-append}
use devdiag.Base.{
  suc, Option, false, ap, sym, ◌∙◌, ◌%◌, ◌/◌, arith, ◌-◌, ◌+◌, ◌^◌, ◌<◌, ℕ, ◌*◌, String, some, ◌≡◌,
  refl, ltb, ◌^^◌, Bool-cases, inl, inr,
}
use devdiag.Base.Number.{ℤ, pos, negsuc, atoi, wrap64}
use devdiag.Baseline.Expiry.{after, duration_in, scaled, split_last, nanoseconds}

pub data TimeUnit : Type 0 where
  minutes hours days : TimeUnit

abbrev pub letter : TimeUnit → Char
letter minutes = "m"
letter hours = "h"
letter days = "d"

abbrev pub seconds : TimeUnit → ℕ
seconds minutes = 60
seconds hours = 60 * 60
seconds days = 24 * (60 * 60)

-- The number of 64 bits with a sign that differs from a natural number by a multiple of 2 ^ 64.
abbrev pub WrapsTo : ℕ → ℤ → Type 0
WrapsTo k (pos r) = (q : ℕ) × (k ≡ q * 2 ^ 64 + r) × (r < 2 ^ 63)
WrapsTo k (negsuc r) = (q : ℕ) × (k + r + 1 ≡ q * 2 ^ 64) × (r < 2 ^ 63)

-- A text that says a number of a unit, and the nanoseconds of it.
abbrev pub Says : String → ℤ → Type 0
Says text d =
    (unit : TimeUnit) × (digits : String) × (n : ℕ) × (text ≡ digits ^^ (letter unit ∷ []))
    × (atoi digits ≡ some (pos n))
    × (0 < n)
    × WrapsTo (n * (seconds unit * 10 ^ 9)) d

wrap64-WrapsTo : (k : ℕ) → WrapsTo k (wrap64 k)
unfolding wrap64
wrap64-WrapsTo k = elim (Bool-cases (ltb (k % 2 ^ 64) (2 ^ 63))) [
  | inl e ↦ rw e (k / 2 ^ 64, omega arith, ground arith)
  | inr e ↦ rw e (k / 2 ^ 64 + 1, ground arith, ground arith)
]

WrapsTo-wrap64 : (k : ℕ) (d : ℤ) → WrapsTo k d → wrap64 k ≡ d
unfolding wrap64
WrapsTo-wrap64 k (pos r) (q, e, h) = let same : k % 2 ^ 64 ≡ r = omega arith in ground arith
WrapsTo-wrap64 k (negsuc r) (q, e, h) =
    let same : k % 2 ^ 64 ≡ 2 ^ 64 - r - 1 = omega arith in ground arith

split_last_lem :
    (c : Char) (s : String)
    → (front : String) × (d : Char) × (split_last c s ≡ (front, code d))
      × (c ∷ s ≡ front ^^ (d ∷ []))
unfolding split_last
split_last_lem c [] = ([], c, refl, sym (nil-append (c ∷ [])))
split_last_lem c (e ∷ s) =
    let (front, d, cut, whole) = split_last_lem e s in
    (c ∷ front, d, rw cut refl, ap (◌∷◌ c) whole ∙ sym (cons-append c front (d ∷ [])))

split_last-append : (c d : Char) (s : String) → split_last c (s ^^ (d ∷ [])) ≡ (c ∷ s, code d)
unfolding split_last
split_last-append c d [] = rw (nil-append (d ∷ [])) refl
split_last-append c d (e ∷ s) = rw (cons-append e s (d ∷ []), split_last-append e d s) refl

nanoseconds-letter :
    (unit : TimeUnit) → nanoseconds (code (letter unit)) ≡ some (seconds unit * 10 ^ 9)
unfolding nanoseconds
nanoseconds-letter minutes = refl
nanoseconds-letter hours = refl
nanoseconds-letter days = refl

len-cons_positive : (c : Char) (s : String) → len s < len (c ∷ s)
len-cons_positive c s = omega (arith, len.cons c s, (len_utf8-pos c).1)

len-append_positive : (s : String) (d : Char) → 0 < len (s ^^ (d ∷ []))
len-append_positive [] d = rw (nil-append (d ∷ [])) (omega (arith, len-cons_positive d []))
len-append_positive (c ∷ s) d =
    rw (cons-append c s (d ∷ [])) (omega (arith, len-cons_positive c (s ^^ (d ∷ []))))

two_bytes : (c d : Char) (s : String) → ltb (len (c ∷ (s ^^ (d ∷ [])))) 2 ≡ false
two_bytes c d s = ground (arith, len-cons_positive c (s ^^ (d ∷ [])), len-append_positive s d)

abbrev FoundUnit : ℕ → ℕ → ℤ → Type 0
FoundUnit byte n d =
    (unit : TimeUnit) × (byte ≡ code (letter unit)) × (wrap64 (n * (seconds unit * 10 ^ 9)) ≡ d)

scaled-FoundUnit : (byte n : ℕ) (d : ℤ) → scaled n (nanoseconds byte) ≡ after d → FoundUnit byte n d
unfolding scaled nanoseconds
scaled-FoundUnit byte n d h = elim (Bool-cases (byte == b'd')) [
  | inl e ↦ (days, ground arith, ground arith)
  | inr not_days ↦ elim (Bool-cases (byte == b'h')) [
    | inl e ↦ (hours, ground arith, ground arith)
    | inr not_hours ↦ elim (Bool-cases (byte == b'm')) [
      | inl e ↦ (minutes, ground arith, ground arith)
      | inr not_minutes ↦ absurd (ground arith)
    ]
  ]
]

duration_in-FoundUnit :
    (byte : ℕ) (o : Option ℤ) (d : ℤ)
    → duration_in byte o ≡ after d
    → (n : ℕ) × (o ≡ some (pos n)) × (0 < n) × FoundUnit byte n d
unfolding duration_in
duration_in-FoundUnit byte none d h = absurd cc
duration_in-FoundUnit byte (some (negsuc n)) d h = absurd cc
duration_in-FoundUnit byte (some (pos zero)) d h = absurd cc
duration_in-FoundUnit byte (some (pos (suc n))) d h =
    (suc n, refl, omega arith, scaled-FoundUnit byte (suc n) d h)

duration_in-letter :
    (unit : TimeUnit) (n : ℕ)
    → 0 < n
    → duration_in (code (letter unit)) (some (pos n)) ≡ after (wrap64 (n * (seconds unit * 10 ^ 9)))
unfolding duration_in scaled
duration_in-letter unit zero h = absurd (omega arith)
duration_in-letter unit (suc n) h = rw (nanoseconds-letter unit) refl

letter_small : (unit : TimeUnit) → leb 128 (code (letter unit)) ≡ false
letter_small minutes = refl
letter_small hours = refl
letter_small days = refl

-- The tests that come before the number is read.
tested :
    (short wide : Bool) (r : ExpiryResult) (d : ℤ)
    → (if short then bad too_short else if wide then bad not_positive else r) ≡ after d
    → r ≡ after d
tested true wide r d h = absurd cc
tested false true r d h = absurd cc
tested false false r d h = h

abbrev judged : Bool → String × ℕ → ExpiryResult
judged short parts =
    if short
    then bad too_short
    else if leb 128 parts.1
    then bad not_positive
    else duration_in parts.1 (atoi parts.0)

parse_trimmed-Says : (text : String) (d : ℤ) → parse_trimmed text ≡ after d → Says text d
unfolding parse_trimmed
parse_trimmed-Says [] d h = absurd cc
parse_trimmed-Says (c ∷ s) d h =
    let (front, last, cut, whole) = split_last_lem c s in
    let short = ltb (len (c ∷ s)) 2 in
    let read : judged short (front, code last) ≡ after d = ap (judged short) (sym cut) ∙ h in
    let (n, number, positive, (unit, byte, value)) =
      duration_in-FoundUnit (code last) (atoi front) d
        (tested short (leb 128 (code last)) (duration_in (code last) (atoi front)) d read) in
    (
      unit,
      front,
      n,
      whole ∙ ap (λ x. front ^^ (x ∷ [])) (Char-path last (letter unit) byte),
      number,
      positive,
      subst (WrapsTo (n * (seconds unit * 10 ^ 9))) value
          (wrap64-WrapsTo (n * (seconds unit * 10 ^ 9))),
    )

parse_trimmed-letter :
    (unit : TimeUnit) (digits : String) (n : ℕ)
    → atoi digits ≡ some (pos n)
    → 0 < n
    → parse_trimmed (digits ^^ (letter unit ∷ [])) ≡ after (wrap64 (n * (seconds unit * 10 ^ 9)))
unfolding parse_trimmed
parse_trimmed-letter unit [] n number h = absurd (unfold atoi in cc)
parse_trimmed-letter unit (c ∷ s) n number h =
    rw
      (
        cons-append c s (letter unit ∷ []),
        split_last-append c (letter unit) s,
        two_bytes c (letter unit) s,
        letter_small unit,
        number,
      )
      (duration_in-letter unit n h)

-- `ParseExpiryDuration` accepts exactly the texts that, trimmed, are a positive number that `Atoi` reads
-- with m, h or d behind it; what it adds to the time is the number times 60, 3600 or 86400 seconds in
-- nanoseconds, up to a multiple of 2 ^ 64 that brings it into 64 bits with a sign.
pub parse_expiry_duration_lem :
    (raw : String) (d : ℤ) → parse_expiry_duration raw ≡ after d ↔ Says (trim_space raw) d
unfolding parse_expiry_duration
parse_expiry_duration_lem raw d = (
  parse_trimmed-Says (trim_space raw) d,
  λ (unit, digits, n, text, number, positive, value).
      ap parse_trimmed text
      ∙ parse_trimmed-letter unit digits n number positive
      ∙ ap after (WrapsTo-wrap64 (n * (seconds unit * 10 ^ 9)) d value),
)
