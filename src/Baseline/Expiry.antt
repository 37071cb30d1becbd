-- ===== src/Baseline/Expiry.antt =====
-- `ParseExpiryDuration` of internal/baseline/baseline.go. A duration is a signed number of
-- nanoseconds of 64 bits, so that the products wrap around.
pub mod Read
use Prim.Native.Char.{Char, code}
use Prim.Native.String.{len}
use devdiag.Base.{
  arith, ◌-◌, ◌^◌, ◌<◌, leb, ℕ, zero, suc, ◌*◌, String, Option, none, some, ◌≡◌, refl, ltb, ◌==◌,
  trim_space, if◌then◌else◌,
}
use devdiag.Base.Number.{wrap64_signed, ℤ, pos, negsuc, atoi, wrap64}

-- All but the last character of a text, and that character. Where it is no byte, what Go cuts off is
-- its last byte, and what is left is no number.
unfoldable pub split_last : Char → String → String × ℕ
split_last c String.[] = (String.[], code c)
split_last c (String.◌∷◌ d s) = let (front, last) = split_last d s in (String.◌∷◌ c front, last)

unfoldable pub nanoseconds : ℕ → Option ℕ
nanoseconds unit =
    if unit == b'd'
    then some (24 * 3600000000000)
    else if unit == b'h'
    then some 3600000000000
    else if unit == b'm'
    then some 60000000000
    else none

-- The errors, as what they are about.
pub data ExpiryError : Type 0 where
  empty_duration too_short not_positive unknown_unit : ExpiryError

pub data ExpiryResult : Type 0 where
  after : ℤ → ExpiryResult
  bad : ExpiryError → ExpiryResult

unfoldable pub scaled : ℕ → Option ℕ → ExpiryResult
scaled n none = bad unknown_unit
scaled n (some ns) = after (wrap64 (n * ns))

-- The result is the duration that is added to `now`.
unfoldable pub duration_in : ℕ → Option ℤ → ExpiryResult
unfolding scaled
duration_in unit none = bad not_positive
duration_in unit (some (negsuc n)) = bad not_positive
duration_in unit (some (pos zero)) = bad not_positive
duration_in unit (some (pos (suc n))) = scaled (suc n) (nanoseconds unit)

unfoldable pub parse_trimmed : String → ExpiryResult
unfolding split_last duration_in nanoseconds
parse_trimmed String.[] = bad empty_duration
parse_trimmed (String.◌∷◌ c s) =
    let (front, unit) = split_last c s in
    if ltb (len (String.◌∷◌ c s)) 2
    then bad too_short
    else if leb 128 unit
    then bad not_positive
    else duration_in unit (atoi front)

unfoldable pub parse_expiry_duration : String → ExpiryResult
unfolding parse_trimmed
parse_expiry_duration raw = parse_trimmed (trim_space raw)

thirty_days : parse_expiry_duration " 30d" ≡ after (pos 2592000000000000)
unfolding parse_expiry_duration trim_space atoi wrap64
thirty_days = refl

-- 106752 days are more than 64 bits of nanoseconds, and count as a time in the past.
too_many_days : parse_expiry_duration "106752d" ≡ after (negsuc 9223371273709551615)
unfolding parse_expiry_duration trim_space atoi wrap64
too_many_days = refl
