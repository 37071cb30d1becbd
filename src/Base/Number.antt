-- ===== src/Base/Number.antt =====
-- Signed integers of 64 bits, and `strconv.Atoi`.
use Prim.Native.Char.{code}
use Prim.Native.Nat.{zero, ℕ, suc, ◌/◌, ◌+◌, ◌-◌, ◌*◌, ◌%◌, ◌^◌, ◌<◌}
use Prim.Native.String.{◌++◌, [], ◌∷◌, String}
use mathlib.Core.Path.{◌≡◌, refl}
use mathlib.Core.Bool.{◌||◌, Bool, true, false, ◌&&◌}
use mathlib.Core.Option.{Option, none, some}
use native.Mathlib.Omega.{arith}
use devdiag.Base.Tests.{ltb, leb, ◌==◌, if◌then◌else◌}

-- `negsuc n` is -(n + 1).
pub data ℤ : Type 0 where
  pos : ℕ → ℤ
  negsuc : ℕ → ℤ

abbrev pub negate : ℕ → ℤ
negate n = if n == 0 then pos 0 else negsuc (n - 1)

-- The number of 64 bits that a natural number wraps around to.
unfoldable pub wrap64 : ℕ → ℤ
wrap64 n = let r = n % 2 ^ 64 in if ltb r (2 ^ 63) then pos r else negsuc (2 ^ 64 - r - 1)

-- A number in range is itself.
pub wrap64_small : (n : ℕ) → n < 2 ^ 63 → wrap64 n ≡ pos n
unfolding wrap64
wrap64_small n h = ground arith

-- A number of 64 bits is itself, or less than 0 where it takes the highest bit.
pub wrap64_signed :
    (n : ℕ) → n < 2 ^ 64 → wrap64 n ≡ (if ltb n (2 ^ 63) then pos n else negsuc (2 ^ 64 - n - 1))
unfolding wrap64
wrap64_signed n h = ground arith

-- Decimal digits, one at least for a caller that asks for them.
unfoldable pub digits : ℕ → String → Option ℕ
digits n [] = some n
digits n (c ∷ s) =
    let rest = digits (n * 10 + (code c - 48)) s in
    if leb 48 (code c) && leb (code c) 57 then rest else none

unfoldable pub magnitude : String → Option ℕ
unfolding digits
magnitude [] = none
magnitude (c ∷ s) = digits 0 (c ∷ s)

-- Of a magnitude, with its sign, what a signed number of 64 bits can hold.
unfoldable pub signed : Bool → Option ℕ → Option ℤ
signed negative none = none
signed true (some n) = if leb n (2 ^ 63) then some (negate n) else none
signed false (some n) = if ltb n (2 ^ 63) then some (pos n) else none

-- `strconv.Atoi`: digits behind an optional sign, in range
unfoldable pub atoi : String → Option ℤ
unfolding magnitude signed
atoi [] = none
atoi (c ∷ s) =
    if code c == b'-'
    then signed true (magnitude s)
    else if code c == b'+'
    then signed false (magnitude s)
    else signed false (magnitude (c ∷ s))

-- How far from 0 the value of `Atoi` is where its error is dropped: 0 for what is no number, and past
-- 64 bits the digits behind are not looked at.
unfoldable pub atoi_distance : ℕ → String → ℕ
atoi_distance n [] = n
atoi_distance n (c ∷ s) =
    let m = n * 10 + (code c - 48) in
    let rest = atoi_distance m s in
    if leb 48 (code c) && leb (code c) 57 then if leb (2 ^ 64) m then m else rest else 0

abbrev pub without_sign : String → String
without_sign [] = []
without_sign (c ∷ s) = if code c == b'-' || code c == b'+' then s else c ∷ s

-- `count, _ := strconv.Atoi(s)` and `count == 0`
unfoldable pub counts_none : String → Bool
counts_none s = atoi_distance 0 (without_sign s) == 0

counts :
    (counts_none "" ≡ true)
    × (counts_none "2" ≡ false)
    × (counts_none "none" ≡ true)
    × (counts_none "-0" ≡ true)
    × (counts_none "99999999999999999999x" ≡ false)
unfolding counts_none atoi_distance
counts = (refl, refl, refl, refl, refl)

digit_text : ℕ → String → String
digit_text n [] = []
digit_text zero (c ∷ s) = c ∷ []
digit_text (suc n) (c ∷ s) = digit_text n s

-- A round for each digit: a number is above its tenth, so that it is fuel enough.
itoa_loop : ℕ → ℕ → String → String
unfolding digit_text
itoa_loop zero n text = text
itoa_loop (suc fuel) n text =
    let front = digit_text (n % 10) "0123456789" ++ text in
    let rest = itoa_loop fuel (n / 10) front in if ltb n 10 then front else rest

unfoldable pub itoa_nat : ℕ → String
unfolding itoa_loop
itoa_nat n = itoa_loop (suc n) n ""

-- `strconv.Itoa`
unfoldable pub itoa : ℤ → String
unfolding itoa_nat
itoa (pos n) = itoa_nat n
itoa (negsuc n) = "-" ++ itoa_nat (suc n)

prints : (itoa (pos 65535) ≡ "65535") × (itoa (negsuc 0) ≡ "-1") × (itoa (pos 0) ≡ "0")
unfolding itoa
prints = (refl, refl, refl)

-- `Atoi` answers within 64 bits.
pub atoi_bound : (s : String) (n : ℕ) → atoi s ≡ some (pos n) → n < 2 ^ 63
unfolding atoi
atoi_bound [] n h = cc
atoi_bound (c ∷ s) n h = ground arith

atoi_reads : (atoi "90" ≡ some (pos 90)) × (atoi "-7" ≡ some (negsuc 6)) × (atoi "9x" ≡ none)
unfolding atoi
atoi_reads = (refl, refl, refl)

atoi_range : (atoi "9223372036854775808" ≡ none) × (atoi "" ≡ none) × (atoi "+5" ≡ some (pos 5))
unfolding atoi
atoi_range = (refl, refl, refl)
