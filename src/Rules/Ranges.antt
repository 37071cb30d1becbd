-- ===== src/Rules/Ranges.antt =====
-- Which versions the constraints `^` and `~` accept.
use devdiag.Base.{
  drop_prefix, trim_prefix, ◌∙◌, inr, inl, has_prefix, ◌≢◌, ap, if◌then◌else◌, Bool-cases, ◌^◌, ◌+◌,
  All, ◌||◌, ℕ, zero, suc, ◌<◌, ◌≤◌, String, List, [], ◌∷◌, Option, none, some, Bool, true, false,
  ltb, ◌≡◌, refl, arith, ◌&&◌, ◌==◌, map,
}
use devdiag.Base.Number.{ℤ, pos, wrap64_small}
use devdiag.Rules.Versions.{
  non_empty, compare_version_parts, caret_upper_bound, tilde_upper_bound, between, satisfied,
  parse_version_parts, holds, at_least, below,
}

abbrev ints : List ℕ → List ℤ
ints ns = map pos ns

-- A version's part at a place, which is 0 behind its end.
abbrev pub part : ℕ → List ℕ → ℕ
part n [] = 0
part zero (a ∷ v) = a
part (suc n) (a ∷ v) = part n v

compare-nil : (v : List ℕ) → holds below (compare_version_parts (map pos v) []) ≡ false
unfolding compare_version_parts
compare-nil [] = refl
compare-nil (a ∷ v) = ground (arith, compare-nil v)

below_one :
    (n : ℕ) (v : List ℕ)
    → holds below (compare_version_parts (map pos v) (pos n ∷ [])) ≡ ltb (part 0 v) n
unfolding compare_version_parts
below_one n [] = ground arith
below_one n (a ∷ v) = ground (arith, compare-nil v)

below_two :
    (m n : ℕ) (v : List ℕ)
    → holds below (compare_version_parts (map pos v) (pos m ∷ pos n ∷ []))
      ≡ (ltb (part 0 v) m || (part 0 v == m && ltb (part 1 v) n))
unfolding compare_version_parts
below_two m n [] = ground arith
below_two m n (a ∷ v) = ground (arith, below_one n v)

-- The first part of a version that is not older.
first_le :
    (b : ℕ) (bs v : List ℕ)
    → holds at_least (compare_version_parts (map pos v) (map pos (b ∷ bs))) ≡ true
    → b ≤ part 0 v
unfolding compare_version_parts
first_le b bs [] h = ground arith
first_le b bs (a ∷ v) h = ground arith

second_le :
    (b c : ℕ) (bs v : List ℕ)
    → holds at_least (compare_version_parts (map pos v) (map pos (b ∷ c ∷ bs))) ≡ true
    → part 0 v ≡ b
    → c ≤ part 1 v
unfolding compare_version_parts
second_le b c bs [] h e = ground arith
second_le b c bs (a ∷ v) h e = first_le c bs v (ground arith)

abbrev pub not_older : List ℕ → List ℕ → Bool
not_older v base = holds at_least (compare_version_parts (map pos v) (map pos base))

-- The parts that `^` keeps: the first, and with it the second where the first is 0.
abbrev pub keeps_major : List ℕ → List ℕ → Bool
keeps_major v [] = false
keeps_major v (b ∷ []) = part 0 v == b
keeps_major v (b ∷ c ∷ bs) = part 0 v == b && (ltb 0 b || part 1 v == c)

-- The parts that `~` keeps: the first two of the base, as far as it has them.
abbrev pub keeps_minor : List ℕ → List ℕ → Bool
keeps_minor v [] = false
keeps_minor v (b ∷ []) = part 0 v == b
keeps_minor v (b ∷ c ∷ bs) = part 0 v == b && part 1 v == c

abbrev pub IsSmall : List ℕ → Type 0
IsSmall = All (λ n. n + 1 < 2 ^ 63)

-- The bounds of a base whose parts do not overflow.
caret-one : (b : ℕ) → b + 1 < 2 ^ 63 → caret_upper_bound (pos b ∷ []) ≡ pos (b + 1) ∷ []
unfolding caret_upper_bound
caret-one b h = elim (Bool-cases (ltb 0 b)) [
  | inl e ↦ rw (e, wrap64_small (b + 1) h)
  | inr e ↦ rw e (ap (λ n. pos n ∷ []) (ground arith))
]

caret-two :
    (b c : ℕ) (rest : List ℤ)
    → b + 1 < 2 ^ 63
    → c + 1 < 2 ^ 63
    → caret_upper_bound (pos b ∷ pos c ∷ rest)
      ≡ (if ltb 0 b then pos (b + 1) ∷ [] else pos 0 ∷ pos (c + 1) ∷ [])
unfolding caret_upper_bound
caret-two b c rest h k = rw (wrap64_small (b + 1) h, wrap64_small (c + 1) k)

between-caret :
    (v base : List ℕ)
    → IsSmall base
    → base ≢ []
    → between caret_upper_bound (map pos v) (some (map pos base))
      ≡ some (not_older v base && keeps_major v base)
between-caret v [] h ne = absurd (ne refl)
between-caret v (b ∷ []) h ne =
    rw (caret-one b h.0, below_one (b + 1) v) (ground (arith, first_le b [] v))
between-caret v (b ∷ c ∷ bs) h ne = elim (Bool-cases (ltb 0 b)) [
  | inl e ↦
      rw (caret-two b c (map pos bs) h.0 h.1.0, e, below_one (b + 1) v)
        (ground (arith, first_le b (c ∷ bs) v))
  | inr e ↦
      rw (caret-two b c (map pos bs) h.0 h.1.0, e, below_two 0 (c + 1) v)
        (ground (arith, first_le b (c ∷ bs) v, second_le b c bs v))
]

between-tilde :
    (v base : List ℕ)
    → IsSmall base
    → base ≢ []
    → between tilde_upper_bound (map pos v) (some (map pos base))
      ≡ some (not_older v base && keeps_minor v base)
unfolding tilde_upper_bound
between-tilde v [] h ne = absurd (ne refl)
between-tilde v (b ∷ []) h ne =
    rw (wrap64_small (b + 1) h.0, below_one (b + 1) v) (ground (arith, first_le b [] v))
between-tilde v (b ∷ c ∷ bs) h ne =
    rw (wrap64_small (c + 1) h.1.0, below_two b (c + 1) v)
      (ground (arith, first_le b (c ∷ bs) v, second_le b c bs v))

parse-ne-nil :
    (text : String) {base : List ℕ} → parse_version_parts text ≡ some (map pos base) → base ≢ []
unfolding parse_version_parts
parse-ne-nil text {base} e n = clash _ _ (e ∙ ap (λ ns. some (map pos ns)) n)
  where
    clash : (b : Bool) (o : Option (List ℤ)) → (if b then none else non_empty o) ≡ some [] → ⊥
    clash true o k = cc
    clash false none k = cc
    clash false (some []) k = cc
    clash false (some (n ∷ ns)) k = cc

-- Of a version and a base read from the text, with no part near the end of 64 bits: `^` accepts the
-- version exactly if it is not older than the base and has the base's first part, and where that part
-- is 0 and a second is given, that one too. `~` accepts it exactly if it is not older and has the
-- base's first part and the second where one is given. Both answer, whatever the version.
pub satisfied_lem :
    (text : String) (v base : List ℕ)
    → IsSmall base
    → has_prefix text ">" ≡ false
    → parse_version_parts text ≡ some (map pos base)
    → (satisfied (String.◌∷◌ "^" text) (map pos v) ≡ some (not_older v base && keeps_major v base))
      × (satisfied (String.◌∷◌ "~" text) (map pos v)
          ≡ some (not_older v base && keeps_minor v base))
unfolding satisfied has_prefix trim_prefix drop_prefix
satisfied_lem text v base h g e = (
  rw e (between-caret v base h (parse-ne-nil text e)),
  rw (g, e) (between-tilde v base h (parse-ne-nil text e)),
)
