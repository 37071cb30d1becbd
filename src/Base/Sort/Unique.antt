-- ===== src/Base/Sort/Unique.antt =====
-- Where no two elements are tied, a sorted list does not depend on the order of what was sorted.
use mathlib.Core.Path.{◌≡◌, refl, ap, ◌∙◌}
use mathlib.Core.Logic.{inl, inr, ∥∥₁_elim}
use mathlib.Core.Bool.{Bool, false}
use mathlib.Core.List.{List, [], ◌∷◌, Perm, Permᴰ}
use native.Mathlib.Omega.{arith}
use mathlib.Core.HLevel.{prop→set}
use text.Mathlib.TextEquality.{IsScalar-prop}
use Prim.Native.Char.{IsScalar}
use Prim.Native.Nat.{ℕ}
use Prim.Native.String.{String}
use devdiag.Base.Tests.{Bool-cases}
use devdiag.Base.Lists.{keep}
use devdiag.Base.Sort.{StrictWeak, insert, sort}
use devdiag.Base.Text.Order.{str_lt, str_lt-StrictWeak, str_lt_total}

module _ {ℓ} {A : Type ℓ} {less : A → A → Bool} (order : StrictWeak less)
    (total : (a b : A) → less a b ≡ false → less b a ≡ false → a ≡ b) where
  insert_comm :
      (x y : A) (zs : List A) → insert less x (insert less y zs) ≡ insert less y (insert less x zs)
  unfolding insert
  insert_comm x y [] = ground (arith, order.asym x y, order.asym y x, total x y)
  insert_comm x y (z ∷ zs) = ground (
    arith,
    order.asym x y,
    order.asym y x,
    total x y,
    order.neg_trans x y z,
    order.neg_trans y x z,
    insert_comm x y zs,
  )

  insert-kept :
      (p : A → Bool) (a : A) (xs ys : List A)
      → sort less (keep p xs) ≡ sort less (keep p ys)
      → sort less (keep p (a ∷ xs)) ≡ sort less (keep p (a ∷ ys))
  unfolding sort
  insert-kept p a xs ys h = elim (Bool-cases (p a)) [
    | inl e ↦ rw e (ap (insert less a) h)
    | inr e ↦ rw e h
  ]

  swap-kept :
      (p : A → Bool) (a b : A) (xs : List A)
      → sort less (keep p (a ∷ b ∷ xs)) ≡ sort less (keep p (b ∷ a ∷ xs))
  unfolding sort
  swap-kept p a b xs = elim (Bool-cases (p a)) [
    | inl e ↦ elim (Bool-cases (p b)) [
      | inl f ↦ rw (e, f) (insert_comm a b (sort less (keep p xs)))
      | inr f ↦ rw (e, f) refl
    ]
    | inr e ↦ elim (Bool-cases (p b)) [ inl f ↦ rw (e, f) refl | inr f ↦ rw (e, f) refl ]
  ]

  sort-keep_of_Permᴰ :
      (p : A → Bool) {xs ys : List A} → Permᴰ xs ys → sort less (keep p xs) ≡ sort less (keep p ys)
  unfolding sort
  sort-keep_of_Permᴰ p Permᴰ.nil = refl
  sort-keep_of_Permᴰ p (Permᴰ.cons {a} {b} {l₁} {l₂} e d) =
      insert-kept p a l₁ l₂ (sort-keep_of_Permᴰ p d) ∙ ap (λ c. sort less (keep p (c ∷ l₂))) e
  sort-keep_of_Permᴰ p (Permᴰ.swap {a} {b} {a'} {b'} {l} e f) =
      swap-kept p a b l
      ∙ (ap (λ c. sort less (keep p (b ∷ c ∷ l))) e ∙ ap (λ c. sort less (keep p (c ∷ b' ∷ l))) f)
  sort-keep_of_Permᴰ p (Permᴰ.trans c d) = sort-keep_of_Permᴰ p c ∙ sort-keep_of_Permᴰ p d

IsScalar-set : (n : ℕ) → IsSet (IsScalar n)
IsScalar-set n = prop→set (IsScalar-prop n)

words_set : IsSet (List String)
words_set = hlevel IsScalar-set

-- The words of a list that pass a test, sorted, whatever the order of the list.
pub sort-keep_of_Perm :
    (p : String → Bool) {xs ys : List String}
    → Perm xs ys
    → sort str_lt (keep p xs) ≡ sort str_lt (keep p ys)
sort-keep_of_Perm p {xs} {ys} h =
    ∥∥₁_elim h (words_set (sort str_lt (keep p xs)) (sort str_lt (keep p ys)))
      (sort-keep_of_Permᴰ str_lt-StrictWeak str_lt_total p)
