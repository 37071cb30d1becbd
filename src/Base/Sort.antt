-- ===== src/Base/Sort.antt =====
-- `sort.SliceStable` and `sort.Slice` of the Go library, as one stable insertion sort: the first
-- promises the stable order, the second any order that sorts.

pub mod Unique
use mathlib.Core.Path.{◌≡◌, refl, subst}
use mathlib.Core.Bool.{Bool, true, false, ◌&&◌, ◌||◌, not}
use mathlib.Core.List.{List, [], ◌∷◌, Perm}
use mathlib.Core.List.Perm
use native.Mathlib.Omega.{arith}
use devdiag.Base.Tests.{if◌then◌else◌, Bool-cases}
use mathlib.Core.Logic.{inl, inr}
use devdiag.Base.Lists.{keep, any, count, Any, All, All-map}

-- What Go asks of `less`: a strict weak order.
pub record StrictWeak {ℓ} {A : Type ℓ} (less : A → A → Bool) : Type ℓ where
  pub asym : (a b : A) → less a b ≡ true → less b a ≡ false
  pub neg_trans : (a b c : A) → less b a ≡ false → less c b ≡ false → less c a ≡ false

module _ {ℓ} {A : Type ℓ} (less : A → A → Bool) where
  -- `x` stood before every element of the list, so it goes before its equals.
  unfoldable pub insert : A → List A → List A
  insert x [] = x ∷ []
  insert x (y ∷ ys) = if less y x then y ∷ insert x ys else x ∷ y ∷ ys

  unfoldable pub sort : List A → List A
  unfolding insert
  sort [] = []
  sort (x ∷ xs) = insert x (sort xs)

  -- No element goes before one that stands ahead of it.
  abbrev pub IsSorted : List A → Type 0
  IsSorted [] = Unit
  IsSorted (x ∷ xs) = All (λ y. less y x ≡ false) xs × IsSorted xs

  -- Neither goes before the other.
  abbrev pub tied : A → A → Bool
  tied a b = not (less a b) && not (less b a)

module _ {ℓ} {A : Type ℓ} (less : A → A → Bool) where
  pub insert-perm : (x : A) (xs : List A) → Perm (insert less x xs) (x ∷ xs)
  unfolding insert
  insert-perm x [] = Perm.refl (x ∷ [])
  insert-perm x (y ∷ ys) = elim (Bool-cases (less y x)) [
    | inl e ↦ rw e (Perm.trans (Perm.cons y (insert-perm x ys)) (Perm.swap x y ys))
    | inr e ↦ rw e (Perm.refl (x ∷ y ∷ ys))
  ]

  pub sort-perm : (xs : List A) → Perm (sort less xs) xs
  unfolding sort
  sort-perm [] = Perm.refl []
  sort-perm (x ∷ xs) = Perm.trans (insert-perm x (sort less xs)) (Perm.cons x (sort-perm xs))

  pub All-insert {κ} :
      (P : A → Type κ) (x : A) (xs : List A) → P x → All P xs → All P (insert less x xs)
  unfolding insert
  All-insert P x [] px h = (px, tt)
  All-insert P x (y ∷ ys) px h = elim (Bool-cases (less y x)) [
    | inl e ↦ rw e (h.0, All-insert P x ys px h.1)
    | inr e ↦ rw e (px, h)
  ]

  pub All-sort {κ} : (P : A → Type κ) (xs : List A) → All P xs → All P (sort less xs)
  unfolding sort
  All-sort P [] h = tt
  All-sort P (x ∷ xs) h = All-insert P x (sort less xs) h.0 (All-sort P xs h.1)

  pub any-insert :
      (p : A → Bool) (x : A) (xs : List A) → any p (insert less x xs) ≡ (p x || any p xs)
  unfolding insert
  any-insert p x [] = refl
  any-insert p x (y ∷ ys) = ground (arith, any-insert p x ys)

  pub any-sort : (p : A → Bool) (xs : List A) → any p (sort less xs) ≡ any p xs
  unfolding sort
  any-sort p [] = refl
  any-sort p (x ∷ xs) = rw (any-insert p x (sort less xs)) (ground (arith, any-sort p xs))

module _ {ℓ} {A : Type ℓ} {less : A → A → Bool} (order : StrictWeak less) where
  insert-IsSorted : (x : A) (xs : List A) → IsSorted less xs → IsSorted less (insert less x xs)
  unfolding insert
  insert-IsSorted x [] h = (tt, tt)
  insert-IsSorted x (y ∷ ys) h = elim (Bool-cases (less y x)) [
    | inl e ↦ rw e (
      All-insert less (λ z. less z y ≡ false) x ys (order.asym y x e) h.0,
      insert-IsSorted x ys h.1,
    )
    | inr e ↦ rw e (
      (
        e,
        All-map (λ z. less z y ≡ false) (λ z. less z x ≡ false) ys
            (λ z k. order.neg_trans x y z e k) h.0,
      ),
      h,
    )
  ]

  pub sort-IsSorted : (xs : List A) → IsSorted less (sort less xs)
  unfolding sort
  sort-IsSorted [] = tt
  sort-IsSorted (x ∷ xs) = insert-IsSorted x (sort less xs) (sort-IsSorted xs)

  keep-insert :
      (e x : A) (xs : List A) → keep (tied less e) (insert less x xs) ≡ keep (tied less e) (x ∷ xs)
  unfolding insert
  keep-insert e x [] = refl
  keep-insert e x (y ∷ ys) = ground (
    arith,
    keep-insert e x ys,
    order.neg_trans e y x,
    order.neg_trans x e y,
    order.neg_trans y e x,
    order.asym y x,
  )

  -- Elements that tie keep their order.
  pub sort_stable :
      (e : A) (xs : List A) → keep (tied less e) (sort less xs) ≡ keep (tied less e) xs
  unfolding sort
  sort_stable e [] = refl
  sort_stable e (x ∷ xs) = rw (keep-insert e x (sort less xs)) (ground (arith, sort_stable e xs))

module _ {ℓ κ} {A : Type ℓ} (less : A → A → Bool) (P : A → Type κ) where
  All-of_insert : (x : A) (xs : List A) → All P (insert less x xs) → P x × All P xs
  unfolding insert
  All-of_insert x [] h = h
  All-of_insert x (y ∷ ys) h = elim (Bool-cases (less y x)) [
    | inl e ↦
        let k = subst (All P) (later e) h in
        let (px, rest) = All-of_insert x ys k.1 in (px, (k.0, rest))
    | inr e ↦ subst (All P) (first e) h
  ]
    where
      later : less y x ≡ true → insert less x (y ∷ ys) ≡ y ∷ insert less x ys
      later e = rw e

      first : less y x ≡ false → insert less x (y ∷ ys) ≡ x ∷ y ∷ ys
      first e = rw e

  -- What holds of the sorted elements holds of the given ones.
  pub All-of_sort : (xs : List A) → All P (sort less xs) → All P xs
  unfolding sort
  All-of_sort [] h = tt
  All-of_sort (x ∷ xs) h =
      let (px, rest) = All-of_insert x (sort less xs) h in (px, All-of_sort xs rest)

module _ {ℓ} {A : Type ℓ} (less : A → A → Bool) where
  insert_first : (x : A) (xs : List A) → All (λ y. less y x ≡ false) xs → insert less x xs ≡ x ∷ xs
  unfolding insert
  insert_first x [] h = refl
  insert_first x (y ∷ ys) h = rw h.0

  -- A list in order stays as it is.
  pub sort-eq_of_IsSorted : (xs : List A) → IsSorted less xs → sort less xs ≡ xs
  unfolding sort
  sort-eq_of_IsSorted [] h = refl
  sort-eq_of_IsSorted (x ∷ xs) h = rw (sort-eq_of_IsSorted xs h.1) (insert_first x xs h.0)

module _ {ℓ} {A : Type ℓ} (less : A → A → Bool) where
  Any-insert : (P : A → Type 0) (x : A) (xs : List A) → Any P (x ∷ xs) → Any P (insert less x xs)
  unfolding insert
  Any-insert P x [] h = h
  Any-insert P x (y ∷ ys) (inl h) = elim (Bool-cases (less y x)) [
    | inl e ↦ rw e (inr (Any-insert P x ys (inl h)))
    | inr e ↦ rw e (inl h)
  ]
  Any-insert P x (y ∷ ys) (inr (inl h)) = elim (Bool-cases (less y x)) [
    | inl e ↦ rw e (inl h)
    | inr e ↦ rw e (inr (inl h))
  ]
  Any-insert P x (y ∷ ys) (inr (inr h)) = elim (Bool-cases (less y x)) [
    | inl e ↦ rw e (inr (Any-insert P x ys (inr h)))
    | inr e ↦ rw e (inr (inr h))
  ]

  pub Any-sort : (P : A → Type 0) (xs : List A) → Any P xs → Any P (sort less xs)
  unfolding sort
  Any-sort P (x ∷ xs) (inl h) = Any-insert P x (sort less xs) (inl h)
  Any-sort P (x ∷ xs) (inr h) = Any-insert P x (sort less xs) (inr (Any-sort P xs h))
  Any-sort P [] h = h

  pub count-insert :
      (p : A → Bool) (x : A) (xs : List A) → count p (insert less x xs) ≡ count p (x ∷ xs)
  unfolding insert
  count-insert p x [] = refl
  count-insert p x (y ∷ ys) = ground (arith, count-insert p x ys)

  pub count-sort : (p : A → Bool) (xs : List A) → count p (sort less xs) ≡ count p xs
  unfolding sort
  count-sort p [] = refl
  count-sort p (x ∷ xs) = rw (count-insert p x (sort less xs)) (ground (arith, count-sort p xs))
