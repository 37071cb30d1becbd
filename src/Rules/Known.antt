-- ===== src/Rules/Known.antt =====
-- The findings of the engines and the tables that other parts look them up in: the domains of
-- internal/domain and the fix templates of internal/fix.
pub mod Single
pub mod Containers
pub mod Every
pub mod Devices
pub mod Parity
use devdiag.Base.{
  map, arith, String, List, [], ◌∷◌, ◌++◌, Bool, true, false, ◌&&◌, ◌||◌, ◌≡◌, refl, all, is_some,
  has_prefix, if◌then◌else◌, All,
}
use devdiag.Schema.{Finding}
use devdiag.Domain.{find_domain_by_finding_id}
use devdiag.Fix.Registry.{lookup, new_registry}

-- An ID has a domain.
unfoldable pub has_domain : String → Bool
has_domain id = is_some (find_domain_by_finding_id id)

-- A hint has a template.
unfoldable pub has_template : String → Bool
has_template hint = is_some (lookup hint new_registry)

-- The ID has a domain and every hint a template, but for the hints of the security rules.
unfoldable pub is-AreKnown : Finding → Bool
is-AreKnown f = has_domain f.id && (has_prefix f.id "F-SEC-" || all has_template f.fix_hints)

abbrev pub IsKnown : Finding → Type 0
IsKnown f = is-AreKnown f ≡ true

-- Every finding of a list is known: a family, so that a rule for each way to build a list applies.
pub data AreKnown : List Finding → Type 0 where
  none_known : AreKnown []
  more_known : {f : Finding} {fs : List Finding} → IsKnown f → AreKnown fs → AreKnown (f ∷ fs)

pub one_known : {f : Finding} → IsKnown f → AreKnown (f ∷ [])
one_known h = more_known h none_known

infixr 5 ◌and◌
pub ◌and◌ : {xs ys : List Finding} → AreKnown xs → AreKnown ys → AreKnown (xs ++ ys)
none_known and k = k
(more_known h hs) and k = more_known h (hs and k)

pub branch :
    (b : Bool) {xs ys : List Finding} → AreKnown xs → AreKnown ys → AreKnown (if b then xs else ys)
branch true h k = h
branch false h k = k

pub AreKnown-All : {fs : List Finding} → AreKnown fs → All IsKnown fs
AreKnown-All none_known = tt
AreKnown-All (more_known h hs) = (h, AreKnown-All hs)

pub known : (f : Finding) → has_domain f.id ≡ true → all has_template f.fix_hints ≡ true → IsKnown f
unfolding is-AreKnown
known f h k = ground arith

pub map-AreKnown :
    {A : Type 0} (f : A → Finding) (xs : List A) → ((a : A) → IsKnown (f a)) → AreKnown (map f xs)
map-AreKnown f [] h = none_known
map-AreKnown f (x ∷ xs) h = more_known (h x) (map-AreKnown f xs h)
