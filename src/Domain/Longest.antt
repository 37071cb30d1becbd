-- ===== src/Domain/Longest.antt =====
-- A finding's domain is that of the longest registered prefix of its ID.
use Prim.Native.String.{len}
use devdiag.Base.{
  All-self, sym, Any-map, Any-of_append, All-of_append, ◌⊎◌, ℕ, Any, all, Option-cases, not,
  is_empty, Bool, ◌≤◌, String, List, [], ◌∷◌, Option, none, some, true, false, ◌≡◌, refl,
  has_prefix, to_upper, arith, inl, inr, Bool-cases,
}
use devdiag.Base.Lists.{All, All-map, all→All}
use devdiag.Base.Sort.{All-sort, StrictWeak, IsSorted, sort, sort-IsSorted, All-of_sort}
use mathlib.Core.Path.{subst}
use devdiag.Domain.Registry.{Domain, domain_registry}
use devdiag.Domain.{
  domain_mappings, PrefixMapping, longer, all_mappings, sorted_prefix_mappings, first_match,
  domain_of, find_domain_by_finding_id,
}

longer-StrictWeak : StrictWeak longer
longer-StrictWeak = record { asym = λ a b h. ground arith; neg_trans = λ a b c h k. ground arith }

-- What a scan for the first match in a list of decreasing length answers.
abbrev pub IsLongest : String → List PrefixMapping → Option PrefixMapping → Type 0
IsLongest upper ms none = All (λ m. has_prefix upper m.prefix ≡ false) ms
IsLongest upper ms (some m) =
    (has_prefix upper m.prefix ≡ true)
    × All (λ n. has_prefix upper n.prefix ≡ true → len n.prefix ≤ len m.prefix) ms

first_match-IsLongest :
    (upper : String) (ms : List PrefixMapping)
    → IsSorted longer ms
    → IsLongest upper ms (first_match upper ms)
unfolding first_match
first_match-IsLongest upper [] h = tt
first_match-IsLongest upper (m ∷ ms) h = elim (Bool-cases (has_prefix upper m.prefix)) [
  | inl e ↦ rw e (e, (λ _. omega arith, All-map _ _ ms (λ n k _. ground arith) h.0))
  | inr e ↦ rw e (later (first_match upper ms) e (first_match-IsLongest upper ms h.1))
]
  where
    later :
        (found : Option PrefixMapping)
        → has_prefix upper m.prefix ≡ false
        → IsLongest upper ms found
        → IsLongest upper (m ∷ ms) found
    later none e k = (e, k)
    later (some n) e k = (k.0, (λ e'. cc, k.1))

IsLongest-of_sort :
    (upper : String) (ms : List PrefixMapping) (found : Option PrefixMapping)
    → IsLongest upper (sort longer ms) found
    → IsLongest upper ms found
IsLongest-of_sort upper ms none h = All-of_sort longer _ ms h
IsLongest-of_sort upper ms (some m) h = (h.0, All-of_sort longer _ ms h.1)

first_match-All :
    (P : PrefixMapping → Type 0) (upper : String) (ms : List PrefixMapping) (m : PrefixMapping)
    → All P ms
    → first_match upper ms ≡ some m
    → P m
unfolding first_match
first_match-All P upper [] m h e = cc
first_match-All P upper (n ∷ ms) m h e = elim (Bool-cases (has_prefix upper n.prefix)) [
  | inl t ↦ subst P (ground arith) h.0
  | inr t ↦ first_match-All P upper ms m h.1 (ground arith)
]

abbrev has_layers : PrefixMapping → Bool
has_layers m = not (is_empty m.domain.default_layers)

all_have_layers : all has_layers sorted_prefix_mappings ≡ true
unfolding sorted_prefix_mappings to_upper
all_have_layers = refl

-- The domain of a finding has at least one layer.
pub find_domain-layers :
    (id : String) (d : Domain)
    → find_domain_by_finding_id id ≡ some d
    → is_empty d.default_layers ≡ false
unfolding find_domain_by_finding_id sorted_prefix_mappings
find_domain-layers id d h = elim (Option-cases (first_match (to_upper id) sorted_prefix_mappings)) [
  | inl e ↦ ground arith
  | inr (m, e) ↦
      let k =
        first_match-All (λ n. has_layers n ≡ true) (to_upper id) sorted_prefix_mappings m
          (all→All has_layers sorted_prefix_mappings all_have_layers) e in
      ground arith
]

-- The mappings of a table, from its domains and their prefixes.
abbrev mapping : Domain → String → PrefixMapping
mapping d p = record { prefix = to_upper p; domain = d }

module _ (P : PrefixMapping → Type 0) where
  All-of_domain_mappings :
      (d : Domain) (ps : List String) → All P (domain_mappings d ps) → All (λ p. P (mapping d p)) ps
  unfolding domain_mappings
  All-of_domain_mappings d [] h = tt
  All-of_domain_mappings d (p ∷ ps) h = (h.0, All-of_domain_mappings d ps h.1)

  All-of_all_mappings :
      (ds : List Domain)
      → All P (all_mappings ds)
      → All (λ d. All (λ p. P (mapping d p)) d.prefixes) ds
  unfolding all_mappings
  All-of_all_mappings [] h = tt
  All-of_all_mappings (d ∷ ds) h =
      let (here, there) = All-of_append P (domain_mappings d d.prefixes) (all_mappings ds) h in
      (All-of_domain_mappings d d.prefixes here, All-of_all_mappings ds there)

  Any-of_domain_mappings :
      (d : Domain) (ps : List String) → Any P (domain_mappings d ps) → Any (λ p. P (mapping d p)) ps
  unfolding domain_mappings
  Any-of_domain_mappings d [] h = h
  Any-of_domain_mappings d (p ∷ ps) (inl h) = inl h
  Any-of_domain_mappings d (p ∷ ps) (inr h) = inr (Any-of_domain_mappings d ps h)

  Any-of_all_mappings :
      (ds : List Domain)
      → Any P (all_mappings ds)
      → Any (λ d. Any (λ p. P (mapping d p)) d.prefixes) ds
  unfolding all_mappings
  Any-of_all_mappings [] h = h
  Any-of_all_mappings (d ∷ ds) h =
      elim (Any-of_append P (domain_mappings d d.prefixes) (all_mappings ds) h) [
        | inl k ↦ inl (Any-of_domain_mappings d d.prefixes k)
        | inr k ↦ inr (Any-of_all_mappings ds k)
      ]

-- No prefix of the table that begins the ID is longer than a length.
abbrev pub NoneLonger : String → List Domain → ℕ → Type 0
NoneLonger upper ds n =
    All
      (λ d. All (λ p. (has_prefix upper (to_upper p) ≡ false) ⊎ (len (to_upper p) ≤ n)) d.prefixes)
      ds

-- What a lookup in the table is to answer.
abbrev pub IsFound : String → List Domain → Option Domain → Type 0
IsFound upper ds none = All (λ d. All (λ p. has_prefix upper (to_upper p) ≡ false) d.prefixes) ds
IsFound upper ds (some found) =
    Any
      (λ d.
        Any
          (λ p.
            (d ≡ found)
            × (has_prefix upper (to_upper p) ≡ true)
            × NoneLonger upper ds (len (to_upper p)))
          d.prefixes)
      ds

abbrev IsOneOf : List PrefixMapping → Option PrefixMapping → Type 0
IsOneOf ms none = Unit
IsOneOf ms (some m) = Any (λ k. k ≡ m) ms

first_match-IsOneOf :
    (upper : String) (ms xs : List PrefixMapping)
    → All (λ m. Any (λ k. k ≡ m) xs) ms
    → IsOneOf xs (first_match upper ms)
unfolding first_match
first_match-IsOneOf upper [] xs h = tt
first_match-IsOneOf upper (m ∷ ms) xs h = elim (Bool-cases (has_prefix upper m.prefix)) [
  | inl e ↦ rw e h.0
  | inr e ↦ rw e (first_match-IsOneOf upper ms xs h.1)
]

none_longer :
    (upper : String) (n : ℕ) (m : PrefixMapping)
    → (has_prefix upper m.prefix ≡ true → len m.prefix ≤ n)
    → (has_prefix upper m.prefix ≡ false) ⊎ (len m.prefix ≤ n)
none_longer upper n m h = elim (Bool-cases (has_prefix upper m.prefix)) [
  | inl e ↦ inr (h e)
  | inr e ↦ inl e
]

IsLongest-IsFound :
    (upper : String) (ds : List Domain) (found : Option PrefixMapping)
    → IsLongest upper (all_mappings ds) found
    → IsOneOf (all_mappings ds) found
    → IsFound upper ds (domain_of found)
IsLongest-IsFound upper ds none h k = All-of_all_mappings _ ds h
IsLongest-IsFound upper ds (some m) (begins, longest) k =
    let shorter =
      All-of_all_mappings _ ds
        (All-map _ _ (all_mappings ds) (none_longer upper (len m.prefix)) longest) in
    let P : PrefixMapping → Type 0 = λ n.
      (n.domain ≡ m.domain)
      × (has_prefix upper n.prefix ≡ true)
      × NoneLonger upper ds (len n.prefix) in
    Any-of_all_mappings P ds
      (Any-map (λ n. n ≡ m) P (all_mappings ds) (λ n e. subst P (sym e) (refl, begins, shorter)) k)

-- The domain that a lookup returns is one of the registry that has a prefix which begins the ID, in
-- capitals, and no prefix of any registered domain that begins the ID is longer; where the lookup
-- returns none, no prefix of a registered domain begins the ID.
pub find_domain-IsFound :
    (id : String) → IsFound (to_upper id) domain_registry (find_domain_by_finding_id id)
unfolding find_domain_by_finding_id sorted_prefix_mappings
find_domain-IsFound id =
    let ms = all_mappings domain_registry in
    let found = first_match (to_upper id) (sort longer ms) in
    IsLongest-IsFound (to_upper id) domain_registry found
      (IsLongest-of_sort (to_upper id) ms found
        (first_match-IsLongest (to_upper id) (sort longer ms) (sort-IsSorted longer-StrictWeak ms)))
      (first_match-IsOneOf (to_upper id) (sort longer ms) ms
        (All-sort longer (λ m. Any (λ k. k ≡ m) ms) ms (All-self ms)))
