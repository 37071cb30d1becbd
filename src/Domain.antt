-- ===== src/Domain.antt =====
-- internal/domain/registry.go: lookups in the table of domains. A copy that guards against
-- aliasing (`cloneDomain`, `copy`) is the value itself here.
pub mod Registry
pub mod Longest
mod Examples
use Prim.Native.String.{len}
use devdiag.Base.{
  ℕ, String, List, [], ◌∷◌, ◌++◌, Option, none, some, Bool, ◌&&◌, not, ltb, is_blank, has_prefix,
  to_upper, to_lower, keep, if◌then◌else◌, ◌=ₛ◌,
}
use devdiag.Base.Sort.{sort}
use devdiag.Domain.Registry.{Domain, domain_registry}

pub record PrefixMapping : Type 0 where
  pub prefix : String
  pub domain : Domain

-- the inner loop of `init`
unfoldable pub domain_mappings : Domain → List String → List PrefixMapping
domain_mappings d [] = []
domain_mappings d (p ∷ ps) = record { prefix = to_upper p; domain = d } ∷ domain_mappings d ps

unfoldable pub all_mappings : List Domain → List PrefixMapping
unfolding domain_mappings
all_mappings [] = []
all_mappings (d ∷ ds) = domain_mappings d d.prefixes ++ all_mappings ds

abbrev pub longer : PrefixMapping → PrefixMapping → Bool
longer a b = ltb (len b.prefix) (len a.prefix)

-- `init`
unfoldable pub sorted_prefix_mappings : List PrefixMapping
unfolding sort all_mappings
sorted_prefix_mappings = sort longer (all_mappings domain_registry)

unfoldable pub first_match : String → List PrefixMapping → Option PrefixMapping
first_match upper [] = none
first_match upper (m ∷ ms) = if has_prefix upper m.prefix then some m else first_match upper ms

abbrev domain_of : Option PrefixMapping → Option Domain
domain_of none = none
domain_of (some m) = some m.domain

unfoldable pub find_domain_by_finding_id : String → Option Domain
unfolding first_match
find_domain_by_finding_id id = domain_of (first_match (to_upper id) sorted_prefix_mappings)

unfoldable pub find_by : (Domain → Bool) → List Domain → Option Domain
find_by test [] = none
find_by test (d ∷ ds) = if test d then some d else find_by test ds

-- `strings.EqualFold`, on ASCII letters
abbrev pub equal_fold : String → String → Bool
equal_fold s t = to_lower s =ₛ to_lower t

unfoldable pub find_domain_by_name : String → Option Domain
unfolding find_by
find_domain_by_name name = find_by (λ d. equal_fold d.name name) domain_registry

unfoldable pub find_domain_by_tui_key : String → Option Domain
unfolding find_by
find_domain_by_tui_key key = find_by (λ d. d.tui_key =ₛ key) domain_registry

unfoldable pub get_tui_mapped_domains : List Domain
get_tui_mapped_domains = keep (λ d. d.tui_visible && not (is_blank d.tui_key)) domain_registry

abbrev prefixes_of : Option Domain → List String
prefixes_of none = []
prefixes_of (some d) = d.prefixes

abbrev scope_prefixes_of : Option Domain → List String
scope_prefixes_of none = []
scope_prefixes_of (some d) = d.scope_prefixes

unfoldable pub domain_prefixes : String → List String
unfolding find_domain_by_name
domain_prefixes name = prefixes_of (find_domain_by_name name)

unfoldable pub domain_scope_prefixes : String → List String
unfolding find_domain_by_name
domain_scope_prefixes name = scope_prefixes_of (find_domain_by_name name)
