-- ===== src/Domain/Examples.antt =====
-- Lookups in the table of domains, and the theorem at an ID.
use devdiag.Base.{has_prefix, String, Option, none, some, ◌≡◌, refl, to_upper}
use devdiag.Domain.Registry.{Domain, domain_registry}
use devdiag.Domain.{find_domain_by_finding_id, sorted_prefix_mappings}
use devdiag.Domain.Longest.{IsFound, find_domain-IsFound}

name_of : Option Domain → String
name_of none = ""
name_of (some d) = d.name

-- `F-DOCKER-GPU-` is longer than `F-DOCKER-`.
gpu_before_docker : name_of (find_domain_by_finding_id "f-docker-gpu-001") ≡ "gpu"
unfolding find_domain_by_finding_id sorted_prefix_mappings to_upper name_of has_prefix
gpu_before_docker = refl

find_domain-IsFound_example :
    IsFound
      (to_upper "F-DOCKER-GPU-001")
      domain_registry
      (find_domain_by_finding_id "F-DOCKER-GPU-001")
find_domain-IsFound_example = find_domain-IsFound "F-DOCKER-GPU-001"
