-- ===== src/Rules/Known/Single.antt =====
-- Each ID of the first engine has a domain, and each of its hints outside the security rules has a
-- template.
use devdiag.Base.{[], ◌∷◌, true, ◌≡◌, refl, has_prefix, to_upper, all}
use devdiag.Base.Text.Split.{split, has_text, joined}
use devdiag.Domain.{find_domain_by_finding_id, sorted_prefix_mappings}
use devdiag.Fix.Blocklist.{is_blocked_template, is_blocked_bin, base_name, is_blocked_arg}
use devdiag.Fix.Registry.{lookup, new_registry, register, register_all, store}
use devdiag.Base.Lists.{All, all→All}
use devdiag.Rules.Known.{has_domain, has_template}

pub env_ids :
    All (λ id. has_domain id ≡ true) ("F-ENV-001" ∷ "F-ENV-001-OPTIONAL" ∷ "F-ENV-002" ∷ [])
unfolding has_domain find_domain_by_finding_id sorted_prefix_mappings to_upper has_prefix
env_ids = all→All has_domain ("F-ENV-001" ∷ "F-ENV-001-OPTIONAL" ∷ "F-ENV-002" ∷ []) refl

pub git_ids : All (λ id. has_domain id ≡ true) ("F-GIT-001" ∷ "F-GIT-002" ∷ "F-PM-001" ∷ [])
unfolding has_domain find_domain_by_finding_id sorted_prefix_mappings to_upper has_prefix
git_ids = all→All has_domain ("F-GIT-001" ∷ "F-GIT-002" ∷ "F-PM-001" ∷ []) refl

pub runtime_ids :
    All
      (λ id. has_domain id ≡ true)
      ("F-RUNTIME-DECL-001" ∷ "F-RUNTIME-001" ∷ "F-RUNTIME-002" ∷ "F-RUNTIME-003" ∷ "F-RUNTIME-004"
        ∷ "F-RUNTIME-005" ∷ "F-RUNTIME-006" ∷ [])
unfolding has_domain find_domain_by_finding_id sorted_prefix_mappings to_upper has_prefix
runtime_ids =
    all→All has_domain
      ("F-RUNTIME-DECL-001" ∷ "F-RUNTIME-001" ∷ "F-RUNTIME-002" ∷ "F-RUNTIME-003" ∷ "F-RUNTIME-004"
        ∷ "F-RUNTIME-005" ∷ "F-RUNTIME-006" ∷ [])
      refl

pub host_ids :
    All
      (λ id. has_domain id ≡ true)
      ("F-PORT-001" ∷ "F-NET-001" ∷ "F-DISK-001" ∷ "F-SVC-001" ∷ "F-FS-001" ∷ "F-PERM-002"
        ∷ "F-SEC-SELINUX-001" ∷ "F-SEC-APPARMOR-001" ∷ [])
unfolding has_domain find_domain_by_finding_id sorted_prefix_mappings to_upper has_prefix
host_ids =
    all→All has_domain
      ("F-PORT-001" ∷ "F-NET-001" ∷ "F-DISK-001" ∷ "F-SVC-001" ∷ "F-FS-001" ∷ "F-PERM-002"
        ∷ "F-SEC-SELINUX-001" ∷ "F-SEC-APPARMOR-001" ∷ [])
      refl

pub container_ids :
    All
      (λ id. has_domain id ≡ true)
      ("F-DOCKER-001" ∷ "F-DOCKER-002" ∷ "F-DOCKER-003" ∷ "F-PODMAN-001" ∷ "F-CONTAINER-001"
        ∷ "F-CONTAINER-003" ∷ [])
unfolding has_domain find_domain_by_finding_id sorted_prefix_mappings to_upper has_prefix
container_ids =
    all→All has_domain
      ("F-DOCKER-001" ∷ "F-DOCKER-002" ∷ "F-DOCKER-003" ∷ "F-PODMAN-001" ∷ "F-CONTAINER-001"
        ∷ "F-CONTAINER-003" ∷ [])
      refl

pub repro_ids :
    All
      (λ id. has_domain id ≡ true)
      ("F-REPRO-001" ∷ "F-REPRO-002" ∷ "F-REPRO-003" ∷ "F-REPRO-004" ∷ "F-REPRO-005" ∷ "F-REPRO-006"
        ∷ "F-REPRO-007" ∷ "F-REPRO-008" ∷ "F-REPRO-009" ∷ [])
unfolding has_domain find_domain_by_finding_id sorted_prefix_mappings to_upper has_prefix
repro_ids =
    all→All has_domain
      ("F-REPRO-001" ∷ "F-REPRO-002" ∷ "F-REPRO-003" ∷ "F-REPRO-004" ∷ "F-REPRO-005" ∷ "F-REPRO-006"
        ∷ "F-REPRO-007" ∷ "F-REPRO-008" ∷ "F-REPRO-009" ∷ [])
      refl

pub add_env_placeholder_template : all has_template ("add-env-placeholder" ∷ []) ≡ true
unfolding has_template lookup new_registry register_all register store is_blocked_template
    is_blocked_bin base_name is_blocked_arg split has_text joined has_prefix
add_env_placeholder_template = refl

pub gitignore_env_template : all has_template ("gitignore-env" ∷ []) ≡ true
unfolding has_template lookup new_registry register_all register store is_blocked_template
    is_blocked_bin base_name is_blocked_arg split has_text joined has_prefix
gitignore_env_template = refl

pub warn_disk_cleanup_template : all has_template ("warn-disk-cleanup" ∷ []) ≡ true
unfolding has_template lookup new_registry register_all register store is_blocked_template
    is_blocked_bin base_name is_blocked_arg split has_text joined has_prefix
warn_disk_cleanup_template = refl

pub chmod_script_template : all has_template ("chmod-script" ∷ []) ≡ true
unfolding has_template lookup new_registry register_all register store is_blocked_template
    is_blocked_bin base_name is_blocked_arg split has_text joined has_prefix
chmod_script_template = refl

pub suggest_docker_group_template : all has_template ("suggest-docker-group" ∷ []) ≡ true
unfolding has_template lookup new_registry register_all register store is_blocked_template
    is_blocked_bin base_name is_blocked_arg split has_text joined has_prefix
suggest_docker_group_template = refl

pub inspect_service_template : all has_template ("inspect-service" ∷ []) ≡ true
unfolding has_template lookup new_registry register_all register store is_blocked_template
    is_blocked_bin base_name is_blocked_arg split has_text joined has_prefix
inspect_service_template = refl

pub port_hints : all has_template ("change-compose-port" ∷ "stop-service" ∷ []) ≡ true
unfolding has_template lookup new_registry register_all register store is_blocked_template
    is_blocked_bin base_name is_blocked_arg split has_text joined has_prefix
port_hints = refl

pub up_hints : all has_template ("compose-up" ∷ "inspect-service" ∷ []) ≡ true
unfolding has_template lookup new_registry register_all register store is_blocked_template
    is_blocked_bin base_name is_blocked_arg split has_text joined has_prefix
up_hints = refl
