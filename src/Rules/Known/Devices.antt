-- ===== src/Rules/Known/Devices.antt =====
-- Every finding of the engine for GPUs, machine learning and caches.
use devdiag.Schema.{CollectorResult}
use devdiag.Rules.Host.{given}
use devdiag.Rules.Hardware.Caches.{
  cache_tools, cache_findings, root_owned_caches, unwritable_caches,
}
use devdiag.Rules.Hardware.{
  all_evidence, evaluate_hardware, docker_gpu_findings, learning_findings, gpu_findings,
}
use devdiag.Base.{String, List, Bool, [], ◌∷◌, true, ◌≡◌, refl, has_prefix, to_upper, all}
use devdiag.Base.Text.Split.{split, has_text, joined}
use devdiag.Domain.{find_domain_by_finding_id, sorted_prefix_mappings}
use devdiag.Fix.Blocklist.{is_blocked_template, is_blocked_bin, base_name, is_blocked_arg}
use devdiag.Fix.Registry.{lookup, new_registry, register, register_all, store}
use devdiag.Base.Lists.{All, all→All}
use devdiag.Rules.Known.{
  Finding, has_domain, has_template, known, AreKnown, one_known, none_known, branch, ◌and◌,
}

gpu_ids :
    All
      (λ id. has_domain id ≡ true)
      ("F-GPU-001" ∷ "F-GPU-002" ∷ "F-ML-PYTORCH-001" ∷ "F-ML-PYTORCH-002" ∷ "F-ML-TF-001"
        ∷ "F-ML-JAX-001" ∷ "F-DOCKER-GPU-001" ∷ "F-DOCKER-GPU-002" ∷ [])
unfolding has_domain find_domain_by_finding_id sorted_prefix_mappings to_upper has_prefix
gpu_ids =
    all→All has_domain
      ("F-GPU-001" ∷ "F-GPU-002" ∷ "F-ML-PYTORCH-001" ∷ "F-ML-PYTORCH-002" ∷ "F-ML-TF-001"
        ∷ "F-ML-JAX-001" ∷ "F-DOCKER-GPU-001" ∷ "F-DOCKER-GPU-002" ∷ [])
      refl

cache_ids : All (λ id. has_domain id ≡ true) ("F-CACHE-001" ∷ "F-CACHE-002" ∷ "F-CACHE-003" ∷ [])
unfolding has_domain find_domain_by_finding_id sorted_prefix_mappings to_upper has_prefix
cache_ids = all→All has_domain ("F-CACHE-001" ∷ "F-CACHE-002" ∷ "F-CACHE-003" ∷ []) refl

install_nvidia_driver_template : all has_template ("install-nvidia-driver" ∷ []) ≡ true
unfolding has_template lookup new_registry register_all register store is_blocked_template
    is_blocked_bin base_name is_blocked_arg split has_text joined has_prefix
install_nvidia_driver_template = refl

disable_secure_boot_or_sign_module_template :
    all has_template ("disable-secure-boot-or-sign-module" ∷ []) ≡ true
unfolding has_template lookup new_registry register_all register store is_blocked_template
    is_blocked_bin base_name is_blocked_arg split has_text joined has_prefix
disable_secure_boot_or_sign_module_template = refl

install_pytorch_cuda_template : all has_template ("install-pytorch-cuda" ∷ []) ≡ true
unfolding has_template lookup new_registry register_all register store is_blocked_template
    is_blocked_bin base_name is_blocked_arg split has_text joined has_prefix
install_pytorch_cuda_template = refl

check_nvidia_driver_template : all has_template ("check-nvidia-driver" ∷ []) ≡ true
unfolding has_template lookup new_registry register_all register store is_blocked_template
    is_blocked_bin base_name is_blocked_arg split has_text joined has_prefix
check_nvidia_driver_template = refl

install_tensorflow_gpu_template : all has_template ("install-tensorflow-gpu" ∷ []) ≡ true
unfolding has_template lookup new_registry register_all register store is_blocked_template
    is_blocked_bin base_name is_blocked_arg split has_text joined has_prefix
install_tensorflow_gpu_template = refl

install_jax_cuda_template : all has_template ("install-jax-cuda" ∷ []) ≡ true
unfolding has_template lookup new_registry register_all register store is_blocked_template
    is_blocked_bin base_name is_blocked_arg split has_text joined has_prefix
install_jax_cuda_template = refl

install_nvidia_toolkit_template : all has_template ("install-nvidia-toolkit" ∷ []) ≡ true
unfolding has_template lookup new_registry register_all register store is_blocked_template
    is_blocked_bin base_name is_blocked_arg split has_text joined has_prefix
install_nvidia_toolkit_template = refl

fix_cache_permissions_template : all has_template ("fix-cache-permissions" ∷ []) ≡ true
unfolding has_template lookup new_registry register_all register store is_blocked_template
    is_blocked_bin base_name is_blocked_arg split has_text joined has_prefix
fix_cache_permissions_template = refl

warn_docker_cleanup_template : all has_template ("warn-docker-cleanup" ∷ []) ≡ true
unfolding has_template lookup new_registry register_all register store is_blocked_template
    is_blocked_bin base_name is_blocked_arg split has_text joined has_prefix
warn_docker_cleanup_template = refl

given-AreKnown :
    (b : Bool) (f : Finding)
    → has_domain f.id ≡ true
    → all has_template f.fix_hints ≡ true
    → AreKnown (given b f)
given-AreKnown b f h k = branch b (one_known (known f h k)) none_known

gpu-AreKnown : (m : List (String × String)) → AreKnown (gpu_findings m)
unfolding gpu_findings
gpu-AreKnown m =
    given-AreKnown _ _ gpu_ids.0 install_nvidia_driver_template
    and given-AreKnown _ _ gpu_ids.1.0 disable_secure_boot_or_sign_module_template

learning-AreKnown : (m : List (String × String)) → AreKnown (learning_findings m)
unfolding learning_findings
learning-AreKnown m =
    given-AreKnown _ _ gpu_ids.1.1.0 install_pytorch_cuda_template
    and (given-AreKnown _ _ gpu_ids.1.1.1.0 check_nvidia_driver_template
        and (given-AreKnown _ _ gpu_ids.1.1.1.1.0 install_tensorflow_gpu_template
            and given-AreKnown _ _ gpu_ids.1.1.1.1.1.0 install_jax_cuda_template))

docker_gpu-AreKnown : (m : List (String × String)) → AreKnown (docker_gpu_findings m)
unfolding docker_gpu_findings
docker_gpu-AreKnown m =
    given-AreKnown _ _ gpu_ids.1.1.1.1.1.1.0 install_nvidia_toolkit_template
    and given-AreKnown _ _ gpu_ids.1.1.1.1.1.1.1.0 install_nvidia_toolkit_template

unwritable-AreKnown :
    (m : List (String × String)) (ts : List String) → AreKnown (unwritable_caches m ts)
unfolding unwritable_caches
unwritable-AreKnown m [] = none_known
unwritable-AreKnown m (t ∷ ts) =
    given-AreKnown _ _ cache_ids.0 fix_cache_permissions_template and unwritable-AreKnown m ts

root_owned-AreKnown :
    (m : List (String × String)) (ts : List String) → AreKnown (root_owned_caches m ts)
unfolding root_owned_caches
root_owned-AreKnown m [] = none_known
root_owned-AreKnown m (t ∷ ts) =
    given-AreKnown _ _ cache_ids.1.0 fix_cache_permissions_template and root_owned-AreKnown m ts

cache-AreKnown : (m : List (String × String)) → AreKnown (cache_findings m)
unfolding cache_findings
cache-AreKnown m =
    unwritable-AreKnown m cache_tools
    and (root_owned-AreKnown m cache_tools
        and given-AreKnown _ _ cache_ids.1.1.0 warn_docker_cleanup_template)

pub hardware-AreKnown : (cs : List CollectorResult) → AreKnown (evaluate_hardware cs)
unfolding evaluate_hardware
hardware-AreKnown cs =
    let m = all_evidence [] cs in
    gpu-AreKnown m and (learning-AreKnown m and (docker_gpu-AreKnown m and cache-AreKnown m))
