-- ===== src/Rules/Hardware.antt =====
-- internal/rules/m6engine.go: GPUs, what machine learning sees of them, and the caches of package
-- managers. `evMap` holds the last value of each source, over all collectors.
pub mod Caches
use devdiag.Rules.Hardware.Caches.{cache_findings}
use devdiag.Base.{
  refl, ◌≡◌, ℕ, ◌+◌, ◌*◌, ◌-◌, ◌^◌, ◌==◌, leb, String, List, [], ◌∷◌, ◌++◌, Option, none, some,
  Bool, true, false, not, ◌&&◌, ◌||◌, if◌then◌else◌, ◌=ₛ◌, ◌^^◌, is_blank,
}
use devdiag.Base.Number.{counts_none, ℤ, pos, atoi}
use devdiag.Schema.{Severity, Evidence, Finding, CollectorResult}
use devdiag.Rules.Found.{point_5, point_6, point_7, point_8, rule_finding, observed, has_key}
use devdiag.Rules.Host.{has_value, given, value_at}
use devdiag.Rules.Parity.Engine.{sources_of}

abbrev pub point_75 : ℕ
point_75 = 0x3fe8000000000000

unfoldable pub all_evidence : List (String × String) → List CollectorResult → List (String × String)
all_evidence m [] = m
all_evidence m (c ∷ cs) = all_evidence (sources_of m c.evidence) cs

unfoldable pub nvidia_smi_driver_unavailable : String → Bool
nvidia_smi_driver_unavailable status =
    has_key ("error" ∷ "permission_denied" ∷ "timeout" ∷ "parse_error" ∷ []) status

abbrev pub is_true : String → List (String × String) → Bool
is_true key m = value_at key m =ₛ "true"

abbrev pub driver_finding : Bool → Finding
driver_finding module_loaded =
    rule_finding "F-GPU-001" "NVIDIA hardware present but driver unavailable" Severity.high point_8
      (if module_loaded
        then "NVIDIA hardware and kernel module are present, but nvidia-smi could not enumerate GPUs"
        else "NVIDIA GPU detected but kernel module is not loaded")
      []
      (if module_loaded
        then "NVIDIA user-space driver libraries may not match the loaded kernel module"
          ∷ "Driver stack may be partially installed or unhealthy"
          ∷ "GPU device nodes may be inaccessible" ∷ []
        else "NVIDIA driver not installed" ∷ "Driver version incompatible with kernel"
          ∷ "Secure Boot blocking unsigned module" ∷ [])
      ("install-nvidia-driver" ∷ [])

abbrev pub secure_boot_finding : Finding
secure_boot_finding =
    rule_finding "F-GPU-002" "Secure Boot may be blocking NVIDIA module" Severity.medium point_6
      "Secure Boot is enabled and NVIDIA kernel module is not loaded" []
      ("NVIDIA kernel module may not be signed for Secure Boot"
        ∷ "Module signing key not enrolled in MOK" ∷ [])
      ("disable-secure-boot-or-sign-module" ∷ [])

unfoldable pub gpu_findings : List (String × String) → List Finding
gpu_findings m =
    let loaded = is_true "gpu_nvidia_module_loaded" m in
    given
      (is_true "gpu_hardware_detected" m
        && (not loaded
            || (not (is_true "gpu_present" m)
                && nvidia_smi_driver_unavailable (value_at "gpu_nvidia_smi_status" m))))
      (driver_finding loaded)
    ++ given
        (is_true "gpu_secure_boot_enabled" m && (not loaded && is_true "gpu_hardware_detected" m))
        secure_boot_finding

abbrev pub cpu_only_finding : Finding
cpu_only_finding =
    rule_finding "F-ML-PYTORCH-001" "PyTorch installed with CPU-only build in GPU project"
      Severity.medium point_75
      "PyTorch is installed but CUDA is not available while a GPU is present" []
      ("Installed CPU-only PyTorch wheel" ∷ "Missing CUDA runtime libraries" ∷ [])
      ("install-pytorch-cuda" ∷ [])

abbrev pub no_device_finding : Finding
no_device_finding =
    rule_finding "F-ML-PYTORCH-002" "PyTorch CUDA build installed but GPU unavailable"
      Severity.medium point_7 "PyTorch reports CUDA available but no GPU devices are visible" []
      ("NVIDIA driver issue" ∷ "GPU is in compute-exclusive mode" ∷ "Container lacks GPU access"
        ∷ [])
      ("check-nvidia-driver" ∷ [])

abbrev pub tensorflow_finding : Finding
tensorflow_finding =
    rule_finding "F-ML-TF-001" "TensorFlow installed but no GPU visible" Severity.medium point_6
      "TensorFlow is installed but no GPU devices are detected" []
      ("TensorFlow CPU-only build" ∷ "Missing NVIDIA libraries" ∷ "Driver version incompatible"
        ∷ [])
      ("install-tensorflow-gpu" ∷ [])

abbrev pub jax_finding : Finding
jax_finding =
    rule_finding "F-ML-JAX-001" "JAX installed but no GPU visible" Severity.medium point_6
      "JAX is installed but no GPU devices are detected" []
      ("JAX CPU-only build" ∷ "Missing CUDA/cuDNN libraries" ∷ []) ("install-jax-cuda" ∷ [])

unfoldable pub learning_findings : List (String × String) → List Finding
learning_findings m =
    let torch = has_value "ml_pytorch_version" m in
    let cuda = is_true "ml_pytorch_cuda_available" m in
    let present = is_true "gpu_present" m in
    given (torch && (not cuda && present)) cpu_only_finding
    ++ (given (torch && (cuda && counts_none (value_at "ml_pytorch_gpu_count" m))) no_device_finding
        ++ (given
              (has_value "ml_tensorflow_version" m
                && (counts_none (value_at "ml_tensorflow_gpu_count" m) && present))
              tensorflow_finding
            ++ given
                (has_value "ml_jax_version" m
                  && (counts_none (value_at "ml_jax_gpu_count" m) && present))
                jax_finding))

abbrev pub docker_runtime_finding : Finding
docker_runtime_finding =
    rule_finding "F-DOCKER-GPU-001" "Host GPU visible but Docker GPU runtime unavailable"
      Severity.medium point_7 "NVIDIA GPU is present but Docker cannot access it" []
      ("NVIDIA Container Toolkit not installed" ∷ "Docker daemon not configured with nvidia runtime"
        ∷ [])
      ("install-nvidia-toolkit" ∷ [])

abbrev pub docker_verify_finding : Finding
docker_verify_finding =
    rule_finding "F-DOCKER-GPU-002" "Container GPU verification failed" Severity.medium point_7
      "Docker GPU container could not run nvidia-smi successfully" []
      ("NVIDIA Container Toolkit misconfigured" ∷ "Image incompatible with host driver" ∷ [])
      ("install-nvidia-toolkit" ∷ [])

unfoldable pub docker_gpu_findings : List (String × String) → List Finding
docker_gpu_findings m =
    given
      (is_true "gpu_present" m
        && (is_true "docker_binary_present" m
            && (is_true "docker_daemon_accessible" m
                && (not (is_true "docker_gpu_runtime_present" m)
                    && not (has_value "nvidia_container_toolkit_version" m)))))
      docker_runtime_finding
    ++ given (has_key ("failed" ∷ "timeout" ∷ []) (value_at "docker_gpu_verify_result" m))
        docker_verify_finding

unfoldable pub evaluate_hardware : List CollectorResult → List Finding
evaluate_hardware collectors =
    let m = all_evidence [] collectors in
    gpu_findings m ++ (learning_findings m ++ (docker_gpu_findings m ++ cache_findings m))
