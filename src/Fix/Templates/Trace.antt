-- ===== src/Fix/Templates/Trace.antt =====
-- internal/fix/registry.go: the templates that `registerDefaults` registers, the second half.
use devdiag.Base.{[], ◌∷◌, List}
use devdiag.Schema.{FixClass}
use devdiag.Fix.Blocklist.{Template}

abbrev install_jax_cuda : Template
install_jax_cuda = record {
  hint_id = "install-jax-cuda";
  title = "Install JAX with CUDA support";
  class = FixClass.manual;
  bin = "";
  args =
      "# Follow https://github.com/google/jax#pip-installation-gpu-cuda for CUDA-enabled JAX" ∷ [];
  rollback = [];
  required_evidence = [];
  platforms = "linux" ∷ "darwin" ∷ "windows" ∷ [];
  confirm_message = "";
  blocked_reason = "";
}

abbrev install_nvidia_toolkit : Template
install_nvidia_toolkit = record {
  hint_id = "install-nvidia-toolkit";
  title = "Install NVIDIA Container Toolkit";
  class = FixClass.manual;
  bin = "";
  args =
      "# Follow https://docs.nvidia.com/datacenter/cloud-native/container-toolkit/install-guide.html"
      ∷ [];
  rollback = [];
  required_evidence = [];
  platforms = "linux" ∷ [];
  confirm_message = "";
  blocked_reason = "";
}

abbrev fix_cache_permissions : Template
fix_cache_permissions = record {
  hint_id = "fix-cache-permissions";
  title = "Fix cache directory permissions";
  class = FixClass.manual;
  bin = "";
  args =
      "# Run: sudo chown $USER:$USER <cache-path> (replace <cache-path> with the exact path from the finding)"
      ∷ [];
  rollback = [];
  required_evidence = [];
  platforms = "linux" ∷ "darwin" ∷ [];
  confirm_message = "";
  blocked_reason = "";
}

abbrev warn_docker_cleanup : Template
warn_docker_cleanup = record {
  hint_id = "warn-docker-cleanup";
  title = "Clean up Docker build cache and unused images";
  class = FixClass.manual;
  bin = "";
  args = "# Run: docker system prune -f  (review what will be removed before confirming)" ∷ [];
  rollback = [];
  required_evidence = [];
  platforms = "linux" ∷ "darwin" ∷ "windows" ∷ [];
  confirm_message = "";
  blocked_reason = "";
}

abbrev disable_secure_boot_or_sign_module : Template
disable_secure_boot_or_sign_module = record {
  hint_id = "disable-secure-boot-or-sign-module";
  title = "Disable Secure Boot or sign NVIDIA kernel module";
  class = FixClass.manual;
  bin = "";
  args =
      "# Prefer signing the module over disabling Secure Boot. See distribution docs for module signing."
      ∷ [];
  rollback = [];
  required_evidence = [];
  platforms = "linux" ∷ [];
  confirm_message = "";
  blocked_reason = "";
}

abbrev check_wd : Template
check_wd = record {
  hint_id = "check-wd";
  title = "Verify working directory";
  class = FixClass.manual;
  bin = "";
  args = [];
  rollback = [];
  required_evidence = [];
  platforms = [];
  confirm_message = "Check that the process is running from the expected working directory.";
  blocked_reason = "";
}

abbrev verify_config_path : Template
verify_config_path = record {
  hint_id = "verify-config-path";
  title = "Verify config file path";
  class = FixClass.manual;
  bin = "";
  args = [];
  rollback = [];
  required_evidence = [];
  platforms = [];
  confirm_message = "Ensure config files referenced by the process exist at the expected paths.";
  blocked_reason = "";
}

abbrev check_parent_permissions : Template
check_parent_permissions = record {
  hint_id = "check-parent-permissions";
  title = "Check parent directory permissions";
  class = FixClass.manual;
  bin = "";
  args = [];
  rollback = [];
  required_evidence = [];
  platforms = [];
  confirm_message = "Verify that parent directories allow access for the current user.";
  blocked_reason = "";
}

abbrev check_file_owner : Template
check_file_owner = record {
  hint_id = "check-file-owner";
  title = "Check file ownership";
  class = FixClass.manual;
  bin = "";
  args = [];
  rollback = [];
  required_evidence = [];
  platforms = [];
  confirm_message = "Verify that the file is owned by the expected user or group.";
  blocked_reason = "";
}

abbrev start_service : Template
start_service = record {
  hint_id = "start-service";
  title = "Start the required service";
  class = FixClass.manual;
  bin = "";
  args = [];
  rollback = [];
  required_evidence = [];
  platforms = [];
  confirm_message = "Start the service the process is trying to connect to.";
  blocked_reason = "";
}

abbrev verify_port : Template
verify_port = record {
  hint_id = "verify-port";
  title = "Verify port and host";
  class = FixClass.manual;
  bin = "";
  args = [];
  rollback = [];
  required_evidence = [];
  platforms = [];
  confirm_message = "Check that the process is connecting to the correct host and port.";
  blocked_reason = "";
}

abbrev verify_service_listening : Template
verify_service_listening = record {
  hint_id = "verify-service-listening";
  title = "Verify service is listening";
  class = FixClass.manual;
  bin = "";
  args = [];
  rollback = [];
  required_evidence = [];
  platforms = [];
  confirm_message = "Check that the target service is actually listening on the expected address.";
  blocked_reason = "";
}

abbrev verify_unix_socket : Template
verify_unix_socket = record {
  hint_id = "verify-unix-socket";
  title = "Verify UNIX socket path";
  class = FixClass.manual;
  bin = "";
  args = [];
  rollback = [];
  required_evidence = [];
  platforms = [];
  confirm_message = "Check that the UNIX socket file exists and has correct permissions.";
  blocked_reason = "";
}

abbrev ebpf_setcap_grant : Template
ebpf_setcap_grant = record {
  hint_id = "ebpf-setcap-grant";
  title = "Grant permanent eBPF capabilities to devdiag binary";
  class = FixClass.guarded;
  bin = "sudo";
  args = "setcap" ∷ "cap_bpf,cap_perfmon=ep" ∷ "{{value}}" ∷ [];
  rollback = [];
  required_evidence = "trace_self_binary_path" ∷ [];
  platforms = "linux" ∷ [];
  confirm_message =
      "This will elevate devdiag's binary permissions via setcap to allow raw tracepoint access for unprivileged users.";
  blocked_reason = "";
}

abbrev pub trace_templates : List Template
trace_templates =
    install_jax_cuda ∷ install_nvidia_toolkit ∷ fix_cache_permissions ∷ warn_docker_cleanup
    ∷ disable_secure_boot_or_sign_module ∷ check_wd ∷ verify_config_path ∷ check_parent_permissions
    ∷ check_file_owner ∷ start_service ∷ verify_port ∷ verify_service_listening ∷ verify_unix_socket
    ∷ ebpf_setcap_grant ∷ []
