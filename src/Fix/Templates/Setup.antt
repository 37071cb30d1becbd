-- ===== src/Fix/Templates/Setup.antt =====
-- internal/fix/registry.go: the templates that `registerDefaults` registers, the first half.
use devdiag.Base.{[], ◌∷◌, List}
use devdiag.Schema.{FixClass}
use devdiag.Fix.Blocklist.{Template}

abbrev chmod_script : Template
chmod_script = record {
  hint_id = "chmod-script";
  title = "Make script executable";
  class = FixClass.safe;
  bin = "chmod";
  args = "+x" ∷ "{{path}}" ∷ [];
  rollback = "chmod" ∷ "-x" ∷ "{{path}}" ∷ [];
  required_evidence = "host_script_not_executable" ∷ [];
  platforms = "linux" ∷ "darwin" ∷ [];
  confirm_message = "";
  blocked_reason = "";
}

abbrev gitignore_env : Template
gitignore_env = record {
  hint_id = "gitignore-env";
  title = "Add .env to .gitignore";
  class = FixClass.manual;
  bin = "";
  args = "# Add '.env' to .gitignore: echo '.env' >> .gitignore" ∷ [];
  rollback = [];
  required_evidence = "git_tracked_env" ∷ "git_env_exists" ∷ [];
  platforms = "linux" ∷ "darwin" ∷ "windows" ∷ [];
  confirm_message = "";
  blocked_reason = "";
}

abbrev change_compose_port : Template
change_compose_port = record {
  hint_id = "change-compose-port";
  title = "Change Compose service port binding";
  class = FixClass.manual;
  bin = "";
  args = "# Edit compose.yaml and change the host port from {{port}} to an available port" ∷ [];
  rollback = [];
  required_evidence = "compose_host_port" ∷ "host_listen_port" ∷ [];
  platforms = "linux" ∷ "darwin" ∷ "windows" ∷ [];
  confirm_message = "";
  blocked_reason = "";
}

abbrev stop_service : Template
stop_service = record {
  hint_id = "stop-service";
  title = "Stop the conflicting host service";
  class = FixClass.manual;
  bin = "";
  args = "# Find the service on port {{port}} and stop it: sudo ss -tlnp | grep :{{port}}" ∷ [];
  rollback = [];
  required_evidence = "host_listen_port" ∷ [];
  platforms = "linux" ∷ [];
  confirm_message = "";
  blocked_reason = "";
}

abbrev systemctl_daemon_reload : Template
systemctl_daemon_reload = record {
  hint_id = "systemctl-daemon-reload";
  title = "Reload systemd manager configuration";
  class = FixClass.guarded;
  bin = "systemctl";
  args = "daemon-reload" ∷ [];
  rollback = [];
  required_evidence = [];
  platforms = "linux" ∷ [];
  confirm_message =
      "Reloads systemd manager configuration on this host. Use only after reviewing changed unit files.";
  blocked_reason = "";
}

abbrev suggest_docker_group : Template
suggest_docker_group = record {
  hint_id = "suggest-docker-group";
  title = "Add user to docker group";
  class = FixClass.manual;
  bin = "";
  args = "# Run: sudo usermod -aG docker $USER && newgrp docker" ∷ [];
  rollback = [];
  required_evidence = "docker_socket_permission_denied" ∷ [];
  platforms = "linux" ∷ [];
  confirm_message = "";
  blocked_reason = "";
}

abbrev compose_up : Template
compose_up = record {
  hint_id = "compose-up";
  title = "Start compose service";
  class = FixClass.guarded;
  bin = "docker";
  args = "compose" ∷ "--project-directory" ∷ "{{repo_root}}" ∷ "up" ∷ "-d" ∷ "{{service}}" ∷ [];
  rollback =
      "docker" ∷ "compose" ∷ "--project-directory" ∷ "{{repo_root}}" ∷ "stop" ∷ "{{service}}" ∷ [];
  required_evidence = "compose_status" ∷ [];
  platforms = "linux" ∷ "darwin" ∷ "windows" ∷ [];
  confirm_message =
      "Starts a Docker Compose service and may create or restart containers. Review the service logs and rollback command first.";
  blocked_reason = "";
}

abbrev inspect_service : Template
inspect_service = record {
  hint_id = "inspect-service";
  title = "Inspect compose service logs";
  class = FixClass.manual;
  bin = "";
  args = "# View logs: docker compose logs --tail=200" ∷ [];
  rollback = [];
  required_evidence = [];
  platforms = "linux" ∷ "darwin" ∷ "windows" ∷ [];
  confirm_message = "";
  blocked_reason = "";
}

abbrev add_env_placeholder : Template
add_env_placeholder = record {
  hint_id = "add-env-placeholder";
  title = "Add missing env keys as placeholders";
  class = FixClass.manual;
  bin = "";
  args = "# Create .env and add placeholders for the missing keys" ∷ [];
  rollback = [];
  required_evidence = "missing_keys" ∷ [];
  platforms = "linux" ∷ "darwin" ∷ "windows" ∷ [];
  confirm_message = "";
  blocked_reason = "";
}

abbrev warn_disk_cleanup : Template
warn_disk_cleanup = record {
  hint_id = "warn-disk-cleanup";
  title = "Clean up disk or inode usage";
  class = FixClass.manual;
  bin = "";
  args =
      "# Consider: docker system prune -f, npm cache clean --force, or remove node_modules/.cache"
      ∷ [];
  rollback = [];
  required_evidence = "host_disk_free_bytes" ∷ "host_disk_free_pct" ∷ [];
  platforms = "linux" ∷ "darwin" ∷ "windows" ∷ [];
  confirm_message = "";
  blocked_reason = "";
}

abbrev install_nvidia_driver : Template
install_nvidia_driver = record {
  hint_id = "install-nvidia-driver";
  title = "Install or reinstall NVIDIA driver";
  class = FixClass.manual;
  bin = "";
  args = "# Follow NVIDIA documentation for your distribution to install the correct driver" ∷ [];
  rollback = [];
  required_evidence = [];
  platforms = "linux" ∷ [];
  confirm_message = "";
  blocked_reason = "";
}

abbrev check_nvidia_driver : Template
check_nvidia_driver = record {
  hint_id = "check-nvidia-driver";
  title = "Check NVIDIA driver and GPU visibility";
  class = FixClass.manual;
  bin = "";
  args =
      "# Verify driver state: nvidia-smi; check kernel module: lsmod | grep nvidia; review dmesg for NVRM errors"
      ∷ [];
  rollback = [];
  required_evidence = [];
  platforms = "linux" ∷ [];
  confirm_message = "";
  blocked_reason = "";
}

abbrev install_cuda_toolkit : Template
install_cuda_toolkit = record {
  hint_id = "install-cuda-toolkit";
  title = "Install CUDA toolkit";
  class = FixClass.manual;
  bin = "";
  args = "# Install CUDA toolkit via distribution package manager or NVIDIA installer" ∷ [];
  rollback = [];
  required_evidence = [];
  platforms = "linux" ∷ [];
  confirm_message = "";
  blocked_reason = "";
}

abbrev install_pytorch_cuda : Template
install_pytorch_cuda = record {
  hint_id = "install-pytorch-cuda";
  title = "Install PyTorch with CUDA support";
  class = FixClass.manual;
  bin = "";
  args = "# Visit https://pytorch.org/get-started/locally/ for the correct CUDA wheel" ∷ [];
  rollback = [];
  required_evidence = [];
  platforms = "linux" ∷ "darwin" ∷ "windows" ∷ [];
  confirm_message = "";
  blocked_reason = "";
}

abbrev install_tensorflow_gpu : Template
install_tensorflow_gpu = record {
  hint_id = "install-tensorflow-gpu";
  title = "Install TensorFlow with GPU support";
  class = FixClass.manual;
  bin = "";
  args = "# Follow https://www.tensorflow.org/install/gpu for platform-specific instructions" ∷ [];
  rollback = [];
  required_evidence = [];
  platforms = "linux" ∷ "darwin" ∷ "windows" ∷ [];
  confirm_message = "";
  blocked_reason = "";
}

abbrev pub setup_templates : List Template
setup_templates =
    chmod_script ∷ gitignore_env ∷ change_compose_port ∷ stop_service ∷ systemctl_daemon_reload
    ∷ suggest_docker_group ∷ compose_up ∷ inspect_service ∷ add_env_placeholder ∷ warn_disk_cleanup
    ∷ install_nvidia_driver ∷ check_nvidia_driver ∷ install_cuda_toolkit ∷ install_pytorch_cuda
    ∷ install_tensorflow_gpu ∷ []
