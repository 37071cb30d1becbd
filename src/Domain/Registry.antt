-- ===== src/Domain/Registry.antt =====
-- internal/domain/registry.go: the table of diagnostic domains.
use devdiag.Base.{String, List, [], ◌∷◌, Bool, true, false}

pub record Domain : Type 0 where
  pub name : String
  pub label : String
  pub target : String
  pub prefixes : List String
  pub scope_prefixes : List String
  pub default_layers : List String
  pub tui_key : String
  pub tui_visible : Bool

abbrev env_domain : Domain
env_domain = record {
  name = "env";
  label = "Environment Variables";
  target = "environment";
  prefixes = "F-ENV-" ∷ [];
  scope_prefixes = "F-ENV-" ∷ [];
  default_layers = "env" ∷ [];
  tui_key = "1";
  tui_visible = true;
}

abbrev ci_domain : Domain
ci_domain = record {
  name = "ci";
  label = "CI/Local Parity";
  target = "CI pipeline";
  prefixes = "F-CI-" ∷ [];
  scope_prefixes = "F-CI-" ∷ [];
  default_layers = "ci" ∷ "local" ∷ [];
  tui_key = "2";
  tui_visible = true;
}

abbrev containers_domain : Domain
containers_domain = record {
  name = "containers";
  label = "Container Environment";
  target = "container environment";
  prefixes = "F-CONTAINER-" ∷ "F-DOCKER-" ∷ "F-PODMAN-" ∷ "F-COMPOSE-" ∷ [];
  scope_prefixes = "F-CONTAINER-" ∷ "F-DOCKER-" ∷ "F-PODMAN-" ∷ "F-COMPOSE-" ∷ [];
  default_layers = "containers" ∷ [];
  tui_key = "3";
  tui_visible = true;
}

abbrev runtime_domain : Domain
runtime_domain = record {
  name = "runtime";
  label = "Local Runtime";
  target = "local runtime";
  prefixes = "F-RUNTIME-" ∷ "F-DECL-" ∷ [];
  scope_prefixes = "F-RUNTIME-" ∷ [];
  default_layers = "runtime" ∷ [];
  tui_key = "4";
  tui_visible = true;
}

abbrev gpu_domain : Domain
gpu_domain = record {
  name = "gpu";
  label = "GPU/CUDA Diagnostics";
  target = "GPU/ML stack";
  prefixes = "F-GPU-" ∷ "F-CUDA-" ∷ "F-ML-" ∷ "F-DOCKER-GPU-" ∷ "F-AI-" ∷ [];
  scope_prefixes = "F-GPU-" ∷ "F-CUDA-" ∷ "F-ML-" ∷ "F-DOCKER-GPU-" ∷ [];
  default_layers = "host" ∷ "runtime" ∷ [];
  tui_key = "5";
  tui_visible = true;
}

abbrev trace_domain : Domain
trace_domain = record {
  name = "trace";
  label = "Process Trace";
  target = "process trace";
  prefixes = "F-TRACE-" ∷ "F-REPRO-" ∷ [];
  scope_prefixes = "F-TRACE-" ∷ [];
  default_layers = "process" ∷ [];
  tui_key = "6";
  tui_visible = true;
}

abbrev network_domain : Domain
network_domain = record {
  name = "network";
  label = "Network Services";
  target = "network services";
  prefixes = "F-PORT-" ∷ "F-NET-" ∷ "F-NETWORK-" ∷ [];
  scope_prefixes = "F-NET-" ∷ [];
  default_layers = "network" ∷ [];
  tui_key = "";
  tui_visible = false;
}

abbrev security_domain : Domain
security_domain = record {
  name = "security";
  label = "Security Posture";
  target = "security posture";
  prefixes = "F-SEC-" ∷ "F-SECURITY-" ∷ [];
  scope_prefixes = "F-SEC-" ∷ [];
  default_layers = "security" ∷ [];
  tui_key = "";
  tui_visible = false;
}

abbrev cache_domain : Domain
cache_domain = record {
  name = "cache";
  label = "Build Cache";
  target = "build cache";
  prefixes = "F-CACHE-" ∷ [];
  scope_prefixes = "F-CACHE-" ∷ [];
  default_layers = "cache" ∷ [];
  tui_key = "";
  tui_visible = false;
}

abbrev filesystem_domain : Domain
filesystem_domain = record {
  name = "filesystem";
  label = "File System & Permissions";
  target = "filesystem and permissions";
  prefixes = "F-DISK-" ∷ "F-FS-" ∷ "F-PERM-" ∷ "F-PERMISSION-" ∷ [];
  scope_prefixes = "F-DISK-" ∷ "F-FS-" ∷ "F-PERM-" ∷ [];
  default_layers = "filesystem" ∷ [];
  tui_key = "";
  tui_visible = false;
}

abbrev git_domain : Domain
git_domain = record {
  name = "git";
  label = "Git Repository";
  target = "repository";
  prefixes = "F-GIT-" ∷ "F-PM-" ∷ [];
  scope_prefixes = "F-GIT-" ∷ "F-PM-" ∷ [];
  default_layers = "git" ∷ [];
  tui_key = "";
  tui_visible = false;
}

abbrev config_domain : Domain
config_domain = record {
  name = "config";
  label = "Configuration";
  target = "configuration";
  prefixes = "F-CONFIG-" ∷ [];
  scope_prefixes = "F-CONFIG-" ∷ [];
  default_layers = "config" ∷ [];
  tui_key = "";
  tui_visible = false;
}

abbrev host_domain : Domain
host_domain = record {
  name = "host";
  label = "Host System";
  target = "host system";
  prefixes = "F-HOST-" ∷ [];
  scope_prefixes = "F-HOST-" ∷ [];
  default_layers = "host" ∷ [];
  tui_key = "";
  tui_visible = false;
}

abbrev services_domain : Domain
services_domain = record {
  name = "services";
  label = "System Services";
  target = "system services";
  prefixes = "F-SVC-" ∷ [];
  scope_prefixes = "F-SVC-" ∷ [];
  default_layers = "services" ∷ [];
  tui_key = "";
  tui_visible = false;
}

abbrev pub domain_registry : List Domain
domain_registry =
    env_domain ∷ ci_domain ∷ containers_domain ∷ runtime_domain ∷ gpu_domain ∷ trace_domain
    ∷ network_domain ∷ security_domain ∷ cache_domain ∷ filesystem_domain ∷ git_domain
    ∷ config_domain ∷ host_domain ∷ services_domain ∷ []
