-- ===== src/Rules/Engine.antt =====
-- internal/rules/m1engine.go: `Evaluate`, which hands each collector's result to its rules; and
-- internal/rules/scopedengine.go, which keeps the findings of some prefixes. The engines never fail.
use devdiag.Base.{
  String, List, [], ◌∷◌, ◌++◌, Bool, any, keep, if◌then◌else◌, ◌=ₛ◌, has_prefix, to_upper,
}
use devdiag.Schema.{Finding, CollectorResult}
use devdiag.Rules.Env.{env_rules}
use devdiag.Rules.Project.{compose_rules, git_rules, repo_rules, runtime_rules}
use devdiag.Rules.Host.{GoRuntime, host_runtime_rules, port_rules, network_rules}
use devdiag.Rules.Machine.{systemd_rules, permission_rules, security_rules, disk_rules}
use devdiag.Rules.Containers.{docker_rules, podman_rules, compose_status_rules}
use devdiag.Rules.Repro.{repro_rules}

module _ (go : GoRuntime) where
  -- One round of `Evaluate`: a result, and the results of all collectors.
  unfoldable pub rules_of : CollectorResult → List CollectorResult → List Finding
  rules_of c all =
      if c.name =ₛ "env"
      then env_rules c all
      else if c.name =ₛ "compose"
      then compose_rules c all
      else if c.name =ₛ "git"
      then git_rules c
      else if c.name =ₛ "repo"
      then repo_rules c.evidence
      else if c.name =ₛ "runtime"
      then runtime_rules c
      else if c.name =ₛ "host_runtime"
      then host_runtime_rules go c all
      else if c.name =ₛ "disk"
      then disk_rules go c
      else if c.name =ₛ "port"
      then port_rules c all
      else if c.name =ₛ "network"
      then network_rules c
      else if c.name =ₛ "systemd"
      then systemd_rules c
      else if c.name =ₛ "security"
      then security_rules c
      else if c.name =ₛ "permission"
      then permission_rules c.evidence
      else if c.name =ₛ "docker"
      then docker_rules c all
      else if c.name =ₛ "podman"
      then podman_rules c
      else if c.name =ₛ "compose_status"
      then compose_status_rules c
      else if c.name =ₛ "repro"
      then repro_rules c
      else []

  unfoldable pub evaluate_each : List CollectorResult → List CollectorResult → List Finding
  evaluate_each all [] = []
  evaluate_each all (c ∷ cs) = rules_of c all ++ evaluate_each all cs

  unfoldable pub evaluate : List CollectorResult → List Finding
  evaluate collectors = evaluate_each collectors collectors

-- `ScopedEngine.Evaluate` on the findings of its engines
unfoldable pub in_scope : List String → Finding → Bool
in_scope prefixes f = any (λ p. has_prefix (to_upper f.id) (to_upper p)) prefixes

unfoldable pub scoped : List String → List Finding → List Finding
scoped prefixes findings = keep (in_scope prefixes) findings
