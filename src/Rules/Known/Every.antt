-- ===== src/Rules/Known/Every.antt =====
-- Every finding that the first engine makes.
use devdiag.Rules.Known.Containers.{
  docker-AreKnown, podman-AreKnown, compose_status-AreKnown, repro-AreKnown,
}
use devdiag.Rules.Engine.{evaluate, evaluate_each, rules_of}
use devdiag.Rules.Machine.{
  systemd_rules, disk_rules, security_rules, permission_rules, systemd_loop,
}
use devdiag.Rules.Host.{
  host_runtime_rules, port_finding, HostState, GoRuntime, network_rules, port_rules, check_runtimes,
  check_runtime, runtime_finding_id,
}
use devdiag.Rules.Project.{undefined_finding, runtime_rules, repo_rules, git_rules, compose_rules}
use devdiag.Base.Text.Parts.{split_text}
use devdiag.Rules.Found.{point_7, point_8}
use devdiag.Rules.Machine.{disk_finding, disk_loop, no_disk, is_below_limits}
use devdiag.Base.{ℕ, false, String, List, [], ◌∷◌, Bool, true, ◌≡◌, refl, arith, all, has_prefix}
use devdiag.Schema.{CollectorResult, Finding, Evidence}
use devdiag.Rules.Known.{
  known, map-AreKnown, branch, ◌and◌, one_known, more_known, none_known, AreKnown, has_domain,
  is-AreKnown, IsKnown,
}
use devdiag.Rules.Known.Single.{
  gitignore_env_template, warn_disk_cleanup_template, chmod_script_template, port_hints, git_ids,
  host_ids, runtime_ids, env_ids, add_env_placeholder_template,
}
use devdiag.Rules.Env.{
  is_optional, is_missing, keys_of, absent_findings, EnvState, env_rules, env_loop, env_step,
  absent_finding, EnvConfig, missing_finding, optional_finding, missing_key_findings,
}

secure : (f : Finding) → has_domain f.id ≡ true → has_prefix f.id "F-SEC-" ≡ true → IsKnown f
unfolding is-AreKnown
secure f h k = ground arith

missing-AreKnown : (ks : List String) → AreKnown (missing_finding ks)
missing-AreKnown [] = none_known
missing-AreKnown (k ∷ ks) = one_known (known _ env_ids.0 add_env_placeholder_template)

optional-AreKnown : (ks : List String) → AreKnown (optional_finding ks)
optional-AreKnown [] = none_known
optional-AreKnown (k ∷ ks) = one_known (known _ env_ids.1.0 refl)

absent-IsKnown : (b : Bool) (evs : List Evidence) → IsKnown (absent_finding b evs)
absent-IsKnown true evs = known _ env_ids.1.0 add_env_placeholder_template
absent-IsKnown false evs = known _ env_ids.0 add_env_placeholder_template

env_step-AreKnown :
    (c : EnvConfig) (s : EnvState) (ev : Evidence)
    → AreKnown s.found
    → AreKnown (env_step c s ev).found
unfolding env_step missing_key_findings
env_step-AreKnown c s ev h = ground (
  arith,
  h
      and (missing-AreKnown (keys_of is_missing c (split_text ev.value ", "))
          and optional-AreKnown (keys_of is_optional c (split_text ev.value ", "))),
)

env_loop-AreKnown :
    (c : EnvConfig) (s : EnvState) (evs : List Evidence)
    → AreKnown s.found
    → AreKnown (env_loop c s evs).found
unfolding env_loop
env_loop-AreKnown c s [] h = h
env_loop-AreKnown c s (ev ∷ evs) h =
    env_loop-AreKnown c (env_step c s ev) evs (env_step-AreKnown c s ev h)

env-AreKnown : (r : CollectorResult) (all : List CollectorResult) → AreKnown (env_rules r all)
unfolding env_rules absent_findings
env-AreKnown r all =
    env_loop-AreKnown _ _ r.evidence none_known
    and branch _ (branch _ none_known (one_known (absent-IsKnown _ _))) none_known

compose-AreKnown :
    (r : CollectorResult) (all : List CollectorResult) → AreKnown (compose_rules r all)
unfolding compose_rules undefined_finding
compose-AreKnown r all =
    map-AreKnown undefined_finding _ (λ (name, evs). known _ env_ids.1.1.0 refl)

git-AreKnown : (r : CollectorResult) → AreKnown (git_rules r)
unfolding git_rules
git-AreKnown r =
    branch _ none_known (one_known (known _ git_ids.0 gitignore_env_template))
    and branch _ (one_known (known _ git_ids.1.0 gitignore_env_template)) none_known

repo-AreKnown : (evs : List Evidence) → AreKnown (repo_rules evs)
unfolding repo_rules
repo-AreKnown [] = none_known
repo-AreKnown (ev ∷ evs) =
    branch _ (more_known (known _ git_ids.1.1.0 refl) (repo-AreKnown evs)) (repo-AreKnown evs)

runtime-AreKnown : (r : CollectorResult) → AreKnown (runtime_rules r)
unfolding runtime_rules
runtime-AreKnown r = branch _ none_known (one_known (known _ runtime_ids.0 refl))

runtime_id-has_domain : (rt : String) → has_domain (runtime_finding_id rt) ≡ true
unfolding runtime_finding_id
runtime_id-has_domain rt = ground (arith, runtime_ids)

check-AreKnown : (s : HostState) (e : String × String) → AreKnown (check_runtime s e)
unfolding check_runtime
check-AreKnown s (rt, v) = branch _ (one_known (known _ runtime_ids.1.1.1.0 refl)) (
    branch _ none_known (branch _ none_known (one_known (known _ (runtime_id-has_domain rt) refl))))

checks-AreKnown : (s : HostState) (es : List (String × String)) → AreKnown (check_runtimes s es)
unfolding check_runtimes
checks-AreKnown s [] = none_known
checks-AreKnown s (e ∷ es) = check-AreKnown s e and checks-AreKnown s es

port-AreKnown : (r : CollectorResult) (all : List CollectorResult) → AreKnown (port_rules r all)
unfolding port_rules port_finding
port-AreKnown r all = map-AreKnown port_finding _ (λ p. known _ host_ids.0 port_hints)

network-AreKnown : (r : CollectorResult) → AreKnown (network_rules r)
unfolding network_rules
network-AreKnown r = branch _ (one_known (known _ host_ids.1.0 refl)) none_known

systemd-AreKnown : (whole evs : List Evidence) → AreKnown (systemd_loop whole evs)
unfolding systemd_loop
systemd-AreKnown whole [] = none_known
systemd-AreKnown whole (ev ∷ evs) =
    branch _ (more_known (known _ host_ids.1.1.1.0 refl) (systemd-AreKnown whole evs))
      (systemd-AreKnown whole evs)

permission-AreKnown : (evs : List Evidence) → AreKnown (permission_rules evs)
unfolding permission_rules
permission-AreKnown [] = none_known
permission-AreKnown (ev ∷ evs) =
    branch _ (one_known (known _ host_ids.1.1.1.1.0 chmod_script_template)) none_known
    and (branch _ (one_known (known _ host_ids.1.1.1.1.1.0 refl)) none_known
        and permission-AreKnown evs)

security-AreKnown : (r : CollectorResult) → AreKnown (security_rules r)
unfolding security_rules has_prefix
security-AreKnown r =
    branch _ none_known (one_known (secure _ host_ids.1.1.1.1.1.1.0 refl))
    and branch _ none_known (one_known (secure _ host_ids.1.1.1.1.1.1.1.0 refl))

disk_one :
    (c : ℕ) (symptom : String) (evs : List Evidence) → AreKnown (disk_finding c symptom evs ∷ [])
disk_one c symptom evs = one_known (known _ host_ids.1.1.0 warn_disk_cleanup_template)

disk-AreKnown : (go : GoRuntime) (r : CollectorResult) → AreKnown (disk_rules go r)
unfolding disk_rules
disk-AreKnown go r =
    let s = disk_loop go (no_disk go) r.evidence in
    branch (is_below_limits go s 1 2) (disk_one point_8 _ r.evidence)
      (branch (is_below_limits go s 5 10) (disk_one point_7 _ r.evidence) none_known)

module _ (go : GoRuntime) where
  rules-AreKnown : (r : CollectorResult) (all : List CollectorResult) → AreKnown (rules_of go r all)
  unfolding rules_of host_runtime_rules systemd_rules
  rules-AreKnown r all = branch _ (env-AreKnown r all) (
      branch _ (compose-AreKnown r all) (
        branch _ (git-AreKnown r) (
          branch _ (repo-AreKnown r.evidence) (
            branch _ (runtime-AreKnown r) (
              branch _ (checks-AreKnown _ _) (
                branch _ (disk-AreKnown go r) (
                  branch _ (port-AreKnown r all) (
                    branch _ (network-AreKnown r) (
                      branch _ (systemd-AreKnown r.evidence r.evidence) (
                        branch _ (security-AreKnown r) (
                          branch _ (permission-AreKnown r.evidence) (
                            branch _ (docker-AreKnown r all) (
                              branch _ (podman-AreKnown r) (
                                branch _ (compose_status-AreKnown r)
                                  (branch _ (repro-AreKnown r) none_known)))))))))))))))

  each-AreKnown : (all cs : List CollectorResult) → AreKnown (evaluate_each go all cs)
  unfolding evaluate_each
  each-AreKnown all [] = none_known
  each-AreKnown all (c ∷ cs) = rules-AreKnown c all and each-AreKnown all cs

  pub evaluate-AreKnown : (cs : List CollectorResult) → AreKnown (evaluate go cs)
  unfolding evaluate
  evaluate-AreKnown cs = each-AreKnown cs cs
