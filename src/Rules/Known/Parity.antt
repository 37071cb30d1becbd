-- ===== src/Rules/Known/Parity.antt =====
-- Every finding of the engine for parity between CI and the project. None of them has a hint.
use devdiag.Rules.Parity.Sources.{ci_setup_info}
use devdiag.Base.Number.{ℤ}
use devdiag.Schema.{CollectorResult, Evidence}
use devdiag.Rules.Host.{value_at, GoRuntime}
use devdiag.Rules.Parity.Services.{
  differing_finding, service_mismatch, unmatched_finding, service_named, service_findings,
  over_services, ServiceSpec, uncovered, check_service,
}
use devdiag.Rules.Parity.Keys.{
  ci_finding, deploy_finding, local_finding, of_keys, ParityConfig, key_findings,
}
use devdiag.Rules.Parity.Commands.{command_findings}
use devdiag.Rules.Parity.Engine.{
  drifted_finding, setup_round, Gathered, parity_findings, unpinned_finding, shell_findings,
  container_findings, setup_findings, setup_loop,
}
use devdiag.Base.{
  arith, none, some, some, Option, String, List, [], ◌∷◌, true, ◌≡◌, refl, has_prefix, to_upper,
}
use devdiag.Domain.{find_domain_by_finding_id, sorted_prefix_mappings}
use devdiag.Base.Lists.{All, all→All}
use devdiag.Rules.Parity.Engine
use devdiag.Rules.Known.{
  IsKnown, Finding, has_domain, known, map-AreKnown, AreKnown, one_known, none_known, branch, ◌and◌,
}

ci_ids :
    All
      (λ id. has_domain id ≡ true)
      ("F-CI-RUNTIME-001" ∷ "F-CI-PACKAGE-001" ∷ "F-CI-PACKAGE-002" ∷ "F-CI-COMMAND-001"
        ∷ "F-CI-ENV-001" ∷ "F-CI-ENV-DEPLOY-INFO" ∷ "F-CI-ENV-002" ∷ "F-CI-SERVICE-001"
        ∷ "F-CI-SERVICE-002" ∷ "F-CI-CONTAINER-001" ∷ "F-CI-SHELL-001" ∷ [])
unfolding has_domain find_domain_by_finding_id sorted_prefix_mappings to_upper has_prefix
ci_ids =
    all→All has_domain
      ("F-CI-RUNTIME-001" ∷ "F-CI-PACKAGE-001" ∷ "F-CI-PACKAGE-002" ∷ "F-CI-COMMAND-001"
        ∷ "F-CI-ENV-001" ∷ "F-CI-ENV-DEPLOY-INFO" ∷ "F-CI-ENV-002" ∷ "F-CI-SERVICE-001"
        ∷ "F-CI-SERVICE-002" ∷ "F-CI-CONTAINER-001" ∷ "F-CI-SHELL-001" ∷ [])
      refl

setup_round-AreKnown :
    (pins : List (String × String)) (action : Option String) (ev : Evidence)
    (s : List Finding × List (String × List Evidence))
    → AreKnown s.0
    → AreKnown (setup_round pins action ev s).0
setup_round-AreKnown pins none ev (found, unpinned) h = h
setup_round-AreKnown pins (some action) ev (found, unpinned) h = ground (
  arith,
  h,
  h and one_known (known (drifted_finding action ev (value_at action pins)) ci_ids.0 refl),
)

setup_loop-AreKnown :
    (pins : List (String × String)) (s : List Finding × List (String × List Evidence))
    (evs : List Evidence)
    → AreKnown s.0
    → AreKnown (setup_loop pins s evs).0
unfolding setup_loop
setup_loop-AreKnown pins s [] h = h
setup_loop-AreKnown pins s (ev ∷ evs) h =
    setup_loop-AreKnown pins (setup_round pins (ci_setup_info ev.source) ev s) evs
      (setup_round-AreKnown pins (ci_setup_info ev.source) ev s h)

setup-AreKnown :
    (pins : List (String × String)) (ci : List Evidence) → AreKnown (setup_findings pins ci)
unfolding setup_findings unpinned_finding
setup-AreKnown pins ci =
    setup_loop-AreKnown pins ([], []) _ none_known
    and map-AreKnown unpinned_finding _ (λ u. known (unpinned_finding u) ci_ids.1.0 refl)

command-AreKnown : (ci repo : List Evidence) → AreKnown (command_findings ci repo)
unfolding command_findings
command-AreKnown ci repo =
    map-AreKnown _ _ (λ cmd. known _ ci_ids.1.1.0 refl)
    and branch _ none_known (one_known (known _ ci_ids.1.1.1.0 refl))

of_keys-AreKnown :
    (report : List String → Finding) (ks : List String)
    → ((js : List String) → IsKnown (report js))
    → AreKnown (of_keys report ks)
of_keys-AreKnown report [] h = none_known
of_keys-AreKnown report (k ∷ ks) h = one_known (h _)

key-AreKnown :
    (order : List String → List String) (c : ParityConfig) (ci env : List Evidence)
    → AreKnown (key_findings order c ci env)
unfolding key_findings
key-AreKnown order c ci env =
    of_keys-AreKnown local_finding _ (λ ks. known (local_finding ks) ci_ids.1.1.1.1.0 refl)
    and (of_keys-AreKnown deploy_finding _ (λ ks. known (deploy_finding ks) ci_ids.1.1.1.1.1.0 refl)
        and of_keys-AreKnown ci_finding _ (λ ks. known (ci_finding ks) ci_ids.1.1.1.1.1.1.0 refl))

option-AreKnown :
    (o : Option ServiceSpec) {xs : List Finding} {f : ServiceSpec → List Finding}
    → AreKnown xs
    → ((s : ServiceSpec) → AreKnown (f s))
    → AreKnown (elim o [ none ↦ xs | some s ↦ f s ])
option-AreKnown none h k = h
option-AreKnown (some s) h k = k s

check-AreKnown :
    (compose : List ServiceSpec) (ports : List ℤ) (s : ServiceSpec)
    → AreKnown (check_service compose ports s)
unfolding check_service
check-AreKnown compose ports s =
    option-AreKnown (service_named s.name compose)
      (branch _ none_known (one_known (known (unmatched_finding s) ci_ids.1.1.1.1.1.1.1.0 refl)))
      (λ c.
        branch (service_mismatch s c)
          (one_known (known (differing_finding s c) ci_ids.1.1.1.1.1.1.1.0 refl)) none_known)

uncovered-AreKnown : (ci : List ServiceSpec) (s : ServiceSpec) → AreKnown (uncovered ci s)
unfolding uncovered
uncovered-AreKnown ci s = branch _ none_known (one_known (known _ ci_ids.1.1.1.1.1.1.1.1.0 refl))

over-AreKnown :
    (check : ServiceSpec → List Finding) (services : List ServiceSpec) (names : List String)
    → ((s : ServiceSpec) → AreKnown (check s))
    → AreKnown (over_services check services names)
unfolding over_services
over-AreKnown check services [] h = none_known
over-AreKnown check services (n ∷ ns) h =
    option-AreKnown (service_named n services) none_known h and over-AreKnown check services ns h

service-AreKnown :
    (order : List String → List String) (ci compose : List ServiceSpec) (ports : List ℤ)
    → AreKnown (service_findings order ci compose ports)
unfolding service_findings
service-AreKnown order ci compose ports =
    over-AreKnown _ _ _ (check-AreKnown compose ports)
    and branch _ none_known (over-AreKnown _ _ _ (uncovered-AreKnown ci))

container-AreKnown : (image : String) (ci : List Evidence) → AreKnown (container_findings image ci)
unfolding container_findings
container-AreKnown image ci =
    branch _ none_known (map-AreKnown _ _ (λ ev. known _ ci_ids.1.1.1.1.1.1.1.1.1.0 refl))

shell-AreKnown : (shell : String) (ci : List Evidence) → AreKnown (shell_findings shell ci)
unfolding shell_findings
shell-AreKnown shell ci =
    branch _ none_known (map-AreKnown _ _ (λ ev. known _ ci_ids.1.1.1.1.1.1.1.1.1.1.0 refl))

module _ (go : GoRuntime) where
  parity-AreKnown : (g : Gathered) → AreKnown (parity_findings go g)
  unfolding parity_findings
  parity-AreKnown g =
      setup-AreKnown _ g.ci
      and (command-AreKnown g.ci g.repo
          and (key-AreKnown go.order_keys g.config g.ci g.env
              and (service-AreKnown go.order_keys _ _ _
                  and (container-AreKnown g.devcontainer_image g.ci
                      and shell-AreKnown g.host_shell g.ci))))

  pub parity_engine-AreKnown : (cs : List CollectorResult) → AreKnown (Engine.evaluate go cs)
  unfolding Engine.evaluate
  parity_engine-AreKnown cs = branch _ none_known (parity-AreKnown _)
