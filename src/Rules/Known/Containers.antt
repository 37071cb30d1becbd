-- ===== src/Rules/Known/Containers.antt =====
-- Every finding of the rules on containers, and of those on a command that was run to reproduce a failure.
use devdiag.Base.Number.{negsuc, pos, ℤ}
use devdiag.Rules.Containers.{compose_status_rules, service_loop, podman_rules, docker_rules}
use devdiag.Rules.Repro.{ReproState, repro_rules, exit_findings, repro_loop, classified}
use devdiag.Rules.Repro.{repro_step}
use devdiag.Base.{
  none, some, some, Option, zero, suc, String, List, [], ◌∷◌, Bool, refl, arith, all,
}
use devdiag.Schema.{CollectorResult, Finding, Evidence}
use devdiag.Rules.Known.{known, branch, ◌and◌, one_known, more_known, none_known, AreKnown, IsKnown}
use devdiag.Rules.Known.Single.{
  inspect_service_template, up_hints, suggest_docker_group_template, container_ids, repro_ids,
}

pub docker-AreKnown :
    (r : CollectorResult) (all : List CollectorResult) → AreKnown (docker_rules r all)
unfolding docker_rules
docker-AreKnown r all =
    branch _
      (branch _ (one_known (known _ container_ids.1.0 suggest_docker_group_template))
        (one_known (known _ container_ids.0 suggest_docker_group_template)))
      none_known
    and branch _ (one_known (known _ container_ids.1.1.0 refl)) none_known

pub podman-AreKnown : (r : CollectorResult) → AreKnown (podman_rules r)
unfolding podman_rules
podman-AreKnown r = branch _ (one_known (known _ container_ids.1.1.1.0 refl)) none_known

service-AreKnown :
    (suffix : String) (test : String → Bool) (report : String → Evidence → Finding)
    (evs : List Evidence)
    → ((name : String) (ev : Evidence) → IsKnown (report name ev))
    → AreKnown (service_loop suffix test report evs)
unfolding service_loop
service-AreKnown suffix test report [] h = none_known
service-AreKnown suffix test report (ev ∷ evs) h =
    let rest = service-AreKnown suffix test report evs h in branch _ (more_known (h _ ev) rest) rest

pub compose_status-AreKnown : (r : CollectorResult) → AreKnown (compose_status_rules r)
unfolding compose_status_rules
compose_status-AreKnown r =
    service-AreKnown _ _ _ r.evidence (λ name ev. known _ container_ids.1.1.1.1.0 up_hints)
    and (service-AreKnown _ _ _ r.evidence
          (λ name ev. known _ container_ids.1.1.1.1.0 inspect_service_template)
        and service-AreKnown _ _ _ r.evidence (λ name ev. known _ container_ids.1.1.1.1.1.0 refl))

classified-AreKnown : (ev : Evidence) → AreKnown (classified ev)
unfolding classified
classified-AreKnown ev =
    let rest = repro_ids.1 in
    branch _ (one_known (known _ rest.0 refl)) (
      branch _ (one_known (known _ rest.1.0 refl)) (
        branch _ (one_known (known _ rest.1.1.0 refl)) (
          branch _ (one_known (known _ rest.1.1.1.0 refl)) (
            branch _ (one_known (known _ rest.1.1.1.1.0 refl)) (
              branch _ (one_known (known _ rest.1.1.1.1.1.0 refl))
                (branch _ (one_known (known _ rest.1.1.1.1.1.1.0 refl)) none_known))))))

repro_step-AreKnown :
    (s : ReproState) (ev : Evidence) → AreKnown s.found → AreKnown (repro_step s ev).found
unfolding repro_step
repro_step-AreKnown s ev h = ground (arith, h and classified-AreKnown ev)

repro_loop-AreKnown :
    (s : ReproState) (evs : List Evidence) → AreKnown s.found → AreKnown (repro_loop s evs).found
unfolding repro_loop
repro_loop-AreKnown s [] h = h
repro_loop-AreKnown s (ev ∷ evs) h =
    repro_loop-AreKnown (repro_step s ev) evs (repro_step-AreKnown s ev h)

exit-AreKnown : (n : Option ℤ) (evs : List Evidence) → AreKnown (exit_findings n evs)
unfolding exit_findings
exit-AreKnown none evs = none_known
exit-AreKnown (some (pos zero)) evs = none_known
exit-AreKnown (some (pos (suc n))) evs = one_known (known _ repro_ids.0 refl)
exit-AreKnown (some (negsuc n)) evs = one_known (known _ repro_ids.0 refl)

pub repro-AreKnown : (r : CollectorResult) → AreKnown (repro_rules r)
unfolding repro_rules
repro-AreKnown r = branch _ (one_known (known _ repro_ids.1.1.1.1.1.1.1.1.0 refl)) (
    repro_loop-AreKnown _ r.evidence none_known
    and branch _ none_known (exit-AreKnown _ r.evidence))
