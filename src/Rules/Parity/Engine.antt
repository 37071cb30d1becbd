-- ===== src/Rules/Parity/Engine.antt =====
-- internal/rules/m8engine.go: `Evaluate` of the engine for parity between CI and the local project.
use devdiag.Base.{
  String, List, [], ◌∷◌, ◌++◌, Option, none, some, Bool, not, ◌&&◌, ◌||◌, keep, if◌then◌else◌, ◌=ₛ◌,
  ◌^^◌, is_blank, is_empty, has_prefix, map,
}
use devdiag.Base.Number.{ℤ, atoi}
use devdiag.Base.Sort.{sort}
use devdiag.Base.Text.Split.{has_suffix}
use devdiag.Schema.{Severity, Evidence, Finding, CollectorResult}
use devdiag.Rules.Found.{point_5, point_6, point_7, rule_finding, observed}
use devdiag.Rules.Versions.{versions_compatible}
use devdiag.Rules.Project.{add_missing, by_name}
use devdiag.Rules.Host.{GoRuntime, put, value_at}
use devdiag.Rules.Parity.Sources.{
  ci_setup_info, is_opaque_ci_value, extract_local_runtimes, summarize_evidence_values,
  normalize_container_image,
}
use devdiag.Rules.Parity.Commands.{command_findings}
use devdiag.Rules.Parity.Services.{
  positive, with_port, collect_ci_services, collect_compose_services, service_findings,
}
use devdiag.Rules.Parity.Keys.{ParityConfig, collect_config, key_findings}

pub record Gathered : Type 0 where
  pub ci : List Evidence
  pub runtime : List (String × String)
  pub env : List Evidence
  pub compose : List Evidence
  pub repo : List Evidence
  pub config : ParityConfig
  pub host_shell : String
  pub devcontainer_image : String

abbrev pub nothing_gathered : Gathered
nothing_gathered = record {
  ci = [];
  runtime = [];
  env = [];
  compose = [];
  repo = [];
  config = record {
    ignore_missing_local = [];
    ignore_missing_ci = [];
    local_required = [];
    deployment_only = [];
    ci_only = [];
  };
  host_shell = "";
  devcontainer_image = "";
}

unfoldable pub sources_of : List (String × String) → List Evidence → List (String × String)
sources_of m [] = m
sources_of m (ev ∷ evs) = sources_of (put ev.source ev.value m) evs

-- The value of the last piece of evidence of a source, and what there was before.
unfoldable pub last_value : String → String → List Evidence → String
last_value source old [] = old
last_value source old (ev ∷ evs) =
    last_value source (if ev.source =ₛ source then ev.value else old) evs

unfoldable pub gather_one : Gathered → CollectorResult → Gathered
gather_one g c =
    if c.name =ₛ "ci"
    then record g { ci = g.ci ++ c.evidence }
    else if c.name =ₛ "runtime"
    then record g { runtime = sources_of [] c.evidence }
    else if c.name =ₛ "env"
    then record g { env = g.env ++ c.evidence }
    else if c.name =ₛ "compose"
    then record g { compose = g.compose ++ c.evidence }
    else if c.name =ₛ "host"
    then record g { host_shell = last_value "host_shell" g.host_shell c.evidence }
    else if c.name =ₛ "repo"
    then record g {
      repo = g.repo ++ c.evidence;
      devcontainer_image = last_value "devcontainer_image" g.devcontainer_image c.evidence;
    }
    else if c.name =ₛ "config"
    then record g { config = collect_config g.config c.evidence }
    else g

unfoldable pub gather : Gathered → List CollectorResult → Gathered
gather g [] = g
gather g (c ∷ cs) = gather (gather_one g c) cs

abbrev pub drifted_finding : String → Evidence → String → Finding
drifted_finding action ev local =
    rule_finding "F-CI-RUNTIME-001"
      ("CI " ^^ (action ^^ (" version " ^^ (ev.value ^^ (" differs from local " ^^ local)))))
      Severity.medium point_7
      ("Version mismatch: CI uses "
        ^^ (action ^^ ("=" ^^ (ev.value ^^ (", local runtime pin is " ^^ local)))))
      (ev ∷ observed "local_runtime" local ∷ [])
      ("Runtime versions drifted between CI and local dev environment" ∷ []) []

-- A round of the loop over the setup actions: the findings, and the actions without a local pin.
abbrev pub setup_round :
    List (String × String)
    → Option String
    → Evidence
    → List Finding × List (String × List Evidence)
    → List Finding × List (String × List Evidence)
setup_round pins none ev (found, unpinned) = (found, unpinned)
setup_round pins (some action) ev (found, unpinned) =
    let pin = value_at action pins in
    if is_opaque_ci_value ev.value
    then (found, unpinned)
    else if is_blank pin
    then (found, add_missing action ev unpinned)
    else if versions_compatible pin ev.value
    then (found, unpinned)
    else (found ++ drifted_finding action ev pin ∷ [], unpinned)

unfoldable pub setup_loop :
    List (String × String)
    → List Finding × List (String × List Evidence)
    → List Evidence
    → List Finding × List (String × List Evidence)
setup_loop pins s [] = s
setup_loop pins s (ev ∷ evs) = setup_loop pins (setup_round pins (ci_setup_info ev.source) ev s) evs

unfoldable pub unpinned_finding : String × List Evidence → Finding
unpinned_finding (action, evs) =
    rule_finding "F-CI-PACKAGE-001" ("CI uses " ^^ (action ^^ " but repo has no local runtime pin"))
      Severity.low point_5
      ("CI configures "
        ^^ (action
            ^^ ("="
                ^^ (summarize_evidence_values evs
                    ^^ " but no .nvmrc/.python-version/go.mod version matches"))))
      evs ("Add a local runtime pin file so dev and CI stay in sync" ∷ []) []

unfoldable pub setup_findings : List (String × String) → List Evidence → List Finding
setup_findings pins ci =
    let (found, unpinned) =
      setup_loop pins ([], []) (keep (λ ev. has_prefix ev.source "ci_setup__") ci) in
    found ++ map unpinned_finding (sort by_name unpinned)

abbrev pub container_finding : Evidence → String → Finding
container_finding ev image =
    rule_finding "F-CI-CONTAINER-001" "CI container image differs from devcontainer image"
      Severity.medium point_6 "CI job container image does not match the devcontainer configuration"
      (ev ∷ observed "devcontainer_image" image ∷ [])
      ("Devcontainer and CI images drifted out of sync" ∷ []) []

abbrev pub is_container : Evidence → Bool
is_container ev = has_prefix ev.source "ci_container__" && has_suffix ev.source "__image"

unfoldable pub container_findings : String → List Evidence → List Finding
container_findings image ci =
    if is_blank image
    then []
    else map (λ ev. container_finding ev image)
        (keep
          (λ ev.
            is_container ev
            && not (normalize_container_image ev.value =ₛ normalize_container_image image))
          ci)

abbrev pub shell_finding : Evidence → String → Finding
shell_finding ev shell =
    rule_finding "F-CI-SHELL-001"
      ("CI shell " ^^ (ev.value ^^ (" differs from host shell " ^^ shell))) Severity.low point_5
      "CI default shell may behave differently from local shell"
      (ev ∷ observed "host_shell" shell ∷ [])
      ("Shell-specific syntax may behave differently in CI" ∷ []) []

abbrev pub is_shell : Evidence → Bool
is_shell ev =
    ev.source =ₛ "ci_defaults__workflow__shell"
    || (has_prefix ev.source "ci_defaults__job__" && has_suffix ev.source "__shell")

unfoldable pub shell_findings : String → List Evidence → List Finding
shell_findings shell ci =
    if is_blank shell
    then []
    else map (λ ev. shell_finding ev shell) (keep (λ ev. is_shell ev && not (ev.value =ₛ shell)) ci)

-- The host ports of Compose, of a value that is a number and no more.
unfoldable pub compose_ports : List Evidence → List ℤ
compose_ports [] = []
compose_ports (ev ∷ evs) =
    if ev.source =ₛ "compose_host_port"
    then with_port (positive (atoi ev.value)) (compose_ports evs)
    else compose_ports evs

module _ (go : GoRuntime) where
  unfoldable pub parity_findings : Gathered → List Finding
  parity_findings g =
      setup_findings (extract_local_runtimes (go.order g.runtime) []) g.ci
      ++ (command_findings g.ci g.repo
          ++ (key_findings go.order_keys g.config g.ci g.env
              ++ (service_findings go.order_keys (collect_ci_services g.ci)
                    (collect_compose_services g.compose) (compose_ports g.compose)
                  ++ (container_findings g.devcontainer_image g.ci
                      ++ shell_findings g.host_shell g.ci))))

  unfoldable pub evaluate : List CollectorResult → List Finding
  evaluate collectors =
      let g = gather nothing_gathered collectors in if is_empty g.ci then [] else parity_findings g
