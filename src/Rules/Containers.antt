-- ===== src/Rules/Containers.antt =====
-- internal/rules/m1engine.go: the rules on Docker, Podman and the services of Compose.
use devdiag.Base.{
  String, List, [], ◌∷◌, ◌++◌, Option, none, some, Bool, true, false, not, ◌&&◌, ◌||◌, any,
  if◌then◌else◌, ◌=ₛ◌, ◌^^◌, is_blank, trim_prefix,
}
use devdiag.Base.Text.Split.{has_suffix, trim_suffix}
use devdiag.Schema.{Severity, Evidence, Finding, CollectorResult, CollectorStatus}
use devdiag.Rules.Found.{point_6, point_7, point_8, rule_finding, collector_named, evidence_named}
use devdiag.Rules.Host.{has_source}

abbrev pub is_ok : CollectorStatus → Bool
is_ok CollectorStatus.ok = true
is_ok _ = false

abbrev pub is_unavailable : CollectorStatus → Bool
is_unavailable CollectorStatus.unavailable = true
is_unavailable _ = false

abbrev pub runs_containers : Evidence → Bool
runs_containers ev =
    ev.source =ₛ "compose" || (ev.source =ₛ "devcontainer" || ev.source =ₛ "devcontainer_image")

abbrev pub severity_from : Option CollectorResult → Severity
severity_from none = Severity.high
severity_from (some repo) =
    if not (is_ok repo.status) || repo.partial_result
    then Severity.high
    else if any runs_containers repo.evidence
    then Severity.high
    else Severity.medium

unfoldable pub docker_daemon_severity : List CollectorResult → Severity
docker_daemon_severity collectors = severity_from (collector_named "repo" collectors)

abbrev pub socket_finding : List Evidence → Finding
socket_finding evidence =
    rule_finding "F-DOCKER-002" "Docker socket permission denied" Severity.medium point_7
      "Cannot access Docker daemon socket due to permission restrictions" evidence
      ("Current user may not be in the docker group"
        ∷ "Docker daemon may be running with restricted socket permissions"
        ∷ "Rootless Docker may require different socket path" ∷ [])
      ("suggest-docker-group" ∷ [])

abbrev pub daemon_finding : Severity → List Evidence → Finding
daemon_finding severity evidence =
    rule_finding "F-DOCKER-001" "Docker daemon inactive or inaccessible" severity point_8
      "Docker daemon is not running or is unreachable" evidence
      ("Docker service is not started" ∷ "Docker daemon is misconfigured" ∷ [])
      ("suggest-docker-group" ∷ [])

abbrev pub plugin_finding : List Evidence → Finding
plugin_finding evidence =
    rule_finding "F-DOCKER-003" "Docker Compose plugin missing" Severity.medium point_6
      "Repo has Compose files but Docker Compose plugin is not available" evidence
      ("Docker Compose plugin is not installed"
        ∷ "Legacy docker-compose binary may be available as fallback" ∷ [])
      []

abbrev pub has_plugin : Evidence → Bool
has_plugin ev = ev.source =ₛ "docker_compose_plugin" && ev.value =ₛ "available"

abbrev pub lacks_plugin : Evidence → Bool
lacks_plugin ev =
    ev.source =ₛ "docker_compose_plugin"
    && (ev.value =ₛ "missing" || ev.value =ₛ "legacy_docker-compose")

unfoldable pub docker_rules : CollectorResult → List CollectorResult → List Finding
docker_rules result collectors =
    let evs = result.evidence in
    (if is_unavailable result.status
      then if has_source "docker_socket_permission_denied" evs
        then socket_finding evs ∷ []
        else daemon_finding (docker_daemon_severity collectors) evs ∷ []
      else [])
    ++ (if not (any has_plugin evs)
          && (has_source "compose" (evidence_named "compose" collectors) && any lacks_plugin evs)
        then plugin_finding evs ∷ []
        else [])

unfoldable pub evidence_source_value : List Evidence → String → String → Bool
evidence_source_value evidence source value =
    any (λ ev. ev.source =ₛ source && ev.value =ₛ value) evidence

abbrev pub podman_finding : List Evidence → Finding
podman_finding evidence =
    rule_finding "F-PODMAN-001" "Podman unavailable (repo expects containers)" Severity.medium
      point_7 "Repo has container signals but Podman is not accessible" evidence
      ((if evidence_source_value evidence "podman_runtime_dir_error" "true"
          then "Rootless Podman runtime directory under /run/user is missing or inaccessible" ∷ []
          else [])
        ++ ("Podman is not installed" ∷ "Podman service is not running" ∷ []))
      []

unfoldable pub podman_rules : CollectorResult → List Finding
podman_rules result =
    if is_unavailable result.status then podman_finding result.evidence ∷ [] else []

-- The service that a source with a suffix speaks of, empty for any other source.
abbrev pub service_name : String → String → String
service_name source suffix =
    if has_suffix source suffix
    then trim_suffix (trim_prefix source "compose_service_") suffix
    else ""

abbrev pub is_stopped : String → Bool
is_stopped status = status =ₛ "exited" || (status =ₛ "dead" || status =ₛ "restarting")

abbrev pub stopped_finding : String → Evidence → Finding
stopped_finding name ev =
    rule_finding "F-CONTAINER-001" ("Compose service '" ^^ (name ^^ "' is not running"))
      Severity.high point_8 ("Service '" ^^ (name ^^ ("' is in state '" ^^ (ev.value ^^ "'"))))
      (ev ∷ [])
      ("Service may have crashed or failed to start" ∷ "Dependent services may be unavailable" ∷ [])
      ("compose-up" ∷ "inspect-service" ∷ [])

abbrev pub unhealthy_finding : String → Evidence → Finding
unhealthy_finding name ev =
    rule_finding "F-CONTAINER-001" ("Compose service '" ^^ (name ^^ "' is unhealthy")) Severity.high
      point_8 ("Service '" ^^ (name ^^ "' healthcheck is failing")) (ev ∷ [])
      ("Service dependencies may be unavailable" ∷ "Healthcheck configuration may be too strict"
        ∷ [])
      ("inspect-service" ∷ [])

abbrev pub mount_finding : String → Evidence → Finding
mount_finding name ev =
    rule_finding "F-CONTAINER-003"
      ("Bind mount source missing or unreadable for service '" ^^ (name ^^ "'")) Severity.medium
      point_7
      ("Host path '" ^^ (trim_suffix ev.value "=false" ^^ "' does not exist or is not readable"))
      (ev ∷ [])
      ("Path was removed after compose file was written" ∷ "Path requires different permissions"
        ∷ [])
      []

-- One of the three loops: a suffix of sources, the test of a value, and the finding.
unfoldable pub service_loop :
    String → (String → Bool) → (String → Evidence → Finding) → List Evidence → List Finding
service_loop suffix test report [] = []
service_loop suffix test report (ev ∷ evs) =
    let name = service_name ev.source suffix in
    if not (is_blank name) && test ev.value
    then report name ev ∷ service_loop suffix test report evs
    else service_loop suffix test report evs

unfoldable pub compose_status_rules : CollectorResult → List Finding
compose_status_rules result =
    service_loop "_status" is_stopped stopped_finding result.evidence
    ++ (service_loop "_health" (λ v. v =ₛ "unhealthy") unhealthy_finding result.evidence
        ++ service_loop "_bind_mount_source" (λ v. has_suffix v "=false") mount_finding
            result.evidence)
