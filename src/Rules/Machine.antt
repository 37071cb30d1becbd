-- ===== src/Rules/Machine.antt =====
-- internal/rules/m1engine.go: the rules on the disk, services, permissions and security logs.
use devdiag.Base.{
  ℕ, String, List, [], ◌∷◌, ◌++◌, Option, none, some, Bool, true, false, not, ◌&&◌, ◌||◌, any,
  if◌then◌else◌, ◌=ₛ◌, ◌^^◌, is_empty, keep, ◌*◌,
}
use devdiag.Base.Text.Split.{has_text}
use devdiag.Schema.{Severity, Evidence, Finding, CollectorResult}
use devdiag.Rules.Host.{GoRuntime}
use devdiag.Rules.Found.{point_6, point_7, point_8, rule_finding}

abbrev pub systemd_finding : List Evidence → Finding
systemd_finding evidence =
    rule_finding "F-SVC-001" "Docker service inactive but repo expects Docker" Severity.medium
      point_7 "Repo contains Docker/Compose files but the Docker service is not running" evidence
      ("Docker daemon is not started" ∷ "User is not in the docker group" ∷ []) []

-- The first argument is the whole evidence, which each finding carries.
unfoldable pub systemd_loop : List Evidence → List Evidence → List Finding
systemd_loop whole [] = []
systemd_loop whole (ev ∷ evs) =
    if ev.source =ₛ "host_docker_service" && ev.value =ₛ "inactive"
    then systemd_finding whole ∷ systemd_loop whole evs
    else systemd_loop whole evs

unfoldable pub systemd_rules : CollectorResult → List Finding
unfolding systemd_loop
systemd_rules result = systemd_loop result.evidence result.evidence

abbrev pub script_finding : Evidence → Finding
script_finding ev =
    rule_finding "F-FS-001" ("Script missing executable bit: " ^^ ev.value) Severity.medium point_8
      "A referenced script cannot be executed due to missing permissions" (ev ∷ [])
      ("File was created without execute permissions"
        ∷ "Permissions were reset during file copy or extraction" ∷ [])
      ("chmod-script" ∷ [])

abbrev pub owner_finding : Evidence → Finding
owner_finding ev =
    rule_finding "F-PERM-002" ("File owned by root: " ^^ ev.value) Severity.low point_6
      "A repo-relevant file is owned by root" (ev ∷ [])
      ("Possibly created by prior sudo command"
        ∷ "File was created as root and ownership was not transferred" ∷ [])
      []

unfoldable pub permission_rules : List Evidence → List Finding
permission_rules [] = []
permission_rules (ev ∷ evs) =
    (if ev.source =ₛ "host_script_not_executable" then script_finding ev ∷ [] else [])
    ++ ((if ev.source =ₛ "host_file_root_owned" then owner_finding ev ∷ [] else [])
        ++ permission_rules evs)

unfoldable pub evidence_contains_value : List Evidence → String → Bool
evidence_contains_value evidence needle = any (λ ev. has_text ev.value needle) evidence

abbrev pub selinux_finding : List Evidence → Finding
selinux_finding evidence =
    let relabel = evidence_contains_value evidence "container_label_hint=mount_relabel_z_or_Z" in
    rule_finding "F-SEC-SELINUX-001" "SELinux denial likely blocking project access" Severity.medium
      point_7 "Kernel audit logs show SELinux denied a file or process operation" evidence
      ((if relabel
          then "Container bind mount is missing an SELinux shared/private relabel such as :z or :Z"
            ∷ []
          else [])
        ++ ("Bind mount or workspace path may have an SELinux label mismatch"
            ∷ "Container volume may need an explicit shared or private SELinux relabel"
            ∷ "Process domain is not allowed to access the target path" ∷ []))
      ("inspect-selinux-context" ∷ (if relabel then "relabel-container-volume" ∷ [] else []))

abbrev pub apparmor_finding : List Evidence → Finding
apparmor_finding evidence =
    let docker_default = evidence_contains_value evidence "profile=docker-default" in
    rule_finding "F-SEC-APPARMOR-001" "AppArmor denial likely blocking project access"
      Severity.medium point_7 "Kernel audit logs show AppArmor denied a file or process operation"
      evidence
      ((if docker_default
          then "Docker default AppArmor profile denied access to the mounted project path" ∷ []
          else [])
        ++ ("Container or process profile denies the requested operation"
            ∷ "Mounted workspace path is outside the allowed profile paths"
            ∷ "Service profile needs adjustment or a less restrictive local dev profile" ∷ []))
      ("inspect-apparmor-denial" ∷ (if docker_default then "review-apparmor-profile" ∷ [] else []))

abbrev pub from_source : String → List Evidence → List Evidence
from_source source evs = keep (λ ev. ev.source =ₛ source) evs

unfoldable pub security_rules : CollectorResult → List Finding
security_rules result =
    let selinux = from_source "selinux_denial" result.evidence in
    let apparmor = from_source "apparmor_denial" result.evidence in
    (if is_empty selinux then [] else selinux_finding selinux ∷ [])
    ++ (if is_empty apparmor then [] else apparmor_finding apparmor ∷ [])

abbrev pub disk_finding : ℕ → String → List Evidence → Finding
disk_finding confidence symptom evidence =
    rule_finding "F-DISK-001" "Disk or inode pressure on repo mount" Severity.medium confidence
      symptom evidence ("Build artifacts or caches consuming space" ∷ "Large dependency trees" ∷ [])
      ("warn-disk-cleanup" ∷ [])

module _ (go : GoRuntime) where
  open go use {Float, of_nat, less, parse_float}

  pub record DiskState : Type 0 where
    pub free_bytes : Float
    pub free_pct : Float
    pub free_inodes_pct : Option Float
    pub inodes_available : Bool

  abbrev pub unless_error : Float × Bool → Option Float → Option Float
  unless_error (x, ok) old = if ok then some x else old

  unfoldable pub disk_loop : DiskState → List Evidence → DiskState
  disk_loop s [] = s
  disk_loop s (ev ∷ evs) =
      disk_loop
        (if ev.source =ₛ "host_disk_free_bytes"
          then record s { free_bytes = (parse_float ev.value).0 }
          else if ev.source =ₛ "host_disk_free_pct"
          then record s { free_pct = (parse_float ev.value).0 }
          else if ev.source =ₛ "host_disk_free_inodes_pct"
          then record s { free_inodes_pct = unless_error (parse_float ev.value) s.free_inodes_pct }
          else if ev.source =ₛ "host_disk_inodes_available"
          then record s { inodes_available = not (ev.value =ₛ "false") }
          else s)
        evs

  abbrev pub inodes_below : DiskState → ℕ → Bool
  inodes_below s n =
      s.inodes_available && elim s.free_inodes_pct [ none ↦ false | some pct ↦ less pct (of_nat n) ]

  -- Fewer bytes than so many GiB, or less than so many hundredths of the bytes or the inodes.
  abbrev pub is_below_limits : DiskState → ℕ → ℕ → Bool
  is_below_limits s gib hundredths =
      less s.free_bytes (of_nat (gib * (1024 * (1024 * 1024))))
      || (less s.free_pct (of_nat hundredths) || inodes_below s hundredths)

  abbrev pub no_disk : DiskState
  no_disk = record {
    free_bytes = of_nat 0;
    free_pct = of_nat 0;
    free_inodes_pct = none;
    inodes_available = true;
  }

  unfoldable pub disk_rules : CollectorResult → List Finding
  disk_rules result =
      let s = disk_loop no_disk result.evidence in
      if is_below_limits s 1 2
      then disk_finding point_8 "Repo mount is critically low on disk space or inodes"
          result.evidence
        ∷ []
      else if is_below_limits s 5 10
      then disk_finding point_7 "Repo mount is low on disk space or inodes" result.evidence ∷ []
      else []
