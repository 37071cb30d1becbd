-- ===== src/Rules/Parity/Commands.antt =====
-- internal/rules/m8engine.go: the commands that CI runs beside those that the repository documents.
use devdiag.Base.{
  map, String, List, [], ◌∷◌, ◌++◌, Bool, false, not, ◌&&◌, any, if◌then◌else◌, ◌=ₛ◌, ◌^^◌,
  is_blank, is_empty, length, has_prefix, keep,
}
use devdiag.Base.Number.{itoa_nat}
use devdiag.Base.Text.Split.{joined}
use devdiag.Base.Text.Parts.{words, before}
use devdiag.Schema.{Severity, Evidence, Finding}
use devdiag.Rules.Found.{point_5, point_6, rule_finding, observed, has_key}

unfoldable pub collect_ci_run_commands : List Evidence → List Evidence
collect_ci_run_commands evidence = keep (λ ev. has_prefix ev.source "ci_run__") evidence

unfoldable pub collect_repo_commands : List Evidence → List Evidence
collect_repo_commands evidence = keep (λ ev. has_prefix ev.source "repo_command__") evidence

unfoldable pub collect_repo_package_manager : List Evidence → String
collect_repo_package_manager [] = ""
collect_repo_package_manager (ev ∷ evs) =
    if ev.source =ₛ "repo_package_manager" then ev.value else collect_repo_package_manager evs

abbrev pub manager_of : List String → String
manager_of [] = ""
manager_of (w ∷ ws) = if has_key ("npm" ∷ "pnpm" ∷ "yarn" ∷ "bun" ∷ []) w then w else ""

unfoldable pub command_package_manager : String → String
command_package_manager command = manager_of (words command)

unfoldable pub package_manager_name : String → String
package_manager_name pm = before pm "@"

unfoldable pub normalize_command : String → String
normalize_command command = joined " " (words command)

abbrev pub args_of : String → List String → String
args_of command [] = ""
args_of command (w ∷ ws) =
    if is_blank (command_package_manager command) then normalize_command command else joined " " ws

unfoldable pub command_without_package_manager : String → String
command_without_package_manager command = args_of command (words command)

unfoldable pub local_command_matches : String → List Evidence → Bool
local_command_matches command locals =
    any (λ ev. normalize_command ev.value =ₛ normalize_command command) locals

unfoldable pub local_command_with_same_args : String → List Evidence → Bool
local_command_with_same_args command locals =
    let target = command_without_package_manager command in
    if is_blank target
    then false
    else any (λ ev. command_without_package_manager ev.value =ₛ target) locals

abbrev pub other_manager_finding : Evidence → String → Finding
other_manager_finding cmd manager =
    rule_finding "F-CI-PACKAGE-002" ("CI command package manager differs from local " ^^ manager)
      Severity.low point_6
      ("CI runs " ^^ (cmd.value ^^ (" but repo package manager is " ^^ manager)))
      (cmd ∷ observed "repo_package_manager" manager ∷ [])
      ("CI workflow may use a stale package manager command" ∷ []) []

-- A command of CI that a local one has the arguments of, by another package manager.
abbrev pub uses_other_manager : String → List Evidence → Evidence → Bool
uses_other_manager manager locals cmd =
    let ci = command_package_manager cmd.value in
    not (is_blank manager)
    && (not (is_blank ci)
        && (not (ci =ₛ package_manager_name manager)
            && local_command_with_same_args cmd.value locals))

abbrev pub is_undocumented : String → List Evidence → Evidence → Bool
is_undocumented manager locals cmd =
    not (uses_other_manager manager locals cmd)
    && (not (is_empty locals) && not (local_command_matches cmd.value locals))

unfoldable pub deduplicated : List String → List Evidence → List Evidence
deduplicated seen [] = []
deduplicated seen (cmd ∷ cmds) =
    let norm = normalize_command cmd.value in
    let again = deduplicated seen cmds in
    let first = cmd ∷ deduplicated (norm ∷ seen) cmds in if has_key seen norm then again else first

abbrev pub undocumented_finding : List Evidence → Finding
undocumented_finding cmds =
    rule_finding "F-CI-COMMAND-001"
      ("CI has " ^^ (itoa_nat (length cmds) ^^ " undocumented commands")) Severity.low point_5
      "CI run commands do not match collected local README/package/Makefile/Taskfile/justfile commands"
      (observed "ci_undocumented_command_count" (itoa_nat (length cmds)) ∷ cmds)
      ("Local command documentation may be out of sync with CI" ∷ []) []

unfoldable pub command_findings : List Evidence → List Evidence → List Finding
command_findings ci repo =
    let cmds = collect_ci_run_commands ci in
    let locals = collect_repo_commands repo in
    let manager = collect_repo_package_manager repo in
    let undocumented = keep (is_undocumented manager locals) cmds in
    map (λ cmd. other_manager_finding cmd manager) (keep (uses_other_manager manager locals) cmds)
    ++ (if is_empty undocumented
        then []
        else undocumented_finding (deduplicated [] undocumented) ∷ [])
