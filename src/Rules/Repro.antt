-- ===== src/Rules/Repro.antt =====
-- internal/rules/m1engine.go: the rules on a command that was run to reproduce a failure.
use devdiag.Base.{
  refl, ◌≡◌, zero, String, List, [], ◌∷◌, ◌++◌, Option, none, some, Bool, true, false, not, ◌&&◌,
  if◌then◌else◌, ◌=ₛ◌, ◌^^◌, ◌==◌, is_space, leb,
}
use Prim.Native.Char.{Char, code}
use devdiag.Base.Number.{ℤ, pos, negsuc, itoa, signed, magnitude}
use devdiag.Schema.{Severity, Evidence, Finding, CollectorResult, CollectorStatus}
use devdiag.Rules.Found.{point_7, point_8, point_9, rule_finding}

abbrev pub is_timeout : CollectorStatus → Bool
is_timeout CollectorStatus.timeout = true
is_timeout _ = false

-- `fmt.Sscanf(text, "%d", &n)`: blanks but for line ends, a sign, and the digits up to another
-- character.
abbrev pub is_digit : Char → Bool
is_digit c = leb 48 (code c) && leb (code c) 57

unfoldable pub digit_prefix : String → String
digit_prefix String.[] = String.[]
digit_prefix (String.◌∷◌ c s) = if is_digit c then String.◌∷◌ c (digit_prefix s) else String.[]

abbrev pub scan_signed : String → Option ℤ
scan_signed String.[] = none
scan_signed (String.◌∷◌ c s) =
    if code c == b'-'
    then signed true (magnitude (digit_prefix s))
    else if code c == b'+'
    then signed false (magnitude (digit_prefix s))
    else signed false (magnitude (digit_prefix (String.◌∷◌ c s)))

unfoldable pub scan_int : String → Option ℤ
scan_int String.[] = none
scan_int (String.◌∷◌ c s) =
    let rest = scan_int s in
    if is_space c && not (code c == 10) then rest else scan_signed (String.◌∷◌ c s)

abbrev pub timeout_finding : List Evidence → Finding
timeout_finding evidence =
    rule_finding "F-REPRO-009" "Command timed out during reproduction" Severity.high point_9
      "The repro command exceeded its timeout budget" evidence
      ("Command is slower than expected" ∷ "Command may be waiting for input or a network resource"
        ∷ [])
      []

abbrev pub kind_finding : String → String → String → Evidence → List Finding
kind_finding id title symptom ev =
    rule_finding id title Severity.medium point_7 symptom (ev ∷ []) [] [] ∷ []

unfoldable pub classified : Evidence → List Finding
classified ev =
    if ev.value =ₛ "permission_denied"
    then kind_finding "F-REPRO-002" "Permission denied during command execution"
        "Command output indicates permission was denied" ev
    else if ev.value =ₛ "missing_file"
    then kind_finding "F-REPRO-003" "Missing file or command not found"
        "Command output indicates a required file or command is missing" ev
    else if ev.value =ₛ "address_in_use"
    then kind_finding "F-REPRO-004" "Address already in use (port conflict)"
        "Command output indicates a port binding conflict" ev
    else if ev.value =ₛ "connection_refused"
    then kind_finding "F-REPRO-005" "Connection refused or network unreachable"
        "Command output indicates a connection was refused" ev
    else if ev.value =ₛ "runtime_version_failure"
    then kind_finding "F-REPRO-006" "Runtime version failure during command execution"
        "Command output indicates the active runtime version does not satisfy the project" ev
    else if ev.value =ₛ "dependency_failure"
    then kind_finding "F-REPRO-007" "Dependency resolver failure"
        "Command output indicates a dependency resolution failure" ev
    else if ev.value =ₛ "compose_config_error"
    then kind_finding "F-REPRO-008" "Compose interpolation or config error"
        "Command output indicates a Compose configuration error" ev
    else []

pub record ReproState : Type 0 where
  pub exit_code : Option ℤ
  pub has_classification : Bool
  pub found : List Finding

abbrev pub or_before : Option ℤ → Option ℤ → Option ℤ
or_before none old = old
or_before (some n) old = some n

unfoldable pub repro_step : ReproState → Evidence → ReproState
repro_step s ev =
    if ev.source =ₛ "repro_exit_code"
    then record s { exit_code = or_before (scan_int ev.value) s.exit_code }
    else if ev.source =ₛ "repro_classification"
    then record s { has_classification = true; found = s.found ++ classified ev }
    else s

unfoldable pub repro_loop : ReproState → List Evidence → ReproState
repro_loop s [] = s
repro_loop s (ev ∷ evs) = repro_loop (repro_step s ev) evs

unfoldable pub exit_findings : Option ℤ → List Evidence → List Finding
exit_findings none evidence = []
exit_findings (some (pos zero)) evidence = []
exit_findings (some code) evidence =
    rule_finding "F-REPRO-001" "Command exited with non-zero code" Severity.high point_8
      ("Command exited with code " ^^ itoa code) evidence [] []
    ∷ []

unfoldable pub repro_rules : CollectorResult → List Finding
repro_rules result =
    let s =
      repro_loop (record { exit_code = none; has_classification = false; found = [] })
        result.evidence in
    if is_timeout result.status
    then timeout_finding result.evidence ∷ []
    else s.found ++ (if s.has_classification then [] else exit_findings s.exit_code result.evidence)

scans : (scan_int " -7x" ≡ some (negsuc 6)) × (scan_int "x" ≡ none)
unfolding scan_int signed magnitude digit_prefix
scans = (refl, refl)
