-- ===== src/Rules/Host.antt =====
-- internal/rules/m1engine.go: the rules on the host: runtimes, disk, ports, network, services,
-- permissions and security logs. What the rules take from Go's runtime is a record: floating-point
-- numbers with their parser, which answers a value and whether there was no error, and the order in which a `range` over a map runs.
use devdiag.Base.{
  map, ℕ, String, List, [], ◌∷◌, ◌++◌, Option, none, some, Bool, false, not, ◌&&◌, ◌||◌, any,
  if◌then◌else◌, ◌=ₛ◌, ◌^^◌, ◌==◌, is_blank, has_prefix, trim_prefix, keep,
}
use devdiag.Base.Number.{ℤ, pos, negsuc, atoi, itoa}
use devdiag.Base.Text.Split.{split, has_text, has_suffix, trim_suffix}
use devdiag.Base.Text.Parts.{cut, last_of}
use devdiag.Schema.{Severity, Evidence, Finding, CollectorResult}
use devdiag.Rules.Versions.{versions_compatible}
use devdiag.Rules.Found.{point_5, point_7, point_8, rule_finding, observed, evidence_named}

pub record GoRuntime : Type 1 where
  pub Float : Type 0
  pub of_nat : ℕ → Float
  pub less : Float → Float → Bool
  pub parse_float : String → Float × Bool
  pub order : List (String × String) → List (String × String)
  pub order_keys : List String → List String

-- `m[k] = v`
unfoldable pub put : String → String → List (String × String) → List (String × String)
put k v [] = (k, v) ∷ []
put k v ((j, w) ∷ m) = if j =ₛ k then (k, v) ∷ m else (j, w) ∷ put k v m

-- `m[k]`, which is empty for a key that is not there
unfoldable pub value_at : String → List (String × String) → String
value_at k [] = ""
value_at k ((j, w) ∷ m) = if j =ₛ k then w else value_at k m

abbrev pub has_value : String → List (String × String) → Bool
has_value key m = not (is_blank (value_at key m))

-- A finding if a test holds.
abbrev pub given : Bool → Finding → List Finding
given test f = if test then f ∷ [] else []

abbrev pub binary_name : String → String
binary_name name = if name =ₛ "rust" then "rustc" else name

unfoldable pub expected_versions : List (String × String) → List Evidence → List (String × String)
expected_versions m [] = m
expected_versions m (ev ∷ evs) =
    expected_versions
      (elim (cut ev.value " ") [ none ↦ m | some (name, v) ↦ put (binary_name name) v m ]) evs

pub record HostState : Type 0 where
  pub actual : List (String × String)
  pub paths : List (String × String)
  pub absent : List (String × String)
  pub managers : List (String × String)

abbrev pub runtime_name : String → String → String
runtime_name source suffix = trim_prefix (trim_suffix source suffix) "host_"

unfoldable pub host_loop : HostState → List Evidence → HostState
host_loop s [] = s
host_loop s (ev ∷ evs) =
    host_loop
      (if has_suffix ev.source "_version"
        then record s { actual = put (runtime_name ev.source "_version") ev.value s.actual }
        else if has_suffix ev.source "_path"
        then record s { paths = put (runtime_name ev.source "_path") ev.value s.paths }
        else if has_suffix ev.source "_missing"
        then record s { absent = put (runtime_name ev.source "_missing") ev.value s.absent }
        else if has_suffix ev.source "_manager"
        then record s { managers = put (runtime_name ev.source "_manager") ev.value s.managers }
        else s)
      evs

unfoldable pub runtime_finding_id : String → String
runtime_finding_id rt =
    if rt =ₛ "node"
    then "F-RUNTIME-001"
    else if rt =ₛ "python"
    then "F-RUNTIME-002"
    else if rt =ₛ "dotnet"
    then "F-RUNTIME-004"
    else if rt =ₛ "go"
    then "F-RUNTIME-005"
    else if rt =ₛ "rustc"
    then "F-RUNTIME-006"
    else "F-RUNTIME-003"

unfoldable pub confidence_for_version : String → ℕ
confidence_for_version expected =
    if expected =ₛ "lts/*" || (expected =ₛ "node" || not (has_text expected "."))
    then point_5
    else point_8

abbrev pub absent_runtime_finding : String → String → Finding
absent_runtime_finding rt version =
    rule_finding "F-RUNTIME-003" ("Required runtime '" ^^ (rt ^^ "' not found on host"))
      Severity.high point_8 ("Project expects " ^^ (rt ^^ " but it is not installed"))
      (observed ("expected_" ^^ rt) version ∷ observed ("host_" ^^ (rt ^^ "_missing")) "true" ∷ [])
      ("Runtime is not installed or not in PATH"
        ∷ "Version manager (nvm, pyenv, etc.) may not be active in this shell" ∷ [])
      []

abbrev pub mismatch_finding : HostState → String → String → String → Finding
mismatch_finding s rt expected actual =
    rule_finding (runtime_finding_id rt)
      (rt ^^ (" version mismatch: repo expects " ^^ (expected ^^ (", host has " ^^ actual))))
      Severity.medium (confidence_for_version expected)
      ("Installed " ^^ (rt ^^ " version does not match project expectation"))
      (observed ("expected_" ^^ rt) expected
        ∷ observed ("host_" ^^ (rt ^^ "_version")) actual
        ∷ observed ("host_" ^^ (rt ^^ "_path")) (value_at rt s.paths)
        ∷ observed ("host_" ^^ (rt ^^ "_manager")) (value_at rt s.managers)
        ∷ [])
      ("Version manager may be using a different version"
        ∷ "Project was developed with a different runtime version" ∷ [])
      []

-- A round of the loop over the expected runtimes.
unfoldable pub check_runtime : HostState → String × String → List Finding
check_runtime s (rt, expected) =
    let actual = value_at rt s.actual in
    if value_at rt s.absent =ₛ "true"
    then absent_runtime_finding rt expected ∷ []
    else if is_blank actual
    then []
    else if versions_compatible expected actual
    then []
    else mismatch_finding s rt expected actual ∷ []

unfoldable pub check_runtimes : HostState → List (String × String) → List Finding
check_runtimes s [] = []
check_runtimes s (e ∷ es) = check_runtime s e ++ check_runtimes s es

unfoldable pub host_runtime_rules :
    GoRuntime → CollectorResult → List CollectorResult → List Finding
host_runtime_rules go result collectors =
    check_runtimes
      (host_loop (record { actual = []; paths = []; absent = []; managers = [] }) result.evidence)
      (go.order (expected_versions [] (evidence_named "runtime" collectors)))

abbrev pub eq_int : ℤ → ℤ → Bool
eq_int (pos a) (pos b) = a == b
eq_int (negsuc a) (negsuc b) = a == b
eq_int _ _ = false

abbrev pub with_int : Option ℤ → List ℤ → List ℤ
with_int none ps = ps
with_int (some p) ps = p ∷ ps

unfoldable pub listening_ports : List Evidence → List ℤ
listening_ports [] = []
listening_ports (ev ∷ evs) =
    if has_prefix ev.source "host_listen_port_"
    then with_int (atoi ev.value) (listening_ports evs)
    else listening_ports evs

-- A value without a colon is its own last part.
unfoldable pub extract_compose_host_ports : List Evidence → List ℤ
extract_compose_host_ports [] = []
extract_compose_host_ports (ev ∷ evs) =
    if ev.source =ₛ "compose_host_port"
    then with_int (atoi (last_of ev.value (split b':' ev.value))) (extract_compose_host_ports evs)
    else extract_compose_host_ports evs

unfoldable pub port_finding : ℤ → Finding
port_finding port =
    rule_finding "F-PORT-001" ("Declared host port " ^^ (itoa port ^^ " already in use"))
      Severity.high point_7 "A port declared in compose is already listening on the host"
      (observed "compose_host_port" (itoa port) ∷ observed "host_listen_port" (itoa port) ∷ [])
      ("Another service is already bound to this port"
        ∷ "Previous instance of the service did not shut down cleanly" ∷ [])
      ("change-compose-port" ∷ "stop-service" ∷ [])

unfoldable pub port_rules : CollectorResult → List CollectorResult → List Finding
port_rules result collectors =
    let listening = listening_ports result.evidence in
    map port_finding (
      keep (λ p. any (λ q. eq_int q p) listening)
        (extract_compose_host_ports (evidence_named "compose" collectors)))

abbrev pub has_source : String → List Evidence → Bool
has_source source evs = any (λ ev. ev.source =ₛ source) evs

abbrev pub proxy_finding : List Evidence → Finding
proxy_finding evidence =
    rule_finding "F-NET-001" "Proxy env var set but NO_PROXY is empty" Severity.low point_5
      "HTTP proxy is configured without NO_PROXY exclusions" evidence
      ("Proxy may redirect local service traffic unexpectedly"
        ∷ "Add localhost, 127.0.0.1 to NO_PROXY if local services fail" ∷ [])
      []

unfoldable pub network_rules : CollectorResult → List Finding
network_rules result =
    if has_source "host_proxy_env" result.evidence
      && not (has_source "host_no_proxy" result.evidence)
    then proxy_finding result.evidence ∷ []
    else []
