-- ===== src/Fix/Planner.antt =====
-- internal/fix/planner.go: the hints of a finding become proposals. A Go map of texts is a list with
-- one value for a key, and `order` is the order in which Go runs over it. The debug log is left out.
use devdiag.Base.{
  is_blank, has_prefix, is_some, trim_space, trim_prefix, if◌then◌else◌, ℕ, String, List, [], ◌∷◌,
  ◌++◌, Option, none, some, Bool, not, ◌&&◌, ◌||◌, ◌=ₛ◌,
}
use devdiag.Base.Number.{pos, itoa}
use devdiag.Base.Text.Split.{split, joined, has_text, has_suffix, trim_suffix}
use devdiag.Schema.{FixSource, Evidence, Finding, CollectorResult}
use devdiag.Fix.Paths.{clean, path_text, join, is_abs}
use devdiag.Fix.Validate.{
  is_valid, Checked, valid, invalid, expand_home, validate_path, validate_port,
  validate_service_name, validate_env_key,
}
use devdiag.Fix.Blocklist.{Template}

-- What the program asks of its host: `runtime.GOOS`, `os.UserHomeDir` and `os.Getwd`, the last two
-- with none for an error.
pub record Host : Type 0 where
  pub goos : String
  pub home : Option String
  pub cwd : Option String
  pub order : List (String × String) → List (String × String)

-- `age_text` is the age as Go prints it.
pub record ResolveOptions : Type 0 where
  pub finding_id : String
  pub source : FixSource
  pub run_id : String
  pub report_age : ℕ
  pub age_text : String

unfoldable pub set_value : String → String → List (String × String) → List (String × String)
set_value k v [] = (k, v) ∷ []
set_value k v ((l, w) ∷ m) = if l =ₛ k then (k, v) ∷ m else (l, w) ∷ set_value k v m

unfoldable pub value_of : String → List (String × String) → Option String
value_of k [] = none
value_of k ((l, w) ∷ m) = if l =ₛ k then some w else value_of k m

unfoldable pub find_target : String → List Finding → Option Finding
find_target id [] = none
find_target id (f ∷ fs) = if f.id =ₛ id then some f else find_target id fs

-- `buildEvidenceMap`: the evidence of a source, in the order of the report
unfoldable pub append_evidence :
    Evidence → List (String × List Evidence) → List (String × List Evidence)
append_evidence ev [] = (ev.source, ev ∷ []) ∷ []
append_evidence ev ((k, evs) ∷ m) =
    if k =ₛ ev.source then (k, evs ++ ev ∷ []) ∷ m else (k, evs) ∷ append_evidence ev m

unfoldable pub append_all :
    List Evidence → List (String × List Evidence) → List (String × List Evidence)
append_all [] m = m
append_all (ev ∷ evs) m = append_all evs (append_evidence ev m)

unfoldable pub build_evidence_map :
    List CollectorResult → List (String × List Evidence) → List (String × List Evidence)
build_evidence_map [] m = m
build_evidence_map (c ∷ cs) m = build_evidence_map cs (append_all c.evidence m)

unfoldable pub own_evidence : List Evidence → List (String × String) → List (String × String)
own_evidence [] result = result
own_evidence (ev ∷ evs) result = own_evidence evs (set_value ev.source ev.value result)

-- one round over the evidence map: the first evidence of a source that the finding has none of
unfoldable pub pull_one : String → List Evidence → List (String × String) → List (String × String)
pull_one k [] result = result
pull_one k (ev ∷ evs) result =
    if is_some (value_of k result) then result else set_value k ev.value result

unfoldable pub pull_all :
    List (String × List Evidence) → List (String × String) → List (String × String)
pull_all [] result = result
pull_all ((k, evs) ∷ m) result = pull_all m (pull_one k evs result)

unfoldable pub evidence_for_finding :
    Finding → List (String × List Evidence) → List (String × String)
evidence_for_finding finding evidence_map = pull_all evidence_map (own_evidence finding.evidence [])

abbrev pub is_down : String → Bool
is_down value = value =ₛ "exited" || value =ₛ "dead" || value =ₛ "restarting"

-- the service of one source, where it is one of a service that is down
unfoldable pub down_service : String → String → Option (String × String)
down_service source value =
    let name = trim_suffix (trim_prefix source "compose_service_") "_status" in
    if not (has_prefix source "compose_service_") || not (has_suffix source "_status")
    then none
    else if is_valid (validate_service_name name) && is_down value
    then some (name, value)
    else none

abbrev first_of : Option (String × String) → Option (String × String) → Option (String × String)
first_of none rest = rest
first_of (some a) rest = some a

unfoldable pub compose_status_evidence : List (String × String) → Option (String × String)
compose_status_evidence [] = none
compose_status_evidence ((source, value) ∷ evidence) =
    let rest = compose_status_evidence evidence in first_of (down_service source value) rest

-- the values so far, and the evidence that is missing
pub record Bound : Type 0 where
  pub values : List (String × String)
  pub missing : List String

abbrev pub bound : Bound → String → String → Checked Bound
bound b k v = valid (record b { values = set_value k v b.values })

abbrev pub lacking : Bound → String → Checked Bound
lacking b req = valid (record b { missing = b.missing ++ req ∷ [] })

abbrev pub bind_path : Bound → Checked String → Checked Bound
bind_path b (invalid err) = invalid err
bind_path b (valid p) = bound b "path" p

abbrev pub bind_port : Bound → Checked ℕ → Checked Bound
bind_port b (invalid err) = invalid err
bind_port b (valid p) = bound b "port" (itoa (pos p))

last_of : String → List String → String
last_of last [] = last
last_of last (p ∷ ps) = last_of p ps

unfoldable pub port_text : String → String
unfolding last_of
port_text val = if has_text val ":" then last_of "" (split b':' val) else val

unfoldable pub valid_keys : List String → List String
valid_keys [] = []
valid_keys (k ∷ ks) =
    let key = trim_space k in
    if is_valid (validate_env_key key) then key ∷ valid_keys ks else valid_keys ks

-- the `switch` on the kind of evidence
unfoldable pub bind_typed : Host → String → String → String → Bound → Checked Bound
bind_typed host repo_root req val b =
    if req =ₛ "host_script_not_executable"
    then bind_path b (validate_path host.home repo_root val)
    else if req =ₛ "git_tracked_env" || req =ₛ "git_env_exists"
    then bound b "env" val
    else if req =ₛ "compose_host_port" || req =ₛ "host_listen_port"
    then bind_port b (validate_port (port_text val))
    else if req =ₛ "missing_keys"
    then bound b "keys" (joined " " (valid_keys (split b',' val)))
    else if req =ₛ "host_disk_free_bytes" || req =ₛ "host_disk_free_pct"
    then bound b "disk" val
    else if req =ₛ "docker_socket_permission_denied"
    then bound b "docker" val
    else bound b "value" val

abbrev pub bind_service : Bound → Option (String × String) → Checked Bound
bind_service b none = lacking b "compose_status"
bind_service b (some (service, status)) =
    valid (record b { values = set_value "status" status (set_value "service" service b.values) })

unfoldable pub bind_given : Host → String → String → Option String → Bound → Checked Bound
bind_given host repo_root req none b = lacking b req
bind_given host repo_root req (some val) b =
    if is_blank val then lacking b req else bind_typed host repo_root req val b

unfoldable pub bind_evidence :
    Host → String → List (String × String) → String → Bound → Checked Bound
bind_evidence host repo_root evidence req b =
    if req =ₛ "compose_status"
    then bind_service b (compose_status_evidence (host.order evidence))
    else bind_given host repo_root req (value_of req evidence) b

unfoldable pub bind_next : (Bound → Checked Bound) → Checked Bound → Checked Bound
bind_next rest (invalid err) = invalid err
bind_next rest (valid b) = rest b

unfoldable pub bind_all :
    Host → String → List (String × String) → List String → Bound → Checked Bound
bind_all host repo_root evidence [] b = valid b
bind_all host repo_root evidence (req ∷ reqs) b =
    bind_next (bind_all host repo_root evidence reqs) (bind_evidence host repo_root evidence req b)

abbrev from_cwd : Option String → String → Option String
from_cwd none path = none
from_cwd (some cwd) path = some (join cwd path)

-- `filepath.Abs`
unfoldable pub absolute : Host → String → Option String
absolute host path = if is_abs path then some path else from_cwd host.cwd path

unfoldable pub validate_from :
    Host → Template → List (String × String) → Option String → Checked Bound
validate_from host t evidence none = invalid "failed to make repo root absolute"
validate_from host t evidence (some root) =
    bind_all host root evidence t.required_evidence
      (record { values = ("repo_root", path_text (clean root)) ∷ []; missing = [] })

unfoldable pub validate_evidence : Host → Template → List (String × String) → String → Checked Bound
validate_evidence host t evidence repo_root =
    let root = if is_blank repo_root then "." else repo_root in
    validate_from host t evidence (absolute host (expand_home host.home root))
