-- ===== src/Scan.antt =====
-- internal/app/scan.go and events.go: a scan runs collectors and engines, and tells of it by events.
-- The engines, the rule pack evaluation, the snapshot builder and the redaction of event texts are
-- arguments, as the run of the collectors is: its results, and what its observer was told.
pub mod Scanner
pub mod Told
pub mod Contract
pub mod Engines
mod Examples
use devdiag.Base.{
  if◌then◌else◌, ℕ, String, List, [], ◌∷◌, Option, Bool, ◌=ₛ◌, ◌^^◌, is_blank, length,
}
use devdiag.Base.Number.{itoa_nat}
use devdiag.Schema.{Severity, CollectorStatus, CollectorResult, Finding, HostInfo, Report, Evidence}

pub data EventType : Type 0 where
  scan_started collector_started collector_done rule_evaluated finding_added scan_completed
        scan_failed :
      EventType

-- Without the fields that no code sets (domain, check ID), the times and the internal error value.
pub record Event : Type 0 where
  pub type : EventType
  pub run_id : String
  pub path : String
  pub collector : String
  pub status : CollectorStatus
  pub rule_engine : String
  pub finding_id : String
  pub severity : Severity
  pub confidence : ℕ
  pub message : String
  pub error : String

pub record ScanOptions : Type 0 where
  pub path : String
  pub profile : String
  pub rule_pack_path : String
  pub redact_level : String
  pub ci : Bool

pub record RepoSignals : Type 0 where
  pub root : String
  pub has_docker : Bool
  pub has_podman : Bool
  pub has_ci : Bool
  pub has_python : Bool

-- what an engine answers: findings, or the text of an error
pub data Evaluation : Type 0 where
  evaluated : List Finding → Evaluation
  engine_error : String → Evaluation

pub record RulePackResult : Type 0 where
  pub valid : Bool
  pub errors : List String
  pub findings : List Finding
  pub pack_id : String
  pub pack_engine : String

-- what the observer of the collectors' run is told
pub data Observation : Type 0 where
  started : String → Observation
  done : CollectorResult → Observation

pub record ScannerDeps (Snapshot : Type 0) : Type 0 where
  pub signals : RepoSignals
  pub results : List CollectorResult
  pub observed : List Observation
  pub build : List CollectorResult → Snapshot
  pub m1 : Snapshot → Evaluation
  pub m6 : Snapshot → Evaluation
  pub m8 : Snapshot → Evaluation
  pub rule_pack : String → Snapshot → RulePackResult
  pub redact : String → String → String
  pub run_id : String
  pub version : String

pub data ScanError : Type 0 where
  m1_error : String → ScanError
  rule_pack_error : List String → ScanError

pub record ScanOutcome : Type 0 where
  pub report : Option Report
  pub error : Option ScanError
  pub events : List Event

abbrev pub blank_event : EventType → Event
blank_event type = record {
  type = type;
  run_id = "";
  path = "";
  collector = "";
  status = CollectorStatus.unset;
  rule_engine = "";
  finding_id = "";
  severity = Severity.other "";
  confidence = 0;
  message = "";
  error = "";
}

abbrev pub started_event : Event
started_event = record (blank_event scan_started) { message = "scan started" }

abbrev pub failed_event : String → Event
failed_event text = record (blank_event scan_failed) { error = text }

abbrev pub evaluated_event : String → String → List Finding → Event
evaluated_event engine label fs = record (blank_event rule_evaluated) {
  rule_engine = engine;
  message = label ^^ " evaluated " ^^ itoa_nat (length fs) ^^ " findings";
}

abbrev pub engine_error_event : String → String → String → Event
engine_error_event engine label text = record (blank_event rule_evaluated) {
  rule_engine = engine;
  error = text;
  message = label ^^ " error: " ^^ text;
}

abbrev pub finding_event : Finding → Event
finding_event f = record (blank_event finding_added) {
  finding_id = f.id;
  severity = f.severity;
  confidence = f.confidence;
  message = "finding " ^^ f.id ^^ " added";
}

abbrev pub completed_event : List Finding → Event
completed_event fs = record (blank_event scan_completed) {
  message = "scan completed with " ^^ itoa_nat (length fs) ^^ " findings";
}

abbrev pub status_text : CollectorStatus → String
status_text CollectorStatus.ok = "ok"
status_text CollectorStatus.partial = "partial"
status_text CollectorStatus.timeout = "timeout"
status_text CollectorStatus.permission_denied = "permission_denied"
status_text CollectorStatus.unavailable = "unavailable"
status_text CollectorStatus.failed = "failed"
status_text CollectorStatus.unset = "unknown"
status_text (CollectorStatus.other s) = s

abbrev pub done_message : CollectorResult → CollectorStatus → String
done_message res CollectorStatus.timeout = "collector " ^^ res.name ^^ " timed out"
done_message res status = "collector " ^^ res.name ^^ " done with status " ^^ status_text status

-- `eventObserver`
unfoldable pub observed_event : Observation → Event
observed_event (started name) = record (blank_event collector_started) {
  collector = name;
  message = "collector " ^^ name ^^ " started";
}
observed_event (done res) = record (blank_event collector_done) {
  collector = res.name;
  status = res.status;
  message = done_message res res.status;
}

-- `sanitizeString`, where `redact` is the engine of a level
unfoldable pub sanitize_string : (String → String → String) → String → String → String
sanitize_string redact level s =
    if is_blank s then "" else redact (if is_blank level then "default" else level) s

abbrev or_given : String → String → String
or_given s given = if is_blank s then given else s

-- `emit`: what the sink is given for an event
unfoldable pub emitted : {S : Type 0} → ScannerDeps S → ScanOptions → Event → Event
unfolding sanitize_string
emitted deps opts e = record e {
  run_id = or_given e.run_id deps.run_id;
  path = or_given e.path opts.path;
  message = sanitize_string deps.redact opts.redact_level e.message;
  error = sanitize_string deps.redact opts.redact_level e.error;
}

-- one round of `populateHostInfo` over the evidence
unfoldable pub set_host : Evidence → HostInfo → HostInfo
set_host ev host =
    if ev.source =ₛ "host_os_id"
    then record host { os = ev.value }
    else if ev.source =ₛ "host_os_version"
    then record host { version = ev.value }
    else if ev.source =ₛ "host_kernel"
    then record host { kernel = ev.value }
    else if ev.source =ₛ "host_arch"
    then record host { arch = ev.value }
    else host

unfoldable pub host_from : List Evidence → HostInfo → HostInfo
host_from [] host = host
host_from (ev ∷ evs) host = host_from evs (set_host ev host)

unfoldable pub populate_host_info : List CollectorResult → HostInfo → HostInfo
populate_host_info [] host = host
populate_host_info (c ∷ cs) host =
    populate_host_info cs (if c.name =ₛ "host" then host_from c.evidence host else host)

abbrev pub blank_host : HostInfo
blank_host = record { os = ""; distro = ""; version = ""; kernel = ""; arch = ""; session = "" }
