-- ===== src/Scan/Scanner.antt =====
-- internal/app/scan.go: the method Scan, one function for each of its stages.
use devdiag.Base.{
  ◌^^◌, if◌then◌else◌, String, List, [], ◌∷◌, ◌++◌, none, some, false, ◌||◌, ◌=ₛ◌, is_blank, length,
  map,
}
use devdiag.Base.Number.{itoa_nat}
use devdiag.Base.Text.Split.{joined}
use devdiag.Schema.{CollectorStatus, CollectorResult, Finding, Report}
use devdiag.Findings.{add}
use devdiag.Scan.{
  Event, ScanOptions, Evaluation, evaluated, engine_error, RulePackResult, ScannerDeps, ScanError,
  m1_error, rule_pack_error, ScanOutcome, started_event, failed_event, evaluated_event,
  engine_error_event, finding_event, completed_event, observed_event, emitted, populate_host_info,
  blank_host,
}

-- `allFindings`, `results` and the events so far
pub record Progress : Type 0 where
  pub findings : List Finding
  pub results : List CollectorResult
  pub events : List Event

abbrev pub with_findings : Progress → Event → List Finding → Progress
with_findings s e fs = record s {
  findings = s.findings ++ fs;
  events = s.events ++ e ∷ map finding_event fs;
}

-- An engine that may fail: its failure is told, and the scan goes on.
unfoldable pub add_on : String → String → Evaluation → Progress → Progress
add_on engine label (evaluated fs) s = with_findings s (evaluated_event engine label fs) fs
add_on engine label (engine_error text) s = record s {
  events = s.events ++ engine_error_event engine label text ∷ [];
}

unfoldable pub run_m6 : {S : Type 0} → ScannerDeps S → ScanOptions → S → Progress → Progress
run_m6 deps opts snapshot s =
    if opts.profile =ₛ "ai-ml" then add_on "m6" "M6 engine" (deps.m6 snapshot) s else s

unfoldable pub run_m8 : {S : Type 0} → ScannerDeps S → ScanOptions → S → Progress → Progress
run_m8 deps opts snapshot s =
    if deps.signals.has_ci || opts.ci then add_on "m8" "M8 engine" (deps.m8 snapshot) s else s

abbrev pub pack_result : RulePackResult → CollectorResult
pack_result eval = record {
  name = "rulepack";
  status = CollectorStatus.ok;
  applicable = none;
  timeout_ms = 0;
  partial_result = false;
  evidence =
      record { source = "rulepack_id"; value = eval.pack_id }
      ∷ record { source = "rulepack_engine"; value = eval.pack_engine }
      ∷ record { source = "rulepack_findings"; value = itoa_nat (length eval.findings) }
      ∷ [];
  notes = [];
}

unfoldable pub failed_scan :
    {S : Type 0} → ScannerDeps S → ScanOptions → Progress → ScanError → String → ScanOutcome
failed_scan deps opts s error text = record {
  report = none;
  error = some error;
  events = map (emitted deps opts) (s.events ++ failed_event text ∷ []);
}

-- the report, from findings that are aggregated
unfoldable pub report_of : {S : Type 0} → ScannerDeps S → ScanOptions → Progress → Report
report_of deps opts s = record {
  schema_version = "0.1";
  devdiag_version = deps.version;
  run_id = deps.run_id;
  redaction_status = opts.redact_level;
  repo = record { root = deps.signals.root; signals = [] };
  host = populate_host_info s.results blank_host;
  collectors = s.results;
  findings = add s.findings;
}

unfoldable pub complete : {S : Type 0} → ScannerDeps S → ScanOptions → Progress → ScanOutcome
complete deps opts s =
    let report = report_of deps opts s in
    record {
      report = some report;
      error = none;
      events = map (emitted deps opts) (s.events ++ completed_event report.findings ∷ []);
    }

unfoldable pub run_pack :
    {S : Type 0} → ScannerDeps S → ScanOptions → RulePackResult → Progress → ScanOutcome
run_pack deps opts eval s =
    if eval.valid
    then complete deps opts (
        with_findings (record s { results = s.results ++ pack_result eval ∷ [] })
          (evaluated_event "rulepack" "rule pack" eval.findings) eval.findings)
    else failed_scan deps opts s (rule_pack_error eval.errors)
        ("rule pack validation failed: " ^^ joined "; " eval.errors)

unfoldable pub after_engines :
    {S : Type 0} → ScannerDeps S → ScanOptions → S → Progress → ScanOutcome
after_engines deps opts snapshot s =
    if is_blank opts.rule_pack_path
    then complete deps opts s
    else run_pack deps opts (deps.rule_pack opts.rule_pack_path snapshot) s

unfoldable pub after_m1 :
    {S : Type 0} → ScannerDeps S → ScanOptions → S → Evaluation → Progress → ScanOutcome
after_m1 deps opts snapshot (engine_error text) s = failed_scan deps opts s (m1_error text) text
after_m1 deps opts snapshot (evaluated fs) s = after_engines deps opts snapshot (
    run_m8 deps opts snapshot
      (run_m6 deps opts snapshot (with_findings s (evaluated_event "m1" "M1 engine" fs) fs)))

-- `Scanner.Scan`
unfoldable pub scan : {S : Type 0} → ScannerDeps S → ScanOptions → ScanOutcome
scan deps opts =
    let snapshot = deps.build deps.results in
    after_m1 deps opts snapshot (deps.m1 snapshot) (record {
      findings = [];
      results = deps.results;
      events = started_event ∷ map observed_event deps.observed;
    })
