-- ===== src/Relevance/Examples.antt =====
-- A baseline that hides a finding, a report that is filtered, and a high finding below the threshold.
use devdiag.Baseline.{is_expired, is_valid_fingerprint}
use devdiag.Base.{
  inr, ◌=ₛ◌, ◌||◌, ◌&&◌, ◌+◌, String, [], ◌∷◌, some, true, false, not, ◌≡◌, refl, keep, length,
  trim_space,
}
use devdiag.Schema.{Severity, Finding, Report}
use devdiag.Baseline.Create.{
  entry_key, entry_for, severity_rank, CreateOptions, create_from_findings,
}
use devdiag.Relevance.{default_policy, reason_for, apply_baseline, is_hidden, filter_report}
use devdiag.Relevance.Baselined.{snapshot_hides}
use devdiag.Relevance.Shown.{filter_report_lem, severe_shown}

abbrev digest : String → String
digest s = "00000000000000000000000000000000000000000000000000000000000000ff"

digest-valid : (s : String) → is_valid_fingerprint (digest s) ≡ true
unfolding is_valid_fingerprint
digest-valid s = refl

abbrev options : CreateOptions
options = record {
  reason = "before the cleanup";
  created_at = 3;
  created_by = "dev";
  expires_at = some 9;
  min_severity = Severity.low;
  use_fingerprint = true;
}

abbrev finding : Finding
finding = record {
  id = "F-ENV-001";
  title = "";
  severity = Severity.high;
  confidence = 0x3feccccccccccccd;
  layers = [];
  symptom = "a key is missing";
  evidence = [];
  likely_causes = [];
  fixes = [];
  fix_hints = [];
  redaction_status = "";
}

snapshot_hides_example :
    is_hidden digest finding
      (apply_baseline default_policy (create_from_findings digest (finding ∷ []) options) 8)
    ≡ true
unfolding is_expired entry_for severity_rank entry_key trim_space
snapshot_hides_example =
    snapshot_hides digest digest-valid default_policy options 8 (finding ∷ []) finding refl refl
      refl refl

abbrev report : Report
report = record {
  schema_version = "0.1";
  devdiag_version = "dev";
  run_id = "run";
  redaction_status = "default";
  repo = record { root = "/repo"; signals = [] };
  host = record { os = "linux"; distro = ""; version = ""; kernel = ""; arch = ""; session = "" };
  collectors = [];
  findings = finding ∷ record finding { severity = Severity.info } ∷ [];
}

filter_report_lem_example :
    ((filter_report digest report default_policy).0 ≡ record report {
      findings = keep (λ f. not (is_hidden digest f default_policy)) report.findings;
    })
    × ((filter_report digest report default_policy).1.visible
          + (filter_report digest report default_policy).1.hidden
        ≡ length report.findings)
    × ((filter_report digest report default_policy).1.visible
        ≡ length (filter_report digest report default_policy).0.findings)
filter_report_lem_example = filter_report_lem digest report default_policy

severe_shown_example :
    is_hidden digest finding (record default_policy { min_severity = Severity.critical })
    ≡ (not false && (false || (false || (finding.id =ₛ "F-RUNTIME-DECL-001" || true))))
unfolding reason_for
severe_shown_example =
    severe_shown digest finding (record default_policy { min_severity = Severity.critical })
      (inr refl) refl
