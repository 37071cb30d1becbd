-- ===== src/Scan/Examples.antt =====
-- A scan with the ai-ml profile in which M6 fails, and one with the engines of the program.
use devdiag.Base.{String, ℕ, refl, some, none, Bool, ltb, Option}
use devdiag.Base.Lists.{All}
use devdiag.Base.Number.{ℤ, pos, atoi}
use devdiag.Rules.Host.{GoRuntime}
use devdiag.Rules.Found.{observed}
use devdiag.Rules.Known.{IsKnown}
use devdiag.Scan.Engines.{with_engines, scan-IsKnown}
use devdiag.Base.{List, [], ◌∷◌, true, false, ◌≡◌, ◌⊎◌}
use devdiag.Schema.{Severity, Finding, CollectorResult}
use devdiag.Collectors.{blank_result}
use devdiag.Scan.{
  Evidence, Report, ScanOptions, ScannerDeps, evaluated, engine_error, started, done,
}
use devdiag.Scan.Scanner.{scan}
use devdiag.Scan.Contract.{IsFailed, IsReported, contributed, must_fail, scan_lem}

abbrev finding : Finding
finding = record {
  id = "F-GPU-001";
  title = "";
  severity = Severity.high;
  confidence = 0x3feccccccccccccd;
  layers = [];
  symptom = "no driver";
  evidence = [];
  likely_causes = [];
  fixes = [];
  fix_hints = [];
  redaction_status = "";
}

abbrev deps : ScannerDeps (List CollectorResult)
deps = record {
  signals = record {
    root = "/repo";
    has_docker = false;
    has_podman = false;
    has_ci = true;
    has_python = true;
  };
  results = blank_result "host" ∷ [];
  observed = started "host" ∷ done (blank_result "host") ∷ [];
  build = λ results. results;
  m1 = λ snapshot. evaluated (finding ∷ []);
  m6 = λ snapshot. engine_error "policy does not compile";
  m8 = λ snapshot. evaluated [];
  rule_pack = λ path snapshot. record {
    valid = false;
    errors = [];
    findings = [];
    pack_id = "";
    pack_engine = "";
  };
  redact = λ level text. text;
  run_id = "run";
  version = "dev";
}

abbrev options : ScanOptions
options = record {
  path = ".";
  profile = "ai-ml";
  rule_pack_path = "";
  redact_level = "";
  ci = false;
}

scan_lem_example :
    ((must_fail deps options ≡ true) × IsFailed (scan deps options))
    ⊎ ((must_fail deps options ≡ false) × IsReported (contributed deps options) (scan deps options))
scan_lem_example = scan_lem deps options

-- Numbers without a fraction.
abbrev whole : Option ℤ → ℕ × Bool
whole (some (pos n)) = (n, true)
whole _ = (0, false)

abbrev whole_numbers : GoRuntime
whole_numbers = record {
  Float = ℕ;
  of_nat = λ n. n;
  less = ltb;
  parse_float = λ s. whole (atoi s);
  order = λ m. m;
  order_keys = λ ks. ks;
}

abbrev reported : String → List Evidence → CollectorResult
reported name evidence = record (blank_result name) { evidence = evidence }

abbrev probed : List CollectorResult
probed =
    reported "env" (observed "missing_keys" "API_KEY" ∷ [])
    ∷ reported "port" (observed "host_listen_port_tcp" "8080" ∷ [])
    ∷ reported "compose" (observed "compose_host_port" "127.0.0.1:8080" ∷ [])
    ∷ reported "disk" (observed "host_disk_free_bytes" "1000" ∷ [])
    ∷ reported "gpu" (
        observed "gpu_hardware_detected" "true"
        ∷ observed "cache_pip_path" "/root/.cache"
        ∷ observed "cache_pip_owner_uid" "0"
        ∷ [])
    ∷ reported "ci" (observed "ci_env__workflow__TOKEN" "x" ∷ [])
    ∷ []

abbrev probed_deps : ScannerDeps (List CollectorResult)
probed_deps = record deps { results = probed }

scan-IsKnown_example :
    (r : Report) × ((scan (with_engines whole_numbers probed_deps) options).report ≡ some r)
    × ((scan (with_engines whole_numbers probed_deps) options).error ≡ none)
    × All IsKnown r.findings
scan-IsKnown_example = scan-IsKnown whole_numbers probed_deps options refl
