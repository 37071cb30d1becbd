-- ===== src/Scan/Engines.antt =====
-- internal/app/scan.go: the scan with the engines of `defaultEngineFactory`, and the snapshot of
-- internal/graph, which holds the results and no more.
use devdiag.Base.{arith, All, List, true, none, some, ◌≡◌, ◌||◌, ◌=ₛ◌, is_blank, inl, inr}
use devdiag.Schema.{CollectorResult, Report, Finding}
use devdiag.Findings.{add, normalize_finding}
use devdiag.Findings.Origin.{All-add}
use devdiag.Rules.Host.{GoRuntime}
use devdiag.Rules.Engine.{evaluate}
use devdiag.Rules.Hardware.{evaluate_hardware}
use devdiag.Rules.Parity.Engine
use devdiag.Rules.Known.{IsKnown, AreKnown, AreKnown-All, is-AreKnown, branch, none_known, ◌and◌}
use devdiag.Rules.Known.Every.{evaluate-AreKnown}
use devdiag.Rules.Known.Devices.{hardware-AreKnown}
use devdiag.Rules.Known.Parity.{parity_engine-AreKnown}
use devdiag.Scan.{ScanOutcome, ScanOptions, ScannerDeps, evaluated}
use devdiag.Scan.Scanner.{scan}
use devdiag.Scan.Contract.{IsReported, contributed, scan_lem}

-- Engines that never fail, over the results themselves.
abbrev pub with_engines :
    GoRuntime → ScannerDeps (List CollectorResult) → ScannerDeps (List CollectorResult)
with_engines go deps = record deps {
  build = λ results. results;
  m1 = λ results. evaluated (evaluate go results);
  m6 = λ results. evaluated (evaluate_hardware results);
  m8 = λ results. evaluated (Engine.evaluate go results);
}

aggregate-IsKnown : (fs : List Finding) → AreKnown fs → All IsKnown (add fs)
unfolding normalize_finding is-AreKnown
aggregate-IsKnown fs h = All-add IsKnown (λ f es k. k) fs (AreKnown-All h)

report-IsKnown :
    {fs : List Finding} (out : ScanOutcome)
    → AreKnown fs
    → IsReported fs out
    → (r : Report) × (out.report ≡ some r) × (out.error ≡ none) × All IsKnown r.findings
report-IsKnown {fs} out h (r, at, ok, same, told, last) =
    (r, at, ok, rw same (aggregate-IsKnown fs h))

module _ (go : GoRuntime) (deps : ScannerDeps (List CollectorResult)) (opts : ScanOptions)
    (no_pack : is_blank opts.rule_pack_path ≡ true) where
  contributed-AreKnown : AreKnown (contributed (with_engines go deps) opts)
  contributed-AreKnown = rw no_pack (
      ((evaluate-AreKnown go deps.results
          and branch (opts.profile =ₛ "ai-ml") (hardware-AreKnown deps.results) none_known)
        and branch (deps.signals.has_ci || opts.ci) (parity_engine-AreKnown go deps.results)
            none_known)
      and none_known)

  -- A scan with the engines of the program and without a rule pack ends without an error and with a report,
  -- in which each finding has an ID that a domain is registered for; and each hint of a finding, unless its
  -- ID begins with F-SEC-, is that of a template in the registry of fixes.
  pub scan-IsKnown :
      (r : Report) × ((scan (with_engines go deps) opts).report ≡ some r)
      × ((scan (with_engines go deps) opts).error ≡ none)
      × All IsKnown r.findings
  scan-IsKnown = elim (scan_lem (with_engines go deps) opts) [
    | inl (fails, failed) ↦ absurd (ground (arith, fails, no_pack))
    | inr (passes, reported) ↦ report-IsKnown _ contributed-AreKnown reported
  ]
