-- ===== src/Scan/Contract.antt =====
-- The contract of a scan on failures of engines, and its events.
use devdiag.Scan.Told.{
  count-observed, found, is_added, Fed, sum-eq, count-emitted, with_findings-Fed, nothing-Fed,
  run_m6-Fed, run_m8-Fed,
}
use mathlib.Core.List.{map-append}
use devdiag.Base.{
  ◌&&◌, is_some, if◌then◌else◌, String, List, [], ◌∷◌, ◌++◌, none, some, Bool, true, false, ◌||◌,
  not, ◌=ₛ◌, is_blank, length, map, count, ◌≡◌, ◌⊎◌, inl, inr, refl, arith, Bool-cases,
  count-append, ap, ◌∙◌,
}
use devdiag.Schema.{Finding, Report}
use devdiag.Findings.{add}
use devdiag.Scan.{
  evaluated_event, Event, EventType, scan_completed, scan_failed, ScanOptions, Evaluation,
  evaluated, engine_error, RulePackResult, ScannerDeps, ScanError, ScanOutcome, failed_event,
  completed_event, emitted,
}
use devdiag.Scan.Scanner.{
  Progress, failed_scan, report_of, complete, run_pack, after_engines, after_m1, scan,
}

abbrev pub has_failed : Evaluation → Bool
has_failed (evaluated fs) = false
has_failed (engine_error text) = true

-- the findings of all that is to be run and does not fail
abbrev pub pack_findings : {S : Type 0} → ScannerDeps S → ScanOptions → List Finding
pack_findings deps opts =
    if is_blank opts.rule_pack_path
    then []
    else (deps.rule_pack opts.rule_pack_path (deps.build deps.results)).findings

abbrev pub contributed : {S : Type 0} → ScannerDeps S → ScanOptions → List Finding
contributed deps opts =
    let snapshot = deps.build deps.results in
    found (deps.m1 snapshot)
    ++ (if opts.profile =ₛ "ai-ml" then found (deps.m6 snapshot) else [])
    ++ (if deps.signals.has_ci || opts.ci then found (deps.m8 snapshot) else [])
    ++ pack_findings deps opts

abbrev pub bad_pack : {S : Type 0} → ScannerDeps S → ScanOptions → Bool
bad_pack deps opts =
    not (is_blank opts.rule_pack_path)
    && not (deps.rule_pack opts.rule_pack_path (deps.build deps.results)).valid

-- a scan fails where the core engine does, or the rule pack is not valid
abbrev pub must_fail : {S : Type 0} → ScannerDeps S → ScanOptions → Bool
must_fail deps opts = has_failed (deps.m1 (deps.build deps.results)) || bad_pack deps opts

abbrev pub EndsWith : EventType → List Event → Type 0
EndsWith type events =
    (before : List Event) × (last : Event) × (events ≡ before ++ last ∷ []) × (last.type ≡ type)

abbrev pub IsFailed : ScanOutcome → Type 0
IsFailed out = (out.report ≡ none) × (is_some out.error ≡ true) × EndsWith scan_failed out.events

abbrev pub IsReported : List Finding → ScanOutcome → Type 0
IsReported fs out =
    (r : Report) × (out.report ≡ some r)
    × (out.error ≡ none)
    × (r.findings ≡ add fs)
    × (count is_added out.events ≡ length fs)
    × EndsWith scan_completed out.events

module _ {S : Type 0} (deps : ScannerDeps S) (opts : ScanOptions) where
  last-emitted :
      (es : List Event) (e : Event) → EndsWith e.type (map (emitted deps opts) (es ++ e ∷ []))
  unfolding emitted
  last-emitted es e = (
    map (emitted deps opts) es,
    emitted deps opts e,
    map-append (emitted deps opts) es (e ∷ []),
    refl,
  )

  complete-IsReported :
      (s : Progress) (xs : List Finding) → Fed s xs → IsReported xs (complete deps opts s)
  unfolding complete report_of
  complete-IsReported s xs (p, q) = (
    report_of deps opts s,
    refl,
    refl,
    ap add p,
    count-emitted deps opts (s.events ++ completed_event (add s.findings) ∷ [])
        ∙ count-append is_added s.events (completed_event (add s.findings) ∷ [])
        ∙ sum-eq q refl (omega arith),
    last-emitted s.events (completed_event (add s.findings)),
  )

  failed_scan-IsFailed :
      (s : Progress) (error : ScanError) (text : String)
      → IsFailed (failed_scan deps opts s error text)
  unfolding failed_scan
  failed_scan-IsFailed s error text = (refl, refl, last-emitted s.events (failed_event text))

  abbrev IsJudged : Bool → List Finding → ScanOutcome → Type 0
  IsJudged fails fs out = ((fails ≡ true) × IsFailed out) ⊎ ((fails ≡ false) × IsReported fs out)

  run_pack-IsJudged :
      (eval : RulePackResult) (s : Progress) (xs : List Finding)
      → Fed s xs
      → IsJudged (not eval.valid) (xs ++ eval.findings) (run_pack deps opts eval s)
  unfolding run_pack
  run_pack-IsJudged eval s xs h = elim (Bool-cases eval.valid) [
    | inl e ↦ simp e (
        inr (
          refl,
          complete-IsReported _ (xs ++ eval.findings) (
              with_findings-Fed deps opts s (evaluated_event "rulepack" "rule pack" eval.findings)
                xs eval.findings refl h),
        ))
    | inr e ↦ simp e (inl (refl, failed_scan-IsFailed s _ _))
  ]

  after_engines-IsJudged :
      (s : Progress) (xs : List Finding)
      → Fed s xs
      → IsJudged
          (bad_pack deps opts)
          (xs ++ pack_findings deps opts)
          (after_engines deps opts (deps.build deps.results) s)
  unfolding after_engines
  after_engines-IsJudged s xs h = elim (Bool-cases (is_blank opts.rule_pack_path)) [
    | inl e ↦ simp e (inr (refl, complete-IsReported s (xs ++ []) (nothing-Fed deps opts s xs h)))
    | inr e ↦
        simp e
          (run_pack-IsJudged (deps.rule_pack opts.rule_pack_path (deps.build deps.results)) s xs h)
  ]

  after_m1-IsJudged :
      (v : Evaluation) (s : Progress)
      → Fed s []
      → IsJudged
          (has_failed v || bad_pack deps opts)
          (found v
            ++ (if opts.profile =ₛ "ai-ml" then found (deps.m6 (deps.build deps.results)) else [])
            ++ (if deps.signals.has_ci || opts.ci
                then found (deps.m8 (deps.build deps.results))
                else [])
            ++ pack_findings deps opts)
          (after_m1 deps opts (deps.build deps.results) v s)
  unfolding after_m1
  after_m1-IsJudged (engine_error text) s h = inl (refl, failed_scan-IsFailed s _ _)
  after_m1-IsJudged (evaluated fs) s h = after_engines-IsJudged _ _ (
      run_m8-Fed deps opts _ (deps.build deps.results) _ (
        run_m6-Fed deps opts _ (deps.build deps.results) fs
          (with_findings-Fed deps opts s (evaluated_event "m1" "M1 engine" fs) [] fs refl h)))

-- A scan fails exactly where the M1 engine fails or a rule pack is asked for and not valid. A failed
-- scan has no report, an error, and ends with the event of a failed scan. Otherwise, whatever M6 and M8
-- do, it has no error and a report whose findings are the aggregate of those of M1, of M6 where the
-- profile is ai-ml, of M8 where the repository has CI or it is asked for, and of the rule pack, where an
-- engine that fails gives none; as many finding events are told as there are findings to aggregate, and
-- the last event is that of a completed scan.
pub scan_lem :
    {S : Type 0} (deps : ScannerDeps S) (opts : ScanOptions)
    → ((must_fail deps opts ≡ true) × IsFailed (scan deps opts))
      ⊎ ((must_fail deps opts ≡ false) × IsReported (contributed deps opts) (scan deps opts))
unfolding scan
scan_lem deps opts =
    after_m1-IsJudged deps opts (deps.m1 (deps.build deps.results)) _
      (refl, count-observed deps.observed)
