-- ===== src/Relevance/Shown.antt =====
-- What a filtered report keeps, and which critical and high findings it hides.
use devdiag.Base.{inl, inr, ◌⊎◌}
use mathlib.Core.List.{append-nil, append_assoc}
use devdiag.Base.{
  ◌||◌, ltb, ◌=ₛ◌, ◌&&◌, ℕ, ◌+◌, String, List, [], ◌∷◌, ◌++◌, Bool, true, false, not, ◌≡◌, refl,
  arith, keep, count, length, is_some,
}
use devdiag.Schema.{Finding, Report}
use devdiag.Baseline.Create.{severity_rank, fingerprint}
use devdiag.Relevance.{
  Severity, is_low, classify_finding, hidden_by_relevance, Policy, actionable, reason_for,
  is_severe, is_evidence_only_finding, is_hidden, filter_loop, filter_report,
}

severe_not_low :
    (f : Finding) → is_severe f.severity ≡ true → is_low (classify_finding f).actionability ≡ false
unfolding classify_finding is_low
severe_not_low f h = rw h refl

-- A threshold that a high finding does not reach.
abbrev pub only_critical : Severity → Severity → Bool
only_critical Severity.critical Severity.high = true
only_critical threshold severity = false

below_threshold :
    (t s : Severity)
    → is_severe s ≡ true
    → ltb (severity_rank s) (severity_rank t) ≡ only_critical t s
unfolding is_severe severity_rank
below_threshold Severity.critical Severity.critical h = refl
below_threshold Severity.high Severity.critical h = refl
below_threshold Severity.medium Severity.critical h = refl
below_threshold Severity.low Severity.critical h = refl
below_threshold Severity.info Severity.critical h = refl
below_threshold (Severity.other n) Severity.critical h = refl
below_threshold Severity.critical Severity.high h = refl
below_threshold Severity.high Severity.high h = refl
below_threshold Severity.medium Severity.high h = refl
below_threshold Severity.low Severity.high h = refl
below_threshold Severity.info Severity.high h = refl
below_threshold (Severity.other n) Severity.high h = refl
below_threshold t Severity.medium h = absurd (ground arith)
below_threshold t Severity.low h = absurd (ground arith)
below_threshold t Severity.info h = absurd (ground arith)
below_threshold t (Severity.other m) h = absurd (ground arith)

is_severe_lem : (s : Severity) → (s ≡ Severity.critical) ⊎ (s ≡ Severity.high) → is_severe s ≡ true
unfolding is_severe
is_severe_lem s (inl e) = rw e refl
is_severe_lem s (inr e) = rw e refl

relevant_shown :
    (f : Finding) (policy : Policy)
    → is_severe f.severity ≡ true
    → hidden_by_relevance f policy
      ≡ (f.id =ₛ "F-RUNTIME-DECL-001" || only_critical policy.min_severity f.severity)
unfolding hidden_by_relevance is_evidence_only_finding
relevant_shown f policy h =
    rw (severe_not_low f h, below_threshold policy.min_severity f.severity h) (ground arith)

module _ (digest : String → String) where
  filter_loop-eq :
      (policy : Policy) (fs visible : List Finding) (hidden : ℕ)
      → filter_loop digest policy fs visible hidden ≡ (
        visible ++ keep (λ f. not (is_hidden digest f policy)) fs,
        hidden + count (λ f. is_hidden digest f policy) fs,
      )
  unfolding filter_loop
  filter_loop-eq policy [] visible hidden = ground (arith, append-nil visible)
  filter_loop-eq policy (f ∷ fs) visible hidden = ground (
    arith,
    filter_loop-eq policy fs visible (hidden + 1),
    filter_loop-eq policy fs (visible ++ f ∷ []) hidden,
    append_assoc visible (f ∷ []) (keep (λ f. not (is_hidden digest f policy)) fs),
  )

  length-keep-add-count :
      (p : Finding → Bool) (fs : List Finding)
      → length (keep (λ f. not (p f)) fs) + count p fs ≡ length fs
  length-keep-add-count p [] = omega arith
  length-keep-add-count p (f ∷ fs) = ground (arith, length-keep-add-count p fs)

  -- A filtered report has the findings that the policy does not hide, in their order, everything
  -- else unchanged, and a summary that accounts for each finding.
  pub filter_report_lem :
      (report : Report) (policy : Policy)
      → ((filter_report digest report policy).0 ≡ record report {
        findings = keep (λ f. not (is_hidden digest f policy)) report.findings;
      })
        × ((filter_report digest report policy).1.visible
              + (filter_report digest report policy).1.hidden
            ≡ length report.findings)
        × ((filter_report digest report policy).1.visible
            ≡ length (filter_report digest report policy).0.findings)
  unfolding filter_report
  filter_report_lem report policy = rw (filter_loop-eq policy report.findings [] 0) (
    refl,
    omega (arith, length-keep-add-count (λ f. is_hidden digest f policy) report.findings),
    refl,
  )

  -- In the actionable view a critical or high finding is hidden exactly where hidden findings are not
  -- asked for and one of these holds: its fingerprint is suppressed, its ID is suppressed, its ID is
  -- F-RUNTIME-DECL-001, or it is high and the threshold is critical.
  pub severe_shown :
      (f : Finding) (policy : Policy)
      → (f.severity ≡ Severity.critical) ⊎ (f.severity ≡ Severity.high)
      → policy.view ≡ actionable
      → is_hidden digest f policy ≡ (
          not policy.include_hidden
          && (is_some (reason_for (fingerprint digest f) policy.suppressed_fingerprints)
              || (is_some (reason_for f.id policy.suppressed_ids)
                  || (f.id =ₛ "F-RUNTIME-DECL-001"
                      || only_critical policy.min_severity f.severity))))
  unfolding is_hidden
  severe_shown f policy severe view =
      ground (arith, relevant_shown f policy (is_severe_lem f.severity severe))
