-- ===== src/Relevance.antt =====
-- internal/relevance/relevance.go: which findings a report shows. A map from texts to reasons is an
-- association list with one entry to a key at most.
pub mod Baselined
pub mod Shown
mod Examples
use devdiag.Base.{
  ◌++◌, ℕ, ◌+◌, String, List, [], ◌∷◌, Option, none, some, Bool, true, false, not, ltb, is_blank,
  is_some, has_prefix, trim_prefix, trim_space, to_upper, length, if◌then◌else◌, ◌=ₛ◌,
}
use devdiag.Schema.{Severity, Evidence, CollectorResult, Finding, Report}
use devdiag.Baseline.{Entry, Baseline, active_entries}
use devdiag.Baseline.Create.{severity_rank, fingerprint}

pub data ViewMode : Type 0 where
  actionable all audit ci env : ViewMode
  other : String → ViewMode

pub data ActionabilityLevel : Type 0 where
  high medium low : ActionabilityLevel

pub record FindingView : Type 0 where
  pub finding : Finding
  pub actionability : ActionabilityLevel
  pub noise_reason : String

abbrev pub Reasons : Type 0
Reasons = List (String × String)

pub record Policy : Type 0 where
  pub include_hidden : Bool
  pub min_severity : Severity
  pub view : ViewMode
  pub suppressed_ids : Reasons
  pub suppressed_fingerprints : Reasons

pub record Summary : Type 0 where
  pub visible : ℕ
  pub hidden : ℕ

-- `m[key]`
unfoldable pub reason_for : String → Reasons → Option String
reason_for key [] = none
reason_for key ((k, r) ∷ m) = if k =ₛ key then some r else reason_for key m

-- `m[key] = reason`
unfoldable pub set_reason : String → String → Reasons → Reasons
set_reason key reason [] = (key, reason) ∷ []
set_reason key reason ((k, r) ∷ m) =
    if k =ₛ key then (k, reason) ∷ m else (k, r) ∷ set_reason key reason m

abbrev pub default_policy : Policy
default_policy = record {
  include_hidden = false;
  min_severity = Severity.medium;
  view = actionable;
  suppressed_ids = [];
  suppressed_fingerprints = [];
}

-- The text before the first `sep`, and what is behind it where there is one: `strings.SplitN(s, sep, 2)`.
unfoldable pub split_2 : String → String → String × Option String
split_2 sep String.[] = ("", none)
split_2 sep (String.◌∷◌ c s) =
    let (front, back) = split_2 sep s in
    if has_prefix (String.◌∷◌ c s) sep
    then ("", some (trim_prefix (String.◌∷◌ c s) sep))
    else (String.◌∷◌ c front, back)

abbrev reason_of : Option String → String
reason_of none = ""
reason_of (some r) = trim_space r

unfoldable pub parse_suppression_evidence : String → String × String
unfolding split_2
parse_suppression_evidence value =
    let (front, back) = split_2 " reason=" value in
    (trim_space (trim_prefix front "id="), reason_of back)

-- one round of the inner loop of `PolicyFromReport`
unfoldable pub suppress_evidence : Policy → Evidence → Policy
unfolding parse_suppression_evidence set_reason
suppress_evidence policy ev =
    let (id, reason) = parse_suppression_evidence ev.value in
    if not (ev.source =ₛ "devdiag_noise_suppress_finding")
    then policy
    else if is_blank id
    then policy
    else record policy { suppressed_ids = set_reason id reason policy.suppressed_ids }

unfoldable pub suppress_all : Policy → List Evidence → Policy
unfolding suppress_evidence
suppress_all policy [] = policy
suppress_all policy (ev ∷ evs) = suppress_all (suppress_evidence policy ev) evs

unfoldable pub suppress_collectors : Policy → List CollectorResult → Policy
unfolding suppress_all
suppress_collectors policy [] = policy
suppress_collectors policy (c ∷ cs) =
    suppress_collectors (if c.name =ₛ "config" then suppress_all policy c.evidence else policy) cs

unfoldable pub policy_from_report : Option Report → Bool → Policy
unfolding suppress_collectors
policy_from_report none include_hidden = record default_policy { include_hidden = include_hidden }
policy_from_report (some report) include_hidden =
    suppress_collectors (record default_policy { include_hidden = include_hidden })
      report.collectors

-- A reason is stored only where the key has none.
unfoldable pub suggest_reason : String → String → Reasons → Reasons
unfolding reason_for set_reason
suggest_reason key reason m = if is_some (reason_for key m) then m else set_reason key reason m

unfoldable pub apply_entry : Policy → Entry → Policy
unfolding suggest_reason
apply_entry policy entry =
    if not (is_blank entry.fingerprint)
    then record policy {
      suppressed_fingerprints =
          suggest_reason entry.fingerprint entry.reason policy.suppressed_fingerprints;
    }
    else record policy {
      suppressed_ids = suggest_reason entry.id entry.reason policy.suppressed_ids;
    }

unfoldable pub apply_entries : Policy → List Entry → Policy
unfolding apply_entry
apply_entries policy [] = policy
apply_entries policy (e ∷ es) = apply_entries (apply_entry policy e) es

-- `ApplyBaseline`
unfoldable pub apply_baseline : Policy → Baseline → ℕ → Policy
unfolding apply_entries
apply_baseline policy b now = apply_entries policy (active_entries b now)

unfoldable pub has_finding_prefix : Finding → String → Bool
has_finding_prefix f prefix = has_prefix (to_upper f.id) (to_upper prefix)

unfoldable pub is_evidence_only_finding : Finding → Bool
is_evidence_only_finding f = f.id =ₛ "F-RUNTIME-DECL-001"

unfoldable pub is_severe : Severity → Bool
is_severe Severity.critical = true
is_severe Severity.high = true
is_severe _ = false

-- the last three cases of the switch in `ClassifyFinding`
unfoldable pub classify_by_severity : Finding → Severity → FindingView
classify_by_severity f Severity.medium = record {
  finding = f;
  actionability = ActionabilityLevel.medium;
  noise_reason = "";
}
classify_by_severity f Severity.low = record {
  finding = f;
  actionability = ActionabilityLevel.low;
  noise_reason = "low visibility severity";
}
classify_by_severity f Severity.info = record {
  finding = f;
  actionability = ActionabilityLevel.low;
  noise_reason = "low visibility severity";
}
classify_by_severity f _ = record {
  finding = f;
  actionability = ActionabilityLevel.low;
  noise_reason = "unknown actionability";
}

abbrev noisy : Finding → String → FindingView
noisy f reason = record {
  finding = f;
  actionability = ActionabilityLevel.low;
  noise_reason = reason;
}

unfoldable pub classify_finding : Finding → FindingView
unfolding is_evidence_only_finding is_severe classify_by_severity
classify_finding f =
    if is_severe f.severity
    then record { finding = f; actionability = ActionabilityLevel.high; noise_reason = "" }
    else if f.id =ₛ "F-ENV-001-OPTIONAL"
    then noisy f "optional env key"
    else if f.id =ₛ "F-CI-ENV-DEPLOY-INFO"
    then noisy f "deployment-only CI env"
    else if is_evidence_only_finding f
    then noisy f "evidence-only finding"
    else classify_by_severity f f.severity

unfoldable pub is_low : ActionabilityLevel → Bool
is_low ActionabilityLevel.low = true
is_low _ = false

-- what is left to decide for the actionable view, and for a view that has no name
unfoldable pub hidden_by_relevance : Finding → Policy → Bool
hidden_by_relevance f policy =
    if is_evidence_only_finding f
    then true
    else if is_low (classify_finding f).actionability
    then true
    else ltb (severity_rank f.severity) (severity_rank policy.min_severity)

unfoldable pub hidden_by_view : Finding → Policy → ViewMode → Bool
unfolding hidden_by_relevance has_finding_prefix
hidden_by_view f policy all = false
hidden_by_view f policy audit = false
hidden_by_view f policy ci = not (has_finding_prefix f "F-CI-")
hidden_by_view f policy env = not (has_finding_prefix f "F-ENV-")
hidden_by_view f policy _ = hidden_by_relevance f policy

module _ (digest : String → String) where
  unfoldable pub is_hidden : Finding → Policy → Bool
  unfolding hidden_by_view reason_for fingerprint
  is_hidden f policy =
      if policy.include_hidden
      then false
      else if is_some (reason_for (fingerprint digest f) policy.suppressed_fingerprints)
      then true
      else if is_some (reason_for f.id policy.suppressed_ids)
      then true
      else hidden_by_view f policy policy.view

  -- the loop of `FilterReport`, with its `visible` and its `hidden`
  unfoldable pub filter_loop : Policy → List Finding → List Finding → ℕ → List Finding × ℕ
  filter_loop policy [] visible hidden = (visible, hidden)
  filter_loop policy (f ∷ fs) visible hidden =
      let hide = filter_loop policy fs visible (hidden + 1) in
      let show = filter_loop policy fs (visible ++ f ∷ []) hidden in
      if is_hidden f policy then hide else show

  unfoldable pub filter_report : Report → Policy → Report × Summary
  unfolding filter_loop
  filter_report report policy =
      let (visible, hidden) = filter_loop policy report.findings [] 0 in
      (record report { findings = visible }, record { visible = length visible; hidden = hidden })
