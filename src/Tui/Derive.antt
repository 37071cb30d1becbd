-- ===== src/Tui/Derive.antt =====
-- internal/tui/commands.go, and the derived fields of internal/tui/model.go.
use devdiag.Base.{
  ℕ, String, List, [], ◌∷◌, ◌++◌, Option, none, some, Bool, ◌||◌, any, if◌then◌else◌, ◌=ₛ◌, ◌^^◌,
  is_blank, is_empty, has_prefix, to_lower, leb, ltb, not, ◌==◌, map,
}
use devdiag.Base.Sort.{sort}
use devdiag.Base.Text.Split.{has_text, has_suffix}
use devdiag.Schema.{Severity, Evidence, Fix, Finding}
use devdiag.Domain.{find_domain_by_finding_id, find_domain_by_name}

pub record CommandHint : Type 0 where
  pub title : String
  pub command : String
  pub kind : String
  pub mutation_risk : String

pub record RelatedResource : Type 0 where
  pub kind : String
  pub value : String

pub record InspectFinding : Type 0 where
  pub finding : Finding
  pub confidence_label : String
  pub domain : String
  pub target : String
  pub blast_radius : String
  pub mutation_risk : String
  pub reasoning : List String
  pub suggested_commands : List CommandHint
  pub related_resources : List RelatedResource

unfoldable pub severity_rank : Severity → ℕ
severity_rank Severity.critical = 4
severity_rank Severity.high = 3
severity_rank Severity.medium = 2
severity_rank Severity.low = 1
severity_rank _ = 0

-- 0.85 and 0.6
unfoldable pub confidence_label : ℕ → String
confidence_label c =
    if leb 0x3feb333333333333 c
    then "high"
    else if leb 0x3fe3333333333333 c
    then "medium"
    else "low"

abbrev pub is_one_of : String → List String → Bool
is_one_of s names = any (λ n. s =ₛ n) names

unfoldable pub layer_domain : String → Option String
layer_domain l =
    if l =ₛ "ci"
    then some "ci"
    else if is_one_of l ("local" ∷ "runtime" ∷ [])
    then some "runtime"
    else if l =ₛ "env"
    then some "env"
    else if is_one_of l ("network" ∷ "port" ∷ [])
    then some "network"
    else if l =ₛ "security"
    then some "security"
    else if is_one_of l ("container" ∷ "docker" ∷ "podman" ∷ [])
    then some "containers"
    else if is_one_of l ("gpu" ∷ "cuda" ∷ [])
    then some "gpu"
    else if l =ₛ "cache"
    then some "cache"
    else if l =ₛ "host"
    then some "host"
    else if l =ₛ "permission"
    then some "filesystem"
    else if l =ₛ "git"
    then some "git"
    else if l =ₛ "config"
    then some "config"
    else none

unfoldable pub domain_of_layers : List String → String
domain_of_layers [] = "general"
domain_of_layers (l ∷ ls) = elim (layer_domain (to_lower l)) [
  | some d ↦ d
  | none ↦ domain_of_layers ls
]

unfoldable pub derive_domain : Finding → String
derive_domain f = elim (find_domain_by_finding_id f.id) [
  | some d ↦ d.name
  | none ↦ domain_of_layers f.layers
]

unfoldable pub derive_target : Finding → String
derive_target f = elim (find_domain_by_name (derive_domain f)) [
  | some d ↦ d.target
  | none ↦ "project"
]

unfoldable pub derive_blast_radius : Severity → String
derive_blast_radius Severity.critical = "high"
derive_blast_radius Severity.high = "high"
derive_blast_radius Severity.medium = "medium"
derive_blast_radius _ = "low"

abbrev pub mentions : List String → String → Bool
mentions words text = any (λ w. has_text text w) words

-- The first of some texts that speaks of a risk, by the words for a high and for a low one.
unfoldable pub risk_of : List String → List String → List String → Option String
risk_of high low [] = none
risk_of high low (t ∷ ts) =
    if mentions high (to_lower t)
    then some "high"
    else if mentions low (to_lower t)
    then some "low"
    else risk_of high low ts

abbrev pub default_risk : Severity → String
default_risk Severity.critical = "medium"
default_risk Severity.high = "medium"
default_risk _ = "low"

unfoldable pub derive_mutation_risk : Finding → String
derive_mutation_risk f =
    let hints =
      risk_of ("destructive" ∷ "delete" ∷ "remove" ∷ "rm" ∷ [])
        ("safe" ∷ "restart" ∷ "reconfigure" ∷ "edit" ∷ []) f.fix_hints in
    let titles =
      risk_of ("destructive" ∷ "delete" ∷ "remove" ∷ []) ("safe" ∷ "restart" ∷ "reconfigure" ∷ [])
        (map (λ (x : Fix). x.title) f.fixes) in
    elim hints [ some r ↦ r | none ↦ elim titles [ some r ↦ r | none ↦ default_risk f.severity ] ]

unfoldable pub derive_reasoning : Finding → List String
derive_reasoning f =
    let out = (if is_blank f.symptom then [] else f.symptom ∷ []) ++ f.likely_causes in
    if is_empty out then "Derived from evidence and rule evaluation." ∷ [] else out

abbrev pub check_hint : String → String → CommandHint
check_hint title what = record {
  title = title;
  command = "devdiag check " ^^ (what ^^ " . --verbose");
  kind = "check";
  mutation_risk = "none";
}

unfoldable pub domain_hint : String → CommandHint
domain_hint d =
    if d =ₛ "ci"
    then check_hint "Check CI configuration" "ci"
    else if d =ₛ "containers"
    then check_hint "Check containers" "containers"
    else if d =ₛ "security"
    then check_hint "Check security posture" "security"
    else if d =ₛ "gpu"
    then check_hint "Check GPU stack" "gpu"
    else if d =ₛ "cache"
    then check_hint "Check cache configuration" "cache"
    else if d =ₛ "network"
    then check_hint "Check network ports" "ports"
    else record {
      title = "Re-scan with verbose output";
      command = "devdiag scan . --verbose";
      kind = "scan";
      mutation_risk = "none";
    }

abbrev pub fix_hint : String → String → CommandHint
fix_hint id risk = record {
  title = "Plan fix for " ^^ id;
  command = "devdiag fix " ^^ (id ^^ " --dry-run");
  kind = "fix";
  mutation_risk = risk;
}

unfoldable pub derive_command_hints : InspectFinding → List CommandHint
derive_command_hints f =
    domain_hint f.domain
    ∷ (if is_empty f.finding.fixes then [] else fix_hint f.finding.id f.mutation_risk ∷ [])

abbrev pub resource : String → String → RelatedResource
resource kind value = record { kind = kind; value = value }

unfoldable pub related_resources : List Evidence → List RelatedResource
related_resources [] = []
related_resources (ev ∷ evs) =
    (if has_prefix ev.source "url_" || has_text ev.value "http"
      then resource "url" ev.value ∷ []
      else [])
    ++ ((if has_suffix ev.source "_file" || has_text ev.source "path"
          then resource "file" ev.value ∷ []
          else [])
        ++ related_resources evs)

abbrev pub without_hints : Finding → InspectFinding
without_hints f = record {
  finding = f;
  confidence_label = confidence_label f.confidence;
  domain = derive_domain f;
  target = derive_target f;
  blast_radius = derive_blast_radius f.severity;
  mutation_risk = derive_mutation_risk f;
  reasoning = derive_reasoning f;
  suggested_commands = [];
  related_resources = [];
}

unfoldable pub derive_inspect_finding : Finding → InspectFinding
derive_inspect_finding f =
    let inf = without_hints f in
    record inf {
      suggested_commands = derive_command_hints inf;
      related_resources = related_resources f.evidence;
    }

unfoldable pub build_inspect_findings : List Finding → List InspectFinding
build_inspect_findings fs = map derive_inspect_finding fs

abbrev pub shown_before : InspectFinding → InspectFinding → Bool
shown_before a b =
    let ra = severity_rank a.finding.severity in
    let rb = severity_rank b.finding.severity in
    if not (ra == rb) then ltb rb ra else ltb b.finding.confidence a.finding.confidence

unfoldable pub sort_findings_by_severity : List InspectFinding → List InspectFinding
sort_findings_by_severity fs = sort shown_before fs
