-- ===== src/Findings.antt =====
-- internal/findings/aggregator.go: findings that state one problem are merged, and the rest are
-- ranked.
pub mod Rank
pub mod Index
pub mod Merged
pub mod Origin
mod Examples
pub mod Evidences
use devdiag.Base.{
  ℕ, zero, suc, String, List, [], ◌∷◌, ◌++◌, Option, none, some, Bool, true, false, not, ltb,
  length, is_empty, is_blank, if◌then◌else◌, ◌=ₛ◌, ◌^^◌, ◌==◌,
}
use devdiag.Base.Sort.{sort}
use devdiag.Base.Text.Order.{str_lt}
use devdiag.Schema.{Severity, critical, high, medium, low, info, FixClass, Evidence, Fix, Finding}
use devdiag.Domain.Registry.{Domain}
use devdiag.Domain.{find_domain_by_finding_id}

unfoldable pub severity_rank : Severity → ℕ
severity_rank critical = 0
severity_rank high = 1
severity_rank medium = 2
severity_rank low = 3
severity_rank info = 4
severity_rank (Severity.other _) = 5

unfoldable pub ranks_before : Finding → Finding → Bool
unfolding severity_rank
ranks_before a b =
    let ai = severity_rank a.severity in
    let bi = severity_rank b.severity in
    if not (ai == bi) then ltb ai bi else ltb b.confidence a.confidence

layers_of : Option Domain → List String
layers_of none = "diagnostic" ∷ []
layers_of (some d) = d.default_layers

unfoldable pub default_layers : String → List String
unfolding layers_of
default_layers id = layers_of (find_domain_by_finding_id id)

abbrev review_fix : Fix
review_fix = record {
  class = FixClass.manual;
  title = "Review the finding and apply the recommended remediation";
  commands = [];
  rollback = [];
}

unfoldable pub normalize_finding : Finding → Finding
normalize_finding f = record f {
  layers = if is_empty f.layers then default_layers f.id else f.layers;
  redaction_status = if is_blank f.redaction_status then "default" else f.redaction_status;
  fixes = if is_empty f.fixes then review_fix ∷ [] else f.fixes;
}

-- the separator "\x00"
abbrev nul : String
nul = "\0"

unfoldable pub finding_fingerprint : Finding → String
finding_fingerprint f = f.id ^^ nul ^^ f.title ^^ nul ^^ f.symptom

unfoldable pub evidence_key : Evidence → String
evidence_key e = e.source ^^ nul ^^ e.value

unfoldable pub contains : String → List String → Bool
contains key [] = false
contains key (k ∷ ks) = if k =ₛ key then true else contains key ks

-- the loop of `mergeEvidence`, with its `seen` and its `merged`
unfoldable pub distinct : List String → List Evidence → List Evidence
unfolding contains evidence_key
distinct seen [] = []
distinct seen (e ∷ es) =
    let skipped = distinct seen es in
    let added = e ∷ distinct (evidence_key e ∷ seen) es in
    if contains (evidence_key e) seen then skipped else added

unfoldable pub evidence_less : Evidence → Evidence → Bool
evidence_less a b =
    if not (a.source =ₛ b.source) then str_lt a.source b.source else str_lt a.value b.value

unfoldable pub merge_evidence : List Evidence → List Evidence → List Evidence
unfolding distinct evidence_less sort
merge_evidence left right = sort evidence_less (distinct [] (left ++ right))

unfoldable pub merge_finding : Finding → Finding → Finding
unfolding ranks_before
merge_finding existing next =
    let merged = merge_evidence existing.evidence next.evidence in
    if ranks_before next existing
    then record next { evidence = merged }
    else record existing { evidence = merged }

-- The variables of the loop of `Add`: `seen` takes a fingerprint to its position in `deduped`.
pub record Deduped : Type 0 where
  pub deduped : List Finding
  pub seen : List (String × ℕ)

unfoldable pub seen_at : String → List (String × ℕ) → Option ℕ
seen_at key [] = none
seen_at key ((k, i) ∷ m) = if k =ₛ key then some i else seen_at key m

-- `deduped[i] = mergeFinding(deduped[i], next)`
unfoldable pub merge_at : List Finding → ℕ → Finding → List Finding
merge_at [] i next = []
merge_at (f ∷ fs) zero next = merge_finding f next ∷ fs
merge_at (f ∷ fs) (suc i) next = f ∷ merge_at fs i next

unfoldable pub place : Deduped → Finding → Option ℕ → Deduped
place s n (some i) = record s { deduped = merge_at s.deduped i n }
place s n none = record {
  deduped = s.deduped ++ n ∷ [];
  seen = (finding_fingerprint n, length s.deduped) ∷ s.seen;
}

unfoldable pub add_one : Deduped → Finding → Deduped
unfolding place seen_at
add_one s finding =
    let n = normalize_finding finding in place s n (seen_at (finding_fingerprint n) s.seen)

unfoldable pub add_all : Deduped → List Finding → Deduped
unfolding add_one
add_all s [] = s
add_all s (f ∷ fs) = add_all (add_one s f) fs

abbrev pub nothing_seen : Deduped
nothing_seen = record { deduped = []; seen = [] }

-- `Aggregator.Add`
unfoldable pub add : List Finding → List Finding
unfolding add_all ranks_before sort
add findings = sort ranks_before (add_all nothing_seen findings).deduped
