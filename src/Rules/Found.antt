-- ===== src/Rules/Found.antt =====
-- internal/rules/m1engine.go: what the rules share. A rule's finding leaves the layers, the fixes and
-- the redaction status unset; a map from the names of collectors holds the last of each name.
use devdiag.Base.{ℕ, String, List, [], ◌∷◌, Option, none, some, Bool, if◌then◌else◌, ◌=ₛ◌, any}
use devdiag.Schema.{Severity, Evidence, Finding, CollectorResult}

abbrev pub point_5 : ℕ
point_5 = 0x3fe0000000000000

abbrev pub point_6 : ℕ
point_6 = 0x3fe3333333333333

abbrev pub point_7 : ℕ
point_7 = 0x3fe6666666666666

abbrev pub point_8 : ℕ
point_8 = 0x3fe999999999999a

abbrev pub point_9 : ℕ
point_9 = 0x3feccccccccccccd

abbrev pub rule_finding :
    String → String → Severity → ℕ → String → List Evidence → List String → List String → Finding
rule_finding id title severity confidence symptom evidence likely_causes fix_hints = record {
  id = id;
  title = title;
  severity = severity;
  confidence = confidence;
  layers = [];
  symptom = symptom;
  evidence = evidence;
  likely_causes = likely_causes;
  fixes = [];
  fix_hints = fix_hints;
  redaction_status = "";
}

abbrev pub observed : String → String → Evidence
observed source value = record { source = source; value = value }

-- `collectorMap[name]`
unfoldable pub collector_named : String → List CollectorResult → Option CollectorResult
collector_named name [] = none
collector_named name (c ∷ cs) = elim (collector_named name cs) [
  | some r ↦ some r
  | none ↦ if c.name =ₛ name then some c else none
]

abbrev pub evidence_of : Option CollectorResult → List Evidence
evidence_of none = []
evidence_of (some c) = c.evidence

-- The evidence of the collector of a name, none where there is no such collector.
unfoldable pub evidence_named : String → List CollectorResult → List Evidence
unfolding collector_named
evidence_named name collectors = evidence_of (collector_named name collectors)

abbrev pub has_key : List String → String → Bool
has_key keys k = any (λ j. j =ₛ k) keys
