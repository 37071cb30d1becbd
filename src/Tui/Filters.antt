-- ===== src/Tui/Filters.antt =====
-- internal/tui/filters.go
use devdiag.Base.{
  String, List, [], ◌∷◌, Bool, true, false, ◌&&◌, ◌||◌, any, ◌=ₛ◌, is_blank, is_empty, leb,
  to_lower, keep, ℕ,
}
use devdiag.Base.Text.Split.{has_text}
use devdiag.Schema.{Severity}
use devdiag.Domain.{equal_fold}
use devdiag.Tui.Derive.{InspectFinding}

pub record ActiveFilters : Type 0 where
  pub severity : List Severity
  pub domain : String
  pub confidence_min : ℕ
  pub mutation_risk : String
  pub text : String

abbrev pub default_filters : ActiveFilters
default_filters = record {
  severity =
      Severity.critical ∷ Severity.high ∷ Severity.medium ∷ Severity.low ∷ Severity.info ∷ [];
  domain = "";
  confidence_min = 0;
  mutation_risk = "";
  text = "";
}

-- Equality of two severities, as texts.
unfoldable pub same_severity : Severity → Severity → Bool
same_severity Severity.critical Severity.critical = true
same_severity Severity.high Severity.high = true
same_severity Severity.medium Severity.medium = true
same_severity Severity.low Severity.low = true
same_severity Severity.info Severity.info = true
same_severity (Severity.other s) (Severity.other t) = s =ₛ t
same_severity _ _ = false

unfoldable pub mentions_text : String → InspectFinding → Bool
mentions_text text f =
    has_text (to_lower f.finding.id) text
    || (has_text (to_lower f.finding.title) text
        || (has_text (to_lower f.domain) text || has_text (to_lower f.finding.symptom) text))

unfoldable pub matches : ActiveFilters → InspectFinding → Bool
matches af f =
    (is_empty af.severity || any (same_severity f.finding.severity) af.severity)
    && ((is_blank af.domain || equal_fold f.domain af.domain)
        && (leb af.confidence_min f.finding.confidence
            && ((is_blank af.mutation_risk || equal_fold f.mutation_risk af.mutation_risk)
                && (is_blank af.text || mentions_text (to_lower af.text) f))))

unfoldable pub apply_filters : List InspectFinding → ActiveFilters → List InspectFinding
apply_filters findings af = keep (matches af) findings
