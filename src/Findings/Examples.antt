-- ===== src/Findings/Examples.antt =====
-- The aggregator on two findings of one problem and one of another.
use devdiag.Base.{String, List, [], ◌∷◌, ◌||◌, ◌≡◌, refl, map, any, count, if◌then◌else◌}
use devdiag.Base.Lists.{All, Any}
use devdiag.Base.Sort.{IsSorted}
use devdiag.Base.Text.{to_upper}
use devdiag.Domain.{sorted_prefix_mappings}
use devdiag.Schema.{Severity, Evidence, Finding}
use devdiag.Findings.{
  normalize_finding, ranks_before, nothing_seen, evidence_less, merge_evidence, add_all, add,
}
use devdiag.Findings.Rank.{IsRanked, add-IsRanked}
use devdiag.Findings.Index.{upsert_all, add_all-eq-upsert_all, Indexes-nothing_seen}
use devdiag.Findings.Evidences.{keyed, count-merge_evidence, merge_evidence-IsSorted}
use devdiag.Findings.Merged.{marked, Covers, count-add, add-Covers}
use devdiag.Findings.Origin.{IsFrom, add-IsFrom, add_idem}

abbrev api_key : Evidence
api_key = record { source = "ci_env"; value = "API_KEY" }

abbrev db_url : Evidence
db_url = record { source = "ci_env"; value = "DB_URL" }

abbrev finding : String → Severity → List Evidence → Finding
finding id severity evidence = record {
  id = id;
  title = "CI env vars not found locally";
  severity = severity;
  confidence = 0x3fe3333333333333;
  layers = [];
  symptom = "CI env differs from local env files";
  evidence = evidence;
  likely_causes = [];
  fixes = [];
  fix_hints = [];
  redaction_status = "";
}

abbrev given : List Finding
given =
    finding "F-CI-ENV-001" Severity.low (db_url ∷ [])
    ∷ finding "F-GIT-001" Severity.medium []
    ∷ finding "F-CI-ENV-001" Severity.high (api_key ∷ db_url ∷ [])
    ∷ []

merged_ids : map (λ (f : Finding). f.id) (add given) ≡ "F-CI-ENV-001" ∷ "F-GIT-001" ∷ []
unfolding add sorted_prefix_mappings to_upper devdiag.Findings.finding_fingerprint normalize_finding
    devdiag.Findings.merge_at devdiag.Findings.merge_finding
merged_ids = refl

add-IsRanked_example : IsRanked (add given)
add-IsRanked_example = add-IsRanked given

add_all-eq-upsert_all_example : (add_all nothing_seen given).deduped ≡ upsert_all [] given
add_all-eq-upsert_all_example = add_all-eq-upsert_all nothing_seen given Indexes-nothing_seen

count-merge_evidence_example :
    count (keyed "ci_env\0DB_URL") (merge_evidence (db_url ∷ []) (api_key ∷ db_url ∷ [])) ≡ (
      if any (keyed "ci_env\0DB_URL") (db_url ∷ [])
        || any (keyed "ci_env\0DB_URL") (api_key ∷ db_url ∷ [])
      then 1
      else 0)
count-merge_evidence_example =
    count-merge_evidence "ci_env\0DB_URL" (db_url ∷ []) (api_key ∷ db_url ∷ [])

merge_evidence-IsSorted_example :
    IsSorted evidence_less (merge_evidence (db_url ∷ []) (api_key ∷ db_url ∷ []))
merge_evidence-IsSorted_example = merge_evidence-IsSorted (db_url ∷ []) (api_key ∷ db_url ∷ [])

abbrev ci_mark : String
ci_mark = "F-CI-ENV-001\0CI env vars not found locally\0CI env differs from local env files"

count-add_example :
    count (marked ci_mark) (add given) ≡ (if any (marked ci_mark) given then 1 else 0)
count-add_example = count-add ci_mark given

add-Covers_example : All (λ f. Any (Covers (normalize_finding f)) (add given)) given
add-Covers_example = add-Covers given

add-IsFrom_example : All (λ o. Any (IsFrom o) given) (add given)
add-IsFrom_example = add-IsFrom given

add_idem_example : add (add given) ≡ add given
add_idem_example = add_idem given
