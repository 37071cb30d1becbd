-- ===== src/Baseline/Examples.antt =====
-- The operations of a baseline on small files. The digest is one that is always the same.
use devdiag.Base.{
  List, ◌⊎◌, ℕ, ◌+◌, String, [], ◌∷◌, Option, none, some, true, false, ◌≡◌, refl, any, count,
  length, trim_space, to_upper, if◌then◌else◌, arith,
}
use devdiag.Base.Number.{pos}
use devdiag.Base.Sort.{IsSorted}
use devdiag.Schema.{Severity, Finding}
use devdiag.Baseline.{
  Entry, Baseline, schema_version_1, validate, is_expired, prune, active_entries, added,
  normal_entry, versioned, add, remove, is_valid_fingerprint,
}
use devdiag.Baseline.Create.{CreateOptions, entry_less, create_from_findings}
use devdiag.Baseline.Expiry.{after, parse_expiry_duration}
use devdiag.Baseline.Expiry.Read.{Says, parse_expiry_duration_lem}
use mathlib.Core.Logic.{◌↔◌}
use devdiag.Baseline.Entries.{keyed, or_one, prune_lem}
use devdiag.Baseline.Edits.{validate-add, count-entries-add}
use devdiag.Baseline.Removal.{TakesFirst, holds, remove_lem, remove-add}
use devdiag.Baseline.Snapshot.{is_keyed, is_wanted, create-IsSorted, create_count, validate-create}

abbrev entry : String → Option ℕ → Entry
entry id expires = record {
  id = id;
  reason = "known";
  expires_at = expires;
  created_at = 5;
  created_by = "";
  fingerprint = "";
}

abbrev file : Baseline
file = record {
  schema_version = schema_version_1;
  entries = entry "F-GIT-001" (some 10) ∷ entry "F-ENV-001" none ∷ [];
}

prune_lem_example :
    (length (prune file 11).0.entries + (prune file 11).1 ≡ length file.entries)
    × (count (is_expired 11) (prune file 11).0.entries ≡ 0)
    × ((prune file 11).0.entries ≡ active_entries file 11)
prune_lem_example = prune_lem file 11

abbrev longer_file : Baseline
longer_file = record {
  schema_version = schema_version_1;
  entries = entry "F-GIT-001" (some 10) ∷ entry "F-ENV-001" none ∷ entry "F-CI-001" none ∷ [];
}

add_new : add file (entry " f-ci-001" none) 7 ≡ added longer_file false
unfolding add to_upper trim_space
add_new = refl

file_is_valid : validate file ≡ none
unfolding validate trim_space
file_is_valid = refl

validate-add_example : validate longer_file ≡ none
validate-add_example =
    validate-add file (entry " f-ci-001" none) 7 add_new file_is_valid (omega arith)

count-entries-add_example : count (keyed "F-CI-001" "") longer_file.entries ≡ (
    if keyed "F-CI-001" "" (normal_entry (entry " f-ci-001" none))
    then or_one (count (keyed "F-CI-001" "") file.entries)
    else count (keyed "F-CI-001" "") file.entries)
count-entries-add_example = count-entries-add file (entry " f-ci-001" none) 7 add_new "F-CI-001" ""

remove_lem_example :
    ((holds file " f-env-001" "" ≡ false) × (remove file " f-env-001" "" ≡ (file, false)))
    ⊎ (holds file " f-env-001" "" ≡ true)
      × (rest : List Entry) × (remove file " f-env-001" "" ≡ (record file { entries = rest }, true))
      × TakesFirst (to_upper (trim_space " f-env-001")) (trim_space "") file.entries rest
remove_lem_example = remove_lem file " f-env-001" ""

remove-add_example : remove longer_file " f-ci-001" "" ≡ (versioned file, true)
unfolding normal_entry to_upper trim_space
remove-add_example = remove-add file (entry " f-ci-001" none) 7 add_new refl

parse_expiry_duration_lem_example :
    parse_expiry_duration " 30d" ≡ after (pos 2592000000000000)
    ↔ Says (trim_space " 30d") (pos 2592000000000000)
parse_expiry_duration_lem_example = parse_expiry_duration_lem " 30d" (pos 2592000000000000)

abbrev same_digest : String → String
same_digest s = "00000000000000000000000000000000000000000000000000000000000000ff"

same_digest-valid : (s : String) → is_valid_fingerprint (same_digest s) ≡ true
unfolding is_valid_fingerprint
same_digest-valid s = refl

abbrev options : CreateOptions
options = record {
  reason = "before the cleanup";
  created_at = 3;
  created_by = "dev";
  expires_at = some 9;
  min_severity = Severity.low;
  use_fingerprint = true;
}

abbrev finding : Finding
finding = record {
  id = "F-ENV-001";
  title = "";
  severity = Severity.high;
  confidence = 0x3feccccccccccccd;
  layers = [];
  symptom = "a key is missing";
  evidence = [];
  likely_causes = [];
  fixes = [];
  fix_hints = [];
  redaction_status = "";
}

create-IsSorted_example :
    IsSorted entry_less (create_from_findings same_digest (finding ∷ []) options).entries
create-IsSorted_example = create-IsSorted same_digest (finding ∷ []) options

abbrev its_key : String
its_key = "F-ENV-001:00000000000000000000000000000000000000000000000000000000000000ff"

create_count_example :
    count
      (is_keyed same_digest options its_key)
      (create_from_findings same_digest (finding ∷ []) options).entries
    ≡ (if any (is_wanted same_digest options its_key) (finding ∷ []) then 1 else 0)
create_count_example = create_count same_digest (finding ∷ []) options its_key

validate-create_example : validate (create_from_findings same_digest (finding ∷ []) options) ≡ none
validate-create_example =
    validate-create same_digest same_digest-valid (finding ∷ []) options (omega arith)
