-- ===== src/Schema.antt =====
-- internal/schema: the data that the components exchange. A Go string type with named constants is
-- a data type with a constructor for each constant and one for any other text. A confidence is the
-- bit pattern of a `float64` that is finite and not negative, as all of the program's are: these
-- patterns are ordered as the numbers are.
use devdiag.Base.{ℕ, String, List, Option, Bool}

pub data Severity : Type 0 where
  critical high medium low info : Severity
  other : String → Severity

pub data FixClass : Type 0 where
  safe guarded manual blocked : FixClass
  other : String → FixClass

pub data CollectorStatus : Type 0 where
  ok partial timeout permission_denied unavailable failed unset : CollectorStatus
  other : String → CollectorStatus

pub record Evidence : Type 0 where
  pub source : String
  pub value : String

pub record Fix : Type 0 where
  pub class : FixClass
  pub title : String
  pub commands : List String
  pub rollback : List String

pub record Finding : Type 0 where
  pub id : String
  pub title : String
  pub severity : Severity
  pub confidence : ℕ
  pub layers : List String
  pub symptom : String
  pub evidence : List Evidence
  pub likely_causes : List String
  pub fixes : List Fix
  pub fix_hints : List String
  pub redaction_status : String

pub record CollectorResult : Type 0 where
  pub name : String
  pub status : CollectorStatus
  pub applicable : Option Bool
  pub timeout_ms : ℕ
  pub partial_result : Bool
  pub evidence : List Evidence
  pub notes : List String

pub record RepoInfo : Type 0 where
  pub root : String
  pub signals : List String

pub record HostInfo : Type 0 where
  pub os : String
  pub distro : String
  pub version : String
  pub kernel : String
  pub arch : String
  pub session : String

pub record Report : Type 0 where
  pub schema_version : String
  pub devdiag_version : String
  pub run_id : String
  pub redaction_status : String
  pub repo : RepoInfo
  pub host : HostInfo
  pub collectors : List CollectorResult
  pub findings : List Finding

pub data FixSource : Type 0 where
  saved_report fresh_scan : FixSource
  other : String → FixSource

pub record FixProposal : Type 0 where
  pub finding_id : String
  pub hint_id : String
  pub title : String
  pub class : FixClass
  pub bin : String
  pub args : List String
  pub rollback : List String
  pub confirm_message : String
  pub blocked_reason : String
  pub required_evidence : List String
  pub source : FixSource
  pub run_id : String
  pub staleness_warn : String
