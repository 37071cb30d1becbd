-- ===== src/Fix/AuditLog.antt =====
-- internal/fix/audit.go, and the types of executor.go. The world has the log's entries, what the next
-- writes to it meet, the commands that ran and what was shown. A time of day is left out of the entries.
use devdiag.Base.{if◌then◌else◌, String, List, [], ◌∷◌, ◌++◌, Option, none, some, Bool, true, false}
use devdiag.Base.Number.{ℤ}
use devdiag.Schema.{FixClass, FixSource, FixProposal}

pub record FixExecution : Type 0 where
  pub finding_id : String
  pub hint_id : String
  pub success : Bool
  pub exit_code : ℤ
  pub stdout : String
  pub stderr : String
  pub error : String

pub record FixAuditEntry : Type 0 where
  pub run_id : String
  pub finding_id : String
  pub hint_id : String
  pub class : FixClass
  pub source : FixSource
  pub dry_run : Bool
  pub execution : Option FixExecution
  pub refused : Bool
  pub refuse_reason : String
  pub note : String

abbrev pub is_blocked : FixClass → Bool
is_blocked FixClass.blocked = true
is_blocked _ = false

abbrev pub is_saved : FixSource → Bool
is_saved FixSource.saved_report = true
is_saved _ = false

-- What `cmdrunner` answers, of which the executor reads these fields
pub record CommandResult : Type 0 where
  pub stdout : String
  pub stderr : String
  pub exit_code : ℤ
  pub timed_out : Bool
  pub not_found : Bool
  pub permission_denied : Bool

-- How a write to the log fails: for want of permission, and after the line is in the file.
pub record WriteFault : Type 0 where
  pub denied : Bool
  pub line_written : Bool
  pub message : String

pub record World : Type 0 where
  pub log : List FixAuditEntry
  pub faults : List (Option WriteFault)
  pub ran : List (String × List String)
  pub shown : List String

pub record ExecutorOptions : Type 0 where
  pub apply : Bool
  pub fresh : Bool
  pub interactive : Bool
  pub redact : String → String
  pub answer : Option String

-- `audit` tells whether there is a log; `run` is the command runner.
pub record Executor : Type 0 where
  pub audit : Bool
  pub run : String → List String → CommandResult

pub data ExecuteError : Type 0 where
  fix_blocked : String → ExecuteError
  audit_unavailable : WriteFault → ExecuteError
  requires_fresh declined requires_tty manual_fix no_binary blocklisted : ExecuteError
  execution_failed : String → Bool → ExecuteError

pub record Outcome : Type 0 where
  pub world : World
  pub execution : Option FixExecution
  pub error : Option ExecuteError

abbrev pub with_log : World → List FixAuditEntry → List (Option WriteFault) → World
with_log w log faults = record w { log = log; faults = faults }

-- `AuditLog.Write`, with what the file system does with it
unfoldable pub write_next :
    World → FixAuditEntry → List (Option WriteFault) → World × Option WriteFault
write_next w entry [] = (with_log w (w.log ++ entry ∷ []) [], none)
write_next w entry (none ∷ faults) = (with_log w (w.log ++ entry ∷ []) faults, none)
write_next w entry (some fault ∷ faults) =
    (with_log w (if fault.line_written then w.log ++ entry ∷ [] else w.log) faults, some fault)

-- nothing where there is no log
unfoldable pub write : Executor → World → FixAuditEntry → World × Option WriteFault
write e w entry = if e.audit then write_next w entry w.faults else (w, none)

abbrev pub blank_entry : FixProposal → FixAuditEntry
blank_entry p = record {
  run_id = p.run_id;
  finding_id = p.finding_id;
  hint_id = p.hint_id;
  class = p.class;
  source = p.source;
  dry_run = false;
  execution = none;
  refused = false;
  refuse_reason = "";
  note = "";
}

abbrev pub preflight_entry : FixProposal → FixAuditEntry
preflight_entry p = record (blank_entry p) { note = "audit_preflight" }

abbrev pub refused_entry : FixProposal → String → FixAuditEntry
refused_entry p reason = record (blank_entry p) { refused = true; refuse_reason = reason }

-- A refusal is written down, whatever becomes of the write.
unfoldable pub refuse : Executor → World → FixAuditEntry → ExecuteError → Outcome
refuse e w entry error = record {
  world = (write e w entry).0;
  execution = none;
  error = some error;
}
