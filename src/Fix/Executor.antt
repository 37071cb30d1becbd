-- ===== src/Fix/Executor.antt =====
-- internal/fix/executor.go: a proposal is applied, or refused, and the audit log says so.
pub mod Guard
pub mod Audit
use devdiag.Fix.AuditLog.{
  declined, requires_tty, fix_blocked, manual_fix, requires_fresh, preflight_entry, refused_entry,
  blocklisted, blank_entry, is_blocked, audit_unavailable, refuse, is_saved, no_binary, write,
  execution_failed, ExecutorOptions, Outcome, WriteFault, Executor, World, FixExecution,
  CommandResult,
}
use devdiag.Base.{
  to_lower, is_empty, is_blank, is_some, ◌==◌, trim_space, if◌then◌else◌, String, List, [], ◌∷◌,
  ◌++◌, Option, none, some, Bool, true, false, not, ◌&&◌, ◌||◌, ◌^^◌, ◌=ₛ◌,
}
use devdiag.Base.Number.{ℤ, pos, negsuc, itoa}
use devdiag.Base.Text.Split.{joined}
use devdiag.Schema.{FixClass, FixSource, FixProposal}
use devdiag.Fix.Blocklist.{is_blocked_command}

abbrev pub risk_lines : FixProposal → List String
risk_lines p = if is_blank p.confirm_message then [] else ("Risk: " ^^ p.confirm_message) ∷ []

abbrev pub rollback_lines : FixProposal → List String
rollback_lines p = if is_empty p.rollback then [] else ("Rollback: " ^^ joined " " p.rollback) ∷ []

-- the dialog of `confirmTTY`
abbrev pub dialog : FixProposal → List String
dialog p =
    ("Guarded fix: " ^^ p.title) ∷ risk_lines p
    ++ ("Command: " ^^ p.bin ^^ " " ^^ joined " " p.args) ∷ rollback_lines p
    ++ "Apply? [y/N]: " ∷ []

-- what `confirmTTY` answers to the line that was read
unfoldable pub confirms : Option String → Bool
confirms none = false
confirms (some line) = let resp = trim_space (to_lower line) in resp =ₛ "y" || resp =ₛ "yes"

split_args : List String → String × List String
split_args [] = ("", [])
split_args (arg ∷ rest) = (arg, rest)

-- the command, which stands first in the arguments where there is no binary
unfoldable pub command_of : FixProposal → String × List String
unfolding split_args
command_of p = if is_blank p.bin then split_args p.args else (p.bin, p.args)

abbrev pub is_zero : ℤ → Bool
is_zero (pos n) = n == 0
is_zero (negsuc n) = false

-- the error of a command, empty where there is none, and whether it is one of permissions
unfoldable pub failure : (String → String) → String → CommandResult → String × Bool
failure redact bin res =
    if res.timed_out
    then ("fix command timed out", false)
    else if res.not_found
    then ("command not found: " ^^ bin, false)
    else if res.permission_denied
    then ("permission denied running " ^^ bin, true)
    else if not (is_zero res.exit_code)
    then (redact ("command exited with code " ^^ itoa res.exit_code), false)
    else ("", false)

unfoldable pub succeeded : CommandResult → Bool
succeeded res =
    not res.timed_out && not res.not_found && not res.permission_denied && is_zero res.exit_code

-- `execution` as it stands before the command runs
abbrev pub empty_execution : FixProposal → String → FixExecution
empty_execution p error = record {
  finding_id = p.finding_id;
  hint_id = p.hint_id;
  success = false;
  exit_code = pos 0;
  stdout = "";
  stderr = "";
  error = error;
}

unfoldable pub execution_of :
    (String → String) → FixProposal → String → CommandResult → FixExecution
execution_of redact p bin res = record (empty_execution p (failure redact bin res).0) {
  success = succeeded res;
  exit_code = res.exit_code;
  stdout = redact res.stdout;
  stderr = redact res.stderr;
}

-- after the final entry is written or not
unfoldable pub settle : FixExecution → Option WriteFault → FixExecution
settle x none = x
settle x (some fault) =
    let msg = "failed to write final audit entry: " ^^ fault.message in
    record x { error = if is_blank x.error then msg else x.error ^^ "; " ^^ msg; success = false }

unfoldable pub conclude : World → FixExecution → Bool → Outcome
conclude w x denied = record {
  world = w;
  execution = some x;
  error = if x.success then none else some (execution_failed x.error denied);
}

unfoldable pub run_command :
    Executor → World → FixProposal → (String → String) → String × List String → Outcome
run_command e w p redact (bin, args) =
    let res = e.run bin args in
    let x = execution_of redact p bin res in
    let ran = record w { ran = w.ran ++ (bin, args) ∷ [] } in
    let (after, fault) = write e ran (record (blank_entry p) { execution = some x }) in
    conclude after (settle x fault) (not (is_some fault) && (failure redact bin res).1)

-- a fix that nothing stands against any more
unfoldable pub start : Executor → World → FixProposal → (String → String) → Outcome
start e w p redact =
    let (bin, args) = command_of p in
    if is_blank bin
    then record {
      world = w;
      execution = some (empty_execution p "no command binary specified");
      error = some no_binary;
    }
    else if is_blocked_command bin args
    then record {
      world = w;
      execution = some (empty_execution p "command matches runtime blocklist");
      error = some blocklisted;
    }
    else run_command e w p redact (bin, args)

unfoldable pub confirm_guarded : Executor → World → FixProposal → ExecutorOptions → Outcome
confirm_guarded e w p opts =
    if not opts.fresh && is_saved p.source
    then refuse e w (refused_entry p (opts.redact "guarded fix requires --fresh or fresh scan"))
        requires_fresh
    else if not opts.interactive
    then refuse e w (refused_entry p (opts.redact "guarded fix requires interactive TTY"))
        requires_tty
    else let asked = record w { shown = w.shown ++ dialog p } in
      if confirms opts.answer
      then start e asked p opts.redact
      else refuse e asked (refused_entry p (opts.redact "user declined confirmation")) declined

unfoldable pub apply_class : Executor → World → FixProposal → ExecutorOptions → FixClass → Outcome
apply_class e w p opts FixClass.guarded = confirm_guarded e w p opts
apply_class e w p opts FixClass.manual =
    refuse e w (refused_entry p (opts.redact "manual fix is not executable")) manual_fix
apply_class e w p opts _ = start e w p opts.redact

unfoldable pub after_preflight :
    Executor → World × Option WriteFault → FixProposal → ExecutorOptions → Outcome
after_preflight e (w, some fault) p opts = record {
  world = w;
  execution = none;
  error = some (audit_unavailable fault);
}
after_preflight e (w, none) p opts = apply_class e w p opts p.class

-- `PreflightAudit`
unfoldable pub preflight_audit : Executor → World → FixProposal → World × Option WriteFault
preflight_audit e w p = write e w (preflight_entry p)

-- `Execute`
unfoldable pub execute : Executor → World → FixProposal → ExecutorOptions → Outcome
execute e w p opts =
    if is_blocked p.class
    then refuse e w
        (record (refused_entry p (opts.redact p.blocked_reason)) { dry_run = not opts.apply })
        (fix_blocked p.blocked_reason)
    else if not opts.apply
    then record {
      world = (write e w (record (blank_entry p) { dry_run = true })).0;
      execution = none;
      error = none;
    }
    else after_preflight e (preflight_audit e w p) p opts
