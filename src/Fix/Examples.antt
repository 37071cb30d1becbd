-- ===== src/Fix/Examples.antt =====
-- A service that is started after the user agreed, a script that is made executable, and the root
-- directory, which the check of paths lets through.
use devdiag.Fix.Paths.{clean, clean_loop, join, keep_part, path_text, rel, rel_parts}
use devdiag.Base.Text.Split.{has_text, joined, replace_all, replaced, split}
use devdiag.Base.{
  to_lower, trim_space, [], ◌∷◌, some, true, false, ◌≡◌, refl, All, keep, has_prefix,
}
use devdiag.Base.Number.{pos}
use devdiag.Base.Sort.{IsSorted}
use devdiag.Schema.{FixClass, FixSource, FixProposal, Finding, Report, Severity}
use devdiag.Fix.Blocklist.{Template, is_blocked_command, is_blocked_bin, is_blocked_arg, base_name}
use devdiag.Fix.Registry.{
  register_all, lookup, IsGated, lookup-IsGated, is_applicable, bind_template, bind_text,
}
use devdiag.Fix.Validate.{validate_clean, expand_home, validate_path, within_root}
use devdiag.Fix.Inside.{IsAccepted, validate_clean-IsAccepted}
use devdiag.Fix.Planner.{
  Host, ResolveOptions, find_target, validate_evidence, validate_from, absolute, bind_all,
  bind_evidence, bind_given, bind_next, bind_typed, build_evidence_map, evidence_for_finding,
  own_evidence, pull_all, set_value, value_of,
}
use devdiag.Fix.Proposals.{
  resolve, rank_proposals, goes_before, resolve_target, from_last, rank_loop, propose_all, propose,
  proposal_for, sink, staleness,
}
use devdiag.Fix.Planned.{IsOf, resolve-IsOf}
use devdiag.Fix.Ranked.{rank_proposals_lem, of_order}
use devdiag.Fix.Executor.{execute, command_of}
use devdiag.Fix.AuditLog.{Executor, ExecutorOptions, World, CommandResult}
use devdiag.Fix.Executor.Guard.{ran-execute}
use devdiag.Fix.Executor.Audit.{IsHonest, execute-IsHonest}

abbrev proposal : FixProposal
proposal = record {
  finding_id = "F-COMPOSE-001";
  hint_id = "compose-up";
  title = "Start compose service";
  class = FixClass.guarded;
  bin = "docker";
  args = "compose" ∷ "up" ∷ "-d" ∷ "web" ∷ [];
  rollback = [];
  confirm_message = "Starts a service.";
  blocked_reason = "";
  required_evidence = [];
  source = FixSource.saved_report;
  run_id = "run";
  staleness_warn = "";
}

abbrev executor : Executor
executor = record {
  audit = true;
  run = λ bin args. record {
    stdout = "started";
    stderr = "";
    exit_code = pos 0;
    timed_out = false;
    not_found = false;
    permission_denied = false;
  };
}

abbrev options : ExecutorOptions
options = record {
  apply = true;
  fresh = true;
  interactive = true;
  redact = λ s. s;
  answer = some " Yes\n";
}

abbrev world : World
world = record { log = []; faults = []; ran = []; shown = [] }

ran-execute_example :
    (execute executor world proposal options).world.ran
    ≡ ("docker", "compose" ∷ "up" ∷ "-d" ∷ "web" ∷ []) ∷ []
unfolding devdiag.Fix.Executor.preflight_audit devdiag.Fix.AuditLog.write
    devdiag.Fix.AuditLog.write_next devdiag.Fix.Executor.confirms trim_space to_lower command_of
    is_blocked_command is_blocked_bin base_name split is_blocked_arg has_text has_prefix joined
ran-execute_example = ran-execute executor world proposal options

execute-IsHonest_example :
    IsHonest executor world proposal (execute executor world proposal options)
execute-IsHonest_example = execute-IsHonest executor world proposal options refl refl

validate_clean-IsAccepted_example : IsAccepted "/repo" "a/../b.sh" "/repo/b.sh"
unfolding validate_clean devdiag.Fix.Validate.within_root devdiag.Fix.Paths.rel
    devdiag.Fix.Paths.clean devdiag.Fix.Paths.join devdiag.Fix.Paths.path_text joined
validate_clean-IsAccepted_example =
    validate_clean-IsAccepted "/repo" "a/../b.sh" "a/../b.sh" "/repo/b.sh" refl

abbrev chmod : Template
chmod = record {
  hint_id = "chmod-script";
  title = "Make script executable";
  class = FixClass.safe;
  bin = "chmod";
  args = "+x" ∷ "{{path}}" ∷ [];
  rollback = [];
  required_evidence = "host_script_not_executable" ∷ [];
  platforms = "linux" ∷ [];
  confirm_message = "";
  blocked_reason = "";
}

lookup-IsGated_example : IsGated chmod × (chmod.hint_id ≡ "chmod-script")
unfolding is_blocked_bin base_name is_blocked_arg has_text lookup register_all
    devdiag.Fix.Registry.register devdiag.Fix.Registry.store
    devdiag.Fix.Blocklist.is_blocked_template split has_prefix joined
lookup-IsGated_example = lookup-IsGated (chmod ∷ []) "chmod-script" chmod refl

rank_proposals_lem_example :
    IsSorted goes_before
      (rank_proposals (proposal ∷ record proposal { class = FixClass.safe } ∷ []))
    × (keep
          (of_order 1)
          (rank_proposals (proposal ∷ record proposal { class = FixClass.safe } ∷ []))
        ≡ proposal ∷ [])
unfolding devdiag.Fix.Proposals.class_order
rank_proposals_lem_example =
    rank_proposals_lem (proposal ∷ record proposal { class = FixClass.safe } ∷ []) 1

abbrev host : Host
host = record {
  goos = "linux";
  home = some "/home/dev";
  cwd = some "/repo";
  order = λ values. values;
}

abbrev finding : Finding
finding = record {
  id = "F-FS-001";
  title = "";
  severity = Severity.medium;
  confidence = 0x3feccccccccccccd;
  layers = [];
  symptom = "a script is not executable";
  evidence = record { source = "host_script_not_executable"; value = "run.sh" } ∷ [];
  likely_causes = [];
  fixes = [];
  fix_hints = "chmod-script" ∷ "no-such-hint" ∷ [];
  redaction_status = "";
}

abbrev report : Report
report = record {
  schema_version = "0.1";
  devdiag_version = "dev";
  run_id = "run";
  redaction_status = "default";
  repo = record { root = "/repo"; signals = [] };
  host = record { os = "linux"; distro = ""; version = ""; kernel = ""; arch = ""; session = "" };
  collectors = [];
  findings = finding ∷ [];
}

abbrev asked : ResolveOptions
asked = record {
  finding_id = "F-FS-001";
  source = FixSource.saved_report;
  run_id = "run";
  report_age = 360000000000;
  age_text = "6m0s";
}

abbrev chmod_proposal : FixProposal
chmod_proposal = record {
  finding_id = "F-FS-001";
  hint_id = "chmod-script";
  title = "Make script executable";
  class = FixClass.safe;
  bin = "chmod";
  args = "+x" ∷ "/repo/run.sh" ∷ [];
  rollback = [];
  confirm_message = "";
  blocked_reason = "";
  required_evidence = "host_script_not_executable" ∷ [];
  source = FixSource.saved_report;
  run_id = "run";
  staleness_warn = "Report is 6m0s old";
}

resolve-IsOf_example :
    All (λ p. (t : Template) × IsOf (chmod ∷ []) host asked p t) (chmod_proposal ∷ [])
unfolding resolve resolve_target find_target rank_proposals from_last rank_loop propose_all propose
    lookup is_applicable validate_evidence validate_from absolute expand_home bind_all joined
    has_text replace_all replaced split has_prefix trim_space to_lower clean clean_loop join
    keep_part path_text rel rel_parts bind_evidence bind_given bind_next bind_typed
    build_evidence_map evidence_for_finding own_evidence pull_all set_value value_of proposal_for
    sink staleness bind_template bind_text validate_clean validate_path within_root
resolve-IsOf_example = resolve-IsOf host (chmod ∷ []) report asked (chmod_proposal ∷ []) refl
