-- ===== src/Rules/Examples.antt =====
-- The rules at inputs: versions, missing keys, and a snapshot of several collectors.
use mathlib.Core.List.{Perm}
use mathlib.Core.List.Perm
use devdiag.Rules.Parity.Engine
use devdiag.Rules.Parity.Orderless.{evaluate_orderless}
use devdiag.Base.Text.Parts.{trim_right_of}
use devdiag.Rules.Machine.{disk_rules}
use devdiag.Fix.Blocklist.{is_blocked_template, is_blocked_bin, base_name, is_blocked_arg}
use devdiag.Fix.Registry.{lookup, new_registry, register, register_all, store}
use devdiag.Base.Text.Split.{split, has_text, joined}
use devdiag.Base.{
  all, not, ℕ, String, List, [], ◌∷◌, Option, none, some, Bool, true, false, ◌≡◌, refl, arith, map,
  ltb, ◌&&◌, ◌||◌, has_prefix,
}
use devdiag.Base.Number.{ℤ, pos, atoi}
use devdiag.Base.Text.{trim_space, trim_prefix}
use devdiag.Schema.{Evidence, CollectorResult, CollectorStatus}
use devdiag.Rules.Found.{observed}
use devdiag.Rules.Versions.{satisfied, parse_version_parts}
use devdiag.Rules.Ranges.{satisfied_lem, keeps_major, keeps_minor, not_older}
use devdiag.Rules.Env.{env_rules}
use devdiag.Rules.Env.Agree.{env_rules_agree, reports, without_env, lacking}
use devdiag.Rules.Host.{GoRuntime}
use devdiag.Rules.Known.{has_template}

abbrev base_version : List ℕ
base_version = 0 ∷ 2 ∷ 3 ∷ []

abbrev newer_version : List ℕ
newer_version = 0 ∷ 3 ∷ []

reads_base : parse_version_parts "0.2.3" ≡ some (map pos base_version)
unfolding parse_version_parts trim_space devdiag.Rules.Versions.normalize_version trim_prefix
    devdiag.Rules.Versions.parts_of split trim_right_of atoi
reads_base = refl

no_greater : has_prefix "0.2.3" ">" ≡ false
unfolding has_prefix
no_greater = refl

satisfied_lem_example :
    (satisfied "^0.2.3" (map pos newer_version)
      ≡ some (not_older newer_version base_version && keeps_major newer_version base_version))
    × (satisfied "~0.2.3" (map pos newer_version)
        ≡ some (not_older newer_version base_version && keeps_minor newer_version base_version))
satisfied_lem_example =
    satisfied_lem "0.2.3" newer_version base_version (omega arith) no_greater reads_base

abbrev result_of : String → List Evidence → CollectorResult
result_of name evidence = record {
  name = name;
  status = CollectorStatus.ok;
  applicable = none;
  timeout_ms = 0;
  partial_result = false;
  evidence = evidence;
  notes = [];
}

abbrev config_result : CollectorResult
config_result = result_of "config" (observed "devdiag_env_optional" "DEBUG" ∷ [])

abbrev env_result : CollectorResult
env_result = result_of "env" (observed "missing_keys" "DEBUG, API_KEY" ∷ [])

env_rules_agree_example :
    let absent = env_rules (without_env env_result "DEBUG, API_KEY") (config_result ∷ []) in
    let partial = env_rules (lacking env_result "DEBUG, API_KEY") (config_result ∷ []) in
    (reports "F-ENV-001" absent ≡ reports "F-ENV-001" partial)
    × ((reports "F-ENV-001" absent || reports "F-ENV-001-OPTIONAL" absent)
        ≡ (reports "F-ENV-001" partial || reports "F-ENV-001-OPTIONAL" partial))
env_rules_agree_example = env_rules_agree env_result (config_result ∷ []) "DEBUG, API_KEY"

-- Numbers without a fraction.
abbrev whole : Option ℤ → ℕ × Bool
whole (some (pos n)) = (n, true)
whole _ = (0, false)

abbrev whole_numbers : GoRuntime
whole_numbers = record {
  Float = ℕ;
  of_nat = λ n. n;
  less = ltb;
  parse_float = λ s. whole (atoi s);
  order = λ m. m;
  order_keys = λ ks. ks;
}

-- A disk collector that failed brings no evidence, and the rule reports a disk that is full.
no_evidence : reports "F-DISK-001" (disk_rules whole_numbers (result_of "disk" [])) ≡ true
unfolding disk_rules devdiag.Rules.Machine.disk_loop
no_evidence = refl

-- The hints of the security rules have no template.
security_hints :
    all
      (λ h. not (has_template h))
      ("inspect-selinux-context" ∷ "inspect-apparmor-denial" ∷ "relabel-container-volume"
        ∷ "review-apparmor-profile" ∷ [])
    ≡ true
unfolding has_template lookup new_registry register_all register store is_blocked_template
    is_blocked_bin base_name is_blocked_arg split has_text joined has_prefix
security_hints = refl

abbrev swap_two : List String → List String
swap_two (a ∷ b ∷ ks) = b ∷ a ∷ ks
swap_two ks = ks

swap_two-perm : (ks : List String) → Perm ks (swap_two ks)
swap_two-perm [] = Perm.refl []
swap_two-perm (a ∷ []) = Perm.refl (a ∷ [])
swap_two-perm (a ∷ b ∷ ks) = Perm.swap b a ks

abbrev ci_snapshot : List CollectorResult
ci_snapshot =
    result_of "ci" (
      observed "ci_env__workflow__TOKEN" "x"
      ∷ observed "ci_env__workflow__API_URL" "y"
      ∷ observed "ci_service__ci__build__redis__image" "redis:7"
      ∷ observed "ci_service__ci__build__db__image" "postgres:16"
      ∷ observed "ci_setup__ci__build__setup_go__version" "1.21"
      ∷ [])
    ∷ result_of "runtime" (observed "go.mod" "go 1.22" ∷ [])
    ∷ result_of "env" (observed ".env" "keys: DEBUG" ∷ [])
    ∷ []

evaluate_orderless_example :
    Perm
      (Engine.evaluate (record whole_numbers { order_keys = λ ks. ks }) ci_snapshot)
      (Engine.evaluate (record whole_numbers { order_keys = swap_two }) ci_snapshot)
evaluate_orderless_example =
    evaluate_orderless (λ ks. ks) swap_two swap_two-perm whole_numbers ci_snapshot
