-- ===== src/Rules/Parity/Keys.antt =====
-- internal/rules/m8engine.go: environment variables that CI has and the project lacks, and the other
-- way round.
use devdiag.Base.{
  String, List, [], ◌∷◌, ◌++◌, Option, none, some, Bool, true, not, ◌&&◌, ◌||◌, keep, if◌then◌else◌,
  ◌=ₛ◌, ◌^^◌, is_blank, has_prefix, trim_space,
}
use devdiag.Base.Sort.{sort}
use devdiag.Base.Text.Order.{str_lt}
use devdiag.Base.Text.Split.{has_suffix}
use devdiag.Schema.{Severity, Evidence, Finding}
use devdiag.Rules.Found.{point_5, point_6, rule_finding, has_key}
use devdiag.Rules.Project.{env_keys_from_evidence}
use devdiag.Rules.Parity.Sources.{
  ci_env_key, is_ignored_ci_env, is_deployment_only_heuristics, insert_key,
  summarize_keys_for_title, env_key_evidence,
}

pub record ParityConfig : Type 0 where
  pub ignore_missing_local : List String
  pub ignore_missing_ci : List String
  pub local_required : List String
  pub deployment_only : List String
  pub ci_only : List String

abbrev pub note_key : ParityConfig → String → String → ParityConfig
note_key c source key =
    if source =ₛ "devdiag_ci_env_ignore_missing_local"
    then record c { ignore_missing_local = key ∷ c.ignore_missing_local }
    else if source =ₛ "devdiag_ci_env_ignore_missing_ci"
    then record c { ignore_missing_ci = key ∷ c.ignore_missing_ci }
    else if source =ₛ "devdiag_ci_env_local_required"
    then record c { local_required = key ∷ c.local_required }
    else if source =ₛ "devdiag_ci_env_deployment_only"
    then record c { deployment_only = key ∷ c.deployment_only }
    else if source =ₛ "devdiag_ci_env_ci_only"
    then record c { ci_only = key ∷ c.ci_only }
    else c

unfoldable pub collect_config : ParityConfig → List Evidence → ParityConfig
collect_config c [] = c
collect_config c (ev ∷ evs) =
    collect_config
      (if is_blank (trim_space ev.value) then c else note_key c ev.source (trim_space ev.value)) evs

abbrev pub is_counted : ParityConfig → String → String → Bool
is_counted c key value =
    not (is_ignored_ci_env key value)
    && (not (has_key c.ignore_missing_local key) && not (has_key c.ci_only key))

abbrev pub counted : ParityConfig → Option String → String → List String → List String
counted c none value keys = keys
counted c (some key) value keys = if is_counted c key value then insert_key key keys else keys

-- `allCIEnvKeys`
unfoldable pub ci_env_keys : ParityConfig → List String → List Evidence → List String
ci_env_keys c keys [] = keys
ci_env_keys c keys (ev ∷ evs) = ci_env_keys c (counted c (ci_env_key ev.source) ev.value keys) evs

abbrev pub is_env_source : String → Bool
is_env_source source =
    source =ₛ ".env"
    || (source =ₛ ".env.example"
        || (source =ₛ ".env.local" || (has_prefix source ".env." && has_suffix source ".example")))

unfoldable pub env_source_requires_ci : String → Bool
env_source_requires_ci source = source =ₛ ".env"

abbrev pub insert_keys : List String → List String → List String
insert_keys [] keys = keys
insert_keys (k ∷ ks) keys = insert_keys ks (insert_key k keys)

-- `localEnvKeys`, of the sources that pass a test and the keys that pass another
unfoldable pub keys_from :
    (String → Bool) → (String → Bool) → List String → List Evidence → List String
keys_from test wanted keys [] = keys
keys_from test wanted keys (ev ∷ evs) =
    keys_from test wanted
      (if test ev.source
        then insert_keys (keep wanted (env_keys_from_evidence ev.value)) keys
        else keys)
      evs

unfoldable pub local_env_keys : List Evidence → List String
local_env_keys evs = keys_from is_env_source (λ k. true) [] evs

unfoldable pub local_env_keys_for_ci : ParityConfig → List Evidence → List String
local_env_keys_for_ci c evs =
    keys_from (λ s. is_env_source s && env_source_requires_ci s)
      (λ k. not (has_key c.ignore_missing_ci k)) [] evs

-- Where a key of CI that the project lacks is reported: as one that is needed, or of a deployment.
abbrev pub is_deployment : ParityConfig → String → Bool
is_deployment c key =
    not (has_key c.local_required key)
    && (has_key c.deployment_only key || is_deployment_only_heuristics key)

unfoldable pub missing_local_keys : ParityConfig → List String → List String → List String
missing_local_keys c locals keys =
    keep (λ k. not (has_key locals k) && not (is_deployment c k)) keys

unfoldable pub missing_deploy_keys : ParityConfig → List String → List String → List String
missing_deploy_keys c locals keys = keep (λ k. not (has_key locals k) && is_deployment c k) keys

unfoldable pub missing_ci_keys : List String → List String → List String
missing_ci_keys ci keys = keep (λ k. not (has_key ci k)) keys

abbrev pub local_finding : List String → Finding
local_finding keys =
    rule_finding "F-CI-ENV-001" ("CI env vars not found locally: " ^^ summarize_keys_for_title keys)
      Severity.medium point_6
      "One or more environment variables are set in CI but missing from local .env evidence"
      (env_key_evidence "ci_env" keys) ("Local .env is out of date with CI configuration" ∷ []) []

abbrev pub deploy_finding : List String → Finding
deploy_finding keys =
    rule_finding "F-CI-ENV-DEPLOY-INFO"
      ("CI deployment env vars not found locally: " ^^ summarize_keys_for_title keys) Severity.info
      point_6 "One or more CI deployment/secrets environment variables are not present locally"
      (env_key_evidence "ci_env" keys)
      ("Variables are deployment-only or secrets meant only for production/CI environments" ∷ []) []

abbrev pub ci_finding : List String → Finding
ci_finding keys =
    rule_finding "F-CI-ENV-002"
      ("Local env vars not found in CI: " ^^ summarize_keys_for_title keys) Severity.low point_5
      "One or more local .env variables are not referenced in CI" (env_key_evidence ".env" keys)
      ("CI workflow may be missing required environment variables" ∷ []) []

-- A finding of the keys, sorted, if there are any.
abbrev pub of_keys : (List String → Finding) → List String → List Finding
of_keys report [] = []
of_keys report (k ∷ ks) = report (sort str_lt (k ∷ ks)) ∷ []

-- The three findings on keys, where the maps of CI's and of the local keys are run over in an order.
unfoldable pub key_findings :
    (List String → List String) → ParityConfig → List Evidence → List Evidence → List Finding
key_findings order c ci env =
    let ci_keys = ci_env_keys c [] ci in
    let locals = local_env_keys env in
    of_keys local_finding (missing_local_keys c locals (order ci_keys))
    ++ (of_keys deploy_finding (missing_deploy_keys c locals (order ci_keys))
        ++ of_keys ci_finding (missing_ci_keys ci_keys (order (local_env_keys_for_ci c env))))
