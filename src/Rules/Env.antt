-- ===== src/Rules/Env.antt =====
-- internal/rules/m1engine.go: `envRules`. A set of keys is the list of them.
pub mod Agree
use devdiag.Base.{
  String, List, [], ◌∷◌, ◌++◌, Bool, true, false, not, ◌&&◌, if◌then◌else◌, ◌=ₛ◌, ◌^^◌, is_blank,
  is_empty, has_prefix, trim_prefix, trim_space,
}
use devdiag.Base.Text.Split.{joined}
use devdiag.Base.Text.Parts.{split_text}
use devdiag.Schema.{Severity, Evidence, Finding, CollectorResult}
use devdiag.Rules.Found.{point_5, point_7, rule_finding, observed, evidence_named, has_key}

pub record EnvConfig : Type 0 where
  pub ignore_missing : List String
  pub optional_keys : List String
  pub required_keys : List String

abbrev pub note_config : EnvConfig → Evidence → EnvConfig
note_config c ev =
    if ev.source =ₛ "devdiag_env_ignore_missing"
    then record c { ignore_missing = ev.value ∷ c.ignore_missing }
    else if ev.source =ₛ "devdiag_env_optional"
    then record c { optional_keys = ev.value ∷ c.optional_keys }
    else if ev.source =ₛ "devdiag_env_required"
    then record c { required_keys = ev.value ∷ c.required_keys }
    else c

unfoldable pub read_config : EnvConfig → List Evidence → EnvConfig
read_config c [] = c
read_config c (ev ∷ evs) = read_config (note_config c ev) evs

unfoldable pub env_config : List CollectorResult → EnvConfig
unfolding read_config
env_config collectors =
    read_config (record { ignore_missing = []; optional_keys = []; required_keys = [] })
      (evidence_named "config" collectors)

pub data KeyClass : Type 0 where
  passed optional missing : KeyClass

-- The tests of the loop over missing keys, on a trimmed key.
unfoldable pub classify_key : EnvConfig → String → KeyClass
classify_key c k =
    if is_blank k
    then passed
    else if has_key c.ignore_missing k
    then passed
    else if not (is_empty c.required_keys) && not (has_key c.required_keys k)
    then optional
    else if has_key c.optional_keys k
    then optional
    else missing

abbrev pub is_optional : KeyClass → Bool
is_optional optional = true
is_optional k = false

abbrev pub is_missing : KeyClass → Bool
is_missing missing = true
is_missing k = false

-- Of the keys, trimmed, those of a class, in their order.
unfoldable pub keys_of : (KeyClass → Bool) → EnvConfig → List String → List String
keys_of test c [] = []
keys_of test c (k ∷ ks) =
    if test (classify_key c (trim_space k))
    then trim_space k ∷ keys_of test c ks
    else keys_of test c ks

abbrev pub missing_finding : List String → List Finding
missing_finding [] = []
missing_finding (k ∷ ks) =
    let text = joined ", " (k ∷ ks) in
    rule_finding "F-ENV-001" ("Missing env keys from .env: " ^^ text) Severity.medium point_7
      "Keys defined in .env.example are not present in .env" (observed "missing_keys" text ∷ [])
      (".env file not created from .env.example" ∷ []) ("add-env-placeholder" ∷ [])
    ∷ []

abbrev pub optional_finding : List String → List Finding
optional_finding [] = []
optional_finding (k ∷ ks) =
    let text = joined ", " (k ∷ ks) in
    rule_finding "F-ENV-001-OPTIONAL" ("Optional env keys missing from .env: " ^^ text)
      Severity.info point_7 "Optional keys defined in .env.example are not present in .env"
      (observed "missing_optional_keys" text ∷ [])
      ("Optional env variables were not configured locally" ∷ []) []
    ∷ []

-- the case `missing_keys`
unfoldable pub missing_key_findings : EnvConfig → String → List Finding
missing_key_findings c value =
    let keys = split_text value ", " in
    missing_finding (keys_of is_missing c keys) ++ optional_finding (keys_of is_optional c keys)

pub record EnvState : Type 0 where
  pub found : List Finding
  pub env_missing : Bool
  pub example_keys : List String

unfoldable pub env_step : EnvConfig → EnvState → Evidence → EnvState
env_step c s ev =
    if ev.source =ₛ ".env"
    then if ev.value =ₛ "missing" then record s { env_missing = true } else s
    else if ev.source =ₛ ".env.example"
    then if has_prefix ev.value "keys: "
      then record s { example_keys = split_text (trim_prefix ev.value "keys: ") ", " }
      else s
    else if ev.source =ₛ "missing_keys"
    then record s { found = s.found ++ missing_key_findings c ev.value }
    else s

unfoldable pub env_loop : EnvConfig → EnvState → List Evidence → EnvState
env_loop c s [] = s
env_loop c s (ev ∷ evs) = env_loop c (env_step c s ev) evs

unfoldable pub active_keys : EnvConfig → List String → List String
active_keys c [] = []
active_keys c (k ∷ ks) =
    if not (is_blank (trim_space k)) && not (has_key c.ignore_missing (trim_space k))
    then trim_space k ∷ active_keys c ks
    else active_keys c ks

unfoldable pub all_optional : EnvConfig → List String → Bool
all_optional c [] = true
all_optional c (k ∷ ks) =
    let rest = all_optional c ks in
    if not (is_empty c.required_keys) && not (has_key c.required_keys k)
    then rest
    else if not (has_key c.optional_keys k)
    then false
    else rest

abbrev pub absent_finding : Bool → List Evidence → Finding
absent_finding only_optional evidence =
    rule_finding (if only_optional then "F-ENV-001-OPTIONAL" else "F-ENV-001")
      ".env.example exists but no local .env was found"
      (if only_optional then Severity.info else Severity.medium) point_5
      ".env.example exists but .env is missing" evidence
      ("Project may require local env vars but .env is not present" ∷ [])
      ("add-env-placeholder" ∷ [])

unfoldable pub absent_findings : EnvConfig → EnvState → List Evidence → List Finding
absent_findings c s evidence =
    let active = active_keys c s.example_keys in
    if s.env_missing && not (is_empty s.example_keys)
    then if is_empty active then [] else absent_finding (all_optional c active) evidence ∷ []
    else []

unfoldable pub env_rules : CollectorResult → List CollectorResult → List Finding
unfolding env_loop
env_rules result collectors =
    let c = env_config collectors in
    let s =
      env_loop c (record { found = []; env_missing = false; example_keys = [] }) result.evidence in
    s.found ++ absent_findings c s result.evidence
