-- ===== src/Rules/Parity/Sources.antt =====
-- internal/rules/m8engine.go: what the sources and the values of evidence stand for.
use devdiag.Base.{
  refl, ◌≡◌, ℕ, zero, suc, ◌-◌, String, List, [], ◌∷◌, ◌++◌, Option, none, some, Bool, true, false,
  not, ◌&&◌, ◌||◌, if◌then◌else◌, ◌=ₛ◌, ◌^^◌, is_blank, is_empty, length, leb, ltb, has_prefix,
  trim_prefix, trim_space, to_lower, to_upper, map,
}
use devdiag.Base.Sort.{sort}
use devdiag.Base.Number.{itoa_nat}
use devdiag.Base.Text.Order.{str_lt}
use devdiag.Base.Text.Split.{split, joined, has_text, has_suffix, replace_all}
use devdiag.Base.Text.Parts.{
  cut, cut_last, before, split_text, last_of, trim_left_of, trim_right_of,
}
use devdiag.Schema.{Evidence}
use devdiag.Rules.Found.{has_key, observed}
use devdiag.Rules.Host.{put}

unfoldable pub decode_source_segment : String → String
decode_source_segment s = replace_all s "%5F%5F" "__"

abbrev pub behind_last : String → Option String
behind_last rest = elim (cut_last rest "__") [
  | none ↦ none
  | some (a, b) ↦ some (decode_source_segment b)
]

-- The env key that a source of CI evidence names. Where a source of a job has no second separator, it
-- is none of a step either.
unfoldable pub ci_env_key : String → Option String
ci_env_key source =
    if has_prefix source "ci_env__workflow__"
    then some (decode_source_segment (trim_prefix source "ci_env__workflow__"))
    else if has_prefix source "ci_env__job__"
    then behind_last (trim_prefix source "ci_env__job__")
    else if has_prefix source "ci_env__step__"
    then behind_last (trim_prefix source "ci_env__step__")
    else none

unfoldable pub is_deployment_only_heuristics : String → Bool
is_deployment_only_heuristics name =
    let key = to_upper name in
    has_prefix key "OCI_"
    || (has_suffix key "_SSH_PRIVATE_KEY"
        || (has_suffix key "_KNOWN_HOSTS"
            || (key =ₛ "RELEASE_SHA"
                || (key =ₛ "CONFIRM_DEPLOY"
                    || (has_suffix key "_PRODUCTION_URL" || has_suffix key "_DEPLOY_PATH")))))

abbrev pub control_keys : List String
control_keys =
    "NODE_ENV" ∷ "NODE_VERSION" ∷ "PYTHON_VERSION" ∷ "GO_VERSION" ∷ "DOTNET_VERSION"
    ∷ "DOTNET_NOLOGO" ∷ "DOTNET_CLI_TELEMETRY_OPTOUT" ∷ "DOTNET_SKIP_FIRST_TIME_EXPERIENCE" ∷ []

unfoldable pub is_standard_ci_control_env : String → Bool
is_standard_ci_control_env key = has_key control_keys key

unfoldable pub is_ignored_ci_env : String → String → Bool
is_ignored_ci_env key value =
    let v = trim_space value in
    if is_blank key
    then true
    else if key =ₛ "CI" || key =ₛ "GITHUB_TOKEN"
    then true
    else if is_standard_ci_control_env key
    then true
    else if has_prefix key "GITHUB_" || (has_prefix key "RUNNER_" || has_prefix key "ACTIONS_")
    then true
    else if is_deployment_only_heuristics key
    then false
    else has_prefix v "${{ github." || (has_prefix v "${{ runner." || has_prefix v "${{ env.")

abbrev pub front {ℓ} : {A : Type ℓ} → ℕ → List A → List A
front zero xs = []
front (suc n) [] = []
front (suc n) (x ∷ xs) = x ∷ front n xs

unfoldable pub summarize_keys_for_title : List String → String
summarize_keys_for_title keys =
    if leb (length keys) 5
    then joined ", " keys
    else joined ", " (front 5 keys) ^^ (", and " ^^ (itoa_nat (length keys - 5) ^^ " more"))

-- A key is in a set once.
unfoldable pub insert_key : String → List String → List String
insert_key k ks = if has_key ks k then ks else ks ++ k ∷ []

unfoldable pub value_set : List Evidence → List String → List String
value_set [] values = values
value_set (ev ∷ evs) values =
    value_set evs
      (if is_blank (trim_space ev.value) then values else insert_key (trim_space ev.value) values)

unfoldable pub summarize_evidence_values : List Evidence → String
summarize_evidence_values evs =
    let keys = sort str_lt (value_set evs []) in
    if is_empty keys then "unknown" else summarize_keys_for_title keys

unfoldable pub env_key_evidence : String → List String → List Evidence
env_key_evidence source keys = map (observed source) keys

unfoldable pub action_runtime_key : String → String
action_runtime_key action =
    if action =ₛ "setup_node"
    then "setup-node"
    else if action =ₛ "setup_python"
    then "setup-python"
    else if action =ₛ "setup_go"
    then "setup-go"
    else if action =ₛ "setup_ruby"
    then "setup-ruby"
    else if action =ₛ "setup_dotnet"
    then "setup-dotnet"
    else action

-- The last part but one, where there are four parts.
abbrev pub before_last : List String → Option String
before_last (p ∷ q ∷ []) = some p
before_last (p ∷ q ∷ r ∷ ps) = before_last (q ∷ r ∷ ps)
before_last _ = none

unfoldable pub ci_setup_info : String → Option String
ci_setup_info source =
    let parts = split_text (trim_prefix source "ci_setup__") "__" in
    if not (has_prefix source "ci_setup__")
    then none
    else if ltb (length parts) 4
    then none
    else elim (before_last parts) [
      | none ↦ none
      | some p ↦ some (action_runtime_key (decode_source_segment p))
    ]

unfoldable pub is_opaque_ci_value : String → Bool
is_opaque_ci_value value = has_text value "${{"

-- `strings.Trim(s, "\"")`
abbrev pub unquoted : String → String
unquoted s = trim_left_of (trim_right_of s "\"") "\""

abbrev pub node_version : List String → Option String
node_version (name ∷ version ∷ []) =
    if is_blank (unquoted (trim_space version)) then none else some (unquoted (trim_space version))
node_version _ = none

unfoldable pub engine_parts : List String → List (String × String) → List (String × String)
engine_parts [] m = m
engine_parts (part ∷ parts) m = engine_parts parts (
    if has_prefix (trim_space part) "\"node\""
    then elim (node_version (split b':' (trim_space part))) [
      | none ↦ m
      | some v ↦ put "setup-node" v m
    ]
    else m)

abbrev pub pinned : String → String → String
pinned val name = trim_space (trim_prefix val name)

abbrev pub pin_of : String → String → List (String × String) → List (String × String)
pin_of src val m =
    if src =ₛ ".nvmrc"
    then put "setup-node" (pinned val "node ") m
    else if src =ₛ ".python-version"
    then put "setup-python" (pinned val "python ") m
    else if src =ₛ "go.mod"
    then put "setup-go" (pinned val "go ") m
    else if src =ₛ ".ruby-version"
    then put "setup-ruby" (pinned val "ruby ") m
    else if src =ₛ "global.json"
    then put "setup-dotnet" (pinned val "dotnet ") m
    else m

-- The loop over the map of runtime evidence, in the order given.
unfoldable pub extract_local_runtimes :
    List (String × String) → List (String × String) → List (String × String)
extract_local_runtimes [] m = m
extract_local_runtimes ((src, val) ∷ evs) m =
    let n = pin_of src val m in
    extract_local_runtimes evs (
      if has_suffix src "package.json" && has_text val "engines:"
      then engine_parts (split b',' (trim_prefix val "engines: ")) n
      else n)

abbrev pub with_tag : String → String
with_tag image =
    if has_text (last_of image (split b'/' image)) ":" then image else image ^^ ":latest"

abbrev pub is_registry : String → Bool
is_registry host = has_text host "." || (has_text host ":" || host =ₛ "localhost")

abbrev pub from_registry : String → List String → String
from_registry image (name ∷ []) = "docker.io/library/" ^^ name
from_registry image (host ∷ name ∷ []) =
    if is_registry host
    then if has_prefix image "index.docker.io/" then trim_prefix image "index." else image
    else "docker.io/" ^^ image
from_registry image parts =
    if has_prefix image "index.docker.io/" then trim_prefix image "index." else image

-- A tag is looked for behind the last slash: a colon before it is that of a port.
unfoldable pub normalize_container_image : String → String
normalize_container_image text =
    let image = trim_space (to_lower text) in
    let tagged = with_tag (before image "@") in
    if is_blank image then "" else from_registry tagged (split b'/' tagged)

normalizes : normalize_container_image "Redis@sha256:1" ≡ "docker.io/library/redis:latest"
unfolding normalize_container_image trim_space to_lower split has_text cut has_prefix
normalizes = refl

setup_names : ci_setup_info "ci_setup__ci__build__setup_node__version" ≡ some "setup-node"
unfolding ci_setup_info has_prefix split_text trim_prefix action_runtime_key decode_source_segment
    replace_all
setup_names = refl
