-- ===== src/Rules/Project.antt =====
-- internal/rules/m1engine.go: the rules on what the repository holds: Compose variables, files
-- tracked by Git, lock files and declared runtimes. A set of keys is the list of them, and a map of
-- evidence an association list in the order of the keys' first insertion.
use devdiag.Base.{
  refl, ◌≡◌, map, ltb, String, List, [], ◌∷◌, ◌++◌, Option, none, some, Bool, true, false, not,
  ◌&&◌, ◌||◌, any, if◌then◌else◌, ◌=ₛ◌, ◌^^◌, is_blank, is_empty, length, has_prefix, trim_prefix,
  trim_space,
}
use devdiag.Base.Sort.{sort}
use devdiag.Base.Text.Order.{str_lt}
use devdiag.Base.Text.Split.{split, joined, has_text, has_suffix, trim_suffix}
use devdiag.Base.Text.Parts.{cut, split_text, last_of}
use devdiag.Schema.{Severity, Evidence, Finding, CollectorResult}
use devdiag.Rules.Found.{point_6, point_7, point_9, rule_finding, evidence_named, has_key}

abbrev pub trimmed_keys : List String → List String
trimmed_keys [] = []
trimmed_keys (part ∷ parts) =
    if is_blank (trim_space part) then trimmed_keys parts else trim_space part ∷ trimmed_keys parts

unfoldable pub env_keys_from_evidence : String → List String
env_keys_from_evidence value =
    if has_prefix value "keys: " then trimmed_keys (split b',' (trim_prefix value "keys: ")) else []

-- The local env keys.
unfoldable pub local_env_keys : List Evidence → List String
local_env_keys [] = []
local_env_keys (ev ∷ evs) =
    if ev.source =ₛ ".env" || ev.source =ₛ ".env.local"
    then env_keys_from_evidence ev.value ++ local_env_keys evs
    else local_env_keys evs

-- The text before the first of some separators that stands in it, and whether one does.
unfoldable pub before_first : String → List String → String × Bool
before_first inner [] = (inner, false)
before_first inner (sep ∷ seps) = elim (cut inner sep) [
  | some (a, b) ↦ (a, true)
  | none ↦ before_first inner seps
]

-- Without the characters `{` and `}` around it, where they are.
unfoldable pub braced : String → Option String
braced inner =
    if has_prefix inner "{" && has_suffix inner "}"
    then some (trim_suffix (trim_prefix inner "{") "}")
    else none

abbrev pub reference_in : String → String × Bool
reference_in inner =
    let (name, has_default) = before_first inner (":-" ∷ "-" ∷ ":+" ∷ "+" ∷ []) in
    (trim_space (before_first name (":?" ∷ "?" ∷ [])).0, has_default)

unfoldable pub parse_compose_ref : String → String × Bool
parse_compose_ref raw =
    let r = trim_space raw in
    let inner = trim_prefix r "$" in
    if has_prefix r "$"
    then elim (braced inner) [ none ↦ (inner, false) | some body ↦ reference_in body ]
    else ("", false)

-- `missingVars[varName] = append(missingVars[varName], ev)`
unfoldable pub add_missing :
    String → Evidence → List (String × List Evidence) → List (String × List Evidence)
add_missing name ev [] = (name, ev ∷ []) ∷ []
add_missing name ev ((k, evs) ∷ rest) =
    if k =ₛ name then (k, evs ++ ev ∷ []) ∷ rest else (k, evs) ∷ add_missing name ev rest

abbrev pub after_references : String → Option String
after_references value = elim (cut value " references ") [ none ↦ none | some (a, b) ↦ some b ]

abbrev pub is_compose_line : Evidence → Bool
is_compose_line ev = has_text ev.source ".yaml:" || has_text ev.source ".yml:"

-- The variable that a piece of evidence shows to be undefined.
unfoldable pub undefined_variable : List String → Evidence → Option String
undefined_variable env_keys ev =
    if is_compose_line ev
    then elim (after_references ev.value) [
      | none ↦ none
      | some raw ↦
          let (name, has_default) = parse_compose_ref raw in
          if is_blank name || (has_key env_keys name || has_default) then none else some name
    ]
    else none

unfoldable pub missing_variables :
    List String → List (String × List Evidence) → List Evidence → List (String × List Evidence)
missing_variables env_keys found [] = found
missing_variables env_keys found (ev ∷ evs) =
    missing_variables env_keys
      (elim (undefined_variable env_keys ev) [
        | none ↦ found
        | some name ↦ add_missing name ev found
      ])
      evs

abbrev pub by_name : String × List Evidence → String × List Evidence → Bool
by_name (a, x) (b, y) = str_lt a b

unfoldable pub undefined_finding : String × List Evidence → Finding
undefined_finding (name, evs) =
    rule_finding "F-ENV-002" ("Compose references env variable that may be undefined: " ^^ name)
      Severity.medium point_6
      ("Compose file references environment variable " ^^ (name ^^ " which may not be defined")) evs
      ("Variable was not found in collected local env file evidence" ∷ []) []

unfoldable pub compose_rules : CollectorResult → List CollectorResult → List Finding
compose_rules result collectors = map undefined_finding (
    sort by_name
      (missing_variables (local_env_keys (evidence_named "env" collectors)) [] result.evidence))

unfoldable pub is_safe_env_template_path : String → Bool
is_safe_env_template_path path =
    let base = last_of path (split b'/' path) in
    if base =ₛ ".env"
    then false
    else if not (has_prefix base ".env.")
    then false
    else any (has_suffix base)
        (".example" ∷ ".sample" ∷ ".template" ∷ ".dist" ∷ ".schema" ∷ ".default" ∷ ".defaults" ∷ [])

unfoldable pub risky_tracked_env_files : List String → List String
risky_tracked_env_files [] = []
risky_tracked_env_files (file ∷ files) =
    if is_blank (trim_space file) || is_safe_env_template_path (trim_space file)
    then risky_tracked_env_files files
    else trim_space file ∷ risky_tracked_env_files files

pub record GitState : Type 0 where
  pub tracked_env : List String
  pub env_ignored : Bool
  pub env_exists : Bool

unfoldable pub git_loop : GitState → List Evidence → GitState
git_loop s [] = s
git_loop s (ev ∷ evs) =
    git_loop
      (if ev.source =ₛ "git_tracked_env"
        then record s { tracked_env = risky_tracked_env_files (split_text ev.value ", ") }
        else if ev.source =ₛ "git_env_ignored"
        then record s { env_ignored = ev.value =ₛ "true" }
        else if ev.source =ₛ "git_env_exists"
        then record s { env_exists = ev.value =ₛ "true" }
        else s)
      evs

abbrev pub tracked_finding : List String → List Evidence → Finding
tracked_finding tracked evidence =
    rule_finding "F-GIT-001" ("Env file tracked by Git: " ^^ joined ", " tracked) Severity.medium
      point_9 "Environment files containing secrets are tracked in version control" evidence
      (".env file was committed to Git before being added to .gitignore" ∷ [])
      ("gitignore-env" ∷ [])

abbrev pub unignored_finding : List Evidence → Finding
unignored_finding evidence =
    rule_finding "F-GIT-002" ".env exists but is not ignored by Git" Severity.medium point_7
      ".env file is not ignored by Git and may be committed accidentally" evidence
      ("Missing .env entry in .gitignore or ignore pattern does not match" ∷ [])
      ("gitignore-env" ∷ [])

unfoldable pub git_rules : CollectorResult → List Finding
git_rules result =
    let s =
      git_loop (record { tracked_env = []; env_ignored = false; env_exists = false })
        result.evidence in
    (if is_empty s.tracked_env then [] else tracked_finding s.tracked_env result.evidence ∷ [])
    ++ (if s.env_exists && not s.env_ignored then unignored_finding result.evidence ∷ [] else [])

abbrev pub lockfile_finding : Evidence → Finding
lockfile_finding ev =
    rule_finding "F-PM-001" ("Multiple package manager lockfiles: " ^^ ev.value) Severity.medium
      point_6 "Multiple lockfiles may indicate package manager conflict or migration" (ev ∷ [])
      ("Migration between package managers" ∷ "Monorepo with different package managers" ∷ []) []

unfoldable pub repo_rules : List Evidence → List Finding
repo_rules [] = []
repo_rules (ev ∷ evs) =
    if ev.source =ₛ "lockfiles" && ltb 1 (length (split_text ev.value ", "))
    then lockfile_finding ev ∷ repo_rules evs
    else repo_rules evs

abbrev pub declared_finding : List Evidence → Finding
declared_finding evidence =
    rule_finding "F-RUNTIME-DECL-001" "Runtime version declaration discovered" Severity.info point_9
      "Project declares expected runtime versions" evidence
      ("Version pinning helps reproducibility" ∷ []) []

unfoldable pub runtime_rules : CollectorResult → List Finding
runtime_rules result =
    if is_empty result.evidence then [] else declared_finding result.evidence ∷ []

reads_ref : parse_compose_ref " ${DB_HOST:-localhost} " ≡ ("DB_HOST", true)
unfolding parse_compose_ref has_prefix trim_space braced trim_prefix has_suffix before_first cut
    trim_suffix
reads_ref = refl

reads_plain : parse_compose_ref "${DB_HOST:?required}" ≡ ("DB_HOST", false)
unfolding parse_compose_ref has_prefix trim_space braced trim_prefix has_suffix before_first cut
    trim_suffix
reads_plain = refl
