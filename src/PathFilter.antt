-- ===== src/PathFilter.antt =====
-- internal/pathfilter/pathfilter.go: which paths are part of the project. `is_virtual_env` is what
-- isVirtualEnvDir finds on the disk.
pub mod Strongest
mod Examples
use devdiag.Base.{
  is_some, if◌then◌else◌, ℕ, String, List, [], ◌∷◌, Option, none, some, Bool, true, false, ◌||◌,
  ◌&&◌, ◌=ₛ◌, ltb, is_blank, any,
}
use devdiag.Base.Text.Split.{split}
use devdiag.Fix.Paths.{FilePath, clean, path_text, join, rel}
use devdiag.Fix.Validate.{goes_above}

pub data PathClass : Type 0 where
  project dependency generated cache vcs tooling unknown : PathClass

abbrev pub dependencies : List String
dependencies = "node_modules" ∷ "vendor" ∷ ".venv" ∷ "venv" ∷ "site-packages" ∷ "Pods" ∷ []

abbrev pub caches : List String
caches =
    "__pycache__" ∷ ".pytest_cache" ∷ ".mypy_cache" ∷ ".ruff_cache" ∷ ".tox" ∷ ".nox" ∷ ".cache"
    ∷ ".parcel-cache" ∷ ".turbo" ∷ ".gradle" ∷ []

abbrev pub generated_dirs : List String
generated_dirs =
    "coverage" ∷ "dist" ∷ "build" ∷ "target" ∷ "bin" ∷ "obj" ∷ ".next" ∷ ".nuxt" ∷ ".svelte-kit"
    ∷ ".angular" ∷ "DerivedData" ∷ []

abbrev pub names : String → List String → Bool
names segment = any (λ n. n =ₛ segment)

-- `segmentClasses[segment]`
unfoldable pub segment_class : String → Option PathClass
segment_class segment =
    if segment =ₛ ".git"
    then some vcs
    else if segment =ₛ ".devdiag"
    then some tooling
    else if names segment dependencies
    then some dependency
    else if names segment caches
    then some cache
    else if names segment generated_dirs
    then some generated
    else none

-- `ShouldSkipDir`
unfoldable pub should_skip_dir : String → Bool
should_skip_dir name = is_some (segment_class name)

unfoldable pub class_priority : PathClass → ℕ
class_priority dependency = 5
class_priority generated = 4
class_priority cache = 3
class_priority vcs = 2
class_priority tooling = 1
class_priority project = 0
class_priority unknown = 0

abbrev pub or_virtual_env : Bool → Option PathClass → Option PathClass
or_virtual_env is_env (some class) = some class
or_virtual_env is_env none = if is_env then some dependency else none

-- the class of a segment at the end of a path, where it has one
unfoldable pub class_at : (String → Bool) → String → String → Option PathClass
class_at is_virtual_env path segment =
    or_virtual_env ((segment =ₛ "env" || segment =ₛ "ENV") && is_virtual_env path)
      (segment_class segment)

abbrev pub stronger : PathClass → Option PathClass → PathClass
stronger class none = class
stronger class (some found) =
    if ltb (class_priority class) (class_priority found) then found else class

unfoldable pub classify_segments : (String → Bool) → String → List String → PathClass → PathClass
classify_segments is_virtual_env prefix [] class = class
classify_segments is_virtual_env prefix (segment ∷ segments) class =
    let path = join prefix segment in
    let skipped = classify_segments is_virtual_env prefix segments class in
    let taken =
      classify_segments is_virtual_env path segments
        (stronger class (class_at is_virtual_env path segment)) in
    if is_blank segment || segment =ₛ "." then skipped else taken

abbrev pub relative_or : FilePath → Option FilePath → String
relative_or path none = path_text path
relative_or path (some r) = if goes_above r.parts then path_text path else path_text r

unfoldable pub relative_path : String → String → String
relative_path root path =
    relative_or (clean path) (rel (clean (if is_blank root then "." else root)) (clean path))

-- `ClassifyPath`
unfoldable pub classify_path : (String → Bool) → String → String → PathClass
classify_path is_virtual_env root path =
    let r = relative_path root path in
    if is_blank r || r =ₛ "."
    then project
    else classify_segments is_virtual_env root (split b'/' r) project

abbrev pub is_skipped : PathClass → Bool
is_skipped project = false
is_skipped unknown = false
is_skipped _ = true

-- `ShouldSkipPath`
unfoldable pub should_skip_path : (String → Bool) → String → String → Bool
should_skip_path is_virtual_env root path = is_skipped (classify_path is_virtual_env root path)
