-- ===== src/Rules/Hardware/Caches.antt =====
-- internal/rules/m6engine.go: the caches of package managers and of Docker.
use devdiag.Base.{
  ◌==◌, String, List, [], ◌∷◌, ◌++◌, Option, some, Bool, false, not, ◌&&◌, ◌=ₛ◌, ◌^^◌, is_blank,
}
use devdiag.Base.Number.{ℤ, pos, atoi}
use devdiag.Schema.{Severity, Finding}
use devdiag.Rules.Found.{point_5, point_7, rule_finding, observed}
use devdiag.Rules.Host.{has_value, given, value_at}

abbrev pub cache_tools : List String
cache_tools = "pip" ∷ "uv" ∷ "poetry" ∷ "npm" ∷ "pnpm" ∷ "go" ∷ []

abbrev pub cache_key : String → String → String
cache_key tool field = "cache_" ^^ (tool ^^ ("_" ^^ field))

abbrev pub unwritable_finding : String → String → Finding
unwritable_finding tool path =
    rule_finding "F-CACHE-001" "Package cache not writable" Severity.low point_7
      (tool ^^ " cache directory is not writable by current user")
      (observed "cache_tool" tool ∷ observed "cache_path" path ∷ [])
      ("Cache owned by root or another user" ∷ []) ("fix-cache-permissions" ∷ [])

abbrev pub root_owned_finding : String → String → Finding
root_owned_finding tool path =
    rule_finding "F-CACHE-002" "Package cache appears root-owned" Severity.low point_7
      (tool ^^ " cache directory is owned by root")
      (observed "cache_tool" tool
        ∷ observed "cache_path" path
        ∷ observed "cache_owner_uid" "0"
        ∷ [])
      ("Cache was created by a previous sudo/root package-manager invocation" ∷ [])
      ("fix-cache-permissions" ∷ [])

abbrev pub is_root_uid : Option ℤ → Bool
is_root_uid (some (pos n)) = n == 0
is_root_uid _ = false

unfoldable pub unwritable_caches : List (String × String) → List String → List Finding
unwritable_caches m [] = []
unwritable_caches m (t ∷ ts) =
    given (value_at (cache_key t "writable") m =ₛ "false" && has_value (cache_key t "path") m)
      (unwritable_finding t (value_at (cache_key t "path") m))
    ++ unwritable_caches m ts

unfoldable pub root_owned_caches : List (String × String) → List String → List Finding
root_owned_caches m [] = []
root_owned_caches m (t ∷ ts) =
    given
      (has_value (cache_key t "path") m
        && is_root_uid (atoi (value_at (cache_key t "owner_uid") m)))
      (root_owned_finding t (value_at (cache_key t "path") m))
    ++ root_owned_caches m ts

abbrev pub docker_cache_finding : String → Finding
docker_cache_finding size =
    rule_finding "F-CACHE-003" "Docker cache present" Severity.low point_5
      ("Docker cache size: " ^^ size) [] ("Accumulated image layers and build cache" ∷ [])
      ("warn-docker-cleanup" ∷ [])

unfoldable pub cache_findings : List (String × String) → List Finding
cache_findings m =
    let size = value_at "cache_docker_size_mb" m in
    unwritable_caches m cache_tools
    ++ (root_owned_caches m cache_tools
        ++ given (not (is_blank size) && not (size =ₛ "unknown")) (docker_cache_finding size))
