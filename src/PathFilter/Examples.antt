-- ===== src/PathFilter/Examples.antt =====
-- A build directory below a cache.
use devdiag.Base.{String, Bool, false}
use devdiag.Base.Text.Split.{split}
use devdiag.PathFilter.{project, classify_path, relative_path}
use devdiag.PathFilter.Strongest.{IsStrongest, classes_of, classify_path-IsStrongest}

abbrev no_env : String → Bool
no_env dir = false

classify_path-IsStrongest_example :
    IsStrongest project
      (classes_of no_env "/r" (split b'/' (relative_path "/r" "/r/.cache/dist/x")))
      (classify_path no_env "/r" "/r/.cache/dist/x")
classify_path-IsStrongest_example = classify_path-IsStrongest no_env "/r" "/r/.cache/dist/x"
