-- ===== src/Classifier/Rules.antt =====
-- internal/repro/classifier/classifier.go: the built-in rules.
use devdiag.Base.{ℕ, String, List, [], ◌∷◌, Bool, false}

pub record Rule : Type 0 where
  pub id : String
  pub kind : String
  pub patterns : List String
  pub source_stream : String
  pub confidence : ℕ
  pub case_sensitive : Bool

abbrev permission_denied : Rule
permission_denied = record {
  id = "perm-denied-001";
  kind = "permission_denied";
  patterns = "permission denied" ∷ "EACCES" ∷ "Operation not permitted" ∷ [];
  source_stream = "any";
  confidence = 0x3fe6666666666666;
  case_sensitive = false;
}

abbrev missing_file : Rule
missing_file = record {
  id = "missing-file-001";
  kind = "missing_file";
  patterns = "No such file or directory" ∷ "ENOENT" ∷ "command not found" ∷ [];
  source_stream = "any";
  confidence = 0x3fe6666666666666;
  case_sensitive = false;
}

abbrev address_in_use : Rule
address_in_use = record {
  id = "addr-in-use-001";
  kind = "address_in_use";
  patterns = "address already in use" ∷ "EADDRINUSE" ∷ "bind: Address already in use" ∷ [];
  source_stream = "any";
  confidence = 0x3feccccccccccccd;
  case_sensitive = false;
}

abbrev connection_refused : Rule
connection_refused = record {
  id = "conn-refused-001";
  kind = "connection_refused";
  patterns = "connection refused" ∷ "ECONNREFUSED" ∷ "Connection refused" ∷ [];
  source_stream = "any";
  confidence = 0x3fe6666666666666;
  case_sensitive = false;
}

abbrev runtime_version_failure : Rule
runtime_version_failure = record {
  id = "runtime-version-001";
  kind = "runtime_version_failure";
  patterns =
      "current node.js version" ∷ "requires node.js" ∷ "unsupported engine"
      ∷ "engine \"node\" is incompatible" ∷ "engine \"npm\" is incompatible" ∷ "requires python"
      ∷ "requires go" ∷ "go.mod requires go" ∷ "requires rust" ∷ "requires .net" ∷ [];
  source_stream = "any";
  confidence = 0x3fe6666666666666;
  case_sensitive = false;
}

abbrev dependency_failure : Rule
dependency_failure = record {
  id = "dep-fail-001";
  kind = "dependency_failure";
  patterns = "npm ERR!" ∷ "pip failed" ∷ "go: module" ∷ "unresolved import" ∷ "cannot resolve" ∷ [];
  source_stream = "any";
  confidence = 0x3fe3333333333333;
  case_sensitive = false;
}

abbrev compose_config_error : Rule
compose_config_error = record {
  id = "compose-config-001";
  kind = "compose_config_error";
  patterns =
      "interpolation" ∷ "Invalid interpolation" ∷ "compose config" ∷ "docker compose config" ∷ [];
  source_stream = "any";
  confidence = 0x3fe3333333333333;
  case_sensitive = false;
}

abbrev pub default_rules : List Rule
default_rules =
    permission_denied ∷ missing_file ∷ address_in_use ∷ connection_refused ∷ runtime_version_failure
    ∷ dependency_failure ∷ compose_config_error ∷ []
