-- ===== src/Baseline/Create.antt =====
-- `CreateFromFindings` of internal/baseline/baseline.go. `digest` stands for the SHA-256 of a text,
-- in hexadecimal.
use devdiag.Base.{
  ℕ, String, List, [], ◌∷◌, ◌++◌, Option, Bool, ltb, is_blank, trim_space, if◌then◌else◌, ◌=ₛ◌,
  ◌^^◌,
}
use devdiag.Base.Sort.{sort}
use devdiag.Base.Text.Order.{str_lt}
use devdiag.Schema.{Severity, critical, high, medium, low, info, Finding}
use devdiag.Findings.{contains}
use devdiag.Baseline.{Entry, Baseline, fingerprint_input, schema_version_1}

pub record CreateOptions : Type 0 where
  pub reason : String
  pub created_at : ℕ
  pub created_by : String
  pub expires_at : Option ℕ
  pub min_severity : Severity
  pub use_fingerprint : Bool

-- One more than the rank of the source, whose least is -1.
unfoldable pub severity_rank : Severity → ℕ
severity_rank critical = 5
severity_rank high = 4
severity_rank medium = 3
severity_rank low = 2
severity_rank info = 1
severity_rank (Severity.other _) = 0

unfoldable pub entry_less : Entry → Entry → Bool
entry_less a b = if a.id =ₛ b.id then str_lt a.fingerprint b.fingerprint else str_lt a.id b.id

module _ (digest : String → String) where
  -- `Fingerprint`
  unfoldable pub fingerprint : Finding → String
  fingerprint f = digest (fingerprint_input f)

  unfoldable pub entry_fingerprint : CreateOptions → Finding → String
  unfolding fingerprint
  entry_fingerprint opts f = if opts.use_fingerprint then fingerprint f else ""

  unfoldable pub entry_key : CreateOptions → Finding → String
  unfolding entry_fingerprint
  entry_key opts f =
      if opts.use_fingerprint
      then trim_space f.id ^^ ":" ^^ entry_fingerprint opts f
      else trim_space f.id

  unfoldable pub entry_for : CreateOptions → Finding → Entry
  unfolding entry_fingerprint
  entry_for opts f = record {
    id = trim_space f.id;
    reason = opts.reason;
    expires_at = opts.expires_at;
    created_at = opts.created_at;
    created_by = opts.created_by;
    fingerprint = entry_fingerprint opts f;
  }

  -- The loop, with its `seen` and its `entries`.
  unfoldable pub create_loop : CreateOptions → List String → List Entry → List Finding → List Entry
  unfolding entry_key entry_for severity_rank contains
  create_loop opts seen entries [] = entries
  create_loop opts seen entries (f ∷ fs) =
      let skip = create_loop opts seen entries fs in
      let take = create_loop opts (entry_key opts f ∷ seen) (entries ++ entry_for opts f ∷ []) fs in
      if is_blank (trim_space f.id)
      then skip
      else if contains (entry_key opts f) seen
      then skip
      else if ltb (severity_rank f.severity) (severity_rank opts.min_severity)
      then skip
      else take

  unfoldable pub create_from_findings : List Finding → CreateOptions → Baseline
  unfolding create_loop entry_less sort
  create_from_findings fs opts = record {
    schema_version = schema_version_1;
    entries = sort entry_less (create_loop opts [] [] fs);
  }
