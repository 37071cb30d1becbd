-- ===== src/Rules/Env/Agree.antt =====
-- The two rules on missing keys judge a key alike: the one for a file that lacks keys and the one for
-- a file that is not there.
use devdiag.Base.Text.Parts.{trim_prefix-append, has_prefix-append, split_text, split_from}
use devdiag.Base.Text.Split.{on_first}
use mathlib.Core.List.{append-nil}
use Prim.Native.Char.{Char}
use devdiag.Base.{
  ◌++◌, Bool-cases, if◌then◌else◌, ℕ, has_prefix, zero, suc, inl, inr, String, List, [], ◌∷◌, Bool,
  false, ◌&&◌, ◌||◌, ◌≡◌, refl, arith, any, is_empty, ◌^^◌, ◌=ₛ◌,
}
use devdiag.Schema.{Finding, CollectorResult}
use devdiag.Rules.Found.{observed}
use devdiag.Rules.Env.{
  absent_finding, env_config, absent_findings, missing_key_findings, Evidence, env_step, EnvConfig,
  classify_key, is_missing, is_optional, keys_of, active_keys, all_optional, env_rules,
  missing_finding, optional_finding,
}

module _ (c : EnvConfig) where
  is_empty-active_keys :
      (ks : List String)
      → is_empty (active_keys c ks)
        ≡ (is_empty (keys_of is_missing c ks) && is_empty (keys_of is_optional c ks))
  unfolding active_keys keys_of classify_key
  is_empty-active_keys [] = refl
  is_empty-active_keys (k ∷ ks) = ground (arith, is_empty-active_keys ks)

  all_optional-active_keys :
      (ks : List String) → all_optional c (active_keys c ks) ≡ is_empty (keys_of is_missing c ks)
  unfolding active_keys all_optional keys_of classify_key
  all_optional-active_keys [] = refl
  all_optional-active_keys (k ∷ ks) = ground (arith, all_optional-active_keys ks)

-- Whether a finding has an ID.
abbrev pub reports : String → List Finding → Bool
reports id fs = any (λ f. f.id =ₛ id) fs

-- The evidence of a repository without .env whose .env.example has keys.
abbrev pub without_env : CollectorResult → String → CollectorResult
without_env r keys = record r {
  evidence = observed ".env" "missing" ∷ observed ".env.example" ("keys: " ^^ keys) ∷ [];
}

-- The evidence of a repository whose .env lacks keys.
abbrev pub lacking : CollectorResult → String → CollectorResult
lacking r keys = record r { evidence = observed "missing_keys" keys ∷ [] }

is_empty-on_first : (c : Char) (ps : List String) → is_empty (on_first c ps) ≡ false
is_empty-on_first c [] = refl
is_empty-on_first c (p ∷ ps) = refl

-- A text has a part, whatever the separator.
is_empty-split_from : (sep : String) (n : ℕ) (s : String) → is_empty (split_from sep n s) ≡ false
unfolding split_from
is_empty-split_from sep n String.[] = refl
is_empty-split_from sep zero (String.◌∷◌ c s) =
    elim (Bool-cases (has_prefix (String.◌∷◌ c s) sep)) [
      | inl e ↦ rw e refl
      | inr e ↦ rw e (is_empty-on_first c (split_from sep 0 s))
    ]
is_empty-split_from sep (suc n) (String.◌∷◌ c s) = is_empty-split_from sep n s

env_rules-without :
    (r : CollectorResult) (collectors : List CollectorResult) (keys : String)
    → env_rules (without_env r keys) collectors ≡ (
        let c = env_config collectors in
        let active = active_keys c (split_text keys ", ") in
        if is_empty active
        then []
        else absent_finding (all_optional c active) (without_env r keys).evidence ∷ [])
unfolding env_rules env_step absent_findings split_text
env_rules-without r collectors keys =
    rw (has_prefix-append, trim_prefix-append, is_empty-split_from)

env_rules-lacking :
    (r : CollectorResult) (collectors : List CollectorResult) (keys : String)
    → env_rules (lacking r keys) collectors ≡ missing_key_findings (env_config collectors) keys
unfolding env_rules env_step absent_findings
env_rules-lacking r collectors keys = append-nil _

agree :
    (c : EnvConfig) (ks : List String) (evidence : List Evidence)
    → let one =
        if is_empty (active_keys c ks)
        then []
        else absent_finding (all_optional c (active_keys c ks)) evidence ∷ [] in
      let other =
        missing_finding (keys_of is_missing c ks) ++ optional_finding (keys_of is_optional c ks) in
      (reports "F-ENV-001" one ≡ reports "F-ENV-001" other)
      × ((reports "F-ENV-001" one || reports "F-ENV-001-OPTIONAL" one)
          ≡ (reports "F-ENV-001" other || reports "F-ENV-001-OPTIONAL" other))
agree c ks evidence =
    rw (is_empty-active_keys c ks, all_optional-active_keys c ks)
      (cases (keys_of is_missing c ks) (keys_of is_optional c ks))
  where
    cases :
        (ms os : List String)
        → let one =
            if is_empty ms && is_empty os then [] else absent_finding (is_empty ms) evidence ∷ [] in
          let other = missing_finding ms ++ optional_finding os in
          (reports "F-ENV-001" one ≡ reports "F-ENV-001" other)
          × ((reports "F-ENV-001" one || reports "F-ENV-001-OPTIONAL" one)
              ≡ (reports "F-ENV-001" other || reports "F-ENV-001-OPTIONAL" other))
    cases [] [] = (refl, refl)
    cases [] (o ∷ os) = (refl, refl)
    cases (m ∷ ms) [] = (refl, refl)
    cases (m ∷ ms) (o ∷ os) = (refl, refl)

-- Whatever the configuration and the list of keys: where .env is not there the rule reports a missing
-- key exactly if it does where .env lacks these keys; and it reports one or the other of its two IDs
-- exactly if it does there.
pub env_rules_agree :
    (r : CollectorResult) (collectors : List CollectorResult) (keys : String)
    → (reports "F-ENV-001" (env_rules (without_env r keys) collectors)
        ≡ reports "F-ENV-001" (env_rules (lacking r keys) collectors))
      × ((reports "F-ENV-001" (env_rules (without_env r keys) collectors)
            || reports "F-ENV-001-OPTIONAL" (env_rules (without_env r keys) collectors))
          ≡ (reports "F-ENV-001" (env_rules (lacking r keys) collectors)
              || reports "F-ENV-001-OPTIONAL" (env_rules (lacking r keys) collectors)))
env_rules_agree r collectors keys =
    rw (env_rules-without, env_rules-lacking)
      (unfold missing_key_findings in
        agree (env_config collectors) (split_text keys ", ") (without_env r keys).evidence)
