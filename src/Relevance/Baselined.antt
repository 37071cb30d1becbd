-- ===== src/Relevance/Baselined.antt =====
-- A snapshot of a report's findings hides them in the reports that follow.
use devdiag.Baseline.Snapshot.{create_count, All-create, is_wanted, key_of, is_keyed}
use devdiag.Baseline.Create.{
  create_from_findings, fingerprint, entry_key, entry_fingerprint, entry_for, CreateOptions,
}
use devdiag.Base.Text.Join.{join_sep_inj, lacks}
use Prim.Native.Char.{Char}
use mathlib.Core.List.{append_assoc, append-nil}
use devdiag.Base.{
  All-both, count_pick, All-map, inr, any, ap, inl, Bool-cases, trim_space, ◌=ₛ◌, ◌∙◌,
  if◌then◌else◌, sym, eq_iff, ℕ, String, List, [], ◌∷◌, ◌++◌, none, some, Bool, true, false, not,
  ◌≡◌, refl, arith, is_some, is_blank,
}
use devdiag.Base.Lists.{All}
use devdiag.Baseline.{
  active_entries, fingerprint_input, is_valid_fingerprint, all_hex, Entry, is_expired, active_loop,
}
use devdiag.Relevance.{
  apply_baseline, is_hidden, Finding, Reasons, Policy, reason_for, set_reason, suggest_reason,
  apply_entry, apply_entries,
}

reason_for-set_reason :
    (j key reason : String) (m : Reasons)
    → reason_for j (set_reason key reason m) ≡ (if key =ₛ j then some reason else reason_for j m)
unfolding reason_for set_reason
reason_for-set_reason j key reason [] = refl
reason_for-set_reason j key reason ((k, r) ∷ m) =
    ground (arith, reason_for-set_reason j key reason m, eq_iff k key, eq_iff k j, eq_iff key j)

-- A suggested reason is new only for a key that has none.
pub reason_for-suggest_reason :
    (j key reason : String) (m : Reasons)
    → reason_for j (suggest_reason key reason m) ≡ (
        if is_some (reason_for j m) then reason_for j m else if key =ₛ j then some reason else none)
unfolding suggest_reason
reason_for-suggest_reason j key reason m =
    ground (arith, reason_for-set_reason j key reason m, eq_iff key j)

-- Whether the policy suppresses an entry's fingerprint or, where it has none, its ID.
abbrev suppresses : Policy → Entry → Bool
suppresses policy e =
    if not (is_blank e.fingerprint)
    then is_some (reason_for e.fingerprint policy.suppressed_fingerprints)
    else is_some (reason_for e.id policy.suppressed_ids)

suppresses-apply_entry :
    (policy : Policy) (d e : Entry)
    → suppresses policy e ≡ true
    → suppresses (apply_entry policy d) e ≡ true
unfolding apply_entry
suppresses-apply_entry policy d e h = ground (
  arith,
  reason_for-suggest_reason e.fingerprint d.fingerprint d.reason policy.suppressed_fingerprints,
  reason_for-suggest_reason e.id d.id d.reason policy.suppressed_ids,
)

include_hidden-apply_entry :
    (q : Policy) (e : Entry) → (apply_entry q e).include_hidden ≡ q.include_hidden
unfolding apply_entry
include_hidden-apply_entry q e = ground arith

is_expired-eq :
    (now : ℕ) (d e : Entry) → d.expires_at ≡ e.expires_at → is_expired now d ≡ is_expired now e
unfolding is_expired
is_expired-eq now d e h = rw h refl

suppresses_self : (policy : Policy) (e : Entry) → suppresses (apply_entry policy e) e ≡ true
unfolding apply_entry
suppresses_self policy e = ground (
  arith,
  reason_for-suggest_reason e.fingerprint e.fingerprint e.reason policy.suppressed_fingerprints,
  reason_for-suggest_reason e.id e.id e.reason policy.suppressed_ids,
  eq_iff e.fingerprint e.fingerprint,
  eq_iff e.id e.id,
)

suppresses-apply_entries :
    (policy : Policy) (e : Entry) (es : List Entry)
    → suppresses policy e ≡ true
    → suppresses (apply_entries policy es) e ≡ true
unfolding apply_entries
suppresses-apply_entries policy e [] h = h
suppresses-apply_entries policy e (d ∷ es) h =
    suppresses-apply_entries (apply_entry policy d) e es (suppresses-apply_entry policy d e h)

All-suppresses :
    (policy : Policy) (es : List Entry)
    → All (λ e. suppresses (apply_entries policy es) e ≡ true) es
unfolding apply_entries
All-suppresses policy [] = tt
All-suppresses policy (e ∷ es) = (
  suppresses-apply_entries (apply_entry policy e) e es (suppresses_self policy e),
  All-suppresses (apply_entry policy e) es,
)

active_loop-All :
    (now : ℕ) (es active : List Entry)
    → All (λ e. is_expired now e ≡ false) es
    → active_loop now es active ≡ active ++ es
unfolding active_loop
active_loop-All now [] active h = sym (append-nil active)
active_loop-All now (e ∷ es) active h =
    rw h.0 (active_loop-All now es (active ++ e ∷ []) h.1 ∙ append_assoc active (e ∷ []) es)

abbrev colon : Char
colon = ":"

all_hex-lacks : (s : String) → all_hex s ≡ true → lacks colon s ≡ true
unfolding all_hex lacks
all_hex-lacks String.[] h = refl
all_hex-lacks (String.◌∷◌ c s) h = ground (arith, all_hex-lacks s)

valid-lacks : (s : String) → is_valid_fingerprint s ≡ true → lacks colon s ≡ true
unfolding is_valid_fingerprint
valid-lacks s h = all_hex-lacks s (ground arith)

valid_not_blank : (s : String) → is_valid_fingerprint s ≡ true → is_blank s ≡ false
unfolding is_valid_fingerprint
valid_not_blank String.[] h = cc
valid_not_blank (String.◌∷◌ c s) h = refl

module _ (digest : String → String)
    (is_digest : (s : String) → is_valid_fingerprint (digest s) ≡ true) (policy : Policy)
    (opts : CreateOptions) (now : ℕ) where
  -- What the entries of a snapshot have in common.
  record IsEntry (e : Entry) : Type 0 where
    expiry : e.expires_at ≡ opts.expires_at
    valid : opts.use_fingerprint ≡ true → is_valid_fingerprint e.fingerprint ≡ true
    blank : opts.use_fingerprint ≡ false → is_blank e.fingerprint ≡ true

  IsEntry-entry_for : (f : Finding) → IsEntry (entry_for digest opts f)
  unfolding entry_for entry_fingerprint
  IsEntry-entry_for f = record {
    expiry = refl;
    valid = λ h. rw h (is_digest (fingerprint_input f));
    blank = λ h. rw h refl;
  }

  -- An entry with the finding's key has its fingerprint, or its ID where there are none.
  entry_key_same :
      (f : Finding) (e : Entry)
      → is_keyed digest opts (entry_key digest opts f) e ≡ true
      → IsEntry e
      → (opts.use_fingerprint ≡ true → e.fingerprint ≡ fingerprint digest f)
        × (opts.use_fingerprint ≡ false → e.id ≡ trim_space f.id)
  unfolding entry_key entry_fingerprint fingerprint
  entry_key_same f e k ie = (
    λ u.
        let split =
          join_sep_inj colon e.id (trim_space f.id) e.fingerprint (digest (fingerprint_input f))
            (valid-lacks e.fingerprint (ie.valid u))
            (valid-lacks (digest (fingerprint_input f)) (is_digest (fingerprint_input f)))
            (rw u at same) in
        split.1,
    λ u. rw u at same,
  )
    where
      same : key_of digest opts e ≡ entry_key digest opts f
      same = (eq_iff (key_of digest opts e) (entry_key digest opts f)).0 k

  suppresses_finding :
      (q : Policy) (f : Finding) (e : Entry)
      → f.id ≡ trim_space f.id
      → q.include_hidden ≡ false
      → is_keyed digest opts (entry_key digest opts f) e ≡ true
      → IsEntry e
      → suppresses q e ≡ true
      → is_hidden digest f q ≡ true
  unfolding is_hidden
  suppresses_finding q f e trimmed shown k ie s = elim (Bool-cases opts.use_fingerprint) [
    | inl u ↦
        let same = (entry_key_same f e k ie).0 u in
        ground (
          arith,
          valid_not_blank e.fingerprint (ie.valid u),
          ap (λ t. reason_for t q.suppressed_fingerprints) same,
        )
    | inr u ↦
        let same = (entry_key_same f e k ie).1 u in
        ground (arith, ie.blank u, ap (λ t. reason_for t q.suppressed_ids) (same ∙ sym trimmed))
  ]

  include_hidden-apply_entries :
      (q : Policy) (es : List Entry) → (apply_entries q es).include_hidden ≡ q.include_hidden
  unfolding apply_entries
  include_hidden-apply_entries q [] = refl
  include_hidden-apply_entries q (e ∷ es) =
      include_hidden-apply_entries (apply_entry q e) es ∙ include_hidden-apply_entry q e

  -- A snapshot whose entries have not expired hides each finding that has the ID, and with
  -- fingerprints the symptom, of one that it took, whatever else the policy says, unless the policy
  -- shows hidden findings.
  pub snapshot_hides :
      (fs : List Finding) (f : Finding)
      → any (is_wanted digest opts (entry_key digest opts f)) fs ≡ true
      → f.id ≡ trim_space f.id
      → policy.include_hidden ≡ false
      → is_expired now (entry_for digest opts f) ≡ false
      → is_hidden digest f (apply_baseline policy (create_from_findings digest fs opts) now) ≡ true
  unfolding apply_baseline active_entries
  snapshot_hides fs f wanted trimmed shown live =
      let es = (create_from_findings digest fs opts).entries in
      let common = All-create digest IsEntry fs opts (λ g _. IsEntry-entry_for g) in
      rw
        (active_loop-All now es [] (
          All-map IsEntry _ es
            (λ e ie.
              is_expired-eq now e (entry_for digest opts f)
                (ie.expiry ∙ sym (IsEntry-entry_for f).expiry)
              ∙ live)
            common))
        (count_pick (is_keyed digest opts (entry_key digest opts f)) _ es
          (ground (arith, create_count digest fs opts (entry_key digest opts f)))
          (All-both _ _ es common (All-suppresses policy es))
          (λ e k h.
            suppresses_finding (apply_entries policy es) f e trimmed
              (include_hidden-apply_entries policy es ∙ shown) k h.0 h.1))
