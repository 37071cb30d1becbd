-- ===== src/Baseline/Edits.antt =====
-- What `Add` and `Remove` keep and change.
use devdiag.Base.Text.Trim.{is_blank-stored}
use devdiag.Base.{
  refl, ◌∙◌, eq_iff, inl, inr, if◌then◌else◌, count, is_blank, Option-cases, suc, ℕ, ◌<◌, String,
  List, [], ◌∷◌, none, Bool, true, false, not, ◌&&◌, ◌≡◌, arith,
}
use devdiag.Baseline.{
  schema_version_1, is_valid_fingerprint, Entry, Baseline, entry_problem, entries_problem, validate,
  added, replace_entry, store_entry, normal_entry, stamped, versioned, add,
}
use devdiag.Baseline.Entries.{count-put_back, or_one, keyed, put_back}

pub entry_problem-none : (i j : ℕ) (e : Entry) → entry_problem i e ≡ none → entry_problem j e ≡ none
unfolding entry_problem
entry_problem-none i j e h = ground arith

entries_problem-put_back :
    (i : ℕ) (entry : Entry) (es : List Entry)
    → entry_problem 0 entry ≡ none
    → entries_problem i es ≡ none
    → entries_problem i (put_back entry es (replace_entry entry es)) ≡ none
unfolding entries_problem replace_entry
entries_problem-put_back i entry [] h k = ground (arith, entry_problem-none 0 i entry h)
entries_problem-put_back i entry (e ∷ es) h k =
    ground (arith, entries_problem-put_back (suc i) entry es, entry_problem-none 0 i entry h)

store_entry-put_back :
    (b : Baseline) (entry : Entry)
    → (updated : Bool) × (store_entry b entry
        ≡ added
            (record b { entries = put_back entry b.entries (replace_entry entry b.entries) })
            updated)
unfolding store_entry
store_entry-put_back b entry = elim (Option-cases (replace_entry entry b.entries)) [
  | inl e ↦ (false, ground arith)
  | inr (es, e) ↦ (true, ground arith)
]

validate-none :
    (b : Baseline)
    → validate b ≡ none
    → (b.schema_version ≡ schema_version_1) × (entries_problem 0 b.entries ≡ none)
unfolding validate
validate-none b h = (ground (arith, eq_iff b.schema_version schema_version_1), ground arith)

pub none-validate :
    (b : Baseline)
    → b.schema_version ≡ schema_version_1
    → entries_problem 0 b.entries ≡ none
    → validate b ≡ none
unfolding validate
none-validate b e h = rw (e, h) refl

version-versioned :
    (b : Baseline)
    → b.schema_version ≡ schema_version_1
    → (versioned b).schema_version ≡ schema_version_1
version-versioned b e = rw e refl

abbrev pub stored : Entry → ℕ → Entry
stored given now = stamped now (normal_entry given)

module _ (b : Baseline) (given : Entry) (now : ℕ) {b' : Baseline} {updated : Bool}
    (done : add b given now ≡ added b' updated) where
  pub fields_ok :
      (is_blank (normal_entry given).id ≡ false)
      × (not (is_blank given.fingerprint) && not (is_valid_fingerprint given.fingerprint) ≡ false)
      × (store_entry (versioned b) (stored given now) ≡ added b' updated)
  unfolding add
  fields_ok = (ground arith, ground arith, ground arith)

  pub entries-add :
      b'.entries
      ≡ put_back (stored given now) b.entries (replace_entry (stored given now) b.entries)
  entries-add =
      ground (arith, fields_ok.2, (store_entry-put_back (versioned b) (stored given now)).1)

  pub version-add : b'.schema_version ≡ (versioned b).schema_version
  version-add =
      ground (arith, fields_ok.2, (store_entry-put_back (versioned b) (stored given now)).1)

  entry_problem-stored : 0 < now → entry_problem 0 (stored given now) ≡ none
  unfolding entry_problem normal_entry
  entry_problem-stored h = ground (arith, fields_ok.0, fields_ok.1, is_blank-stored given.id)

  -- A valid file stays valid under each addition that is accepted.
  pub validate-add : validate b ≡ none → 0 < now → validate b' ≡ none
  validate-add v h =
      let (version, clean) = validate-none b v in
      none-validate b' (version-add ∙ version-versioned b version) (
        rw entries-add
          (entries_problem-put_back 0 (stored given now) b.entries (entry_problem-stored h) clean))

  -- An accepted entry's ID and fingerprint stand in the file once, or as often as they did, and
  -- every other ID and fingerprint as often as before.
  pub count-entries-add :
      (id fp : String)
      → count (keyed id fp) b'.entries ≡ (
          if keyed id fp (normal_entry given)
          then or_one (count (keyed id fp) b.entries)
          else count (keyed id fp) b.entries)
  count-entries-add id fp = rw entries-add (count-put_back id fp (stored given now) b.entries)
