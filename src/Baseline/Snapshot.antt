-- ===== src/Baseline/Snapshot.antt =====
-- A snapshot of findings: one entry for each of them that is severe enough, in order, and a valid file.
use devdiag.Base.Text.Trim.{all_space-trim_space, is_blank-trim_space}
use devdiag.Findings.{contains}
use devdiag.Base.Sort.{All-sort, StrictWeak, IsSorted, sort-IsSorted}
use devdiag.Base.Text.Order.{str_lt_asym, str_lt_neg_trans, str_lt_total}
use devdiag.Base.{
  All-append, ◌++◌, inr, inl, Bool-cases, none, ◌<◌, ◌∷◌, refl, true, All, ℕ, if◌then◌else◌, false,
  suc, ◌+◌, any, count, ◌=ₛ◌, ◌^^◌, String, List, [], Bool, not, ◌&&◌, ◌≡◌, arith, eq_iff, is_blank,
  trim_space, ltb,
}
use devdiag.Baseline.Edits.{none-validate, entry_problem-none}
use devdiag.Base.Lists.{count-append}
use devdiag.Base.Sort.{count-sort}
use devdiag.Schema.{Finding}
use devdiag.Baseline.{
  validate, entry_problem, is_valid_fingerprint, entries_problem, fingerprint_input, Entry,
}
use devdiag.Baseline.Create.{
  entry_fingerprint, entry_key, entry_for, CreateOptions, severity_rank, entry_less, create_loop,
  create_from_findings,
}

All-entries_problem :
    (i : ℕ) (es : List Entry) → All (λ e. entry_problem 0 e ≡ none) es → entries_problem i es ≡ none
unfolding entries_problem
All-entries_problem i [] h = refl
All-entries_problem i (e ∷ es) h =
    rw (entry_problem-none 0 i e h.0, entries_problem) (All-entries_problem (suc i) es h.1)

entry_less-StrictWeak : StrictWeak entry_less
unfolding entry_less
entry_less-StrictWeak = record {
  asym = λ a b h. ground (
    arith,
    eq_iff a.id b.id,
    eq_iff b.id a.id,
    str_lt_asym a.id b.id,
    str_lt_asym a.fingerprint b.fingerprint,
  );
  neg_trans = λ a b c h k. ground (
    arith,
    eq_iff b.id a.id,
    eq_iff a.id b.id,
    eq_iff c.id b.id,
    eq_iff c.id a.id,
    str_lt_neg_trans a.fingerprint b.fingerprint c.fingerprint,
    str_lt_neg_trans a.id b.id c.id,
    str_lt_total b.id a.id,
    str_lt_total a.id b.id,
    str_lt_total c.id b.id,
  );
}

module _ (digest : String → String) where
  -- A snapshot's entries are in order of ID, then fingerprint.
  pub create-IsSorted :
      (fs : List Finding) (opts : CreateOptions)
      → IsSorted entry_less (create_from_findings digest fs opts).entries
  unfolding create_from_findings
  create-IsSorted fs opts = sort-IsSorted entry_less-StrictWeak (create_loop digest opts [] [] fs)

  -- The finding is one that a snapshot takes.
  abbrev pub is_taken : CreateOptions → Finding → Bool
  is_taken opts f =
      not (is_blank (trim_space f.id))
      && not (ltb (severity_rank f.severity) (severity_rank opts.min_severity))

  -- The key of an entry, as a snapshot that uses fingerprints or not tells entries apart.
  abbrev pub key_of : CreateOptions → Entry → String
  key_of opts e = if opts.use_fingerprint then e.id ^^ ":" ^^ e.fingerprint else e.id

  key_of-entry_for :
      (opts : CreateOptions) (f : Finding)
      → key_of opts (entry_for digest opts f) ≡ entry_key digest opts f
  unfolding entry_for entry_key
  key_of-entry_for opts f = refl

  abbrev pub is_keyed : CreateOptions → String → Entry → Bool
  is_keyed opts k e = key_of opts e =ₛ k

  -- The finding is one that a snapshot takes, and has the key.
  abbrev pub is_wanted : CreateOptions → String → Finding → Bool
  is_wanted opts k f = is_taken opts f && entry_key digest opts f =ₛ k

  count-create_loop :
      (opts : CreateOptions) (k : String) (seen : List String) (entries : List Entry)
      (fs : List Finding)
      → count (is_keyed opts k) (create_loop digest opts seen entries fs)
        ≡ count (is_keyed opts k) entries
          + (if contains k seen then 0 else if any (is_wanted opts k) fs then 1 else 0)
  unfolding create_loop contains
  count-create_loop opts k seen entries [] = ground arith
  count-create_loop opts k seen entries (f ∷ fs) = ground (
    arith,
    count-create_loop opts k seen entries fs,
    count-create_loop opts k (entry_key digest opts f ∷ seen)
        (entries ++ entry_for digest opts f ∷ []) fs,
    count-append (is_keyed opts k) entries (entry_for digest opts f ∷ []),
    key_of-entry_for opts f,
    eq_iff (entry_key digest opts f) k,
  )

  -- A key has one entry where some finding with it is severe enough, and none otherwise.
  pub create_count :
      (fs : List Finding) (opts : CreateOptions) (k : String)
      → count (is_keyed opts k) (create_from_findings digest fs opts).entries
        ≡ (if any (is_wanted opts k) fs then 1 else 0)
  unfolding create_from_findings
  create_count fs opts k =
      rw
        (
          count-sort entry_less (is_keyed opts k) (create_loop digest opts [] [] fs),
          count-create_loop opts k [] [] fs,
        )
        (unfold contains in ground arith)

  All-create_loop :
      (P : Entry → Type 0) (opts : CreateOptions) (seen : List String) (entries : List Entry)
      (fs : List Finding)
      → ((f : Finding) → is_blank (trim_space f.id) ≡ false → P (entry_for digest opts f))
      → All P entries
      → All P (create_loop digest opts seen entries fs)
  unfolding create_loop
  All-create_loop P opts seen entries [] new h = h
  All-create_loop P opts seen entries (f ∷ fs) new h =
      elim (Bool-cases (is_blank (trim_space f.id))) [
        | inl blank ↦ rw blank (All-create_loop P opts seen entries fs new h)
        | inr id ↦ rw id (elim (Bool-cases (contains (entry_key digest opts f) seen)) [
          | inl old ↦ rw old (All-create_loop P opts seen entries fs new h)
          | inr first ↦
              rw first
                (elim (Bool-cases
                  (ltb (severity_rank f.severity) (severity_rank opts.min_severity))) [
                    | inl low ↦ rw low (All-create_loop P opts seen entries fs new h)
                    | inr enough ↦ rw enough (
                        All-create_loop P opts (entry_key digest opts f ∷ seen)
                          (entries ++ entry_for digest opts f ∷ []) fs new
                          (All-append P entries (entry_for digest opts f ∷ []) h (new f id, tt)))
                  ])
        ])
      ]

  pub All-create :
      (P : Entry → Type 0) (fs : List Finding) (opts : CreateOptions)
      → ((f : Finding) → is_blank (trim_space f.id) ≡ false → P (entry_for digest opts f))
      → All P (create_from_findings digest fs opts).entries
  unfolding create_from_findings
  All-create P fs opts new =
      All-sort entry_less P (create_loop digest opts [] [] fs)
        (All-create_loop P opts [] [] fs new tt)

  module _ (is_digest : (s : String) → is_valid_fingerprint (digest s) ≡ true) where
    fingerprint_ok :
        (opts : CreateOptions) (f : Finding)
        → (not (is_blank (entry_fingerprint digest opts f))
            && not (is_valid_fingerprint (entry_fingerprint digest opts f)))
          ≡ false
    unfolding entry_fingerprint
    fingerprint_ok opts f = elim (Bool-cases opts.use_fingerprint) [
      | inl e ↦ rw e (ground (arith, is_digest (fingerprint_input f)))
      | inr e ↦ rw e refl
    ]

    entry_problem-entry_for :
        (opts : CreateOptions) (f : Finding)
        → 0 < opts.created_at
        → is_blank (trim_space f.id) ≡ false
        → entry_problem 0 (entry_for digest opts f) ≡ none
    unfolding entry_problem entry_for
    entry_problem-entry_for opts f h id = ground (
      arith,
      fingerprint_ok opts f,
      is_blank-trim_space (trim_space f.id),
      all_space-trim_space f.id,
      is_blank-trim_space f.id,
    )

    -- A snapshot taken at a time that is not zero is a valid file.
    pub validate-create :
        (fs : List Finding) (opts : CreateOptions)
        → 0 < opts.created_at
        → validate (create_from_findings digest fs opts) ≡ none
    unfolding create_from_findings
    validate-create fs opts h = none-validate (create_from_findings digest fs opts) refl (
        All-entries_problem 0 (create_from_findings digest fs opts).entries (
          All-create (λ e. entry_problem 0 e ≡ none) fs opts
            (λ f. entry_problem-entry_for opts f h)))
