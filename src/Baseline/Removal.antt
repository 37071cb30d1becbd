-- ===== src/Baseline/Removal.antt =====
-- `Remove` takes out one entry, and undoes the `Add` of a new one.
use devdiag.Base.Text.Trim.{no_space, trim_space-eq}
use devdiag.Base.{
  inr, Bool-cases, inl, ◌⊎◌, ℕ, String, List, [], ◌∷◌, ◌++◌, none, some, Bool, true, false, not,
  ◌&&◌, ◌≡◌, refl, arith, count, trim_space, to_upper, is_blank, ◌==◌, eq_iff, ◌∙◌, ap,
}
use devdiag.Baseline.{
  Entry, Baseline, added, all_hex, is_valid_fingerprint, normal_entry, versioned, replace_entry,
  add, remove_entry, removed_from, remove,
}
use devdiag.Baseline.Entries.{keyed, put_back}
use devdiag.Baseline.Edits.{stored, fields_ok, entries-add, version-add}

-- A list with its first element of an ID and a fingerprint, and what is left without it.
abbrev pub TakesFirst : String → String → List Entry → List Entry → Type 0
TakesFirst id fp es rest =
    (before : List Entry) × (taken : Entry) × (after : List Entry) × (es ≡ before ++ taken ∷ after)
    × (rest ≡ before ++ after)
    × (keyed id fp taken ≡ true)
    × (count (keyed id fp) before ≡ 0)

remove_entry-cases :
    (id fp : String) (es : List Entry)
    → ((count (keyed id fp) es ≡ 0) × (remove_entry id fp es ≡ none))
      ⊎ ((count (keyed id fp) es == 0) ≡ false)
        × (rest : List Entry) × (remove_entry id fp es ≡ some rest)
        × TakesFirst id fp es rest
unfolding remove_entry
remove_entry-cases id fp [] = inl (refl, refl)
remove_entry-cases id fp (e ∷ es) = elim (Bool-cases (keyed id fp e)) [
  | inl h ↦ inr (ground arith, es, ground arith, ([], e, es, refl, refl, h, refl))
  | inr h ↦ elim (remove_entry-cases id fp es) [
    | inl (zero, missing) ↦ inl (ground arith, ground arith)
    | inr (there, rest, found, (before, taken, after, whole, left, is_it, first)) ↦ inr (
      ground arith,
      e ∷ rest,
      ground arith,
      (e ∷ before, taken, after, ap (◌∷◌ e) whole, ap (◌∷◌ e) left, is_it, ground arith),
    )
  ]
]

all_hex-no_space : (s : String) → all_hex s ≡ true → no_space s ≡ true
unfolding all_hex no_space
all_hex-no_space String.[] h = refl
all_hex-no_space (String.◌∷◌ c s) h = ground (arith, all_hex-no_space s)

-- A fingerprint that `Add` accepts has no blanks to trim.
accepted_trims :
    (fp : String)
    → (not (is_blank fp) && not (is_valid_fingerprint fp)) ≡ false
    → trim_space fp ≡ fp
unfolding is_valid_fingerprint
accepted_trims String.[] h = trim_space-eq "" (unfold no_space in refl)
accepted_trims (String.◌∷◌ c s) h =
    trim_space-eq (String.◌∷◌ c s) (all_hex-no_space (String.◌∷◌ c s) (ground arith))

replace_entry-none :
    (entry : Entry) (es : List Entry)
    → count (keyed entry.id entry.fingerprint) es ≡ 0
    → replace_entry entry es ≡ none
unfolding replace_entry
replace_entry-none entry [] h = refl
replace_entry-none entry (e ∷ es) h = ground (arith, replace_entry-none entry es)

remove_entry-last :
    (entry : Entry) (es : List Entry)
    → count (keyed entry.id entry.fingerprint) es ≡ 0
    → remove_entry entry.id entry.fingerprint (es ++ entry ∷ []) ≡ some es
unfolding remove_entry
remove_entry-last entry [] h =
    ground (arith, eq_iff entry.id entry.id, eq_iff entry.fingerprint entry.fingerprint)
remove_entry-last entry (e ∷ es) h = ground (arith, remove_entry-last entry es)

-- Whether `Remove` is asked for an entry that is there.
abbrev pub holds : Baseline → String → String → Bool
holds b id fp =
    not (is_blank (to_upper (trim_space id)))
    && not (count (keyed (to_upper (trim_space id)) (trim_space fp)) b.entries == 0)

-- `Remove` answers whether the ID, in its stored form, is not blank and an entry has it with the trimmed
-- fingerprint. If so, the first such entry is taken out, and all else in the file, the other entries in
-- their order, is as before; if not, the whole file is as before.
pub remove_lem :
    (b : Baseline) (id fp : String)
    → ((holds b id fp ≡ false) × (remove b id fp ≡ (b, false)))
      ⊎ (holds b id fp ≡ true)
        × (rest : List Entry) × (remove b id fp ≡ (record b { entries = rest }, true))
        × TakesFirst (to_upper (trim_space id)) (trim_space fp) b.entries rest
unfolding remove removed_from
remove_lem b id fp =
    elim (remove_entry-cases (to_upper (trim_space id)) (trim_space fp) b.entries) [
      | inl (zero, missing) ↦ inl (ground arith, ground arith)
      | inr (there, rest, found, taken) ↦ elim (Bool-cases (is_blank (to_upper (trim_space id)))) [
        | inl blank ↦ inl (ground arith, ground arith)
        | inr given ↦ inr (ground arith, rest, ground arith, taken)
      ]
    ]

-- Removing what was added as a new entry gives the file before.
pub remove-add :
    (b : Baseline) (given : Entry) (now : ℕ) {b' : Baseline} {updated : Bool}
    → add b given now ≡ added b' updated
    → count (keyed (normal_entry given).id given.fingerprint) b.entries ≡ 0
    → remove b' given.id given.fingerprint ≡ (versioned b, true)
unfolding remove removed_from normal_entry
remove-add b given now {b'} done fresh =
    let ok = fields_ok b given now done in
    let appended : b'.entries ≡ b.entries ++ stored given now ∷ [] =
      entries-add b given now done
      ∙ ap (put_back (stored given now) b.entries)
          (replace_entry-none (stored given now) b.entries fresh) in
    let found : remove_entry (to_upper (trim_space given.id)) (trim_space given.fingerprint)
          b'.entries
        ≡ some b.entries =
      rw (appended, accepted_trims given.fingerprint ok.1)
        (remove_entry-last (stored given now) b.entries fresh) in
    ground (arith, ok.0, found, version-add b given now done)
