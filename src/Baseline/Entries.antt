-- ===== src/Baseline/Entries.antt =====
-- What `Add`, `Remove`, `Prune` and `ActiveEntries` do to the entries of a baseline.
use mathlib.Core.List.{append-nil, append_assoc}
use devdiag.Base.{
  ℕ, ◌+◌, String, List, [], ◌∷◌, ◌++◌, Option, none, some, Bool, not, ◌&&◌, ◌≡◌, refl, sym, ◌∙◌,
  arith, keep, count, ◌==◌, if◌then◌else◌, ◌=ₛ◌, length, eq_iff, inl, inr, Bool-cases,
}
use devdiag.Baseline.{
  Entry, Baseline, is_expired, prune_loop, prune, active_loop, active_entries, replace_entry,
}

prune_loop-eq :
    (now : ℕ) (es active : List Entry) (pruned : ℕ)
    → prune_loop now es active pruned
      ≡ (active ++ keep (λ e. not (is_expired now e)) es, pruned + count (is_expired now) es)
unfolding prune_loop
prune_loop-eq now [] active pruned = ground (arith, append-nil active)
prune_loop-eq now (e ∷ es) active pruned = ground (
  arith,
  prune_loop-eq now es active (pruned + 1),
  prune_loop-eq now es (active ++ e ∷ []) pruned,
  append_assoc active (e ∷ []) (keep (λ e. not (is_expired now e)) es),
)

active_loop-eq :
    (now : ℕ) (es active : List Entry)
    → active_loop now es active ≡ active ++ keep (λ e. not (is_expired now e)) es
unfolding active_loop
active_loop-eq now [] active = sym (append-nil active)
active_loop-eq now (e ∷ es) active = elim (Bool-cases (is_expired now e)) [
  | inl x ↦ rw x (active_loop-eq now es active)
  | inr x ↦ rw x (
      active_loop-eq now es (active ++ e ∷ [])
      ∙ append_assoc active (e ∷ []) (keep (λ e. not (is_expired now e)) es))
]

pub entries-prune :
    (b : Baseline) (now : ℕ)
    → prune b now ≡ (
      record b { entries = keep (λ e. not (is_expired now e)) b.entries },
      count (is_expired now) b.entries,
    )
unfolding prune
entries-prune b now = rw (prune_loop-eq now b.entries [] 0) (ground arith)

-- A second prune finds nothing to remove.
pub active_entries-prune : (b : Baseline) (now : ℕ) → active_entries b now ≡ (prune b now).0.entries
unfolding active_entries
active_entries-prune b now = rw (active_loop-eq now b.entries [], entries-prune b now) refl

length-keep-add-count :
    (p : Entry → Bool) (es : List Entry)
    → length (keep (λ e. not (p e)) es) + count p es ≡ length es
length-keep-add-count p [] = omega arith
length-keep-add-count p (e ∷ es) = ground (arith, length-keep-add-count p es)

count-keep : (p : Entry → Bool) (es : List Entry) → count p (keep (λ e. not (p e)) es) ≡ 0
count-keep p [] = refl
count-keep p (e ∷ es) = ground (arith, count-keep p es)

-- `Prune` counts what it removes, leaves no expired entry and is `ActiveEntries` written back.
pub prune_lem :
    (b : Baseline) (now : ℕ)
    → (length (prune b now).0.entries + (prune b now).1 ≡ length b.entries)
      × (count (is_expired now) (prune b now).0.entries ≡ 0)
      × ((prune b now).0.entries ≡ active_entries b now)
prune_lem b now = rw (entries-prune b now) (
  length-keep-add-count (is_expired now) b.entries,
  count-keep (is_expired now) b.entries,
  sym (active_loop-keep),
)
  where
    active_loop-keep : active_entries b now ≡ keep (λ e. not (is_expired now e)) b.entries
    active_loop-keep = active_entries-prune b now ∙ rw (entries-prune b now) refl

-- A test for the entry with an ID and a fingerprint.
abbrev pub keyed : String → String → Entry → Bool
keyed id fp e = e.id =ₛ id && e.fingerprint =ₛ fp

abbrev pub put_back : Entry → List Entry → Option (List Entry) → List Entry
put_back entry es none = es ++ entry ∷ []
put_back entry es (some rest) = rest

abbrev pub or_one : ℕ → ℕ
or_one n = if n == 0 then 1 else n

pub count-put_back :
    (id fp : String) (entry : Entry) (es : List Entry)
    → count (keyed id fp) (put_back entry es (replace_entry entry es))
      ≡ (if keyed id fp entry then or_one (count (keyed id fp) es) else count (keyed id fp) es)
unfolding replace_entry
count-put_back id fp entry [] = refl
count-put_back id fp entry (e ∷ es) = ground (
  arith,
  count-put_back id fp entry es,
  eq_iff e.id entry.id,
  eq_iff e.fingerprint entry.fingerprint,
  eq_iff e.id id,
  eq_iff e.fingerprint fp,
  eq_iff entry.id id,
  eq_iff entry.fingerprint fp,
)
