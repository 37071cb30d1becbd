-- ===== src/Findings/Index.antt =====
-- The positions that `Add` keeps in `seen` are right, so that each finding is merged into the entry
-- with its fingerprint, or appended where there is none.
use devdiag.Base.{
  ℕ, zero, suc, String, List, [], ◌∷◌, ◌++◌, Option, none, some, Bool, ◌≡◌, refl, sym, ◌∙◌, ap,
  arith, length, eq_iff, ◌=ₛ◌, if◌then◌else◌, inl, inr, Bool-cases,
}
use devdiag.Schema.{Finding}
use devdiag.Findings.{
  finding_fingerprint, normalize_finding, merge_finding, Deduped, seen_at, merge_at, place, add_one,
  add_all, nothing_seen,
}

-- Merged into the entry with the same fingerprint, or appended.
unfoldable pub upsert : Finding → List Finding → List Finding
upsert n [] = n ∷ []
upsert n (f ∷ fs) =
    if finding_fingerprint f =ₛ finding_fingerprint n
    then merge_finding f n ∷ fs
    else f ∷ upsert n fs

unfoldable pub upsert_all : List Finding → List Finding → List Finding
unfolding upsert
upsert_all ds [] = ds
upsert_all ds (f ∷ fs) = upsert_all (upsert (normalize_finding f) ds) fs

abbrev next_index : Option ℕ → Option ℕ
next_index none = none
next_index (some i) = some (suc i)

-- The position of the first entry with a fingerprint.
pub index_of : String → List Finding → Option ℕ
index_of key [] = none
index_of key (f ∷ fs) =
    if finding_fingerprint f =ₛ key then some 0 else next_index (index_of key fs)

abbrev pub Indexes : Deduped → Type 0
Indexes s = (key : String) → seen_at key s.seen ≡ index_of key s.deduped

pub fingerprint-merge :
    (f n : Finding)
    → finding_fingerprint f ≡ finding_fingerprint n
    → finding_fingerprint (merge_finding f n) ≡ finding_fingerprint n
unfolding finding_fingerprint merge_finding
fingerprint-merge f n h = ground arith

abbrev placed : Finding → List Finding → Option ℕ → List Finding
placed n ds none = ds ++ n ∷ []
placed n ds (some i) = merge_at ds i n

placed-next :
    (f n : Finding) (ds : List Finding) (at : Option ℕ)
    → placed n (f ∷ ds) (next_index at) ≡ f ∷ placed n ds at
unfolding merge_at
placed-next f n ds none = refl
placed-next f n ds (some i) = refl

placed-eq-upsert :
    (n : Finding) (ds : List Finding)
    → placed n ds (index_of (finding_fingerprint n) ds) ≡ upsert n ds
unfolding index_of upsert
placed-eq-upsert n [] = refl
placed-eq-upsert n (f ∷ fs) = elim (Bool-cases (finding_fingerprint f =ₛ finding_fingerprint n)) [
  | inl e ↦ rw e (unfold merge_at in refl)
  | inr e ↦ rw e (
      placed-next f n fs (index_of (finding_fingerprint n) fs) ∙ ap (◌∷◌ f) (placed-eq-upsert n fs))
]

abbrev or_last : Option ℕ → Bool → ℕ → Option ℕ
or_last (some i) found last = some i
or_last none found last = if found then some last else none

index_of-append :
    (key : String) (n : Finding) (ds : List Finding)
    → index_of key (ds ++ n ∷ [])
      ≡ or_last (index_of key ds) (finding_fingerprint n =ₛ key) (length ds)
unfolding index_of
index_of-append key n [] = ground arith
index_of-append key n (f ∷ fs) = ground (arith, index_of-append key n fs)

index_of-merge_at :
    (key : String) (n : Finding) (ds : List Finding) (i : ℕ)
    → index_of (finding_fingerprint n) ds ≡ some i
    → index_of key (merge_at ds i n) ≡ index_of key ds
unfolding index_of merge_at
index_of-merge_at key n [] i h = refl
index_of-merge_at key n (f ∷ fs) zero h =
    ground (arith, eq_iff (finding_fingerprint f) (finding_fingerprint n), fingerprint-merge f n)
index_of-merge_at key n (f ∷ fs) (suc i) h = ground (arith, index_of-merge_at key n fs i)

place-Indexes :
    (s : Deduped) (n : Finding)
    → Indexes s
    → (at : Option ℕ) → index_of (finding_fingerprint n) s.deduped ≡ at
    → Indexes (place s n at)
unfolding place seen_at
place-Indexes s n h none e key =
    ground (arith, h key, index_of-append key n s.deduped, eq_iff (finding_fingerprint n) key)
place-Indexes s n h (some i) e key = h key ∙ sym (index_of-merge_at key n s.deduped i e)

deduped-place :
    (s : Deduped) (n : Finding) (at : Option ℕ) → (place s n at).deduped ≡ placed n s.deduped at
unfolding place
deduped-place s n none = refl
deduped-place s n (some i) = refl

add_one-Indexes : (s : Deduped) (f : Finding) → Indexes s → Indexes (add_one s f)
unfolding add_one
add_one-Indexes s f h =
    let n = normalize_finding f in place-Indexes s n h _ (sym (h (finding_fingerprint n)))

deduped-add_one :
    (s : Deduped) (f : Finding)
    → Indexes s
    → (add_one s f).deduped ≡ upsert (normalize_finding f) s.deduped
unfolding add_one
deduped-add_one s f h =
    let n = normalize_finding f in
    rw (h (finding_fingerprint n)) (deduped-place s n _ ∙ placed-eq-upsert n s.deduped)

pub Indexes-nothing_seen : Indexes nothing_seen
unfolding seen_at index_of
Indexes-nothing_seen key = refl

-- From right positions, a run of the loop merges or appends each finding by its fingerprint.
pub add_all-eq-upsert_all :
    (s : Deduped) (fs : List Finding) → Indexes s → (add_all s fs).deduped ≡ upsert_all s.deduped fs
unfolding add_all upsert_all
add_all-eq-upsert_all s [] h = refl
add_all-eq-upsert_all s (f ∷ fs) h =
    add_all-eq-upsert_all (add_one s f) fs (add_one-Indexes s f h)
    ∙ ap (λ ds. upsert_all ds fs) (deduped-add_one s f h)
