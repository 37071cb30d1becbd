-- ===== src/Findings/Merged.antt =====
-- What `Add` promises of the merged findings: each fingerprint once, nothing lost, nothing made up.
use devdiag.Base.{
  ℕ, String, List, [], ◌∷◌, Bool, true, false, ◌≡◌, refl, sym, ◌∙◌, arith, any, count, eq_iff, ◌=ₛ◌,
  ◌==◌, ◌||◌, if◌then◌else◌, inl, inr, Bool-cases,
}
use devdiag.Base.Lists.{Any, All, All-map}
use devdiag.Base.Sort.{count-sort, Any-sort}
use devdiag.Schema.{Finding}
use devdiag.Findings.{
  finding_fingerprint, normalize_finding, merge_finding, ranks_before, nothing_seen, add_all, add,
}
use devdiag.Findings.Rank.{ranks_before-StrictWeak}
use devdiag.Findings.Index.{
  upsert, upsert_all, Indexes-nothing_seen, fingerprint-merge, add_all-eq-upsert_all,
}
use devdiag.Findings.Evidences.{keyed, any-merge_evidence}

-- A test for the finding with a fingerprint.
abbrev pub marked : String → Finding → Bool
marked k f = finding_fingerprint f =ₛ k

pub deduped-add_all : (fs : List Finding) → (add_all nothing_seen fs).deduped ≡ upsert_all [] fs
deduped-add_all fs = add_all-eq-upsert_all nothing_seen fs Indexes-nothing_seen

abbrev or_one : ℕ → ℕ
or_one n = if n == 0 then 1 else n

count-upsert :
    (k : String) (n : Finding) (ds : List Finding)
    → count (marked k) (upsert n ds)
      ≡ (if marked k n then or_one (count (marked k) ds) else count (marked k) ds)
unfolding upsert
count-upsert k n [] = refl
count-upsert k n (f ∷ fs) = ground (
  arith,
  count-upsert k n fs,
  fingerprint-merge f n,
  eq_iff (finding_fingerprint f) (finding_fingerprint n),
  eq_iff (finding_fingerprint f) k,
  eq_iff (finding_fingerprint n) k,
)

pub fingerprint-normalize :
    (f : Finding) → finding_fingerprint (normalize_finding f) ≡ finding_fingerprint f
unfolding finding_fingerprint normalize_finding
fingerprint-normalize f = refl

count-upsert_all :
    (k : String) (ds fs : List Finding)
    → count (marked k) (upsert_all ds fs)
      ≡ (if any (marked k) fs then or_one (count (marked k) ds) else count (marked k) ds)
unfolding upsert_all
count-upsert_all k ds [] = refl
count-upsert_all k ds (f ∷ fs) = ground (
  arith,
  count-upsert_all k (upsert (normalize_finding f) ds) fs,
  count-upsert k (normalize_finding f) ds,
  fingerprint-normalize f,
)

-- A fingerprint stands exactly once in the answer where a finding has it, and else not at all.
pub count-add :
    (k : String) (fs : List Finding)
    → count (marked k) (add fs) ≡ (if any (marked k) fs then 1 else 0)
unfolding add
count-add k fs =
    rw
      (
        count-sort ranks_before (marked k) (add_all nothing_seen fs).deduped,
        deduped-add_all fs,
        count-upsert_all k [] fs,
      )
      refl

-- The entry `o` stands for `f`: its fingerprint, a rank that is no worse, and all of its evidence.
pub record Covers (f o : Finding) : Type 0 where
  pub fingerprint : finding_fingerprint o ≡ finding_fingerprint f
  pub rank : ranks_before f o ≡ false
  pub evidence : (k : String) → any (keyed k) f.evidence ≡ true → any (keyed k) o.evidence ≡ true

ranks_before_irrefl : (f : Finding) → ranks_before f f ≡ false
unfolding ranks_before
ranks_before_irrefl f = ground arith

Covers-refl : (f : Finding) → Covers f f
Covers-refl f = record { fingerprint = refl; rank = ranks_before_irrefl f; evidence = λ k h. h }

Covers-trans : (f g h : Finding) → Covers f g → Covers g h → Covers f h
Covers-trans f g h c d = record {
  fingerprint = d.fingerprint ∙ c.fingerprint;
  rank = ranks_before-StrictWeak.neg_trans h g f d.rank c.rank;
  evidence = λ k e. d.evidence k (c.evidence k e);
}

any-merge_finding :
    (k : String) (f n : Finding)
    → any (keyed k) (merge_finding f n).evidence
      ≡ (any (keyed k) f.evidence || any (keyed k) n.evidence)
unfolding merge_finding
any-merge_finding k f n = ground (arith, any-merge_evidence k f.evidence n.evidence)

rank-merge_left : (f n : Finding) → ranks_before f (merge_finding f n) ≡ false
unfolding merge_finding ranks_before
rank-merge_left f n = ground arith

rank-merge_right : (f n : Finding) → ranks_before n (merge_finding f n) ≡ false
unfolding merge_finding ranks_before
rank-merge_right f n = ground arith

module _ (f n : Finding) (same : finding_fingerprint f ≡ finding_fingerprint n) where
  Covers-merge_left : Covers f (merge_finding f n)
  Covers-merge_left = record {
    fingerprint = fingerprint-merge f n same ∙ sym same;
    rank = rank-merge_left f n;
    evidence = λ k h. rw (any-merge_finding k f n) (ground arith);
  }

  Covers-merge_right : Covers n (merge_finding f n)
  Covers-merge_right = record {
    fingerprint = fingerprint-merge f n same;
    rank = rank-merge_right f n;
    evidence = λ k h. rw (any-merge_finding k f n) (ground arith);
  }

same_of :
    (f n : Finding)
    → marked (finding_fingerprint n) f ≡ true
    → finding_fingerprint f ≡ finding_fingerprint n
same_of f n e = (eq_iff (finding_fingerprint f) (finding_fingerprint n)).0 e

Any-Covers-new : (n : Finding) (ds : List Finding) → Any (Covers n) (upsert n ds)
unfolding upsert
Any-Covers-new n [] = inl (Covers-refl n)
Any-Covers-new n (f ∷ fs) = elim (Bool-cases (marked (finding_fingerprint n) f)) [
  | inl e ↦ rw e (inl (Covers-merge_right f n (same_of f n e)))
  | inr e ↦ rw e (inr (Any-Covers-new n fs))
]

Any-Covers-old :
    (g n : Finding) (ds : List Finding) → Any (Covers g) ds → Any (Covers g) (upsert n ds)
unfolding upsert
Any-Covers-old g n [] h = inr h
Any-Covers-old g n (f ∷ fs) (inl c) = elim (Bool-cases (marked (finding_fingerprint n) f)) [
  | inl e ↦ rw e (inl (Covers-trans g f _ c (Covers-merge_left f n (same_of f n e))))
  | inr e ↦ rw e (inl c)
]
Any-Covers-old g n (f ∷ fs) (inr h) = elim (Bool-cases (marked (finding_fingerprint n) f)) [
  | inl e ↦ rw e (inr h)
  | inr e ↦ rw e (inr (Any-Covers-old g n fs h))
]

Any-Covers-later :
    (g : Finding) (ds fs : List Finding) → Any (Covers g) ds → Any (Covers g) (upsert_all ds fs)
unfolding upsert_all
Any-Covers-later g ds [] h = h
Any-Covers-later g ds (f ∷ fs) h =
    Any-Covers-later g (upsert (normalize_finding f) ds) fs
      (Any-Covers-old g (normalize_finding f) ds h)

All-Covers :
    (ds fs : List Finding) → All (λ f. Any (Covers (normalize_finding f)) (upsert_all ds fs)) fs
unfolding upsert_all
All-Covers ds [] = tt
All-Covers ds (f ∷ fs) =
    let n = normalize_finding f in
    (Any-Covers-later n (upsert n ds) fs (Any-Covers-new n ds), All-Covers (upsert n ds) fs)

-- No finding is lost: the answer has an entry with its fingerprint, a rank that is no worse, and
-- each source and value of its evidence.
pub add-Covers : (fs : List Finding) → All (λ f. Any (Covers (normalize_finding f)) (add fs)) fs
unfolding add
add-Covers fs =
    All-map _ _ fs
      (λ f. Any-sort ranks_before (Covers (normalize_finding f)) (add_all nothing_seen fs).deduped)
      (rw (deduped-add_all fs) (All-Covers [] fs))
