-- ===== src/Findings/Evidences.antt =====
-- Merged evidence: each source and value once, in order.
use devdiag.Base.{
  String, List, [], ◌∷◌, ◌++◌, Bool, true, false, ◌||◌, ◌≡◌, refl, arith, any, count, eq_iff, ◌=ₛ◌,
  if◌then◌else◌, ◌==◌,
}
use devdiag.Base.Sort.{IsSorted, sort-IsSorted, count-sort}
use devdiag.Base.Lists.{any-append}
use devdiag.Schema.{Evidence}
use devdiag.Findings.{evidence_key, contains, distinct, evidence_less, merge_evidence}
use devdiag.Findings.Rank.{evidence_less-StrictWeak}

-- A test for the evidence with a key.
abbrev pub keyed : String → Evidence → Bool
keyed k e = evidence_key e =ₛ k

count-distinct :
    (k : String) (seen : List String) (es : List Evidence)
    → count (keyed k) (distinct seen es)
      ≡ (if contains k seen then 0 else if any (keyed k) es then 1 else 0)
unfolding distinct contains
count-distinct k seen [] = ground arith
count-distinct k seen (e ∷ es) = ground (
  arith,
  count-distinct k seen es,
  count-distinct k (evidence_key e ∷ seen) es,
  eq_iff (evidence_key e) k,
)

any-count :
    {A : Type 0} (p : A → Bool) (xs : List A) → any p xs ≡ (if count p xs == 0 then false else true)
any-count p [] = refl
any-count p (x ∷ xs) = ground (arith, any-count p xs)

-- A key stands exactly once in merged evidence where either side had it, and else not at all.
pub count-merge_evidence :
    (k : String) (left right : List Evidence)
    → count (keyed k) (merge_evidence left right)
      ≡ (if any (keyed k) left || any (keyed k) right then 1 else 0)
unfolding merge_evidence
count-merge_evidence k left right =
    rw
      (
        count-sort evidence_less (keyed k) (distinct [] (left ++ right)),
        count-distinct k [] (left ++ right),
        any-append (keyed k) left right,
      )
      (unfold contains in refl)

pub any-merge_evidence :
    (k : String) (left right : List Evidence)
    → any (keyed k) (merge_evidence left right) ≡ (any (keyed k) left || any (keyed k) right)
any-merge_evidence k left right =
    ground
      (arith, any-count (keyed k) (merge_evidence left right), count-merge_evidence k left right)

-- Merged evidence is in order of source, then value.
pub merge_evidence-IsSorted :
    (left right : List Evidence) → IsSorted evidence_less (merge_evidence left right)
unfolding merge_evidence
merge_evidence-IsSorted left right =
    sort-IsSorted evidence_less-StrictWeak (distinct [] (left ++ right))
