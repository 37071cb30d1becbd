-- ===== src/Findings/Origin.antt =====
-- Where the entries of the answer come from, and that adding the answer again changes nothing.
use devdiag.Base.{
  ◌≤◌, String, List, [], ◌∷◌, ◌++◌, false, ◌≡◌, refl, sym, ap, ◌∙◌, arith, count, eq_iff, is_empty,
  inl, inr, Bool-cases, Option-cases,
}
use devdiag.Base.Lists.{Any, All, All-map, Any-map, count-append}
use devdiag.Base.Sort.{sort, All-sort, sort-eq_of_IsSorted}
use mathlib.Core.List.{append_assoc, append-nil}
use devdiag.Schema.{Finding, Evidence}
use devdiag.Domain.{find_domain_by_finding_id}
use devdiag.Domain.Longest.{find_domain-layers}
use devdiag.Findings.{
  finding_fingerprint, normalize_finding, merge_finding, ranks_before, nothing_seen, default_layers,
  add_all, add,
}
use devdiag.Findings.Rank.{add-IsSorted}
use devdiag.Findings.Index.{upsert, upsert_all}
use devdiag.Findings.Merged.{marked, deduped-add_all, count-add}

-- A predicate of findings that does not read their evidence.
abbrev IgnoresEvidence : (Finding → Type 0) → Type 0
IgnoresEvidence P = (f : Finding) (es : List Evidence) → P f → P (record f { evidence = es })

module _ (P : Finding → Type 0) (ignores : IgnoresEvidence P) where
  merge_finding-ignores : (f n : Finding) → P f → P n → P (merge_finding f n)
  unfolding merge_finding
  merge_finding-ignores f n pf pn = elim (Bool-cases (ranks_before n f)) [
    | inl e ↦ rw e (ignores n _ pn)
    | inr e ↦ rw e (ignores f _ pf)
  ]

  All-upsert : (n : Finding) (ds : List Finding) → P n → All P ds → All P (upsert n ds)
  unfolding upsert
  All-upsert n [] pn h = (pn, tt)
  All-upsert n (f ∷ fs) pn h = elim (Bool-cases (marked (finding_fingerprint n) f)) [
    | inl e ↦ rw e (merge_finding-ignores f n h.0 pn, h.1)
    | inr e ↦ rw e (h.0, All-upsert n fs pn h.1)
  ]

  All-upsert_all :
      (ds fs : List Finding)
      → All P ds
      → All (λ f. P (normalize_finding f)) fs
      → All P (upsert_all ds fs)
  unfolding upsert_all
  All-upsert_all ds [] h k = h
  All-upsert_all ds (f ∷ fs) h k =
      All-upsert_all (upsert (normalize_finding f) ds) fs
        (All-upsert (normalize_finding f) ds k.0 h) k.1

  pub All-add : (fs : List Finding) → All (λ f. P (normalize_finding f)) fs → All P (add fs)
  unfolding add
  All-add fs k =
      All-sort ranks_before P (add_all nothing_seen fs).deduped
        (rw (deduped-add_all fs) (All-upsert_all [] fs tt k))

-- `o` is `f`, with its defaults filled in, but for the evidence.
abbrev pub IsFrom : Finding → Finding → Type 0
IsFrom o f = o ≡ record (normalize_finding f) { evidence = o.evidence }

All-IsFrom : (fs : List Finding) → All (λ f. Any (IsFrom (normalize_finding f)) fs) fs
All-IsFrom [] = tt
All-IsFrom (f ∷ fs) = (inl refl, All-map _ _ fs (λ g h. inr h) (All-IsFrom fs))

-- Nothing is made up: each entry of the answer is one of the findings, with its defaults filled in
-- and other evidence.
pub add-IsFrom : (fs : List Finding) → All (λ o. Any (IsFrom o) fs) (add fs)
add-IsFrom fs =
    All-add (λ o. Any (IsFrom o) fs)
      (λ o es h.
        Any-map (IsFrom o) _ fs (λ f e. ap (λ (x : Finding). record x { evidence = es }) e) h)
      fs (All-IsFrom fs)

is_empty-default_layers : (id : String) → is_empty (default_layers id) ≡ false
unfolding default_layers
is_empty-default_layers id = elim (Option-cases (find_domain_by_finding_id id)) [
  | inl e ↦ rw e
  | inr (d, e) ↦ rw e (find_domain-layers id d e)
]

normalize_idem : (f : Finding) → normalize_finding (normalize_finding f) ≡ normalize_finding f
unfolding normalize_finding
normalize_idem f = ground (arith, is_empty-default_layers f.id)

abbrev IsNormal : Finding → Type 0
IsNormal f = normalize_finding f ≡ f

IsNormal-ignores : IgnoresEvidence IsNormal
unfolding normalize_finding
IsNormal-ignores f es h = ap (λ (x : Finding). record x { evidence = es }) h

All-IsNormal : (fs : List Finding) → All (λ f. IsNormal (normalize_finding f)) fs
All-IsNormal [] = tt
All-IsNormal (f ∷ fs) = (normalize_idem f, All-IsNormal fs)

upsert-new :
    (n : Finding) (ds : List Finding)
    → count (marked (finding_fingerprint n)) ds ≡ 0
    → upsert n ds ≡ ds ++ n ∷ []
unfolding upsert
upsert-new n [] h = refl
upsert-new n (f ∷ fs) h = ground (arith, upsert-new n fs)

upsert_all-new :
    (ds fs : List Finding)
    → All IsNormal fs
    → ((k : String) → count (marked k) (ds ++ fs) ≤ 1)
    → upsert_all ds fs ≡ ds ++ fs
unfolding upsert_all
upsert_all-new ds [] h once = sym (append-nil ds)
upsert_all-new ds (f ∷ fs) h once =
    rw (h.0, upsert-new f ds fresh)
      (upsert_all-new (ds ++ f ∷ []) fs h.1 (λ k. rw (append_assoc ds (f ∷ []) fs) (once k))
        ∙ append_assoc ds (f ∷ []) fs)
  where
    fresh : count (marked (finding_fingerprint f)) ds ≡ 0
    fresh = ground (
      arith,
      once (finding_fingerprint f),
      count-append (marked (finding_fingerprint f)) ds (f ∷ fs),
      eq_iff (finding_fingerprint f) (finding_fingerprint f),
    )

add-eq-sort : (es : List Finding) → upsert_all [] es ≡ es → add es ≡ sort ranks_before es
unfolding add
add-eq-sort es h = ap (sort ranks_before) (deduped-add_all es ∙ h)

-- Adding the answer once more changes nothing.
pub add_idem : (fs : List Finding) → add (add fs) ≡ add fs
add_idem fs =
    add-eq-sort (add fs) (
      upsert_all-new [] (add fs) (All-add IsNormal IsNormal-ignores fs (All-IsNormal fs))
        (λ k. ground (arith, count-add k fs)))
    ∙ sort-eq_of_IsSorted ranks_before (add fs) (add-IsSorted fs)
