-- ===== src/Findings/Rank.antt =====
-- The two orders of the aggregator are strict weak orders, and its answer is in order.
use devdiag.Base.{
  inr, inl, Bool-cases, ◌⊎◌, ◌<◌, [], ◌∷◌, refl, ◌+◌, ◌≤◌, ℕ, List, Bool, not, ltb, ◌==◌,
  if◌then◌else◌, true, false, ◌≡◌, arith, eq_iff,
}
use devdiag.Base.Sort.{StrictWeak, IsSorted, sort-IsSorted}
use devdiag.Base.Text.Order.{str_lt_asym, str_lt_neg_trans, str_lt_total}
use devdiag.Schema.{Severity, critical, high, medium, low, info, Finding}
use devdiag.Base.Lists.{All, All-map}
use devdiag.Findings.{severity_rank, ranks_before, evidence_less, add_all, nothing_seen, add}

-- The test of `ranksBefore` on two ranks and two confidences.
abbrev weighs_less : ℕ → ℕ → ℕ → ℕ → Bool
weighs_less a x b y = if not (a == b) then ltb a b else ltb y x

weighs_less_asym : (a x b y : ℕ) → weighs_less a x b y ≡ true → weighs_less b y a x ≡ false
weighs_less_asym a x b y h = ground arith

weighs_less_neg_trans :
    (a x b y c z : ℕ)
    → weighs_less b y a x ≡ false
    → weighs_less c z b y ≡ false
    → weighs_less c z a x ≡ false
weighs_less_neg_trans a x b y c z h k = ground arith

pub ranks_before-StrictWeak : StrictWeak ranks_before
unfolding ranks_before
ranks_before-StrictWeak = record {
  asym = λ a b.
      weighs_less_asym (severity_rank a.severity) a.confidence (severity_rank b.severity)
        b.confidence;
  neg_trans = λ a b c.
      weighs_less_neg_trans (severity_rank a.severity) a.confidence (severity_rank b.severity)
        b.confidence (severity_rank c.severity) c.confidence;
}

pub evidence_less-StrictWeak : StrictWeak evidence_less
unfolding evidence_less
evidence_less-StrictWeak = record {
  asym = λ a b h. ground (
    arith,
    eq_iff a.source b.source,
    eq_iff b.source a.source,
    str_lt_asym a.source b.source,
    str_lt_asym a.value b.value,
  );
  neg_trans = λ a b c h k. ground (
    arith,
    eq_iff a.source b.source,
    eq_iff b.source a.source,
    eq_iff c.source b.source,
    eq_iff c.source a.source,
    str_lt_asym a.source b.source,
    str_lt_neg_trans a.value b.value c.value,
    str_lt_neg_trans a.source b.source c.source,
    str_lt_total a.source b.source,
    str_lt_total c.source b.source,
    str_lt_total b.source a.source,
  );
}

pub add-IsSorted : (findings : List Finding) → IsSorted ranks_before (add findings)
unfolding add
add-IsSorted findings =
    sort-IsSorted ranks_before-StrictWeak (add_all nothing_seen findings).deduped

-- How grave a severity is.
abbrev pub gravity : Severity → ℕ
gravity critical = 5
gravity high = 4
gravity medium = 3
gravity low = 2
gravity info = 1
gravity (Severity.other name) = 0

-- What stands first is graver, or as grave and at least as sure. A confidence is
-- given by its bits, which are in the order of the numbers, as none is negative.
abbrev pub ComesBefore : Finding → Finding → Type 0
ComesBefore f g =
    (gravity g.severity < gravity f.severity)
    ⊎ (gravity g.severity ≡ gravity f.severity) × (g.confidence ≤ f.confidence)

abbrev pub IsRanked : List Finding → Type 0
IsRanked [] = Unit
IsRanked (f ∷ fs) = All (ComesBefore f) fs × IsRanked fs

gravity-severity_rank : (s : Severity) → gravity s + severity_rank s ≡ 5
unfolding severity_rank
gravity-severity_rank critical = refl
gravity-severity_rank high = refl
gravity-severity_rank medium = refl
gravity-severity_rank low = refl
gravity-severity_rank info = refl
gravity-severity_rank (Severity.other name) = refl

weighs-before :
    (a x b y g h : ℕ)
    → g + a ≡ 5
    → h + b ≡ 5
    → weighs_less b y a x ≡ false
    → (h < g) ⊎ (h ≡ g) × (y ≤ x)
weighs-before a x b y g h p q ahead = elim (Bool-cases (a == b)) [
  | inl e ↦ inr (ground arith, ground arith)
  | inr e ↦ inl (ground arith)
]

ranks_before-ComesBefore : (f g : Finding) → ranks_before g f ≡ false → ComesBefore f g
unfolding ranks_before
ranks_before-ComesBefore f g ahead =
    weighs-before (severity_rank f.severity) f.confidence (severity_rank g.severity) g.confidence
      (gravity f.severity) (gravity g.severity) (gravity-severity_rank f.severity)
      (gravity-severity_rank g.severity) ahead

IsSorted-IsRanked : (fs : List Finding) → IsSorted ranks_before fs → IsRanked fs
IsSorted-IsRanked [] h = tt
IsSorted-IsRanked (f ∷ fs) h =
    (All-map _ _ fs (ranks_before-ComesBefore f) h.0, IsSorted-IsRanked fs h.1)

-- The findings come out from the gravest, critical, high, medium, low, info and then any other severity,
-- and those of one severity by falling confidence: each finding is at least as grave as every one
-- behind it, and at least as sure as those of them that are as grave.
pub add-IsRanked : (findings : List Finding) → IsRanked (add findings)
add-IsRanked findings = IsSorted-IsRanked (add findings) (add-IsSorted findings)
