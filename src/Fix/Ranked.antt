-- ===== src/Fix/Ranked.antt =====
-- The ranking sorts by class and keeps the order within a class.
use mathlib.Core.List.{append-nil}
use devdiag.Base.{
  All-both, if◌then◌else◌, ℕ, List, [], ◌∷◌, ◌++◌, Bool, true, false, ◌≡◌, refl, arith, keep, All,
  ◌==◌, ◌∙◌, ap, All-map, Bool-cases, inl, inr,
}
use devdiag.Base.Sort.{IsSorted}
use devdiag.Schema.{FixProposal}
use devdiag.Fix.Proposals.{class_order, goes_before, sink, rank_loop, from_last, rank_proposals}

-- `p` stands after all of the list.
abbrev IsLast : FixProposal → List FixProposal → Type 0
IsLast p qs = All (λ q. goes_before p q ≡ false) qs

abbrev after : FixProposal → FixProposal → Bool
after p q = goes_before q p

All-sink :
    (P : FixProposal → Type 0) (p : FixProposal) (qs : List FixProposal)
    → P p
    → All P qs
    → All P (sink p qs)
unfolding sink
All-sink P p [] h k = (h, tt)
All-sink P p (q ∷ qs) h k = elim (Bool-cases (goes_before p q)) [
  | inl e ↦ rw e (k.0, All-sink P p qs h k.1)
  | inr e ↦ rw e (h, k)
]

-- With the last element first, none goes before one that stands behind it in the list.
sink-IsSorted :
    (p : FixProposal) (qs : List FixProposal) → IsSorted after qs → IsSorted after (sink p qs)
unfolding sink
sink-IsSorted p [] h = (tt, tt)
sink-IsSorted p (q ∷ qs) h = elim (Bool-cases (goes_before p q)) [
  | inl e ↦ rw e (All-sink (λ r. after r q ≡ false) p qs (ground arith) h.0, sink-IsSorted p qs h.1)
  | inr e ↦ rw e ((e, All-map _ _ qs (λ r k. ground arith) h.0), h)
]

rank_loop-IsSorted :
    (front ps : List FixProposal) → IsSorted after front → IsSorted after (rank_loop front ps)
unfolding rank_loop
rank_loop-IsSorted front [] h = h
rank_loop-IsSorted front (p ∷ ps) h = rank_loop-IsSorted (sink p front) ps (sink-IsSorted p front h)

-- Each of the second list stands before all of the first.
abbrev Joins : List FixProposal → List FixProposal → Type 0
Joins done ps = All (λ p. All (λ d. goes_before d p ≡ false) done) ps

Joins-none : (ps : List FixProposal) → Joins [] ps
Joins-none [] = tt
Joins-none (p ∷ ps) = (tt, Joins-none ps)

from_last-IsSorted :
    (done ps : List FixProposal)
    → IsSorted goes_before done
    → IsSorted after ps
    → Joins done ps
    → IsSorted goes_before (from_last done ps)
unfolding from_last
from_last-IsSorted done [] hd hp h = hd
from_last-IsSorted done (p ∷ ps) hd hp h =
    from_last-IsSorted (p ∷ done) ps (h.0, hd) hp.1 (All-both _ _ ps hp.0 h.1)

abbrev pub of_order : ℕ → FixProposal → Bool
of_order n p = class_order p.class == n

keep-sink :
    (n : ℕ) (p : FixProposal) (qs : List FixProposal)
    → keep (of_order n) (sink p qs) ≡ keep (of_order n) (p ∷ qs)
unfolding sink
keep-sink n p [] = refl
keep-sink n p (q ∷ qs) = ground (arith, keep-sink n p qs)

moved :
    (b : Bool) (p : FixProposal) (done ps : List FixProposal)
    → from_last (if b then p ∷ done else done) ps ≡ from_last done (if b then p ∷ ps else ps)
unfolding from_last
moved true p done ps = refl
moved false p done ps = refl

keep-from_last :
    (n : ℕ) (done ps : List FixProposal)
    → keep (of_order n) (from_last done ps)
      ≡ from_last (keep (of_order n) done) (keep (of_order n) ps)
unfolding from_last
keep-from_last n done [] = refl
keep-from_last n done (p ∷ ps) =
    keep-from_last n (p ∷ done) ps
    ∙ moved (of_order n p) p (keep (of_order n) done) (keep (of_order n) ps)

keep-rank_loop :
    (n : ℕ) (front ps : List FixProposal)
    → keep (of_order n) (rank_loop front ps)
      ≡ from_last (keep (of_order n) front) (keep (of_order n) ps)
unfolding rank_loop from_last
keep-rank_loop n front [] = refl
keep-rank_loop n front (p ∷ ps) =
    keep-rank_loop n (sink p front) ps
    ∙ ap (λ qs. from_last qs (keep (of_order n) ps)) (keep-sink n p front)
    ∙ moved (of_order n p) p (keep (of_order n) front) (keep (of_order n) ps)

from_last_twice : (c d ps : List FixProposal) → from_last c (from_last d ps) ≡ from_last (ps ++ c) d
unfolding from_last
from_last_twice c d [] = refl
from_last_twice c d (p ∷ ps) = from_last_twice c (p ∷ d) ps

reversed_twice : (ps : List FixProposal) → from_last [] (from_last [] ps) ≡ ps
unfolding from_last
reversed_twice ps = from_last_twice [] [] ps ∙ append-nil ps

-- The ranking leaves no proposal behind one that its class goes before, and the proposals of one order
-- are the given ones in the order that they had.
pub rank_proposals_lem :
    (ps : List FixProposal) (n : ℕ)
    → IsSorted goes_before (rank_proposals ps)
      × (keep (of_order n) (rank_proposals ps) ≡ keep (of_order n) ps)
unfolding rank_proposals
rank_proposals_lem ps n = (
  from_last-IsSorted [] (rank_loop [] ps) tt (rank_loop-IsSorted [] ps tt) (Joins-none _),
  keep-from_last n [] (rank_loop [] ps)
      ∙ ap (from_last []) (keep-rank_loop n [] ps)
      ∙ reversed_twice (keep (of_order n) ps),
)

All-rank_loop :
    (P : FixProposal → Type 0) (front ps : List FixProposal)
    → All P front
    → All P ps
    → All P (rank_loop front ps)
unfolding rank_loop
All-rank_loop P front [] h k = h
All-rank_loop P front (p ∷ ps) h k =
    All-rank_loop P (sink p front) ps (All-sink P p front k.0 h) k.1

All-from_last :
    (P : FixProposal → Type 0) (done ps : List FixProposal)
    → All P done
    → All P ps
    → All P (from_last done ps)
unfolding from_last
All-from_last P done [] h k = h
All-from_last P done (p ∷ ps) h k = All-from_last P (p ∷ done) ps (k.0, h) k.1

pub All-rank_proposals :
    (P : FixProposal → Type 0) (ps : List FixProposal) → All P ps → All P (rank_proposals ps)
unfolding rank_proposals
All-rank_proposals P ps h = All-from_last P [] (rank_loop [] ps) tt (All-rank_loop P [] ps tt h)
