-- ===== src/Collectors/Arrivals.antt =====
-- The order in which the collectors end does not show in the results.
use devdiag.Base.{ℕ, zero, suc, ◌<◌, List, [], ◌∷◌, ◌++◌, ◌≡◌, ◌≢◌, refl, arith, All, ap, ◌∙◌, map}
use devdiag.Schema.{CollectorResult}
use devdiag.Collectors.{
  Collector, Course, run_one, set_at, receive_all, blanks, sent_from, run_with_observer,
}

abbrev Item : Type 0
Item = ℕ × CollectorResult

-- The channel hands out the items that are pending one at a time, any of them next.
pub data Delivered : List (ℕ × CollectorResult) → List (ℕ × CollectorResult) → Type 0 where
  all_read : Delivered [] []
  next :
      (before after : List (ℕ × CollectorResult)) (item : ℕ × CollectorResult)
      (rest : List (ℕ × CollectorResult))
      → Delivered (before ++ after) rest
      → Delivered (before ++ item ∷ after) (item ∷ rest)

abbrev Apart : List Item → Type 0
Apart [] = Unit
Apart (p ∷ ps) = All (λ q. p.0 ≢ q.0) ps × Apart ps

set_at_comm :
    (i j : ℕ) (a b : CollectorResult) (xs : List CollectorResult)
    → i ≢ j
    → set_at i a (set_at j b xs) ≡ set_at j b (set_at i a xs)
unfolding set_at
set_at_comm i j a b [] h = refl
set_at_comm zero zero a b (x ∷ xs) h = absurd (h refl)
set_at_comm zero (suc j) a b (x ∷ xs) h = refl
set_at_comm (suc i) zero a b (x ∷ xs) h = refl
set_at_comm (suc i) (suc j) a b (x ∷ xs) h = ap (◌∷◌ x) (set_at_comm i j a b xs (λ e. h (ap suc e)))

receive_first :
    (before after : List Item) (item : Item) (xs : List CollectorResult)
    → All (λ q. q.0 ≢ item.0) before
    → receive_all (set_at item.0 item.1 xs) (before ++ after)
      ≡ receive_all xs (before ++ item ∷ after)
unfolding receive_all
receive_first [] after item xs h = refl
receive_first (q ∷ qs) after item xs h =
    ap (λ ys. receive_all ys (qs ++ after)) (set_at_comm q.0 item.0 q.1 item.1 xs h.0)
    ∙ receive_first qs after item (set_at q.0 q.1 xs) h.1

All-middle :
    (P : Item → Type 0) (before after : List Item) (item : Item)
    → All P (before ++ item ∷ after)
    → All P (before ++ after) × P item
All-middle P [] after item h = (h.1, h.0)
All-middle P (q ∷ qs) after item h =
    let (rest, p) = All-middle P qs after item h.1 in ((h.0, rest), p)

Apart-middle :
    (before after : List Item) (item : Item)
    → Apart (before ++ item ∷ after)
    → All (λ q. q.0 ≢ item.0) before × Apart (before ++ after)
Apart-middle [] after item h = (tt, h.1)
Apart-middle (q ∷ qs) after item h =
    let (apart, rest) = Apart-middle qs after item h.1 in
    let (others, here) = All-middle _ qs after item h.0 in ((here, apart), (others, rest))

receive-Delivered :
    (pending arrivals : List Item) (xs : List CollectorResult)
    → Delivered pending arrivals
    → Apart pending
    → receive_all xs arrivals ≡ receive_all xs pending
unfolding receive_all
receive-Delivered [] [] xs all_read h = refl
receive-Delivered pending arrivals xs (next before after item rest d) h =
    let (apart, others) = Apart-middle before after item h in
    receive-Delivered (before ++ after) rest (set_at item.0 item.1 xs) d others
    ∙ receive_first before after item xs apart

sent-apart :
    (budget i j : ℕ) (cs : List (Collector × Course))
    → i < j
    → All (λ q. i ≢ q.0) (sent_from budget j cs)
unfolding sent_from
sent-apart budget i j [] h = tt
sent-apart budget i j (c ∷ cs) h =
    ((λ e. omega arith), sent-apart budget i (suc j) cs (omega arith))

Apart-sent_from : (budget i : ℕ) (cs : List (Collector × Course)) → Apart (sent_from budget i cs)
unfolding sent_from
Apart-sent_from budget i [] = tt
Apart-sent_from budget i (c ∷ cs) =
    (sent-apart budget i (suc i) cs (omega arith), Apart-sent_from budget (suc i) cs)

receive-suc :
    (budget i : ℕ) (cs : List (Collector × Course)) (x : CollectorResult)
    (xs : List CollectorResult)
    → receive_all (x ∷ xs) (sent_from budget (suc i) cs)
      ≡ x ∷ receive_all xs (sent_from budget i cs)
unfolding receive_all sent_from set_at
receive-suc budget i [] x xs = refl
receive-suc budget i (c ∷ cs) x xs =
    receive-suc budget (suc i) cs x (set_at i (run_one budget c.0 c.1) xs)

receive-in_order :
    (budget : ℕ) (cs : List (Collector × Course))
    → receive_all (blanks cs) (sent_from budget 0 cs) ≡ map (λ c. run_one budget c.0 c.1) cs
unfolding receive_all sent_from set_at blanks
receive-in_order budget [] = refl
receive-in_order budget (c ∷ cs) =
    receive-suc budget 0 cs (run_one budget c.0 c.1) (blanks cs)
    ∙ ap (◌∷◌ (run_one budget c.0 c.1)) (receive-in_order budget cs)

-- Whatever the order in which the channel hands out what the collectors sent, the results of a run
-- are those of the single collectors, in the order of the collectors.
pub run-Delivered :
    (budget : ℕ) (cs : List (Collector × Course)) (arrivals : List (ℕ × CollectorResult))
    → Delivered (sent_from budget 0 cs) arrivals
    → run_with_observer cs arrivals ≡ map (λ c. run_one budget c.0 c.1) cs
unfolding run_with_observer
run-Delivered budget cs arrivals d =
    receive-Delivered (sent_from budget 0 cs) arrivals (blanks cs) d (Apart-sent_from budget 0 cs)
    ∙ receive-in_order budget cs
