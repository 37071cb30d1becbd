-- ===== src/Scan/Told.antt =====
-- internal/app/scan.go: the findings that a scan has gathered so far are told by events, one by one.
use mathlib.Core.List.{append-nil}
use devdiag.Base.{
  if◌then◌else◌, ℕ, suc, ◌+◌, String, List, [], ◌∷◌, ◌++◌, Bool, true, false, ◌||◌, ◌=ₛ◌, length,
  map, count, ◌≡◌, inl, inr, refl, arith, Bool-cases, count-append, length-append, sym, ap, ◌∙◌,
}
use devdiag.Schema.{Finding}
use devdiag.Scan.{
  engine_error_event, Event, EventType, finding_added, ScanOptions, Evaluation, evaluated,
  engine_error, ScannerDeps, finding_event, observed_event, Observation, started, done, emitted,
}
use devdiag.Scan.Scanner.{Progress, with_findings, add_on, run_m6, run_m8}

abbrev pub found : Evaluation → List Finding
found (evaluated fs) = fs
found (engine_error text) = []

abbrev pub adds : EventType → Bool
adds finding_added = true
adds _ = false

abbrev pub is_added : Event → Bool
is_added e = adds e.type

-- What the progress has of the findings so far: they are told one by one.
abbrev pub Fed : Progress → List Finding → Type 0
Fed s fs = (s.findings ≡ fs) × (count is_added s.events ≡ length fs)

count-finding_events : (fs : List Finding) → count is_added (map finding_event fs) ≡ length fs
count-finding_events [] = refl
count-finding_events (f ∷ fs) = ap suc (count-finding_events fs)

pub count-observed : (os : List Observation) → count is_added (map observed_event os) ≡ 0
unfolding observed_event
count-observed [] = refl
count-observed (started name ∷ os) = count-observed os
count-observed (done res ∷ os) = count-observed os

count-told :
    (e : Event) (fs : List Finding)
    → is_added e ≡ false
    → count is_added (e ∷ map finding_event fs) ≡ length fs
count-told e fs h = rw h (count-finding_events fs)

pub sum-eq : {a b c d n : ℕ} → a ≡ c → b ≡ d → n ≡ c + d → a + b ≡ n
sum-eq h k p = omega arith

module _ {S : Type 0} (deps : ScannerDeps S) (opts : ScanOptions) where
  pub count-emitted :
      (es : List Event) → count is_added (map (emitted deps opts) es) ≡ count is_added es
  unfolding emitted
  count-emitted [] = refl
  count-emitted (e ∷ es) = ground (arith, count-emitted es)

  pub with_findings-Fed :
      (s : Progress) (e : Event) (xs fs : List Finding)
      → is_added e ≡ false
      → Fed s xs
      → Fed (with_findings s e fs) (xs ++ fs)
  with_findings-Fed s e xs fs h (p, q) = (
    ap (λ l. l ++ fs) p,
    count-append is_added s.events (e ∷ map finding_event fs)
        ∙ sum-eq q (count-told e fs h) (length-append xs fs),
  )

  pub add_on-Fed :
      (engine label : String) (v : Evaluation) (s : Progress) (xs : List Finding)
      → Fed s xs
      → Fed (add_on engine label v s) (xs ++ found v)
  unfolding add_on
  add_on-Fed engine label (evaluated fs) s xs h = with_findings-Fed s _ xs fs refl h
  add_on-Fed engine label (engine_error text) s xs (p, q) = (
    p ∙ sym (append-nil xs),
    count-append is_added s.events (engine_error_event engine label text ∷ [])
        ∙ sum-eq q refl (length-append xs []),
  )

  pub nothing-Fed : (s : Progress) (xs : List Finding) → Fed s xs → Fed s (xs ++ [])
  nothing-Fed s xs (p, q) = (p ∙ sym (append-nil xs), q ∙ ap length (sym (append-nil xs)))

  pub run_m6-Fed :
      (s : Progress) (snapshot : S) (xs : List Finding)
      → Fed s xs
      → Fed
          (run_m6 deps opts snapshot s)
          (xs ++ (if opts.profile =ₛ "ai-ml" then found (deps.m6 snapshot) else []))
  unfolding run_m6
  run_m6-Fed s snapshot xs h = elim (Bool-cases (opts.profile =ₛ "ai-ml")) [
    | inl e ↦ simp e (add_on-Fed "m6" "M6 engine" (deps.m6 snapshot) s xs h)
    | inr e ↦ simp e (nothing-Fed s xs h)
  ]

  pub run_m8-Fed :
      (s : Progress) (snapshot : S) (xs : List Finding)
      → Fed s xs
      → Fed
          (run_m8 deps opts snapshot s)
          (xs ++ (if deps.signals.has_ci || opts.ci then found (deps.m8 snapshot) else []))
  unfolding run_m8
  run_m8-Fed s snapshot xs h = elim (Bool-cases (deps.signals.has_ci || opts.ci)) [
    | inl e ↦ simp e (add_on-Fed "m8" "M8 engine" (deps.m8 snapshot) s xs h)
    | inr e ↦ simp e (nothing-Fed s xs h)
  ]
