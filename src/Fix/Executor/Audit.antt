-- ===== src/Fix/Executor/Audit.antt =====
-- What the audit log has of an apply.
use mathlib.Core.List.{append-nil, append_assoc}
use devdiag.Base.{
  String, List, [], ◌∷◌, ◌++◌, Option, none, some, Bool, true, not, ◌&&◌, ◌≡◌, refl, ◌⊎◌, inl, inr,
  is_some, is_blank, Bool-cases, ap, sym, ◌∙◌,
}
use devdiag.Schema.{FixClass, FixProposal}
use devdiag.Fix.Blocklist.{is_blocked_command}
use devdiag.Fix.Executor.{
  dialog, confirms, command_of, preflight_audit, execute, start, run_command, succeeded,
  confirm_guarded, apply_class, after_preflight, conclude, settle, execution_of, failure,
}
use devdiag.Fix.AuditLog.{
  World, Executor, ExecutorOptions, Outcome, ExecuteError, FixExecution, FixAuditEntry, WriteFault,
  is_blocked, is_saved, write, write_next, refuse, blank_entry,
}

abbrev pub IsGrown : List FixAuditEntry → List FixAuditEntry → Type 0
IsGrown before after = (added : List FixAuditEntry) × (after ≡ before ++ added)

IsGrown-refl : (xs : List FixAuditEntry) → IsGrown xs xs
IsGrown-refl xs = ([], sym (append-nil xs))

IsGrown-trans : (xs ys zs : List FixAuditEntry) → IsGrown xs ys → IsGrown ys zs → IsGrown xs zs
IsGrown-trans xs ys zs (a, h) (b, k) = (a ++ b, k ∙ ap (λ l. l ++ b) h ∙ append_assoc xs a b)

abbrev pub executed_entry : FixProposal → FixExecution → FixAuditEntry
executed_entry p x = record (blank_entry p) { execution = some x }

-- A success that the last line of the log tells of.
abbrev pub IsRecorded : Executor → FixProposal → Outcome → Type 0
IsRecorded e p out =
    (x : FixExecution) × (before : List FixAuditEntry) × (out.execution ≡ some x)
    × (x.success ≡ true)
    × (succeeded (e.run (command_of p).0 (command_of p).1) ≡ true)
    × (out.world.log ≡ before ++ executed_entry p x ∷ [])

abbrev pub IsHonest : Executor → World → FixProposal → Outcome → Type 0
IsHonest e w p out = IsGrown w.log out.world.log × ((is_some out.error ≡ true) ⊎ IsRecorded e p out)

write_next-IsGrown :
    (w : World) (entry : FixAuditEntry) (faults : List (Option WriteFault))
    → IsGrown w.log (write_next w entry faults).0.log
unfolding write_next
write_next-IsGrown w entry [] = (entry ∷ [], refl)
write_next-IsGrown w entry (none ∷ faults) = (entry ∷ [], refl)
write_next-IsGrown w entry (some fault ∷ faults) = elim (Bool-cases fault.line_written) [
  | inl h ↦ rw h (entry ∷ [], refl)
  | inr h ↦ rw h (IsGrown-refl w.log)
]

write-IsGrown :
    (e : Executor) (w : World) (entry : FixAuditEntry) → IsGrown w.log (write e w entry).0.log
unfolding write
write-IsGrown e w entry = elim (Bool-cases e.audit) [
  | inl h ↦ rw h (write_next-IsGrown w entry w.faults)
  | inr h ↦ rw h (IsGrown-refl w.log)
]

write_next_done :
    (w : World) (entry : FixAuditEntry) (faults : List (Option WriteFault))
    → (write_next w entry faults).1 ≡ none
    → (write_next w entry faults).0.log ≡ w.log ++ entry ∷ []
unfolding write_next
write_next_done w entry [] h = refl
write_next_done w entry (none ∷ faults) h = refl
write_next_done w entry (some fault ∷ faults) h = absurd (cc)

write-eq :
    (e : Executor) (w : World) (entry : FixAuditEntry)
    → e.audit ≡ true
    → write e w entry ≡ write_next w entry w.faults
unfolding write
write-eq e w entry h = rw h refl

write_done :
    (e : Executor) (w : World) (entry : FixAuditEntry)
    → e.audit ≡ true
    → (write e w entry).1 ≡ none
    → (write e w entry).0.log ≡ w.log ++ entry ∷ []
write_done e w entry h k =
    let q = write-eq e w entry h in
    ap (λ r. r.0.log) q ∙ write_next_done w entry w.faults (sym (ap (λ r. r.1) q) ∙ k)

refuse-IsHonest :
    (e : Executor) (w : World) (p : FixProposal) (entry : FixAuditEntry) (error : ExecuteError)
    → IsHonest e w p (refuse e w entry error)
unfolding refuse
refuse-IsHonest e w p entry error = (write-IsGrown e w entry, inl refl)

conclude_lem :
    (w : World) (x : FixExecution) (fault : Option WriteFault) (denied : Bool)
    → (is_some (conclude w (settle x fault) denied).error ≡ true)
      ⊎ ((fault ≡ none) × (x.success ≡ true))
unfolding conclude settle
conclude_lem w x (some fault) denied = inl refl
conclude_lem w x none denied = elim (Bool-cases x.success) [
  | inl h ↦ inr (refl, h)
  | inr h ↦ inl (simp h refl)
]

run_command-IsHonest :
    (e : Executor) (w : World) (p : FixProposal) (redact : String → String)
    → e.audit ≡ true
    → IsHonest e w p (run_command e w p redact (command_of p))
unfolding run_command conclude execution_of settle
run_command-IsHonest e w p redact h =
    let (bin, args) = command_of p in
    let res = e.run bin args in
    let x = execution_of redact p bin res in
    let ran = record w { ran = w.ran ++ (bin, args) ∷ [] } in
    let entry = executed_entry p x in
    let fault = (write e ran entry).1 in
    (
      write-IsGrown e ran entry,
      elim (conclude_lem (write e ran entry).0 x fault
          (not (is_some fault) && (failure redact bin res).1)) [
            | inl k ↦ inl k
            | inr (k, s) ↦
                inr (x, w.log, ap (λ f. some (settle x f)) k, s, s, write_done e ran entry h k)
          ],
    )

start-IsHonest :
    (e : Executor) (w : World) (p : FixProposal) (redact : String → String)
    → e.audit ≡ true
    → IsHonest e w p (start e w p redact)
unfolding start
start-IsHonest e w p redact h = elim (Bool-cases (is_blank (command_of p).0)) [
  | inl k ↦ rw k (IsGrown-refl w.log, inl refl)
  | inr k ↦ elim (Bool-cases (is_blocked_command (command_of p).0 (command_of p).1)) [
    | inl b ↦ rw (k, b) (IsGrown-refl w.log, inl refl)
    | inr b ↦ rw (k, b) (run_command-IsHonest e w p redact h)
  ]
]

confirm_guarded-IsHonest :
    (e : Executor) (w : World) (p : FixProposal) (opts : ExecutorOptions)
    → e.audit ≡ true
    → IsHonest e w p (confirm_guarded e w p opts)
unfolding confirm_guarded
confirm_guarded-IsHonest e w p opts au = elim (Bool-cases (not opts.fresh && is_saved p.source)) [
  | inl h ↦ simp h (refuse-IsHonest e w p _ _)
  | inr h ↦ elim (Bool-cases opts.interactive) [
    | inl k ↦ elim (Bool-cases (confirms opts.answer)) [
      | inl agree ↦
          simp (h, k, agree)
            (start-IsHonest e (record w { shown = w.shown ++ dialog p }) p opts.redact au)
      | inr decline ↦
          simp (h, k, decline) (refuse-IsHonest e (record w { shown = w.shown ++ dialog p }) p _ _)
    ]
    | inr k ↦ simp (h, k) (refuse-IsHonest e w p _ _)
  ]
]

apply_class-IsHonest :
    (e : Executor) (w : World) (p : FixProposal) (opts : ExecutorOptions) (class : FixClass)
    → e.audit ≡ true
    → IsHonest e w p (apply_class e w p opts class)
unfolding apply_class
apply_class-IsHonest e w p opts FixClass.guarded h = confirm_guarded-IsHonest e w p opts h
apply_class-IsHonest e w p opts FixClass.manual h = refuse-IsHonest e w p _ _
apply_class-IsHonest e w p opts FixClass.safe h = start-IsHonest e w p opts.redact h
apply_class-IsHonest e w p opts FixClass.blocked h = start-IsHonest e w p opts.redact h
apply_class-IsHonest e w p opts (FixClass.other s) h = start-IsHonest e w p opts.redact h

after_preflight-IsHonest :
    (e : Executor) (w : World) (r : World × Option WriteFault) (p : FixProposal)
    (opts : ExecutorOptions)
    → e.audit ≡ true
    → IsGrown w.log r.0.log
    → IsHonest e w p (after_preflight e r p opts)
unfolding after_preflight
after_preflight-IsHonest e w (v, some fault) p opts h g = (g, inl refl)
after_preflight-IsHonest e w (v, none) p opts h g =
    let (more, rest) = apply_class-IsHonest e v p opts p.class h in
    (IsGrown-trans w.log v.log _ g more, rest)

preflight-IsGrown :
    (e : Executor) (w : World) (p : FixProposal) → IsGrown w.log (preflight_audit e w p).0.log
unfolding preflight_audit
preflight-IsGrown e w p = write-IsGrown e w _

-- Where there is an audit log and apply is asked for, whatever becomes of the writes, the log keeps all
-- it had and only grows at its end; and either an error is returned, or the execution is one that
-- succeeded, of a command that succeeded, and the last line of the log is the entry with it.
pub execute-IsHonest :
    (e : Executor) (w : World) (p : FixProposal) (opts : ExecutorOptions)
    → e.audit ≡ true
    → opts.apply ≡ true
    → IsHonest e w p (execute e w p opts)
unfolding execute
execute-IsHonest e w p opts h k = elim (Bool-cases (is_blocked p.class)) [
  | inl b ↦ simp (b, k) (refuse-IsHonest e w p _ _)
  | inr b ↦
      simp (b, k)
        (after_preflight-IsHonest e w (preflight_audit e w p) p opts h (preflight-IsGrown e w p))
]
