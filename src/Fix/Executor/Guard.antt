-- ===== src/Fix/Executor/Guard.antt =====
-- When a fix runs its command, and that the log only grows.
use devdiag.Base.{
  ap, ◌∙◌, if◌then◌else◌, String, List, [], ◌∷◌, ◌++◌, Option, none, some, Bool, true, false, not,
  ◌&&◌, ◌≡◌, refl, arith, Bool-cases, inl, inr, if◌then◌else◌, is_some, is_blank,
}
use devdiag.Schema.{FixClass, FixProposal}
use devdiag.Fix.Blocklist.{is_blocked_command}
use devdiag.Fix.Executor.{
  confirms, command_of, preflight_audit, execute, start, run_command, confirm_guarded, apply_class,
  after_preflight, conclude,
}
use devdiag.Fix.AuditLog.{
  World, Executor, ExecutorOptions, ExecuteError, FixAuditEntry, WriteFault, is_blocked, is_saved,
  write, write_next, refuse,
}

abbrev pub is_runnable : String × List String → Bool
is_runnable (bin, args) = not (is_blank bin) && not (is_blocked_command bin args)

abbrev pub agreed : FixProposal → ExecutorOptions → Bool
agreed p opts =
    not (not opts.fresh && is_saved p.source) && opts.interactive && confirms opts.answer

abbrev pub class_allows : FixProposal → ExecutorOptions → FixClass → Bool
class_allows p opts FixClass.blocked = false
class_allows p opts FixClass.manual = false
class_allows p opts FixClass.guarded = agreed p opts
class_allows p opts _ = true

-- All that must hold before a command runs.
abbrev pub cleared : Executor → World → FixProposal → ExecutorOptions → Bool
cleared e w p opts =
    opts.apply
    && not (is_some (preflight_audit e w p).1)
    && class_allows p opts p.class
    && is_runnable (command_of p)

abbrev ran_if :
    Bool → List (String × List String) → String × List String → List (String × List String)
ran_if b ran command = if b then ran ++ command ∷ [] else ran

ran-write_next :
    (w : World) (entry : FixAuditEntry) (faults : List (Option WriteFault))
    → (write_next w entry faults).0.ran ≡ w.ran
unfolding write_next
ran-write_next w entry [] = refl
ran-write_next w entry (none ∷ faults) = refl
ran-write_next w entry (some fault ∷ faults) = refl

pub ran-write : (e : Executor) (w : World) (entry : FixAuditEntry) → (write e w entry).0.ran ≡ w.ran
unfolding write
ran-write e w entry = ground (arith, ran-write_next w entry w.faults)

ran-refuse :
    (e : Executor) (w : World) (entry : FixAuditEntry) (error : ExecuteError)
    → (refuse e w entry error).world.ran ≡ w.ran
unfolding refuse
ran-refuse e w entry error = ran-write e w entry

ran-start :
    (e : Executor) (w : World) (p : FixProposal) (redact : String → String)
    → (start e w p redact).world.ran ≡ ran_if (is_runnable (command_of p)) w.ran (command_of p)
unfolding start run_command conclude
ran-start e w p redact = elim (Bool-cases (is_blank (command_of p).0)) [
  | inl h ↦ rw h refl
  | inr h ↦ elim (Bool-cases (is_blocked_command (command_of p).0 (command_of p).1)) [
    | inl k ↦ rw (h, k) refl
    | inr k ↦ rw (h, k) (ran-write e _ _)
  ]
]

ran-confirm_guarded :
    (e : Executor) (w : World) (p : FixProposal) (opts : ExecutorOptions)
    → (confirm_guarded e w p opts).world.ran
      ≡ ran_if (agreed p opts && is_runnable (command_of p)) w.ran (command_of p)
unfolding confirm_guarded
ran-confirm_guarded e w p opts = elim (Bool-cases (not opts.fresh && is_saved p.source)) [
  | inl h ↦ rw h (ran-refuse e w _ _)
  | inr h ↦ elim (Bool-cases opts.interactive) [
    | inl k ↦ elim (Bool-cases (confirms opts.answer)) [
      | inl agree ↦ rw (h, k, agree) (ran-start e _ p opts.redact)
      | inr decline ↦ rw (h, k, decline) (ran-refuse e _ _ _)
    ]
    | inr k ↦ rw (h, k) (ran-refuse e w _ _)
  ]
]

ran-apply_class :
    (e : Executor) (w : World) (p : FixProposal) (opts : ExecutorOptions) (class : FixClass)
    → is_blocked class ≡ false
    → (apply_class e w p opts class).world.ran
      ≡ ran_if (class_allows p opts class && is_runnable (command_of p)) w.ran (command_of p)
unfolding apply_class
ran-apply_class e w p opts FixClass.guarded h = ran-confirm_guarded e w p opts
ran-apply_class e w p opts FixClass.manual h = ran-refuse e w _ _
ran-apply_class e w p opts FixClass.safe h = ran-start e w p opts.redact
ran-apply_class e w p opts FixClass.blocked h = absurd (ground arith)
ran-apply_class e w p opts (FixClass.other s) h = ran-start e w p opts.redact

ran-preflight : (e : Executor) (w : World) (p : FixProposal) → (preflight_audit e w p).0.ran ≡ w.ran
unfolding preflight_audit
ran-preflight e w p = ran-write e w _

class_allows-blocked :
    (p : FixProposal) (opts : ExecutorOptions) (class : FixClass)
    → is_blocked class ≡ true
    → class_allows p opts class ≡ false
class_allows-blocked p opts FixClass.blocked h = refl
class_allows-blocked p opts FixClass.safe h = absurd (ground arith)
class_allows-blocked p opts FixClass.guarded h = absurd (ground arith)
class_allows-blocked p opts FixClass.manual h = refl
class_allows-blocked p opts (FixClass.other s) h = absurd (ground arith)

ran-after_preflight :
    (e : Executor) (r : World × Option WriteFault) (p : FixProposal) (opts : ExecutorOptions)
    → is_blocked p.class ≡ false
    → (after_preflight e r p opts).world.ran
      ≡ ran_if
          (not (is_some r.1) && class_allows p opts p.class && is_runnable (command_of p))
          r.0.ran
          (command_of p)
unfolding after_preflight
ran-after_preflight e (w, some fault) p opts h = refl
ran-after_preflight e (w, none) p opts h = ran-apply_class e w p opts p.class h

never : (a b c : Bool) → b ≡ false → (a && b && c) ≡ false
never a b c h = ground arith

-- The commands that have run after `execute` are those before it and, in exactly one case, that of the
-- proposal: apply is asked for, the preflight entry is written, the class is not blocked or manual, a
-- guarded fix is fresh and the user agreed to it at a terminal, and there is a binary and the runtime
-- blocklist lets the command pass.
pub ran-execute :
    (e : Executor) (w : World) (p : FixProposal) (opts : ExecutorOptions)
    → (execute e w p opts).world.ran
      ≡ (if cleared e w p opts then w.ran ++ command_of p ∷ [] else w.ran)
unfolding execute
ran-execute e w p opts = elim (Bool-cases opts.apply) [
  | inl k ↦ elim (Bool-cases (is_blocked p.class)) [
    | inl h ↦
        simp
          (
            h,
            k,
            never (not (is_some (preflight_audit e w p).1)) (class_allows p opts p.class)
                (is_runnable (command_of p)) (class_allows-blocked p opts p.class h),
          )
          (ran-refuse e w _ _)
    | inr h ↦
        simp (h, k)
          (ran-after_preflight e (preflight_audit e w p) p opts h
            ∙ ap
                (λ ran.
                  ran_if
                    (not (is_some (preflight_audit e w p).1)
                      && class_allows p opts p.class
                      && is_runnable (command_of p))
                    ran (command_of p))
                (ran-preflight e w p))
  ]
  | inr k ↦ elim (Bool-cases (is_blocked p.class)) [
    | inl h ↦ simp (h, k) (ran-refuse e w _ _)
    | inr h ↦ simp (h, k) (ran-write e w _)
  ]
]
