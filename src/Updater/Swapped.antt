-- ===== src/Updater/Swapped.antt =====
-- After a swap the installed binary is the new one, or the old one, or lies in the backup.
use devdiag.Base.{
  ℕ, zero, suc, String, List, Option, none, some, Bool, true, false, ◌||◌, ◌≡◌, ◌⊎◌, inl, inr, refl,
  arith, is_some, Bool-cases, ◌∙◌,
}
use devdiag.Updater.{
  File, Install, SwapError, swap_failed, sync_failed, Outcome, next_fails, others, copy_file,
  unlock, roll_back, rename_staged, stage, back_up, with_lock, swap_binary,
}

abbrev pub content_of : Option File → Option String
content_of none = none
content_of (some f) = some f.content

abbrev pub rollback_failed : Option SwapError → Bool
rollback_failed (some (swap_failed b)) = b
rollback_failed (some (sync_failed b)) = b
rollback_failed _ = false

abbrev pub IsSafe : Option String → Option String → Outcome → Type 0
IsSafe old new out =
    ((out.error ≡ none)
      × (content_of out.install.target ≡ new)
      × (content_of out.install.backup ≡ old))
    ⊎ ((is_some out.error ≡ true) × (content_of out.install.target ≡ old))
    ⊎ ((rollback_failed out.error ≡ true) × (content_of out.install.backup ≡ old))

copy_done :
    (src dst : Option File) (mode : ℕ) (faults : List Bool)
    → (copy_file src dst mode faults).failed ≡ false
    → content_of (copy_file src dst mode faults).dst ≡ content_of src
unfolding copy_file
copy_done none dst mode faults h = absurd (ground arith)
copy_done (some src) dst mode faults h = ground arith

module _ (old new : Option String) where
  roll_back-IsSafe :
      (d : Install) (mode : ℕ) (error : Bool → SwapError) (faults : List Bool)
      → ((b : Bool) → rollback_failed (some (error b)) ≡ b)
      → content_of d.backup ≡ old
      → IsSafe old new (roll_back d true mode error faults)
  unfolding roll_back unlock
  roll_back-IsSafe d mode error faults named kept =
      elim (Bool-cases (copy_file d.backup d.target mode (others faults)).failed) [
        | inl e ↦ inr (inr (named _ ∙ e, kept))
        | inr e ↦ inr (inl (refl, copy_done d.backup d.target mode (others faults) e ∙ kept))
      ]

  rename_staged-IsSafe :
      (d : Install) (mode : ℕ) (faults : List Bool)
      → content_of d.backup ≡ old
      → content_of d.staged ≡ new
      → IsSafe old new (rename_staged d true mode faults)
  unfolding rename_staged unlock
  rename_staged-IsSafe d mode faults kept ready = elim (Bool-cases (next_fails faults)) [
    | inl e ↦ simp e (roll_back-IsSafe d mode swap_failed _ (λ b. refl) kept)
    | inr e ↦ elim (Bool-cases (next_fails (others faults))) [
      | inl k ↦
          simp (e, k)
            (roll_back-IsSafe (record d { target = d.staged; staged = none }) mode sync_failed _
              (λ b. refl) kept)
      | inr k ↦ simp (e, k) (inl (refl, ready, kept))
    ]
  ]

  stage-IsSafe :
      (d : Install) (new_binary : Option File) (mode : ℕ) (faults : List Bool)
      → content_of new_binary ≡ new
      → content_of d.target ≡ old
      → content_of d.backup ≡ old
      → IsSafe old new (stage d new_binary true mode faults)
  unfolding stage unlock
  stage-IsSafe d new_binary mode faults given there kept =
      elim (Bool-cases (copy_file new_binary d.staged mode faults).failed) [
        | inl e ↦ simp e (inr (inl (refl, there)))
        | inr e ↦ simp e (
            rename_staged-IsSafe
              (record d { staged = (copy_file new_binary d.staged mode faults).dst }) mode _ kept
              (copy_done new_binary d.staged mode faults e ∙ given))
      ]

  back_up-IsSafe :
      (d : Install) (new_binary target : Option File) (faults : List Bool)
      → content_of new_binary ≡ new
      → content_of d.target ≡ old
      → is_some target ≡ true
      → IsSafe old new (back_up d new_binary target faults)
  unfolding back_up unlock
  back_up-IsSafe d new_binary none faults given there h = absurd (ground arith)
  back_up-IsSafe d new_binary (some installed) faults given there h =
      elim (Bool-cases (copy_file d.target d.backup installed.mode faults).failed) [
        | inl e ↦ simp e (inr (inl (refl, there)))
        | inr e ↦ simp e (
            stage-IsSafe
              (record d { backup = (copy_file d.target d.backup installed.mode faults).dst })
              new_binary installed.mode _ given there
              (copy_done d.target d.backup installed.mode faults e ∙ there))
      ]

  with_lock-IsSafe :
      (n : ℕ) (d : Install) (new_binary : Option File) (lock : Option Bool) (faults : List Bool)
      → content_of new_binary ≡ new
      → content_of d.target ≡ old
      → is_some d.target ≡ true
      → IsSafe old new (with_lock n d new_binary lock faults)
  unfolding with_lock
  with_lock-IsSafe zero d new_binary lock faults given there h = inr (inl (refl, there))
  with_lock-IsSafe (suc n) d new_binary none faults given there h =
      elim (Bool-cases (next_fails faults)) [
        | inl e ↦ simp e (inr (inl (refl, there)))
        | inr e ↦ simp e (
            back_up-IsSafe (record d { lock = some false }) new_binary d.target (others faults)
              given there h)
      ]
  with_lock-IsSafe (suc n) d new_binary (some true) faults given there h =
      with_lock-IsSafe n d new_binary _ (others faults) given there h
  with_lock-IsSafe (suc n) d new_binary (some false) faults given there h = inr (inl (refl, there))

-- Where a binary is installed, whatever operations fail: a swap without an error leaves the new binary
-- at the target and the old one in the backup; one with an error leaves the old binary there, or else the error says that the way
-- back failed, and the old binary is in the backup.
pub swap_binary-IsSafe :
    (d : Install) (new_binary : Option File) (faults : List Bool)
    → is_some d.target ≡ true
    → IsSafe (content_of d.target) (content_of new_binary) (swap_binary d new_binary faults)
unfolding swap_binary
swap_binary-IsSafe d new_binary faults h = elim (Bool-cases (is_some d.link)) [
  | inl e ↦ simp e (inr (inl (refl, refl)))
  | inr e ↦ elim (Bool-cases (next_fails faults || next_fails (others faults))) [
    | inl k ↦ simp (e, k) (inr (inl (refl, refl)))
    | inr k ↦ simp (e, k) (with_lock-IsSafe _ _ 2 d new_binary d.lock _ refl refl h)
  ]
]
