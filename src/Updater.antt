-- ===== src/Updater.antt =====
-- internal/updater/swap.go: the installed binary is replaced, with a way back. The file system is the
-- four files beside the target, and a list that tells of each operation to come whether it fails, where
-- an operation past its end succeeds. `os.Stat` fails only where there is no file. What the lock file
-- has in it is left out, since nothing reads it.
pub mod Swapped
pub mod Verify
mod Examples
pub mod Apply
pub mod Verified
pub mod Digests
use devdiag.Base.{
  is_some, if◌then◌else◌, ℕ, zero, suc, String, List, [], ◌∷◌, Option, none, some, Bool, true,
  false, ◌||◌,
}

pub record File : Type 0 where
  pub content : String
  pub mode : ℕ

-- `lock` tells, where there is a lock file, whether it is older than an hour; `link` where the target
-- leads if it is a symlink.
pub record Install : Type 0 where
  pub target : Option File
  pub backup : Option File
  pub staged : Option File
  pub lock : Option Bool
  pub link : Option String

pub data SwapError : Type 0 where
  is_symlink not_writable lock_failed in_progress lock_lost backup_failed stage_failed : SwapError
  swap_failed sync_failed : Bool → SwapError

pub record Outcome : Type 0 where
  pub install : Install
  pub error : Option SwapError

abbrev pub next_fails : List Bool → Bool
next_fails [] = false
next_fails (b ∷ bs) = b

abbrev pub others : List Bool → List Bool
others [] = []
others (b ∷ bs) = bs

-- what a copy leaves at its destination, and whether it failed
pub record Copied : Type 0 where
  pub failed : Bool
  pub dst : Option File
  pub faults : List Bool

-- A file that is there keeps its mode when it is opened.
abbrev pub mode_of : ℕ → Option File → ℕ
mode_of mode none = mode
mode_of mode (some f) = f.mode

-- A copy that failed removes its destination, which may fail too.
abbrev pub removed : Option File → List Bool → Copied
removed dst faults = record {
  failed = true;
  dst = if next_fails faults then dst else none;
  faults = others faults;
}

abbrev pub close_copy : File → List Bool → Copied
close_copy written faults = record {
  failed = next_fails faults;
  dst = some written;
  faults = others faults;
}

abbrev pub sync_copy : File → List Bool → Copied
sync_copy written faults =
    if next_fails faults
    then removed (some written) (others faults)
    else close_copy written (others faults)

abbrev pub write_copy : File → ℕ → List Bool → Copied
write_copy src mode faults =
    if next_fails faults
    then removed (some (record { content = ""; mode = mode })) (others faults)
    else sync_copy (record { content = src.content; mode = mode }) (others faults)

abbrev pub open_copy : File → Option File → ℕ → List Bool → Copied
open_copy src dst mode faults =
    if next_fails faults
    then record { failed = true; dst = dst; faults = others faults }
    else write_copy src (mode_of mode dst) (others faults)

-- `copyFileSyncMode`
unfoldable pub copy_file : Option File → Option File → ℕ → List Bool → Copied
copy_file none dst mode faults = record { failed = true; dst = dst; faults = others faults }
copy_file (some src) dst mode faults =
    if next_fails faults
    then record { failed = true; dst = dst; faults = others faults }
    else open_copy src dst mode (others faults)

-- `unlock`, which goes last
unfoldable pub unlock : Outcome → List Bool → Outcome
unlock out faults = record out {
  install = record out.install { lock = if next_fails faults then out.install.lock else none };
}

-- The deferred way back, after an error that says whether it failed. A staged file is removed first.
abbrev pub restored : Install → Copied → (Bool → SwapError) → List Bool → Outcome
restored d copied error faults =
    unlock
      (record { install = record d { target = copied.dst }; error = some (error copied.failed) })
      (if copied.failed then faults else others faults)

unfoldable pub roll_back : Install → Bool → ℕ → (Bool → SwapError) → List Bool → Outcome
roll_back d backed_up mode error faults =
    let cleared = record d { staged = if next_fails faults then d.staged else none } in
    let copied = copy_file d.backup d.target mode (others faults) in
    if backed_up
    then restored cleared copied error copied.faults
    else unlock (record { install = cleared; error = some (error false) }) (others faults)

-- `os.Rename` and `syncDir`
unfoldable pub rename_staged : Install → Bool → ℕ → List Bool → Outcome
rename_staged d backed_up mode faults =
    let moved = record d { target = d.staged; staged = none } in
    if next_fails faults
    then roll_back d backed_up mode swap_failed (others faults)
    else if next_fails (others faults)
    then roll_back moved backed_up mode sync_failed (others (others faults))
    else unlock (record { install = moved; error = none }) (others (others faults))

unfoldable pub stage : Install → Option File → Bool → ℕ → List Bool → Outcome
stage d new_binary backed_up mode faults =
    let copied = copy_file new_binary d.staged mode faults in
    let placed = record d { staged = copied.dst } in
    if copied.failed
    then unlock (record { install = placed; error = some stage_failed }) copied.faults
    else rename_staged placed backed_up mode copied.faults

unfoldable pub back_up : Install → Option File → Option File → List Bool → Outcome
back_up d new_binary none faults = stage d new_binary false 0x1ed faults
back_up d new_binary (some installed) faults =
    let copied = copy_file d.target d.backup installed.mode faults in
    let kept = record d { backup = copied.dst } in
    if copied.failed
    then unlock (record { install = kept; error = some backup_failed }) copied.faults
    else stage kept new_binary true installed.mode copied.faults

abbrev pub refused : Install → SwapError → Outcome
refused d error = record { install = d; error = some error }

-- `acquireLock`, with the attempts that are left: what follows has the lock
unfoldable pub with_lock : ℕ → Install → Option File → Option Bool → List Bool → Outcome
with_lock zero d new_binary lock faults = refused (record d { lock = lock }) lock_lost
with_lock (suc n) d new_binary none faults =
    if next_fails faults
    then refused (record d { lock = none }) lock_failed
    else back_up (record d { lock = some false }) new_binary d.target (others faults)
with_lock (suc n) d new_binary (some stale) faults =
    let again =
      with_lock n d new_binary (if next_fails faults then some stale else none) (others faults) in
    if stale then again else refused (record d { lock = some stale }) in_progress

-- `SwapBinary`; `checkWritable` makes a file and removes it.
unfoldable pub swap_binary : Install → Option File → List Bool → Outcome
swap_binary d new_binary faults =
    if is_some d.link
    then refused d is_symlink
    else if next_fails faults || next_fails (others faults)
    then refused d not_writable
    else with_lock 2 d new_binary d.lock (others (others faults))
