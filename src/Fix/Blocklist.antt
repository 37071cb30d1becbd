-- ===== src/Fix/Blocklist.antt =====
-- internal/fix/blocklist.go, and of internal/fix/registry.go the templates and the tests that keep
-- dangerous commands out.
use devdiag.Base.{
  is_blank, has_prefix, if◌then◌else◌, [], ◌∷◌, String, List, Bool, true, false, ◌&&◌, ◌||◌, any,
  ◌=ₛ◌, ◌≡◌, refl,
}
use devdiag.Base.Text.Split.{has_text, joined, split}
use devdiag.Schema.{FixClass}

pub record Template : Type 0 where
  pub hint_id : String
  pub title : String
  pub class : FixClass
  pub bin : String
  pub args : List String
  pub rollback : List String
  pub required_evidence : List String
  pub platforms : List String
  pub confirm_message : String
  pub blocked_reason : String

-- the last part that is not empty
last_part : String → List String → String
last_part last [] = last
last_part last (p ∷ ps) = if is_blank p then last_part last ps else last_part p ps

-- `filepath.Base`
unfoldable pub base_name : String → String
unfolding last_part
base_name s =
    if is_blank s
    then "."
    else let last = last_part "" (split b'/' s) in if is_blank last then "/" else last

abbrev pub blocked_bins : List String
blocked_bins =
    "rm" ∷ "rmdir" ∷ "chown" ∷ "setenforce" ∷ "sestatus" ∷ "mkfs" ∷ "fdisk" ∷ "dd" ∷ "sh" ∷ "bash"
    ∷ "zsh" ∷ "dash" ∷ "ksh" ∷ "fish" ∷ "csh" ∷ "tcsh" ∷ []

unfoldable pub is_blocked_bin : String → Bool
is_blocked_bin bin = any (λ b. base_name bin =ₛ b) blocked_bins

abbrev pub dangerous : List String
dangerous =
    "rm -rf" ∷ "rm -fr" ∷ "rm -r -f" ∷ "rmdir -p" ∷ "chown -R /" ∷ "chown -R ~" ∷ "chown -R $HOME"
    ∷ "setenforce 0" ∷ "mkfs" ∷ "fdisk" ∷ "dd if=" ∷ []

unfoldable pub is_blocked_arg : String → Bool
is_blocked_arg arg =
    any (has_text arg) dangerous
    || has_text arg "docker volume rm"
    || has_text arg "podman volume rm"
    || (has_text arg "ssh" && has_text arg "rm")

unfoldable pub is_blocked_command : String → List String → Bool
is_blocked_command bin args =
    is_blocked_bin bin || any is_blocked_arg args || is_blocked_arg (joined " " args)

abbrev blocked_head : List String → Bool
blocked_head [] = false
blocked_head (bin ∷ args) = is_blocked_bin bin

unfoldable pub is_blocked_template : Template → Bool
is_blocked_template t =
    is_blocked_bin t.bin
    || any is_blocked_arg t.args
    || is_blocked_arg (joined " " t.args)
    || any is_blocked_arg t.rollback
    || blocked_head t.rollback
    || is_blocked_arg (joined " " t.rollback)

blocks_split : is_blocked_command "sudo" ("rm" ∷ "-rf" ∷ "/x" ∷ []) ≡ true
unfolding is_blocked_command is_blocked_bin base_name split is_blocked_arg has_text joined
    has_prefix
blocks_split = refl

lets_chmod : is_blocked_command "/bin/chmod" ("+x" ∷ "/repo/run" ∷ []) ≡ false
unfolding is_blocked_command is_blocked_bin base_name split is_blocked_arg has_text joined
    has_prefix
lets_chmod = refl
