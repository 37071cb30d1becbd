-- ===== src/Updater/Examples.antt =====
-- A swap that is rolled back, a file mode that a stale staged file brings in, an installed binary that
-- is lost by a way back that was not needed, and an update that is attested and put into place.
use devdiag.Base.{
  to_lower, trim_prefix, String, [], ◌∷◌, Option, none, some, true, false, ◌≡◌, refl, All,
}
use devdiag.Base.Text.Split.{split}
use devdiag.Updater.{
  File, Install, copy_file, unlock, roll_back, rename_staged, stage, back_up, with_lock,
  swap_binary,
}
use devdiag.Updater.Swapped.{IsSafe, swap_binary-IsSafe}
use devdiag.Updater.Verify.{fields, is_hex, checksum_loop, checksum_for}
use devdiag.Updater.Digests.{Agrees, IsDigest, checksum_for-Agrees}
use devdiag.Updater.Apply.{
  swap_extracted, after_attestation, after_checksum, after_checksums, after_asset, asset_of,
  asset_name, after_name, Environment, Release, apply,
}
use devdiag.Updater.Verified.{IsGuarded, apply-IsGuarded}

abbrev installed : Install
installed = record {
  target = some (record { content = "old"; mode = 0x1c0 });
  backup = none;
  staged = none;
  lock = some true;
  link = none;
}

abbrev new_binary : Option File
new_binary = some (record { content = "new"; mode = 0x1ed })

-- Two operations for the probe, two for the stale lock and the new one, five for each copy; the rename
-- fails.
swap_binary-IsSafe_example : IsSafe (some "old") (some "new") (
    swap_binary installed new_binary (
      false ∷ false ∷ false ∷ false ∷ false ∷ false ∷ false ∷ false ∷ false ∷ false ∷ false ∷ false
      ∷ false ∷ false ∷ true ∷ []))
swap_binary-IsSafe_example =
    swap_binary-IsSafe installed new_binary
      (false ∷ false ∷ false ∷ false ∷ false ∷ false ∷ false ∷ false ∷ false ∷ false ∷ false ∷ false
        ∷ false ∷ false ∷ true ∷ [])
      refl

-- a staged file of mode 0755 that a crash left behind, beside a binary of mode 0700
stale_mode :
    (swap_binary
      (record installed { staged = some (record { content = ""; mode = 0x1ed }) })
      new_binary
      []).install.target
    ≡ some (record { content = "new"; mode = 0x1ed })
unfolding swap_binary with_lock back_up stage rename_staged copy_file unlock
stale_mode = refl

-- The rename fails, with the old binary still at the target, and so does the write of the copy that
-- is to bring it back.
lost_binary :
    (swap_binary installed new_binary (
      false ∷ false ∷ false ∷ false ∷ false ∷ false ∷ false ∷ false ∷ false ∷ false ∷ false ∷ false
      ∷ false ∷ false ∷ true ∷ false ∷ false ∷ false ∷ true ∷ [])).install.target
    ≡ none
unfolding swap_binary with_lock back_up stage rename_staged roll_back copy_file unlock
lost_binary = refl

abbrev sum : String
sum = "00000000000000000000000000000000000000000000000000000000000000ff"

abbrev checksums : String
checksums =
    "00000000000000000000000000000000000000000000000000000000000000ff  devdiag_1.2.0_linux_amd64.tar.gz"

abbrev environment : Environment
environment = record {
  goos = "linux";
  goarch = "amd64";
  repo = "meedoomostafa/devdiag";
  base_given = false;
  download_base = "https://github.com";
  fetch = λ url. some checksums;
  sha256 = λ asset. sum;
  attestation = λ asset. none;
  no_temp_dir = false;
  no_asset_file = false;
  extract = λ asset. new_binary;
}

abbrev release : Release
release = record { tag_name = "v1.2.0"; assets = ("checksums.txt", "https://e.x/c") ∷ [] }

apply-IsGuarded_example :
    IsGuarded environment release installed [] (apply environment release installed [])
apply-IsGuarded_example = apply-IsGuarded environment release installed []

-- The update is put into place.
puts_in_place :
    (apply environment release installed []).install.target
    ≡ some (record { content = "new"; mode = 0x1c0 })
unfolding apply swap_binary with_lock back_up stage rename_staged copy_file unlock checksum_for
    checksum_loop fields split is_hex trim_prefix after_name asset_name asset_of after_asset
    after_checksums after_checksum to_lower after_attestation swap_extracted
puts_in_place = refl

checksum_for-Agrees_example :
    All (Agrees "a.tgz" sum) (
      split b'\n'
        "00000000000000000000000000000000000000000000000000000000000000ff  a.tgz\nzz  b.tgz\n")
    × IsDigest sum
unfolding checksum_for checksum_loop fields split is_hex trim_prefix
checksum_for-Agrees_example =
    checksum_for-Agrees
      "00000000000000000000000000000000000000000000000000000000000000ff  a.tgz\nzz  b.tgz\n" "a.tgz"
      sum refl
