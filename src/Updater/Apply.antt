-- ===== src/Updater/Apply.antt =====
-- internal/updater/apply.go and of release.go the names: a release is fetched, verified and put into
-- place. The environment is an argument: the platform, the network, SHA-256 as hexadecimal text, the
-- GitHub CLI with none where it attests the asset, the temporary directory and the extraction.
use devdiag.Base.{
  ◌||◌, not, is_some, trim_prefix, ◌&&◌, is_blank, is_some, not, if◌then◌else◌, String, List, [],
  ◌∷◌, ◌++◌, Option, none, some, Bool, ◌=ₛ◌, ◌^^◌,
}
use devdiag.Domain.{equal_fold}
use devdiag.Updater.{File, Install, SwapError, swap_binary}
use devdiag.Updater.Verify.{Checksum, digest, ChecksumError, checksum_for}

pub record Release : Type 0 where
  pub tag_name : String
  pub assets : List (String × String)

pub record Environment : Type 0 where
  pub goos : String
  pub goarch : String
  pub repo : String
  pub base_given : Bool
  pub download_base : String
  pub fetch : String → Option String
  pub sha256 : String → String
  pub attestation : String → Option String
  pub no_temp_dir : Bool
  pub no_asset_file : Bool
  pub extract : String → Option File

pub data ApplyError : Type 0 where
  unsupported no_checksums asset_unreachable checksums_unreachable sha256_mismatch temp_dir_failed
        asset_file_failed extraction_failed :
      ApplyError
  checksum_error : ChecksumError → ApplyError
  not_attested : String → ApplyError
  swap_error : SwapError → ApplyError

pub record Result : Type 0 where
  pub tag : String
  pub asset_name : String
  pub asset_url : String

pub data Answer : Type 0 where
  updated : Result → Answer
  failed : ApplyError → Answer

-- `steps` is what `progress` was called with.
pub record Applied : Type 0 where
  pub install : Install
  pub steps : List String
  pub answer : Answer

-- `AssetName`
unfoldable pub asset_name : Environment → String → Option String
asset_name env tag =
    if not (env.goarch =ₛ "amd64" || env.goarch =ₛ "arm64")
    then none
    else if not (env.goos =ₛ "linux")
    then none
    else some ("devdiag_" ^^ trim_prefix tag "v" ^^ "_linux_" ^^ env.goarch ^^ ".tar.gz")

unfoldable pub asset_of : String → List (String × String) → Option String
asset_of name [] = none
asset_of name ((n, url) ∷ assets) = if n =ₛ name then some url else asset_of name assets

abbrev download_path : Environment → Release → String → String
download_path env rel name =
    env.download_base ^^ "/" ^^ env.repo ^^ "/releases/download/" ^^ rel.tag_name ^^ "/" ^^ name

abbrev url_or : Environment → String → Option String → String
url_or env path none = path
url_or env path (some u) = if not (is_blank u) && not env.base_given then u else path

-- `assetURL`
unfoldable pub asset_url : Environment → Release → String → String
asset_url env rel name = url_or env (download_path env rel name) (asset_of name rel.assets)

abbrev stop : Install → List String → ApplyError → Applied
stop d steps error = record { install = d; steps = steps; answer = failed error }

module _ (env : Environment) (rel : Release) (d : Install) (faults : List Bool) where
  abbrev pub answer_of : String → Option SwapError → Answer
  answer_of name none =
      updated (record { tag = rel.tag_name; asset_name = name; asset_url = asset_url env rel name })
  answer_of name (some error) = failed (swap_error error)

  abbrev pub four_steps : String → List String
  four_steps name =
      ("downloading " ^^ name)
      ∷ "verifying checksum"
      ∷ "verifying provenance attestation"
      ∷ "extracting binary"
      ∷ []

  unfoldable pub swap_extracted : String → Option File → Applied
  swap_extracted name none = stop d (four_steps name) extraction_failed
  swap_extracted name (some bin) =
      let out = swap_binary d (some bin) faults in
      record {
        install = out.install;
        steps = four_steps name ++ "swapping binary into place" ∷ [];
        answer = answer_of name out.error;
      }

  unfoldable pub after_attestation : String → String → Option String → Applied
  after_attestation name asset (some error) =
      stop d
        (("downloading " ^^ name) ∷ "verifying checksum" ∷ "verifying provenance attestation" ∷ [])
        (not_attested error)
  after_attestation name asset none = swap_extracted name (env.extract asset)

  abbrev pub two_steps : String → List String
  two_steps name = ("downloading " ^^ name) ∷ "verifying checksum" ∷ []

  unfoldable pub after_checksum : String → String → Checksum → Applied
  after_checksum name asset (Checksum.refused error) =
      stop d (two_steps name) (checksum_error error)
  after_checksum name asset (digest expected) =
      let next = after_attestation name asset (env.attestation asset) in
      if not (equal_fold (env.sha256 asset) expected)
      then stop d (two_steps name) sha256_mismatch
      else if env.no_temp_dir
      then stop d (two_steps name) temp_dir_failed
      else if env.no_asset_file
      then stop d (two_steps name) asset_file_failed
      else next

  unfoldable pub after_checksums : String → String → Option String → Applied
  after_checksums name asset none = stop d (two_steps name) checksums_unreachable
  after_checksums name asset (some checksums) =
      after_checksum name asset (checksum_for checksums name)

  unfoldable pub after_asset : String → Option String → Applied
  after_asset name none = stop d (("downloading " ^^ name) ∷ []) asset_unreachable
  after_asset name (some asset) =
      after_checksums name asset (env.fetch (asset_url env rel "checksums.txt"))

  unfoldable pub after_name : Option String → Applied
  after_name none = stop d [] unsupported
  after_name (some name) =
      if is_some (asset_of "checksums.txt" rel.assets)
      then after_asset name (env.fetch (asset_url env rel name))
      else stop d [] no_checksums

  -- `Apply`
  unfoldable pub apply : Applied
  apply = after_name (asset_name env rel.tag_name)
