-- ===== src/Updater/Verified.antt =====
-- Nothing is swapped that was not verified.
use devdiag.Base.{
  String, List, Option, none, some, Bool, true, false, ◌≡◌, ◌⊎◌, inl, inr, refl, is_some,
  Bool-cases,
}
use devdiag.Domain.{equal_fold}
use devdiag.Updater.{File, Install, SwapError, swap_binary}
use devdiag.Updater.Verify.{Checksum, digest, checksum_for}
use devdiag.Updater.Apply.{
  Release, Environment, Applied, Answer, updated, failed, asset_name, asset_url, asset_of,
  answer_of, swap_extracted, after_attestation, after_checksum, after_checksums, after_asset,
  after_name, apply,
}

abbrev pub is_failed : Answer → Bool
is_failed (updated r) = false
is_failed (failed e) = true

-- the archive of the release, with the digest that its checksum file has for it, attested, and the
-- binary that is in it
abbrev pub IsVerified : Environment → Release → String → File → Type 0
IsVerified env rel name bin =
    (asset : String) × (checksums : String) × (expected : String) × (asset_name env rel.tag_name
      ≡ some name)
    × (env.fetch (asset_url env rel name) ≡ some asset)
    × (env.fetch (asset_url env rel "checksums.txt") ≡ some checksums)
    × (checksum_for checksums name ≡ digest expected)
    × (equal_fold (env.sha256 asset) expected ≡ true)
    × (env.attestation asset ≡ none)
    × (env.extract asset ≡ some bin)

module _ (env : Environment) (rel : Release) (d : Install) (faults : List Bool) where
  abbrev pub IsGuarded : Applied → Type 0
  IsGuarded out =
      ((out.install ≡ d) × (is_failed out.answer ≡ true))
      ⊎ ((name : String) × (bin : File) × IsVerified env rel name bin
          × (out.install ≡ (swap_binary d (some bin) faults).install)
          × (is_failed out.answer ≡ is_some (swap_binary d (some bin) faults).error))

  answer_lem :
      (name : String) (error : Option SwapError)
      → is_failed (answer_of env rel d faults name error) ≡ is_some error
  answer_lem name none = refl
  answer_lem name (some error) = refl

  extracted-IsGuarded :
      (name asset : String) (found : Option File)
      → ((bin : File) → found ≡ some bin → IsVerified env rel name bin)
      → IsGuarded (swap_extracted env rel d faults name found)
  unfolding swap_extracted
  extracted-IsGuarded name asset none h = inl (refl, refl)
  extracted-IsGuarded name asset (some bin) h =
      inr (name, bin, h bin refl, refl, answer_lem name (swap_binary d (some bin) faults).error)

  attested-IsGuarded :
      (name asset : String) (error : Option String)
      → ((bin : File) → error ≡ none → env.extract asset ≡ some bin → IsVerified env rel name bin)
      → IsGuarded (after_attestation env rel d faults name asset error)
  unfolding after_attestation
  attested-IsGuarded name asset none h =
      extracted-IsGuarded name asset (env.extract asset) (λ bin e. h bin refl e)
  attested-IsGuarded name asset (some error) h = inl (refl, refl)

  checksum-IsGuarded :
      (name asset checksums : String) (c : Checksum)
      → asset_name env rel.tag_name ≡ some name
      → env.fetch (asset_url env rel name) ≡ some asset
      → env.fetch (asset_url env rel "checksums.txt") ≡ some checksums
      → checksum_for checksums name ≡ c
      → IsGuarded (after_checksum env rel d faults name asset c)
  unfolding after_checksum
  checksum-IsGuarded name asset checksums (Checksum.refused error) h1 h2 h3 h4 = inl (refl, refl)
  checksum-IsGuarded name asset checksums (digest expected) h1 h2 h3 h4 =
      elim (Bool-cases (equal_fold (env.sha256 asset) expected)) [
        | inr e ↦ simp e (inl (refl, refl))
        | inl e ↦ elim (Bool-cases env.no_temp_dir) [
          | inl k ↦ simp (e, k) (inl (refl, refl))
          | inr k ↦ elim (Bool-cases env.no_asset_file) [
            | inl m ↦ simp (e, k, m) (inl (refl, refl))
            | inr m ↦
                simp (e, k, m)
                  (attested-IsGuarded name asset (env.attestation asset)
                    (λ bin a x. (asset, checksums, expected, h1, h2, h3, h4, e, a, x)))
          ]
        ]
      ]

  checksums-IsGuarded :
      (name asset : String) (got : Option String)
      → asset_name env rel.tag_name ≡ some name
      → env.fetch (asset_url env rel name) ≡ some asset
      → env.fetch (asset_url env rel "checksums.txt") ≡ got
      → IsGuarded (after_checksums env rel d faults name asset got)
  unfolding after_checksums
  checksums-IsGuarded name asset none h1 h2 h3 = inl (refl, refl)
  checksums-IsGuarded name asset (some checksums) h1 h2 h3 =
      checksum-IsGuarded name asset checksums (checksum_for checksums name) h1 h2 h3 refl

  asset-IsGuarded :
      (name : String) (got : Option String)
      → asset_name env rel.tag_name ≡ some name
      → env.fetch (asset_url env rel name) ≡ got
      → IsGuarded (after_asset env rel d faults name got)
  unfolding after_asset
  asset-IsGuarded name none h1 h2 = inl (refl, refl)
  asset-IsGuarded name (some asset) h1 h2 = checksums-IsGuarded name asset _ h1 h2 refl

  name-IsGuarded :
      (got : Option String)
      → asset_name env rel.tag_name ≡ got
      → IsGuarded (after_name env rel d faults got)
  unfolding after_name
  name-IsGuarded none h = inl (refl, refl)
  name-IsGuarded (some name) h = elim (Bool-cases (is_some (asset_of "checksums.txt" rel.assets))) [
    | inl e ↦ simp e (asset-IsGuarded name _ h refl)
    | inr e ↦ simp e (inl (refl, refl))
  ]

-- Either an update fails and nothing of the installation changes, or the installation is what the swap
-- to a binary makes of it, and the update fails just where the swap does: a binary from the release's
-- asset for the platform, whose SHA-256 is the one that the release's checksum file has for it, and
-- which is attested.
pub apply-IsGuarded :
    (env : Environment) (rel : Release) (d : Install) (faults : List Bool)
    → IsGuarded env rel d faults (apply env rel d faults)
unfolding apply
apply-IsGuarded env rel d faults =
    name-IsGuarded env rel d faults (asset_name env rel.tag_name) refl
