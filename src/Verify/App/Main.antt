-- ===== src/Verify/App/Main.antt =====
-- The exit status of verify/zip_verify.c as a program.
use frameworks_system_ota.Prelude.{
  ℕ, ◌+◌, ◌≤◌, ◌<◌, ◌≡◌, refl, ◌↔◌, String, true, some, List, [], ◌∷◌, arith, length,
}
use frameworks_system_ota.Prelude.Int.{pos, ◌<ℤ◌}
use frameworks_system_ota.Verify.Platform.{Os, Avb, Unzip, IsPosix, IsSha256, digest_size, is_count}
use frameworks_system_ota.Verify.Block.{SignatureBlock}
use frameworks_system_ota.Verify.AppBlock.{AppBlock, parse_app_block}
use frameworks_system_ota.Verify.AppBlock.Layout.{Package}
use frameworks_system_ota.Verify.Digest.Spec.{content_digest}
use frameworks_system_ota.Verify.Digest.Unsigned.{eocd_of, signing_bytes}
use frameworks_system_ota.Verify.App.{parse_signing_block, signing_block, verify_app, verify, main}
use frameworks_system_ota.Verify.App.Sound.{IsSigned, verify_app_sound}
use frameworks_system_ota.Verify.App.Accept.{IsGenuine}
use frameworks_system_ota.Verify.App.Package.{IsPackage, NothingFails, verify_package}

-- Both files exist, and minizip opens the package, closes it, and finds a comment of `n` bytes.
pub record IsZip (os : Os) (unzip : Unzip) (file cert : String) (n : ℕ) : Type 0 where
  pub file_there : os.access file ≡ pos 0
  pub cert_there : os.access cert ≡ pos 0
  pub opens : unzip.unz_open file ≡ true
  pub comment : unzip.unz_get_global_info file ≡ (pos 0, n)
  pub closes : unzip.unz_close file ≡ pos 0

module _ (os : Os) (avb : Avb) (buflen key_size : ℕ) (unzip : Unzip) where
  -- For such a file `main` is `verify_app`.
  pub main-verify_app :
      (file cert : String) (n id : ℕ)
      → IsZip os unzip file cert n
      → main os avb buflen key_size unzip (file ∷ cert ∷ []) id
        ≡ verify_app os avb buflen key_size file cert n id
  unfolding main verify is_count
  main-verify_app file cert n id zip =
      rw (main, zip.file_there, zip.cert_there, zip.opens, zip.comment, zip.closes) refl

  -- The tests of `main` and `verify`, passed.
  main_tests :
      (file cert : String) (id : ℕ)
      → main os avb buflen key_size unzip (file ∷ cert ∷ []) id ≡ some (pos 0)
      → verify_app os avb buflen key_size file cert (unzip.unz_get_global_info file).1 id
        ≡ some (pos 0)
  unfolding main verify is_count
  main_tests file cert id h = ground arith

  -- Two arguments, and the first signer of the package that they name is valid.
  pub record Accepted (args : List String) (id : ℕ) : Type 0 where
    pub file : String
    pub cert : String
    pub arguments : args ≡ file ∷ cert ∷ []
    pub app_block : AppBlock
    pub info : SignatureBlock
    pub parsed : parse_app_block os file (unzip.unz_get_global_info file).1 ≡ some app_block
    pub signer :
        parse_signing_block (signing_block os avb buflen key_size file app_block) id ≡ some info
    pub signed :
        IsSigned os avb buflen key_size file cert app_block
          (signing_block os avb buflen key_size file app_block)
          info

  -- Where every path can be opened, the program exits with 0 only if it is given two arguments,
  -- the package parses, and its first signer is valid: the key's signature of the signed data
  -- verifies, the two algorithm ids agree, and the digest check returned 0.
  pub main_sound :
      (args : List String) (id : ℕ)
      → ((path : String) → pos 0 <ℤ os.open_file path)
      → main os avb buflen key_size unzip args id ≡ some (pos 0)
      → Accepted args id
  unfolding main
  main_sound [] id opened h = absurd (cc h)
  main_sound (file ∷ []) id opened h = absurd (cc h)
  main_sound (file ∷ cert ∷ []) id opened h =
      let accepts = main_tests file cert id h in
      let (app_block, info, parsed, signer, signed) =
        verify_app_sound os avb buflen key_size file cert (unzip.unz_get_global_info file).1 id
          (opened cert) accepts in
      record {
        file = file;
        cert = cert;
        arguments = refl;
        app_block = app_block;
        info = info;
        parsed = parsed;
        signer = signer;
        signed = signed;
      }
  main_sound (file ∷ cert ∷ arg ∷ args) id opened h = absurd (cc h)

-- Where nothing fails, for a package below 2 GiB that is laid out around its signing block, and a
-- signing block that parses: the program exits with 0 exactly if the first signer is genuine, for
-- the digest of the zip file without the signing block.
pub main_package :
    (os : Os) (avb : Avb) (unzip : Unzip) (buflen key_size : ℕ) (app_path cert_path : String)
    (p : Package) (id : ℕ) (info : SignatureBlock)
    → IsPosix os
    → IsSha256 avb
    → IsPackage os app_path p
    → NothingFails os app_path cert_path
    → IsZip os unzip app_path cert_path (length p.comment)
    → 0 < buflen
    → parse_signing_block (signing_bytes p) id ≡ some info
    → info.one_digest.start + digest_size ≤ length (signing_bytes p)
    → (main os avb buflen key_size unzip (app_path ∷ cert_path ∷ []) id ≡ some (pos 0))
      ↔ IsGenuine os avb key_size cert_path
          (signing_bytes p)
          info
          (content_digest avb p.entries p.directory (eocd_of p (length p.entries)))
main_package os avb unzip buflen key_size app_path cert_path p id info posix sha file works zip hb
      parsed inside =
    rw (main-verify_app os avb buflen key_size unzip app_path cert_path (length p.comment) id zip) (
      verify_package os avb posix sha buflen key_size app_path cert_path p file works id info hb
        parsed inside)
