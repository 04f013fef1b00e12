-- ===== src/Verify/App/Accept.antt =====
-- The packages that `verify_app` of verify/zip_verify.c accepts.
use frameworks_system_ota.Prelude.{
  ℕ, ◌+◌, ◌<◌, ◌≤◌, ◌≡◌, refl, sym, ◌∙◌, ◌↔◌, String, true, some, List, arith, length,
}
use frameworks_system_ota.Prelude.Int.{pos, ◌<ℤ◌}
use frameworks_system_ota.Verify.Bytes.{read_mem, slice}
use frameworks_system_ota.Verify.Platform.{
  Os, Avb, IsPosix, NoReadError, IsSha256, digest_size, is_count,
}
use frameworks_system_ota.Verify.Block.{SignatureBlock}
use frameworks_system_ota.Verify.AppBlock.{AppBlock, parse_app_block}
use frameworks_system_ota.Verify.Digest.Sound.{WellPlaced, expected_digest, verify_digest_lem}
use frameworks_system_ota.Verify.App.{
  read_key, verify_signature, parse_signing_block, check_package, check_signer, signing_block,
  verify_app,
}
use frameworks_system_ota.Verify.App.Sound.{IsSigned, signer_sound}

-- The first signer in a signing block is genuine: the key's signature of the signed data verifies, and
-- the 32 bytes at the signed digest are `digest`.
pub record IsGenuine (os : Os) (avb : Avb) (key_size : ℕ) (cert_path : String) (mem : List ℕ)
    (info : SignatureBlock) (digest : List ℕ) : Type 0 where
  pub key : List ℕ
  pub raw_data : List ℕ
  pub signature : List ℕ
  pub key_read : read_key os cert_path key_size ≡ some key
  pub data_read : read_mem mem info.signed_data.start info.signed_data.length ≡ some raw_data
  pub signature_read :
      read_mem mem info.signatures_content.start info.signatures_content.length ≡ some signature
  pub same_algorithm : info.digests_signatures_algorithm_id ≡ info.signatures_algorithm_id
  pub verified : verify_signature avb key raw_data signature ≡ pos 0
  pub same_digest : slice mem info.one_digest.start digest_size ≡ digest

module _ (os : Os) (avb : Avb) (buflen key_size : ℕ) (app_path cert_path : String) where
  package_accepted :
      (app_block : AppBlock) (mem : List ℕ) (info : SignatureBlock)
      → (s : IsSigned os avb buflen key_size app_path cert_path app_block mem info)
      → check_package os avb buflen key_size app_path app_block mem info s.key ≡ some (pos 0)
  unfolding check_package is_count
  package_accepted app_block mem info s =
      rw (s.data_read, s.signature_read, s.verified, s.digest_verified) refl

  signer_accepted :
      (app_block : AppBlock) (mem : List ℕ) (info : SignatureBlock)
      → os.stat cert_path ≡ pos 0
      → pos 0 <ℤ os.open_file cert_path
      → IsSigned os avb buflen key_size app_path cert_path app_block mem info
      → check_signer os avb buflen key_size app_path cert_path app_block mem info ≡ some (pos 0)
  unfolding check_signer is_count
  signer_accepted app_block mem info hs opened s =
      let accepted = package_accepted app_block mem info s in
      let key_read = s.key_read in let ids = s.same_algorithm in ground arith

  -- Past the tests that do not look at the package, `check_signer` decides.
  app_decides :
      (comment_len id : ℕ) (app_block : AppBlock) (info : SignatureBlock)
      → pos 0 <ℤ os.open_file app_path
      → os.malloc app_block.signature_block.length ≡ true
      → parse_app_block os app_path comment_len ≡ some app_block
      → parse_signing_block (signing_block os avb buflen key_size app_path app_block) id ≡ some info
      → verify_app os avb buflen key_size app_path cert_path comment_len id
        ≡ check_signer os avb buflen key_size app_path cert_path app_block
            (signing_block os avb buflen key_size app_path app_block)
            info
  unfolding verify_app
  app_decides comment_len id app_block info ho hm parsed signer = ground arith

module _ (os : Os) (avb : Avb) (posix : IsPosix os) (reads : NoReadError os) (sha : IsSha256 avb)
    (buflen key_size : ℕ) (app_path cert_path : String) (app_block : AppBlock) where
  abbrev mem : List ℕ
  mem = signing_block os avb buflen key_size app_path app_block

  -- `IsSigned` says of the digest that `verify_digest` returns 0, `IsGenuine` what it is.
  digest_accepted :
      (info : SignatureBlock)
      → 0 < buflen
      → os.malloc buflen ≡ true
      → os.malloc app_block.eocd_block.length ≡ true
      → pos 0 <ℤ os.open_file app_path
      → WellPlaced (os.content app_path) app_block
      → os.read_count (os.content app_path) app_block.eocd_block.start app_block.eocd_block.length
        ≡ pos app_block.eocd_block.length
      → info.one_digest.start + digest_size ≤ length mem
      → IsSigned os avb buflen key_size app_path cert_path app_block mem info
        ↔ IsGenuine os avb key_size cert_path mem info
            (expected_digest avb (os.content app_path) app_block)
  digest_accepted info hb m1 m2 opened w full hd =
      let (to, from) =
        verify_digest_lem os avb posix reads sha buflen app_path app_block mem info.one_digest.start
          hb m1 m2 (omega arith) w full hd in
      (
        λ s. record {
          key = s.key;
          raw_data = s.raw_data;
          signature = s.signature;
          key_read = s.key_read;
          data_read = s.data_read;
          signature_read = s.signature_read;
          same_algorithm = s.same_algorithm;
          verified = s.verified;
          same_digest = to s.digest_verified;
        },
        λ g. record {
          key = g.key;
          raw_data = g.raw_data;
          signature = g.signature;
          key_read = g.key_read;
          data_read = g.data_read;
          signature_read = g.signature_read;
          same_algorithm = g.same_algorithm;
          verified = g.verified;
          digest_verified = from g.same_digest;
        },
      )

  -- For a package that parses, whose parts lie in the file and whose signed digest lies in the
  -- signing block, where nothing fails and the key can be opened: `verify_app` returns 0 exactly if
  -- the first signer is genuine, for the content digest of the package.
  pub verify_app_lem :
      (comment_len id : ℕ) (info : SignatureBlock)
      → 0 < buflen
      → os.malloc buflen ≡ true
      → os.malloc app_block.eocd_block.length ≡ true
      → os.malloc app_block.signature_block.length ≡ true
      → pos 0 <ℤ os.open_file app_path
      → os.stat cert_path ≡ pos 0
      → pos 0 <ℤ os.open_file cert_path
      → parse_app_block os app_path comment_len ≡ some app_block
      → parse_signing_block mem id ≡ some info
      → WellPlaced (os.content app_path) app_block
      → os.read_count (os.content app_path) app_block.eocd_block.start app_block.eocd_block.length
        ≡ pos app_block.eocd_block.length
      → info.one_digest.start + digest_size ≤ length mem
      → (verify_app os avb buflen key_size app_path cert_path comment_len id ≡ some (pos 0))
        ↔ IsGenuine os avb key_size cert_path mem info
            (expected_digest avb (os.content app_path) app_block)
  verify_app_lem comment_len id info hb m1 m2 m3 opened hs key_opened parsed signer w full hd =
      let decides =
        app_decides os avb buflen key_size app_path cert_path comment_len id app_block info opened
          m3 parsed signer in
      let (to, from) = digest_accepted info hb m1 m2 opened w full hd in
      (
        λ h. to (
            signer_sound os avb buflen key_size app_path cert_path app_block mem info key_opened
              (sym decides ∙ h)),
        λ g.
            decides
            ∙ signer_accepted os avb buflen key_size app_path cert_path app_block mem info hs
                key_opened (from g),
      )
