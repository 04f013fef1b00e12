-- ===== src/Verify/App/Sound.antt =====
-- The signer of a package that `verify_app` of verify/zip_verify.c accepts.
use frameworks_system_ota.Prelude.{
  ℕ, ◌≡◌, String, Bool, not, Option, some, List, inl, inr, arith, ◌>>=◌, >>=-eq-some, Option-cases,
  >>=-eq-some, if◌then◌else◌,
}
use frameworks_system_ota.Prelude.Int.{ℤ, pos, negsuc, ◌<ℤ◌}
use frameworks_system_ota.Verify.Bytes.{read_mem}
use frameworks_system_ota.Verify.Platform.{Os, Avb, is_count}
use frameworks_system_ota.Verify.Block.{SignatureBlock}
use frameworks_system_ota.Verify.AppBlock.{AppBlock, parse_app_block}
use frameworks_system_ota.Verify.Digest.{verify_digest}
use frameworks_system_ota.Verify.App.{
  parse_signing_block, verify_signature, read_key, check_package, check_signer, signing_block,
  verify_app,
}

-- The signature of the first signer is by the key, and the signed digest is that of the package.
pub record IsSigned (os : Os) (avb : Avb) (buflen key_size : ℕ) (app_path cert_path : String)
    (app_block : AppBlock) (mem : List ℕ) (info : SignatureBlock) : Type 0 where
  pub key : List ℕ
  pub raw_data : List ℕ
  pub signature : List ℕ
  pub key_read : read_key os cert_path key_size ≡ some key
  pub data_read : read_mem mem info.signed_data.start info.signed_data.length ≡ some raw_data
  pub signature_read :
      read_mem mem info.signatures_content.start info.signatures_content.length ≡ some signature
  pub same_algorithm : info.digests_signatures_algorithm_id ≡ info.signatures_algorithm_id
  pub verified : verify_signature avb key raw_data signature ≡ pos 0
  pub digest_verified :
      verify_digest os avb buflen app_path app_block mem info.one_digest.start ≡ some (pos 0)

if_zero :
    (z : ℤ) (m : Option ℤ)
    → (if is_count z 0 then m else some z) ≡ some (pos 0)
    → (z ≡ pos 0) × (m ≡ some (pos 0))
unfolding is_count
if_zero z m h = ground arith

if_passed :
    (b : Bool) (m : Option ℤ)
    → (if not b then some (negsuc 0) else m) ≡ some (pos 0)
    → m ≡ some (pos 0)
if_passed b m h = ground arith

module _ (os : Os) (avb : Avb) (buflen key_size : ℕ) (app_path cert_path : String) where
  package_sound :
      (app_block : AppBlock) (mem : List ℕ) (info : SignatureBlock) (key : List ℕ)
      → read_key os cert_path key_size ≡ some key
      → info.digests_signatures_algorithm_id ≡ info.signatures_algorithm_id
      → check_package os avb buflen key_size app_path app_block mem info key ≡ some (pos 0)
      → IsSigned os avb buflen key_size app_path cert_path app_block mem info
  unfolding check_package
  package_sound app_block mem info key hk ids h =
      let signed = info.signed_data in
      let content = info.signatures_content in
      let (raw, hr, h1) = >>=-eq-some (read_mem mem signed.start signed.length) _ h in
      let (sig, hs, h2) = >>=-eq-some (read_mem mem content.start content.length) _ h1 in
      let (hv, hd) = if_zero _ _ h2 in
      record {
        key = key;
        raw_data = raw;
        signature = sig;
        key_read = hk;
        data_read = hr;
        signature_read = hs;
        same_algorithm = ids;
        verified = hv;
        digest_verified = hd;
      }

  -- The tests of `check_signer`, passed.
  signer_tests :
      (app_block : AppBlock) (mem : List ℕ) (info : SignatureBlock)
      → pos 0 <ℤ os.open_file cert_path
      → check_signer os avb buflen key_size app_path cert_path app_block mem info ≡ some (pos 0)
      → (info.digests_signatures_algorithm_id ≡ info.signatures_algorithm_id)
        × ((read_key os cert_path key_size >>= λ key.
              check_package os avb buflen key_size app_path app_block mem info key)
            ≡ some (pos 0))
  unfolding check_signer is_count
  signer_tests app_block mem info opened h = ground arith

  pub signer_sound :
      (app_block : AppBlock) (mem : List ℕ) (info : SignatureBlock)
      → pos 0 <ℤ os.open_file cert_path
      → check_signer os avb buflen key_size app_path cert_path app_block mem info ≡ some (pos 0)
      → IsSigned os avb buflen key_size app_path cert_path app_block mem info
  signer_sound app_block mem info opened h =
      let (ids, bound) = signer_tests app_block mem info opened h in
      let (key, hk, rest) = >>=-eq-some (read_key os cert_path key_size) _ bound in
      package_sound app_block mem info key hk ids rest

  -- The tests of `verify_app`, passed.
  app_tests :
      (comment_len id : ℕ)
      → verify_app os avb buflen key_size app_path cert_path comment_len id ≡ some (pos 0)
      → (app_block : AppBlock) × (parse_app_block os app_path comment_len ≡ some app_block)
        × ((parse_signing_block (signing_block os avb buflen key_size app_path app_block) id
              >>= check_signer os avb buflen key_size app_path cert_path app_block
                  (signing_block os avb buflen key_size app_path app_block))
            ≡ some (pos 0))
  unfolding verify_app
  app_tests comment_len id h = elim (Option-cases (parse_app_block os app_path comment_len)) [
    | inl nothing ↦ cc (rw (nothing, verify_app) at h)
    | inr (app_block, e) ↦ (app_block, e, if_passed _ _ (if_passed _ _ (rw (e, verify_app) at h)))
  ]

  -- If `verify_app` returns 0 and the key can be opened, then the package parses, and its first
  -- signer is a valid one: the key's signature of the signed data verifies, the two algorithm ids
  -- agree, and the digest check returned 0.
  pub verify_app_sound :
      (comment_len id : ℕ)
      → pos 0 <ℤ os.open_file cert_path
      → verify_app os avb buflen key_size app_path cert_path comment_len id ≡ some (pos 0)
      → (app_block : AppBlock) × (info : SignatureBlock) × (parse_app_block os app_path comment_len
          ≡ some app_block)
        × (parse_signing_block (signing_block os avb buflen key_size app_path app_block) id
            ≡ some info)
        × IsSigned os avb buflen key_size app_path cert_path app_block
            (signing_block os avb buflen key_size app_path app_block)
            info
  verify_app_sound comment_len id opened h =
      let (app_block, parsed, bound) = app_tests comment_len id h in
      let mem = signing_block os avb buflen key_size app_path app_block in
      let (info, e, rest) = >>=-eq-some (parse_signing_block mem id) _ bound in
      (app_block, info, parsed, e, signer_sound app_block mem info opened rest)
