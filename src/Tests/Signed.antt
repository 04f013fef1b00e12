-- ===== src/Tests/Signed.antt =====
-- verify/zip_verify.c on the small signed package, as one that is built from a signer.
use frameworks_system_ota.Prelude.{ℕ, ◌≡◌, ◌↔◌, ◌++◌, refl, some, [], ◌∷◌, arith}
use frameworks_system_ota.Prelude.Int.{pos}
use frameworks_system_ota.Verify.Bytes.{le_bytes, slice}
use frameworks_system_ota.Verify.Block.{SignatureBlock}
use frameworks_system_ota.Verify.Block.Signer.{Signer, Found}
use frameworks_system_ota.Verify.Digest.Spec.{content_digest}
use frameworks_system_ota.Verify.Digest.Unsigned.{eocd_of}
use frameworks_system_ota.Verify.App.{parse_signing_block, main}
use frameworks_system_ota.Verify.App.Signed.{
  pairs_of, IsGenuineSigner, parse_signing_block_lem, main_signed_package,
}
use frameworks_system_ota.Tests.Platform.{toy_avb, toy_avb-IsSha256}
use frameworks_system_ota.Tests.Verify.{signed_package, os, posix}
use frameworks_system_ota.Tests.Package.{p, p-IsPackage, works, unzip, zip}

abbrev signer : Signer
signer = record {
  digest_id = 259;
  digest = slice signed_package 50 32;
  certificate = 9 ∷ [];
  more_certificates = [];
  attributes = [];
  signature_id = 259;
  signature = 7 ∷ 7 ∷ 7 ∷ [];
  more_signatures = [];
  public_key = 5 ∷ [];
  more_signers = [];
  more_pairs = [];
}

abbrev scheme : ℕ
scheme = 1896449818

p-pairs : p.pairs ≡ pairs_of scheme signer
unfolding le_bytes
p-pairs = refl

parse_signing_block_lem_example :
    (info : SignatureBlock) × (parse_signing_block (pairs_of scheme signer ++ []) 0 ≡ some info)
    × Found (pairs_of scheme signer ++ []) signer info
unfolding le_bytes
parse_signing_block_lem_example =
    parse_signing_block_lem signer scheme 0 [] (omega arith) (omega arith) (omega arith)
      (omega arith)

main_signed_package_example :
    (main os toy_avb 4 3 unzip ("app" ∷ "key" ∷ []) 0 ≡ some (pos 0))
    ↔ IsGenuineSigner os toy_avb 3 "key" signer
        (content_digest toy_avb p.entries p.directory (eocd_of p 2))
main_signed_package_example =
    main_signed_package os toy_avb unzip 4 3 "app" "key" p signer scheme 0 posix toy_avb-IsSha256
      p-IsPackage works zip (omega arith) p-pairs (omega arith) (omega arith) (omega arith) refl
