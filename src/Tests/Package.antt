-- ===== src/Tests/Package.antt =====
-- verify/zip_verify.c on the small signed package, as one that is laid out around its signing block.
use frameworks_system_ota.Prelude.{◌≡◌, ◌∙◌, ◌≤◌, refl, true, some, [], ◌∷◌, arith, length, take}
use frameworks_system_ota.Prelude.Int.{pos}
use frameworks_system_ota.Verify.Bytes.{le_bytes, le_value, slice, read_mem}
use frameworks_system_ota.Verify.Platform.{Unzip}
use frameworks_system_ota.Verify.Block.{parse_block, parse_kv_block, get_signature_info}
use frameworks_system_ota.Verify.AppBlock.{parse_app_block}
use frameworks_system_ota.Verify.AppBlock.Layout.{Package, bytes_of, blocks_of, parse_app_block_lem}
use frameworks_system_ota.Verify.Digest.Unsigned.{signing_bytes}
use frameworks_system_ota.Verify.App.{parse_signing_block, main}
use frameworks_system_ota.Verify.App.Package.{IsPackage, NothingFails}
use frameworks_system_ota.Verify.App.Main.{IsZip, Accepted, main-verify_app, main_sound}
use frameworks_system_ota.Tests.Platform.{toy_avb, memory_os-ReadsWhole}
use frameworks_system_ota.Tests.Verify.{accepted, signed_package, files, os, info}

abbrev pub p : Package
p = record {
  entries = take 2 signed_package;
  pairs = slice signed_package 10 105;
  directory = slice signed_package 139 1;
  eocd_head = slice signed_package 140 16;
  comment_size = slice signed_package 160 2;
  comment = [];
}

p-signed_package : signed_package ≡ bytes_of p
unfolding le_bytes
p-signed_package = refl

pub p-IsPackage : IsPackage os "app" p
unfolding le_bytes
p-IsPackage = record {
  stored = refl;
  eocd_size = refl;
  size_size = refl;
  comment_bound = omega arith;
  small = omega arith;
}

pub works : NothingFails os "app" "key"
works = record {
  allocates = λ n. refl;
  opens_app = omega arith;
  finds_key = refl;
  opens_key = omega arith;
  reads = memory_os-ReadsWhole files (pos 4);
}

parse_app_block_lem_example : parse_app_block os "app" 0 ≡ some (blocks_of p)
parse_app_block_lem_example =
    parse_app_block_lem os "app" p (memory_os-ReadsWhole files (pos 4)) refl (omega arith)
      p-signed_package refl refl (omega (arith, p-IsPackage.small))

signer_parsed : parse_signing_block (signing_bytes p) 0 ≡ some info
unfolding parse_signing_block get_signature_info parse_kv_block parse_block read_mem le_value
    le_bytes
signer_parsed = refl

signed_digest_inside : 72 ≤ length (signing_bytes p)
unfolding le_bytes
signed_digest_inside = omega arith

abbrev pub unzip : Unzip
unzip = record {
  unz_open = λ path. true;
  unz_get_global_info = λ path. (pos 0, 0);
  unz_close = λ path. pos 0;
}

pub zip : IsZip os unzip "app" "key" 0
zip = record { file_there = refl; cert_there = refl; opens = refl; comment = refl; closes = refl }

exits_zero : main os toy_avb 4 3 unzip ("app" ∷ "key" ∷ []) 0 ≡ some (pos 0)
exits_zero = main-verify_app os toy_avb 4 3 unzip "app" "key" 0 0 zip ∙ accepted

main_sound_example : Accepted os toy_avb 4 3 unzip ("app" ∷ "key" ∷ []) 0
main_sound_example =
    main_sound os toy_avb 4 3 unzip ("app" ∷ "key" ∷ []) 0 (λ path. ground arith) exits_zero
