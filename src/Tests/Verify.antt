-- ===== src/Tests/Verify.antt =====
-- verify/zip_verify.c on a small signed package.
use text.Mathlib.Text.{◌==◌ as str_eq}
use frameworks_system_ota.Prelude.{
  ℕ, ◌≡◌, ◌↔◌, refl, String, some, List, [], ◌∷◌, ◌≤◌, length, arith, if◌then◌else◌,
}
use frameworks_system_ota.Prelude.Int.{pos, negsuc}
use frameworks_system_ota.Verify.Bytes.{le_bytes, le_value, slice, read_mem}
use frameworks_system_ota.Verify.Platform.{Os, IsPosix, NoReadError, is_count, read_at}
use frameworks_system_ota.Verify.Block.{
  SignatureBlock, parse_block, parse_kv_block, get_signature_info,
}
use frameworks_system_ota.Verify.AppBlock.{AppBlock, parse_app_block}
use frameworks_system_ota.Verify.Digest.{
  md_one_chunk, verify_digest, hash_content, finish_digest, patch_eocd, compare_digest, is_length,
  int_of_offset,
}
use frameworks_system_ota.Verify.App.{
  verify_app, check_signer, check_package, verify_signature, parse_signing_block, read_key,
  signing_block,
}
use frameworks_system_ota.Verify.Digest.Spec.{chunk_digest}
use frameworks_system_ota.Verify.Digest.Loop.{md_one_chunk_lem}
use frameworks_system_ota.Verify.Digest.Sound.{WellPlaced, expected_digest, verify_digest_lem}
use frameworks_system_ota.Verify.App.Bypass.{unreadable_key_accepts, short_file_accepts}
use frameworks_system_ota.Tests.Platform.{
  toy_avb, toy_avb-IsSha256, memory_os, memory_os-IsPosix, memory_os-NoReadError,
}

-- The bytes 1 and 2, the signing block, a directory of the byte 3, and the end of central directory.
abbrev pub signed_package : List ℕ
signed_package =
    1 ∷ 2 ∷ 129 ∷ 0 ∷ 0 ∷ 0 ∷ 0 ∷ 0 ∷ 0 ∷ 0 ∷ 97 ∷ 0 ∷ 0 ∷ 0 ∷ 0 ∷ 0 ∷ 0 ∷ 0 ∷ 26 ∷ 135 ∷ 9 ∷ 113
    ∷ 89 ∷ 0 ∷ 0 ∷ 0 ∷ 85 ∷ 0 ∷ 0 ∷ 0 ∷ 57 ∷ 0 ∷ 0 ∷ 0 ∷ 44 ∷ 0 ∷ 0 ∷ 0 ∷ 40 ∷ 0 ∷ 0 ∷ 0 ∷ 3 ∷ 1 ∷ 0
    ∷ 0 ∷ 32 ∷ 0 ∷ 0 ∷ 0 ∷ 90 ∷ 3 ∷ 0 ∷ 0 ∷ 0 ∷ 165 ∷ 2 ∷ 0 ∷ 0 ∷ 0 ∷ 1 ∷ 2 ∷ 0 ∷ 0 ∷ 0 ∷ 0 ∷ 0 ∷ 0
    ∷ 0 ∷ 0 ∷ 0 ∷ 0 ∷ 0 ∷ 0 ∷ 0 ∷ 0 ∷ 0 ∷ 0 ∷ 0 ∷ 0 ∷ 0 ∷ 0 ∷ 5 ∷ 0 ∷ 0 ∷ 0 ∷ 1 ∷ 0 ∷ 0 ∷ 0 ∷ 9 ∷ 15
    ∷ 0 ∷ 0 ∷ 0 ∷ 11 ∷ 0 ∷ 0 ∷ 0 ∷ 3 ∷ 1 ∷ 0 ∷ 0 ∷ 3 ∷ 0 ∷ 0 ∷ 0 ∷ 7 ∷ 7 ∷ 7 ∷ 1 ∷ 0 ∷ 0 ∷ 0 ∷ 5
    ∷ 129 ∷ 0 ∷ 0 ∷ 0 ∷ 0 ∷ 0 ∷ 0 ∷ 0 ∷ 65 ∷ 80 ∷ 75 ∷ 32 ∷ 83 ∷ 105 ∷ 103 ∷ 32 ∷ 66 ∷ 108 ∷ 111
    ∷ 99 ∷ 107 ∷ 32 ∷ 52 ∷ 50 ∷ 3 ∷ 80 ∷ 75 ∷ 5 ∷ 6 ∷ 0 ∷ 0 ∷ 0 ∷ 0 ∷ 0 ∷ 0 ∷ 0 ∷ 0 ∷ 0 ∷ 0 ∷ 0 ∷ 0
    ∷ 139 ∷ 0 ∷ 0 ∷ 0 ∷ 0 ∷ 0 ∷ []

abbrev pub files : String → List ℕ
files path = if str_eq path "app" then signed_package else 7 ∷ 7 ∷ 7 ∷ []

abbrev pub os : Os
os = memory_os files (pos 4)

-- The key cannot be opened.
abbrev no_key_os : Os
no_key_os = memory_os files (negsuc 0)

abbrev pub app_block : AppBlock
app_block = record {
  data_block = record { start = 0; length = 2 };
  signature_block = record { start = 10; length = 129 };
  central_directory_block = record { start = 139; length = 1 };
  eocd_block = record { start = 140; length = 22 };
}

package_parses : parse_app_block os "app" 0 ≡ some app_block
unfolding parse_app_block
package_parses = refl

pub accepted : verify_app os toy_avb 4 3 "app" "key" 0 0 ≡ some (pos 0)
unfolding verify_app check_signer check_package verify_signature verify_digest parse_signing_block
    parse_app_block get_signature_info parse_kv_block parse_block is_count read_at read_key
    hash_content finish_digest patch_eocd compare_digest is_length int_of_offset le_bytes
accepted = refl

-- The signer in the signing block.
abbrev pub info : SignatureBlock
info = record {
  one_sign_block = record { start = 20; length = 85 };
  signed_data = record { start = 24; length = 57 };
  signatures = record { start = 85; length = 15 };
  public_key = record { start = 104; length = 1 };
  digests = record { start = 28; length = 44 };
  digests_signatures_algorithm_id = 259;
  one_digest = record { start = 40; length = 32 };
  certificate = record { start = 80; length = 1 };
  signatures_algorithm_id = 259;
  signatures_content = record { start = 97; length = 3 };
}

abbrev pub posix : IsPosix os
posix = memory_os-IsPosix files (pos 4)

abbrev reads : NoReadError os
reads = memory_os-NoReadError files (pos 4)

md_one_chunk_lem_example :
    md_one_chunk os toy_avb signed_package app_block.eocd_block 4
    ≡ some (chunk_digest toy_avb (slice signed_package 140 22))
md_one_chunk_lem_example =
    md_one_chunk_lem os toy_avb posix reads toy_avb-IsSha256 signed_package app_block.eocd_block 4
      (omega arith) (omega arith)

app_block-WellPlaced : WellPlaced signed_package app_block
app_block-WellPlaced = omega arith

verify_digest_lem_example :
    (verify_digest os toy_avb 4 "app" app_block signed_package 50 ≡ some (pos 0))
    ↔ (slice signed_package 50 32 ≡ expected_digest toy_avb signed_package app_block)
verify_digest_lem_example =
    verify_digest_lem os toy_avb posix reads toy_avb-IsSha256 4 "app" app_block signed_package 50
      (omega arith) refl refl (omega arith) app_block-WellPlaced refl (omega arith)

signed_digest_inside : 72 ≤ length (signing_block os toy_avb 4 3 "app" app_block)
unfolding read_at
signed_digest_inside = omega arith

signer_parsed : parse_signing_block (signing_block os toy_avb 4 3 "app" app_block) 0 ≡ some info
unfolding parse_signing_block get_signature_info parse_kv_block parse_block read_at read_mem
    le_value
signer_parsed = refl

unreadable_key_accepts_example : verify_app no_key_os toy_avb 4 3 "app" "key" 0 0 ≡ some (pos 0)
unfolding parse_app_block parse_signing_block get_signature_info parse_kv_block parse_block read_at
    read_mem
unreadable_key_accepts_example =
    unreadable_key_accepts no_key_os toy_avb 4 3 "app" "key" 0 0 app_block info refl (omega arith)
      (omega arith) refl refl refl refl

-- Every `read` reports the end of the file.
abbrev ended_os : Os
ended_os = record os { read_count = λ f p n. pos 0 }

short_file_accepts_example :
    verify_digest ended_os toy_avb 4 "app" app_block signed_package 0 ≡ some (pos 0)
short_file_accepts_example =
    short_file_accepts ended_os toy_avb 4 "app" app_block signed_package 0 (omega arith) refl refl
      (omega arith) (omega arith) refl
