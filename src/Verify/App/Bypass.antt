-- ===== src/Verify/App/Bypass.antt =====
-- The jumps to the label `error` of verify/zip_verify.c, and what `res` holds there.
use frameworks_system_ota.Prelude.{ℕ, ◌<◌, ◌^◌, ◌≡◌, String, true, some, List, arith}
use frameworks_system_ota.Prelude.Int.{pos, ◌<ℤ◌, ◌≤ℤ◌}
use frameworks_system_ota.Verify.Platform.{Os, Avb, is_count, read_at}
use frameworks_system_ota.Verify.Block.{SignatureBlock}
use frameworks_system_ota.Verify.AppBlock.{AppBlock, parse_app_block}
use frameworks_system_ota.Verify.Digest.{verify_digest, is_length, int_of_offset}
use frameworks_system_ota.Verify.App.{parse_signing_block, check_signer, signing_block, verify_app}

-- If the key file exists but `open` does not give a positive descriptor for it, then `verify_app`
-- returns 0 for every package that parses and names one algorithm twice, whatever its signature,
-- its digest and its contents are: neither is looked at.
pub unreadable_key_accepts :
    (os : Os) (avb : Avb) (buflen key_size : ℕ) (app_path cert_path : String) (comment_len id : ℕ)
    (app_block : AppBlock) (info : SignatureBlock)
    → os.stat cert_path ≡ pos 0
    → os.open_file cert_path ≤ℤ pos 0
    → pos 0 <ℤ os.open_file app_path
    → parse_app_block os app_path comment_len ≡ some app_block
    → os.malloc app_block.signature_block.length ≡ true
    → parse_signing_block (signing_block os avb buflen key_size app_path app_block) id ≡ some info
    → info.digests_signatures_algorithm_id ≡ info.signatures_algorithm_id
    → verify_app os avb buflen key_size app_path cert_path comment_len id ≡ some (pos 0)
unfolding verify_app check_signer is_count
unreadable_key_accepts os avb buflen key_size app_path cert_path comment_len id app_block info hs ho
      ha hp hm hi he =
    ground arith

-- If `read` returns 0 for the end of central directory, as it does at the end of a file that has
-- become shorter, then `verify_digest` returns 0 whatever the signed digest is.
pub short_file_accepts :
    (os : Os) (avb : Avb) (buflen : ℕ) (path : String) (app_block : AppBlock) (mem : List ℕ)
    (digest : ℕ)
    → pos 0 ≤ℤ os.open_file path
    → os.malloc buflen ≡ true
    → os.malloc app_block.eocd_block.length ≡ true
    → app_block.eocd_block.start < 2 ^ 31
    → 0 < app_block.eocd_block.length
    → os.read_count (os.content path) app_block.eocd_block.start app_block.eocd_block.length ≡ pos 0
    → verify_digest os avb buflen path app_block mem digest ≡ some (pos 0)
unfolding verify_digest is_length is_count read_at int_of_offset
short_file_accepts os avb buflen path app_block mem digest ho m1 m2 hs hl hr = ground arith
