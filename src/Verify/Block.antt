-- ===== src/Verify/Block.antt =====
-- The length-prefixed blocks of verify/zip_verify.c. A pointer into the signing block is an offset
-- in the buffer that holds it; `none` is a read outside that buffer, which C leaves undefined.
pub mod Place
pub mod Signer
use frameworks_system_ota.Prelude.{ℕ, ◌+◌, ◌-◌, ◌*◌, ◌/◌, ◌%◌, ◌^◌, Option, some, List, ◌>>=◌}
use frameworks_system_ota.Verify.Bytes.{le_value, read_mem}

-- `data_block_t`: a place in the buffer or in the package, and a length.
pub record DataBlock : Type 0 where
  pub start : ℕ
  pub length : ℕ

-- `signature_block_t`
pub record SignatureBlock : Type 0 where
  pub one_sign_block : DataBlock
  pub signed_data : DataBlock
  pub signatures : DataBlock
  pub public_key : DataBlock
  pub digests : DataBlock
  pub digests_signatures_algorithm_id : ℕ
  pub one_digest : DataBlock
  pub certificate : DataBlock
  pub signatures_algorithm_id : ℕ
  pub signatures_content : DataBlock

-- `memcpy` of `w` bytes into an unsigned number.
unfoldable pub read_le : ℕ → List ℕ → ℕ → Option ℕ
read_le w mem off = do bytes ← read_mem mem off w; some (le_value bytes)

-- The block, and the offset behind it. The length is not compared with anything.
unfoldable pub parse_block : List ℕ → ℕ → Option (DataBlock × ℕ)
unfolding read_le
parse_block mem off = do
  len ← read_le 4 mem off
  some (record { start = off + 4; length = len }, off + 4 + len)

-- The key (its upper half keeps what was there), the place of the value, and the offset behind.
unfoldable pub parse_kv_block : List ℕ → ℕ → ℕ → Option (ℕ × ℕ × ℕ)
unfolding read_le
parse_kv_block mem off key = do
  len ← read_le 8 mem off
  id ← read_le 4 mem (off + 8)
  some (key / 2 ^ 32 * 2 ^ 32 + id, off + 12, (off + 12 + (len + 2 ^ 64 - 4) % 2 ^ 64) % 2 ^ 64)

unfoldable pub get_signature_info : List ℕ → ℕ → Option (SignatureBlock × ℕ)
get_signature_info mem off = do
  (one_sign_block, ret) ← parse_block mem off
  (signed_data, offset) ← parse_block mem one_sign_block.start
  (signatures, offset) ← parse_block mem offset
  (public_key, offset) ← parse_block mem offset
  (digests, offset) ← parse_block mem signed_data.start
  digest_id ← read_le 4 mem (digests.start + 4)
  (one_digest, offset) ← parse_block mem (digests.start + 8)
  (certificates, offset) ← parse_block mem offset
  (certificate, offset) ← parse_block mem certificates.start
  (first_signature, offset) ← parse_block mem signatures.start
  signature_id ← read_le 4 mem first_signature.start
  (signatures_content, offset) ← parse_block mem (first_signature.start + 4)
  some (
    record {
      one_sign_block = one_sign_block;
      signed_data = signed_data;
      signatures = signatures;
      public_key = public_key;
      digests = digests;
      digests_signatures_algorithm_id = digest_id;
      one_digest = one_digest;
      certificate = certificate;
      signatures_algorithm_id = signature_id;
      signatures_content = signatures_content;
    },
    ret,
  )
