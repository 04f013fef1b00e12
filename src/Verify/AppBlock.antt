-- ===== src/Verify/AppBlock.antt =====
-- `parse_app_block` of verify/zip_verify.c: where the parts of the package lie. Offsets are those of
-- a target with a 64-bit `off_t`.
pub mod Layout
use frameworks_system_ota.Prelude.{
  ℕ, ◌+◌, ◌-◌, ◌%◌, ◌^◌, String, Option, none, some, List, [], ◌∷◌, ◌>>=◌, ◌>>◌, guard, leb,
  if◌then◌else◌, length,
}
use frameworks_system_ota.Prelude.Int.{pos, ltb_ℤ}
use frameworks_system_ota.Verify.Bytes.{le_value, same_bytes}
use frameworks_system_ota.Verify.Platform.{Os, read_at, is_count}
use frameworks_system_ota.Verify.Block.{DataBlock}

-- `app_block_t`
pub record AppBlock : Type 0 where
  pub data_block : DataBlock
  pub signature_block : DataBlock
  pub central_directory_block : DataBlock
  pub eocd_block : DataBlock

-- "APK Sig Block 42"
abbrev pub magic : List ℕ
magic =
    b'A' ∷ b'P' ∷ b'K' ∷ b' ' ∷ b'S' ∷ b'i' ∷ b'g' ∷ b' ' ∷ b'B' ∷ b'l' ∷ b'o' ∷ b'c' ∷ b'k' ∷ b' '
    ∷ b'4' ∷ b'2' ∷ []

-- `a - b` on `uint32_t`.
unfoldable pub sub32 : ℕ → ℕ → ℕ
sub32 a b = (a + 2 ^ 32 - b) % 2 ^ 32

-- The position after `lseek(fd, -back, SEEK_END)`, which fails and leaves the position alone where
-- the file is too short.
unfoldable pub seek_from_end : List ℕ → ℕ → ℕ → ℕ
seek_from_end f p back = if leb back (length f) then length f - back else p

-- The four blocks, from what was read of the file.
unfoldable pub app_block_of : ℕ → ℕ → ℕ → ℕ → AppBlock
unfolding sub32
app_block_of comment_len cdo signature_block_length eocd_offset =
    let sig_length = signature_block_length % 2 ^ 32 in
    let sig_start = sub32 cdo sig_length in
    record {
      signature_block = record { start = sig_start; length = sig_length };
      eocd_block = record { start = eocd_offset; length = (comment_len + 22) % 2 ^ 32 };
      central_directory_block = record {
        start = cdo;
        length = (eocd_offset + 2 ^ 32 - cdo) % 2 ^ 32;
      };
      data_block = record { start = 0; length = (sig_start + 2 ^ 32 - 8) % 2 ^ 32 };
    }

module _ (os : Os) where
  -- `read(fd, …, n)` at position `p`, and the check that it returned `n`.
  unfoldable pub read_exactly : List ℕ → ℕ → ℕ → Option (List ℕ)
  unfolding read_at is_count
  read_exactly f p n =
      let (res, bytes) = read_at os f p n in if is_count res n then some bytes else none

  -- `none` is NULL.
  unfoldable pub parse_app_block : String → ℕ → Option AppBlock
  unfolding read_exactly sub32 seek_from_end app_block_of same_bytes le_value
  parse_app_block app_path comment_len = do
    guard (os.malloc 64)
    guard (ltb_ℤ (pos 0) (os.open_file app_path))
    let f = os.content app_path
    cdo_bytes ← read_exactly f (seek_from_end f 0 (comment_len + 6)) 4
    let cdo = le_value cdo_bytes
    magic_buf ← read_exactly f (sub32 cdo 16) 16
    guard (same_bytes magic magic_buf)
    length_bytes ← read_exactly f (sub32 cdo 24) 8
    let eocd_offset = seek_from_end f (sub32 cdo 24 + 8) (comment_len + 22)
    some (app_block_of comment_len cdo (le_value length_bytes) eocd_offset)
