-- ===== src/Verify/Digest.antt =====
-- The digest of the package in verify/zip_verify.c: `calc_chunk_count`, `md_one_chunk`,
-- `md_file_block` and `verify_digest`.
pub mod Spec
pub mod Loop
pub mod Blocks
pub mod Sound
pub mod Unsigned
use frameworks_system_ota.Prelude.{
  ℕ, zero, suc, ◌+◌, ◌-◌, ◌*◌, ◌/◌, ◌%◌, ◌^◌, min, String, Bool, true, false, not, Option, none,
  some, List, [], ◌∷◌, ◌++◌, leb, ltb, ◌>>=◌, ◌==◌, if◌then◌else◌, length, take, drop,
}
use frameworks_system_ota.Prelude.Int.{ℤ, pos, negsuc, ltb_ℤ}
use frameworks_system_ota.Verify.Bytes.{le_bytes, read_mem, same_bytes}
use frameworks_system_ota.Verify.Platform.{Os, Avb, digest_size, read_at, is_count}
use frameworks_system_ota.Verify.Block.{DataBlock}
use frameworks_system_ota.Verify.AppBlock.{AppBlock}

-- DIGESTED_CHUNK_MAX_SIZE
abbrev pub chunk_max : ℕ
chunk_max = 1024 * 1024

-- The sum is one of `uint32_t`.
unfoldable pub calc_chunk_count : DataBlock → ℕ
calc_chunk_count block = (block.length + chunk_max - 1) % 2 ^ 32 / chunk_max

-- The `int` that an `off_t` becomes.
unfoldable pub int_of_offset : ℕ → ℤ
int_of_offset n = let w = n % 2 ^ 32 in if ltb w (2 ^ 31) then pos w else negsuc (2 ^ 32 - 1 - w)

-- `res == length` for an `int` and a `uint32_t`.
unfoldable pub is_length : ℤ → ℕ → Bool
is_length (pos k) n = k == n
is_length (negsuc k) n = 2 ^ 32 - 1 - k == n

-- `memcpy(buf + 16, …, sizeof(uint32_t))`; `none` where the buffer is too short.
unfoldable pub patch_eocd : List ℕ → List ℕ → Option (List ℕ)
patch_eocd bytes buf =
    if leb 20 (length buf) then some (take 16 buf ++ bytes ++ drop 20 buf) else none

-- The length of the next chunk of `md_file_block` where `left` bytes remain, and what remains then.
unfoldable pub chunk_size : ℕ → ℕ
chunk_size left = if ltb chunk_max left then chunk_max else left

unfoldable pub left_after : ℕ → ℕ
left_after left = if ltb chunk_max left then left - chunk_max else left

module _ (avb : Avb) where
  -- The digest, once the end of central directory is read and patched.
  unfoldable pub finish_digest : AppBlock → List ℕ → avb.Sha256Ctx → List ℕ
  finish_digest app_block buf ctx =
      let eocd_ctx = avb.avb_sha256_update avb.avb_sha256_init (0xa5 ∷ []) in
      let eocd_ctx' = avb.avb_sha256_update eocd_ctx (le_bytes 4 app_block.eocd_block.length) in
      let md = avb.avb_sha256_final (avb.avb_sha256_update eocd_ctx' buf) in
      avb.avb_sha256_final (avb.avb_sha256_update ctx (take digest_size md))

-- The comparison at the end: `mem` holds the digest at offset `digest`. `memcmp` returns 0 or a
-- number other than 0, here 1.
unfoldable pub compare_digest : List ℕ → ℕ → List ℕ → Option ℤ
unfolding read_mem same_bytes
compare_digest mem digest md = do
  expected ← read_mem mem digest digest_size
  some (if same_bytes expected (take digest_size md) then pos 0 else pos 1)

module _ (os : Os) (avb : Avb) where
  open avb use {Sha256Ctx, avb_sha256_init, avb_sha256_update, avb_sha256_final}

  -- The loop of `md_one_chunk` from position `p`, with `left` bytes to go: `none` is the jump to
  -- `error`. Each round reads at least a byte, so `left` rounds are enough.
  pub md_loop : ℕ → List ℕ → ℕ → ℕ → ℕ → Sha256Ctx → Option Sha256Ctx
  md_loop zero f buflen p left ctx = if left == 0 then some ctx else none
  md_loop (suc fuel) f buflen p left ctx =
      let (read_len, readbuf) = read_at os f p (min left buflen) in
      let rest =
        λ (k : ℕ). md_loop fuel f buflen (p + k) (left - k) (avb_sha256_update ctx readbuf) in
      if left == 0
      then some ctx
      else elim read_len [ pos k ↦ if k == 0 then none else rest k | negsuc k ↦ none ]

  unfoldable pub md_one_chunk : List ℕ → DataBlock → ℕ → Option (List ℕ)
  unfolding md_loop
  md_one_chunk f block buflen = do
    let ctx = avb_sha256_update avb_sha256_init (0xa5 ∷ [])
    let ctx' = avb_sha256_update ctx (le_bytes 4 block.length)
    ctx'' ← md_loop block.length f buflen block.start block.length ctx'
    some (take digest_size (avb_sha256_final ctx''))

  -- The loop of `md_file_block` in round `i`, with `rounds` rounds and `left` bytes to go: whether
  -- it came to its end, and the context. A package is below 2 GiB, so `i * chunk_max` is an `int`.
  pub md_chunks : ℕ → ℕ → List ℕ → ℕ → ℕ → ℕ → Sha256Ctx → Bool × Sha256Ctx
  unfolding md_one_chunk chunk_size left_after
  md_chunks zero i f start left buflen ctx = (true, ctx)
  md_chunks (suc rounds) i f start left buflen ctx =
      let chunk : DataBlock = record { start = start + i * chunk_max; length = chunk_size left } in
      elim (md_one_chunk f chunk buflen) [
        | none ↦ (false, ctx)
        | some md ↦
            md_chunks rounds (i + 1) f start (left_after left) buflen (avb_sha256_update ctx md)
      ]

  unfoldable pub md_file_block : List ℕ → DataBlock → ℕ → Sha256Ctx → Bool × Sha256Ctx
  unfolding md_chunks calc_chunk_count
  md_file_block f block buflen ctx =
      md_chunks (calc_chunk_count block) 0 f block.start block.length buflen ctx

  -- The context when the central directory is done. What `md_file_block` returns is not looked at.
  unfoldable pub hash_content : List ℕ → AppBlock → ℕ → Sha256Ctx
  unfolding md_file_block
  hash_content f app_block buflen =
      let chunk_count =
        calc_chunk_count app_block.data_block
        + calc_chunk_count app_block.central_directory_block
        + calc_chunk_count app_block.eocd_block in
      let ctx = avb_sha256_update avb_sha256_init (0x5a ∷ []) in
      let ctx' = avb_sha256_update ctx (le_bytes 4 chunk_count) in
      let (_, ctx'') = md_file_block f app_block.data_block buflen ctx' in
      (md_file_block f app_block.central_directory_block buflen ctx'').1

  -- What `verify_digest` returns; `none` is undefined behaviour. A jump to `error` returns what
  -- `res` holds there: -1, then what `lseek` returned, then what `read` returned.
  unfoldable pub verify_digest : ℕ → String → AppBlock → List ℕ → ℕ → Option ℤ
  verify_digest buflen path app_block mem digest =
      let f = os.content path in
      let eocd = app_block.eocd_block in
      let sought = int_of_offset eocd.start in
      let (res, buf) = read_at os f eocd.start eocd.length in
      if ltb_ℤ (os.open_file path) (pos 0)
      then some (negsuc 0)
      else if not (os.malloc buflen)
      then some (negsuc 0)
      else if not (os.malloc eocd.length)
      then some (negsuc 0)
      else if not (is_count sought eocd.start)
      then some sought
      else if not (is_length res eocd.length)
      then some res
      else do
        patched ← patch_eocd (le_bytes 4 app_block.data_block.length) buf
        compare_digest mem digest
            (finish_digest avb app_block patched (hash_content f app_block buflen))
