-- ===== src/Verify/Digest/Loop.antt =====
-- `md_one_chunk` of verify/zip_verify.c and the bytes of its chunk.
use frameworks_system_ota.Prelude.{
  ℕ, zero, suc, ◌+◌, ◌-◌, ◌≤◌, ◌<◌, ◌≡◌, ap, sym, ◌∙◌, min, some, List, [], ◌∷◌, ◌++◌, arith,
  length, drop, drop-add, take-add, length-take, length-drop, take_all,
}
use frameworks_system_ota.Verify.Bytes.{slice, le_bytes}
use frameworks_system_ota.Verify.Platform.{
  Os, Avb, IsPosix, NoReadError, IsSha256, digest_size, read_at,
}
use frameworks_system_ota.Verify.Block.{DataBlock}
use frameworks_system_ota.Verify.Digest.{md_loop, md_one_chunk}
use frameworks_system_ota.Verify.Digest.Spec.{sha256, chunk_digest}

pub slice-append : (f : List ℕ) (p k m : ℕ) → slice f p k ++ slice f (p + k) m ≡ slice f p (k + m)
slice-append f p k m = rw (drop-add p k f) (sym (take-add k m (drop p f)))

slice-split :
    (f : List ℕ) (p k n : ℕ) → k ≤ n → slice f p k ++ slice f (p + k) (n - k) ≡ slice f p n
slice-split f p k n h = slice-append f p k (n - k) ∙ ap (slice f p) (omega arith)

pub length-slice : (f : List ℕ) (p n : ℕ) → p + n ≤ length f → length (slice f p n) ≡ n
length-slice f p n h = omega (arith, length-take n (drop p f), length-drop p f)

module _ (os : Os) (avb : Avb) (posix : IsPosix os) (reads : NoReadError os)
    (sha : IsSha256 avb) where
  open avb use {Sha256Ctx, avb_sha256_init, avb_sha256_update, avb_sha256_final}

  update-split :
      (f : List ℕ) (p k n : ℕ) (ctx : Sha256Ctx)
      → k ≤ n
      → avb_sha256_update (avb_sha256_update ctx (slice f p k)) (slice f (p + k) (n - k))
        ≡ avb_sha256_update ctx (slice f p n)
  update-split f p k n ctx h =
      sha.update-update ctx _ _ ∙ ap (avb_sha256_update ctx) (slice-split f p k n h)

  pub md_loop_lem :
      (fuel : ℕ) (f : List ℕ) (buflen p left : ℕ) (ctx : Sha256Ctx)
      → 0 < buflen
      → left ≤ fuel
      → p + left ≤ length f
      → md_loop os avb fuel f buflen p left ctx ≡ some (avb_sha256_update ctx (slice f p left))
  unfolding md_loop read_at
  md_loop_lem zero f buflen p zero ctx hb hf hp = ap some (sym (sha.update-nil ctx))
  md_loop_lem zero f buflen p (suc left) ctx hb hf hp = absurd (omega arith)
  md_loop_lem (suc fuel) f buflen p zero ctx hb hf hp = ap some (sym (sha.update-nil ctx))
  md_loop_lem (suc fuel) f buflen p (suc left) ctx hb hf hp =
      let (k, e) = reads.succeeds f p (min (suc left) buflen) (omega arith) in
      let (asked, there) = posix.within f p (min (suc left) buflen) k e in
      let positive = posix.progress f p (min (suc left) buflen) k e (omega arith) (omega arith) in
      ground (
        arith,
        e,
        md_loop_lem fuel f buflen (p + k) (suc left - k) (avb_sha256_update ctx (slice f p k)),
        update-split f p k (suc left) ctx,
      )

  -- The digest of a chunk is that of the byte 0xa5, the length and the bytes, for any buffer size
  -- other than 0 and however the reads are cut.
  pub md_one_chunk_lem :
      (f : List ℕ) (block : DataBlock) (buflen : ℕ)
      → 0 < buflen
      → block.start + block.length ≤ length f
      → md_one_chunk os avb f block buflen
        ≡ some (chunk_digest avb (slice f block.start block.length))
  unfolding md_one_chunk chunk_digest sha256
  md_one_chunk_lem f block buflen hb hp =
      let len = block.length in
      let bytes = slice f block.start len in
      let ctx = avb_sha256_update avb_sha256_init (0xa5 ∷ []) in
      let ctx' = avb_sha256_update ctx (le_bytes 4 len) in
      rw (md_loop_lem len f buflen block.start len ctx' hb (omega arith) hp) (
        ap some (
          take_all digest_size _ (omega (arith, sha.length-final (avb_sha256_update ctx' bytes)))
          ∙ ap avb_sha256_final (
              sha.update-update ctx (le_bytes 4 len) bytes
              ∙ sha.update-update avb_sha256_init (0xa5 ∷ []) (le_bytes 4 len ++ bytes)
              ∙ rw (length-slice f block.start len hp))))
