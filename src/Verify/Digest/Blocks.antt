-- ===== src/Verify/Digest/Blocks.antt =====
-- `md_file_block` of verify/zip_verify.c and the chunks of its block.
use frameworks_system_ota.Prelude.{
  ℕ, zero, suc, ◌+◌, ◌-◌, ◌*◌, ◌^◌, ◌≤◌, ◌<◌, min, ◌≡◌, refl, ap, ◌∙◌, true, some, List, arith,
  length, take, drop, drop-add, take-take, drop-take, take_all, append-nil, length-take,
}
use native.Mathlib.Decide.{dec_lt, dec_le}
use native.Mathlib.Nat.{add-zero}
use frameworks_system_ota.Verify.Bytes.{slice}
use frameworks_system_ota.Verify.Platform.{Os, Avb, IsPosix, NoReadError, IsSha256}
use frameworks_system_ota.Verify.Block.{DataBlock}
use frameworks_system_ota.Verify.Digest.{
  chunk_max, calc_chunk_count, md_one_chunk, chunk_size, left_after, md_chunks, md_file_block,
}
use frameworks_system_ota.Verify.Digest.Spec.{chunk_count, split, chunks, digests, chunk_digest}
use frameworks_system_ota.Verify.Digest.Loop.{md_one_chunk_lem, length-slice}

-- The chunk count is the number of chunks, unless the sum on `uint32_t` wraps.
pub calc_chunk_count_exact :
    (block : DataBlock)
    → block.length ≤ 2 ^ 32 - chunk_max
    → calc_chunk_count block ≡ chunk_count block.length
unfolding calc_chunk_count
calc_chunk_count_exact block h = omega arith

take-slice : (f : List ℕ) (p n m : ℕ) → n ≤ m → take n (slice f p m) ≡ slice f p n
take-slice f p n m h = take-take n m (drop p f) h

drop-slice : (f : List ℕ) (p n m : ℕ) → n ≤ m → drop n (slice f p m) ≡ slice f (p + n) (m - n)
drop-slice f p n m h =
    ap (λ k. drop n (slice f p k)) (omega arith) ∙ drop-take n (m - n) (drop p f) ∙ rw drop-add

left_after_more : (left : ℕ) → chunk_max < left → left_after left ≡ left - chunk_max
unfolding left_after
left_after_more left h = ground arith

take-slice-min : (f : List ℕ) (p n m : ℕ) → take n (slice f p m) ≡ slice f p (min n m)
take-slice-min f p n m = elim (dec_le n m) [
  | yes h ↦ take-slice f p n m h ∙ ap (slice f p) (omega arith)
  | no h ↦
      take_all n (slice f p m) (omega (arith, length-take m (drop p f)))
      ∙ ap (slice f p) (omega arith)
]

chunk_size-min : (left : ℕ) → min chunk_max left ≡ chunk_size left
unfolding chunk_size
chunk_size-min left = ground arith

-- The first chunk of the bytes that remain.
chunk_head :
    (f : List ℕ) (p left : ℕ) → take chunk_max (slice f p left) ≡ slice f p (chunk_size left)
chunk_head f p left = take-slice-min f p chunk_max left ∙ ap (slice f p) (chunk_size-min left)

module _ (os : Os) (avb : Avb) (posix : IsPosix os) (reads : NoReadError os)
    (sha : IsSha256 avb) where
  open avb use {Sha256Ctx, avb_sha256_update}

  md_chunks_step :
      (rounds i : ℕ) (f : List ℕ) (start left buflen : ℕ) (ctx : Sha256Ctx) (md : List ℕ)
      → md_one_chunk os avb f
          (record { start = start + i * chunk_max; length = chunk_size left })
          buflen
        ≡ some md
      → md_chunks os avb (suc rounds) i f start left buflen ctx
        ≡ md_chunks os avb rounds
            (i + 1)
            f
            start
            (left_after left)
            buflen
            (avb_sha256_update ctx md)
  unfolding md_chunks
  md_chunks_step rounds i f start left buflen ctx md e = rw (e, md_chunks)

  md_chunks_lem :
      (rounds i : ℕ) (f : List ℕ) (start left buflen : ℕ) (ctx : Sha256Ctx)
      → 0 < buflen
      → rounds ≡ chunk_count left
      → start + i * chunk_max + left ≤ length f
      → md_chunks os avb rounds i f start left buflen ctx ≡ (
        true,
        avb_sha256_update ctx (digests avb (split rounds (slice f (start + i * chunk_max) left))),
      )
  unfolding digests split
  md_chunks_lem zero i f start left buflen ctx hb hr hp = unfold md_chunks in rw sha.update-nil
  md_chunks_lem (suc rounds) i f start left buflen ctx hb hr hp =
      let here : ℕ = start + i * chunk_max in
      let md =
        md_one_chunk_lem os avb posix reads sha f
          (record { start = here; length = chunk_size left }) buflen hb
          (unfold chunk_size in ground arith) in
      md_chunks_step rounds i f start left buflen ctx _ md ∙ elim (dec_lt chunk_max left) [
        | yes h ↦
            let step : here + chunk_max ≡ start + (i + 1) * chunk_max = omega arith in
            let md' = chunk_digest avb (slice f here (chunk_size left)) in
            rw
              (
                left_after_more left h,
                md_chunks_lem rounds (i + 1) f start (left - chunk_max) buflen
                    (avb_sha256_update ctx md') hb (omega arith) (omega arith),
                chunk_head f here left,
                drop-slice f here chunk_max left (omega arith),
                step,
              )
              (ap (λ c. (true, c)) (sha.update-update ctx _ _))
        | no h ↦
            let only : rounds ≡ 0 = omega arith in
            rw (only, chunk_head f here left, append-nil) (unfold md_chunks in refl)
      ]

  -- Where the block lies in the file and its chunk count does not wrap, `md_file_block` adds the
  -- digests of all chunks of the block to the context, in order, and reports no error.
  pub md_file_block_lem :
      (f : List ℕ) (block : DataBlock) (buflen : ℕ) (ctx : Sha256Ctx)
      → 0 < buflen
      → block.length ≤ 2 ^ 32 - chunk_max
      → block.start + block.length ≤ length f
      → md_file_block os avb f block buflen ctx
        ≡ (true, avb_sha256_update ctx (digests avb (chunks (slice f block.start block.length))))
  unfolding md_file_block chunks
  md_file_block_lem f block buflen ctx hb hl hp =
      rw
        (
          calc_chunk_count_exact block hl,
          md_chunks_lem (chunk_count block.length) 0 f block.start block.length buflen ctx hb refl
              (omega arith),
          length-slice f block.start block.length hp,
          add-zero,
        )
        refl
