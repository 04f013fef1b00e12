-- ===== src/Verify/Digest/Sound.antt =====
-- `verify_digest` of verify/zip_verify.c and the content digest of a package.
use frameworks_system_ota.Prelude.{
  ℕ, ◌+◌, ◌^◌, ◌≤◌, ◌<◌, ◌≡◌, ◌↔◌, refl, ap, sym, ◌∙◌, true, false, Bool, some, List, [], ◌∷◌, ◌++◌,
  String, arith, length, take, drop, length-append, length-take, length-drop, append-nil,
  append_assoc, take_all,
}
use frameworks_system_ota.Prelude.Int.{ℤ, pos, ◌≤ℤ◌, ltb_ℤ}
use frameworks_system_ota.Verify.Bytes.{slice, le_bytes, read_mem, same_bytes}
use frameworks_system_ota.Verify.Platform.{
  Os, Avb, IsPosix, NoReadError, IsSha256, digest_size, read_at, is_count,
}
use frameworks_system_ota.Verify.Block.{DataBlock}
use frameworks_system_ota.Verify.AppBlock.{AppBlock}
use frameworks_system_ota.Verify.Digest.{
  chunk_max, calc_chunk_count, md_file_block, hash_content, finish_digest, patch_eocd,
  compare_digest, verify_digest, int_of_offset, is_length,
}
use frameworks_system_ota.Verify.Digest.Spec.{
  chunk_count, split, chunks, digests, chunk_digest, sha256, content_digest,
}
use frameworks_system_ota.Verify.Digest.Loop.{length-slice}
use frameworks_system_ota.Verify.Digest.Blocks.{calc_chunk_count_exact, md_file_block_lem}

-- The three parts lie in a file below 2 GiB, so that no chunk count wraps and what `lseek` returns
-- is an `int`, and the end of central directory has 20 bytes and is one chunk.
pub record WellPlaced (f : List ℕ) (app_block : AppBlock) : Type 0 where
  pub data_in : app_block.data_block.start + app_block.data_block.length ≤ length f
  pub directory_in :
      app_block.central_directory_block.start + app_block.central_directory_block.length ≤ length f
  pub eocd_in : app_block.eocd_block.start + app_block.eocd_block.length ≤ length f
  pub eocd_whole : 20 ≤ app_block.eocd_block.length
  pub eocd_short : app_block.eocd_block.length ≤ chunk_max
  pub small : length f < 2 ^ 31

-- The end of central directory with the offset that it had before the package was signed.
abbrev pub patched : AppBlock → List ℕ → List ℕ
patched app_block eocd = take 16 eocd ++ le_bytes 4 app_block.data_block.length ++ drop 20 eocd

abbrev pub part : List ℕ → DataBlock → List ℕ
part f block = slice f block.start block.length

module _ (avb : Avb) where
  -- The digest that the signer signed, if the package is unchanged.
  abbrev pub expected_digest : List ℕ → AppBlock → List ℕ
  expected_digest f app_block =
      content_digest avb (part f app_block.data_block) (part f app_block.central_directory_block)
        (patched app_block (part f app_block.eocd_block))

length-patched :
    (app_block : AppBlock) (eocd : List ℕ)
    → 20 ≤ length eocd
    → length (patched app_block eocd) ≡ length eocd
unfolding le_bytes
length-patched app_block eocd h =
    let b = le_bytes 4 app_block.data_block.length in
    omega (
      arith,
      length-append (take 16 eocd ++ b) (drop 20 eocd),
      length-append (take 16 eocd) b,
      length-take 16 eocd,
      length-drop 20 eocd,
    )

ap₃_add : {a b c x y z : ℕ} → a ≡ x → b ≡ y → c ≡ z → a + b + c ≡ x + y + z
ap₃_add p q r = cc

module _ (os : Os) (avb : Avb) (posix : IsPosix os) (reads : NoReadError os)
    (sha : IsSha256 avb) where
  open avb use {Sha256Ctx, avb_sha256_init, avb_sha256_update, avb_sha256_final}

  hash_content_lem :
      (f : List ℕ) (app_block : AppBlock) (buflen : ℕ)
      → 0 < buflen
      → WellPlaced f app_block
      → hash_content os avb f app_block buflen
        ≡ avb_sha256_update avb_sha256_init (
            0x5a
              ∷ le_bytes 4 (
                  chunk_count app_block.data_block.length
                  + chunk_count app_block.central_directory_block.length
                  + chunk_count app_block.eocd_block.length)
            ++ (digests avb (chunks (part f app_block.data_block))
                ++ digests avb (chunks (part f app_block.central_directory_block))))
  unfolding hash_content
  hash_content_lem f app_block buflen hb w =
      let data_block = app_block.data_block in
      let directory = app_block.central_directory_block in
      let init = avb_sha256_update avb_sha256_init (0x5a ∷ []) in
      let data_md = digests avb (chunks (part f data_block)) in
      let directory_md = digests avb (chunks (part f directory)) in
      let hashed = λ (n : ℕ). avb_sha256_update init (le_bytes 4 n) in
      let counted : ℕ =
        calc_chunk_count data_block
        + calc_chunk_count directory
        + calc_chunk_count app_block.eocd_block in
      ap (λ (r : Bool × Sha256Ctx). (md_file_block os avb f directory buflen r.1).1)
        (md_file_block_lem os avb posix reads sha f data_block buflen (hashed counted) hb
          (omega arith) w.data_in)
      ∙ ap (λ (r : Bool × Sha256Ctx). r.1)
          (md_file_block_lem os avb posix reads sha f directory buflen
            (avb_sha256_update (hashed counted) data_md) hb (omega arith) w.directory_in)
      ∙ ap (λ n. avb_sha256_update (avb_sha256_update (hashed n) data_md) directory_md)
          (ap₃_add (calc_chunk_count_exact data_block (omega arith))
            (calc_chunk_count_exact directory (omega arith))
            (calc_chunk_count_exact app_block.eocd_block (omega arith)))
      ∙ sha.update-update _ data_md directory_md
      ∙ sha.update-update init _ (data_md ++ directory_md)
      ∙ sha.update-update avb_sha256_init (0x5a ∷ []) _

  -- A part of at most one chunk.
  digests_single :
      (buf : List ℕ)
      → 0 < length buf
      → length buf ≤ chunk_max
      → digests avb (chunks buf) ≡ chunk_digest avb buf
  unfolding digests chunks split
  digests_single buf lo hi =
      let one : chunk_count (length buf) ≡ 1 = omega arith in
      rw (one, take_all chunk_max buf hi, append-nil)

  length-sha256 : (xs : List ℕ) → length (sha256 avb xs) ≡ digest_size
  unfolding sha256
  length-sha256 xs = sha.length-final _

  finish_digest_lem :
      (app_block : AppBlock) (buf : List ℕ) (front : List ℕ)
      → length buf ≡ app_block.eocd_block.length
      → 0 < length buf
      → length buf ≤ chunk_max
      → finish_digest avb app_block buf (avb_sha256_update avb_sha256_init front)
        ≡ sha256 avb (front ++ digests avb (chunks buf))
  unfolding finish_digest sha256
  finish_digest_lem app_block buf front len lo hi =
      let init = avb_sha256_update avb_sha256_init (0xa5 ∷ []) in
      let prefix = le_bytes 4 app_block.eocd_block.length in
      let md : avb_sha256_final (avb_sha256_update (avb_sha256_update init prefix) buf)
          ≡ chunk_digest avb buf =
        unfold chunk_digest sha256 in
        ap avb_sha256_final (
          sha.update-update init prefix buf
          ∙ sha.update-update avb_sha256_init (0xa5 ∷ []) _
          ∙ rw len) in
      ap
        (λ m.
          avb_sha256_final
            (avb_sha256_update (avb_sha256_update avb_sha256_init front) (take digest_size m)))
        md
      ∙ ap (λ m. avb_sha256_final (avb_sha256_update (avb_sha256_update avb_sha256_init front) m))
          (take_all digest_size (chunk_digest avb buf) (
              unfold chunk_digest in
              omega (arith, length-sha256 (0xa5 ∷ le_bytes 4 (length buf) ++ buf)))
            ∙ sym (digests_single buf lo hi))
      ∙ ap avb_sha256_final (sha.update-update avb_sha256_init front _)

  package_digest :
      (f : List ℕ) (app_block : AppBlock) (buflen : ℕ)
      → 0 < buflen
      → WellPlaced f app_block
      → finish_digest avb app_block
          (patched app_block (part f app_block.eocd_block))
          (hash_content os avb f app_block buflen)
        ≡ expected_digest avb f app_block
  package_digest f app_block buflen hb w =
      let data_block = app_block.data_block in
      let directory = app_block.central_directory_block in
      let eocd = app_block.eocd_block in
      let whole = length-slice f eocd.start eocd.length w.eocd_in in
      let len = length-patched app_block (part f eocd) (omega (arith, whole)) in
      ap (finish_digest avb app_block (patched app_block (part f eocd)))
        (hash_content_lem f app_block buflen hb w)
      ∙ finish_digest_lem app_block (patched app_block (part f eocd)) _ (len ∙ whole)
          (omega (arith, len, whole)) (omega (arith, len, whole))
      ∙ (unfold content_digest in
          rw
            (
              length-slice f data_block.start data_block.length w.data_in,
              length-slice f directory.start directory.length w.directory_in,
              len,
              whole,
            )
            (ap (sha256 avb) (simp append_assoc)))

same_bytes_iff : (xs ys : List ℕ) → (same_bytes xs ys ≡ true) ↔ (xs ≡ ys)
unfolding same_bytes
same_bytes_iff [] [] = (λ _. refl, λ _. refl)
same_bytes_iff [] (y ∷ ys) = (λ h. cc, λ h. cc)
same_bytes_iff (x ∷ xs) [] = (λ h. cc, λ h. cc)
same_bytes_iff (x ∷ xs) (y ∷ ys) = ground (arith, same_bytes_iff xs ys)

offset_fits : (n : ℕ) → n < 2 ^ 31 → is_count (int_of_offset n) n ≡ true
unfolding is_count int_of_offset
offset_fits n h = ground arith

read_at_full :
    (os : Os) (f : List ℕ) (p n : ℕ)
    → os.read_count f p n ≡ pos n
    → read_at os f p n ≡ (pos n, slice f p n)
unfolding read_at
read_at_full os f p n e = rw e

is_length_self : (n : ℕ) → is_length (pos n) n ≡ true
unfolding is_length
is_length_self n = ground arith

patch_eocd_lem :
    (b buf : List ℕ) → 20 ≤ length buf → patch_eocd b buf ≡ some (take 16 buf ++ b ++ drop 20 buf)
unfolding patch_eocd
patch_eocd_lem b buf h = ground arith

not_negative : (z : ℤ) → pos 0 ≤ℤ z → ltb_ℤ z (pos 0) ≡ false
not_negative z h = ground arith

compare_digest_lem :
    (mem : List ℕ) (digest : ℕ) (md : List ℕ)
    → digest + digest_size ≤ length mem
    → length md ≡ digest_size
    → (compare_digest mem digest md ≡ some (pos 0)) ↔ (slice mem digest digest_size ≡ md)
unfolding compare_digest read_mem
compare_digest_lem mem digest md h len =
    ground (arith, take_all digest_size md, same_bytes_iff (slice mem digest digest_size) md)

module _ (os : Os) (avb : Avb) (posix : IsPosix os) (reads : NoReadError os)
    (sha : IsSha256 avb) where
  -- For a package whose three parts lie in its file, where the file is below 2 GiB and the end of
  -- central directory has from 20 bytes to 1 MiB: if the buffer is not of size 0, both allocations
  -- succeed, the file can be opened, no read within the file fails, the end of central directory is
  -- read in one piece, and the 32 bytes at the signed digest lie in the buffer, then
  -- `verify_digest` returns 0 exactly if those bytes are the content digest of the package.
  pub verify_digest_lem :
      (buflen : ℕ) (path : String) (app_block : AppBlock) (mem : List ℕ) (digest : ℕ)
      → 0 < buflen
      → os.malloc buflen ≡ true
      → os.malloc app_block.eocd_block.length ≡ true
      → pos 0 ≤ℤ os.open_file path
      → WellPlaced (os.content path) app_block
      → os.read_count (os.content path) app_block.eocd_block.start app_block.eocd_block.length
        ≡ pos app_block.eocd_block.length
      → digest + digest_size ≤ length mem
      → (verify_digest os avb buflen path app_block mem digest ≡ some (pos 0))
        ↔ (slice mem digest digest_size ≡ expected_digest avb (os.content path) app_block)
  unfolding verify_digest
  verify_digest_lem buflen path app_block mem digest hb m1 m2 opened w full hd =
      let f = os.content path in
      let eocd = app_block.eocd_block in
      rw
        (
          verify_digest,
          read_at_full os f eocd.start eocd.length full,
          m1,
          m2,
          offset_fits eocd.start (omega arith),
          is_length_self eocd.length,
          patch_eocd_lem (le_bytes 4 app_block.data_block.length) (part f eocd)
              (omega (arith, length-slice f eocd.start eocd.length)),
          not_negative (os.open_file path) opened,
          package_digest os avb posix reads sha f app_block buflen hb w,
        )
        (compare_digest_lem mem digest (expected_digest avb f app_block) hd
          (unfold content_digest in length-sha256 os avb posix reads sha _))
