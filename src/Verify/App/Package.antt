-- ===== src/Verify/App/Package.antt =====
-- `verify_app` of verify/zip_verify.c on a package that is laid out around its signing block.
use frameworks_system_ota.Prelude.{
  ℕ, ◌+◌, ◌^◌, ◌≤◌, ◌<◌, ◌≡◌, ◌↔◌, String, true, some, arith, length,
}
use frameworks_system_ota.Prelude.Int.{pos, ◌<ℤ◌}
use frameworks_system_ota.Verify.Platform.{
  Os, Avb, IsPosix, NoReadError, IsSha256, digest_size, read_at,
}
use frameworks_system_ota.Verify.Block.{SignatureBlock}
use frameworks_system_ota.Verify.AppBlock.{parse_app_block}
use frameworks_system_ota.Verify.AppBlock.Layout.{
  Package, bytes_of, blocks_of, length-bytes_of, ReadsWhole, parse_app_block_lem,
}
use frameworks_system_ota.Verify.Digest.Spec.{content_digest}
use frameworks_system_ota.Verify.Digest.Sound.{WellPlaced}
use frameworks_system_ota.Verify.Digest.Unsigned.{
  eocd_of, signing_bytes, signing_lem, blocks_of-WellPlaced, expected_digest_lem,
}
use frameworks_system_ota.Verify.App.{parse_signing_block, signing_block, verify_app}
use frameworks_system_ota.Verify.App.Accept.{IsGenuine, verify_app_lem}

-- The file that is named is this package, it is below 2 GiB, and its parts have their sizes.
pub record IsPackage (os : Os) (app_path : String) (p : Package) : Type 0 where
  pub stored : os.content app_path ≡ bytes_of p
  pub eocd_size : length p.eocd_head ≡ 16
  pub size_size : length p.comment_size ≡ 2
  pub comment_bound : length p.comment < 65536
  pub small : length (bytes_of p) < 2 ^ 31

-- Nothing fails: the allocations, the calls that open files, and every read is whole.
pub record NothingFails (os : Os) (app_path cert_path : String) : Type 0 where
  pub allocates : (n : ℕ) → os.malloc n ≡ true
  pub opens_app : pos 0 <ℤ os.open_file app_path
  pub finds_key : os.stat cert_path ≡ pos 0
  pub opens_key : pos 0 <ℤ os.open_file cert_path
  pub reads : ReadsWhole os

module _ (os : Os) (avb : Avb) (posix : IsPosix os) (sha : IsSha256 avb) (buflen key_size : ℕ)
    (app_path cert_path : String) (p : Package) (file : IsPackage os app_path p)
    (works : NothingFails os app_path cert_path) where
  reads : NoReadError os
  reads = record { succeeds = λ f q n h. (n, works.reads.whole f q n h) }

  signing_read : signing_block os avb buflen key_size app_path (blocks_of p) ≡ signing_bytes p
  unfolding read_at
  signing_read =
      let l = length-bytes_of p in
      let block = (blocks_of p).signature_block in
      rw
        (
          file.stored,
          works.reads.whole (bytes_of p) block.start block.length (omega (arith, file.eocd_size)),
        )
        (signing_lem p)

  layout : parse_app_block os app_path (length p.comment) ≡ some (blocks_of p)
  layout =
      let small = file.small in
      parse_app_block_lem os app_path p works.reads (works.allocates 64) works.opens_app file.stored
        file.eocd_size file.size_size (omega arith)

  -- Where nothing fails, for a package below 2 GiB that is laid out around its signing block, and a
  -- signing block that parses: `verify_app` returns 0 exactly if the first signer is genuine, for
  -- the digest of the zip file without the signing block.
  pub verify_package :
      (id : ℕ) (info : SignatureBlock)
      → 0 < buflen
      → parse_signing_block (signing_bytes p) id ≡ some info
      → info.one_digest.start + digest_size ≤ length (signing_bytes p)
      → (verify_app os avb buflen key_size app_path cert_path (length p.comment) id ≡ some (pos 0))
        ↔ IsGenuine os avb key_size cert_path
            (signing_bytes p)
            info
            (content_digest avb p.entries p.directory (eocd_of p (length p.entries)))
  verify_package id info hb parsed inside =
      let f = os.content app_path in
      let eocd = (blocks_of p).eocd_block in
      let whole =
        blocks_of-WellPlaced p file.eocd_size file.size_size file.comment_bound file.small in
      let w : WellPlaced f (blocks_of p) = rw file.stored whole in
      let accepts =
        verify_app_lem os avb posix reads sha buflen key_size app_path cert_path (blocks_of p)
          (length p.comment) id info hb (works.allocates buflen) (works.allocates eocd.length)
          (works.allocates (blocks_of p).signature_block.length) works.opens_app works.finds_key
          works.opens_key layout (rw signing_read parsed) w
          (works.reads.whole f eocd.start eocd.length w.eocd_in) (rw signing_read inside) in
      rw (signing_read, file.stored, expected_digest_lem avb p file.eocd_size file.size_size) at
        accepts
