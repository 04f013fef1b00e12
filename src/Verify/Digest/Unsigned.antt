-- ===== src/Verify/Digest/Unsigned.antt =====
-- The content digest of verify/zip_verify.c and the zip file before it was signed.
use frameworks_system_ota.Prelude.{
  ℕ, ◌+◌, ◌^◌, ◌<◌, ◌≡◌, refl, ap, sym, ◌∙◌, List, ◌++◌, arith, length, drop, drop-add, take_all,
  length-append, append_assoc,
}
use frameworks_system_ota.Verify.Bytes.{slice, le_bytes}
use frameworks_system_ota.Verify.Platform.{Avb}
use frameworks_system_ota.Verify.AppBlock.{magic}
use frameworks_system_ota.Verify.Digest.Spec.{content_digest}
use frameworks_system_ota.Verify.Digest.Sound.{WellPlaced, expected_digest, part, patched}
use frameworks_system_ota.Verify.AppBlock.Layout.{
  Package, block_size, directory_start, tail_of, bytes_of, blocks_of, length-bytes_of,
  length-le_bytes, slice-skip, slice-front, drop-append,
}

-- The end of central directory of the package, and that of the zip file before it was signed.
abbrev pub eocd_of : Package → ℕ → List ℕ
eocd_of p offset = p.eocd_head ++ (le_bytes 4 offset ++ (p.comment_size ++ p.comment))

-- The package is below 2 GiB.
pub blocks_of-WellPlaced :
    (p : Package)
    → length p.eocd_head ≡ 16
    → length p.comment_size ≡ 2
    → length p.comment < 65536
    → length (bytes_of p) < 2 ^ 31
    → WellPlaced (bytes_of p) (blocks_of p)
blocks_of-WellPlaced p he hs hc h = let l = length-bytes_of p in omega arith

-- The signing block behind its first size.
abbrev pub signing_bytes : Package → List ℕ
signing_bytes p = p.pairs ++ (le_bytes 8 (block_size p) ++ magic)

regroup :
    (p : Package)
    → p.pairs ++ (le_bytes 8 (block_size p) ++ (magic ++ tail_of p)) ≡ signing_bytes p ++ tail_of p
regroup p =
    let b = le_bytes 8 (block_size p) in
    ap (λ xs. p.pairs ++ xs) (sym (append_assoc b magic (tail_of p)))
    ∙ sym (append_assoc p.pairs (b ++ magic) (tail_of p))

-- The part of the package that is the signing block.
pub signing_lem : (p : Package) → part (bytes_of p) (blocks_of p).signature_block ≡ signing_bytes p
signing_lem p =
    let b = le_bytes 8 (block_size p) in
    let lb = length-le_bytes 8 (block_size p) in
    slice-skip p.entries _ 8 (block_size p) _ refl
    ∙ slice-skip b (p.pairs ++ (b ++ (magic ++ tail_of p))) 0 (block_size p) 8 (omega arith)
    ∙ ap (λ xs. slice xs 0 (block_size p)) (regroup p)
    ∙ slice-front (signing_bytes p) (tail_of p) (block_size p)
        (omega (arith, length-append p.pairs (b ++ magic), length-append b magic))

entries_lem : (p : Package) → part (bytes_of p) (blocks_of p).data_block ≡ p.entries
entries_lem p = slice-front p.entries _ (length p.entries) refl

tail_lem :
    (p : Package) (i n : ℕ) → slice (bytes_of p) (directory_start p + i) n ≡ slice (tail_of p) i n
tail_lem p i n =
    let b = le_bytes 8 (block_size p) in
    let lb = length-le_bytes 8 (block_size p) in
    slice-skip p.entries _ (8 + block_size p + i) n _ (omega arith)
    ∙ slice-skip b _ (block_size p + i) n _ (omega arith)
    ∙ slice-skip p.pairs _ (24 + i) n _ (omega arith)
    ∙ slice-skip b (magic ++ tail_of p) (16 + i) n (24 + i) (omega arith)
    ∙ slice-skip magic (tail_of p) i n (16 + i) (omega arith)

directory_lem :
    (p : Package) → part (bytes_of p) (blocks_of p).central_directory_block ≡ p.directory
directory_lem p =
    ap (λ i. slice (bytes_of p) i (length p.directory)) (omega arith)
    ∙ tail_lem p 0 (length p.directory)
    ∙ slice-front p.directory _ (length p.directory) refl

length-eocd_of :
    (p : Package) (offset : ℕ)
    → length p.eocd_head ≡ 16
    → length p.comment_size ≡ 2
    → length (eocd_of p offset) ≡ length p.comment + 22
length-eocd_of p offset he hs = grind (arith, length-append, length-le_bytes)

eocd_lem :
    (p : Package)
    → length p.eocd_head ≡ 16
    → length p.comment_size ≡ 2
    → part (bytes_of p) (blocks_of p).eocd_block ≡ eocd_of p (directory_start p)
eocd_lem p he hs =
    let len = length-eocd_of p (directory_start p) he hs in
    tail_lem p (length p.directory) (length p.comment + 22)
    ∙ slice-skip p.directory (eocd_of p (directory_start p)) 0 (length p.comment + 22) _
        (omega arith)
    ∙ take_all (length p.comment + 22) (eocd_of p (directory_start p)) (omega arith)

drop-skip : (xs rest : List ℕ) (p q : ℕ) → q ≡ length xs + p → drop q (xs ++ rest) ≡ drop p rest
drop-skip xs rest p q h = rw (h, drop-add (length xs) p (xs ++ rest), drop-append xs rest) refl

patched_lem :
    (p : Package) (offset : ℕ)
    → length p.eocd_head ≡ 16
    → patched (blocks_of p) (eocd_of p offset) ≡ eocd_of p (length p.entries)
patched_lem p offset he =
    let b = le_bytes 4 offset in
    let rest = p.comment_size ++ p.comment in
    rw
      (
        slice-front p.eocd_head (b ++ rest) 16 (sym he),
        drop-skip p.eocd_head (b ++ rest) 4 20 (omega arith),
        drop-skip b rest 0 4 (omega (arith, length-le_bytes 4 offset)),
      )
      (append_assoc p.eocd_head (le_bytes 4 (length p.entries)) rest)

module _ (avb : Avb) where
  -- For a package that is laid out around its signing block: the digest that `verify_digest` expects
  -- is that of the zip file without the signing block, whose end of central directory has the offset
  -- of the directory there.
  pub expected_digest_lem :
      (p : Package)
      → length p.eocd_head ≡ 16
      → length p.comment_size ≡ 2
      → expected_digest avb (bytes_of p) (blocks_of p)
        ≡ content_digest avb p.entries p.directory (eocd_of p (length p.entries))
  expected_digest_lem p he hs =
      rw (entries_lem p, directory_lem p, eocd_lem p he hs, patched_lem p (directory_start p) he)
        refl
