-- ===== src/Verify/AppBlock/Layout.antt =====
-- The layout of a signed zip file, and `parse_app_block` of verify/zip_verify.c.
use frameworks_system_ota.Prelude.{
  ℕ, zero, suc, ◌+◌, ◌^◌, ◌≤◌, ◌<◌, ◌≡◌, refl, ap, sym, ◌∙◌, String, true, some, List, [], ◌∷◌,
  ◌++◌, arith, length, take, drop, length-append, drop-add,
}
use frameworks_system_ota.Prelude.Int.{ℤ, pos, ◌<ℤ◌, ltb_ℤ}
use frameworks_system_ota.Verify.Bytes.{slice, le_bytes, le_value}
use frameworks_system_ota.Verify.Platform.{Os, read_at, is_count}
use frameworks_system_ota.Verify.AppBlock.{
  AppBlock, magic, sub32, seek_from_end, app_block_of, read_exactly, parse_app_block,
}

-- The contents of a package: the zip entries, the pairs of the signing block, the central directory,
-- the end of central directory up to the directory's offset, the two bytes of the comment's size,
-- and the comment.
pub record Package : Type 0 where
  pub entries : List ℕ
  pub pairs : List ℕ
  pub directory : List ℕ
  pub eocd_head : List ℕ
  pub comment_size : List ℕ
  pub comment : List ℕ

-- The size in the signing block counts the pairs, the second size and the magic.
abbrev pub block_size : Package → ℕ
block_size p = length p.pairs + 24

-- Where the central directory starts.
abbrev pub directory_start : Package → ℕ
directory_start p = length p.entries + 8 + block_size p

-- From the central directory on.
abbrev pub tail_of : Package → List ℕ
tail_of p =
    p.directory
    ++ (p.eocd_head ++ (le_bytes 4 (directory_start p) ++ (p.comment_size ++ p.comment)))

-- The file.
abbrev pub bytes_of : Package → List ℕ
bytes_of p =
    p.entries
    ++ (le_bytes 8 (block_size p)
        ++ (p.pairs ++ (le_bytes 8 (block_size p) ++ (magic ++ tail_of p))))

-- Where its parts are.
abbrev pub blocks_of : Package → AppBlock
blocks_of p = record {
  data_block = record { start = 0; length = length p.entries };
  signature_block = record { start = length p.entries + 8; length = block_size p };
  central_directory_block = record { start = directory_start p; length = length p.directory };
  eocd_block = record {
    start = directory_start p + length p.directory;
    length = length p.comment + 22;
  };
}

-- Every read inside a file gets all the bytes that it asks for.
pub record ReadsWhole (os : Os) : Type 0 where
  pub whole : (f : List ℕ) (p n : ℕ) → p + n ≤ length f → os.read_count f p n ≡ pos n

pub length-le_bytes : (w n : ℕ) → length (le_bytes w n) ≡ w
unfolding le_bytes
length-le_bytes zero n = refl
length-le_bytes (suc w) n = ap suc (length-le_bytes w _)

pub le_value-le_bytes_4 : (n : ℕ) → n < 2 ^ 32 → le_value (le_bytes 4 n) ≡ n
unfolding le_value le_bytes
le_value-le_bytes_4 n h = omega arith

pub le_value-le_bytes_8 : (n : ℕ) → n < 2 ^ 32 → le_value (le_bytes 8 n) ≡ n
unfolding le_value le_bytes
le_value-le_bytes_8 n h = omega arith

pub drop-append : (xs ys : List ℕ) → drop (length xs) (xs ++ ys) ≡ ys
drop-append [] ys = refl
drop-append (x ∷ xs) ys = drop-append xs ys

pub take-append : (xs ys : List ℕ) → take (length xs) (xs ++ ys) ≡ xs
take-append [] ys = refl
take-append (x ∷ xs) ys = ap (λ zs. x ∷ zs) (take-append xs ys)

pub slice-skip :
    (xs rest : List ℕ) (p n q : ℕ) → q ≡ length xs + p → slice (xs ++ rest) q n ≡ slice rest p n
slice-skip xs rest p n q h = rw (h, drop-add (length xs) p (xs ++ rest), drop-append xs rest) refl

pub slice-front : (xs rest : List ℕ) (n : ℕ) → n ≡ length xs → slice (xs ++ rest) 0 n ≡ xs
slice-front xs rest n h = rw h (take-append xs rest)

read_exactly_lem :
    (os : Os) (f : List ℕ) (p n : ℕ)
    → ReadsWhole os
    → p + n ≤ length f
    → read_exactly os f p n ≡ some (slice f p n)
unfolding read_exactly read_at is_count
read_exactly_lem os f p n reads h = let whole = reads.whole f p n h in rw whole (ground arith)

pub length-bytes_of :
    (p : Package)
    → length (bytes_of p)
      ≡ directory_start p
        + length p.directory
        + length p.eocd_head
        + 4
        + length p.comment_size
        + length p.comment
length-bytes_of p = grind (arith, length-append, length-le_bytes)

-- The directory's offset, where the end of central directory has it.
offset_lem :
    (p : Package)
    → slice (bytes_of p) (directory_start p + length p.directory + length p.eocd_head) 4
      ≡ le_bytes 4 (directory_start p)
offset_lem p =
    let b = le_bytes 8 (block_size p) in
    let lb = length-le_bytes 8 (block_size p) in
    let d = length p.directory in
    let e = length p.eocd_head in
    slice-skip p.entries _ (8 + block_size p + d + e) 4 _ (omega arith)
    ∙ slice-skip b _ (block_size p + d + e) 4 _ (omega arith)
    ∙ slice-skip p.pairs _ (24 + d + e) 4 _ (omega arith)
    ∙ slice-skip b _ (16 + d + e) 4 _ (omega arith)
    ∙ slice-skip magic (tail_of p) (d + e) 4 (16 + d + e) (omega arith)
    ∙ slice-skip p.directory _ e 4 _ (omega arith)
    ∙ slice-skip p.eocd_head _ 0 4 _ (omega arith)
    ∙ slice-front (le_bytes 4 (directory_start p)) _ 4 (sym (length-le_bytes 4 (directory_start p)))

magic_lem :
    (p : Package) → slice (bytes_of p) (length p.entries + 8 + length p.pairs + 8) 16 ≡ magic
magic_lem p =
    let b = le_bytes 8 (block_size p) in
    let lb = length-le_bytes 8 (block_size p) in
    slice-skip p.entries _ (8 + length p.pairs + 8) 16 _ (omega arith)
    ∙ slice-skip b _ (length p.pairs + 8) 16 _ (omega arith)
    ∙ slice-skip p.pairs _ 8 16 _ (omega arith)
    ∙ slice-skip b (magic ++ tail_of p) 0 16 8 (omega arith)
    ∙ slice-front magic (tail_of p) 16 refl

size_lem :
    (p : Package)
    → slice (bytes_of p) (length p.entries + 8 + length p.pairs) 8 ≡ le_bytes 8 (block_size p)
size_lem p =
    let b = le_bytes 8 (block_size p) in
    slice-skip p.entries _ (8 + length p.pairs) 8 _ (omega arith)
    ∙ slice-skip b _ (length p.pairs) 8 _ (omega (arith, length-le_bytes 8 (block_size p)))
    ∙ slice-skip p.pairs _ 0 8 _ (omega arith)
    ∙ slice-front b _ 8 (sym (length-le_bytes 8 (block_size p)))

-- The blocks, from the numbers in the file.
app_block_of_lem :
    (p : Package)
    → length (bytes_of p) < 2 ^ 32
    → app_block_of
        (length p.comment)
        (directory_start p)
        (block_size p)
        (directory_start p + length p.directory)
      ≡ blocks_of p
unfolding app_block_of sub32
app_block_of_lem p h = let l = length-bytes_of p in ground arith

opened_lem : (z : ℤ) → pos 0 <ℤ z → ltb_ℤ (pos 0) z ≡ true
opened_lem z h = ground arith

sub32_lem : (a b n : ℕ) → a ≡ n + b → a < 2 ^ 32 → sub32 a b ≡ n
unfolding sub32
sub32_lem a b n h l = omega arith

sought : (f : List ℕ) (p back n : ℕ) → length f ≡ n + back → seek_from_end f p back ≡ n
unfolding seek_from_end
sought f p back n h = ground arith

-- For a package below 4 GiB with a comment of the given length, where every read gets the bytes that
-- it asks for: `parse_app_block` returns where its four parts are.
pub parse_app_block_lem :
    (os : Os) (app_path : String) (p : Package)
    → ReadsWhole os
    → os.malloc 64 ≡ true
    → pos 0 <ℤ os.open_file app_path
    → os.content app_path ≡ bytes_of p
    → length p.eocd_head ≡ 16
    → length p.comment_size ≡ 2
    → length (bytes_of p) < 2 ^ 32
    → parse_app_block os app_path (length p.comment) ≡ some (blocks_of p)
unfolding parse_app_block
parse_app_block_lem os app_path p reads hm ho hc he hs hl =
    let l = length-bytes_of p in
    let f = bytes_of p in
    let cdo = directory_start p in
    let at_offset = cdo + length p.directory + length p.eocd_head in
    let whole = read_exactly_lem os f in
    let r1 = whole at_offset 4 reads (omega arith) in
    let r2 = whole (length p.entries + 8 + length p.pairs + 8) 16 reads (omega arith) in
    let r3 = whole (length p.entries + 8 + length p.pairs) 8 reads (omega arith) in
    rw
      (
        parse_app_block,
        hm,
        hc,
        opened_lem (os.open_file app_path) ho,
        sought f 0 (length p.comment + 6) at_offset (omega arith),
        r1,
        offset_lem p,
        le_value-le_bytes_4 cdo (omega arith),
        sub32_lem cdo 16 (length p.entries + 8 + length p.pairs + 8) (omega arith) (omega arith),
        r2,
        magic_lem p,
        sub32_lem cdo 24 (length p.entries + 8 + length p.pairs) (omega arith) (omega arith),
        r3,
        size_lem p,
        le_value-le_bytes_8 (block_size p) (omega arith),
        sought f (length p.entries + 8 + length p.pairs + 8) (length p.comment + 22)
            (cdo + length p.directory) (omega arith),
      )
      (unfold app_block_of in ap some (app_block_of_lem p hl))
