-- ===== src/Verify/Block/Place.antt =====
-- Bytes at an offset of the buffer in verify/zip_verify.c, and the reads of a block and of a number
-- there.
use frameworks_system_ota.Prelude.{
  ℕ, ◌+◌, ◌^◌, ◌≤◌, ◌<◌, ◌≡◌, refl, sym, ap, subst, ◌∙◌, true, some, List, ◌++◌, append_assoc,
  length, length-append, arith, leb,
}
use frameworks_system_ota.Verify.Bytes.{le_bytes, slice, read_mem}
use frameworks_system_ota.Verify.Block.{read_le, parse_block}
use frameworks_system_ota.Verify.AppBlock.Layout.{
  length-le_bytes, le_value-le_bytes_4, slice-skip, slice-front,
}

-- A block behind its length.
abbrev pub prefixed : List ℕ → List ℕ
prefixed xs = le_bytes 4 (length xs) ++ xs

-- The bytes `xs` stand at offset `off` of the buffer.
pub record At (mem : List ℕ) (off : ℕ) (xs : List ℕ) : Type 0 where
  pub before : List ℕ
  pub after : List ℕ
  pub split : mem ≡ before ++ (xs ++ after)
  pub place : length before ≡ off

slice-at :
    (before xs after : List ℕ) (off : ℕ)
    → length before ≡ off
    → slice (before ++ (xs ++ after)) off (length xs) ≡ xs
slice-at before xs after off place =
    slice-skip before (xs ++ after) 0 (length xs) off (omega (arith, place))
    ∙ slice-front xs after (length xs) refl

module _ {mem : List ℕ} where
  pub At-left : {off : ℕ} (xs ys : List ℕ) → At mem off (xs ++ ys) → At mem off xs
  At-left xs ys at = record {
    before = at.before;
    after = ys ++ at.after;
    split = at.split ∙ ap (λ zs. at.before ++ zs) (append_assoc xs ys at.after);
    place = at.place;
  }

  pub At-right : {off : ℕ} (xs ys : List ℕ) → At mem off (xs ++ ys) → At mem (off + length xs) ys
  At-right xs ys at = record {
    before = at.before ++ xs;
    after = at.after;
    split =
        at.split
        ∙ ap (λ zs. at.before ++ zs) (append_assoc xs ys at.after)
        ∙ sym (append_assoc at.before xs (ys ++ at.after));
    place = length-append at.before xs ∙ ap (λ n. n + length xs) at.place;
  }

  At-length : {off : ℕ} (xs : List ℕ) → At mem off xs → off + length xs ≤ length mem
  At-length xs at =
      let split = ap length at.split in
      let place = at.place in
      omega
        (arith, split, place, length-append at.before (xs ++ at.after), length-append xs at.after)

  pub read_mem-At : {off : ℕ} (xs : List ℕ) → At mem off xs → read_mem mem off (length xs) ≡ some xs
  unfolding read_mem
  read_mem-At {off} xs at =
      let inside = At-length xs at in
      let there : leb (off + length xs) (length mem) ≡ true = ground arith in
      let read : slice mem off (length xs) ≡ xs =
        ap (λ m. slice m off (length xs)) at.split ∙ slice-at at.before xs at.after off at.place in
      rw (there, read) refl

  pub read_le-At :
      {off : ℕ} (n : ℕ) → n < 2 ^ 32 → At mem off (le_bytes 4 n) → read_le 4 mem off ≡ some n
  unfolding read_le
  read_le-At {off} n small at =
      let read : read_mem mem off 4 ≡ some (le_bytes 4 n) =
        ap (read_mem mem off) (sym (length-le_bytes 4 n)) ∙ read_mem-At (le_bytes 4 n) at in
      rw (read, le_value-le_bytes_4 n small) refl

  pub At-place : {off : ℕ} (off' : ℕ) (xs : List ℕ) → off ≡ off' → At mem off xs → At mem off' xs
  At-place off' xs e at = subst (λ o. At mem o xs) e at

  -- A block, and what stands behind it.
  pub block-At :
      {off : ℕ} (xs ys : List ℕ)
      → length mem < 2 ^ 32
      → At mem off (prefixed xs ++ ys)
      → (parse_block mem off
          ≡ some (record { start = off + 4; length = length xs }, off + 4 + length xs))
        × At mem (off + 4) xs
        × At mem (off + 4 + length xs) ys
  unfolding parse_block
  block-At {off} xs ys small at =
      let size = le_bytes 4 (length xs) in
      let four = length-le_bytes 4 (length xs) in
      let whole = At-left (prefixed xs) ys at in
      let content : At mem (off + 4) xs =
        At-place (off + 4) xs (ap (λ n. off + n) four) (At-right size xs whole) in
      let behind : At mem (off + 4 + length xs) ys =
        At-place (off + 4 + length xs) ys (omega (arith, four, length-append size xs))
          (At-right (prefixed xs) ys at) in
      let bound = At-length xs content in
      let read = read_le-At (length xs) (omega arith) (At-left size xs whole) in
      (rw read refl, content, behind)

  -- A number, and what stands behind it.
  pub number-At :
      {off : ℕ} (n : ℕ) (xs : List ℕ)
      → n < 2 ^ 32
      → At mem off (le_bytes 4 n ++ xs)
      → (read_le 4 mem off ≡ some n) × At mem (off + 4) xs
  number-At {off} n xs small at = (
    read_le-At n small (At-left (le_bytes 4 n) xs at),
    At-place (off + 4) xs (ap (λ m. off + m) (length-le_bytes 4 n)) (At-right (le_bytes 4 n) xs at),
  )
