-- ===== src/Verify/Bytes.antt =====
-- Bytes, little-endian numbers and reads of a buffer, as the `memcpy` calls of
-- verify/zip_verify.c use them on a little-endian target.
use frameworks_system_ota.Prelude.{
  ℕ, zero, suc, ◌+◌, ◌*◌, ◌/◌, ◌%◌, Option, none, some, List, [], ◌∷◌, ◌==◌, ◌&&◌, leb, Bool, true,
  false, if◌then◌else◌, length, take, drop,
}

-- The number that the bytes spell, the lowest byte first.
unfoldable pub le_value : List ℕ → ℕ
le_value [] = 0
le_value (b ∷ bs) = b + 256 * le_value bs

-- The lowest `w` bytes of a number.
unfoldable pub le_bytes : ℕ → ℕ → List ℕ
le_bytes zero n = []
le_bytes (suc w) n = n % 256 ∷ le_bytes w (n / 256)

abbrev pub slice : List ℕ → ℕ → ℕ → List ℕ
slice xs off n = take n (drop off xs)

-- `n` bytes at offset `off` of a buffer; `none` where the read leaves it.
unfoldable pub read_mem : List ℕ → ℕ → ℕ → Option (List ℕ)
read_mem mem off n = if leb (off + n) (length mem) then some (slice mem off n) else none

-- Equality of two byte strings, as `memcmp` reports it.
unfoldable pub same_bytes : List ℕ → List ℕ → Bool
same_bytes [] [] = true
same_bytes (x ∷ xs) (y ∷ ys) = x == y && same_bytes xs ys
same_bytes _ _ = false
