-- ===== src/Verify/Digest/Spec.antt =====
-- The content digest of the APK signature scheme v2, which verify/zip_verify.c recomputes: the
-- digest of the digests of the chunks of the package's three parts.
use frameworks_system_ota.Prelude.{
  ℕ, zero, suc, ◌+◌, ◌-◌, ◌/◌, ◌≤◌, ◌≡◌, refl, ap, ◌∙◌, List, [], ◌∷◌, ◌++◌, arith, length, take,
  drop, length-drop, take-append-drop,
}
use frameworks_system_ota.Verify.Bytes.{le_bytes}
use frameworks_system_ota.Verify.Platform.{Avb}
use frameworks_system_ota.Verify.Digest.{chunk_max}

-- The number of chunks of `n` bytes.
abbrev pub chunk_count : ℕ → ℕ
chunk_count n = (n + chunk_max - 1) / chunk_max

-- The first `n` chunks.
unfoldable pub split : ℕ → List ℕ → List (List ℕ)
split zero xs = []
split (suc n) xs = take chunk_max xs ∷ split n (drop chunk_max xs)

unfoldable pub chunks : List ℕ → List (List ℕ)
chunks xs = split (chunk_count (length xs)) xs

abbrev pub concat : List (List ℕ) → List ℕ
concat [] = []
concat (xs ∷ xss) = xs ++ concat xss

module _ (avb : Avb) where
  unfoldable pub sha256 : List ℕ → List ℕ
  sha256 xs = avb.avb_sha256_final (avb.avb_sha256_update avb.avb_sha256_init xs)

  unfoldable pub chunk_digest : List ℕ → List ℕ
  chunk_digest c = sha256 (0xa5 ∷ le_bytes 4 (length c) ++ c)

  unfoldable pub digests : List (List ℕ) → List ℕ
  digests [] = []
  digests (c ∷ cs) = chunk_digest c ++ digests cs

  -- Of the contents, the central directory and the end of central directory.
  unfoldable pub content_digest : List ℕ → List ℕ → List ℕ → List ℕ
  content_digest contents directory eocd = sha256 (
      0x5a
        ∷ le_bytes 4 (
            chunk_count (length contents)
            + chunk_count (length directory)
            + chunk_count (length eocd))
      ++ (digests (chunks contents) ++ (digests (chunks directory) ++ digests (chunks eocd))))

split_all : (n : ℕ) (xs : List ℕ) → chunk_count (length xs) ≤ n → concat (split n xs) ≡ xs
unfolding split
split_all zero [] h = refl
split_all zero (x ∷ xs) h = absurd (omega arith)
split_all (suc n) xs h =
    ap (λ ys. take chunk_max xs ++ ys)
      (split_all n (drop chunk_max xs) (omega (arith, length-drop chunk_max xs)))
    ∙ take-append-drop chunk_max xs

-- The chunks are the bytes, in order.
concat-chunks : (xs : List ℕ) → concat (chunks xs) ≡ xs
unfolding chunks
concat-chunks xs = split_all (chunk_count (length xs)) xs (omega arith)
