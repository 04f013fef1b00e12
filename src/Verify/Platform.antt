-- ===== src/Verify/Platform.antt =====
-- What verify/zip_verify.c takes from its surroundings: the C library's files and memory, libavb,
-- and minizip.
use frameworks_system_ota.Prelude.{
  ℕ, ◌+◌, ◌-◌, ◌≤◌, ◌<◌, ◌≡◌, String, Bool, false, Option, List, [], ◌++◌, length, ◌==◌,
}
use frameworks_system_ota.Prelude.Int.{ℤ, pos, negsuc}
use frameworks_system_ota.Verify.Bytes.{slice}

-- A file does not change during a run.
pub record Os : Type 0 where
  -- The descriptor that `open` returns.
  pub open_file : String → ℤ
  pub content : String → List ℕ
  -- What `read` returns: the bytes of the file, the position, the number of bytes asked for.
  pub read_count : List ℕ → ℕ → ℕ → ℤ
  -- Whether an allocation of that many bytes succeeds.
  pub malloc : ℕ → Bool
  pub stat : String → ℤ
  pub access : String → ℤ

-- `read` returns -1, or a number of bytes that were asked for and are in the file, and it returns 0
-- only at the end of the file.
pub record IsPosix (os : Os) : Type 0 where
  pub within : (f : List ℕ) (p n k : ℕ) → os.read_count f p n ≡ pos k → (k ≤ n) × (k ≤ length f - p)
  pub progress :
      (f : List ℕ) (p n k : ℕ) → os.read_count f p n ≡ pos k → 0 < n → p < length f → 0 < k

-- Within the file no read fails. A read may still return fewer bytes than asked for.
pub record NoReadError (os : Os) : Type 0 where
  pub succeeds : (f : List ℕ) (p n : ℕ) → p + n ≤ length f → (k : ℕ) × (os.read_count f p n ≡ pos k)

-- libavb (avb_sha.h, avb_rsa.h)
pub record Avb : Type 1 where
  pub Sha256Ctx : Type 0
  pub Algorithm : Type 0
  pub avb_sha256_init : Sha256Ctx
  pub avb_sha256_update : Sha256Ctx → List ℕ → Sha256Ctx
  pub avb_sha256_final : Sha256Ctx → List ℕ
  -- The data of AVB_ALGORITHM_TYPE_SHA256_RSA2048.
  pub avb_get_algorithm_data : Option Algorithm
  -- Key, signature, hash.
  pub avb_rsa_verify : List ℕ → List ℕ → List ℕ → Algorithm → Bool

abbrev pub digest_size : ℕ
digest_size = 32

-- Hashing in pieces is hashing the whole, and a digest has `AVB_SHA256_DIGEST_SIZE` bytes.
pub record IsSha256 (avb : Avb) : Type 0 where
  pub update-update :
      (c : avb.Sha256Ctx) (xs ys : List ℕ)
      → avb.avb_sha256_update (avb.avb_sha256_update c xs) ys ≡ avb.avb_sha256_update c (xs ++ ys)
  pub update-nil : (c : avb.Sha256Ctx) → avb.avb_sha256_update c [] ≡ c
  pub length-final : (c : avb.Sha256Ctx) → length (avb.avb_sha256_final c) ≡ digest_size

-- minizip (unzip.h): whether the archive opens, the result and the comment's size of
-- `unzGetGlobalInfo64`, and the result of `unzClose`.
pub record Unzip : Type 0 where
  pub unz_open : String → Bool
  pub unz_get_global_info : String → ℤ × ℕ
  pub unz_close : String → ℤ

abbrev pub read_bytes : ℤ → List ℕ → ℕ → List ℕ
read_bytes (pos k) f p = slice f p k
read_bytes (negsuc k) f p = []

-- `n` bytes at position `p` by one `read`: what it returns, and the bytes that it stores.
unfoldable pub read_at : Os → List ℕ → ℕ → ℕ → ℤ × List ℕ
read_at os f p n = let ret = os.read_count f p n in (ret, read_bytes ret f p)

-- `res == n`
unfoldable pub is_count : ℤ → ℕ → Bool
is_count (pos k) n = k == n
is_count (negsuc k) n = false
