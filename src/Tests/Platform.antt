-- ===== src/Tests/Platform.antt =====
-- Surroundings of verify/zip_verify.c for the tests: files in memory, and a hash that keeps the
-- first 32 bytes.
use text.Mathlib.Text.{◌==◌ as str_eq}
use frameworks_system_ota.Prelude.{
  ℕ, zero, suc, ◌-◌, min, ◌≡◌, refl, String, true, some, List, [], ◌∷◌, ◌++◌, arith, if◌then◌else◌,
  length, take, append-nil, append_assoc, length-take, length-append,
}
use frameworks_system_ota.Prelude.Int.{ℤ, pos}
use frameworks_system_ota.Verify.Bytes.{same_bytes}
use frameworks_system_ota.Verify.AppBlock.Layout.{ReadsWhole}
use frameworks_system_ota.Verify.Platform.{Os, Avb, IsPosix, NoReadError, IsSha256, digest_size}

abbrev pub zeros : ℕ → List ℕ
zeros zero = []
zeros (suc n) = 0 ∷ zeros n

abbrev pub toy_avb : Avb
toy_avb = record {
  Sha256Ctx = List ℕ;
  Algorithm = Unit {0};
  avb_sha256_init = [];
  avb_sha256_update = λ ctx xs. ctx ++ xs;
  avb_sha256_final = λ ctx. take digest_size (ctx ++ zeros digest_size);
  avb_get_algorithm_data = some tt;
  avb_rsa_verify = λ key signature hash algorithm. same_bytes key signature;
}

length-toy_final : (xs : List ℕ) → length (take digest_size (xs ++ zeros digest_size)) ≡ digest_size
length-toy_final xs =
    omega (
      arith,
      length-take digest_size (xs ++ zeros digest_size),
      length-append xs (zeros digest_size),
    )

pub toy_avb-IsSha256 : IsSha256 toy_avb
toy_avb-IsSha256 = record {
  update-update = λ c xs ys. append_assoc c xs ys;
  update-nil = λ c. append-nil c;
  length-final = length-toy_final;
}

-- Files that are read as far as they go; `key_descriptor` is what opening the key returns, and the
-- first `readable` bytes of a file can be read.
abbrev pub memory_os : (String → List ℕ) → ℤ → Os
memory_os content key_descriptor = record {
  open_file = λ path. if str_eq path "key" then key_descriptor else pos 3;
  content = content;
  read_count = λ f p n. pos (min n (length f - p));
  malloc = λ n. true;
  stat = λ path. pos 0;
  access = λ path. pos 0;
}

module _ (content : String → List ℕ) (key_descriptor : ℤ) where
  pub memory_os-IsPosix : IsPosix (memory_os content key_descriptor)
  memory_os-IsPosix = record {
    within = λ f p n k e. ground arith;
    progress = λ f p n k e h l. ground arith;
  }

  pub memory_os-NoReadError : NoReadError (memory_os content key_descriptor)
  memory_os-NoReadError = record { succeeds = λ f p n h. (min n (length f - p), refl) }

  pub memory_os-ReadsWhole : ReadsWhole (memory_os content key_descriptor)
  memory_os-ReadsWhole = record { whole = λ f p n h. ground arith }
