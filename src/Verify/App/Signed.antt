-- ===== src/Verify/App/Signed.antt =====
-- verify/zip_verify.c on packages whose signing block is built from a signer.
use frameworks_system_ota.Prelude.{
  ℕ, ◌+◌, ◌^◌, ◌≤◌, ◌<◌, ◌≡◌, ◌↔◌, refl, sym, ap, ap₂, ◌∙◌, subst, some-inj, String, none, some,
  List, [], ◌∷◌, ◌++◌, length, length-append, arith, leb, Bool-cases, inl, inr,
}
use frameworks_system_ota.Prelude.Int.{pos}
use frameworks_system_ota.Verify.Bytes.{le_bytes, slice, read_mem}
use frameworks_system_ota.Verify.Platform.{Os, Avb, Unzip, IsPosix, IsSha256, digest_size}
use frameworks_system_ota.Verify.Block.{SignatureBlock, read_le, parse_kv_block}
use frameworks_system_ota.Verify.Block.Place.{
  prefixed, At, read_mem-At, block-At, number-At, At-left, At-right, At-place,
}
use frameworks_system_ota.Verify.Block.Signer.{
  Signer, signed_data_of, signers_of, Found, get_signature_info_lem,
}
use frameworks_system_ota.Verify.AppBlock.Layout.{
  Package, length-le_bytes, bytes_of, length-bytes_of, block_size,
}
use frameworks_system_ota.Verify.AppBlock.{magic}
use frameworks_system_ota.Verify.Digest.Spec.{content_digest}
use frameworks_system_ota.Verify.Digest.Unsigned.{eocd_of, signing_bytes}
use frameworks_system_ota.Verify.App.{parse_signing_block, read_key, verify_signature, main}
use frameworks_system_ota.Verify.App.Accept.{IsGenuine}
use frameworks_system_ota.Verify.App.Package.{IsPackage, NothingFails}
use frameworks_system_ota.Verify.App.Main.{IsZip, main_package}

-- The pairs of a signing block: the one of the scheme, with its signers, and others.
abbrev pub pairs_of : ℕ → Signer → List ℕ
pairs_of scheme s =
    le_bytes 8 (length (prefixed (signers_of s)) + 4)
    ++ (le_bytes 4 scheme ++ (prefixed (signers_of s) ++ s.more_pairs))

-- In a buffer below 4 GiB that begins with the pairs of a signer, with ids that fit in 32 bits: the
-- signing block parses, whatever the key held before, and what is found are the signer's signed data,
-- digest, certificate, signature, public key and ids.
pub parse_signing_block_lem :
    (s : Signer) (scheme id : ℕ) (tail : List ℕ)
    → length (pairs_of scheme s ++ tail) < 2 ^ 32
    → scheme < 2 ^ 32
    → s.digest_id < 2 ^ 32
    → s.signature_id < 2 ^ 32
    → (info : SignatureBlock) × (parse_signing_block (pairs_of scheme s ++ tail) id ≡ some info)
      × Found (pairs_of scheme s ++ tail) s info
unfolding parse_signing_block parse_kv_block read_le
parse_signing_block_lem s scheme id tail small hs hd hg =
    let mem = pairs_of scheme s ++ tail in
    let size = le_bytes 8 (length (prefixed (signers_of s)) + 4) in
    let eight = length-le_bytes 8 (length (prefixed (signers_of s)) + 4) in
    let start : At mem 0 (pairs_of scheme s) = record {
      before = [];
      after = tail;
      split = refl;
      place = refl;
    } in
    let size_read : read_mem mem 0 8 ≡ some size =
      ap (read_mem mem 0) (sym eight) ∙ read_mem-At size (At-left size _ start) in
    let behind = At-place 8 _ (omega (arith, eight)) (At-right size _ start) in
    let (scheme_read, value) = number-At scheme _ hs behind in
    let (list, signers, others) = block-At (signers_of s) s.more_pairs small value in
    let (info, end, parsed, found) = get_signature_info_lem mem s small hd hg 16 signers in
    (info, rw (size_read, scheme_read, list, parsed) refl, found)

read_mem-slice :
    (mem : List ℕ) (off n : ℕ) (xs : List ℕ)
    → read_mem mem off n ≡ some xs
    → (off + n ≤ length mem) × (slice mem off n ≡ xs)
unfolding read_mem
read_mem-slice mem off n xs h = elim (Bool-cases (leb (off + n) (length mem))) [
  | inl inside ↦ (ground arith, some-inj (rw inside at h))
  | inr outside ↦ let nothing : none ≡ some xs = rw outside at h in cc nothing
]

-- The signer is genuine for a digest: the key's signature of the signed data verifies, the two ids
-- agree, and the signed digest is this one.
pub record IsGenuineSigner (os : Os) (avb : Avb) (key_size : ℕ) (cert_path : String) (s : Signer)
    (digest : List ℕ) : Type 0 where
  pub key : List ℕ
  pub key_read : read_key os cert_path key_size ≡ some key
  pub same_algorithm : s.digest_id ≡ s.signature_id
  pub verified : verify_signature avb key (signed_data_of s) s.signature ≡ pos 0
  pub same_digest : s.digest ≡ digest

module _ (os : Os) (avb : Avb) (key_size : ℕ) (cert_path : String) (mem : List ℕ) (s : Signer)
    (info : SignatureBlock) (found : Found mem s info) (sized : length s.digest ≡ digest_size)
    (digest : List ℕ) where
  digest_slice : slice mem info.one_digest.start digest_size ≡ s.digest
  digest_slice =
      ap (slice mem info.one_digest.start) (sym (found.digest_length ∙ sized))
      ∙ (read_mem-slice mem info.one_digest.start info.one_digest.length s.digest found.digest).1

  signer-IsGenuineSigner :
      IsGenuine os avb key_size cert_path mem info digest
      → IsGenuineSigner os avb key_size cert_path s digest
  signer-IsGenuineSigner g =
      let content : g.raw_data ≡ signed_data_of s =
        some-inj (sym g.data_read ∙ found.signed_data) in
      let signature : g.signature ≡ s.signature =
        some-inj (sym g.signature_read ∙ found.signature) in
      record {
        key = g.key;
        key_read = g.key_read;
        same_algorithm = sym found.digest_id ∙ g.same_algorithm ∙ found.signature_id;
        verified =
            ap₂ (λ d x. verify_signature avb g.key d x) (sym content) (sym signature) ∙ g.verified;
        same_digest = sym digest_slice ∙ g.same_digest;
      }

  signer-IsGenuine :
      IsGenuineSigner os avb key_size cert_path s digest
      → IsGenuine os avb key_size cert_path mem info digest
  signer-IsGenuine g = record {
    key = g.key;
    raw_data = signed_data_of s;
    signature = s.signature;
    key_read = g.key_read;
    data_read = found.signed_data;
    signature_read = found.signature;
    same_algorithm = found.digest_id ∙ g.same_algorithm ∙ sym found.signature_id;
    verified = g.verified;
    same_digest = digest_slice ∙ g.same_digest;
  }

-- Where nothing fails, for a package below 2 GiB that is laid out around its signing block, whose pairs
-- begin with the pair of a signer with one digest of 32 bytes and ids that fit in 32 bits: the program
-- exits with 0 exactly if the key's signature of the signed data verifies, the two ids agree, and the
-- digest that was signed is that of the zip file without the signing block.
pub main_signed_package :
    (os : Os) (avb : Avb) (unzip : Unzip) (buflen key_size : ℕ) (app_path cert_path : String)
    (p : Package) (s : Signer) (scheme id : ℕ)
    → IsPosix os
    → IsSha256 avb
    → IsPackage os app_path p
    → NothingFails os app_path cert_path
    → IsZip os unzip app_path cert_path (length p.comment)
    → 0 < buflen
    → p.pairs ≡ pairs_of scheme s
    → scheme < 2 ^ 32
    → s.digest_id < 2 ^ 32
    → s.signature_id < 2 ^ 32
    → length s.digest ≡ digest_size
    → (main os avb buflen key_size unzip (app_path ∷ cert_path ∷ []) id ≡ some (pos 0))
      ↔ IsGenuineSigner os avb key_size cert_path s
          (content_digest avb p.entries p.directory (eocd_of p (length p.entries)))
main_signed_package os avb unzip buflen key_size app_path cert_path p s scheme id posix sha file
      works zip hb pairs hs hd hg sized =
    let mem = signing_bytes p in
    let digest = content_digest avb p.entries p.directory (eocd_of p (length p.entries)) in
    let (info, parsed, found) = built p s scheme id pairs (signing_small p file.small) hs hd hg in
    let (inside, at) =
      read_mem-slice mem info.one_digest.start info.one_digest.length s.digest found.digest in
    let same = found.digest_length ∙ sized in
    let (to, from) =
      main_package os avb unzip buflen key_size app_path cert_path p id info posix sha file works
        zip hb parsed (omega (arith, inside, same)) in
    (
      λ h. signer-IsGenuineSigner os avb key_size cert_path mem s info found sized digest (to h),
      λ g. from (signer-IsGenuine os avb key_size cert_path mem s info found sized digest g),
    )
  where
    signing_small : (p : Package) → length (bytes_of p) < 2 ^ 31 → length (signing_bytes p) < 2 ^ 32
    signing_small p h =
        let b = le_bytes 8 (block_size p) in
        omega (
          arith,
          h,
          length-bytes_of p,
          length-append p.pairs (b ++ magic),
          length-append b magic,
          length-le_bytes 8 (block_size p),
        )

    built :
        (p : Package) (s : Signer) (scheme id : ℕ)
        → p.pairs ≡ pairs_of scheme s
        → length (signing_bytes p) < 2 ^ 32
        → scheme < 2 ^ 32
        → s.digest_id < 2 ^ 32
        → s.signature_id < 2 ^ 32
        → (info : SignatureBlock) × (parse_signing_block (signing_bytes p) id ≡ some info)
          × Found (signing_bytes p) s info
    built p s scheme id e small hs hd hg =
        let tail = le_bytes 8 (block_size p) ++ magic in
        subst
          (λ ps.
            length (ps ++ tail) < 2 ^ 32
            → (info : SignatureBlock) × (parse_signing_block (ps ++ tail) id ≡ some info)
              × Found (ps ++ tail) s info)
          (sym e) (λ h. parse_signing_block_lem s scheme id tail h hs hd hg) small
