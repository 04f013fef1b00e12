-- ===== src/Verify/Block/Signer.antt =====
-- The entries of a signing block as verify/zip_verify.c reads them: the pair of the signature scheme,
-- the list of signers, and the first signer with its digest, certificate and signature.
use frameworks_system_ota.Prelude.{
  ℕ, ◌+◌, ◌^◌, ◌<◌, ◌≡◌, refl, ap, ◌∙◌, some, List, [], ◌++◌, length, length-append, arith,
}
use frameworks_system_ota.Verify.Bytes.{le_bytes, read_mem}
use frameworks_system_ota.Verify.Block.{DataBlock, SignatureBlock, get_signature_info}
use frameworks_system_ota.Verify.AppBlock.Layout.{length-le_bytes}
use frameworks_system_ota.Verify.Block.Place.{
  prefixed, At, At-place, read_mem-At, block-At, number-At,
}

-- The first signer of a block of the scheme, with one digest.
pub record Signer : Type 0 where
  pub digest_id : ℕ
  pub digest : List ℕ
  pub certificate : List ℕ
  pub more_certificates : List ℕ
  pub attributes : List ℕ
  pub signature_id : ℕ
  pub signature : List ℕ
  pub more_signatures : List ℕ
  pub public_key : List ℕ
  pub more_signers : List ℕ
  pub more_pairs : List ℕ

abbrev pub digest_entry : Signer → List ℕ
digest_entry s = le_bytes 4 s.digest_id ++ (prefixed s.digest ++ [])

abbrev pub signed_data_of : Signer → List ℕ
signed_data_of s =
    prefixed (prefixed (digest_entry s) ++ [])
    ++ (prefixed (prefixed s.certificate ++ s.more_certificates) ++ s.attributes)

abbrev pub signature_entry : Signer → List ℕ
signature_entry s = le_bytes 4 s.signature_id ++ (prefixed s.signature ++ [])

abbrev pub signer_of : Signer → List ℕ
signer_of s =
    prefixed (signed_data_of s)
    ++ (prefixed (prefixed (signature_entry s) ++ s.more_signatures)
        ++ (prefixed s.public_key ++ []))

abbrev pub signers_of : Signer → List ℕ
signers_of s = prefixed (signer_of s) ++ s.more_signers

-- What is found of a signer.
pub record Found (mem : List ℕ) (s : Signer) (info : SignatureBlock) : Type 0 where
  pub signed_data :
      read_mem mem info.signed_data.start info.signed_data.length ≡ some (signed_data_of s)
  pub digest_id : info.digests_signatures_algorithm_id ≡ s.digest_id
  pub digest_length : info.one_digest.length ≡ length s.digest
  pub digest : read_mem mem info.one_digest.start info.one_digest.length ≡ some s.digest
  pub certificate : read_mem mem info.certificate.start info.certificate.length ≡ some s.certificate
  pub signature_id : info.signatures_algorithm_id ≡ s.signature_id
  pub signature :
      read_mem mem info.signatures_content.start info.signatures_content.length ≡ some s.signature
  pub public_key : read_mem mem info.public_key.start info.public_key.length ≡ some s.public_key

length-prefixed : (xs : List ℕ) → length (prefixed xs) ≡ 4 + length xs
length-prefixed xs =
    length-append (le_bytes 4 (length xs)) xs
    ∙ ap (λ n. n + length xs) (length-le_bytes 4 (length xs))

length-digests : (s : Signer) → length (prefixed (digest_entry s) ++ []) ≡ 12 + length s.digest
length-digests s = omega (
  arith,
  length-append (prefixed (digest_entry s)) [],
  length-prefixed (digest_entry s),
  length-append (le_bytes 4 s.digest_id) (prefixed s.digest ++ []),
  length-le_bytes 4 s.digest_id,
  length-append (prefixed s.digest) [],
  length-prefixed s.digest,
)

module _ (mem : List ℕ) (s : Signer) (small : length mem < 2 ^ 32) (ids : s.digest_id < 2 ^ 32)
    (signature_ids : s.signature_id < 2 ^ 32) where
  pub get_signature_info_lem :
      (off : ℕ)
      → At mem off (signers_of s)
      → (info : SignatureBlock) × (end : ℕ) × (get_signature_info mem off ≡ some (info, end))
        × Found mem s info
  unfolding get_signature_info
  get_signature_info_lem off at =
      let (one, signer, others) = block-At (signer_of s) s.more_signers small at in
      let (sd, signed, sigs_at) = block-At (signed_data_of s) _ small signer in
      let (ss, signatures, key_at) =
        block-At (prefixed (signature_entry s) ++ s.more_signatures) _ small sigs_at in
      let (pk, key, none_left) = block-At s.public_key [] small key_at in
      let (ds, digests, certs_at) = block-At (prefixed (digest_entry s) ++ []) _ small signed in
      let (entry, in_entry, behind_entry) = block-At (digest_entry s) [] small digests in
      let (di, digest_at) = number-At s.digest_id _ ids in_entry in
      let d = off + 4 + 4 + 4 in
      let (dg, digest, end_digest) =
        block-At s.digest [] small (At-place (d + 8) _ (omega arith) digest_at) in
      let next : d + length (prefixed (digest_entry s) ++ []) ≡ d + 8 + 4 + length s.digest =
        omega (arith, length-digests s) in
      let (cs, certificates, attributes) =
        block-At (prefixed s.certificate ++ s.more_certificates) s.attributes small
          (At-place (d + 8 + 4 + length s.digest) _ next certs_at) in
      let (ce, certificate, more) = block-At s.certificate s.more_certificates small certificates in
      let (fs, first, more_signatures) =
        block-At (signature_entry s) s.more_signatures small signatures in
      let (si, signature_at) = number-At s.signature_id _ signature_ids first in
      let (sc, signature, end_signature) = block-At s.signature [] small signature_at in
      let block : ℕ → List ℕ → DataBlock =
        λ start xs. record { start = start; length = length xs } in
      let sigs = off + 4 + 4 + length (signed_data_of s) + 4 in
      let content = prefixed (signature_entry s) ++ s.more_signatures in
      (
        record {
          one_sign_block = block (off + 4) (signer_of s);
          signed_data = block (off + 4 + 4) (signed_data_of s);
          signatures = block sigs content;
          public_key = block (sigs + length content + 4) s.public_key;
          digests = block d (prefixed (digest_entry s) ++ []);
          digests_signatures_algorithm_id = s.digest_id;
          one_digest = block (d + 8 + 4) s.digest;
          certificate = block (d + 8 + 4 + length s.digest + 4 + 4) s.certificate;
          signatures_algorithm_id = s.signature_id;
          signatures_content = block (sigs + 4 + 4 + 4) s.signature;
        },
        off + 4 + length (signer_of s),
        rw (one, sd, ss, pk, ds, di, dg, cs, ce, fs, si, sc) refl,
        record {
          signed_data = read_mem-At (signed_data_of s) signed;
          digest_id = refl;
          digest_length = refl;
          digest = read_mem-At s.digest digest;
          certificate = read_mem-At s.certificate certificate;
          signature_id = refl;
          signature = read_mem-At s.signature signature;
          public_key = read_mem-At s.public_key key;
        },
      )
