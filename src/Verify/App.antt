-- ===== src/Verify/App.antt =====
-- `verify_signature`, `verify_app`, `verify` and `main` of verify/zip_verify.c. `none` is undefined
-- behaviour; a jump to `error` returns what `res` holds there.
pub mod Sound
pub mod Bypass
pub mod Accept
pub mod Package
pub mod Main
pub mod Signed
use frameworks_system_ota.Prelude.{
  ℕ, String, not, Option, none, some, List, [], ◌∷◌, ◌>>=◌, ◌==◌, if◌then◌else◌,
}
use frameworks_system_ota.Prelude.Int.{ℤ, pos, negsuc, ltb_ℤ}
use frameworks_system_ota.Verify.Bytes.{read_mem}
use frameworks_system_ota.Verify.Platform.{Os, Avb, Unzip, read_at, is_count}
use frameworks_system_ota.Verify.Block.{
  SignatureBlock, parse_block, parse_kv_block, get_signature_info,
}
use frameworks_system_ota.Verify.AppBlock.{AppBlock, parse_app_block}
use frameworks_system_ota.Verify.Digest.{verify_digest}

-- The signing block of the package, parsed: the pair block, the block of signers, the first signer.
unfoldable pub parse_signing_block : List ℕ → ℕ → Option SignatureBlock
parse_signing_block mem id = do
  (_, value, _) ← parse_kv_block mem 0 id
  (signature_data, _) ← parse_block mem value
  (info, _) ← get_signature_info mem signature_data.start
  some info

module _ (avb : Avb) where
  open avb use {Algorithm, avb_sha256_init, avb_sha256_update, avb_sha256_final, avb_rsa_verify}

  -- `res = !avb_rsa_verify(…)`, or -1 for an algorithm that libavb does not have.
  unfoldable pub verify_signature : List ℕ → List ℕ → List ℕ → ℤ
  verify_signature pubkey raw_data signature = elim avb.avb_get_algorithm_data [
    | none ↦ negsuc 0
    | some algorithm ↦
        let hash = avb_sha256_final (avb_sha256_update avb_sha256_init raw_data) in
        if avb_rsa_verify pubkey signature hash algorithm then pos 0 else pos 1
  ]

-- What `read(fd, buf, n)` from the start stores in a buffer of `malloc(n)`. A failed allocation or
-- read leaves the buffer undefined.
unfoldable pub read_key : Os → String → ℕ → Option (List ℕ)
read_key os path n =
    let (res, bytes) = read_at os (os.content path) 0 n in
    elim res [ pos k ↦ if os.malloc n then some bytes else none | negsuc k ↦ none ]

module _ (os : Os) (avb : Avb) (buflen key_size : ℕ) where
  -- From `verify_signature` on.
  unfoldable pub check_package : String → AppBlock → List ℕ → SignatureBlock → List ℕ → Option ℤ
  check_package app_path app_block mem info avbkey = do
    raw_data ← read_mem mem info.signed_data.start info.signed_data.length
    signature ← read_mem mem info.signatures_content.start info.signatures_content.length
    let res = verify_signature avb avbkey raw_data signature
    if is_count res 0
        then verify_digest os avb buflen app_path app_block mem info.one_digest.start
        else some res

  -- From the comparison of the algorithm ids on. `key_size` is the `st_size` of the key.
  unfoldable pub check_signer : String → String → AppBlock → List ℕ → SignatureBlock → Option ℤ
  check_signer app_path cert_path app_block mem info =
      if not (info.digests_signatures_algorithm_id == info.signatures_algorithm_id)
      then some (negsuc 0)
      else if not (is_count (os.stat cert_path) 0)
      then some (os.stat cert_path)
      else if not (ltb_ℤ (pos 0) (os.open_file cert_path))
      then some (os.stat cert_path)
      else do
        avbkey ← read_key os cert_path key_size
        check_package app_path app_block mem info avbkey

  -- The bytes of the signing block that one `read` stores.
  abbrev pub signing_block : String → AppBlock → List ℕ
  signing_block app_path app_block =
      (read_at os (os.content app_path) app_block.signature_block.start
        app_block.signature_block.length).1

  -- `id` is not initialised, so it is an argument.
  unfoldable pub verify_app : String → String → ℕ → ℕ → Option ℤ
  verify_app app_path cert_path comment_len id = elim (parse_app_block os app_path comment_len) [
    | none ↦ some (negsuc 0)
    | some app_block ↦
        if not (os.malloc app_block.signature_block.length)
        then some (negsuc 0)
        else if not (ltb_ℤ (pos 0) (os.open_file app_path))
        then some (negsuc 0)
        else do
          let mem = signing_block app_path app_block
          info ← parse_signing_block mem id
          check_signer app_path cert_path app_block mem info
  ]

  module _ (unzip : Unzip) where
    unfoldable pub verify : String → String → ℕ → Option ℤ
    verify app_path cert_path id =
        let (res, size_comment) = unzip.unz_get_global_info app_path in
        let closed = unzip.unz_close app_path in
        if not (unzip.unz_open app_path)
        then some (negsuc 0)
        else if not (is_count res 0)
        then some res
        else if not (is_count closed 0)
        then some closed
        else verify_app app_path cert_path size_comment id

    -- `main`, with the arguments after `argv[0]`; -22 is `-EINVAL`.
    unfoldable pub main : List String → ℕ → Option ℤ
    main (file ∷ cert ∷ []) id =
        if not (is_count (os.access file) 0)
        then some (os.access file)
        else if not (is_count (os.access cert) 0)
        then some (os.access cert)
        else verify file cert id
    main _ id = some (negsuc 21)
