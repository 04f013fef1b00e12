-- ===== src/Verify/AvbMain.antt =====
-- `main` of verify/avb_main.c: the options, the information on images, and the verification by libavb.
pub mod Info
use frameworks_system_ota.Prelude.{
  String, Bool, true, false, not, Option, none, some, List, [], ◌∷◌, if◌then◌else◌,
}
use frameworks_system_ota.Prelude.Int.{ℤ, pos}
use frameworks_system_ota.Verify.Platform.{is_count}

-- What `getopt` returns, with `optarg`. `help` is `h` and every unknown option.
pub data AvbFlag : Type 0 where
  ignore_rollback info_mode help : AvbFlag
  key_path slot_suffix upgrade_image vbmeta_partition : String → AvbFlag

-- `struct avb_params_t` of libavb, as far as it is set; the flags are its two bits that `main` knows.
-- `none` is a null pointer.
pub record AvbParams : Type 0 where
  pub no_vbmeta_partition : Bool
  pub allow_rollback_index_error : Bool
  pub key : String
  pub suffix : Option String
  pub image : Option String
  pub vbmeta : Option String
  pub partition : List String

-- libavb_user.h: the descriptor of an image, by its path or through a vbmeta partition, and the
-- verification.
pub record AvbUser : Type 1 where
  pub HashDesc : Type 0
  pub avb_hash_desc : String → ℤ × HashDesc
  pub avb_vbmeta_hash_desc : Option String → String → ℤ × HashDesc
  pub avb_verify : AvbParams → ℤ

-- The parameters before the options are read.
abbrev pub default_params : AvbParams
default_params = record {
  no_vbmeta_partition = true;
  allow_rollback_index_error = false;
  key = "/etc/key.avb";
  suffix = none;
  image = none;
  vbmeta = none;
  partition = [];
}

-- The loop over the options: the parameters, and whether it is about information. `none` shows the
-- usage.
unfoldable pub parse_avb_flags : List AvbFlag → AvbParams → Bool → Option (AvbParams × Bool)
parse_avb_flags [] params info = some (params, info)
parse_avb_flags (ignore_rollback ∷ flags) params info =
    parse_avb_flags flags (record params { allow_rollback_index_error = true }) info
parse_avb_flags (info_mode ∷ flags) params info = parse_avb_flags flags params true
parse_avb_flags (key_path path ∷ flags) params info =
    parse_avb_flags flags (record params { key = path }) info
parse_avb_flags (slot_suffix s ∷ flags) params info =
    parse_avb_flags flags (record params { suffix = some s }) info
parse_avb_flags (upgrade_image path ∷ flags) params info =
    parse_avb_flags flags (record params { image = some path }) info
parse_avb_flags (vbmeta_partition path ∷ flags) params info =
    parse_avb_flags flags (record params { no_vbmeta_partition = false; vbmeta = some path }) info
parse_avb_flags (help ∷ flags) params info = none

module _ (avb : AvbUser) where
  open avb use {HashDesc, avb_hash_desc, avb_vbmeta_hash_desc, avb_verify}

  -- The descriptor of one partition.
  unfoldable pub describe : AvbParams → String → ℤ × HashDesc
  describe params path =
      if params.no_vbmeta_partition
      then avb_hash_desc path
      else avb_vbmeta_hash_desc params.vbmeta path

  -- The loop over the partitions: what `main` returns, and the descriptors that it shows.
  unfoldable pub show_info : AvbParams → List String → ℤ × List HashDesc
  show_info params [] = (pos 0, [])
  show_info params (path ∷ paths) =
      let (ret, hash_desc) = describe params path in
      let (rest, shown) = show_info params paths in
      if not (is_count ret 0) then (ret, []) else (rest, hash_desc ∷ shown)

  -- Once the options are read.
  unfoldable pub run_avb : AvbParams × Bool → List String → ℤ × List HashDesc
  run_avb (params, info) [] = (pos 10, [])
  run_avb (params, info) (path ∷ paths) =
      let given = record params { partition = path ∷ paths } in
      if info then show_info given (path ∷ paths) else (avb_verify given, [])

  -- The options and the operands behind them.
  unfoldable pub avb_main : List AvbFlag → List String → ℤ × List HashDesc
  avb_main flags paths = elim (parse_avb_flags flags default_params false) [
    | none ↦ (pos 1, [])
    | some parsed ↦ run_avb parsed paths
  ]
