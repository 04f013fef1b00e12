-- ===== src/Tests/AvbMain.antt =====
-- verify/avb_main.c with a libavb that has a descriptor for every image but "data".
use text.Mathlib.Text.{◌==◌ as str_eq}
use frameworks_system_ota.Prelude.{
  ◌≡◌, ◌⊎◌, refl, String, true, false, some, List, [], ◌∷◌, if◌then◌else◌,
}
use frameworks_system_ota.Prelude.Int.{pos, negsuc}
use frameworks_system_ota.Verify.Platform.{is_count}
use frameworks_system_ota.Verify.AvbMain.{
  AvbFlag, info_mode, key_path, vbmeta_partition, AvbParams, AvbUser, default_params,
  parse_avb_flags, run_avb, show_info, describe, avb_main,
}
use frameworks_system_ota.Verify.AvbMain.Info.{ShowsAll, StopsAt, info_lem}

abbrev user : AvbUser
user = record {
  HashDesc = String;
  avb_hash_desc = λ path. (if str_eq path "data" then negsuc 4 else pos 0, path);
  avb_vbmeta_hash_desc = λ vbmeta path. (if str_eq path "data" then negsuc 4 else pos 0, path);
  avb_verify = λ params. pos 0;
}

abbrev flags : List AvbFlag
flags = vbmeta_partition "vbmeta" ∷ info_mode ∷ key_path "key" ∷ []

abbrev params : AvbParams
params = record default_params { no_vbmeta_partition = false; vbmeta = some "vbmeta"; key = "key" }

flags_parse : parse_avb_flags flags default_params false ≡ some (params, true)
unfolding parse_avb_flags
flags_parse = refl

stops_at_data : avb_main user flags ("boot" ∷ "data" ∷ []) ≡ (negsuc 4, "boot" ∷ [])
unfolding avb_main parse_avb_flags run_avb show_info describe is_count
stops_at_data = refl

info_lem_example :
    ShowsAll user params ("boot" ∷ "data" ∷ []) (avb_main user flags ("boot" ∷ "data" ∷ []))
    ⊎ StopsAt user params ("boot" ∷ "data" ∷ []) (avb_main user flags ("boot" ∷ "data" ∷ []))
info_lem_example = info_lem user flags params "boot" ("data" ∷ []) flags_parse
