-- ===== src/Verify/AvbMain/Info.antt =====
-- The modes of verify/avb_main.c, and the information that it shows.
use mathlib.Core.Logic.{◌≢◌}
use frameworks_system_ota.Prelude.{
  ◌≡◌, ◌⊎◌, inl, inr, ◌↔◌, refl, sym, ap, map, arith, String, Bool, true, false, none, some, List,
  [], ◌∷◌, ◌++◌, All, Bool-cases,
}
use frameworks_system_ota.Prelude.Int.{ℤ, pos}
use frameworks_system_ota.Verify.Platform.{is_count}
use frameworks_system_ota.Verify.AvbMain.{
  AvbFlag, ignore_rollback, info_mode, help, key_path, slot_suffix, upgrade_image, vbmeta_partition,
  AvbParams, AvbUser, default_params, parse_avb_flags, describe, show_info, run_avb, avb_main,
}

-- A vbmeta partition is named exactly if it is to be used.
abbrev pub IsModal : AvbParams → Type 0
IsModal params = (params.no_vbmeta_partition ≡ true) ↔ (params.vbmeta ≡ none)

flags-IsModal :
    (flags : List AvbFlag) (params params' : AvbParams) (info info' : Bool)
    → IsModal params
    → parse_avb_flags flags params info ≡ some (params', info')
    → IsModal params'
unfolding parse_avb_flags
flags-IsModal [] params params' info info' m h = let e : params ≡ params' = cc in rw (sym e) m
flags-IsModal (ignore_rollback ∷ flags) params params' info info' m h =
    flags-IsModal flags _ params' _ info' m h
flags-IsModal (info_mode ∷ flags) params params' info info' m h =
    flags-IsModal flags _ params' _ info' m h
flags-IsModal (key_path path ∷ flags) params params' info info' m h =
    flags-IsModal flags _ params' _ info' m h
flags-IsModal (slot_suffix s ∷ flags) params params' info info' m h =
    flags-IsModal flags _ params' _ info' m h
flags-IsModal (upgrade_image path ∷ flags) params params' info info' m h =
    flags-IsModal flags _ params' _ info' m h
flags-IsModal (vbmeta_partition path ∷ flags) params params' info info' m h =
    flags-IsModal flags _ params' _ info' (λ e. cc e, λ e. cc e) h
flags-IsModal (help ∷ flags) params params' info info' m h = cc h

-- After any options that do not end in the usage: the flag NO_VBMETA_PARTITION is set exactly if no
-- vbmeta partition is named, so that the descriptor is never asked of a null one.
pub parse_avb_flags-IsModal :
    (flags : List AvbFlag) (params : AvbParams) (info : Bool)
    → parse_avb_flags flags default_params false ≡ some (params, info)
    → IsModal params
parse_avb_flags-IsModal flags params info h =
    flags-IsModal flags default_params params false info (λ e. refl, λ e. refl) h

module _ (avb : AvbUser) (params : AvbParams) where
  open avb use {HashDesc}

  -- libavb has a descriptor for the partition.
  abbrev pub IsDescribed : String → Type 0
  IsDescribed path = (describe avb params path).0 ≡ pos 0

  abbrev pub desc_of : String → HashDesc
  desc_of path = (describe avb params path).1

  -- All partitions have a descriptor, and all are shown.
  pub record ShowsAll (paths : List String) (r : ℤ × List HashDesc) : Type 0 where
    pub described : All IsDescribed paths
    pub result : r ≡ (pos 0, map desc_of paths)

  -- The first partition without a descriptor: what libavb returns for it is returned, and the
  -- descriptors of the partitions before it are shown.
  pub record StopsAt (paths : List String) (r : ℤ × List HashDesc) : Type 0 where
    pub before : List String
    pub path : String
    pub after : List String
    pub split : paths ≡ before ++ (path ∷ after)
    pub described : All IsDescribed before
    pub fails : (describe avb params path).0 ≢ pos 0
    pub result : r ≡ ((describe avb params path).0, map desc_of before)

  is_count_zero : (z : ℤ) → is_count z 0 ≡ true → z ≡ pos 0
  unfolding is_count
  is_count_zero z h = ground arith

  is_count_other : (z : ℤ) → is_count z 0 ≡ false → z ≢ pos 0
  unfolding is_count
  is_count_other z h e = ground arith

  show_info_lem :
      (paths : List String)
      → ShowsAll paths (show_info avb params paths) ⊎ StopsAt paths (show_info avb params paths)
  unfolding show_info
  show_info_lem [] = inl (record { described = tt; result = refl })
  show_info_lem (path ∷ paths) = elim (Bool-cases (is_count (describe avb params path).0 0)) [
    | inl ok ↦
        let zero_code = is_count_zero _ ok in
        elim (show_info_lem paths) [
          | inl all ↦ inl (record {
            described = (zero_code, all.described);
            result = rw (show_info, ok, all.result) refl;
          })
          | inr stop ↦ inr (record {
            before = path ∷ stop.before;
            path = stop.path;
            after = stop.after;
            split = ap (λ ps. path ∷ ps) stop.split;
            described = (zero_code, stop.described);
            fails = stop.fails;
            result = rw (show_info, ok, stop.result) refl;
          })
        ]
    | inr bad ↦ inr (record {
      before = [];
      path = path;
      after = paths;
      split = refl;
      described = tt;
      fails = is_count_other _ bad;
      result = rw (show_info, bad) refl;
    })
  ]

-- The list of partitions is only for the verification.
show_info-partition :
    (avb : AvbUser) (params : AvbParams) (all paths : List String)
    → show_info avb (record params { partition = all }) paths ≡ show_info avb params paths
unfolding show_info describe
show_info-partition avb params all [] = refl
show_info-partition avb params all (path ∷ paths) =
    rw (show_info, show_info-partition avb params all paths) refl

-- In information mode with at least one partition: either each partition has a descriptor, all are
-- shown and 0 is returned, or the first one without a descriptor ends the program with its code,
-- after those before it are shown.
pub info_lem :
    (avb : AvbUser) (flags : List AvbFlag) (params : AvbParams) (path : String)
    (paths : List String)
    → parse_avb_flags flags default_params false ≡ some (params, true)
    → ShowsAll avb params (path ∷ paths) (avb_main avb flags (path ∷ paths))
      ⊎ StopsAt avb params (path ∷ paths) (avb_main avb flags (path ∷ paths))
unfolding avb_main run_avb
info_lem avb flags params path paths h =
    rw (avb_main, h, show_info-partition avb params (path ∷ paths) (path ∷ paths))
      (show_info_lem avb params (path ∷ paths))
