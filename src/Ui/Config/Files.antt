-- ===== src/Ui/Config/Files.antt =====
-- The files that ui/ui_config_parse.c and ui/extra/lv_upgrade.c read whole.
use frameworks_system_ota.Prelude.{
  ℕ, ◌+◌, ◌-◌, String, Bool, true, false, Option, none, some, List, [], ◌∷◌, ◌++◌, length, ltb, leb,
  ◌&&◌, ◌==◌, if◌then◌else◌, ◌>>=◌,
}
use frameworks_system_ota.Prelude.Int.{ℤ, pos, negsuc}
use frameworks_system_ota.Verify.Platform.{Os, read_at}
use frameworks_system_ota.Widget.Data.{Image}
use frameworks_system_ota.Ui.Config.Env.{Env}

abbrev pub is_open : ℤ → Bool
is_open (pos fd) = true
is_open (negsuc k) = false

-- The buffer of `read_all_from_file`. It is not initialised where `read` stores less than the file
-- has: `none`.
unfoldable pub filled : Os → List ℕ → Option (List ℕ)
filled os content =
    let (ret, bytes) = read_at os content 0 (length content) in
    if length bytes == length content then some (bytes ++ (0 ∷ [])) else none

-- The buffer or a null pointer; the outer `none` is a use of memory that was not initialised.
unfoldable pub read_all_from_file : Os → String → Option (Option (List ℕ))
unfolding filled
read_all_from_file os path =
    let content = os.content path in
    if is_open (os.open_file path) && os.malloc (length content + 1)
    then (filled os content >>= λ bytes. some (some bytes))
    else some none

module _ (env : Env) where
  open env use {build, os}

  -- The two assignments to the descriptor that lies over the buffer; `none` is a write behind it.
  unfoldable pub with_dsc : Option (List ℕ) → Option (Option (List ℕ))
  with_dsc none = some none
  with_dsc (some bytes) =
      if ltb (length bytes) build.dsc_size
      then none
      else some (some (build.put_dsc (length bytes - build.header_size) bytes))

  unfoldable pub get_image_data_from_file : String → Option (Option (List ℕ))
  unfolding with_dsc
  get_image_data_from_file path = read_all_from_file os path >>= with_dsc

  -- The header of the zeroed descriptor after `read_data_from_file` of ui/extra/lv_upgrade.c.
  unfoldable pub read_data_from_file : String → Image
  read_data_from_file path =
      let content = os.content path in
      let (ret, bytes) = read_at os content 0 build.header_size in
      if is_open (os.open_file path) && leb build.header_size (length content)
      then build.image_of bytes
      else build.image_of []

  -- `get_image_data_from_file` of ui/extra/lv_upgrade.c. A null path does not open.
  unfoldable pub image_from_file : Option String → Image
  unfolding read_data_from_file
  image_from_file none = build.image_of []
  image_from_file (some path) = read_data_from_file path
