-- ===== src/Bootctl/Main.antt =====
-- `main` of bootctl/bootctl.c in the two builds.
use text.Mathlib.Text.{◌==◌ as str_eq}
use frameworks_system_ota.Prelude.{String, Option, List, [], ◌∷◌, if◌then◌else◌}
use frameworks_system_ota.Prelude.Int.{ℤ, pos}
use frameworks_system_ota.Bootctl.Kvdb.{Kvdb}
use frameworks_system_ota.Bootctl.State.{Slot}
use frameworks_system_ota.Bootctl.Ap.{bootctl_active, bootctl_update, bootctl_done, bootctl_success}
use frameworks_system_ota.Bootctl.Loader.{BoardRequest, bootctl_boot}

-- What `printf("run %s\n", …)` shows: the slot, or NULL.
pub data Printed : Type 0 where
  nothing : Printed
  run_line : Option Slot → Printed

module _ (kv : Kvdb) where
  open kv use {Db}

  -- The arguments after `argv[0]`. With none, the result of `bootctl_success` is dropped.
  unfoldable pub main_ap : List String → Db → ℤ × Printed × Db
  main_ap [] db = let (ret, db') = bootctl_success kv db in (pos 0, nothing, db')
  main_ap (arg ∷ rest) db =
      if str_eq arg "update"
      then (let (ret, db') = bootctl_update kv db in (ret, nothing, db'))
      else if str_eq arg "done"
      then (let (ret, db') = bootctl_done kv db in (ret, nothing, db'))
      else if str_eq arg "slot"
      then (pos 0, run_line (bootctl_active kv db), db)
      else let (ret, db') = bootctl_success kv db in (ret, nothing, db')

  unfoldable pub main_entry : (Slot → String) → List String → Db → ℤ × List BoardRequest × Db
  main_entry slot_path args db = bootctl_boot kv slot_path db
