-- ===== src/Bootctl/Ap.antt =====
-- The calls of bootctl/bootctl.c that the running system makes (built without
-- CONFIG_UTILS_BOOTCTL_ENTRY).
use frameworks_system_ota.Prelude.{true, false, not, Option, none, some, if◌then◌else◌}
use frameworks_system_ota.Prelude.Int.{ℤ, pos}
use frameworks_system_ota.Bootctl.Kvdb.{Kvdb}
use frameworks_system_ota.Bootctl.State.{Bootctl, Slot, slot_a, slot_b}
use frameworks_system_ota.Bootctl.Config.{bootctl_read_config, bootctl_write_config}

-- The branches of `bootctl_active` on what was read. `none` is NULL.
unfoldable pub active_slot : Bootctl → Option Slot
active_slot boot =
    if boot.slot_a.active then some slot_a else if boot.slot_b.active then some slot_b else none

-- What `bootctl_update` writes back.
unfoldable pub clear_other : Bootctl → Bootctl
clear_other boot =
    if boot.slot_a.active
    then record boot { slot_b = record { active = false; bootable = false; successful = false } }
    else record boot { slot_a = record { active = false; bootable = false; successful = false } }

-- What `bootctl_done` writes back.
unfoldable pub switch_active : Bootctl → Bootctl
switch_active boot =
    if boot.slot_a.active
    then record boot {
      slot_b = record boot.slot_b { bootable = true; active = true };
      slot_a = record boot.slot_a { active = false };
    }
    else record boot {
      slot_a = record boot.slot_a { bootable = true; active = true };
      slot_b = record boot.slot_b { active = false };
    }

-- What `bootctl_success` writes back, and `none` where it writes nothing.
unfoldable pub mark_successful : Bootctl → Option Bootctl
mark_successful boot =
    if boot.slot_a.active
    then (if not boot.slot_a.successful
        then some (record boot { try = false; slot_a = record boot.slot_a { successful = true } })
        else none)
    else (if not boot.slot_b.successful
        then some (record boot { try = false; slot_b = record boot.slot_b { successful = true } })
        else none)

module _ (kv : Kvdb) where
  open kv use {Db}

  unfoldable pub bootctl_active : Db → Option Slot
  bootctl_active db = active_slot (bootctl_read_config kv db)

  unfoldable pub bootctl_update : Db → ℤ × Db
  bootctl_update db = bootctl_write_config kv (clear_other (bootctl_read_config kv db)) db

  unfoldable pub bootctl_done : Db → ℤ × Db
  bootctl_done db = bootctl_write_config kv (switch_active (bootctl_read_config kv db)) db

  -- The calls of `bootctl_write_config` in `bootctl_success`: only where a flag changes.
  unfoldable pub write_changed : Option Bootctl → Db → ℤ × Db
  write_changed none db = (pos 0, db)
  write_changed (some boot) db = bootctl_write_config kv boot db

  unfoldable pub bootctl_success : Db → ℤ × Db
  bootctl_success db = write_changed (mark_successful (bootctl_read_config kv db)) db
