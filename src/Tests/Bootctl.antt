-- ===== src/Tests/Bootctl.antt =====
-- bootctl/bootctl.c on a device that runs slot a.
use text.Mathlib.Text.{◌==◌ as str_eq}
use frameworks_system_ota.Prelude.{
  String, true, false, some, ◌≡◌, ◌||◌, ◌&&◌, not, refl, arith, [], ◌∷◌, if◌then◌else◌, none,
  Option, Bool, List,
}
use frameworks_system_ota.Bootctl.Kvdb.{failed}
use frameworks_system_ota.Bootctl.State.{
  BootctlSlot, Bootctl, Slot, slot_a, slot_b, zero_slot, slot_of,
}
use frameworks_system_ota.Bootctl.Config.{bootctl_write_config, bootctl_read_config}
use frameworks_system_ota.Bootctl.Config.Roundtrip.{read-write}
use frameworks_system_ota.Bootctl.Ap.{
  active_slot, clear_other, bootctl_active, bootctl_update, bootctl_done,
}
use frameworks_system_ota.Bootctl.Loader.{choose_slot, untried, boot_image, init, bootctl_boot}
use frameworks_system_ota.Bootctl.Main.{main_ap}
use frameworks_system_ota.Bootctl.Invariant.{IsValid}
use frameworks_system_ota.Bootctl.Upgrade.{
  staged, after_success, upgrades, next_upgrade, IsRolledBack, upgrade_is_tried, upgrade_settles,
  failed_try_rolls_back, rolled_back_never_upgrades,
}
use frameworks_system_ota.Bootctl.Protocol.{
  Device, rebooted, Reach, here, next, update, HasFallback, reset_is_safe,
}
use frameworks_system_ota.Bootctl.Machine as Machine
use frameworks_system_ota.Bootctl.Machine.{Machine as MachineState, Call, flags}
use frameworks_system_ota.Bootctl.Refine.{perform, boot-active, command_line_upgrade}
use frameworks_system_ota.Tests.Kvdb.{memory, memory-IsKvdb}

abbrev good_slot : BootctlSlot
good_slot = record { active = true; bootable = true; successful = true }

-- Slot a runs and is successful, and slot b is empty.
abbrev settled : Bootctl
settled = record { slot_a = good_slot; slot_b = zero_slot; try = false }

settled-IsValid : IsValid settled
settled-IsValid = ground arith

-- A new device, a reboot that fails to try slot a, and what is booted then.
first_boots : (choose_slot (record settled { slot_a = zero_slot })).1 ≡ slot_a
first_boots = unfold choose_slot in refl

upgrade_is_tried_example :
    ((choose_slot (staged settled)).1 ≡ slot_b)
    × ((choose_slot (staged settled)).0.try ≡ true)
    × ((slot_of slot_a (choose_slot (staged settled)).0).successful ≡ true)
unfolding active_slot
upgrade_is_tried_example = upgrade_is_tried slot_a settled settled-IsValid refl refl

upgrade_settles_example :
    let boot = after_success (choose_slot (staged settled)).0 in
    (boot.try ≡ false) × (active_slot boot ≡ some slot_b) × (choose_slot boot ≡ (boot, slot_b))
unfolding active_slot
upgrade_settles_example = upgrade_settles slot_a settled settled-IsValid refl refl

failed_try_rolls_back_example :
    let (boot', slot) = choose_slot (choose_slot (staged settled)).0 in
    (slot ≡ slot_a)
    × IsRolledBack slot_a boot'
    × ((slot_of slot_b boot').active ≡ false)
    × ((slot_of slot_b boot').bootable ≡ false)
unfolding active_slot
failed_try_rolls_back_example = failed_try_rolls_back slot_a settled settled-IsValid refl refl refl

abbrev rolled_back : Bootctl
rolled_back = record settled { try = true }

rolled_back-IsRolledBack : IsRolledBack slot_a rolled_back
unfolding active_slot
rolled_back-IsRolledBack = record {
  exclusive = refl;
  active = refl;
  successful = refl;
  trying = refl;
}

rolled_back_never_upgrades_example :
    ((next_upgrade (upgrades 2 rolled_back)).1 ≡ slot_a) × ((upgrades 2 rolled_back).try ≡ true)
rolled_back_never_upgrades_example =
    rolled_back_never_upgrades 2 slot_a rolled_back rolled_back-IsRolledBack

abbrev device : Device
device = record { flags = settled; running = slot_a }

abbrev updated : Device
updated = record { flags = clear_other settled; running = slot_a }

settled-HasFallback : HasFallback settled
settled-HasFallback = record { valid = settled-IsValid; some_active = refl; some_successful = refl }

update_reached : Reach device updated
unfolding active_slot
update_reached = next here (update device refl refl)

reset_is_safe_example :
    (slot_of (rebooted updated).running (rebooted updated).flags).successful
      || (not updated.flags.try && untried (slot_of (rebooted updated).running updated.flags))
    ≡ true
reset_is_safe_example = reset_is_safe {d = device} {e = updated} settled-HasFallback update_reached

abbrev empty_db : String → Option Bool
empty_db key = none

abbrev settled_db : String → Option Bool
settled_db key =
    if str_eq key "persist.boot.slot_a.active"
    then some true
    else if str_eq key "persist.boot.slot_a.bootable"
    then some true
    else if str_eq key "persist.boot.slot_a.successful"
    then some true
    else none

read-write_example :
    bootctl_read_config memory (bootctl_write_config memory settled empty_db).1 ≡ settled
unfolding bootctl_write_config failed
read-write_example = read-write memory memory-IsKvdb settled empty_db refl

-- Slot a runs, and slot b is spare.
abbrev settled_machine : MachineState
settled_machine = record {
  running = slot_a;
  current = record { bootable = true; successful = true };
  spare = record { bootable = false; successful = false };
  trying = false;
}

abbrev an_upgrade : List Call
an_upgrade = Machine.Call.update ∷ Machine.Call.done ∷ Machine.Call.success ∷ []

abbrev upgraded_db : String → Option Bool
upgraded_db =
    (perform memory Machine.Call.success
      (bootctl_done memory (bootctl_update memory settled_db).1).1).1

abbrev path_of : Slot → String
path_of slot_a = "/dev/ap"
path_of slot_b = "/dev/ap_b"

settled_db-IsValid : IsValid (bootctl_read_config memory settled_db)
unfolding bootctl_read_config
settled_db-IsValid = record { exclusive = refl; ready_a = refl; ready_b = refl }

boot-active_example :
    let (ret, requests, db') = bootctl_boot memory path_of settled_db in
    (s : Slot) × (bootctl_active memory db' ≡ some s)
    × (requests ≡ init ∷ boot_image (path_of s) ∷ [])
    × IsValid (bootctl_read_config memory db')
unfolding bootctl_write_config failed
boot-active_example = boot-active memory memory-IsKvdb path_of settled_db settled_db-IsValid refl

command_line_upgrade_example :
    let (_, _, db') = main_ap memory ("update" ∷ []) settled_db in
    let (_, _, db'') = main_ap memory ("done" ∷ []) db' in
    (bootctl_boot memory path_of db'').1 ≡ init ∷ boot_image "/dev/ap_b" ∷ []
unfolding bootctl_read_config bootctl_active active_slot main_ap bootctl_write_config failed
    bootctl_update bootctl_done
command_line_upgrade_example =
    command_line_upgrade memory memory-IsKvdb path_of slot_a settled_db settled_db-IsValid refl refl
      refl refl
