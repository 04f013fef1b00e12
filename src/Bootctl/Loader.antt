-- ===== src/Bootctl/Loader.antt =====
-- `bootctl_boot` of bootctl/bootctl.c, the boot loader's choice of a slot (built with
-- CONFIG_UTILS_BOOTCTL_ENTRY).
use frameworks_system_ota.Prelude.{
  String, Bool, true, false, not, ◌&&◌, List, [], ◌∷◌, if◌then◌else◌,
}
use frameworks_system_ota.Prelude.Int.{ℤ, pos}
use frameworks_system_ota.Bootctl.Kvdb.{Kvdb}
use frameworks_system_ota.Bootctl.State.{
  BootctlSlot, Bootctl, Slot, slot_a, slot_b, zero_slot, zero_bootctl,
}
use frameworks_system_ota.Bootctl.Config.{bootctl_read_config, bootctl_write_config}

-- From the label `success_slot`: the flags and the slot that `slot:` goes on with.
unfoldable pub success_slot : Bootctl → Bootctl × Slot
success_slot boot =
    if boot.slot_a.active && boot.slot_a.successful
    then (boot, slot_a)
    else if boot.slot_b.active && boot.slot_b.successful
    then (boot, slot_b)
    else if boot.slot_a.successful
    then (record boot { slot_a = record boot.slot_a { active = true } }, slot_a)
    else if boot.slot_b.successful
    then (record boot { slot_b = record boot.slot_b { active = true; bootable = true } }, slot_b)
    else (record boot { slot_a = record boot.slot_a { active = true; bootable = true } }, slot_a)

-- `active && bootable && successful == 0`
abbrev pub untried : BootctlSlot → Bool
untried slot = slot.active && slot.bootable && not slot.successful

-- The flags that `bootctl_boot` writes, and the slot that it boots.
unfoldable pub choose_slot : Bootctl → Bootctl × Slot
unfolding success_slot
choose_slot boot =
    if not boot.slot_a.active && not boot.slot_b.active
    then success_slot (record zero_bootctl {
      slot_a = record zero_slot { active = true; bootable = true };
      try = true;
    })
    else if untried boot.slot_a
    then (if boot.try
        then success_slot
            (record boot { slot_a = record boot.slot_a { active = false; bootable = false } })
        else (record boot { try = true }, slot_a))
    else if untried boot.slot_b
    then (if boot.try
        then success_slot
            (record boot { slot_b = record boot.slot_b { active = false; bootable = false } })
        else (record boot { try = true }, slot_b))
    else success_slot boot

-- The calls of `boardctl`, in order.
pub data BoardRequest : Type 0 where
  init : BoardRequest
  boot_image : String → BoardRequest

module _ (kv : Kvdb) (slot_path : Slot → String) where
  open kv use {Db}

  -- The result of `bootctl_write_config` is not looked at.
  unfoldable pub bootctl_boot : Db → ℤ × List BoardRequest × Db
  bootctl_boot db =
      let (boot, slot) = choose_slot (bootctl_read_config kv db) in
      let (ret, db') = bootctl_write_config kv boot db in
      (pos 0, init ∷ boot_image (slot_path slot) ∷ [], db')
