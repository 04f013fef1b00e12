-- ===== src/Bootctl/State.antt =====
-- The data of bootctl/bootctl.c: the flags of the two slots, and the keys that hold them.
use frameworks_system_ota.Prelude.{String, Bool, false}

-- `struct bootctl_slot_s`
pub record BootctlSlot : Type 0 where
  pub active : Bool
  pub bootable : Bool
  pub successful : Bool

-- `struct bootctl_s`: `slot[0]`, `slot[1]` and `try`.
pub record Bootctl : Type 0 where
  pub slot_a : BootctlSlot
  pub slot_b : BootctlSlot
  pub try : Bool

-- `g_bootctl_slot_a` and `g_bootctl_slot_b`, whose text is the configuration's.
pub data Slot : Type 0 where
  slot_a slot_b : Slot

abbrev pub key_a_active : String
key_a_active = "persist.boot.slot_a.active"

abbrev pub key_a_bootable : String
key_a_bootable = "persist.boot.slot_a.bootable"

abbrev pub key_a_successful : String
key_a_successful = "persist.boot.slot_a.successful"

abbrev pub key_b_active : String
key_b_active = "persist.boot.slot_b.active"

abbrev pub key_b_bootable : String
key_b_bootable = "persist.boot.slot_b.bootable"

abbrev pub key_b_successful : String
key_b_successful = "persist.boot.slot_b.successful"

abbrev pub key_try : String
key_try = "persist.boot.try"

-- `memset(&boot, 0, sizeof(struct bootctl_s))`
abbrev pub zero_slot : BootctlSlot
zero_slot = record { active = false; bootable = false; successful = false }

abbrev pub zero_bootctl : Bootctl
zero_bootctl = record { slot_a = zero_slot; slot_b = zero_slot; try = false }

-- `slot[0]` or `slot[1]`.
abbrev pub slot_of : Slot → Bootctl → BootctlSlot
slot_of slot_a boot = boot.slot_a
slot_of slot_b boot = boot.slot_b

abbrev pub other : Slot → Slot
other slot_a = slot_b
other slot_b = slot_a
