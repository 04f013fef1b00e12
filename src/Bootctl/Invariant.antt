-- ===== src/Bootctl/Invariant.antt =====
-- The flags that bootctl/bootctl.c keeps: at most one slot is active, and an active slot has
-- something to boot.
use frameworks_system_ota.Prelude.{Bool, true, false, not, ◌&&◌, ◌||◌, ◌≡◌, some, arith}
use frameworks_system_ota.Bootctl.State.{BootctlSlot, Bootctl}
use frameworks_system_ota.Bootctl.Ap.{active_slot, clear_other, switch_active, mark_successful}
use frameworks_system_ota.Bootctl.Loader.{choose_slot}

-- An active slot is bootable or successful.
abbrev pub is_ready : BootctlSlot → Bool
is_ready slot = not slot.active || slot.bootable || slot.successful

pub record IsValid (boot : Bootctl) : Type 0 where
  pub exclusive : boot.slot_a.active && boot.slot_b.active ≡ false
  pub ready_a : is_ready boot.slot_a ≡ true
  pub ready_b : is_ready boot.slot_b ≡ true

pub clear_other-IsValid : {boot : Bootctl} → IsValid boot → IsValid (clear_other boot)
unfolding clear_other
clear_other-IsValid v = ground arith

pub switch_active-IsValid : {boot : Bootctl} → IsValid boot → IsValid (switch_active boot)
unfolding switch_active
switch_active-IsValid v = ground arith

pub mark_successful-IsValid :
    {boot boot' : Bootctl} → IsValid boot → mark_successful boot ≡ some boot' → IsValid boot'
unfolding mark_successful
mark_successful-IsValid v e = ground arith

-- What `bootctl_boot` writes is valid again, and the slot that it boots is the one active slot.
pub choose_slot-IsValid :
    {boot : Bootctl}
    → IsValid boot
    → IsValid (choose_slot boot).0 × (active_slot (choose_slot boot).0 ≡ some (choose_slot boot).1)
unfolding choose_slot active_slot
choose_slot-IsValid v = ground arith
