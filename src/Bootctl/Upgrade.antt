-- ===== src/Bootctl/Upgrade.antt =====
-- An upgrade through bootctl/bootctl.c: `bootctl update`, `bootctl done`, the reboots that follow,
-- and `bootctl success`.
use frameworks_system_ota.Prelude.{ℕ, zero, suc, true, false, ◌&&◌, ◌≡◌, Option, none, some, arith}
use frameworks_system_ota.Bootctl.State.{Bootctl, Slot, slot_a, slot_b, slot_of, other}
use frameworks_system_ota.Bootctl.Ap.{active_slot, clear_other, switch_active, mark_successful}
use frameworks_system_ota.Bootctl.Loader.{choose_slot}
use frameworks_system_ota.Bootctl.Invariant.{IsValid}

-- `bootctl update`, the image is written, `bootctl done`.
abbrev pub staged : Bootctl → Bootctl
staged boot = switch_active (clear_other boot)

unfoldable pub changed : Option Bootctl → Bootctl → Bootctl
changed none boot = boot
changed (some boot') boot = boot'

-- After `bootctl success`, whether it wrote something or not.
unfoldable pub after_success : Bootctl → Bootctl
unfolding changed
after_success boot = changed (mark_successful boot) boot

-- From a valid configuration with slot `s` active and `try` clear, the reboot that follows an
-- upgrade boots the other slot, sets `try`, and leaves the flag `successful` of `s` as it was.
pub upgrade_is_tried :
    (s : Slot) (boot : Bootctl)
    → IsValid boot
    → active_slot boot ≡ some s
    → boot.try ≡ false
    → ((choose_slot (staged boot)).1 ≡ other s)
      × ((choose_slot (staged boot)).0.try ≡ true)
      × ((slot_of s (choose_slot (staged boot)).0).successful ≡ (slot_of s boot).successful)
unfolding choose_slot switch_active clear_other active_slot
upgrade_is_tried slot_a boot valid running h = ground arith
upgrade_is_tried slot_b boot valid running h = ground arith

-- If `bootctl success` runs in the new slot then `try` is clear, the new slot is active, and every
-- later reboot boots it and changes no flag.
pub upgrade_settles :
    (s : Slot) (boot : Bootctl)
    → IsValid boot
    → active_slot boot ≡ some s
    → boot.try ≡ false
    → let settled = after_success (choose_slot (staged boot)).0 in
      (settled.try ≡ false)
      × (active_slot settled ≡ some (other s))
      × (choose_slot settled ≡ (settled, other s))
unfolding choose_slot switch_active clear_other active_slot after_success mark_successful
upgrade_settles slot_a boot valid running h = ground arith
upgrade_settles slot_b boot valid running h = ground arith

-- What a rolled-back device looks like: `s` is the only active slot and successful, and `try` is
-- set.
pub record IsRolledBack (s : Slot) (boot : Bootctl) : Type 0 where
  pub exclusive : boot.slot_a.active && boot.slot_b.active ≡ false
  pub active : active_slot boot ≡ some s
  pub successful : (slot_of s boot).successful ≡ true
  pub trying : boot.try ≡ true

-- If the device restarts instead, before `bootctl success`, it boots the old slot, provided that
-- was successful; the new slot is neither active nor bootable.
pub failed_try_rolls_back :
    (s : Slot) (boot : Bootctl)
    → IsValid boot
    → active_slot boot ≡ some s
    → boot.try ≡ false
    → (slot_of s boot).successful ≡ true
    → let (boot', slot) = choose_slot (choose_slot (staged boot)).0 in
      (slot ≡ s)
      × IsRolledBack s boot'
      × ((slot_of (other s) boot').active ≡ false)
      × ((slot_of (other s) boot').bootable ≡ false)
unfolding choose_slot switch_active clear_other active_slot
failed_try_rolls_back slot_a boot valid running h ok = ground arith
failed_try_rolls_back slot_b boot valid running h ok = ground arith

-- The next upgrade: `bootctl success` in the running slot, the upgrade, and the reboot.
abbrev pub next_upgrade : Bootctl → Bootctl × Slot
next_upgrade boot = choose_slot (staged (after_success boot))

next_upgrade-IsRolledBack :
    (s : Slot) (boot : Bootctl)
    → IsRolledBack s boot
    → ((next_upgrade boot).1 ≡ s) × IsRolledBack s (next_upgrade boot).0
unfolding choose_slot switch_active clear_other active_slot after_success mark_successful
next_upgrade-IsRolledBack slot_a boot r = ground arith
next_upgrade-IsRolledBack slot_b boot r = ground arith

-- The flags after `n` further upgrades.
pub upgrades : ℕ → Bootctl → Bootctl
upgrades zero boot = boot
upgrades (suc n) boot = (next_upgrade (upgrades n boot)).0

upgrades-IsRolledBack :
    (n : ℕ) (s : Slot) (boot : Bootctl) → IsRolledBack s boot → IsRolledBack s (upgrades n boot)
unfolding upgrades
upgrades-IsRolledBack zero s boot r = r
upgrades-IsRolledBack (suc n) s boot r =
    (next_upgrade-IsRolledBack s (upgrades n boot) (upgrades-IsRolledBack n s boot r)).1

-- On a rolled-back device `try` is never cleared again: after any number of further upgrades, each
-- with its `bootctl success`, the reboot after one more upgrade still boots the old slot, and the
-- new image is never tried.
pub rolled_back_never_upgrades :
    (n : ℕ) (s : Slot) (boot : Bootctl)
    → IsRolledBack s boot
    → ((next_upgrade (upgrades n boot)).1 ≡ s) × ((upgrades n boot).try ≡ true)
rolled_back_never_upgrades n s boot r =
    let r' = upgrades-IsRolledBack n s boot r in
    ((next_upgrade-IsRolledBack s (upgrades n boot) r').0, r'.trying)
