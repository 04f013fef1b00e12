-- ===== src/Bootctl/Protocol.antt =====
-- The life of a device with bootctl/bootctl.c: reboots at any time, and the calls that the running
-- system makes in the order that README.md describes.
use frameworks_system_ota.Prelude.{true, ◌||◌, ◌&&◌, not, ◌≡◌, some, arith}
use frameworks_system_ota.Bootctl.State.{Bootctl, Slot, slot_a, slot_b, slot_of}
use frameworks_system_ota.Bootctl.Ap.{active_slot, clear_other, switch_active, mark_successful}
use frameworks_system_ota.Bootctl.Loader.{choose_slot, untried}
use frameworks_system_ota.Bootctl.Invariant.{IsValid}
use frameworks_system_ota.Bootctl.Upgrade.{after_success}

pub record Device : Type 0 where
  pub flags : Bootctl
  pub running : Slot

-- The device after a reset.
abbrev pub rebooted : Device → Device
rebooted d = record { flags = (choose_slot d.flags).0; running = (choose_slot d.flags).1 }

-- A reset may come at any time. The running slot calls `success`; it calls `update` only once it
-- is marked successful, and `done` only before it has switched.
pub data Step : Device → Device → Type 0 where
  reset : (d : Device) → Step d (rebooted d)
  success :
      (d : Device)
      → active_slot d.flags ≡ some d.running
      → Step d (record d { flags = after_success d.flags })
  update :
      (d : Device)
      → active_slot d.flags ≡ some d.running
      → (slot_of d.running d.flags).successful ≡ true
      → Step d (record d { flags = clear_other d.flags })
  finish :
      (d : Device)
      → active_slot d.flags ≡ some d.running
      → Step d (record d { flags = switch_active d.flags })

pub data Reach (d : Device) : Device → Type 0 where
  here : Reach d d
  next : {e f : Device} → Reach d e → Step e f → Reach d f

-- The flags are valid, a slot is active, and a slot is successful.
pub record HasFallback (boot : Bootctl) : Type 0 where
  pub valid : IsValid boot
  pub some_active : boot.slot_a.active || boot.slot_b.active ≡ true
  pub some_successful : boot.slot_a.successful || boot.slot_b.successful ≡ true

choose_slot-HasFallback : {boot : Bootctl} → HasFallback boot → HasFallback (choose_slot boot).0
unfolding choose_slot
choose_slot-HasFallback v = ground arith

after_success-HasFallback : {boot : Bootctl} → HasFallback boot → HasFallback (after_success boot)
unfolding after_success mark_successful
after_success-HasFallback v = ground arith

switch_active-HasFallback : {boot : Bootctl} → HasFallback boot → HasFallback (switch_active boot)
unfolding switch_active
switch_active-HasFallback v = ground arith

clear_other-HasFallback :
    (s : Slot) (boot : Bootctl)
    → active_slot boot ≡ some s
    → (slot_of s boot).successful ≡ true
    → HasFallback boot
    → HasFallback (clear_other boot)
unfolding clear_other active_slot
clear_other-HasFallback slot_a boot e ok v = ground arith
clear_other-HasFallback slot_b boot e ok v = ground arith

Step-HasFallback : {d e : Device} → Step d e → HasFallback d.flags → HasFallback e.flags
Step-HasFallback (reset d) v = choose_slot-HasFallback v
Step-HasFallback (success d e) v = after_success-HasFallback v
Step-HasFallback (update d e ok) v = clear_other-HasFallback d.running d.flags e ok v
Step-HasFallback (finish d e) v = switch_active-HasFallback v

pub Reach-HasFallback : {d e : Device} → HasFallback d.flags → Reach d e → HasFallback e.flags
Reach-HasFallback v here = v
Reach-HasFallback v (next r st) = Step-HasFallback st (Reach-HasFallback v r)

-- With a fallback, the slot that a reset boots is successful, or it is an untried one and `try` was
-- clear.
choose_slot_safe :
    (boot : Bootctl)
    → HasFallback boot
    → (slot_of (choose_slot boot).1 (choose_slot boot).0).successful
        || (not boot.try && untried (slot_of (choose_slot boot).1 boot))
      ≡ true
unfolding choose_slot
choose_slot_safe boot v = ground arith

-- Once a slot is successful, whatever resets and calls follow in the order of the protocol: the
-- next reset boots a successful slot, or a slot that is active, bootable and not successful while
-- `try` is clear.
pub reset_is_safe :
    {d e : Device}
    → HasFallback d.flags
    → Reach d e
    → (slot_of (rebooted e).running (rebooted e).flags).successful
        || (not e.flags.try && untried (slot_of (rebooted e).running e.flags))
      ≡ true
reset_is_safe {e = e} v r = choose_slot_safe e.flags (Reach-HasFallback v r)
