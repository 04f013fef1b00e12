-- ===== src/Bootctl/Machine.antt =====
-- What the calls of bootctl/bootctl.c are for, without flags of slots A and B: one slot runs, the
-- other is spare, and an image is bootable, proved good by a successful boot, or neither.
use frameworks_system_ota.Prelude.{Bool, true, false, ◌&&◌, List, [], ◌∷◌}
use frameworks_system_ota.Bootctl.State.{Bootctl, BootctlSlot, Slot, slot_a, slot_b, other}

pub record Image : Type 0 where
  pub bootable : Bool
  pub successful : Bool

pub record Machine : Type 0 where
  pub running : Slot
  pub current : Image
  pub spare : Image
  pub trying : Bool

-- The calls of the system that runs.
pub data Call : Type 0 where
  update done success : Call

-- `update` throws the spare image away, and nothing else. `done` makes the slots change their
-- roles, with the new current image bootable. `success` says that the current image is good, and
-- ends a trial unless that was known already.
abbrev pub meant : Call → Machine → Machine
meant update m = record m { spare = record { bootable = false; successful = false } }
meant done m = record m {
  running = other m.running;
  current = record m.spare { bootable = true };
  spare = m.current;
}
meant success m = record m {
  current = record m.current { successful = true };
  trying = m.trying && m.current.successful;
}

abbrev pub meant_all : List Call → Machine → Machine
meant_all [] m = m
meant_all (c ∷ cs) m = meant_all cs (meant c m)

abbrev slot_flags : Bool → Image → BootctlSlot
slot_flags active image = record {
  active = active;
  bootable = image.bootable;
  successful = image.successful;
}

-- The flags of a machine: only the running slot is active.
abbrev pub flags : Machine → Bootctl
flags m = elim m.running [
  | slot_a ↦ record {
    slot_a = slot_flags true m.current;
    slot_b = slot_flags false m.spare;
    try = m.trying;
  }
  | slot_b ↦ record {
    slot_a = slot_flags false m.spare;
    slot_b = slot_flags true m.current;
    try = m.trying;
  }
]
