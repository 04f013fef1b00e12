-- ===== src/Ota/Progress/Bounds.antt =====
-- What the number on the screen may be after a tick of ui/ui_ota.c.
use frameworks_system_ota.Prelude.{◌≡◌, ◌⊎◌, arith}
use frameworks_system_ota.Prelude.Int.{pos, succ_ℤ, ◌≤ℤ◌, ◌<ℤ◌}
use frameworks_system_ota.Ota.Progress.{Calc, ota_calc_progress}

-- While the upgrade is below 100, so is the number on the screen, whatever it was before.
pub current-lt-100 :
    (c : Calc) → c.progress.prev_node <ℤ pos 100 → (ota_calc_progress c).progress.current <ℤ pos 100
unfolding ota_calc_progress
current-lt-100 c h = ground arith

-- A number that is not above 99, or an upgrade that has reached 100: a tick leaves the number or
-- adds one, it never passes both nodes, and the nodes stay as they are.
pub tick_bounds :
    (c : Calc)
    → (c.progress.current <ℤ pos 100) ⊎ (pos 100 ≤ℤ c.progress.prev_node)
    → (c.progress.current ≤ℤ (ota_calc_progress c).progress.current)
      × ((ota_calc_progress c).progress.current ≤ℤ succ_ℤ c.progress.current)
      × (((ota_calc_progress c).progress.current ≡ c.progress.current)
          ⊎ (((ota_calc_progress c).progress.current ≤ℤ c.progress.prev_node)
              ⊎ ((ota_calc_progress c).progress.current ≤ℤ c.progress.next_node)))
      × ((ota_calc_progress c).progress.prev_node ≡ c.progress.prev_node)
      × ((ota_calc_progress c).progress.next_node ≡ c.progress.next_node)
unfolding ota_calc_progress
tick_bounds c h = ground arith
