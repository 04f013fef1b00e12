-- ===== src/Tests/Ota.antt =====
-- ui/ui_ota.c and ui/extra/lv_upgrade.c on small inputs.
use frameworks_system_ota.Prelude.{◌≡◌, refl, [], ◌∷◌, arith}
use frameworks_system_ota.Prelude.Int.{pos, negsuc}
use frameworks_system_ota.Ota.Progress.{Calc}
use frameworks_system_ota.Ota.Progress.Pace.{ticks, at, catch_up}
use frameworks_system_ota.Widget.Value.{
  initial, set_value, lv_upgrade_get_value, write_digits, digit_count,
}
use frameworks_system_ota.Widget.Value.Sync.{IsSynced, initial-IsSynced, set-get}

-- 5 is shown, the upgrade is at 20 and goes on to 40.
abbrev shown_5 : Calc
shown_5 = at 5 (pos 20) (pos 40) 0 0

catch_up_example : (ticks 45 shown_5).progress.current ≡ pos 20
catch_up_example = catch_up 15 5 20 0 (pos 40) (omega arith) (omega arith)

digits_of_50 : write_digits digit_count (pos 50) ≡ pos 0 ∷ pos 5 ∷ negsuc 0 ∷ []
unfolding write_digits
digits_of_50 = refl

set-get_example :
    (lv_upgrade_get_value (set_value 100 initial).1 ≡ 100) × IsSynced (set_value 100 initial).1
set-get_example = set-get 100 initial (omega arith) initial-IsSynced
