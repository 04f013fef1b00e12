-- ===== src/Ota/Main/Failure.antt =====
-- A failed upgrade in the loop of ui/ui_ota.c: the fail page, and the command at the end.
use mathlib.Core.Logic.{◌≢◌}
use frameworks_system_ota.Prelude.{ℕ, ◌+◌, ◌%◌, ◌^◌, ◌≡◌, ◌∙◌, Bool, true, false, some, arith}
use frameworks_system_ota.Prelude.Int.{pos, ◌<ℤ◌}
use frameworks_system_ota.Ui.Lvgl.{Lvgl, IsLvgl}
use frameworks_system_ota.Ui.Display.{ui_find_page, ui_page_show}
use frameworks_system_ota.Ui.Display.Search.{pages}
use frameworks_system_ota.Ui.Display.Exclusive.{contains, IsExclusive}
use frameworks_system_ota.Ui.Display.Show.{show-found}
use frameworks_system_ota.Ui.Refresh.{ui_timer_handler}
use frameworks_system_ota.Ota.Property.{
  Properties, ota_upgrade_prop_get, key_current, ota_sync_upgrade_progress,
}
use frameworks_system_ota.Ota.Main.{
  Loop, leave, sync_round, show_page, end_round, round, runs_command,
}

module _ (lv : Lvgl) (laws : IsLvgl lv) (props : Properties) (use_arc : Bool) (sync_time : ℕ) where
  sync_due :
      (db : props.Db) (l : Loop lv)
      → l.count_tick_ms % sync_time ≡ 0
      → sync_round props lv use_arc sync_time db l ≡ record l {
        calc = record l.calc { progress = ota_sync_upgrade_progress props db l.calc.progress };
      }
  unfolding sync_round
  sync_due db l h = ground arith

  -- In a round that synchronises and finds a negative number, at a fail page on a screen with at most
  -- one page that is not hidden: the fail page becomes the one page that is not hidden, the loop
  -- ends, and with the same database the command is run.
  pub failure_shown :
      (db : props.Db) (l : Loop lv) (p : ℕ)
      → l.count_tick_ms % sync_time ≡ 0
      → ota_upgrade_prop_get props key_current db <ℤ pos 0
      → IsExclusive lv l.ui.screen
      → ui_find_page lv "upgrade_fail_page" l.ui.screen ≡ some p
      → (l' : Loop lv) × (round props lv use_arc sync_time false db l ≡ some (leave l'))
        × (lv.is_hidden p l'.ui.screen ≡ false)
        × ((o : ℕ)
            → contains o (pages lv l.ui.screen) ≡ true
            → o ≢ p
            → lv.is_hidden o l'.ui.screen ≡ true)
        × (runs_command props lv use_arc sync_time db l' ≡ true)
  unfolding round show_page end_round ota_sync_upgrade_progress ui_timer_handler
  failure_shown db l p due negative ex found =
      let (ok, shows) = show-found lv laws "upgrade_fail_page" l.ui.screen p ex found in
      let s = (ui_page_show lv "upgrade_fail_page" l.ui.screen).1 in
      let timer = laws.timer-pages s in
      let progress = ota_sync_upgrade_progress props db l.calc.progress in
      (
        record {
          calc = record l.calc { progress = progress };
          count_tick_ms = (l.count_tick_ms + 10000) % 2 ^ 32;
          ui = record l.ui { screen = (lv.lv_timer_handler s).1 };
        },
        rw (sync_due db l due) (ground (arith, ok)),
        timer.same_hidden p ∙ shows.shown,
        λ o there other. timer.same_hidden o ∙ shows.others o there other,
        unfold runs_command in ground arith,
      )
