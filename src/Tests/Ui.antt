-- ===== src/Tests/Ui.antt =====
-- ui/ui_display.c and the loop of ui/ui_ota.c on the screen of two pages.
use mathlib.Core.Logic.{◌≢◌}
use text.Mathlib.Text.{◌==◌ as str_eq}
use frameworks_system_ota.Prelude.{
  ℕ, ◌≡◌, refl, Bool, true, false, ◌⊎◌, String, Option, none, some, [], ◌∷◌, arith, if◌then◌else◌,
  All,
}
use frameworks_system_ota.Prelude.Int.{ℤ, pos, negsuc, ◌<ℤ◌}
use frameworks_system_ota.Ui.Code.{success, page_not_found}
use frameworks_system_ota.Ui.Display.{
  has_name, find_from, ui_find_page, ui_page_exist, ui_page_show,
}
use frameworks_system_ota.Ui.Display.Search.{pages, IsFirst}
use frameworks_system_ota.Ui.Display.Exclusive.{contains, IsExclusive}
use frameworks_system_ota.Ui.Display.Show.{Shows, show_exclusive}
use frameworks_system_ota.Ui.Refresh.{
  Ui, ui_refresh_page_progress, refresh_base, lv_upgrade_set_progress, lay_out, ui_set_progress,
  ui_get_upgrade_obj_by_class, upgrade_from,
}
use frameworks_system_ota.Ui.Refresh.Shown.{IsDrawable, Refreshed, set_progress_shows}
use frameworks_system_ota.Widget.Value.Sync.{IsSynced, initial-IsSynced}
use frameworks_system_ota.Widget.Data.{lv_upgrade_constructor}
use frameworks_system_ota.Widget.Layout.{size_of_type}
use frameworks_system_ota.Widget.Closest.{uint32_of}
use frameworks_system_ota.Ota.Progress.{ota_calc_progress}
use frameworks_system_ota.Ota.Progress.Pace.{at}
use frameworks_system_ota.Ota.Property.{Properties, ota_upgrade_prop_get, ota_sync_upgrade_progress}
use frameworks_system_ota.Ota.Main.{
  Loop, Round, leave, round, rounds, show_page, show_upgrading, sync_round, end_round, show_success,
  runs_command,
}
use frameworks_system_ota.Ota.Main.Safety.{loop_of, UnderWay, rounds-below}
use frameworks_system_ota.Ota.Main.Ready.{IsReady}
use frameworks_system_ota.Ota.Main.Complete.{completes}
use frameworks_system_ota.Ota.Main.Failure.{failure_shown}
use frameworks_system_ota.Tests.Lvgl.{two_pages, two_pages-IsLvgl}

abbrev all_hidden : ℕ → Bool
all_hidden o = true

all_hidden-IsExclusive : IsExclusive two_pages all_hidden
all_hidden-IsExclusive = record { at_most_one = λ o p ho hp so sp. cc so }

abbrev ui : Ui two_pages
ui = record { screen = all_hidden; widgets = λ o. lv_upgrade_constructor }

key : ℕ → ℤ
key i = pos i

drawable : IsDrawable lv_upgrade_constructor key
unfolding lv_upgrade_constructor
drawable = record { sized = omega arith; bar_images = λ h. cc h }

synced : IsSynced lv_upgrade_constructor.shown
unfolding lv_upgrade_constructor
synced = initial-IsSynced

show_exclusive_example :
    ((p : ℕ) × IsFirst two_pages "upgrading_page" p (pages two_pages all_hidden) all_hidden
      × (ui_find_page two_pages "upgrading_page" all_hidden ≡ some p)
      × ((ui_page_show two_pages "upgrading_page" all_hidden).0 ≡ success)
      × Shows two_pages two_pages-IsLvgl p all_hidden
          (ui_page_show two_pages "upgrading_page" all_hidden).1)
    ⊎ (All
          (λ o. has_name two_pages "upgrading_page" (two_pages.user_data o all_hidden) ≡ false)
          (pages two_pages all_hidden)
        × (ui_page_show two_pages "upgrading_page" all_hidden ≡ (page_not_found, all_hidden)))
show_exclusive_example =
    show_exclusive two_pages two_pages-IsLvgl "upgrading_page" all_hidden all_hidden-IsExclusive

set_progress_shows_example :
    (ui' : Ui two_pages) × (ui_set_progress two_pages true (some "upgrading_page") 42 ui
      ≡ some (success, ui'))
    × Refreshed two_pages 12 42 ui ui'
unfolding ui_find_page find_from ui_get_upgrade_obj_by_class upgrade_from
set_progress_shows_example =
    set_progress_shows two_pages two_pages-IsLvgl true "upgrading_page" 42 1 11 12 key ui refl refl
      refl (omega arith) synced drawable

-- A database of one number.
abbrev pub one_number : Properties
one_number = record {
  Db = String;
  property_get = λ k db. if str_eq k "ota.progress.current" then some db else some "100";
  property_set = λ k v db. if str_eq k "ota.progress.current" then v else db;
  strtol = λ s. if str_eq s "100" then pos 100 else if str_eq s "-1" then negsuc 0 else pos 40;
  strtoul = λ s. 0;
}

-- The number on the screen, and the numbers of the upgrade.
abbrev loop_at : ℕ → ℤ → Loop two_pages
loop_at k prev = record { calc = at k prev (pos 100) 0 0; count_tick_ms = 0; ui = ui }

abbrev round_or : Round two_pages → Option (Round two_pages) → Round two_pages
round_or r none = r
round_or r (some r') = r'

-- After a round that finds 40 in the database.
abbrev after_one : Round two_pages
after_one =
    round_or (leave (loop_at 0 (pos 0)))
      (rounds one_number two_pages true 40000 false ("40" ∷ []) (loop_at 5 (pos 20)))

runs_one :
    rounds one_number two_pages true 40000 false ("40" ∷ []) (loop_at 5 (pos 20)) ≡ some after_one
unfolding rounds round show_page show_upgrading sync_round end_round show_success ui_set_progress
    ui_find_page find_from ui_get_upgrade_obj_by_class upgrade_from lv_upgrade_constructor
    ota_sync_upgrade_progress ota_upgrade_prop_get ui_refresh_page_progress refresh_base
    lv_upgrade_set_progress lay_out size_of_type uint32_of ota_calc_progress ui_page_exist
runs_one = refl

rounds-below_example :
    UnderWay (loop_of after_one).calc.progress.prev_node
    × ((loop_of after_one).calc.progress.current <ℤ pos 100)
unfolding ota_upgrade_prop_get
rounds-below_example =
    rounds-below one_number two_pages true 40000 ("40" ∷ []) (loop_at 5 (pos 20)) after_one
      (omega arith) (omega arith) runs_one

ready : IsReady two_pages true 1 11 12 key ui
unfolding ui_find_page find_from ui_get_upgrade_obj_by_class upgrade_from
ready = record { found = refl; first = refl; widget = refl; synced = synced; drawable = drawable }

-- From 98 on, six rounds.
completes_example :
    (l' : Loop two_pages) × (rounds one_number two_pages true 40000 false
        ("100" ∷ "100" ∷ "100" ∷ "100" ∷ "100" ∷ "100" ∷ [])
        (loop_at 98 (pos 100))
      ≡ some (leave l'))
    × (l'.calc.progress.current ≡ pos 100)
unfolding ota_upgrade_prop_get
completes_example =
    completes two_pages true two_pages-IsLvgl 1 11 12 key one_number 40000 1 98 100 0 (pos 100)
      ("100" ∷ "100" ∷ "100" ∷ "100" ∷ "100" ∷ "100" ∷ []) (loop_at 98 (pos 100)) refl ready
      (omega arith) (omega arith) (omega arith) (omega arith)
      (
        (refl, refl),
        ((refl, refl), ((refl, refl), ((refl, refl), ((refl, refl), ((refl, refl), tt))))),
      )

failure_shown_example :
    (l' : Loop two_pages) × (round one_number two_pages true 40000 false "-1" (loop_at 5 (pos 20))
      ≡ some (leave l'))
    × (l'.ui.screen 2 ≡ false)
    × ((o : ℕ) → contains o (pages two_pages all_hidden) ≡ true → o ≢ 2 → l'.ui.screen o ≡ true)
    × (runs_command one_number two_pages true 40000 "-1" l' ≡ true)
unfolding ui_find_page find_from ota_upgrade_prop_get
failure_shown_example =
    failure_shown two_pages two_pages-IsLvgl one_number true 40000 "-1" (loop_at 5 (pos 20)) 2 refl
      (omega arith) all_hidden-IsExclusive refl
