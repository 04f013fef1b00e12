-- ===== src/Ui/Refresh.antt =====
-- `ui_set_progress` of ui/ui_display.c, and `lv_upgrade_set_progress` of ui/extra/lv_upgrade.c with
-- the calls of LVGL that it ends with. `none` is undefined behaviour.
pub mod Shown
pub mod Stable
use frameworks_system_ota.Prelude.{
  ℕ, zero, suc, ◌+◌, String, Bool, true, false, Option, none, some, ◌==◌, if◌then◌else◌, ◌>>=◌,
}
use frameworks_system_ota.Prelude.Int.{pos}
use frameworks_system_ota.Ui.Code.{
  Code, success, page_name_null, page_not_found, lv_obj_null, lv_obj_child_null,
}
use frameworks_system_ota.Ui.Lvgl.{Lvgl}
use frameworks_system_ota.Ui.Display.{ui_find_page}
use frameworks_system_ota.Widget.Value.{set_value}
use frameworks_system_ota.Widget.Data.{Upgrade, UpgradeType, custom_anim}
use frameworks_system_ota.Widget.Layout.{Area, size_of_type}

-- LVGL's state, and the widgets' own data by the widgets' addresses.
pub record Ui (lv : Lvgl) : Type 0 where
  pub screen : lv.Screen
  pub widgets : ℕ → Upgrade

module _ (lv : Lvgl) (use_arc : Bool) where
  open lv use {
    Screen, lv_obj_get_child_cnt, lv_obj_get_child, is_upgrade, lv_obj_set_size, lv_obj_invalidate,
    lv_refr_now, lv_timer_handler,
  }

  unfoldable pub put_widget : ℕ → Upgrade → Ui lv → Ui lv
  put_widget obj w ui = record ui { widgets = λ o. if o == obj then w else ui.widgets o }

  -- `lv_obj_set_size(upgrade->arc, …)` in `lv_calc_custom_anim_size`.
  unfoldable pub resize_arc : UpgradeType → Option ℕ → Area → Screen → Screen
  resize_arc custom_anim (some arc) area s =
      if use_arc then lv_obj_set_size arc (pos area.x2) (pos area.y2) s else s
  resize_arc type arc area s = s

  -- The end of `lv_upgrade_set_progress`.
  unfoldable pub redraw : ℕ → Area → Screen → Screen
  redraw obj area s =
      lv_refr_now (lv_obj_invalidate obj (lv_obj_set_size obj (pos area.x2) (pos area.y2) s))

  -- From the `switch` on, with the new digits and the new value stored.
  unfoldable pub lay_out : ℕ → ℕ → Upgrade → Ui lv → Option (Ui lv)
  unfolding put_widget resize_arc redraw
  lay_out obj value w ui = do
    area ← size_of_type use_arc w.type value w
    let placed = put_widget obj w ui
    some (record placed { screen = redraw obj area (resize_arc w.type w.arc area ui.screen) })

  unfoldable pub lv_upgrade_set_progress : ℕ → ℕ → Ui lv → Option (Ui lv)
  unfolding set_value
  lv_upgrade_set_progress obj value ui =
      let w = ui.widgets obj in
      let (changed, shown) = set_value value w.shown in
      if changed then lay_out obj value (record w { shown = shown }) ui else some ui

  -- The loop of `ui_get_upgrade_obj_by_class` from index `i` on, over the `n` children left.
  unfoldable pub upgrade_from : ℕ → ℕ → ℕ → Screen → Option ℕ
  upgrade_from zero i lv_obj s = none
  upgrade_from (suc n) i lv_obj s =
      let rest = upgrade_from n (i + 1) lv_obj s in
      elim (lv_obj_get_child lv_obj i s) [
        | none ↦ rest
        | some obj ↦ if is_upgrade obj s then some obj else rest
      ]

  unfoldable pub ui_get_upgrade_obj_by_class : ℕ → Screen → Option ℕ
  ui_get_upgrade_obj_by_class lv_obj s = upgrade_from (lv_obj_get_child_cnt lv_obj s) 0 lv_obj s

  -- From the search for the widget on.
  unfoldable pub refresh_base : ℕ → ℕ → Ui lv → Option (Code × Ui lv)
  refresh_base progress_base_obj value ui =
      elim (ui_get_upgrade_obj_by_class progress_base_obj ui.screen) [
        | none ↦ some (lv_obj_null, ui)
        | some upgrade_obj ↦ do
          ui' ← lv_upgrade_set_progress upgrade_obj value ui
          some (success, ui')
      ]

  unfoldable pub ui_refresh_page_progress : Option ℕ → ℕ → Ui lv → Option (Code × Ui lv)
  ui_refresh_page_progress none value ui = some (page_not_found, ui)
  ui_refresh_page_progress (some lv_page) value ui = elim (lv_obj_get_child lv_page 0 ui.screen) [
    | none ↦ some (lv_obj_child_null, ui)
    | some progress_base_obj ↦ refresh_base progress_base_obj value ui
  ]

  -- `none` for the name is a null pointer.
  unfoldable pub ui_set_progress : Option String → ℕ → Ui lv → Option (Code × Ui lv)
  ui_set_progress none value ui = some (page_name_null, ui)
  ui_set_progress (some page_name) value ui = elim (ui_find_page lv page_name ui.screen) [
    | none ↦ some (page_not_found, ui)
    | some lv_page ↦ ui_refresh_page_progress (some lv_page) value ui
  ]

  -- What remains of `ui_timer_handler` is a sleep.
  unfoldable pub ui_timer_handler : Ui lv → Code × Ui lv
  ui_timer_handler ui = (success, record ui { screen = (lv_timer_handler ui.screen).1 })
