-- ===== src/Ui/Display.antt =====
-- ui/ui_display.c, and `lv_upgrade_set_progress` of ui/extra/lv_upgrade.c with the calls of LVGL that
-- it ends with. `none` is undefined behaviour.
pub mod Search
pub mod Exclusive
pub mod Show
use text.Mathlib.Text.{◌==◌ as str_eq}
use frameworks_system_ota.Prelude.{
  ℕ, zero, suc, ◌+◌, String, Bool, true, false, not, Option, none, some, ◌==◌, if◌then◌else◌, ◌>>=◌,
}
use frameworks_system_ota.Ui.Code.{
  Code, success, page_name_null, page_not_found, lv_obj_null, lv_obj_child_null,
}
use frameworks_system_ota.Ui.Lvgl.{Lvgl}
use frameworks_system_ota.Widget.Value.{set_value}
use frameworks_system_ota.Widget.Data.{Upgrade, UpgradeType, custom_anim}
use frameworks_system_ota.Widget.Layout.{Area, size_of_type}

module _ (lv : Lvgl) where
  open lv use {
    Screen, lv_scr_act, lv_obj_get_child_cnt, lv_obj_get_child, user_data, is_hidden,
    lv_obj_clear_flag, lv_obj_add_flag, lv_obj_is_visible, is_upgrade, lv_obj_set_size,
    lv_obj_invalidate, lv_refr_now, lv_timer_handler,
  }

  abbrev pub has_name : String → Option String → Bool
  has_name name none = false
  has_name name (some n) = str_eq n name

  -- The loop of `ui_find_page` from index `i` on, over the `n` children left.
  unfoldable pub find_from : ℕ → ℕ → String → Screen → Option ℕ
  find_from zero i page_name s = none
  find_from (suc n) i page_name s =
      let rest = find_from n (i + 1) page_name s in
      elim (lv_obj_get_child (lv_scr_act s) i s) [
        | none ↦ rest
        | some lv_page ↦ if has_name page_name (user_data lv_page s) then some lv_page else rest
      ]

  unfoldable pub ui_find_page : String → Screen → Option ℕ
  ui_find_page page_name s = find_from (lv_obj_get_child_cnt (lv_scr_act s) s) 0 page_name s

  -- The loop of `ui_page_show` that hides the other pages.
  unfoldable pub hide_others : ℕ → ℕ → ℕ → Screen → Screen
  hide_others zero i lv_page s = s
  hide_others (suc n) i lv_page s =
      hide_others n (i + 1) lv_page (elim (lv_obj_get_child (lv_scr_act s) i s) [
        | none ↦ s
        | some page ↦ if page == lv_page then s else lv_obj_add_flag page s
      ])

  unfoldable pub ui_page_show : String → Screen → Code × Screen
  ui_page_show page_name s = elim (ui_find_page page_name s) [
    | none ↦ (page_not_found, s)
    | some lv_page ↦
        let shown = lv_obj_clear_flag lv_page s in
        let hidden = hide_others (lv_obj_get_child_cnt (lv_scr_act shown) shown) 0 lv_page shown in
        if lv_obj_is_visible lv_page s then (success, s) else (success, hidden)
  ]

  unfoldable pub ui_page_hide : String → Screen → Code × Screen
  ui_page_hide page_name s = elim (ui_find_page page_name s) [
    | none ↦ (page_not_found, s)
    | some lv_page ↦
        if lv_obj_is_visible lv_page s then (success, lv_obj_add_flag lv_page s) else (success, s)
  ]

  -- `none` for the name is a null pointer.
  unfoldable pub ui_page_exist : Option String → Screen → Bool
  ui_page_exist none s = false
  ui_page_exist (some page_name) s = elim (ui_find_page page_name s) [
    | none ↦ false
    | some lv_page ↦ true
  ]

  -- The loop of `ui_get_current_page_name`.
  unfoldable pub current_from : ℕ → ℕ → Screen → Option String
  current_from zero i s = none
  current_from (suc n) i s =
      let rest = current_from n (i + 1) s in
      elim (lv_obj_get_child (lv_scr_act s) i s) [
        | none ↦ rest
        | some lv_page ↦ if lv_obj_is_visible lv_page s then user_data lv_page s else rest
      ]

  unfoldable pub ui_get_current_page_name : Screen → Option String
  unfolding current_from
  ui_get_current_page_name s = current_from (lv_obj_get_child_cnt (lv_scr_act s) s) 0 s
