-- ===== src/Ui/Config/Widgets.antt =====
-- The progress widget and the label of a page in ui/ui_config_parse.c. `none` is undefined behaviour: a key
-- that is a null pointer, a buffer that is too short, a write outside an image array.
use frameworks_system_ota.Prelude.{
  ℕ, String, Bool, true, false, ◌&&◌, Option, none, some, map, if◌then◌else◌, ◌>>=◌,
}
use frameworks_system_ota.Prelude.Int.{ℤ}
use frameworks_system_ota.Widget.Data.{
  UpgradeType, custom_anim, invalid, Image, lv_upgrade_constructor,
}
use frameworks_system_ota.Ui.Code.{Code, success, file_parse_error, is_success}
use frameworks_system_ota.Ui.Config.{string_2_id, progress_mode_map, ProgressItems, parse_progress}
use frameworks_system_ota.Ui.Config.Cjson.{text_of, number_of, children_of}
use frameworks_system_ota.Ui.Refresh.{Ui, put_widget}
use frameworks_system_ota.Ui.Config.Env.{Env}
use frameworks_system_ota.Ui.Config.Files.{image_from_file}
use frameworks_system_ota.Ui.Config.Objects.{json_ui_obj_parse, json_ui_image_set}

abbrev pub mode_of : Option String → UpgradeType
mode_of none = invalid
mode_of (some mode) = string_2_id mode progress_mode_map invalid

abbrev pub is_custom : UpgradeType → Bool
is_custom custom_anim = true
is_custom _ = false

module _ (env : Env) where
  open env use {lv, build, cj, os, use_arc, strtol, strtoul}

  abbrev pub key_number : Option String → Option ℤ
  key_number none = none
  key_number (some key) = some (strtol key)

  -- An element of `img_src_list`.
  abbrev pub list_element : cj.Node → Option ℤ × Image
  list_element a_element = (key_number (cj.key a_element), image_from_file env (cj.text a_element))

  abbrev pub given_image : Option String → Option Image
  given_image none = none
  given_image (some path) = some (image_from_file env (some path))

  -- The items that `json_progress_parse` looks up.
  unfoldable pub progress_items : cj.Node → ProgressItems
  progress_items progress = record {
    mode = text_of cj (cj.get_object_item progress "mode");
    animation_fps = number_of cj (cj.get_object_item progress "animation_fps");
    animation_radius = number_of cj (cj.get_object_item progress "animation_radius");
    percentage_src = given_image (text_of cj (cj.get_object_item progress "percentage_src"));
    img_src_list = map list_element (children_of cj (cj.get_object_item progress "img_src_list"));
  }

  -- The arc of `lv_upgrade_set_type`, and LVGL's data after the calls that set it up.
  unfoldable pub make_arc : Option String → ℕ → lv.Screen → ℕ × lv.Screen
  unfolding string_2_id
  make_arc mode upgrade_obj s =
      let made = build.lv_arc_create upgrade_obj s in
      if use_arc && is_custom (mode_of mode)
      then (made.0, build.style_arc made.0 made.1)
      else (0, s)

  -- From the items on.
  unfoldable pub parse_items : ProgressItems → ℕ → Ui lv → Option (Code × Ui lv)
  unfolding make_arc put_widget
  parse_items items upgrade_obj ui =
      let made = make_arc items.mode upgrade_obj ui.screen in
      do
        (code, widget) ← parse_progress use_arc made.0 items (ui.widgets upgrade_obj)
        some (code, put_widget lv use_arc upgrade_obj widget (record ui { screen = made.1 }))

  -- The page is never a null pointer.
  unfoldable pub json_progress_parse : cj.Node → ℕ → Ui lv → Option (Code × Ui lv)
  unfolding progress_items parse_items put_widget
  json_progress_parse progress page ui =
      let base = build.lv_obj_create page ui.screen in
      let bare = build.lv_obj_remove_style base.0 base.1 in
      let upgrade = build.create_upgrade base.0 bare in
      let placed = json_ui_obj_parse env progress upgrade.0 upgrade.1 in
      let ui' =
        put_widget lv use_arc upgrade.0 lv_upgrade_constructor (record ui { screen = placed.1 }) in
      if is_success placed.0
      then parse_items (progress_items progress) upgrade.0 ui'
      else some (file_parse_error, ui')

  abbrev pub or_parse_error : Code × lv.Screen → Code × lv.Screen
  or_parse_error (ret, s) = if is_success ret then (success, s) else (file_parse_error, s)

  -- From the image's path on.
  unfoldable pub label_image : Option String → ℕ → lv.Screen → Option (Code × lv.Screen)
  label_image none img_label s = some (file_parse_error, s)
  label_image (some path) img_label s = do
    set ← json_ui_image_set env img_label path s
    some (or_parse_error set)

  unfoldable pub json_label_parse : cj.Node → ℕ → lv.Screen → Option (Code × lv.Screen)
  unfolding label_image
  json_label_parse label page s =
      let base = build.lv_obj_create page s in
      let bare = build.lv_obj_remove_style base.0 base.1 in
      let img = build.lv_img_create base.0 bare in
      let watched = build.lv_obj_add_event img.0 img.1 in
      let placed = json_ui_obj_parse env label img.0 watched in
      if is_success placed.0
      then label_image (text_of cj (cj.get_object_item label "img_src")) img.0 placed.1
      else some (file_parse_error, placed.1)

  abbrev pub parse_label : cj.Node → ℕ → Ui lv → Option (Code × Ui lv)
  parse_label label page ui = do
    (code, s) ← json_label_parse label page ui.screen
    some (code, record ui { screen = s })
