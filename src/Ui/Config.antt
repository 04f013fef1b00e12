-- ===== src/Ui/Config.antt =====
-- The progress widget of a page in ui/ui_config_parse.c: from `string_2_id` on the mode to the list of
-- images. cJSON and the files are parameters: what the items of the object are is an argument.
pub mod Images
pub mod Listed
pub mod Cjson
pub mod Env
pub mod Files
pub mod Objects
pub mod Widgets
pub mod Pages
pub mod Tree
pub mod Created
pub mod View
pub mod Schema
use text.Mathlib.Text.{◌==◌ as str_eq}
use frameworks_system_ota.Prelude.{
  ℕ, ◌+◌, ◌%◌, ◌^◌, String, Bool, true, false, not, ◌&&◌, Option, none, some, List, [], ◌∷◌, length,
  ltb, if◌then◌else◌, ◌>>=◌,
}
use frameworks_system_ota.Prelude.Int.{ℤ, pos}
use frameworks_system_ota.Verify.Platform.{is_count}
use frameworks_system_ota.Widget.Data.{
  UpgradeType, num, bar, circle, anim, custom_anim, invalid, Image, Upgrade, lv_upgrade_set_type,
  lv_upgrade_set_animation_fps, lv_upgrade_set_animation_radius, lv_upgrade_set_percent_sign_image,
}
use frameworks_system_ota.Widget.Closest.{uint32_of}
use frameworks_system_ota.Ui.Code.{Code, success, file_parse_error, file_content_invalid}
use frameworks_system_ota.Widget.Images.{
  is_num, lv_upgrade_set_image_array_size, lv_upgrade_set_image_data,
}

-- `string_2_id`, over the lines of a map.
unfoldable pub string_2_id : {A : Type 0} → String → List (String × A) → A → A
string_2_id key [] default_val = default_val
string_2_id key ((key_str, value) ∷ map) default_val =
    let rest = string_2_id key map default_val in if str_eq key_str key then value else rest

-- `progress_mode_map`; a mode is cast to the type of the widget.
abbrev pub progress_mode_map : List (String × UpgradeType)
progress_mode_map =
    ("number", num)
    ∷ ("bar", bar)
    ∷ ("circle", circle)
    ∷ ("animation", anim)
    ∷ ("custom_anim", custom_anim)
    ∷ []

-- The loop over the image list, from element `i` on: an element is the number that its key spells
-- and the image in the file that it names. A number out of order ends the loop in number mode. An
-- element of an array has no key, and `strtol` reads a null pointer.
unfoldable pub set_listed : Bool → ℕ → List (Option ℤ × Image) → Upgrade → Option Upgrade
set_listed number i [] u = some u
set_listed number i ((none, image) ∷ elements) u = none
set_listed number i ((some key, image) ∷ elements) u =
    let rest = λ (v : Upgrade). set_listed number (i + 1) elements v in
    if number && not (is_count key i)
    then some u
    else (lv_upgrade_set_image_data key image u >>= rest)

-- From the length of the list on.
unfoldable pub parse_images :
    UpgradeType → List (Option ℤ × Image) → Upgrade → Option (Code × Upgrade)
parse_images mode_type elements u =
    if is_num mode_type && ltb (length elements) 10 then some (file_content_invalid, u) else do
      u' ←
          set_listed (is_num mode_type) 0 elements
            (lv_upgrade_set_image_array_size (pos (length elements)) u)
      some (success, u')

-- The items of the object, after the area: `none` is a missing one, and one of another type.
pub record ProgressItems : Type 0 where
  pub mode : Option String
  pub animation_fps : Option ℤ
  pub animation_radius : Option ℤ
  pub percentage_src : Option Image
  pub img_src_list : List (Option ℤ × Image)

-- `if (cJSON_Is…(item)) set(item)`
abbrev pub when_given : {A : Type 0} → Option A → (A → Upgrade → Upgrade) → Upgrade → Upgrade
when_given none f u = u
when_given (some a) f u = f a u

-- The setters of the widget before the list.
unfoldable pub set_widget : Bool → ℕ → UpgradeType → ProgressItems → Upgrade → Upgrade
set_widget use_arc new_arc mode_type items u =
    let typed = lv_upgrade_set_type use_arc new_arc mode_type u in
    let timed =
      when_given items.animation_fps (λ n. lv_upgrade_set_animation_fps (uint32_of n)) typed in
    let sized =
      when_given items.animation_radius (λ n. lv_upgrade_set_animation_radius use_arc (uint32_of n))
        timed in
    when_given items.percentage_src lv_upgrade_set_percent_sign_image sized

-- With a mode; `new_arc` is the arc that LVGL creates.
unfoldable pub parse_mode :
    Bool → ℕ → UpgradeType → ProgressItems → Upgrade → Option (Code × Upgrade)
parse_mode use_arc new_arc invalid items u = some (file_content_invalid, u)
parse_mode use_arc new_arc mode_type items u =
    parse_images mode_type items.img_src_list (set_widget use_arc new_arc mode_type items u)

-- `json_progress_parse` from the mode on: the result and the widget.
unfoldable pub parse_given :
    Bool → ℕ → Option String → ProgressItems → Upgrade → Option (Code × Upgrade)
parse_given use_arc new_arc none items u = some (file_parse_error, u)
parse_given use_arc new_arc (some mode) items u =
    parse_mode use_arc new_arc (string_2_id mode progress_mode_map invalid) items u

unfoldable pub parse_progress : Bool → ℕ → ProgressItems → Upgrade → Option (Code × Upgrade)
parse_progress use_arc new_arc items u = parse_given use_arc new_arc items.mode items u
