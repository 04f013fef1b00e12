-- ===== src/Widget/Data.antt =====
-- `lv_upgrade_t` of ui/extra/lv_upgrade.h, and the setters of ui/extra/lv_upgrade.c that store one
-- value. What the animation stores (`anim`, `anim_data`) and the drawing descriptor are with the draw
-- calls.
use frameworks_system_ota.Prelude.{ℕ, ◌%◌, ◌^◌, Bool, true, false, Option, none, some, List}
use frameworks_system_ota.Prelude.Int.{ℤ}
use frameworks_system_ota.Widget.Value.{Shown, initial}

-- `lv_upgrade_type_e`
pub data UpgradeType : Type 0 where
  num bar circle anim custom_anim invalid : UpgradeType

-- `lv_image_dsc_t`: the width and the height of its header.
pub record Image : Type 0 where
  pub w : ℕ
  pub h : ℕ

-- `image_data_t`
pub record ImageData : Type 0 where
  pub key : ℤ
  pub image : Image

-- The cells of `image_array`; `none` in a cell is a null pointer, and so is `none` for the array.
-- `anim_fps` and `arc_radius` are one `uint16_t`, the members of a union. So are the pointers `arc`
-- and `anim_data`, which are apart here: `anim_data` is set and read with the type `anim` alone, and
-- is a field of what the draw calls keep, and `arc` with the type `custom_anim` alone.
pub record Upgrade : Type 0 where
  pub type : UpgradeType
  pub image_percent_sign : Option Image
  pub image_array_size : ℕ
  pub image_array : Option (List (Option ImageData))
  pub shown : Shown
  pub arc : Option ℕ
  pub anim_fps : ℕ

-- LV_DEFAULT_ANIM_FPS and LV_DEFAULT_CUSTOM_ANIM_WIDTH
abbrev pub default_anim_fps : ℕ
default_anim_fps = 30

abbrev pub default_custom_anim_width : ℕ
default_custom_anim_width = 80

-- `lv_upgrade_constructor` on a zeroed object.
unfoldable pub lv_upgrade_constructor : Upgrade
unfolding initial
lv_upgrade_constructor = record {
  type = num;
  image_percent_sign = none;
  image_array_size = 0;
  image_array = none;
  shown = initial;
  arc = none;
  anim_fps = default_anim_fps;
}

-- Whether LVGL has its arc widget (LV_USE_ARC), and the arc that `lv_arc_create` returns.
unfoldable pub lv_upgrade_set_type : Bool → ℕ → UpgradeType → Upgrade → Upgrade
lv_upgrade_set_type true new_arc custom_anim u = record u {
  type = custom_anim;
  arc = some new_arc;
  anim_fps = default_custom_anim_width;
}
lv_upgrade_set_type use_arc new_arc type u = record u { type = type }

unfoldable pub lv_upgrade_set_animation_fps : ℕ → Upgrade → Upgrade
lv_upgrade_set_animation_fps fps u = record u { anim_fps = fps % 2 ^ 16 }

unfoldable pub lv_upgrade_set_animation_radius : Bool → ℕ → Upgrade → Upgrade
lv_upgrade_set_animation_radius true radius u = record u { anim_fps = radius % 2 ^ 16 }
lv_upgrade_set_animation_radius false radius u = u

unfoldable pub lv_upgrade_set_percent_sign_image : Image → Upgrade → Upgrade
lv_upgrade_set_percent_sign_image image u = record u { image_percent_sign = some image }
