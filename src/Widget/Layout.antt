-- ===== src/Widget/Layout.antt =====
-- The size that ui/extra/lv_upgrade.c gives the widget, by the mode of its type.
pub mod Faults
use frameworks_system_ota.Prelude.{
  ℕ, zero, suc, ◌+◌, max, Bool, true, false, Option, none, some, List, [], ◌∷◌, leb, if◌then◌else◌,
  get_elem?, ◌>>=◌,
}
use frameworks_system_ota.Prelude.Int.{ℤ, pos, negsuc}
use frameworks_system_ota.Widget.Data.{
  UpgradeType, num, bar, circle, anim, custom_anim, invalid, Image, ImageData, Upgrade,
}
use frameworks_system_ota.Widget.Images.{cells_of}
use frameworks_system_ota.Widget.Closest.{lv_get_closest_element_index}

-- The corner of an `lv_area_t` whose `x1` and `y1` are 0.
pub record Area : Type 0 where
  pub x2 : ℕ
  pub y2 : ℕ

abbrev pub empty_area : Area
empty_area = record { x2 = 0; y2 = 0 }

-- Side by side.
unfoldable pub lv_calc_objs_size : Option Image → Area → Area
lv_calc_objs_size none area = area
lv_calc_objs_size (some image) area = record { x2 = area.x2 + image.w; y2 = max area.y2 image.h }

-- The image of a cell, and `none` for a null pointer.
abbrev pub image_of : Option ImageData → Option Image
image_of none = none
image_of (some d) = some d.image

-- The loop of `lv_calc_number_mode_size` over the digits: it ends at a blank one, and at one without
-- a cell. A result `none` is a read outside the array.
unfoldable pub number_loop : List ℤ → Upgrade → Area → Option Area
number_loop [] u area = some area
number_loop (negsuc k ∷ digits) u area = some area
number_loop (pos d ∷ digits) u area =
    let rest =
      λ (cell : Option ImageData). number_loop digits u (lv_calc_objs_size (image_of cell) area) in
    if leb u.image_array_size d then some area else (get_elem? (cells_of u) d >>= rest)

unfoldable pub lv_calc_number_mode_size : Upgrade → Area → Option Area
unfolding number_loop lv_calc_objs_size
lv_calc_number_mode_size u area =
    number_loop u.shown.progress u (lv_calc_objs_size u.image_percent_sign area)

unfoldable pub lv_calc_bar_mode_size : ℕ → Upgrade → Area → Option Area
unfolding lv_calc_objs_size
lv_calc_bar_mode_size value u area = do
  target_index ← lv_get_closest_element_index u value
  cell ← get_elem? (cells_of u) target_index
  some (lv_calc_objs_size (image_of cell) area)

-- On top of one another.
unfoldable pub larger_area : Option Image → Area → Area
larger_area none area = area
larger_area (some image) area = record { x2 = max area.x2 image.w; y2 = max area.y2 image.h }

-- The loop of `lv_calc_anim_mode_size` from index `i` on, over the `n` cells left.
unfoldable pub anim_loop : ℕ → ℕ → List (Option ImageData) → Area → Option Area
unfolding larger_area
anim_loop zero i cells area = some area
anim_loop (suc n) i cells area = do
  cell ← get_elem? cells i
  anim_loop n (i + 1) cells (larger_area (image_of cell) area)

unfoldable pub lv_calc_anim_mode_size : Upgrade → Area → Option Area
unfolding anim_loop
lv_calc_anim_mode_size u area = anim_loop u.image_array_size 0 (cells_of u) area

-- With LVGL's arc widget the radius is the size.
unfoldable pub lv_calc_custom_anim_size : Bool → Upgrade → Area → Area
lv_calc_custom_anim_size true u area = record { x2 = u.anim_fps; y2 = u.anim_fps }
lv_calc_custom_anim_size false u area = area

-- The `switch` of `lv_upgrade_set_progress`.
unfoldable pub size_of_type : Bool → UpgradeType → ℕ → Upgrade → Option Area
unfolding lv_calc_number_mode_size lv_calc_bar_mode_size lv_calc_anim_mode_size
    lv_calc_custom_anim_size
size_of_type use_arc num value u = lv_calc_number_mode_size u empty_area
size_of_type use_arc bar value u = lv_calc_bar_mode_size value u empty_area
size_of_type use_arc circle value u = lv_calc_anim_mode_size u empty_area
size_of_type use_arc anim value u = lv_calc_anim_mode_size u empty_area
size_of_type use_arc custom_anim value u = some (lv_calc_custom_anim_size use_arc u empty_area)
size_of_type use_arc invalid value u = some empty_area
