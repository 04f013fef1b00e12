-- ===== src/Ui/Config/Objects.antt =====
-- The area, the alignment and the offset of an object in ui/ui_config_parse.c, and the image of a
-- label.
use Prim.Native.Nat.{bit_or}
use frameworks_system_ota.Prelude.{
  ℕ, ◌*◌, String, Option, none, some, List, [], ◌∷◌, ◌==◌, if◌then◌else◌, ◌>>=◌,
}
use frameworks_system_ota.Prelude.Int.{ℤ, pos, negsuc}
use frameworks_system_ota.Ui.Code.{
  Code, success, file_parse_error, file_read_error, file_content_invalid, is_success,
}
use frameworks_system_ota.Ui.Build.{
  Align, align_default, top_left, top_mid, top_right, left_mid, center, right_mid, bottom_left,
  bottom_mid, bottom_right,
}
use frameworks_system_ota.Ui.Config.{string_2_id}
use frameworks_system_ota.Ui.Config.Cjson.{number_item}
use frameworks_system_ota.Ui.Config.Env.{Env}
use frameworks_system_ota.Ui.Config.Files.{get_image_data_from_file}

-- The `switch` of `number_2_align`.
unfoldable pub align_of : ℕ → Align
align_of n =
    if n == 0
    then top_left
    else if n == 1
    then top_mid
    else if n == 2
    then top_right
    else if n == 4
    then left_mid
    else if n == 5
    then center
    else if n == 6
    then right_mid
    else if n == 8
    then bottom_left
    else if n == 9
    then bottom_mid
    else if n == 10
    then bottom_right
    else align_default

unfoldable pub number_2_align : ℕ → ℕ → Align
unfolding align_of
number_2_align hor_num ver_key = align_of (bit_or hor_num (ver_key * 4))

abbrev pub hor_align_map : List (String × ℕ)
hor_align_map = ("left", 0) ∷ ("center", 1) ∷ ("right", 2) ∷ []

abbrev pub ver_align_map : List (String × ℕ)
ver_align_map = ("top", 0) ∷ ("center", 1) ∷ ("bottom", 2) ∷ []

module _ (env : Env) where
  open env use {lv, build, cj}

  -- The two strings of the array.
  unfoldable pub align_strings : List cj.Node → Option (String × String)
  align_strings (hor_align ∷ ver_align ∷ []) = do
    hor ← cj.text hor_align
    ver ← cj.text ver_align
    some (hor, ver)
  align_strings _ = none

  unfoldable pub align_node : Option cj.Node → Option (String × String)
  unfolding align_strings
  align_node none = none
  align_node (some node) = if cj.is_array node then align_strings (cj.children node) else none

  unfoldable pub json_align_parse : Option cj.Node → ℕ → lv.Screen → Code × lv.Screen
  unfolding align_node number_2_align string_2_id
  json_align_parse node lv_obj s = elim (align_node node) [
    | none ↦ (file_content_invalid, s)
    | some (hor, ver) ↦
        let align =
          number_2_align (string_2_id hor hor_align_map 0) (string_2_id ver ver_align_map 0) in
        (success, build.lv_obj_align lv_obj align (pos 0) (pos 0) s)
  ]

  -- The numbers x, y, w and h.
  unfoldable pub area_numbers : Option cj.Node → Option ((ℤ × ℤ) × (ℤ × ℤ))
  area_numbers node = do
    x ← number_item cj node "x"
    y ← number_item cj node "y"
    w ← number_item cj node "w"
    h ← number_item cj node "h"
    some ((x, y), (w, h))

  abbrev pub place_parent : Option ℕ → (ℤ × ℤ) × (ℤ × ℤ) → lv.Screen → lv.Screen
  place_parent none area s = s
  place_parent (some parent_obj) ((x, y), (w, h)) s =
      lv.lv_obj_set_size parent_obj w h (build.lv_obj_set_pos parent_obj x y s)

  unfoldable pub json_area_parse : Option cj.Node → ℕ → lv.Screen → Code × lv.Screen
  unfolding area_numbers
  json_area_parse node lv_obj s = elim (area_numbers node) [
    | none ↦ (file_content_invalid, s)
    | some area ↦ (success, place_parent (build.lv_obj_get_parent lv_obj s) area s)
  ]

  -- The numbers x and y.
  unfoldable pub offset_numbers : Option cj.Node → Option (ℤ × ℤ)
  offset_numbers node = do x ← number_item cj node "x"; y ← number_item cj node "y"; some (x, y)

  unfoldable pub json_offset_parse : Option cj.Node → ℕ → lv.Screen → Code × lv.Screen
  unfolding offset_numbers
  json_offset_parse node lv_obj s = elim (offset_numbers node) [
    | none ↦ (file_content_invalid, s)
    | some (x, y) ↦ (success, build.lv_obj_set_pos lv_obj x y s)
  ]

  -- The alignment and the offset may be missing.
  unfoldable pub json_ui_obj_parse : cj.Node → ℕ → lv.Screen → Code × lv.Screen
  unfolding json_align_parse json_area_parse json_offset_parse
  json_ui_obj_parse json_obj lv_obj s =
      let aligned = json_align_parse (cj.get_object_item json_obj "align") lv_obj s in
      let placed = json_area_parse (cj.get_object_item json_obj "area") lv_obj aligned.1 in
      let moved = json_offset_parse (cj.get_object_item json_obj "offset") lv_obj placed.1 in
      if is_success placed.0 then (success, moved.1) else (file_parse_error, placed.1)

  abbrev pub set_image : Option (List ℕ) → ℕ → lv.Screen → Code × lv.Screen
  set_image none lv_obj s = (file_read_error, s)
  set_image (some image_buff) lv_obj s =
      let sourced = build.lv_image_set_src lv_obj image_buff s in
      let moved = build.lv_image_set_offset_y lv_obj (negsuc 0) sourced in
      (success, build.set_bytes lv_obj image_buff moved)

  -- `none` is a write behind the buffer.
  unfoldable pub json_ui_image_set : ℕ → String → lv.Screen → Option (Code × lv.Screen)
  unfolding get_image_data_from_file
  json_ui_image_set lv_obj image_path s = do
    image_buff ← get_image_data_from_file env image_path
    some (set_image image_buff lv_obj s)
