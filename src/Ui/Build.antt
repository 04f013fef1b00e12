-- ===== src/Ui/Build.antt =====
-- LVGL, as far as ui/ui_config_parse.c builds the pages with it: the calls that make objects and set
-- them up, as a parameter beside those of Lvgl, and apart from them what the program relies on.
use mathlib.Core.Logic.{◌≢◌}
use frameworks_system_ota.Prelude.{
  ℕ, zero, suc, ◌<◌, ◌≡◌, String, Bool, true, false, Option, some, List,
}
use frameworks_system_ota.Prelude.Int.{ℤ}
use frameworks_system_ota.Ui.Lvgl.{Lvgl, SamePages}
use frameworks_system_ota.Widget.Data.{Image}

-- `lv_align_t`, as far as the program names it.
pub data Align : Type 0 where
  align_default top_left top_mid top_right left_mid center right_mid : Align
  bottom_left bottom_mid bottom_right : Align

pub record Build (lv : Lvgl) : Type 0 where
  pub lv_obj_is_valid : ℕ → lv.Screen → Bool
  -- Parent; the new object. `create_upgrade` makes one of `lv_upgrade_class`.
  pub lv_obj_create : ℕ → lv.Screen → ℕ × lv.Screen
  pub lv_img_create : ℕ → lv.Screen → ℕ × lv.Screen
  pub create_upgrade : ℕ → lv.Screen → ℕ × lv.Screen
  pub lv_arc_create : ℕ → lv.Screen → ℕ × lv.Screen
  pub lv_obj_get_parent : ℕ → lv.Screen → Option ℕ
  pub lv_obj_remove_style : ℕ → lv.Screen → lv.Screen
  pub lv_obj_set_style_bg_color : ℕ → ℕ → lv.Screen → lv.Screen
  pub lv_obj_set_style_bg_opa : ℕ → lv.Screen → lv.Screen
  pub lv_obj_set_style_pad_all : ℕ → ℤ → lv.Screen → lv.Screen
  -- The calls of `lv_upgrade_set_type` that set up its new arc.
  pub style_arc : ℕ → lv.Screen → lv.Screen
  pub lv_obj_set_pos : ℕ → ℤ → ℤ → lv.Screen → lv.Screen
  pub lv_obj_align : ℕ → Align → ℤ → ℤ → lv.Screen → lv.Screen
  pub lv_obj_add_event : ℕ → lv.Screen → lv.Screen
  pub lv_image_set_src : ℕ → List ℕ → lv.Screen → lv.Screen
  pub lv_image_set_offset_y : ℕ → ℤ → lv.Screen → lv.Screen
  -- `obj->user_data = …`, a page's name and an image's bytes.
  pub set_name : ℕ → String → lv.Screen → lv.Screen
  pub set_bytes : ℕ → List ℕ → lv.Screen → lv.Screen
  pub lv_obj_clean : ℕ → lv.Screen → lv.Screen
  -- LV_HOR_RES and LV_VER_RES
  pub lv_hor_res : lv.Screen → ℤ
  pub lv_ver_res : lv.Screen → ℤ
  -- The sizes of `lv_image_dsc_t` and of its header, and the two assignments to its fields
  -- `data_size` and `data`, which lie behind the header.
  pub dsc_size : ℕ
  pub header_size : ℕ
  pub put_dsc : ℕ → List ℕ → List ℕ
  -- The width and the height that the bytes of a header give; bytes that are missing are zero.
  pub image_of : List ℕ → Image

module _ (lv : Lvgl) (build : Build lv) where
  open lv use {
    Screen, lv_scr_act, lv_obj_get_child_cnt, lv_obj_get_child, user_data, is_hidden, is_upgrade,
  }
  open build use {lv_obj_is_valid}

  -- A new object `o`, the last child of `parent` and without children. The valid objects stay valid,
  -- and keep their children, names, flags and classes.
  pub record Created (upgrade : Bool) (parent o : ℕ) (s t : Screen) : Type 0 where
    pub same_screen : lv_scr_act t ≡ lv_scr_act s
    pub was_invalid : lv_obj_is_valid o s ≡ false
    pub now_valid : lv_obj_is_valid o t ≡ true
    pub still_valid : (q : ℕ) → lv_obj_is_valid q s ≡ true → lv_obj_is_valid q t ≡ true
    pub one_more : lv_obj_get_child_cnt parent t ≡ suc (lv_obj_get_child_cnt parent s)
    pub last : lv_obj_get_child parent (lv_obj_get_child_cnt parent s) t ≡ some o
    pub same_count :
        (q : ℕ)
        → lv_obj_is_valid q s ≡ true
        → q ≢ parent
        → lv_obj_get_child_cnt q t ≡ lv_obj_get_child_cnt q s
    pub same_child :
        (q i : ℕ)
        → lv_obj_is_valid q s ≡ true
        → i < lv_obj_get_child_cnt q s
        → lv_obj_get_child q i t ≡ lv_obj_get_child q i s
    pub no_children : lv_obj_get_child_cnt o t ≡ 0
    pub same_name : (q : ℕ) → lv_obj_is_valid q s ≡ true → user_data q t ≡ user_data q s
    pub same_hidden : (q : ℕ) → lv_obj_is_valid q s ≡ true → is_hidden q t ≡ is_hidden q s
    pub same_class : (q : ℕ) → lv_obj_is_valid q s ≡ true → is_upgrade q t ≡ is_upgrade q s
    pub class_of : is_upgrade o t ≡ upgrade

  -- The tree, the names and the flags are the same.
  pub record Kept (s t : Screen) : Type 0 where
    pub pages : SamePages lv s t
    pub same_valid : (o : ℕ) → lv_obj_is_valid o t ≡ lv_obj_is_valid o s

  -- The same, but for what `o` has as its user data.
  pub record KeptBut (o : ℕ) (s t : Screen) : Type 0 where
    pub same_screen : lv_scr_act t ≡ lv_scr_act s
    pub same_valid : (q : ℕ) → lv_obj_is_valid q t ≡ lv_obj_is_valid q s
    pub same_count : (q : ℕ) → lv_obj_get_child_cnt q t ≡ lv_obj_get_child_cnt q s
    pub same_child : (q i : ℕ) → lv_obj_get_child q i t ≡ lv_obj_get_child q i s
    pub same_name : (q : ℕ) → q ≢ o → user_data q t ≡ user_data q s
    pub same_hidden : (q : ℕ) → is_hidden q t ≡ is_hidden q s
    pub same_class : (q : ℕ) → is_upgrade q t ≡ is_upgrade q s

  -- The screen and the children of valid objects are valid; creation adds, and the setters keep the
  -- tree; `lv_obj_clean` leaves its object without children.
  pub record IsBuild : Type 0 where
    pub screen-valid : (s : Screen) → lv_obj_is_valid (lv_scr_act s) s ≡ true
    pub child-valid :
        (q i c : ℕ) (s : Screen)
        → lv_obj_is_valid q s ≡ true
        → lv_obj_get_child q i s ≡ some c
        → lv_obj_is_valid c s ≡ true
    pub obj-created :
        (p : ℕ) (s : Screen)
        → lv_obj_is_valid p s ≡ true
        → Created false p (build.lv_obj_create p s).0 s (build.lv_obj_create p s).1
    pub img-created :
        (p : ℕ) (s : Screen)
        → lv_obj_is_valid p s ≡ true
        → Created false p (build.lv_img_create p s).0 s (build.lv_img_create p s).1
    pub upgrade-created :
        (p : ℕ) (s : Screen)
        → lv_obj_is_valid p s ≡ true
        → Created true p (build.create_upgrade p s).0 s (build.create_upgrade p s).1
    pub arc-created :
        (p : ℕ) (s : Screen)
        → lv_obj_is_valid p s ≡ true
        → Created false p (build.lv_arc_create p s).0 s (build.lv_arc_create p s).1
    pub remove_style-kept : (o : ℕ) (s : Screen) → Kept s (build.lv_obj_remove_style o s)
    pub bg_color-kept : (o c : ℕ) (s : Screen) → Kept s (build.lv_obj_set_style_bg_color o c s)
    pub bg_opa-kept : (o : ℕ) (s : Screen) → Kept s (build.lv_obj_set_style_bg_opa o s)
    pub pad_all-kept : (o : ℕ) (n : ℤ) (s : Screen) → Kept s (build.lv_obj_set_style_pad_all o n s)
    pub style_arc-kept : (o : ℕ) (s : Screen) → Kept s (build.style_arc o s)
    pub set_pos-kept : (o : ℕ) (x y : ℤ) (s : Screen) → Kept s (build.lv_obj_set_pos o x y s)
    pub set_size-kept : (o : ℕ) (w h : ℤ) (s : Screen) → Kept s (lv.lv_obj_set_size o w h s)
    pub align-kept :
        (o : ℕ) (a : Align) (x y : ℤ) (s : Screen) → Kept s (build.lv_obj_align o a x y s)
    pub add_event-kept : (o : ℕ) (s : Screen) → Kept s (build.lv_obj_add_event o s)
    pub set_src-kept :
        (o : ℕ) (bytes : List ℕ) (s : Screen) → Kept s (build.lv_image_set_src o bytes s)
    pub offset_y-kept : (o : ℕ) (y : ℤ) (s : Screen) → Kept s (build.lv_image_set_offset_y o y s)
    pub add_flag-valid :
        (o q : ℕ) (s : Screen) → lv_obj_is_valid q (lv.lv_obj_add_flag o s) ≡ lv_obj_is_valid q s
    pub set_name-kept : (o : ℕ) (k : String) (s : Screen) → KeptBut o s (build.set_name o k s)
    pub set_name-name :
        (o : ℕ) (k : String) (s : Screen) → user_data o (build.set_name o k s) ≡ some k
    pub set_bytes-kept :
        (o : ℕ) (bytes : List ℕ) (s : Screen) → KeptBut o s (build.set_bytes o bytes s)
    pub clean-screen :
        (s : Screen) → lv_scr_act (build.lv_obj_clean (lv_scr_act s) s) ≡ lv_scr_act s
    pub clean-count :
        (s : Screen)
        → lv_obj_get_child_cnt (lv_scr_act s) (build.lv_obj_clean (lv_scr_act s) s) ≡ zero
