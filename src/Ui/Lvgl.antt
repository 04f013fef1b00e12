-- ===== src/Ui/Lvgl.antt =====
-- LVGL, as far as ui/ui_display.c and ui/extra/lv_upgrade.c call it. It is another library, so it is
-- a parameter: its operations, and apart from them what the program relies on. An object is known
-- by its address.
use frameworks_system_ota.Prelude.Int.{ℤ}
use frameworks_system_ota.Prelude.{ℕ, ◌≡◌, String, Bool, true, false, Option, ◌==◌, if◌then◌else◌}

pub record Lvgl : Type 1 where
  -- All that LVGL keeps.
  pub Screen : Type 0
  -- The active screen.
  pub lv_scr_act : Screen → ℕ
  pub lv_obj_get_child_cnt : ℕ → Screen → ℕ
  -- Object and index; `none` is a null pointer.
  pub lv_obj_get_child : ℕ → ℕ → Screen → Option ℕ
  -- The page's name.
  pub user_data : ℕ → Screen → Option String
  -- LV_OBJ_FLAG_HIDDEN, and clearing and setting it.
  pub is_hidden : ℕ → Screen → Bool
  pub lv_obj_clear_flag : ℕ → Screen → Screen
  pub lv_obj_add_flag : ℕ → Screen → Screen
  pub lv_obj_is_visible : ℕ → Screen → Bool
  -- Whether the object's class is `lv_upgrade_class`.
  pub is_upgrade : ℕ → Screen → Bool
  -- Object, width and height.
  pub lv_obj_set_size : ℕ → ℤ → ℤ → Screen → Screen
  pub lv_obj_invalidate : ℕ → Screen → Screen
  pub lv_refr_now : Screen → Screen
  -- The milliseconds until the next call, and the timers' effect.
  pub lv_timer_handler : Screen → ℕ × Screen

-- The objects of `t` are those of `s`, with the same names and classes.
pub record SameObjects (lv : Lvgl) (s t : lv.Screen) : Type 0 where
  pub same_screen : lv.lv_scr_act t ≡ lv.lv_scr_act s
  pub same_count : (o : ℕ) → lv.lv_obj_get_child_cnt o t ≡ lv.lv_obj_get_child_cnt o s
  pub same_child : (o i : ℕ) → lv.lv_obj_get_child o i t ≡ lv.lv_obj_get_child o i s
  pub same_name : (o : ℕ) → lv.user_data o t ≡ lv.user_data o s
  pub same_class : (o : ℕ) → lv.is_upgrade o t ≡ lv.is_upgrade o s

-- And the same objects are hidden.
pub record SamePages (lv : Lvgl) (s t : lv.Screen) : Type 0 where
  pub objects : SameObjects lv s t
  pub same_hidden : (o : ℕ) → lv.is_hidden o t ≡ lv.is_hidden o s

-- Flags, sizes and drawing leave the tree of objects alone; a flag changes for one object; a hidden
-- object is not visible. (An object can be invisible for other reasons.)
pub record IsLvgl (lv : Lvgl) : Type 0 where
  pub clear-objects : (o : ℕ) (s : lv.Screen) → SameObjects lv s (lv.lv_obj_clear_flag o s)
  pub add-objects : (o : ℕ) (s : lv.Screen) → SameObjects lv s (lv.lv_obj_add_flag o s)
  pub hidden-clear :
      (o p : ℕ) (s : lv.Screen)
      → lv.is_hidden p (lv.lv_obj_clear_flag o s) ≡ (if o == p then false else lv.is_hidden p s)
  pub hidden-add :
      (o p : ℕ) (s : lv.Screen)
      → lv.is_hidden p (lv.lv_obj_add_flag o s) ≡ (if o == p then true else lv.is_hidden p s)
  pub visible-hidden :
      (o : ℕ) (s : lv.Screen) → lv.lv_obj_is_visible o s ≡ true → lv.is_hidden o s ≡ false
  pub set_size-pages :
      (o : ℕ) (w h : ℤ) (s : lv.Screen) → SamePages lv s (lv.lv_obj_set_size o w h s)
  pub invalidate-pages : (o : ℕ) (s : lv.Screen) → SamePages lv s (lv.lv_obj_invalidate o s)
  pub refr-pages : (s : lv.Screen) → SamePages lv s (lv.lv_refr_now s)
  pub timer-pages : (s : lv.Screen) → SamePages lv s (lv.lv_timer_handler s).1
