-- ===== src/Tests/Lvgl.antt =====
-- A screen of two pages for the tests: page 1, the upgrading page, with a widget, and page 2, the
-- fail page. Only the hidden flags change.
use frameworks_system_ota.Prelude.{
  ℕ, Bool, true, false, not, Option, none, some, refl, ◌≡◌, ◌==◌, ◌&&◌, ◌||◌, if◌then◌else◌,
}
use frameworks_system_ota.Ui.Lvgl.{Lvgl, SameObjects, SamePages, IsLvgl}

abbrev pub child_of : ℕ → ℕ → Option ℕ
child_of o i =
    if o == 0 && i == 0
    then some 1
    else if o == 0 && i == 1
    then some 2
    else if o == 1 && i == 0
    then some 11
    else if o == 11 && i == 0
    then some 12
    else none

abbrev pub two_pages : Lvgl
two_pages = record {
  Screen = ℕ → Bool;
  lv_scr_act = λ s. 0;
  lv_obj_get_child_cnt = λ o s. if o == 0 then 2 else if o == 1 || o == 11 then 1 else 0;
  lv_obj_get_child = λ o i s. child_of o i;
  user_data = λ o s.
      if o == 1 then some "upgrading_page" else if o == 2 then some "upgrade_fail_page" else none;
  is_hidden = λ o s. s o;
  lv_obj_clear_flag = λ o s p. if o == p then false else s p;
  lv_obj_add_flag = λ o s p. if o == p then true else s p;
  lv_obj_is_visible = λ o s. not (s o);
  is_upgrade = λ o s. o == 12;
  lv_obj_set_size = λ o w h s. s;
  lv_obj_invalidate = λ o s. s;
  lv_refr_now = λ s. s;
  lv_timer_handler = λ s. (0, s);
}

same_objects : (s t : ℕ → Bool) → SameObjects two_pages s t
same_objects s t = record {
  same_screen = refl;
  same_count = λ o. refl;
  same_child = λ o i. refl;
  same_name = λ o. refl;
  same_class = λ o. refl;
}

same_pages : (s : ℕ → Bool) → SamePages two_pages s s
same_pages s = record { objects = same_objects s s; same_hidden = λ o. refl }

visible_shown : (b : Bool) → not b ≡ true → b ≡ false
visible_shown true h = cc
visible_shown false h = refl

pub two_pages-IsLvgl : IsLvgl two_pages
two_pages-IsLvgl = record {
  clear-objects = λ o s. same_objects s _;
  add-objects = λ o s. same_objects s _;
  hidden-clear = λ o p s. refl;
  hidden-add = λ o p s. refl;
  visible-hidden = λ o s h. visible_shown (s o) h;
  set_size-pages = λ o w h s. same_pages s;
  invalidate-pages = λ o s. same_pages s;
  refr-pages = λ s. same_pages s;
  timer-pages = λ s. same_pages s;
}
