-- ===== src/Ui/Refresh/Stable.antt =====
-- Showing pages and setting sizes does not change which pages and widgets ui/ui_display.c finds.
use mathlib.Core.Path.{fun_ext}
use frameworks_system_ota.Prelude.{
  ℕ, zero, suc, ◌+◌, ◌≡◌, refl, ap, ◌∙◌, sym, Bool, String, Option, none, some, inl, inr,
  Bool-cases, Option-cases, if◌then◌else◌,
}
use frameworks_system_ota.Ui.Lvgl.{Lvgl, SameObjects, IsLvgl}
use frameworks_system_ota.Ui.Display.{has_name, find_from, ui_find_page, ui_page_show}
use frameworks_system_ota.Ui.Display.Exclusive.{
  SameObjects-refl, SameObjects-trans, hide_others_lem,
}
use frameworks_system_ota.Ui.Refresh.{upgrade_from, ui_get_upgrade_obj_by_class}

module _ (lv : Lvgl) where
  open lv use {
    Screen, lv_scr_act, lv_obj_get_child_cnt, lv_obj_get_child, user_data, is_upgrade,
    lv_obj_clear_flag, lv_obj_is_visible,
  }

  found_case : Option ℕ → String → (ℕ → Option String) → Option ℕ → Option ℕ
  found_case none name names rest = rest
  found_case (some p) name names rest = if has_name lv name (names p) then some p else rest

  find_from-suc :
      (n i : ℕ) (name : String) (s : Screen)
      → find_from lv (suc n) i name s
        ≡ found_case
            (lv_obj_get_child (lv_scr_act s) i s)
            name
            (λ p. user_data p s)
            (find_from lv n (i + 1) name s)
  unfolding find_from found_case
  find_from-suc n i name s = elim (Option-cases (lv_obj_get_child (lv_scr_act s) i s)) [
    | inl gone ↦ rw (gone, find_from)
    | inr (p, e) ↦ rw (e, find_from)
  ]

  screen_child :
      (i : ℕ) {s t : Screen}
      → SameObjects lv s t
      → lv_obj_get_child (lv_scr_act t) i t ≡ lv_obj_get_child (lv_scr_act s) i s
  screen_child i {s} {t} same =
      same.same_child (lv_scr_act t) i ∙ ap (λ scr. lv_obj_get_child scr i s) same.same_screen

  find_from-same :
      (n i : ℕ) (name : String) {s t : Screen}
      → SameObjects lv s t
      → find_from lv n i name t ≡ find_from lv n i name s
  find_from-same zero i name same = unfold find_from in refl
  find_from-same (suc n) i name {s} {t} same =
      let rest = find_from-same n (i + 1) name same in
      find_from-suc n i name t
      ∙ ap (λ c. found_case c name (λ p. user_data p t) (find_from lv n (i + 1) name t))
          (screen_child i same)
      ∙ ap
          (λ names.
            found_case (lv_obj_get_child (lv_scr_act s) i s) name names
              (find_from lv n (i + 1) name t))
          (fun_ext same.same_name)
      ∙ ap (found_case (lv_obj_get_child (lv_scr_act s) i s) name (λ p. user_data p s)) rest
      ∙ sym (find_from-suc n i name s)

  pub find_page-same :
      (name : String) {s t : Screen}
      → SameObjects lv s t
      → ui_find_page lv name t ≡ ui_find_page lv name s
  unfolding ui_find_page
  find_page-same name {s} {t} same =
      ap (λ n. find_from lv n 0 name t)
        (same.same_count (lv_scr_act t) ∙ ap (λ scr. lv_obj_get_child_cnt scr s) same.same_screen)
      ∙ find_from-same (lv_obj_get_child_cnt (lv_scr_act s) s) 0 name same

  module _ (use_arc : Bool) where
    upgrade_case : Option ℕ → (ℕ → Bool) → Option ℕ → Option ℕ
    upgrade_case none classes rest = rest
    upgrade_case (some o) classes rest = if classes o then some o else rest

    upgrade_from-suc :
        (n i base : ℕ) (s : Screen)
        → upgrade_from lv use_arc (suc n) i base s
          ≡ upgrade_case
              (lv_obj_get_child base i s)
              (λ o. is_upgrade o s)
              (upgrade_from lv use_arc n (i + 1) base s)
    unfolding upgrade_from upgrade_case
    upgrade_from-suc n i base s = elim (Option-cases (lv_obj_get_child base i s)) [
      | inl gone ↦ rw (gone, upgrade_from)
      | inr (o, e) ↦ rw (e, upgrade_from)
    ]

    upgrade_from-same :
        (n i base : ℕ) {s t : Screen}
        → SameObjects lv s t
        → upgrade_from lv use_arc n i base t ≡ upgrade_from lv use_arc n i base s
    upgrade_from-same zero i base same = unfold upgrade_from in refl
    upgrade_from-same (suc n) i base {s} {t} same =
        let rest = upgrade_from-same n (i + 1) base same in
        upgrade_from-suc n i base t
        ∙ ap (λ c. upgrade_case c (λ o. is_upgrade o t) (upgrade_from lv use_arc n (i + 1) base t))
            (same.same_child base i)
        ∙ ap
            (λ classes.
              upgrade_case (lv_obj_get_child base i s) classes
                (upgrade_from lv use_arc n (i + 1) base t))
            (fun_ext same.same_class)
        ∙ ap (upgrade_case (lv_obj_get_child base i s) (λ o. is_upgrade o s)) rest
        ∙ sym (upgrade_from-suc n i base s)

    pub upgrade_obj-same :
        (base : ℕ) {s t : Screen}
        → SameObjects lv s t
        → ui_get_upgrade_obj_by_class lv use_arc base t
          ≡ ui_get_upgrade_obj_by_class lv use_arc base s
    unfolding ui_get_upgrade_obj_by_class
    upgrade_obj-same base {s} {t} same =
        ap (λ n. upgrade_from lv use_arc n 0 base t) (same.same_count base)
        ∙ upgrade_from-same (lv_obj_get_child_cnt base s) 0 base same

  module _ (laws : IsLvgl lv) where
    -- Whatever it returns, `ui_page_show` leaves the objects as they are.
    pub show-objects : (name : String) (s : Screen) → SameObjects lv s (ui_page_show lv name s).1
    unfolding ui_page_show
    show-objects name s = elim (Option-cases (ui_find_page lv name s)) [
      | inl missing ↦ rw (missing, ui_page_show) (SameObjects-refl lv s)
      | inr (p, e) ↦
          let shown = lv_obj_clear_flag p s in
          elim (Bool-cases (lv_obj_is_visible p s)) [
            | inl visible ↦ rw (e, ui_page_show, visible) (SameObjects-refl lv s)
            | inr not_yet ↦
                rw (e, ui_page_show, not_yet)
                  (SameObjects-trans lv (laws.clear-objects p s)
                    (hide_others_lem lv laws (lv_obj_get_child_cnt (lv_scr_act shown) shown) 0 p
                      shown).0)
          ]
    ]
