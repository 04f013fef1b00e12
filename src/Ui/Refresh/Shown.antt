-- ===== src/Ui/Refresh/Shown.antt =====
-- `ui_set_progress` of ui/ui_display.c and what its widget shows afterwards.
use mathlib.Core.Logic.{◌≢◌}
use frameworks_system_ota.Prelude.{
  ℕ, ◌≤◌, ◌<◌, ◌≡◌, refl, ap, ◌∙◌, sym, String, Bool, true, false, Option, none, some, arith, inl,
  inr, ◌⊎◌, Bool-cases,
}
use frameworks_system_ota.Prelude.Int.{ℤ, pos}
use frameworks_system_ota.Ui.Code.{success}
use frameworks_system_ota.Ui.Lvgl.{Lvgl, IsLvgl, SamePages}
use frameworks_system_ota.Ui.Display.{ui_find_page}
use frameworks_system_ota.Ui.Display.Exclusive.{SameObjects-refl, SameObjects-trans}
use frameworks_system_ota.Ui.Refresh.{
  Ui, put_widget, resize_arc, redraw, lay_out, lv_upgrade_set_progress, ui_get_upgrade_obj_by_class,
  refresh_base, ui_refresh_page_progress, ui_set_progress,
}
use frameworks_system_ota.Widget.Value.{Shown, set_value, lv_upgrade_get_value}
use frameworks_system_ota.Widget.Value.Sync.{IsSynced, set-get}
use frameworks_system_ota.Widget.Data.{Upgrade, UpgradeType, bar, custom_anim}
use frameworks_system_ota.Widget.Images.Bounds.{IsSized}
use frameworks_system_ota.Widget.Closest.Best.{HasKeys}
use frameworks_system_ota.Widget.Layout.{Area}
use frameworks_system_ota.Widget.Layout.Faults.{size_of_type_total}

-- The array is as long as the widget says, and a bar has 2 to 255 images; `key i` is the key of
-- image `i`.
pub record IsDrawable (w : Upgrade) (key : ℕ → ℤ) : Type 0 where
  pub sized : IsSized w
  pub bar_images :
      w.type ≡ bar → HasKeys w key × (2 ≤ w.image_array_size) × (w.image_array_size < 256)

pub with_shown-IsDrawable :
    (w : Upgrade) (key : ℕ → ℤ) (shown : Shown)
    → IsDrawable w key
    → IsDrawable (record w { shown = shown }) key
with_shown-IsDrawable w key shown d = record {
  sized = d.sized;
  bar_images = λ is_bar.
      let (keys, two, small) = d.bar_images is_bar in
      (record { some_image = keys.some_image; at = keys.at }, two, small);
}

-- Either the value is shown already and nothing is done, or it is stored.
set_value-cases :
    (value : ℕ) (s : Shown) → (set_value value s ≡ (false, s)) ⊎ ((set_value value s).0 ≡ true)
unfolding set_value
set_value-cases value s = ground arith

module _ (lv : Lvgl) where
  -- From `ui` to `ui'` the widget `obj` got the value, and nothing else changed but sizes.
  pub record Refreshed (obj value : ℕ) (ui ui' : Ui lv) : Type 0 where
    pub value_shown : lv_upgrade_get_value (ui'.widgets obj).shown ≡ value
    pub synced : IsSynced (ui'.widgets obj).shown
    pub same_widget : ui'.widgets obj ≡ record (ui.widgets obj) { shown = (ui'.widgets obj).shown }
    pub other_widgets : (o : ℕ) → o ≢ obj → ui'.widgets o ≡ ui.widgets o
    pub pages : SamePages lv ui.screen ui'.screen

module _ (lv : Lvgl) (laws : IsLvgl lv) (use_arc : Bool) where
  SamePages-refl : (s : lv.Screen) → SamePages lv s s
  SamePages-refl s = record { objects = SameObjects-refl lv s; same_hidden = λ o. refl }

  SamePages-trans : {s t u : lv.Screen} → SamePages lv s t → SamePages lv t u → SamePages lv s u
  SamePages-trans a b = record {
    objects = SameObjects-trans lv a.objects b.objects;
    same_hidden = λ o. b.same_hidden o ∙ a.same_hidden o;
  }

  resize_arc-SamePages :
      (type : UpgradeType) (arc : Option ℕ) (area : Area) (s : lv.Screen)
      → SamePages lv s (resize_arc lv use_arc type arc area s)
  unfolding resize_arc
  resize_arc-SamePages custom_anim (some arc) area s = elim (Bool-cases use_arc) [
    | inl with_arc ↦ rw with_arc (laws.set_size-pages arc (pos area.x2) (pos area.y2) s)
    | inr without ↦ rw without (SamePages-refl s)
  ]
  resize_arc-SamePages custom_anim none area s = SamePages-refl s
  resize_arc-SamePages _ _ area s = SamePages-refl s

  redraw-SamePages :
      (obj : ℕ) (area : Area) (s : lv.Screen) → SamePages lv s (redraw lv use_arc obj area s)
  unfolding redraw
  redraw-SamePages obj area s =
      SamePages-trans (laws.set_size-pages obj (pos area.x2) (pos area.y2) s)
        (SamePages-trans (laws.invalidate-pages obj _) (laws.refr-pages _))

  lay_out_lem :
      (obj value : ℕ) (w : Upgrade) (key : ℕ → ℤ) (ui : Ui lv)
      → IsDrawable w key
      → lv_upgrade_get_value w.shown ≡ value
      → IsSynced w.shown
      → w ≡ record (ui.widgets obj) { shown = w.shown }
      → (ui' : Ui lv) × (lay_out lv use_arc obj value w ui ≡ some ui')
        × Refreshed lv obj value ui ui'
  unfolding lay_out put_widget
  lay_out_lem obj value w key ui d shown sync same =
      let (area, e) = size_of_type_total use_arc w.type value w key d.sized d.bar_images in
      let placed = put_widget lv use_arc obj w ui in
      let arc_set = resize_arc lv use_arc w.type w.arc area ui.screen in
      let self : (put_widget lv use_arc obj w ui).widgets obj ≡ w = ground arith in
      (
        record placed { screen = redraw lv use_arc obj area arc_set },
        rw e,
        record {
          value_shown = rw self shown;
          synced = rw self sync;
          same_widget = rw self same;
          other_widgets = λ o other. ground arith;
          pages =
              SamePages-trans (resize_arc-SamePages w.type w.arc area ui.screen)
                (redraw-SamePages obj area arc_set);
        },
      )

  set_progress_lem :
      (obj value : ℕ) (key : ℕ → ℤ) (ui : Ui lv)
      → value < 128
      → IsSynced (ui.widgets obj).shown
      → IsDrawable (ui.widgets obj) key
      → (ui' : Ui lv) × (lv_upgrade_set_progress lv use_arc obj value ui ≡ some ui')
        × Refreshed lv obj value ui ui'
  unfolding lv_upgrade_set_progress
  set_progress_lem obj value key ui small sync d =
      let w = ui.widgets obj in
      let (read, sync') = set-get value w.shown small sync in
      elim (set_value-cases value w.shown) [
        | inl same ↦ (
          ui,
          rw (same, lv_upgrade_set_progress),
          record {
            value_shown = ap (λ (r : Bool × Shown). lv_upgrade_get_value r.1) (sym same) ∙ read;
            synced = sync;
            same_widget = refl;
            other_widgets = λ o other. refl;
            pages = SamePages-refl ui.screen;
          },
        )
        | inr fresh ↦
            let (ui', e, refreshed) =
              lay_out_lem obj value (record w { shown = (set_value value w.shown).1 }) key ui
                (with_shown-IsDrawable w key (set_value value w.shown).1 d) read sync' refl in
            (ui', rw (fresh, lv_upgrade_set_progress) e, refreshed)
      ]

  -- Where the page, its first child and the widget below it exist, the widget is drawable and in
  -- sync, and the value is below 128: `ui_set_progress` succeeds, reads nothing out of bounds, and
  -- afterwards the widget shows the value and is in sync; no other widget, no page and no flag
  -- changes.
  pub set_progress_shows :
      (page_name : String) (value page base obj : ℕ) (key : ℕ → ℤ) (ui : Ui lv)
      → ui_find_page lv page_name ui.screen ≡ some page
      → lv.lv_obj_get_child page 0 ui.screen ≡ some base
      → ui_get_upgrade_obj_by_class lv use_arc base ui.screen ≡ some obj
      → value < 128
      → IsSynced (ui.widgets obj).shown
      → IsDrawable (ui.widgets obj) key
      → (ui' : Ui lv) × (ui_set_progress lv use_arc (some page_name) value ui ≡ some (success, ui'))
        × Refreshed lv obj value ui ui'
  unfolding ui_set_progress ui_refresh_page_progress refresh_base
  set_progress_shows page_name value page base obj key ui found first upgrade small sync d =
      let (ui', e, refreshed) = set_progress_lem obj value key ui small sync d in
      (
        ui',
        rw (found, ui_set_progress, first, ui_refresh_page_progress, upgrade, refresh_base, e),
        refreshed,
      )
