-- ===== src/Ota/Main/Ready.antt =====
-- The user interface that the loop of ui/ui_ota.c needs, and that its rounds keep.
use frameworks_system_ota.Prelude.{
  ℕ, ◌<◌, ◌≡◌, refl, ap, ◌∙◌, sym, subst, Bool, true, ◌&&◌, some, arith, inl, inr, Bool-cases,
  Option-cases, String,
}
use frameworks_system_ota.Prelude.Int.{ℤ, pos, leb_ℤ}
use frameworks_system_ota.Ui.Code.{success}
use frameworks_system_ota.Ui.Lvgl.{Lvgl, IsLvgl, SameObjects}
use frameworks_system_ota.Ui.Display.{ui_find_page, ui_page_show, ui_page_exist}
use frameworks_system_ota.Ui.Refresh.{Ui, ui_get_upgrade_obj_by_class, ui_timer_handler}
use frameworks_system_ota.Ui.Refresh.Shown.{
  IsDrawable, with_shown-IsDrawable, Refreshed, set_progress_shows,
}
use frameworks_system_ota.Ui.Refresh.Stable.{find_page-same, upgrade_obj-same, show-objects}
use frameworks_system_ota.Widget.Value.Sync.{IsSynced}
use frameworks_system_ota.Widget.Closest.{uint32_of}
use frameworks_system_ota.Ota.Progress.{ota_calc_progress}
use frameworks_system_ota.Ota.Property.{Properties}
use frameworks_system_ota.Ota.Main.{Loop, show, show_success, show_upgrading}

module _ (lv : Lvgl) (use_arc : Bool) where
  -- The upgrading page and its widget `obj` exist; the widget is drawable and in sync.
  pub record IsReady (page base obj : ℕ) (key : ℕ → ℤ) (ui : Ui lv) : Type 0 where
    pub found : ui_find_page lv "upgrading_page" ui.screen ≡ some page
    pub first : lv.lv_obj_get_child page 0 ui.screen ≡ some base
    pub widget : ui_get_upgrade_obj_by_class lv use_arc base ui.screen ≡ some obj
    pub synced : IsSynced (ui.widgets obj).shown
    pub drawable : IsDrawable (ui.widgets obj) key

  module _ (laws : IsLvgl lv) (page base obj : ℕ) (key : ℕ → ℤ) where
    abbrev Ready : Ui lv → Type 0
    Ready = IsReady page base obj key

    screen-IsReady :
        (ui : Ui lv) (s : lv.Screen)
        → SameObjects lv ui.screen s
        → Ready ui
        → Ready (record ui { screen = s })
    screen-IsReady ui s same r = record {
      found = find_page-same lv "upgrading_page" same ∙ r.found;
      first = same.same_child page 0 ∙ r.first;
      widget = upgrade_obj-same lv use_arc base same ∙ r.widget;
      synced = r.synced;
      drawable = r.drawable;
    }

    Refreshed-IsReady :
        (value : ℕ) (ui ui' : Ui lv) → Refreshed lv obj value ui ui' → Ready ui → Ready ui'
    Refreshed-IsReady value ui ui' f r =
        let same = f.pages.objects in
        record {
          found = find_page-same lv "upgrading_page" same ∙ r.found;
          first = same.same_child page 0 ∙ r.first;
          widget = upgrade_obj-same lv use_arc base same ∙ r.widget;
          synced = f.synced;
          drawable =
              subst (λ w. IsDrawable w key) (sym f.same_widget)
                (with_shown-IsDrawable (ui.widgets obj) key (ui'.widgets obj).shown r.drawable);
        }

    show-exist :
        (name : String) (s : lv.Screen)
        → ui_page_exist lv (some name) s ≡ true
        → (ui_page_show lv name s).0 ≡ success
    unfolding ui_page_exist ui_page_show
    show-exist name s h = elim (Option-cases (ui_find_page lv name s)) [
      | inl missing ↦ cc (rw (missing, ui_page_exist) at h)
      | inr (p, e) ↦ elim (Bool-cases (lv.lv_obj_is_visible p s)) [
        | inl visible ↦ rw (e, ui_page_show, visible)
        | inr not_yet ↦ rw (e, ui_page_show, not_yet)
      ]
    ]

    pub timer-IsReady : (ui : Ui lv) → Ready ui → Ready (ui_timer_handler lv use_arc ui).1
    unfolding ui_timer_handler
    timer-IsReady ui r = screen-IsReady ui _ (laws.timer-pages ui.screen).objects r

    show-IsReady :
        (name : String) (ui : Ui lv)
        → Ready ui
        → Ready (record ui { screen = (ui_page_show lv name ui.screen).1 })
    show-IsReady name ui r = screen-IsReady ui _ (show-objects lv laws name ui.screen) r

    module _ (props : Properties) (sync_time : ℕ) where
      -- The success page changes neither the result nor what the loop needs.
      success_lem :
          (l : Loop lv)
          → Ready l.ui
          → ((show_success props lv use_arc sync_time success l).0 ≡ success)
            × Ready (show_success props lv use_arc sync_time success l).1.ui
      unfolding show_success
      success_lem l r =
          elim (Bool-cases (
            ui_page_exist lv (some "upgrade_success_page") l.ui.screen
            && leb_ℤ (pos 100) l.calc.progress.current)) [
              | inl both ↦ rw both (
                show-exist "upgrade_success_page" l.ui.screen (ground arith),
                timer-IsReady _ (show-IsReady "upgrade_success_page" l.ui r),
              )
              | inr not_yet ↦ rw not_yet (refl, r)
            ]

      -- While the number is below 128, showing the upgrade succeeds, and moves the number by
      -- `ota_calc_progress`.
      pub upgrading_lem :
          (l : Loop lv) (value : ℕ)
          → Ready l.ui
          → (ota_calc_progress l.calc).progress.current ≡ pos value
          → value < 128
          → (l' : Loop lv) × (show_upgrading props lv use_arc sync_time l ≡ some (success, l'))
            × (l'.calc ≡ ota_calc_progress l.calc)
            × (l'.count_tick_ms ≡ l.count_tick_ms)
            × Ready l'.ui
      unfolding show_upgrading
      upgrading_lem l value r e small =
          let calc = ota_calc_progress l.calc in
          let ui = (show props lv use_arc sync_time "upgrading_page" l.ui).1 in
          let r1 = show-IsReady "upgrading_page" l.ui r in
          let (ui', set, f) =
            set_progress_shows lv laws use_arc "upgrading_page" (uint32_of calc.progress.current)
              page base obj key ui r1.found r1.first r1.widget
              (unfold uint32_of in rw e (ground arith)) r1.synced r1.drawable in
          let r2 = Refreshed-IsReady (uint32_of calc.progress.current) ui ui' f r1 in
          let l2 : Loop lv = record l { calc = calc; ui = ui' } in
          let (ok, r3) = success_lem l2 r2 in
          (
            (show_success props lv use_arc sync_time success l2).1,
            rw set (ap (λ c. some (c, (show_success props lv use_arc sync_time success l2).1)) ok),
            unfold show_success in ground arith,
            unfold show_success in ground arith,
            r3,
          )
