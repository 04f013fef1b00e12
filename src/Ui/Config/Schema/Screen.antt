-- ===== src/Ui/Config/Schema/Screen.antt =====
-- The pages of ui/ui_config_parse.c: a page, and the loop over the pages.
use text.Mathlib.Text.{◌==◌ as str_eq}
use frameworks_system_ota.Prelude.{
  is_given, ℕ, ◌≡◌, refl, sym, ap, ap₂, ◌∙◌, String, Bool, true, false, Option, none, some, List,
  [], ◌∷◌, ◌++◌, length, arith, ◌==◌, if◌then◌else◌, Bool-cases, inl, inr, All, ==_iff,
  append_assoc, append-nil,
}
use frameworks_system_ota.Prelude.Int.{pos}
use frameworks_system_ota.Ui.Lvgl.{IsLvgl}
use frameworks_system_ota.Ui.Build.{IsBuild, Created}
use frameworks_system_ota.Ui.Refresh.{Ui}
use frameworks_system_ota.Ui.Config.Env.{Env}
use frameworks_system_ota.Ui.Config.Pages.{
  create_page_obj, clean_screen, parse_page, json_ui_page_parse, parse_pages,
}
use frameworks_system_ota.Ui.Config.Tree.{Same-refl, Kept-trans}
use frameworks_system_ota.Ui.Config.Created.{
  old_differs, Created-Kept, Created-KeptBut, Created-hidden,
}
use frameworks_system_ota.Ui.Config.View.{view, view-empty, view-Same, view-Created}
use frameworks_system_ota.Ui.Config.Schema.{
  valid_objects, valid_pages, hidden_pages, IsObject, IsPage,
}
use frameworks_system_ota.Ui.Config.Schema.Contents.{objects_lem}

module _ (env : Env) (laws : IsBuild env.lv env.build) where
  open env use {lv, build, cj}

  module _ (flags : IsLvgl lv) where
    -- The new page, hidden and with its name.
    create_page_lem :
        (name : String) (bgcolor : ℕ) (s : lv.Screen)
        → let page = create_page_obj env bgcolor s in
          let t = build.set_name page.0 name page.1 in
          Created lv build false (lv.lv_scr_act s) page.0 s t
          × (view lv t ≡ view lv s ++ ((some name, true) ∷ []))
    unfolding create_page_obj
    create_page_lem name bgcolor s =
        let obj = build.lv_obj_create (lv.lv_scr_act s) s in
        let o = obj.0 in
        let bare = build.lv_obj_remove_style o obj.1 in
        let coloured = build.lv_obj_set_style_bg_color o bgcolor bare in
        let opaque = build.lv_obj_set_style_bg_opa o coloured in
        let flat = build.lv_obj_set_style_pad_all o (pos 0) opaque in
        let wide = lv.lv_obj_set_size o (build.lv_hor_res flat) (build.lv_ver_res flat) flat in
        let hidden = lv.lv_obj_add_flag o wide in
        let kept = Kept-trans lv build (laws.remove_style-kept o obj.1) (
          Kept-trans lv build (laws.bg_color-kept o bgcolor bare) (
            Kept-trans lv build (laws.bg_opa-kept o coloured) (
              Kept-trans lv build (laws.pad_all-kept o (pos 0) opaque)
                (laws.set_size-kept o _ _ flat)))) in
        let made =
          Created-Kept lv build laws (laws.obj-created (lv.lv_scr_act s) s (laws.screen-valid s))
            kept in
        let named = laws.set_name-kept o name hidden in
        let created =
          Created-KeptBut lv build laws (Created-hidden lv build laws flags made) named in
        (
          created,
          view-Created lv build laws created
              ∙ ap₂ (λ n h. view lv s ++ ((n, h) ∷ [])) (laws.set_name-name o name hidden)
                  (named.same_hidden o ∙ flags.hidden-add o o wide ∙ rw ((==_iff o o).1 refl) refl),
        )

    view-cleaned : (s : lv.Screen) → view lv (build.lv_obj_clean (lv.lv_scr_act s) s) ≡ []
    view-cleaned s = view-empty lv (build.lv_obj_clean (lv.lv_scr_act s) s) (
        ap (λ scr. lv.lv_obj_get_child_cnt scr (build.lv_obj_clean (lv.lv_scr_act s) s))
          (laws.clean-screen s)
        ∙ laws.clean-count s)

    -- What the screen shows after a page: one page more, or none at all.
    abbrev after_page : Bool → String → List (Option String × Bool) → List (Option String × Bool)
    after_page ok name before = if ok then before ++ ((some name, true) ∷ []) else []

    page_lem :
        (name : String) (page : cj.Node) (bgcolor : ℕ) (ui : Ui lv)
        → All (IsObject env) (cj.children page)
        → (found : Option ℕ) × (ui' : Ui lv) × (parse_page env (some name) page bgcolor ui
            ≡ some (found, ui'))
          × (is_given found ≡ valid_objects env (cj.children page))
          × (view lv ui'.screen
              ≡ after_page (valid_objects env (cj.children page)) name (view lv ui.screen))
    unfolding parse_page
    page_lem name page bgcolor ui is =
        let lv_obj = create_page_obj env bgcolor ui.screen in
        let named = build.set_name lv_obj.0 name lv_obj.1 in
        let (created, shown) = create_page_lem name bgcolor ui.screen in
        let differs = old_differs lv build laws created (laws.screen-valid ui.screen) in
        let (i, ui', e, count, same) =
          objects_lem env laws (cj.children page) 0 lv_obj.0 named (record ui { screen = named }) is
            (λ h. differs (sym (h ∙ created.same_screen))) created.now_valid
            (Same-refl lv build named) in
        let counted : (i == length (cj.children page)) ≡ valid_objects env (cj.children page) =
          ap (λ n. i == n) (omega arith) ∙ count in
        elim (Bool-cases (i == length (cj.children page))) [
          | inl all ↦ (
            some lv_obj.0,
            ui',
            rw (e, all) refl,
            sym all ∙ counted,
            rw (sym (sym all ∙ counted)) (view-Same lv build laws same ∙ shown),
          )
          | inr some_failed ↦ (
            none,
            clean_screen env ui',
            rw (e, some_failed) refl,
            sym some_failed ∙ counted,
            rw (sym (sym some_failed ∙ counted)) (view-cleaned ui'.screen),
          )
        ]

    given-some : (found : Option ℕ) → is_given found ≡ true → (o : ℕ) × (found ≡ some o)
    given-some none h = cc h
    given-some (some o) h = (o, refl)

    given-none : (found : Option ℕ) → is_given found ≡ false → found ≡ none
    given-none none h = refl
    given-none (some o) h = cc h

    add_page :
        {v : List (Option String × Bool)} (before : List (Option String × Bool)) (name : String)
        (ok : Bool) (others : List (Option String × Bool))
        → v ≡ before ++ ((some name, true) ∷ [])
        → (if ok then v ++ others else [])
          ≡ (if ok then before ++ ((some name, true) ∷ others) else [])
    add_page before name ok others h =
        ap (λ xs. if ok then xs ++ others else []) h
        ∙ ap (λ xs. if ok then xs else []) (append_assoc before ((some name, true) ∷ []) others)

    -- The loop over the pages: it adds all pages, or it ends with none.
    pub pages_lem :
        (pages : List cj.Node) (bg_color : ℕ) (ui : Ui lv)
        → All (IsPage env) pages
        → (ui' : Ui lv) × (parse_pages env pages bg_color ui ≡ some ui')
          × (view lv ui'.screen
              ≡ (if valid_pages env pages then view lv ui.screen ++ hidden_pages env pages else []))
    unfolding parse_pages json_ui_page_parse
    pages_lem [] bg_color ui is = (ui, refl, sym (append-nil (view lv ui.screen)))
    pages_lem (page ∷ pages) bg_color ui (here, is) =
        let (name, named) = here.named in
        elim (Bool-cases (str_eq name "bg_color")) [
          | inl colour ↦
              let (ui', e, shown) = pages_lem pages bg_color ui is in
              (ui', rw (named, colour) e, rw (named, colour) shown)
          | inr not_colour ↦
              let (found, ui', e, given, shown) = page_lem name page bg_color ui here.objects in
              elim (Bool-cases (valid_objects env (cj.children page))) [
                | inl valid ↦
                    let (o, f) = given-some found (given ∙ valid) in
                    let (ui'', e', shown') = pages_lem pages bg_color ui' is in
                    (
                      ui'',
                      rw (named, not_colour, e, f) e',
                      rw (named, not_colour, valid)
                          (shown'
                            ∙ add_page (view lv ui.screen) name (valid_pages env pages)
                                (hidden_pages env pages) (shown ∙ rw valid refl)),
                    )
                | inr invalid ↦
                    let f = given-none found (given ∙ invalid) in
                    (
                      ui',
                      rw (named, not_colour, e, f) refl,
                      rw (named, not_colour, invalid) (shown ∙ rw invalid refl),
                    )
              ]
        ]
