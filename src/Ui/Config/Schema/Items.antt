-- ===== src/Ui/Config/Schema/Items.antt =====
-- The progress widget of a page in ui/ui_config_parse.c.
use frameworks_system_ota.Prelude.{
  ℕ, suc, subst, ◌≡◌, ◌≢◌, refl, sym, ap, ◌∙◌, String, Bool, true, ◌&&◌, Option, some, List, [],
  ◌∷◌, map, length, ◌==◌, if◌then◌else◌, Bool-cases, inl, inr, All, ==_iff,
}
use frameworks_system_ota.Widget.Data.{Upgrade, lv_upgrade_constructor}
use frameworks_system_ota.Widget.Images.Bounds.{constructor-IsSized}
use frameworks_system_ota.Ui.Code.{Code, file_parse_error, is_success}
use frameworks_system_ota.Ui.Build.{IsBuild, Created}
use frameworks_system_ota.Ui.Config.{ProgressItems}
use frameworks_system_ota.Ui.Config.Cjson.{text_of, children_of}
use frameworks_system_ota.Ui.Refresh.{Ui, put_widget}
use frameworks_system_ota.Ui.Config.Env.{Env}
use frameworks_system_ota.Ui.Config.Listed.{HasKey}
use frameworks_system_ota.Ui.Config.Images.{accepts, parse_progress_total}
use frameworks_system_ota.Ui.Config.Objects.{json_ui_obj_parse}
use frameworks_system_ota.Ui.Config.Widgets.{
  mode_of, is_custom, list_element, progress_items, make_arc, parse_items, json_progress_parse,
}
use frameworks_system_ota.Ui.Config.Tree.{
  Same, IsNew, Same-Kept, IsNew-Kept, Same-Created, new_differs,
}
use frameworks_system_ota.Ui.Config.Schema.{has_area, valid_progress, HasName}
use frameworks_system_ota.Ui.Config.Schema.Objects.{obj_parse-Kept, obj_parse-success}

-- A result that is a success exactly where the configuration is valid, and that leaves the pages of
-- `s` alone.
pub record Outcome (env : Env) (valid : Bool) (s : env.lv.Screen)
    (result : Option (Code × Ui env.lv)) : Type 0 where
  pub code : Code
  pub ui : Ui env.lv
  pub eq : result ≡ some (code, ui)
  pub accepted : is_success code ≡ valid
  pub same : Same env.lv env.build s ui.screen

module _ (env : Env) (laws : IsBuild env.lv env.build) where
  open env use {lv, build, cj, os, use_arc}

  -- The object that holds the widget or the image.
  pub base_lem :
      (page : ℕ) (s t : lv.Screen)
      → page ≢ lv.lv_scr_act s
      → build.lv_obj_is_valid page s ≡ true
      → Same lv build s t
      → let base = build.lv_obj_create page t in
        Same lv build s (build.lv_obj_remove_style base.0 base.1)
        × IsNew lv build s (build.lv_obj_remove_style base.0 base.1) base.0
  base_lem page s t other valid same =
      let base = build.lv_obj_create page t in
      let (same', new) =
        Same-Created lv build laws same other
          (laws.obj-created page t (same.stays.still_valid page valid)) in
      let kept = laws.remove_style-kept base.0 base.1 in
      (Same-Kept lv build same' kept, IsNew-Kept lv build new kept)

  -- An object inside an object that is new.
  pub inside :
      {upgrade : Bool} {parent o : ℕ} {s t u : lv.Screen}
      → Same lv build s t
      → IsNew lv build s t parent
      → Created lv build upgrade parent o t u
      → Same lv build s u × IsNew lv build s u o
  inside {s = s} same new c =
      Same-Created lv build laws same (λ e. new_differs lv build new (laws.screen-valid s) (sym e))
        c

  make_arc_lem :
      (mode : Option String) (o : ℕ) (s t : lv.Screen)
      → Same lv build s t
      → IsNew lv build s t o
      → Same lv build s (make_arc env mode o t).1
  unfolding make_arc
  make_arc_lem mode o s t same new = elim (Bool-cases (use_arc && is_custom (mode_of mode))) [
    | inl custom ↦
        rw (custom, make_arc)
          (Same-Kept lv build (inside same new (laws.arc-created o t new.now)).0
            (laws.style_arc-kept _ _))
    | inr plain ↦ rw (plain, make_arc) same
  ]

  parse_items_lem :
      (items : ProgressItems) (o : ℕ) (s : lv.Screen) (ui : Ui lv)
      → All HasKey items.img_src_list
      → ui.widgets o ≡ lv_upgrade_constructor
      → Same lv build s ui.screen
      → IsNew lv build s ui.screen o
      → Outcome env (accepts items.mode (length items.img_src_list)) s (parse_items env items o ui)
  unfolding parse_items put_widget
  parse_items_lem items o s ui ks fresh same new =
      let made = make_arc env items.mode o ui.screen in
      let (code, u, e, sized, accepted) =
        parse_progress_total use_arc made.0 items lv_upgrade_constructor ks constructor-IsSized in
      record {
        code = code;
        ui = put_widget lv use_arc o u (record ui { screen = made.1 });
        eq = rw (fresh, e) refl;
        accepted = accepted;
        same = make_arc_lem items.mode o s ui.screen same new;
      }

  keyed_elements :
      (nodes : List cj.Node) → All (HasName env) nodes → All HasKey (map (list_element env) nodes)
  keyed_elements [] h = tt
  keyed_elements (node ∷ nodes) ((name, e), h) =
      ((env.strtol name, rw e refl), keyed_elements nodes h)

  length_elements : (nodes : List cj.Node) → length (map (list_element env) nodes) ≡ length nodes
  length_elements [] = refl
  length_elements (node ∷ nodes) = ap suc (length_elements nodes)

  put-same : (o : ℕ) (u : Upgrade) (widgets : ℕ → Upgrade) → (if o == o then u else widgets o) ≡ u
  put-same o u widgets = rw ((==_iff o o).1 refl) refl

  -- With the items of the object.
  parse_listed :
      (object : cj.Node) (o : ℕ) (s : lv.Screen) (ui : Ui lv)
      → All (HasName env) (children_of cj (cj.get_object_item object "img_src_list"))
      → ui.widgets o ≡ lv_upgrade_constructor
      → Same lv build s ui.screen
      → IsNew lv build s ui.screen o
      → Outcome env
          (accepts
            (text_of cj (cj.get_object_item object "mode"))
            (length (children_of cj (cj.get_object_item object "img_src_list"))))
          s
          (parse_items env (progress_items env object) o ui)
  unfolding progress_items
  parse_listed object o s ui names fresh same new =
      let nodes = children_of cj (cj.get_object_item object "img_src_list") in
      subst
        (λ n.
          Outcome env (accepts (text_of cj (cj.get_object_item object "mode")) n) s
            (parse_items env (progress_items env object) o ui))
        (length_elements nodes)
        (parse_items_lem (progress_items env object) o s ui (keyed_elements nodes names) fresh same
          new)

  pub progress_lem :
      (object : cj.Node) (page : ℕ) (s : lv.Screen) (ui : Ui lv)
      → All (HasName env) (children_of cj (cj.get_object_item object "img_src_list"))
      → page ≢ lv.lv_scr_act s
      → build.lv_obj_is_valid page s ≡ true
      → Same lv build s ui.screen
      → Outcome env (valid_progress env object) s (json_progress_parse env object page ui)
  unfolding json_progress_parse progress_items put_widget
  progress_lem object page s ui names other valid same =
      let base = build.lv_obj_create page ui.screen in
      let bare = build.lv_obj_remove_style base.0 base.1 in
      let upgrade = build.create_upgrade base.0 bare in
      let placed = json_ui_obj_parse env object upgrade.0 upgrade.1 in
      let (same1, new1) = base_lem page s ui.screen other valid same in
      let (same2, new2) = inside same1 new1 (laws.upgrade-created base.0 bare new1.now) in
      let kept = obj_parse-Kept env laws object upgrade.0 upgrade.1 in
      let same3 = Same-Kept lv build same2 kept in
      let ui' =
        put_widget lv use_arc upgrade.0 lv_upgrade_constructor (record ui { screen = placed.1 }) in
      let area : is_success placed.0 ≡ has_area env object =
        obj_parse-success env object upgrade.0 upgrade.1 in
      elim (Bool-cases (is_success placed.0)) [
        | inl ok ↦
            rw (ok, sym (sym ok ∙ area))
              (parse_listed object upgrade.0 s ui' names (put-same upgrade.0 _ ui.widgets) same3
                (IsNew-Kept lv build new2 kept))
        | inr failed ↦ record {
          code = file_parse_error;
          ui = ui';
          eq = rw failed refl;
          accepted = rw (sym (sym failed ∙ area)) refl;
          same = same3;
        }
      ]
