-- ===== src/Ui/Config/Schema/Labels.antt =====
-- The label of a page in ui/ui_config_parse.c.
use frameworks_system_ota.Prelude.{
  is_given, ℕ, ◌≡◌, ◌≢◌, refl, sym, ◌∙◌, String, true, Option, none, some, List, Bool-cases, inl,
  inr,
}
use frameworks_system_ota.Prelude.Int.{negsuc}
use frameworks_system_ota.Ui.Code.{Code, file_parse_error, is_success}
use frameworks_system_ota.Ui.Build.{IsBuild}
use frameworks_system_ota.Ui.Refresh.{Ui}
use frameworks_system_ota.Ui.Config.Env.{Env}
use frameworks_system_ota.Ui.Config.Objects.{json_ui_obj_parse, set_image, json_ui_image_set}
use frameworks_system_ota.Ui.Config.Widgets.{
  or_parse_error, label_image, json_label_parse, parse_label,
}
use frameworks_system_ota.Ui.Config.Tree.{
  Same, IsNew, Same-Kept, Same-KeptBut, IsNew-Kept, Kept-trans,
}
use frameworks_system_ota.Ui.Config.Schema.{has_area, is_readable, image_path, valid_label, IsImage}
use frameworks_system_ota.Ui.Config.Schema.Objects.{
  obj_parse-Kept, obj_parse-success, image_file_lem,
}
use frameworks_system_ota.Ui.Config.Schema.Items.{Outcome, base_lem, inside}

module _ (env : Env) (laws : IsBuild env.lv env.build) where
  open env use {lv, build, cj, os, use_arc}

  set_image_lem :
      (found : Option (List ℕ)) (o : ℕ) (s t : lv.Screen)
      → Same lv build s t
      → IsNew lv build s t o
      → (is_success (or_parse_error env (set_image env found o t)).0 ≡ is_given found)
        × Same lv build s (or_parse_error env (set_image env found o t)).1
  set_image_lem none o s t same new = (refl, same)
  set_image_lem (some bytes) o s t same new =
      let sourced = laws.set_src-kept o bytes t in
      let moved = laws.offset_y-kept o (negsuc 0) (build.lv_image_set_src o bytes t) in
      (
        refl,
        Same-KeptBut lv build (Same-Kept lv build (Same-Kept lv build same sourced) moved)
            (IsNew-Kept lv build (IsNew-Kept lv build new sourced) moved)
            (laws.set_bytes-kept o bytes _),
      )

  -- From the path of a label's image on.
  label_image_lem :
      (path : Option String) (o : ℕ) (s t : lv.Screen)
      → ((p : String) → path ≡ some p → IsImage env p)
      → Same lv build s t
      → IsNew lv build s t o
      → (code : Code) × (u : lv.Screen) × (label_image env path o t ≡ some (code, u))
        × (is_success code ≡ is_readable env path)
        × Same lv build s u
  unfolding label_image json_ui_image_set
  label_image_lem none o s t image same new = (file_parse_error, t, refl, refl, same)
  label_image_lem (some path) o s t image same new =
      let (found, e, given) = image_file_lem env path (image path refl) in
      let (accepted, same') = set_image_lem found o s t same new in
      let set = or_parse_error env (set_image env found o t) in
      (set.0, set.1, rw e refl, accepted ∙ given, same')

  pub label_lem :
      (object : cj.Node) (page : ℕ) (s : lv.Screen) (ui : Ui lv)
      → ((path : String) → image_path env object ≡ some path → IsImage env path)
      → page ≢ lv.lv_scr_act s
      → build.lv_obj_is_valid page s ≡ true
      → Same lv build s ui.screen
      → Outcome env (valid_label env object) s (parse_label env object page ui)
  unfolding json_label_parse
  label_lem object page s ui image other valid same =
      let base = build.lv_obj_create page ui.screen in
      let bare = build.lv_obj_remove_style base.0 base.1 in
      let img = build.lv_img_create base.0 bare in
      let watched = build.lv_obj_add_event img.0 img.1 in
      let placed = json_ui_obj_parse env object img.0 watched in
      let (same1, new1) = base_lem env laws page s ui.screen other valid same in
      let (same2, new2) = inside env laws same1 new1 (laws.img-created base.0 bare new1.now) in
      let kept =
        Kept-trans lv build (laws.add_event-kept img.0 img.1)
          (obj_parse-Kept env laws object img.0 watched) in
      let same3 = Same-Kept lv build same2 kept in
      let area : is_success placed.0 ≡ has_area env object =
        obj_parse-success env object img.0 watched in
      elim (Bool-cases (is_success placed.0)) [
        | inl ok ↦
            let (code, t, e, accepted, same4) =
              label_image_lem (image_path env object) img.0 s placed.1 image same3
                (IsNew-Kept lv build new2 kept) in
            record {
              code = code;
              ui = record ui { screen = t };
              eq = rw (ok, e) refl;
              accepted = rw (sym (sym ok ∙ area)) accepted;
              same = same4;
            }
        | inr failed ↦ record {
          code = file_parse_error;
          ui = record ui { screen = placed.1 };
          eq = rw failed refl;
          accepted = rw (sym (sym failed ∙ area)) refl;
          same = same3;
        }
      ]
