-- ===== src/Ui/Config/Schema/Contents.antt =====
-- The objects of a page in ui/ui_config_parse.c: one by its name, and the loop over them.
use text.Mathlib.Text.{starts_with}
use frameworks_system_ota.Prelude.{
  ℕ, suc, ◌+◌, ◌≡◌, ◌≢◌, refl, sym, ap, ◌∙◌, String, Bool, true, false, Option, some, List, [], ◌∷◌,
  length, arith, ◌==◌, if◌then◌else◌, Bool-cases, inl, inr, All, ◌>>=◌,
}
use frameworks_system_ota.Ui.Code.{
  Code, success, file_parse_error, file_content_invalid, is_success,
}
use frameworks_system_ota.Ui.Build.{IsBuild}
use frameworks_system_ota.Ui.Refresh.{Ui}
use frameworks_system_ota.Ui.Config.Env.{Env}
use frameworks_system_ota.Ui.Config.Pages.{parse_keyed, json_ui_page_cont_parse, parse_objects}
use frameworks_system_ota.Ui.Config.Tree.{Same}
use frameworks_system_ota.Ui.Config.Schema.{valid_keyed, valid_object, valid_objects, IsObject}
use frameworks_system_ota.Ui.Config.Schema.Items.{Outcome, progress_lem}
use frameworks_system_ota.Ui.Config.Schema.Labels.{label_lem}

module _ (env : Env) (laws : IsBuild env.lv env.build) where
  open env use {lv, build, cj}

  abbrev pub or_error : Code × Ui lv → Option (Code × Ui lv)
  or_error (ret, ui) = some (if is_success ret then success else file_parse_error, ui)

  pub if_success : (ok : Bool) → is_success (if ok then success else file_parse_error) ≡ ok
  if_success true = refl
  if_success false = refl

  -- Every error of an object is reported as UI_FILE_PARSE_ERROR.
  or_error_lem :
      {valid : Bool} {s : lv.Screen} {result : Option (Code × Ui lv)}
      → Outcome env valid s result
      → Outcome env valid s (result >>= or_error)
  or_error_lem {valid} o =
      let e = o.eq in
      record {
        code = if is_success o.code then success else file_parse_error;
        ui = o.ui;
        eq = rw e refl;
        accepted = if_success (is_success o.code) ∙ o.accepted;
        same = o.same;
      }

  pub unknown :
      {s : lv.Screen} (ui : Ui lv)
      → Same lv build s ui.screen
      → Outcome env false s (some (file_content_invalid, ui))
  unknown ui same = record {
    code = file_content_invalid;
    ui = ui;
    eq = refl;
    accepted = refl;
    same = same;
  }

  keyed_lem :
      (name : String) (object : cj.Node) (page : ℕ) (s : lv.Screen) (ui : Ui lv)
      → IsObject env object
      → page ≢ lv.lv_scr_act s
      → build.lv_obj_is_valid page s ≡ true
      → Same lv build s ui.screen
      → Outcome env
          (valid_keyed env (some name) object)
          s
          (parse_keyed env (some name) object page ui)
  unfolding parse_keyed
  keyed_lem name object page s ui is other valid same =
      elim (Bool-cases (starts_with name "progress")) [
        | inl progress ↦
            rw progress
              (or_error_lem (progress_lem env laws object page s ui is.listed other valid same))
        | inr no_progress ↦ elim (Bool-cases (starts_with name "label")) [
          | inl label ↦
              rw (no_progress, label)
                (or_error_lem (label_lem env laws object page s ui is.image other valid same))
          | inr no_label ↦ rw (no_progress, no_label) (unknown ui same)
        ]
      ]

  object_lem :
      (object : cj.Node) (page : ℕ) (s : lv.Screen) (ui : Ui lv)
      → IsObject env object
      → page ≢ lv.lv_scr_act s
      → build.lv_obj_is_valid page s ≡ true
      → Same lv build s ui.screen
      → Outcome env (valid_object env object) s (json_ui_page_cont_parse env object page ui)
  unfolding json_ui_page_cont_parse
  object_lem object page s ui is other valid same = elim (Bool-cases (cj.is_object object)) [
    | inl yes_object ↦
        let (name, named) = is.named in
        rw (yes_object, named) (keyed_lem name object page s ui is other valid same)
    | inr no_object ↦ rw no_object (unknown ui same)
  ]

  -- All objects are counted exactly where all are valid.
  pub objects_lem :
      (objects : List cj.Node) (i page : ℕ) (s : lv.Screen) (ui : Ui lv)
      → All (IsObject env) objects
      → page ≢ lv.lv_scr_act s
      → build.lv_obj_is_valid page s ≡ true
      → Same lv build s ui.screen
      → (j : ℕ) × (ui' : Ui lv) × (parse_objects env objects i page ui ≡ some (j, ui'))
        × ((j == i + length objects) ≡ valid_objects env objects)
        × Same lv build s ui'.screen
  unfolding parse_objects
  objects_lem [] i page s ui is other valid same = (i, ui, refl, ground arith, same)
  objects_lem (object ∷ objects) i page s ui (here, is) other valid same =
      let o = object_lem object page s ui here other valid same in
      let e = o.eq in
      elim (Bool-cases (is_success o.code)) [
        | inl ok ↦
            let (j, ui', e', count, same') =
              objects_lem objects (i + 1) page s o.ui is other valid o.same in
            (
              j,
              ui',
              rw (e, ok) e',
              rw (sym (sym ok ∙ o.accepted))
                  (ap (λ n. j == n) (suc_right i (length objects)) ∙ count),
              same',
            )
        | inr failed ↦ (
          i,
          o.ui,
          rw (e, failed) refl,
          rw (sym (sym failed ∙ o.accepted)) (short i (length objects)),
          o.same,
        )
      ]
    where
      suc_right : (i n : ℕ) → i + suc n ≡ i + 1 + n
      suc_right i n = omega arith

      short : (i n : ℕ) → (i == i + suc n) ≡ false
      short i n = ground arith
