-- ===== src/Ui/Config/Schema/Objects.antt =====
-- One object of a page in ui/ui_config_parse.c: the area, the alignment and the offset.
use frameworks_system_ota.Prelude.{
  is_given, ℕ, ◌+◌, ◌≤◌, ◌≡◌, refl, sym, ◌∙◌, String, false, ◌&&◌, Option, none, some, List, [],
  ◌∷◌, ◌++◌, length, arith, ltb, ◌-◌, length-append, take_all, ==_iff, Bool-cases, Option-cases,
  inl, inr,
}
use frameworks_system_ota.Prelude.Int.{ℤ, pos}
use frameworks_system_ota.Verify.Platform.{read_at}
use frameworks_system_ota.Ui.Code.{is_success}
use frameworks_system_ota.Ui.Build.{IsBuild, Kept}
use frameworks_system_ota.Ui.Config.Cjson.{number_item}
use frameworks_system_ota.Ui.Config.Env.{Env}
use frameworks_system_ota.Ui.Config.Files.{
  is_open, filled, read_all_from_file, with_dsc, get_image_data_from_file,
}
use frameworks_system_ota.Ui.Config.Objects.{
  align_node, json_align_parse, area_numbers, place_parent, json_area_parse, offset_numbers,
  json_offset_parse, json_ui_obj_parse,
}
use frameworks_system_ota.Ui.Config.Tree.{Kept-refl, Kept-trans}
use frameworks_system_ota.Ui.Config.Schema.{has_area, is_readable, IsImage}

module _ (env : Env) where
  open env use {lv, build, cj, os}

  module _ (laws : IsBuild lv build) where
    align-Kept :
        (node : Option cj.Node) (o : ℕ) (s : lv.Screen)
        → Kept lv build s (json_align_parse env node o s).1
    unfolding json_align_parse
    align-Kept node o s = elim (Option-cases (align_node env node)) [
      | inl missing ↦ rw (missing, json_align_parse) (Kept-refl lv build s)
      | inr (strings, e) ↦ rw (e, json_align_parse) (laws.align-kept o _ _ _ s)
    ]

    place-Kept :
        (parent : Option ℕ) (area : (ℤ × ℤ) × (ℤ × ℤ)) (s : lv.Screen)
        → Kept lv build s (place_parent env parent area s)
    place-Kept none area s = Kept-refl lv build s
    place-Kept (some p) ((x, y), (w, h)) s =
        Kept-trans lv build (laws.set_pos-kept p x y s) (laws.set_size-kept p w h _)

    area-Kept :
        (node : Option cj.Node) (o : ℕ) (s : lv.Screen)
        → Kept lv build s (json_area_parse env node o s).1
    unfolding json_area_parse
    area-Kept node o s = elim (Option-cases (area_numbers env node)) [
      | inl missing ↦ rw (missing, json_area_parse) (Kept-refl lv build s)
      | inr (area, e) ↦ rw (e, json_area_parse) (place-Kept (build.lv_obj_get_parent o s) area s)
    ]

    offset-Kept :
        (node : Option cj.Node) (o : ℕ) (s : lv.Screen)
        → Kept lv build s (json_offset_parse env node o s).1
    unfolding json_offset_parse
    offset-Kept node o s = elim (Option-cases (offset_numbers env node)) [
      | inl missing ↦ rw (missing, json_offset_parse) (Kept-refl lv build s)
      | inr ((x, y), e) ↦ rw (e, json_offset_parse) (laws.set_pos-kept o x y s)
    ]

    pub obj_parse-Kept :
        (object : cj.Node) (o : ℕ) (s : lv.Screen)
        → Kept lv build s (json_ui_obj_parse env object o s).1
    unfolding json_ui_obj_parse
    obj_parse-Kept object o s =
        let align = cj.get_object_item object "align" in
        let area = cj.get_object_item object "area" in
        let offset = cj.get_object_item object "offset" in
        let aligned = json_align_parse env align o s in
        let placed = json_area_parse env area o aligned.1 in
        let kept : Kept lv build s placed.1 =
          Kept-trans lv build (align-Kept align o s) (area-Kept area o aligned.1) in
        elim (Bool-cases (is_success placed.0)) [
          | inl ok ↦ rw ok (Kept-trans lv build kept (offset-Kept offset o placed.1))
          | inr failed ↦ rw failed kept
        ]

  area-success :
      (node : Option cj.Node) (o : ℕ) (s : lv.Screen)
      → is_success (json_area_parse env node o s).0
        ≡ is_given (number_item cj node "x")
          && is_given (number_item cj node "y")
          && is_given (number_item cj node "w")
          && is_given (number_item cj node "h")
  unfolding json_area_parse area_numbers
  area-success area o s = ground arith

  pub obj_parse-success :
      (object : cj.Node) (o : ℕ) (s : lv.Screen)
      → is_success (json_ui_obj_parse env object o s).0 ≡ has_area env object
  unfolding json_ui_obj_parse
  obj_parse-success object o s =
      let area = cj.get_object_item object "area" in
      let aligned = json_align_parse env (cj.get_object_item object "align") o s in
      elim (Bool-cases (is_success (json_area_parse env area o aligned.1).0)) [
        | inl ok ↦ rw ok (sym (sym (area-success area o aligned.1) ∙ ok))
        | inr failed ↦ rw failed (sym (sym (area-success area o aligned.1) ∙ failed))
      ]

  pub filled_lem :
      (content : List ℕ)
      → os.read_count content 0 (length content) ≡ pos (length content)
      → filled os content ≡ some (content ++ (0 ∷ []))
  unfolding filled read_at
  filled_lem content h =
      rw
        (
          h,
          take_all (length content) content (omega arith),
          (==_iff (length content) (length content)).1 refl,
        )
        refl

  long_lem :
      (content : List ℕ) (n : ℕ)
      → n ≤ length content + 1
      → ltb (length (content ++ (0 ∷ []))) n ≡ false
  long_lem content n h = rw (length-append content (0 ∷ [])) (ground arith)

  -- A label's file is read whole.
  pub image_file_lem :
      (path : String)
      → IsImage env path
      → (found : Option (List ℕ)) × (get_image_data_from_file env path ≡ some found)
        × (is_given found ≡ is_readable env (some path))
  unfolding get_image_data_from_file with_dsc read_all_from_file
  image_file_lem path image =
      let content = os.content path in
      let buffer = content ++ (0 ∷ []) in
      let whole : filled os content ≡ some buffer = filled_lem content image.read_whole in
      let long : ltb (length buffer) build.dsc_size ≡ false =
        long_lem content build.dsc_size image.long_enough in
      elim (Bool-cases (is_open (os.open_file path) && os.malloc (length content + 1))) [
        | inl readable ↦ (
          some (build.put_dsc (length buffer - build.header_size) buffer),
          rw (readable, whole, long) refl,
          rw readable refl,
        )
        | inr unreadable ↦ (none, rw unreadable refl, rw unreadable refl)
      ]
