-- ===== src/Ui/Config/Pages.antt =====
-- ui/ui_config_parse.c from an object of a page up to the whole file, and `ui_config_parse` and
-- `ui_uninit` of ui/ui_display.c. `none` is undefined behaviour, as it is for a widget.
use text.Mathlib.Text.{◌==◌ as str_eq, starts_with}
use frameworks_system_ota.Prelude.{
  ℕ, ◌+◌, String, Option, none, some, List, [], ◌∷◌, length, ◌==◌, if◌then◌else◌, ◌>>=◌,
}
use frameworks_system_ota.Prelude.Int.{pos}
use frameworks_system_ota.Ui.Code.{
  Code, success, file_parse_error, file_path_null, file_read_error, file_content_invalid,
  is_success,
}
use frameworks_system_ota.Ui.Config.Cjson.{text_of}
use frameworks_system_ota.Ui.Refresh.{Ui}
use frameworks_system_ota.Ui.Config.Env.{Env}
use frameworks_system_ota.Ui.Config.Files.{read_all_from_file}
use frameworks_system_ota.Ui.Config.Widgets.{json_progress_parse, json_label_parse, parse_label}

module _ (env : Env) where
  open env use {lv, build, cj, os, use_arc, strtol, strtoul}

  -- By the name of the object.
  unfoldable pub parse_keyed : Option String → cj.Node → ℕ → Ui lv → Option (Code × Ui lv)
  unfolding json_progress_parse json_label_parse
  parse_keyed none ui_obj page_obj ui = none
  parse_keyed (some string) ui_obj page_obj ui =
      if starts_with string "progress"
      then (do
        (ret, ui') ← json_progress_parse env ui_obj page_obj ui
        some (if is_success ret then success else file_parse_error, ui'))
      else if starts_with string "label"
      then (do
        (ret, ui') ← parse_label env ui_obj page_obj ui
        some (if is_success ret then success else file_parse_error, ui'))
      else some (file_content_invalid, ui)

  unfoldable pub json_ui_page_cont_parse : cj.Node → ℕ → Ui lv → Option (Code × Ui lv)
  unfolding parse_keyed
  json_ui_page_cont_parse ui_obj page_obj ui =
      if cj.is_object ui_obj
      then parse_keyed (cj.key ui_obj) ui_obj page_obj ui
      else some (file_content_invalid, ui)

  -- With the colour `bgcolor`; the page is hidden.
  unfoldable pub create_page_obj : ℕ → lv.Screen → ℕ × lv.Screen
  create_page_obj bgcolor s =
      let obj = build.lv_obj_create (lv.lv_scr_act s) s in
      let bare = build.lv_obj_remove_style obj.0 obj.1 in
      let coloured = build.lv_obj_set_style_bg_color obj.0 bgcolor bare in
      let opaque = build.lv_obj_set_style_bg_opa obj.0 coloured in
      let flat = build.lv_obj_set_style_pad_all obj.0 (pos 0) opaque in
      let wide = lv.lv_obj_set_size obj.0 (build.lv_hor_res flat) (build.lv_ver_res flat) flat in
      (obj.0, lv.lv_obj_add_flag obj.0 wide)

  -- The loop over the objects of a page: how many were parsed before the first that was not.
  unfoldable pub parse_objects : List cj.Node → ℕ → ℕ → Ui lv → Option (ℕ × Ui lv)
  unfolding json_ui_page_cont_parse
  parse_objects [] i lv_obj ui = some (i, ui)
  parse_objects (ele ∷ eles) i lv_obj ui = do
    (ret, ui') ← json_ui_page_cont_parse ele lv_obj ui
    if is_success ret then parse_objects eles (i + 1) lv_obj ui' else some (i, ui')

  abbrev pub clean_screen : Ui lv → Ui lv
  clean_screen ui = record ui { screen = build.lv_obj_clean (lv.lv_scr_act ui.screen) ui.screen }

  unfoldable pub parse_page : Option String → cj.Node → ℕ → Ui lv → Option (Option ℕ × Ui lv)
  unfolding create_page_obj parse_objects
  parse_page none page bgcolor ui = none
  parse_page (some string) page bgcolor ui =
      let lv_obj = create_page_obj bgcolor ui.screen in
      let named = build.set_name lv_obj.0 string lv_obj.1 in
      do
        (i, ui') ← parse_objects (cj.children page) 0 lv_obj.0 (record ui { screen = named })
        some (
            if i == length (cj.children page)
            then (some lv_obj.0, ui')
            else (none, clean_screen ui'))

  -- The page's object, or a null pointer.
  unfoldable pub json_ui_page_parse : cj.Node → ℕ → Ui lv → Option (Option ℕ × Ui lv)
  unfolding parse_page
  json_ui_page_parse page bgcolor ui = parse_page (cj.key page) page bgcolor ui

  abbrev pub colour_of : Option String → ℕ
  colour_of none = 0
  colour_of (some s) = strtoul s

  abbrev pub next_unless_null : (Ui lv → Option (Ui lv)) → Option ℕ × Ui lv → Option (Ui lv)
  next_unless_null rest (none, ui) = some ui
  next_unless_null rest (some lv_obj, ui) = rest ui

  -- The loop over the pages.
  unfoldable pub parse_pages : List cj.Node → ℕ → Ui lv → Option (Ui lv)
  unfolding json_ui_page_parse
  parse_pages [] bg_color ui = some ui
  parse_pages (ele ∷ eles) bg_color ui =
      let rest = λ (ui' : Ui lv). parse_pages eles bg_color ui' in
      do
        string ← cj.key ele
        if str_eq string "bg_color"
            then rest ui
            else (json_ui_page_parse ele bg_color ui >>= next_unless_null rest)

  unfoldable pub ui_page_config_init : Option cj.Node → Ui lv → Option (Code × Ui lv)
  unfolding parse_pages
  ui_page_config_init none ui = some (file_parse_error, ui)
  ui_page_config_init (some root) ui = do
    ui' ←
        parse_pages (cj.children root) (colour_of (text_of cj (cj.get_object_item root "bg_color")))
          ui
    some (success, ui')

  abbrev pub parse_root : Option cj.Node → Ui lv → Option (Code × Ui lv)
  parse_root none ui = some (file_parse_error, ui)
  parse_root (some root) ui = do
    (ret, ui') ← ui_page_config_init (some root) ui
    some (if is_success ret then success else file_parse_error, ui')

  abbrev pub parse_buffer : Option (List ℕ) → Ui lv → Option (Code × Ui lv)
  parse_buffer none ui = some (file_read_error, ui)
  parse_buffer (some json_buf) ui = parse_root (cj.parse json_buf) ui

  -- `none` is a null path.
  unfoldable pub ui_config_init : Option String → Ui lv → Option (Code × Ui lv)
  unfolding ui_page_config_init
  ui_config_init none ui = some (file_path_null, ui)
  ui_config_init (some path) ui = do json_buf ← read_all_from_file os path; parse_buffer json_buf ui

  unfoldable pub ui_config_parse : Option String → Ui lv → Option (Code × Ui lv)
  unfolding ui_config_init
  ui_config_parse file_path ui = do
    (ret, ui') ← ui_config_init file_path ui
    some (if is_success ret then success else file_parse_error, ui')

  unfoldable pub ui_config_destroy : Ui lv → Ui lv
  ui_config_destroy ui = clean_screen ui

  -- Of ui/ui_display.c.
  unfoldable pub ui_uninit : Ui lv → Ui lv
  unfolding ui_config_destroy
  ui_uninit ui = ui_config_destroy ui
