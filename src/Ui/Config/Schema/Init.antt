-- ===== src/Ui/Config/Schema/Init.antt =====
-- `ui_page_config_init`, `ui_config_init` and `ui_config_parse`: the whole configuration.
use frameworks_system_ota.Prelude.{
  is_given, ◌+◌, ◌≡◌, refl, ◌∙◌, String, Bool, ◌&&◌, Option, none, some, List, [], ◌∷◌, ◌++◌,
  length, if◌then◌else◌, Bool-cases, inl, inr, All,
}
use frameworks_system_ota.Prelude.Int.{pos}
use frameworks_system_ota.Ui.Code.{Code, success, file_parse_error, is_success}
use frameworks_system_ota.Ui.Lvgl.{IsLvgl}
use frameworks_system_ota.Ui.Build.{IsBuild}
use frameworks_system_ota.Ui.Refresh.{Ui}
use frameworks_system_ota.Ui.Config.Env.{Env}
use frameworks_system_ota.Ui.Config.Files.{is_open, filled, read_all_from_file}
use frameworks_system_ota.Ui.Config.Pages.{
  colour_of, ui_page_config_init, parse_root, ui_config_init, ui_config_parse,
}
use frameworks_system_ota.Ui.Config.Cjson.{text_of}
use frameworks_system_ota.Ui.Config.View.{view}
use frameworks_system_ota.Ui.Config.Schema.{is_readable, valid_pages, hidden_pages, IsPage}
use frameworks_system_ota.Ui.Config.Schema.Objects.{filled_lem}
use frameworks_system_ota.Ui.Config.Schema.Contents.{if_success}
use frameworks_system_ota.Ui.Config.Schema.Screen.{pages_lem}

module _ (env : Env) where
  open env use {lv, build, cj, os}

  -- The pages, with their hidden flags, after a configuration: one that is not valid in all its pages
  -- empties the screen.
  abbrev pub configured : cj.Node → List (Option String × Bool) → List (Option String × Bool)
  configured root before =
      if valid_pages env (cj.children root)
      then before ++ hidden_pages env (cj.children root)
      else []

  module _ (laws : IsBuild lv build) (flags : IsLvgl lv) where
    -- A configuration whose pages and objects have names and whose labels name images gives
    -- UI_SUCCESS, also where a page of it does not parse. Where every page is valid, the screen has
    -- its old pages and then those of the configuration in their order, each hidden and with its name;
    -- where one is not, the screen has no pages left.
    pub ui_page_config_init_lem :
        (root : cj.Node) (ui : Ui lv)
        → All (IsPage env) (cj.children root)
        → (ui' : Ui lv) × (ui_page_config_init env (some root) ui ≡ some (success, ui'))
          × (view lv ui'.screen ≡ configured root (view lv ui.screen))
    unfolding ui_page_config_init
    ui_page_config_init_lem root ui is =
        let (ui', e, shown) =
          pages_lem env laws flags (cj.children root)
            (colour_of env (text_of cj (cj.get_object_item root "bg_color"))) ui is in
        (ui', rw e refl, shown)

    -- What the parse of the file's text leaves.
    abbrev pub parsed : Option cj.Node → List (Option String × Bool) → List (Option String × Bool)
    parsed none before = before
    parsed (some root) before = configured root before

    root_lem :
        (root : Option cj.Node) (ui : Ui lv)
        → ((node : cj.Node) → root ≡ some node → All (IsPage env) (cj.children node))
        → (code : Code) × (ui' : Ui lv) × (parse_root env root ui ≡ some (code, ui'))
          × (is_success code ≡ is_given root)
          × (view lv ui'.screen ≡ parsed root (view lv ui.screen))
    root_lem none ui is = (file_parse_error, ui, refl, refl, refl)
    root_lem (some root) ui is =
        let (ui', e, shown) = ui_page_config_init_lem root ui (is root refl) in
        (success, ui', rw e refl, refl, shown)

    -- A file that one `read` reads whole, with a text whose pages and objects have names and whose
    -- labels name images: the result is UI_SUCCESS exactly where the file opens, there is memory for
    -- it, and the text is JSON. Then the screen is as the configuration says, and else its pages are
    -- as they were.
    pub ui_config_parse_lem :
        (path : String) (ui : Ui lv)
        → os.read_count (os.content path) 0 (length (os.content path))
          ≡ pos (length (os.content path))
        → ((root : cj.Node)
            → cj.parse (os.content path ++ (0 ∷ [])) ≡ some root
            → All (IsPage env) (cj.children root))
        → let json = cj.parse (os.content path ++ (0 ∷ [])) in
          (code : Code) × (ui' : Ui lv) × (ui_config_parse env (some path) ui ≡ some (code, ui'))
          × (is_success code ≡ is_readable env (some path) && is_given json)
          × (view lv ui'.screen ≡ (
              if is_readable env (some path)
              then parsed json (view lv ui.screen)
              else view lv ui.screen))
    unfolding ui_config_parse ui_config_init read_all_from_file
    ui_config_parse_lem path ui whole is =
        let content = os.content path in
        let buffer : filled os content ≡ some (content ++ (0 ∷ [])) =
          filled_lem env content whole in
        elim (Bool-cases (is_open (os.open_file path) && os.malloc (length content + 1))) [
          | inl readable ↦
              let (code, ui', e, ok, shown) = root_lem (cj.parse (content ++ (0 ∷ []))) ui is in
              (
                if is_success code then success else file_parse_error,
                ui',
                rw (readable, buffer, e) refl,
                rw readable (if_success env laws (is_success code) ∙ ok),
                rw readable shown,
              )
          | inr unreadable ↦
              (file_parse_error, ui, rw unreadable refl, rw unreadable refl, rw unreadable refl)
        ]
