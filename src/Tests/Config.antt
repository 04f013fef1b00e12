-- ===== src/Tests/Config.antt =====
-- ui/ui_config_parse.c on a configuration of two pages: the first has a bar and a label, the second
-- nothing.
use text.Mathlib.Text.{◌==◌ as str_eq}
use frameworks_system_ota.Prelude.{
  ℕ, ◌≡◌, refl, String, Bool, true, false, ◌&&◌, Option, none, some, List, [], ◌∷◌, arith, ◌==◌,
  ◌||◌, subst, some-inj, if◌then◌else◌, All,
}
use frameworks_system_ota.Prelude.Int.{pos, negsuc}
use frameworks_system_ota.Verify.Platform.{Os}
use frameworks_system_ota.Ui.Code.{Code, success, is_success}
use frameworks_system_ota.Ui.Display.{ui_page_exist, ui_page_show}
use frameworks_system_ota.Ui.Display.Exclusive.{IsExclusive}
use frameworks_system_ota.Ui.Display.Show.{Shows}
use frameworks_system_ota.Widget.Data.{lv_upgrade_constructor}
use frameworks_system_ota.Ui.Config.Cjson.{Cjson}
use frameworks_system_ota.Ui.Refresh.{Ui}
use frameworks_system_ota.Ui.Config.Env.{Env}
use frameworks_system_ota.Ui.Config.Pages.{ui_page_config_init, ui_config_parse}
use frameworks_system_ota.Ui.Config.View.{view}
use frameworks_system_ota.Ui.Config.Schema.{IsPage, IsImage}
use frameworks_system_ota.Ui.Config.Schema.Init.{ui_page_config_init_lem, ui_config_parse_lem}
use frameworks_system_ota.Ui.Config.Schema.Found.{ui_page_exist_lem, page_show_configured}
use frameworks_system_ota.Tests.Objects.{
  objects_lv, objects_build, objects-IsLvgl, objects-IsBuild, empty_screen,
}

-- The nodes: 0 the root, 1 and 2 the pages, 3 the bar, 4 the label, 5 the area, 6 a number, 7 the mode,
-- 8 the path of the label's image, 9 the list of images, 10 an image.
abbrev pub two_keys : Cjson
two_keys = record {
  Node = ℕ;
  get_object_item = λ n k.
      if str_eq k "area"
      then some 5
      else if n == 3 && str_eq k "mode"
      then some 7
      else if n == 3 && str_eq k "img_src_list"
      then some 9
      else if n == 4 && str_eq k "img_src"
      then some 8
      else none;
  get_object_item_case_sensitive = λ n k. some 6;
  number = λ n. if n == 6 then some (pos 20) else none;
  text = λ n. if n == 7 then some "bar" else if n == 8 || n == 10 then some "logo.bin" else none;
  is_array = λ n. false;
  is_object = λ n. n == 3 || n == 4;
  children = λ n.
      if n == 0 then 1 ∷ 2 ∷ [] else if n == 1 then 3 ∷ 4 ∷ [] else if n == 9 then 10 ∷ [] else [];
  key = λ n.
      if n == 1
      then some "upgrading_page"
      else if n == 2
      then some "upgrade_fail_page"
      else if n == 3
      then some "progress"
      else if n == 4
      then some "label_logo"
      else if n == 10
      then some "0"
      else none;
  parse = λ bytes. some 0;
}

abbrev pub files : Os
files = record {
  open_file = λ path. if str_eq path "missing" then negsuc 1 else pos 3;
  content = λ path. 1 ∷ 2 ∷ 3 ∷ 4 ∷ [];
  read_count = λ f p n. pos n;
  malloc = λ n. true;
  stat = λ path. pos 0;
  access = λ path. pos 0;
}

abbrev pub env : Env
env = record {
  lv = objects_lv;
  build = objects_build;
  cj = two_keys;
  os = files;
  use_arc = true;
  strtol = λ s. pos 0;
  strtoul = λ s. 0;
}

abbrev pub nothing_shown : Ui objects_lv
nothing_shown = record { screen = empty_screen; widgets = λ o. lv_upgrade_constructor }

file-IsImage : (path : String) → IsImage env path
file-IsImage path = record { read_whole = refl; long_enough = omega arith }

pub pages-IsPage : All (IsPage env) (1 ∷ 2 ∷ [])
pages-IsPage = (
  record {
    named = ("upgrading_page", refl);
    objects = (
      record {
        named = ("progress", refl);
        listed = (("0", refl), tt);
        image = λ path e. file-IsImage path;
      },
      (
        record { named = ("label_logo", refl); listed = tt; image = λ path e. file-IsImage path },
        tt,
      ),
    );
  },
  (record { named = ("upgrade_fail_page", refl); objects = tt }, tt),
)

abbrev two_hidden : List (Option String × Bool)
two_hidden = (some "upgrading_page", true) ∷ (some "upgrade_fail_page", true) ∷ []

ui_page_config_init_lem_example :
    (ui' : Ui objects_lv) × (ui_page_config_init env (some 0) nothing_shown ≡ some (success, ui'))
    × (view objects_lv ui'.screen ≡ two_hidden)
unfolding view
ui_page_config_init_lem_example =
    ui_page_config_init_lem env objects-IsBuild objects-IsLvgl 0 nothing_shown pages-IsPage

ui_config_parse_lem_example :
    (code : Code) × (ui' : Ui objects_lv) × (ui_config_parse env (some "ota.json") nothing_shown
      ≡ some (code, ui'))
    × (is_success code ≡ true)
    × (view objects_lv ui'.screen ≡ two_hidden)
unfolding view
ui_config_parse_lem_example =
    ui_config_parse_lem env objects-IsBuild objects-IsLvgl "ota.json" nothing_shown refl (λ root e.
      subst (λ node. All (IsPage env) (two_keys.children node)) (some-inj e) pages-IsPage)

ui_page_exist_lem_example :
    (ui' : Ui objects_lv) × (ui_page_config_init env (some 0) nothing_shown ≡ some (success, ui'))
    × IsExclusive objects_lv ui'.screen
    × ((name : String)
        → ui_page_exist objects_lv (some name) ui'.screen
          ≡ (str_eq "upgrading_page" name || (str_eq "upgrade_fail_page" name || false)))
ui_page_exist_lem_example =
    ui_page_exist_lem env objects-IsBuild objects-IsLvgl 0 nothing_shown pages-IsPage refl

page_show_configured_example :
    (ui' : Ui objects_lv) × (p : ℕ) × (ui_page_config_init env (some 0) nothing_shown
      ≡ some (success, ui'))
    × ((ui_page_show objects_lv "upgrade_fail_page" ui'.screen).0 ≡ success)
    × Shows objects_lv objects-IsLvgl p ui'.screen
        (ui_page_show objects_lv "upgrade_fail_page" ui'.screen).1
page_show_configured_example =
    page_show_configured env objects-IsBuild objects-IsLvgl 0 nothing_shown "upgrade_fail_page"
      pages-IsPage refl refl refl
