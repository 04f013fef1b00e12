-- ===== src/Ota/Main/Program/Ends.antt =====
-- How `main` of ui/ui_ota.c ends without a configuration, and after an upgrade that failed.
use mathlib.Core.Logic.{◌≢◌}
use frameworks_system_ota.Prelude.{
  is_given, subst, some-inj, ℕ, ◌%◌, ◌≡◌, refl, sym, ap, ◌∙◌, String, true, false, ◌&&◌, Option,
  some, List, [], ◌∷◌, ◌++◌, length, All,
}
use frameworks_system_ota.Prelude.Int.{pos, negsuc, ◌<ℤ◌}
use frameworks_system_ota.Ui.Code.{Code, is_success}
use frameworks_system_ota.Ui.Lvgl.{IsLvgl}
use frameworks_system_ota.Ui.Build.{IsBuild}
use frameworks_system_ota.Ui.Display.{ui_find_page}
use frameworks_system_ota.Ui.Display.Search.{pages}
use frameworks_system_ota.Ui.Display.Exclusive.{contains}
use frameworks_system_ota.Ui.Refresh.{Ui}
use frameworks_system_ota.Ui.Config.Env.{Env}
use frameworks_system_ota.Ui.Config.Pages.{ui_config_parse, ui_uninit}
use frameworks_system_ota.Ui.Config.View.{view, view-empty}
use frameworks_system_ota.Ui.Config.Schema.{is_readable, valid_pages, IsPage}
use frameworks_system_ota.Ui.Config.Schema.Init.{configured, ui_config_parse_lem}
use frameworks_system_ota.Ui.Config.Schema.Found.{names_page, configured-IsExclusive, found_page}
use frameworks_system_ota.Ota.Property.{Properties, ota_upgrade_prop_get, key_current}
use frameworks_system_ota.Ota.Main.{
  Flag, Options, starts, parse_flags, path_or_default, Loop, rounds,
}
use frameworks_system_ota.Ota.Main.Failure.{failure_shown}
use frameworks_system_ota.Ota.Main.Program.{
  no_options, finished, first_loop, after_config, start, main,
}

module _ (props : Properties) (env : Env) (laws : IsBuild env.lv env.build) (flags : IsLvgl env.lv)
    (sync_time : ℕ) (text : List ℕ → String) (default_path : List ℕ) where
  open props use {Db}
  open env use {lv, build, cj, os, use_arc}

  -- The path of the configuration.
  abbrev pub path_of : Options → String
  path_of o = text (path_or_default props default_path o.path)

  -- The file is read whole by one call.
  abbrev pub IsWhole : String → Type 0
  IsWhole path =
      os.read_count (os.content path) 0 (length (os.content path)) ≡ pos (length (os.content path))

  abbrev pub json_of : String → Option cj.Node
  json_of path = cj.parse (os.content path ++ (0 ∷ []))

  main-starts :
      (args : List Flag) (db : Db) (o : Options) (dbs : List Db) (last : Db) (ui : Ui lv)
      → parse_flags props args db no_options ≡ starts o
      → main props env sync_time text default_path args db dbs last ui
        ≡ start props env sync_time text default_path o dbs last ui
  unfolding main
  main-starts args db o dbs last ui e = rw (e, main) refl

  -- With a configuration file that one call reads whole and that does not open, finds no memory, or is
  -- not JSON (where it is JSON, its pages and objects have names and its labels name images): the
  -- program returns -1, runs no round and does not run the command, whatever the databases say.
  pub main_without_config :
      (args : List Flag) (db : Db) (o : Options) (dbs : List Db) (last : Db) (ui : Ui lv)
      → parse_flags props args db no_options ≡ starts o
      → IsWhole (path_of o)
      → is_readable env (some (path_of o)) && is_given (json_of (path_of o)) ≡ false
      → ((root : cj.Node) → json_of (path_of o) ≡ some root → All (IsPage env) (cj.children root))
      → (ui' : Ui lv) × (main props env sync_time text default_path args db dbs last ui
          ≡ some (finished (negsuc 0) false ui'))
  unfolding start after_config
  main_without_config args db o dbs last ui e whole bad is =
      let (code, ui', parse, ok, shown) =
        ui_config_parse_lem env laws flags (path_of o) ui whole is in
      let failed : is_success code ≡ false = ok ∙ bad in
      (ui', main-starts args db o dbs last ui e ∙ rw (parse, failed) refl)

  -- With a configuration that is valid in all its pages and has a fail page, an empty screen and no
  -- logo mode, where the first round finds a negative number in the database and the database stays so:
  -- the program ends after that round with status 0 and the command is run; in that round the fail page
  -- is not hidden, and the other pages are.
  pub main_after_failure :
      (args : List Flag) (db : Db) (o : Options) (now : Db) (dbs : List Db) (ui : Ui lv)
      (root : cj.Node)
      → parse_flags props args db no_options ≡ starts o
      → o.logo_mode ≡ false
      → IsWhole (path_of o)
      → is_readable env (some (path_of o)) ≡ true
      → json_of (path_of o) ≡ some root
      → All (IsPage env) (cj.children root)
      → valid_pages env (cj.children root) ≡ true
      → names_page env "upgrade_fail_page" (cj.children root) ≡ true
      → lv.lv_obj_get_child_cnt (lv.lv_scr_act ui.screen) ui.screen ≡ 0
      → 0 % sync_time ≡ 0
      → ota_upgrade_prop_get props key_current now <ℤ pos 0
      → (code : Code) × (ui' : Ui lv) × (p : ℕ) × (l : Loop lv) × (ui_config_parse env
            (some (path_of o))
            ui
          ≡ some (code, ui'))
        × (ui_find_page lv "upgrade_fail_page" ui'.screen ≡ some p)
        × (main props env sync_time text default_path args db (now ∷ dbs) now ui
            ≡ some (finished (pos 0) true (ui_uninit env l.ui)))
        × (lv.is_hidden p l.ui.screen ≡ false)
        × ((q : ℕ)
            → contains q (pages lv ui'.screen) ≡ true
            → q ≢ p
            → lv.is_hidden q l.ui.screen ≡ true)
  unfolding start after_config rounds
  main_after_failure args db o now dbs ui root e no_logo whole readable json is valid listed empty
        due negative =
      let same_root : (node : cj.Node)
          → json_of (path_of o) ≡ some node
          → All (IsPage env) (cj.children node) =
        λ node h. subst (λ r. All (IsPage env) (cj.children r)) (some-inj (sym json ∙ h)) is in
      let (code, ui', parse, ok, shown) =
        ui_config_parse_lem env laws flags (path_of o) ui whole same_root in
      let success : is_success code ≡ true = ok ∙ rw (readable, json) refl in
      let seen : view lv ui'.screen ≡ configured env root [] =
        shown ∙ rw (readable, json) (ap (configured env root) (view-empty lv ui.screen empty)) in
      let (exclusive, exists) = configured-IsExclusive env laws flags root ui'.screen seen in
      let (p, found) =
        found_page env laws flags "upgrade_fail_page" ui'.screen
          (exists "upgrade_fail_page" ∙ rw (valid, listed) refl) in
      let (l, left, visible, others, runs) =
        failure_shown lv flags props use_arc sync_time now (first_loop props env sync_time o ui') p
          due negative exclusive found in
      (
        code,
        ui',
        p,
        l,
        parse,
        found,
        main-starts args db o (now ∷ dbs) now ui e ∙ rw (parse, success, no_logo, left, runs) refl,
        visible,
        others,
      )
