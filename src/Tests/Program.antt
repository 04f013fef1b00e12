-- ===== src/Tests/Program.antt =====
-- `main` of ui/ui_ota.c on a configuration of two pages.
use frameworks_system_ota.Prelude.{
  ℕ, ◌≡◌, ◌≢◌, refl, subst, some-inj, true, false, some, List, [], ◌∷◌, All, arith,
}
use frameworks_system_ota.Prelude.Int.{pos, negsuc}
use frameworks_system_ota.Ui.Code.{Code}
use frameworks_system_ota.Ui.Display.{ui_find_page}
use frameworks_system_ota.Ui.Display.Search.{pages}
use frameworks_system_ota.Ui.Display.Exclusive.{contains}
use frameworks_system_ota.Ui.Refresh.{Ui}
use frameworks_system_ota.Ui.Config.Pages.{ui_config_parse, ui_uninit}
use frameworks_system_ota.Ui.Config.Schema.{IsPage}
use frameworks_system_ota.Ota.Property.{ota_upgrade_prop_get}
use frameworks_system_ota.Ota.Main.{Flag, Loop, unknown, parse_flags}
use frameworks_system_ota.Ota.Main.Program.{no_options, finished, main}
use frameworks_system_ota.Ota.Main.Program.Ends.{main_without_config, main_after_failure}
use frameworks_system_ota.Tests.Objects.{objects_lv, objects-IsBuild, objects-IsLvgl}
use frameworks_system_ota.Tests.Config.{env, two_keys, nothing_shown, pages-IsPage}
use frameworks_system_ota.Tests.Ui.{one_number}

root-IsPage : (root : ℕ) → some 0 ≡ some root → All (IsPage env) (two_keys.children root)
root-IsPage root e =
    subst (λ node. All (IsPage env) (two_keys.children node)) (some-inj e) pages-IsPage

abbrev no_flags : List Flag
no_flags = unknown ∷ []

main_without_config_example :
    (ui' : Ui objects_lv) × (main one_number env 40000
        (λ bytes. "missing")
        []
        no_flags
        "-1"
        []
        "-1"
        nothing_shown
      ≡ some (finished (negsuc 0) false ui'))
unfolding parse_flags
main_without_config_example =
    main_without_config one_number env objects-IsBuild objects-IsLvgl 40000 (λ bytes. "missing") []
      no_flags "-1" no_options [] "-1" nothing_shown refl refl refl root-IsPage

main_after_failure_example :
    (code : Code) × (ui' : Ui objects_lv) × (p : ℕ) × (l : Loop objects_lv) × (ui_config_parse env
        (some "ota.json")
        nothing_shown
      ≡ some (code, ui'))
    × (ui_find_page objects_lv "upgrade_fail_page" ui'.screen ≡ some p)
    × (main one_number env 40000
          (λ bytes. "ota.json")
          []
          no_flags
          "-1"
          ("-1" ∷ [])
          "-1"
          nothing_shown
        ≡ some (finished (pos 0) true (ui_uninit env l.ui)))
    × (objects_lv.is_hidden p l.ui.screen ≡ false)
    × ((q : ℕ)
        → contains q (pages objects_lv ui'.screen) ≡ true
        → q ≢ p
        → objects_lv.is_hidden q l.ui.screen ≡ true)
unfolding parse_flags ota_upgrade_prop_get
main_after_failure_example =
    main_after_failure one_number env objects-IsBuild objects-IsLvgl 40000 (λ bytes. "ota.json") []
      no_flags "-1" no_options "-1" [] nothing_shown 0 refl refl refl refl refl pages-IsPage refl
      refl refl refl (omega arith)
