-- ===== src/Ui/Config/Env.antt =====
-- What ui/ui_config_parse.c runs on, in one record: LVGL, cJSON, the files and the numbers of the C
-- library.
use frameworks_system_ota.Prelude.{ℕ, String, Bool}
use frameworks_system_ota.Prelude.Int.{ℤ}
use frameworks_system_ota.Verify.Platform.{Os}
use frameworks_system_ota.Ui.Lvgl.{Lvgl}
use frameworks_system_ota.Ui.Build.{Build}
use frameworks_system_ota.Ui.Config.Cjson.{Cjson}

pub record Env : Type 1 where
  pub lv : Lvgl
  pub build : Build lv
  pub cj : Cjson
  pub os : Os
  -- LV_USE_ARC
  pub use_arc : Bool
  -- `(int)strtol(…, 10)` and `(uint32_t)strtoul(…, 16)`
  pub strtol : String → ℤ
  pub strtoul : String → ℕ
