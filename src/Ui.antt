-- ===== src/Ui.antt =====
-- ui/ui_common.h and ui/ui_display.c: the pages of the upgrade's user interface.
pub mod Code
pub mod Lvgl
pub mod Build
pub mod Display
pub mod Refresh
pub mod Config
