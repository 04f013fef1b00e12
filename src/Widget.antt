-- ===== src/Widget.antt =====
-- ui/extra/lv_upgrade.c: the LVGL widget that draws the progress.
pub mod Value
pub mod Data
pub mod Images
pub mod Closest
pub mod Layout
pub mod Anim
pub mod Render
pub mod Free
