-- ===== src/Tests.antt =====
-- Runs of the definitions on small inputs, and the theorems at inputs that meet their hypotheses.
mod Kvdb
mod Platform
mod Bootctl
mod Verify
mod Lvgl
mod Objects
mod Config
mod Widget
mod Render
mod Ui
mod Ota
mod Program
mod Package
mod Signed
mod AvbMain
