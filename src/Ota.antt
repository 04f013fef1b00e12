-- ===== src/Ota.antt =====
-- ui/ui_ota.c: the program that shows how far the upgrade is.
pub mod Progress
pub mod Property
pub mod Main
