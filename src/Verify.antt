-- ===== src/Verify.antt =====
-- verify/zip_verify.c: the verification of a signed package.
pub mod Bytes
pub mod Platform
pub mod Block
pub mod AppBlock
pub mod Digest
pub mod App
pub mod AvbMain
