-- ===== src/Bootctl.antt =====
-- bootctl/bootctl.c: the manager of the two boot slots.
pub mod Kvdb
pub mod State
pub mod Config
pub mod Ap
pub mod Loader
pub mod Main
pub mod Invariant
pub mod Upgrade
pub mod Protocol
pub mod Machine
pub mod Refine
