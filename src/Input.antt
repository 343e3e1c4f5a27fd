-- ===== src/Input.antt =====
-- crates/dshare-input: capture and injection of input, a module for each operating system.
pub mod Windows
pub mod Linux
pub mod Backend
