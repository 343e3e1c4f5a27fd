-- ===== src/Core.antt =====
-- crates/dshare-core: the layout of the screens, the configuration on disk and the peer session.
pub mod Layout
pub mod Config
pub mod Session
