-- ===== src/App.antt =====
-- crates/dshare/src/main.rs: `Handshake` is the exchange of Hello at the start of `handle_peer`,
-- `Server` its capture loop together with the hooks, `Client` its inject loop; `EndToEnd` is all of
-- them in a row.
pub mod Handshake
pub mod Client
pub mod Server
pub mod EndToEnd
pub mod Platform
pub mod Smoke
pub mod Cli
