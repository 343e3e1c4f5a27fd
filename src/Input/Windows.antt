-- ===== src/Input/Windows.antt =====
-- crates/dshare-input/src/windows.rs: `Keys` has the tables of the inject side, `Inject` the calls of
-- SendInput, `Hooks` the two hook callbacks of the capture side.
pub mod Keys
pub mod RoundTrip
pub mod Inject
pub mod Delivery
pub mod Hooks
pub mod Thread
