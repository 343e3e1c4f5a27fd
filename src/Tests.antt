-- ===== src/Tests.antt =====
-- Runs of the model at concrete inputs, and the theorems at inputs that meet their hypotheses.
mod Codec
mod Wire
mod Session
mod Layout
mod Keys
mod Inject
mod Hooks
mod App
mod EndToEnd
mod Clipboard
mod Config
mod Peers
mod Gui
mod Thread
mod Platform
mod Smoke
mod Cli
