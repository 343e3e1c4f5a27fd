-- ===== src/Lib.antt =====
-- A model of dshare, which shares a mouse, a keyboard and the clipboard between machines over TCP.
--
-- The server captures input by Windows hooks, which offer messages to a channel; while the grab
-- flag is on, the session's loop takes them off it and sends them to the peer in length-prefixed
-- frames; the client decodes the frames and injects the input. A hotkey flips the flag.
--
-- Which file models which part (paths from the repository's root):
--   Protocol         crates/dshare-protocol/src/lib.rs: the messages and errors.
--   Protocol.Codec   crates/dshare-protocol/src/codec.rs: `decode` and `encode` of MessageCodec. Its
--                    children: Frame (one frame), Stream (the reader that calls `decode` on what has
--                    arrived), Transfer (sender to receiver), Refusals (errors and short buffers),
--                    UnitTests (the tests of the file, over any bincode).
--   Protocol.Keycode crates/dshare-protocol/src/keycode.rs: `vk_to_evdev`.
--   Core.Layout      crates/dshare-core/src/layout.rs: `check_edge`. Spec says in plain geometry what
--                    it is to answer.
--   Core.Config      crates/dshare-core/src/config.rs: `load`, `save`, the default path.
--   Core.Session     crates/dshare-core/src/session.rs: the two loops of PeerSession, and
--                    in Tasks two connected sessions as a step relation.
--   Input.Windows    crates/dshare-input/src/windows.rs: Keys and Inject (WinInject), Hooks (the two
--                    hook callbacks), Thread (WinCapture and its hook thread, as a step relation).
--   Input.Linux      crates/dshare-input/src/linux.rs: LinuxInject; Device is its `new`.
--   Input.Backend    crates/dshare-input/src/lib.rs: which backend a platform has; LinuxCapture.
--   Clipboard        crates/dshare-clipboard/src/lib.rs: the watcher and `apply`; in Tasks the two at
--                    work on one machine, lock by lock.
--   App              crates/dshare/src/main.rs: Handshake, Server and Client are the parts of
--                    `handle_peer`; in Server the hooks, the channel and the loop run as one system,
--                    and in its child Peers the hooks of several peers as one chain; in
--                    Merge the streams that `select!` takes from. EndToEnd follows an event from a
--                    hook to the client's device: ToWindows and ToLinux mouse and keys from a
--                    Windows server to a client of either kind, Desk the pointer's way meanwhile;
--                    Platform is a server with its platform's backend.
--                    Cli is `main` and what it starts, Smoke the two test commands, with what becomes
--                    of the machine's own input meanwhile in Blocking, and what the self-test does
--                    to the pointer in SelfTest.
--   Gui              crates/dshare-gui/src/lib.rs: the window as a state, and a frame of it as an
--                    operation on the state and the file system. Preview is `layout_preview` over an
--                    arithmetic that stands for f32; its child Exact is one without rounding, in
--                    fortieths of a point, of which a pixel of a screen takes six.
--   Base             what all share: lists and numbers, i32 arithmetic, tables, texts.
--   Tests            concrete runs, and each theorem at an input that meets its hypotheses.
--
-- How code corresponds to definitions. A function that changes state returns the new state; a
-- buffer is the list of its bytes; a String is the list of its UTF-8 bytes. An i32 is an integer in
-- its range; where the source leaves the range, an argument `checks` chooses between a panic (a
-- debug build) and the wrapped value (a release build), and `none` is a panic. What the operating
-- system and other crates do enters as arguments: the outcome of each send and read, the state of
-- the keys, the messages that a full channel drops. bincode, toml and std::fs are records of
-- functions, whose documented round trips are hypotheses where they are needed. The constants of
-- evdev are an argument; those of Win32 are constructors, one for each name in the source.
--
-- Fuel. `drain` calls `decode` on a buffer until it asks for more; a frame takes four bytes at
-- least, so the buffer's length plus one is enough (Protocol.Codec.Stream, `drain_all-rest`).
-- `decimal` has as many rounds as its number, more than it has digits.
--
-- Not modelled: the parsing of the command line (clap's), logging, how tokio schedules the tasks,
-- and the labels of the GUI, the Status tab among them, which are constant texts. The rounding of
-- f32 is not: the statement on the preview is about the arithmetic without rounding.
pub mod Base
pub mod Protocol
pub mod Core
pub mod Input
pub mod App
pub mod Clipboard
pub mod Tests
pub mod Gui
