-- ===== src/Protocol.antt =====
-- crates/dshare-protocol/src/lib.rs: the messages that peers exchange and the errors of the codec.
-- A Uuid is its 128-bit number; a String is the list of its UTF-8 bytes, as is a Vec<u8>.
pub mod Codec
pub mod Keycode
use dshare.Base.{ℕ, List, Bool, Option, ℤ}

abbrev pub Bytes : Type 0
Bytes = List ℕ

abbrev pub protocol_version : ℕ
protocol_version = 1

abbrev pub default_port : ℕ
default_port = 24800

pub record ScreenInfo : Type 0 where
  pub width : ℕ
  pub height : ℕ

pub record Hello : Type 0 where
  pub protocol_version : ℕ
  pub peer_id : ℕ
  pub hostname : Bytes
  pub screen : ScreenInfo

pub data MouseButton : Type 0 where
  left right middle back forward : MouseButton

pub record KeyModifiers : Type 0 where
  pub shift : Bool
  pub ctrl : Bool
  pub alt : Bool
  pub meta : Bool

pub data Message : Type 0 where
  hello : Hello → Message
  hello_ack : (accepted : Bool) → (reason : Option Bytes) → Message
  enter_screen : (x y : ℤ) → Message
  leave_screen : Message
  mouse_move : (dx dy : ℤ) → Message
  mouse_warp : (x y : ℤ) → Message
  mouse_button : (button : MouseButton) → (pressed : Bool) → Message
  mouse_wheel : (dx dy : ℤ) → Message
  key_event : (keycode : ℕ) → (pressed : Bool) → (modifiers : KeyModifiers) → Message
  clipboard_update : (mime content : Bytes) → Message
  ping : (nonce : ℕ) → Message
  pong : (nonce : ℕ) → Message

-- `E` is bincode's ErrorKind. The payload of an io error is its description.
pub data ProtocolError (E : Type 0) : Type 0 where
  io : Bytes → ProtocolError E
  encode_error : E → ProtocolError E
  frame_too_large : ℕ → ProtocolError E
  version_mismatch : (peer ours : ℕ) → ProtocolError E
