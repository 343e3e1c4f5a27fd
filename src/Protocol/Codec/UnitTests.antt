-- ===== src/Protocol/Codec/UnitTests.antt =====
-- The unit tests of crates/dshare-protocol/src/codec.rs, over any bincode. A test that panics is
-- `false`, a value that does not come to be `none`.
pub mod Passing
use dshare.Base.{
  ℕ, ◌+◌, ◌%◌, ◌^◌, ◌<◌, ◌≤◌, ◌≡◌, refl, sym, append-nil, ap, Bool, true, false, not, Option, none,
  some, List, [], ◌∷◌, ◌++◌, ℤ, pos, negsuc, Result, ok, err, codes, length, take, All, ◌==◌, ◌&&◌,
  ◌>>=◌, if◌then◌else◌, arith,
}
use dshare.Protocol.{
  Bytes, Message, hello, mouse_move, mouse_button, key_event, ping, pong, MouseButton, right,
  KeyModifiers, protocol_version, ProtocolError, frame_too_large,
}
use dshare.Protocol.Codec.{
  Bincode, IsFaithful, from_be_bytes, max_frame_bytes, u32_bytes, deserialized, decode, encode,
}
use dshare.Protocol.Codec.Refusals.{decode-frame_prefix}
use dshare.Protocol.Codec.Frame.{frame, encode-frame, decode-frame}

-- `assert_eq!` on two texts.
unfoldable pub same_text : Bytes → Bytes → Bool
same_text [] [] = true
same_text (a ∷ s) (b ∷ t) = (a == b) && same_text s t
same_text _ _ = false

abbrev pub original : Message
original = hello (record {
  protocol_version = protocol_version;
  peer_id = 0;
  hostname = codes "test";
  screen = record { width = 1920; height = 1080 };
})

abbrev pub mods : KeyModifiers
mods = record { shift = true; ctrl = false; alt = false; meta = false }

module _ {E : Type 0} (bincode : Bincode E) where
  -- `codec.encode(msg, &mut buf).expect("encode")`: the buffer then.
  unfoldable pub encoded : Message → Bytes → Option Bytes
  encoded msg buf =
      let (r, after) = encode bincode msg buf in elim r [ ok _ ↦ some after | err _ ↦ none ]

  -- `codec.decode(&mut buf).unwrap().unwrap()`: the message and the buffer then.
  unfoldable pub decoded : Bytes → Option (Message × Bytes)
  decoded buf =
      let (r, after) = decode bincode buf in
      elim r [ ok (some msg) ↦ some (msg, after) | ok none ↦ none | err _ ↦ none ]

  unfoldable pub roundtrip : Message → Option Message
  unfolding encoded decoded
  roundtrip msg = do buf ← encoded msg []; (back, after) ← decoded buf; some back

  -- `codec.decode(&mut buf).expect("decode").is_none()`
  unfoldable pub yields_none : Bytes → Bool
  yields_none buf = elim (decode bincode buf).0 [
    | ok none ↦ true
    | ok (some _) ↦ false
    | err _ ↦ false
  ]

  unfoldable pub hello_roundtrip : Bool
  unfolding roundtrip same_text
  hello_roundtrip = elim (roundtrip original) [
    | some (hello h) ↦ same_text h.hostname (codes "test") && (h.screen.width == 1920)
    | _ ↦ false
  ]

  unfoldable pub mouse_events_roundtrip : Bool
  unfolding roundtrip
  mouse_events_roundtrip =
      let moved : Bool = elim (roundtrip (mouse_move (negsuc 4) (pos 12))) [
        | some (mouse_move (negsuc dx) (pos dy)) ↦ (dx == 4) && (dy == 12)
        | _ ↦ false
      ] in
      let clicked : Bool = elim (roundtrip (mouse_button right true)) [
        | some (mouse_button right pressed) ↦ pressed
        | _ ↦ false
      ] in
      moved && clicked

  unfoldable pub key_event_roundtrip : Bool
  unfolding roundtrip
  key_event_roundtrip = elim (roundtrip (key_event 35 true mods)) [
    | some (key_event code pressed modifiers) ↦
        (code == 35) && pressed && modifiers.shift && not modifiers.ctrl
    | _ ↦ false
  ]

  unfoldable pub partial_frame_returns_none : Bool
  unfolding encoded yields_none
  partial_frame_returns_none = elim (encoded (ping 42) []) [
    | some buf ↦ yields_none (take 5 buf)
    | none ↦ false
  ]

  unfoldable pub oversized_frame_rejected : Bool
  oversized_frame_rejected =
      elim (decode bincode ([] ++ u32_bytes ((max_frame_bytes + 1) % 2 ^ 32))).0 [
        | err (frame_too_large n) ↦ n == max_frame_bytes + 1
        | _ ↦ false
      ]

  unfoldable pub two_messages_in_one_buffer : Bool
  unfolding encoded decoded yields_none
  two_messages_in_one_buffer =
      let read : Option (Message × Message × Bytes) = (do
        one ← encoded (ping 1) []
        both ← encoded (pong 1) one
        (first, rest) ← decoded both
        (second, end) ← decoded rest
        some (first, second, end)) in
      elim read [ some (ping m, pong n, end) ↦ (m == 1) && (n == 1) && yields_none end | _ ↦ false ]
