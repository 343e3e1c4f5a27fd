-- ===== src/Protocol/Codec/UnitTests/Passing.antt =====
-- The unit tests of crates/dshare-protocol/src/codec.rs, run over a faithful bincode.
use dshare.Base.{
  ◌<◌, ◌≤◌, ◌≡◌, refl, append-nil, true, some, [], ◌∷◌, ◌++◌, pos, negsuc, ok, length, All, arith,
}
use dshare.Protocol.{Bytes, Message, mouse_move, mouse_button, key_event, ping, pong, right}
use dshare.Protocol.Codec.{
  Bincode, IsFaithful, from_be_bytes, max_frame_bytes, u32_bytes, deserialized, decode,
}
use dshare.Protocol.Codec.Refusals.{decode-frame_prefix}
use dshare.Protocol.Codec.Frame.{frame, encode-frame, decode-frame}
use dshare.Protocol.Codec.UnitTests.{
  same_text, original, mods, encoded, decoded, roundtrip, yields_none, hello_roundtrip,
  mouse_events_roundtrip, key_event_roundtrip, partial_frame_returns_none, oversized_frame_rejected,
  two_messages_in_one_buffer,
}

module _ {E : Type 0} (bincode : Bincode E) where
  -- A message that `encode` writes.
  abbrev pub Fits : Message → Type 0
  Fits m =
      (payload : Bytes) × (bincode.serialize m ≡ ok payload) × (length payload ≤ max_frame_bytes)

  encoded_lem :
      (m : Message) (dst : Bytes)
      → (fits : Fits m) → encoded bincode m dst ≡ some (dst ++ frame fits.0)
  unfolding encoded
  encoded_lem m dst (payload, s, h) = ground (arith, encode-frame bincode m payload dst s h)

  module _ (faithful : IsFaithful bincode) where
    decoded_lem :
        (m : Message) (rest : Bytes)
        → (fits : Fits m) → decoded bincode (frame fits.0 ++ rest) ≡ some (m, rest)
    unfolding decoded deserialized
    decoded_lem m rest (payload, s, h) =
        ground (arith, decode-frame bincode payload rest h, faithful m payload s)

    -- The helper of the tests returns the message that it is given.
    roundtrip_lem : (m : Message) → Fits m → roundtrip bincode m ≡ some m
    unfolding roundtrip
    roundtrip_lem m fits =
        let back = rw (append-nil (frame fits.0)) at (decoded_lem m [] fits) in
        rw (roundtrip, encoded_lem m [] fits) (rw back refl)

    partial_frame :
        (fits : Fits (ping 42)) → 1 < length fits.0 → partial_frame_returns_none bincode ≡ true
    unfolding partial_frame_returns_none yields_none u32_bytes
    partial_frame ((a ∷ b ∷ payload), s, h) long =
        let header = u32_bytes (length (a ∷ b ∷ payload)) in
        rw (partial_frame_returns_none, encoded_lem (ping 42) [] (a ∷ b ∷ payload, s, h))
          (rw
            (
              yields_none,
              decode-frame_prefix bincode (a ∷ b ∷ payload) (header ++ (a ∷ [])) payload b h refl,
            )
            refl)
    partial_frame ((a ∷ []), s, h) long = absurd (omega arith)
    partial_frame ([], s, h) long = absurd (omega arith)

    oversized_frame : oversized_frame_rejected bincode ≡ true
    unfolding oversized_frame_rejected decode from_be_bytes u32_bytes
    oversized_frame = refl

    two_messages : Fits (ping 1) → Fits (pong 1) → two_messages_in_one_buffer bincode ≡ true
    unfolding two_messages_in_one_buffer yields_none decode
    two_messages one two =
        let first = decoded_lem (ping 1) (frame two.0) one in
        let second = rw (append-nil (frame two.0)) at (decoded_lem (pong 1) [] two) in
        rw (two_messages_in_one_buffer, encoded_lem (ping 1) [] one)
          (rw (encoded_lem (pong 1) (frame one.0) two) (rw first (rw second refl)))

    -- The unit tests pass, if what they encode is serialized within the cap, and Ping into more
    -- than one byte.
    codec_tests_pass :
        Fits original
        → Fits (mouse_move (negsuc 4) (pos 12))
        → Fits (mouse_button right true)
        → Fits (key_event 35 true mods)
        → (ping_42 : Fits (ping 42)) → Fits (ping 1)
        → Fits (pong 1)
        → 1 < length ping_42.0
        → All
            (λ passed. passed ≡ true)
            (hello_roundtrip bincode
              ∷ mouse_events_roundtrip bincode
              ∷ key_event_roundtrip bincode
              ∷ partial_frame_returns_none bincode
              ∷ oversized_frame_rejected bincode
              ∷ two_messages_in_one_buffer bincode
              ∷ [])
    unfolding hello_roundtrip same_text mouse_events_roundtrip key_event_roundtrip
    codec_tests_pass f_hello f_move f_button f_key f_42 f_ping f_pong long =
        let moved = roundtrip_lem (mouse_move (negsuc 4) (pos 12)) f_move in
        let clicked = roundtrip_lem (mouse_button right true) f_button in
        (
          rw (hello_roundtrip, roundtrip_lem original f_hello) refl,
          (
            rw (mouse_events_roundtrip, moved, clicked) refl,
            (
              rw (key_event_roundtrip, roundtrip_lem (key_event 35 true mods) f_key) refl,
              (partial_frame f_42 long, (oversized_frame, (two_messages f_ping f_pong, tt))),
            ),
          ),
        )
